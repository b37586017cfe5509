-- ===== src/Server.antt =====
-- jni/main/main_vrserver.cpp: the service as the binder serves it, `BnVRNativeService` with the
-- operations of VRNativeService.
pub mod Access
pub mod Main
use vr_admin.Prelude.{ℤ, Option, Exec, ok, ◌>>=◌}
use vr_admin.CString.{Bytes}
use vr_admin.NativeService.System.{Os}
use vr_admin.NativeService.{
  VrNativeService, get_system_node, set_system_node, system_call, get_property, set_property,
  set_thread_scheduler, set_post_event_obj,
}
use vr_admin.Binder.{NativeInterface}

module _ (os : Os) (Event : Type 0) where
  open os use {World}

  -- The state of the system and the object of the service.
  abbrev pub State : Type 0
  State = World × VrNativeService Event

  abbrev with_text : VrNativeService Event → ℤ × Bytes × World → Exec (ℤ × Bytes × State)
  with_text s (ret, text, w) = ok (ret, text, (w, s))

  abbrev with_result : VrNativeService Event → ℤ × World → Exec (ℤ × State)
  with_result s (ret, w) = ok (ret, (w, s))

  abbrev with_object : World → ℤ × VrNativeService Event → Exec (ℤ × State)
  with_object w (ret, s) = ok (ret, (w, s))

  -- The virtual functions of VRNativeService.
  abbrev pub native_service : NativeInterface Event State
  native_service = record {
    get_node = λ path value (w, s). get_system_node os path value w >>= with_text s;
    set_node = λ path value (w, s). with_result s (set_system_node os path value w);
    syscall = λ cmd result (w, s). system_call os cmd result w >>= with_text s;
    get_attr = λ key value (w, s). with_text s (get_property os key value w);
    set_attr = λ key value (w, s). with_result s (set_property os key value w);
    set_sched = λ tid policy pri (w, s). with_result s (set_thread_scheduler os tid policy pri w);
    set_post_event = λ event (w, s). with_object w (set_post_event_obj event s);
  }
