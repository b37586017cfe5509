-- ===== src/AdminService/Settings.antt =====
-- The settings of `activityEnter`, `activityLeave` and `binderDied`, down to the system.
use vr_admin.Prelude.{◌≡◌, refl, false, Bool-cases, inl, inr, Option, some, pos, Exec, ok}
use vr_admin.CString.{Bytes, codes, strcmp, snprintf, digits, format_lu, format_d}
use vr_admin.NativeService.System.{Os}
use vr_admin.NativeService.{
  VrNativeService, node_path, check_names, check_numbers, check_access_node_perm, set_system_node,
  set_property,
}
use vr_admin.Binder.Platform.{Parcels, ParcelLaws}
use vr_admin.Binder.Remote.{native_proxy-Forwards}
use vr_admin.Binder.{ArgumentOrder, Remote}
use vr_admin.Server.{State, native_service}
use vr_admin.Server.Access.{client}
use vr_admin.Jni.{JString, native_set_system_node, native_set_property}
use vr_admin.AdminService.{
  msm_cmd_autorefresh, vr_gralloc_property, VrManager, stub_set_system_node, stub_set_property,
  set_status, activity_enter, activity_leave,
}

-- The node that the service writes is not in the white list of the native service.
autorefresh_unlisted : check_access_node_perm (some msm_cmd_autorefresh) ≡ false
unfolding check_access_node_perm check_numbers check_names node_path snprintf digits format_lu
    format_d strcmp
autorefresh_unlisted = refl

autorefresh_untouched :
    (os : Os) (value : Bytes) (w : os.World)
    → (set_system_node os msm_cmd_autorefresh value w).1 ≡ w
unfolding set_system_node
autorefresh_untouched os value w = elim (Bool-cases (os.access msm_cmd_autorefresh w)) [
  | inl e ↦ rw (e, autorefresh_unlisted) refl
  | inr e ↦ rw e refl
]

module _ (parcels : Parcels) (laws : ParcelLaws parcels) (os : Os) (order : ArgumentOrder)
    (base : Remote parcels (State os parcels.Event))
    (get_string_utf_chars : JString → Exec (Option Bytes))
    (works : (s : Bytes) → get_string_utf_chars (some s) ≡ ok (some s)) where
  open parcels use {Event}
  open os use {World}

  -- The manager of a process that finds the service.
  abbrev pub connected : VrManager get_string_utf_chars Event (State os Event)
  connected = some (some (client parcels laws os order base))

  stub_set_property_lem :
      (key value : Bytes) (w : World) (s : VrNativeService Event)
      → stub_set_property get_string_utf_chars Event
          (State os Event)
          connected
          (some key)
          (some value)
          (w, s)
        ≡ ok ((set_property os key value w).0, ((set_property os key value w).1, s))
  unfolding stub_set_property native_set_property
  stub_set_property_lem key value w s =
      rw (works key, works value)
        ((native_proxy-Forwards parcels laws (State os Event) order base
            (native_service os Event)).set_attr
          key value (w, s))

  stub_set_system_node_lem :
      (path value : Bytes) (w : World) (s : VrNativeService Event)
      → stub_set_system_node get_string_utf_chars Event
          (State os Event)
          connected
          (some path)
          (some value)
          (w, s)
        ≡ ok ((set_system_node os path value w).0, ((set_system_node os path value w).1, s))
  unfolding stub_set_system_node native_set_system_node
  stub_set_system_node_lem path value w s =
      rw (works path, works value)
        ((native_proxy-Forwards parcels laws (State os Event) order base
            (native_service os Event)).set_node
          path value (w, s))

  pub set_status_lem :
      (value : Bytes) (w : World) (s : VrNativeService Event)
      → set_status get_string_utf_chars Event (State os Event) connected value (w, s)
        ≡ ok ((set_property os vr_gralloc_property value w).1, s)
  set_status_lem value w s = rw (
    stub_set_property_lem vr_gralloc_property value w s,
    stub_set_system_node_lem msm_cmd_autorefresh value
        (set_property os vr_gralloc_property value w).1 s,
    autorefresh_untouched os value (set_property os vr_gralloc_property value w).1,
  )

  -- If parcels are queues and `GetStringUTFChars` gives the characters of strings that are not null,
  -- then, where the native service is found, `activityEnter` and `activityLeave` return 0 and set the
  -- property to 1 and to 0, and this is all that happens to the system: the node for the automatic
  -- refresh, which they are to write as well, is not in the white list of the native service, and is
  -- neither opened nor written.
  pub activity_property_only :
      (w : World) (s : VrNativeService Event)
      → (activity_enter get_string_utf_chars Event (State os Event) connected (w, s)
          ≡ ok (pos 0, ((set_property os vr_gralloc_property (codes "1") w).1, s)))
        × (activity_leave get_string_utf_chars Event (State os Event) connected (w, s)
            ≡ ok (pos 0, ((set_property os vr_gralloc_property (codes "0") w).1, s)))
  unfolding activity_enter activity_leave
  activity_property_only w s =
      (rw (set_status_lem (codes "1") w s) refl, rw (set_status_lem (codes "0") w s) refl)
