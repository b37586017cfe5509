-- ===== src/Binder.antt =====
-- jni/binder/IVRNativeService.h, IVRNativeService.cpp and IVRPostEvent.h: the two interfaces, and of the
-- first the proxy, which writes a call into a parcel, and the stub, which reads it and makes it.
pub mod Platform
pub mod Dispatch
pub mod Reads
pub mod Remote
pub mod Post
pub mod Events
pub mod Guards
use vr_admin.Prelude.{
  ℕ, ◌+◌, Bool, eqb_ℤ, ◌==◌, if◌then◌else◌, Option, none, some, [], ℤ, pos, Exec, ok, undefined,
  ◌>>=◌,
}
use vr_admin.CString.{Bytes, codes}
use Platform.{Parcels}

-- `IVRNativeService`: the operations by their codes. An operation passes a state along; one with a
-- String8& takes what it is and gives what it becomes.
pub record NativeInterface (Event World : Type 0) : Type 0 where
  pub get_node : Bytes → Bytes → World → Exec (ℤ × Bytes × World)
  pub set_node : Bytes → Bytes → World → Exec (ℤ × World)
  pub syscall : Bytes → Bytes → World → Exec (ℤ × Bytes × World)
  pub get_attr : Bytes → Bytes → World → Exec (ℤ × Bytes × World)
  pub set_attr : Bytes → Bytes → World → Exec (ℤ × World)
  pub set_sched : ℤ → ℤ → ℤ → World → Exec (ℤ × World)
  pub set_post_event : Option Event → World → Exec (ℤ × World)

-- `IVRPostEvent`; `none` is a null text.
pub record EventInterface (World : Type 0) : Type 0 where
  pub post : ℤ → ℤ → ℤ → Option Bytes → World → Exec (ℤ × World)

abbrev pub native_descriptor : Bytes
native_descriptor = codes "com.android.VRAdmin.IVRNativeService"

abbrev pub event_descriptor : Bytes
event_descriptor = codes "com.android.VRAdmin.IVRPostEvent"

-- The orders in which a compiler may evaluate three arguments of a call, named by the arguments that
-- are evaluated first, second and third.
pub data ArgumentOrder : Type 0 where
  first_second_third : ArgumentOrder
  first_third_second : ArgumentOrder
  second_first_third : ArgumentOrder
  second_third_first : ArgumentOrder
  third_first_second : ArgumentOrder
  third_second_first : ArgumentOrder

-- The three arguments, from the values in the order of their evaluation.
unfoldable pub arguments : ArgumentOrder → ℤ → ℤ → ℤ → ℤ × ℤ × ℤ
arguments first_second_third a b c = (a, b, c)
arguments first_third_second a b c = (a, c, b)
arguments second_first_third a b c = (b, a, c)
arguments second_third_first a b c = (c, a, b)
arguments third_first_second a b c = (b, c, a)
arguments third_second_first a b c = (c, b, a)

module _ (parcels : Parcels) (World : Type 0) where
  open parcels use {
    Parcel, Event, empty, write_token, write_string, write_int, write_binder, check_interface,
    read_string, read_int, read_binder, first_call, permission_denied,
  }

  -- The codes of the transactions.
  abbrev vraction_getnode : ℕ
  vraction_getnode = first_call

  abbrev vraction_setnode : ℕ
  vraction_setnode = first_call + 1

  abbrev vraction_syscall : ℕ
  vraction_syscall = first_call + 2

  abbrev vraction_getattr : ℕ
  vraction_getattr = first_call + 3

  abbrev vraction_setattr : ℕ
  vraction_setattr = first_call + 4

  abbrev vraction_setsched : ℕ
  vraction_setsched = first_call + 5

  abbrev vraction_setposteventobj : ℕ
  vraction_setposteventobj = first_call + 6

  -- `transact` of a remote object: the code, the data and the reply; a status and the reply after it.
  abbrev pub Remote : Type 0
  Remote = ℕ → Parcel → Parcel → World → Exec (ℤ × Parcel × World)

  abbrev pub native_token : Parcel
  native_token = write_token native_descriptor empty

  abbrev pub result_of : ℤ × Parcel × World → Exec (ℤ × World)
  result_of (status, reply, w) =
      if eqb_ℤ status (pos 0) then ok ((read_int reply).0, w) else ok (status, w)

  abbrev text_of : Bytes → ℤ × Parcel × World → Exec (ℤ × Bytes × World)
  text_of value (status, reply, w) =
      if eqb_ℤ status (pos 0)
      then ok ((read_int (read_string reply).1).0, (read_string reply).0, w)
      else ok (status, value, w)

  -- `BpVRNativeService`.
  abbrev pub native_proxy : Remote → NativeInterface Event World
  native_proxy remote = record {
    get_node = λ path value w.
        remote vraction_getnode (write_string path native_token) empty w >>= text_of value;
    set_node = λ path value w.
        remote vraction_setnode (write_string value (write_string path native_token)) empty w
        >>= result_of;
    syscall = λ cmd result w.
        remote vraction_syscall (write_string cmd native_token) empty w >>= text_of result;
    get_attr = λ key value w.
        remote vraction_getattr (write_string key native_token) empty w >>= text_of value;
    set_attr = λ key value w.
        remote vraction_setattr (write_string value (write_string key native_token)) empty w
        >>= result_of;
    set_sched = λ tid policy pri w.
        remote vraction_setsched (write_int pri (write_int policy (write_int tid native_token)))
          empty w
        >>= result_of;
    set_post_event = λ event w.
        remote vraction_setposteventobj (write_binder event native_token) empty w >>= result_of;
  }

  -- The reply to a call with a text, and to one without.
  abbrev reply_text : Parcel → ℤ × Bytes × World → Exec (ℤ × Parcel × World)
  reply_text reply (ret, text, w) = ok (pos 0, write_int ret (write_string text reply), w)

  abbrev pub reply_result : Parcel → ℤ × World → Exec (ℤ × Parcel × World)
  reply_result reply (ret, w) = ok (pos 0, write_int ret reply, w)

  -- `CHECK_INTERFACE`, and what follows it on the rest of the data.
  abbrev pub checked :
      Bytes
      → Parcel
      → Parcel
      → World
      → (Parcel → Exec (ℤ × Parcel × World))
      → Exec (ℤ × Parcel × World)
  checked descriptor parcel reply w k =
      let (same, rest) = check_interface descriptor parcel in
      if same then k rest else ok (permission_denied, reply, w)

  abbrev on_get_node :
      NativeInterface Event World → Parcel → World → Parcel → Exec (ℤ × Parcel × World)
  on_get_node service reply w parcel =
      service.get_node (read_string parcel).0 [] w >>= reply_text reply

  abbrev on_set_node :
      NativeInterface Event World → Parcel → World → Parcel → Exec (ℤ × Parcel × World)
  on_set_node service reply w parcel =
      let (path, parcel') = read_string parcel in
      let (value, parcel'') = read_string parcel' in
      service.set_node path value w >>= reply_result reply

  abbrev on_syscall :
      NativeInterface Event World → Parcel → World → Parcel → Exec (ℤ × Parcel × World)
  on_syscall service reply w parcel =
      service.syscall (read_string parcel).0 [] w >>= reply_text reply

  abbrev on_get_attr :
      NativeInterface Event World → Parcel → World → Parcel → Exec (ℤ × Parcel × World)
  on_get_attr service reply w parcel =
      service.get_attr (read_string parcel).0 [] w >>= reply_text reply

  abbrev on_set_attr :
      NativeInterface Event World → Parcel → World → Parcel → Exec (ℤ × Parcel × World)
  on_set_attr service reply w parcel =
      let (key, parcel') = read_string parcel in
      let (value, parcel'') = read_string parcel' in
      service.set_attr key value w >>= reply_result reply

  -- The three reads are arguments of one call.
  abbrev on_set_sched :
      ArgumentOrder
      → NativeInterface Event World
      → Parcel
      → World
      → Parcel
      → Exec (ℤ × Parcel × World)
  on_set_sched order service reply w parcel =
      let (a, parcel') = read_int parcel in
      let (b, parcel'') = read_int parcel' in
      let (c, parcel''') = read_int parcel'' in
      let (tid, policy, pri) = arguments order a b c in
      service.set_sched tid policy pri w >>= reply_result reply

  abbrev on_set_post_event :
      NativeInterface Event World → Parcel → World → Parcel → Exec (ℤ × Parcel × World)
  on_set_post_event service reply w parcel =
      service.set_post_event (read_binder parcel).0 w >>= reply_result reply

  -- `BnVRNativeService::onTransact`; `base` is that of BBinder.
  unfoldable pub native_transact : ArgumentOrder → Remote → NativeInterface Event World → Remote
  native_transact order base service code parcel reply w =
      if code == vraction_getnode
      then checked native_descriptor parcel reply w (on_get_node service reply w)
      else if code == vraction_setnode
      then checked native_descriptor parcel reply w (on_set_node service reply w)
      else if code == vraction_syscall
      then checked native_descriptor parcel reply w (on_syscall service reply w)
      else if code == vraction_getattr
      then checked native_descriptor parcel reply w (on_get_attr service reply w)
      else if code == vraction_setattr
      then checked native_descriptor parcel reply w (on_set_attr service reply w)
      else if code == vraction_setsched
      then checked native_descriptor parcel reply w (on_set_sched order service reply w)
      else if code == vraction_setposteventobj
      then checked native_descriptor parcel reply w (on_set_post_event service reply w)
      else base code parcel reply w
