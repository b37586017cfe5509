-- ===== src/Binder/Remote.antt =====
-- Calls through the proxies of the binder against the calls themselves.
use vr_admin.Prelude.{◌≡◌, refl, Option, [], ◌∷◌, ℤ}
use vr_admin.CString.{Bytes}
use vr_admin.Binder.Platform.{Parcels, ParcelLaws, token, int, binder}
use vr_admin.Binder.{
  NativeInterface, ArgumentOrder, arguments, native_descriptor, native_token, Remote, native_proxy,
  native_transact,
}
use vr_admin.Binder.Dispatch.{
  transact_get_node, transact_set_node, transact_syscall, transact_get_attr, transact_set_attr,
  transact_set_sched, transact_set_post_event,
}
use vr_admin.Binder.Reads.{text-reply, result-reply, token_held, text_read, texts_read}

module _ (parcels : Parcels) (laws : ParcelLaws parcels) (World : Type 0) where
  open parcels use {
    Parcel, Event, empty, write_token, write_string, write_int, write_binder, check_interface,
    read_string, read_int, read_binder, first_call, permission_denied,
  }
  open laws use {
    items, items-empty, items-token, items-string, items-int, items-binder, token-same, string-read,
    int-read, binder-read,
  }

  module _ (order : ArgumentOrder) (base : Remote parcels World)
      (service : NativeInterface Event World) where
    -- The operations of the proxy of the stub of the service.
    abbrev pub remote : NativeInterface Event World
    remote = native_proxy parcels World (native_transact parcels World order base service)

    get_node-remote : (a b : Bytes) (w : World) → remote.get_node a b w ≡ service.get_node a [] w
    get_node-remote a b w =
        let (same, read) = text_read parcels laws World a in
        rw
          (
            transact_get_node parcels World order base service
                (write_string a (native_token parcels World)) empty w,
            same,
            read,
          )
          (text-reply parcels laws World b (service.get_node a [] w))

    set_node-remote : (a b : Bytes) (w : World) → remote.set_node a b w ≡ service.set_node a b w
    set_node-remote a b w =
        let (same, read, read') = texts_read parcels laws World a b in
        rw
          (
            transact_set_node parcels World order base service
                (write_string b (write_string a (native_token parcels World))) empty w,
            same,
            read,
            read',
          )
          (result-reply parcels laws World (service.set_node a b w))

    syscall-remote : (a b : Bytes) (w : World) → remote.syscall a b w ≡ service.syscall a [] w
    syscall-remote a b w =
        let (same, read) = text_read parcels laws World a in
        rw
          (
            transact_syscall parcels World order base service
                (write_string a (native_token parcels World)) empty w,
            same,
            read,
          )
          (text-reply parcels laws World b (service.syscall a [] w))

    get_attr-remote : (a b : Bytes) (w : World) → remote.get_attr a b w ≡ service.get_attr a [] w
    get_attr-remote a b w =
        let (same, read) = text_read parcels laws World a in
        rw
          (
            transact_get_attr parcels World order base service
                (write_string a (native_token parcels World)) empty w,
            same,
            read,
          )
          (text-reply parcels laws World b (service.get_attr a [] w))

    set_attr-remote : (a b : Bytes) (w : World) → remote.set_attr a b w ≡ service.set_attr a b w
    set_attr-remote a b w =
        let (same, read, read') = texts_read parcels laws World a b in
        rw
          (
            transact_set_attr parcels World order base service
                (write_string b (write_string a (native_token parcels World))) empty w,
            same,
            read,
            read',
          )
          (result-reply parcels laws World (service.set_attr a b w))

    set_sched-remote :
        (tid policy pri : ℤ) (w : World)
        → remote.set_sched tid policy pri w
          ≡ (let (a, b, c) = arguments order tid policy pri in service.set_sched a b c w)
    set_sched-remote tid policy pri w =
        let held : items
              (write_int pri (write_int policy (write_int tid (native_token parcels World))))
            ≡ token native_descriptor ∷ int tid ∷ int policy ∷ int pri ∷ [] =
          rw (items-int, items-int, items-int, token_held parcels laws World) refl in
        let (same, rest) = token-same native_descriptor _ _ held in
        let (read, rest') = int-read tid _ _ rest in
        let (read', rest'') = int-read policy _ _ rest' in
        let (read'', left) = int-read pri _ _ rest'' in
        rw
          (
            transact_set_sched parcels World order base service
                (write_int pri (write_int policy (write_int tid (native_token parcels World))))
                empty w,
            same,
            read,
            read',
            read'',
          )
          (result-reply parcels laws World
            (let (a, b, c) = arguments order tid policy pri in service.set_sched a b c w))

    set_post_event-remote :
        (event : Option Event) (w : World)
        → remote.set_post_event event w ≡ service.set_post_event event w
    set_post_event-remote event w =
        let held : items (write_binder event (native_token parcels World))
            ≡ token native_descriptor ∷ binder event ∷ [] =
          rw (items-binder, token_held parcels laws World) refl in
        let (same, rest) = token-same native_descriptor _ _ held in
        let (read, left) = binder-read event _ _ rest in
        rw
          (
            transact_set_post_event parcels World order base service
                (write_binder event (native_token parcels World)) empty w,
            same,
            read,
          )
          (result-reply parcels laws World (service.set_post_event event w))

    -- A remote call is the call itself: with an empty text in place of what the caller passes by
    -- reference, and with the arguments of `setThreadScheduler` in the order in which the stub's
    -- compiler evaluates them.
    pub record Forwards : Type 0 where
      pub get_node :
          (path value : Bytes) (w : World)
          → remote.get_node path value w ≡ service.get_node path [] w
      pub set_node :
          (path value : Bytes) (w : World)
          → remote.set_node path value w ≡ service.set_node path value w
      pub syscall :
          (cmd result : Bytes) (w : World) → remote.syscall cmd result w ≡ service.syscall cmd [] w
      pub get_attr :
          (key value : Bytes) (w : World) → remote.get_attr key value w ≡ service.get_attr key [] w
      pub set_attr :
          (key value : Bytes) (w : World)
          → remote.set_attr key value w ≡ service.set_attr key value w
      pub set_sched :
          (tid policy pri : ℤ) (w : World)
          → remote.set_sched tid policy pri w
            ≡ (let (a, b, c) = arguments order tid policy pri in service.set_sched a b c w)
      pub set_post_event :
          (event : Option Event) (w : World)
          → remote.set_post_event event w ≡ service.set_post_event event w

    -- If parcels are queues, every call of the proxy whose transactions reach the stub is the call of
    -- the service itself, undefined behaviour included: a text passed by reference arrives empty, and
    -- the arguments of `setThreadScheduler` arrive in the order in which the stub evaluates them.
    pub native_proxy-Forwards : Forwards
    native_proxy-Forwards = record {
      get_node = get_node-remote;
      set_node = set_node-remote;
      syscall = syscall-remote;
      get_attr = get_attr-remote;
      set_attr = set_attr-remote;
      set_sched = set_sched-remote;
      set_post_event = set_post_event-remote;
    }
