-- ===== src/Server/Access.antt =====
-- What a client of the binder can do to the system.
use vr_admin.Prelude.{◌≡◌, ◌<◌, ◌∙◌, ap, some, [], length, ℤ, ok, ◌>>=◌}
use vr_admin.CString.{Bytes}
use vr_admin.NativeService.System.{Os}
use vr_admin.NativeService.Nodes.{
  WriteSession, WriteResults, Reads, set_system_node-WriteSession, set_system_node-WriteResults,
  get_system_node-Returns,
}
use vr_admin.NativeService.{VrNativeService, set_system_node}
use vr_admin.Binder.Platform.{Parcels, ParcelLaws}
use vr_admin.Binder.Remote.{remote, native_proxy-Forwards}
use vr_admin.Binder.{ArgumentOrder, Remote, NativeInterface}
use vr_admin.Server.{State, native_service, with_text}

module _ (parcels : Parcels) (laws : ParcelLaws parcels) (os : Os) (order : ArgumentOrder)
    (base : Remote parcels (State os parcels.Event)) where
  open parcels use {Event}
  open os use {World, open_read, read}

  -- The service as a client sees it.
  abbrev pub client : NativeInterface Event (State os Event)
  client = remote parcels laws (State os Event) order base (native_service os Event)

  -- Through the binder, too, a client writes to nodes of the white list only: `setSystemNode` returns
  -- without undefined behaviour, it opens, writes and closes such a node or none, its result tells
  -- what happened, and the service object is as it was.
  pub client_set_node :
      (path value : Bytes) (w : World) (s : VrNativeService Event)
      → (ret : ℤ) × (w' : World) × (client.set_node path value (w, s) ≡ ok (ret, (w', s)))
        × WriteSession os path value w w'
        × WriteResults os path value w ret
  client_set_node path value w s = (
    (set_system_node os path value w).0,
    (set_system_node os path value w).1,
    (native_proxy-Forwards parcels laws (State os Event) order base
          (native_service os Event)).set_node
        path value (w, s),
    set_system_node-WriteSession os path value w,
    set_system_node-WriteResults os path value w,
  )

  -- If a node gives fewer than 128 bytes, `getSystemNode` through the binder returns, opens, reads and
  -- closes a node of the white list or none, and gives the text that was read, or an error with the
  -- empty text, whatever text the client passed.
  pub client_get_node :
      (path value : Bytes) (w : World) (s : VrNativeService Event)
      → ((t : Bytes)
          → (read (open_read path w).0 128 (open_read path w).1).0 ≡ some t
          → length t < 128)
      → (ret : ℤ) × (text : Bytes) × (w' : World) × (client.get_node path value (w, s)
          ≡ ok (ret, text, (w', s)))
        × Reads os path [] w ret text w'
  client_get_node path value w s short =
      let (ret, text, w', e, reads) = get_system_node-Returns os path [] w short in
      (
        ret,
        text,
        w',
        (native_proxy-Forwards parcels laws (State os Event) order base
                (native_service os Event)).get_node
              path value (w, s)
            ∙ ap (λ m. m >>= with_text os Event s) e,
        reads,
      )
