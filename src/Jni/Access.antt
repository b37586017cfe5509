-- ===== src/Jni/Access.antt =====
-- From a Java call to the system, and from an event of the server to Java.
use vr_admin.Prelude.{◌≡◌, ◌<◌, ap, Option, some, [], length, ℤ, Exec, ok, ◌>>=◌}
use vr_admin.CString.{Bytes}
use vr_admin.NativeService.System.{Os}
use vr_admin.NativeService.Nodes.{WriteSession, WriteResults, Reads}
use vr_admin.NativeService.{VrNativeService}
use vr_admin.Binder.Platform.{Parcels, ParcelLaws}
use vr_admin.Binder.{ArgumentOrder, Remote}
use vr_admin.Server.{State}
use vr_admin.Server.Access.{client, client_set_node, client_get_node}
use vr_admin.Jni.{JString, Events, native_get_system_node, native_set_system_node, new_string}

module _ (parcels : Parcels) (laws : ParcelLaws parcels) (os : Os) (order : ArgumentOrder)
    (base : Remote parcels (State os parcels.Event))
    (get_string_utf_chars : JString → Exec (Option Bytes))
    (works : (s : Bytes) → get_string_utf_chars (some s) ≡ ok (some s)) where
  open parcels use {Event}
  open os use {World, open_read, read}

  -- If parcels are queues and `GetStringUTFChars` gives the characters of strings that are not null, a
  -- call of `native_setSystemNode` from Java with strings that are not null, through the binder to
  -- the service, returns without undefined behaviour; it writes to a node of the white list or to
  -- none, closes what it opened, and its result tells what happened.
  pub java_set_system_node :
      (path value : Bytes) (w : World) (s : VrNativeService Event)
      → (ret : ℤ) × (w' : World) × (native_set_system_node get_string_utf_chars Event
            (State os Event)
            (some (client parcels laws os order base))
            (some path)
            (some value)
            (w, s)
          ≡ ok (ret, (w', s)))
        × WriteSession os path value w w'
        × WriteResults os path value w ret
  unfolding native_set_system_node
  java_set_system_node path value w s =
      let (ret, w', e, session, results) =
        client_set_node parcels laws os order base path value w s in
      (ret, w', rw (works path, works value) e, session, results)

  -- If parcels are queues and `GetStringUTFChars` gives the characters of strings that are not null, a
  -- call of `native_getSystemNode` from Java for a path that is not null, through the binder to the
  -- service, returns if the node gives fewer than 128 bytes; it reads a node of the white list or
  -- none and closes what it opened. If the file exists and is in the white list, and is opened and
  -- read, Java gets the text that was read, up to its first 0; otherwise it gets the empty text.
  pub java_get_system_node :
      (path : Bytes) (w : World) (s : VrNativeService Event)
      → ((t : Bytes)
          → (read (open_read path w).0 128 (open_read path w).1).0 ≡ some t
          → length t < 128)
      → (ret : ℤ) × (text : Bytes) × (w' : World) × (native_get_system_node get_string_utf_chars
            Event
            (State os Event)
            (some (client parcels laws os order base))
            (some path)
            (w, s)
          ≡ ok (text, (w', s)))
        × Reads os path [] w ret text w'
  unfolding native_get_system_node
  java_get_system_node path w s short =
      let (ret, text, w', e, reads) =
        client_get_node parcels laws os order base path [] w s short in
      (
        ret,
        text,
        w',
        rw (works path) (ap (λ m. m >>= new_string get_string_utf_chars Event (State os Event)) e),
        reads,
      )
