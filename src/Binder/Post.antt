-- ===== src/Binder/Post.antt =====
-- jni/binder/IVRPostEvent.cpp: the proxy and the stub of the receiver of events.
use vr_admin.Prelude.{ℕ, eqb_ℤ, ◌==◌, if◌then◌else◌, Option, none, some, ℤ, pos, Exec, ◌>>=◌}
use vr_admin.CString.{Bytes, codes}
use vr_admin.Binder.Platform.{Parcels}
use vr_admin.Binder.{EventInterface, event_descriptor, Remote, result_of, checked, reply_result}

module _ (parcels : Parcels) (World : Type 0) where
  open parcels use {
    Parcel, empty, write_token, write_string, write_int, read_string, read_int, first_call,
  }

  -- The code of the transaction.
  abbrev vraction_postevent : ℕ
  vraction_postevent = first_call

  -- The optional text of an event, behind a flag.
  abbrev pub write_text : Option Bytes → Parcel → Parcel
  write_text none p = write_int (pos 0) p
  write_text (some s) p = write_string s (write_int (pos 1) p)

  -- `BpVRPostEvent`.
  abbrev pub event_proxy : Remote parcels World → EventInterface World
  event_proxy remote = record {
    post = λ what arg1 arg2 str w.
        remote vraction_postevent
          (write_text str
            (write_int arg2 (write_int arg1 (write_int what (write_token event_descriptor empty)))))
          empty w
        >>= result_of parcels World;
  }

  abbrev pub read_text : ℤ → Parcel → Option Bytes
  read_text bstr parcel =
      if eqb_ℤ bstr (pos 0) then some (codes "null") else some (read_string parcel).0

  abbrev pub on_post : EventInterface World → Parcel → World → Parcel → Exec (ℤ × Parcel × World)
  on_post handler reply w parcel =
      let (what, parcel') = read_int parcel in
      let (arg1, parcel'') = read_int parcel' in
      let (arg2, parcel''') = read_int parcel'' in
      let (bstr, rest) = read_int parcel''' in
      handler.post what arg1 arg2 (read_text bstr rest) w >>= reply_result parcels World reply

  -- `BnVRPostEvent::onTransact`.
  unfoldable pub event_transact : Remote parcels World → EventInterface World → Remote parcels World
  event_transact base handler code parcel reply w =
      if code == vraction_postevent
      then checked parcels World event_descriptor parcel reply w (on_post handler reply w)
      else base code parcel reply w
