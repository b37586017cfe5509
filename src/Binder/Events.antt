-- ===== src/Binder/Events.antt =====
-- Events that are posted through the proxy of `IVRPostEvent`.
use vr_admin.Prelude.{◌≡◌, refl, Option, none, some, [], ◌∷◌, ℤ, pos, arith}
use vr_admin.CString.{Bytes, codes}
use vr_admin.Binder.Platform.{Parcels, ParcelLaws, token, string, int}
use vr_admin.Binder.Reads.{result-reply}
use vr_admin.Binder.{EventInterface, event_descriptor, Remote, checked}
use vr_admin.Binder.Post.{event_proxy, event_transact, on_post}

-- The text that the handler gets.
abbrev pub arriving : Option Bytes → Bytes
arriving none = codes "null"
arriving (some s) = s

module _ (parcels : Parcels) (laws : ParcelLaws parcels) (World : Type 0) where
  open parcels use {
    Parcel, Event, empty, write_token, write_string, write_int, check_interface, read_string,
    read_int, first_call,
  }
  open laws use {
    items, items-empty, items-token, items-string, items-int, token-same, string-read, int-read,
  }

  module _ (base : Remote parcels World) (handler : EventInterface World) where
    transact_post :
        (packed reply : Parcel) (w : World)
        → event_transact parcels World base handler first_call packed reply w
          ≡ checked parcels World event_descriptor packed reply w
              (on_post parcels World handler reply w)
    unfolding event_transact
    transact_post packed reply w = ground arith

    abbrev head : ℤ → ℤ → ℤ → Parcel
    head what arg1 arg2 =
        write_int arg2 (write_int arg1 (write_int what (write_token event_descriptor empty)))

    head_held :
        (what arg1 arg2 : ℤ)
        → items (head what arg1 arg2) ≡ token event_descriptor ∷ int what ∷ int arg1 ∷ int arg2 ∷ []
    head_held what arg1 arg2 = rw (items-int, items-int, items-int, items-token, items-empty) refl

    -- If parcels are queues, an event that is posted through the proxy reaches the handler as it is
    -- and with its result returned, but a null text arrives as the text `null`.
    pub event_proxy_lem :
        (what arg1 arg2 : ℤ) (str : Option Bytes) (w : World)
        → (event_proxy parcels World (event_transact parcels World base handler)).post what arg1
            arg2 str w
          ≡ handler.post what arg1 arg2 (some (arriving str)) w
    event_proxy_lem what arg1 arg2 none w =
        let held : items (write_int (pos 0) (head what arg1 arg2))
            ≡ token event_descriptor ∷ int what ∷ int arg1 ∷ int arg2 ∷ int (pos 0) ∷ [] =
          rw (items-int (pos 0), head_held) refl in
        let (same, r0) = token-same event_descriptor _ _ held in
        let (e1, r1) = int-read what _ _ r0 in
        let (e2, r2) = int-read arg1 _ _ r1 in
        let (e3, r3) = int-read arg2 _ _ r2 in
        let (e4, r4) = int-read (pos 0) _ _ r3 in
        rw (transact_post (write_int (pos 0) (head what arg1 arg2)) empty w, same, e1, e2, e3, e4)
          (result-reply parcels laws World (handler.post what arg1 arg2 (some (codes "null")) w))
    event_proxy_lem what arg1 arg2 (some s) w =
        let held : items (write_string s (write_int (pos 1) (head what arg1 arg2)))
            ≡ token event_descriptor
              ∷ int what
              ∷ int arg1
              ∷ int arg2
              ∷ int (pos 1)
              ∷ string s
              ∷ [] =
          rw (items-string, items-int (pos 1), head_held) refl in
        let (same, r0) = token-same event_descriptor _ _ held in
        let (e1, r1) = int-read what _ _ r0 in
        let (e2, r2) = int-read arg1 _ _ r1 in
        let (e3, r3) = int-read arg2 _ _ r2 in
        let (e4, r4) = int-read (pos 1) _ _ r3 in
        let (e5, r5) = string-read s _ _ r4 in
        rw
          (
            transact_post (write_string s (write_int (pos 1) (head what arg1 arg2))) empty w,
            same,
            e1,
            e2,
            e3,
            e4,
            e5,
          )
          (result-reply parcels laws World (handler.post what arg1 arg2 (some s) w))
