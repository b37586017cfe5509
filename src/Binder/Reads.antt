-- ===== src/Binder/Reads.antt =====
-- What is read back from the parcels of the proxies and the stubs.
use vr_admin.Prelude.{◌≡◌, refl, true, [], ◌∷◌, ℤ, Exec, ok, undefined, ◌>>=◌}
use vr_admin.CString.{Bytes}
use vr_admin.Binder.Platform.{Parcels, ParcelLaws, token, string, int}
use vr_admin.Binder.{native_descriptor, native_token, text_of, result_of, reply_text, reply_result}

module _ (parcels : Parcels) (laws : ParcelLaws parcels) (World : Type 0) where
  open parcels use {
    Parcel, Event, empty, write_token, write_string, write_int, write_binder, check_interface,
    read_string, read_int, read_binder, first_call, permission_denied,
  }
  open laws use {
    items, items-empty, items-token, items-string, items-int, items-binder, token-same, string-read,
    int-read, binder-read,
  }

  -- What was answered with a text is what the proxy returns.
  pub text-reply :
      (value : Bytes) (answer : Exec (ℤ × Bytes × World))
      → (answer >>= reply_text parcels World empty >>= text_of parcels World value) ≡ answer
  text-reply value undefined = refl
  text-reply value (ok (ret, text, w)) =
      let held : items (write_int ret (write_string text empty)) ≡ string text ∷ int ret ∷ [] =
        rw (items-int, items-string, items-empty) refl in
      let (s, rest) = string-read text _ _ held in
      let (n, none_left) = int-read ret _ _ rest in rw (s, n) refl

  pub result-reply :
      (answer : Exec (ℤ × World))
      → (answer >>= reply_result parcels World empty >>= result_of parcels World) ≡ answer
  result-reply undefined = refl
  result-reply (ok (ret, w)) =
      let held : items (write_int ret empty) ≡ int ret ∷ [] = rw (items-int, items-empty) refl in
      let (n, none_left) = int-read ret _ _ held in rw n refl

  pub token_held : items (native_token parcels World) ≡ token native_descriptor ∷ []
  token_held = rw (items-token, items-empty) refl

  -- The reads of one text and of two.
  text_held :
      (a : Bytes)
      → items (write_string a (native_token parcels World))
        ≡ token native_descriptor ∷ string a ∷ []
  text_held a = rw (items-string, token_held) refl

  texts_held :
      (a b : Bytes)
      → items (write_string b (write_string a (native_token parcels World)))
        ≡ token native_descriptor ∷ string a ∷ string b ∷ []
  texts_held a b = rw (items-string, text_held) refl

  -- What the stub finds in the two: its token, and the texts.
  abbrev checked_parcel : Parcel → Parcel
  checked_parcel p = (check_interface native_descriptor p).1

  pub text_read :
      (a : Bytes)
      → ((check_interface native_descriptor (write_string a (native_token parcels World))).0 ≡ true)
        × ((read_string (checked_parcel (write_string a (native_token parcels World)))).0 ≡ a)
  text_read a =
      let (same, rest) = token-same native_descriptor _ _ (text_held a) in
      let (read, left) = string-read a _ _ rest in (same, read)

  pub texts_read :
      (a b : Bytes)
      → ((check_interface native_descriptor
            (write_string b (write_string a (native_token parcels World)))).0
          ≡ true)
        × ((read_string
              (checked_parcel (write_string b (write_string a (native_token parcels World))))).0
            ≡ a)
        × ((read_string
              (read_string (
                checked_parcel (write_string b (write_string a (native_token parcels World))))).1).0
            ≡ b)
  texts_read a b =
      let (same, rest) = token-same native_descriptor _ _ (texts_held a b) in
      let (read, more) = string-read a _ _ rest in
      let (read', left) = string-read b _ _ more in (same, read, read')
