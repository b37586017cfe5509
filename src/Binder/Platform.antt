-- ===== src/Binder/Platform.antt =====
-- The parcels of the binder, which the code calls but the repository does not hold: their
-- operations, and what the code relies on.
use vr_admin.Prelude.{ℕ, ◌≡◌, ◌≢◌, Bool, true, false, Option, List, [], ◌∷◌, ◌++◌, ℤ, pos}
use vr_admin.CString.{Bytes}

-- `none` is a null binder. An interface and the binder of its object are not told apart.
pub record Parcels : Type 1 where
  pub Parcel : Type 0
  pub Event : Type 0
  pub empty : Parcel
  pub write_token : Bytes → Parcel → Parcel
  pub write_string : Bytes → Parcel → Parcel
  pub write_int : ℤ → Parcel → Parcel
  pub write_binder : Option Event → Parcel → Parcel
  -- `CHECK_INTERFACE` reads the token and compares it.
  pub check_interface : Bytes → Parcel → Bool × Parcel
  pub read_string : Parcel → Bytes × Parcel
  pub read_int : Parcel → ℤ × Parcel
  pub read_binder : Parcel → Option Event × Parcel
  -- `IBinder::FIRST_CALL_TRANSACTION`, and the status of `CHECK_INTERFACE`.
  pub first_call : ℕ
  pub permission_denied : ℤ

-- What a parcel holds.
pub data Item (Event : Type 0) : Type 0 where
  token : Bytes → Item Event
  string : Bytes → Item Event
  int : ℤ → Item Event
  binder : Option Event → Item Event

module _ (parcels : Parcels) where
  open parcels use {
    Parcel, Event, empty, write_token, write_string, write_int, write_binder, check_interface,
    read_string, read_int, read_binder, permission_denied,
  }

  -- A parcel is a queue: what was written is read in the order of the writes.
  pub record ParcelLaws : Type 0 where
    pub items : Parcel → List (Item Event)
    pub items-empty : items empty ≡ []
    pub items-token : (t : Bytes) (p : Parcel) → items (write_token t p) ≡ items p ++ (token t ∷ [])
    pub items-string :
        (s : Bytes) (p : Parcel) → items (write_string s p) ≡ items p ++ (string s ∷ [])
    pub items-int : (n : ℤ) (p : Parcel) → items (write_int n p) ≡ items p ++ (int n ∷ [])
    pub items-binder :
        (e : Option Event) (p : Parcel) → items (write_binder e p) ≡ items p ++ (binder e ∷ [])
    pub token-same :
        (t : Bytes) (p : Parcel) (xs : List (Item Event))
        → items p ≡ token t ∷ xs
        → ((check_interface t p).0 ≡ true) × (items (check_interface t p).1 ≡ xs)
    pub token-other :
        (t u : Bytes) (p : Parcel) (xs : List (Item Event))
        → items p ≡ token u ∷ xs
        → u ≢ t
        → (check_interface t p).0 ≡ false
    pub string-read :
        (s : Bytes) (p : Parcel) (xs : List (Item Event))
        → items p ≡ string s ∷ xs
        → ((read_string p).0 ≡ s) × (items (read_string p).1 ≡ xs)
    pub int-read :
        (n : ℤ) (p : Parcel) (xs : List (Item Event))
        → items p ≡ int n ∷ xs
        → ((read_int p).0 ≡ n) × (items (read_int p).1 ≡ xs)
    pub binder-read :
        (e : Option Event) (p : Parcel) (xs : List (Item Event))
        → items p ≡ binder e ∷ xs
        → ((read_binder p).0 ≡ e) × (items (read_binder p).1 ≡ xs)
    pub denied : permission_denied ≢ pos 0
