-- ===== src/XmlDatabase/Search.antt =====
-- `getSDK`: what the search by type finds.
use mathlib.Core.Path.{subst}
use vr_admin.Prelude.{
  ◌≡◌, refl, inl, inr, ap, true, false, Bool-cases, Option, none, some, List, [], ◌∷◌, ◌++◌, All,
  arith,
}
use vr_admin.CString.{Bytes, strcasecmp}
use vr_admin.VrSdk.{VrSdk}
use vr_admin.XmlDatabase.{XmlDatabase, first_of_type, get_sdk}

abbrev Mismatch : Bytes → VrSdk → Type 0
Mismatch type sdk = strcasecmp type sdk.type ≡ false

-- The first SDK of the list whose type matches, with those before and behind it.
pub record IsFirstMatch (type : Bytes) (sdks : List VrSdk) (sdk : VrSdk) : Type 0 where
  pub before : List VrSdk
  pub after : List VrSdk
  pub parts : sdks ≡ before ++ (sdk ∷ after)
  pub match : strcasecmp type sdk.type ≡ true
  pub skipped : All (Mismatch type) before

abbrev pub Search : Bytes → List VrSdk → Option VrSdk → Type 0
Search type sdks none = All (Mismatch type) sdks
Search type sdks (some sdk) = IsFirstMatch type sdks sdk

later_match :
    (type : Bytes) (x : VrSdk) (sdks : List VrSdk) (r : Option VrSdk)
    → Mismatch type x
    → Search type sdks r
    → Search type (x ∷ sdks) r
later_match type x sdks none h s = (h, s)
later_match type x sdks (some sdk) h s = record {
  before = x ∷ s.before;
  after = s.after;
  parts = ap (◌∷◌ x) s.parts;
  match = s.match;
  skipped = (h, s.skipped);
}

first_of_type-Search :
    (type : Bytes) (sdks : List VrSdk) → Search type sdks (first_of_type type sdks)
unfolding first_of_type
first_of_type-Search type [] = tt
first_of_type-Search type (x ∷ sdks) = elim (Bool-cases (strcasecmp type x.type)) [
  | inl e ↦
      rw (e, first_of_type)
        (record { before = []; after = sdks; parts = refl; match = e; skipped = tt })
  | inr e ↦ rw (e, first_of_type) (later_match type x sdks _ e (first_of_type-Search type sdks))
]

-- `getSDK` returns the first SDK whose type is the one asked for up to case, and null only if there
-- is none.
pub get_sdk-Search : (type : Bytes) (db : XmlDatabase) → Search type db.sdks (get_sdk type db)
unfolding get_sdk
get_sdk-Search type db = first_of_type-Search type db.sdks

first_of_type-All :
    (P : VrSdk → Type 0) (type : Bytes) (sdks : List VrSdk) (sdk : VrSdk)
    → All P sdks
    → first_of_type type sdks ≡ some sdk
    → P sdk
unfolding first_of_type
first_of_type-All P type [] sdk h e = cc
first_of_type-All P type (x ∷ sdks) sdk (hx, h) e = elim (Bool-cases (strcasecmp type x.type)) [
  | inl t ↦ let same : x ≡ sdk = ground arith in subst P same hx
  | inr t ↦ first_of_type-All P type sdks sdk h (ground arith)
]

-- What holds of every SDK holds of the one that `getSDK` finds.
pub get_sdk-All :
    (P : VrSdk → Type 0) (type : Bytes) (db : XmlDatabase) {sdk : VrSdk}
    → All P db.sdks
    → get_sdk type db ≡ some sdk
    → P sdk
unfolding get_sdk
get_sdk-All P type db {sdk} h e = first_of_type-All P type db.sdks sdk h e
