-- ===== src/XmlDatabase/Types.antt =====
-- The types of the SDKs that the database holds: no two are the same.
use vr_admin.Prelude.{
  ℕ, zero, suc, ◌≡◌, refl, ◌∙◌, ◌≢◌, inl, inr, sym, Option-cases, Option, none, some, List, [], ◌∷◌,
  ◌++◌, All, All-append, length, arith,
}
use vr_admin.CString.{Bytes}
use vr_admin.CString.Compare.{strcmp_iff}
use vr_admin.VrSdk.{VrSdk, PropertyCalls, version_property}
use vr_admin.XmlDatabase.{XmlDatabase, index_of_type, generate_sdk, update_at}

-- No SDK of the list has this type.
abbrev LacksType : Bytes → List VrSdk → Type 0
LacksType type = All (λ sdk. type ≢ sdk.type)

-- No two SDKs have the same type.
abbrev pub HasDistinctTypes : List VrSdk → Type 0
HasDistinctTypes [] = Unit {0}
HasDistinctTypes (sdk ∷ sdks) = LacksType sdk.type sdks × HasDistinctTypes sdks

pub index_of_type-none :
    (type : Bytes) (sdks : List VrSdk) → index_of_type type sdks ≡ none → LacksType type sdks
unfolding index_of_type
index_of_type-none type [] h = tt
index_of_type-none type (sdk ∷ sdks) h =
    (λ e. ground (arith, strcmp_iff type sdk.type), ground (arith, index_of_type-none type sdks))

pub LacksType-index_of_type :
    (type : Bytes) (sdks : List VrSdk) → LacksType type sdks → index_of_type type sdks ≡ none
unfolding index_of_type
LacksType-index_of_type type [] h = refl
LacksType-index_of_type type (sdk ∷ sdks) (ne, h) =
    ground (arith, strcmp_iff type sdk.type, LacksType-index_of_type type sdks h)

LacksType-append :
    (type : Bytes) (sdks : List VrSdk) (sdk : VrSdk)
    → LacksType type sdks
    → type ≢ sdk.type
    → LacksType type (sdks ++ (sdk ∷ []))
LacksType-append type sdks sdk h ne = All-append _ sdks (sdk ∷ []) h (ne, tt)

pub HasDistinctTypes-append :
    (sdks : List VrSdk) (sdk : VrSdk)
    → HasDistinctTypes sdks
    → LacksType sdk.type sdks
    → HasDistinctTypes (sdks ++ (sdk ∷ []))
HasDistinctTypes-append [] sdk h l = (tt, tt)
HasDistinctTypes-append (x ∷ sdks) sdk (lx, h) (ne, l) =
    (LacksType-append x.type sdks sdk lx (λ e. ne (sym e)), HasDistinctTypes-append sdks sdk h l)

-- An update that keeps the type of the SDK.
abbrev KeepsType : (VrSdk → VrSdk) → Type 0
KeepsType g = (sdk : VrSdk) → (g sdk).type ≡ sdk.type

LacksType-update_at :
    (type : Bytes) (i : ℕ) (g : VrSdk → VrSdk) (sdks : List VrSdk)
    → KeepsType g
    → LacksType type sdks
    → LacksType type (update_at i g sdks)
unfolding update_at
LacksType-update_at type zero g [] k h = tt
LacksType-update_at type (suc i) g [] k h = tt
LacksType-update_at type zero g (sdk ∷ sdks) k (ne, h) = ((λ e. ne (e ∙ k sdk)), h)
LacksType-update_at type (suc i) g (sdk ∷ sdks) k (ne, h) =
    (ne, LacksType-update_at type i g sdks k h)

pub HasDistinctTypes-update_at :
    (i : ℕ) (g : VrSdk → VrSdk) (sdks : List VrSdk)
    → KeepsType g
    → HasDistinctTypes sdks
    → HasDistinctTypes (update_at i g sdks)
unfolding update_at
HasDistinctTypes-update_at zero g [] k h = tt
HasDistinctTypes-update_at (suc i) g [] k h = tt
HasDistinctTypes-update_at zero g (sdk ∷ sdks) k (l, h) = (rw (k sdk) l, h)
HasDistinctTypes-update_at (suc i) g (sdk ∷ sdks) k (l, h) =
    (LacksType-update_at sdk.type i g sdks k l, HasDistinctTypes-update_at i g sdks k h)

pub generate_sdk-absent :
    (type version : Bytes) (db : XmlDatabase) (calls : PropertyCalls)
    → index_of_type type db.sdks ≡ none
    → generate_sdk (some type) (some version) db calls
      ≡ some (
        length db.sdks,
        record { sdks = db.sdks ++ (record { type = type; version = version; vfs = [] } ∷ []) },
        calls ++ ((version_property type, version) ∷ []),
      )
unfolding generate_sdk
generate_sdk-absent type version db calls e = rw (e, generate_sdk)

abbrev pub Generated : Option (ℕ × XmlDatabase × PropertyCalls) → Type 0
Generated none = Unit {0}
Generated (some (i, db, calls)) = HasDistinctTypes db.sdks

-- `_GenerateSDK` keeps the types of the database distinct.
pub generate_sdk-HasDistinctTypes :
    (type version : Option Bytes) (db : XmlDatabase) (calls : PropertyCalls)
    → HasDistinctTypes db.sdks
    → Generated (generate_sdk type version db calls)
unfolding generate_sdk
generate_sdk-HasDistinctTypes none version db calls h = tt
generate_sdk-HasDistinctTypes (some type) none db calls h = tt
generate_sdk-HasDistinctTypes (some type) (some version) db calls h =
    elim (Option-cases (index_of_type type db.sdks)) [
      | inl e ↦
          rw (e, generate_sdk)
            (HasDistinctTypes-append db.sdks _ h (index_of_type-none type db.sdks e))
      | inr (i, e) ↦ rw (e, generate_sdk) h
    ]
