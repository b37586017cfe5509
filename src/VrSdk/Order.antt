-- ===== src/VrSdk/Order.antt =====
-- The order of the keys in the map of features.
use vr_admin.Prelude.{
  ℕ, ◌≡◌, refl, true, false, Option, none, some, Option-cases, inl, inr, [], ◌∷◌, arith,
}
use vr_admin.CString.{Bytes, strcmp}
use vr_admin.VrSdk.{FeatureMap, VrSdk, string_lt, find, insert, add_external_sdk_item}

abbrev Precedes : Bytes → FeatureMap → Type 0
Precedes k [] = Unit {0}
Precedes k ((j, g) ∷ m) = string_lt k j ≡ true

-- The keys ascend, so no key is there twice.
abbrev pub IsAscending : FeatureMap → Type 0
IsAscending [] = Unit {0}
IsAscending ((k, f) ∷ m) = Precedes k m × IsAscending m

string_lt_total : (a b : Bytes) → string_lt a b ≡ false → strcmp a b ≡ false → string_lt b a ≡ true
unfolding string_lt strcmp
string_lt_total [] [] h e = cc
string_lt_total [] (y ∷ b) h e = cc
string_lt_total (x ∷ a) [] h e = refl
string_lt_total (x ∷ a) (y ∷ b) h e = ground (arith, string_lt_total a b)

insert-Precedes :
    (j k : Bytes) (f : ℕ) (m : FeatureMap)
    → string_lt j k ≡ true
    → Precedes j m
    → Precedes j (insert k f m)
unfolding insert
insert-Precedes j k f [] h p = h
insert-Precedes j k f ((i, g) ∷ m) h p = ground arith

insert-IsAscending :
    (k : Bytes) (f : ℕ) (m : FeatureMap)
    → find k m ≡ none
    → IsAscending m
    → IsAscending (insert k f m)
unfolding insert find
insert-IsAscending k f [] h a = (tt, tt)
insert-IsAscending k f ((j, g) ∷ m) h (p, a) =
    ground (arith, string_lt_total k j, insert-Precedes j k f m, insert-IsAscending k f m)

-- `addExternalSDKItem` keeps the keys of the map in ascending order, on every branch.
pub add_external_sdk_item-IsAscending :
    (v : Option Bytes) (f : ℕ) (sdk : VrSdk)
    → IsAscending sdk.vfs
    → IsAscending (add_external_sdk_item v f sdk).0.vfs
unfolding add_external_sdk_item
add_external_sdk_item-IsAscending none f sdk a = a
add_external_sdk_item-IsAscending (some v) f sdk a = elim (Option-cases (find v sdk.vfs)) [
  | inl e ↦ rw (e, add_external_sdk_item) (insert-IsAscending v f sdk.vfs e a)
  | inr (g, e) ↦ rw (e, add_external_sdk_item) a
]
