-- ===== src/VrSdk/Features.antt =====
-- What `getFeature` returns after `addExternalSDKItem`, and the order of the map.
use vr_admin.Prelude.{
  ℕ, ◌≡◌, refl, ◌≢◌, inl, inr, ap, true, false, Option-cases, if◌then◌else◌, Option, none, some, [],
  ◌∷◌, ◌++◌, All, arith,
}
use vr_admin.CString.{Bytes, strcmp, before_dot}
use vr_admin.CString.Compare.{strcmp_sound}
use vr_admin.VrSdk.{FeatureMap, VrSdk, find, insert, add_external_sdk_item, get_feature}

-- The feature of a version after `f` is stated for it: an earlier one stays.
abbrev pub first_feature : ℕ → Option ℕ → ℕ
first_feature f none = f
first_feature f (some g) = g

pub find_same : (v w : Bytes) (m : FeatureMap) → strcmp w v ≡ true → find w m ≡ find v m
find_same v w m h = ap (λ x. find x m) (strcmp_sound w v h)

strcmp_euclid : (k i j : Bytes) → strcmp j k ≡ true → strcmp j i ≡ true → strcmp k i ≡ true
strcmp_euclid k i j hk hi = rw (strcmp_sound j k hk) at hi

-- A version that was not in the map is found with its feature; the others are as they were.
find-insert :
    (k j : Bytes) (f : ℕ) (m : FeatureMap)
    → find k m ≡ none
    → find j (insert k f m) ≡ (if strcmp j k then some f else find j m)
unfolding find insert
find-insert k j f [] h = refl
find-insert k j f ((i, g) ∷ m) h = ground (arith, find-insert k j f m, strcmp_euclid k i j)

pub find-add_external_sdk_item :
    (v j : Bytes) (f : ℕ) (sdk : VrSdk)
    → find j (add_external_sdk_item (some v) f sdk).0.vfs
      ≡ (if strcmp j v then some (first_feature f (find v sdk.vfs)) else find j sdk.vfs)
unfolding add_external_sdk_item
find-add_external_sdk_item v j f sdk = elim (Option-cases (find v sdk.vfs)) [
  | inl e ↦ rw (e, add_external_sdk_item, find-insert v j f sdk.vfs e) (ground arith)
  | inr (g, e) ↦ ground (arith, find_same v j sdk.vfs)
]

get_feature_first :
    (v w : Bytes) (f : ℕ) (sdk : VrSdk)
    → get_feature (some w) (add_external_sdk_item (some v) f sdk).0 ≡ (
        if strcmp (before_dot w) v
        then first_feature f (find v sdk.vfs)
        else get_feature (some w) sdk)
unfolding get_feature
get_feature_first v w f sdk = ground (arith, find-add_external_sdk_item v (before_dot w) f sdk)

abbrev LacksDot : Bytes → Type 0
LacksDot = All (λ c. c ≢ b'.')

before_dot-LacksDot : (w : Bytes) → LacksDot (before_dot w)
unfolding before_dot
before_dot-LacksDot [] = tt
before_dot-LacksDot (x ∷ w) = ground (arith, before_dot-LacksDot w)

strcmp_dotted : (s a b : Bytes) → LacksDot s → strcmp s (a ++ (b'.' ∷ b)) ≡ false
unfolding strcmp
strcmp_dotted [] [] b h = refl
strcmp_dotted [] (y ∷ a) b h = refl
strcmp_dotted (x ∷ s) [] b (hx, h) = ground arith
strcmp_dotted (x ∷ s) (y ∷ a) b (hx, h) = ground (arith, strcmp_dotted s a b h)

get_feature_dotted :
    (a b w : Bytes) (f : ℕ) (sdk : VrSdk)
    → get_feature (some w) (add_external_sdk_item (some (a ++ (b'.' ∷ b))) f sdk).0
      ≡ get_feature (some w) sdk
get_feature_dotted a b w f sdk = rw (
  get_feature_first (a ++ (b'.' ∷ b)) w f sdk,
  strcmp_dotted (before_dot w) a b (before_dot-LacksDot w),
)

-- After an item is added, a query for its version, whose dot and what is behind it do not count,
-- gives the feature that was stated first, and all other queries give what they gave before. An item
-- whose version has a dot in it is never found: adding one changes no answer.
pub get_feature-add_external_sdk_item :
    (v w a b : Bytes) (f : ℕ) (sdk : VrSdk)
    → (get_feature (some w) (add_external_sdk_item (some v) f sdk).0 ≡ (
        if strcmp (before_dot w) v
        then first_feature f (find v sdk.vfs)
        else get_feature (some w) sdk))
      × (get_feature (some w) (add_external_sdk_item (some (a ++ (b'.' ∷ b))) f sdk).0
          ≡ get_feature (some w) sdk)
get_feature-add_external_sdk_item v w a b f sdk =
    (get_feature_first v w f sdk, get_feature_dotted a b w f sdk)
