-- ===== src/VrSdk.antt =====
-- jni/main/VrSDK.h and VrSDK.cpp: one SDK with its version and the features of its external SDKs.
pub mod Features
pub mod Order
use vr_admin.Prelude.{
  ℕ, ◌≡◌, Bool, true, false, ltb, ◌==◌, if◌then◌else◌, Option, none, some, List, [], ◌∷◌, ◌++◌, map,
  ℤ, pos, minus_one,
}
use vr_admin.CString.{Bytes, codes, strcmp, tolower, snprintf, before_dot}

-- `std::map<std::string, uint64_t>`, in the order of its keys.
abbrev pub FeatureMap : Type 0
FeatureMap = List (Bytes × ℕ)

pub record VrSdk : Type 0 where
  pub type : Bytes
  pub version : Bytes
  pub vfs : FeatureMap

-- `a < b` on std::string, which orders the map.
unfoldable pub string_lt : Bytes → Bytes → Bool
string_lt [] [] = false
string_lt [] (y ∷ b) = true
string_lt (x ∷ a) [] = false
string_lt (x ∷ a) (y ∷ b) = if ltb x y then true else if x == y then string_lt a b else false

unfoldable pub find : Bytes → FeatureMap → Option ℕ
unfolding strcmp
find k [] = none
find k ((j, f) ∷ m) = if strcmp k j then some f else find k m

unfoldable pub insert : Bytes → ℕ → FeatureMap → FeatureMap
unfolding string_lt
insert k f [] = (k, f) ∷ []
insert k f ((j, g) ∷ m) = if string_lt k j then (k, f) ∷ (j, g) ∷ m else (j, g) ∷ insert k f m

-- The calls of `property_set` that were made, in order; the program only logs their status.
abbrev pub PropertyCalls : Type 0
PropertyCalls = List (Bytes × Bytes)

-- The property that carries the version: `snprintf(prop, 127, "vr.%s.version", buff)`.
unfoldable pub version_property : Bytes → Bytes
unfolding snprintf tolower
version_property type = snprintf 127 (codes "vr." ++ (map tolower type ++ codes ".version"))

-- The constructor, with the calls of `property_set` before and after it.
unfoldable pub new_sdk : Bytes → Bytes → PropertyCalls → VrSdk × PropertyCalls
unfolding version_property
new_sdk type version calls = (
  record { type = type; version = version; vfs = [] },
  calls ++ ((version_property type, version) ∷ []),
)

-- `addExternalSDKItem`, with a result of -1 for a null version, 1 for one that is there, 0 otherwise.
unfoldable pub add_external_sdk_item : Option Bytes → ℕ → VrSdk → VrSdk × ℤ
unfolding find insert
add_external_sdk_item none f sdk = (sdk, minus_one)
add_external_sdk_item (some v) f sdk = elim (find v sdk.vfs) [
  | some old ↦ (sdk, pos 1)
  | none ↦ (record sdk { vfs = insert v f sdk.vfs }, pos 0)
]

abbrev pub feature_or_zero : Option ℕ → ℕ
feature_or_zero none = 0
feature_or_zero (some f) = f

-- `getFeature`: 0 for a null version and for one that is not there.
unfoldable pub get_feature : Option Bytes → VrSdk → ℕ
unfolding find before_dot
get_feature none sdk = 0
get_feature (some v) sdk = feature_or_zero (find (before_dot v) sdk.vfs)
