-- ===== src/XmlDatabase.antt =====
-- jni/main/XmlDatabase.h and XmlDatabase.cpp: the SDKs that the information files describe.
pub mod Libxml
pub mod Types
pub mod TypeList
pub mod Search
pub mod Parser
pub mod Outcomes
pub mod Refusals
pub mod Texts
pub mod Resources
pub mod Objects
use vr_admin.Prelude.{
  ℕ, zero, suc, ◌≡◌, Bool, true, false, if◌then◌else◌, Option, none, some, List, [], ◌∷◌, ◌++◌,
  length, ℤ, pos, minus_one,
}
use vr_admin.CString.{Bytes, codes, strcmp, strcasecmp, atoll, to_uint64}
use vr_admin.VrSdk.{VrSdk, PropertyCalls, new_sdk, add_external_sdk_item}
use Libxml.{Xml}

pub record XmlDatabase : Type 0 where
  pub sdks : List VrSdk

-- The constructor.
abbrev pub empty_database : XmlDatabase
empty_database = record { sdks = [] }

-- The types behind a first one, each after a `^`.
unfoldable pub append_types : List VrSdk → Bytes
append_types [] = []
append_types (sdk ∷ sdks) = b'^' ∷ (sdk.type ++ append_types sdks)

unfoldable pub join_types : List VrSdk → Bytes
unfolding append_types
join_types [] = []
join_types (sdk ∷ sdks) = sdk.type ++ append_types sdks

unfoldable pub get_all_sdk_types : XmlDatabase → Bytes
unfolding join_types
get_all_sdk_types db = join_types db.sdks

unfoldable pub first_of_type : Bytes → List VrSdk → Option VrSdk
unfolding strcasecmp
first_of_type type [] = none
first_of_type type (sdk ∷ sdks) =
    if strcasecmp type sdk.type then some sdk else first_of_type type sdks

unfoldable pub get_sdk : Bytes → XmlDatabase → Option VrSdk
unfolding first_of_type
get_sdk type db = first_of_type type db.sdks

unfoldable pub get_sdks_count : XmlDatabase → ℕ
get_sdks_count db = length db.sdks

-- The place in `mData` of the SDK with exactly this type: what the code keeps as a pointer to it.
unfoldable pub index_of_type : Bytes → List VrSdk → Option ℕ
unfolding strcmp
index_of_type type [] = none
index_of_type type (sdk ∷ sdks) =
    if strcmp type sdk.type then some 0 else shift (index_of_type type sdks)
  where
    shift : Option ℕ → Option ℕ
    shift none = none
    shift (some i) = some (suc i)

-- `_GenerateSDK`: the place of the SDK, the database and the properties set. `none` is a null result.
unfoldable pub generate_sdk :
    Option Bytes
    → Option Bytes
    → XmlDatabase
    → PropertyCalls
    → Option (ℕ × XmlDatabase × PropertyCalls)
unfolding index_of_type new_sdk
generate_sdk none version db calls = none
generate_sdk (some type) none db calls = none
generate_sdk (some type) (some version) db calls = elim (index_of_type type db.sdks) [
  | some i ↦ some (i, db, calls)
  | none ↦
      let (sdk, calls') = new_sdk type version calls in
      some (length db.sdks, record { sdks = db.sdks ++ (sdk ∷ []) }, calls')
]

-- A method call through the pointer to the i-th SDK.
unfoldable pub update_at : ℕ → (VrSdk → VrSdk) → List VrSdk → List VrSdk
update_at i g [] = []
update_at zero g (sdk ∷ sdks) = g sdk ∷ sdks
update_at (suc i) g (sdk ∷ sdks) = sdk ∷ update_at i g sdks

-- `!xmlStrcmp(curNode->name, "ExternalSDK")`, which a null name does not meet.
unfoldable pub is_external_sdk : Option Bytes → Bool
unfolding strcmp
is_external_sdk none = false
is_external_sdk (some n) = strcmp n (codes "ExternalSDK")

abbrev pub add_item : Option Bytes → Option Bytes → VrSdk → VrSdk
add_item (some pro) (some val) sdk =
    (add_external_sdk_item (some pro) (to_uint64 (atoll val)) sdk).0
add_item pro val sdk = sdk

-- The result, the database and the properties set.
abbrev pub Parsed : Type 0
Parsed = ℤ × XmlDatabase × PropertyCalls

module _ (xml : Xml) where
  open xml use {Doc, Node, read_file, root, name, get_prop, get_content, children, next}

  -- The body of the loop over the children of the root.
  unfoldable pub visit_node : Node → VrSdk → VrSdk
  unfolding is_external_sdk add_external_sdk_item atoll to_uint64
  visit_node node sdk =
      if is_external_sdk (name node)
      then add_item (get_prop node (codes "Version")) (get_content node) sdk
      else sdk

  -- The loop `while (curNode)` with fuel; `none` means that the fuel ran out.
  unfoldable pub visit_nodes : ℕ → Option Node → ℕ → XmlDatabase → Option XmlDatabase
  unfolding visit_node update_at
  visit_nodes zero cur_node i db = none
  visit_nodes (suc fuel) none i db = some db
  visit_nodes (suc fuel) (some cur_node) i db =
      visit_nodes fuel (next cur_node) i
        (record { sdks = update_at i (visit_node cur_node) db.sdks })

  abbrev pub parse_children :
      ℕ → Node → Option (ℕ × XmlDatabase × PropertyCalls) → Parsed → Option Parsed
  parse_children fuel cur_node none unchanged = some unchanged
  parse_children fuel cur_node (some (i, db, calls)) unchanged =
      elim (visit_nodes fuel (children cur_node) i db) [
        | none ↦ none
        | some db' ↦ some (pos 0, db', calls)
      ]

  abbrev pub parse_root : ℕ → Option Node → XmlDatabase → PropertyCalls → Option Parsed
  parse_root fuel none db calls = some (minus_one, db, calls)
  parse_root fuel (some cur_node) db calls =
      parse_children fuel cur_node
        (generate_sdk (name cur_node) (get_prop cur_node (codes "Version")) db calls)
        (minus_one, db, calls)

  abbrev pub parse_doc : ℕ → Option Doc → XmlDatabase → PropertyCalls → Option Parsed
  parse_doc fuel none db calls = some (minus_one, db, calls)
  parse_doc fuel (some doc) db calls = parse_root fuel (root doc) db calls

  -- `parser`: -1 for a null path, a file that cannot be read, an empty document and a root element
  -- with no name or no version; then nothing is changed.
  unfoldable pub parser : ℕ → Option Bytes → XmlDatabase → PropertyCalls → Option Parsed
  unfolding visit_nodes generate_sdk
  parser fuel none db calls = some (minus_one, db, calls)
  parser fuel (some filepath) db calls = parse_doc fuel (read_file filepath) db calls
