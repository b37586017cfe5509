-- ===== src/XmlDatabase/Objects.antt =====
-- `mData` of jni/main/XmlDatabase.h and XmlDatabase.cpp as the code has it: pointers to SDKs on the
-- heap, which `_GenerateSDK` makes, `parser` writes through, and the destructor deletes.
pub mod Pointers
pub mod Refinement
pub mod Addresses
use vr_admin.Prelude.{
  ℕ, zero, suc, Bool, true, false, if◌then◌else◌, Option, none, some, List, [], ◌∷◌, ◌++◌, ℤ, pos,
  minus_one, Exec, ok, ◌>>=◌,
}
use vr_admin.CString.{Bytes, codes, strcmp, strcasecmp, atoll, to_uint64}
use vr_admin.Heap.{Heap, write_cell, live, delete_all}
use vr_admin.VrSdk.{VrSdk, PropertyCalls, new_sdk, add_external_sdk_item}
use vr_admin.XmlDatabase.Libxml.{Xml}
use vr_admin.XmlDatabase.{is_external_sdk}

-- `mData`, and the SDKs that live.
pub record SdkObjects : Type 0 where
  pub pointers : List ℕ
  pub heap : Heap VrSdk

abbrev pub no_sdks : SdkObjects
no_sdks = record { pointers = []; heap = λ p. none }

-- The search of `_GenerateSDK`, for exactly this type.
unfoldable pub find_type : Bytes → Heap VrSdk → List ℕ → Exec (Option ℕ)
find_type type heap [] = ok none
find_type type heap (p ∷ ps) =
    let rest = find_type type heap ps in
    (live (heap p) >>= λ sdk. if strcmp type sdk.type then ok (some p) else rest)

-- `getSDK`, whose result is a pointer.
unfoldable pub find_sdk : Bytes → Heap VrSdk → List ℕ → Exec (Option ℕ)
find_sdk type heap [] = ok none
find_sdk type heap (p ∷ ps) =
    let rest = find_sdk type heap ps in
    (live (heap p) >>= λ sdk. if strcasecmp type sdk.type then ok (some p) else rest)

unfoldable pub append_object_types : Heap VrSdk → List ℕ → Exec Bytes
append_object_types heap [] = ok []
append_object_types heap (p ∷ ps) = live (heap p) >>= λ sdk.
    append_object_types heap ps >>= λ types. ok (b'^' ∷ (sdk.type ++ types))

-- `getAllSDKTypes`.
unfoldable pub all_object_types : Heap VrSdk → List ℕ → Exec Bytes
unfolding append_object_types
all_object_types heap [] = ok []
all_object_types heap (p ∷ ps) =
    live (heap p) >>= λ sdk. append_object_types heap ps >>= λ types. ok (sdk.type ++ types)

abbrev push_sdk : ℕ → SdkObjects → VrSdk × PropertyCalls → ℕ × SdkObjects × PropertyCalls
push_sdk address o (sdk, calls) = (
  address,
  record { pointers = o.pointers ++ (address ∷ []); heap = write_cell o.heap address (some sdk) },
  calls,
)

abbrev pub found_or_new :
    ℕ → Bytes → Bytes → SdkObjects → PropertyCalls → Option ℕ → ℕ × SdkObjects × PropertyCalls
found_or_new address type version o calls (some p) = (p, o, calls)
found_or_new address type version o calls none = push_sdk address o (new_sdk type version calls)

-- `_GenerateSDK`, where `new` gives this address; `none` is a null result.
unfoldable pub generate_object :
    ℕ
    → Option Bytes
    → Option Bytes
    → SdkObjects
    → PropertyCalls
    → Exec (Option (ℕ × SdkObjects × PropertyCalls))
generate_object address none version o calls = ok none
generate_object address (some type) none o calls = ok none
generate_object address (some type) (some version) o calls =
    find_type type o.heap o.pointers >>= λ found.
    ok (some (found_or_new address type version o calls found))

-- `sdk->addExternalSDKItem(pro, atoll(val))`.
abbrev pub add_item_object : Option Bytes → Option Bytes → ℕ → Heap VrSdk → Exec (Heap VrSdk)
add_item_object (some pro) (some val) p heap = live (heap p) >>= λ sdk.
    ok (write_cell heap p (some (add_external_sdk_item (some pro) (to_uint64 (atoll val)) sdk).0))
add_item_object pro val p heap = ok heap

abbrev pub ParsedObjects : Type 0
ParsedObjects = ℤ × SdkObjects × PropertyCalls

abbrev pub parsed_objects : SdkObjects → PropertyCalls → Option (Heap VrSdk) → Option ParsedObjects
parsed_objects o calls none = none
parsed_objects o calls (some heap) = some (pos 0, record o { heap = heap }, calls)

module _ (xml : Xml) where
  open xml use {Doc, Node, read_file, root, name, get_prop, get_content, children, next}

  -- The body of the loop over the children of the root.
  unfoldable pub visit_object : Node → ℕ → Heap VrSdk → Exec (Heap VrSdk)
  visit_object node p heap =
      if is_external_sdk (name node)
      then add_item_object (get_prop node (codes "Version")) (get_content node) p heap
      else ok heap

  -- The loop, with the fuel of `visit_nodes`.
  unfoldable pub visit_objects : ℕ → Option Node → ℕ → Heap VrSdk → Exec (Option (Heap VrSdk))
  visit_objects zero cur_node p heap = ok none
  visit_objects (suc fuel) none p heap = ok (some heap)
  visit_objects (suc fuel) (some cur_node) p heap =
      visit_object cur_node p heap >>= λ heap'. visit_objects fuel (next cur_node) p heap'

  abbrev pub parse_object_children :
      ℕ
      → Node
      → ParsedObjects
      → Option (ℕ × SdkObjects × PropertyCalls)
      → Exec (Option ParsedObjects)
  parse_object_children fuel cur_node unchanged none = ok (some unchanged)
  parse_object_children fuel cur_node unchanged (some (p, o, calls)) =
      visit_objects fuel (children cur_node) p o.heap >>= λ r. ok (parsed_objects o calls r)

  abbrev pub parse_object_root :
      ℕ → ℕ → Option Node → SdkObjects → PropertyCalls → Exec (Option ParsedObjects)
  parse_object_root fuel address none o calls = ok (some (minus_one, o, calls))
  parse_object_root fuel address (some cur_node) o calls =
      generate_object address (name cur_node) (get_prop cur_node (codes "Version")) o calls
      >>= parse_object_children fuel cur_node (minus_one, o, calls)

  abbrev pub parse_object_doc :
      ℕ → ℕ → Option Doc → SdkObjects → PropertyCalls → Exec (Option ParsedObjects)
  parse_object_doc fuel address none o calls = ok (some (minus_one, o, calls))
  parse_object_doc fuel address (some doc) o calls =
      parse_object_root fuel address (root doc) o calls

  -- `parser`.
  unfoldable pub parse_objects :
      ℕ → ℕ → Option Bytes → SdkObjects → PropertyCalls → Exec (Option ParsedObjects)
  parse_objects fuel address none o calls = ok (some (minus_one, o, calls))
  parse_objects fuel address (some filepath) o calls =
      parse_object_doc fuel address (read_file filepath) o calls

-- The destructor: every SDK deleted, and the list cleared.
unfoldable pub destroy_sdks : SdkObjects → Exec SdkObjects
destroy_sdks o = delete_all o.pointers o.heap >>= λ heap. ok (record { pointers = []; heap = heap })
