-- ===== src/XmlDatabase/Objects/Addresses.antt =====
-- The addresses that `parser` takes: the pointers after it are those before it, and at most the one
-- that `new` gave.
use vr_admin.Prelude.{
  ℕ, ◌≢◌, Option, none, some, [], ◌∷◌, All-append, minus_one, Exec, ok, undefined, ◌>>=◌,
}
use vr_admin.CString.{Bytes, codes}
use vr_admin.Heap.{Heap, NotAt}
use vr_admin.VrSdk.{PropertyCalls}
use vr_admin.XmlDatabase.Libxml.{Xml}
use vr_admin.XmlDatabase.Objects.{
  SdkObjects, find_type, found_or_new, generate_object, visit_objects, ParsedObjects,
  parsed_objects, parse_object_children, parse_object_root, parse_object_doc, parse_objects,
}

abbrev pub IsWithin : ℕ → SdkObjects → Exec (Option ParsedObjects) → Type 0
IsWithin address o undefined = Unit {0}
IsWithin address o (ok none) = Unit {0}
IsWithin address o (ok (some (ret, o', calls))) =
    (q : ℕ) → NotAt q o.pointers → q ≢ address → NotAt q o'.pointers

module _ (xml : Xml) (fuel address : ℕ) (o : SdkObjects) (calls : PropertyCalls) where
  open xml use {Doc, Node, read_file, root, name, get_prop, get_content, children, next}

  visited-IsWithin :
      (o' : SdkObjects) (calls' : PropertyCalls) (run : Exec (Option (Heap _)))
      → ((q : ℕ) → NotAt q o.pointers → q ≢ address → NotAt q o'.pointers)
      → IsWithin address o (run >>= λ r. ok (parsed_objects o' calls' r))
  visited-IsWithin o' calls' undefined within = tt
  visited-IsWithin o' calls' (ok none) within = tt
  visited-IsWithin o' calls' (ok (some heap)) within = within

  found-IsWithin :
      (cur_node : Node) (type version : Bytes) (unchanged : ParsedObjects) (run : Exec (Option ℕ))
      → IsWithin address o (
          run
          >>= (λ found. ok (some (found_or_new address type version o calls found)))
          >>= parse_object_children xml fuel cur_node unchanged)
  found-IsWithin cur_node type version u undefined = tt
  found-IsWithin cur_node type version u (ok none) =
      let (p, o', calls') = found_or_new address type version o calls none in
      visited-IsWithin o' calls' (visit_objects xml fuel (children cur_node) p o'.heap)
        (λ q n ne. All-append _ o.pointers (address ∷ []) n (ne, tt))
  found-IsWithin cur_node type version u (ok (some p)) =
      visited-IsWithin o calls (visit_objects xml fuel (children cur_node) p o.heap) (λ q n ne. n)

  generated-IsWithin :
      (cur_node : Node) (type version : Option Bytes)
      → IsWithin address o (
          generate_object address type version o calls
          >>= parse_object_children xml fuel cur_node (minus_one, o, calls))
  unfolding generate_object
  generated-IsWithin cur_node none version = λ q n ne. n
  generated-IsWithin cur_node (some type) none = λ q n ne. n
  generated-IsWithin cur_node (some type) (some version) =
      found-IsWithin cur_node type version (minus_one, o, calls) (find_type type o.heap o.pointers)

  parse_object_root-IsWithin :
      (r : Option Node) → IsWithin address o (parse_object_root xml fuel address r o calls)
  parse_object_root-IsWithin none = λ q n ne. n
  parse_object_root-IsWithin (some cur_node) =
      generated-IsWithin cur_node (name cur_node) (get_prop cur_node (codes "Version"))

  parse_object_doc-IsWithin :
      (d : Option Doc) → IsWithin address o (parse_object_doc xml fuel address d o calls)
  parse_object_doc-IsWithin none = λ q n ne. n
  parse_object_doc-IsWithin (some doc) = parse_object_root-IsWithin (root doc)

  pub parse_objects-IsWithin :
      (path : Option Bytes) → IsWithin address o (parse_objects xml fuel address path o calls)
  unfolding parse_objects
  parse_objects-IsWithin none = λ q n ne. n
  parse_objects-IsWithin (some path) = parse_object_doc-IsWithin (read_file path)
