-- ===== src/XmlDatabase/Objects/Refinement.antt =====
-- The database over the pointers is the database over the list of SDKs, and its destructor deletes
-- every SDK once.
use vr_admin.Prelude.{
  Bool, ℕ, zero, suc, ◌≡◌, refl, inl, inr, Option-cases, true, false, if◌then◌else◌, Option, none,
  some, List, [], minus_one, Exec, ok, ◌>>=◌, arith,
}
use vr_admin.CString.{Bytes, codes}
use vr_admin.Heap.{Heap, write_cell, live, Owns, push-Owns, delete_all-Owns}
use vr_admin.VrSdk.{VrSdk, PropertyCalls, new_sdk}
use vr_admin.XmlDatabase.{
  XmlDatabase, index_of_type, generate_sdk, update_at, is_external_sdk, add_item, visit_node,
  visit_nodes, Parsed, parse_children, parse_root, parse_doc, parser,
}
use vr_admin.XmlDatabase.Libxml.{Xml}
use vr_admin.XmlDatabase.Objects.{
  SdkObjects, generate_object, add_item_object, visit_object, visit_objects, ParsedObjects,
  parse_object_children, parse_object_root, parse_object_doc, parse_objects, destroy_sdks,
}
use vr_admin.XmlDatabase.Objects.Pointers.{
  IsAt, NotAt-IsAt, IsAt-last, find_type_lem, Points-update_at, update_at_same,
}

-- The pointers lead to distinct live SDKs, which are those of the list in its order, and no other
-- SDK lives.
abbrev pub OwnsSdks : SdkObjects → List VrSdk → Type 0
OwnsSdks o sdks = Owns o.heap o.pointers sdks

-- What `_GenerateSDK` gives.
abbrev Generates :
    Option (ℕ × XmlDatabase × PropertyCalls)
    → Exec (Option (ℕ × SdkObjects × PropertyCalls))
    → Type 0
Generates none run = run ≡ ok none
Generates (some (i, db, calls)) run =
    (p : ℕ) × (o : SdkObjects) × (run ≡ ok (some (p, o, calls)))
    × IsAt p i o.pointers
    × OwnsSdks o db.sdks

generate_object-Generates :
    (address : ℕ) (type version : Option Bytes) (o : SdkObjects) (db : XmlDatabase)
    (calls : PropertyCalls)
    → o.heap address ≡ none
    → OwnsSdks o db.sdks
    → Generates (generate_sdk type version db calls) (generate_object address type version o calls)
unfolding generate_object generate_sdk
generate_object-Generates address none version o db calls free owns = refl
generate_object-Generates address (some type) none o db calls free owns = refl
generate_object-Generates address (some type) (some version) o db calls free owns =
    let found = find_type_lem type o.heap o.pointers db.sdks owns.points in
    elim (Option-cases (index_of_type type db.sdks)) [
      | inl e ↦
          rw (e, generate_sdk, (rw e at found))
            (
              address,
              _,
              refl,
              IsAt-last o.heap address o.pointers db.sdks owns.points,
              push-Owns o.heap address (new_sdk type version calls).0 o.pointers db.sdks free owns,
            )
      | inr (i, e) ↦
          let (p, run, at) = (rw e at found) in rw (e, generate_sdk, run) (p, o, refl, at, owns)
    ]

-- The same SDKs with one changed, which the pointers own.
abbrev Updates : List ℕ → ℕ → (VrSdk → VrSdk) → List VrSdk → Exec (Heap VrSdk) → Type 0
Updates ps i g sdks run = (heap : Heap VrSdk) × (run ≡ ok heap) × Owns heap ps (update_at i g sdks)

unchanged_object :
    (g : VrSdk → VrSdk) (i : ℕ) (ps : List ℕ) (heap : Heap VrSdk) (sdks : List VrSdk)
    → ((sdk : VrSdk) → g sdk ≡ sdk)
    → Owns heap ps sdks
    → Updates ps i g sdks (ok heap)
unchanged_object g i ps heap sdks same owns = (heap, refl, rw (update_at_same g i sdks same) owns)

-- A call through a pointer.
Owns-update_at :
    (g : VrSdk → VrSdk) (p i : ℕ) (ps : List ℕ) (heap : Heap VrSdk) (sdks : List VrSdk)
    → IsAt p i ps
    → Owns heap ps sdks
    → Updates ps i g sdks (live (heap p) >>= λ sdk. ok (write_cell heap p (some (g sdk))))
Owns-update_at g p i ps heap sdks at owns =
    let (sdk, at_p, points) = Points-update_at g heap p i ps sdks at owns.points in
    (
      write_cell heap p (some (g sdk)),
      rw at_p refl,
      record {
        points = points;
        no_leak = λ q n. ground (arith, NotAt-IsAt q p i ps n at, owns.no_leak q n);
      },
    )

add_item_object-Updates :
    (pro val : Option Bytes) (p i : ℕ) (ps : List ℕ) (heap : Heap VrSdk) (sdks : List VrSdk)
    → IsAt p i ps
    → Owns heap ps sdks
    → Updates ps i (add_item pro val) sdks (add_item_object pro val p heap)
add_item_object-Updates none val p i ps heap sdks at owns =
    unchanged_object (add_item none val) i ps heap sdks (λ sdk. refl) owns
add_item_object-Updates (some pro) none p i ps heap sdks at owns =
    unchanged_object (add_item (some pro) none) i ps heap sdks (λ sdk. refl) owns
add_item_object-Updates (some pro) (some val) p i ps heap sdks at owns =
    Owns-update_at (add_item (some pro) (some val)) p i ps heap sdks at owns

-- The result and the properties of `parser`, and the SDKs owned.
abbrev pub Implements : Option Parsed → Exec (Option (ParsedObjects)) → Type 0
Implements none run = run ≡ ok none
Implements (some (ret, db, calls)) run =
    (o : SdkObjects) × (run ≡ ok (some (ret, o, calls))) × OwnsSdks o db.sdks

module _ (xml : Xml) where
  open xml use {Doc, Node, read_file, root, name, get_prop, get_content, children, next}

  visited_if :
      (b : Bool) (pro val : Option Bytes) (p i : ℕ) (ps : List ℕ) (heap : Heap VrSdk)
      (sdks : List VrSdk)
      → IsAt p i ps
      → Owns heap ps sdks
      → Updates ps i
          (λ sdk. if b then add_item pro val sdk else sdk)
          sdks
          (if b then add_item_object pro val p heap else ok heap)
  visited_if true pro val p i ps heap sdks at owns =
      add_item_object-Updates pro val p i ps heap sdks at owns
  visited_if false pro val p i ps heap sdks at owns =
      unchanged_object (λ sdk. sdk) i ps heap sdks (λ sdk. refl) owns

  visit_object-Updates :
      (node : Node) (p i : ℕ) (ps : List ℕ) (heap : Heap VrSdk) (sdks : List VrSdk)
      → IsAt p i ps
      → Owns heap ps sdks
      → Updates ps i (visit_node xml node) sdks (visit_object xml node p heap)
  unfolding visit_object visit_node
  visit_object-Updates node p i ps heap sdks at owns =
      visited_if (is_external_sdk (name node)) (get_prop node (codes "Version")) (get_content node)
        p i ps heap sdks at owns

  -- The loop, whose fuel runs out for both or for none.
  abbrev VisitsAll : List ℕ → Option XmlDatabase → Exec (Option (Heap VrSdk)) → Type 0
  VisitsAll ps none run = run ≡ ok none
  VisitsAll ps (some db) run = (heap : Heap VrSdk) × (run ≡ ok (some heap)) × Owns heap ps db.sdks

  visit_objects-VisitsAll :
      (fuel : ℕ) (cur_node : Option Node) (p i : ℕ) (ps : List ℕ) (heap : Heap VrSdk)
      (db : XmlDatabase)
      → IsAt p i ps
      → Owns heap ps db.sdks
      → VisitsAll ps (visit_nodes xml fuel cur_node i db) (visit_objects xml fuel cur_node p heap)
  unfolding visit_objects visit_nodes
  visit_objects-VisitsAll zero cur_node p i ps heap db at owns = refl
  visit_objects-VisitsAll (suc fuel) none p i ps heap db at owns = (heap, refl, owns)
  visit_objects-VisitsAll (suc fuel) (some cur_node) p i ps heap db at owns =
      let (heap', run, owns') = visit_object-Updates cur_node p i ps heap db.sdks at owns in
      rw run (
        visit_objects-VisitsAll fuel (next cur_node) p i ps heap'
          (record { sdks = update_at i (visit_node xml cur_node) db.sdks }) at owns')

  visited :
      (fuel : ℕ) (cur_node : Node) (i p : ℕ) (o : SdkObjects) (db : XmlDatabase)
      (calls : PropertyCalls) (unchanged : Parsed) (unchanged_objects : ParsedObjects)
      → IsAt p i o.pointers
      → OwnsSdks o db.sdks
      → Implements
          (parse_children xml fuel cur_node (some (i, db, calls)) unchanged)
          (parse_object_children xml fuel cur_node unchanged_objects (some (p, o, calls)))
  visited fuel cur_node i p o db calls u v at owns =
      let r = visit_objects-VisitsAll fuel (children cur_node) p i o.pointers o.heap db at owns in
      elim (Option-cases (visit_nodes xml fuel (children cur_node) i db)) [
        | inl e ↦ rw (e, parse_children, (rw e at r)) refl
        | inr (db', e) ↦
            let (heap, run, owns') = (rw e at r) in
            rw (e, parse_children, run) (record o { heap = heap }, refl, owns')
      ]

  parse_object_root-Implements :
      (fuel address : ℕ) (cur_node : Node) (o : SdkObjects) (db : XmlDatabase)
      (calls : PropertyCalls)
      → o.heap address ≡ none
      → OwnsSdks o db.sdks
      → Implements
          (parse_root xml fuel (some cur_node) db calls)
          (parse_object_root xml fuel address (some cur_node) o calls)
  parse_object_root-Implements fuel address cur_node o db calls free owns =
      let version = get_prop cur_node (codes "Version") in
      let g = generate_object-Generates address (name cur_node) version o db calls free owns in
      elim (Option-cases (generate_sdk (name cur_node) version db calls)) [
        | inl e ↦ rw (e, (rw e at g)) (o, refl, owns)
        | inr ((i, db', calls'), e) ↦
            let (p, o', run, at, owns') = (rw e at g) in
            rw (e, run)
              (visited fuel cur_node i p o' db' calls' (minus_one, db, calls) (minus_one, o, calls)
                at owns')
      ]

  -- Where the pointers own the SDKs and `new` gives a free address, `parser` through the pointers is
  -- `parser` on the list: it follows no dangling pointer, and the pointers own the SDKs after it.
  pub parse_objects-Implements :
      (fuel address : ℕ) (path : Option Bytes) (o : SdkObjects) (db : XmlDatabase)
      (calls : PropertyCalls)
      → o.heap address ≡ none
      → OwnsSdks o db.sdks
      → Implements (parser xml fuel path db calls) (parse_objects xml fuel address path o calls)
  unfolding parser parse_objects
  parse_objects-Implements fuel address none o db calls free owns = (o, refl, owns)
  parse_objects-Implements fuel address (some path) o db calls free owns = from_doc (read_file path)
    where
      from_root :
          (r : Option Node)
          → Implements
              (parse_root xml fuel r db calls)
              (parse_object_root xml fuel address r o calls)
      from_root none = (o, refl, owns)
      from_root (some cur_node) =
          parse_object_root-Implements fuel address cur_node o db calls free owns

      from_doc :
          (d : Option Doc)
          → Implements (parse_doc xml fuel d db calls) (parse_object_doc xml fuel address d o calls)
      from_doc none = (o, refl, owns)
      from_doc (some doc) = from_root (root doc)

-- The destructor deletes every SDK once, and none is left.
pub destroy_sdks_lem :
    (o : SdkObjects) (sdks : List VrSdk)
    → OwnsSdks o sdks
    → (o' : SdkObjects) × (destroy_sdks o ≡ ok o') × OwnsSdks o' []
unfolding destroy_sdks
destroy_sdks_lem o sdks owns =
    let (heap, run, empty) = delete_all-Owns o.heap o.pointers sdks owns in
    (
      record { pointers = []; heap = heap },
      rw run refl,
      record { points = tt; no_leak = λ p n. empty p },
    )
