-- ===== src/XmlDatabase/Parser.antt =====
-- What `XmlDatabase::parser` makes of a document: the loop over the children of the root against the
-- list of the items that they state, and the database after it.
use vr_admin.Prelude.{
  ℕ, zero, suc, ◌<◌, ◌≡◌, refl, ◌∙◌, ap, sym, inl, inr, Bool-cases, if◌then◌else◌, Option, none,
  some, List, [], ◌∷◌, ◌++◌, length, pos, arith,
}
use vr_admin.CString.{Bytes, codes, strcmp, atoll, to_uint64, before_dot}
use vr_admin.VrSdk.{
  VrSdk, PropertyCalls, version_property, find, add_external_sdk_item, get_feature, feature_or_zero,
}
use vr_admin.VrSdk.Features.{find-add_external_sdk_item, find_same}
use vr_admin.XmlDatabase.Libxml.{Xml}
use vr_admin.XmlDatabase.Types.{generate_sdk-absent}
use vr_admin.XmlDatabase.{
  XmlDatabase, index_of_type, update_at, is_external_sdk, visit_node, visit_nodes, add_item,
  parse_children, parse_root, parse_doc, parser,
}

-- The items of a document, by version: the first feature that is stated for it.
abbrev pub first_item : Bytes → List (Bytes × ℕ) → Option ℕ
first_item k [] = none
first_item k ((v, f) ∷ items) = if strcmp k v then some f else first_item k items

abbrev pub or_else : Option ℕ → Option ℕ → Option ℕ
or_else none r = r
or_else (some f) r = some f

or_else-none : (r : Option ℕ) → or_else r none ≡ r
or_else-none none = refl
or_else-none (some f) = refl

or_else_assoc : (a b c : Option ℕ) → or_else (or_else a b) c ≡ or_else a (or_else b c)
or_else_assoc none b c = refl
or_else_assoc (some f) b c = refl

first_item-append :
    (k : Bytes) (a b : List (Bytes × ℕ))
    → first_item k (a ++ b) ≡ or_else (first_item k a) (first_item k b)
first_item-append k [] b = refl
first_item-append k ((v, f) ∷ a) b = ground (arith, first_item-append k a b)

module _ (xml : Xml) where
  open xml use {Doc, Node, read_file, root, name, get_prop, get_content, children, next}

  -- The chain of siblings from a node on, which ends.
  pub data Siblings : Option Node → List Node → Type 0 where
    end : Siblings none []
    more :
        {cur_node : Node} {nodes : List Node}
        → Siblings (next cur_node) nodes
        → Siblings (some cur_node) (cur_node ∷ nodes)

  -- The item that a node states: an element `ExternalSDK` with a version and a content.
  abbrev item_of : Option Bytes → Option Bytes → List (Bytes × ℕ)
  item_of (some pro) (some val) = (pro, to_uint64 (atoll val)) ∷ []
  item_of pro val = []

  abbrev node_item : Node → List (Bytes × ℕ)
  node_item cur_node =
      if is_external_sdk (name cur_node)
      then item_of (get_prop cur_node (codes "Version")) (get_content cur_node)
      else []

  abbrev pub items : List Node → List (Bytes × ℕ)
  items [] = []
  items (cur_node ∷ nodes) = node_item cur_node ++ items nodes

  abbrev pub visit_all : List Node → VrSdk → VrSdk
  visit_all [] sdk = sdk
  visit_all (cur_node ∷ nodes) sdk = visit_all nodes (visit_node xml cur_node sdk)

  find-add_item :
      (k : Bytes) (pro val : Option Bytes) (sdk : VrSdk)
      → find k (add_item pro val sdk).vfs
        ≡ or_else (find k sdk.vfs) (first_item k (item_of pro val))
  find-add_item k none none sdk = sym (or_else-none (find k sdk.vfs))
  find-add_item k none (some val) sdk = sym (or_else-none (find k sdk.vfs))
  find-add_item k (some pro) none sdk = sym (or_else-none (find k sdk.vfs))
  find-add_item k (some pro) (some val) sdk =
      ground (
        arith,
        find-add_external_sdk_item pro k (to_uint64 (atoll val)) sdk,
        find_same pro k sdk.vfs,
      )

  find-visit_node :
      (k : Bytes) (cur_node : Node) (sdk : VrSdk)
      → find k (visit_node xml cur_node sdk).vfs
        ≡ or_else (find k sdk.vfs) (first_item k (node_item cur_node))
  unfolding visit_node
  find-visit_node k cur_node sdk = elim (Bool-cases (is_external_sdk (name cur_node))) [
    | inl e ↦
        rw e (find-add_item k (get_prop cur_node (codes "Version")) (get_content cur_node) sdk)
    | inr e ↦ rw e (sym (or_else-none (find k sdk.vfs)))
  ]

  pub find-visit_all :
      (k : Bytes) (nodes : List Node) (sdk : VrSdk)
      → find k (visit_all nodes sdk).vfs ≡ or_else (find k sdk.vfs) (first_item k (items nodes))
  find-visit_all k [] sdk = ground arith
  find-visit_all k (cur_node ∷ nodes) sdk =
      find-visit_all k nodes (visit_node xml cur_node sdk)
      ∙ rw (find-visit_node k cur_node sdk, first_item-append k (node_item cur_node) (items nodes))
          (or_else_assoc (find k sdk.vfs) (first_item k (node_item cur_node))
            (first_item k (items nodes)))

  pub visit_node-type :
      (cur_node : Node) (sdk : VrSdk)
      → ((visit_node xml cur_node sdk).type ≡ sdk.type)
        × ((visit_node xml cur_node sdk).version ≡ sdk.version)
  unfolding visit_node add_external_sdk_item
  visit_node-type cur_node sdk = ground arith

  pub visit_all-type :
      (nodes : List Node) (sdk : VrSdk)
      → ((visit_all nodes sdk).type ≡ sdk.type) × ((visit_all nodes sdk).version ≡ sdk.version)
  visit_all-type [] sdk = (refl, refl)
  visit_all-type (cur_node ∷ nodes) sdk =
      let (t, v) = visit_all-type nodes (visit_node xml cur_node sdk) in
      let (t', v') = visit_node-type cur_node sdk in (t ∙ t', v ∙ v')

  update_at_all :
      (i : ℕ) (cur_node : Node) (nodes : List Node) (sdks : List VrSdk)
      → update_at i (visit_all nodes) (update_at i (visit_node xml cur_node) sdks)
        ≡ update_at i (visit_all (cur_node ∷ nodes)) sdks
  unfolding update_at
  update_at_all i cur_node nodes [] = refl
  update_at_all zero cur_node nodes (sdk ∷ sdks) = refl
  update_at_all (suc i) cur_node nodes (sdk ∷ sdks) =
      ap (◌∷◌ sdk) (update_at_all i cur_node nodes sdks)

  update_at_none : (i : ℕ) (sdks : List VrSdk) → update_at i (visit_all []) sdks ≡ sdks
  unfolding update_at
  update_at_none i [] = refl
  update_at_none zero (sdk ∷ sdks) = refl
  update_at_none (suc i) (sdk ∷ sdks) = ap (◌∷◌ sdk) (update_at_none i sdks)

  -- With more fuel than the chain of siblings has nodes, the loop returns, having visited every
  -- sibling in order, and having changed no other SDK.
  pub visit_nodes_lem :
      (fuel : ℕ) (i : ℕ) (db : XmlDatabase) {start : Option Node} {nodes : List Node}
      → Siblings start nodes
      → length nodes < fuel
      → visit_nodes xml fuel start i db
        ≡ some (record { sdks = update_at i (visit_all nodes) db.sdks })
  unfolding visit_nodes
  visit_nodes_lem zero i db s h = absurd (omega arith)
  visit_nodes_lem (suc fuel) i db end h =
      ap some (λ j. record { sdks = sym (update_at_none i db.sdks) j })
  visit_nodes_lem (suc fuel) i db (more {cur_node = n} {nodes = ns} s) h =
      visit_nodes_lem fuel i (record { sdks = update_at i (visit_node xml n) db.sdks }) s
        (omega arith)
      ∙ ap some (λ j. record { sdks = update_at_all i n ns db.sdks j })

  update_at-append :
      (g : VrSdk → VrSdk) (sdks : List VrSdk) (sdk : VrSdk)
      → update_at (length sdks) g (sdks ++ (sdk ∷ [])) ≡ sdks ++ (g sdk ∷ [])
  unfolding update_at
  update_at-append g [] sdk = refl
  update_at-append g (x ∷ sdks) sdk = ap (◌∷◌ x) (update_at-append g sdks sdk)

  pub parser-eq :
      (fuel : ℕ) (path : Bytes) (db : XmlDatabase) (calls : PropertyCalls)
      → parser xml fuel (some path) db calls ≡ parse_doc xml fuel (read_file path) db calls
  unfolding parser
  parser-eq fuel path db calls = refl

  -- An information file: a document whose root has the type as its name, and a version.
  pub record IsInfo (path type version : Bytes) (nodes : List Node) : Type 0 where
    pub doc : Doc
    pub top : Node
    pub reads : read_file path ≡ some doc
    pub roots : root doc ≡ some top
    pub named : name top ≡ some type
    pub versioned : get_prop top (codes "Version") ≡ some version
    pub chain : Siblings (children top) nodes

  -- With the path, the document and its root read, and the chain of its children known.
  module _ (path : Bytes) (doc : Doc) (cur_node : Node) (type version : Bytes) (nodes : List Node)
      (reads : read_file path ≡ some doc) (roots : root doc ≡ some cur_node)
      (named : name cur_node ≡ some type)
      (versioned : get_prop cur_node (codes "Version") ≡ some version)
      (chain : Siblings (children cur_node) nodes) where
    parsed_new_type :
        (fuel : ℕ) (db : XmlDatabase) (calls : PropertyCalls)
        → index_of_type type db.sdks ≡ none
        → length nodes < fuel
        → parse_doc xml fuel (read_file path) db calls
          ≡ some (
            pos 0,
            record {
              sdks =
                  db.sdks
                  ++ (visit_all nodes (record { type = type; version = version; vfs = [] }) ∷ []);
            },
            calls ++ ((version_property type, version) ∷ []),
          )
    parsed_new_type fuel db calls absent enough = rw (
      reads,
      parse_doc,
      roots,
      parse_root,
      named,
      versioned,
      generate_sdk-absent type version db calls absent,
      parse_children,
      visit_nodes_lem fuel (length db.sdks) _ chain enough,
      update_at-append,
    )

    -- With more fuel than its root has children, a document whose root has a type that the database
    -- lacks, and a version, adds one SDK with this type and version and sets
    -- its version property once; a query to it gives the feature of the first item of the document
    -- that states one for the part of the query before the dot, and 0 if none does.
    pub parser_new_type :
        (fuel : ℕ) (db : XmlDatabase) (calls : PropertyCalls)
        → index_of_type type db.sdks ≡ none
        → length nodes < fuel
        → (sdk : VrSdk) × (parser xml fuel (some path) db calls
            ≡ some (
              pos 0,
              record { sdks = db.sdks ++ (sdk ∷ []) },
              calls ++ ((version_property type, version) ∷ []),
            ))
          × (sdk.type ≡ type)
          × (sdk.version ≡ version)
          × ((w : Bytes)
              → get_feature (some w) sdk
                ≡ feature_or_zero (first_item (before_dot w) (items nodes)))
    unfolding get_feature
    parser_new_type fuel db calls absent enough =
        let fresh : VrSdk = record { type = type; version = version; vfs = [] } in
        (
          visit_all nodes fresh,
          parser-eq fuel path db calls ∙ parsed_new_type fuel db calls absent enough,
          (visit_all-type nodes fresh).0,
          (visit_all-type nodes fresh).1,
          λ w. ap feature_or_zero (find-visit_all (before_dot w) nodes fresh),
        )
