-- ===== src/XmlDatabase/Refusals.antt =====
-- What `XmlDatabase::parser` does with any file: it refuses it and changes nothing, or it adds an SDK,
-- or it adds to the one that it has of the same type.
use mathlib.Core.Option.{some-injective, none-ne-some}
use mathlib.Core.Path.{subst}
use vr_admin.Prelude.{
  ℕ, suc, Bool-cases, sym, ◌<◌, ◌≡◌, ◌≢◌, refl, ◌∙◌, ap, inl, inr, Option-cases, Option, none, some,
  List, [], ◌∷◌, ◌++◌, All, All-mono, length, pos, minus_one, arith,
}
use vr_admin.CString.{Bytes, codes, strcmp, before_dot}
use vr_admin.CString.Compare.{strcmp_iff}
use vr_admin.VrSdk.{VrSdk, PropertyCalls, version_property, find, get_feature, feature_or_zero}
use vr_admin.XmlDatabase.Libxml.{Xml}
use vr_admin.XmlDatabase.Parser.{
  Siblings, IsInfo, items, first_item, or_else, visit_all, visit_all-type, visit_nodes_lem,
  find-visit_all, parser-eq, parser_new_type,
}
use vr_admin.XmlDatabase.Types.{index_of_type-none}
use vr_admin.XmlDatabase.{
  XmlDatabase, index_of_type, update_at, generate_sdk, Parsed, parse_children, parse_root,
  parse_doc, parser,
}

-- The SDK at a place, which is the first of its type, among the others.
record Place (type : Bytes) (i : ℕ) (sdks : List VrSdk) : Type 0 where
  before : List VrSdk
  sdk : VrSdk
  after : List VrSdk
  whole : sdks ≡ before ++ (sdk ∷ after)
  typed : sdk.type ≡ type
  first : All (λ x. x.type ≢ type) before
  updated : (g : VrSdk → VrSdk) → update_at i g sdks ≡ before ++ (g sdk ∷ after)

Place-later :
    (type : Bytes) (x : VrSdk) (i : ℕ) (sdks : List VrSdk)
    → x.type ≢ type
    → Place type i sdks
    → Place type (suc i) (x ∷ sdks)
unfolding update_at
Place-later type x i sdks ne p = record {
  before = x ∷ p.before;
  sdk = p.sdk;
  after = p.after;
  whole = ap (◌∷◌ x) p.whole;
  typed = p.typed;
  first = (ne, p.first);
  updated = λ g. ap (◌∷◌ x) (p.updated g);
}

index_of_type-Place :
    (type : Bytes) (i : ℕ) (sdks : List VrSdk)
    → index_of_type type sdks ≡ some i
    → Place type i sdks
unfolding index_of_type
index_of_type-Place type i [] e = absurd (none-ne-some i e)
index_of_type-Place type i (sdk ∷ sdks) e = elim (Bool-cases (strcmp type sdk.type)) [
  | inl same ↦
      let zeroth : 0 ≡ i = some-injective _ _ (rw same at e) in
      subst (λ k. Place type k (sdk ∷ sdks)) zeroth
        (record {
          before = [];
          sdk = sdk;
          after = sdks;
          whole = refl;
          typed = sym ((strcmp_iff type sdk.type).0 same);
          first = tt;
          updated = λ g. unfold update_at in refl;
        })
  | inr other ↦ elim (Option-cases (index_of_type type sdks)) [
    | inl none_there ↦ absurd (none-ne-some i (rw (other, none_there) at e))
    | inr (j, there) ↦
        let later : suc j ≡ i = some-injective _ _ (rw (other, there) at e) in
        subst (λ k. Place type k (sdk ∷ sdks)) later
          (Place-later type sdk j sdks (λ same. ground (arith, strcmp_iff type sdk.type))
            (index_of_type-Place type j sdks there))
  ]
]

module _ (xml : Xml) where
  open xml use {Doc, Node, read_file, root, name, get_prop, children}

  -- What `parser` refuses.
  pub data IsRefused : Option Bytes → Type 0 where
    no_path : IsRefused none
    unreadable : {path : Bytes} → read_file path ≡ none → IsRefused (some path)
    empty_document :
        {path : Bytes} {doc : Doc}
        → read_file path ≡ some doc
        → root doc ≡ none
        → IsRefused (some path)
    nameless :
        {path : Bytes} {doc : Doc} {top : Node}
        → read_file path ≡ some doc
        → root doc ≡ some top
        → name top ≡ none
        → IsRefused (some path)
    versionless :
        {path : Bytes} {doc : Doc} {top : Node}
        → read_file path ≡ some doc
        → root doc ≡ some top
        → get_prop top (codes "Version") ≡ none
        → IsRefused (some path)

  -- The children of the root of a file, if it has one, are a chain of fewer nodes than the fuel.
  abbrev pub IsShort : ℕ → Option Bytes → Type 0
  IsShort fuel none = Unit {0}
  IsShort fuel (some path) =
      (doc : Doc) (top : Node)
      → read_file path ≡ some doc
      → root doc ≡ some top
      → (nodes : List Node) × Siblings xml (children top) nodes × (length nodes < fuel)

  -- What an SDK with these items answers, on top of those that it had.
  abbrev Answers : VrSdk → List Node → VrSdk → Type 0
  Answers old nodes sdk =
      (w : Bytes)
      → get_feature (some w) sdk
        ≡ feature_or_zero
            (or_else (find (before_dot w) old.vfs) (first_item (before_dot w) (items xml nodes)))

  -- The outcomes of `parser`.
  pub data Outcome (db : XmlDatabase) (calls : PropertyCalls)
      : Option Bytes → Option Parsed → Type 0 where
    refuses :
        {path : Option Bytes} → IsRefused path → Outcome db calls path (some (minus_one, db, calls))
    adds :
        {path type version : Bytes} {nodes : List Node} (sdk : VrSdk)
        → IsInfo xml path type version nodes
        → All (λ x. x.type ≢ type) db.sdks
        → sdk.type ≡ type
        → sdk.version ≡ version
        → ((w : Bytes)
            → get_feature (some w) sdk
              ≡ feature_or_zero (first_item (before_dot w) (items xml nodes)))
        → Outcome db calls (some path) (
            some (
              pos 0,
              record { sdks = db.sdks ++ (sdk ∷ []) },
              calls ++ ((version_property type, version) ∷ []),
            ))
    merges :
        {path type version : Bytes} {nodes : List Node} (before : List VrSdk) (old sdk : VrSdk)
        (after : List VrSdk)
        → IsInfo xml path type version nodes
        → db.sdks ≡ before ++ (old ∷ after)
        → All (λ x. x.type ≢ type) before
        → old.type ≡ type
        → sdk.type ≡ type
        → sdk.version ≡ old.version
        → Answers old nodes sdk
        → Outcome db calls
            (some path)
            (some (pos 0, record { sdks = before ++ (sdk ∷ after) }, calls))

  -- The document and its root read, with a name and a version.
  module _ (path type version : Bytes) (nodes : List Node)
      (info : IsInfo xml path type version nodes) (fuel : ℕ) (enough : length nodes < fuel)
      (db : XmlDatabase) (calls : PropertyCalls) where
    parsed_known_type :
        (i : ℕ)
        → index_of_type type db.sdks ≡ some i
        → parser xml fuel (some path) db calls
          ≡ some (pos 0, record { sdks = update_at i (visit_all xml nodes) db.sdks }, calls)
    unfolding generate_sdk
    parsed_known_type i known =
        parser-eq xml fuel path db calls
        ∙ rw (
          info.reads,
          parse_doc,
          info.roots,
          parse_root,
          info.named,
          info.versioned,
          known,
          generate_sdk,
          parse_children,
          visit_nodes_lem xml fuel i db info.chain enough,
        )

    merged :
        (i : ℕ)
        → index_of_type type db.sdks ≡ some i
        → Outcome db calls (some path) (parser xml fuel (some path) db calls)
    unfolding get_feature
    merged i known =
        let p = index_of_type-Place type i db.sdks known in
        let g = visit_all xml nodes in
        rw (parsed_known_type i known, p.updated g)
          (merges p.before p.sdk (g p.sdk) p.after info p.whole p.first p.typed
            ((visit_all-type xml nodes p.sdk).0 ∙ p.typed) (visit_all-type xml nodes p.sdk).1
            (λ w. ap feature_or_zero (find-visit_all xml (before_dot w) nodes p.sdk)))

    added :
        index_of_type type db.sdks ≡ none
        → Outcome db calls (some path) (parser xml fuel (some path) db calls)
    added absent =
        let (sdk, e, t, v, f) =
          parser_new_type xml path info.doc info.top type version nodes info.reads info.roots
            info.named info.versioned info.chain fuel db calls absent enough in
        rw e (
          adds sdk info
            (All-mono _ _ db.sdks (λ x ne same. ne (sym same))
              (index_of_type-none type db.sdks absent))
            t v f)

    informed : Outcome db calls (some path) (parser xml fuel (some path) db calls)
    informed = elim (Option-cases (index_of_type type db.sdks)) [
      | inl absent ↦ added absent
      | inr (i, known) ↦ merged i known
    ]

  -- If the children of the root of the file, where it has one, are a chain of fewer nodes than the
  -- fuel, then `parser` returns. It refuses a null path, a file that cannot be read, one without a root
  -- and one whose root has no name or no version: exactly then it returns -1, and nothing is changed. It
  -- returns 0 for any other. If the database lacks the type of the root, an SDK with this type and
  -- version is added, with the items of the file, and its version property is set. Otherwise no
  -- property is set and the items go to the first SDK of that type: it keeps its version, whatever the
  -- file has, and each feature that it has, and all other SDKs stay as they are. The first item for a
  -- text counts.
  pub parser-Outcome :
      (fuel : ℕ) (path : Option Bytes) (db : XmlDatabase) (calls : PropertyCalls)
      → IsShort fuel path
      → Outcome db calls path (parser xml fuel path db calls)
  unfolding parser
  parser-Outcome fuel none db calls short = refuses no_path
  parser-Outcome fuel (some path) db calls short = elim (Option-cases (read_file path)) [
    | inl e ↦ rw (parser-eq xml fuel path db calls, e) (refuses (unreadable e))
    | inr (doc, e) ↦ elim (Option-cases (root doc)) [
      | inl r ↦
          rw (parser-eq xml fuel path db calls, e, parse_doc, r) (refuses (empty_document e r))
      | inr (top, r) ↦ rooted doc top e r (name top) refl (get_prop top (codes "Version")) refl
    ]
  ]
    where
      rooted :
          (doc : Doc) (top : Node)
          → read_file path ≡ some doc
          → root doc ≡ some top
          → (type : Option Bytes) → name top ≡ type
          → (version : Option Bytes) → get_prop top (codes "Version") ≡ version
          → Outcome db calls (some path) (parser xml fuel (some path) db calls)
      rooted doc top e r none n version v =
          rw (parser-eq xml fuel path db calls, e, parse_doc, r, parse_root, n, generate_sdk)
            (refuses (nameless e r n))
      rooted doc top e r (some type) n none v =
          rw (parser-eq xml fuel path db calls, e, parse_doc, r, parse_root, n, v, generate_sdk)
            (refuses (versionless e r v))
      rooted doc top e r (some type) n (some version) v =
          let (nodes, chain, enough) = short doc top e r in
          informed path type version nodes
            (record {
              doc = doc;
              top = top;
              reads = e;
              roots = r;
              named = n;
              versioned = v;
              chain = chain;
            })
            fuel enough db calls
