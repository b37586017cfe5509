-- ===== src/XmlDatabase/Resources/Balance.antt =====
-- The account of what `parser` holds.
use vr_admin.Prelude.{
  ℕ, zero, suc, ◌≡◌, refl, ◌∙◌, Bool, true, false, Bool-cases, inl, inr, Option, none, some, [],
  ◌∷◌, ℤ, minus_one, arith,
}
use vr_admin.CString.{Bytes, codes}
use vr_admin.VrSdk.{PropertyCalls}
use vr_admin.XmlDatabase.Libxml.{Xml}
use vr_admin.XmlDatabase.Parser.{parser-eq}
use vr_admin.XmlDatabase.{
  XmlDatabase, is_external_sdk, visit_nodes, parse_children, parse_root, parse_doc, parser,
}
use vr_admin.XmlDatabase.Resources.{
  document, root_version, acquire, release, Trace, if_given, node_trace, behind, nodes_trace,
  then_release, children_trace, root_trace, doc_trace, parser_trace,
}
use vr_admin.XmlDatabase.Resources.Accounts.{
  Account, no_resources, replay, Leads, replay-append, replay-item_trace,
}

-- Whether the fuel was enough.
abbrev pub returns {ℓ} : {A : Type ℓ} → Option A → Bool
returns none = false
returns (some a) = true

abbrev given_count : Option Bytes → ℕ
given_count none = 0
given_count (some s) = 1

module _ (xml : Xml) where
  open xml use {Doc, Node, read_file, root, name, get_prop, get_content, children, next}

  Leads-behind :
      (a b c : Account) (s : Trace) (t : Option Trace)
      → replay s a ≡ some b
      → Leads b c t
      → Leads a c (behind xml s t)
  Leads-behind a b c s none e h = tt
  Leads-behind a b c s (some t) e h = replay-append s t a ∙ rw e h

  replay-node_trace : (cur_node : Node) (a : Account) → replay (node_trace xml cur_node) a ≡ some a
  unfolding node_trace
  replay-node_trace cur_node a = elim (Bool-cases (is_external_sdk (name cur_node))) [
    | inl e ↦
        rw e (replay-item_trace (get_prop cur_node (codes "Version")) (get_content cur_node) a)
    | inr e ↦ rw e (unfold replay in refl)
  ]

  Leads-nodes_trace :
      (fuel : ℕ) (start : Option Node) (a : Account) → Leads a a (nodes_trace xml fuel start)
  unfolding nodes_trace
  Leads-nodes_trace zero start a = tt
  Leads-nodes_trace (suc fuel) none a = unfold replay in refl
  Leads-nodes_trace (suc fuel) (some cur_node) a =
      Leads-behind a a a (node_trace xml cur_node) (nodes_trace xml fuel (next cur_node))
        (replay-node_trace cur_node a) (Leads-nodes_trace fuel (next cur_node) a)

  abbrev holding : ℕ → ℕ → Account
  holding documents root_versions = record no_resources {
    documents = documents;
    root_versions = root_versions;
  }

  Leads-then_release :
      (v : ℕ) (t : Option Trace)
      → Leads (holding 1 v) (holding 1 v) t
      → Leads (holding 1 v) (holding 0 v) (then_release xml t)
  Leads-then_release v none h = tt
  Leads-then_release v (some t) h =
      replay-append t (release document ∷ []) (holding 1 v) ∙ rw h (unfold replay in refl)

  Leads-children_trace :
      (fuel v : ℕ) (cur_node : Node) (made : Option (ℕ × XmlDatabase × PropertyCalls))
      → Leads (holding 1 v) (holding 0 v) (children_trace xml fuel cur_node made)
  Leads-children_trace fuel v cur_node none = unfold replay in refl
  Leads-children_trace fuel v cur_node (some made) =
      Leads-then_release v (nodes_trace xml fuel (children cur_node))
        (Leads-nodes_trace fuel (children cur_node) (holding 1 v))

  replay-if_given :
      (version : Option Bytes)
      → replay (if_given version (acquire root_version)) (holding 1 0)
        ≡ some (holding 1 (given_count version))
  unfolding replay
  replay-if_given none = refl
  replay-if_given (some s) = refl

  -- The version of the root, if the file has a root with one.
  abbrev root_count : Option Node → ℕ
  root_count none = 0
  root_count (some cur_node) = given_count (get_prop cur_node (codes "Version"))

  abbrev doc_count : Option Doc → ℕ
  doc_count none = 0
  doc_count (some doc) = root_count (root doc)

  abbrev pub unreturned : Option Bytes → ℕ
  unreturned none = 0
  unreturned (some path) = doc_count (read_file path)

  Leads-root_trace :
      (fuel : ℕ) (start : Option Node) (db : XmlDatabase) (calls : PropertyCalls)
      → Leads (holding 1 0) (holding 0 (root_count start)) (root_trace xml fuel start db calls)
  Leads-root_trace fuel none db calls = unfold replay in refl
  Leads-root_trace fuel (some cur_node) db calls =
      Leads-behind (holding 1 0) _ _ _ _ (replay-if_given (get_prop cur_node (codes "Version")))
        (Leads-children_trace fuel _ cur_node _)

  Leads-doc_trace :
      (fuel : ℕ) (doc : Option Doc) (db : XmlDatabase) (calls : PropertyCalls)
      → Leads no_resources (holding 0 (doc_count doc)) (doc_trace xml fuel doc db calls)
  Leads-doc_trace fuel none db calls = unfold replay in refl
  Leads-doc_trace fuel (some doc) db calls =
      Leads-behind no_resources (holding 1 0) _ (acquire document ∷ []) _ (unfold replay in refl)
        (Leads-root_trace fuel (root doc) db calls)

  returns-behind : (s : Trace) (t : Option Trace) → returns (behind xml s t) ≡ returns t
  returns-behind s none = refl
  returns-behind s (some t) = refl

  returns-nodes_trace :
      (fuel : ℕ) (start : Option Node) (i : ℕ) (db : XmlDatabase)
      → returns (nodes_trace xml fuel start) ≡ returns (visit_nodes xml fuel start i db)
  unfolding nodes_trace visit_nodes
  returns-nodes_trace zero start i db = refl
  returns-nodes_trace (suc fuel) none i db = refl
  returns-nodes_trace (suc fuel) (some cur_node) i db =
      returns-behind (node_trace xml cur_node) _ ∙ returns-nodes_trace fuel (next cur_node) i _

  returns-children_trace :
      (fuel : ℕ) (cur_node : Node) (made : Option (ℕ × XmlDatabase × PropertyCalls))
      (unchanged : ℤ × XmlDatabase × PropertyCalls)
      → returns (children_trace xml fuel cur_node made)
        ≡ returns (parse_children xml fuel cur_node made unchanged)
  returns-children_trace fuel cur_node none unchanged = refl
  returns-children_trace fuel cur_node (some (i, db, calls)) unchanged =
      ground (arith, returns-nodes_trace fuel (children cur_node) i db)

  returns-doc_trace :
      (fuel : ℕ) (doc : Option Doc) (db : XmlDatabase) (calls : PropertyCalls)
      → returns (doc_trace xml fuel doc db calls) ≡ returns (parse_doc xml fuel doc db calls)
  returns-doc_trace fuel none db calls = refl
  returns-doc_trace fuel (some doc) db calls =
      returns-behind (acquire document ∷ []) _ ∙ from_root (root doc)
    where
      from_root :
          (start : Option Node)
          → returns (root_trace xml fuel start db calls)
            ≡ returns (parse_root xml fuel start db calls)
      from_root none = refl
      from_root (some cur_node) =
          returns-behind (if_given (get_prop cur_node (codes "Version")) (acquire root_version)) _
          ∙ returns-children_trace fuel cur_node _ (minus_one, db, calls)

  returns-parser_trace :
      (fuel : ℕ) (path : Option Bytes) (db : XmlDatabase) (calls : PropertyCalls)
      → returns (parser_trace xml fuel path db calls) ≡ returns (parser xml fuel path db calls)
  unfolding parser_trace parser
  returns-parser_trace fuel none db calls = refl
  returns-parser_trace fuel (some path) db calls =
      rw (parser-eq xml fuel path db calls) (returns-doc_trace fuel (read_file path) db calls)

  -- The calls that take and give back are made in every run that returns. On every path `parser` gives
  -- back the document and the strings of all items, each once and none that it does not hold; the
  -- string with the version of the root, if the file can be read and its root has one, it never gives
  -- back.
  pub parser_trace-Leads :
      (fuel : ℕ) (path : Option Bytes) (db : XmlDatabase) (calls : PropertyCalls)
      → (returns (parser_trace xml fuel path db calls) ≡ returns (parser xml fuel path db calls))
        × Leads no_resources
            (record no_resources { root_versions = unreturned path })
            (parser_trace xml fuel path db calls)
  parser_trace-Leads fuel path db calls = (returns-parser_trace fuel path db calls, led path)
    where
      led :
          (path : Option Bytes)
          → Leads no_resources
              (record no_resources { root_versions = unreturned path })
              (parser_trace xml fuel path db calls)
      led none = unfold parser_trace replay in refl
      led (some path) = unfold parser_trace in Leads-doc_trace fuel (read_file path) db calls
