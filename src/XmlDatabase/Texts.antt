-- ===== src/XmlDatabase/Texts.antt =====
-- The types and versions of the database are C strings, as the strings of libxml2 are.
use vr_admin.Prelude.{
  ℕ, zero, suc, Option, none, some, Option-cases, inl, inr, List, [], ◌∷◌, All, All-append, ℤ,
  minus_one, arith,
}
use vr_admin.CString.{Bytes, codes}
use vr_admin.CString.Buffers.{IsCString}
use vr_admin.VrSdk.{VrSdk, PropertyCalls}
use vr_admin.XmlDatabase.Libxml.{Xml}
use vr_admin.XmlDatabase.Outcomes.{Leaves}
use vr_admin.XmlDatabase.Parser.{visit_node-type, parser-eq}
use vr_admin.XmlDatabase.{
  XmlDatabase, generate_sdk, index_of_type, update_at, visit_node, visit_nodes, parse_children,
  parse_root, parse_doc, parser,
}

-- The type and the version are C strings.
abbrev pub HasTexts : VrSdk → Type 0
HasTexts sdk = IsCString sdk.type × IsCString sdk.version

abbrev AllTexts : Option XmlDatabase → Type 0
AllTexts none = Unit {0}
AllTexts (some db) = All HasTexts db.sdks

abbrev MadeTexts : Option (ℕ × XmlDatabase × PropertyCalls) → Type 0
MadeTexts none = Unit {0}
MadeTexts (some (i, db, calls)) = All HasTexts db.sdks

abbrev pub Textual : Option Bytes → Type 0
Textual none = Unit {0}
Textual (some s) = IsCString s

generate_sdk-MadeTexts :
    (type version : Option Bytes) (db : XmlDatabase) (calls : PropertyCalls)
    → Textual type
    → Textual version
    → All HasTexts db.sdks
    → MadeTexts (generate_sdk type version db calls)
unfolding generate_sdk
generate_sdk-MadeTexts none version db calls t v h = tt
generate_sdk-MadeTexts (some type) none db calls t v h = tt
generate_sdk-MadeTexts (some type) (some version) db calls t v h =
    elim (Option-cases (index_of_type type db.sdks)) [
      | inl e ↦ rw (e, generate_sdk) (All-append HasTexts db.sdks _ h ((t, v), tt))
      | inr (i, e) ↦ rw (e, generate_sdk) h
    ]

update_at-HasTexts :
    (i : ℕ) (g : VrSdk → VrSdk) (sdks : List VrSdk)
    → ((sdk : VrSdk) → HasTexts sdk → HasTexts (g sdk))
    → All HasTexts sdks
    → All HasTexts (update_at i g sdks)
unfolding update_at
update_at-HasTexts zero g [] k h = tt
update_at-HasTexts (suc i) g [] k h = tt
update_at-HasTexts zero g (sdk ∷ sdks) k (hx, h) = (k sdk hx, h)
update_at-HasTexts (suc i) g (sdk ∷ sdks) k (hx, h) = (hx, update_at-HasTexts i g sdks k h)

-- libxml2 gives the names of nodes and the values of properties as C strings.
pub record GivesTexts (xml : Xml) : Type 0 where
  pub names : (cur_node : xml.Node) → Textual (xml.name cur_node)
  pub props : (cur_node : xml.Node) (key : Bytes) → Textual (xml.get_prop cur_node key)

module _ (xml : Xml) (gives : GivesTexts xml) where
  open xml use {Doc, Node, read_file, root, name, get_prop, children, next}

  visit_node-HasTexts :
      (cur_node : Node) (sdk : VrSdk) → HasTexts sdk → HasTexts (visit_node xml cur_node sdk)
  visit_node-HasTexts cur_node sdk h = let (t, v) = visit_node-type xml cur_node sdk in rw (t, v) h

  visit_nodes-AllTexts :
      (fuel : ℕ) (start : Option Node) (i : ℕ) (db : XmlDatabase)
      → All HasTexts db.sdks
      → AllTexts (visit_nodes xml fuel start i db)
  unfolding visit_nodes
  visit_nodes-AllTexts zero start i db h = tt
  visit_nodes-AllTexts (suc fuel) none i db h = h
  visit_nodes-AllTexts (suc fuel) (some cur_node) i db h =
      visit_nodes-AllTexts fuel (next cur_node) i _
        (update_at-HasTexts i (visit_node xml cur_node) db.sdks (visit_node-HasTexts cur_node) h)

  abbrev LeavesTexts : Option (ℤ × XmlDatabase × PropertyCalls) → Type 0
  LeavesTexts = Leaves (λ d. All HasTexts d.sdks)

  parse_children-LeavesTexts :
      (fuel : ℕ) (cur_node : Node) (made : Option (ℕ × XmlDatabase × PropertyCalls))
      (db : XmlDatabase) (calls : PropertyCalls)
      → All HasTexts db.sdks
      → MadeTexts made
      → LeavesTexts (parse_children xml fuel cur_node made (minus_one, db, calls))
  parse_children-LeavesTexts fuel cur_node none db calls h g = h
  parse_children-LeavesTexts fuel cur_node (some (i, made, calls')) db calls h g =
      ground (arith, visit_nodes-AllTexts fuel (children cur_node) i made g)

  parse_root-LeavesTexts :
      (fuel : ℕ) (start : Option Node) (db : XmlDatabase) (calls : PropertyCalls)
      → All HasTexts db.sdks
      → LeavesTexts (parse_root xml fuel start db calls)
  parse_root-LeavesTexts fuel none db calls h = h
  parse_root-LeavesTexts fuel (some cur_node) db calls h =
      parse_children-LeavesTexts fuel cur_node _ db calls h (
        generate_sdk-MadeTexts (name cur_node) (get_prop cur_node (codes "Version")) db calls
          (gives.names cur_node) (gives.props cur_node (codes "Version")) h)

  parse_doc-LeavesTexts :
      (fuel : ℕ) (doc : Option Doc) (db : XmlDatabase) (calls : PropertyCalls)
      → All HasTexts db.sdks
      → LeavesTexts (parse_doc xml fuel doc db calls)
  parse_doc-LeavesTexts fuel none db calls h = h
  parse_doc-LeavesTexts fuel (some doc) db calls h =
      parse_root-LeavesTexts fuel (root doc) db calls h

  -- `parser` keeps the texts of the database C strings.
  pub parser-HasTexts :
      (fuel : ℕ) (path : Option Bytes) (db : XmlDatabase) (calls : PropertyCalls)
      → All HasTexts db.sdks
      → Leaves (λ d. All HasTexts d.sdks) (parser xml fuel path db calls)
  unfolding parser
  parser-HasTexts fuel none db calls h = h
  parser-HasTexts fuel (some path) db calls h =
      rw (parser-eq xml fuel path db calls) (parse_doc-LeavesTexts fuel (read_file path) db calls h)
