-- ===== src/XmlDatabase/Outcomes.antt =====
-- What every run of `XmlDatabase::parser` keeps of the database, failed ones included.
use vr_admin.Prelude.{ℕ, zero, suc, Option, none, some, minus_one, arith}
use vr_admin.CString.{Bytes, codes}
use vr_admin.VrSdk.{PropertyCalls}
use vr_admin.XmlDatabase.Libxml.{Xml}
use vr_admin.XmlDatabase.Parser.{visit_node-type, parser-eq}
use vr_admin.XmlDatabase.Types.{
  HasDistinctTypes, HasDistinctTypes-update_at, Generated, generate_sdk-HasDistinctTypes,
}
use vr_admin.XmlDatabase.{
  XmlDatabase, visit_node, visit_nodes, Parsed, parse_children, parse_root, parse_doc, parser,
}

-- A run that returned left a database that meets `P`.
abbrev pub Leaves : (XmlDatabase → Type 0) → Option Parsed → Type 0
Leaves P none = Unit {0}
Leaves P (some (ret, db, calls)) = P db

abbrev DistinctDatabase : Option XmlDatabase → Type 0
DistinctDatabase none = Unit {0}
DistinctDatabase (some db) = HasDistinctTypes db.sdks

module _ (xml : Xml) where
  open xml use {Doc, Node, read_file, root, name, get_prop, children, next}

  visit_nodes-DistinctDatabase :
      (fuel : ℕ) (start : Option Node) (i : ℕ) (db : XmlDatabase)
      → HasDistinctTypes db.sdks
      → DistinctDatabase (visit_nodes xml fuel start i db)
  unfolding visit_nodes
  visit_nodes-DistinctDatabase zero start i db h = tt
  visit_nodes-DistinctDatabase (suc fuel) none i db h = h
  visit_nodes-DistinctDatabase (suc fuel) (some cur_node) i db h =
      visit_nodes-DistinctDatabase fuel (next cur_node) i _ (
        HasDistinctTypes-update_at i (visit_node xml cur_node) db.sdks
          (λ sdk. (visit_node-type xml cur_node sdk).0) h)

  parse_children-Leaves :
      (fuel : ℕ) (cur_node : Node) (made : Option (ℕ × XmlDatabase × PropertyCalls))
      (db : XmlDatabase) (calls : PropertyCalls)
      → HasDistinctTypes db.sdks
      → Generated made
      → Leaves
          (λ d. HasDistinctTypes d.sdks)
          (parse_children xml fuel cur_node made (minus_one, db, calls))
  parse_children-Leaves fuel cur_node none db calls h g = h
  parse_children-Leaves fuel cur_node (some (i, made, calls')) db calls h g =
      ground (arith, visit_nodes-DistinctDatabase fuel (children cur_node) i made g)

  parse_root-Leaves :
      (fuel : ℕ) (start : Option Node) (db : XmlDatabase) (calls : PropertyCalls)
      → HasDistinctTypes db.sdks
      → Leaves (λ d. HasDistinctTypes d.sdks) (parse_root xml fuel start db calls)
  parse_root-Leaves fuel none db calls h = h
  parse_root-Leaves fuel (some cur_node) db calls h =
      parse_children-Leaves fuel cur_node _ db calls h (
        generate_sdk-HasDistinctTypes (name cur_node) (get_prop cur_node (codes "Version")) db calls
          h)

  parse_doc-Leaves :
      (fuel : ℕ) (doc : Option Doc) (db : XmlDatabase) (calls : PropertyCalls)
      → HasDistinctTypes db.sdks
      → Leaves (λ d. HasDistinctTypes d.sdks) (parse_doc xml fuel doc db calls)
  parse_doc-Leaves fuel none db calls h = h
  parse_doc-Leaves fuel (some doc) db calls h = parse_root-Leaves fuel (root doc) db calls h

  -- Whatever a file holds, if the fuel does not run out, `parser` keeps the types of the database
  -- distinct.
  pub parser-HasDistinctTypes :
      (fuel : ℕ) (path : Option Bytes) (db : XmlDatabase) (calls : PropertyCalls)
      → HasDistinctTypes db.sdks
      → Leaves (λ d. HasDistinctTypes d.sdks) (parser xml fuel path db calls)
  unfolding parser
  parser-HasDistinctTypes fuel none db calls h = h
  parser-HasDistinctTypes fuel (some path) db calls h =
      rw (parser-eq xml fuel path db calls) (parse_doc-Leaves fuel (read_file path) db calls h)
