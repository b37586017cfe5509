-- ===== src/XmlDatabase/Resources.antt =====
-- What `XmlDatabase::parser` takes from libxml2 and gives back: documents and strings, in the order
-- of its calls of xmlReadFile, xmlGetProp, xmlNodeGetContent, xmlFree and xmlFreeDoc.
pub mod Accounts
pub mod Balance
use vr_admin.Prelude.{ℕ, zero, suc, ◌+◌, if◌then◌else◌, Option, none, some, List, [], ◌∷◌, ◌++◌}
use vr_admin.CString.{Bytes, codes}
use vr_admin.VrSdk.{PropertyCalls}
use vr_admin.XmlDatabase.Libxml.{Xml}
use vr_admin.XmlDatabase.{XmlDatabase, generate_sdk, is_external_sdk}

-- A document, the version of its root, and the version and the content of an item.
pub data Resource : Type 0 where
  document : Resource
  root_version : Resource
  item_version : Resource
  item_content : Resource

pub data Transfer : Type 0 where
  acquire : Resource → Transfer
  release : Resource → Transfer

abbrev pub Trace : Type 0
Trace = List Transfer

-- A string that is not null.
abbrev pub if_given : Option Bytes → Transfer → Trace
if_given none t = []
if_given (some s) t = t ∷ []

abbrev item_trace : Option Bytes → Option Bytes → Trace
item_trace pro val =
    if_given pro (acquire item_version)
    ++ (if_given val (acquire item_content)
        ++ (if_given pro (release item_version) ++ if_given val (release item_content)))

module _ (xml : Xml) where
  open xml use {Doc, Node, read_file, root, name, get_prop, get_content, children, next}

  unfoldable pub node_trace : Node → Trace
  unfolding is_external_sdk
  node_trace cur_node =
      if is_external_sdk (name cur_node)
      then item_trace (get_prop cur_node (codes "Version")) (get_content cur_node)
      else []

  abbrev behind : Trace → Option Trace → Option Trace
  behind t none = none
  behind t (some rest) = some (t ++ rest)

  -- The loop, with the fuel of `visit_nodes`.
  unfoldable pub nodes_trace : ℕ → Option Node → Option Trace
  nodes_trace zero cur_node = none
  nodes_trace (suc fuel) none = some []
  nodes_trace (suc fuel) (some cur_node) =
      behind (node_trace cur_node) (nodes_trace fuel (next cur_node))

  abbrev then_release : Option Trace → Option Trace
  then_release none = none
  then_release (some t) = some (t ++ (release document ∷ []))

  abbrev children_trace : ℕ → Node → Option (ℕ × XmlDatabase × PropertyCalls) → Option Trace
  children_trace fuel cur_node none = some (release document ∷ [])
  children_trace fuel cur_node (some made) = then_release (nodes_trace fuel (children cur_node))

  abbrev root_trace : ℕ → Option Node → XmlDatabase → PropertyCalls → Option Trace
  root_trace fuel none db calls = some (release document ∷ [])
  root_trace fuel (some cur_node) db calls =
      behind (if_given (get_prop cur_node (codes "Version")) (acquire root_version)) (
        children_trace fuel cur_node
          (generate_sdk (name cur_node) (get_prop cur_node (codes "Version")) db calls))

  abbrev doc_trace : ℕ → Option Doc → XmlDatabase → PropertyCalls → Option Trace
  doc_trace fuel none db calls = some []
  doc_trace fuel (some doc) db calls =
      behind (acquire document ∷ []) (root_trace fuel (root doc) db calls)

  -- The transfers of `parser`; `none` means that the fuel ran out.
  unfoldable pub parser_trace : ℕ → Option Bytes → XmlDatabase → PropertyCalls → Option Trace
  parser_trace fuel none db calls = some []
  parser_trace fuel (some filepath) db calls = doc_trace fuel (read_file filepath) db calls
