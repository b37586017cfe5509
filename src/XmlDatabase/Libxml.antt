-- ===== src/XmlDatabase/Libxml.antt =====
-- The functions of libxml2 that `XmlDatabase::parser` calls. The library is not part of the
-- repository, so a document is known through these functions only.
use vr_admin.Prelude.{Option}
use vr_admin.CString.{Bytes}

-- `none` is a null pointer.
pub record Xml : Type 1 where
  pub Doc : Type 0
  pub Node : Type 0
  pub read_file : Bytes → Option Doc
  pub root : Doc → Option Node
  pub name : Node → Option Bytes
  pub get_prop : Node → Bytes → Option Bytes
  pub get_content : Node → Option Bytes
  pub children : Node → Option Node
  pub next : Node → Option Node
