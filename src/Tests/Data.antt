-- ===== src/Tests/Data.antt =====
-- The two information files of jni/prebuilt, as libxml2 gives them: the white space between the
-- elements is text nodes.
use vr_admin.Prelude.{
  ℕ, ◌≡◌, refl, All, arith, Bool, true, false, ◌||◌, ◌==◌, if◌then◌else◌, Option, none, some, List,
  [], ◌∷◌, ◌+◌,
}
use vr_admin.CString.{Bytes, codes, strcmp}
use vr_admin.VrSdk.{VrSdk}
use vr_admin.XmlDatabase.{XmlDatabase}
use vr_admin.XmlDatabase.Libxml.{Xml}
use vr_admin.XmlDatabase.Parser.{IsInfo, Siblings, more, end}
use vr_admin.XmlDatabase.Texts.{HasTexts, Textual, GivesTexts}
use vr_admin.CString.Buffers.{IsCString}

abbrev pub svr_path : Bytes
svr_path = codes "/system/vendor/etc/svrinfo.xml"

abbrev pub lvr_path : Bytes
lvr_path = codes "/system/vendor/etc/lvrinfo.xml"

-- The nodes by number: 0 and 10 are the roots, and 2, 4, 6 and 12 are the elements below them.
unfoldable pub is_item : ℕ → Bool
is_item n = n == 2 || n == 4 || n == 6 || n == 12

unfoldable pub node_name : ℕ → Bytes
unfolding is_item
node_name n =
    if n == 0
    then codes "SVR"
    else if n == 10
    then codes "LVR"
    else if is_item n
    then codes "ExternalSDK"
    else codes "text"

unfoldable pub version_of : ℕ → Option Bytes
unfolding is_item
version_of n =
    if n == 0
    then some (codes "Svr_S_001S.201610260000")
    else if n == 10
    then some (codes "Lvr_S_001S.201610260000")
    else if n == 12
    then some (codes "Lvr_C_001S")
    else if is_item n
    then some (codes "Svr_C_001S")
    else none

unfoldable pub read_info : Bytes → Option Bool
unfolding strcmp
read_info path =
    if strcmp path svr_path then some false else if strcmp path lvr_path then some true else none

abbrev pub info_xml : Xml
info_xml = record {
  Doc = Bool;
  Node = ℕ;
  read_file = read_info;
  root = λ lvr. some (if lvr then 10 else 0);
  name = λ n. some (node_name n);
  get_prop = λ n key. if strcmp key (codes "Version") then version_of n else none;
  get_content = λ n. if is_item n then some (codes "3") else some [];
  children = λ n. if n == 0 then some 1 else if n == 10 then some 11 else none;
  next = λ n. if n == 7 || n == 13 || n == 0 || n == 10 then none else some (n + 1);
}

abbrev pub svr_nodes : List ℕ
svr_nodes = 1 ∷ 2 ∷ 3 ∷ 4 ∷ 5 ∷ 6 ∷ 7 ∷ []

abbrev pub lvr_nodes : List ℕ
lvr_nodes = 11 ∷ 12 ∷ 13 ∷ []

abbrev pub svr_version : Bytes
svr_version = codes "Svr_S_001S.201610260000"

abbrev pub lvr_version : Bytes
lvr_version = codes "Lvr_S_001S.201610260000"

abbrev pub svr_sdk : VrSdk
svr_sdk = record { type = codes "SVR"; version = svr_version; vfs = (codes "Svr_C_001S", 3) ∷ [] }

abbrev pub lvr_sdk : VrSdk
lvr_sdk = record { type = codes "LVR"; version = lvr_version; vfs = (codes "Lvr_C_001S", 3) ∷ [] }

-- The database that the two files give.
abbrev pub info_database : XmlDatabase
info_database = record { sdks = svr_sdk ∷ lvr_sdk ∷ [] }

pub svr_chain : Siblings info_xml (some 1) svr_nodes
svr_chain = more (more (more (more (more (more (more end))))))

pub lvr_chain : Siblings info_xml (some 11) lvr_nodes
lvr_chain = more (more (more end))

pub svr_info : IsInfo info_xml svr_path (codes "SVR") svr_version svr_nodes
unfolding read_info node_name version_of strcmp
svr_info = record {
  doc = false;
  top = 0;
  reads = refl;
  roots = refl;
  named = refl;
  versioned = refl;
  chain = svr_chain;
}

pub lvr_info : IsInfo info_xml lvr_path (codes "LVR") lvr_version lvr_nodes
unfolding read_info node_name version_of strcmp
lvr_info = record {
  doc = true;
  top = 10;
  reads = refl;
  roots = refl;
  named = refl;
  versioned = refl;
  chain = lvr_chain;
}

-- Texts without a 0, by a test.
unfoldable pub is_text : Bytes → Bool
is_text [] = true
is_text (c ∷ s) = if c == 0 then false else is_text s

pub is_text-IsCString : (s : Bytes) → is_text s ≡ true → IsCString s
unfolding is_text
is_text-IsCString [] h = tt
is_text-IsCString (c ∷ s) h = (ground arith, is_text-IsCString s (ground arith))

node_name_text : (n : ℕ) → is_text (node_name n) ≡ true
unfolding node_name is_text
node_name_text n = ground arith

version_of-Textual : (n : ℕ) → Textual (version_of n)
unfolding version_of
version_of-Textual n = ground arith

pub info-GivesTexts : GivesTexts info_xml
info-GivesTexts = record {
  names = λ n. is_text-IsCString (node_name n) (node_name_text n);
  props = λ n key. ground (arith, version_of-Textual n);
}

pub info-HasTexts : All HasTexts info_database.sdks
unfolding is_text
info-HasTexts = (
  (is_text-IsCString svr_sdk.type refl, is_text-IsCString svr_sdk.version refl),
  ((is_text-IsCString lvr_sdk.type refl, is_text-IsCString lvr_sdk.version refl), tt),
)
