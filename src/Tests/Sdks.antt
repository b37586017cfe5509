-- ===== src/Tests/Sdks.antt =====
-- Runs of jni/main/VrSDK.cpp and XmlDatabase.cpp on the information files of jni/prebuilt.
use mathlib.Core.Option.{some-injective}
use mathlib.Core.Path.{subst}
use vr_admin.Prelude.{
  ◌≡◌, refl, ℕ, List, length, ◌<◌, false, true, if◌then◌else◌, some, [], ◌∷◌, ◌++◌, map, pos,
  minus_one, arith,
}
use vr_admin.CString.{
  Bytes, codes, strcmp, strcasecmp, tolower, snprintf, isspace, isdigit, scan, signed_value,
  skip_space, atoll, to_uint64, before_dot,
}
use vr_admin.VrSdk.{
  VrSdk, string_lt, version_property, new_sdk, find, insert, add_external_sdk_item, get_feature,
  feature_or_zero,
}
use vr_admin.VrSdk.Features.{first_feature, get_feature-add_external_sdk_item}
use vr_admin.XmlDatabase.{
  empty_database, append_types, join_types, get_all_sdk_types, first_of_type, get_sdk,
  index_of_type, generate_sdk, update_at, is_external_sdk, visit_node, visit_nodes, parser,
}
use vr_admin.XmlDatabase.Types.{HasDistinctTypes, index_of_type-none}
use vr_admin.XmlDatabase.TypeList.{LacksCaret, split, split-get_all_sdk_types}
use vr_admin.XmlDatabase.Parser.{Siblings, items, first_item, parser_new_type}
use vr_admin.XmlDatabase.Refusals.{IsShort, Outcome, parser-Outcome}
use vr_admin.XmlDatabase.Resources.{parser_trace}
use vr_admin.XmlDatabase.Resources.Accounts.{no_resources, Leads}
use vr_admin.XmlDatabase.Resources.Balance.{returns, unreturned, parser_trace-Leads}
use vr_admin.Tests.Data.{
  svr_path, lvr_path, svr_version, lvr_version, svr_nodes, svr_chain, lvr_nodes, svr_sdk, lvr_sdk,
  info_database, info_xml, lvr_chain, is_item, node_name, version_of, read_info,
}

program : Unit {0}
unfolding strcmp strcasecmp tolower snprintf isspace isdigit scan signed_value skip_space atoll
    to_uint64 before_dot string_lt version_property new_sdk find insert add_external_sdk_item
    get_feature append_types join_types get_all_sdk_types first_of_type get_sdk index_of_type
    generate_sdk update_at is_external_sdk visit_node visit_nodes parser is_item node_name
    version_of read_info
program = tt

parser-svr :
    parser info_xml 10 (some svr_path) empty_database []
    ≡ some (pos 0, record { sdks = svr_sdk ∷ [] }, (codes "vr.svr.version", svr_version) ∷ [])
unfolding program
parser-svr = refl

parser_missing :
    parser info_xml 10 (some (codes "none.xml")) empty_database []
    ≡ some (minus_one, empty_database, [])
unfolding program
parser_missing = refl

get_all_sdk_types-info : get_all_sdk_types info_database ≡ codes "SVR^LVR"
unfolding program
get_all_sdk_types-info = refl

get_feature-add_external_sdk_item_example :
    (get_feature
        (some (codes "Svr_C_001S.2016"))
        (add_external_sdk_item (some (codes "Svr_C_001S")) 5 svr_sdk).0
      ≡ (if strcmp (before_dot (codes "Svr_C_001S.2016")) (codes "Svr_C_001S")
          then first_feature 5 (find (codes "Svr_C_001S") svr_sdk.vfs)
          else get_feature (some (codes "Svr_C_001S.2016")) svr_sdk))
    × (get_feature
          (some (codes "Svr_C_001S.2016"))
          (add_external_sdk_item (some (codes "A" ++ (b'.' ∷ codes "1"))) 5 svr_sdk).0
        ≡ get_feature (some (codes "Svr_C_001S.2016")) svr_sdk)
get_feature-add_external_sdk_item_example =
    get_feature-add_external_sdk_item (codes "Svr_C_001S") (codes "Svr_C_001S.2016") (codes "A")
      (codes "1") 5 svr_sdk

split-get_all_sdk_types_example :
    split (get_all_sdk_types info_database) ≡ map (λ x. x.type) (svr_sdk ∷ lvr_sdk ∷ [])
split-get_all_sdk_types_example =
    split-get_all_sdk_types svr_sdk (lvr_sdk ∷ []) (no_caret, (no_caret', tt))
  where
    no_caret : LacksCaret (codes "SVR")
    no_caret = (omega arith, (omega arith, (omega arith, tt)))

    no_caret' : LacksCaret (codes "LVR")
    no_caret' = (omega arith, (omega arith, (omega arith, tt)))

info-HasDistinctTypes : HasDistinctTypes info_database.sdks
unfolding program
info-HasDistinctTypes = (index_of_type-none (codes "SVR") (lvr_sdk ∷ []) refl, (tt, tt))

parser_new_type_example :
    (sdk : VrSdk) × (parser info_xml 10 (some lvr_path) (record { sdks = svr_sdk ∷ [] }) []
      ≡ some (
        pos 0,
        record { sdks = svr_sdk ∷ sdk ∷ [] },
        (version_property (codes "LVR"), lvr_version) ∷ [],
      ))
    × (sdk.type ≡ codes "LVR")
    × (sdk.version ≡ lvr_version)
    × ((w : Bytes)
        → get_feature (some w) sdk
          ≡ feature_or_zero (first_item (before_dot w) (items info_xml lvr_nodes)))
unfolding program
parser_new_type_example =
    parser_new_type info_xml lvr_path true 10 (codes "LVR") lvr_version lvr_nodes refl refl refl
      refl lvr_chain 10 (record { sdks = svr_sdk ∷ [] }) [] refl (omega arith)

info-IsShort : (path : Bytes) → IsShort info_xml 10 (some path)
info-IsShort path false top e r =
    subst
      (λ t. (nodes : List ℕ) × Siblings info_xml (info_xml.children t) nodes × (length nodes < 10))
      (some-injective _ _ r) (svr_nodes, svr_chain, omega arith)
info-IsShort path true top e r =
    subst
      (λ t. (nodes : List ℕ) × Siblings info_xml (info_xml.children t) nodes × (length nodes < 10))
      (some-injective _ _ r) (lvr_nodes, lvr_chain, omega arith)

-- The database has the type of the file.
parser-Outcome_example :
    Outcome info_xml info_database []
      (some lvr_path)
      (parser info_xml 10 (some lvr_path) info_database [])
parser-Outcome_example =
    parser-Outcome info_xml 10 (some lvr_path) info_database [] (info-IsShort lvr_path)

parser_trace-Leads_example :
    (returns (parser_trace info_xml 10 (some svr_path) empty_database [])
      ≡ returns (parser info_xml 10 (some svr_path) empty_database []))
    × Leads no_resources
        (record no_resources { root_versions = unreturned info_xml (some svr_path) })
        (parser_trace info_xml 10 (some svr_path) empty_database [])
parser_trace-Leads_example = parser_trace-Leads info_xml 10 (some svr_path) empty_database []

-- The version of the file is never freed.
unreturned-svr : unreturned info_xml (some svr_path) ≡ 1
unfolding program read_info version_of
unreturned-svr = refl
