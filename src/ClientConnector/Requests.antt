-- ===== src/ClientConnector/Requests.antt =====
-- `postSelect` against the specified protocol, and the requests that overrun its buffer.
use vr_admin.Prelude.{
  ◌≡◌, refl, Bool, true, false, if◌then◌else◌, some, List, [], ◌∷◌, drop, All, All-append,
  minus_one, ok, arith,
}
use vr_admin.CString.{
  Bytes, codes, c_str, has_terminator, read_c_str, strncasecmp, sprintf, format_d,
}
use vr_admin.CString.Buffers.{IsCString}
use vr_admin.VrSdk.{VrSdk}
use vr_admin.XmlDatabase.{XmlDatabase, append_types, join_types, get_all_sdk_types, get_sdk}
use vr_admin.XmlDatabase.Search.{get_sdk-All}
use vr_admin.ClientConnector.Protocol.{types, version_of, feature_of, unknown, reply_to, classify}
use vr_admin.XmlDatabase.Texts.{HasTexts}
use vr_admin.ClientConnector.Replies.{
  written, written-copy_text, written-version_answer, written-feature_answer,
}
use vr_admin.ClientConnector.{
  sdk_list, empty_buff, copy_text, version_answer, feature_answer, process_message,
}

append_types-IsCString : (sdks : List VrSdk) → All HasTexts sdks → IsCString (append_types sdks)
unfolding append_types
append_types-IsCString [] h = tt
append_types-IsCString (sdk ∷ sdks) ((t, v), h) =
    (omega arith, All-append _ sdk.type (append_types sdks) t (append_types-IsCString sdks h))

get_all_sdk_types-IsCString :
    (db : XmlDatabase) → All HasTexts db.sdks → IsCString (get_all_sdk_types db)
unfolding get_all_sdk_types
get_all_sdk_types-IsCString db h = joined db.sdks h
  where
    joined : (sdks : List VrSdk) → All HasTexts sdks → IsCString (join_types sdks)
    joined [] h = tt
    joined (sdk ∷ sdks) ((t, v), h) =
        All-append _ sdk.type (append_types sdks) t (append_types-IsCString sdks h)

module _ (db : XmlDatabase) (texts : All HasTexts db.sdks) where
  sdk_texts : (type : Bytes) (sdk : VrSdk) → get_sdk type db ≡ some sdk → IsCString sdk.version
  sdk_texts type sdk e = (get_sdk-All HasTexts type db texts e).1

  -- The five tests of a request, in their order.
  written-tests :
      (r : Bytes)
      → has_terminator r ≡ true
      → (types? lvr? svr? lvr_feature? svr_feature? : Bool)
      → written (
          if types?
          then copy_text (get_all_sdk_types db) empty_buff
          else if lvr?
          then version_answer (get_sdk (codes "lvr") db) empty_buff
          else if svr?
          then version_answer (get_sdk (codes "svr") db) empty_buff
          else if lvr_feature?
          then feature_answer (get_sdk (codes "lvr") db) r empty_buff
          else if svr_feature?
          then feature_answer (get_sdk (codes "svr") db) r empty_buff
          else ok (minus_one, empty_buff))
        ≡ ok (
            reply_to db (
              if types?
              then types
              else if lvr?
              then version_of (codes "lvr")
              else if svr?
              then version_of (codes "svr")
              else if lvr_feature?
              then feature_of (codes "lvr") (drop 12 (c_str r))
              else if svr_feature?
              then feature_of (codes "svr") (drop 12 (c_str r))
              else unknown))
  unfolding reply_to
  written-tests r h true _ _ _ _ =
      written-copy_text (get_all_sdk_types db) (get_all_sdk_types-IsCString db texts)
  written-tests r h false true _ _ _ =
      written-version_answer (get_sdk (codes "lvr") db) (sdk_texts (codes "lvr"))
  written-tests r h false false true _ _ =
      written-version_answer (get_sdk (codes "svr") db) (sdk_texts (codes "svr"))
  written-tests r h false false false true _ = written-feature_answer (get_sdk (codes "lvr") db) r h
  written-tests r h false false false false true =
      written-feature_answer (get_sdk (codes "svr") db) r h
  written-tests r h false false false false false = unfold sprintf read_c_str format_d in refl

  -- The buffers never overflow, and what is written is the specified reply.
  pub written-process_message :
      (r : Bytes)
      → has_terminator r ≡ true
      → written (process_message (sdk_list db) r empty_buff) ≡ ok (reply_to db (classify (c_str r)))
  unfolding classify process_message
  written-process_message r h =
      written-tests r h (strncasecmp (c_str r) (codes "support_sdks") 6)
        (strncasecmp (c_str r) (codes "lvr_sdk_version") 15)
        (strncasecmp (c_str r) (codes "svr_sdk_version") 15)
        (strncasecmp (c_str r) (codes "lvr_feature:") 12)
        (strncasecmp (c_str r) (codes "svr_feature:") 12)
