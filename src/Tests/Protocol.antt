-- ===== src/Tests/Protocol.antt =====
-- Runs of jni/main/ClientConnector.cpp on the database of the information files.
use mathlib.Core.Option.{some-injective}
use mathlib.Core.Path.{subst}
use vr_admin.Prelude.{
  length, ◌≤◌, ◌≡◌, refl, true, none, some, replicate, pos, ok, undefined, arith,
}
use vr_admin.CString.{
  Bytes, codes, strcmp, strcasecmp, strncmp, strncasecmp, tolower, c_str, has_terminator,
  read_c_str, sprintf, strncpy, digits, format_lu, format_d, before_dot,
}
use vr_admin.VrSdk.{find, get_feature}
use vr_admin.XmlDatabase.{append_types, join_types, get_all_sdk_types, first_of_type, get_sdk}
use vr_admin.ClientConnector.{
  post_select_with, buff_size, Socket, result_ok, result_quit, process_message, post_select,
  pre_select,
}
use vr_admin.ClientConnector.Protocol.{classify, text_reply, version_reply, feature_reply, reply_to}
use vr_admin.ClientConnector.Sockets.{
  outcome_of, respond, specified, post_select-specified, post_select_overrun,
}
use vr_admin.Tests.Data.{svr_version, info_database, is_text, is_text-IsCString, info-HasTexts}

program : Unit {0}
unfolding strcmp strcasecmp strncmp strncasecmp tolower c_str has_terminator read_c_str sprintf
    strncpy digits format_lu format_d before_dot find get_feature append_types join_types
    get_all_sdk_types first_of_type get_sdk process_message post_select_with pre_select classify
    text_reply version_reply feature_reply reply_to outcome_of respond specified
program = tt

abbrev asks : Bytes → Socket
asks text = record { incoming = some text; accepts = true }

-- The request is told apart from others by its first six bytes.
post_select-support :
    post_select info_database (pos 5) true (asks (codes "SUPPORT_me"))
    ≡ ok (record { ret = result_ok; sent = some (codes "SVR^LVR") })
unfolding program
post_select-support = refl

post_select-version :
    post_select info_database (pos 5) true (asks (codes "svr_sdk_version"))
    ≡ ok (record { ret = result_ok; sent = some svr_version })
unfolding program
post_select-version = refl

post_select-feature :
    post_select info_database (pos 5) true (asks (codes "lvr_feature:Lvr_C_001S.201610260000"))
    ≡ ok (record { ret = result_ok; sent = some (codes "3") })
unfolding program
post_select-feature = refl

post_select-quit :
    post_select info_database (pos 5) true (asks (codes "quit"))
    ≡ ok (record { ret = result_quit; sent = none })
unfolding program
post_select-quit = refl

post_select-unknown :
    post_select info_database (pos 5) true (asks (codes "hello"))
    ≡ ok (record { ret = result_ok; sent = some (codes "-1") })
unfolding program
post_select-unknown = refl

short_request : (s : Bytes) → some (codes "svr_feature:Svr_C_001S") ≡ some s → length s ≤ buff_size
short_request s e = subst (λ t. length t ≤ buff_size) (some-injective _ s e) (omega arith)

post_select-specified_example :
    post_select info_database (pos 5) true (asks (codes "svr_feature:Svr_C_001S"))
    ≡ ok (specified info_database (asks (codes "svr_feature:Svr_C_001S")))
post_select-specified_example =
    post_select-specified info_database info-HasTexts (pos 5)
      (asks (codes "svr_feature:Svr_C_001S")) refl short_request

-- 65 letters and no terminator.
post_select_overrun_example :
    post_select info_database (pos 5) true (asks (replicate 65 b'a')) ≡ undefined
unfolding strncmp is_text
post_select_overrun_example =
    post_select_overrun info_database (pos 5) b'a' (replicate 64 b'a') refl (omega arith)
      (is_text-IsCString (replicate 65 b'a') refl) refl
