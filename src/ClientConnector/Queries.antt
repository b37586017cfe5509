-- ===== src/ClientConnector/Queries.antt =====
-- A query for a feature, and the number that the client reads from the reply.
use vr_admin.Prelude.{
  ◌≡◌, ◌≤◌, ◌<◌, ◌^◌, refl, ◌∙◌, ap, false, true, some, ◌++◌, length, All, ℤ, pos, ltb_ℤ, ok, arith,
}
use mathlib.Core.Path.{subst}
use mathlib.Core.Option.{some-injective}
use vr_admin.CString.{Bytes, codes, c_str, strncmp, strncasecmp, format_lu, atoll}
use vr_admin.CString.Buffers.{IsCString, c_str_id}
use vr_admin.CString.Decimal.{atoll-format_lu}
use vr_admin.VrSdk.{VrSdk, get_feature}
use vr_admin.XmlDatabase.{XmlDatabase, get_sdk}
use vr_admin.XmlDatabase.Texts.{HasTexts}
use vr_admin.ClientConnector.Protocol.{classify, reply_to, feature_reply}
use vr_admin.ClientConnector.Sockets.{outcome_of, respond, specified, post_select-specified}
use vr_admin.ClientConnector.{buff_size, Socket, result_ok, post_select}

abbrev pub query : Bytes → Socket
query v = record { incoming = some (codes "svr_feature:" ++ v); accepts = true }

specified-query :
    (db : XmlDatabase) (v : Bytes) (sdk : VrSdk)
    → get_sdk (codes "svr") db ≡ some sdk
    → c_str v ≡ v
    → specified db (query v)
      ≡ record { ret = result_ok; sent = some (format_lu (get_feature (some v) sdk)) }
unfolding specified respond outcome_of classify reply_to feature_reply strncmp strncasecmp c_str
specified-query db v sdk found text = rw (text, found) refl

query_fits :
    (v : Bytes) → length v ≤ 52 → (s : Bytes) → (query v).incoming ≡ some s → length s ≤ buff_size
query_fits v short s e = subst (λ t. length t ≤ buff_size) (some-injective _ s e) (omega arith)

-- With a database of C strings in which `getSDK` finds an SVR SDK, and for a descriptor that is not
-- negative, ready and takes the reply, a query of at most 52 bytes for a feature below 2^63 is
-- answered by a text from which `atoll` reads that feature.
pub post_select-query :
    (db : XmlDatabase) (conn_id : ℤ) (v : Bytes) (sdk : VrSdk)
    → All HasTexts db.sdks
    → ltb_ℤ conn_id (pos 0) ≡ false
    → get_sdk (codes "svr") db ≡ some sdk
    → IsCString v
    → length v ≤ 52
    → get_feature (some v) sdk < 2 ^ 63
    → (text : Bytes) × (post_select db conn_id true (query v)
        ≡ ok (record { ret = result_ok; sent = some text }))
      × (atoll text ≡ pos (get_feature (some v) sdk))
post_select-query db conn_id v sdk texts h found text short small = (
  format_lu (get_feature (some v) sdk),
  post_select-specified db texts conn_id (query v) h (query_fits v short)
      ∙ ap ok (specified-query db v sdk found (c_str_id v text)),
  atoll-format_lu (get_feature (some v) sdk) (omega arith),
)
