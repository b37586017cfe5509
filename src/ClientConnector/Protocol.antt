-- ===== src/ClientConnector/Protocol.antt =====
-- The text protocol, as a specification: what a request asks for, and the reply to it.
use vr_admin.Prelude.{if◌then◌else◌, Option, none, some, [], ◌∷◌, take, drop}
use vr_admin.CString.{Bytes, codes, strncasecmp, format_lu}
use vr_admin.VrSdk.{VrSdk, get_feature}
use vr_admin.XmlDatabase.{XmlDatabase, get_all_sdk_types, get_sdk}

pub data Request : Type 0 where
  types : Request
  version_of : Bytes → Request
  feature_of : Bytes → Bytes → Request
  unknown : Request

-- Requests are told apart by their first bytes, up to case.
unfoldable pub classify : Bytes → Request
classify text =
    if strncasecmp text (codes "support_sdks") 6
    then types
    else if strncasecmp text (codes "lvr_sdk_version") 15
    then version_of (codes "lvr")
    else if strncasecmp text (codes "svr_sdk_version") 15
    then version_of (codes "svr")
    else if strncasecmp text (codes "lvr_feature:") 12
    then feature_of (codes "lvr") (drop 12 text)
    else if strncasecmp text (codes "svr_feature:") 12
    then feature_of (codes "svr") (drop 12 text)
    else unknown

-- At most 64 bytes of a text, and the error -2 in place of an empty one.
unfoldable pub text_reply : Bytes → Bytes
text_reply [] = codes "-2"
text_reply (c ∷ s) = take 64 (c ∷ s)

unfoldable pub version_reply : Option VrSdk → Bytes
unfolding text_reply
version_reply none = codes "-3"
version_reply (some sdk) = text_reply sdk.version

unfoldable pub feature_reply : Bytes → Option VrSdk → Bytes
feature_reply v none = codes "-3"
feature_reply v (some sdk) = format_lu (get_feature (some v) sdk)

unfoldable pub reply_to : XmlDatabase → Request → Bytes
reply_to db types = text_reply (get_all_sdk_types db)
reply_to db (version_of type) = version_reply (get_sdk type db)
reply_to db (feature_of type v) = feature_reply v (get_sdk type db)
reply_to db unknown = codes "-1"
