-- ===== src/ClientConnector/Bounds.antt =====
-- The size of what `postSelect` writes.
use mathlib.Core.List.{cons-ne-nil}
use vr_admin.Prelude.{
  ◌≤◌, ◌≡◌, ◌≢◌, Bool, true, false, Bool-cases, inl, inr, Option, none, some, [], ◌∷◌, length, All,
  length-take, ℤ, pos, ltb_ℤ, ok, arith,
}
use vr_admin.CString.{Bytes, codes, c_str, strncmp}
use vr_admin.CString.Decimal.{format_lu_shape}
use vr_admin.VrSdk.{VrSdk, get_feature}
use vr_admin.XmlDatabase.{XmlDatabase}
use vr_admin.ClientConnector.Protocol.{
  Request, types, version_of, feature_of, unknown, text_reply, version_reply, feature_reply,
  reply_to, classify,
}
use vr_admin.XmlDatabase.Texts.{HasTexts}
use vr_admin.ClientConnector.{buff_size, Socket, Outcome, post_select}
use vr_admin.ClientConnector.Sockets.{outcome_of, respond, specified, post_select-specified}

text_reply_bounds : (s : Bytes) → (text_reply s ≢ []) × (length (text_reply s) ≤ buff_size)
unfolding text_reply
text_reply_bounds [] = (cc, omega arith)
text_reply_bounds (c ∷ s) = (cons-ne-nil _ _, omega (arith, length-take 64 (c ∷ s)))

version_reply_bounds :
    (sdk : Option VrSdk) → (version_reply sdk ≢ []) × (length (version_reply sdk) ≤ buff_size)
unfolding version_reply
version_reply_bounds none = (cons-ne-nil _ _, omega arith)
version_reply_bounds (some sdk) = text_reply_bounds sdk.version

feature_reply_bounds :
    (v : Bytes) (sdk : Option VrSdk)
    → (feature_reply v sdk ≢ []) × (length (feature_reply v sdk) ≤ buff_size)
unfolding feature_reply
feature_reply_bounds v none = (cons-ne-nil _ _, omega arith)
feature_reply_bounds v (some sdk) =
    let (all_digits, ne, short) = format_lu_shape (get_feature (some v) sdk) in (ne, omega arith)

-- A reply of the protocol is never empty and fits the buffer with its terminator.
reply_to_bounds :
    (db : XmlDatabase) (request : Request)
    → (reply_to db request ≢ []) × (length (reply_to db request) ≤ buff_size)
unfolding reply_to
reply_to_bounds db types = text_reply_bounds _
reply_to_bounds db (version_of type) = version_reply_bounds _
reply_to_bounds db (feature_of type v) = feature_reply_bounds v _
reply_to_bounds db unknown = (cons-ne-nil _ _, omega arith)

-- A text that a client gets is neither empty nor longer than the buffer holds.
abbrev pub Sends : Option Bytes → Type 0
Sends none = Unit {0}
Sends (some text) = (text ≢ []) × (length text ≤ buff_size)

specified-Sends : (db : XmlDatabase) (socket : Socket) → Sends (specified db socket).sent
unfolding specified
specified-Sends db socket = on_incoming socket.incoming
  where
    on_text : (accepts : Bool) (text : Bytes) → Sends (outcome_of db accepts text).sent
    on_text accepts text = elim (Bool-cases (strncmp text (codes "quit") 4)) [
      | inl e ↦ unfold outcome_of in rw e tt
      | inr e ↦ unfold outcome_of in rw e (reply_to_bounds db (classify text))
    ]

    on_incoming : (r : Option Bytes) → Sends (respond db socket r).sent
    on_incoming none = tt
    on_incoming (some []) = tt
    on_incoming (some (c ∷ s)) = on_text socket.accepts (c_str (c ∷ s))

-- With a database of C strings, for a descriptor that is not negative and ready, and a read of at
-- most 64 bytes, an empty or a failed one, `postSelect` returns, and what it writes, if it writes, is
-- not empty and has at most 64 bytes.
pub post_select-Sends :
    (db : XmlDatabase) (conn_id : ℤ) (socket : Socket)
    → All HasTexts db.sdks
    → ltb_ℤ conn_id (pos 0) ≡ false
    → ((s : Bytes) → socket.incoming ≡ some s → length s ≤ buff_size)
    → (outcome : Outcome) × (post_select db conn_id true socket ≡ ok outcome) × Sends outcome.sent
post_select-Sends db conn_id socket texts h short = (
  specified db socket,
  post_select-specified db texts conn_id socket h short,
  specified-Sends db socket,
)
