-- ===== src/ClientConnector/Replies.antt =====
-- The buffers of `processMessage` and `postSelect`: what they hold against the specified replies.
use vr_admin.Prelude.{
  ◌≡◌, refl, true, Option, none, some, [], ◌∷◌, drop, All, pos, Exec, ok, ◌>>=◌, arith,
}
use vr_admin.CString.{Bytes, c_str, has_terminator, read_c_str, sprintf, format_lu, format_d}
use vr_admin.CString.Buffers.{IsCString, strncpy_fresh, sprintf_fresh}
use vr_admin.CString.Decimal.{IsDigit, format_lu_shape}
use vr_admin.VrSdk.{VrSdk, get_feature}
use vr_admin.ClientConnector.Protocol.{text_reply, version_reply, feature_reply}
use vr_admin.ClientConnector.{
  buff_size, empty_buff, Answer, copy_text, version_answer, feature_answer, print_error,
}

-- The text that is written to the socket for an answer of `processMessage`.
abbrev pub written : Answer → Exec Bytes
written answer = do (ret, wbuff) ← answer; wbuff' ← print_error ret wbuff; read_c_str wbuff'

-- The steps of a copy that does not overflow, put together.
written-ok :
    (m : Exec Bytes) (buff text : Bytes)
    → m ≡ ok buff
    → read_c_str buff ≡ ok text
    → written (m >>= λ w. ok (pos 0, w)) ≡ ok text
written-ok m buff text e r = rw e r

pub written-copy_text :
    (text : Bytes) → IsCString text → written (copy_text text empty_buff) ≡ ok (text_reply text)
unfolding text_reply sprintf read_c_str format_d
written-copy_text [] h = refl
written-copy_text (c ∷ s) h =
    let (buff, e, r) = strncpy_fresh buff_size (c ∷ s) h in written-ok _ buff _ e r

pub written-version_answer :
    (sdk : Option VrSdk)
    → ((s : VrSdk) → sdk ≡ some s → IsCString s.version)
    → written (version_answer sdk empty_buff) ≡ ok (version_reply sdk)
unfolding version_reply sprintf read_c_str format_d
written-version_answer none h = refl
written-version_answer (some sdk) h = written-copy_text sdk.version (h sdk refl)

pub IsDigit-IsCString : (s : Bytes) → All IsDigit s → IsCString s
IsDigit-IsCString [] h = tt
IsDigit-IsCString (c ∷ s) (hc, h) = (omega arith, IsDigit-IsCString s h)

pub written-feature_answer :
    (sdk : Option VrSdk) (r : Bytes)
    → has_terminator r ≡ true
    → written (feature_answer sdk r empty_buff) ≡ ok (feature_reply (drop 12 (c_str r)) sdk)
unfolding feature_reply sprintf read_c_str format_d
written-feature_answer none r h = refl
written-feature_answer (some sdk) r h =
    let f = get_feature (some (drop 12 (c_str r))) sdk in
    let (all_digits, ne, short) = format_lu_shape f in
    let (buff, e, t) =
      sprintf_fresh empty_buff (format_lu f) (omega arith) (IsDigit-IsCString _ all_digits) in
    rw h (written-ok _ buff _ e t)
