-- ===== src/ClientConnector.antt =====
-- jni/main/ClientConnector.h and ClientConnector.cpp, with the result codes of jni/main/Connector.h:
-- one client of the text protocol.
pub mod Protocol
pub mod Replies
pub mod Requests
pub mod Sockets
pub mod Bounds
pub mod Queries
pub mod Pointers
use vr_admin.Prelude.{
  ℕ, zero, suc, ◌+◌, Bool, true, false, not, ◌||◌, ltb_ℤ, ◌==◌, if◌then◌else◌, Option, none, some,
  List, [], ◌∷◌, ◌++◌, length, take, drop, replicate, ℤ, pos, negsuc, minus_one, minus_two,
  minus_three, Exec, ok, undefined, ◌>>=◌,
}
use vr_admin.CString.{
  Bytes, codes, c_str, read_c_str, strncmp, strncasecmp, strncpy, sprintf, format_lu, format_d,
}
use vr_admin.VrSdk.{VrSdk, get_feature}
use vr_admin.XmlDatabase.{XmlDatabase, get_all_sdk_types, get_sdk}

-- What a connector calls of its database, `mDB`. `getSDK` gives an SDK to call through its pointer.
pub record Database : Type 0 where
  pub all_types : Exec Bytes
  pub sdk_of : Bytes → Exec (Option VrSdk)

-- The database as the list of its SDKs.
abbrev pub sdk_list : XmlDatabase → Database
sdk_list db = record {
  all_types = ok (get_all_sdk_types db);
  sdk_of = λ type. ok (get_sdk type db);
}

abbrev pub result_err : ℤ
result_err = minus_one

abbrev pub result_ok : ℤ
result_ok = pos 0

abbrev pub result_quit : ℤ
result_quit = pos 1

abbrev pub buff_size : ℕ
buff_size = 64

-- `char buff[BUFF_SIZE+1] = { 0 }`.
abbrev pub empty_buff : Bytes
empty_buff = replicate (suc buff_size) 0

abbrev is_empty : Bytes → Bool
is_empty [] = true
is_empty (c ∷ s) = false

-- A result and the buffer of the reply.
abbrev pub Answer : Type 0
Answer = Exec (ℤ × Bytes)

abbrev copy_text : Bytes → Bytes → Answer
copy_text text w =
    if is_empty text then ok (minus_two, w) else (strncpy w text buff_size >>= λ w'. ok (pos 0, w'))

abbrev version_answer : Option VrSdk → Bytes → Answer
version_answer none w = ok (minus_three, w)
version_answer (some sdk) w = copy_text sdk.version w

abbrev feature_answer : Option VrSdk → Bytes → Bytes → Answer
feature_answer none r w = ok (minus_three, w)
feature_answer (some sdk) r w = do
  text ← read_c_str r
  w' ← sprintf w (format_lu (get_feature (some (drop 12 text)) sdk))
  ok (pos 0, w')

-- `processMessage`, on the buffer of the request and that of the reply.
unfoldable pub process_message : Database → Bytes → Bytes → Answer
process_message db r w =
    if strncasecmp (c_str r) (codes "support_sdks") 6
    then (db.all_types >>= λ types. copy_text types w)
    else if strncasecmp (c_str r) (codes "lvr_sdk_version") 15
    then (db.sdk_of (codes "lvr") >>= λ sdk. version_answer sdk w)
    else if strncasecmp (c_str r) (codes "svr_sdk_version") 15
    then (db.sdk_of (codes "svr") >>= λ sdk. version_answer sdk w)
    else if strncasecmp (c_str r) (codes "lvr_feature:") 12
    then (db.sdk_of (codes "lvr") >>= λ sdk. feature_answer sdk r w)
    else if strncasecmp (c_str r) (codes "svr_feature:") 12
    then (db.sdk_of (codes "svr") >>= λ sdk. feature_answer sdk r w)
    else ok (minus_one, w)

-- What the socket does in one call: what `read` gives, `none` for -1, and whether `write` succeeds.
pub record Socket : Type 0 where
  pub incoming : Option Bytes
  pub accepts : Bool

-- The result of `postSelect` and the bytes that were handed to `write`, if it was called.
pub record Outcome : Type 0 where
  pub ret : ℤ
  pub sent : Option Bytes

abbrev silent : ℤ → Exec Outcome
silent ret = ok (record { ret = ret; sent = none })

-- The negative result replaces the reply.
abbrev print_error : ℤ → Bytes → Exec Bytes
print_error (pos n) w = ok w
print_error (negsuc n) w = sprintf w (format_d (negsuc n))

-- The write of the reply, and the log line after it, which reads the request as a C string.
abbrev reply : Socket → Bytes → Bytes → Exec Outcome
reply socket rbuff text =
    if socket.accepts
    then (read_c_str rbuff >>= λ _. ok (record { ret = result_ok; sent = some text }))
    else ok (record { ret = result_err; sent = some text })

abbrev handle_request : Database → Socket → Bytes → Exec Outcome
handle_request db socket rbuff =
    if strncmp (c_str rbuff) (codes "quit") 4 then silent result_quit else do
      (ret, wbuff) ← process_message db rbuff empty_buff
      wbuff' ← print_error ret wbuff
      text ← read_c_str wbuff'
      reply socket rbuff text

-- `read(fd, rbuff, sizeof(rbuff))` stores at most 65 bytes at the start of the buffer.
abbrev pub received : Bytes → Bytes
received incoming =
    take (suc buff_size) incoming ++ drop (length (take (suc buff_size) incoming)) empty_buff

abbrev on_read : Database → Socket → Option Bytes → Exec Outcome
on_read db socket none = silent result_err
on_read db socket (some []) = silent result_quit
on_read db socket (some (c ∷ s)) = handle_request db socket (received (c ∷ s))

-- `postSelect` of the connector with this descriptor; `ready` is its bit in the set.
unfoldable pub post_select_with : Database → ℤ → Bool → Socket → Exec Outcome
post_select_with db conn_id ready socket =
    if ltb_ℤ conn_id (pos 0) || not ready
    then silent result_err
    else on_read db socket socket.incoming

abbrev pub post_select : XmlDatabase → ℤ → Bool → Socket → Exec Outcome
post_select db = post_select_with (sdk_list db)

-- `preSelect`: the descriptors of the set after it, and the descriptor that it returns.
unfoldable pub pre_select : ℤ → List ℤ → List ℤ × ℤ
pre_select conn_id rset = (if ltb_ℤ (pos 0) conn_id then conn_id ∷ rset else rset, conn_id)
