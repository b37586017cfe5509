-- ===== src/ClientConnector/Sockets.antt =====
-- `postSelect` over everything that its socket can do.
use vr_admin.Prelude.{
  ℕ, suc, ◌≤◌, ◌<◌, ◌≡◌, refl, ◌∙◌, sym, Bool, true, false, Bool-cases, inl, inr, if◌then◌else◌,
  Option, none, some, [], ◌∷◌, length, take, All, ℤ, pos, ltb_ℤ, Exec, ok, undefined, ◌>>=◌, arith,
}
use vr_admin.CString.{Bytes, codes, c_str, has_terminator, read_c_str, strncmp}
use vr_admin.CString.Buffers.{
  IsCString, filled_terminated, filled_full, has_terminator-IsCString, c_str_id,
}
use vr_admin.XmlDatabase.{XmlDatabase}
use vr_admin.ClientConnector.Protocol.{reply_to, classify}
use vr_admin.XmlDatabase.Texts.{HasTexts}
use vr_admin.ClientConnector.Replies.{written}
use vr_admin.ClientConnector.Requests.{written-process_message}
use vr_admin.ClientConnector.{
  sdk_list, post_select_with, buff_size, empty_buff, Answer, process_message, print_error, Socket,
  Outcome, result_err, result_ok, result_quit, received, on_read, handle_request, reply,
  post_select,
}

-- The steps behind `processMessage`, on any answer of it.
abbrev finish : Answer → (Bytes → Exec Outcome) → Exec Outcome
finish answer k = do
  (ret, wbuff) ← answer
  wbuff' ← print_error ret wbuff
  text ← read_c_str wbuff'
  k text

>>=_assoc :
    {A B C : Type 0} (m : Exec A) (f : A → Exec B) (k : B → Exec C)
    → (m >>= f >>= k) ≡ (m >>= λ a. f a >>= k)
>>=_assoc (ok a) f k = refl
>>=_assoc undefined f k = refl

finish-written :
    (answer : Answer) (k : Bytes → Exec Outcome) → finish answer k ≡ (written answer >>= k)
finish-written undefined k = refl
finish-written (ok (ret, w)) k = sym (>>=_assoc (print_error ret w) read_c_str k)

-- What the client of a socket sees of one call, for a request that fits the buffer.
unfoldable pub outcome_of : XmlDatabase → Bool → Bytes → Outcome
outcome_of db accepts text =
    if strncmp text (codes "quit") 4 then record { ret = result_quit; sent = none } else record {
      ret = if accepts then result_ok else result_err;
      sent = some (reply_to db (classify text));
    }

unfoldable pub respond : XmlDatabase → Socket → Option Bytes → Outcome
unfolding outcome_of
respond db socket none = record { ret = result_err; sent = none }
respond db socket (some []) = record { ret = result_quit; sent = none }
respond db socket (some (c ∷ s)) = outcome_of db socket.accepts (c_str (c ∷ s))

unfoldable pub specified : XmlDatabase → Socket → Outcome
unfolding respond
specified db socket = respond db socket socket.incoming

reply_terminated :
    (socket : Socket) (rbuff text : Bytes)
    → has_terminator rbuff ≡ true
    → reply socket rbuff text
      ≡ ok (record { ret = if socket.accepts then result_ok else result_err; sent = some text })
unfolding read_c_str
reply_terminated socket rbuff text h = rw h (ground arith)

module _ (db : XmlDatabase) (texts : All HasTexts db.sdks) where
  handle_request_lem :
      (socket : Socket) (rbuff : Bytes)
      → has_terminator rbuff ≡ true
      → handle_request (sdk_list db) socket rbuff ≡ ok (outcome_of db socket.accepts (c_str rbuff))
  unfolding outcome_of
  handle_request_lem socket rbuff h = elim (Bool-cases (strncmp (c_str rbuff) (codes "quit") 4)) [
    | inl e ↦ rw e
    | inr e ↦ rw e (
        finish-written (process_message (sdk_list db) rbuff empty_buff) (reply socket rbuff)
        ∙ rw (written-process_message db texts rbuff h) (reply_terminated socket rbuff _ h))
  ]

  -- With a database of C strings, for a descriptor that is not negative and ready, and a read of at
  -- most 64 bytes, an empty or a failed one, `postSelect` does what the protocol specifies: it never
  -- overruns a buffer, it quits
  -- at the end of the input and at `quit`, and it writes the specified reply to any other request.
  pub post_select-specified :
      (conn_id : ℤ) (socket : Socket)
      → ltb_ℤ conn_id (pos 0) ≡ false
      → ((s : Bytes) → socket.incoming ≡ some s → length s ≤ buff_size)
      → post_select db conn_id true socket ≡ ok (specified db socket)
  unfolding post_select_with specified
  post_select-specified conn_id socket h short = rw h (on_incoming socket.incoming refl)
    where
      on_incoming :
          (r : Option Bytes)
          → socket.incoming ≡ r
          → on_read (sdk_list db) socket r ≡ ok (respond db socket r)
      on_incoming none e = refl
      on_incoming (some []) e = refl
      on_incoming (some (c ∷ s)) e =
          let (t, same) = filled_terminated buff_size (c ∷ s) (short (c ∷ s) e) in
          handle_request_lem socket (received (c ∷ s)) t ∙ rw same

finish-undefined :
    (answer : Exec Bytes) (k : Bytes → Exec Outcome)
    → ((text : Bytes) → k text ≡ undefined)
    → (answer >>= k) ≡ undefined
finish-undefined (ok text) k h = h text
finish-undefined undefined k h = refl

-- A request of more than 64 bytes with no 0 among its first 65 fills the buffer and leaves no room
-- for a terminator: unless it begins with `quit`, a call for a ready descriptor that is not negative
-- and that takes the reply has run past the buffer.
pub post_select_overrun :
    (db : XmlDatabase) (conn_id : ℤ) (c : ℕ) (s : Bytes)
    → ltb_ℤ conn_id (pos 0) ≡ false
    → buff_size < length (c ∷ s)
    → IsCString (take (suc buff_size) (c ∷ s))
    → strncmp (take (suc buff_size) (c ∷ s)) (codes "quit") 4 ≡ false
    → post_select db conn_id true (record { incoming = some (c ∷ s); accepts = true }) ≡ undefined
unfolding post_select_with
post_select_overrun db conn_id c s h long text other =
    rw (h, full, c_str_id _ text, other)
      (finish-written (process_message (sdk_list db) rbuff empty_buff) (reply socket rbuff)
        ∙ finish-undefined (written (process_message (sdk_list db) rbuff empty_buff))
            (reply socket rbuff)
            (λ t. unfold read_c_str in rw (has_terminator-IsCString rbuff text)))
  where
    socket : Socket
    socket = record { incoming = some (c ∷ s); accepts = true }

    rbuff : Bytes
    rbuff = take (suc buff_size) (c ∷ s)

    full : received (c ∷ s) ≡ take (suc buff_size) (c ∷ s)
    full = filled_full buff_size (c ∷ s) long
