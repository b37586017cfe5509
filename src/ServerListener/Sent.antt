-- ===== src/ServerListener/Sent.antt =====
-- What the loop of `ServerListener::run` writes: replies to what was asked, and nothing else.
use vr_admin.Prelude.{
  ◌≡◌, ◌⊎◌, refl, inl, inr, Bool, true, false, ◌&&◌, Bool-cases, if◌then◌else◌, eqb_ℤ, Option, none,
  some, List, [], ◌∷◌, All, All-append, All-mono, ℤ, pos, minus_one, Exec, ok, undefined, ◌>>=◌,
}
use vr_admin.CString.{Bytes, codes, c_str, strncmp}
use vr_admin.XmlDatabase.{XmlDatabase}
use vr_admin.XmlDatabase.Texts.{HasTexts}
use vr_admin.ClientConnector.Protocol.{classify, reply_to}
use vr_admin.ClientConnector.Sockets.{outcome_of, respond, specified}
use vr_admin.ServerListener.Connectors.{IsValid}
use vr_admin.ServerListener.Rounds.{
  Fits, outcome_at, replies, serve_lem, accept-IsValid, accept-xml_data,
}
use vr_admin.ServerListener.Descriptors.{Done, taken, run_round-Completes}
use vr_admin.ServerListener.{
  ServerListener, Round, Log, nothing, sent_to, serve, accept, run_round, History, prepend,
  continue_run, run_rounds,
}

-- A text that was written to a client: the specified reply to what the client sent in this round.
abbrev pub Answered : XmlDatabase → Round → ℤ × Bytes → Type 0
Answered db round (fd, text) =
    (request : Bytes) × ((round.sockets fd).incoming ≡ some request)
    × (text ≡ reply_to db (classify (c_str request)))

abbrev pub AnsweredIn : XmlDatabase → List Round → ℤ × Bytes → Type 0
AnsweredIn db [] message = ⊥
AnsweredIn db (round ∷ rounds) message = Answered db round message ⊎ AnsweredIn db rounds message

module _ (db : XmlDatabase) (round : Round) where
  AnsweredIf : ℤ → Option Bytes → Type 0
  AnsweredIf fd none = Unit {0}
  AnsweredIf fd (some text) = Answered db round (fd, text)

  specified-AnsweredIf : (fd : ℤ) → AnsweredIf fd (specified db (round.sockets fd)).sent
  unfolding specified AnsweredIf
  specified-AnsweredIf fd = on_incoming (round.sockets fd).incoming refl
    where
      on_text :
          (s : Bytes) (b : Bool)
          → (round.sockets fd).incoming ≡ some s
          → strncmp (c_str s) (codes "quit") 4 ≡ b
          → AnsweredIf fd (outcome_of db (round.sockets fd).accepts (c_str s)).sent
      on_text s true e q = unfold outcome_of in rw q tt
      on_text s false e q = unfold outcome_of in rw q (s, e, refl)

      on_incoming :
          (r : Option Bytes)
          → (round.sockets fd).incoming ≡ r
          → AnsweredIf fd (respond db (round.sockets fd) r).sent
      on_incoming none e = tt
      on_incoming (some []) e = tt
      on_incoming (some (c ∷ s)) e = on_text (c ∷ s) _ e refl

  outcome_at-AnsweredIf : (fd : ℤ) → AnsweredIf fd (outcome_at db round fd).sent
  unfolding outcome_at AnsweredIf
  outcome_at-AnsweredIf fd = elim (Bool-cases (round.ready fd)) [
    | inl e ↦ rw e (specified-AnsweredIf fd)
    | inr e ↦ rw e tt
  ]

  sent_to-Answered :
      (fd : ℤ) (sent : Option Bytes) (rest : List (ℤ × Bytes))
      → AnsweredIf fd sent
      → All (Answered db round) rest
      → All (Answered db round) (sent_to fd sent rest)
  unfolding AnsweredIf
  sent_to-Answered fd none rest a h = h
  sent_to-Answered fd (some text) rest a h = (a, h)

  replies-Answered : (fds : List ℤ) → All (Answered db round) (replies db round fds)
  unfolding replies
  replies-Answered [] = tt
  replies-Answered (fd ∷ fds) =
      sent_to-Answered fd _ _ (outcome_at-AnsweredIf fd) (replies-Answered fds)

abbrev LogAnswered : XmlDatabase → Round → Exec (Option (ServerListener × Log)) → Type 0
LogAnswered db round undefined = Unit {0}
LogAnswered db round (ok none) = Unit {0}
LogAnswered db round (ok (some (l, log))) = All (Answered db round) log.sent

LogAnswered-if :
    (db : XmlDatabase) (round : Round) (b : Bool) (x y : Exec (Option (ServerListener × Log)))
    → LogAnswered db round x
    → LogAnswered db round y
    → LogAnswered db round (if b then x else y)
LogAnswered-if db round true x y hx hy = hx
LogAnswered-if db round false x y hx hy = hy

serve-LogAnswered :
    (l k : ServerListener) (round : Round)
    → IsValid k
    → k.xml_data ≡ l.xml_data
    → All HasTexts l.xml_data.sdks
    → Fits round
    → LogAnswered l.xml_data round (serve round k)
serve-LogAnswered l k round v same texts fits =
    rw (serve_lem k v (rw same texts) round fits, same)
      (replies-Answered l.xml_data round k.connectors)

run_round-LogAnswered :
    (round : Round) (l : ServerListener)
    → IsValid l
    → All HasTexts l.xml_data.sdks
    → Fits round
    → LogAnswered l.xml_data round (run_round round l)
unfolding run_round
run_round-LogAnswered round l v texts fits =
    LogAnswered-if l.xml_data round (eqb_ℤ round.nfds minus_one) _ _ (failed round.interrupted) (
      LogAnswered-if l.xml_data round (round.ready l.wakeup_read && eqb_ℤ round.nfds (pos 1)) _ _ tt
        (LogAnswered-if l.xml_data round (round.ready l.listen_fd) _ _
          (LogAnswered-if l.xml_data round (eqb_ℤ round.nfds (pos 1)) _ _ tt (
            serve-LogAnswered l (accept round l) round (accept-IsValid round l v)
              (accept-xml_data round l) texts fits))
          (serve-LogAnswered l l round v refl texts fits)))
  where
    failed : (b : Bool) → LogAnswered l.xml_data round (ok (if b then some (l, nothing) else none))
    failed true = tt
    failed false = tt

abbrev pub HistoryAnswered : XmlDatabase → List Round → Exec History → Type 0
HistoryAnswered db rounds undefined = ⊥
HistoryAnswered db rounds (ok h) = All (AnsweredIn db rounds) h.sent

HistoryAnswered-step :
    (round : Round) (rounds : List Round) (l : ServerListener)
    (rest : ServerListener → Exec History) (r : Option (ServerListener × Log))
    → LogAnswered l.xml_data round (ok r)
    → Done round l (taken round l) r
    → ((k : ServerListener)
        → IsValid k
        → k.xml_data ≡ l.xml_data
        → HistoryAnswered l.xml_data rounds (rest k))
    → HistoryAnswered l.xml_data (round ∷ rounds) (continue_run rest l r)
HistoryAnswered-step round rounds l rest none a done more = tt
HistoryAnswered-step round rounds l rest (some (k, log)) a done more =
    later (rest k) (more k done.valid done.same_data)
  where
    later :
        (run : Exec History)
        → HistoryAnswered l.xml_data rounds run
        → HistoryAnswered l.xml_data (round ∷ rounds) (run >>= λ h. ok (prepend log h))
    later undefined h = absurd h
    later (ok k) h =
        All-append _ log.sent k.sent (All-mono _ _ log.sent (λ m x. inl x) a)
          (All-mono _ _ k.sent (λ m x. inr x) h)

-- From valid connectors and a database of C strings, over any rounds in which no socket gives more
-- than 64 bytes at once, every text that the loop writes to a client is the specified reply, from the
-- database of the start, to a request that this client sent in one of the rounds.
pub run_rounds-HistoryAnswered :
    (rounds : List Round) (l : ServerListener)
    → IsValid l
    → All HasTexts l.xml_data.sdks
    → All Fits rounds
    → HistoryAnswered l.xml_data rounds (run_rounds rounds l)
unfolding run_rounds
run_rounds-HistoryAnswered [] l v texts fits = tt
run_rounds-HistoryAnswered (round ∷ rounds) l v texts (fit, fits) =
    let (r, e, done) = run_round-Completes round l v texts fit in
    rw e (
      HistoryAnswered-step round rounds l (run_rounds rounds) r
        (rw e at (run_round-LogAnswered round l v texts fit)) done
        (λ k w same. rw (← same) (run_rounds-HistoryAnswered rounds k w (rw same texts) fits)))
