-- ===== src/ServerListener/Rounds.antt =====
-- One round of the loop of `ServerListener::run` against its specification: who is served, who quits
-- and is closed, and that no round of requests that fit their buffers fails.
use vr_admin.Prelude.{
  ◌≤◌, ◌≡◌, refl, inl, inr, Bool, true, false, not, ◌&&◌, Bool-cases, if◌then◌else◌, ltb_ℤ, eqb_ℤ,
  eqb_ℤ_iff, eqb_ℤ_refl, none, some, List, [], ◌∷◌, length, All, All-mono, keep, ℤ, pos, ok, arith,
}
use vr_admin.CString.{Bytes}
use vr_admin.XmlDatabase.{XmlDatabase}
use vr_admin.XmlDatabase.Texts.{HasTexts}
use vr_admin.ClientConnector.Sockets.{specified, post_select-specified}
use vr_admin.ClientConnector.{
  post_select_with, Outcome, result_err, result_quit, buff_size, post_select,
}
use vr_admin.ServerListener.Connectors.{IsValid, del_all-keep, add_connector-IsValid, keep_congr}
use vr_admin.ServerListener.{
  ServerListener, has_connector, add_connector, Round, sent_to, post_select_all, serve, accept,
}

-- What a connector does in a round: nothing unless its socket is ready.
unfoldable pub outcome_at : XmlDatabase → Round → ℤ → Outcome
outcome_at db round fd =
    if round.ready fd
    then specified db (round.sockets fd)
    else record { ret = result_err; sent = none }

abbrev pub quits : XmlDatabase → Round → ℤ → Bool
quits db round fd = eqb_ℤ (outcome_at db round fd).ret result_quit

-- The replies of a round, in the order of the connectors.
unfoldable pub replies : XmlDatabase → Round → List ℤ → List (ℤ × Bytes)
replies db round [] = []
replies db round (fd ∷ fds) = sent_to fd (outcome_at db round fd).sent (replies db round fds)

-- No socket gives more than 64 bytes at once.
abbrev pub Fits : Round → Type 0
Fits round = (fd : ℤ) (s : Bytes) → (round.sockets fd).incoming ≡ some s → length s ≤ buff_size

module _ (db : XmlDatabase) (texts : All HasTexts db.sdks) (round : Round) (fits : Fits round) where
  post_select-outcome_at :
      (fd : ℤ)
      → ltb_ℤ (pos 0) fd ≡ true
      → post_select db fd (round.ready fd) (round.sockets fd) ≡ ok (outcome_at db round fd)
  unfolding outcome_at
  post_select-outcome_at fd p = elim (Bool-cases (round.ready fd)) [
    | inl e ↦ rw e (post_select-specified db texts fd (round.sockets fd) (ground arith) (fits fd))
    | inr e ↦ rw e (unfold post_select_with in ground arith)
  ]

  post_select_all_lem :
      (fds : List ℤ)
      → All (λ fd. ltb_ℤ (pos 0) fd ≡ true) fds
      → post_select_all db round fds ≡ ok (replies db round fds, keep (quits db round) fds)
  unfolding post_select_all replies
  post_select_all_lem [] h = refl
  post_select_all_lem (fd ∷ fds) (p, h) =
      rw (post_select-outcome_at fd p, post_select_all_lem fds h)

kept_head :
    (q : ℤ → Bool) (x : ℤ) (fds : List ℤ)
    → has_connector x (keep q fds) ≡ (has_connector x fds && q x)
    → (b : Bool) → q x ≡ b
    → has_connector x (if b then x ∷ keep q fds else keep q fds) ≡ b
unfolding has_connector
kept_head q x fds ih true e = rw (eqb_ℤ_refl x)
kept_head q x fds ih false e = ground arith

other_head :
    (q : ℤ → Bool) (x fd : ℤ) (fds : List ℤ)
    → eqb_ℤ fd x ≡ false
    → has_connector x (keep q fds) ≡ (has_connector x fds && q x)
    → (b : Bool)
    → has_connector x (if b then fd ∷ keep q fds else keep q fds) ≡ (has_connector x fds && q x)
unfolding has_connector
other_head q x fd fds e ih true = rw e ih
other_head q x fd fds e ih false = ih

has_connector-keep :
    (q : ℤ → Bool) (x : ℤ) (fds : List ℤ)
    → has_connector x (keep q fds) ≡ (has_connector x fds && q x)
unfolding has_connector
has_connector-keep q x [] = refl
has_connector-keep q x (fd ∷ fds) = elim (Bool-cases (eqb_ℤ fd x)) [
  | inl e ↦ rw (e, (eqb_ℤ_iff fd x).0 e) (kept_head q x fds (has_connector-keep q x fds) (q x) refl)
  | inr e ↦ rw e (other_head q x fd fds e (has_connector-keep q x fds) (q fd))
]

All-has_connector : (fds : List ℤ) → All (λ x. has_connector x fds ≡ true) fds
unfolding has_connector
All-has_connector [] = tt
All-has_connector (fd ∷ fds) =
    (rw (eqb_ℤ_refl fd), All-mono _ _ fds (λ x h. ground arith) (All-has_connector fds))

-- Those of a list that are not among its quitting ones are those that do not quit.
keep_others :
    (q : ℤ → Bool) (fds : List ℤ)
    → keep (λ x. not (has_connector x (keep q fds))) fds ≡ keep (λ x. not (q x)) fds
keep_others q fds = keep_congr _ _ fds (
    All-mono (λ x. has_connector x fds ≡ true) _ fds (λ x h. rw (has_connector-keep q x fds, h))
      (All-has_connector fds))

module _ (l : ServerListener) (v : IsValid l) (texts : All HasTexts l.xml_data.sdks) (round : Round)
    (fits : Fits round) where
  -- With valid connectors, a database of C strings and a round in which no socket gives more than 64
  -- bytes at once, the connectors are served in their order, each as the protocol specifies. Those
  -- that quit are deleted and closed, each once and in their order; the others stay, in their order.
  pub serve_lem :
      serve round l
      ≡ ok (
          some (
            record l { connectors = keep (λ fd. not (quits l.xml_data round fd)) l.connectors },
            record {
              sent = replies l.xml_data round l.connectors;
              closed = keep (quits l.xml_data round) l.connectors;
            },
          ))
  serve_lem = rw (
    post_select_all_lem l.xml_data texts round fits l.connectors v.positive,
    del_all-keep (keep (quits l.xml_data round) l.connectors) l v.distinct,
    keep_others (quits l.xml_data round) l.connectors,
  )

pub accept-IsValid : (round : Round) (l : ServerListener) → IsValid l → IsValid (accept round l)
accept-IsValid round l v = elim (Bool-cases (ltb_ℤ (pos 0) round.accepted)) [
  | inl e ↦ rw e (add_connector-IsValid round.accepted l e v)
  | inr e ↦ rw e v
]

pub accept-xml_data : (round : Round) (l : ServerListener) → (accept round l).xml_data ≡ l.xml_data
accept-xml_data round l = unfold add_connector in ground arith
