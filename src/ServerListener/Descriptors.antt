-- ===== src/ServerListener/Descriptors.antt =====
-- The descriptors over the rounds of `ServerListener::run`: none is lost, and the loop goes on.
use mathlib.Core.List.{Perm, perm_middle, perm_append_comm}
use mathlib.Core.List.Perm
use vr_admin.Prelude.{
  ℕ, ◌≤◌, ◌≡◌, ◌≢◌, ◌⊎◌, refl, ◌∙◌, inl, inr, Bool, true, false, not, ◌&&◌, Bool-cases,
  if◌then◌else◌, ltb_ℤ, eqb_ℤ, Option, none, some, List, [], ◌∷◌, ◌++◌, append_assoc, append-nil,
  length, length-append, All, All-append, All-mono, keep, ℤ, pos, minus_one, Exec, ok, undefined,
  arith,
}
use vr_admin.XmlDatabase.Texts.{HasTexts}
use vr_admin.ServerListener.Connectors.{IsDistinct, IsValid, add_connector-IsValid}
use vr_admin.ServerListener.Rounds.{Fits, quits, serve_lem}
use vr_admin.ServerListener.{
  ServerListener, has_connector, add_connector, Round, Log, nothing, serve, accept, run_round,
  History, prepend, continue_run, run_rounds,
}

All-keep : (P : ℤ → Type 0) (q : ℤ → Bool) (fds : List ℤ) → All P fds → All P (keep q fds)
All-keep P q [] h = tt
All-keep P q (fd ∷ fds) (hx, h) = ground (arith, All-keep P q fds h)

IsDistinct-keep : (q : ℤ → Bool) (fds : List ℤ) → IsDistinct fds → IsDistinct (keep q fds)
IsDistinct-keep q [] d = tt
IsDistinct-keep q (fd ∷ fds) (lx, d) =
    ground (arith, IsDistinct-keep q fds d, All-keep (λ x. fd ≢ x) q fds lx)

keep-perm : (q : ℤ → Bool) (fds : List ℤ) → Perm (keep (λ x. not (q x)) fds ++ keep q fds) fds
keep-perm q [] = Perm.refl []
keep-perm q (fd ∷ fds) = elim (Bool-cases (q fd)) [
  | inl e ↦
      rw e (Perm.trans (perm_middle (keep (λ x. not (q x)) fds) _) (Perm.cons fd (keep-perm q fds)))
  | inr e ↦ rw e (Perm.cons fd (keep-perm q fds))
]

-- The connection that a round takes, if it listens: a positive descriptor that no connector has.
abbrev accepted_new : Round → ServerListener → List ℤ
accepted_new round l =
    if ltb_ℤ (pos 0) round.accepted
    then if has_connector round.accepted l.connectors then [] else round.accepted ∷ []
    else []

-- The connection that a round takes: it has to come to the listening socket, and that has to be ready.
abbrev pub taken : Round → ServerListener → List ℤ
taken round l =
    if eqb_ℤ round.nfds minus_one
    then []
    else if round.ready l.wakeup_read && eqb_ℤ round.nfds (pos 1)
    then []
    else if round.ready l.listen_fd
    then accepted_new round l
    else []

abbrev taken_then : (ServerListener → List ℤ) → Exec (Option (ServerListener × Log)) → List ℤ
taken_then rest undefined = []
taken_then rest (ok none) = []
taken_then rest (ok (some (k, log))) = rest k

-- All connections that the rounds take, in order.
abbrev pub all_taken : List Round → ServerListener → List ℤ
all_taken [] l = []
all_taken (round ∷ rounds) l = taken round l ++ taken_then (all_taken rounds) (run_round round l)

-- Steps of the loop from `l` to `l'`, in which connections were opened and closed: the connectors are
-- valid and, with what was closed, they are in some order those before and those opened, which are
-- at most `n`, and all of which `P` allows.
pub record Conserves (P : ℤ → Type 0) (n : ℕ) (opened : List ℤ) (l l' : ServerListener)
    (closed : List ℤ) : Type 0 where
  pub valid : IsValid l'
  pub same_data : l'.xml_data ≡ l.xml_data
  pub few : length opened ≤ n
  pub allowed : All P opened
  pub balance : Perm (l'.connectors ++ closed) (l.connectors ++ opened)

abbrev AcceptedIn : Round → ℤ → Type 0
AcceptedIn round fd = fd ≡ round.accepted

abbrev pub Done : Round → ServerListener → List ℤ → Option (ServerListener × Log) → Type 0
Done round l opened none = opened ≡ []
Done round l opened (some (l', log)) = Conserves (AcceptedIn round) 1 opened l l' log.closed

unchanged : (P : ℤ → Type 0) (n : ℕ) (l : ServerListener) → IsValid l → Conserves P n [] l l []
unchanged P n l v = record {
  valid = v;
  same_data = refl;
  few = omega arith;
  allowed = tt;
  balance = Perm.refl _;
}

add_connector-Conserves :
    (round : Round) (l : ServerListener)
    → ltb_ℤ (pos 0) round.accepted ≡ true
    → IsValid l
    → Conserves
        (AcceptedIn round)
        1
        (if has_connector round.accepted l.connectors then [] else round.accepted ∷ [])
        l
        (add_connector round.accepted l).0
        []
add_connector-Conserves round l p v =
    elim (Bool-cases (has_connector round.accepted l.connectors)) [
      | inl e ↦ unfold add_connector in rw e (unchanged (AcceptedIn round) 1 l v)
      | inr e ↦ rw e (record {
        valid = add_connector-IsValid round.accepted l p v;
        same_data = unfold add_connector in rw e;
        few = omega arith;
        allowed = (refl, tt);
        balance = unfold add_connector in rw (e, append-nil) (Perm.refl _);
      })
    ]

accept-Conserves :
    (round : Round) (l : ServerListener)
    → IsValid l
    → Conserves (AcceptedIn round) 1 (accepted_new round l) l (accept round l) []
accept-Conserves round l v = elim (Bool-cases (ltb_ℤ (pos 0) round.accepted)) [
  | inl e ↦ rw e (add_connector-Conserves round l e v)
  | inr e ↦ rw e (unchanged (AcceptedIn round) 1 l v)
]

abbrev pub Completes :
    Round → ServerListener → List ℤ → Exec (Option (ServerListener × Log)) → Type 0
Completes round l opened run =
    (r : Option (ServerListener × Log)) × (run ≡ ok r) × Done round l opened r

serve-Completes :
    (l k : ServerListener) (round : Round) (opened : List ℤ)
    → Conserves (AcceptedIn round) 1 opened l k []
    → All HasTexts l.xml_data.sdks
    → Fits round
    → Completes round l opened (serve round k)
serve-Completes l k round opened c texts fits = (
  some _,
  serve_lem k c.valid (rw c.same_data texts) round fits,
  record {
    valid = record {
      distinct = IsDistinct-keep _ k.connectors c.valid.distinct;
      positive = All-keep _ _ k.connectors c.valid.positive;
    };
    same_data = c.same_data;
    few = c.few;
    allowed = c.allowed;
    balance =
        Perm.trans (keep-perm (quits k.xml_data round) k.connectors) (rw append-nil at c.balance);
  },
)

Completes-if :
    (round : Round) (l : ServerListener) (b : Bool) (o o' : List ℤ)
    (x y : Exec (Option (ServerListener × Log)))
    → Completes round l o x
    → Completes round l o' y
    → Completes round l (if b then o else o') (if b then x else y)
Completes-if round l true o o' x y hx hy = hx
Completes-if round l false o o' x y hx hy = hy

Completes-accepted :
    (round : Round) (l : ServerListener) (b : Bool) (o : List ℤ)
    (x y : Exec (Option (ServerListener × Log)))
    → Completes round l o x
    → Completes round l o y
    → Completes round l o (if b then x else y)
Completes-accepted round l true o x y hx hy = hx
Completes-accepted round l false o x y hx hy = hy

Completes-unchanged :
    (round : Round) (l : ServerListener) → IsValid l → Completes round l [] (ok (some (l, nothing)))
Completes-unchanged round l v = (some (l, nothing), refl, unchanged (AcceptedIn round) 1 l v)

Completes-failed :
    (round : Round) (l : ServerListener) (b : Bool)
    → IsValid l
    → Completes round l [] (ok (if b then some (l, nothing) else none))
Completes-failed round l true v = Completes-unchanged round l v
Completes-failed round l false v = (none, refl, refl)

-- From valid connectors and a database of C strings, a round in which no socket gives more than 64
-- bytes at once completes without undefined behaviour. If the loop goes on, the connectors are valid
-- and the database is as it was, and the connectors with the descriptors that were closed are, in
-- some order, the connectors before and the connection that the round takes: none is lost, and none is
-- closed that was not a connector.
pub run_round-Completes :
    (round : Round) (l : ServerListener)
    → IsValid l
    → All HasTexts l.xml_data.sdks
    → Fits round
    → Completes round l (taken round l) (run_round round l)
unfolding run_round
run_round-Completes round l v texts fits =
    Completes-if round l (eqb_ℤ round.nfds minus_one) _ _ _ _
      (Completes-failed round l round.interrupted v)
      (Completes-if round l (round.ready l.wakeup_read && eqb_ℤ round.nfds (pos 1)) _ _ _ _
        (Completes-unchanged round l v)
        (Completes-if round l (round.ready l.listen_fd) _ _ _ _
          (Completes-accepted round l (eqb_ℤ round.nfds (pos 1)) (accepted_new round l) _ _
            (some (accept round l, nothing), refl, accepts)
            (serve-Completes l (accept round l) round (accepted_new round l) accepts texts fits))
          (serve-Completes l l round [] (unchanged (AcceptedIn round) 1 l v) texts fits)))
  where
    accepts : Conserves (AcceptedIn round) 1 (accepted_new round l) l (accept round l) []
    accepts = accept-Conserves round l v

-- A descriptor that some round of the list accepted.
abbrev pub AcceptedBy : List Round → ℤ → Type 0
AcceptedBy [] fd = ⊥
AcceptedBy (round ∷ rounds) fd = (fd ≡ round.accepted) ⊎ AcceptedBy rounds fd

regroup :
    (m k l closed more opened opened' : List ℤ)
    → Perm (m ++ more) (k ++ opened')
    → Perm (k ++ closed) (l ++ opened)
    → Perm (m ++ (closed ++ more)) (l ++ (opened ++ opened'))
regroup m k l closed more opened opened' d c =
    Perm.trans (Perm.append_left m (perm_append_comm closed more)) (
      rw (← append_assoc m more closed) (
        Perm.trans (Perm.append_right closed d) (
          rw (append_assoc k opened' closed) (
            Perm.trans (Perm.append_left k (perm_append_comm opened' closed)) (
              rw (← append_assoc k closed opened', ← append_assoc l opened opened')
                (Perm.append_right opened' c))))))

compose :
    (round : Round) (rounds : List Round) (l k m : ServerListener)
    (closed more opened opened' : List ℤ)
    → Conserves (AcceptedIn round) 1 opened l k closed
    → Conserves (AcceptedBy rounds) (length rounds) opened' k m more
    → Conserves
        (AcceptedBy (round ∷ rounds))
        (length (round ∷ rounds))
        (opened ++ opened')
        l
        m
        (closed ++ more)
compose round rounds l k m closed more opened opened' c d = record {
  valid = d.valid;
  same_data = d.same_data ∙ c.same_data;
  few = omega (arith, length-append opened opened', c.few, d.few);
  allowed =
      All-append _ opened opened' (All-mono _ _ opened (λ fd e. inl e) c.allowed)
        (All-mono _ _ opened' (λ fd e. inr e) d.allowed);
  balance =
      regroup m.connectors k.connectors l.connectors closed more opened opened' d.balance c.balance;
}

abbrev Runs : List Round → List ℤ → ServerListener → Exec History → Type 0
Runs rounds opened l run =
    (h : History) × (run ≡ ok h)
    × Conserves (AcceptedBy rounds) (length rounds) opened l h.listener h.closed

Runs-step :
    (round : Round) (rounds : List Round) (l : ServerListener)
    (rest : ServerListener → Exec History) (more_taken : ServerListener → List ℤ) (opened : List ℤ)
    (r : Option (ServerListener × Log))
    → IsValid l
    → Done round l opened r
    → ((k : ServerListener)
        → IsValid k
        → k.xml_data ≡ l.xml_data
        → Runs rounds (more_taken k) k (rest k))
    → Runs (round ∷ rounds) (opened ++ taken_then more_taken (ok r)) l (continue_run rest l r)
Runs-step round rounds l rest more_taken opened none v done more =
    rw done (_, refl, unchanged (AcceptedBy (round ∷ rounds)) (length (round ∷ rounds)) l v)
Runs-step round rounds l rest more_taken opened (some (k, log)) v done more =
    let (h, e, c) = more k done.valid done.same_data in
    (
      prepend log h,
      rw e,
      compose round rounds l k h.listener log.closed h.closed opened (more_taken k) done c,
    )

-- From valid connectors and a database of C strings, any rounds of the loop in which no socket gives
-- more than 64 bytes at once complete without undefined behaviour. After them the connectors are
-- valid and, with all descriptors that were closed, they are in some order those at the start and the
-- connections that the rounds took, at most one for each round.
pub run_rounds-Conserves :
    (rounds : List Round) (l : ServerListener)
    → IsValid l
    → All HasTexts l.xml_data.sdks
    → All Fits rounds
    → (h : History) × (run_rounds rounds l ≡ ok h)
      × Conserves (AcceptedBy rounds) (length rounds) (all_taken rounds l) l h.listener h.closed
unfolding run_rounds
run_rounds-Conserves [] l v texts fits = (_, refl, unchanged (AcceptedBy []) 0 l v)
run_rounds-Conserves (round ∷ rounds) l v texts (fit, fits) =
    let (r, e, done) = run_round-Completes round l v texts fit in
    rw e (
      Runs-step round rounds l (run_rounds rounds) (all_taken rounds) (taken round l) r v done
        (λ k w same. run_rounds-Conserves rounds k w (rw same texts) fits))
