-- ===== src/ServerListener/Startup.antt =====
-- The constructor and the run of the listener, from its start.
use mathlib.Core.List.{Perm}
use mathlib.Core.Path.{subst}
use vr_admin.Prelude.{
  ℕ, ◌≡◌, ◌⊎◌, refl, inl, inr, true, Bool-cases, ◌==◌, Option, none, some, List, [], ◌∷◌, ◌++◌, ◌≤◌,
  length, All, ℤ, ok,
}
use vr_admin.CString.{codes}
use vr_admin.VrSdk.{PropertyCalls}
use vr_admin.XmlDatabase.{XmlDatabase, empty_database, get_sdks_count}
use vr_admin.XmlDatabase.Libxml.{Xml}
use vr_admin.XmlDatabase.Types.{HasDistinctTypes}
use vr_admin.XmlDatabase.Outcomes.{Leaves, parser-HasDistinctTypes}
use vr_admin.XmlDatabase.Texts.{HasTexts, GivesTexts, parser-HasTexts}
use vr_admin.ServerListener.Connectors.{IsValid}
use vr_admin.ServerListener.Rounds.{Fits}
use vr_admin.ServerListener.Descriptors.{AcceptedBy, all_taken, run_rounds-Conserves}
use vr_admin.ServerListener.{
  ServerListener, new_listener, then_parse, unstarted, Round, History, Setup, Prologue, returns,
  enters, listen_on, open_pipe, prologue, run_after, run,
}

abbrev pub Starts : (ServerListener → Type 0) → Option (ServerListener × PropertyCalls) → Type 0
Starts P none = Unit {0}
Starts P (some (l, calls)) = P l

-- What the constructor gives: no connectors, and a database of distinct types and C strings.
pub record IsFresh (l : ServerListener) : Type 0 where
  pub no_connectors : l.connectors ≡ []
  pub distinct : HasDistinctTypes l.xml_data.sdks
  pub texts : All HasTexts l.xml_data.sdks

abbrev LeavesBoth : Option (ℤ × XmlDatabase × PropertyCalls) → Type 0
LeavesBoth r = Leaves (λ d. HasDistinctTypes d.sdks) r × Leaves (λ d. All HasTexts d.sdks) r

then_parse-LeavesBoth :
    (xml : Xml) (gives : GivesTexts xml) (fuel : ℕ) (r : Option (ℤ × XmlDatabase × PropertyCalls))
    → LeavesBoth r
    → LeavesBoth (then_parse xml fuel (codes "/system/vendor/etc/lvrinfo.xml") r)
then_parse-LeavesBoth xml gives fuel none h = h
then_parse-LeavesBoth xml gives fuel (some (ret, db, calls)) (d, t) =
    (parser-HasDistinctTypes xml fuel _ db calls d, parser-HasTexts xml gives fuel _ db calls t)

unstarted-IsFresh :
    (r : Option (ℤ × XmlDatabase × PropertyCalls)) → LeavesBoth r → Starts IsFresh (unstarted r)
unstarted-IsFresh none h = tt
unstarted-IsFresh (some (ret, db, calls)) (d, t) = record {
  no_connectors = refl;
  distinct = d;
  texts = t;
}

-- Whatever the two information files hold, if libxml2 gives C strings and the fuel does not run out,
-- the constructor leaves no connectors and a database of distinct types, all of whose texts are C
-- strings.
pub new_listener-IsFresh :
    (xml : Xml) (fuel : ℕ) (calls : PropertyCalls)
    → GivesTexts xml
    → Starts IsFresh (new_listener xml fuel calls)
unfolding new_listener
new_listener-IsFresh xml fuel calls gives = unstarted-IsFresh _ (
    then_parse-LeavesBoth xml gives fuel _ (
      parser-HasDistinctTypes xml fuel _ empty_database calls tt,
      parser-HasTexts xml gives fuel _ empty_database calls tt,
    ))

abbrev Entered : Setup → ServerListener → Prologue → Type 0
Entered setup l (returns k closed) =
    (k.connectors ≡ []) × ((closed ≡ []) ⊎ (closed ≡ setup.control_socket ∷ []))
Entered setup l (enters k) = (k.connectors ≡ []) × (k.xml_data ≡ l.xml_data)

prologue-Entered :
    (setup : Setup) (l : ServerListener) → IsFresh l → Entered setup l (prologue setup l)
unfolding prologue
prologue-Entered setup l f = elim (Bool-cases (get_sdks_count l.xml_data == 0)) [
  | inl e ↦ rw e (f.no_connectors, inl refl)
  | inr e ↦ rw e (piped setup.pipe)
]
  where
    listening :
        (k : ServerListener)
        → k.connectors ≡ []
        → k.xml_data ≡ l.xml_data
        → Entered setup l (listen_on setup k)
    listening k c d = elim (Bool-cases setup.listens) [
      | inl e ↦ rw e (c, d)
      | inr e ↦ rw e (c, inr refl)
    ]

    piped : (ends : Option (ℤ × ℤ)) → Entered setup l (open_pipe setup ends l)
    piped none = (f.no_connectors, inl refl)
    piped (some (r, w)) = listening _ f.no_connectors refl

IsFresh-IsValid : (l : ServerListener) → l.connectors ≡ [] → IsValid l
IsFresh-IsValid l e = record { distinct = rw e tt; positive = rw e tt }

-- The run returned before its loop: it served nobody, and closed the control socket at most.
abbrev ReturnedEarly : Setup → History → Type 0
ReturnedEarly setup h =
    (h.returned ≡ true)
    × (h.sent ≡ [])
    × (h.listener.connectors ≡ [])
    × ((h.closed ≡ []) ⊎ (h.closed ≡ setup.control_socket ∷ []))

-- The loop ran: the connections that were taken, at most one for each round, are those that are still
-- connected and those that were closed.
pub record Served (rounds : List Round) (opened : List ℤ) (h : History) : Type 0 where
  pub few : length opened ≤ length rounds
  pub allowed : All (AcceptedBy rounds) opened
  pub balance : Perm (h.listener.connectors ++ h.closed) opened

abbrev EndsAfter : Setup → List Round → History → Prologue → Type 0
EndsAfter setup rounds h (returns k closed) = ReturnedEarly setup h
EndsAfter setup rounds h (enters k) = Served rounds (all_taken rounds k) h

abbrev pub Ends : Setup → List Round → ServerListener → History → Type 0
Ends setup rounds l h = IsValid h.listener × EndsAfter setup rounds h (prologue setup l)

run_after-Ends :
    (setup : Setup) (rounds : List Round) (l : ServerListener) (p : Prologue)
    → Entered setup l p
    → All HasTexts l.xml_data.sdks
    → All Fits rounds
    → (h : History) × (run_after rounds p ≡ ok h)
      × (IsValid h.listener × EndsAfter setup rounds h p)
run_after-Ends setup rounds l (returns k closed) (c, d) texts fits =
    (_, refl, (IsFresh-IsValid k c, (refl, refl, c, d)))
run_after-Ends setup rounds l (enters k) (c, d) texts fits =
    let (h, e, conserves) = run_rounds-Conserves rounds k (IsFresh-IsValid k c) (rw d texts) fits in
    (
      h,
      e,
      (
        conserves.valid,
        record {
          few = conserves.few;
          allowed = conserves.allowed;
          balance =
              subst
                (λ before. Perm (h.listener.connectors ++ h.closed) (before ++ all_taken rounds k))
                c conserves.balance;
        },
      ),
    )

-- The run of a listener without connectors and with a database of distinct types and C strings, over
-- any rounds in which no socket gives more than 64 bytes at once, has no undefined behaviour and ends
-- with valid connectors. It returns before its loop, having served nobody and closed the control
-- socket at most; or its connectors with all that were closed are, in some order, just the connections
-- that its rounds took, at most one for each round: the positive descriptors that rounds accepted
-- while no connector had them.
pub run-Ends :
    (setup : Setup) (rounds : List Round) (l : ServerListener)
    → IsFresh l
    → All Fits rounds
    → (h : History) × (run setup rounds l ≡ ok h) × Ends setup rounds l h
unfolding run
run-Ends setup rounds l f fits =
    run_after-Ends setup rounds l (prologue setup l) (prologue-Entered setup l f) f.texts fits
