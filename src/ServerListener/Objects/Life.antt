-- ===== src/ServerListener/Objects/Life.antt =====
-- The life of a listener over its pointers: the constructor, a run, and the destructor.
use mathlib.Core.Path.{subst}
use mathlib.Core.Option.{some-injective}
use vr_admin.Prelude.{
  ℕ, suc, ◌==◌, ◌≡◌, ◌≢◌, refl, ap, sym, arith, inl, inr, Bool-cases, All, Option, none, some, List,
  [], ◌∷◌, length, ℤ, minus_one, Exec, ok, undefined,
}
use vr_admin.Heap.{Heap, Points}
use vr_admin.VrSdk.{VrSdk, PropertyCalls}
use vr_admin.XmlDatabase.{get_sdks_count, Parsed}
use vr_admin.XmlDatabase.Libxml.{Xml}
use vr_admin.XmlDatabase.Texts.{GivesTexts}
use vr_admin.XmlDatabase.Objects.{SdkObjects}
use vr_admin.XmlDatabase.Objects.Refinement.{OwnsSdks, destroy_sdks_lem}
use vr_admin.ServerListener.{
  ServerListener, History, Setup, Prologue, returns, enters, listen_on, open_pipe, prologue,
  run_after, run, new_listener, unstarted,
}
use vr_admin.ServerListener.Startup.{new_listener-IsFresh, run-Ends}
use vr_admin.ServerListener.Rounds.{Fits}
use vr_admin.ServerListener.Sdks.{new_listener_objects, LivesAs, new_listener_objects-LivesAs}
use vr_admin.ServerListener.Objects.Ownership.{IsOwner}
use vr_admin.ServerListener.Objects.Sets.{IsSmall}
use vr_admin.ServerListener.Objects.Loop.{HeapListener, HeapRound, HeapHistory}
use vr_admin.ServerListener.Objects.Histories.{
  AllAllowed, rounds_of, Simulates, heap_rounds-Simulates,
}
use vr_admin.ServerListener.Objects.Run.{
  HeapPrologue, heap_returns, heap_enters, heap_listen_on, heap_open_pipe, heap_prologue,
  heap_run_after, heap_run, heap_listener_of, listener_life,
}

-- If the loop is entered, its two descriptors have bits in the set, and its rounds are allowed.
abbrev pub IsAllowedRun : List HeapRound → HeapPrologue → Type 0
IsAllowedRun rs (heap_returns h closed) = Unit {0}
IsAllowedRun rs (heap_enters h) = IsSmall h.listen_fd × IsSmall h.wakeup_read × AllAllowed rs h

-- The listener before its loop: it owns its SDKs, and has no connectors.
record Begins (h : HeapListener) (l : ServerListener) : Type 0 where
  sdks : OwnsSdks h.sdks l.xml_data.sdks
  no_objects : IsOwner h.objects l.connectors
  no_connectors : l.connectors ≡ []
  same_listen : h.listen_fd ≡ l.listen_fd
  same_wakeup : h.wakeup_read ≡ l.wakeup_read

abbrev Matches : HeapPrologue → Prologue → Type 0
Matches (heap_returns h closed) (returns l closed') = Begins h l × (closed ≡ closed')
Matches (heap_returns h closed) (enters l) = ⊥
Matches (heap_enters h) (returns l closed) = ⊥
Matches (heap_enters h) (enters l) = Begins h l

length-Points :
    (heap : Heap VrSdk) (ps : List ℕ) (xs : List VrSdk) → Points heap ps xs → length ps ≡ length xs
length-Points heap [] [] h = refl
length-Points heap [] (x ∷ xs) h = absurd h
length-Points heap (p ∷ ps) [] h = absurd h
length-Points heap (p ∷ ps) (x ∷ xs) (e, n, h) = ap suc (length-Points heap ps xs h)

listen_on-Matches :
    (setup : Setup) (h : HeapListener) (l : ServerListener)
    → Begins h l
    → Matches (heap_listen_on setup h) (listen_on setup l)
listen_on-Matches setup h l b = elim (Bool-cases setup.listens) [
  | inl e ↦ rw e (record {
    sdks = b.sdks;
    no_objects = b.no_objects;
    no_connectors = b.no_connectors;
    same_listen = refl;
    same_wakeup = b.same_wakeup;
  })
  | inr e ↦ rw e (b, refl)
]

open_pipe-Matches :
    (setup : Setup) (pipe : Option (ℤ × ℤ)) (h : HeapListener) (l : ServerListener)
    → Begins h l
    → Matches (heap_open_pipe setup pipe h) (open_pipe setup pipe l)
open_pipe-Matches setup none h l b = (b, refl)
open_pipe-Matches setup (some (r, w)) h l b = listen_on-Matches setup _ _ (record {
  sdks = b.sdks;
  no_objects = b.no_objects;
  no_connectors = b.no_connectors;
  same_listen = b.same_listen;
  same_wakeup = refl;
})

prologue-Matches :
    (setup : Setup) (h : HeapListener) (l : ServerListener)
    → Begins h l
    → Matches (heap_prologue setup h) (prologue setup l)
unfolding heap_prologue prologue get_sdks_count
prologue-Matches setup h l b =
    rw (length-Points h.sdks.heap h.sdks.pointers l.xml_data.sdks b.sdks.points)
      (elim (Bool-cases (length l.xml_data.sdks == 0)) [
        | inl e ↦ rw e (b, refl)
        | inr e ↦ rw e (open_pipe-Matches setup setup.pipe h l b)
      ])

run_after-Simulates :
    (rs : List HeapRound) (q : HeapPrologue) (p : Prologue)
    → IsAllowedRun rs q
    → Matches q p
    → Simulates (heap_run_after rs q) (run_after (rounds_of rs) p)
unfolding Simulates
run_after-Simulates rs (heap_returns h closed) (returns l closed') allowed (b, same) = record {
  history = _;
  returned = refl;
  owns = b.no_objects;
  owns_sdks = b.sdks;
  same_sent = refl;
  same_closed = same;
  same_returned = refl;
}
run_after-Simulates rs (heap_returns h closed) (enters l) allowed m = absurd m
run_after-Simulates rs (heap_enters h) (returns l closed) allowed m = absurd m
run_after-Simulates rs (heap_enters h) (enters l) (listening, waking, allowed) b =
    heap_rounds-Simulates rs h l allowed (record {
      owns_sdks = b.sdks;
      same_listen = b.same_listen;
      same_wakeup = b.same_wakeup;
      owns = b.no_objects;
      small = rw b.no_connectors tt;
      small_listen = rw (← b.same_listen) listening;
      small_wakeup = rw (← b.same_wakeup) waking;
    })

unstarted-fds :
    (p : Option Parsed) (l : ServerListener) (calls : PropertyCalls)
    → unstarted p ≡ some (l, calls)
    → (l.listen_fd ≡ minus_one) × (l.wakeup_read ≡ minus_one)
unstarted-fds none l calls e = absurd (grind arith)
unstarted-fds (some r) l calls e =
    let same = some-injective _ _ e in
    (sym (ap (λ x. x.0.listen_fd) same), sym (ap (λ x. x.0.wakeup_read) same))

made-Begins :
    (o : SdkObjects) (l : ServerListener)
    → OwnsSdks o l.xml_data.sdks
    → l.connectors ≡ []
    → (l.listen_fd ≡ minus_one) × (l.wakeup_read ≡ minus_one)
    → Begins (heap_listener_of o) l
made-Begins o l owns empty (listening, waking) = record {
  sdks = owns;
  no_objects = rw empty (record { points = tt; no_leak = λ p n. refl });
  no_connectors = empty;
  same_listen = sym listening;
  same_wakeup = sym waking;
}

-- The run of the listener that was made is allowed.
abbrev pub IsAllowedLife :
    Setup → List HeapRound → Exec (Option (SdkObjects × PropertyCalls)) → Type 0
IsAllowedLife setup rs undefined = Unit {0}
IsAllowedLife setup rs (ok none) = Unit {0}
IsAllowedLife setup rs (ok (some (o, calls))) =
    IsAllowedRun rs (heap_prologue setup (heap_listener_of o))

-- What a life leaves, against the history of the run over descriptors.
pub record Lives (run : Exec (Option (HeapHistory × SdkObjects))) (h : History) : Type 0 where
  pub history : HeapHistory
  pub sdks : SdkObjects
  pub returned : run ≡ ok (some (history, sdks))
  pub same_sent : history.sent ≡ h.sent
  pub same_closed : history.closed ≡ h.closed
  pub same_returned : history.returned ≡ h.returned
  pub owns : IsOwner history.listener.objects h.listener.connectors
  pub none_left : OwnsSdks sdks []

-- Let libxml2 give C strings, the constructor of the listener return, and `new` give two distinct
-- addresses for its SDKs. Let no socket give more than 64 bytes at once; and, if the loop is entered,
-- let its two descriptors be below FD_SETSIZE and not negative, and, in each round, `new` give a free
-- address and `accept` no descriptor of FD_SETSIZE or more. Then the life of the listener over its
-- pointers, from the constructor over the run to the destructor, completes: it follows no dangling
-- pointer, to an SDK or to a connector, deletes nothing twice and has no other undefined behaviour.
-- The run writes, closes and returns what the run over descriptors does, the pointers own its
-- connectors at the end, and the destructor leaves no SDK.
pub listener_life-Lives :
    (xml : Xml) (fuel svr_address lvr_address : ℕ) (calls calls' : PropertyCalls)
    (l : ServerListener) (setup : Setup) (rs : List HeapRound)
    → GivesTexts xml
    → new_listener xml fuel calls ≡ some (l, calls')
    → svr_address ≢ lvr_address
    → All Fits (rounds_of rs)
    → IsAllowedLife setup rs (new_listener_objects xml fuel svr_address lvr_address calls)
    → (h : History) × (run setup (rounds_of rs) l ≡ ok h)
      × Lives (listener_life xml fuel svr_address lvr_address calls setup rs) h
unfolding listener_life run heap_run Simulates new_listener
listener_life-Lives xml fuel svr_address lvr_address calls calls' l setup rs gives made apart fits
      allowed =
    let fresh = rw made at (new_listener-IsFresh xml fuel calls gives) in
    let (h, e, ended) = run-Ends setup (rounds_of rs) l fresh fits in
    let (o, constructed, owns, o_end, end, empty) = constructed_as l calls' made in
    let begins = made-Begins o l owns fresh.no_connectors (unstarted-fds _ l calls' made) in
    let simulates =
      run_after-Simulates rs (heap_prologue setup (heap_listener_of o)) (prologue setup l)
        (subst (IsAllowedLife setup rs) constructed allowed)
        (prologue-Matches setup (heap_listener_of o) l begins) in
    let r = subst (Simulates (heap_run setup rs (heap_listener_of o))) e simulates in
    let (o', destroyed, gone) =
      destroy_sdks_lem r.history.listener.sdks h.listener.xml_data.sdks r.owns_sdks in
    (
      h,
      e,
      record {
        history = r.history;
        sdks = o';
        returned = rw (constructed, r.returned, destroyed) refl;
        same_sent = r.same_sent;
        same_closed = r.same_closed;
        same_returned = r.same_returned;
        owns = r.owns;
        none_left = gone;
      },
    )
  where
    constructed_as :
        (l : ServerListener) (calls' : PropertyCalls)
        → new_listener xml fuel calls ≡ some (l, calls')
        → LivesAs (some (l, calls')) (new_listener_objects xml fuel svr_address lvr_address calls)
    constructed_as l calls' made =
        subst (λ x. LivesAs x (new_listener_objects xml fuel svr_address lvr_address calls)) made
          (new_listener_objects-LivesAs xml fuel svr_address lvr_address apart calls)
