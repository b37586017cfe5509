-- ===== src/Thread/Nested.antt =====
-- One thread that constructs two objects of jni/main/Thread.cpp before it starts the first.
use mathlib.Core.Path.{subst}
use vr_admin.Prelude.{ℕ, ◌≡◌, ◌≢◌, ◌⊎◌, refl, ◌∙◌, sym, inl, inr, ◌==◌, ==_iff, Bool-cases, arith}
use vr_admin.Thread.{
  Registry, CreatorPoint, entered, constructed, started, destroyed, WorkerPoint, running, Holder,
  creator, Startup, at, Step, lock, create, create_failed, register, construct, start, destroy,
  entry_lock, entry_unlock, enter_run, leave_run, Threads, view, change, AnyStep, pick, AnySteps,
  after, initial,
}
use vr_admin.Thread.Order.{
  IsOpen, IsOrdered, outside, entering, building, open_gate, passing, passed, holder_of,
}
use vr_admin.Thread.Family.{IsInjective, AnySteps-IsOrderly}
use vr_admin.Thread.Entry.{run-Entered}

-- Behind the constructor.
pub data IsBuilt : CreatorPoint → Type 0 where
  is_constructed : IsBuilt constructed
  is_started : IsBuilt started
  is_destroyed : IsBuilt destroyed

module _ (thread_id : ℕ → ℕ) (first second : ℕ) where
  -- Steps of all threads, where one thread makes both objects: it does nothing for the first one, as
  -- calling its `start`, before the constructor of the second has returned.
  pub data NestedSteps (s : Threads) : Threads → Type 0 where
    begin : NestedSteps s s
    more :
        {t u : Threads}
        → NestedSteps s t
        → AnyStep thread_id t u
        → (u.creators first ≡ t.creators first) ⊎ IsBuilt (t.creators second)
        → NestedSteps s u

  -- The thread waits for the lock that it holds, and so do all others that construct an object.
  pub record Waits (s t : Threads) : Type 0 where
    pub before_start : t.creators first ≡ constructed
    pub in_constructor : t.creators second ≡ entered
    pub held : t.holder ≡ creator first
    pub not_run : t.workers first ≢ running
    pub none_made : (n : ℕ) → s.creators n ≡ entered → t.creators n ≡ entered

  to_any : {s t u : Threads} → AnySteps thread_id s t → NestedSteps t u → AnySteps thread_id s u
  to_any r begin = r
  to_any r (more q st c) = after (to_any r q) st

creator_of : Startup → CreatorPoint
creator_of (at c w h threads) = c

-- While the lock is held, no constructor comes to its first step.
Step-entered :
    (id n m : ℕ) {s t : Startup}
    → Step id n s t
    → holder_of s ≡ creator m
    → creator_of s ≡ entered
    → creator_of t ≡ entered
unfolding creator_of
Step-entered id n m lock h e = grind arith
Step-entered id n m create h e = grind arith
Step-entered id n m create_failed h e = grind arith
Step-entered id n m register h e = grind arith
Step-entered id n m construct h e = grind arith
Step-entered id n m start h e = grind arith
Step-entered id n m destroy h e = grind arith
Step-entered id n m entry_lock h e = e
Step-entered id n m entry_unlock h e = e
Step-entered id n m enter_run h e = e
Step-entered id n m leave_run h e = e

IsOpen-constructed : ¬ IsOpen constructed
IsOpen-constructed o = elim o [ ]

held_at :
    (n : ℕ) {c : CreatorPoint} {w : WorkerPoint} {h : Holder} {threads : Registry}
    → IsOrdered n (at c w h threads)
    → c ≡ constructed
    → h ≡ creator n
held_at n (outside f) e = grind arith
held_at n entering e = grind arith
held_at n (building i l) e = refl
held_at n (open_gate o l f) e = absurd (IsOpen-constructed (subst IsOpen e o))
held_at n (passing o) e = absurd (IsOpen-constructed (subst IsOpen e o))
held_at n (passed o p f) e = absurd (IsOpen-constructed (subst IsOpen e o))

IsBuilt-entered : ¬ IsBuilt entered
IsBuilt-entered b = elim b [ ]

-- A change of one object leaves the creating threads of the others, and one that is at its first step.
change-entered :
    (n m k : ℕ) (id : ℕ) (s : Threads) (t : Startup)
    → Step id m (view m s) t
    → s.holder ≡ creator k
    → s.creators n ≡ entered
    → (change m t s).creators n ≡ entered
unfolding creator_of
change-entered n m k id s (at c w h threads) st held e = elim (Bool-cases (m == n)) [
  | inl same ↦ rw same (
      Step-entered id m k st held
        (subst (λ x. s.creators x ≡ entered) (sym ((==_iff m n).0 same)) e))
  | inr other ↦ rw other e
]

module _ (thread_id : ℕ → ℕ) (injective : IsInjective thread_id) (first second : ℕ) where
  -- The two creating points over the steps.
  record IsStuck (s t : Threads) : Type 0 where
    not_started : t.creators first ≡ constructed
    none_begun : (n : ℕ) → s.creators n ≡ entered → t.creators n ≡ entered

  nested-IsStuck :
      {s : Threads}
      → AnySteps thread_id initial s
      → s.creators first ≡ constructed
      → s.creators second ≡ entered
      → {t : Threads} → NestedSteps thread_id first second s t
      → IsStuck s t
  nested-IsStuck r c e begin = record { not_started = c; none_begun = λ n h. h }
  nested-IsStuck r c e (more {t = t} q (pick m {t = u} st) goes_on) =
      let i = nested-IsStuck r c e q in
      let o = AnySteps-IsOrderly thread_id injective (to_any thread_id first second r q) in
      let held = held_at first (o.ordered first) i.not_started in
      record {
        not_started = elim goes_on [
          | inl same ↦ same ∙ i.not_started
          | inr built ↦ absurd (IsBuilt-entered (subst IsBuilt (i.none_begun second e) built))
        ];
        none_begun = λ n h. change-entered n m first (thread_id m) t u st held (i.none_begun n h);
      }

  -- The startup mutex is kept from the constructor to `start`. If, in a state that the steps of any
  -- number of objects with distinct threads reach, one object is constructed and not started, and its
  -- creating thread enters the constructor of a second one, then this waits for ever: whatever steps
  -- all threads make after that, the first object is not started and its thread does not come to
  -- `run`, its creating thread holds the mutex, and neither the second object nor any other that was
  -- not begun gets past the first step of its constructor.
  pub nested-Waits :
      {s : Threads}
      → AnySteps thread_id initial s
      → s.creators first ≡ constructed
      → s.creators second ≡ entered
      → {t : Threads} → NestedSteps thread_id first second s t
      → Waits thread_id first second s t
  nested-Waits {s} r c e {t} q =
      let i = nested-IsStuck r c e q in
      let reached = to_any thread_id first second r q in
      let o = AnySteps-IsOrderly thread_id injective reached in
      record {
        before_start = i.not_started;
        in_constructor = i.none_begun second e;
        held = held_at first (o.ordered first) i.not_started;
        not_run = λ runs. IsOpen-constructed (
            subst IsOpen i.not_started (run-Entered thread_id injective first reached runs).opened);
        none_made = i.none_begun;
      }
