-- ===== src/Thread/Progress.antt =====
-- No deadlock in jni/main/Thread.cpp where each object is made by a thread of its own: each thread
-- that waits for the startup mutex comes to its `run`.
use mathlib.Core.Path.{subst}
use vr_admin.Prelude.{
  ℕ, zero, suc, ◌<◌, ◌≡◌, ◌≢◌, ◌⊎◌, refl, sym, inl, inr, ◌==◌, ==_iff, Bool-cases, arith,
}
use vr_admin.Thread.{
  Registry, CreatorPoint, WorkerPoint, waiting, holding, released, running, Holder, nobody, creator,
  worker, Startup, at, Step, lock, create, create_failed, register, construct, start, destroy,
  entry_lock, entry_unlock, enter_run, leave_run, Threads, view, change, pick, AnySteps, stay,
  after, initial,
}
use vr_admin.Thread.Order.{
  is_created, is_registered, is_constructed, is_absent, is_waiting as early_waiting,
  is_released as past_released, is_running, is_returned, IsForeign, of_creator, of_worker,
  IsOrdered, outside, entering, building, open_gate, passing, passed, holder_of, Moves, stays,
  creator_takes, creator_gives, worker_takes, worker_gives, Step-Moves,
}
use vr_admin.Thread.Family.{IsInjective, AnySteps-IsOrderly}
use vr_admin.Thread.Countdown.{total_left, change-total_left}

-- The created thread is on its way to `run`.
data IsPending : WorkerPoint → Type 0 where
  is_waiting : IsPending waiting
  is_holding : IsPending holding
  is_released : IsPending released

abbrev worker_of : Startup → WorkerPoint
worker_of (at c w h threads) = w

-- A step of the object itself takes it further on its way.
Step-IsPending :
    (id n : ℕ) {s t : Startup}
    → Step id n s t
    → IsPending (worker_of s)
    → IsPending (worker_of t) ⊎ (worker_of t ≡ running)
Step-IsPending id n lock p = inl p
Step-IsPending id n create p = inl is_waiting
Step-IsPending id n create_failed p = inl p
Step-IsPending id n register p = inl p
Step-IsPending id n construct p = inl p
Step-IsPending id n start p = inl p
Step-IsPending id n destroy p = inl p
Step-IsPending id n entry_lock p = inl is_holding
Step-IsPending id n entry_unlock p = inl is_released
Step-IsPending id n enter_run p = inr refl
Step-IsPending id n leave_run p = elim p [ ]

-- Some step of an object.
abbrev CanStep : ℕ → ℕ → Startup → Type 0
CanStep id n s = (t : Startup) × Step id n s t

-- The one that holds the lock for an object can go on.
IsOrdered-CanStep :
    (id m : ℕ) {c : CreatorPoint} {w : WorkerPoint} {h : Holder} {threads : Registry}
    → IsOrdered m (at c w h threads)
    → ¬ IsForeign m h
    → CanStep id m (at c w h threads)
IsOrdered-CanStep id m (outside f) own = absurd (own f)
IsOrdered-CanStep id m entering own = (_, create)
IsOrdered-CanStep id m (building is_created e) own = (_, register)
IsOrdered-CanStep id m (building is_registered e) own = (_, construct)
IsOrdered-CanStep id m (building is_constructed e) own = (_, start)
IsOrdered-CanStep id m (open_gate o e f) own = absurd (own f)
IsOrdered-CanStep id m (passing o) own = (_, entry_unlock)
IsOrdered-CanStep id m (passed o p f) own = absurd (own f)

own_creator : (m : ℕ) → ¬ IsForeign m (creator m)
own_creator m (of_creator ne) = ne refl

own_worker : (m : ℕ) → ¬ IsForeign m (worker m)
own_worker m (of_worker ne) = ne refl

abbrev IsHeldBelow : ℕ → Holder → Type 0
IsHeldBelow count nobody = Unit {0}
IsHeldBelow count (creator m) = m < count
IsHeldBelow count (worker m) = m < count

Moves-IsHeldBelow :
    (count m : ℕ) {h h' : Holder}
    → m < count
    → Moves m h h'
    → IsHeldBelow count h
    → IsHeldBelow count h'
Moves-IsHeldBelow count m l stays b = b
Moves-IsHeldBelow count m l creator_takes b = l
Moves-IsHeldBelow count m l creator_gives b = tt
Moves-IsHeldBelow count m l worker_takes b = l
Moves-IsHeldBelow count m l worker_gives b = tt

holder-change : (m : ℕ) (t : Startup) (s : Threads) → (change m t s).holder ≡ holder_of t
holder-change m (at c w h threads) s = refl

module _ (thread_id : ℕ → ℕ) (count : ℕ) where
  -- A step of one of so many objects.
  pub data Below (s : Threads) : Threads → Type 0 where
    below :
        (m : ℕ) {t : Startup}
        → m < count
        → Step (thread_id m) m (view m s) t
        → Below s (change m t s)

  pub data BelowSteps (s : Threads) : Threads → Type 0 where
    begin : BelowSteps s s
    more : {t u : Threads} → BelowSteps s t → Below t u → BelowSteps s u

  -- Whatever steps are made, as long as one can be made, they come to where `P` holds.
  pub data IsInevitable (P : Threads → Type 0) : Threads → Type 0 where
    now : {s : Threads} → P s → IsInevitable P s
    later :
        {s t : Threads}
        → Below s t
        → ((u : Threads) → Below s u → IsInevitable P u)
        → IsInevitable P s

  to_any : {s : Threads} → BelowSteps initial s → AnySteps thread_id initial s
  to_any begin = stay
  to_any (more r (below m l st)) = after (to_any r) (pick m st)

  BelowSteps-IsHeldBelow : {s : Threads} → BelowSteps initial s → IsHeldBelow count s.holder
  BelowSteps-IsHeldBelow begin = tt
  BelowSteps-IsHeldBelow (more {t = s} r (below m {t = t} l st)) =
      rw (holder-change m t s)
        (Moves-IsHeldBelow count m l (Step-Moves (thread_id m) m st) (BelowSteps-IsHeldBelow r))

  Below-total_left : {s t : Threads} → Below s t → total_left count t < total_left count s
  Below-total_left {s} (below m {t = t} l st) = change-total_left (thread_id m) count m t s l st

  Below-IsPending :
      (n : ℕ) {s t : Threads}
      → Below s t
      → IsPending (s.workers n)
      → IsPending (t.workers n) ⊎ (t.workers n ≡ running)
  Below-IsPending n {s} (below m {t = at c w h threads} l st) p = elim (Bool-cases (m == n)) [
    | inl e ↦ rw e (
        Step-IsPending (thread_id m) m st
          (subst (λ k. IsPending (s.workers k)) (sym ((==_iff m n).0 e)) p))
    | inr e ↦ rw e (inl p)
  ]

  -- While the thread of an object is on its way, some step can be made.
  abbrev CanGoOn : Threads → Type 0
  CanGoOn s = (t : Threads) × Below s t

  held-CanGoOn :
      (s : Threads)
      → ((n : ℕ) → IsOrdered n (view n s))
      → (h : Holder) → s.holder ≡ h
      → IsHeldBelow count h
      → h ≢ nobody
      → CanGoOn s
  held-CanGoOn s o nobody e b ne = absurd (ne refl)
  held-CanGoOn s o (creator m) e b ne =
      let (t, st) =
        IsOrdered-CanStep (thread_id m) m (o m) (λ f. own_creator m (subst (IsForeign m) e f)) in
      (_, below m b st)
  held-CanGoOn s o (worker m) e b ne =
      let (t, st) =
        IsOrdered-CanStep (thread_id m) m (o m) (λ f. own_worker m (subst (IsForeign m) e f)) in
      (_, below m b st)

  free_step :
      (n : ℕ) (c : CreatorPoint) (w : WorkerPoint) (threads : Registry)
      → IsPending w
      → IsOrdered n (at c w nobody threads)
      → CanStep (thread_id n) n (at c w nobody threads)
  free_step n c w threads p (outside f) = elim p [ ]
  free_step n c w threads p (open_gate o is_absent f) = elim p [ ]
  free_step n c w threads p (open_gate o early_waiting f) = (_, entry_lock)
  free_step n c w threads p (passed o past_released f) = (_, enter_run)
  free_step n c w threads p (passed o is_running f) = elim p [ ]
  free_step n c w threads p (passed o is_returned f) = elim p [ ]

  pending-CanGoOn :
      (n : ℕ) (s : Threads)
      → n < count
      → ((m : ℕ) → IsOrdered m (view m s))
      → (h : Holder) → s.holder ≡ h
      → IsHeldBelow count h
      → IsPending (s.workers n)
      → CanGoOn s
  pending-CanGoOn n s l o nobody e b p =
      let (t, st) =
        subst (λ h. CanStep (thread_id n) n (at (s.creators n) (s.workers n) h s.registry)) (sym e)
          (free_step n (s.creators n) (s.workers n) s.registry p
            (subst (λ h. IsOrdered n (at (s.creators n) (s.workers n) h s.registry)) e (o n))) in
      (_, below n l st)
  pending-CanGoOn n s l o (creator m) e b p = held-CanGoOn s o (creator m) e b (λ f. grind arith)
  pending-CanGoOn n s l o (worker m) e b p = held-CanGoOn s o (worker m) e b (λ f. grind arith)

  module _ (injective : IsInjective thread_id) (n : ℕ) (named : n < count) where
    pending-IsInevitable :
        (bound : ℕ) {s : Threads}
        → BelowSteps initial s
        → IsPending (s.workers n)
        → total_left count s < bound
        → IsInevitable (λ t. t.workers n ≡ running) s
    pending-IsInevitable zero r p h = absurd (omega arith)
    pending-IsInevitable (suc bound) {s} r p h =
        let o = AnySteps-IsOrderly thread_id injective (to_any r) in
        let (t, st) =
          pending-CanGoOn n s named o.ordered s.holder refl (BelowSteps-IsHeldBelow r) p in
        later st (λ u b. elim (Below-IsPending n b p) [
          | inl q ↦
              let fewer = Below-total_left b in
              pending-IsInevitable bound (more r b) q (omega arith)
          | inr runs ↦ now runs
        ])

    -- Let any number of objects, whose threads have distinct ids, each be made, started and destroyed
    -- by a thread of its own, which makes no other. From every state that their steps reach, for
    -- every created thread that waits for the startup mutex there: whatever steps are made, as long as
    -- one can be made, they come to its `run`, and one can be made until then.
    pub waiting-IsInevitable :
        {s : Threads}
        → BelowSteps initial s
        → s.workers n ≡ waiting
        → IsInevitable (λ t. t.workers n ≡ running) s
    waiting-IsInevitable {s} r waits =
        pending-IsInevitable (suc (total_left count s)) r (subst IsPending (sym waits) is_waiting)
          (omega arith)
