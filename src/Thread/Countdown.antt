-- ===== src/Thread/Countdown.antt =====
-- How many steps the two threads of each object of jni/main/Thread.cpp can still make.
use vr_admin.Prelude.{
  ℕ, zero, suc, ◌+◌, ◌<◌, ◌≤◌, ◌≡◌, ◌≢◌, refl, inl, inr, ◌==◌, ==_iff, ==_refl, Bool-cases, arith,
}
use vr_admin.Thread.{
  CreatorPoint, entered, locked, created, registered, constructed, started, destroyed, WorkerPoint,
  absent, waiting, holding, released, running, returned, Startup, at, Step, lock, create,
  create_failed, register, construct, start, destroy, entry_lock, entry_unlock, enter_run,
  leave_run, Threads, view, change,
}

abbrev creator_left : CreatorPoint → ℕ
creator_left entered = 6
creator_left locked = 5
creator_left created = 4
creator_left registered = 3
creator_left constructed = 2
creator_left started = 1
creator_left destroyed = 0

abbrev worker_left : WorkerPoint → ℕ
worker_left absent = 5
worker_left waiting = 4
worker_left holding = 3
worker_left released = 2
worker_left running = 1
worker_left returned = 0

abbrev left : Startup → ℕ
left (at c w h threads) = creator_left c + worker_left w

Step-left : (id n : ℕ) {s t : Startup} → Step id n s t → left t < left s
Step-left id n lock = omega arith
Step-left id n create = omega arith
Step-left id n create_failed = omega arith
Step-left id n register = omega arith
Step-left id n construct = omega arith
Step-left id n start = omega arith
Step-left id n destroy = omega arith
Step-left id n entry_lock = omega arith
Step-left id n entry_unlock = omega arith
Step-left id n enter_run = omega arith
Step-left id n leave_run = omega arith

-- Of the objects below a number.
abbrev pub total_left : ℕ → Threads → ℕ
total_left zero s = 0
total_left (suc n) s = left (view n s) + total_left n s

left_other :
    (n m : ℕ) (t : Startup) (s : Threads) → m ≢ n → left (view n (change m t s)) ≡ left (view n s)
left_other n m (at c w h threads) s ne = elim (Bool-cases (m == n)) [
  | inl e ↦ absurd (ne ((==_iff m n).0 e))
  | inr e ↦ rw e
]

left_same : (m : ℕ) (t : Startup) (s : Threads) → left (view m (change m t s)) ≡ left t
left_same m (at c w h threads) s = rw (==_refl m)

total_left_above :
    (count m : ℕ) (t : Startup) (s : Threads)
    → count ≤ m
    → total_left count (change m t s) ≡ total_left count s
total_left_above zero m t s h = refl
total_left_above (suc n) m t s h =
    omega (arith, left_other n m t s (omega arith), total_left_above n m t s (omega arith))

-- A step of an object below the number takes one off at least.
pub change-total_left :
    (id count m : ℕ) (t : Startup) (s : Threads)
    → m < count
    → Step id m (view m s) t
    → total_left count (change m t s) < total_left count s
change-total_left id zero m t s h st = absurd (omega arith)
change-total_left id (suc n) m t s h st = elim (Bool-cases (m == n)) [
  | inl e ↦
      rw (← (==_iff m n).0 e)
        (omega (arith, left_same m t s, total_left_above m m t s (omega arith), Step-left id m st))
  | inr e ↦ omega (
    arith,
    left_other n m t s (λ same. ground (arith, ==_iff m n)),
    change-total_left id n m t s (apart (λ same. ground (arith, ==_iff m n))) st,
  )
]
  where
    apart : m ≢ n → m < n
    apart ne = omega arith
