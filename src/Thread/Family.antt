-- ===== src/Thread/Family.antt =====
-- Any number of objects of jni/main/Thread.cpp: the order of the points of each, and the map, over
-- all interleavings of their threads.
use vr_admin.Prelude.{
  ℕ, ◌≡◌, ◌≢◌, refl, ◌∙◌, sym, inl, inr, ◌==◌, ==_iff, ==_refl, Bool-cases, Option, none, some,
  arith,
}
use vr_admin.Thread.{
  Registry, find_thread, CreatorPoint, entered, locked, created, registered, constructed, started,
  destroyed, WorkerPoint, Startup, at, Step, lock, create, create_failed, register, construct,
  start, destroy, entry_lock, entry_unlock, enter_run, leave_run, Threads, view, change, pick,
  AnySteps, stay, after, initial,
}
use vr_admin.Thread.Registry.{
  HasDistinctIds, find_thread-insert_thread, find_thread-insert_other, find_thread-erase_other,
  find_thread-erase_thread, insert_thread-HasDistinctIds, erase_thread-HasDistinctIds,
}
use vr_admin.Thread.Order.{
  IsOrdered, outside, of_nobody, Step-IsOrdered, Step-Moves, Moves-IsOrdered,
}

abbrev pub registry_of : Startup → Registry
registry_of (at c w h threads) = threads

-- What the map has for the thread of an object.
abbrev pub expected : ℕ → CreatorPoint → Option ℕ
expected n entered = none
expected n locked = none
expected n created = none
expected n registered = some n
expected n constructed = some n
expected n started = some n
expected n destroyed = none

abbrev IsTracked : ℕ → ℕ → Startup → Type 0
IsTracked id n (at c w h threads) = find_thread id threads ≡ expected n c

Step-IsTracked :
    (id n : ℕ) {s t : Startup}
    → Step id n s t
    → HasDistinctIds (registry_of s)
    → IsTracked id n s
    → IsTracked id n t
Step-IsTracked id n lock d e = e
Step-IsTracked id n create d e = e
Step-IsTracked id n create_failed d e = e
Step-IsTracked id n (register {threads = threads}) d e = find_thread-insert_thread id n threads e
Step-IsTracked id n construct d e = e
Step-IsTracked id n start d e = e
Step-IsTracked id n (destroy {threads = threads}) d e = find_thread-erase_thread id threads d
Step-IsTracked id n entry_lock d e = e
Step-IsTracked id n entry_unlock d e = e
Step-IsTracked id n enter_run d e = e
Step-IsTracked id n leave_run d e = e

Step-HasDistinctIds :
    (id n : ℕ) {s t : Startup}
    → Step id n s t
    → HasDistinctIds (registry_of s)
    → HasDistinctIds (registry_of t)
Step-HasDistinctIds id n lock d = d
Step-HasDistinctIds id n create d = d
Step-HasDistinctIds id n create_failed d = d
Step-HasDistinctIds id n (register {threads = threads}) d =
    insert_thread-HasDistinctIds id n threads d
Step-HasDistinctIds id n construct d = d
Step-HasDistinctIds id n start d = d
Step-HasDistinctIds id n (destroy {threads = threads}) d = erase_thread-HasDistinctIds id threads d
Step-HasDistinctIds id n entry_lock d = d
Step-HasDistinctIds id n entry_unlock d = d
Step-HasDistinctIds id n enter_run d = d
Step-HasDistinctIds id n leave_run d = d

-- The threads of the other objects in the map.
Step-find_other :
    (id other n : ℕ) {s t : Startup}
    → other ≢ id
    → Step id n s t
    → find_thread other (registry_of t) ≡ find_thread other (registry_of s)
Step-find_other id other n ne lock = refl
Step-find_other id other n ne create = refl
Step-find_other id other n ne create_failed = refl
Step-find_other id other n ne (register {threads = threads}) =
    find_thread-insert_other id other n threads ne
Step-find_other id other n ne construct = refl
Step-find_other id other n ne start = refl
Step-find_other id other n ne (destroy {threads = threads}) =
    find_thread-erase_other id other threads ne
Step-find_other id other n ne entry_lock = refl
Step-find_other id other n ne entry_unlock = refl
Step-find_other id other n ne enter_run = refl
Step-find_other id other n ne leave_run = refl

-- The threads of the object itself, and those of another, behind a step.
pub view-change : (n : ℕ) (t : Startup) (s : Threads) → view n (change n t s) ≡ t
view-change n (at c w h threads) s = rw (==_refl n) refl

abbrev pub beside : Startup → CreatorPoint → WorkerPoint → Startup
beside (at c w h threads) c' w' = at c' w' h threads

pub view-change_other :
    (n m : ℕ) (t : Startup) (s : Threads)
    → m ≢ n
    → view n (change m t s) ≡ beside t (s.creators n) (s.workers n)
view-change_other n m (at c w h threads) s ne = elim (Bool-cases (m == n)) [
  | inl e ↦ absurd (ne ((==_iff m n).0 e))
  | inr e ↦ rw e refl
]

abbrev pub IsInjective : (ℕ → ℕ) → Type 0
IsInjective thread_id = (n m : ℕ) → thread_id n ≡ thread_id m → n ≡ m

module _ (thread_id : ℕ → ℕ) (injective : IsInjective thread_id) where
  pub record IsOrderly (s : Threads) : Type 0 where
    pub ordered : (n : ℕ) → IsOrdered n (view n s)
    pub distinct : HasDistinctIds s.registry
    pub tracked : (n : ℕ) → IsTracked (thread_id n) n (view n s)

  initial-IsOrderly : IsOrderly initial
  unfolding find_thread
  initial-IsOrderly = record {
    ordered = λ n. outside of_nobody;
    distinct = tt;
    tracked = λ n. refl;
  }

  beside-IsOrdered :
      (n m : ℕ) (c : CreatorPoint) (w : WorkerPoint) (s t : Startup)
      → m ≢ n
      → Step (thread_id m) m s t
      → IsOrdered n (beside s c w)
      → IsOrdered n (beside t c w)
  beside-IsOrdered n m c w (at c0 w0 h0 r0) (at c1 w1 h1 r1) ne st o =
      Moves-IsOrdered n m r1 ne (Step-Moves (thread_id m) m st) o

  beside-IsTracked :
      (n m : ℕ) (c : CreatorPoint) (w : WorkerPoint) (s t : Startup)
      → m ≢ n
      → Step (thread_id m) m s t
      → IsTracked (thread_id n) n (beside s c w)
      → IsTracked (thread_id n) n (beside t c w)
  beside-IsTracked n m c w (at c0 w0 h0 r0) (at c1 w1 h1 r1) ne st e =
      Step-find_other (thread_id m) (thread_id n) m (λ same. ne (sym (injective n m same))) st ∙ e

  change-IsOrderly :
      (m : ℕ) (s : Threads) (t : Startup)
      → Step (thread_id m) m (view m s) t
      → IsOrderly s
      → IsOrderly (change m t s)
  change-IsOrderly m s (at c w h threads) st o = record {
    ordered = λ n. elim (Bool-cases (m == n)) [
      | inl e ↦ rw (e, ← (==_iff m n).0 e) (Step-IsOrdered (thread_id m) m m refl st (o.ordered m))
      | inr e ↦ rw e (
          beside-IsOrdered n m (s.creators n) (s.workers n) (view m s) (at c w h threads)
            (λ same. ground (arith, ==_iff m n)) st (o.ordered n))
    ];
    distinct = Step-HasDistinctIds (thread_id m) m st o.distinct;
    tracked = λ n. elim (Bool-cases (m == n)) [
      | inl e ↦
          rw (e, ← (==_iff m n).0 e) (Step-IsTracked (thread_id m) m st o.distinct (o.tracked m))
      | inr e ↦ rw e (
          beside-IsTracked n m (s.creators n) (s.workers n) (view m s) (at c w h threads)
            (λ same. ground (arith, ==_iff m n)) st (o.tracked n))
    ];
  }

  pub AnySteps-IsOrderly : {s : Threads} → AnySteps thread_id initial s → IsOrderly s
  AnySteps-IsOrderly stay = initial-IsOrderly
  AnySteps-IsOrderly (after {t = t} r (pick m {t = u} st)) =
      change-IsOrderly m t u st (AnySteps-IsOrderly r)
