-- ===== src/Thread.antt =====
-- jni/main/Thread.h and Thread.cpp: objects whose threads wait for `start` before their first step,
-- any number of them made at the same time under the one startup mutex.
pub mod Registry
pub mod Order
pub mod Family
pub mod Entry
pub mod Progress
pub mod Nested
pub mod Countdown
use vr_admin.Prelude.{ℕ, ◌==◌, if◌then◌else◌, Option, none, some, List, [], ◌∷◌, ◌≡◌}

-- `gThreads`, a map from the threads to their objects.
abbrev pub Registry : Type 0
Registry = List (ℕ × ℕ)

unfoldable pub find_thread : ℕ → Registry → Option ℕ
find_thread id [] = none
find_thread id ((i, object) ∷ threads) = if i == id then some object else find_thread id threads

-- `std::map::insert`, which leaves a thread that is there.
unfoldable pub insert_thread : ℕ → ℕ → Registry → Registry
insert_thread id object [] = (id, object) ∷ []
insert_thread id object ((i, o) ∷ threads) =
    let rest = insert_thread id object threads in
    if i == id then (i, o) ∷ threads else (i, o) ∷ rest

-- The destructor: the thread is found and erased.
unfoldable pub erase_thread : ℕ → Registry → Registry
erase_thread id [] = []
erase_thread id ((i, o) ∷ threads) =
    let rest = erase_thread id threads in if i == id then threads else (i, o) ∷ rest

-- Where the creating thread is: in the constructor of Thread, behind it in the constructor of the
-- class that is derived from it, behind `start`, and behind the destructor.
pub data CreatorPoint : Type 0 where
  entered : CreatorPoint
  locked : CreatorPoint
  created : CreatorPoint
  registered : CreatorPoint
  constructed : CreatorPoint
  started : CreatorPoint
  destroyed : CreatorPoint

-- Where the created thread is in `threadEntry`.
pub data WorkerPoint : Type 0 where
  absent : WorkerPoint
  waiting : WorkerPoint
  holding : WorkerPoint
  released : WorkerPoint
  running : WorkerPoint
  returned : WorkerPoint

-- Who holds `gStartupMutex`: the creating or the created thread of an object.
pub data Holder : Type 0 where
  nobody : Holder
  creator : ℕ → Holder
  worker : ℕ → Holder

-- What the two threads of one object see.
pub data Startup : Type 0 where
  at : CreatorPoint → WorkerPoint → Holder → Registry → Startup

-- The steps of the two threads of an object, whose thread is `id`. That one thread creates several
-- objects is a restriction of the steps of all (Thread/Nested). A lock is taken when nobody holds
-- it; `gMutex` is held within one step only. No object is destroyed before its `start`.
pub data Step (id object : ℕ) : Startup → Startup → Type 0 where
  lock :
      {w : WorkerPoint} {threads : Registry}
      → Step id object (at entered w nobody threads) (at locked w (creator object) threads)
  create :
      {h : Holder} {threads : Registry}
      → Step id object (at locked absent h threads) (at created waiting h threads)
  -- The result of `pthread_create` is not looked at.
  create_failed :
      {h : Holder} {threads : Registry}
      → Step id object (at locked absent h threads) (at created absent h threads)
  register :
      {w : WorkerPoint} {h : Holder} {threads : Registry}
      → Step id object
          (at created w h threads)
          (at registered w h (insert_thread id object threads))
  construct :
      {w : WorkerPoint} {h : Holder} {threads : Registry}
      → Step id object (at registered w h threads) (at constructed w h threads)
  start :
      {w : WorkerPoint} {threads : Registry}
      → Step id object (at constructed w (creator object) threads) (at started w nobody threads)
  -- The destructor waits for no thread.
  destroy :
      {w : WorkerPoint} {h : Holder} {threads : Registry}
      → Step id object (at started w h threads) (at destroyed w h (erase_thread id threads))
  entry_lock :
      {c : CreatorPoint} {threads : Registry}
      → Step id object (at c waiting nobody threads) (at c holding (worker object) threads)
  entry_unlock :
      {c : CreatorPoint} {threads : Registry}
      → Step id object (at c holding (worker object) threads) (at c released nobody threads)
  enter_run :
      {c : CreatorPoint} {h : Holder} {threads : Registry}
      → Step id object (at c released h threads) (at c running h threads)
  leave_run :
      {c : CreatorPoint} {h : Holder} {threads : Registry}
      → Step id object (at c running h threads) (at c returned h threads)

-- All objects, where their threads are, the startup mutex, and the map.
pub record Threads : Type 0 where
  pub creators : ℕ → CreatorPoint
  pub workers : ℕ → WorkerPoint
  pub holder : Holder
  pub registry : Registry

abbrev pub view : ℕ → Threads → Startup
view n s = at (s.creators n) (s.workers n) s.holder s.registry

abbrev pub set_at {ℓ} : {A : Type ℓ} → ℕ → A → (ℕ → A) → ℕ → A
set_at n x f m = if n == m then x else f m

abbrev pub change : ℕ → Startup → Threads → Threads
change n (at c w h threads) s = record {
  creators = set_at n c s.creators;
  workers = set_at n w s.workers;
  holder = h;
  registry = threads;
}

module _ (thread_id : ℕ → ℕ) where
  -- A step of the threads of some object.
  pub data AnyStep (s : Threads) : Threads → Type 0 where
    pick : (n : ℕ) {t : Startup} → Step (thread_id n) n (view n s) t → AnyStep s (change n t s)

  pub data AnySteps (s : Threads) : Threads → Type 0 where
    stay : AnySteps s s
    after : {t u : Threads} → AnySteps s t → AnyStep t u → AnySteps s u

-- Before all constructors: there is no thread, and nobody holds the lock.
abbrev pub initial : Threads
initial = record { creators = λ n. entered; workers = λ n. absent; holder = nobody; registry = [] }
