-- ===== src/Thread/Order.antt =====
-- The points of jni/main/Thread.cpp that the two threads of an object can be at together, and who
-- holds the startup mutex then.
use vr_admin.Prelude.{ℕ, ◌≡◌, ◌≢◌, refl}
use vr_admin.Thread.{
  Registry, CreatorPoint, entered, locked, created, registered, constructed, started, destroyed,
  WorkerPoint, absent, waiting, holding, released, running, returned, Holder, nobody, creator,
  worker, Startup, at, Step, lock, create, create_failed, register, construct, start, destroy,
  entry_lock, entry_unlock, enter_run, leave_run,
}

-- Behind the creation of the thread and before `start`, where the creator holds the lock.
pub data Inside : CreatorPoint → Type 0 where
  is_created : Inside created
  is_registered : Inside registered
  is_constructed : Inside constructed

pub data IsOpen : CreatorPoint → Type 0 where
  is_started : IsOpen started
  is_destroyed : IsOpen destroyed

-- The created thread has not taken the lock.
pub data Early : WorkerPoint → Type 0 where
  is_absent : Early absent
  is_waiting : Early waiting

pub data IsPast : WorkerPoint → Type 0 where
  is_released : IsPast released
  is_running : IsPast running
  is_returned : IsPast returned

-- The lock is not held for the object.
pub data IsForeign (n : ℕ) : Holder → Type 0 where
  of_nobody : IsForeign n nobody
  of_creator : {m : ℕ} → m ≢ n → IsForeign n (creator m)
  of_worker : {m : ℕ} → m ≢ n → IsForeign n (worker m)

pub data IsOrdered (n : ℕ) : Startup → Type 0 where
  outside :
      {h : Holder} {threads : Registry} → IsForeign n h → IsOrdered n (at entered absent h threads)
  entering : {threads : Registry} → IsOrdered n (at locked absent (creator n) threads)
  building :
      {c : CreatorPoint} {w : WorkerPoint} {threads : Registry}
      → Inside c
      → Early w
      → IsOrdered n (at c w (creator n) threads)
  open_gate :
      {c : CreatorPoint} {w : WorkerPoint} {h : Holder} {threads : Registry}
      → IsOpen c
      → Early w
      → IsForeign n h
      → IsOrdered n (at c w h threads)
  passing :
      {c : CreatorPoint} {threads : Registry}
      → IsOpen c
      → IsOrdered n (at c holding (worker n) threads)
  passed :
      {c : CreatorPoint} {w : WorkerPoint} {h : Holder} {threads : Registry}
      → IsOpen c
      → IsPast w
      → IsForeign n h
      → IsOrdered n (at c w h threads)

-- A step of the threads of the object itself.
pub Step-IsOrdered :
    (id m n : ℕ) {s t : Startup} → m ≡ n → Step id m s t → IsOrdered n s → IsOrdered n t
Step-IsOrdered id m n same lock (outside f) = rw same entering
Step-IsOrdered id m n same create entering = building is_created is_waiting
Step-IsOrdered id m n same create_failed entering = building is_created is_absent
Step-IsOrdered id m n same register (building i e) = building is_registered e
Step-IsOrdered id m n same construct (building i e) = building is_constructed e
Step-IsOrdered id m n same start (building i e) = open_gate is_started e of_nobody
Step-IsOrdered id m n same destroy (open_gate o e f) = open_gate is_destroyed e f
Step-IsOrdered id m n same destroy (passing o) = passing is_destroyed
Step-IsOrdered id m n same destroy (passed o p f) = passed is_destroyed p f
Step-IsOrdered id m n same entry_lock (open_gate o e f) = rw same (passing o)
Step-IsOrdered id m n same entry_unlock (passing o) = passed o is_released of_nobody
Step-IsOrdered id m n same enter_run (passed o p f) = passed o is_running f
Step-IsOrdered id m n same leave_run (passed o p f) = passed o is_returned f
Step-IsOrdered id m n same lock (open_gate o e f) = elim o [ ]
Step-IsOrdered id m n same lock (passed o p f) = elim o [ ]
Step-IsOrdered id m n same start (open_gate o e f) = elim o [ ]
Step-IsOrdered id m n same start (passed o p f) = elim o [ ]
Step-IsOrdered id m n same create (building i e) = elim i [ ]
Step-IsOrdered id m n same create (open_gate o e f) = elim o [ ]
Step-IsOrdered id m n same create (passed o p f) = elim o [ ]
Step-IsOrdered id m n same create_failed (building i e) = elim i [ ]
Step-IsOrdered id m n same create_failed (open_gate o e f) = elim o [ ]
Step-IsOrdered id m n same create_failed (passed o p f) = elim o [ ]
Step-IsOrdered id m n same register (open_gate o e f) = elim o [ ]
Step-IsOrdered id m n same register (passing o) = elim o [ ]
Step-IsOrdered id m n same register (passed o p f) = elim o [ ]
Step-IsOrdered id m n same construct (open_gate o e f) = elim o [ ]
Step-IsOrdered id m n same construct (passing o) = elim o [ ]
Step-IsOrdered id m n same construct (passed o p f) = elim o [ ]
Step-IsOrdered id m n same destroy (building i e) = elim i [ ]
Step-IsOrdered id m n same entry_lock (passed o p f) = elim p [ ]
Step-IsOrdered id m n same entry_unlock (open_gate o e f) = elim e [ ]
Step-IsOrdered id m n same entry_unlock (passed o p f) = elim p [ ]
Step-IsOrdered id m n same enter_run (building i e) = elim e [ ]
Step-IsOrdered id m n same enter_run (open_gate o e f) = elim e [ ]
Step-IsOrdered id m n same leave_run (building i e) = elim e [ ]
Step-IsOrdered id m n same leave_run (open_gate o e f) = elim e [ ]

-- What a step of the threads of another object does to the lock.
pub data Moves (m : ℕ) : Holder → Holder → Type 0 where
  stays : {h : Holder} → Moves m h h
  creator_takes : Moves m nobody (creator m)
  creator_gives : Moves m (creator m) nobody
  worker_takes : Moves m nobody (worker m)
  worker_gives : Moves m (worker m) nobody

abbrev pub holder_of : Startup → Holder
holder_of (at c w h threads) = h

pub Step-Moves : (id m : ℕ) {s t : Startup} → Step id m s t → Moves m (holder_of s) (holder_of t)
Step-Moves id m lock = creator_takes
Step-Moves id m create = stays
Step-Moves id m create_failed = stays
Step-Moves id m register = stays
Step-Moves id m construct = stays
Step-Moves id m start = creator_gives
Step-Moves id m destroy = stays
Step-Moves id m entry_lock = worker_takes
Step-Moves id m entry_unlock = worker_gives
Step-Moves id m enter_run = stays
Step-Moves id m leave_run = stays

Moves-IsForeign : (n m : ℕ) {h h' : Holder} → m ≢ n → Moves m h h' → IsForeign n h → IsForeign n h'
Moves-IsForeign n m ne stays f = f
Moves-IsForeign n m ne creator_takes f = of_creator ne
Moves-IsForeign n m ne creator_gives f = of_nobody
Moves-IsForeign n m ne worker_takes f = of_worker ne
Moves-IsForeign n m ne worker_gives f = of_nobody

kept_creator : (n m : ℕ) {h : Holder} → m ≢ n → Moves m (creator n) h → h ≡ creator n
kept_creator n m ne stays = refl
kept_creator n m ne creator_gives = absurd (ne refl)

kept_worker : (n m : ℕ) {h : Holder} → m ≢ n → Moves m (worker n) h → h ≡ worker n
kept_worker n m ne stays = refl
kept_worker n m ne worker_gives = absurd (ne refl)

-- A step of the threads of another object.
pub Moves-IsOrdered :
    (n m : ℕ) {c : CreatorPoint} {w : WorkerPoint} {h h' : Holder} {threads : Registry}
    (threads' : Registry)
    → m ≢ n
    → Moves m h h'
    → IsOrdered n (at c w h threads)
    → IsOrdered n (at c w h' threads')
Moves-IsOrdered n m threads' ne v (outside f) = outside (Moves-IsForeign n m ne v f)
Moves-IsOrdered n m threads' ne v entering = rw (kept_creator n m ne v) entering
Moves-IsOrdered n m threads' ne v (building i e) = rw (kept_creator n m ne v) (building i e)
Moves-IsOrdered n m threads' ne v (open_gate o e f) = open_gate o e (Moves-IsForeign n m ne v f)
Moves-IsOrdered n m threads' ne v (passing o) = rw (kept_worker n m ne v) (passing o)
Moves-IsOrdered n m threads' ne v (passed o p f) = passed o p (Moves-IsForeign n m ne v f)
