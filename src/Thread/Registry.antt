-- ===== src/Thread/Registry.antt =====
-- The map `gThreads` of jni/main/Thread.cpp: what insertion and erasure change.
use vr_admin.Prelude.{
  ℕ, ◌≡◌, ◌≢◌, refl, ◌∙◌, inl, inr, ◌==◌, ==_iff, ==_refl, Bool-cases, none, some, [], ◌∷◌, arith,
}
use vr_admin.Thread.{Registry, find_thread, insert_thread, erase_thread}

-- Each thread is once in the map.
abbrev pub HasDistinctIds : Registry → Type 0
HasDistinctIds [] = Unit {0}
HasDistinctIds ((id, object) ∷ threads) = (find_thread id threads ≡ none) × HasDistinctIds threads

pub find_thread-insert_thread :
    (id object : ℕ) (threads : Registry)
    → find_thread id threads ≡ none
    → find_thread id (insert_thread id object threads) ≡ some object
unfolding find_thread insert_thread
find_thread-insert_thread id object [] h = rw (==_refl id) refl
find_thread-insert_thread id object ((i, o) ∷ threads) h =
    ground (arith, find_thread-insert_thread id object threads)

pub find_thread-insert_other :
    (id other object : ℕ) (threads : Registry)
    → other ≢ id
    → find_thread other (insert_thread id object threads) ≡ find_thread other threads
unfolding find_thread insert_thread
find_thread-insert_other id other object [] ne = ground (arith, ==_iff id other)
find_thread-insert_other id other object ((i, o) ∷ threads) ne =
    ground (arith, find_thread-insert_other id other object threads ne)

pub find_thread-erase_other :
    (id other : ℕ) (threads : Registry)
    → other ≢ id
    → find_thread other (erase_thread id threads) ≡ find_thread other threads
unfolding find_thread erase_thread
find_thread-erase_other id other [] ne = refl
find_thread-erase_other id other ((i, o) ∷ threads) ne =
    ground (arith, find_thread-erase_other id other threads ne, ==_iff i id, ==_iff i other)

pub find_thread-erase_thread :
    (id : ℕ) (threads : Registry)
    → HasDistinctIds threads
    → find_thread id (erase_thread id threads) ≡ none
unfolding find_thread erase_thread
find_thread-erase_thread id [] d = refl
find_thread-erase_thread id ((i, o) ∷ threads) (n, d) =
    ground (arith, find_thread-erase_thread id threads d, ==_iff i id)

pub insert_thread-HasDistinctIds :
    (id object : ℕ) (threads : Registry)
    → HasDistinctIds threads
    → HasDistinctIds (insert_thread id object threads)
unfolding find_thread insert_thread
insert_thread-HasDistinctIds id object [] d = (refl, tt)
insert_thread-HasDistinctIds id object ((i, o) ∷ threads) (n, d) = elim (Bool-cases (i == id)) [
  | inl e ↦ rw e (n, d)
  | inr e ↦ rw e (
    find_thread-insert_other id i object threads (λ q. ground (arith, ==_iff i id)) ∙ n,
    insert_thread-HasDistinctIds id object threads d,
  )
]

pub erase_thread-HasDistinctIds :
    (id : ℕ) (threads : Registry)
    → HasDistinctIds threads
    → HasDistinctIds (erase_thread id threads)
unfolding find_thread erase_thread
erase_thread-HasDistinctIds id [] d = tt
erase_thread-HasDistinctIds id ((i, o) ∷ threads) (n, d) = elim (Bool-cases (i == id)) [
  | inl e ↦ rw e d
  | inr e ↦ rw e (
    find_thread-erase_other id i threads (λ q. ground (arith, ==_iff i id)) ∙ n,
    erase_thread-HasDistinctIds id threads d,
  )
]
