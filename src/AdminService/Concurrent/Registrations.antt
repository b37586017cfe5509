-- ===== src/AdminService/Concurrent/Registrations.antt =====
-- Any number of calls of `registerMonitor` at the same time: the lock keeps the account right.
use vr_admin.Prelude.{
  ℕ, ◌==◌, ==_iff, ==_refl, ◌≡◌, ◌≢◌, refl, ◌∙◌, ap, inl, inr, true, false, Bool-cases,
  if◌then◌else◌, Option, none, some, List, [], ◌∷◌, ◌++◌, length, length-append, pos, arith,
}
use vr_admin.AdminService.{contains, increment}
use vr_admin.AdminService.Monitors.{contains-append, Distinct, Distinct-append}
use vr_admin.AdminService.Concurrent.{
  CallPoint, registering, checking, counting, counted, linking, dying, unlisted, discounting,
  discounted, restoring, finished, Shared, CallStep, ignore, lock, known, read_count, write_count,
  add, link, unlist, read_again, write_again, find_zero, find_other, restore, CallThreads, moved,
  pick, AnyCalls, stay, after,
}

-- The count is that of the monitors, and none of them is listed twice.
abbrev pub IsBalanced : Shared → Type 0
IsBalanced s = (s.client_count ≡ pos (length s.monitors)) × Distinct s.monitors

-- What a call was made with is listed.
abbrev IsListed : Option ℕ → List ℕ → Type 0
IsListed none monitors = Unit {0}
IsListed (some m) monitors = contains m monitors ≡ true

abbrev InLock : ℕ → ℕ → Option ℕ → Shared → Type 0
InLock n m r s = (s.holder ≡ some n) × (r ≡ some m)

-- What holds at each point of a thread that was called with `r`.
abbrev IsConsistent : ℕ → Option ℕ → CallPoint → Shared → Type 0
IsConsistent n r (registering m) s = (s.holder ≢ some n) × (r ≡ m)
IsConsistent n r (checking m) s = InLock n m r s × IsBalanced s
IsConsistent n r (counting m v) s =
    InLock n m r s × IsBalanced s × (contains m s.monitors ≡ false) × (v ≡ s.client_count)
IsConsistent n r (counted m) s =
    InLock n m r s
    × (s.client_count ≡ increment (pos (length s.monitors)))
    × Distinct s.monitors
    × (contains m s.monitors ≡ false)
IsConsistent n r (linking m) s = InLock n m r s × IsBalanced s × (contains m s.monitors ≡ true)
IsConsistent n r (dying m) s = ⊥
IsConsistent n r unlisted s = ⊥
IsConsistent n r (discounting v) s = ⊥
IsConsistent n r discounted s = ⊥
IsConsistent n r restoring s = ⊥
IsConsistent n r finished s = (s.holder ≢ some n) × IsListed r s.monitors

-- Nothing is shared that is not in balance.
abbrev IsFreeBalanced : Shared → Type 0
IsFreeBalanced s = s.holder ≡ none → IsBalanced s

contains-last : (m : ℕ) (xs : List ℕ) → contains m (xs ++ (m ∷ [])) ≡ true
contains-last m xs = rw (contains-append m xs m) (ground (arith, ==_refl m))

CallStep-IsConsistent :
    (n : ℕ) (r : Option ℕ) {p q : CallPoint} {s t : Shared}
    → CallStep n p s q t
    → IsFreeBalanced s
    → IsConsistent n r p s
    → IsConsistent n r q t × IsFreeBalanced t
CallStep-IsConsistent n r ignore free (out, e) = ((out, rw e tt), free)
CallStep-IsConsistent n r (lock h) free (out, e) = (((refl, e), free h), λ k. grind arith)
CallStep-IsConsistent n r (known h) free ((own, e), b) = (((λ k. grind arith), rw e h), λ k. b)
CallStep-IsConsistent n r (read_count h) free ((own, e), b) = (((own, e), b, h, refl), free)
CallStep-IsConsistent n r (write_count {m = m}) free ((own, e), b, h, v) =
    (((own, e), rw (v, b.0) refl, b.1, h), λ k. grind arith)
CallStep-IsConsistent n r (add {m = m} {s = s}) free ((own, e), c, d, h) = (
  (
    (own, e),
    (
      c ∙ ap pos (omega (arith, length-append s.monitors (m ∷ []))),
      Distinct-append s.monitors m h d,
    ),
    contains-last m s.monitors,
  ),
  λ k. grind arith,
)
CallStep-IsConsistent n r (link alive) free ((own, e), b, h) =
    (((λ k. grind arith), rw e h), λ k. b)
CallStep-IsConsistent n r (unlist {m = m}) free c = elim c [ ]
CallStep-IsConsistent n r read_again free c = elim c [ ]
CallStep-IsConsistent n r (write_again {v = v}) free c = elim c [ ]
CallStep-IsConsistent n r (find_zero h) free c = elim c [ ]
CallStep-IsConsistent n r (find_other h) free c = elim c [ ]
CallStep-IsConsistent n r restore free c = elim c [ ]

-- No other thread holds the lock.
abbrev IsOurs : ℕ → Shared → Type 0
IsOurs n s = (k : ℕ) → k ≢ n → s.holder ≢ some k

-- What a step does to the others: nothing, or they are outside the lock, and no monitor is lost.
data Touches (n : ℕ) (s t : Shared) : Type 0 where
  untouched : t ≡ s → Touches n s t
  ours :
      IsOurs n s
      → IsOurs n t
      → ((x : ℕ) → contains x s.monitors ≡ true → contains x t.monitors ≡ true)
      → Touches n s t

IsOurs-held : (n : ℕ) (s : Shared) → s.holder ≡ some n → IsOurs n s
IsOurs-held n s h = λ k ne e. grind arith

IsOurs-free : (n : ℕ) (s : Shared) → s.holder ≡ none → IsOurs n s
IsOurs-free n s h = λ k ne e. grind arith

CallStep-Touches :
    (n : ℕ) (r : Option ℕ) {p q : CallPoint} {s t : Shared}
    → CallStep n p s q t
    → IsConsistent n r p s
    → Touches n s t
CallStep-Touches n r ignore c = untouched refl
CallStep-Touches n r (lock {s = s} h) c =
    ours (IsOurs-free n s h) (IsOurs-held n (record s { holder = some n }) refl) (λ x e. e)
CallStep-Touches n r (known {s = s} h) c =
    ours (IsOurs-held n s c.0.0) (IsOurs-free n (record s { holder = none }) refl) (λ x k. k)
CallStep-Touches n r (read_count h) c = untouched refl
CallStep-Touches n r (write_count {v = v} {s = s}) c =
    ours (IsOurs-held n s c.0.0) (IsOurs-held n (record s { client_count = increment v }) c.0.0)
      (λ x k. k)
CallStep-Touches n r (add {m = m} {s = s}) c =
    ours (IsOurs-held n s c.0.0)
      (IsOurs-held n (record s { monitors = s.monitors ++ (m ∷ []) }) c.0.0)
      (λ x k. rw (contains-append x s.monitors m, k) refl)
CallStep-Touches n r (link {m = m} {s = s} alive) c =
    ours (IsOurs-held n s c.0.0)
      (IsOurs-free n
        (record s { linked = if alive then s.linked ++ (m ∷ []) else s.linked; holder = none })
        refl)
      (λ x k. k)
CallStep-Touches n r unlist c = elim c [ ]
CallStep-Touches n r read_again c = elim c [ ]
CallStep-Touches n r write_again c = elim c [ ]
CallStep-Touches n r (find_zero h) c = elim c [ ]
CallStep-Touches n r (find_other h) c = elim c [ ]
CallStep-Touches n r restore c = elim c [ ]

IsListed-grows :
    (r : Option ℕ) (xs ys : List ℕ)
    → ((x : ℕ) → contains x xs ≡ true → contains x ys ≡ true)
    → IsListed r xs
    → IsListed r ys
IsListed-grows none xs ys grows l = tt
IsListed-grows (some m) xs ys grows l = grows m l

-- A thread beside the one that steps.
Touches-IsConsistent :
    (n m : ℕ) (r : Option ℕ) (p : CallPoint) {s t : Shared}
    → m ≢ n
    → Touches n s t
    → IsConsistent m r p s
    → IsConsistent m r p t
Touches-IsConsistent n m r p ne (untouched same) c = rw same c
Touches-IsConsistent n m r (registering x) ne (ours before behind grows) (out, e) = (behind m ne, e)
Touches-IsConsistent n m r (checking x) ne (ours before behind grows) c = absurd (before m ne c.0.0)
Touches-IsConsistent n m r (counting x v) ne (ours before behind grows) c =
    absurd (before m ne c.0.0)
Touches-IsConsistent n m r (counted x) ne (ours before behind grows) c = absurd (before m ne c.0.0)
Touches-IsConsistent n m r (linking x) ne (ours before behind grows) c = absurd (before m ne c.0.0)
Touches-IsConsistent n m r (dying x) ne (ours before behind grows) c = c
Touches-IsConsistent n m r unlisted ne (ours before behind grows) c = c
Touches-IsConsistent n m r (discounting v) ne (ours before behind grows) c = c
Touches-IsConsistent n m r discounted ne (ours before behind grows) c = c
Touches-IsConsistent n m r restoring ne (ours before behind grows) c = c
Touches-IsConsistent n m r finished {s = s} {t = t} ne (ours before behind grows) (out, l) =
    (behind m ne, IsListed-grows r s.monitors t.monitors grows l)

record IsOrderly (request : ℕ → Option ℕ) (c : CallThreads) : Type 0 where
  consistent : (n : ℕ) → IsConsistent n (request n) (c.points n) c.shared
  free : IsFreeBalanced c.shared

moved-IsOrderly :
    (request : ℕ → Option ℕ) (n : ℕ) (c : CallThreads) {p : CallPoint} {s : Shared}
    → CallStep n (c.points n) c.shared p s
    → IsOrderly request c
    → IsOrderly request (moved n p s c)
moved-IsOrderly request n c {p} {s} st o =
    let (own, free) = CallStep-IsConsistent n (request n) st o.free (o.consistent n) in
    let touches = CallStep-Touches n (request n) st (o.consistent n) in
    record {
      consistent = λ m. elim (Bool-cases (n == m)) [
        | inl e ↦ rw (e, ← (==_iff n m).0 e) own
        | inr e ↦ rw e (
            Touches-IsConsistent n m (request m) (c.points m) (λ same. ground (arith, ==_iff n m))
              touches (o.consistent m))
      ];
      free = free;
    }

AnyCalls-IsOrderly :
    (request : ℕ → Option ℕ) {c d : CallThreads}
    → AnyCalls c d
    → IsOrderly request c
    → IsOrderly request d
AnyCalls-IsOrderly request stay o = o
AnyCalls-IsOrderly request (after {d = d} r (pick n st)) o =
    moved-IsOrderly request n d st (AnyCalls-IsOrderly request r o)

-- A call that has returned listed its monitor; the others are still to come.
abbrev pub IsRegistered : Option ℕ → CallPoint → List ℕ → Type 0
IsRegistered (some m) finished monitors = contains m monitors ≡ true
IsRegistered r p monitors = Unit {0}

IsConsistent-IsRegistered :
    (n : ℕ) (r : Option ℕ) (p : CallPoint) (s : Shared)
    → IsConsistent n r p s
    → IsRegistered r p s.monitors
IsConsistent-IsRegistered n none p s c = tt
IsConsistent-IsRegistered n (some m) finished s (out, l) = l
IsConsistent-IsRegistered n (some m) (registering x) s c = tt
IsConsistent-IsRegistered n (some m) (checking x) s c = tt
IsConsistent-IsRegistered n (some m) (counting x v) s c = tt
IsConsistent-IsRegistered n (some m) (counted x) s c = tt
IsConsistent-IsRegistered n (some m) (linking x) s c = tt
IsConsistent-IsRegistered n (some m) (dying x) s c = tt
IsConsistent-IsRegistered n (some m) unlisted s c = tt
IsConsistent-IsRegistered n (some m) (discounting v) s c = tt
IsConsistent-IsRegistered n (some m) discounted s c = tt
IsConsistent-IsRegistered n (some m) restoring s c = tt

-- All calls before their first step, with these monitors or null.
abbrev pub all_registering : (ℕ → Option ℕ) → Shared → CallThreads
all_registering request s = record { points = λ n. registering (request n); shared = s }

-- Any number of threads call `registerMonitor` at the same time, with monitors that may be null or
-- the same, while no monitor dies. However their steps interleave, if the account was right and the
-- lock free at the start, then whenever the lock is free `mClientCount` is the number of the monitors
-- in the list and none is listed twice, and the monitor of each call that has returned is listed.
pub registrations-IsBalanced :
    (request : ℕ → Option ℕ) (s : Shared) {c : CallThreads}
    → s.holder ≡ none
    → IsBalanced s
    → AnyCalls (all_registering request s) c
    → c.shared.holder ≡ none
    → IsBalanced c.shared × ((n : ℕ) → IsRegistered (request n) (c.points n) c.shared.monitors)
registrations-IsBalanced request s {c} unheld balanced steps free =
    let o =
      AnyCalls-IsOrderly request steps
        (record { consistent = λ n. ((λ e. grind arith), refl); free = λ e. balanced }) in
    (
      o.free free,
      λ n. IsConsistent-IsRegistered n (request n) (c.points n) c.shared (o.consistent n),
    )
