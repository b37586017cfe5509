-- ===== src/AdminService/MinuteLock.antt =====
-- `onFar` of VRAdminService.java: each time, it acquires a new wake lock that is released after a
-- minute by itself.
use mathlib.Core.Option.{some-injective}
use vr_admin.Prelude.{
  ℕ, ◌+◌, ◌≤◌, ltb, ◌||◌, ◌≡◌, refl, inl, inr, Bool, true, false, if◌then◌else◌, Option,
  Option-cases, none, some, List, [], ◌∷◌, All, arith,
}
use vr_admin.HmdReceiver.{PSensor, Reading}

-- `SLEEP_DELAY`, in milliseconds.
abbrev sleep_delay : ℕ
sleep_delay = 60000

-- A reading with its time.
abbrev TimedReading : Type 0
TimedReading = ℕ × Reading

-- When the locks that the readings acquire are released.
unfoldable minute_locks : PSensor → List TimedReading → List ℕ
minute_locks s [] = []
minute_locks s ((time, (of_proximity, below)) ∷ rs) =
    let rest = minute_locks s rs in
    if s.registered
    then if of_proximity then if below then rest else (time + sleep_delay) ∷ rest else rest
    else []

abbrev is_held_at : ℕ → List ℕ → Bool
is_held_at t [] = false
is_held_at t (release ∷ releases) = ltb t release || is_held_at t releases

abbrev later_of : ℕ → Option ℕ → Option ℕ
later_of time none = some time
later_of time (some later) = some later

-- The last time at which the sensor was read as far.
abbrev last_far : List TimedReading → Option ℕ
last_far [] = none
last_far ((time, (of_proximity, below)) ∷ rs) =
    let rest = last_far rs in
    if of_proximity then if below then rest else later_of time rest else rest

abbrev AreInOrder : List TimedReading → Type 0
AreInOrder [] = Unit {0}
AreInOrder ((time, r) ∷ rs) = All (λ (later, r'). time ≤ later) rs × AreInOrder rs

last_far-later :
    (time later : ℕ) (rs : List TimedReading)
    → All (λ (u, r). time ≤ u) rs
    → last_far rs ≡ some later
    → time ≤ later
last_far-later time later [] h e = absurd (grind arith)
last_far-later time later ((u, (false, below)) ∷ rs) (hu, h) e = last_far-later time later rs h e
last_far-later time later ((u, (true, true)) ∷ rs) (hu, h) e = last_far-later time later rs h e
last_far-later time later ((u, (true, false)) ∷ rs) (hu, h) e = elim (Option-cases (last_far rs)) [
  | inl n ↦ omega (arith, some-injective _ _ (rw n at e))
  | inr (v, f) ↦ omega (arith, hu, last_far-later time v rs h f, some-injective _ _ (rw f at e))
]

abbrev within_a_minute : ℕ → Option ℕ → Bool
within_a_minute t none = false
within_a_minute t (some far) = ltb t (far + sleep_delay)

-- Where the sensor was found, and the readings come in the order of their times, a lock is held at a
-- time behind them just if the last far reading was less than a minute before.
minute_locks_lem :
    (s : PSensor) (t : ℕ) (rs : List TimedReading)
    → s.registered ≡ true
    → AreInOrder rs
    → is_held_at t (minute_locks s rs) ≡ within_a_minute t (last_far rs)
unfolding minute_locks
minute_locks_lem s t [] found order = refl
minute_locks_lem s t ((time, (false, below)) ∷ rs) found (first, order) =
    rw found (minute_locks_lem s t rs found order)
minute_locks_lem s t ((time, (true, true)) ∷ rs) found (first, order) =
    rw found (minute_locks_lem s t rs found order)
minute_locks_lem s t ((time, (true, false)) ∷ rs) found (first, order) =
    elim (Option-cases (last_far rs)) [
      | inl n ↦ rw (found, minute_locks_lem s t rs found order, n) (ground arith)
      | inr (v, f) ↦
          rw (found, minute_locks_lem s t rs found order, f)
            (ground (arith, last_far-later time v rs first f))
    ]
