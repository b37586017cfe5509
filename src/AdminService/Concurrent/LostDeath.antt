-- ===== src/AdminService/Concurrent/LostDeath.antt =====
-- A registration and a death at the same time: `binderDied` takes no lock, so that the death can be
-- lost to the count.
use mathlib.Core.Path.{subst}
use vr_admin.Prelude.{
  ℕ, suc, ==_iff, ==_refl, ◌≡◌, ◌≢◌, refl, ◌∙◌, sym, ap, true, false, eqb_ℤ, none, some, [], ◌∷◌,
  ◌++◌, length, length-append, pos, arith,
}
use vr_admin.AdminService.{contains, remove, increment, decrement}
use vr_admin.AdminService.Monitors.{length-remove}
use vr_admin.AdminService.Concurrent.{
  CallPoint, registering, counting, dying, discounted, finished, Shared, CallStep, lock, read_count,
  write_count, add, link, unlist, read_again, write_again, find_other, CallThreads, moved, pick,
  AnyCalls, stay, after,
}
use vr_admin.AdminService.Concurrent.Registrations.{IsBalanced}

-- Steps of one thread.
data CallSteps (n : ℕ) (p : CallPoint) (s : Shared) : CallPoint → Shared → Type 0 where
  here : CallSteps n p s p s
  next :
      {q r : CallPoint} {t u : Shared}
      → CallSteps n p s q t
      → CallStep n q t r u
      → CallSteps n p s r u

record Lifted (n : ℕ) (c : CallThreads) (p : CallPoint) (s : Shared) : Type 0 where
  to : CallThreads
  steps : AnyCalls c to
  point : to.points n ≡ p
  shared : to.shared ≡ s
  others : (m : ℕ) → n ≢ m → to.points m ≡ c.points m

CallSteps-Lifted :
    (n : ℕ) (c : CallThreads) {p : CallPoint} {s : Shared} {q : CallPoint} {t : Shared}
    → CallSteps n p s q t
    → c.points n ≡ p
    → c.shared ≡ s
    → Lifted n c q t
CallSteps-Lifted n c here e f = record {
  to = c;
  steps = stay;
  point = e;
  shared = f;
  others = λ m ne. refl;
}
CallSteps-Lifted n c (next {q = q} {r = r} {u = u} steps st) e f =
    let l = CallSteps-Lifted n c steps e f in
    record {
      to = moved n r u l.to;
      steps = after l.steps (
          pick n (
            subst (λ x. CallStep n x l.to.shared r u) (sym l.point)
              (subst (λ x. CallStep n q x r u) (sym l.shared) st)));
      point = rw (==_refl n) refl;
      shared = refl;
      others = λ m ne. ground (arith, ==_iff n m, l.others m ne);
    }

join : {c d e : CallThreads} → AnyCalls c d → AnyCalls d e → AnyCalls c e
join r stay = r
join r (after q st) = after (join r q) st

-- Both calls have returned, and the death is not counted.
pub record Lost (n k a b : ℕ) (c : CallThreads) (d : CallThreads) : Type 0 where
  pub steps : AnyCalls c d
  pub registered : d.points n ≡ finished
  pub died : d.points k ≡ finished
  pub unheld : d.shared.holder ≡ none
  pub listed : d.shared.monitors ≡ remove a c.shared.monitors ++ (b ∷ [])
  pub too_many : d.shared.client_count ≡ pos (suc (length d.shared.monitors))
  pub unrestored : d.shared.restored ≡ c.shared.restored

module _ (n k a b : ℕ) (apart : n ≢ k) (s : Shared) (free : s.holder ≡ none)
    (balanced : IsBalanced s) (old : contains a s.monitors ≡ true)
    (new : contains b s.monitors ≡ false) where
  -- After the registration has read the count, after the death has written it, and after the
  -- registration has written it.
  abbrev begun : Shared
  begun = record s { holder = some n }

  abbrev dead : Shared
  dead = record begun {
    monitors = remove a s.monitors;
    linked = remove a s.linked;
    client_count = decrement s.client_count;
  }

  abbrev ended : Shared
  ended = record dead {
    client_count = increment s.client_count;
    monitors = remove a s.monitors ++ (b ∷ []);
    linked = remove a s.linked ++ (b ∷ []);
    holder = none;
  }

  begins : CallSteps n (registering (some b)) s (counting b s.client_count) begun
  begins = next (next here (lock free)) (read_count new)

  dies : CallSteps k (dying a) begun discounted dead
  dies = next (next (next here unlist) read_again) write_again

  registration_ends : CallSteps n (counting b s.client_count) dead finished ended
  registration_ends = next (next (next here write_count) add) (link true)

  not_zero : eqb_ℤ (pos 0) (increment s.client_count) ≡ false
  not_zero = rw balanced.0 (ground arith)

  decides : CallSteps k discounted ended finished ended
  decides = next here (find_other not_zero)

  length-ended : increment s.client_count ≡ pos (suc (length ended.monitors))
  length-ended = rw balanced.0 (
      ap pos (
        omega
          (arith, length-append (remove a s.monitors) (b ∷ []), length-remove a s.monitors old)))

  both :
      (c : CallThreads)
      → c.points n ≡ registering (some b)
      → c.points k ≡ dying a
      → c.shared ≡ s
      → (d : CallThreads) × Lost n k a b c d
  both c at_n at_k same =
      let l = CallSteps-Lifted n c begins at_n same in
      let m = CallSteps-Lifted k l.to dies (l.others k apart ∙ at_k) l.shared in
      let o =
        CallSteps-Lifted n m.to registration_ends (m.others n (λ e. apart (sym e)) ∙ l.point)
          m.shared in
      let p = CallSteps-Lifted k o.to decides (o.others k apart ∙ m.point) o.shared in
      (
        p.to,
        record {
          steps = join (join (join l.steps m.steps) o.steps) p.steps;
          registered = p.others n (λ e. apart (sym e)) ∙ o.point;
          died = p.point;
          unheld = ap (λ x. x.holder) p.shared;
          listed = rw (p.shared, same) refl;
          too_many = rw p.shared length-ended;
          unrestored = rw (p.shared, same) refl;
        },
      )

-- The account can go wrong: where it was right and the lock free, let one thread be about to register
-- a monitor that is not listed, and another to handle the death of one that is. Then some steps lead
-- to where both calls have returned, the lock is free, the dead monitor is gone from the list and the
-- new one in it, and yet `mClientCount` is one more than the number of the monitors, and nothing was
-- restored: the death was not counted.
pub death-Lost :
    (n k a b : ℕ) (c : CallThreads)
    → n ≢ k
    → c.shared.holder ≡ none
    → IsBalanced c.shared
    → contains a c.shared.monitors ≡ true
    → contains b c.shared.monitors ≡ false
    → c.points n ≡ registering (some b)
    → c.points k ≡ dying a
    → (d : CallThreads) × Lost n k a b c d
death-Lost n k a b c apart free balanced old new at_n at_k =
    both n k a b apart c.shared free balanced old new c at_n at_k refl
