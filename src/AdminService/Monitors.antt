-- ===== src/AdminService/Monitors.antt =====
-- The list of the monitors of VRAdminService.
use vr_admin.Prelude.{
  ℕ, suc, ◌≡◌, ◌≢◌, refl, ◌∙◌, ap, sym, ◌==◌, ==_iff, Bool, true, false, ◌||◌, Bool-cases, inl, inr,
  List, [], ◌∷◌, ◌++◌, length, length-append, pos, arith,
}
use vr_admin.AdminService.{VrAdminService, contains, remove, increment, decrement, link_to_death}

pub contains-append :
    (x : ℕ) (xs : List ℕ) (y : ℕ) → contains x (xs ++ (y ∷ [])) ≡ contains x xs || (y == x)
unfolding contains
contains-append x [] y = ground arith
contains-append x (z ∷ xs) y = ground (arith, contains-append x xs y)

pub contains-remove_other :
    (x m : ℕ) (xs : List ℕ) → (x ≢ m) → contains x (remove m xs) ≡ contains x xs
unfolding contains remove
contains-remove_other x m [] ne = refl
contains-remove_other x m (y ∷ xs) ne = ground (arith, contains-remove_other x m xs ne)

pub length-remove :
    (m : ℕ) (xs : List ℕ) → contains m xs ≡ true → suc (length (remove m xs)) ≡ length xs
unfolding contains remove
length-remove m [] h = cc
length-remove m (y ∷ xs) h = elim (Bool-cases (y == m)) [
  | inl e ↦ rw e refl
  | inr e ↦ rw e (ap suc (length-remove m xs (rw e at h)))
]

abbrev pub Distinct : List ℕ → Type 0
Distinct [] = Unit {0}
Distinct (x ∷ xs) = (contains x xs ≡ false) × Distinct xs

pub contains-remove : (m : ℕ) (xs : List ℕ) → Distinct xs → contains m (remove m xs) ≡ false
unfolding contains remove
contains-remove m [] d = refl
contains-remove m (y ∷ xs) (new, d) = elim (Bool-cases (y == m)) [
  | inl e ↦ rw (e, ← (==_iff y m).0 e, new)
  | inr e ↦ rw (e, e, contains-remove m xs d) refl
]

pub Distinct-append :
    (xs : List ℕ) (y : ℕ) → contains y xs ≡ false → Distinct xs → Distinct (xs ++ (y ∷ []))
unfolding contains
Distinct-append [] y new d = (refl, tt)
Distinct-append (x ∷ xs) y new (first, d) = elim (Bool-cases (x == y)) [
  | inl e ↦ cc
  | inr e ↦ (
    rw (contains-append x xs y, first) (ground (arith, ==_iff x y, ==_iff y x)),
    Distinct-append xs y (rw e at new) d,
  )
]

pub Distinct-remove : (m : ℕ) (xs : List ℕ) → Distinct xs → Distinct (remove m xs)
unfolding contains remove
Distinct-remove m [] d = tt
Distinct-remove m (y ∷ xs) (new, d) = elim (Bool-cases (y == m)) [
  | inl e ↦ rw e d
  | inr e ↦
      rw e (
        contains-remove_other y m xs (λ s. ground (arith, ==_iff y m)) ∙ new,
        Distinct-remove m xs d,
      )
]

-- The count is that of the monitors, none is listed twice, and those that are linked are listed.
pub record Counted (s : VrAdminService) : Type 0 where
  pub counted : s.client_count ≡ pos (length s.monitors)
  pub distinct : Distinct s.monitors
  pub linked_distinct : Distinct s.linked
  pub known : (x : ℕ) → contains x s.linked ≡ true → contains x s.monitors ≡ true

abbrev pub added : ℕ → VrAdminService → VrAdminService
added m s = record s { client_count = increment s.client_count; monitors = s.monitors ++ (m ∷ []) }

abbrev pub unlinked : ℕ → VrAdminService → VrAdminService
unlinked m s = record s {
  monitors = remove m s.monitors;
  linked = remove m s.linked;
  client_count = decrement s.client_count;
}

pub added-Counted :
    (m : ℕ) (alive : Bool) (s : VrAdminService)
    → contains m s.monitors ≡ false
    → Counted s
    → Counted (link_to_death alive m (added m s))
added-Counted m alive s new c = linking alive
  where
    count : increment s.client_count ≡ pos (length (s.monitors ++ (m ∷ [])))
    count = rw c.counted (ap pos (omega (arith, length-append s.monitors (m ∷ []))))

    listed :
        (x : ℕ)
        → contains x s.linked || (m == x) ≡ true
        → contains x (s.monitors ++ (m ∷ [])) ≡ true
    listed x h = rw (contains-append x s.monitors m) (ground (arith, c.known x))

    linking : (alive : Bool) → Counted (link_to_death alive m (added m s))
    linking true = record {
      counted = count;
      distinct = Distinct-append s.monitors m new c.distinct;
      linked_distinct =
          Distinct-append s.linked m (ground (arith, c.known m, new)) c.linked_distinct;
      known = λ x h. listed x (sym (contains-append x s.linked m) ∙ h);
    }
    linking false = record {
      counted = count;
      distinct = Distinct-append s.monitors m new c.distinct;
      linked_distinct = c.linked_distinct;
      known = λ x h. listed x (ground arith);
    }

pub unlinked-Counted :
    (m : ℕ) (s : VrAdminService) → contains m s.linked ≡ true → Counted s → Counted (unlinked m s)
unlinked-Counted m s h c = record {
  counted = rw (c.counted, ← length-remove m s.monitors (c.known m h)) refl;
  distinct = Distinct-remove m s.monitors c.distinct;
  linked_distinct = Distinct-remove m s.linked c.linked_distinct;
  known = λ x h'. elim (Bool-cases (x == m)) [
    | inl e ↦
        let same = (==_iff x m).0 e in
        absurd (ground (arith, contains-remove m s.linked c.linked_distinct, same, h'))
    | inr e ↦
        let other : x ≢ m = λ s. ground (arith, ==_iff x m) in
        contains-remove_other x m s.monitors other
        ∙ c.known x (sym (contains-remove_other x m s.linked other) ∙ h')
  ];
}
