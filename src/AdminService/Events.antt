-- ===== src/AdminService/Events.antt =====
-- What happens to the monitors of VRAdminService.
use vr_admin.Prelude.{
  ℕ, ◌≡◌, ◌≢◌, refl, ◌∙◌, ap, ==_iff, Bool, true, false, Bool-cases, inl, inr, if◌then◌else◌,
  Option, none, some, List, [], ◌∷◌, length, pos, eqb_ℤ, arith,
}
use vr_admin.AdminService.{VrAdminService, contains, link_to_death}
use vr_admin.AdminService.Monitors.{
  contains-append, contains-remove_other, Counted, added, unlinked, added-Counted, unlinked-Counted,
}

-- A client registers a monitor, which may be dead by then; or the process of a monitor dies, which
-- the service is told of if it was linked, and no more after that.
pub data MonitorEvent : Type 0 where
  registers : Option ℕ → Bool → MonitorEvent
  dies : ℕ → MonitorEvent

abbrev pub none_left : List ℕ → Bool
none_left [] = true
none_left (x ∷ xs) = false

abbrev pub after : MonitorEvent → VrAdminService → VrAdminService
after (registers none alive) s = s
after (registers (some m) alive) s =
    if contains m s.monitors then s else link_to_death alive m (added m s)
after (dies m) s = if contains m s.linked then unlinked m s else s

abbrev pub all_after : List MonitorEvent → VrAdminService → VrAdminService
all_after [] s = s
all_after (e ∷ es) s = all_after es (after e s)

pub after-Counted : (e : MonitorEvent) (s : VrAdminService) → Counted s → Counted (after e s)
after-Counted (registers none alive) s c = c
after-Counted (registers (some m) alive) s c = elim (Bool-cases (contains m s.monitors)) [
  | inl e ↦ rw e c
  | inr e ↦ rw e (added-Counted m alive s e c)
]
after-Counted (dies m) s c = elim (Bool-cases (contains m s.linked)) [
  | inl e ↦ rw e (unlinked-Counted m s e c)
  | inr e ↦ rw e c
]

-- A monitor that is listed and not linked.
abbrev pub Stuck : ℕ → VrAdminService → Type 0
Stuck m s = (contains m s.monitors ≡ true) × (contains m s.linked ≡ false)

pub apart_other : (m x : ℕ) (xs : List ℕ) → contains x xs ≡ true → contains m xs ≡ false → m ≢ x
apart_other m x xs h apart e = ground (arith, ap (λ y. contains y xs) e)

pub none_left-contains : (m : ℕ) (xs : List ℕ) → contains m xs ≡ true → none_left xs ≡ false
unfolding contains
none_left-contains m [] h = cc
none_left-contains m (x ∷ xs) h = refl

pub counted_positive :
    (m : ℕ) (xs : List ℕ) → contains m xs ≡ true → eqb_ℤ (pos (length xs)) (pos 0) ≡ false
unfolding contains
counted_positive m [] h = cc
counted_positive m (x ∷ xs) h = ground arith

pub after-Stuck : (m : ℕ) (e : MonitorEvent) (s : VrAdminService) → Stuck m s → Stuck m (after e s)
after-Stuck m (registers none alive) s h = h
after-Stuck m (registers (some x) alive) s (listed, apart) =
    elim (Bool-cases (contains x s.monitors)) [
      | inl e ↦ rw e (listed, apart)
      | inr e ↦ rw e (linking e alive)
    ]
  where
    linking :
        contains x s.monitors ≡ false → (alive : Bool) → Stuck m (link_to_death alive x (added x s))
    linking e true = (
      rw (contains-append m s.monitors x, listed) refl,
      rw (contains-append m s.linked x, apart)
          (ground (arith, apart_other x m s.monitors listed e, ==_iff x m)),
    )
    linking e false = (rw (contains-append m s.monitors x, listed) refl, apart)
after-Stuck m (dies x) s (listed, apart) = elim (Bool-cases (contains x s.linked)) [
  | inl e ↦
      let other : m ≢ x = apart_other m x s.linked e apart in
      rw e (
        contains-remove_other m x s.monitors other ∙ listed,
        contains-remove_other m x s.linked other ∙ apart,
      )
  | inr e ↦ rw e (listed, apart)
]

pub all_after-Stuck :
    (m : ℕ) (es : List MonitorEvent) (s : VrAdminService) → Stuck m s → Stuck m (all_after es s)
all_after-Stuck m [] s h = h
all_after-Stuck m (e ∷ es) s h = all_after-Stuck m es (after e s) (after-Stuck m e s h)
