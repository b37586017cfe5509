-- ===== src/Tests/Concurrent.antt =====
-- Calls of src/com/android/VRAdmin/VRAdminService.java at the same time.
use vr_admin.Prelude.{ℕ, ◌==◌, refl, true, if◌then◌else◌, Option, none, some, [], ◌∷◌, pos, arith}
use vr_admin.AdminService.{contains, remove}
use vr_admin.AdminService.Concurrent.{
  registering, dying, Shared, lock, read_count, write_count, add, link, known, ignore, CallThreads,
  AnyCalls, stay, after, pick,
}
use vr_admin.AdminService.Concurrent.Registrations.{
  IsBalanced, IsRegistered, all_registering, registrations-IsBalanced,
}
use vr_admin.AdminService.Concurrent.LostDeath.{Lost, death-Lost}

program : Unit {0}
unfolding contains remove
program = tt

abbrev no_monitors : Shared
no_monitors = record {
  holder = none;
  client_count = pos 0;
  monitors = [];
  linked = [];
  restored = 0;
}

-- The threads 0 and 1 register the same monitor, 2 registers null, and all others another.
abbrev request : ℕ → Option ℕ
request n = if n == 2 then none else if n == 0 then some 7 else if n == 1 then some 7 else some 9

-- 0 registers, 2 returns in between, and then 1 finds the monitor in the list.
two_registrations : (c : CallThreads) × AnyCalls (all_registering request no_monitors) c
unfolding program
two_registrations = (
  _,
  after
      (after
        (after
          (after
            (after
              (after (after (after stay (pick 0 (lock refl))) (pick 0 (read_count refl)))
                (pick 2 ignore))
              (pick 0 write_count))
            (pick 0 add))
          (pick 0 (link true)))
        (pick 1 (lock refl)))
      (pick 1 (known refl)),
)

registrations-IsBalanced_example :
    IsBalanced two_registrations.0.shared
    × ((n : ℕ)
        → IsRegistered
            (request n)
            (two_registrations.0.points n)
            two_registrations.0.shared.monitors)
unfolding program two_registrations
registrations-IsBalanced_example =
    registrations-IsBalanced request no_monitors refl (refl, tt) two_registrations.1 refl

-- The monitor 7 is listed and dies, while 9 is being registered.
abbrev one_monitor : Shared
one_monitor = record no_monitors { client_count = pos 1; monitors = 7 ∷ []; linked = 7 ∷ [] }

abbrev death_and_registration : CallThreads
death_and_registration = record {
  points = λ n. if n == 0 then registering (some 9) else dying 7;
  shared = one_monitor;
}

death-Lost_example : (d : CallThreads) × Lost 0 1 7 9 death_and_registration d
unfolding program
death-Lost_example =
    death-Lost 0 1 7 9 death_and_registration (λ e. ground arith) refl (refl, (refl, tt)) refl refl
      refl refl
