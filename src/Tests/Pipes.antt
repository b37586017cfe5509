-- ===== src/Tests/Pipes.antt =====
-- The wake-up pipe of jni/main/ServerListener.cpp, with room for two numbers.
use vr_admin.Prelude.{◌≡◌, refl, true, false, some, none, [], ◌∷◌, pos}
use vr_admin.CString.{Bytes}
use vr_admin.ServerListener.Wakeup.{WakeupPipe, loop_refresh, read_wakeup, wakes, read_times}

abbrev one : Bytes
one = 1 ∷ 0 ∷ 0 ∷ 0 ∷ []

abbrev empty : WakeupPipe
empty = record { capacity = 8; stored = [] }

abbrev full : WakeupPipe
full = record empty { stored = 1 ∷ 0 ∷ 0 ∷ 0 ∷ 1 ∷ 0 ∷ 0 ∷ 0 ∷ [] }

refreshed_once : loop_refresh one empty ≡ some (record empty { stored = one }, pos 4)
unfolding loop_refresh
refreshed_once = refl

refreshed_full : loop_refresh one full ≡ none
unfolding loop_refresh
refreshed_full = refl

read_twice : (wakes (read_times 1 full) ≡ true) × (wakes (read_times 2 full) ≡ false)
unfolding read_wakeup
read_twice = (refl, refl)
