-- ===== src/ServerListener/Wakeup.antt =====
-- The wake-up pipe of jni/main/ServerListener.cpp: `_LoopRefresh`, which no code calls, and the read
-- in the loop of `run`. In the rounds the pipe is ready if the system says so; here are its bytes.
use mathlib.Core.Option.{bind}
use vr_admin.Prelude.{
  ℕ, zero, suc, ◌+◌, ◌*◌, ◌-◌, ◌≤◌, ◌<◌, ◌≡◌, refl, ap, Bool, ltb, leb, le→leb, if◌then◌else◌,
  Option, none, some, [], ◌++◌, length, length-append, length-drop, drop, ℤ, pos, arith,
}
use vr_admin.CString.{Bytes}

-- A pipe holds at most `capacity` bytes. Its end for writing blocks, and the one for reading does not.
pub record WakeupPipe : Type 0 where
  pub capacity : ℕ
  pub stored : Bytes

-- `_LoopRefresh`, where `one` are the bytes of the int 1; `none` means that it blocks.
unfoldable pub loop_refresh : Bytes → WakeupPipe → Option (WakeupPipe × ℤ)
loop_refresh one pipe =
    if leb (length pipe.stored + length one) pipe.capacity
    then some (record pipe { stored = pipe.stored ++ one }, pos (length one))
    else none

-- The `read` of a round, which takes at most `sizeof(nouse)` bytes.
unfoldable pub read_wakeup : WakeupPipe → WakeupPipe
read_wakeup pipe = record pipe { stored = drop 4 pipe.stored }

-- Whether the pipe is ready for reading, so that `select` returns.
abbrev pub wakes : WakeupPipe → Bool
wakes pipe = ltb 0 (length pipe.stored)

-- A number of calls of `_LoopRefresh`, and of reads.
abbrev pub refresh_times : Bytes → ℕ → WakeupPipe → Option WakeupPipe
refresh_times one zero pipe = some pipe
refresh_times one (suc n) pipe =
    bind (loop_refresh one pipe) (λ (pipe', _). refresh_times one n pipe')

abbrev pub read_times : ℕ → WakeupPipe → WakeupPipe
read_times zero pipe = pipe
read_times (suc n) pipe = read_times n (read_wakeup pipe)

length-read_times :
    (n : ℕ) (pipe : WakeupPipe) → length (read_times n pipe).stored ≡ length pipe.stored - 4 * n
unfolding read_wakeup
length-read_times zero pipe = omega arith
length-read_times (suc n) pipe =
    omega (arith, length-read_times n (read_wakeup pipe), length-drop 4 pipe.stored)

refresh_times_lem :
    (one : Bytes) (n : ℕ) (pipe : WakeupPipe)
    → length one ≡ 4
    → length pipe.stored + 4 * n ≤ pipe.capacity
    → (pipe' : WakeupPipe) × (refresh_times one n pipe ≡ some pipe')
      × (length pipe'.stored ≡ length pipe.stored + 4 * n)
unfolding loop_refresh bind
refresh_times_lem one zero pipe four fits = (pipe, refl, omega arith)
refresh_times_lem one (suc n) pipe four fits =
    let stored = length-append pipe.stored one in
    let (pipe', refreshed, grown) =
      refresh_times_lem one n (record pipe { stored = pipe.stored ++ one }) four (omega arith) in
    (
      pipe',
      rw (le→leb (length pipe.stored + length one) pipe.capacity (omega arith)) refreshed,
      omega arith,
    )

-- If the pipe is empty and has room for them, and an int has four bytes, then any number of
-- calls of `_LoopRefresh` return, and after them just as many reads find the pipe ready.
pub refresh_times-wakes :
    (one : Bytes) (n : ℕ) (pipe : WakeupPipe)
    → length one ≡ 4
    → pipe.stored ≡ []
    → 4 * n ≤ pipe.capacity
    → (pipe' : WakeupPipe) × (refresh_times one n pipe ≡ some pipe')
      × ((k : ℕ) → wakes (read_times k pipe') ≡ ltb k n)
refresh_times-wakes one n pipe four empty fits =
    let none_stored : length pipe.stored ≡ 0 = ap length empty in
    let (pipe', refreshed, grown) = refresh_times_lem one n pipe four (omega arith) in
    (pipe', refreshed, λ k. let left = length-read_times k pipe' in ground arith)

-- A call for a pipe without room blocks.
pub loop_refresh-blocks :
    (one : Bytes) (pipe : WakeupPipe)
    → pipe.capacity < length pipe.stored + length one
    → loop_refresh one pipe ≡ none
unfolding loop_refresh
loop_refresh-blocks one pipe full = ground arith
