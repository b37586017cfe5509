-- ===== src/NativeService.antt =====
-- jni/main/VRNativeService.h and VRNativeService.cpp: the privileged service behind the binder, with
-- the result codes of jni/binder/IVRNativeService.h.
pub mod System
pub mod WhiteList
pub mod CommandList
pub mod Nodes
pub mod Commands
use vr_admin.Prelude.{
  ℕ, zero, suc, ◌+◌, Bool, true, false, not, ltb_ℤ, eqb_ℤ, leb, ◌==◌, if◌then◌else◌, Option, none,
  some, List, [], ◌∷◌, ◌++◌, length, take, drop, replicate, ℤ, pos, negsuc, minus_one, minus_two,
  minus_three, minus_four, Exec, ok, undefined, ◌>>=◌, ◌^◌, ◌-◌,
}
use vr_admin.CString.{Bytes, codes, c_str, read_c_str, strcmp, strncmp, snprintf, format_d}
use System.{Os}

abbrev pub no_error : ℤ
no_error = pos 0

abbrev err_parm : ℤ
err_parm = minus_one

abbrev pub err_perm : ℤ
err_perm = minus_two

abbrev pub err_nofound : ℤ
err_nofound = minus_three

abbrev pub err_rdwr : ℤ
err_rdwr = minus_four

abbrev pub cpu_node_names : List Bytes
cpu_node_names =
    codes "cpufreq/scaling_min_freq"
    ∷ codes "cpufreq/scaling_available_frequencies"
    ∷ codes "cpufreq/scaling_cur_freq"
    ∷ []

abbrev pub gpu_node_names : List Bytes
gpu_node_names = codes "msm_cmd_autorefresh_en" ∷ []

-- `snprintf(buffer, 127, "<prefix>%d/%s", i, name)`.
unfoldable pub node_path : Bytes → ℕ → Bytes → Bytes
unfolding snprintf format_d
node_path prefix i name = snprintf 127 (prefix ++ (format_d (pos i) ++ (b'/' ∷ name)))

-- The inner loop, over the names.
unfoldable pub check_names : Bytes → ℕ → List Bytes → Bytes → Bool
check_names prefix i [] path = false
check_names prefix i (name ∷ names) path =
    if strcmp (node_path prefix i name) path then true else check_names prefix i names path

-- The outer loop from `i` on, with the rounds that are left.
unfoldable pub check_numbers : Bytes → ℕ → ℕ → List Bytes → Bytes → Bool
check_numbers prefix zero i names path = false
check_numbers prefix (suc left) i names path =
    let rest = check_numbers prefix left (suc i) names path in
    if check_names prefix i names path then true else rest

abbrev pub cpu_prefix : Bytes
cpu_prefix = codes "/sys/devices/system/cpu/cpu"

abbrev pub gpu_prefix : Bytes
gpu_prefix = codes "/sys/devices/virtual/graphics/fb"

-- `_CheckAccessNodePerm`: 10 CPUs with 3 nodes each, and 4 frame buffers with 1.
unfoldable pub check_access_node_perm : Option Bytes → Bool
check_access_node_perm none = false
check_access_node_perm (some nodepath) =
    if check_numbers cpu_prefix 10 0 cpu_node_names nodepath
    then true
    else check_numbers gpu_prefix 4 0 gpu_node_names nodepath

abbrev pub sys_call_commands : List Bytes
sys_call_commands = codes "dfu-util" ∷ codes "service call" ∷ []

unfoldable pub check_commands : List Bytes → Bytes → Bool
unfolding strncmp
check_commands [] cmd = false
check_commands (temp ∷ commands) cmd =
    if strncmp temp cmd (length temp) then true else check_commands commands cmd

-- `_CheckSyscallPerm`.
unfoldable pub check_syscall_perm : Option Bytes → Bool
check_syscall_perm none = false
check_syscall_perm (some cmd) = check_commands sys_call_commands cmd

-- `fgets(line, n + 1, fp)`: up to n bytes, and none behind a line feed; with the rest of the stream.
unfoldable pub fgets : ℕ → Bytes → Bytes × Bytes
fgets zero s = ([], s)
fgets (suc n) [] = ([], [])
fgets (suc n) (c ∷ s) =
    let (line, rest) = fgets n s in if c == 10 then (c ∷ [], s) else (c ∷ line, rest)

-- The loop over `fgets` with fuel: the result and the sum of the lengths; `none` means that the fuel
-- ran out.
unfoldable pub read_lines : ℕ → Bytes → Bytes → ℕ → Option (Bytes × ℕ)
read_lines zero stream result sum = none
read_lines (suc fuel) [] result sum = some (result, sum)
read_lines (suc fuel) (c ∷ s) result sum =
    let (line, rest) = fgets 1023 (c ∷ s) in
    read_lines fuel rest (result ++ c_str line) (sum + length (c_str line))

-- The instance: the object that events are reported to.
pub record VrNativeService {ℓ} (Event : Type ℓ) : Type ℓ where
  pub post_event : Option Event

-- `getSingleInstance`, on the static pointer: the instance is made at the first call.
unfoldable pub get_single_instance {ℓ} :
    {Event : Type ℓ} → Option (VrNativeService Event) → VrNativeService Event
get_single_instance none = record { post_event = none }
get_single_instance (some s) = s

-- `setPostEventObj`.
unfoldable pub set_post_event_obj {ℓ} :
    {Event : Type ℓ} → Option Event → VrNativeService Event → ℤ × VrNativeService Event
set_post_event_obj event s = (pos 0, record s { post_event = event })

abbrev pub int_max : ℕ
int_max = 2 ^ 31 - 1

-- `errno * -1`.
abbrev negate : ℤ → ℤ
negate (pos zero) = pos 0
negate (pos (suc n)) = negsuc n
negate (negsuc n) = pos (suc n)

module _ (os : Os) where
  open os use {
    World, access, open_read, open_write, read, write, close, popen, pclose, property_get,
    property_set, sched_setscheduler, errno,
  }

  -- A result, the text that the caller passed by reference, and the system after the call.
  abbrev pub Answer : Type 0
  Answer = Exec (ℤ × Bytes × World)

  abbrev finish_read : ℤ → Bytes → Option Bytes × World → Answer
  finish_read fd value (none, w) = ok (err_rdwr, value, close fd w)
  finish_read fd value (some s, w) = do
    text ← read_c_str (take 128 s ++ drop (length (take 128 s)) (replicate 128 0))
    ok (no_error, text, close fd w)

  abbrev read_node : Bytes → ℤ × World → Answer
  read_node value (fd, w) =
      if ltb_ℤ fd (pos 0) then ok (err_perm, value, w) else finish_read fd value (read fd 128 w)

  -- `getSystemNode`.
  unfoldable pub get_system_node : Bytes → Bytes → World → Answer
  get_system_node path value w =
      if not (access path w)
      then ok (err_nofound, value, w)
      else if not (check_access_node_perm (some path))
      then ok (err_perm, value, w)
      else read_node value (open_read path w)

  abbrev finish_write : ℤ → ℤ × World → ℤ × World
  finish_write fd (ret, w) = (if ltb_ℤ ret (pos 0) then err_rdwr else no_error, close fd w)

  abbrev write_node : Bytes → ℤ × World → ℤ × World
  write_node value (fd, w) =
      if ltb_ℤ fd (pos 0) then (err_perm, w) else finish_write fd (write fd value w)

  -- `setSystemNode`.
  unfoldable pub set_system_node : Bytes → Bytes → World → ℤ × World
  set_system_node path value w =
      if not (access path w)
      then (err_nofound, w)
      else if not (check_access_node_perm (some path))
      then (err_perm, w)
      else write_node value (open_write path w)

  -- An `int` sum past its largest value is undefined; it is reached at some line if the total is.
  abbrev total : World → Option (Bytes × ℕ) → Answer
  total w none = undefined
  total w (some (result, sum)) =
      if leb sum int_max then ok (pos sum, result, pclose w) else undefined

  abbrev run_command : Bytes → Option Bytes × World → Answer
  run_command result (none, w) = ok (minus_one, result, w)
  run_command result (some stream, w) = total w (read_lines (suc (length stream)) stream result 0)

  -- `systemCall`, which appends what the command prints to `result`.
  unfoldable pub system_call : Bytes → Bytes → World → Answer
  system_call cmd result w =
      if not (check_syscall_perm (some cmd))
      then ok (minus_one, result, w)
      else run_command result (popen cmd w)

  abbrev got_property : Bytes → (ℤ × Bytes) × World → ℤ × Bytes × World
  got_property value ((status, text), w) =
      if ltb_ℤ status (pos 0) then (minus_one, value, w) else (status, text, w)

  -- `getProperty`.
  unfoldable pub get_property : Bytes → Bytes → World → ℤ × Bytes × World
  get_property key value w = got_property value (property_get key w)

  abbrev status_of : ℤ × World → ℤ × World
  status_of (status, w) = if ltb_ℤ status (pos 0) then (minus_one, w) else (status, w)

  -- `setProperty`.
  unfoldable pub set_property : Bytes → Bytes → World → ℤ × World
  set_property key value w = status_of (property_set key value w)

  abbrev scheduled : ℤ × World → ℤ × World
  scheduled (ret, w) = (if eqb_ℤ ret (pos 0) then pos 0 else negate (errno w), w)

  -- `setThreadScheduler`.
  unfoldable pub set_thread_scheduler : ℤ → ℤ → ℤ → World → ℤ × World
  set_thread_scheduler tid policy pri w = scheduled (sched_setscheduler tid policy pri w)
