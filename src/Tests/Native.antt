-- ===== src/Tests/Native.antt =====
-- Runs of jni/main/VRNativeService.cpp on a system with one file.
use vr_admin.Prelude.{
  ◌≤◌, ◌||◌, ◌≡◌, ◌↔◌, refl, inl, true, eqb_ℤ, if◌then◌else◌, some, List, [], ◌∷◌, ◌++◌, length,
  replicate, ℤ, pos, minus_one, ok, undefined, arith,
}
use vr_admin.CString.{
  Bytes, codes, strcmp, strncmp, c_str, has_terminator, read_c_str, snprintf, digits, format_lu,
  format_d,
}
use vr_admin.NativeService.{
  no_error, err_perm, node_path, check_names, check_numbers, check_access_node_perm,
  sys_call_commands, check_commands, check_syscall_perm, fgets, read_lines, get_system_node,
  set_system_node, system_call,
}
use vr_admin.NativeService.System.{Os}
use vr_admin.NativeService.WhiteList.{AllowedNode, check_access_node_perm_iff}
use vr_admin.NativeService.CommandList.{StartsWith, check_syscall_perm_iff}
use vr_admin.NativeService.Nodes.{get_system_node_overrun}
use vr_admin.NativeService.Commands.{system_call_returns}
use vr_admin.Tests.Data.{is_text, is_text-IsCString}

program : Unit {0}
unfolding strcmp strncmp c_str has_terminator read_c_str snprintf digits format_lu format_d
    node_path check_names check_numbers check_access_node_perm check_commands check_syscall_perm
    fgets read_lines get_system_node set_system_node system_call
program = tt

-- The contents of the file, and the descriptors that are open.
pub record Machine : Type 0 where
  pub content : Bytes
  pub opened : List ℤ

abbrev pub node_file : Bytes
node_file = codes "/sys/devices/system/cpu/cpu2/cpufreq/scaling_min_freq"

unfoldable pub drop_fd : ℤ → List ℤ → List ℤ
drop_fd fd [] = []
drop_fd fd (x ∷ fds) = if eqb_ℤ x fd then fds else x ∷ drop_fd fd fds

abbrev pub linux : Os
linux = record {
  World = Machine;
  access = λ path w. strcmp path node_file || strcmp path (codes "/etc/passwd");
  open_read = λ path w. (pos 6, record w { opened = pos 6 ∷ w.opened });
  open_write = λ path w. (pos 6, record w { opened = pos 6 ∷ w.opened });
  read = λ fd n w. (some w.content, w);
  write = λ fd s w. (pos (length s), record w { content = s });
  close = λ fd w. record w { opened = drop_fd fd w.opened };
  popen = λ cmd w. (some (codes "done"), w);
  pclose = λ w. w;
  property_get = λ key w. ((pos 0, []), w);
  property_set = λ key text w. (pos 0, w);
  sched_setscheduler = λ tid policy pri w. (pos 0, w);
  errno = λ w. pos 0;
}

abbrev pub idle : Machine
idle = record { content = codes "300000"; opened = [] }

set_system_node-allowed :
    set_system_node linux node_file (codes "600000") idle
    ≡ (no_error, record idle { content = codes "600000" })
unfolding program drop_fd
set_system_node-allowed = refl

set_system_node-refused :
    set_system_node linux (codes "/etc/passwd") (codes "root") idle ≡ (err_perm, idle)
unfolding program
set_system_node-refused = refl

get_system_node-allowed :
    get_system_node linux node_file [] idle ≡ ok (no_error, codes "300000", idle)
unfolding program drop_fd
get_system_node-allowed = refl

system_call-refused : system_call linux (codes "rm") [] idle ≡ ok (minus_one, [], idle)
unfolding program
system_call-refused = refl

node_file-AllowedNode : AllowedNode node_file
node_file-AllowedNode = inl (record {
  number = 2;
  in_range = omega arith;
  name = codes "cpufreq/scaling_min_freq";
  known = inl refl;
  spelled = refl;
})

check_access_node_perm_iff_example :
    (check_access_node_perm (some node_file) ≡ true) ↔ AllowedNode node_file
check_access_node_perm_iff_example = check_access_node_perm_iff node_file

check_syscall_perm_iff_example :
    (check_syscall_perm (some (codes "rm -r /")) ≡ true)
    ↔ StartsWith sys_call_commands (codes "rm -r /")
check_syscall_perm_iff_example = check_syscall_perm_iff (codes "rm -r /")

abbrev long_file : Machine
long_file = record { content = replicate 128 b'1'; opened = [] }

get_system_node_overrun_example : get_system_node linux node_file [] long_file ≡ undefined
unfolding strcmp is_text
get_system_node_overrun_example =
    get_system_node_overrun linux node_file [] (replicate 128 b'1') long_file refl
      node_file-AllowedNode refl refl (omega arith) (is_text-IsCString (replicate 128 b'1') refl)

system_call_returns_example :
    (text : Bytes) × (length text ≤ 4)
    × (system_call linux (codes "dfu-util -l") (codes "> ") idle
        ≡ ok (pos (length text), codes "> " ++ text, idle))
unfolding program
system_call_returns_example =
    system_call_returns linux (codes "dfu-util -l") (codes "> ") (codes "done") idle idle refl refl
      (omega arith)
