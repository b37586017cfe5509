-- ===== src/Tests/Ipc.antt =====
-- Calls through the proxies of the binder and the native methods.
use mathlib.Core.Bool.{false≢true}
use mathlib.Core.Option.{some-injective}
use mathlib.Core.Path.{subst}
use vr_admin.Prelude.{
  ℕ, ◌≡◌, ◌≢◌, ◌<◌, refl, Option, none, some, [], length, ℤ, pos, minus_one, Exec, ok, undefined,
  arith,
}
use vr_admin.CString.{
  Bytes, codes, strcmp, strncmp, c_str, has_terminator, read_c_str, snprintf, digits, format_lu,
  format_d,
}
use vr_admin.CString.Compare.{strcmp_iff}
use vr_admin.NativeService.{
  VrNativeService, no_error, node_path, check_names, check_numbers, check_access_node_perm,
  check_commands, check_syscall_perm, fgets, read_lines, get_system_node, set_system_node,
  system_call, get_property, set_property, set_thread_scheduler, set_post_event_obj,
}
use vr_admin.NativeService.Nodes.{WriteSession, WriteResults, Reads}
use vr_admin.Binder.Remote.{remote, Forwards, native_proxy-Forwards}
use vr_admin.Binder.{
  NativeInterface, first_second_third, third_second_first, arguments, Remote, native_descriptor,
  event_descriptor, native_transact,
}
use vr_admin.Binder.Post.{event_transact}
use vr_admin.Server.{State}
use vr_admin.Server.Access.{client}
use vr_admin.Jni.{
  JString, native_setup, native_get_system_node, native_set_system_node, native_system_call,
  native_get_property, native_set_property, native_set_thread_scheduler,
}
use vr_admin.Jni.Access.{java_set_system_node, java_get_system_node}
use vr_admin.Tests.Native.{linux, idle, node_file, Machine, drop_fd}
use vr_admin.Tests.Queues.{token_read, text_read, number_read, event_read, queues, queue_laws}

abbrev pub unknown_code : {World : Type 0} → Remote queues World
unknown_code code packed reply w = ok (minus_one, reply, w)

abbrev pub object : VrNativeService ℕ
object = record { post_event = none }

-- The characters of a Java string; null is as JNI has it.
abbrev pub strict_chars : JString → Exec (Option Bytes)
strict_chars none = undefined
strict_chars (some s) = ok (some s)

abbrev vrserver : NativeInterface ℕ (State linux ℕ)
vrserver = client queues queue_laws linux first_second_third unknown_code

program : Unit {0}
unfolding strcmp strncmp c_str has_terminator read_c_str snprintf digits format_lu format_d
    node_path check_names check_numbers check_access_node_perm check_commands check_syscall_perm
    fgets read_lines get_system_node set_system_node system_call get_property set_property
    set_thread_scheduler set_post_event_obj drop_fd token_read text_read number_read event_read
    arguments native_transact event_transact native_setup native_get_system_node
    native_set_system_node native_system_call native_get_property native_set_property
    native_set_thread_scheduler
program = tt

vrserver-set_node :
    vrserver.set_node node_file (codes "600000") (idle, object)
    ≡ ok (no_error, (record idle { content = codes "600000" }, object))
unfolding program
vrserver-set_node = refl

vrserver-get_node :
    vrserver.get_node node_file (codes "old") (idle, object)
    ≡ ok (no_error, codes "300000", (idle, object))
unfolding program
vrserver-get_node = refl

vrserver-set_post_event :
    vrserver.set_post_event (some 7) (idle, object)
    ≡ ok (pos 0, (idle, record { post_event = some 7 }))
unfolding program
vrserver-set_post_event = refl

java_get-refused :
    native_get_system_node strict_chars ℕ
      (State linux ℕ)
      (some vrserver)
      (some (codes "/etc/passwd"))
      (idle, object)
    ≡ ok ([], (idle, object))
unfolding program
java_get-refused = refl

-- A service that notes the thread, the policy and the priority that it is called with.
abbrev Noted : Type 0
Noted = ℤ × ℤ × ℤ

abbrev noting : NativeInterface ℕ Noted
noting = record {
  get_node = λ path value w. ok (pos 0, value, w);
  set_node = λ path value w. ok (pos 0, w);
  syscall = λ cmd result w. ok (pos 0, result, w);
  get_attr = λ key value w. ok (pos 0, value, w);
  set_attr = λ key value w. ok (pos 0, w);
  set_sched = λ tid policy pri w. ok (pos 0, (tid, policy, pri));
  set_post_event = λ event w. ok (pos 0, w);
}

set_sched_backwards :
    (remote queues queue_laws Noted third_second_first unknown_code noting).set_sched
      (pos 100)
      (pos 1)
      (pos 50)
      (pos 0, pos 0, pos 0)
    ≡ ok (pos 0, (pos 50, pos 1, pos 100))
unfolding program
set_sched_backwards = refl

native_proxy-Forwards_example :
    Forwards queues queue_laws Noted third_second_first unknown_code noting
native_proxy-Forwards_example =
    native_proxy-Forwards queues queue_laws Noted third_second_first unknown_code noting

foreign_descriptor : event_descriptor ≢ native_descriptor
unfolding strcmp
foreign_descriptor e = absurd (false≢true ((strcmp_iff event_descriptor native_descriptor).1 e))

short_node : (t : Bytes) → some (codes "300000") ≡ some t → length t < 128
short_node t e = subst (λ s. length s < 128) (some-injective _ t e) (omega arith)

java_set_system_node_example :
    (ret : ℤ) × (w' : Machine) × (native_set_system_node strict_chars ℕ
        (State linux ℕ)
        (some vrserver)
        (some node_file)
        (some (codes "600000"))
        (idle, object)
      ≡ ok (ret, (w', object)))
    × WriteSession linux node_file (codes "600000") idle w'
    × WriteResults linux node_file (codes "600000") idle ret
java_set_system_node_example =
    java_set_system_node queues queue_laws linux first_second_third unknown_code strict_chars
      (λ s. refl) node_file (codes "600000") idle object

java_get_system_node_example :
    (ret : ℤ) × (text : Bytes) × (w' : Machine) × (native_get_system_node strict_chars ℕ
        (State linux ℕ)
        (some vrserver)
        (some node_file)
        (idle, object)
      ≡ ok (text, (w', object)))
    × Reads linux node_file [] idle ret text w'
java_get_system_node_example =
    java_get_system_node queues queue_laws linux first_second_third unknown_code strict_chars
      (λ s. refl) node_file idle object short_node
