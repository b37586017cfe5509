-- ===== src/NativeService/CommandList.antt =====
-- The white list of the commands, as the prefixes of what may be run.
use vr_admin.Prelude.{
  ◌≡◌, ◌↔◌, refl, ◌∙◌, ap, inl, inr, true, Bool-cases, some, List, [], ◌∷◌, ◌++◌, append_assoc,
  length, arith,
}
use vr_admin.CString.{Bytes, strncmp}
use vr_admin.CString.Compare.{strncmp-length}
use vr_admin.NativeService.{sys_call_commands, check_commands, check_syscall_perm}
use vr_admin.NativeService.WhiteList.{OneOf}

-- A command begins with one of the names.
pub record StartsWith (names : List Bytes) (cmd : Bytes) : Type 0 where
  pub name : Bytes
  pub known : OneOf names name
  pub rest : Bytes
  pub parts : cmd ≡ name ++ rest

check_commands_sound :
    (commands : List Bytes) (cmd : Bytes)
    → check_commands commands cmd ≡ true
    → StartsWith commands cmd
unfolding check_commands
check_commands_sound [] cmd h = cc
check_commands_sound (temp ∷ commands) cmd h = elim (Bool-cases (strncmp temp cmd (length temp))) [
  | inl e ↦
      let (rest, parts) = (strncmp-length temp cmd).0 e in
      record { name = temp; known = inl refl; rest = rest; parts = parts }
  | inr e ↦
      let s = check_commands_sound commands cmd (ground arith) in
      record { name = s.name; known = inr s.known; rest = s.rest; parts = s.parts }
]

check_commands_complete :
    (commands : List Bytes) (name rest : Bytes)
    → OneOf commands name
    → check_commands commands (name ++ rest) ≡ true
unfolding check_commands
check_commands_complete [] name rest k = absurd k
check_commands_complete (temp ∷ commands) name rest (inl e) =
    rw ((strncmp-length temp (name ++ rest)).1 (rest, ap (λ n. n ++ rest) e))
check_commands_complete (temp ∷ commands) name rest (inr k) =
    ground (arith, check_commands_complete commands name rest k)

-- A command is accepted exactly if it begins with `dfu-util` or with `service call`.
pub check_syscall_perm_iff :
    (cmd : Bytes) → (check_syscall_perm (some cmd) ≡ true) ↔ StartsWith sys_call_commands cmd
unfolding check_syscall_perm
check_syscall_perm_iff cmd = (
  check_commands_sound sys_call_commands cmd,
  λ s. rw s.parts (check_commands_complete sys_call_commands s.name s.rest s.known),
)

-- An accepted command stays accepted with any text behind it.
pub check_syscall_perm-append :
    (cmd more : Bytes)
    → check_syscall_perm (some cmd) ≡ true
    → check_syscall_perm (some (cmd ++ more)) ≡ true
check_syscall_perm-append cmd more h =
    let s = (check_syscall_perm_iff cmd).0 h in
    (check_syscall_perm_iff (cmd ++ more)).1 (record {
      name = s.name;
      known = s.known;
      rest = s.rest ++ more;
      parts = ap (λ c. c ++ more) s.parts ∙ append_assoc s.name s.rest more;
    })
