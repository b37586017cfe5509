-- ===== src/NativeService/WhiteList.antt =====
-- The white list of the nodes, as a set of paths.
use native.Mathlib.Decide.{ℕ_discrete}
use vr_admin.Prelude.{
  ℕ, zero, suc, ◌+◌, ◌<◌, ◌≤◌, ◌≡◌, ◌↔◌, ◌⊎◌, refl, ◌∙◌, ap, sym, inl, inr, true, Bool-cases,
  if◌then◌else◌, some, List, [], ◌∷◌, ◌++◌, take, pos, arith,
}
use vr_admin.CString.{Bytes, strcmp, format_d}
use vr_admin.CString.Compare.{strcmp_iff}
use vr_admin.NativeService.{
  node_path, cpu_prefix, gpu_prefix, cpu_node_names, gpu_node_names, check_names, check_numbers,
  check_access_node_perm,
}

-- One of a list of names, which are few and known.
abbrev pub OneOf : List Bytes → Bytes → Type 0
OneOf [] x = ⊥
OneOf (name ∷ names) x = (x ≡ name) ⊎ OneOf names x

-- A node of one of the numbered devices below a prefix, with one digit for the number.
pub record DeviceNode (prefix : Bytes) (count : ℕ) (names : List Bytes) (path : Bytes)
    : Type 0 where
  pub number : ℕ
  pub in_range : number < count
  pub name : Bytes
  pub known : OneOf names name
  pub spelled : path ≡ prefix ++ ((b'0' + number) ∷ b'/' ∷ name)

-- The nodes that may be read and written.
abbrev pub AllowedNode : Bytes → Type 0
AllowedNode path =
    DeviceNode cpu_prefix 10 cpu_node_names path ⊎ DeviceNode gpu_prefix 4 gpu_node_names path

format_digit : (i : ℕ) → i < 10 → format_d (pos i) ≡ (b'0' + i) ∷ []
unfolding format_d
format_digit zero h = refl
format_digit (suc i) h = ground arith

-- The buffer of 127 bytes cuts no path of the white list.
abbrev Uncut : Bytes → List Bytes → Type 0
Uncut prefix [] = Unit {0}
Uncut prefix (name ∷ names) =
    ((d : ℕ) → take 126 (prefix ++ (d ∷ b'/' ∷ name)) ≡ prefix ++ (d ∷ b'/' ∷ name))
    × Uncut prefix names

cpu-Uncut : Uncut cpu_prefix cpu_node_names
cpu-Uncut = (λ d. refl, (λ d. refl, (λ d. refl, tt)))

gpu-Uncut : Uncut gpu_prefix gpu_node_names
gpu-Uncut = (λ d. refl, tt)

node_path_digit :
    (prefix name : Bytes) (i : ℕ)
    → i < 10
    → ((d : ℕ) → take 126 (prefix ++ (d ∷ b'/' ∷ name)) ≡ prefix ++ (d ∷ b'/' ∷ name))
    → node_path prefix i name ≡ prefix ++ ((b'0' + i) ∷ b'/' ∷ name)
unfolding node_path
node_path_digit prefix name i h uncut =
    ap (λ d. take 126 (prefix ++ (d ++ (b'/' ∷ name)))) (format_digit i h) ∙ uncut (b'0' + i)

-- The names of the list, below this number.
abbrev Below : Bytes → ℕ → List Bytes → Bytes → Type 0
Below prefix i names path =
    (name : Bytes) × OneOf names name × (path ≡ prefix ++ ((b'0' + i) ∷ b'/' ∷ name))

check_names_sound :
    (prefix : Bytes) (i : ℕ) (names : List Bytes) (path : Bytes)
    → i < 10
    → Uncut prefix names
    → check_names prefix i names path ≡ true
    → Below prefix i names path
unfolding check_names
check_names_sound prefix i [] path small uncut h = cc
check_names_sound prefix i (name ∷ names) path small (u, us) h =
    elim (Bool-cases (strcmp (node_path prefix i name) path)) [
      | inl e ↦ (
        name,
        inl refl,
        sym ((strcmp_iff (node_path prefix i name) path).0 e)
            ∙ node_path_digit prefix name i small u,
      )
      | inr e ↦
          let (n, k, s) = check_names_sound prefix i names path small us (ground arith) in
          (n, inr k, s)
    ]

check_names_complete :
    (prefix : Bytes) (i : ℕ) (names : List Bytes) (path name : Bytes)
    → i < 10
    → Uncut prefix names
    → OneOf names name
    → path ≡ prefix ++ ((b'0' + i) ∷ b'/' ∷ name)
    → check_names prefix i names path ≡ true
unfolding check_names
check_names_complete prefix i [] path name small uncut k s = absurd k
check_names_complete prefix i (n ∷ names) path name small (u, us) (inl e) s =
    rw ((strcmp_iff (node_path prefix i n) path).1 same)
  where
    same : node_path prefix i n ≡ path
    same = node_path_digit prefix n i small u ∙ sym (rw (← e) s)
check_names_complete prefix i (n ∷ names) path name small (u, us) (inr k) s =
    ground (arith, check_names_complete prefix i names path name small us k s)

check_numbers_sound :
    (prefix : Bytes) (left i : ℕ) (names : List Bytes) (path : Bytes)
    → i + left < 11
    → Uncut prefix names
    → check_numbers prefix left i names path ≡ true
    → DeviceNode prefix (i + left) names path
unfolding check_numbers
check_numbers_sound prefix zero i names path small uncut h = cc
check_numbers_sound prefix (suc left) i names path small uncut h =
    elim (Bool-cases (check_names prefix i names path)) [
      | inl e ↦
          let (name, k, s) = check_names_sound prefix i names path (omega arith) uncut e in
          record { number = i; in_range = omega arith; name = name; known = k; spelled = s }
      | inr e ↦
          let d =
            check_numbers_sound prefix left (suc i) names path (omega arith) uncut (ground arith) in
          record {
            number = d.number;
            in_range = omega (arith, d.in_range);
            name = d.name;
            known = d.known;
            spelled = d.spelled;
          }
    ]

check_numbers_complete :
    (prefix : Bytes) (left i : ℕ) (names : List Bytes) (path : Bytes)
    (d : DeviceNode prefix (i + left) names path)
    → i + left < 11
    → i ≤ d.number
    → Uncut prefix names
    → check_numbers prefix left i names path ≡ true
unfolding check_numbers
check_numbers_complete prefix zero i names path d small from uncut =
    absurd (omega (arith, d.in_range))
check_numbers_complete prefix (suc left) i names path d small from uncut =
    elim (ℕ_discrete i d.number) [
      | yes e ↦ rw (
          check_names_complete prefix i names path d.name (omega arith) uncut d.known
            (rw e d.spelled))
      | no ne ↦ ground (
        arith,
        check_numbers_complete prefix left (suc i) names path
            (record {
              number = d.number;
              in_range = omega (arith, d.in_range);
              name = d.name;
              known = d.known;
              spelled = d.spelled;
            })
            (omega arith) (omega arith) uncut,
      )
    ]

-- The check accepts exactly the nodes of the white list: the three frequency nodes of the CPUs 0 to
-- 9 and the refresh node of the frame buffers 0 to 3, spelled in full.
pub check_access_node_perm_iff :
    (path : Bytes) → (check_access_node_perm (some path) ≡ true) ↔ AllowedNode path
unfolding check_access_node_perm
check_access_node_perm_iff path = (sound, complete)
  where
    sound :
        (if check_numbers cpu_prefix 10 0 cpu_node_names path
            then true
            else check_numbers gpu_prefix 4 0 gpu_node_names path)
          ≡ true
        → AllowedNode path
    sound h = elim (Bool-cases (check_numbers cpu_prefix 10 0 cpu_node_names path)) [
      | inl e ↦
          inl (check_numbers_sound cpu_prefix 10 0 cpu_node_names path (omega arith) cpu-Uncut e)
      | inr e ↦ inr (
          check_numbers_sound gpu_prefix 4 0 gpu_node_names path (omega arith) gpu-Uncut
            (ground arith))
    ]

    complete :
        AllowedNode path
        → (if check_numbers cpu_prefix 10 0 cpu_node_names path
            then true
            else check_numbers gpu_prefix 4 0 gpu_node_names path)
          ≡ true
    complete (inl d) = rw (
        check_numbers_complete cpu_prefix 10 0 cpu_node_names path d (omega arith) (omega arith)
          cpu-Uncut)
    complete (inr d) = ground (
      arith,
      check_numbers_complete gpu_prefix 4 0 gpu_node_names path d (omega arith) (omega arith)
          gpu-Uncut,
    )
