-- ===== src/NativeService/Commands.antt =====
-- `systemCall`: the loop over `fgets` gives all that the command prints.
use mathlib.Core.Path.{ap₂, subst}
use native.Mathlib.Nat.{add-zero, zero-add}
use vr_admin.Prelude.{
  ℕ, zero, suc, ◌+◌, ◌≤◌, ◌<◌, ◌≡◌, refl, ◌∙◌, sym, true, le→leb, some, [], ◌∷◌, ◌++◌, append_assoc,
  length, length-append, pos, ok, arith, list_laws, Option, ap, minus_one, Bool-cases, inl, inr,
}
use vr_admin.CString.{Bytes, c_str}
use vr_admin.CString.Buffers.{IsCString, c_str_id, length-c_str-le}
use vr_admin.NativeService.System.{Os}
use vr_admin.NativeService.CommandList.{StartsWith, check_syscall_perm_iff}
use vr_admin.NativeService.{
  sys_call_commands, fgets, read_lines, check_syscall_perm, int_max, run_command, total,
  system_call,
}

-- A line and the rest of the stream are the stream, and a line takes at least one byte from it.
fgets_parts :
    (n : ℕ) (s : Bytes) → ((fgets n s).0 ++ (fgets n s).1 ≡ s) × (length (fgets n s).1 ≤ length s)
unfolding fgets
fgets_parts zero s = (refl, omega arith)
fgets_parts (suc n) [] = (refl, omega arith)
fgets_parts (suc n) (c ∷ s) = ground (arith, fgets_parts n s)

fgets_progress : (n : ℕ) (c : ℕ) (s : Bytes) → length (fgets (suc n) (c ∷ s)).1 < length (c ∷ s)
unfolding fgets
fgets_progress n c s = ground (arith, fgets_parts n s)

All-left : (xs ys : Bytes) → IsCString (xs ++ ys) → IsCString xs
All-left [] ys h = tt
All-left (x ∷ xs) ys (hx, h) = (hx, All-left xs ys h)

All-right : (xs ys : Bytes) → IsCString (xs ++ ys) → IsCString ys
All-right [] ys h = h
All-right (x ∷ xs) ys (hx, h) = All-right xs ys h

-- With fuel for its bytes and the end, the loop returns; a stream with no 0 in it is appended whole,
-- and its length is added to the sum.
step :
    (fuel : ℕ) (line rest stream result : Bytes) (sum : ℕ)
    → line ++ rest ≡ stream
    → IsCString line
    → read_lines fuel rest (result ++ c_str line) (sum + length (c_str line))
      ≡ some ((result ++ c_str line) ++ rest, sum + length (c_str line) + length rest)
    → read_lines fuel rest (result ++ c_str line) (sum + length (c_str line))
      ≡ some (result ++ stream, sum + length stream)
step fuel line rest stream result sum parts text ih =
    ih
    ∙ ap₂ (λ text sum. some (text, sum))
        (rw (c_str_id line text, append_assoc result line rest, parts))
        (rw (c_str_id line text, ← parts) (omega (arith, length-append line rest)))

read_lines_lem :
    (fuel : ℕ) (stream result : Bytes) (sum : ℕ)
    → length stream < fuel
    → IsCString stream
    → read_lines fuel stream result sum ≡ some (result ++ stream, sum + length stream)
unfolding read_lines
read_lines_lem zero stream result sum h t = absurd (omega arith)
read_lines_lem (suc fuel) [] result sum h t = simp (list_laws, add-zero)
read_lines_lem (suc fuel) (c ∷ s) result sum h t =
    let line : Bytes = (fgets 1023 (c ∷ s)).0 in
    let rest : Bytes = (fgets 1023 (c ∷ s)).1 in
    let parts : line ++ rest ≡ c ∷ s = (fgets_parts 1023 (c ∷ s)).0 in
    let texts : IsCString (line ++ rest) = subst IsCString (sym parts) t in
    step fuel line rest (c ∷ s) result sum parts (All-left line rest texts) (
      read_lines_lem fuel rest (result ++ c_str line) (sum + length (c_str line))
        (omega (arith, fgets_progress 1022 c s)) (All-right line rest texts))

-- What an accepted command that can be run prints is appended to the result whole, and its length is
-- returned, if there is no 0 in it and its length is an int; the stream is then closed.
pub system_call_output :
    (os : Os) (cmd result stream : Bytes) (w w' : os.World)
    → check_syscall_perm (some cmd) ≡ true
    → os.popen cmd w ≡ (some stream, w')
    → IsCString stream
    → length stream ≤ int_max
    → system_call os cmd result w ≡ ok (pos (length stream), result ++ stream, os.pclose w')
unfolding system_call
system_call_output os cmd result stream w w' allowed opened text fits = rw (
  allowed,
  opened,
  run_command,
  read_lines_lem (suc (length stream)) stream result 0 (omega arith) text,
  total,
  zero-add,
  le→leb (length stream) int_max fits,
)

-- What the loop returns: a text that is longer by what is added to the sum, which is at most the
-- length of the stream.
record ReadsLines (stream result : Bytes) (sum : ℕ) (answer : Option (Bytes × ℕ)) : Type 0 where
  text : Bytes
  added : ℕ
  returned : answer ≡ some (result ++ text, sum + added)
  as_long : length text ≡ added
  bounded : added ≤ length stream

longer :
    (stream line rest result : Bytes) (sum : ℕ) (answer : Option (Bytes × ℕ))
    → line ++ rest ≡ stream
    → ReadsLines rest (result ++ c_str line) (sum + length (c_str line)) answer
    → ReadsLines stream result sum answer
longer stream line rest result sum answer parts r = record {
  text = c_str line ++ r.text;
  added = length (c_str line) + r.added;
  returned =
      r.returned
      ∙ ap₂ (λ text n. some (text, n)) (append_assoc result (c_str line) r.text) (omega arith);
  as_long = omega (arith, length-append (c_str line) r.text, r.as_long);
  bounded =
      omega (arith, r.bounded, length-c_str-le line, length-append line rest, ap length parts);
}

read_lines-ReadsLines :
    (fuel : ℕ) (stream result : Bytes) (sum : ℕ)
    → length stream < fuel
    → ReadsLines stream result sum (read_lines fuel stream result sum)
unfolding read_lines
read_lines-ReadsLines zero stream result sum h = absurd (omega arith)
read_lines-ReadsLines (suc fuel) [] result sum h = record {
  text = [];
  added = 0;
  returned = simp (list_laws, add-zero);
  as_long = refl;
  bounded = omega arith;
}
read_lines-ReadsLines (suc fuel) (c ∷ s) result sum h =
    longer (c ∷ s) (fgets 1023 (c ∷ s)).0 (fgets 1023 (c ∷ s)).1 result sum _
      (fgets_parts 1023 (c ∷ s)).0
      (read_lines-ReadsLines fuel (fgets 1023 (c ∷ s)).1 _ _
        (omega (arith, fgets_progress 1022 c s)))

-- Whatever bytes an accepted command that can be run prints, if they are at most as many as an int can count,
-- `systemCall` returns: it appends a text to the result, returns the length of that text, which is at
-- most the number of the bytes, and closes the stream.
pub system_call_returns :
    (os : Os) (cmd result stream : Bytes) (w w' : os.World)
    → check_syscall_perm (some cmd) ≡ true
    → os.popen cmd w ≡ (some stream, w')
    → length stream ≤ int_max
    → (text : Bytes) × (length text ≤ length stream)
      × (system_call os cmd result w ≡ ok (pos (length text), result ++ text, os.pclose w'))
unfolding system_call
system_call_returns os cmd result stream w w' allowed opened fits =
    let r = read_lines-ReadsLines (suc (length stream)) stream result 0 (omega arith) in
    (
      r.text,
      omega (arith, r.as_long, r.bounded),
      rw
          (
            allowed,
            opened,
            run_command,
            r.returned,
            total,
            zero-add,
            ← r.as_long,
            le→leb (length r.text) int_max (omega (arith, r.as_long, r.bounded)),
          )
          refl,
    )

-- A command that begins with no name of the list is refused: nothing is run, the result is -1 and
-- the text is as it was.
pub system_call_refused :
    (os : Os) (cmd result : Bytes) (w : os.World)
    → ¬ StartsWith sys_call_commands cmd
    → system_call os cmd result w ≡ ok (minus_one, result, w)
unfolding system_call
system_call_refused os cmd result w other = elim (Bool-cases (check_syscall_perm (some cmd))) [
  | inl e ↦ absurd (other ((check_syscall_perm_iff cmd).0 e))
  | inr e ↦ rw e refl
]
