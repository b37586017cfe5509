-- ===== src/CString/Decimal.antt =====
-- Decimal print and parse: `%lu`, `%d` and `atoll`.
use mathlib.Core.List.{cons-ne-nil}
use native.Mathlib.Nat.{pow-suc}
use native.Mathlib.Decide.{ℕ_discrete}
use vr_admin.Prelude.{
  ℕ, zero, suc, ◌+◌, ◌/◌, ◌%◌, ◌^◌, ◌≤◌, ◌<◌, ◌≡◌, refl, ◌∙◌, ap, ◌≢◌, [], ◌∷◌, length, All, pos,
  arith,
}
use vr_admin.CString.{Bytes, digits, format_lu, isspace, scan, atoll, llong_max}

abbrev pub IsDigit : ℕ → Type 0
IsDigit c = (b'0' ≤ c) × (c ≤ b'9')

div-lt : (fuel n : ℕ) → n < 10 ^ suc fuel → n / 10 < 10 ^ fuel
div-lt fuel n h = omega (arith, pow-suc 10 fuel)

format_lu_pos : (n : ℕ) → n ≢ 0 → format_lu n ≡ digits 20 n []
unfolding format_lu
format_lu_pos n ne = ground arith

digits-All : (fuel n : ℕ) (out : Bytes) → All IsDigit out → All IsDigit (digits fuel n out)
unfolding digits
digits-All zero n out h = h
digits-All (suc fuel) n out h = ground (arith, digits-All fuel (n / 10) ((b'0' + n % 10) ∷ out))

length-digits-le : (fuel n : ℕ) (out : Bytes) → length (digits fuel n out) ≤ fuel + length out
unfolding digits
length-digits-le zero n out = omega arith
length-digits-le (suc fuel) n out =
    ground (arith, length-digits-le fuel (n / 10) ((b'0' + n % 10) ∷ out))

-- The fuel is enough for a number below 10 ^ fuel: reading its digits gives it back.
scan-digits : (fuel n : ℕ) (out : Bytes) → n < 10 ^ fuel → scan 0 (digits fuel n out) ≡ scan n out
unfolding digits scan
scan-digits zero n out h = let e : n ≡ 0 = omega arith in rw e
scan-digits (suc fuel) n out h =
    ground
      (arith, pow-suc 10 fuel, scan-digits fuel (n / 10) ((b'0' + n % 10) ∷ out), div-lt fuel n h)

digits-ne-nil : (fuel n : ℕ) (out : Bytes) → out ≢ [] → digits fuel n out ≢ []
unfolding digits
digits-ne-nil zero n out h = h
digits-ne-nil (suc fuel) n out h =
    ground (arith, digits-ne-nil fuel (n / 10) _ (cons-ne-nil (b'0' + n % 10) out))

digits-ne-nil_pos : (fuel n : ℕ) → n ≢ 0 → digits (suc fuel) n [] ≢ []
unfolding digits
digits-ne-nil_pos fuel n ne =
    ground (arith, digits-ne-nil fuel (n / 10) _ (cons-ne-nil (b'0' + n % 10) []))

-- `%lu` prints 1 to 20 digits.
pub format_lu_shape :
    (n : ℕ) → All IsDigit (format_lu n) × (format_lu n ≢ []) × (length (format_lu n) ≤ 20)
unfolding format_lu
format_lu_shape n = elim (ℕ_discrete n 0) [
  | yes e ↦ rw e ((omega arith, tt), cons-ne-nil _ _, omega arith)
  | no ne ↦
      rw (format_lu_pos n ne)
        (digits-All 20 n [] tt, digits-ne-nil_pos 19 n ne, omega (arith, length-digits-le 20 n []))
]

-- The 20 digits are enough for a uint64: read back they give the number.
scan-format_lu : (n : ℕ) → n < 2 ^ 64 → scan 0 (format_lu n) ≡ n
unfolding scan format_lu
scan-format_lu n h = elim (ℕ_discrete n 0) [
  | yes e ↦ rw e
  | no ne ↦ rw (format_lu_pos n ne) (scan-digits 20 n [] (omega arith))
]

-- Text that begins with a digit has no white space and no sign to skip.
atoll-digits :
    (s : Bytes) → s ≢ [] → All IsDigit s → scan 0 s ≤ llong_max → atoll s ≡ pos (scan 0 s)
unfolding atoll isspace
atoll-digits [] ne h fits = absurd (ne refl)
atoll-digits (c ∷ s) ne (hc, h) fits = ground arith

-- `atoll` reads back what `%lu` prints, up to the largest long long.
pub atoll-format_lu : (n : ℕ) → n ≤ llong_max → atoll (format_lu n) ≡ pos n
atoll-format_lu n h =
    let (all_digits, ne, short) = format_lu_shape n in
    let exact = scan-format_lu n (omega arith) in
    atoll-digits (format_lu n) ne all_digits (rw exact h) ∙ ap pos exact
