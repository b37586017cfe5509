-- ===== src/DfuUtil/Progress.antt =====
-- The progress that is told for a tool that sends sizes of four bytes.
use native.Mathlib.Nat.{div-le_of_le-mul, zero-div}
use vr_admin.Prelude.{
  ◌≤ℤ◌, ℕ, zero, suc, ◌+◌, ◌-◌, ◌*◌, ◌/◌, ◌%◌, ◌<◌, ◌≤◌, ◌≡◌, refl, ◌∙◌, ap, true, false,
  if◌then◌else◌, ◌==◌, List, [], ◌∷◌, ◌++◌, All, ℤ, pos, negsuc, minus_one, arith, Bool-cases, inl,
  inr, append-nil,
}
use vr_admin.CString.{Bytes}
use vr_admin.DfuUtil.{
  int_of_bits, value_of, times_hundred, minus, divide, Talk, talk_loop, talk_with_socket,
}

-- A size as the tool sends it, the lowest byte first.
abbrev pub size_bytes : ℕ → Bytes
size_bytes n = n % 256 ∷ n / 256 % 256 ∷ n / 65536 % 256 ∷ n / 16777216 % 256 ∷ []

int_of_bits_small : (n : ℕ) → n < 2147483648 → int_of_bits n ≡ pos n
unfolding int_of_bits
int_of_bits_small n h = let same : n % 4294967296 ≡ n = omega arith in ground (arith, same)

value_of-size_bytes : (n : ℕ) → n < 2147483648 → value_of (size_bytes n) ≡ pos n
unfolding value_of
value_of-size_bytes n h = ap int_of_bits sum ∙ int_of_bits_small n h
  where
    sum :
        n % 256 + n / 256 % 256 * 256 + n / 65536 % 256 * 65536 + n / 16777216 % 256 * 16777216 ≡ n
    sum = omega arith

times_hundred_small : (n : ℕ) → n * 100 < 2147483648 → times_hundred (pos n) ≡ pos (n * 100)
unfolding times_hundred
times_hundred_small n h = int_of_bits_small (n * 100) h

times_hundred_wraps :
    (n : ℕ)
    → 2147483648 ≤ n * 100
    → n * 100 < 4294967296
    → times_hundred (pos n) ≡ negsuc (4294967295 - n * 100)
unfolding times_hundred int_of_bits
times_hundred_wraps n l h =
    let same : n * 100 % 4294967296 ≡ n * 100 = omega arith in ground (arith, same)

abbrev pub all_size_bytes : List ℕ → List Bytes
all_size_bytes [] = []
all_size_bytes (w ∷ ws) = size_bytes w ∷ all_size_bytes ws

abbrev pub last_or : ℕ → List ℕ → ℕ
last_or w [] = w
last_or w (x ∷ xs) = last_or x xs

abbrev pub percent : ℕ → ℕ → ℕ
percent total w = w * 100 / total

abbrev pub percents : ℕ → List ℕ → List ℤ
percents total [] = []
percents total (w ∷ ws) = pos (percent total w) ∷ percents total ws

-- A size that is at most the total, and whose hundredfold is an int.
abbrev pub InRange : ℕ → ℕ → Type 0
InRange total w = (w ≤ total) × (w * 100 < 2147483648)

talked : ℕ → List ℤ → ℕ → Talk
talked total broadcasts w = record {
  file_size = pos total;
  write_size = pos w;
  broadcasts = broadcasts;
  threw = false;
}

loop_lem :
    (n : ℕ) (ws : List ℕ) (w : ℕ)
    → All (InRange (suc n)) ws
    → talk_loop (all_size_bytes ws) (pos (suc n)) (pos w)
      ≡ talked (suc n) (percents (suc n) ws) (last_or w ws)
unfolding talk_loop divide talked
loop_lem n [] w h = refl
loop_lem n (x ∷ xs) w ((le, small), h) =
    rw (value_of-size_bytes x (omega arith), times_hundred_small x small, loop_lem n xs x h) refl

percent-le : (total w : ℕ) → 0 < total → w ≤ total → percent total w ≤ 100
percent-le total w h le = div-le_of_le-mul total (omega arith)

percents-le :
    (total : ℕ) (ws : List ℕ)
    → 0 < total
    → All (InRange total) ws
    → All (λ p. p ≤ℤ pos 100) (percents total ws)
percents-le total [] h in_range = tt
percents-le total (w ∷ ws) h ((le, small), in_range) =
    (omega (arith, percent-le total w h le), percents-le total ws h in_range)

-- What a download of this total tells.
pub record Tells (total : ℕ) (ws : List ℕ) (t : Talk) : Type 0 where
  pub told :
      t.broadcasts
      ≡ pos 0 ∷ (percents total ws ++ (if total == last_or 0 ws then [] else minus_one ∷ []))
  pub at_most : All (λ p. p ≤ℤ pos 100) (percents total ws)
  pub ended : t.threw ≡ false

-- If the tool sends a total that is an int and not 0, and then sizes that are at most the total and
-- whose hundredfolds are ints, four bytes each, then the callbacks are told 0, then for each size its
-- share of the total in percent, rounded down and at most 100, and at last -1 if the last size is not
-- the total; nothing is thrown.
pub talk_with_socket-Tells :
    (total : ℕ) (ws : List ℕ)
    → 0 < total
    → total < 2147483648
    → All (InRange total) ws
    → Tells total ws (talk_with_socket (size_bytes total ∷ all_size_bytes ws))
unfolding talk_with_socket talk_loop times_hundred int_of_bits divide talked
talk_with_socket-Tells zero ws h small in_range = absurd (omega arith)
talk_with_socket-Tells (suc n) ws h small in_range = elim (Bool-cases (suc n == last_or 0 ws)) [
  | inl e ↦
      rw (value_of-size_bytes (suc n) small, loop_lem n ws 0 in_range, e, zero-div)
        (record {
          told = rw (e, append-nil) refl;
          at_most = percents-le (suc n) ws h in_range;
          ended = refl;
        })
  | inr e ↦
      rw (value_of-size_bytes (suc n) small, loop_lem n ws 0 in_range, e, zero-div)
        (record { told = rw e refl; at_most = percents-le (suc n) ws h in_range; ended = refl })
]

zero_total :
    (reads : List Bytes)
    → talk_with_socket (size_bytes 0 ∷ reads)
      ≡ record { file_size = pos 0; write_size = pos 0; broadcasts = []; threw = true }
unfolding talk_with_socket talk_loop value_of times_hundred int_of_bits divide
zero_total reads = refl

wrapped :
    (total w : ℕ)
    → 0 < total
    → total < 2147483648
    → w < 2147483648
    → 2147483648 ≤ w * 100
    → w * 100 < 4294967296
    → (talk_with_socket (size_bytes total ∷ size_bytes w ∷ [])).broadcasts
      ≡ pos 0 ∷ minus ((4294967296 - w * 100) / total) ∷ (if total == w then [] else minus_one ∷ [])
unfolding talk_with_socket talk_loop divide
wrapped zero w h small small' wraps below = absurd (omega arith)
wrapped (suc n) w h small small' wraps below =
    let negated : suc (4294967295 - w * 100) ≡ 4294967296 - w * 100 = omega arith in
    elim (Bool-cases (suc n == w)) [
      | inl e ↦
          rw
            (
              value_of-size_bytes (suc n) small,
              value_of-size_bytes w small',
              times_hundred_wraps w wraps below,
              negated,
              times_hundred_small 0 (omega arith),
              zero-div,
              e,
            )
            refl
      | inr e ↦
          rw
            (
              value_of-size_bytes (suc n) small,
              value_of-size_bytes w small',
              times_hundred_wraps w wraps below,
              negated,
              times_hundred_small 0 (omega arith),
              zero-div,
              e,
            )
            refl
    ]

-- Two totals that the thread is not made for. After a total of 0, whatever follows, it throws before
-- anything is told, even the end. For a size whose hundredfold is past the range of an int, but not of
-- 32 bits, what is told is not positive: the part of the total by which the hundredfold fell below 2 to the 32.
pub talk_with_socket_faults :
    (total w : ℕ) (reads : List Bytes)
    → 0 < total
    → total < 2147483648
    → w < 2147483648
    → 2147483648 ≤ w * 100
    → w * 100 < 4294967296
    → (talk_with_socket (size_bytes 0 ∷ reads)
        ≡ record { file_size = pos 0; write_size = pos 0; broadcasts = []; threw = true })
      × ((talk_with_socket (size_bytes total ∷ size_bytes w ∷ [])).broadcasts
          ≡ pos 0
            ∷ minus ((4294967296 - w * 100) / total)
            ∷ (if total == w then [] else minus_one ∷ []))
talk_with_socket_faults total w reads h small small' wraps below =
    (zero_total reads, wrapped total w h small small' wraps below)
