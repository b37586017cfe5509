-- ===== src/CString/Buffers.antt =====
-- Laws of buffers and terminators.
use native.Mathlib.Nat.{sub-zero, zero-sub, suc-sub-suc}
use vr_admin.Prelude.{
  ℕ, zero, suc, ◌≤◌, ◌<◌, ◌≡◌, refl, ap, ◌∙◌, ◌≢◌, true, false, [], ◌∷◌, ◌++◌, length, take, drop,
  replicate, length-replicate, length-take, take_all, append-nil, ◌-◌, All, ok, lt→ltb,
  if◌then◌else◌, arith,
}
use vr_admin.CString.{Bytes, c_str, has_terminator, read_c_str, sprintf, strncpy}

-- No byte is the terminator: the list is the content of a C string.
abbrev pub IsCString : Bytes → Type 0
IsCString = All (λ c. c ≢ 0)

pub c_str-IsCString : (b : Bytes) → IsCString (c_str b)
unfolding c_str
c_str-IsCString [] = tt
c_str-IsCString (x ∷ b) = ground (arith, c_str-IsCString b)

pub length-c_str-le : (b : Bytes) → length (c_str b) ≤ length b
unfolding c_str
length-c_str-le [] = omega arith
length-c_str-le (x ∷ b) = ground (arith, length-c_str-le b)

-- The C string in front of a terminator is read back.
c_str-append : (s rest : Bytes) → IsCString s → c_str (s ++ (0 ∷ rest)) ≡ s
unfolding c_str
c_str-append [] rest h = refl
c_str-append (x ∷ s) rest (hx, h) = ground (arith, c_str-append s rest h)

pub has_terminator-append : (s rest : Bytes) → has_terminator (s ++ (0 ∷ rest)) ≡ true
unfolding has_terminator
has_terminator-append [] rest = refl
has_terminator-append (x ∷ s) rest = ground (arith, has_terminator-append s rest)

pub has_terminator_or :
    (s rest : Bytes)
    → has_terminator (s ++ rest) ≡ (if has_terminator s then true else has_terminator rest)
unfolding has_terminator
has_terminator_or [] rest = refl
has_terminator_or (x ∷ s) rest = ground (arith, has_terminator_or s rest)

-- A buffer without a terminator is all text.
c_str_full : (b : Bytes) → has_terminator b ≡ false → c_str b ≡ b
unfolding c_str has_terminator
c_str_full [] h = refl
c_str_full (x ∷ b) h = ground (arith, c_str_full b)

pub has_terminator-IsCString : (s : Bytes) → IsCString s → has_terminator s ≡ false
unfolding has_terminator
has_terminator-IsCString [] h = refl
has_terminator-IsCString (x ∷ s) (hx, h) = ground (arith, has_terminator-IsCString s h)

pub c_str_id : (s : Bytes) → IsCString s → c_str s ≡ s
c_str_id s h = c_str_full s (has_terminator-IsCString s h)

pub c_str-replicate : (s : Bytes) (n : ℕ) → c_str (s ++ replicate n 0) ≡ c_str s
unfolding c_str
c_str-replicate [] zero = refl
c_str-replicate [] (suc n) = refl
c_str-replicate (x ∷ s) n = ground (arith, c_str-replicate s n)

-- A buffer of zeros, filled with fewer bytes than it has, holds a terminator.
has_terminator-replicate : (s : Bytes) (n : ℕ) → 0 < n → has_terminator (s ++ replicate n 0) ≡ true
has_terminator-replicate s zero h = absurd (omega arith)
has_terminator-replicate s (suc n) h = has_terminator-append s (replicate n 0)

drop-replicate_le : (n k : ℕ) → drop {A = ℕ} k (replicate n 0) ≡ replicate (n - k) 0
drop-replicate_le n zero = rw sub-zero
drop-replicate_le zero (suc k) = rw zero-sub
drop-replicate_le (suc n) (suc k) = rw suc-sub-suc (drop-replicate_le n k)

drop-replicate : (n : ℕ) → drop {A = ℕ} n (replicate (suc n) 0) ≡ 0 ∷ []
drop-replicate zero = refl
drop-replicate (suc n) = drop-replicate n

-- What `sprintf` wrote is read back, if it fits.
sprintf_lem :
    (buff text : Bytes)
    → length text < length buff
    → sprintf buff text ≡ ok (text ++ (0 ∷ drop (suc (length text)) buff))
unfolding sprintf
sprintf_lem buff text h = rw (lt→ltb _ _ h)

pub strncpy_lem :
    (buff text : Bytes) (n : ℕ)
    → n ≤ length buff
    → strncpy buff text n ≡ ok (take n (text ++ replicate n 0) ++ drop n buff)
unfolding strncpy
strncpy_lem buff text n h = ground arith

c_str-take_padded :
    (n k : ℕ) (text rest : Bytes)
    → n ≤ k
    → IsCString text
    → c_str (take n (text ++ replicate k 0) ++ (0 ∷ rest)) ≡ take n text
unfolding c_str
c_str-take_padded zero k text rest h t = refl
c_str-take_padded (suc n) zero text rest h t = absurd (omega arith)
c_str-take_padded (suc n) (suc k) [] rest h t = refl
c_str-take_padded (suc n) (suc k) (x ∷ text) rest h (hx, t) =
    ground (arith, c_str-take_padded n (suc k) text rest (omega arith) t)

-- A buffer of zeros that is one byte longer than the bound of `strncpy` holds a C string after it:
-- the text, cut at the bound.
pub strncpy_fresh :
    (n : ℕ) (text : Bytes)
    → IsCString text
    → (buff : Bytes) × (strncpy (replicate (suc n) 0) text n ≡ ok buff)
      × (read_c_str buff ≡ ok (take n text))
unfolding read_c_str
strncpy_fresh n text t = (
  take n (text ++ replicate n 0) ++ (0 ∷ []),
  strncpy_lem (replicate (suc n) 0) text n (omega (arith, length-replicate {A = ℕ} (suc n) 0))
      ∙ rw (drop-replicate n) refl,
  rw (has_terminator-append (take n (text ++ replicate n 0)) [])
      (ap ok (c_str-take_padded n n text [] (omega arith) t)),
)

-- After `sprintf` the buffer holds the text that was printed.
pub sprintf_fresh :
    (buff text : Bytes)
    → length text < length buff
    → IsCString text
    → (out : Bytes) × (sprintf buff text ≡ ok out) × (read_c_str out ≡ ok text)
unfolding read_c_str
sprintf_fresh buff text h t = (
  text ++ (0 ∷ drop (suc (length text)) buff),
  sprintf_lem buff text h,
  rw (has_terminator-append text (drop (suc (length text)) buff)) (ap ok (c_str-append text _ t)),
)

-- A buffer of n + 1 zeros after at most n bytes are stored at its start.
pub filled_terminated :
    (n : ℕ) (s : Bytes)
    → length s ≤ n
    → let b = take (suc n) s ++ drop (length (take (suc n) s)) (replicate (suc n) 0) in
      (has_terminator b ≡ true) × (c_str b ≡ c_str s)
filled_terminated n s h =
    rw (take_all (suc n) s (omega arith), drop-replicate_le (suc n) (length s))
      (
        has_terminator-replicate s (suc n - length s) (omega arith),
        c_str-replicate s (suc n - length s),
      )

-- More than n bytes fill it, and only they are in it.
pub filled_full :
    (n : ℕ) (s : Bytes)
    → n < length s
    → take (suc n) s ++ drop (length (take (suc n) s)) (replicate (suc n) 0) ≡ take (suc n) s
filled_full n s h = rw (drop-replicate_le (suc n) (length (take (suc n) s)), full) (append-nil _)
  where
    full : suc n - length (take (suc n) s) ≡ 0
    full = omega (arith, length-take (suc n) s)
