-- ===== src/CString.antt =====
-- The functions of the C library that the program calls on text, over lists of bytes.
-- A C string is its bytes before the terminator, so a list with no 0 in it; a buffer is the list of
-- all its bytes. Comparisons are used by the program only as tests for 0, and are tests here.
pub mod Compare
pub mod Buffers
pub mod Decimal
use Prim.Native.Char.{code}
use Prim.Native.String.{String}
use vr_admin.Prelude.{
  ℕ, zero, suc, ◌+◌, ◌-◌, ◌*◌, ◌/◌, ◌%◌, ◌^◌, Bool, true, false, ◌&&◌, ◌||◌, ltb, leb, ◌==◌,
  if◌then◌else◌, List, [], ◌∷◌, ◌++◌, map, length, take, drop, replicate, Exec, ok, undefined, ℤ,
  pos, negsuc,
}

abbrev pub Bytes : Type 0
Bytes = List ℕ

-- The code points of a literal; these are its bytes, since all literals of the program are ASCII.
abbrev pub codes : String → Bytes
codes String.[] = []
codes (String.◌∷◌ c s) = code c ∷ codes s

unfoldable pub tolower : ℕ → ℕ
tolower c = if leb b'A' c && leb c b'Z' then c + 32 else c

-- `!strcmp(a, b)`, and `a == b` on std::string.
unfoldable pub strcmp : Bytes → Bytes → Bool
strcmp [] [] = true
strcmp [] (y ∷ b) = false
strcmp (x ∷ a) [] = false
strcmp (x ∷ a) (y ∷ b) = x == y && strcmp a b

-- `!strcasecmp(a, b)`.
unfoldable pub strcasecmp : Bytes → Bytes → Bool
unfolding strcmp tolower
strcasecmp a b = strcmp (map tolower a) (map tolower b)

-- `!strncmp(a, b, n)`.
unfoldable pub strncmp : Bytes → Bytes → ℕ → Bool
unfolding strcmp
strncmp a b n = strcmp (take n a) (take n b)

-- `!strncasecmp(a, b, n)`.
unfoldable pub strncasecmp : Bytes → Bytes → ℕ → Bool
unfolding strcmp tolower
strncasecmp a b n = strcmp (map tolower (take n a)) (map tolower (take n b))

-- The C string at the start of a buffer: its bytes before the first 0, or all of them.
unfoldable pub c_str : Bytes → Bytes
c_str [] = []
c_str (x ∷ s) = if x == 0 then [] else x ∷ c_str s

-- Whether the buffer holds a terminator; reading the C string of one that does not runs past its end.
unfoldable pub has_terminator : Bytes → Bool
has_terminator [] = false
has_terminator (x ∷ s) = if x == 0 then true else has_terminator s

-- The C string that a `char *` to the buffer gives to a function which reads up to the terminator.
unfoldable pub read_c_str : Bytes → Exec Bytes
unfolding c_str has_terminator
read_c_str buff = if has_terminator buff then ok (c_str buff) else undefined

-- The buffer after a C string and its terminator are written to its start (sprintf, memcpy).
unfoldable pub sprintf : Bytes → Bytes → Exec Bytes
sprintf buff text =
    if ltb (length text) (length buff)
    then ok (text ++ (0 ∷ drop (suc (length text)) buff))
    else undefined

-- `strncpy(buff, text, n)`: at most n bytes, with zeros up to n, and no terminator after n bytes.
unfoldable pub strncpy : Bytes → Bytes → ℕ → Exec Bytes
strncpy buff text n =
    if leb n (length buff) then ok (take n (text ++ replicate n 0) ++ drop n buff) else undefined

-- The text that `snprintf(buff, n, ...)` leaves for n > 0.
unfoldable pub snprintf : ℕ → Bytes → Bytes
snprintf n text = take (n - 1) text

-- The decimal digits of a number below 10 ^ fuel, in front of `out`.
unfoldable pub digits : ℕ → ℕ → Bytes → Bytes
digits zero n out = out
digits (suc fuel) n out =
    let rest = digits fuel (n / 10) ((b'0' + n % 10) ∷ out) in if n == 0 then out else rest

-- `%lu` of an unsigned long of 64 bits, which has 20 digits at most.
unfoldable pub format_lu : ℕ → Bytes
unfolding digits
format_lu n = if n == 0 then b'0' ∷ [] else digits 20 n []

-- `%d` of an int.
unfoldable pub format_d : ℤ → Bytes
unfolding format_lu
format_d (pos n) = format_lu n
format_d (negsuc n) = b'-' ∷ format_lu (suc n)

unfoldable pub isspace : ℕ → Bool
isspace c = (c == 32) || (leb 9 c && leb c 13)

unfoldable pub isdigit : ℕ → Bool
isdigit c = leb b'0' c && leb c b'9'

-- The number that the digits at the start of a text spell behind `n`, with no bound.
unfoldable pub scan : ℕ → Bytes → ℕ
unfolding isdigit
scan n [] = n
scan n (c ∷ s) = let rest = scan (n * 10 + (c - b'0')) s in if isdigit c then rest else n

-- The largest long long.
abbrev pub llong_max : ℕ
llong_max = 2 ^ 63 - 1

-- A value out of range is clamped, as strtoll does.
abbrev clamp_pos : ℕ → ℤ
clamp_pos n = if leb n llong_max then pos n else pos llong_max

abbrev clamp_neg : ℕ → ℤ
clamp_neg n = if n == 0 then pos 0 else if leb n (2 ^ 63) then negsuc (n - 1) else negsuc llong_max

-- The text behind the white space: a sign, and then the digits.
unfoldable pub signed_value : Bytes → ℤ
unfolding scan
signed_value [] = pos 0
signed_value (c ∷ s) =
    if c == b'-'
    then clamp_neg (scan 0 s)
    else if c == b'+'
    then clamp_pos (scan 0 s)
    else clamp_pos (scan 0 (c ∷ s))

unfoldable pub skip_space : Bytes → Bytes
unfolding isspace
skip_space [] = []
skip_space (c ∷ s) = let rest = skip_space s in if isspace c then rest else c ∷ s

unfoldable pub atoll : Bytes → ℤ
unfolding signed_value skip_space
atoll s = signed_value (skip_space s)

-- The conversion of a long long to uint64_t.
unfoldable pub to_uint64 : ℤ → ℕ
to_uint64 (pos n) = n % 2 ^ 64
to_uint64 (negsuc n) = 2 ^ 64 - 1 - n % 2 ^ 64

-- `str.find('.')` and `substr(0, found)`: the bytes before the first dot, or all.
unfoldable pub before_dot : Bytes → Bytes
before_dot [] = []
before_dot (x ∷ s) = if x == b'.' then [] else x ∷ before_dot s
