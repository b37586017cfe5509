-- ===== src/DfuUtil.antt =====
-- src/com/android/VRAdmin/TalkToDfuUtil.java: the thread that reads the progress of a download from
-- the tool dfu-util and tells the callbacks of the service.
pub mod Progress
use vr_admin.Prelude.{
  ℕ, zero, suc, ◌+◌, ◌-◌, ◌*◌, ◌/◌, ◌%◌, Bool, true, false, not, ltb, if◌then◌else◌, Option, none,
  some, List, [], ◌∷◌, ◌++◌, take, ℤ, pos, negsuc, minus_one, eqb_ℤ,
}
use vr_admin.CString.{Bytes}

-- The `int` with these bits, of which the lower 32 count.
unfoldable pub int_of_bits : ℕ → ℤ
int_of_bits n =
    let m = n % 4294967296 in if ltb m 2147483648 then pos m else negsuc (4294967295 - m)

-- `value`: the buffer is four bytes, which are 0 where nothing was read. They lie in disjoint bits, so
-- that their `|` is a sum.
unfoldable pub value_of : Bytes → ℤ
value_of buffer = of_four (take 4 (buffer ++ (0 ∷ 0 ∷ 0 ∷ 0 ∷ [])))
  where
    of_four : Bytes → ℤ
    of_four (b0 ∷ b1 ∷ b2 ∷ b3 ∷ []) = int_of_bits (b0 + b1 * 256 + b2 * 65536 + b3 * 16777216)
    of_four s = pos 0

-- `writeSize * 100`, which wraps around.
unfoldable pub times_hundred : ℤ → ℤ
times_hundred (pos n) = int_of_bits (n * 100)
times_hundred (negsuc n) = int_of_bits (429496729600 - suc n * 100)

abbrev pub minus : ℕ → ℤ
minus zero = pos 0
minus (suc n) = negsuc n

-- The division of `int`, which rounds to 0 and throws at 0.
unfoldable pub divide : ℤ → ℤ → Option ℤ
divide a (pos zero) = none
divide (pos a) (pos (suc b)) = some (pos (a / suc b))
divide (negsuc a) (pos (suc b)) = some (minus (suc a / suc b))
divide (pos a) (negsuc b) = some (minus (a / suc b))
divide (negsuc a) (negsuc b) = some (int_of_bits (suc a / suc b))

-- The two sizes at the end of the loop, what was broadcast, and whether the thread threw.
pub record Talk : Type 0 where
  pub file_size : ℤ
  pub write_size : ℤ
  pub broadcasts : List ℤ
  pub threw : Bool

abbrev ends : Bool → ℤ → ℤ → Talk
ends threw file_size write_size = record {
  file_size = file_size;
  write_size = write_size;
  broadcasts = [];
  threw = threw;
}

-- `broadcastFlashProgress`, in front of what follows.
abbrev broadcast : ℤ → Talk → Talk
broadcast progress t = record t { broadcasts = progress ∷ t.broadcasts }

abbrev progressed : Option ℤ → ℤ → ℤ → Talk → Talk
progressed none file_size write_size rest = ends true file_size write_size
progressed (some progress) file_size write_size rest = broadcast progress rest

-- The loop, over what the reads give; behind them a read gives -1 or throws an IOException, and a read
-- of no bytes ends the loop as well.
unfoldable pub talk_loop : List Bytes → ℤ → ℤ → Talk
talk_loop [] file_size write_size = ends false file_size write_size
talk_loop ([] ∷ reads) file_size write_size = ends false file_size write_size
talk_loop ((b ∷ bs) ∷ reads) file_size write_size =
    let value = value_of (b ∷ bs) in
    let file_size' = if eqb_ℤ file_size minus_one then value else file_size in
    let write_size' = if eqb_ℤ file_size minus_one then write_size else value in
    let rest = talk_loop reads file_size' write_size' in
    progressed (divide (times_hundred write_size') file_size') file_size' write_size' rest

-- The `finally` block.
abbrev at_end : Talk → Talk
at_end t =
    if not (eqb_ℤ t.file_size t.write_size)
    then record t { broadcasts = t.broadcasts ++ (minus_one ∷ []) }
    else t

-- `talkWithSocket`, where a client connects; the service is not null.
unfoldable pub talk_with_socket : List Bytes → Talk
talk_with_socket reads = at_end (talk_loop reads minus_one (pos 0))
