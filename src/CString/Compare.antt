-- ===== src/CString/Compare.antt =====
-- Laws of the comparisons of C strings.
use vr_admin.Prelude.{
  ◌≡◌, refl, ap, ◌∙◌, sym, ◌↔◌, true, ==_refl, [], ◌∷◌, ◌++◌, length, take, drop, arith,
}
use vr_admin.CString.{Bytes, strcmp, strncmp}

pub strcmp_refl : (a : Bytes) → strcmp a a ≡ true
unfolding strcmp
strcmp_refl [] = refl
strcmp_refl (x ∷ a) = ground (arith, ==_refl x, strcmp_refl a)

pub strcmp_sound : (a b : Bytes) → strcmp a b ≡ true → a ≡ b
unfolding strcmp
strcmp_sound [] [] h = refl
strcmp_sound [] (y ∷ b) h = cc
strcmp_sound (x ∷ a) [] h = cc
strcmp_sound (x ∷ a) (y ∷ b) h = ground (arith, strcmp_sound a b)

-- The test is equality.
pub strcmp_iff : (a b : Bytes) → (strcmp a b ≡ true) ↔ (a ≡ b)
strcmp_iff a b = (strcmp_sound a b, λ e. ap (strcmp a) (sym e) ∙ strcmp_refl a)

strcmp-take_sound :
    (a b : Bytes) → strcmp a (take (length a) b) ≡ true → (rest : Bytes) × (b ≡ a ++ rest)
unfolding strcmp
strcmp-take_sound [] b h = (b, refl)
strcmp-take_sound (x ∷ a) [] h = cc
strcmp-take_sound (x ∷ a) (y ∷ b) h =
    let (rest, e) = strcmp-take_sound a b (ground arith) in (rest, ground arith)

pub take-length-append : (a rest : Bytes) → take (length a) (a ++ rest) ≡ a
take-length-append [] rest = refl
take-length-append (x ∷ a) rest = ap (◌∷◌ x) (take-length-append a rest)

pub drop-length-append : (a rest : Bytes) → drop (length a) (a ++ rest) ≡ rest
drop-length-append [] rest = refl
drop-length-append (x ∷ a) rest = drop-length-append a rest

pub take-length : (a : Bytes) → take (length a) a ≡ a
take-length [] = refl
take-length (x ∷ a) = ap (◌∷◌ x) (take-length a)

-- A comparison over the length of the first text holds exactly for the texts that start with it.
pub strncmp-length :
    (a b : Bytes) → (strncmp a b (length a) ≡ true) ↔ ((rest : Bytes) × (b ≡ a ++ rest))
unfolding strncmp
strncmp-length a b = (
  λ h. strcmp-take_sound a b (rw take-length at h),
  λ (rest, e). rw (e, take-length, take-length-append) (strcmp_refl a),
)
