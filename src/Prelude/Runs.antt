-- ===== src/Prelude/Runs.antt =====
-- Runs of C code: a result, or the place where the behaviour is undefined (a buffer overrun).

pub data Exec {ℓ} (A : Type ℓ) : Type ℓ where
  ok : A → Exec A
  undefined : Exec A

infixl 5 ◌>>=◌
abbrev pub ◌>>=◌ {ℓ κ} : {A : Type ℓ} {B : Type κ} → Exec A → (A → Exec B) → Exec B
ok a >>= f = f a
undefined >>= f = undefined
