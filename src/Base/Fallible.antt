-- ===== src/Base/Fallible.antt =====
-- `Result` of the program: a value, an error of the iceberg crate's kinds, or a panic.
pub data ErrorKind : Type 0 where
  cancelled data_invalid unexpected unsupported not_found : ErrorKind

pub data Outcome {ℓ} (A : Type ℓ) : Type ℓ where
  ok : A → Outcome A
  err : ErrorKind → Outcome A
  panic : Outcome A

infixl 5 ◌>>=◌
abbrev pub ◌>>=◌ {ℓ κ} : {A : Type ℓ} {B : Type κ} → Outcome A → (A → Outcome B) → Outcome B
ok a >>= f = f a
err e >>= f = err e
panic >>= f = panic
