-- ===== src/Base/Result/Run.antt =====
-- Calls on a state that give a value or an error.
use mathlib.Core.Path.{◌≡◌, refl}
use iceberg_db_rs.Base.Result.{Result, ok, err, Satisfies}

-- The state comes back beside an error too.
abbrev pub Run {ℓ} : Type ℓ → Type ℓ → Type ℓ → Type ℓ
Run E S A = S → Result E A × S

abbrev pub and_then {ℓ} : {E S A B : Type ℓ} → Result E A → (A → Run E S B) → Run E S B
and_then (ok a) f s = f a s
and_then (err e) f s = (err e, s)

infixl 5 ◌>>=◌
abbrev pub ◌>>=◌ {ℓ} : {E S A B : Type ℓ} → Run E S A → (A → Run E S B) → Run E S B
◌>>=◌ m f s = let (r, s') = m s in and_then r f s'

abbrev pub lift {ℓ} : {E S A : Type ℓ} → Result E A → Run E S A
lift r s = (r, s)

-- What follows may use that the value was the result.
pub Satisfies-and_then :
    {E S A B : Type 0} (Q : B → Type 0) (r : Result E A) (f : A → Run E S B) (s : S)
    → ((a : A) → r ≡ ok a → Satisfies Q (f a s).0)
    → Satisfies Q (and_then r f s).0
Satisfies-and_then Q (err e) f s k = tt
Satisfies-and_then Q (ok a) f s k = k a refl
