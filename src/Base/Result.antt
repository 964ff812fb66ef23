-- ===== src/Base/Result.antt =====
-- A value or an error of the program.
pub mod Run
use mathlib.Core.Path.{◌≡◌, refl}
use mathlib.Core.Option.{Option, none, some}

pub data Result {ℓ} (E A : Type ℓ) : Type ℓ where
  ok : A → Result E A
  err : E → Result E A

infixl 5 ◌>>=◌
abbrev pub ◌>>=◌ {ℓ} : {E A B : Type ℓ} → Result E A → (A → Result E B) → Result E B
ok a >>= f = f a
err e >>= f = err e

abbrev pub ok_or {ℓ} : {E A : Type ℓ} → E → Option A → Result E A
ok_or e none = err e
ok_or e (some a) = ok a

abbrev pub map_err {ℓ} : {E F A : Type ℓ} → (E → F) → Result E A → Result F A
map_err f (ok a) = ok a
map_err f (err e) = err (f e)

-- Of a result that is a value.
abbrev pub Satisfies : {E A : Type 0} → (A → Type 0) → Result E A → Type 0
Satisfies P (err e) = Unit
Satisfies P (ok a) = P a

-- What follows may use that the value was the result.
pub Satisfies->>= :
    {E A B : Type 0} (Q : B → Type 0) (r : Result E A) (f : A → Result E B)
    → ((a : A) → r ≡ ok a → Satisfies Q (f a))
    → Satisfies Q (r >>= f)
Satisfies->>= Q (err e) f k = tt
Satisfies->>= Q (ok a) f k = k a refl

pub ok_or-ok : {E A : Type 0} (e : E) (o : Option A) (a : A) → ok_or e o ≡ ok a → o ≡ some a
ok_or-ok e none a h = cc
ok_or-ok e (some b) a h = cc
