-- ===== src/Base/Effects.antt =====
-- Methods that read and write a state and may fail: the state comes back beside a failure too.
use mathlib.Core.List.{List, [], ◌∷◌}
use iceberg_db_rs.Base.Fallible.{Outcome, ok, err, panic, ErrorKind}

abbrev pub Io {ℓ} : Type ℓ → Type ℓ → Type ℓ
Io S A = S → Outcome A × S

module _ {ℓ} {S A : Type ℓ} where
  abbrev pub pure : A → Io S A
  pure a s = (ok a, s)

  abbrev pub fail : ErrorKind → Io S A
  fail e s = (err e, s)

  abbrev pub lift : Outcome A → Io S A
  lift r s = (r, s)

-- What follows an outcome, in the state that it left.
abbrev pub and_then {ℓ} : {A B S : Type ℓ} → Outcome A → (A → S → Outcome B × S) → S → Outcome B × S
and_then (ok a) f s = f a s
and_then (err e) f s = (err e, s)
and_then panic f s = (panic, s)

-- One call, then what follows from its value.
abbrev pub then_do {ℓ} : {A B S : Type ℓ} → Io S A → (A → Io S B) → Io S B
then_do m f s = let (r, s') = m s in and_then r f s'

-- `for x in xs { body(x)?; }`.
unfoldable pub for_each {ℓ} : {A S : Type ℓ} → (A → Io S (Unit {ℓ})) → List A → Io S (Unit {ℓ})
for_each body [] s = (ok tt, s)
for_each body (x ∷ xs) s = then_do (body x) (λ u. for_each body xs) s
