-- ===== src/Base/Dict.antt =====
-- Maps with text keys: the `BTreeMap` and `HashMap` operations that the program uses. Nothing the
-- program returns depends on the order of the entries.
use mathlib.Core.Path.{◌≡◌}
use mathlib.Core.List.{List, [], ◌∷◌}
use mathlib.Core.Option.{Option, none, some}
use native.Mathlib.Omega.{arith}
use iceberg_db_rs.Base.Tests.{if◌then◌else◌}
use iceberg_db_rs.Base.Text.{Text, text_eq, text_eq_iff}

abbrev pub Dict {ℓ} : Type ℓ → Type ℓ
Dict V = List (Text × V)

module _ {ℓ} {V : Type ℓ} where
  unfoldable pub get : Dict V → Text → Option V
  get [] k = none
  get ((j, v) ∷ m) k = if text_eq j k then some v else get m k

  unfoldable pub remove : Dict V → Text → Dict V
  remove [] k = []
  remove ((j, v) ∷ m) k = let rest = remove m k in if text_eq j k then rest else (j, v) ∷ rest

  unfoldable pub insert : Dict V → Text → V → Dict V
  insert m k v = (k, v) ∷ remove m k

  -- `entry(k).or_insert(v)`.
  unfoldable pub or_insert : Dict V → Text → V → Dict V
  or_insert m k v = elim (get m k) [ some _ ↦ m | none ↦ insert m k v ]

  pub get-remove :
      (m : Dict V) (k j : Text) → get (remove m k) j ≡ (if text_eq k j then none else get m j)
  unfolding get remove
  get-remove [] k j = ground arith
  get-remove ((i, v) ∷ m) k j =
      ground (arith, get-remove m k j, text_eq_iff i k, text_eq_iff i j, text_eq_iff k j)

  pub get-insert :
      (m : Dict V) (k : Text) (v : V) (j : Text)
      → get (insert m k v) j ≡ (if text_eq k j then some v else get m j)
  unfolding get insert
  get-insert m k v j = ground (arith, get-remove m k j)

  pub get-or_insert :
      (m : Dict V) (k : Text) (v : V) (j : Text)
      → get (or_insert m k v) j
        ≡ (if text_eq k j then elim (get m k) [ some w ↦ some w | none ↦ some v ] else get m j)
  unfolding or_insert
  get-or_insert m k v j = ground (arith, get-insert m k v j, text_eq_iff k j)
