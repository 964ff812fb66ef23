-- ===== src/Base/Sort.antt =====
-- `sort` and `dedup` of lists, over a Boolean order.
use Prim.Native.Nat.{suc}
use mathlib.Core.Path.{◌≡◌, refl, ap, ◌∙◌}
use mathlib.Core.Logic.{inl, inr}
use mathlib.Core.Bool.{Bool, true, false}
use mathlib.Core.List.{List, [], ◌∷◌}
use native.Mathlib.Omega.{arith}
use iceberg_db_rs.Base.Tests.{if◌then◌else◌, Bool-cases}
use iceberg_db_rs.Base.Lists.{All, length}

module _ {ℓ} {A : Type ℓ} (le : A → A → Bool) where
  unfoldable pub insert_sorted : A → List A → List A
  insert_sorted x [] = x ∷ []
  insert_sorted x (y ∷ ys) =
      let rest = insert_sorted x ys in if le x y then x ∷ y ∷ ys else y ∷ rest

  unfoldable pub sort : List A → List A
  unfolding insert_sorted
  sort [] = []
  sort (x ∷ xs) = insert_sorted x (sort xs)

  pub length-insert_sorted : (x : A) (xs : List A) → length (insert_sorted x xs) ≡ suc (length xs)
  unfolding insert_sorted
  length-insert_sorted x [] = refl
  length-insert_sorted x (y ∷ ys) = ground (arith, length-insert_sorted x ys)

  pub length-sort : (xs : List A) → length (sort xs) ≡ length xs
  unfolding sort
  length-sort [] = refl
  length-sort (x ∷ xs) = length-insert_sorted x (sort xs) ∙ ap suc (length-sort xs)

  pub insert_sorted-All {κ} :
      (P : A → Type κ) (x : A) (xs : List A) → P x → All P xs → All P (insert_sorted x xs)
  unfolding insert_sorted
  insert_sorted-All P x [] p h = (p, tt)
  insert_sorted-All P x (y ∷ ys) p h = elim (Bool-cases (le x y)) [
    | inl before ↦ rw before (p, (h.0, h.1))
    | inr after ↦ rw after (h.0, insert_sorted-All P x ys p h.1)
  ]

  pub sort-All {κ} : (P : A → Type κ) (xs : List A) → All P xs → All P (sort xs)
  unfolding sort
  sort-All P [] h = tt
  sort-All P (x ∷ xs) h = insert_sorted-All P x (sort xs) h.0 (sort-All P xs h.1)

  -- Each element is at most the next, from `a` on.
  abbrev pub SortedFrom : A → List A → Type 0
  SortedFrom a [] = Unit
  SortedFrom a (x ∷ xs) = (le a x ≡ true) × SortedFrom x xs

  abbrev pub IsSorted : List A → Type 0
  IsSorted [] = Unit
  IsSorted (x ∷ xs) = SortedFrom x xs

  module _ (total : (a b : A) → le a b ≡ false → le b a ≡ true) where
    insert_sorted-SortedFrom :
        (a x : A) (xs : List A)
        → le a x ≡ true
        → SortedFrom a xs
        → SortedFrom a (insert_sorted x xs)
    unfolding insert_sorted
    insert_sorted-SortedFrom a x [] h s = (h, tt)
    insert_sorted-SortedFrom a x (y ∷ ys) h s = elim (Bool-cases (le x y)) [
      | inl before ↦ rw before (h, (before, s.1))
      | inr after ↦ rw after (s.0, insert_sorted-SortedFrom y x ys (total x y after) s.1)
    ]

    insert_sorted-IsSorted : (x : A) (xs : List A) → IsSorted xs → IsSorted (insert_sorted x xs)
    unfolding insert_sorted
    insert_sorted-IsSorted x [] s = tt
    insert_sorted-IsSorted x (y ∷ ys) s = elim (Bool-cases (le x y)) [
      | inl before ↦ rw before (before, s)
      | inr after ↦ rw after (insert_sorted-SortedFrom y x ys (total x y after) s)
    ]

    pub sort-IsSorted : (xs : List A) → IsSorted (sort xs)
    unfolding sort
    sort-IsSorted [] = tt
    sort-IsSorted (x ∷ xs) = insert_sorted-IsSorted x (sort xs) (sort-IsSorted xs)
