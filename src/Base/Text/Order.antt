-- ===== src/Base/Text/Order.antt =====
-- The order of texts, `sort` and `dedup` of them.
use mathlib.Core.Path.{◌≡◌, refl, ◌∙◌, ap, sym, subst}
use mathlib.Core.Logic.{inl, inr}
use mathlib.Core.Bool.{Bool, true, false, ◌&&◌, ◌||◌}
use mathlib.Core.List.{List, [], ◌∷◌, ◌++◌}
use native.Mathlib.Omega.{arith}
use iceberg_db_rs.Base.Tests.{if◌then◌else◌, Bool-cases, ltb, ◌==◌}
use iceberg_db_rs.Base.Sort.{insert_sorted, sort, SortedFrom, IsSorted, sort-IsSorted}
use iceberg_db_rs.Base.Text.{Text, text_eq, text_eq_iff, has_name}

-- By code points, which is the order of the bytes in UTF-8.
abbrev pub text_le : Text → Text → Bool
text_le [] t = true
text_le (c ∷ s) [] = false
text_le (c ∷ s) (d ∷ t) = ltb c d || ((c == d) && text_le s t)

pub text_le_total : (s t : Text) → text_le s t ≡ false → text_le t s ≡ true
text_le_total [] t h = absurd (ground arith)
text_le_total (c ∷ s) [] h = refl
text_le_total (c ∷ s) (d ∷ t) h = ground (arith, text_le_total s t)

pub text_le_antisym : (s t : Text) → text_le s t ≡ true → text_le t s ≡ true → text_eq s t ≡ true
text_le_antisym [] [] h k = refl
text_le_antisym [] (d ∷ t) h k = absurd (ground arith)
text_le_antisym (c ∷ s) [] h k = absurd (ground arith)
text_le_antisym (c ∷ s) (d ∷ t) h k = ground (arith, text_le_antisym s t)

-- `dedup`: a text that equals the one before it is dropped.
unfoldable pub drop_same : Text → List Text → List Text
drop_same x [] = []
drop_same x (y ∷ ys) =
    let same = drop_same x ys in
    let other = drop_same y ys in if text_eq x y then same else y ∷ other

unfoldable pub dedup : List Text → List Text
unfolding drop_same
dedup [] = []
dedup (x ∷ xs) = x ∷ drop_same x xs

-- Each text is below the next, from `a` on.
abbrev pub AscendingFrom : Text → List Text → Type 0
AscendingFrom a [] = Unit
AscendingFrom a (x ∷ xs) = (text_le x a ≡ false) × AscendingFrom x xs

abbrev pub IsAscending : List Text → Type 0
IsAscending [] = Unit
IsAscending (x ∷ xs) = AscendingFrom x xs

drop_same-AscendingFrom :
    (x : Text) (ys : List Text) → SortedFrom text_le x ys → AscendingFrom x (drop_same x ys)
unfolding drop_same
drop_same-AscendingFrom x [] s = tt
drop_same-AscendingFrom x (y ∷ ys) s = elim (Bool-cases (text_eq x y)) [
  | inl same ↦ rw same (
      drop_same-AscendingFrom x ys
        (subst (λ z. SortedFrom text_le z ys) (sym ((text_eq_iff x y).0 same)) s.1))
  | inr other ↦ rw other (ground (arith, text_le_antisym x y s.0), drop_same-AscendingFrom y ys s.1)
]

pub dedup-IsAscending : (xs : List Text) → IsSorted text_le xs → IsAscending (dedup xs)
unfolding dedup
dedup-IsAscending [] s = tt
dedup-IsAscending (x ∷ xs) s = drop_same-AscendingFrom x xs s

has_name-drop_same :
    (n x : Text) (ys : List Text)
    → (text_eq x n || has_name n (drop_same x ys)) ≡ (text_eq x n || has_name n ys)
unfolding drop_same
has_name-drop_same n x [] = refl
has_name-drop_same n x (y ∷ ys) = elim (Bool-cases (text_eq x y)) [
  | inl same ↦ rw same (
      has_name-drop_same n x ys
      ∙ subst
          (λ z. (text_eq x n || has_name n ys) ≡ (text_eq x n || (text_eq z n || has_name n ys)))
          ((text_eq_iff x y).0 same) (ground arith))
  | inr other ↦ rw other (ap (λ b. text_eq x n || b) (has_name-drop_same n y ys))
]

pub has_name-dedup : (n : Text) (xs : List Text) → has_name n (dedup xs) ≡ has_name n xs
unfolding dedup
has_name-dedup n [] = refl
has_name-dedup n (x ∷ xs) = has_name-drop_same n x xs

has_name-insert_sorted :
    (n x : Text) (ys : List Text)
    → has_name n (insert_sorted text_le x ys) ≡ (text_eq x n || has_name n ys)
unfolding insert_sorted
has_name-insert_sorted n x [] = refl
has_name-insert_sorted n x (y ∷ ys) = ground (arith, has_name-insert_sorted n x ys)

pub has_name-sort : (n : Text) (xs : List Text) → has_name n (sort text_le xs) ≡ has_name n xs
unfolding sort
has_name-sort n [] = refl
has_name-sort n (x ∷ xs) =
    has_name-insert_sorted n x (sort text_le xs) ∙ ap (λ b. text_eq x n || b) (has_name-sort n xs)

pub has_name-append :
    (n : Text) (xs ys : List Text) → has_name n (xs ++ ys) ≡ (has_name n xs || has_name n ys)
has_name-append n [] ys = refl
has_name-append n (x ∷ xs) ys = ground (arith, has_name-append n xs ys)

-- Sorted and without repetition: the same texts, in ascending order.
pub dedup-sort-IsAscending : (xs : List Text) → IsAscending (dedup (sort text_le xs))
dedup-sort-IsAscending xs =
    dedup-IsAscending (sort text_le xs) (sort-IsSorted text_le text_le_total xs)

pub has_name-dedup-sort :
    (n : Text) (xs : List Text) → has_name n (dedup (sort text_le xs)) ≡ has_name n xs
has_name-dedup-sort n xs = has_name-dedup n (sort text_le xs) ∙ has_name-sort n xs
