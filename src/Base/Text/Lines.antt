-- ===== src/Base/Text/Lines.antt =====
-- Texts joined by a separator: `join` of a list of texts.
use mathlib.Core.Path.{◌≡◌, subst, sym}
use mathlib.Core.Logic.{inl, inr}
use mathlib.Core.Bool.{true}
use mathlib.Core.List.{List, [], ◌∷◌, ◌++◌, append-nil}
use native.Mathlib.Omega.{arith}
use iceberg_db_rs.Base.Tests.{Bool-cases}
use iceberg_db_rs.Base.Text.{Text, has_name, text_eq, text_eq_iff}
use iceberg_db_rs.Base.Text.Cut.{contains, contains-append}

unfoldable pub join_texts : Text → List Text → Text
join_texts separator [] = []
join_texts separator (x ∷ []) = x
join_texts separator (x ∷ y ∷ xs) = x ++ (separator ++ join_texts separator (y ∷ xs))

contains-behind : (p r s : Text) → contains p s ≡ true → contains p (r ++ s) ≡ true
unfolding contains
contains-behind p [] s h = h
contains-behind p (c ∷ r) s h = ground (arith, contains-behind p r s h)

contains-before : (p x s : Text) → text_eq x p ≡ true → contains p (x ++ s) ≡ true
contains-before p x s h =
    subst (λ (t : Text). contains p (t ++ s) ≡ true) (sym ((text_eq_iff x p).0 h))
      (contains-append p [] s)

contains-itself : (p x : Text) → text_eq x p ≡ true → contains p x ≡ true
contains-itself p x h =
    subst (λ (t : Text). contains p t ≡ true) (append-nil x) (contains-before p x [] h)

-- A text of the list is in the joined text.
pub contains-join_texts :
    (separator p : Text) (xs : List Text)
    → has_name p xs ≡ true
    → contains p (join_texts separator xs) ≡ true
unfolding join_texts
contains-join_texts separator p [] h = cc
contains-join_texts separator p (x ∷ []) h = contains-itself p x (ground (arith, h))
contains-join_texts separator p (x ∷ y ∷ xs) h = elim (Bool-cases (text_eq x p)) [
  | inl e ↦ contains-before p x (separator ++ join_texts separator (y ∷ xs)) e
  | inr e ↦ contains-behind p x (separator ++ join_texts separator (y ∷ xs)) (
      contains-behind p separator (join_texts separator (y ∷ xs))
        (contains-join_texts separator p (y ∷ xs) (ground (arith, h, e))))
]
