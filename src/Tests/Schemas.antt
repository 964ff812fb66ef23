-- ===== src/Tests/Schemas.antt =====
-- Runs of the lookup of schemas, tables and columns in any case.
use mathlib.Core.Logic.{◌⊎◌}
use iceberg_db_rs.Base.{
  ℕ, ◌≡◌, refl, sym, ◌∙◌, subst, Bool, true, Option, none, some, List, [], ◌∷◌, arith, inl, inr,
  Bool-cases, if◌then◌else◌,
}
use iceberg_db_rs.Base.Text.{has_name, Text, codes, text_eq, text_eq_iff}
use iceberg_db_rs.Base.Text.Chars.{lower_char}
use iceberg_db_rs.Base.Dict
use iceberg_db_rs.CaseInsensitive.{
  eq_ignore_ascii_case, is_some, resolve_schema_name, resolve_table_name, scan,
}
use iceberg_db_rs.CaseInsensitive.Names.{IsDistinct}
use iceberg_db_rs.CaseInsensitive.Columns.{AreSmall, IsProject, output_names, scan-lowercase_schema}

-- What the runs unfold.
program : Unit {0}
unfolding resolve_schema_name resolve_table_name lower_char Dict.get Dict.insert Dict.remove scan
program = tt

abbrev pub names : List Text
names = codes "ORDERS" ∷ codes "Items" ∷ []

abbrev exists : Text → Bool
exists n = has_name n names

-- A schema is given by its name.
abbrev schema : Text → Option Text
schema n = if has_name n names then some n else none

any_case : resolve_table_name exists names (codes "orders") ≡ some (codes "ORDERS")
unfolding program
any_case = refl

unknown : resolve_schema_name schema names (codes "order") ≡ none
unfolding program
unknown = refl

schema_named : (n : Text) → is_some (schema n) ≡ has_name n names
schema_named n = elim (Bool-cases (has_name n names)) [ inl h ↦ rw h | inr h ↦ rw h ]

named : (n : Text) → has_name n names ≡ true → (codes "ORDERS" ≡ n) ⊎ (codes "Items" ≡ n)
named n h = elim (Bool-cases (text_eq (codes "ORDERS") n)) [
  | inl first ↦ inl ((text_eq_iff (codes "ORDERS") n).0 first)
  | inr other ↦ inr ((text_eq_iff (codes "Items") n).0 (ground arith))
]

pub names-IsDistinct : IsDistinct names
unfolding program
names-IsDistinct a b p q s = elim (named a p) [
  | inl e ↦ elim (named b q) [
    | inl f ↦ sym e ∙ f
    | inr f ↦ absurd (
        ground (
          arith,
          subst (λ x. eq_ignore_ascii_case (codes "ORDERS") x ≡ true) (sym f)
              (subst (λ x. eq_ignore_ascii_case x b ≡ true) (sym e) s),
        ))
  ]
  | inr e ↦ elim (named b q) [
    | inl f ↦ absurd (
        ground (
          arith,
          subst (λ x. eq_ignore_ascii_case (codes "Items") x ≡ true) (sym f)
              (subst (λ x. eq_ignore_ascii_case x b ≡ true) (sym e) s),
        ))
    | inr f ↦ sym e ∙ f
  ]
]

orders_named : has_name (codes "ORDERS") names ≡ true
orders_named = refl

orders_spelled : eq_ignore_ascii_case (codes "ORDERS") (codes "oRders") ≡ true
unfolding program
orders_spelled = refl

-- A plan that is the list of its columns.
abbrev project : List (Text × ℕ × Text) → List Text → Option (List Text)
project exprs plan = some (output_names exprs)

abbrev columns : List Text → List Text
columns plan = plan

project-IsProject : IsProject columns project
project-IsProject exprs plan h = (output_names exprs, (refl, refl))

scan-lowercase_schema_example :
    (p : List Text) × ((scan columns project names (some names) ≡ some p) × AreSmall names p)
scan-lowercase_schema_example = scan-lowercase_schema columns project project-IsProject names
