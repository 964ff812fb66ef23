-- ===== src/CaseInsensitive.antt =====
-- crates/idb-sql/src/case_insensitive.rs: schemas and tables found whatever the case of ASCII
-- letters, and the columns of a table in lower case. The wrapped catalog, its schemas and the
-- execution plans are parameters.
pub mod Names
pub mod Columns
use iceberg_db_rs.Base.{
  ℕ, zero, suc, Bool, true, false, ◌&&◌, ◌||◌, not, Option, none, some, List, [], ◌∷◌, map, ◌==◌,
  if◌then◌else◌, length,
}
use iceberg_db_rs.Base.Text.{Text, text_eq}
use iceberg_db_rs.Base.Text.Chars.{to_ascii_lowercase}
use iceberg_db_rs.Base.Dict
use iceberg_db_rs.Base.Dict.{Dict}

abbrev pub eq_ignore_ascii_case : Text → Text → Bool
eq_ignore_ascii_case a b = text_eq (to_ascii_lowercase a) (to_ascii_lowercase b)

abbrev pub is_some {ℓ} : {A : Type ℓ} → Option A → Bool
is_some none = false
is_some (some x) = true

unfoldable pub find_name : Text → List Text → Option Text
find_name name [] = none
find_name name (n ∷ ns) = if eq_ignore_ascii_case n name then some n else find_name name ns

-- `CaseInsensitiveCatalog`: what the wrapped catalog gives for a name, and its names.
module _ {ℓ} {Schema : Type ℓ} (schema : Text → Option Schema) (schema_names : List Text) where
  unfoldable pub resolve_schema_name : Text → Option Text
  unfolding find_name
  resolve_schema_name name =
      if is_some (schema name) then some name else find_name name schema_names

  unfoldable pub find_schema : Text → Option Schema
  unfolding resolve_schema_name
  find_schema name = elim (resolve_schema_name name) [
    | none ↦ none
    | some resolved ↦ schema resolved
  ]

-- `CaseInsensitiveSchema::new`: the names by their spelling in lower case, a later name in place of
-- an earlier one.
unfoldable pub collect_names : List Text → Dict Text → Dict Text
collect_names [] m = m
collect_names (n ∷ ns) m = collect_names ns (Dict.insert m (to_ascii_lowercase n) n)

module _ (exists : Text → Bool) (table_names : List Text) where
  unfoldable pub resolve_table_name : Text → Option Text
  unfolding collect_names
  resolve_table_name name =
      if exists name
      then some name
      else Dict.get (collect_names table_names []) (to_ascii_lowercase name)

  unfoldable pub table_exist : Text → Bool
  unfolding resolve_table_name
  table_exist name = is_some (resolve_table_name name)

  -- `table` and `deregister_table`: the call on the wrapped schema, of the resolved name.
  unfoldable pub at_resolved_table {ℓ} : {R : Type ℓ} → R → (Text → R) → Text → R
  unfolding resolve_table_name
  at_resolved_table missing operation name = elim (resolve_table_name name) [
    | none ↦ missing
    | some resolved ↦ operation resolved
  ]

unfoldable pub lowercase_schema : List Text → List Text
lowercase_schema = map to_ascii_lowercase

-- The names of a plan and of the target side by side, from a column's index on.
unfoldable pub column_exprs : ℕ → List Text → List Text → List (Text × ℕ × Text)
column_exprs index [] dst = []
column_exprs index (s ∷ src) [] = []
column_exprs index (s ∷ src) (d ∷ dst) = (s, index, d) ∷ column_exprs (suc index) src dst

unfoldable pub any_differs : List Text → List Text → Bool
any_differs [] dst = false
any_differs (s ∷ src) [] = false
any_differs (s ∷ src) (d ∷ dst) = not (text_eq s d) || any_differs src dst

-- `rename_output_columns`, and `scan` of `CaseInsensitiveTable`: `columns` are the names of a plan's
-- columns, `project` is `ProjectionExec::try_new`.
module _ {ℓ} {Plan : Type ℓ} (columns : Plan → List Text)
    (project : List (Text × ℕ × Text) → Plan → Option Plan) where
  unfoldable pub rename_output_columns : Plan → List Text → Option Plan
  unfolding column_exprs any_differs
  rename_output_columns plan target =
      if not (length (columns plan) == length target)
      then some plan
      else if not (any_differs (columns plan) target)
      then some plan
      else project (column_exprs 0 (columns plan) target) plan

  -- The wrapped table's columns, and what its scan gives for the same arguments.
  unfoldable pub scan : List Text → Option Plan → Option Plan
  unfolding rename_output_columns lowercase_schema
  scan schema scanned = elim scanned [
    | none ↦ none
    | some plan ↦ rename_output_columns plan (lowercase_schema schema)
  ]
