-- ===== src/Session/Batches.antt =====
-- Record batches as the session reads them: `rows_as_strings`, `format_batches_table`,
-- `format_explain_batches`, `utf8_column_values` and `push_utf8_column` of
-- crates/idb-sql/src/lib.rs. Arrays are those of the Arrow library.
pub mod Plans
use iceberg_db_rs.Base.{
  ℕ, zero, suc, ◌+◌, Bool, true, false, Option, none, some, List, [], ◌∷◌, ◌++◌, map, ◌%◌, ◌^◌,
  if◌then◌else◌,
}
use iceberg_db_rs.Base.Text.{Text, codes, text_eq}
use iceberg_db_rs.Base.Text.Lines.{join_texts}
use iceberg_db_rs.Config.Profile.{is_empty, or_text}
use iceberg_db_rs.QueryIo.{Target, native, wasm32}

-- As many columns as fields, each of as many rows.
pub record RecordBatch (A : Type 0) : Type 0 where
  pub fields : List Text
  pub columns : List A
  pub num_rows : ℕ

-- What the code asks of the Arrow library: the texts of an array, where `none` is a null, if it is
-- one of either kind of text arrays; a value as text, if it can be shown; an array of texts; and a
-- table of batches, or an error.
pub record Arrow (A : Type 0) : Type 0 where
  pub as_string : A → Option (List (Option Text))
  pub as_large_string : A → Option (List (Option Text))
  pub array_value_to_string : A → ℕ → Option Text
  pub from_names : List Text → A
  pub pretty_format_batches : List (RecordBatch A) → Option Text
  pub format_error : List (RecordBatch A) → Text

-- `Iterator::sum` in `usize`, which has 32 bits in the browser.
abbrev pub usize_mod : Target → ℕ
usize_mod native = 2 ^ 64
usize_mod wasm32 = 2 ^ 32

unfoldable pub sum_rows : {A : Type 0} → Target → List (RecordBatch A) → ℕ → ℕ
sum_rows target [] n = n
sum_rows target (b ∷ bs) n = sum_rows target bs ((n + b.num_rows) % usize_mod target)

-- The values of a text array that are not null.
abbrev pub non_null : List (Option Text) → List Text
non_null [] = []
non_null (none ∷ xs) = non_null xs
non_null (some t ∷ xs) = t ∷ non_null xs

abbrev pub non_null_some : Option (List (Option Text)) → List Text
non_null_some none = []
non_null_some (some xs) = non_null xs

-- The first column of the name, by `index_of`.
unfoldable pub column_named : {A : Type 0} → Text → List Text → List A → Option A
column_named name [] columns = none
column_named name (f ∷ fields) [] = none
column_named name (f ∷ fields) (c ∷ columns) =
    if text_eq f name then some c else column_named name fields columns

abbrev pub section : Text → Text → Text
section kind body = codes "=== " ++ (kind ++ (codes " ===\n" ++ body))

-- The loop over the kinds and bodies of plans, side by side.
unfoldable pub plan_sections : List Text → List Text → List Text
plan_sections [] plans = []
plan_sections (k ∷ kinds) [] = []
plan_sections (k ∷ kinds) (body ∷ plans) =
    let rest = plan_sections kinds plans in if is_empty body then rest else section k body ∷ rest

module _ {A : Type 0} (arrow : Arrow A) where
  -- The cells of a row, column by column.
  unfoldable pub row_cells : ℕ → List A → List Text
  row_cells row [] = []
  row_cells row (c ∷ columns) =
      or_text (arrow.array_value_to_string c row) (codes "NULL") ∷ row_cells row columns

  -- So many rows of a batch, from the given one on.
  unfoldable pub batch_rows : List A → ℕ → ℕ → List (List Text)
  unfolding row_cells
  batch_rows columns row zero = []
  batch_rows columns row (suc n) = row_cells row columns ∷ batch_rows columns (suc row) n

  unfoldable pub rows_as_strings : List (RecordBatch A) → List (List Text)
  unfolding batch_rows
  rows_as_strings [] = []
  rows_as_strings (b ∷ batches) = batch_rows b.columns 0 b.num_rows ++ rows_as_strings batches

  unfoldable pub format_batches_table : List (RecordBatch A) → Text
  format_batches_table batches =
      or_text (arrow.pretty_format_batches batches)
        (codes "(could not format: " ++ (arrow.format_error batches ++ codes ")"))

  unfoldable pub push_utf8_column : A → List Text → List Text
  push_utf8_column column lines = elim (arrow.as_string column) [
    | some xs ↦ lines ++ non_null xs
    | none ↦ lines ++ non_null_some (arrow.as_large_string column)
  ]

  unfoldable pub utf8_column_values : A → List Text
  unfolding push_utf8_column
  utf8_column_values column = push_utf8_column column []

  -- The loop over all columns of a batch.
  unfoldable pub push_columns : List A → List Text → List Text
  unfolding push_utf8_column
  push_columns [] lines = lines
  push_columns (c ∷ columns) lines = push_columns columns (push_utf8_column c lines)

  abbrev pub sections_by : List A → Option A → Option A → List Text
  sections_by columns (some kinds) (some plans) =
      plan_sections (utf8_column_values kinds) (utf8_column_values plans)
  sections_by columns (some kinds) none = join_texts (codes "\n") (push_columns columns []) ∷ []
  sections_by columns none plans = join_texts (codes "\n") (push_columns columns []) ∷ []

  unfoldable pub batch_sections : RecordBatch A → List Text
  unfolding plan_sections push_columns utf8_column_values column_named
  batch_sections b =
      sections_by b.columns (column_named (codes "plan_type") b.fields b.columns)
        (column_named (codes "plan") b.fields b.columns)

  unfoldable pub all_sections : List (RecordBatch A) → List Text
  unfolding batch_sections
  all_sections [] = []
  all_sections (b ∷ batches) = batch_sections b ++ all_sections batches

  unfoldable pub format_explain_batches : List (RecordBatch A) → Text
  unfolding all_sections join_texts
  format_explain_batches batches = join_texts (codes "\n\n") (all_sections batches)
