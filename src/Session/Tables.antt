-- ===== src/Session/Tables.antt =====
-- What a statement for the tables of a schema shows, and what a query keeps of the queries before.
use iceberg_db_rs.Base.{
  ℕ, zero, suc, ◌+◌, ◌≡◌, refl, ◌∙◌, ap, false, Option, none, some, List, [], ◌∷◌, map, length,
  arith,
}
use mathlib.Core.List.{append-nil}
use package.native.Mathlib.Nat.{zero-add}
use iceberg_db_rs.Base.Result.{ok}
use iceberg_db_rs.Base.Text.{Text}
use iceberg_db_rs.Config.Profile.{or_text}
use iceberg_db_rs.QueryIo.{
  Target, native, wasm32, QueryIo, reset_query_state, bytes_fetched, files_fetched,
}
use iceberg_db_rs.Rest.Vended.{TableIdent}
use iceberg_db_rs.ShowTables.{parse_show_tables}
use iceberg_db_rs.ShowTables.Schema.{
  Parts, render, IsStatement, schema_of, parse_show_tables-render,
}
use iceberg_db_rs.Session.Batches.{Arrow, row_cells, batch_rows, rows_as_strings}
use iceberg_db_rs.Session.Query.{
  SqlSession, World, Libraries, QueryResult, table_names, show_columns, query, show_tables,
  listed_names, result_of, names_batch,
}

-- The element at an index.
abbrev pub nth : List Text → ℕ → Option Text
nth [] i = none
nth (x ∷ xs) zero = some x
nth (x ∷ xs) (suc i) = nth xs i

abbrev pub one_cell : Text → List Text
one_cell name = name ∷ []

module _ {A : Type 0} (arrow : Arrow A) where
  -- The value at an index of an array of texts is the text.
  abbrev pub ShowsNames : Type 0
  ShowsNames =
      (names : List Text) (i : ℕ) (n : Text)
      → nth names i ≡ some n
      → arrow.array_value_to_string (arrow.from_names names) i ≡ some n

  rows_from :
      (column : A) (names : List Text) (row : ℕ)
      → ((i : ℕ) (n : Text)
          → nth names i ≡ some n
          → arrow.array_value_to_string column (row + i) ≡ some n)
      → batch_rows arrow (column ∷ []) row (length names) ≡ map one_cell names
  unfolding batch_rows row_cells
  rows_from column [] row h = refl
  rows_from column (n ∷ names) row h = rw (first) (
      ap (◌∷◌ (one_cell n)) (
        rows_from column names (suc row)
          (λ i m e. ap (arrow.array_value_to_string column) (shift row i) ∙ h (suc i) m e)))
    where
      shift : (row i : ℕ) → suc row + i ≡ row + suc i
      shift row i = omega arith

      first : arrow.array_value_to_string column row ≡ some n
      first = ap (arrow.array_value_to_string column) (omega arith) ∙ h 0 n refl

module _ {A C P F S : Type 0} (target : Target) (lib : Libraries A C P F S) where
  -- A grid with one column, in which each name has a row.
  pub record ShowsTables (names : List Text) (w : World S) (r : QueryResult A) : Type 0 where
    pub grid : rows_as_strings lib.arrow r.batches ≡ map one_cell names
    pub header : r.columns ≡ show_columns
    pub counted : r.row_count ≡ length names
    pub bytes : r.result_bytes ≡ bytes_fetched target w.0
    pub files : r.result_files ≡ files_fetched target w.0

  shown-ShowsTables :
      ShowsNames lib.arrow
      → (started : ℕ) (names : List Text) (w : World S)
      → ShowsTables names w (
          result_of target lib started show_columns
            (names_batch target lib names ∷ [])
            (length names)
            w)
  unfolding rows_as_strings
  shown-ShowsTables shows started names w = record {
    grid =
        append-nil (batch_rows lib.arrow (lib.arrow.from_names names ∷ []) 0 (length names))
        ∙ rows_from lib.arrow (lib.arrow.from_names names) names 0 (λ i n e.
          ap (lib.arrow.array_value_to_string (lib.arrow.from_names names)) (zero-add i)
          ∙ shows names i n e);
    header = refl;
    counted = refl;
    bytes = refl;
    files = refl;
  }

  listed_names-list_tables :
      (session : SqlSession C P) (schema : Text)
      → session.wasm_demo ≡ false
      → (w w' : World S) (tables : List TableIdent)
      → lib.list_tables session.iceberg_catalog schema w ≡ (ok tables, w')
      → listed_names target lib session schema w ≡ (ok (table_names tables), w')
  unfolding listed_names
  listed_names-list_tables session schema native_session w w' tables listed =
      rw (native_session, listed_names) (rw (listed) refl)

  query-parsed :
      ShowsNames lib.arrow
      → (session : SqlSession C P) (sql : Text) (schema : Option Text) → session.wasm_demo ≡ false
      → parse_show_tables sql ≡ some schema
      → (w w' : World S) (tables : List TableIdent)
      → lib.list_tables session.iceberg_catalog
          (or_text schema session.default_schema)
          (reset_query_state target w.0, w.1)
        ≡ (ok tables, w')
      → (r : QueryResult A) × ((query target lib session sql w ≡ (ok r, w'))
          × ShowsTables (table_names tables) w' r)
  unfolding query show_tables
  query-parsed shows session sql schema native_session parsed w w' tables listed = (
    result_of target lib (lib.now (reset_query_state target w.0, w.1)) show_columns
        (names_batch target lib (table_names tables) ∷ []) (length (table_names tables)) w',
    (
      rw (parsed, query)
          (rw
            (listed_names-list_tables session (or_text schema session.default_schema) native_session
              (reset_query_state target w.0, w.1) w' tables listed)
            refl),
      shown-ShowsTables shows (lib.now (reset_query_state target w.0, w.1)) (table_names tables) w',
    ),
  )

  -- For arrays that show the texts they are made of: in a session over an Iceberg catalog, a
  -- statement of SHOW TABLES IN and a schema's name gives, when the catalog lists the tables of
  -- that schema, in the state in which the counters are reset, a grid of their names in the same
  -- order, one for each row, with the number of rows and the counters after the listing; DataFusion
  -- is not called.
  pub query-render :
      ShowsNames lib.arrow
      → (session : SqlSession C P) (p : Parts) → session.wasm_demo ≡ false
      → IsStatement p
      → (w w' : World S) (tables : List TableIdent)
      → lib.list_tables session.iceberg_catalog (schema_of p) (reset_query_state target w.0, w.1)
        ≡ (ok tables, w')
      → (r : QueryResult A) × ((query target lib session (render p) w ≡ (ok r, w'))
          × ShowsTables (table_names tables) w' r)
  query-render shows session p native_session statement =
      query-parsed shows session (render p) (some (schema_of p)) native_session
        (parse_show_tables-render p statement)

  -- In the browser a query does not depend on the counters and the cancellation of the queries
  -- before it.
  pub query-wasm32 :
      (session : SqlSession C P) (sql : Text) (io1 io2 : QueryIo) (s : S)
      → query wasm32 lib session sql (io1, s) ≡ query wasm32 lib session sql (io2, s)
  unfolding query reset_query_state
  query-wasm32 session sql io1 io2 s = refl
