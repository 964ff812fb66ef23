-- ===== src/Session/Query.antt =====
-- `SqlSession`, its opening over an Iceberg catalog, `query`, `show_tables` and `explain` of
-- crates/idb-sql/src/lib.rs. The browser's build is the one with the feature `native`, which counts
-- bytes and files. The text of an error with a context is `context: cause`.
use iceberg_db_rs.Base.{
  ℕ, ◌-◌, ◌/◌, ◌^◌, Bool, false, ◌||◌, Option, none, some, List, [], ◌∷◌, ◌++◌, map, length, ltb,
  if◌then◌else◌,
}
use iceberg_db_rs.Base.Result.{Result, ok, ok_or, map_err}
use iceberg_db_rs.Base.Result.Run.{Run, ◌>>=◌, lift}
use iceberg_db_rs.Base.Text.{Text, codes}
use iceberg_db_rs.Base.Text.Cut.{contains}
use iceberg_db_rs.Config.Profile.{or_text}
use iceberg_db_rs.QueryIo.{Target, QueryIo, reset_query_state, bytes_fetched, files_fetched}
use iceberg_db_rs.Rest.Vended.{TableIdent}
use iceberg_db_rs.ShowTables.{parse_show_tables}
use iceberg_db_rs.Session.Options.{SessionConfig, SessionOptions, iceberg_session_config}
use iceberg_db_rs.Session.Batches.{RecordBatch, Arrow, sum_rows, format_explain_batches}

pub record ColumnInfo : Type 0 where
  pub name : Text
  pub data_type : Text

pub record QueryResult (A : Type 0) : Type 0 where
  pub columns : List ColumnInfo
  pub batches : List (RecordBatch A)
  pub row_count : ℕ
  pub elapsed_ms : ℕ
  pub result_bytes : ℕ
  pub result_files : ℕ

-- The context of DataFusion is its configuration and the provider that is registered in it.
pub record SqlSession (C P : Type 0) : Type 0 where
  pub config : SessionConfig
  pub provider : P
  pub default_catalog : Text
  pub default_schema : Text
  pub iceberg_catalog : C
  pub wasm_demo : Bool

-- The counters of the running query, and the state of the libraries.
abbrev pub World : Type 0 → Type 0
World S = QueryIo × S

-- What the code asks of DataFusion, of the clock in nanoseconds, and of an Iceberg catalog.
-- `provider_tables` are the tables of a schema of a provider, if it has the schema.
pub record Libraries (A C P F S : Type 0) : Type 0 where
  pub arrow : Arrow A
  pub new_config : SessionConfig
  pub sql : SqlSession C P → Text → Run Text (World S) F
  pub frame_columns : F → List ColumnInfo
  pub collect : F → Run Text (World S) (List (RecordBatch A))
  pub now : World S → ℕ
  pub provider_tables : P → Text → Option (List Text)
  pub provider_try_new : C → Run Text (World S) P
  pub list_tables : C → Text → Run Text (World S) (List TableIdent)

abbrev pub with_context : {A : Type 0} → Text → Result Text A → Result Text A
with_context context = map_err (λ e. context ++ (codes ": " ++ e))

abbrev pub in_context : {S A : Type 0} → Text → Run Text S A → Run Text S A
in_context context call s = let (r, s') = call s in (with_context context r, s')

abbrev pub table_names : List TableIdent → List Text
table_names = map (λ t. t.name)

-- `QueryTimer::elapsed_ms`, with the end of a `u64` as its bound.
unfoldable pub elapsed_ms : ℕ → ℕ → ℕ
elapsed_ms started ended =
    let ms = (ended - started) / 1000000 in if ltb ms (2 ^ 64) then ms else 2 ^ 64 - 1

unfoldable pub plan_sql_error : Text → Text → Text → Text
plan_sql_error msg default_catalog default_schema =
    codes "plan sql: "
    ++ (msg
        ++ (if contains (codes "not found") msg
            then codes "\nNaming: `"
              ++ (default_catalog
                  ++ (codes
                        "` is the **catalog** name from config.yaml (not the Snowflake database). The database is `warehouse` (e.g. ICEBERG_TEST). Default schema is `"
                      ++ (default_schema
                          ++ (codes
                                "`. Snowflake IRC identifiers are often uppercase in the catalog — try `SELECT * FROM "
                              ++ (default_schema
                                  ++ codes ".employee` or `ICEBERG_TEST.EMPLOYEE` if needed.")))))
            else []))

unfoldable pub provider_error : Text → Text
provider_error msg =
    codes "iceberg catalog provider: "
    ++ (msg
        ++ (if contains (codes "500") msg || contains (codes "status") msg
            then codes
                "\nHorizon hint: use a Snowflake PAT (exchanged via OAuth), correct account URI, warehouse = database name, and scope session:role:<role> matching the PAT."
            else []))

abbrev pub show_columns : List ColumnInfo
show_columns = record { name = codes "table_name"; data_type = codes "Utf8" } ∷ []

module _ {A C P F S : Type 0} (target : Target) (lib : Libraries A C P F S) where
  abbrev pub iceberg_session : Text → Text → C → SessionOptions → P → SqlSession C P
  iceberg_session catalog_name default_schema catalog options provider = record {
    config = iceberg_session_config lib.new_config catalog_name default_schema options;
    provider = provider;
    default_catalog = catalog_name;
    default_schema = default_schema;
    iceberg_catalog = catalog;
    wasm_demo = false;
  }

  -- A session over a provider, which is registered and then found.
  unfoldable pub open_iceberg_catalog :
      Text → Text → C → SessionOptions → Run Text (World S) (SqlSession C P)
  unfolding iceberg_session_config provider_error
  open_iceberg_catalog catalog_name default_schema catalog options = do
    provider ← λ s. let (r, s') = lib.provider_try_new catalog s in (map_err provider_error r, s')
    lift (
        ok (record {
          config = iceberg_session_config lib.new_config catalog_name default_schema options;
          provider = provider;
          default_catalog = catalog_name;
          default_schema = default_schema;
          iceberg_catalog = catalog;
          wasm_demo = false;
        }))

  abbrev pub result_of : ℕ → List ColumnInfo → List (RecordBatch A) → ℕ → World S → QueryResult A
  result_of started columns batches row_count w = record {
    columns = columns;
    batches = batches;
    row_count = row_count;
    elapsed_ms = elapsed_ms started (lib.now w);
    result_bytes = bytes_fetched target w.0;
    result_files = files_fetched target w.0;
  }

  abbrev pub finish :
      ℕ → List ColumnInfo → List (RecordBatch A) → ℕ → Run Text (World S) (QueryResult A)
  finish started columns batches row_count w =
      (ok (result_of started columns batches row_count w), w)

  abbrev pub names_batch : List Text → RecordBatch A
  names_batch names = record {
    fields = codes "table_name" ∷ [];
    columns = lib.arrow.from_names names ∷ [];
    num_rows = length names;
  }

  -- The tables of the demo's provider, or of the Iceberg catalog.
  unfoldable pub listed_names : SqlSession C P → Text → Run Text (World S) (List Text)
  listed_names session schema =
      if session.wasm_demo
      then lift (
          ok_or (codes "schema '" ++ (schema ++ codes "' not found"))
            (lib.provider_tables session.provider schema))
      else (do
        tables ←
            in_context (codes "list tables in '" ++ (schema ++ codes "'"))
              (lib.list_tables session.iceberg_catalog schema)
        lift (ok (table_names tables)))

  unfoldable pub show_tables : SqlSession C P → Text → ℕ → Run Text (World S) (QueryResult A)
  unfolding listed_names
  show_tables session schema started = do
    names ← listed_names session schema
    finish started show_columns (names_batch names ∷ []) (length names)

  unfoldable pub query_planned : SqlSession C P → Text → ℕ → Run Text (World S) (QueryResult A)
  unfolding plan_sql_error sum_rows
  query_planned session sql started = do
    df ← λ w.
        let (r, w') = lib.sql session sql w in
        (map_err (λ e. plan_sql_error e session.default_catalog session.default_schema) r, w')
    batches ← in_context (codes "execute sql") (lib.collect df)
    finish started (lib.frame_columns df) batches (sum_rows target batches 0)

  unfoldable pub query : SqlSession C P → Text → Run Text (World S) (QueryResult A)
  unfolding show_tables query_planned
  query session sql w =
      let start : World S = (reset_query_state target w.0, w.1) in
      let started = lib.now start in
      elim (parse_show_tables sql) [
        | none ↦ query_planned session sql started start
        | some schema ↦ show_tables session (or_text schema session.default_schema) started start
      ]

  unfoldable pub explain_with_options : SqlSession C P → Text → Bool → Run Text (World S) Text
  unfolding format_explain_batches
  explain_with_options session sql analyze = do
    let prefix = if analyze then codes "EXPLAIN ANALYZE" else codes "EXPLAIN"
    plan ← in_context (codes "explain plan") (lib.sql session (prefix ++ (codes " " ++ sql)))
    batches ← in_context (codes "collect explain") (lib.collect plan)
    lift (ok (format_explain_batches lib.arrow batches))
