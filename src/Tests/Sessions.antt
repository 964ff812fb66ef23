-- ===== src/Tests/Sessions.antt =====
-- Runs of SQL sessions over a catalog with one schema of two tables.
use iceberg_db_rs.Base.{ℕ, ◌+◌, ◌≡◌, refl, true, false, none, some, List, [], ◌∷◌, map, inl, inr}
use iceberg_db_rs.Base.Result.{ok}
use iceberg_db_rs.Base.Text.{Text, codes}
use iceberg_db_rs.Base.Text.Chars.{lower_char}
use iceberg_db_rs.Base.Text.Cut.{contains}
use iceberg_db_rs.Base.Dict
use iceberg_db_rs.Base.Dict.{Dict}
use iceberg_db_rs.QueryIo.{native, wasm32, initial, reset_query_state}
use iceberg_db_rs.Registry.{OpenCatalog, file_warehouse}
use iceberg_db_rs.Rest.Vended.{TableIdent}
use iceberg_db_rs.ShowTables.Schema.{render}
use iceberg_db_rs.Session.Options.{SessionConfig}
use iceberg_db_rs.Session.Batches.{
  Arrow, RecordBatch, column_named, format_explain_batches, section,
}
use iceberg_db_rs.Session.Batches.Plans.{HoldsPlans, format_explain_batches-row}
use iceberg_db_rs.Session.Lazy.{Client, LazySchema, catalog_try_new}
use iceberg_db_rs.Session.Lazy.Fresh.{table_seen, loaded_now, table_seen-loaded_now}
use iceberg_db_rs.Session.Query.{
  SqlSession, World, Libraries, QueryResult, query, table_names, explain_with_options,
}
use iceberg_db_rs.Session.Tables.{nth, ShowsTables, query-render}
use iceberg_db_rs.Tests.Schemas.{names-IsDistinct}
use iceberg_db_rs.Tests.Statements.{parts, parts-IsStatement}

-- An array is its texts.
abbrev pub arrow : Arrow (List Text)
arrow = record {
  as_string = λ xs. some (map some xs);
  as_large_string = λ xs. none;
  array_value_to_string = nth;
  from_names = λ xs. xs;
  pretty_format_batches = λ batches. none;
  format_error = λ batches. [];
}

abbrev pub new_config : SessionConfig
new_config = record {
  information_schema = false;
  create_default_catalog_and_schema = true;
  catalog = codes "datafusion";
  schema = codes "public";
  partitions = 8;
  file_scans = true;
  dynamic_filter_pushdown = true;
  joins = true;
}

abbrev plan_batch : RecordBatch (List Text)
plan_batch = record {
  fields = codes "plan_type" ∷ codes "plan" ∷ [];
  columns = (codes "logical" ∷ codes "physical" ∷ []) ∷ (codes "Scan t" ∷ codes "Exec" ∷ []) ∷ [];
  num_rows = 2;
}

abbrev pub tables : List TableIdent
tables =
    record { namespace = codes "ns"; name = codes "ORDERS" }
    ∷ record { namespace = codes "ns"; name = codes "Items" }
    ∷ []

-- The state counts the calls of the catalog; a frame is its statement.
abbrev pub lib : Libraries (List Text) OpenCatalog ℕ Text ℕ
lib = record {
  arrow = arrow;
  new_config = new_config;
  sql = λ session sql w. (ok sql, w);
  frame_columns = λ sql. [];
  collect = λ sql w. (ok (plan_batch ∷ []), w);
  now = λ w. w.1;
  provider_tables = λ provider schema. none;
  provider_try_new = λ c w. (ok 7, (w.0, w.1 + 1));
  list_tables = λ c schema w. (ok tables, (w.0, w.1 + 1));
}

abbrev session : SqlSession OpenCatalog ℕ
session = record {
  config = new_config;
  provider = 7;
  default_catalog = codes "local";
  default_schema = codes "ns";
  iceberg_catalog = file_warehouse (codes "/wh");
  wasm_demo = false;
}

query-render_example :
    (r : QueryResult (List Text)) × ((query wasm32 lib session (render parts) (initial, 3)
        ≡ (ok r, (reset_query_state wasm32 initial, 4)))
      × ShowsTables wasm32 lib (table_names tables) (reset_query_state wasm32 initial, 4) r)
query-render_example =
    query-render wasm32 lib (λ names i n h. h) session parts refl parts-IsStatement (initial, 3)
      (reset_query_state wasm32 initial, 4) tables refl

explained :
    explain_with_options native lib session (codes "SELECT 1") true (initial, 0)
    ≡ (ok (codes "=== logical ===\nScan t\n\n=== physical ===\nExec"), (initial, 0))
unfolding explain_with_options column_named
explained = refl

plan_batch-HoldsPlans :
    HoldsPlans arrow plan_batch
      (codes "logical" ∷ codes "physical" ∷ [])
      (codes "Scan t" ∷ codes "Exec" ∷ [])
unfolding column_named
plan_batch-HoldsPlans = record {
  kind_column = codes "logical" ∷ codes "physical" ∷ [];
  plan_column = codes "Scan t" ∷ codes "Exec" ∷ [];
  kind_named = refl;
  plan_named = refl;
  kind_texts = refl;
  plan_texts = refl;
}

format_explain_batches-row_example :
    contains
      (section (codes "physical") (codes "Exec"))
      (format_explain_batches arrow (plan_batch ∷ []))
    ≡ true
format_explain_batches-row_example =
    format_explain_batches-row arrow plan_batch (plan_batch ∷ [])
      (codes "logical" ∷ codes "physical" ∷ []) (codes "Scan t" ∷ codes "Exec" ∷ [])
      (codes "physical") (codes "Exec") (inl refl) plan_batch-HoldsPlans (inr (inl (refl, refl)))
      refl

-- A table that is loaded is the number of calls so far.
abbrev pub client : Client (World ℕ) ℕ
client = record {
  list_namespaces = λ w. (ok ((codes "ns" ∷ []) ∷ []), w);
  list_tables = λ schema w. (ok tables, w);
  load_table = λ t w. (ok w.1, (w.0, w.1 + 1));
  try_new_from_table = λ t w. (ok t, w);
}

abbrev schemas : Dict LazySchema
schemas =
    (
      codes "ns",
      record { namespace = codes "ns"; table_names = codes "ORDERS" ∷ codes "Items" ∷ [] },
    )
    ∷ []

abbrev schema : LazySchema
schema = record { namespace = codes "ns"; table_names = codes "ORDERS" ∷ codes "Items" ∷ [] }

-- The table that is loaded is the one of the fifth call.
table_seen-loaded_now_example :
    table_seen client schema (codes "oRders") (initial, 5)
    ≡ loaded_now client (codes "ns") (codes "ORDERS") (initial, 5)
unfolding catalog_try_new Dict.insert Dict.remove Dict.get lower_char
table_seen-loaded_now_example =
    table_seen-loaded_now client (initial, 0) (initial, 0) (initial, 0) ((codes "ns" ∷ []) ∷ [])
      schemas refl refl (codes "ns") schema (codes "ORDERS") (codes "oRders") refl names-IsDistinct
      refl refl (initial, 5)
