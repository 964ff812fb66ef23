-- ===== src/Tests/Engines.antt =====
-- Runs of the engine and of the page over a warehouse with no tables.
use iceberg_db_rs.Base.{
  ℕ, ◌≡◌, refl, true, false, none, some, List, [], ◌∷◌, ◌++◌, Outcome, for_each,
}
use iceberg_db_rs.Base.Result.{ok, err}
use iceberg_db_rs.Base.Text.{Text, codes}
use iceberg_db_rs.Base.Text.Chars.{lower_char, is_whitespace}
use iceberg_db_rs.Base.Text.Cut.{
  trim, trim_start_matches, trim_end_matches, starts_with, byte_length,
}
use iceberg_db_rs.Base.Dict
use iceberg_db_rs.Config.Resolve.{resolve_value, outside, inside}
use iceberg_db_rs.QueryIo.{
  request_query_cancel, native, wasm32, initial, reset_query_state, query_cancelled, bytes_fetched,
  files_fetched,
}
use iceberg_db_rs.Config.Load.{load_str}
use iceberg_db_rs.HttpLog.{byte_prefix}
use iceberg_db_rs.Registry.{OpenCatalog, Warehouses, file_warehouse}
use iceberg_db_rs.Rest.Http.{done}
use iceberg_db_rs.Rest.Open.{default_schema_from_spec}
use iceberg_db_rs.ShowTables.{parse_show_tables, strip_ascii_prefix_ci}
use iceberg_db_rs.Session.Options.{default_options, with_target_partitions}
use iceberg_db_rs.Session.Query.{SqlSession, World, elapsed_ms}
use iceberg_db_rs.Engine.{
  unknown_catalog, Engine, Setting, engine_query, from_config_with_options, set_default_catalog,
}
use iceberg_db_rs.Engine.Steps.{
  Reach, here, next, switches, asks, IsServing, Reach-IsServing_opened,
}
use iceberg_db_rs.BrowserEngine.{
  not_initialized, unwinding, Page, QueryResponse, init_horizon, init_demo, run_query, cancel_query,
  truncate_log,
}
use iceberg_db_rs.BrowserEngine.Once
use iceberg_db_rs.BrowserEngine.Once.{Reach-kept}
use iceberg_db_rs.BrowserEngine.Answers.{IsAnswer, run_query-IsAnswer}
use iceberg_db_rs.Tests.Loading.{yaml, config, config_text}
use iceberg_db_rs.Tests.Sessions.{new_config, lib, client}

-- What the runs unfold.
program : Unit {0}
unfolding from_config_with_options set_default_catalog Dict.get Dict.insert Dict.remove for_each
    lower_char is_whitespace trim trim_start_matches trim_end_matches starts_with resolve_value
    outside inside parse_show_tables strip_ascii_prefix_ci init_horizon init_demo run_query
    cancel_query byte_length reset_query_state query_cancelled bytes_fetched files_fetched
    default_schema_from_spec request_query_cancel elapsed_ms
program = tt

abbrev warehouses : Warehouses (World ℕ)
warehouses = record {
  is_absolute = starts_with (codes "/");
  files = record {
    read_dir = λ dir. Outcome.ok [];
    read_to_string = λ path. Outcome.ok [];
    is_dir = λ path. false;
    is_file = λ path. false;
  };
  load_memory = λ name props s. (done tt, s);
  catalog = record {
    namespace_exists = λ n s. (Outcome.ok true, s);
    create_namespace = λ n l s. (Outcome.ok tt, s);
    table_exists = λ n t s. (Outcome.ok true, s);
    register_table = λ n t l s. (Outcome.ok tt, s);
  };
}

abbrev setting : Setting (List Text) ℕ Text ℕ ℕ
setting = record {
  target = native;
  env = λ name. none;
  lib = lib;
  lazy = record { client = λ c. client; wrap_catalog = λ schemas. 8 };
  warehouses = warehouses;
  canonicalize = λ path. none;
  rest = λ spec s. (done [], s);
}

abbrev start : World ℕ
start = (initial, 0)

-- A session with so many partitions.
abbrev session_with : ℕ → SqlSession OpenCatalog ℕ
session_with n = record {
  config = record new_config {
    information_schema = true;
    create_default_catalog_and_schema = false;
    catalog = codes "local";
    schema = codes "public";
    partitions = n;
  };
  provider = 7;
  default_catalog = codes "local";
  default_schema = codes "public";
  iceberg_catalog = file_warehouse (codes "/wh");
  wasm_demo = false;
}

abbrev engine_with : ℕ → Engine ℕ
engine_with n = record {
  registry = record {
    default_name = codes "local";
    default_schema = codes "public";
    catalogs = (codes "local", file_warehouse (codes "/wh")) ∷ [];
  };
  session = session_with n;
}

engine_opened :
    from_config_with_options setting config (with_target_partitions default_options 2) start
    ≡ (ok (engine_with 2), (initial, 1))
unfolding program with_target_partitions
engine_opened = refl

-- A change of the catalog forgets the options of the session before.
catalog_set :
    set_default_catalog setting (codes "local") (engine_with 2) (initial, 1)
    ≡ ((ok tt, engine_with 8), (initial, 2))
unfolding program
catalog_set = refl

catalog_unknown :
    set_default_catalog setting (codes "other") (engine_with 2) (initial, 1)
    ≡ ((err unknown_catalog, engine_with 2), (initial, 1))
unfolding program
catalog_unknown = refl

calls : Reach setting (engine_with 2) (initial, 1) (engine_with 8) (initial, 3)
unfolding program engine_query
calls =
    next (next here (switches (codes "local") (engine_with 2) (initial, 1)))
      (asks (codes "SHOW TABLES") (engine_with 8) (initial, 2))

Reach-IsServing_opened_example : IsServing setting config (engine_with 8)
Reach-IsServing_opened_example =
    Reach-IsServing_opened setting config (with_target_partitions default_options 2) start
      (initial, 1) (initial, 3) (engine_with 2) (engine_with 8) engine_opened calls

-- A page in the browser.
abbrev empty_page : Page ℕ ℕ
empty_page = record { session = none; world = start }

too_soon :
    run_query setting wasm32 (codes "SHOW TABLES") empty_page ≡ (err not_initialized, empty_page)
unfolding program
too_soon = refl

abbrev page : Page ℕ ℕ
page = record { session = some (session_with 8); world = (initial, 1) }

page_opened : init_horizon setting yaml config_text empty_page ≡ (ok tt, page)
unfolding program load_str
page_opened = refl

abbrev cancelled_page : Page ℕ ℕ
cancelled_page = record {
  session = some (session_with 8);
  world = (record initial { cancel_requested = true }, 1);
}

Reach-kept_example :
    (page.session ≡ some (session_with 8))
    × (¬ ((init_horizon setting yaml config_text cancelled_page).0 ≡ ok tt))
    × (¬ (
        (init_demo setting wasm32
          (λ t w. (ok 9, w))
          (λ w. (ok (file_warehouse []), w))
          cancelled_page).0
        ≡ ok tt))
unfolding program
Reach-kept_example =
    Reach-kept setting wasm32 yaml (session_with 8) page cancelled_page refl
      (Once.next Once.here (Once.cancels page)) config_text (λ t w. (ok 9, w))
      (λ w. (ok (file_warehouse []), w))

abbrev asked_page : Page ℕ ℕ
asked_page = record {
  session = some (session_with 8);
  world = (reset_query_state wasm32 initial, 2);
}

abbrev response : QueryResponse
response = record {
  response_count = 2;
  response_ms = 0;
  response_bytes = 0;
  response_files = 0;
  response_columns = record { name = codes "table_name"; data_type = codes "Utf8" } ∷ [];
  rows = (codes "ORDERS" ∷ []) ∷ (codes "Items" ∷ []) ∷ [];
  text = codes "(could not format: )";
}

page_asked :
    run_query setting wasm32 (codes "show tables;") cancelled_page ≡ (ok response, asked_page)
unfolding program
page_asked = refl

run_query-IsAnswer_example :
    (session : SqlSession OpenCatalog ℕ) × ((cancelled_page.session ≡ some session)
      × (asked_page.session ≡ some session)
      × IsAnswer setting session
          (codes "show tables;")
          cancelled_page.world
          asked_page.world
          response)
run_query-IsAnswer_example =
    run_query-IsAnswer setting (codes "show tables;") cancelled_page asked_page response page_asked

-- A statement of 81 bytes whose 80th byte is inside a character ends the page.
abbrev long_statement : Text
long_statement =
    codes "SELECT '0123456789012345678901234567890123456789012345678901234567890123456789'"
    ++ (0xe9 ∷ [])

log_panics : (run_query setting wasm32 long_statement page).0 ≡ err unwinding
unfolding program truncate_log byte_prefix
log_panics = refl
