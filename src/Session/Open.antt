-- ===== src/Session/Open.antt =====
-- The sessions that are opened from a registry (`from_registry_with_options` of
-- crates/idb-sql/src/lib.rs), in the browser over a lazy catalog (`open_wasm_horizon_session` of
-- wasm_lazy_catalog.rs), and the demo's (wasm_demo.rs).
use iceberg_db_rs.Base.{true, false, List, [], ◌∷◌}
use iceberg_db_rs.Base.Result.{ok}
use iceberg_db_rs.Base.Result.Run.{Run, ◌>>=◌, lift}
use iceberg_db_rs.Base.Text.{Text, codes}
use iceberg_db_rs.Base.Dict.{Dict}
use iceberg_db_rs.QueryIo.{Target, native, wasm32}
use iceberg_db_rs.Session.Options.{SessionOptions, wasm_session_config}
use iceberg_db_rs.Session.Lazy.{Client, LazySchema, catalog_try_new}
use iceberg_db_rs.Session.Query.{SqlSession, World, Libraries, open_iceberg_catalog}

-- What a catalog answers the lazy catalog, and the provider that wraps it.
pub record LazyLibrary (C P T S : Type 0) : Type 0 where
  pub client : C → Client (World S) T
  pub wrap_catalog : Dict LazySchema → P

-- A batch of texts: the names of the columns and the rows.
pub record DemoTable : Type 0 where
  pub schema : Text
  pub table : Text
  pub columns : List Text
  pub rows : List (List Text)

abbrev pub customers : DemoTable
customers = record {
  schema = codes "demo";
  table = codes "customers";
  columns = codes "id" ∷ codes "name" ∷ codes "region" ∷ [];
  rows =
      (codes "1" ∷ codes "Alice" ∷ codes "US" ∷ [])
      ∷ (codes "2" ∷ codes "Bob" ∷ codes "US" ∷ [])
      ∷ (codes "3" ∷ codes "Carlos" ∷ codes "EU" ∷ [])
      ∷ [];
}

module _ {A C P F T S : Type 0} (lib : Libraries A C P F S) (lazy : LazyLibrary C P T S) where
  abbrev pub horizon_session : Text → Text → C → Dict LazySchema → SqlSession C P
  horizon_session catalog_name default_schema catalog schemas = record {
    config = wasm_session_config lib.new_config catalog_name default_schema;
    provider = lazy.wrap_catalog schemas;
    default_catalog = catalog_name;
    default_schema = default_schema;
    iceberg_catalog = catalog;
    wasm_demo = false;
  }

  unfoldable pub open_wasm_horizon_session : Text → Text → C → Run Text (World S) (SqlSession C P)
  unfolding wasm_session_config catalog_try_new
  open_wasm_horizon_session catalog_name default_schema catalog = do
    schemas ← catalog_try_new (lazy.client catalog)
    lift (ok (horizon_session catalog_name default_schema catalog schemas))

  -- The catalog of a registry: its name, the default schema and the catalog itself. The browser
  -- has no options.
  unfoldable pub open_session :
      Target → Text → Text → C → SessionOptions → Run Text (World S) (SqlSession C P)
  unfolding open_wasm_horizon_session open_iceberg_catalog
  open_session native name schema catalog options =
      open_iceberg_catalog native lib name schema catalog options
  open_session wasm32 name schema catalog options = open_wasm_horizon_session name schema catalog

  -- `memory` is the provider over the demo's table, and `placeholder` the memory catalog.
  unfoldable pub open_wasm_demo_session :
      (DemoTable → Run Text (World S) P)
      → Run Text (World S) C
      → Run Text (World S) (SqlSession C P)
  unfolding wasm_session_config
  open_wasm_demo_session memory placeholder = do
    provider ← memory customers
    catalog ← placeholder
    lift (
        ok (record {
          config = wasm_session_config lib.new_config (codes "local") (codes "public");
          provider = provider;
          default_catalog = codes "local";
          default_schema = codes "demo";
          iceberg_catalog = catalog;
          wasm_demo = true;
        }))
