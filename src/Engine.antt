-- ===== src/Engine.antt =====
-- crates/idb-core/src/lib.rs: a registry of catalogs and a SQL session over one of them.
pub mod Opened
pub mod Steps
use iceberg_db_rs.Base.{Bool, Option, none, some, Outcome, panic}
use iceberg_db_rs.Base.Result.{Result, ok, err, ok_or, map_err}
use iceberg_db_rs.Base.Result.Run.{Run, ◌>>=◌, lift}
use iceberg_db_rs.Base.Text.{Text}
use iceberg_db_rs.Config.Resolve.{Env}
use iceberg_db_rs.Config.Load.{LoadError, Yaml}
use iceberg_db_rs.Config.Load
use iceberg_db_rs.QueryIo.{Target}
use iceberg_db_rs.Base.Dict.{Dict}
use iceberg_db_rs.Rest.Http.{RestError, Attempt, done, failed, Call}
use iceberg_db_rs.Rest.Open.{CatalogSpec}
use iceberg_db_rs.Registry.{
  OpenCatalog, AppConfig, CatalogRegistry, Warehouses, from_config, from_file_warehouse_with_schema,
  get_catalog, default_of,
}
use iceberg_db_rs.Session.Options.{SessionOptions, default_options}
use iceberg_db_rs.Session.Query.{
  SqlSession, World, Libraries, QueryResult, open_iceberg_catalog, query, explain_with_options,
}
use iceberg_db_rs.Session.Open.{LazyLibrary, open_session}

pub data EngineError : Type 0 where
  bad_load : LoadError → EngineError
  bad_registry : RestError → EngineError
  bad_session : Text → EngineError
  unknown_catalog panicked : EngineError

abbrev pub attempted : {A : Type 0} → Attempt A → Result EngineError A
attempted (done a) = ok a
attempted (failed e) = err (bad_registry e)

-- A panic ends the program.
abbrev pub unwound : {A : Type 0} → Outcome A → Result EngineError A
unwound (Outcome.ok a) = ok a
unwound (Outcome.err e) = err panicked
unwound panic = err panicked

abbrev pub on_session : {S A : Type 0} → Run Text S A → Run EngineError S A
on_session call s = let (r, s') = call s in (map_err bad_session r, s')

pub record Engine (P : Type 0) : Type 0 where
  pub registry : CatalogRegistry
  pub session : SqlSession OpenCatalog P

-- What all calls of an engine share.
pub record Setting (A P F T S : Type 0) : Type 0 where
  pub target : Target
  pub env : Env
  pub lib : Libraries A OpenCatalog P F S
  pub lazy : LazyLibrary OpenCatalog P T S
  pub warehouses : Warehouses (World S)
  pub canonicalize : Text → Option Text
  pub rest : CatalogSpec → Call (World S) (Dict Text)

module _ {A P F T S : Type 0} (g : Setting A P F T S) where
  -- `from_registry_with_options`, with the catalog of `registry.default()`.
  unfoldable pub with_session :
      SessionOptions → CatalogRegistry → Run EngineError (World S) (Engine P)
  unfolding open_session default_of
  with_session options registry = do
    catalog ← lift (unwound (default_of registry))
    session ← on_session (
        open_session g.lib g.lazy g.target registry.default_name registry.default_schema catalog
          options)
    lift (ok (record { registry = registry; session = session }))

  abbrev pub on_registry : {B : Type 0} → Call (World S) B → Run EngineError (World S) B
  on_registry call s = let (r, s') = call s in (attempted r, s')

  unfoldable pub from_config_with_options :
      AppConfig → SessionOptions → Run EngineError (World S) (Engine P)
  unfolding with_session from_config
  from_config_with_options config options = do
    registry ← on_registry (from_config g.warehouses g.target g.env g.rest config)
    with_session options registry

  -- `from_config_file`, by what the file system and the YAML library give.
  unfoldable pub from_config_file :
      {V : Type 0} → Yaml V → (Text → Option Text) → Text → Run EngineError (World S) (Engine P)
  unfolding from_config_with_options Load.load
  from_config_file yaml read path = do
    config ← lift (map_err bad_load (Load.load yaml read path))
    from_config_with_options config default_options

  unfoldable pub from_warehouse_with_options :
      Text → Text → Text → SessionOptions → Run EngineError (World S) (Engine P)
  unfolding with_session from_file_warehouse_with_schema
  from_warehouse_with_options warehouse catalog_name default_schema options = do
    registry ← on_registry (
        from_file_warehouse_with_schema g.warehouses g.canonicalize catalog_name warehouse
          default_schema)
    with_session options registry

  abbrev pub store_session :
      Engine P
      → Result EngineError (SqlSession OpenCatalog P)
      → Result EngineError (Unit {0}) × Engine P
  store_session e (err x) = (err x, e)
  store_session e (ok session) = (ok tt, record e { session = session })

  -- The engine comes back beside the result.
  unfoldable pub set_default_catalog :
      Text → Engine P → World S → (Result EngineError (Unit {0}) × Engine P) × World S
  unfolding get_catalog open_iceberg_catalog
  set_default_catalog name e s =
      let (r, s') =
        (do
          catalog ← lift (ok_or unknown_catalog (get_catalog e.registry name))
          on_session (
              open_iceberg_catalog g.target g.lib name e.registry.default_schema catalog
                default_options))
          s in
      (store_session e r, s')

  unfoldable pub engine_query : Engine P → Text → Run EngineError (World S) (QueryResult A)
  unfolding query
  engine_query e sql = on_session (query g.target g.lib e.session sql)

  unfoldable pub engine_explain : Engine P → Text → Bool → Run EngineError (World S) Text
  unfolding explain_with_options
  engine_explain e sql analyze =
      on_session (explain_with_options g.target g.lib e.session sql analyze)
