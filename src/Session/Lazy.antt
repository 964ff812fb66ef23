-- ===== src/Session/Lazy.antt =====
-- crates/idb-sql/src/wasm_lazy_catalog.rs: the browser's catalog lists its tables when it is opened
-- and loads a table whenever it is asked for one. Logging is left out.
pub mod Fresh
use iceberg_db_rs.Base.{
  Bool, true, false, Option, none, some, List, [], ◌∷◌, ◌++◌, map, if◌then◌else◌,
}
use iceberg_db_rs.Base.Result.{Result, ok, err}
use iceberg_db_rs.Base.Result.Run.{Run, ◌>>=◌, lift}
use iceberg_db_rs.Base.Text.{Text, codes, has_name}
use iceberg_db_rs.Base.Dict
use iceberg_db_rs.Base.Dict.{Dict}
use iceberg_db_rs.Rest.Vended.{TableIdent}

-- What the code asks of the Iceberg catalog, and `IcebergStaticTableProvider::try_new_from_table`.
-- A namespace is its levels; the code lists the tables of namespaces of one level.
pub record Client (S T : Type 0) : Type 0 where
  pub list_namespaces : Run Text S (List (List Text))
  pub list_tables : Text → Run Text S (List TableIdent)
  pub load_table : TableIdent → Run Text S T
  pub try_new_from_table : T → Run Text S T

pub record LazySchema : Type 0 where
  pub namespace : Text
  pub table_names : List Text

abbrev pub levels : List (List Text) → List Text
levels [] = []
levels (ns ∷ namespaces) = ns ++ levels namespaces

unfoldable pub table_exist : LazySchema → Text → Bool
table_exist schema name = has_name name schema.table_names

-- Tables are made and dropped elsewhere.
unfoldable pub register_table : LazySchema → Text → Result Text (Option (Unit {0}))
register_table schema name = err (codes "CREATE TABLE is not supported in browser WASM yet")

unfoldable pub deregister_table : LazySchema → Text → Result Text (Option (Unit {0}))
deregister_table schema name = err (codes "DROP TABLE is not supported in browser WASM yet")

module _ {S T : Type 0} (client : Client S T) where
  -- `WasmLazyIcebergSchemaProvider::try_new`.
  unfoldable pub schema_try_new : Text → Run Text S LazySchema
  schema_try_new namespace = do
    tables ← client.list_tables namespace
    lift (ok (record { namespace = namespace; table_names = map (λ t. t.name) tables }))

  -- The loop of `WasmLazyIcebergCatalogProvider::try_new`.
  unfoldable pub open_schemas : List Text → Dict LazySchema → Run Text S (Dict LazySchema)
  unfolding schema_try_new
  open_schemas [] schemas = lift (ok schemas)
  open_schemas (name ∷ names) schemas = do
    schema ← schema_try_new name
    open_schemas names (Dict.insert schemas name schema)

  unfoldable pub catalog_try_new : Run Text S (Dict LazySchema)
  unfolding open_schemas
  catalog_try_new = do namespaces ← client.list_namespaces; open_schemas (levels namespaces) []

  unfoldable pub load_table_provider : LazySchema → Text → Run Text S T
  load_table_provider schema table_name = do
    table ← client.load_table (record { namespace = schema.namespace; name = table_name })
    client.try_new_from_table table

  unfoldable pub lazy_table : LazySchema → Text → Run Text S (Option T)
  unfolding load_table_provider table_exist
  lazy_table schema name =
      if table_exist schema name
      then (do table ← load_table_provider schema name; lift (ok (some table)))
      else lift (ok none)

-- `schema_names` and `schema` of the catalog; the order of the names is that of a hash map.
abbrev pub schema_names : Dict LazySchema → List Text
schema_names = map (λ e. e.0)

abbrev pub schema_named : Dict LazySchema → Text → Option LazySchema
schema_named = Dict.get
