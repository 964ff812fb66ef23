-- ===== src/Registry.antt =====
-- crates/idb-catalog/src/lib.rs: the catalogs of a configuration are opened and kept by name.
-- `open_rest` is that of Rest.Open. The memory catalog that a warehouse fills is a parameter; the
-- calls of all catalogs act on one state.
pub mod Complete
pub mod Warehouse
use iceberg_db_rs.Base.{
  Bool, true, false, Option, none, some, List, [], ◌∷◌, ◌||◌, not, if◌then◌else◌, Outcome, ok, err,
  panic,
}
use iceberg_db_rs.Base.Text.{Text, codes, text_eq}
use iceberg_db_rs.Base.Text.Chars.{to_ascii_lowercase, replace_char}
use iceberg_db_rs.Base.Dict
use iceberg_db_rs.Base.Dict.{Dict}
use iceberg_db_rs.Config.Resolve.{Env, resolve_value}
use iceberg_db_rs.Config.Profile.{is_empty, nonempty, or_text}
use iceberg_db_rs.Hadoop.{Files, TableCatalog, bootstrap_hadoop_tables}
use iceberg_db_rs.QueryIo.{Target, native, wasm32}
use iceberg_db_rs.Rest.Http.{
  no_catalogs, unknown_default, missing_warehouse, relative_warehouse, bad_catalog, unsupported,
  Attempt, done, failed, Call, ◌>>=◌, lift, required,
}
use iceberg_db_rs.Rest.Open.{CatalogSpec, property, default_schema_from_spec}

-- A warehouse of files, or a REST catalog by its properties.
pub data OpenCatalog : Type 0 where
  file_warehouse : Text → OpenCatalog
  rest : Dict Text → OpenCatalog

-- The catalogs in the order of their names.
pub record AppConfig : Type 0 where
  pub default_catalog : Option Text
  pub catalogs : List (Text × CatalogSpec)

pub record CatalogRegistry : Type 0 where
  pub default_name : Text
  pub default_schema : Text
  pub catalogs : Dict OpenCatalog

abbrev pub resolved_some : Env → Option Text → Option Text
resolved_some env none = none
resolved_some env (some s) = some (resolve_value env s)

-- The search for tables panics only where the file system does, which it does not.
abbrev pub finished : Outcome (Unit {0}) → Attempt (Unit {0})
finished (ok u) = done tt
finished (err e) = failed bad_catalog
finished panic = failed bad_catalog

-- What the code asks of the libraries: whether a path is absolute, and the memory catalog.
pub record Warehouses (W : Type 0) : Type 0 where
  pub is_absolute : Text → Bool
  pub files : Files
  pub load_memory : Text → Dict Text → Call W (Unit {0})
  pub catalog : TableCatalog W

abbrev pub first_name : List (Text × CatalogSpec) → Option Text
first_name [] = none
first_name ((name, spec) ∷ specs) = some name

abbrev pub schema_of : Option CatalogSpec → Text
schema_of none = codes "public"
schema_of (some spec) = or_text (default_schema_from_spec spec) (codes "public")

-- The registry, by its default catalog.
abbrev pub registry_of :
    AppConfig → Text → Dict OpenCatalog → Option OpenCatalog → Attempt CatalogRegistry
registry_of config default_name catalogs none = failed unknown_default
registry_of config default_name catalogs (some catalog) = done (record {
  default_name = default_name;
  default_schema = schema_of (Dict.get config.catalogs default_name);
  catalogs = catalogs;
})

module _ {W : Type 0} (w : Warehouses W) where
  unfoldable pub open_file_warehouse_path : Text → Text → Call W OpenCatalog
  unfolding bootstrap_hadoop_tables
  open_file_warehouse_path name warehouse =
      if not (w.is_absolute warehouse) then lift (failed relative_warehouse) else (do
        u ← w.load_memory name ((codes "warehouse", replace_char 0x5c b'/' warehouse) ∷ [])
        v ← λ s.
            let (r, s') = bootstrap_hadoop_tables w.files w.catalog warehouse s in (finished r, s')
        lift (done (file_warehouse warehouse)))

  unfoldable pub open_file_warehouse : Env → Text → CatalogSpec → Call W OpenCatalog
  unfolding open_file_warehouse_path
  open_file_warehouse env name spec = do
    warehouse ← lift (
        required missing_warehouse
          (nonempty (resolved_some env (nonempty (property spec (codes "warehouse"))))))
    open_file_warehouse_path name warehouse

  module _ (target : Target) (env : Env) (open_rest : CatalogSpec → Call W (Dict Text)) where
    -- Files are for the native build only.
    unfoldable pub open_files : Target → Text → CatalogSpec → Call W OpenCatalog
    unfolding open_file_warehouse
    open_files native name spec = open_file_warehouse env name spec
    open_files wasm32 name spec = lift (failed unsupported)

    unfoldable pub open_catalog : Text → CatalogSpec → Call W OpenCatalog
    unfolding open_files
    open_catalog name spec =
        let kind = to_ascii_lowercase spec.catalog_type in
        if text_eq kind (codes "hadoop") || text_eq kind (codes "file")
        then open_files target name spec
        else if text_eq kind (codes "rest")
        then (do props ← open_rest spec; lift (done (rest props)))
        else lift (failed unsupported)

    -- The loop of `from_config`.
    unfoldable pub open_all :
        List (Text × CatalogSpec) → Dict OpenCatalog → Call W (Dict OpenCatalog)
    unfolding open_catalog
    open_all [] catalogs = lift (done catalogs)
    open_all ((name, spec) ∷ specs) catalogs = do
      catalog ← open_catalog name spec
      open_all specs (Dict.insert catalogs name catalog)

    unfoldable pub from_config : AppConfig → Call W CatalogRegistry
    unfolding open_all
    from_config config = elim (first_name config.catalogs) [
      | none ↦ lift (failed no_catalogs)
      | some first ↦ (do
        let default_name = or_text config.default_catalog first
        catalogs ← open_all config.catalogs []
        lift (registry_of config default_name catalogs (Dict.get catalogs default_name)))
    ]

-- `get` and `default`.
unfoldable pub get_catalog : CatalogRegistry → Text → Option OpenCatalog
get_catalog r name = Dict.get r.catalogs name

-- `expect` panics when there is none.
unfoldable pub default_of : CatalogRegistry → Outcome OpenCatalog
default_of r = elim (Dict.get r.catalogs r.default_name) [ none ↦ panic | some c ↦ ok c ]

-- `from_file_warehouse_with_schema`, by what `canonicalize` gives; `from_file_warehouse` is the one
-- with the schema `public`.
unfoldable pub from_file_warehouse_with_schema :
    {W : Type 0} → Warehouses W → (Text → Option Text) → Text → Text → Text → Call W CatalogRegistry
unfolding open_file_warehouse_path
from_file_warehouse_with_schema w canonicalize catalog_name warehouse default_schema = do
  let path = or_text (canonicalize warehouse) warehouse
  catalog ← open_file_warehouse_path w catalog_name path
  lift (
      done (record {
        default_name = catalog_name;
        default_schema = default_schema;
        catalogs = (catalog_name, catalog) ∷ [];
      }))
