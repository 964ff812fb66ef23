-- ===== src/ResolvedPaths/Catalog.antt =====
-- `ResolvedPathCatalog` of crates/idb-catalog/src/resolved_paths.rs: a catalog whose tables read their
-- files against their own locations. The wrapped catalog, the builder of tables and `LocalFsStorage`
-- are parameters.

use iceberg_db_rs.Base.{Bool, Option, List, Outcome, Io, and_then, lift}
use iceberg_db_rs.Base.Text.{Text}
use iceberg_db_rs.ByteCache.Range.{Bytes}
use iceberg_db_rs.ResolvedPaths.{at_resolved}

-- The iceberg crate's types, which the code hands on.
pub record Kinds : Type 1 where
  pub NamespaceIdent : Type 0
  pub Namespace : Type 0
  pub Properties : Type 0
  pub TableIdent : Type 0
  pub TableCreation : Type 0
  pub TableCommit : Type 0
  pub Metadata : Type 0

-- The `FileIO` of a table: one that the wrapped catalog gave it, or that of
-- `TableRelativeStorageFactory` with its base.
pub data FileIo : Type 0 where
  given : (Text → Outcome Bytes) → FileIo
  table_relative : Text → FileIo

-- A file of the table, read through its `FileIO`.
unfoldable pub read_file : (Text → Outcome Bytes) → FileIo → Text → Outcome Bytes
unfolding at_resolved
read_file local (given read) path = read path
read_file local (table_relative base) path = at_resolved base local path

module _ (K : Kinds) where
  pub record Table : Type 0 where
    pub identifier : K.TableIdent
    pub metadata : K.Metadata
    pub metadata_location : Option Text
    pub file_io : FileIo

  pub record Catalog (W : Type 0) : Type 0 where
    pub list_namespaces : Option K.NamespaceIdent → Io W (List K.NamespaceIdent)
    pub create_namespace : K.NamespaceIdent → K.Properties → Io W K.Namespace
    pub get_namespace : K.NamespaceIdent → Io W K.Namespace
    pub namespace_exists : K.NamespaceIdent → Io W Bool
    pub update_namespace : K.NamespaceIdent → K.Properties → Io W (Unit {0})
    pub drop_namespace : K.NamespaceIdent → Io W (Unit {0})
    pub list_tables : K.NamespaceIdent → Io W (List K.TableIdent)
    pub create_table : K.NamespaceIdent → K.TableCreation → Io W Table
    pub load_table : K.TableIdent → Io W Table
    pub drop_table : K.TableIdent → Io W (Unit {0})
    pub table_exists : K.TableIdent → Io W Bool
    pub rename_table : K.TableIdent → K.TableIdent → Io W (Unit {0})
    pub register_table : K.TableIdent → Text → Io W Table
    pub update_table : K.TableCommit → Io W Table

  -- `location` is that of the metadata, and `build` the last step of the builder.
  module _ (location : K.Metadata → Text) (build : Table → Outcome Table) where
    unfoldable pub rewrap_table : Table → Outcome Table
    rewrap_table table = build (record table { file_io = table_relative (location table.metadata) })

    abbrev pub rewrapped : {W : Type 0} → Io W Table → Io W Table
    rewrapped call w = let (r, w') = call w in and_then r (λ table. lift (rewrap_table table)) w'

    unfoldable pub resolved_path_catalog : {W : Type 0} → Catalog W → Catalog W
    unfolding rewrap_table
    resolved_path_catalog inner = record {
      list_namespaces = λ parent. inner.list_namespaces parent;
      create_namespace = λ namespace properties. inner.create_namespace namespace properties;
      get_namespace = λ namespace. inner.get_namespace namespace;
      namespace_exists = λ namespace. inner.namespace_exists namespace;
      update_namespace = λ namespace properties. inner.update_namespace namespace properties;
      drop_namespace = λ namespace. inner.drop_namespace namespace;
      list_tables = λ namespace. inner.list_tables namespace;
      create_table = λ namespace creation. rewrapped (inner.create_table namespace creation);
      load_table = λ table. rewrapped (inner.load_table table);
      drop_table = λ table. inner.drop_table table;
      table_exists = λ table. inner.table_exists table;
      rename_table = λ src dest. inner.rename_table src dest;
      register_table = λ table location. rewrapped (inner.register_table table location);
      update_table = λ commit. rewrapped (inner.update_table commit);
    }
