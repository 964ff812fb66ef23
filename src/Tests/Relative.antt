-- ===== src/Tests/Relative.antt =====
-- A run of a catalog whose tables read their files against their locations.
use iceberg_db_rs.Base.{ℕ, ◌+◌, ◌≡◌, refl, true, none, [], ◌++◌, Outcome, ok, err, not_found, arith}
use iceberg_db_rs.Base.Text.{Text, codes}
use iceberg_db_rs.Base.Text.Chars.{is_whitespace}
use iceberg_db_rs.Base.Text.Cut.{contains, starts_with, strip_prefix}
use iceberg_db_rs.ByteCache.Range.{Bytes}
use iceberg_db_rs.ResolvedPaths.{file_uri_to_local_path, is_absolute_path}
use iceberg_db_rs.ResolvedPaths.Catalog.{
  Kinds, given, read_file, Table, Catalog, resolved_path_catalog,
}
use iceberg_db_rs.ResolvedPaths.Relative.{
  IsRelative, IsLocation, TableCall, loads, made, resolved_path_catalog-read_file,
}

-- Metadata is its location.
abbrev kinds : Kinds
kinds = record {
  NamespaceIdent = Text;
  Namespace = Text;
  Properties = Text;
  TableIdent = Text;
  TableCreation = Text;
  TableCommit = Text;
  Metadata = Text;
}

abbrev location : Text → Text
location metadata = metadata

abbrev build : Table kinds → Outcome (Table kinds)
build table = ok table

abbrev orders : Table kinds
orders = record {
  identifier = codes "orders";
  metadata = codes "/wh";
  metadata_location = none;
  file_io = given (λ p. err not_found);
}

-- The state is the number of tables that were asked for.
abbrev inner : Catalog kinds ℕ
inner = record {
  list_namespaces = λ parent n. (ok [], n);
  create_namespace = λ namespace properties n. (ok namespace, n);
  get_namespace = λ namespace n. (ok namespace, n);
  namespace_exists = λ namespace n. (ok true, n);
  update_namespace = λ namespace properties n. (ok tt, n);
  drop_namespace = λ namespace n. (ok tt, n);
  list_tables = λ namespace n. (ok [], n);
  create_table = λ namespace creation n. (err not_found, n);
  load_table = λ table n. (ok orders, n + 1);
  drop_table = λ table n. (ok tt, n);
  table_exists = λ table n. (ok true, n);
  rename_table = λ src dest n. (ok tt, n);
  register_table = λ table at n. (ok orders, n);
  update_table = λ commit n. (err not_found, n);
}

-- Every local file holds its path.
abbrev local : Text → Outcome Bytes
local path = ok path

abbrev loading : TableCall kinds location build
loading = loads (codes "orders")

-- What the runs unfold.
program : Unit {0}
unfolding resolved_path_catalog is_whitespace contains starts_with strip_prefix
    file_uri_to_local_path is_absolute_path
program = tt

avro-IsRelative : IsRelative (codes "a.avro")
unfolding program
avro-IsRelative = record {
  trimmed = record { starts = refl; ends = refl };
  no_backslash =
      (omega arith, (omega arith, (omega arith, (omega arith, (omega arith, (omega arith, tt))))));
  no_file_uri = refl;
  no_scheme = refl;
  not_absolute = refl;
}

wh-IsLocation : IsLocation (codes "/wh")
wh-IsLocation = record {
  no_backslash = (omega arith, (omega arith, (omega arith, tt)));
  no_slash = refl;
}

resolved_path_catalog-read_file_example :
    (t : Table kinds) × (made kinds location build
        (resolved_path_catalog kinds location build inner)
        loading
        0
      ≡ (ok t, 1))
    × (t.identifier ≡ codes "orders")
    × (t.metadata ≡ codes "/wh")
    × (t.metadata_location ≡ none)
    × (read_file local t.file_io (codes "a.avro") ≡ ok (t.metadata ++ codes "/a.avro"))
unfolding program
resolved_path_catalog-read_file_example =
    resolved_path_catalog-read_file kinds location build inner local loading b'a' (codes ".avro") 0
      1 orders (λ t. refl) refl wh-IsLocation avro-IsRelative
