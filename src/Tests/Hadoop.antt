-- ===== src/Tests/Hadoop.antt =====
-- Runs of the search for the tables of a warehouse.
use mathlib.Core.Option
use iceberg_db_rs.Base.{
  ℕ, ◌≡◌, refl, subst, inl, inr, Bool, true, false, ◌&&◌, ◌||◌, Bool-cases, Option, none, some,
  List, [], ◌∷◌, map, if◌then◌else◌, ok, arith, for_each,
}
use iceberg_db_rs.Base.Text.{Text, codes, text_eq, text_eq_iff, text_eq_self, has_name}
use iceberg_db_rs.Base.Text.Chars.{is_whitespace}
use iceberg_db_rs.Base.Text.Cut.{strip_prefix, starts_with}
use iceberg_db_rs.Base.Text.Number.{parse_unsigned, strip_suffix}
use iceberg_db_rs.Hadoop.{
  Files, TableCatalog, child, resolve_metadata_file, latest_metadata_json, bootstrap_hadoop_tables,
  parse_metadata_version,
}
use iceberg_db_rs.Hadoop.Scan.{CatalogLaws, Warehouse, is_some, warehouse_location, Adds}
use iceberg_db_rs.Hadoop.Latest.{IsNewest, latest_metadata_json-IsNewest}
use iceberg_db_rs.Hadoop.Registered.{bootstrap_hadoop_tables-Adds}

-- What the runs unfold.
program : Unit {0}
unfolding resolve_metadata_file latest_metadata_json bootstrap_hadoop_tables strip_prefix
    starts_with parse_unsigned strip_suffix parse_metadata_version is_whitespace for_each
program = tt

abbrev root : Text
root = codes "w"

abbrev table_dir : Text
table_dir = codes "w/db/t"

abbrev metadata_dir : Text
metadata_dir = codes "w/db/t/metadata"

abbrev names : List Text
names = codes "v1.metadata.json" ∷ codes "v10.metadata.json" ∷ codes "v9.metadata.json" ∷ []

abbrev listing : Text → List Text
listing dir =
    if text_eq dir root
    then codes "db" ∷ codes "notes" ∷ []
    else if text_eq dir (codes "w/db")
    then codes "t" ∷ codes ".tmp" ∷ []
    else if text_eq dir metadata_dir
    then names
    else []

abbrev dirs : List Text
dirs = codes "w/db" ∷ table_dir ∷ metadata_dir ∷ []

abbrev disk : Files
disk = record {
  read_dir = λ dir. ok (map ok (listing dir));
  read_to_string = λ path. ok [];
  is_dir = λ path. has_name path dirs;
  is_file = λ path. has_name path (map (child metadata_dir) names);
}

abbrev newest : Option Text
newest = some (codes "w/db/t/metadata/v10.metadata.json")

newest_run : latest_metadata_json disk metadata_dir ≡ ok newest
unfolding program
newest_run = refl

-- The namespaces, and the metadata of each table.
abbrev State : Type 0
State = (Text → Bool) × (Text → Text → Option Text)

abbrev memory : TableCatalog State
memory = record {
  namespace_exists = λ n s. (ok (s.0 n), s);
  create_namespace = λ n l s. (ok tt, (λ m. text_eq n m || s.0 m, s.1));
  table_exists = λ n t s. (ok (is_some (s.1 n t)), s);
  register_table =
      λ n t l s. (ok tt, (s.0, λ a b. if text_eq n a && text_eq t b then some l else s.1 a b));
}

created : (n : Text) (s : State) → (text_eq n n || s.0 n) ≡ true
created n s = ground (arith, text_eq_self n)

abbrev memory_laws : CatalogLaws memory
memory_laws = record {
  has_namespace = λ s. s.0;
  location_of = λ s. s.1;
  namespace_exists_lem = λ n s. refl;
  create_namespace_lem =
      λ n l s missing. ((λ m. text_eq n m || s.0 m, s.1), (refl, (created n s, λ a b. refl)));
  table_exists_lem = λ n t s. refl;
  register_table_lem = λ n t l s there missing. (
    (s.0, λ a b. if text_eq n a && text_eq t b then some l else s.1 a b),
    (refl, (there, λ a b. refl)),
  );
}

-- A property of every directory of the disk below its root.
dirs_each :
    (P : Text → Type 0)
    → P (codes "w/db")
    → P table_dir
    → P metadata_dir
    → (path : Text) → has_name path dirs ≡ true
    → P path
dirs_each P p q r path h = elim (Bool-cases (text_eq (codes "w/db") path)) [
  | inl e ↦ subst P ((text_eq_iff (codes "w/db") path).0 e) p
  | inr e ↦ elim (Bool-cases (text_eq table_dir path)) [
    | inl f ↦ subst P ((text_eq_iff table_dir path).0 f) q
    | inr f ↦ subst P ((text_eq_iff metadata_dir path).0 (ground arith)) r
  ]
]

abbrev metadata_at : Text → Option Text
metadata_at path = if text_eq path table_dir then newest else none

resolved :
    (path : Text)
    → has_name path dirs ≡ true
    → resolve_metadata_file disk (child path (codes "metadata")) ≡ ok (metadata_at path)
unfolding program
resolved =
    dirs_each
      (λ path. resolve_metadata_file disk (child path (codes "metadata")) ≡ ok (metadata_at path))
      refl refl refl

abbrev warehouse : Warehouse disk root
warehouse = record {
  namespaces = codes "db" ∷ codes "notes" ∷ [];
  tables = λ n. listing (child root n);
  metadata = λ n t. metadata_at (child (child root n) t);
  namespaces_listed = refl;
  tables_listed = λ n there. refl;
  metadata_found = λ n t. resolved (child (child root n) t);
}

abbrev empty : State
empty = (λ n. false, λ n t. none)

bootstrap_run :
    (bootstrap_hadoop_tables disk memory root empty).1.1 (codes "db") (codes "t") ≡ newest
unfolding program
bootstrap_run = refl

bootstrap_hadoop_tables-Adds_example :
    (s : State) × ((bootstrap_hadoop_tables disk memory root empty ≡ (ok tt, s))
      × Adds memory_laws empty s (warehouse_location warehouse))
bootstrap_hadoop_tables-Adds_example = bootstrap_hadoop_tables-Adds memory_laws warehouse empty

latest_metadata_json-IsNewest_example :
    (best : Option (ℕ × Text)) × ((latest_metadata_json disk metadata_dir
        ≡ ok (Option.map (λ b. b.1) best))
      × IsNewest disk metadata_dir names best)
latest_metadata_json-IsNewest_example = latest_metadata_json-IsNewest disk metadata_dir names refl
