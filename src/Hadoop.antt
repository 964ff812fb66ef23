-- ===== src/Hadoop.antt =====
-- crates/idb-catalog/src/hadoop.rs: tables that a Hadoop catalog wrote under a warehouse directory
-- are registered in a catalog. The file system and the catalog are parameters; a path is a text.
pub mod Latest
pub mod Scan
pub mod Tables
pub mod Registered
use mathlib.Core.Option
use iceberg_db_rs.Base.{
  ℕ, ◌^◌, Bool, true, false, ◌||◌, not, Option, none, some, List, [], ◌∷◌, ◌++◌, leb, if◌then◌else◌,
  Outcome, ok, err, panic, ◌>>=◌, Io, pure, lift, then_do, for_each,
}
use iceberg_db_rs.Base.Text.{Text, codes}
use iceberg_db_rs.Base.Text.Chars.{replace_char}
use iceberg_db_rs.Base.Text.Cut.{trim, starts_with, strip_prefix}
use iceberg_db_rs.Base.Text.Number.{parse_unsigned, strip_suffix}

-- What the code asks of the file system: a listing, each of whose entries may fail, gives names.
pub record Files : Type 0 where
  pub read_dir : Text → Outcome (List (Outcome Text))
  pub read_to_string : Text → Outcome Text
  pub is_dir : Text → Bool
  pub is_file : Text → Bool

-- What the code asks of the catalog it fills, over the catalog's state.
pub record TableCatalog (S : Type 0) : Type 0 where
  pub namespace_exists : Text → Io S Bool
  pub create_namespace : Text → Text → Io S Unit
  pub table_exists : Text → Text → Io S Bool
  pub register_table : Text → Text → Text → Io S Unit

abbrev pub child : Text → Text → Text
child dir name = dir ++ (b'/' ∷ name)

-- `normalize_path`: `\` becomes `/`.
abbrev pub normalize_path : Text → Text
normalize_path = replace_char 0x5c b'/'

abbrev pub u32_limit : ℕ
u32_limit = 2 ^ 32

abbrev pub parse_between : Option Text → Option ℕ
parse_between none = none
parse_between (some s) = parse_unsigned u32_limit s

unfoldable pub parse_metadata_version : Text → Option ℕ
parse_metadata_version file_name = elim (strip_prefix (codes "v") file_name) [
  | none ↦ none
  | some rest ↦ parse_between (strip_suffix (codes ".metadata.json") rest)
]

module _ (files : Files) where
  -- One round of the loop in `latest_metadata_json`: the best version so far, with its path.
  unfoldable pub better : Text → Text → Option (ℕ × Text) → Option (ℕ × Text)
  unfolding parse_metadata_version
  better dir name best = elim (parse_metadata_version name) [
    | none ↦ best
    | some version ↦ if not (files.is_file (child dir name)) then best else elim best [
      | none ↦ some (version, child dir name)
      | some b ↦ if leb version b.0 then some b else some (version, child dir name)
    ]
  ]

  unfoldable pub latest_loop :
      Text → List (Outcome Text) → Option (ℕ × Text) → Outcome (Option (ℕ × Text))
  unfolding better
  latest_loop dir [] best = ok best
  latest_loop dir (ok name ∷ entries) best = latest_loop dir entries (better dir name best)
  latest_loop dir (err e ∷ entries) best = err e
  latest_loop dir (panic ∷ entries) best = panic

  unfoldable pub latest_metadata_json : Text → Outcome (Option Text)
  unfolding latest_loop
  latest_metadata_json dir = do
    entries ← files.read_dir dir
    best ← latest_loop dir entries none
    ok (Option.map (λ b. b.1) best)

  abbrev pub unless_blank : Text → Text → Option Text
  unless_blank dir [] = none
  unless_blank dir (c ∷ s) = some (child dir (codes "v" ++ ((c ∷ s) ++ codes ".metadata.json")))

  unfoldable pub metadata_from_version_hint : Text → Outcome (Option Text)
  metadata_from_version_hint dir =
      if not (files.is_file (child dir (codes "version-hint.text"))) then ok none else do
        version ← files.read_to_string (child dir (codes "version-hint.text"))
        ok (unless_blank dir (trim version))

  -- The hinted file if it is one, else the latest.
  unfoldable pub hinted_or_latest : Text → Option Text → Outcome (Option Text)
  unfolding latest_metadata_json
  hinted_or_latest dir hint = elim hint [
    | none ↦ (do latest ← latest_metadata_json dir; ok (Option.map normalize_path latest))
    | some path ↦
        if files.is_file path
        then ok (some (normalize_path path))
        else (do latest ← latest_metadata_json dir; ok (Option.map normalize_path latest))
  ]

  unfoldable pub resolve_metadata_file : Text → Outcome (Option Text)
  unfolding metadata_from_version_hint hinted_or_latest
  resolve_metadata_file dir =
      if not (files.is_dir dir)
      then ok none
      else do hint ← metadata_from_version_hint dir; hinted_or_latest dir hint

abbrev pub is_hidden : Text → Bool
is_hidden = starts_with (codes ".")

module _ (files : Files) {S : Type 0} (catalog : TableCatalog S) where
  unfoldable pub register_found : Text → Text → Option Text → Io S Unit
  register_found namespace table none = pure tt
  register_found namespace table (some location) =
      then_do (catalog.table_exists namespace table) (λ (there : Bool).
        if there then pure tt else catalog.register_table namespace table location)

  -- One round of the loop over the tables of a namespace.
  unfoldable pub register_entry : Text → Text → Outcome Text → Io S Unit
  unfolding register_found resolve_metadata_file
  register_entry namespace_path namespace entry = then_do (lift entry) (λ table.
      if not (files.is_dir (child namespace_path table)) || is_hidden table
      then pure tt
      else then_do
          (lift
            (resolve_metadata_file files (child (child namespace_path table) (codes "metadata"))))
          (register_found namespace table))

  unfoldable pub ensure_namespace : Text → Text → Io S Unit
  ensure_namespace warehouse namespace =
      then_do (catalog.namespace_exists namespace) (λ (there : Bool).
        if there
        then pure tt
        else catalog.create_namespace namespace (child (normalize_path warehouse) namespace))

  -- One round of the loop over the namespaces of the warehouse.
  unfoldable pub bootstrap_entry : Text → Outcome Text → Io S Unit
  unfolding register_entry ensure_namespace for_each
  bootstrap_entry warehouse entry = then_do (lift entry) (λ namespace.
      if not (files.is_dir (child warehouse namespace)) || is_hidden namespace
      then pure tt
      else then_do (ensure_namespace warehouse namespace) (λ u.
        then_do (lift (files.read_dir (child warehouse namespace)))
          (for_each (register_entry (child warehouse namespace) namespace))))

  unfoldable pub bootstrap_hadoop_tables : Text → Io S Unit
  unfolding bootstrap_entry
  bootstrap_hadoop_tables warehouse =
      then_do (lift (files.read_dir warehouse)) (for_each (bootstrap_entry warehouse))
