-- ===== src/Config/Load.antt =====
-- `mapping_key`, `load_str`, `load` and `default_config_path` of crates/idb-config/src/lib.rs. The
-- YAML library is a parameter: it parses, and gives the parts of a value.
pub mod Loaded
use iceberg_db_rs.Base.{
  ℕ, Bool, true, false, Option, none, some, List, [], ◌∷◌, ◌++◌, ◌==◌, if◌then◌else◌,
}
use iceberg_db_rs.Base.Result.{Result, ok, err, ◌>>=◌, ok_or}
use iceberg_db_rs.Base.Text.{Text, codes}
use iceberg_db_rs.Base.Text.Chars.{is_whitespace, eq_ignore_ascii_case}
use iceberg_db_rs.Base.Text.Cut.{trim_start_matches, starts_with}
use iceberg_db_rs.Config.Resolve.{Env}
use iceberg_db_rs.Config.Profile.{nonempty, or_option}
use iceberg_db_rs.Rest.Open.{CatalogSpec}
use iceberg_db_rs.Registry.{AppConfig}

pub data LoadError : Type 0 where
  unreadable looks_like_json invalid_yaml not_a_mapping missing_catalogs bad_catalogs no_entries :
      LoadError

-- What the code asks of the YAML library. `get` is `Mapping::get` with a text as the key, and
-- `to_catalogs` is `from_value`, whose catalogs are in the order of their names.
pub record Yaml (V : Type 0) : Type 0 where
  pub from_str : Text → Option V
  pub as_mapping : V → Option (List (V × V))
  pub as_str : V → Option Text
  pub get : List (V × V) → Text → Option V
  pub to_catalogs : V → Option (List (Text × CatalogSpec))

-- `strip_prefix('\u{feff}')`.
abbrev pub strip_bom : Text → Text
strip_bom [] = []
strip_bom (c ∷ s) = if c == 0xfeff then s else c ∷ s

abbrev pub some_or_else : {V : Type 0} → Option V → Option V → Option V
some_or_else none b = b
some_or_else (some v) b = some v

abbrev pub bind_option : {V W : Type 0} → Option V → (V → Option W) → Option W
bind_option none f = none
bind_option (some v) f = f v

abbrev pub has_key : Text → Option Text → Bool
has_key name none = false
has_key name (some k) = eq_ignore_ascii_case k name

-- A configuration needs an entry.
abbrev pub with_entries : Option Text → List (Text × CatalogSpec) → Result LoadError AppConfig
with_entries default_catalog [] = err no_entries
with_entries default_catalog (c ∷ catalogs) =
    ok (record { default_catalog = default_catalog; catalogs = c ∷ catalogs })

module _ {V : Type 0} (yaml : Yaml V) where
  -- `find_map` over the entries.
  unfoldable pub find_key : Text → List (V × V) → Option V
  find_key name [] = none
  find_key name ((k, v) ∷ entries) =
      if has_key name (yaml.as_str k) then some v else find_key name entries

  unfoldable pub mapping_key : List (V × V) → Text → Option V
  unfolding find_key
  mapping_key mapping name = some_or_else (yaml.get mapping name) (find_key name mapping)

  unfoldable pub load_mapping : List (V × V) → Result LoadError AppConfig
  unfolding mapping_key
  load_mapping mapping = do
    let default_catalog = bind_option (mapping_key mapping (codes "default-catalog")) yaml.as_str
    value ← ok_or missing_catalogs (mapping_key mapping (codes "catalogs"))
    catalogs ← ok_or bad_catalogs (yaml.to_catalogs value)
    with_entries default_catalog catalogs

  unfoldable pub load_root : Text → Result LoadError AppConfig
  unfolding load_mapping
  load_root text = do
    root ← ok_or invalid_yaml (yaml.from_str text)
    mapping ← ok_or not_a_mapping (yaml.as_mapping root)
    load_mapping mapping

  unfoldable pub load_str : Text → Result LoadError AppConfig
  unfolding load_root
  load_str text =
      let text' = strip_bom text in
      if starts_with (codes "{") (trim_start_matches is_whitespace text')
      then err looks_like_json
      else load_root text'

  -- `load`, by what the file system gives for a path.
  unfoldable pub load : (Text → Option Text) → Text → Result LoadError AppConfig
  unfolding load_str
  load read path = do text ← ok_or unreadable (read path); load_str text

-- `default_config_path`; a path in a directory is spelled by `join`.
unfoldable pub default_config_path : Env → (Text → Text → Text) → Text
default_config_path env join = elim (nonempty (env (codes "ICEBERG_DB_CONFIG"))) [
  | some path ↦ path
  | none ↦ elim (or_option (env (codes "HOME")) (env (codes "USERPROFILE"))) [
    | some home ↦ join (join home (codes ".iceberg-db")) (codes "config.yaml")
    | none ↦ codes "config.yaml"
  ]
]
