-- ===== src/Config/Load/Loaded.antt =====
-- What a loaded configuration is of its text.
use iceberg_db_rs.Base.{
  AllSome, ◌≡◌, refl, ◌∙◌, ap, subst, ◌⊎◌, inl, inr, Bool, true, false, Option, none, some, List,
  [], ◌∷◌, if◌then◌else◌,
}
use iceberg_db_rs.Base.Result.{ok, err, ok_or, Satisfies, Satisfies->>=, ok_or-ok}
use iceberg_db_rs.Base.Text.{Text, codes, text_eq}
use iceberg_db_rs.Base.Text.Chars.{is_whitespace, eq_ignore_ascii_case}
use iceberg_db_rs.Base.Text.Cut.{trim_start_matches, starts_with}
use iceberg_db_rs.Rest.Open.{CatalogSpec}
use iceberg_db_rs.Registry.{AppConfig}
use iceberg_db_rs.Config.Load.{
  looks_like_json, not_a_mapping, missing_catalogs, bad_catalogs, invalid_yaml, Yaml, strip_bom,
  some_or_else, bind_option, has_key, with_entries, find_key, mapping_key, load_mapping, load_root,
  load_str,
}

abbrev pub Passes : (Text → Bool) → Option Text → Type 0
Passes test none = ⊥
Passes test (some k) = test k ≡ true

module _ {V : Type 0} (yaml : Yaml V) where
  -- An entry of the mapping has this value under a text that passes the test.
  abbrev pub Holds : (Text → Bool) → List (V × V) → V → Type 0
  Holds test [] v = ⊥
  Holds test ((k, w) ∷ entries) v = (Passes test (yaml.as_str k) × (w ≡ v)) ⊎ Holds test entries v

  abbrev pub exactly : Text → Text → Bool
  exactly name k = text_eq k name

  abbrev pub in_any_case : Text → Text → Bool
  in_any_case name k = eq_ignore_ascii_case k name

  -- `Mapping::get` finds a value by the spelling of its key.
  pub record GetLaws : Type 0 where
    pub get_found :
        (m : List (V × V)) (name : Text) (v : V)
        → yaml.get m name ≡ some v
        → Holds (exactly name) m v
    pub get_missing :
        (m : List (V × V)) (name : Text)
        → yaml.get m name ≡ none
        → (v : V) → ¬ (Holds (exactly name) m v)

  -- The value under the name as it is spelled; where there is none, under the name in another case.
  abbrev pub IsKeyOf : List (V × V) → Text → V → Type 0
  IsKeyOf m name v =
      Holds (exactly name) m v
      ⊎ (((w : V) → ¬ (Holds (exactly name) m w)) × Holds (in_any_case name) m v)

  pub record IsLoaded (text : Text) (config : AppConfig) : Type 0 where
    pub no_json :
        starts_with (codes "{") (trim_start_matches is_whitespace (strip_bom text)) ≡ false
    pub mapping : List (V × V)
    pub parsed : bind_option (yaml.from_str (strip_bom text)) yaml.as_mapping ≡ some mapping
    pub catalogs :
        (v : V) × (IsKeyOf mapping (codes "catalogs") v
          × (yaml.to_catalogs v ≡ some config.catalogs))
    pub default_catalog :
        AllSome
          (λ name.
            (v : V) × (IsKeyOf mapping (codes "default-catalog") v × (yaml.as_str v ≡ some name)))
          config.default_catalog
    pub has_entries :
        (c : Text × CatalogSpec) × ((cs : List (Text × CatalogSpec)) × (config.catalogs ≡ c ∷ cs))

  find_key-Holds :
      (name : Text) (m : List (V × V)) (v : V)
      → find_key yaml name m ≡ some v
      → Holds (in_any_case name) m v
  unfolding find_key
  find_key-Holds name [] v h = cc
  find_key-Holds name ((k, w) ∷ m) v h = go (yaml.as_str k) h (λ h'. find_key-Holds name m v h')
    where
      go :
          (o : Option Text)
          → (if has_key name o then some w else find_key yaml name m) ≡ some v
          → (find_key yaml name m ≡ some v → Holds (in_any_case name) m v)
          → (Passes (in_any_case name) o × (w ≡ v)) ⊎ Holds (in_any_case name) m v
      go none h ih = inr (ih h)
      go (some t) h ih = split t (eq_ignore_ascii_case t name) refl h
        where
          split :
              (t : Text) (b : Bool)
              → eq_ignore_ascii_case t name ≡ b
              → (if b then some w else find_key yaml name m) ≡ some v
              → (Passes (in_any_case name) (some t) × (w ≡ v)) ⊎ Holds (in_any_case name) m v
          split t true e h' = inl (e, cc)
          split t false e h' = inr (ih h')

  mapping_key-IsKeyOf :
      GetLaws
      → (m : List (V × V)) (name : Text) (v : V) → mapping_key yaml m name ≡ some v
      → IsKeyOf m name v
  unfolding mapping_key
  mapping_key-IsKeyOf laws m name v h = go (yaml.get m name) refl h
    where
      go :
          (o : Option V)
          → yaml.get m name ≡ o
          → some_or_else o (find_key yaml name m) ≡ some v
          → IsKeyOf m name v
      go none e h' = inr (laws.get_missing m name e, find_key-Holds name m v h')
      go (some w) e h' = inl (laws.get_found m name v (e ∙ h'))

  default-IsKeyOf :
      GetLaws
      → (m : List (V × V)) (o : Option V) → mapping_key yaml m (codes "default-catalog") ≡ o
      → AllSome
          (λ name. (v : V) × (IsKeyOf m (codes "default-catalog") v × (yaml.as_str v ≡ some name)))
          (bind_option o yaml.as_str)
  default-IsKeyOf laws m none e = tt
  default-IsKeyOf laws m (some v) e = go (yaml.as_str v) refl
    where
      go :
          (o : Option Text)
          → yaml.as_str v ≡ o
          → AllSome
              (λ name.
                (w : V) × (IsKeyOf m (codes "default-catalog") w × (yaml.as_str w ≡ some name)))
              o
      go none h = tt
      go (some name) h = (v, (mapping_key-IsKeyOf laws m (codes "default-catalog") v e, h))

  module _ (laws : GetLaws) (text : Text)
      (no_json : starts_with (codes "{") (trim_start_matches is_whitespace (strip_bom text))
        ≡ false)
      (m : List (V × V))
      (parsed : bind_option (yaml.from_str (strip_bom text)) yaml.as_mapping ≡ some m) where
    with_entries-IsLoaded :
        (v : V) (catalogs : List (Text × CatalogSpec))
        → mapping_key yaml m (codes "catalogs") ≡ some v
        → yaml.to_catalogs v ≡ some catalogs
        → Satisfies (IsLoaded text) (
            with_entries
              (bind_option (mapping_key yaml m (codes "default-catalog")) yaml.as_str)
              catalogs)
    with_entries-IsLoaded v [] e h = tt
    with_entries-IsLoaded v (c ∷ cs) e h = record {
      no_json = no_json;
      mapping = m;
      parsed = parsed;
      catalogs = (v, (mapping_key-IsKeyOf laws m (codes "catalogs") v e, h));
      default_catalog = default-IsKeyOf laws m (mapping_key yaml m (codes "default-catalog")) refl;
      has_entries = (c, (cs, refl));
    }

    load_mapping-IsLoaded : Satisfies (IsLoaded text) (load_mapping yaml m)
    unfolding load_mapping
    load_mapping-IsLoaded =
        let key = mapping_key yaml m (codes "catalogs") in
        Satisfies->>= (IsLoaded text) (ok_or missing_catalogs key) _ (λ v e.
          Satisfies->>= (IsLoaded text) (ok_or bad_catalogs (yaml.to_catalogs v)) _ (λ catalogs k.
            with_entries-IsLoaded v catalogs (ok_or-ok missing_catalogs key v e)
              (ok_or-ok bad_catalogs (yaml.to_catalogs v) catalogs k)))

  load_root-IsLoaded :
      (laws : GetLaws) (text : Text)
      → starts_with (codes "{") (trim_start_matches is_whitespace (strip_bom text)) ≡ false
      → Satisfies (IsLoaded text) (load_root yaml (strip_bom text))
  unfolding load_root
  load_root-IsLoaded laws text h =
      let parsed = yaml.from_str (strip_bom text) in
      Satisfies->>= (IsLoaded text) (ok_or invalid_yaml parsed) _ (λ root e.
        Satisfies->>= (IsLoaded text) (ok_or not_a_mapping (yaml.as_mapping root)) _ (λ m k.
          load_mapping-IsLoaded laws text h m (
            ap (λ o. bind_option o yaml.as_mapping) (ok_or-ok invalid_yaml parsed root e)
            ∙ ok_or-ok not_a_mapping (yaml.as_mapping root) m k)))

  load_str-Satisfies : GetLaws → (text : Text) → Satisfies (IsLoaded text) (load_str yaml text)
  unfolding load_str
  load_str-Satisfies laws text =
      go (starts_with (codes "{") (trim_start_matches is_whitespace (strip_bom text))) refl
    where
      go :
          (b : Bool)
          → starts_with (codes "{") (trim_start_matches is_whitespace (strip_bom text)) ≡ b
          → Satisfies
              (IsLoaded text)
              (if b then err looks_like_json else load_root yaml (strip_bom text))
      go true e = tt
      go false e = load_root-IsLoaded laws text e

  -- For a YAML library whose `get` finds a value by the spelling of its key: a text that loads,
  -- with or without a byte order mark, does not begin with a brace behind white space, and is a
  -- mapping; the catalogs are what the library reads from the value under `catalogs`, spelled so
  -- or, where there is no such key, in another case; a default catalog is the text under
  -- `default-catalog`, by the same rule; and there is at least one catalog.
  pub load_str-IsLoaded :
      GetLaws
      → (text : Text) (config : AppConfig) → load_str yaml text ≡ ok config
      → IsLoaded text config
  load_str-IsLoaded laws text config h =
      subst (Satisfies (IsLoaded text)) h (load_str-Satisfies laws text)
