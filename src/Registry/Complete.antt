-- ===== src/Registry/Complete.antt =====
-- What an opened registry holds.
use iceberg_db_rs.Base.{
  ◌≡◌, refl, ◌∙◌, ap, subst, Bool, true, false, ◌||◌, Option, none, some, List, [], ◌∷◌, map,
  if◌then◌else◌, ok, arith,
}
use iceberg_db_rs.Base.Text.{Text, codes, text_eq, has_name}
use iceberg_db_rs.Base.Dict
use iceberg_db_rs.Base.Dict.{Dict, get-insert}
use iceberg_db_rs.Config.Resolve.{Env}
use iceberg_db_rs.Config.Profile.{is_empty, nonempty, or_text, or_option}
use iceberg_db_rs.QueryIo.{Target}
use iceberg_db_rs.Rest.Http.{
  Attempt, done, failed, Call, lift, Satisfies, Satisfies-and_then, anything,
}
use iceberg_db_rs.Base.Text.Cut.{trim}
use iceberg_db_rs.Rest.Open.{CatalogSpec, property, default_schema_from_spec}
use iceberg_db_rs.Registry.{
  OpenCatalog, AppConfig, CatalogRegistry, Warehouses, open_catalog, open_all, first_name,
  schema_of, registry_of, from_config, default_of,
}

abbrev pub has : {A : Type 0} → Option A → Bool
has none = false
has (some a) = true

abbrev pub names_of : {A : Type 0} → List (Text × A) → List Text
names_of = map (λ e. e.0)

-- A default that can be asked for, all catalogs of the configuration and no others, and a schema.
pub record IsComplete (config : AppConfig) (r : CatalogRegistry) : Type 0 where
  pub has_default : (c : OpenCatalog) × (default_of r ≡ ok c)
  pub chosen_default : (name : Text) → config.default_catalog ≡ some name → r.default_name ≡ name
  pub has_catalogs :
      (name : Text) → has (Dict.get r.catalogs name) ≡ has_name name (names_of config.catalogs)
  pub has_schema : is_empty r.default_schema ≡ false

default_schema-nonempty :
    (spec : CatalogSpec)
    → is_empty (or_text (default_schema_from_spec spec) (codes "public")) ≡ false
unfolding default_schema_from_spec
default_schema-nonempty spec =
    go (or_option (property spec (codes "default-schema")) (property spec (codes "schema")))
  where
    trimmed : (t : Text) → is_empty (or_text (nonempty (some t)) (codes "public")) ≡ false
    trimmed [] = refl
    trimmed (c ∷ t) = refl

    go :
        (o : Option Text)
        → is_empty (
            or_text
              (elim o as (λ x. Option Text) [
                | none ↦ none
                | some schema ↦ nonempty (some (trim schema))
              ])
              (codes "public"))
          ≡ false
    go none = refl
    go (some t) = trimmed (trim t)

schema_of-nonempty : (o : Option CatalogSpec) → is_empty (schema_of o) ≡ false
schema_of-nonempty none = refl
schema_of-nonempty (some spec) = default_schema-nonempty spec

-- A registry whose names are those of the configuration.
registry_of-IsComplete :
    (config : AppConfig) (first : Text) (catalogs : Dict OpenCatalog) (default : Option OpenCatalog)
    → ((name : Text) → has (Dict.get catalogs name) ≡ has_name name (names_of config.catalogs))
    → Dict.get catalogs (or_text config.default_catalog first) ≡ default
    → Satisfies
        (IsComplete config)
        (registry_of config (or_text config.default_catalog first) catalogs default)
unfolding default_of
registry_of-IsComplete config first catalogs none h d = tt
registry_of-IsComplete config first catalogs (some c) h d = record {
  has_default = (c, rw (d, default_of));
  chosen_default = λ name e. rw e;
  has_catalogs = h;
  has_schema = schema_of-nonempty (Dict.get config.catalogs (or_text config.default_catalog first));
}

module _ {W : Type 0} (w : Warehouses W) (target : Target) (env : Env)
    (open_rest : CatalogSpec → Call W (Dict Text)) where
  -- The names of the first map and of the list.
  abbrev Extends : Dict OpenCatalog → List (Text × CatalogSpec) → Dict OpenCatalog → Type 0
  Extends before specs after =
      (name : Text)
      → has (Dict.get after name) ≡ (has (Dict.get before name) || has_name name (names_of specs))

  inserted :
      (before : Dict OpenCatalog) (n : Text) (c : OpenCatalog) (specs : List (Text × CatalogSpec))
      (name : Text)
      → (has (Dict.get (Dict.insert before n c) name) || has_name name (names_of specs))
        ≡ (has (Dict.get before name) || (text_eq n name || has_name name (names_of specs)))
  inserted before n c specs name =
      ap (λ o. has o || has_name name (names_of specs)) (get-insert before n c name)
      ∙ go (text_eq n name) (Dict.get before name) (has_name name (names_of specs))
    where
      go :
          (b : Bool) (o : Option OpenCatalog) (h : Bool)
          → (has (if b then some c else o) || h) ≡ (has o || (b || h))
      go true none h = refl
      go true (some d) h = refl
      go false none h = refl
      go false (some d) h = refl

  open_all-Extends :
      (specs : List (Text × CatalogSpec)) (before : Dict OpenCatalog) (s : W)
      → Satisfies (Extends before specs) (open_all w target env open_rest specs before s).0
  unfolding open_all
  open_all-Extends [] before s = λ name. ground arith
  open_all-Extends ((n, spec) ∷ specs) before s =
      let first = open_catalog w target env open_rest n spec s in
      Satisfies-and_then (λ c. Unit {0}) (Extends before ((n, spec) ∷ specs)) first.0
        (λ c. open_all w target env open_rest specs (Dict.insert before n c)) first.1
        (anything first.0)
        (λ c u s'.
          weaken c (open_all w target env open_rest specs (Dict.insert before n c) s').0
            (open_all-Extends specs (Dict.insert before n c) s'))
    where
      weaken :
          (c : OpenCatalog) (r : Attempt (Dict OpenCatalog))
          → Satisfies (Extends (Dict.insert before n c) specs) r
          → Satisfies (Extends before ((n, spec) ∷ specs)) r
      weaken c (failed e) k = tt
      weaken c (done after) k = λ name. k name ∙ inserted before n c specs name

  from_config-Satisfies :
      (config : AppConfig) (first : Option Text) (s : W)
      → first_name config.catalogs ≡ first
      → Satisfies (IsComplete config) (from_config w target env open_rest config s).0
  unfolding from_config Dict.get
  from_config-Satisfies config none s e = rw (e, from_config) tt
  from_config-Satisfies config (some first) s e =
      let opened = open_all w target env open_rest config.catalogs [] s in
      rw (e, from_config)
        (Satisfies-and_then (Extends [] config.catalogs) (IsComplete config) opened.0
          (λ catalogs. lift (
            registry_of config (or_text config.default_catalog first) catalogs
              (Dict.get catalogs (or_text config.default_catalog first))))
          opened.1 (open_all-Extends config.catalogs [] s)
          (λ catalogs h s'.
            registry_of-IsComplete config first catalogs
              (Dict.get catalogs (or_text config.default_catalog first)) (λ name. h name) refl))

  -- When a configuration has been opened: the default catalog can be asked for without a panic and
  -- is the one that the configuration names, if it names one; the catalogs are those of the
  -- configuration, each of them and no other; and the default schema is not empty.
  pub from_config-IsComplete :
      (config : AppConfig) (r : CatalogRegistry) (s s' : W)
      → from_config w target env open_rest config s ≡ (done r, s')
      → IsComplete config r
  from_config-IsComplete config r s s' opened =
      subst (λ (x : Attempt CatalogRegistry × W). Satisfies (IsComplete config) x.0) opened
        (from_config-Satisfies config (first_name config.catalogs) s refl)
