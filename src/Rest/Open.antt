-- ===== src/Rest/Open.antt =====
-- The opening of a REST catalog: `open_rest` of crates/idb-catalog/src/lib.rs, with
-- `build_http_client` of rest_vended.rs.
pub mod Bearer
use iceberg_db_rs.Base.{
  ℕ, Bool, true, false, Option, none, some, List, [], ◌∷◌, ◌++◌, if◌then◌else◌, ◌&&◌,
}
use iceberg_db_rs.Base.Text.{Text, codes, text_eq}
use iceberg_db_rs.Base.Text.Cut.{trim, strip_prefix}
use iceberg_db_rs.Base.Dict
use iceberg_db_rs.Base.Dict.{Dict}
use iceberg_db_rs.ByteCache.Settings.{Global, OpenCache, open_byte_cache, install_global_byte_cache}
use iceberg_db_rs.QueryIo.{Target, native, wasm32}
use iceberg_db_rs.Config.Resolve.{Env, resolve_value}
use iceberg_db_rs.Config.Profile.{
  Validation, valid, invalid, nonempty, or_option, is_snowflake_horizon_profile,
  validate_rest_props, apply_profile,
}
use iceberg_db_rs.Rest.Http.{
  missing_uri, bad_header, bad_config, Attempt, done, failed, Call, ◌>>=◌, lift, required,
  HttpClient,
}
use iceberg_db_rs.Rest.Auth.{exchange_pat}

-- Values of the YAML by their texts, which the YAML library gives.
pub record CatalogSpec : Type 0 where
  pub catalog_type : Text
  pub properties : Dict Text

abbrev pub property : CatalogSpec → Text → Option Text
property spec key = Dict.get spec.properties key

abbrev pub profile_name : CatalogSpec → Option Text
profile_name spec = property spec (codes "profile")

-- A resolved property, unless it is the type or the profile.
unfoldable pub resolved : Env → Dict Text → Dict Text
resolved env [] = []
resolved env ((k, v) ∷ properties) =
    let rest = resolved env properties in
    if text_eq k (codes "type")
    then rest
    else if text_eq k (codes "profile")
    then rest
    else (k, resolve_value env v) ∷ rest

unfoldable pub rest_catalog_properties : Env → CatalogSpec → Dict Text
unfolding resolved
rest_catalog_properties env spec = apply_profile (profile_name spec) (resolved env spec.properties)

unfoldable pub default_schema_from_spec : CatalogSpec → Option Text
default_schema_from_spec spec =
    elim (or_option (property spec (codes "default-schema")) (property spec (codes "schema"))) [
      | none ↦ none
      | some schema ↦ nonempty (some (trim schema))
    ]

abbrev pub or_insert_some : Dict Text → Text → Option Text → Dict Text
or_insert_some props key none = props
or_insert_some props key (some v) = Dict.or_insert props key v

-- The properties before the cache is opened.
unfoldable pub with_defaults : CatalogSpec → Text → Dict Text → Dict Text
unfolding default_schema_from_spec
with_defaults spec uri props =
    let m1 = Dict.or_insert (Dict.remove props (codes "uri")) (codes "uri") uri in
    let m2 = or_insert_some m1 (codes "warehouse") (Dict.get m1 (codes "warehouse")) in
    or_insert_some m2 (codes "default-schema") (default_schema_from_spec spec)

abbrev pub validated : Validation → Attempt (Unit {0})
validated valid = done tt
validated (invalid e) = failed (bad_config e)

unfoldable pub with_browser_defaults : Target → Dict Text → Dict Text
with_browser_defaults native props = props
with_browser_defaults wasm32 props =
    Dict.or_insert (Dict.or_insert props (codes "s3.dev-proxy") (codes "http://127.0.0.1:8787"))
      (codes "s3.fetch-concurrency") (codes "6")

-- A bearer in place of the credential.
unfoldable pub with_bearer : Text → Dict Text → Dict Text
with_bearer bearer props =
    Dict.remove (Dict.insert props (codes "token") bearer) (codes "credential")

-- What the code asks of the header library, the hasher, the system and the catalog it wraps.
pub record Opening (S : Type 0) : Type 0 where
  pub valid_name : Text → Bool
  pub valid_value : Text → Bool
  pub temp_dir : Text
  pub finish : List Text → ℕ
  -- In the native build, the inner catalog over its properties.
  pub load_inner : Dict Text → Call S (Unit {0})

module _ {S : Type 0} (o : Opening S) where
  -- `build_http_client` fails at a header that is not valid.
  unfoldable pub headers_valid : Dict Text → Bool
  headers_valid [] = true
  headers_valid ((k, v) ∷ props) = elim (strip_prefix (codes "header.") k) [
    | none ↦ headers_valid props
    | some name ↦ (o.valid_name name && o.valid_value v) && headers_valid props
  ]

  unfoldable pub vended_rest_catalog : Dict Text → Attempt (Dict Text)
  unfolding headers_valid
  vended_rest_catalog props = if headers_valid props then done props else failed bad_header

  unfoldable pub inner_catalog : Target → Dict Text → Call S (Unit {0})
  inner_catalog native rest_props = o.load_inner rest_props
  inner_catalog wasm32 rest_props = lift (done tt)

  module _ (http : HttpClient S) (parse_token : Text → Option Text) (target : Target) where
    -- The properties of the catalog and of the inner one, with a bearer for Snowflake.
    unfoldable pub authorized : Bool → Dict Text → Dict Text → Call S (Dict Text × Dict Text)
    unfolding with_bearer with_browser_defaults exchange_pat
    authorized false props rest_props = lift (done (props, rest_props))
    authorized true props rest_props = do
      bearer ← exchange_pat http parse_token rest_props
      lift (
          done (
            with_bearer bearer (with_browser_defaults target props),
            with_bearer bearer rest_props,
          ))

    -- After the cache was installed: the properties of the catalog.
    unfoldable pub open_with : CatalogSpec → Dict Text → Call S (Dict Text)
    unfolding authorized vended_rest_catalog inner_catalog
    open_with spec props = do
      let rest_props = Dict.remove props (codes "header.X-Iceberg-Access-Delegation")
      both ←
          authorized
            (is_snowflake_horizon_profile (profile_name spec) (Dict.get rest_props (codes "uri")))
            props rest_props
      u ← inner_catalog target both.1
      lift (vended_rest_catalog both.0)

    -- On the process's cache and the network.
    unfoldable pub install_and_open :
        Env → CatalogSpec → Dict Text → Call (Global OpenCache × S) (Dict Text)
    unfolding open_with open_byte_cache
    install_and_open env spec props s =
        let g =
          install_global_byte_cache o.finish (open_byte_cache env o.temp_dir target props) props
            s.0 in
        let (r, n) = open_with spec props s.1 in (r, (g, n))

    unfoldable pub open_rest : Env → CatalogSpec → Call (Global OpenCache × S) (Dict Text)
    unfolding install_and_open with_defaults rest_catalog_properties
    open_rest env spec = do
      let resolved_props = rest_catalog_properties env spec
      u ← lift (validated (validate_rest_props resolved_props (profile_name spec)))
      uri ← lift (required missing_uri (nonempty (Dict.get resolved_props (codes "uri"))))
      install_and_open env spec (with_defaults spec uri resolved_props)
