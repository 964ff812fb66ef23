-- ===== src/Engine/Opened.antt =====
-- What an engine is when it has been opened: its session is over a catalog of its registry.
use iceberg_db_rs.Base.{◌≡◌, refl, false, Option, none, some, Outcome, panic}
use iceberg_db_rs.Base.Result.{Result, ok, err, map_err, Satisfies}
use iceberg_db_rs.Base.Result.Run.{◌>>=◌, and_then, lift, Satisfies-and_then}
use iceberg_db_rs.Base.Text.{Text}
use iceberg_db_rs.Base.Dict
use iceberg_db_rs.QueryIo.{Target, native, wasm32}
use iceberg_db_rs.Registry.{OpenCatalog, CatalogRegistry, get_catalog, default_of}
use iceberg_db_rs.Session.Options.{
  SessionOptions, iceberg_session_config, apply_to_config, wasm_session_config,
}
use iceberg_db_rs.Session.Query.{
  SqlSession, World, provider_error, iceberg_session, open_iceberg_catalog,
}
use iceberg_db_rs.Session.Lazy.{catalog_try_new}
use iceberg_db_rs.Session.Open.{open_session, horizon_session, open_wasm_horizon_session}
use iceberg_db_rs.Engine.{bad_session, unwound, on_session, Engine, Setting, with_session}

-- A session over this catalog, under its name and with this schema, in DataFusion too.
pub record IsOver {P : Type 0} (name schema : Text) (catalog : OpenCatalog)
    (session : SqlSession OpenCatalog P) : Type 0 where
  pub catalog_name : session.default_catalog ≡ name
  pub schema_name : session.default_schema ≡ schema
  pub over : session.iceberg_catalog ≡ catalog
  pub planned_catalog : session.config.catalog ≡ name
  pub planned_schema : session.config.schema ≡ schema
  pub no_demo : session.wasm_demo ≡ false

-- The session is over a catalog of the registry, under the name it has there.
abbrev pub IsCurrent : {P : Type 0} → Engine P → Type 0
IsCurrent e =
    (name : Text) × (catalog : OpenCatalog) × ((get_catalog e.registry name ≡ some catalog)
      × IsOver name e.registry.default_schema catalog e.session)

module _ {A P F T S : Type 0} (g : Setting A P F T S) where
  pub open_iceberg_catalog-IsOver :
      (target : Target) (name schema : Text) (catalog : OpenCatalog) (options : SessionOptions)
      (s : World S)
      → Satisfies
          (IsOver name schema catalog)
          (open_iceberg_catalog target g.lib name schema catalog options s).0
  unfolding open_iceberg_catalog iceberg_session_config apply_to_config
  open_iceberg_catalog-IsOver target name schema catalog options s =
      let r = g.lib.provider_try_new catalog s in
      Satisfies-and_then (IsOver name schema catalog) (map_err provider_error r.0)
        (λ provider. lift (ok (iceberg_session target g.lib name schema catalog options provider)))
        r.1
        (λ provider e. record {
          catalog_name = refl;
          schema_name = refl;
          over = refl;
          planned_catalog = refl;
          planned_schema = refl;
          no_demo = refl;
        })

  open_session-IsOver :
      (target : Target) (name schema : Text) (catalog : OpenCatalog) (options : SessionOptions)
      (s : World S)
      → Satisfies
          (IsOver name schema catalog)
          (open_session g.lib g.lazy target name schema catalog options s).0
  unfolding open_session open_wasm_horizon_session wasm_session_config
  open_session-IsOver native name schema catalog options s =
      open_iceberg_catalog-IsOver native name schema catalog options s
  open_session-IsOver wasm32 name schema catalog options s =
      let r = catalog_try_new (g.lazy.client catalog) s in
      Satisfies-and_then (IsOver name schema catalog) r.0
        (λ schemas. lift (ok (horizon_session g.lib g.lazy name schema catalog schemas))) r.1
        (λ schemas e. record {
          catalog_name = refl;
          schema_name = refl;
          over = refl;
          planned_catalog = refl;
          planned_schema = refl;
          no_demo = refl;
        })

  pub with_session-IsCurrent :
      (options : SessionOptions) (registry : CatalogRegistry) (s : World S)
      → Satisfies (λ e. (e.registry ≡ registry) × IsCurrent e) (with_session g options registry s).0
  unfolding with_session default_of get_catalog
  with_session-IsCurrent options registry s =
      go (Dict.get registry.catalogs registry.default_name) refl
    where
      opened :
          (catalog : OpenCatalog)
          → Dict.get registry.catalogs registry.default_name ≡ some catalog
          → (r : Result Text (SqlSession OpenCatalog P)) (s' : World S)
          → Satisfies (IsOver registry.default_name registry.default_schema catalog) r
          → Satisfies
              (λ (e : Engine P). (e.registry ≡ registry) × IsCurrent e)
              (and_then
                (map_err bad_session r)
                (λ session. lift (ok (record { registry = registry; session = session })))
                s').0
      opened catalog found (err x) s' h = tt
      opened catalog found (ok session) s' h = (refl, (registry.default_name, catalog, (found, h)))

      go :
          (o : Option OpenCatalog)
          → Dict.get registry.catalogs registry.default_name ≡ o
          → Satisfies
              (λ (e : Engine P). (e.registry ≡ registry) × IsCurrent e)
              (and_then
                (unwound (elim o [ none ↦ panic | some c ↦ Outcome.ok c ]))
                (λ catalog.
                  on_session (
                    open_session g.lib g.lazy g.target registry.default_name registry.default_schema
                      catalog options)
                  >>= (λ session. lift (ok (record { registry = registry; session = session }))))
                s).0
      go none found = tt
      go (some catalog) found =
          let r =
            open_session g.lib g.lazy g.target registry.default_name registry.default_schema catalog
              options s in
          opened catalog found r.0 r.1 (
            open_session-IsOver g.target registry.default_name registry.default_schema catalog
              options s)
