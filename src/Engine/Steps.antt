-- ===== src/Engine/Steps.antt =====
-- What an engine keeps through changes of its catalog and through queries.
use iceberg_db_rs.Base.{◌≡◌, refl, subst, sym, Bool, Option, none, some}
use iceberg_db_rs.Base.Result.{Result, ok, err, ok_or, map_err, Satisfies}
use iceberg_db_rs.Base.Result.Run.{and_then}
use iceberg_db_rs.Base.Text.{Text}
use iceberg_db_rs.Rest.Http.{Attempt, done, failed}
use iceberg_db_rs.Registry.{OpenCatalog, AppConfig, CatalogRegistry, from_config, get_catalog}
use iceberg_db_rs.Registry.Complete.{IsComplete, from_config-IsComplete}
use iceberg_db_rs.Session.Options.{SessionOptions, default_options}
use iceberg_db_rs.Session.Query.{SqlSession, World, open_iceberg_catalog}
use iceberg_db_rs.Engine.{
  EngineError, unknown_catalog, bad_session, attempted, on_session, Engine, Setting, with_session,
  store_session, from_config_with_options, set_default_catalog, engine_query, engine_explain,
}
use iceberg_db_rs.Engine.Opened.{
  IsOver, IsCurrent, open_iceberg_catalog-IsOver, with_session-IsCurrent,
}

module _ {A P F T S : Type 0} (g : Setting A P F T S) where
  set_default_catalog-IsCurrent :
      (name : Text) (e : Engine P) (s : World S)
      → IsCurrent e
      → ((set_default_catalog g name e s).0.1.registry ≡ e.registry)
        × IsCurrent (set_default_catalog g name e s).0.1
  unfolding set_default_catalog
  set_default_catalog-IsCurrent name e s h = go (get_catalog e.registry name) refl
    where
      stored :
          (catalog : OpenCatalog)
          → get_catalog e.registry name ≡ some catalog
          → (r : Result Text (SqlSession OpenCatalog P))
          → Satisfies (IsOver name e.registry.default_schema catalog) r
          → ((store_session g e (map_err bad_session r)).1.registry ≡ e.registry)
            × IsCurrent (store_session g e (map_err bad_session r)).1
      stored catalog found (err x) k = (refl, h)
      stored catalog found (ok session) k = (refl, (name, catalog, (found, k)))

      go :
          (o : Option OpenCatalog)
          → get_catalog e.registry name ≡ o
          → ((store_session g e
                (and_then
                  (ok_or unknown_catalog o)
                  (λ catalog. on_session (
                    open_iceberg_catalog g.target g.lib name e.registry.default_schema catalog
                      default_options))
                  s).0).1.registry
              ≡ e.registry)
            × IsCurrent
                (store_session g e
                  (and_then
                    (ok_or unknown_catalog o)
                    (λ catalog. on_session (
                      open_iceberg_catalog g.target g.lib name e.registry.default_schema catalog
                        default_options))
                    s).0).1
      go none found = (refl, h)
      go (some catalog) found =
          stored catalog found
            (open_iceberg_catalog g.target g.lib name e.registry.default_schema catalog
              default_options s).0
            (open_iceberg_catalog-IsOver g g.target name e.registry.default_schema catalog
              default_options s)

  -- Calls of an engine, one after the other, from the world that the call before left.
  pub data Step : Engine P → World S → Engine P → World S → Type 0 where
    switches :
        (name : Text) (e : Engine P) (s : World S)
        → Step e s (set_default_catalog g name e s).0.1 (set_default_catalog g name e s).1
    asks : (sql : Text) (e : Engine P) (s : World S) → Step e s e (engine_query g e sql s).1
    explains :
        (sql : Text) (analyze : Bool) (e : Engine P) (s : World S)
        → Step e s e (engine_explain g e sql analyze s).1

  pub data Reach (e : Engine P) (s : World S) : Engine P → World S → Type 0 where
    here : Reach e s e s
    next :
        {e1 e2 : Engine P} {s1 s2 : World S} → Reach e s e1 s1 → Step e1 s1 e2 s2 → Reach e s e2 s2

  -- A complete registry, and a session over one of its catalogs.
  pub record IsServing (config : AppConfig) (e : Engine P) : Type 0 where
    pub complete : IsComplete config e.registry
    pub current : IsCurrent e

  Step-IsServing :
      {config : AppConfig} {e : Engine P} {s : World S} {e' : Engine P} {s' : World S}
      → Step e s e' s'
      → IsServing config e
      → IsServing config e'
  Step-IsServing {config} (switches name e s) h =
      let k = set_default_catalog-IsCurrent name e s h.current in
      record { complete = subst (IsComplete config) (sym k.0) h.complete; current = k.1 }
  Step-IsServing (asks sql e s) h = h
  Step-IsServing (explains sql analyze e s) h = h

  Reach-IsServing :
      {config : AppConfig} {e : Engine P} {s : World S} {e' : Engine P} {s' : World S}
      → IsServing config e
      → Reach e s e' s'
      → IsServing config e'
  Reach-IsServing h here = h
  Reach-IsServing h (next r st) = Step-IsServing st (Reach-IsServing h r)

  opened-IsServing :
      (config : AppConfig) (options : SessionOptions) (s : World S)
      → Satisfies (IsServing config) (from_config_with_options g config options s).0
  unfolding from_config_with_options
  opened-IsServing config options s =
      go (from_config g.warehouses g.target g.env g.rest config s).0
        (from_config g.warehouses g.target g.env g.rest config s).1 refl
    where
      served :
          (registry : CatalogRegistry) (r : Result EngineError (Engine P))
          → IsComplete config registry
          → Satisfies (λ (e : Engine P). (e.registry ≡ registry) × IsCurrent e) r
          → Satisfies (IsServing config) r
      served registry (err x) c h = tt
      served registry (ok e) c h = record {
        complete = subst (IsComplete config) (sym h.0) c;
        current = h.1;
      }

      go :
          (r : Attempt CatalogRegistry) (s' : World S)
          → from_config g.warehouses g.target g.env g.rest config s ≡ (r, s')
          → Satisfies (IsServing config) (and_then (attempted r) (with_session g options) s').0
      go (failed x) s' opened = tt
      go (done registry) s' opened =
          served registry (with_session g options registry s').0
            (from_config-IsComplete g.warehouses g.target g.env g.rest config registry s s' opened)
            (with_session-IsCurrent g options registry s')

  -- After an engine has been opened by a configuration, through any changes of the catalog, that
  -- succeed or fail, any queries and explanations: its registry is complete for the configuration,
  -- and its session is over a catalog of the registry, under the catalog's own name and with the
  -- registry's default schema, and DataFusion resolves names by the same two.
  pub Reach-IsServing_opened :
      (config : AppConfig) (options : SessionOptions) (s s0 s' : World S) (e0 e : Engine P)
      → from_config_with_options g config options s ≡ (ok e0, s0)
      → Reach e0 s0 e s'
      → IsServing config e
  Reach-IsServing_opened config options s s0 s' e0 e opened r =
      Reach-IsServing
        (subst (λ (x : Result EngineError (Engine P) × World S). Satisfies (IsServing config) x.0)
          opened (opened-IsServing config options s))
        r
