-- ===== src/BrowserEngine/Once.antt =====
-- The session of a page stays the one that was stored first.
use iceberg_db_rs.Base.{◌≡◌, some}
use iceberg_db_rs.Base.Result.{Result, ok, err}
use iceberg_db_rs.Base.Result.Run.{Run, and_then}
use iceberg_db_rs.Base.Text.{Text}
use iceberg_db_rs.Config.Load.{Yaml}
use iceberg_db_rs.QueryIo.{Target, native, wasm32}
use iceberg_db_rs.Registry.{OpenCatalog}
use iceberg_db_rs.Session.Query.{SqlSession, World}
use iceberg_db_rs.Session.Open.{DemoTable, open_wasm_demo_session}
use iceberg_db_rs.Engine.{Setting, on_session}
use iceberg_db_rs.BrowserEngine.{
  PageError, Page, run_query, store_session, opening, on_engine, open_horizon, init_horizon,
  init_demo, cancel_query,
}

module _ {A P F T S V : Type 0} (g : Setting A P F T S) (target : Target) (yaml : Yaml V) where
  -- The calls of the page's script.
  pub data Step : Page P S → Page P S → Type 0 where
    opens_horizon :
        (config_yaml : Text) (p : Page P S) → Step p (init_horizon g yaml config_yaml p).1
    opens_demo :
        (memory : DemoTable → Run Text (World S) P) (placeholder : Run Text (World S) OpenCatalog)
        (p : Page P S)
        → Step p (init_demo g target memory placeholder p).1
    asks : (sql : Text) (p : Page P S) → Step p (run_query g target sql p).1
    cancels : (p : Page P S) → Step p (cancel_query g target p)

  pub data Reach (p : Page P S) : Page P S → Type 0 where
    here : Reach p p
    next : {p1 p2 : Page P S} → Reach p p1 → Step p1 p2 → Reach p p2

  module _ (session : SqlSession OpenCatalog P) where
    -- A page that has a session keeps it whatever was opened, and the opening is an error.
    opening-kept :
        (open_session : Run PageError (World S) (SqlSession OpenCatalog P)) (p : Page P S)
        → p.session ≡ some session
        → ((opening g open_session p).1.session ≡ some session)
          × ¬ ((opening g open_session p).0 ≡ ok tt)
    unfolding store_session
    opening-kept open_session p h = go (open_session p.world).0 (open_session p.world).1
      where
        go :
            (r : Result PageError (SqlSession OpenCatalog P)) (w : World S)
            → ((and_then r (store_session g) (record p { world = w })).1.session ≡ some session)
              × ¬ ((and_then r (store_session g) (record p { world = w })).0 ≡ ok tt)
        go (err e) w = (h, λ k. cc)
        go (ok new) w = rw (h, store_session) (h, λ k. cc)

    run_query-kept :
        (sql : Text) (p : Page P S)
        → p.session ≡ some session
        → (run_query g target sql p).1.session ≡ some session
    unfolding run_query
    run_query-kept sql p h = rw (h, run_query) h

    init_demo-kept :
        (t : Target) (memory : DemoTable → Run Text (World S) P)
        (placeholder : Run Text (World S) OpenCatalog) (p : Page P S)
        → p.session ≡ some session
        → ((init_demo g t memory placeholder p).1.session ≡ some session)
          × ¬ ((init_demo g t memory placeholder p).0 ≡ ok tt)
    unfolding init_demo
    init_demo-kept native memory placeholder p h = (h, λ k. cc)
    init_demo-kept wasm32 memory placeholder p h =
        opening-kept
          (on_engine (on_session (open_wasm_demo_session g.lib g.lazy memory placeholder))) p h

    init_horizon-kept :
        (config_yaml : Text) (p : Page P S)
        → p.session ≡ some session
        → ((init_horizon g yaml config_yaml p).1.session ≡ some session)
          × ¬ ((init_horizon g yaml config_yaml p).0 ≡ ok tt)
    unfolding init_horizon
    init_horizon-kept config_yaml p h = opening-kept (open_horizon g yaml config_yaml) p h

    Step-kept : {p p' : Page P S} → Step p p' → p.session ≡ some session → p'.session ≡ some session
    unfolding cancel_query
    Step-kept (opens_horizon config_yaml p) h = (init_horizon-kept config_yaml p h).0
    Step-kept (opens_demo memory placeholder p) h = (init_demo-kept target memory placeholder p h).0
    Step-kept (asks sql p) h = run_query-kept sql p h
    Step-kept (cancels p) h = h

    Reach-session :
        {p p' : Page P S} → p.session ≡ some session → Reach p p' → p'.session ≡ some session
    Reach-session h here = h
    Reach-session h (next r st) = Step-kept st (Reach-session h r)

    -- A page that has a session, after any openings, queries and cancellations: the session is
    -- still that one, and an opening of either kind does not succeed.
    pub Reach-kept :
        (p p' : Page P S)
        → p.session ≡ some session
        → Reach p p'
        → (config_yaml : Text) (memory : DemoTable → Run Text (World S) P)
          (placeholder : Run Text (World S) OpenCatalog)
        → (p'.session ≡ some session)
          × (¬ ((init_horizon g yaml config_yaml p').0 ≡ ok tt))
          × (¬ ((init_demo g target memory placeholder p').0 ≡ ok tt))
    Reach-kept p p' h r config_yaml memory placeholder =
        let k = Reach-session h r in
        (
          k,
          (init_horizon-kept config_yaml p' k).1,
          (init_demo-kept target memory placeholder p' k).1,
        )
