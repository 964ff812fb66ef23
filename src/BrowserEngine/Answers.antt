-- ===== src/BrowserEngine/Answers.antt =====
-- What a page gets for a statement.
use iceberg_db_rs.Base.{
  ℕ, ◌≤◌, ◌≡◌, refl, ◌∙◌, ap, subst, sym, Bool, true, false, Option, none, some, List, length, take,
  ltb, if◌then◌else◌, Bool-cases, inl, inr, arith, length-take, take_all,
}
use iceberg_db_rs.Base.Result.{Result, ok, err, map_err}
use iceberg_db_rs.Base.Result.Run.{Run, and_then, ◌>>=◌, lift}
use iceberg_db_rs.Base.Text.{Text}
use iceberg_db_rs.QueryIo.{wasm32, query_cancelled, reset_query_state}
use iceberg_db_rs.Registry.{OpenCatalog}
use iceberg_db_rs.Session.Batches.{rows_as_strings}
use iceberg_db_rs.Session.Query.{SqlSession, World, QueryResult, query}
use iceberg_db_rs.Session.Tables.{query-wasm32}
use iceberg_db_rs.Engine.{Setting, bad_session, on_session}
use iceberg_db_rs.BrowserEngine.{
  PageError, engine_error, query_cancelled_error, not_initialized, Page, QueryResponse,
  max_wasm_grid_rows, grid_rows, from_result, stop_if_cancelled, unless_panic, truncate_log,
  start_query, run_session, run_query, on_engine, in_world,
}

grid_rows-take : (limit : ℕ) (rows : List (List Text)) → grid_rows limit rows ≡ take limit rows
grid_rows-take limit rows = elim (Bool-cases (ltb limit (length rows))) [
  | inl e ↦ rw e refl
  | inr e ↦ rw e (sym (take_all limit rows (ground (arith, e))))
]

length-take-le : (n : ℕ) (rows : List (List Text)) → length (take n rows) ≤ n
length-take-le n rows = omega (arith, length-take n rows)

module _ {A P F T S : Type 0} (g : Setting A P F T S) where
  -- The answer to the statement from one world to another.
  pub record IsAnswer (session : SqlSession OpenCatalog P) (sql : Text) (w w' : World S)
      (response : QueryResponse) : Type 0 where
    pub result : QueryResult A
    pub answered : query wasm32 g.lib session sql w ≡ (ok result, w')
    pub going_on : query_cancelled wasm32 w'.0 ≡ false
    pub first_rows :
        response.rows ≡ take max_wasm_grid_rows (rows_as_strings g.lib.arrow result.batches)
    pub bounded : length response.rows ≤ max_wasm_grid_rows
    pub counted : response.response_count ≡ result.row_count

  from_result-IsAnswer :
      (session : SqlSession OpenCatalog P) (sql : Text) (w w' : World S) (result : QueryResult A)
      → query wasm32 g.lib session sql w ≡ (ok result, w')
      → query_cancelled wasm32 w'.0 ≡ false
      → IsAnswer session sql w w' (from_result wasm32 g.lib.arrow result)
  unfolding from_result
  from_result-IsAnswer session sql w w' result answered going_on =
      let rows = rows_as_strings g.lib.arrow result.batches in
      let e = grid_rows-take max_wasm_grid_rows rows in
      record {
        result = result;
        answered = answered;
        going_on = going_on;
        first_rows = e;
        bounded =
            subst (λ (x : List (List Text)). length x ≤ max_wasm_grid_rows) (sym e)
              (length-take-le max_wasm_grid_rows rows);
        counted = refl;
      }

  module _ (session : SqlSession OpenCatalog P) (sql : Text) (w w' : World S)
      (response : QueryResponse) where
    -- What follows the query.
    abbrev after_query : QueryResult A → Run PageError (World S) QueryResponse
    after_query result =
        stop_if_cancelled g wasm32 >>= (λ x. lift (ok (from_result wasm32 g.lib.arrow result)))

    after_query-IsAnswer :
        (result : QueryResult A) (w2 : World S)
        → query wasm32 g.lib session sql w ≡ (ok result, w2)
        → after_query result w2 ≡ (ok response, w')
        → IsAnswer session sql w w' response
    unfolding stop_if_cancelled
    after_query-IsAnswer result w2 asked h = go (query_cancelled wasm32 w2.0) refl h
      where
        go :
            (b : Bool)
            → query_cancelled wasm32 w2.0 ≡ b
            → and_then
                (if b then err query_cancelled_error else ok tt)
                (λ x. lift (ok (from_result wasm32 g.lib.arrow result)))
                w2
              ≡ (ok response, w')
            → IsAnswer session sql w w' response
        go true c k = absurd (no_error k)
          where
            no_error :
                ◌≡◌ {A = Result PageError QueryResponse × World S}
                  (err query_cancelled_error, w2)
                  (ok response, w')
                → ⊥
            no_error k = cc
        go false c k =
            let same : from_result wasm32 g.lib.arrow result ≡ response = cc in
            let moved : w2 ≡ w' = ap (λ (x : Result PageError QueryResponse × World S). x.1) k in
            subst (λ v. IsAnswer session sql w v response) moved
              (subst (IsAnswer session sql w w2) same
                (from_result-IsAnswer session sql w w2 result asked c))

    query_result-IsAnswer :
        (q : Result Text (QueryResult A)) (w2 : World S)
        → query wasm32 g.lib session sql w ≡ (q, w2)
        → and_then (map_err engine_error (map_err bad_session q)) after_query w2 ≡ (ok response, w')
        → IsAnswer session sql w w' response
    query_result-IsAnswer (ok result) w2 asked h = after_query-IsAnswer result w2 asked h
    query_result-IsAnswer (err e) w2 asked h = absurd (no_error h)
      where
        no_error :
            ◌≡◌ {A = Result PageError QueryResponse × World S}
              (err (engine_error (bad_session e)), w2)
              (ok response, w')
            → ⊥
        no_error k = cc

    abbrev started : World S
    started = (reset_query_state wasm32 w.0, w.1)

    -- What follows the log of the statement.
    abbrev after_start : Unit {0} → Run PageError (World S) QueryResponse
    after_start u =
        stop_if_cancelled g wasm32
        >>= (λ v. on_engine (on_session (query wasm32 g.lib session sql)) >>= after_query)

    after_start-IsAnswer :
        (r : Result PageError (Unit {0}))
        → and_then r after_start started ≡ (ok response, w')
        → IsAnswer session sql w w' response
    unfolding reset_query_state query_cancelled stop_if_cancelled
    after_start-IsAnswer (ok u) h =
        query_result-IsAnswer (query wasm32 g.lib session sql started).0
          (query wasm32 g.lib session sql started).1
          (query-wasm32 wasm32 g.lib session sql w.0 started.0 w.1) h
    after_start-IsAnswer (err e) h = absurd (no_error h)
      where
        no_error :
            ◌≡◌ {A = Result PageError QueryResponse × World S} (err e, started) (ok response, w')
            → ⊥
        no_error k = cc

    run_session-IsAnswer :
        run_session g wasm32 session sql w ≡ (ok response, w') → IsAnswer session sql w w' response
    unfolding run_session start_query
    run_session-IsAnswer h = after_start-IsAnswer (unless_panic (truncate_log sql 80)) h

  -- In the browser, when a page gets a response for a statement: the page has a session, and keeps
  -- it; the response is from the result that the session's query gives in the page's world; the
  -- query was not cancelled up to its end; the grid has the first rows of the result, 5,000 at
  -- most, and the count is that of the result.
  pub run_query-IsAnswer :
      (sql : Text) (page page' : Page P S) (response : QueryResponse)
      → run_query g wasm32 sql page ≡ (ok response, page')
      → (session : SqlSession OpenCatalog P) × ((page.session ≡ some session)
          × (page'.session ≡ some session)
          × IsAnswer session sql page.world page'.world response)
  unfolding run_query
  run_query-IsAnswer sql page page' response h = go page.session refl h
    where
      go :
          (o : Option (SqlSession OpenCatalog P))
          → page.session ≡ o
          → ◌≡◌ {A = Result PageError QueryResponse × Page P S}
              (elim o [
                | none ↦ (err not_initialized, page)
                | some session ↦ in_world g page (run_session g wasm32 session sql page.world)
              ])
              (ok response, page')
          → (session : SqlSession OpenCatalog P) × ((page.session ≡ some session)
              × (page'.session ≡ some session)
              × IsAnswer session sql page.world page'.world response)
      go none e k = absurd (no_error k)
        where
          no_error :
              ◌≡◌ {A = Result PageError QueryResponse × Page P S}
                (err not_initialized, page)
                (ok response, page')
              → ⊥
          no_error k = cc
      go (some session) e k = (
        session,
        (
          e,
          sym (ap (λ (x : Result PageError QueryResponse × Page P S). x.1.session) k) ∙ e,
          run_session-IsAnswer session sql page.world page'.world response
              (ap (λ (x : Result PageError QueryResponse × Page P S). (x.0, x.1.world)) k),
        ),
      )
