-- ===== src/BrowserEngine.antt =====
-- crates/idb-wasm/src/lib.rs: the one session of a page, its opening and its queries. The build is
-- the default one, with the feature `horizon`. Logging is left out, but for the text that it cuts;
-- a panic ends the page.
pub mod Once
pub mod Answers
use iceberg_db_rs.Base.{
  ℕ, Bool, true, false, Option, none, some, List, [], ◌∷◌, ◌++◌, length, take, leb, ltb,
  if◌then◌else◌, Outcome,
}
use iceberg_db_rs.Base.Result.{Result, ok, err, map_err}
use iceberg_db_rs.Base.Result.Run.{Run, and_then, ◌>>=◌, lift}
use iceberg_db_rs.Base.Text.{Text, codes}
use iceberg_db_rs.Base.Text.Cut.{trim, byte_length}
use iceberg_db_rs.Config.Load.{Yaml}
use iceberg_db_rs.Config.Load
use iceberg_db_rs.Config.Profile.{is_empty}
use iceberg_db_rs.HttpLog.{decimal, byte_prefix}
use iceberg_db_rs.QueryIo.{
  Target, native, wasm32, reset_query_state, request_query_cancel, query_cancelled,
}
use iceberg_db_rs.Registry.{OpenCatalog}
use iceberg_db_rs.Session.Options.{default_options}
use iceberg_db_rs.Session.Batches.{Arrow, rows_as_strings, format_batches_table}
use iceberg_db_rs.Session.Query.{SqlSession, World, ColumnInfo, QueryResult, query}
use iceberg_db_rs.Session.Open.{DemoTable, open_wasm_demo_session}
use iceberg_db_rs.Engine.{
  EngineError, bad_load, bad_session, Engine, Setting, on_session, from_config_with_options,
}

pub data PageError : Type 0 where
  already_initialized empty_config not_available not_initialized query_cancelled_error unwinding :
      PageError
  engine_error : EngineError → PageError

-- `SESSION`, which is set once, and the world of its calls.
pub record Page (P S : Type 0) : Type 0 where
  pub session : Option (SqlSession OpenCatalog P)
  pub world : World S

pub record QueryResponse : Type 0 where
  pub response_count : ℕ
  pub response_ms : ℕ
  pub response_bytes : ℕ
  pub response_files : ℕ
  pub response_columns : List ColumnInfo
  pub rows : List (List Text)
  pub text : Text

abbrev pub max_wasm_grid_rows : ℕ
max_wasm_grid_rows = 5000

-- So many bytes of a text, and an ellipsis; a cut inside a character panics.
unfoldable pub truncate_log : Text → ℕ → Outcome Text
unfolding byte_prefix
truncate_log s max = if leb (byte_length s) max then Outcome.ok s else elim (byte_prefix max s) [
  | Outcome.ok t ↦ Outcome.ok (t ++ (0x2026 ∷ []))
  | Outcome.err e ↦ Outcome.err e
  | Outcome.panic ↦ Outcome.panic
]

abbrev pub unless_panic : Outcome Text → Result PageError (Unit {0})
unless_panic (Outcome.ok t) = ok tt
unless_panic (Outcome.err e) = err unwinding
unless_panic Outcome.panic = err unwinding

-- The text beside the grid, without one for a large result and with a note on a cut grid.
unfoldable pub response_text : {A : Type 0} → Arrow A → QueryResult A → ℕ → Text
unfolding format_batches_table decimal
response_text arrow result all_rows =
    let text =
      if ltb 500 result.row_count
      then decimal 20 result.row_count
        ++ (codes " row(s) in "
            ++ (decimal 20 result.elapsed_ms ++ codes " ms (text tab omitted for large results)"))
      else format_batches_table arrow result.batches in
    if ltb max_wasm_grid_rows all_rows
    then text
      ++ (codes "\n\n(grid shows first "
          ++ (decimal 20 max_wasm_grid_rows
              ++ (codes " of " ++ (decimal 20 result.row_count ++ codes " rows)"))))
    else text

abbrev pub response_with : {A : Type 0} → QueryResult A → List (List Text) → Text → QueryResponse
response_with result rows text = record {
  response_count = result.row_count;
  response_ms = result.elapsed_ms;
  response_bytes = result.result_bytes;
  response_files = result.result_files;
  response_columns = result.columns;
  rows = rows;
  text = text;
}

-- `truncate`, where there are more rows.
abbrev pub grid_rows : ℕ → List (List Text) → List (List Text)
grid_rows limit rows = if ltb limit (length rows) then take limit rows else rows

-- `QueryResponse::from_result`.
unfoldable pub from_result : {A : Type 0} → Target → Arrow A → QueryResult A → QueryResponse
unfolding rows_as_strings format_batches_table response_text
from_result native arrow result =
    response_with result (rows_as_strings arrow result.batches)
      (format_batches_table arrow result.batches)
from_result wasm32 arrow result =
    let rows = rows_as_strings arrow result.batches in
    response_with result (grid_rows max_wasm_grid_rows rows)
      (response_text arrow result (length rows))

abbrev pub on_engine : {S B : Type 0} → Run EngineError S B → Run PageError S B
on_engine call s = let (r, s') = call s in (map_err engine_error r, s')

module _ {A P F T S : Type 0} (g : Setting A P F T S) where
  -- The browser resets the counters and logs the start of the statement.
  unfoldable pub start_query : Target → Text → Run PageError (World S) (Unit {0})
  unfolding truncate_log
  start_query native sql w = (ok tt, w)
  start_query wasm32 sql w =
      (unless_panic (truncate_log sql 80), (reset_query_state wasm32 w.0, w.1))

  unfoldable pub stop_if_cancelled : Target → Run PageError (World S) (Unit {0})
  stop_if_cancelled target w =
      (if query_cancelled target w.0 then err query_cancelled_error else ok tt, w)

  -- `run_query`, with the session that it found.
  unfoldable pub run_session :
      Target → SqlSession OpenCatalog P → Text → Run PageError (World S) QueryResponse
  unfolding start_query stop_if_cancelled query from_result
  run_session target session sql = do
    u ← start_query target sql
    v ← stop_if_cancelled target
    result ← on_engine (on_session (query target g.lib session sql))
    x ← stop_if_cancelled target
    lift (ok (from_result target g.lib.arrow result))

  abbrev pub in_world :
      {B : Type 0} → Page P S → Result PageError B × World S → Result PageError B × Page P S
  in_world page (r, w) = (r, record page { world = w })

  unfoldable pub run_query : Target → Text → Run PageError (Page P S) QueryResponse
  unfolding run_session
  run_query target sql page = elim page.session [
    | none ↦ (err not_initialized, page)
    | some session ↦ in_world page (run_session target session sql page.world)
  ]

  -- `OnceLock::set`: a session stays.
  unfoldable pub store_session : SqlSession OpenCatalog P → Run PageError (Page P S) (Unit {0})
  store_session session page = elim page.session [
    | none ↦ (ok tt, record page { session = some session })
    | some old ↦ (err already_initialized, page)
  ]

  abbrev pub opening :
      Run PageError (World S) (SqlSession OpenCatalog P) → Run PageError (Page P S) (Unit {0})
  opening open_session page =
      let (r, page') = in_world page (open_session page.world) in and_then r store_session page'

  -- A registry and then a session; the engine of `Engine` is the two together.
  unfoldable pub open_horizon :
      {V : Type 0} → Yaml V → Text → Run PageError (World S) (SqlSession OpenCatalog P)
  unfolding from_config_with_options Load.load_str
  open_horizon yaml config_yaml = do
    u ← lift (if is_empty (trim config_yaml) then err empty_config else ok tt)
    config ← lift (map_err (λ e. engine_error (bad_load e)) (Load.load_str yaml config_yaml))
    e ← on_engine (from_config_with_options g config default_options)
    lift (ok e.session)

  unfoldable pub init_horizon : {V : Type 0} → Yaml V → Text → Run PageError (Page P S) (Unit {0})
  unfolding open_horizon store_session
  init_horizon yaml config_yaml = opening (open_horizon yaml config_yaml)

  unfoldable pub init_demo :
      Target
      → (DemoTable → Run Text (World S) P)
      → Run Text (World S) OpenCatalog
      → Run PageError (Page P S) (Unit {0})
  unfolding open_wasm_demo_session store_session
  init_demo native memory placeholder = lift (err not_available)
  init_demo wasm32 memory placeholder =
      opening (on_engine (on_session (open_wasm_demo_session g.lib g.lazy memory placeholder)))

  unfoldable pub cancel_query : Target → Page P S → Page P S
  cancel_query target page = record page {
    world = (request_query_cancel target page.world.0, page.world.1);
  }
