-- ===== src/Bench.antt =====
-- crates/idb-bench: the runs of queries on an engine (engine.rs, runner.rs) and the comparison of
-- two engines (report.rs). The engines are a parameter, over the state of what they run on; a
-- quotient of two floats is its two numbers.
pub mod Compared
pub mod Median
pub mod Runs
pub mod History
use Prim.Native.Nat.{max}
use mathlib.Core.Option
use iceberg_db_rs.Base.{
  ℕ, zero, suc, ◌+◌, ◌-◌, ◌/◌, Bool, true, false, ◌&&◌, not, Option, none, some, List, [], ◌∷◌,
  ◌++◌, map, ltb, leb, ◌==◌, if◌then◌else◌, length, drop, add64, Outcome, ok, panic, ◌>>=◌, Io,
  pure, then_do,
}
use iceberg_db_rs.Base.Sort.{sort}
use iceberg_db_rs.Base.Text.{Text, codes, text_eq}
use iceberg_db_rs.Base.Text.Order.{text_le, dedup}

pub record QueryRunResult : Type 0 where
  pub query_id : Text
  pub elapsed_ms : ℕ
  pub mean_elapsed_ms : Option ℕ
  pub timed_iterations : Option ℕ
  pub row_count : ℕ
  pub error : Option Text

pub record EngineRunSummary : Type 0 where
  pub engine : Text
  pub queries_run : ℕ
  pub queries_ok : ℕ
  pub queries_failed : ℕ
  pub total_elapsed_ms : ℕ
  pub results : List QueryRunResult

pub record QueryComparison : Type 0 where
  pub query_id : Text
  pub iceberg_ms : Option ℕ
  pub duckdb_ms : Option ℕ
  pub speedup_vs_duckdb : Option (ℕ × ℕ)
  pub iceberg_rows : Option ℕ
  pub duckdb_rows : Option ℕ
  pub row_count_match : Option Bool
  pub iceberg_error : Option Text
  pub duckdb_error : Option Text

pub record BenchReport : Type 0 where
  pub suite : Text
  pub iceberg_db : EngineRunSummary
  pub duckdb : EngineRunSummary
  pub comparisons : List QueryComparison

abbrev pub is_none : Option Text → Bool
is_none none = true
is_none (some e) = false

abbrev pub succeeded : QueryRunResult → Bool
succeeded r = is_none r.error

unfoldable pub count_ok : List QueryRunResult → ℕ
count_ok [] = 0
count_ok (r ∷ results) = (if succeeded r then 1 else 0) + count_ok results

-- Sums of `u64` wrap.
unfoldable pub total_ms : List QueryRunResult → ℕ
total_ms [] = 0
total_ms (r ∷ results) = add64 r.elapsed_ms (total_ms results)

unfoldable pub summarize : Text → List QueryRunResult → EngineRunSummary
unfolding count_ok total_ms
summarize engine results = record {
  engine = engine;
  queries_run = length results;
  queries_ok = count_ok results;
  queries_failed = length results - count_ok results;
  total_elapsed_ms = total_ms results;
  results = results;
}

unfoldable pub find_result : Text → List QueryRunResult → Option QueryRunResult
find_result id [] = none
find_result id (r ∷ results) = if text_eq r.query_id id then some r else find_result id results

abbrev pub speedup : Option ℕ → Option ℕ → Option (ℕ × ℕ)
speedup none d = none
speedup (some i) none = none
speedup (some i) (some d) = if ltb 0 i then some (d, i) else none

abbrev pub rows_match : Option ℕ → Option ℕ → Option Bool
rows_match none d = none
rows_match (some i) none = none
rows_match (some i) (some d) = some (i == d)

abbrev pub error_of : Option QueryRunResult → Option Text
error_of none = none
error_of (some r) = r.error

-- The comparison for one id, of what was found for it.
unfoldable pub compare_query :
    Text → Option QueryRunResult → Option QueryRunResult → QueryComparison
compare_query id i d =
    let iceberg_ms = Option.map (λ (r : QueryRunResult). r.elapsed_ms) i in
    let duckdb_ms = Option.map (λ (r : QueryRunResult). r.elapsed_ms) d in
    let iceberg_rows = Option.map (λ (r : QueryRunResult). r.row_count) i in
    let duckdb_rows = Option.map (λ (r : QueryRunResult). r.row_count) d in
    record {
      query_id = id;
      iceberg_ms = iceberg_ms;
      duckdb_ms = duckdb_ms;
      speedup_vs_duckdb = speedup iceberg_ms duckdb_ms;
      iceberg_rows = iceberg_rows;
      duckdb_rows = duckdb_rows;
      row_count_match = rows_match iceberg_rows duckdb_rows;
      iceberg_error = error_of i;
      duckdb_error = error_of d;
    }

abbrev pub ids : List QueryRunResult → List Text
ids = map (λ r. r.query_id)

unfoldable pub compare_runs : Text → EngineRunSummary → EngineRunSummary → BenchReport
unfolding compare_query find_result dedup sort
compare_runs suite iceberg duckdb = record {
  suite = suite;
  iceberg_db = iceberg;
  duckdb = duckdb;
  comparisons =
      map (λ id. compare_query id (find_result id iceberg.results) (find_result id duckdb.results))
        (dedup (sort text_le (ids iceberg.results ++ ids duckdb.results)));
}

-- An index out of bounds panics.
abbrev pub index : List ℕ → ℕ → Outcome ℕ
index [] i = panic
index (x ∷ xs) zero = ok x
index (x ∷ xs) (suc i) = index xs i

abbrev pub mean_of_two : List ℕ → ℕ → ℕ → Outcome ℕ
mean_of_two sorted i j = do low ← index sorted i; high ← index sorted j; ok (add64 low high / 2)

-- The median of sorted samples.
unfoldable pub middle : List ℕ → Outcome ℕ
middle sorted =
    if length sorted == 1
    then index sorted 0
    else mean_of_two sorted ((length sorted - 1) / 2) (length sorted / 2)

unfoldable pub median_ms : List ℕ → Outcome ℕ
unfolding middle sort
median_ms samples = middle (sort leb samples)

unfoldable pub sum64 : List ℕ → ℕ
sum64 [] = 0
sum64 (x ∷ xs) = add64 x (sum64 xs)

-- The samples are not empty.
unfoldable pub mean_ms : List ℕ → ℕ
unfolding sum64
mean_ms samples = sum64 samples / length samples

pub record TpcdsQuery : Type 0 where
  pub id : Text
  pub sql : Text

-- The times of the iterations that succeeded.
abbrev pub pushed : QueryRunResult → List ℕ → List ℕ
pushed r samples = if succeeded r then samples ++ (r.elapsed_ms ∷ []) else samples

abbrev pub no_result : TpcdsQuery → QueryRunResult
no_result q = record {
  query_id = q.id;
  elapsed_ms = 0;
  mean_elapsed_ms = none;
  timed_iterations = none;
  row_count = 0;
  error = some (codes "no iterations");
}

abbrev pub with_median : ℕ → QueryRunResult → ℕ → Outcome ℕ → Outcome QueryRunResult
with_median timed_iters last mean median = do
  elapsed ← median
  ok (record last {
    elapsed_ms = elapsed;
    mean_elapsed_ms = some mean;
    timed_iterations = some timed_iters;
  })

unfoldable pub aggregated : ℕ → QueryRunResult → List ℕ → Outcome QueryRunResult
unfolding median_ms mean_ms
aggregated timed_iters last [] = ok last
aggregated timed_iters last (x ∷ samples) =
    if ltb 1 timed_iters
    then with_median timed_iters last (mean_ms (x ∷ samples)) (median_ms (x ∷ samples))
    else ok last

module _ {S : Type 0} (run_query : Text → Text → S → QueryRunResult × S) where
  -- The timed iterations left: the last result, and the times of those that succeeded.
  unfoldable pub timed_loop :
      ℕ → TpcdsQuery → QueryRunResult → List ℕ → S → (QueryRunResult × List ℕ) × S
  timed_loop zero q last samples s = ((last, samples), s)
  timed_loop (suc n) q last samples s =
      let (r, s') = run_query q.id q.sql s in timed_loop n q r (pushed r samples) s'

  unfoldable pub run_one : Bool → ℕ → TpcdsQuery → Io S QueryRunResult
  unfolding timed_loop aggregated
  run_one warmup timed_iters q s =
      let start = if warmup then (run_query q.id q.sql s).1 else s in
      let (timed, s') = timed_loop timed_iters q (no_result q) [] start in
      (aggregated timed_iters timed.0 timed.1, s')

  unfoldable pub run_queries : Bool → ℕ → List TpcdsQuery → Io S (List QueryRunResult)
  unfolding run_one
  run_queries warmup timed_iters [] = pure []
  run_queries warmup timed_iters (q ∷ queries) =
      then_do (run_one warmup timed_iters q)
        (λ r. then_do (run_queries warmup timed_iters queries) (λ rest. pure (r ∷ rest)))

  unfoldable pub run_engine : List TpcdsQuery → Bool → ℕ → Io S (List QueryRunResult)
  unfolding run_queries
  run_engine queries warmup iterations = run_queries warmup (max iterations 1) queries
