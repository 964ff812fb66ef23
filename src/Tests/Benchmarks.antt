-- ===== src/Tests/Benchmarks.antt =====
-- Runs of the benchmarks' results and of the log of requests.
use iceberg_db_rs.Base.{
  some, ℕ, ◌≡◌, refl, Bool, true, false, none, List, [], ◌∷◌, ok, panic, add64, arith,
}
use iceberg_db_rs.Base.Sort.{sort}
use iceberg_db_rs.Base.Text.{Text, codes}
use iceberg_db_rs.Base.Text.Chars.{lower_char, is_whitespace}
use iceberg_db_rs.Base.Text.Cut.{
  trim, trim_start_matches, trim_end_matches, byte_length, contains, starts_with, strip_prefix,
}
use iceberg_db_rs.Base.Text.Order.{dedup}
use iceberg_db_rs.Rest.Auth.{oauth_form}
use iceberg_db_rs.HttpLog.{redact_secret, redact_header, form_body, decimal}
use iceberg_db_rs.HttpLog.Redacted.{form_body-oauth_form_same}
use iceberg_db_rs.Bench.{
  QueryRunResult, EngineRunSummary, TpcdsQuery, summarize, compare_runs, median_ms, mean_ms,
  run_engine,
}
use iceberg_db_rs.Bench.Median.{Within}
use iceberg_db_rs.Bench.Compared.{IsComparison, compare_runs-IsComparison, compared_ids}
use iceberg_db_rs.Bench.History.{RunHistoryEntry, Json, append_run, load_runs, truncate_one_line}
use iceberg_db_rs.Bench.History.Kept.{JsonLaws, IsHistory, load_runs-append_run}

-- What the runs unfold.
program : Unit {0}
unfolding summarize compare_runs median_ms mean_ms run_engine redact_secret redact_header form_body
    decimal byte_length sort dedup add64 contains starts_with strip_prefix lower_char oauth_form
program = tt

abbrev timed : Text → ℕ → QueryRunResult
timed id ms = record {
  query_id = id;
  elapsed_ms = ms;
  mean_elapsed_ms = none;
  timed_iterations = none;
  row_count = 1;
  error = none;
}

abbrev iceberg : EngineRunSummary
iceberg = summarize (codes "iceberg") (timed (codes "q2") 4 ∷ timed (codes "q1") 5 ∷ [])

abbrev duckdb : EngineRunSummary
duckdb = summarize (codes "duckdb") (timed (codes "q1") 7 ∷ timed (codes "q3") 2 ∷ [])

ascending_ids :
    compared_ids (compare_runs (codes "tpcds") iceberg duckdb).comparisons
    ≡ codes "q1" ∷ codes "q2" ∷ codes "q3" ∷ []
unfolding program
ascending_ids = refl

compare_runs-IsComparison_example :
    IsComparison iceberg duckdb (compare_runs (codes "tpcds") iceberg duckdb)
compare_runs-IsComparison_example = compare_runs-IsComparison iceberg duckdb (codes "tpcds")

median_of_four : median_ms (9 ∷ 2 ∷ 4 ∷ 7 ∷ []) ≡ ok 5
unfolding program
median_of_four = refl

-- An engine that takes 3 and 5 milliseconds in turn.
abbrev engine : Text → Text → Bool → QueryRunResult × Bool
engine id sql true = (timed id 3, false)
engine id sql false = (timed id 5, true)

engine_times : (id sql : Text) (s : Bool) → Within 3 5 (engine id sql s).0.elapsed_ms
engine_times id sql true = omega arith
engine_times id sql false = omega arith

abbrev queries : List TpcdsQuery
queries = record { id = codes "q1"; sql = codes "SELECT 1" } ∷ []

-- A secret whose fourth byte is inside a character.
redact_inside_character : redact_secret (codes "abcé56789") ≡ panic
unfolding program
redact_inside_character = refl

bearer_redacted :
    redact_header (codes "Authorization") (codes "Bearer 0123456789")
    ≡ ok (codes "Bearer 0123…6789 (10 chars)")
unfolding program
bearer_redacted = refl

form_body-oauth_form_same_example :
    (log : Text) × ((form_body (oauth_form (codes "session:role:R") none (codes "0123AAAA6789"))
        ≡ ok log)
      × (form_body (oauth_form (codes "session:role:R") none (codes "0123BBBB6789")) ≡ ok log))
form_body-oauth_form_same_example =
    form_body-oauth_form_same (codes "session:role:R") none (codes "0123AAAA6789")
      (codes "0123BBBB6789") (omega arith) (omega arith) refl refl refl

abbrev entry : RunHistoryEntry
entry = record {
  recorded_at = codes "2026-01-01T00:00:00Z";
  git_commit = none;
  label = none;
  notes = codes "é";
  changes = [];
  config = codes "{}";
  report = compare_runs (codes "tpcds") iceberg duckdb;
}

-- JSON of that one entry.
abbrev json : Json
json = record { to_string = λ e. codes "{r}"; from_str = λ t. some entry }

entry_laws : JsonLaws json entry
unfolding trim trim_start_matches trim_end_matches is_whitespace
entry_laws = record {
  first = b'{';
  others = codes "r}";
  written = refl;
  trimmed = refl;
  one_line = (refl, (refl, (refl, tt)));
  read_back = refl;
}

first_run_loaded : load_runs json (append_run json none entry) ≡ ok (entry ∷ [])
unfolding load_runs append_run trim trim_start_matches trim_end_matches is_whitespace
first_run_loaded = refl

load_runs-append_run_example :
    (load_runs json (append_run json (append_run json none entry) entry) ≡ ok (entry ∷ entry ∷ []))
    × IsHistory (append_run json (append_run json none entry) entry)
unfolding append_run
load_runs-append_run_example =
    load_runs-append_run json (append_run json none entry) entry (entry ∷ []) entry_laws refl
      first_run_loaded

-- The cut falls into a character.
truncated_inside_character : truncate_one_line (codes "aéé") 3 ≡ panic
unfolding truncate_one_line byte_length
truncated_inside_character = refl
