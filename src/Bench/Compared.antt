-- ===== src/Bench/Compared.antt =====
-- What a comparison of two runs holds.
use mathlib.Core.Option
use iceberg_db_rs.Base.{
  ℕ, ◌≡◌, ◌≢◌, ◌⊎◌, inl, inr, refl, ◌∙◌, ap, ◌||◌, ◌==◌, Bool, true, false, Bool-cases, Option,
  none, some, List, [], ◌∷◌, ◌++◌, map, All, arith,
}
use iceberg_db_rs.Base.Sort.{sort}
use iceberg_db_rs.Base.Text.{Text, has_name, text_eq, text_eq_iff}
use iceberg_db_rs.Base.Text.Order.{
  text_le, dedup, IsAscending, has_name-append, dedup-sort-IsAscending, has_name-dedup-sort,
}
use iceberg_db_rs.Bench.{
  QueryRunResult, EngineRunSummary, QueryComparison, BenchReport, find_result, compare_query, ids,
  rows_match, compare_runs,
}

abbrev pub compared_ids : List QueryComparison → List Text
compared_ids = map (λ c. c.query_id)

-- The results start with others, and then comes this one, the first for its id.
pub data IsFirst (id : Text) (r : QueryRunResult) : List QueryRunResult → Type 0 where
  at_head : (results : List QueryRunResult) → r.query_id ≡ id → IsFirst id r (r ∷ results)
  later :
      (other : QueryRunResult) (results : List QueryRunResult)
      → (other.query_id ≢ id)
      → IsFirst id r results
      → IsFirst id r (other ∷ results)

-- The first result for an id, or nothing when no result has it.
abbrev pub Finds : Text → List QueryRunResult → Option QueryRunResult → Type 0
Finds id results none = All (λ r. r.query_id ≢ id) results
Finds id results (some r) = IsFirst id r results

abbrev pub time_of : Option QueryRunResult → Option ℕ
time_of none = none
time_of (some r) = some r.elapsed_ms

-- Whether two rows agree, said only when there are two results.
abbrev pub RowsAgree : Option QueryRunResult → Option QueryRunResult → Option Bool → Type 0
RowsAgree (some i) (some d) m =
    ((i.row_count ≡ d.row_count) × (m ≡ some true))
    ⊎ ((i.row_count ≢ d.row_count) × (m ≡ some false))
RowsAgree _ _ m = m ≡ none

-- What one comparison takes from the first result for its query of each run.
pub record Compares (iceberg duckdb : EngineRunSummary) (c : QueryComparison) : Type 0 where
  pub iceberg_result : Option QueryRunResult
  pub duckdb_result : Option QueryRunResult
  pub iceberg_found : Finds c.query_id iceberg.results iceberg_result
  pub duckdb_found : Finds c.query_id duckdb.results duckdb_result
  pub iceberg_time : c.iceberg_ms ≡ time_of iceberg_result
  pub duckdb_time : c.duckdb_ms ≡ time_of duckdb_result
  pub rows : RowsAgree iceberg_result duckdb_result c.row_count_match

find_result-Finds :
    (id : Text) (results : List QueryRunResult) → Finds id results (find_result id results)
unfolding find_result
find_result-Finds id [] = tt
find_result-Finds id (r ∷ results) = elim (Bool-cases (text_eq r.query_id id)) [
  | inl same ↦ rw same (at_head results ((text_eq_iff r.query_id id).0 same))
  | inr other ↦ rw other (passed (find_result id results) other (find_result-Finds id results))
]
  where
    differs : text_eq r.query_id id ≡ false → r.query_id ≢ id
    differs other e = absurd (ground (arith, other, (text_eq_iff r.query_id id).1 e))

    passed :
        (o : Option QueryRunResult)
        → text_eq r.query_id id ≡ false
        → Finds id results o
        → Finds id (r ∷ results) o
    passed none other h = (differs other, h)
    passed (some found) other h = later r results (differs other) h

pub record IsComparison (iceberg duckdb : EngineRunSummary) (report : BenchReport) : Type 0 where
  pub ascending : IsAscending (compared_ids report.comparisons)
  pub complete :
      (id : Text)
      → has_name id (compared_ids report.comparisons)
        ≡ (has_name id (ids iceberg.results) || has_name id (ids duckdb.results))
  pub each : All (Compares iceberg duckdb) report.comparisons

module _ (iceberg duckdb : EngineRunSummary) where
  abbrev compared : Text → QueryComparison
  compared id = compare_query id (find_result id iceberg.results) (find_result id duckdb.results)

  ids-compared : (xs : List Text) → compared_ids (map compared xs) ≡ xs
  unfolding compare_query
  ids-compared [] = refl
  ids-compared (x ∷ xs) = ap (◌∷◌ x) (ids-compared xs)

  compared-Compares : (id : Text) → Compares iceberg duckdb (compared id)
  unfolding compare_query
  compared-Compares id = record {
    iceberg_result = find_result id iceberg.results;
    duckdb_result = find_result id duckdb.results;
    iceberg_found = find_result-Finds id iceberg.results;
    duckdb_found = find_result-Finds id duckdb.results;
    iceberg_time = times (find_result id iceberg.results);
    duckdb_time = times (find_result id duckdb.results);
    rows = agree (find_result id iceberg.results) (find_result id duckdb.results);
  }
    where
      times :
          (o : Option QueryRunResult)
          → Option.map (λ (r : QueryRunResult). r.elapsed_ms) o ≡ time_of o
      times none = refl
      times (some r) = refl

      agree :
          (i d : Option QueryRunResult)
          → RowsAgree i d (
              rows_match
                (Option.map (λ (r : QueryRunResult). r.row_count) i)
                (Option.map (λ (r : QueryRunResult). r.row_count) d))
      agree none d = refl
      agree (some i) none = refl
      agree (some i) (some d) = elim (Bool-cases (i.row_count == d.row_count)) [
        | inl same ↦ rw same (inl (ground (arith, same), refl))
        | inr other ↦ rw other (inr (λ e. absurd (ground (arith, other, e)), refl))
      ]

  All-compared : (xs : List Text) → All (Compares iceberg duckdb) (map compared xs)
  unfolding compare_query
  All-compared [] = tt
  All-compared (x ∷ xs) = (compared-Compares x, All-compared xs)

  -- The comparisons of two runs are in strictly ascending order of their ids, so one for each id;
  -- there is one for exactly the ids of either run; and each has the times of the first results for
  -- its id in the two runs, if there are any, and says whether they have as many rows, if there are
  -- both.
  pub compare_runs-IsComparison :
      (suite : Text) → IsComparison iceberg duckdb (compare_runs suite iceberg duckdb)
  unfolding compare_runs
  compare_runs-IsComparison suite =
      let all = ids iceberg.results ++ ids duckdb.results in
      let distinct = dedup (sort text_le all) in
      record {
        ascending = rw (ids-compared distinct) (dedup-sort-IsAscending all);
        complete = λ id.
            ap (has_name id) (ids-compared distinct)
            ∙ (has_name-dedup-sort id all
                ∙ has_name-append id (ids iceberg.results) (ids duckdb.results));
        each = All-compared distinct;
      }
