-- ===== src/Bench/Runs.antt =====
-- A run of queries on an engine always gives its results.
use Prim.Native.Nat.{max}
use iceberg_db_rs.Base.{
  All-append, ℕ, zero, suc, ◌+◌, ◌<◌, ◌≡◌, refl, some, inl, inr, Bool, Bool-cases, List, [], ◌∷◌,
  length, All, ltb, if◌then◌else◌, word_mod, ok, arith,
}
use iceberg_db_rs.Base.Text.{Text}
use iceberg_db_rs.Bench.{
  pushed, succeeded, QueryRunResult, TpcdsQuery, mean_ms, no_result, timed_loop, aggregated,
  run_one, run_queries, run_engine,
}
use iceberg_db_rs.Bench.Median.{Within, median_ms-Within}

pushed-Within :
    (lo hi : ℕ) (r : QueryRunResult) (samples : List ℕ)
    → Within lo hi r.elapsed_ms
    → All (Within lo hi) samples
    → All (Within lo hi) (pushed r samples)
pushed-Within lo hi r samples h k = elim (Bool-cases (succeeded r)) [
  | inl good ↦ rw good (All-append (Within lo hi) samples (r.elapsed_ms ∷ []) k (h, tt))
  | inr bad ↦ rw bad k
]

-- The median of the samples, or the last time.
aggregated-Within :
    (lo hi n : ℕ) (last : QueryRunResult) (samples : List ℕ)
    → hi + hi < word_mod
    → Within lo hi last.elapsed_ms
    → All (Within lo hi) samples
    → (r : QueryRunResult) × ((aggregated n last samples ≡ ok r) × Within lo hi r.elapsed_ms)
unfolding aggregated
aggregated-Within lo hi n last [] small h k = (last, (refl, h))
aggregated-Within lo hi n last (x ∷ samples) small h k = elim (Bool-cases (ltb 1 n)) [
  | inr once ↦ (last, (rw once, h))
  | inl often ↦
      let m = median_ms-Within lo hi (x ∷ samples) k (omega arith) small in
      (
        record last {
          elapsed_ms = m.0;
          mean_elapsed_ms = some (mean_ms (x ∷ samples));
          timed_iterations = some n;
        },
        (rw (often, m.1.0), m.1.1),
      )
]

module _ {S : Type 0} (run_query : Text → Text → S → QueryRunResult × S) (lo hi : ℕ)
    (answers : (id sql : Text) (s : S) → Within lo hi (run_query id sql s).0.elapsed_ms)
    (small : hi + hi < word_mod) where
  abbrev pub IsTimed : QueryRunResult → Type 0
  IsTimed r = Within lo hi r.elapsed_ms

  -- A result in the bounds, that more rounds keep.
  timed_loop_kept :
      (n : ℕ) (q : TpcdsQuery) (last : QueryRunResult) (samples : List ℕ) (s : S)
      → IsTimed last
      → All (Within lo hi) samples
      → IsTimed (timed_loop run_query n q last samples s).0.0
        × All (Within lo hi) (timed_loop run_query n q last samples s).0.1
  unfolding timed_loop
  timed_loop_kept zero q last samples s h k = (h, k)
  timed_loop_kept (suc n) q last samples s h k =
      timed_loop_kept n q (run_query q.id q.sql s).0 (pushed (run_query q.id q.sql s).0 samples)
        (run_query q.id q.sql s).1 (answers q.id q.sql s)
        (pushed-Within lo hi (run_query q.id q.sql s).0 samples (answers q.id q.sql s) k)

  timed_loop-IsTimed :
      (n : ℕ) (q : TpcdsQuery) (last : QueryRunResult) (s : S)
      → 0 < n
      → IsTimed (timed_loop run_query n q last [] s).0.0
        × All (Within lo hi) (timed_loop run_query n q last [] s).0.1
  unfolding timed_loop
  timed_loop-IsTimed zero q last s h = absurd (omega arith)
  timed_loop-IsTimed (suc n) q last s h =
      timed_loop_kept n q (run_query q.id q.sql s).0 (pushed (run_query q.id q.sql s).0 [])
        (run_query q.id q.sql s).1 (answers q.id q.sql s)
        (pushed-Within lo hi (run_query q.id q.sql s).0 [] (answers q.id q.sql s) tt)

  run_queries-IsTimed :
      (warmup : Bool) (n : ℕ) (queries : List TpcdsQuery) (s : S)
      → 0 < n
      → (results : List QueryRunResult) × (s' : S) × ((run_queries run_query warmup n queries s
            ≡ (ok results, s'))
          × ((length results ≡ length queries) × All IsTimed results))
  unfolding run_queries run_one
  run_queries-IsTimed warmup n [] s h = ([], s, (refl, (refl, tt)))
  run_queries-IsTimed warmup n (q ∷ queries) s h =
      let start = if warmup then (run_query q.id q.sql s).1 else s in
      let timed = timed_loop run_query n q (no_result q) [] start in
      let bounds = timed_loop-IsTimed n q (no_result q) start h in
      let r = aggregated-Within lo hi n timed.0.0 timed.0.1 small bounds.0 bounds.1 in
      let rest = run_queries-IsTimed warmup n queries timed.1 h in
      (
        r.0 ∷ rest.0,
        rest.1,
        (rw r.1.0 (rw rest.2.0), (omega (arith, rest.2.1.0), (r.1.1, rest.2.1.1))),
      )

  -- For an engine whose times all lie between two bounds, the upper one below 2^63: a run ends
  -- without a panic with one result for each query, and the time of each lies between the bounds.
  pub run_engine-IsTimed :
      (queries : List TpcdsQuery) (warmup : Bool) (iterations : ℕ) (s : S)
      → (results : List QueryRunResult) × (s' : S) × ((run_engine run_query queries warmup
              iterations s
            ≡ (ok results, s'))
          × ((length results ≡ length queries) × All IsTimed results))
  unfolding run_engine
  run_engine-IsTimed queries warmup iterations s =
      run_queries-IsTimed warmup (max iterations 1) queries s (omega arith)
