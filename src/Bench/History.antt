-- ===== src/Bench/History.antt =====
-- crates/idb-bench/src/history.rs: the history of runs, one JSON text to a line. The calls of the
-- file system succeed; a file that is not there is `none`.
pub mod Kept
use iceberg_db_rs.Base.{
  ℕ, ◌-◌, Bool, true, false, ◌||◌, Option, none, some, List, [], ◌∷◌, ◌++◌, leb, ◌==◌,
  if◌then◌else◌, Outcome, ok, err, panic, data_invalid, ◌>>=◌,
}
use iceberg_db_rs.Base.Text.{Text, text_eq}
use iceberg_db_rs.Base.Text.Chars.{replace_char}
use iceberg_db_rs.Base.Text.Cut.{trim, byte_length}
use iceberg_db_rs.HttpLog.{byte_prefix}
use iceberg_db_rs.Bench.{BenchReport, QueryComparison}

-- The configuration of a run is kept as it is written.
pub record RunHistoryEntry : Type 0 where
  pub recorded_at : Text
  pub git_commit : Option Text
  pub label : Option Text
  pub notes : Text
  pub changes : List Text
  pub config : Text
  pub report : BenchReport

abbrev pub newline : ℕ
newline = 0xa

-- `lines` of a reader. It also drops a carriage return before the end of a line, which `trim` drops
-- anyway.
abbrev pub push_front : ℕ → List Text → List Text
push_front c [] = (c ∷ []) ∷ []
push_front c (l ∷ ls) = (c ∷ l) ∷ ls

unfoldable pub lines : Text → List Text
lines [] = []
lines (c ∷ s) = let rest = lines s in if c == newline then [] ∷ rest else push_front c rest

-- The JSON of an entry, and back.
pub record Json : Type 0 where
  pub to_string : RunHistoryEntry → Text
  pub from_str : Text → Option RunHistoryEntry

module _ (json : Json) where
  unfoldable pub append_run : Option Text → RunHistoryEntry → Option Text
  append_run none entry = some (json.to_string entry ++ (newline ∷ []))
  append_run (some content) entry = some (content ++ (json.to_string entry ++ (newline ∷ [])))

  abbrev pub parsed : Option RunHistoryEntry → Outcome (List RunHistoryEntry)
  parsed none = err data_invalid
  parsed (some run) = ok (run ∷ [])

  -- The entry of a trimmed line, if it is not blank.
  abbrev pub line_runs : Text → Outcome (List RunHistoryEntry)
  line_runs [] = ok []
  line_runs (c ∷ s) = parsed (json.from_str (c ∷ s))

  unfoldable pub load_lines : List Text → Outcome (List RunHistoryEntry)
  load_lines [] = ok []
  load_lines (l ∷ ls) = do first ← line_runs (trim l); rest ← load_lines ls; ok (first ++ rest)

  unfoldable pub load_runs : Option Text → Outcome (List RunHistoryEntry)
  unfolding load_lines lines
  load_runs none = ok []
  load_runs (some content) = load_lines (lines content)

-- One line of at most so many bytes, cut before the last of them.
unfoldable pub truncate_one_line : Text → ℕ → Outcome Text
unfolding byte_prefix
truncate_one_line s max =
    let one_line = replace_char newline 0x20 s in
    if leb (byte_length one_line) max
    then ok one_line
    else (do cut ← byte_prefix (max - 1) one_line; ok (cut ++ (0x2026 ∷ [])))

abbrev pub find_comparison : Text → List QueryComparison → Option QueryComparison
find_comparison id [] = none
find_comparison id (c ∷ cs) = if text_eq c.query_id id then some c else find_comparison id cs

-- A change from one time to another, if the first is not 0: the query or none for the total, and the
-- two times.
abbrev pub Delta : Type 0
Delta = Option Text × (ℕ × ℕ)

abbrev pub pct_delta : Option Text → ℕ → ℕ → List Delta
pct_delta label before after = if before == 0 then [] else (label, (before, after)) ∷ []

abbrev pub query_delta : Text → Option ℕ → Option ℕ → List Delta
query_delta id (some before) (some after) = pct_delta (some id) before after
query_delta id _ _ = []

-- The loop over the comparisons, which ends the whole with nothing at a query without a previous one.
unfoldable pub query_deltas : List QueryComparison → List QueryComparison → Option (List Delta)
query_deltas previous [] = some []
query_deltas previous (c ∷ cs) =
    let rest = query_deltas previous cs in
    elim (find_comparison c.query_id previous) [
      | none ↦ none
      | some p ↦ elim rest [
        | none ↦ none
        | some deltas ↦ some (query_delta c.query_id p.iceberg_ms c.iceberg_ms ++ deltas)
      ]
    ]

abbrev pub unless_none : Option (List Delta) → Option (List Delta)
unless_none none = none
unless_none (some []) = none
unless_none (some (d ∷ ds)) = some (d ∷ ds)

abbrev pub with_total : List Delta → Option (List Delta) → Option (List Delta)
with_total total none = none
with_total total (some deltas) = some (total ++ deltas)

-- What the lines of the difference say.
unfoldable pub format_delta_vs_previous : RunHistoryEntry → RunHistoryEntry → Option (List Delta)
unfolding query_deltas
format_delta_vs_previous current previous = unless_none (
    with_total
      (pct_delta none previous.report.iceberg_db.total_elapsed_ms
        current.report.iceberg_db.total_elapsed_ms)
      (query_deltas previous.report.comparisons current.report.comparisons))
