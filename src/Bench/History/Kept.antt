-- ===== src/Bench/History/Kept.antt =====
-- An appended run is loaded after those before it.
use iceberg_db_rs.Base.{
  ℕ, ◌≡◌, refl, sym, ap, subst, ◌∙◌, inl, inr, true, false, Bool-cases, Option, none, some, List,
  [], ◌∷◌, ◌++◌, All, ◌==◌, Outcome, ok, err, panic, ◌>>=◌,
}
use mathlib.Core.List.{append_assoc}
use iceberg_db_rs.Base.Text.{Text}
use iceberg_db_rs.Base.Text.Cut.{trim}
use iceberg_db_rs.Bench.History.{
  RunHistoryEntry, newline, push_front, lines, Json, append_run, line_runs, load_lines, load_runs,
}

-- What the code relies on of the JSON of an entry: it is not empty, starts and ends with no white
-- space, is on one line, and is read back.
pub record JsonLaws (json : Json) (e : RunHistoryEntry) : Type 0 where
  pub first : ℕ
  pub others : Text
  pub written : json.to_string e ≡ first ∷ others
  pub trimmed : trim (json.to_string e) ≡ json.to_string e
  pub one_line : All (λ c. (c == newline) ≡ false) (json.to_string e)
  pub read_back : json.from_str (json.to_string e) ≡ some e

-- The text is empty or ends with a newline.
abbrev pub IsEnded : Text → Type 0
IsEnded [] = Unit
IsEnded (c ∷ []) = (c == newline) ≡ true
IsEnded (c ∷ d ∷ s) = IsEnded (d ∷ s)

abbrev pub IsHistory : Option Text → Type 0
IsHistory none = Unit
IsHistory (some content) = IsEnded content

push_front-append :
    (c : ℕ) (l : Text) (ls ms : List Text)
    → push_front c ((l ∷ ls) ++ ms) ≡ push_front c (l ∷ ls) ++ ms
push_front-append c l ls ms = refl

lines-newline :
    (c : ℕ) (s t : Text)
    → (c == newline) ≡ true
    → lines (s ++ t) ≡ lines s ++ lines t
    → lines ((c ∷ s) ++ t) ≡ lines (c ∷ s) ++ lines t
unfolding lines
lines-newline c s t e ih = rw e (ap (◌∷◌ []) ih)

lines-char :
    (c : ℕ) (s t : Text) (l : Text) (ls : List Text)
    → (c == newline) ≡ false
    → lines s ≡ l ∷ ls
    → lines (s ++ t) ≡ lines s ++ lines t
    → lines ((c ∷ s) ++ t) ≡ lines (c ∷ s) ++ lines t
unfolding lines
lines-char c s t l ls e some_line ih = rw (e, ih, some_line)

some_line : (c : ℕ) (s : Text) → (l : Text) × (ls : List Text) × (lines (c ∷ s) ≡ l ∷ ls)
unfolding lines
some_line c s = elim (Bool-cases (c == newline)) [
  | inl e ↦ ([], lines s, rw e)
  | inr e ↦ rw e (pushed (lines s))
]
  where
    pushed : (ms : List Text) → (l : Text) × (ls : List Text) × (push_front c ms ≡ l ∷ ls)
    pushed [] = (c ∷ [], [], refl)
    pushed (m ∷ ms) = (c ∷ m, ms, refl)

-- The lines of two texts, the first of them ended.
lines-append : (s t : Text) → IsEnded s → lines (s ++ t) ≡ lines s ++ lines t
unfolding lines
lines-append [] t h = refl
lines-append (c ∷ []) t h = lines-newline c [] t h refl
lines-append (c ∷ d ∷ s) t h = elim (Bool-cases (c == newline)) [
  | inl e ↦ lines-newline c (d ∷ s) t e (lines-append (d ∷ s) t h)
  | inr e ↦
      let line = some_line d s in
      lines-char c (d ∷ s) t line.0 line.1 e line.2 (lines-append (d ∷ s) t h)
]

lines-one : (s : Text) → All (λ c. (c == newline) ≡ false) s → lines (s ++ (newline ∷ [])) ≡ s ∷ []
unfolding lines
lines-one [] h = refl
lines-one (c ∷ s) h = rw (h.0, lines-one s h.1)

IsEnded-append : (s : Text) → IsEnded (s ++ (newline ∷ []))
IsEnded-append [] = refl
IsEnded-append (c ∷ []) = refl
IsEnded-append (c ∷ d ∷ s) = IsEnded-append (d ∷ s)

abbrev Runs : Type 0
Runs = Outcome (List RunHistoryEntry)

-- The runs of both, if both are read.
abbrev both : Runs → Runs → Runs
both a b = a >>= λ xs. b >>= λ ys. ok (xs ++ ys)

both-nil : (b : Runs) → both (ok []) b ≡ b
both-nil (ok ys) = refl
both-nil (err e) = refl
both-nil panic = refl

both_assoc : (a b c : Runs) → both a (both b c) ≡ both (both a b) c
both_assoc (ok xs) (ok ys) (ok zs) = ap ok (sym (append_assoc xs ys zs))
both_assoc (ok xs) (ok ys) (err e) = refl
both_assoc (ok xs) (ok ys) panic = refl
both_assoc (ok xs) (err e) c = refl
both_assoc (ok xs) panic c = refl
both_assoc (err e) b c = refl
both_assoc panic b c = refl

module _ (json : Json) where
  load_lines-append :
      (ls ms : List Text)
      → load_lines json (ls ++ ms) ≡ both (load_lines json ls) (load_lines json ms)
  unfolding load_lines
  load_lines-append [] ms = sym (both-nil (load_lines json ms))
  load_lines-append (l ∷ ls) ms =
      ap (both (line_runs json (trim l))) (load_lines-append ls ms)
      ∙ both_assoc (line_runs json (trim l)) (load_lines json ls) (load_lines json ms)

  load_entry :
      (e : RunHistoryEntry)
      → JsonLaws json e
      → load_lines json (lines (json.to_string e ++ (newline ∷ []))) ≡ ok (e ∷ [])
  unfolding load_lines
  load_entry e laws =
      rw (lines-one (json.to_string e) laws.one_line, laws.trimmed)
        (rw laws.written (rw (← laws.written) (rw laws.read_back)))

  -- For a run whose JSON is not empty, has no white space around it, is on one line and is read
  -- back, and a history that is empty or ends with a newline and whose runs are loaded: after a
  -- run has been appended, those runs and then the appended one are loaded, and it ends with a
  -- newline again.
  pub load_runs-append_run :
      (file : Option Text) (entry : RunHistoryEntry) (runs : List RunHistoryEntry)
      → JsonLaws json entry
      → IsHistory file
      → load_runs json file ≡ ok runs
      → (load_runs json (append_run json file entry) ≡ ok (runs ++ (entry ∷ [])))
        × IsHistory (append_run json file entry)
  unfolding load_runs append_run
  load_runs-append_run none entry runs laws h l = (
    load_entry entry laws ∙ (λ i. both (l i) (ok (entry ∷ []))),
    IsEnded-append (json.to_string entry),
  )
  load_runs-append_run (some content) entry runs laws h l =
      let line = json.to_string entry ++ (newline ∷ []) in
      (
        ap (load_lines json) (lines-append content line h)
            ∙ (load_lines-append (lines content) (lines line)
                ∙ (λ i. both (l i) (load_entry entry laws i))),
        subst IsEnded (append_assoc content (json.to_string entry) (newline ∷ []))
            (IsEnded-append (content ++ json.to_string entry)),
      )
