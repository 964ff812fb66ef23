-- ===== src/CaseInsensitive/Columns.antt =====
-- The columns of a scan of a whole table.
use iceberg_db_rs.Base.{
  ℕ, suc, ◌+◌, ◌≤◌, ◌<◌, ◌⊎◌, sym, subst, ◌≡◌, refl, ◌∙◌, ap, true, false, Option, some, List, [],
  ◌∷◌, ◌==◌, arith, inl, inr, Bool-cases, length,
}
use iceberg_db_rs.Base.Text.{Text, text_eq_iff}
use iceberg_db_rs.Base.Text.Chars.{to_ascii_lowercase, lower_char}
use iceberg_db_rs.CaseInsensitive.{
  column_exprs, any_differs, lowercase_schema, rename_output_columns, scan,
}

-- The names that a list of expressions gives its columns.
abbrev pub output_names : List (Text × ℕ × Text) → List Text
output_names [] = []
output_names (e ∷ es) = e.2 ∷ output_names es

-- The i-th expression reads the column that stands at i.
abbrev pub ReadsInOrder : ℕ → List Text → List (Text × ℕ × Text) → Type 0
ReadsInOrder i [] [] = Unit
ReadsInOrder i (s ∷ src) (e ∷ es) = (e.0 ≡ s) × ((e.1 ≡ i) × ReadsInOrder (suc i) src es)
ReadsInOrder i _ _ = ⊥

column_exprs-names :
    (i : ℕ) (src dst : List Text)
    → length src ≡ length dst
    → output_names (column_exprs i src dst) ≡ dst
unfolding column_exprs
column_exprs-names i [] [] h = refl
column_exprs-names i [] (d ∷ dst) h = absurd (omega arith)
column_exprs-names i (s ∷ src) [] h = absurd (omega arith)
column_exprs-names i (s ∷ src) (d ∷ dst) h =
    ap (◌∷◌ d) (column_exprs-names (suc i) src dst (omega arith))

column_exprs-ReadsInOrder :
    (i : ℕ) (src dst : List Text)
    → length src ≡ length dst
    → ReadsInOrder i src (column_exprs i src dst)
unfolding column_exprs
column_exprs-ReadsInOrder i [] [] h = tt
column_exprs-ReadsInOrder i [] (d ∷ dst) h = absurd (omega arith)
column_exprs-ReadsInOrder i (s ∷ src) [] h = absurd (omega arith)
column_exprs-ReadsInOrder i (s ∷ src) (d ∷ dst) h =
    (refl, (refl, column_exprs-ReadsInOrder (suc i) src dst (omega arith)))

same_names :
    (src dst : List Text) → length src ≡ length dst → any_differs src dst ≡ false → src ≡ dst
unfolding any_differs
same_names [] [] h k = refl
same_names [] (d ∷ dst) h k = absurd (omega arith)
same_names (s ∷ src) [] h k = absurd (omega arith)
same_names (s ∷ src) (d ∷ dst) h k =
    ap (◌∷◌ s) (same_names src dst (omega arith) (ground arith))
    ∙ ap (λ x. x ∷ dst) ((text_eq_iff s d).0 (ground arith))

length-lowercase_schema : (names : List Text) → length names ≡ length (lowercase_schema names)
unfolding lowercase_schema
length-lowercase_schema [] = refl
length-lowercase_schema (n ∷ ns) = ap suc (length-lowercase_schema ns)

-- What a projection promises: of expressions that read the columns in order, the columns it names.
abbrev pub IsProject {ℓ} :
    {Plan : Type ℓ} → (Plan → List Text) → (List (Text × ℕ × Text) → Plan → Option Plan) → Type ℓ
IsProject {Plan} columns project =
    (exprs : List (Text × ℕ × Text)) (plan : Plan)
    → ReadsInOrder 0 (columns plan) exprs
    → (p : Plan) × ((project exprs plan ≡ some p) × (columns p ≡ output_names exprs))

-- An ASCII letter is its small letter, and any other character itself.
abbrev pub IsSmall : ℕ → ℕ → Type 0
IsSmall c d = ((b'A' ≤ c) × (c ≤ b'Z') × (d ≡ c + 32)) ⊎ (((c < b'A') ⊎ (b'Z' < c)) × (d ≡ c))

abbrev pub IsSmallText : Text → Text → Type 0
IsSmallText [] [] = Unit
IsSmallText (c ∷ s) (d ∷ t) = IsSmall c d × IsSmallText s t
IsSmallText _ _ = ⊥

-- The names of the second list are those of the first in lower case.
abbrev pub AreSmall : List Text → List Text → Type 0
AreSmall [] [] = Unit
AreSmall (s ∷ names) (t ∷ small) = IsSmallText s t × AreSmall names small
AreSmall _ _ = ⊥

lower_char-IsSmall : (c : ℕ) → IsSmall c (lower_char c)
unfolding lower_char
lower_char-IsSmall c = ground arith

to_ascii_lowercase-IsSmallText : (s : Text) → IsSmallText s (to_ascii_lowercase s)
to_ascii_lowercase-IsSmallText [] = tt
to_ascii_lowercase-IsSmallText (c ∷ s) = (lower_char-IsSmall c, to_ascii_lowercase-IsSmallText s)

lowercase_schema-AreSmall : (names : List Text) → AreSmall names (lowercase_schema names)
unfolding lowercase_schema
lowercase_schema-AreSmall [] = tt
lowercase_schema-AreSmall (n ∷ names) =
    (to_ascii_lowercase-IsSmallText n, lowercase_schema-AreSmall names)

-- A scan that gives all columns of the table succeeds, and its columns are those of the table in
-- lower case (each ASCII letter its small letter), in the same order.
pub scan-lowercase_schema {ℓ} :
    {Plan : Type ℓ} (columns : Plan → List Text)
    (project : List (Text × ℕ × Text) → Plan → Option Plan)
    → IsProject columns project
    → (plan : Plan)
    → (p : Plan) × ((scan columns project (columns plan) (some plan) ≡ some p)
        × AreSmall (columns plan) (columns p))
unfolding scan
scan-lowercase_schema columns project law plan =
    let src = columns plan in
    let dst = lowercase_schema src in
    let same : (length src == length dst) ≡ true = ground (arith, length-lowercase_schema src) in
    elim (Bool-cases (any_differs src dst)) [
      | inl differs ↦
          let made =
            law (column_exprs 0 src dst) plan
              (column_exprs-ReadsInOrder 0 src dst (length-lowercase_schema src)) in
          (
            made.0,
            (
              rw (same, differs, rename_output_columns) made.1.0,
              subst (AreSmall src)
                  (sym (made.1.1 ∙ column_exprs-names 0 src dst (length-lowercase_schema src)))
                  (lowercase_schema-AreSmall src),
            ),
          )
      | inr equal ↦ (
        plan,
        (
          rw (same, equal, rename_output_columns),
          subst (AreSmall src) (sym (same_names src dst (length-lowercase_schema src) equal))
              (lowercase_schema-AreSmall src),
        ),
      )
    ]
