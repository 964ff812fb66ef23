-- ===== src/CaseInsensitive/Names.antt =====
-- What a name resolves to, for schemas and for tables.
use mathlib.Core.Option.{some-injective}
use iceberg_db_rs.Base.{
  ◌≡◌, refl, sym, ◌∙◌, ap, subst, Bool, true, false, Option, none, some, List, [], ◌∷◌, All, arith,
  inl, inr, Bool-cases, ◌⊎◌,
}
use iceberg_db_rs.Base.Text.{has_name, Text, text_eq, text_eq_iff, text_eq_self}
use iceberg_db_rs.Base.Text.Chars.{to_ascii_lowercase}
use iceberg_db_rs.Base.Dict
use iceberg_db_rs.Base.Dict.{Dict, get-insert}
use iceberg_db_rs.CaseInsensitive.{
  eq_ignore_ascii_case, is_some, find_name, resolve_schema_name, collect_names, resolve_table_name,
  at_resolved_table,
}

-- A name of the list that differs in case only, or nothing when there is no such name.
abbrev pub IsResolved : List Text → Text → Option Text → Type 0
IsResolved names name none = All (λ n. eq_ignore_ascii_case n name ≡ false) names
IsResolved names name (some r) = (has_name r names ≡ true) × (eq_ignore_ascii_case r name ≡ true)

more :
    (n name : Text) (ns : List Text) (o : Option Text)
    → eq_ignore_ascii_case n name ≡ false
    → IsResolved ns name o
    → IsResolved (n ∷ ns) name o
more n name ns none h k = (h, k)
more n name ns (some r) h k = (ground (arith, k.0), k.1)

find_name-IsResolved : (name : Text) (ns : List Text) → IsResolved ns name (find_name name ns)
unfolding find_name
find_name-IsResolved name [] = tt
find_name-IsResolved name (n ∷ ns) = elim (Bool-cases (eq_ignore_ascii_case n name)) [
  | inl same ↦ rw (same, find_name) (ground (arith, text_eq_self n), same)
  | inr other ↦
      rw (other, find_name)
        (more n name ns (find_name name ns) other (find_name-IsResolved name ns))
]

-- Where the wrapped catalog has exactly the schemas it names, a name resolves to a schema's name
-- that differs from it in the case of ASCII letters only, and to nothing if there is none.
pub resolve_schema_name-IsResolved {ℓ} :
    {Schema : Type ℓ} (schema : Text → Option Schema) (schema_names : List Text)
    → ((n : Text) → is_some (schema n) ≡ has_name n schema_names)
    → (name : Text) → IsResolved schema_names name (resolve_schema_name schema schema_names name)
unfolding resolve_schema_name
resolve_schema_name-IsResolved schema names law name = elim (Bool-cases (is_some (schema name))) [
  | inl present ↦
      rw (present, resolve_schema_name)
        (sym (law name) ∙ present, text_eq_self (to_ascii_lowercase name))
  | inr missing ↦ rw (missing, resolve_schema_name) (find_name-IsResolved name names)
]

-- The collected names: the last name of a spelling, or what the map had.
abbrev IsCollected : List Text → Text → Option Text → Option Text → Type 0
IsCollected names name before none =
    (before ≡ none) × All (λ n. eq_ignore_ascii_case n name ≡ false) names
IsCollected names name before (some r) =
    (before ≡ some r) ⊎ ((has_name r names ≡ true) × (eq_ignore_ascii_case r name ≡ true))

IsCollected-same :
    (n name : Text) (ns : List Text) (before o : Option Text)
    → eq_ignore_ascii_case n name ≡ true
    → IsCollected ns name (some n) o
    → IsCollected (n ∷ ns) name before o
IsCollected-same n name ns before none s h = absurd (ground (arith, h.0))
IsCollected-same n name ns before (some r) s (inl e) = inr (
    subst (λ x. (has_name x (n ∷ ns) ≡ true) × (eq_ignore_ascii_case x name ≡ true))
      (some-injective n r e) (ground (arith, text_eq_self n), s))
IsCollected-same n name ns before (some r) s (inr k) = inr (ground (arith, k.0), k.1)

IsCollected-other :
    (n name : Text) (ns : List Text) (before o : Option Text)
    → eq_ignore_ascii_case n name ≡ false
    → IsCollected ns name before o
    → IsCollected (n ∷ ns) name before o
IsCollected-other n name ns before none s h = (h.0, (s, h.1))
IsCollected-other n name ns before (some r) s (inl e) = inl e
IsCollected-other n name ns before (some r) s (inr k) = inr (ground (arith, k.0), k.1)

get-collect_names :
    (name : Text) (ns : List Text) (m : Dict Text)
    → IsCollected ns name
        (Dict.get m (to_ascii_lowercase name))
        (Dict.get (collect_names ns m) (to_ascii_lowercase name))
unfolding collect_names
get-collect_names name [] m = empty (Dict.get m (to_ascii_lowercase name))
  where
    empty : (o : Option Text) → IsCollected [] name o o
    empty none = (refl, tt)
    empty (some r) = inl refl
get-collect_names name (n ∷ ns) m =
    let key = to_ascii_lowercase name in
    let before = Dict.get m key in
    let m' = Dict.insert m (to_ascii_lowercase n) n in
    let o = Dict.get (collect_names ns m') key in
    elim (Bool-cases (eq_ignore_ascii_case n name)) [
      | inl same ↦ IsCollected-same n name ns before o same (
          subst (λ b. IsCollected ns name b o) (get-insert m (to_ascii_lowercase n) n key ∙ rw same)
            (get-collect_names name ns m'))
      | inr other ↦ IsCollected-other n name ns before o other (
          subst (λ b. IsCollected ns name b o)
            (get-insert m (to_ascii_lowercase n) n key ∙ rw other) (get-collect_names name ns m'))
    ]

collected_all :
    (name : Text) (ns : List Text) (o : Option Text)
    → IsCollected ns name none o
    → IsResolved ns name o
collected_all name ns none h = h.1
collected_all name ns (some r) (inl e) = absurd (ground (arith, e))
collected_all name ns (some r) (inr k) = k

-- Where the wrapped schema has exactly the tables it names, a name resolves to a table's name that
-- differs from it in the case of ASCII letters only, and to nothing if there is none.
pub resolve_table_name-IsResolved :
    (exists : Text → Bool) (table_names : List Text)
    → ((n : Text) → exists n ≡ has_name n table_names)
    → (name : Text) → IsResolved table_names name (resolve_table_name exists table_names name)
unfolding resolve_table_name Dict.get
resolve_table_name-IsResolved exists names law name = elim (Bool-cases (exists name)) [
  | inl present ↦
      rw (present, resolve_table_name)
        (sym (law name) ∙ present, text_eq_self (to_ascii_lowercase name))
  | inr missing ↦
      rw (missing, resolve_table_name)
        (collected_all name names (Dict.get (collect_names names []) (to_ascii_lowercase name))
          (get-collect_names name names []))
]

-- Two names of the list that differ in case only are the same.
abbrev pub IsDistinct : List Text → Type 0
IsDistinct names =
    (a b : Text)
    → has_name a names ≡ true
    → has_name b names ≡ true
    → eq_ignore_ascii_case a b ≡ true
    → a ≡ b

resolved_of_spelling :
    (names : List Text) (n name : Text) (o : Option Text)
    → IsDistinct names
    → has_name n names ≡ true
    → eq_ignore_ascii_case n name ≡ true
    → IsResolved names name o
    → o ≡ some n
resolved_of_spelling names n name none d h s k = absurd (none_of names h k)
  where
    none_of :
        (ns : List Text)
        → has_name n ns ≡ true
        → All (λ x. eq_ignore_ascii_case x name ≡ false) ns
        → ⊥
    none_of [] p q = absurd (ground arith)
    none_of (x ∷ xs) p q = elim (Bool-cases (text_eq x n)) [
      | inl same ↦ absurd (ground (arith, q.0, s, (text_eq_iff x n).0 same))
      | inr other ↦ none_of xs (ground arith) q.1
    ]
resolved_of_spelling names n name (some r) d h s k = ap some (
    d r n k.0 h (
      ground (
        arith,
        k.1,
        s,
        text_eq_iff (to_ascii_lowercase r) (to_ascii_lowercase name),
        text_eq_iff (to_ascii_lowercase n) (to_ascii_lowercase name),
        text_eq_iff (to_ascii_lowercase r) (to_ascii_lowercase n),
      )))

-- Where the wrapped schema has exactly the tables it names and no two tables differ in case only, every spelling of a table's name finds that table.
pub at_resolved_table_any_case {ℓ} :
    {R : Type ℓ} (exists : Text → Bool) (table_names : List Text)
    → ((n : Text) → exists n ≡ has_name n table_names)
    → IsDistinct table_names
    → (missing : R) (operation : Text → R) (n name : Text) → has_name n table_names ≡ true
    → eq_ignore_ascii_case n name ≡ true
    → at_resolved_table exists table_names missing operation name ≡ operation n
unfolding at_resolved_table
at_resolved_table_any_case exists names law d missing operation n name h s = rw (
  resolved_of_spelling names n name (resolve_table_name exists names name) d h s
      (resolve_table_name-IsResolved exists names law name),
  at_resolved_table,
)
