-- ===== src/ShowTables/Schema.antt =====
-- A whole statement, from its parts to the schema it names.
use iceberg_db_rs.Base.{
  ℕ, ◌≡◌, refl, ◌∙◌, ap, Bool, true, false, ◌&&◌, not, Option, none, some, [], ◌∷◌, ◌++◌,
  if◌then◌else◌, All,
}
use iceberg_db_rs.Base.Text.{Text, codes}
use iceberg_db_rs.Base.Text.Chars.{lower_char, is_whitespace}
use iceberg_db_rs.Base.Text.Cut.{trim, StartsOutside, EndsOutside}
use iceberg_db_rs.Base.Text.Trimmed.{IsTrimmed, EndsOutside-append, Spaces, trim-before}
use iceberg_db_rs.ShowTables.{
  starts_with_space, is_char, parse_schema, parse_tail, is_nil, parse_show_tables,
}
use iceberg_db_rs.ShowTables.Statement.{
  Spells, strip-Spells, letter-outside, qualified, Bare, schema_segment-qualified, body_found,
}

-- The parts of a statement: white space, the two keywords, the name and what ends the statement.
pub record Parts : Type 0 where
  pub lead : Text
  pub show_tables : Text
  pub gap : ℕ
  pub gaps : Text
  pub in_word : Text
  pub space : ℕ
  pub spaces : Text
  pub catalog : Option Text
  pub first : ℕ
  pub rest : Text
  pub semicolons : Text
  pub trail : Text

abbrev pub schema_of : Parts → Text
schema_of p = p.first ∷ p.rest

abbrev pub name_of : Parts → Text
name_of p = qualified p.catalog (schema_of p)

abbrev pub in_clause : Parts → Text
in_clause p = p.in_word ++ ((p.space ∷ p.spaces) ++ name_of p)

abbrev pub body : Parts → Text
body p = p.show_tables ++ ((p.gap ∷ p.gaps) ++ in_clause p)

abbrev pub render : Parts → Text
render p = p.lead ++ ((body p ++ p.semicolons) ++ p.trail)

pub record IsStatement (p : Parts) : Type 0 where
  pub lead_spaces : Spaces p.lead
  pub keyword : Spells p.show_tables (codes "show tables")
  pub gap_spaces : Spaces (p.gap ∷ p.gaps)
  pub in_keyword : Spells p.in_word (codes "in")
  pub more_spaces : Spaces (p.space ∷ p.spaces)
  pub name_trimmed : IsTrimmed (name_of p)
  pub name_end : EndsOutside (is_char b';') (schema_of p)
  pub bare : Bare (schema_of p)
  pub ends : All (λ d. is_char b';' d ≡ true) p.semicolons
  pub trail_spaces : Spaces p.trail

parse_schema-name :
    (c : ℕ) (s : Text) (catalog : Option Text) (d : ℕ) (r : Text)
    → Spaces (c ∷ s)
    → IsTrimmed (qualified catalog (d ∷ r))
    → Bare (d ∷ r)
    → parse_schema ((c ∷ s) ++ qualified catalog (d ∷ r)) ≡ some (some (d ∷ r))
unfolding parse_schema
parse_schema-name c s none d r h t b =
    rw (h.0, trim-before (c ∷ s) (d ∷ r) h t)
      (ap (λ x. some (some x)) (schema_segment-qualified none (d ∷ r) b))
parse_schema-name c s (some []) d r h t b =
    rw (h.0, trim-before (c ∷ s) (b'.' ∷ d ∷ r) h t)
      (ap (λ x. some (some x)) (schema_segment-qualified (some []) (d ∷ r) b))
parse_schema-name c s (some (e ∷ k)) d r h t b =
    rw (h.0, trim-before (c ∷ s) (e ∷ (k ++ (b'.' ∷ d ∷ r))) h t)
      (ap (λ x. some (some x)) (schema_segment-qualified (some (e ∷ k)) (d ∷ r) b))

EndsOutside-qualified :
    (p : ℕ → Bool) (catalog : Option Text) (d : ℕ) (r : Text)
    → EndsOutside p (d ∷ r)
    → EndsOutside p (qualified catalog (d ∷ r))
EndsOutside-qualified p none d r h = h
EndsOutside-qualified p (some k) d r h = EndsOutside-append p k b'.' (d ∷ r) h

-- What ends a name ends the text that ends with the name.
EndsOutside-behind :
    (p : ℕ → Bool) (a : Text) (catalog : Option Text) (d : ℕ) (r : Text)
    → EndsOutside p (qualified catalog (d ∷ r))
    → EndsOutside p (a ++ qualified catalog (d ∷ r))
EndsOutside-behind p a none d r h = EndsOutside-append p a d r h
EndsOutside-behind p a (some []) d r h = EndsOutside-append p a b'.' (d ∷ r) h
EndsOutside-behind p a (some (e ∷ k)) d r h = EndsOutside-append p a e (k ++ (b'.' ∷ d ∷ r)) h

spelled-StartsOutside :
    (k s : Text) (d : ℕ) (w : Text)
    → Spells k (d ∷ w)
    → is_whitespace (lower_char d) ≡ false
    → StartsOutside is_whitespace (k ++ s)
spelled-StartsOutside [] s d w h l = absurd h
spelled-StartsOutside (c ∷ k) s d w h l = letter-outside c d h.0 l

parse_tail-in : (k s : Text) → Spells k (codes "in") → parse_tail (k ++ s) ≡ parse_schema s
unfolding parse_tail
parse_tail-in [] s h = absurd h
parse_tail-in (c ∷ k) s h = rw (strip-Spells (c ∷ k) (codes "in") s h, parse_tail)

parse_show_tables-body :
    (l k s m r : Text)
    → Spaces l
    → Spells k (codes "show tables")
    → IsTrimmed (k ++ s)
    → EndsOutside (is_char b';') (k ++ s)
    → All (λ d. is_char b';' d ≡ true) m
    → Spaces r
    → parse_show_tables (l ++ (((k ++ s) ++ m) ++ r))
      ≡ (if not (is_nil s) && not (starts_with_space s) then none else parse_tail (trim s))
unfolding parse_show_tables
parse_show_tables-body l [] s m r a h t e n b = absurd h
parse_show_tables-body l (c ∷ k) s m r a h t e n b = rw (
  body_found l c (k ++ s) m r a t e n b,
  strip-Spells (c ∷ k) (codes "show tables") s h,
  parse_show_tables,
)

module _ (p : Parts) (h : IsStatement p) where
  EndsOutside-in_clause :
      (test : ℕ → Bool) → EndsOutside test (name_of p) → EndsOutside test (in_clause p)
  EndsOutside-in_clause test e =
      EndsOutside-append test p.in_word p.space (p.spaces ++ name_of p)
        (EndsOutside-behind test (p.space ∷ p.spaces) p.catalog p.first p.rest e)

  EndsOutside-body : (test : ℕ → Bool) → EndsOutside test (name_of p) → EndsOutside test (body p)
  EndsOutside-body test e =
      EndsOutside-append test p.show_tables p.gap (p.gaps ++ in_clause p)
        (behind (p.gap ∷ p.gaps) p.in_word (EndsOutside-in_clause test e))
    where
      behind :
          (a k : Text)
          → EndsOutside test (k ++ ((p.space ∷ p.spaces) ++ name_of p))
          → EndsOutside test (a ++ (k ++ ((p.space ∷ p.spaces) ++ name_of p)))
      behind a [] f = EndsOutside-append test a p.space (p.spaces ++ name_of p) f
      behind a (c ∷ k) f = EndsOutside-append test a c (k ++ ((p.space ∷ p.spaces) ++ name_of p)) f

  in_clause-IsTrimmed : IsTrimmed (in_clause p)
  unfolding lower_char is_whitespace
  in_clause-IsTrimmed = record {
    starts = spelled-StartsOutside p.in_word _ b'i' (codes "n") h.in_keyword refl;
    ends = EndsOutside-in_clause is_whitespace h.name_trimmed.ends;
  }

  body-IsTrimmed : IsTrimmed (body p)
  unfolding lower_char is_whitespace
  body-IsTrimmed = record {
    starts = spelled-StartsOutside p.show_tables _ b's' (codes "how tables") h.keyword refl;
    ends = EndsOutside-body is_whitespace h.name_trimmed.ends;
  }

  -- A statement of white space, SHOW TABLES in any case, white space, IN in any case, white space,
  -- a schema's name without dots and quotes behind any catalog's name, semicolons and white space
  -- is taken as a request for the tables of that schema.
  pub parse_show_tables-render : parse_show_tables (render p) ≡ some (some (schema_of p))
  parse_show_tables-render =
      parse_show_tables-body p.lead p.show_tables ((p.gap ∷ p.gaps) ++ in_clause p) p.semicolons
        p.trail h.lead_spaces h.keyword body-IsTrimmed
        (EndsOutside-body (is_char b';')
          (EndsOutside-qualified (is_char b';') p.catalog p.first p.rest h.name_end))
        h.ends h.trail_spaces
      ∙ rw (h.gap_spaces.0) (
          rw (trim-before (p.gap ∷ p.gaps) (in_clause p) h.gap_spaces in_clause-IsTrimmed) (
            parse_tail-in p.in_word ((p.space ∷ p.spaces) ++ name_of p) h.in_keyword
            ∙ parse_schema-name p.space p.spaces p.catalog p.first p.rest h.more_spaces
                h.name_trimmed h.bare))
