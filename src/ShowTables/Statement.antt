-- ===== src/ShowTables/Statement.antt =====
-- Keywords, the name of a schema, and what is cut off around a statement.
use mathlib.Core.List.{append-nil}
use iceberg_db_rs.Base.{
  ℕ, ◌≡◌, refl, true, false, Option, none, some, [], ◌∷◌, ◌++◌, ◌==◌, All, arith,
}
use iceberg_db_rs.Base.Text.{Text}
use iceberg_db_rs.Base.Text.Chars.{lower_char, is_whitespace}
use iceberg_db_rs.Base.Text.Cut.{
  trim, trim_end_matches, StartsOutside, EndsOutside, NoneOf, trim_end_matches-append,
  trim_start_matches_fixed, trim_end_matches_fixed,
}
use iceberg_db_rs.Base.Text.Trimmed.{
  IsTrimmed, trim-IsTrimmed, EndsOutside-append, Spaces, trim-around,
}
use iceberg_db_rs.ShowTables.{
  strip_ascii_prefix_ci, is_char, after_last_dot, trim_matches, schema_segment,
}

-- The spellings of a keyword.
abbrev pub Spells : Text → Text → Type 0
Spells [] [] = Unit
Spells (c ∷ k) (d ∷ w) = ((lower_char c == lower_char d) ≡ true) × Spells k w
Spells _ _ = ⊥

pub strip-Spells : (k w s : Text) → Spells k w → strip_ascii_prefix_ci (k ++ s) w ≡ some s
unfolding strip_ascii_prefix_ci
strip-Spells [] [] s h = refl
strip-Spells [] (d ∷ w) s h = absurd h
strip-Spells (c ∷ k) [] s h = absurd h
strip-Spells (c ∷ k) (d ∷ w) s h = rw (h.0, strip_ascii_prefix_ci) (strip-Spells k w s h.1)

pub letter-outside :
    (c d : ℕ)
    → (lower_char c == lower_char d) ≡ true
    → is_whitespace (lower_char d) ≡ false
    → is_whitespace c ≡ false
unfolding lower_char is_whitespace
letter-outside c d h k = ground arith

-- A schema's name, behind the name of its catalog if there is one.
abbrev pub qualified : Option Text → Text → Text
qualified none name = name
qualified (some catalog) name = catalog ++ (b'.' ∷ name)

after_last_dot_none : (s acc : Text) → NoneOf (is_char b'.') s → after_last_dot s acc ≡ acc
unfolding after_last_dot
after_last_dot_none [] acc h = refl
after_last_dot_none (c ∷ s) acc h = rw (h.0, after_last_dot) (after_last_dot_none s acc h.1)

after_last_dot_dotted :
    (r s acc : Text) → NoneOf (is_char b'.') s → after_last_dot (r ++ (b'.' ∷ s)) acc ≡ s
unfolding after_last_dot
after_last_dot_dotted [] s acc h = after_last_dot_none s s h
after_last_dot_dotted (c ∷ r) s acc h = after_last_dot_dotted r s _ h

pub record Bare (name : Text) : Type 0 where
  pub no_dot : NoneOf (is_char b'.') name
  pub quote_first : StartsOutside (is_char b'"') name
  pub quote_last : EndsOutside (is_char b'"') name
  pub backquote_first : StartsOutside (is_char b'`') name
  pub backquote_last : EndsOutside (is_char b'`') name

trim_matches_fixed :
    (c : ℕ) (s : Text)
    → StartsOutside (is_char c) s
    → EndsOutside (is_char c) s
    → trim_matches c s ≡ s
trim_matches_fixed c s h k =
    rw (trim_start_matches_fixed (is_char c) s h) (trim_end_matches_fixed (is_char c) s k)

Bare-segment : (name : Text) → Bare name → trim_matches b'`' (trim_matches b'"' name) ≡ name
Bare-segment name h =
    rw (trim_matches_fixed b'"' name h.quote_first h.quote_last)
      (trim_matches_fixed b'`' name h.backquote_first h.backquote_last)

pub schema_segment-qualified :
    (catalog : Option Text) (name : Text)
    → Bare name
    → schema_segment (qualified catalog name) ≡ name
unfolding schema_segment
schema_segment-qualified none name h =
    rw (after_last_dot_none name name h.no_dot) (Bare-segment name h)
schema_segment-qualified (some catalog) name h =
    rw (after_last_dot_dotted catalog name (catalog ++ (b'.' ∷ name)) h.no_dot)
      (Bare-segment name h)

semicolons_outside :
    (d : ℕ) (m : Text)
    → All (λ d. is_char b';' d ≡ true) (d ∷ m)
    → EndsOutside is_whitespace (d ∷ m)
unfolding is_whitespace
semicolons_outside d [] h = ground (arith, h.0)
semicolons_outside d (e ∷ m) h = semicolons_outside e m h.1

semicolons_end :
    (s m : Text)
    → EndsOutside is_whitespace s
    → All (λ d. is_char b';' d ≡ true) m
    → EndsOutside is_whitespace (s ++ m)
semicolons_end s [] h k = rw append-nil h
semicolons_end s (d ∷ m) h k = EndsOutside-append is_whitespace s d m (semicolons_outside d m k)

-- A trimmed text, then semicolons, with white space around.
pub body_found :
    (l : Text) (c : ℕ) (s semicolons r : Text)
    → Spaces l
    → IsTrimmed (c ∷ s)
    → EndsOutside (is_char b';') (c ∷ s)
    → All (λ d. is_char b';' d ≡ true) semicolons
    → Spaces r
    → trim (trim_end_matches (is_char b';') (trim (l ++ (((c ∷ s) ++ semicolons) ++ r)))) ≡ c ∷ s
body_found l c s semicolons r a h e m b =
    rw
      (
        trim-around l c (s ++ semicolons) r a
            (record { starts = h.starts; ends = semicolons_end (c ∷ s) semicolons h.ends m }) b,
        trim_end_matches-append (is_char b';') (c ∷ s) semicolons e m,
      )
      (trim-IsTrimmed (c ∷ s) h)
