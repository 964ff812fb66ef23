-- ===== src/ShowTables.antt =====
-- `strip_ascii_prefix_ci` and `parse_show_tables` of crates/idb-sql/src/lib.rs. A text is its code
-- points; a prefix is ASCII, so that cutting bytes and cutting characters are the same.
pub mod Statement
pub mod Schema
use iceberg_db_rs.Base.{
  ℕ, Bool, true, false, ◌&&◌, not, Option, none, some, List, [], ◌∷◌, ◌==◌, if◌then◌else◌,
}
use iceberg_db_rs.Base.Text.{Text, codes}
use iceberg_db_rs.Base.Text.Chars.{lower_char, is_whitespace}
use iceberg_db_rs.Base.Text.Cut.{trim, trim_start_matches, trim_end_matches}

unfoldable pub strip_ascii_prefix_ci : Text → Text → Option Text
unfolding lower_char
strip_ascii_prefix_ci s [] = some s
strip_ascii_prefix_ci [] (c ∷ p) = none
strip_ascii_prefix_ci (d ∷ s) (c ∷ p) =
    if lower_char d == lower_char c then strip_ascii_prefix_ci s p else none

-- `starts_with(char::is_whitespace)`.
abbrev pub starts_with_space : Text → Bool
starts_with_space [] = false
starts_with_space (c ∷ s) = is_whitespace c

abbrev pub is_char : ℕ → ℕ → Bool
is_char c d = d == c

-- `rsplit('.').next()`: what stands after the last dot; the whole text when there is none.
unfoldable pub after_last_dot : Text → Text → Text
after_last_dot [] acc = acc
after_last_dot (c ∷ s) acc = after_last_dot s (if c == b'.' then s else acc)

-- `trim_matches(c)`.
abbrev pub trim_matches : ℕ → Text → Text
trim_matches c s = trim_end_matches (is_char c) (trim_start_matches (is_char c) s)

-- The name of a schema: the last segment, without quotes and then without backquotes.
unfoldable pub schema_segment : Text → Text
unfolding after_last_dot
schema_segment schema = trim_matches b'`' (trim_matches b'"' (after_last_dot schema schema))

-- What follows `in`.
unfoldable pub parse_schema : Text → Option (Option Text)
unfolding schema_segment
parse_schema after_in =
    if not (starts_with_space after_in)
    then none
    else elim (trim after_in) [ [] ↦ none | c ∷ s ↦ some (some (schema_segment (c ∷ s))) ]

-- What follows `show tables`, trimmed.
unfoldable pub parse_tail : Text → Option (Option Text)
unfolding strip_ascii_prefix_ci parse_schema
parse_tail [] = some none
parse_tail (c ∷ s) = elim (strip_ascii_prefix_ci (c ∷ s) (codes "in")) [
  | none ↦ none
  | some after_in ↦ parse_schema after_in
]

abbrev pub is_nil : Text → Bool
is_nil [] = true
is_nil (c ∷ s) = false

unfoldable pub parse_show_tables : Text → Option (Option Text)
unfolding parse_tail
parse_show_tables sql =
    elim (strip_ascii_prefix_ci (trim (trim_end_matches (is_char b';') (trim sql)))
      (codes "show tables")) [
        | none ↦ none
        | some after ↦
            if not (is_nil after) && not (starts_with_space after)
            then none
            else parse_tail (trim after)
      ]
