-- ===== src/ResolvedPaths.antt =====
-- crates/idb-catalog/src/resolved_paths.rs: data-file paths against a table's location. Texts are
-- their code points; the operations of `LocalFsStorage` on the resolved path are a parameter.
pub mod FileUri
mod Forward
pub mod Idempotent
pub mod Resolution
pub mod Catalog
pub mod Relative
use iceberg_db_rs.Base.{
  ℕ, Bool, true, false, ◌||◌, Option, none, some, List, [], ◌∷◌, ◌++◌, ◌==◌, if◌then◌else◌, Outcome,
}
use iceberg_db_rs.Base.Text.{Text, codes}
use iceberg_db_rs.Base.Text.Chars.{replace_char}
use iceberg_db_rs.Base.Text.Cut.{
  trim, trim_start_matches, trim_end_matches, strip_prefix, starts_with, contains,
}

abbrev pub is_slash : ℕ → Bool
is_slash c = c == b'/'

-- `replace('\\', "/")`.
abbrev pub forward : Text → Text
forward = replace_char 0x5c b'/'

abbrev pub second_is_colon : Text → Bool
second_is_colon (a ∷ c ∷ s) = c == b':'
second_is_colon _ = false

unfoldable pub is_absolute_path : Text → Bool
is_absolute_path path = starts_with (codes "/") path || second_is_colon path

abbrev pub unless_empty : Text → Option Text
unless_empty [] = none
unless_empty (c ∷ s) = some (c ∷ s)

unfoldable pub file_uri_to_local_path : Text → Option Text
file_uri_to_local_path path = elim (strip_prefix (codes "file:") path) [
  | none ↦ none
  | some rest ↦ unless_empty (forward (trim_start_matches is_slash rest))
]

-- `format!("{base}/{relative}")`, of a base and a path that is relative.
abbrev pub join : Text → Text → Text
join base path =
    forward (trim_end_matches is_slash base) ++ (b'/' ∷ forward (trim_start_matches is_slash path))

-- `resolve_path` after the trim and the test for the empty path.
unfoldable pub resolve_trimmed : Text → Text → Text
resolve_trimmed base path = elim (file_uri_to_local_path path) [
  | some local ↦ local
  | none ↦
      if contains (codes "://") path || is_absolute_path path then forward path else join base path
]

unfoldable pub resolve_path : Text → Text → Text
unfolding resolve_trimmed
resolve_path base path = elim (trim path) [ [] ↦ [] | c ∷ s ↦ resolve_trimmed base (c ∷ s) ]

-- `TableRelativeStorage`: every operation is that of the wrapped storage at the resolved path.
unfoldable pub at_resolved {ℓ} : {R : Type ℓ} → Text → (Text → R) → Text → R
at_resolved base operation path = operation (resolve_path base path)
