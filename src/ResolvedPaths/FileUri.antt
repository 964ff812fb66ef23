-- ===== src/ResolvedPaths/FileUri.antt =====
-- What becomes of a file URI.
use iceberg_db_rs.Base.{ℕ, ◌≡◌, refl, ◌∙◌, true, false, some, ◌∷◌, ◌++◌, All}
use iceberg_db_rs.Base.Text.{Text, codes}
use iceberg_db_rs.Base.Text.Chars.{is_whitespace}
use iceberg_db_rs.Base.Text.Cut.{
  strip_prefix, EndsOutside, trim_start_matches_run, trim_start_matches_fixed,
}
use iceberg_db_rs.ResolvedPaths.{
  is_slash, forward, file_uri_to_local_path, resolve_trimmed, resolve_path,
}
use iceberg_db_rs.Base.Text.Trimmed.{EndsOutside-append}
use iceberg_db_rs.ResolvedPaths.Resolution.{resolve_path_lem}

module _ (slashes : Text) (c : ℕ) (s : Text) where
  abbrev file_uri : Text
  file_uri = codes "file:" ++ (slashes ++ (c ∷ s))

  file_uri_local :
      All (λ d. is_slash d ≡ true) slashes
      → is_slash c ≡ false
      → file_uri_to_local_path file_uri ≡ some (forward (c ∷ s))
  unfolding file_uri_to_local_path strip_prefix
  file_uri_local run first = rw (
    trim_start_matches_run is_slash slashes (c ∷ s) run,
    trim_start_matches_fixed is_slash (c ∷ s) first,
  )

  -- A file URI of any number of slashes resolves to what follows the slashes: an absolute path of
  -- a Unix system loses its leading slash.
  pub resolve_path-file_uri :
      (base : Text)
      → All (λ d. is_slash d ≡ true) slashes
      → is_slash c ≡ false
      → EndsOutside is_whitespace (c ∷ s)
      → resolve_path base file_uri ≡ forward (c ∷ s)
  unfolding resolve_trimmed is_whitespace
  resolve_path-file_uri base run first ends =
      resolve_path_lem base b'f' (codes "ile:" ++ (slashes ++ (c ∷ s))) (record {
        starts = refl;
        ends = EndsOutside-append is_whitespace (codes "file:" ++ slashes) c s ends;
      })
      ∙ rw (file_uri_local run first, resolve_trimmed)
