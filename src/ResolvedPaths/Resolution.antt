-- ===== src/ResolvedPaths/Resolution.antt =====
-- What a resolved path looks like, and which paths do not depend on the table's location.
use iceberg_db_rs.Base.{
  ◌≡◌, ℕ, ◌≢◌, subst, inl, inr, ◌||◌, Bool-cases, Option-cases, [], ◌∷◌, All, All-append, AllSome,
  arith,
}
use iceberg_db_rs.Base.Text.{Text, codes}
use iceberg_db_rs.Base.Text.Cut.{trim, trim_start_matches, trim_end_matches, strip_prefix, contains}
use iceberg_db_rs.ResolvedPaths.{
  is_slash, forward, is_absolute_path, unless_empty, file_uri_to_local_path, join, resolve_trimmed,
  resolve_path,
}
use iceberg_db_rs.Base.Text.Trimmed.{IsTrimmed, trim-IsTrimmed}

-- A trimmed path that is not empty.
pub resolve_path_lem :
    (base : Text) (c : ℕ) (s : Text)
    → IsTrimmed (c ∷ s)
    → resolve_path base (c ∷ s) ≡ resolve_trimmed base (c ∷ s)
unfolding resolve_path
resolve_path_lem base c s h = rw (trim-IsTrimmed (c ∷ s) h, resolve_path)

abbrev pub HasNoBackslash : Text → Type 0
HasNoBackslash = All (λ c. c ≢ 0x5c)

pub forward-HasNoBackslash : (s : Text) → HasNoBackslash (forward s)
forward-HasNoBackslash [] = tt
forward-HasNoBackslash (c ∷ s) = (ground arith, forward-HasNoBackslash s)

unless_empty-HasNoBackslash :
    (s : Text) → HasNoBackslash s → AllSome HasNoBackslash (unless_empty s)
unless_empty-HasNoBackslash [] h = tt
unless_empty-HasNoBackslash (c ∷ s) h = h

file_uri-HasNoBackslash : (path : Text) → AllSome HasNoBackslash (file_uri_to_local_path path)
unfolding file_uri_to_local_path
file_uri-HasNoBackslash path = elim (Option-cases (strip_prefix (codes "file:") path)) [
  | inl other ↦ rw (other, file_uri_to_local_path) tt
  | inr (rest, uri) ↦
      rw (uri, file_uri_to_local_path) (unless_empty-HasNoBackslash _ (forward-HasNoBackslash _))
]

pub join-HasNoBackslash : (base path : Text) → HasNoBackslash (join base path)
join-HasNoBackslash base path =
    All-append (λ c. c ≢ 0x5c) _ _ (forward-HasNoBackslash (trim_end_matches is_slash base))
      (omega arith, forward-HasNoBackslash (trim_start_matches is_slash path))

pub resolve_trimmed-HasNoBackslash : (base path : Text) → HasNoBackslash (resolve_trimmed base path)
unfolding resolve_trimmed
resolve_trimmed-HasNoBackslash base path = elim (Option-cases (file_uri_to_local_path path)) [
  | inr (local, uri) ↦
      rw (uri, resolve_trimmed) (subst (AllSome HasNoBackslash) uri (file_uri-HasNoBackslash path))
  | inl other ↦ elim (Bool-cases (contains (codes "://") path || is_absolute_path path)) [
    | inl absolute ↦ rw (other, absolute, resolve_trimmed) (forward-HasNoBackslash path)
    | inr relative ↦ rw (other, relative, resolve_trimmed) (join-HasNoBackslash base path)
  ]
]

-- A resolved path has no backslash, whatever the location and the path.
pub resolve_path-HasNoBackslash : (base path : Text) → HasNoBackslash (resolve_path base path)
unfolding resolve_path
resolve_path-HasNoBackslash base path = go (trim path)
  where
    go : (s : Text) → HasNoBackslash (elim s [ [] ↦ [] | c ∷ r ↦ resolve_trimmed base (c ∷ r) ])
    go [] = tt
    go (c ∷ r) = resolve_trimmed-HasNoBackslash base (c ∷ r)
