-- ===== src/ResolvedPaths/Idempotent.antt =====
-- A path that was resolved resolves to itself.

use iceberg_db_rs.Base.{
  ℕ, ◌≡◌, refl, ◌∙◌, inl, inr, true, false, ◌||◌, Bool-cases, none, [], ◌∷◌, ◌++◌, arith,
}
use iceberg_db_rs.Base.Text.{Text, codes}
use iceberg_db_rs.Base.Text.Chars.{is_whitespace}
use iceberg_db_rs.Base.Text.Cut.{
  trim, trim_start_matches, trim_end_matches, starts_with, contains, StartsOutside,
  trim_start_matches_fixed, push_unless,
}
use iceberg_db_rs.ResolvedPaths.{
  is_slash, forward, is_absolute_path, file_uri_to_local_path, join, resolve_trimmed, resolve_path,
}
use iceberg_db_rs.Base.Text.Trimmed.{IsTrimmed, EndsOutside-append}
use iceberg_db_rs.ResolvedPaths.Resolution.{resolve_path_lem}
use iceberg_db_rs.ResolvedPaths.Resolution.{
  HasNoBackslash, forward-HasNoBackslash, join-HasNoBackslash,
}
use iceberg_db_rs.ResolvedPaths.Forward.{
  is_whitespace-forward, EndsOutside-forward, forward-IsTrimmed, file_uri-absolute,
  file_uri-forward, absolute-forward,
}

pub forward_fixed : (s : Text) → HasNoBackslash s → forward s ≡ s
forward_fixed [] h = refl
forward_fixed (c ∷ s) h = ground (arith, h.0, forward_fixed s h.1)

-- A trimmed path with forward slashes that is a URI or absolute, and no file URI, resolves to itself.
resolve_path_fixed :
    (base r : Text)
    → IsTrimmed r
    → HasNoBackslash r
    → file_uri_to_local_path r ≡ none
    → (contains (codes "://") r || is_absolute_path r) ≡ true
    → resolve_path base r ≡ r
unfolding resolve_path resolve_trimmed trim trim_start_matches trim_end_matches
resolve_path_fixed base [] t n f a = refl
resolve_path_fixed base (c ∷ s) t n f a =
    resolve_path_lem base c s t ∙ rw (f, a, resolve_trimmed) (forward_fixed (c ∷ s) n)

-- The first character of a base survives the trim of trailing slashes, or the base was all slashes.
push_unless-StartsOutside :
    (c : ℕ) (b t : Text)
    → is_whitespace c ≡ false
    → StartsOutside is_whitespace (forward (push_unless is_slash c b) ++ (b'/' ∷ t))
unfolding is_whitespace
push_unless-StartsOutside c [] t h = elim (Bool-cases (is_slash c)) [
  | inl slash ↦ rw slash refl
  | inr other ↦ rw other (is_whitespace-forward c ∙ h)
]
push_unless-StartsOutside c (d ∷ b) t h = is_whitespace-forward c ∙ h

base-StartsOutside :
    (base t : Text)
    → StartsOutside is_whitespace base
    → StartsOutside is_whitespace (forward (trim_end_matches is_slash base) ++ (b'/' ∷ t))
unfolding trim_end_matches is_whitespace
base-StartsOutside [] t h = refl
base-StartsOutside (c ∷ b) t h = push_unless-StartsOutside c (trim_end_matches is_slash b) t h

base-is_absolute :
    (base t : Text)
    → is_absolute_path base ≡ true
    → is_absolute_path (forward (trim_end_matches is_slash base) ++ (b'/' ∷ t)) ≡ true
unfolding is_absolute_path trim_end_matches starts_with
base-is_absolute [] t h = cc
base-is_absolute (c ∷ []) t h = ground arith
base-is_absolute (c ∷ d ∷ b) t h = two (trim_end_matches is_slash b) h
  where
    two :
        (r : Text)
        → is_absolute_path (c ∷ d ∷ b) ≡ true
        → is_absolute_path
            (forward (push_unless is_slash c (push_unless is_slash d r)) ++ (b'/' ∷ t))
          ≡ true
    two [] a = ground arith
    two (x ∷ r) a = ground arith

module _ (base : Text) (c : ℕ) (s : Text) (t : IsTrimmed (c ∷ s)) where
  relative_first :
      (contains (codes "://") (c ∷ s) || is_absolute_path (c ∷ s)) ≡ false → is_slash c ≡ false
  unfolding is_absolute_path starts_with
  relative_first h = ground arith

  join-IsTrimmed :
      StartsOutside is_whitespace base → is_slash c ≡ false → IsTrimmed (join base (c ∷ s))
  join-IsTrimmed b first = record {
    starts = base-StartsOutside base (forward (trim_start_matches is_slash (c ∷ s))) b;
    ends =
        EndsOutside-append is_whitespace (forward (trim_end_matches is_slash base)) b'/'
          (forward (trim_start_matches is_slash (c ∷ s)))
          (rw (trim_start_matches_fixed is_slash (c ∷ s) first)
            (EndsOutside-forward (c ∷ s) t.ends));
  }

  -- For an absolute location that does not start with white space, a trimmed path that is no file URI: the resolved path resolves to
  -- itself.
  pub resolve_path_idem :
      is_absolute_path base ≡ true
      → StartsOutside is_whitespace base
      → file_uri_to_local_path (c ∷ s) ≡ none
      → resolve_path base (resolve_path base (c ∷ s)) ≡ resolve_path base (c ∷ s)
  unfolding resolve_trimmed
  resolve_path_idem a b f =
      rw (resolve_path_lem base c s t)
        (elim (Bool-cases (contains (codes "://") (c ∷ s) || is_absolute_path (c ∷ s))) [
          | inl absolute ↦
              rw (f, absolute, resolve_trimmed)
                (resolve_path_fixed base (forward (c ∷ s)) (forward-IsTrimmed (c ∷ s) t)
                  (forward-HasNoBackslash (c ∷ s)) (file_uri-forward (c ∷ s) f)
                  (absolute-forward (c ∷ s) absolute))
          | inr relative ↦
              let joined =
                base-is_absolute base (forward (trim_start_matches is_slash (c ∷ s))) a in
              rw (f, relative, resolve_trimmed)
                (resolve_path_fixed base (join base (c ∷ s))
                  (join-IsTrimmed b (relative_first relative)) (join-HasNoBackslash base (c ∷ s))
                  (file_uri-absolute (join base (c ∷ s)) joined) (ground (arith, joined)))
        ])
