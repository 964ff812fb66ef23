-- ===== src/ResolvedPaths/Forward.antt =====
-- What the replacement of backslashes keeps of a path.
use mathlib.Core.Option
use iceberg_db_rs.Base.{
  ℕ, ◌≡◌, ◌≢◌, refl, ◌∙◌, inl, inr, true, ◌||◌, Bool-cases, Option, none, some, [], ◌∷◌, ◌==◌,
  if◌then◌else◌, All, arith,
}
use iceberg_db_rs.Base.Text.{Text, codes}
use iceberg_db_rs.Base.Text.Chars.{is_whitespace}
use iceberg_db_rs.Base.Text.Cut.{
  trim_start_matches, strip_prefix, starts_with, contains, EndsOutside,
}
use iceberg_db_rs.ResolvedPaths.{
  is_slash, forward, is_absolute_path, unless_empty, file_uri_to_local_path,
}
use iceberg_db_rs.Base.Text.Trimmed.{IsTrimmed}
use iceberg_db_rs.ResolvedPaths.Resolution.{HasNoBackslash}

abbrev forward_char : ℕ → ℕ
forward_char c = if c == 0x5c then b'/' else c

pub is_whitespace-forward : (c : ℕ) → is_whitespace (forward_char c) ≡ is_whitespace c
unfolding is_whitespace
is_whitespace-forward c = ground arith

pub EndsOutside-forward :
    (s : Text) → EndsOutside is_whitespace s → EndsOutside is_whitespace (forward s)
EndsOutside-forward [] h = tt
EndsOutside-forward (c ∷ []) h = is_whitespace-forward c ∙ h
EndsOutside-forward (c ∷ d ∷ s) h = EndsOutside-forward (d ∷ s) h

pub forward-IsTrimmed : (s : Text) → IsTrimmed s → IsTrimmed (forward s)
forward-IsTrimmed [] h = record { starts = tt; ends = tt }
forward-IsTrimmed (c ∷ s) h = record {
  starts = is_whitespace-forward c ∙ h.starts;
  ends = EndsOutside-forward (c ∷ s) h.ends;
}

-- A text with no backslash occurs still after the change of backslashes.
pub starts_with-forward :
    (p s : Text) → HasNoBackslash p → starts_with p s ≡ true → starts_with p (forward s) ≡ true
unfolding starts_with
starts_with-forward [] s e h = refl
starts_with-forward (c ∷ p) [] e h = cc
starts_with-forward (c ∷ p) (d ∷ s) e h = ground (arith, e.0, starts_with-forward p s e.1)

pub contains-forward :
    (p s : Text) → HasNoBackslash p → contains p s ≡ true → contains p (forward s) ≡ true
unfolding contains
contains-forward p [] e h = starts_with-forward p [] e h
contains-forward p (c ∷ s) e h = elim (Bool-cases (starts_with p (c ∷ s))) [
  | inl here ↦ rw (starts_with-forward p (c ∷ s) e here) refl
  | inr later ↦ ground (arith, contains-forward p s e)
]

pub is_absolute-forward :
    (s : Text) → is_absolute_path s ≡ true → is_absolute_path (forward s) ≡ true
unfolding is_absolute_path starts_with
is_absolute-forward [] h = h
is_absolute-forward (c ∷ []) h = ground arith
is_absolute-forward (c ∷ d ∷ s) h = ground arith

-- An absolute path is no file URI.
pub file_uri-absolute : (s : Text) → is_absolute_path s ≡ true → file_uri_to_local_path s ≡ none
unfolding is_absolute_path starts_with file_uri_to_local_path strip_prefix
file_uri-absolute [] h = cc
file_uri-absolute (c ∷ []) h = ground arith
file_uri-absolute (c ∷ d ∷ s) h = ground arith

pub strip_prefix-forward :
    (p s : Text)
    → All (λ c. (c ≢ 0x5c) × (c ≢ b'/')) p
    → strip_prefix p (forward s) ≡ Option.map forward (strip_prefix p s)
unfolding strip_prefix
strip_prefix-forward [] s h = refl
strip_prefix-forward (c ∷ p) [] h = refl
strip_prefix-forward (c ∷ p) (d ∷ s) h = ground (arith, h.0, strip_prefix-forward p s h.1)

-- A text that is all slashes.
pub forward_slashes : (r : Text) → trim_start_matches is_slash r ≡ [] → forward r ≡ r
unfolding trim_start_matches
forward_slashes [] h = refl
forward_slashes (c ∷ r) h = ground (arith, forward_slashes r)

pub file_uri-forward :
    (s : Text) → file_uri_to_local_path s ≡ none → file_uri_to_local_path (forward s) ≡ none
unfolding file_uri_to_local_path
file_uri-forward s h =
    rw (strip_prefix-forward (codes "file:") s (omega arith), file_uri_to_local_path)
      (go (strip_prefix (codes "file:") s) h)
  where
    empty_only : (r : Text) → unless_empty (forward r) ≡ none → r ≡ []
    empty_only [] e = refl
    empty_only (c ∷ r) e = cc

    go :
        (o : Option Text)
        → (elim o [
          | none ↦ none
          | some rest ↦ unless_empty (forward (trim_start_matches is_slash rest))
        ])
          ≡ none
        → (elim (Option.map forward o) [
          | none ↦ none
          | some rest ↦ unless_empty (forward (trim_start_matches is_slash rest))
        ])
          ≡ none
    go none e = refl
    go (some rest) e = rw (forward_slashes rest (empty_only (trim_start_matches is_slash rest) e)) e

pub absolute-forward :
    (s : Text)
    → (contains (codes "://") s || is_absolute_path s) ≡ true
    → (contains (codes "://") (forward s) || is_absolute_path (forward s)) ≡ true
absolute-forward s h = elim (Bool-cases (contains (codes "://") s)) [
  | inl uri ↦ rw (contains-forward (codes "://") s (omega arith) uri) refl
  | inr path ↦ ground (arith, is_absolute-forward s)
]
