-- ===== src/Base/Text/Cut.antt =====
-- `str` methods that cut text: trimming, prefixes, splitting at a character.
use Prim.Native.Nat.{ℕ, ◌+◌}
use mathlib.Core.Path.{◌≡◌, refl}
use mathlib.Core.Bool.{Bool, true, false, ◌&&◌, ◌||◌}
use mathlib.Core.List.{[], ◌∷◌, ◌++◌}
use mathlib.Core.Option
use mathlib.Core.Option.{Option, none, some}
use native.Mathlib.Omega.{arith}
use iceberg_db_rs.Base.Tests.{ltb, ◌==◌, ==_self, if◌then◌else◌}
use iceberg_db_rs.Base.Lists.{All}
use iceberg_db_rs.Base.Text.{Text}
use iceberg_db_rs.Base.Text.Chars.{is_whitespace}

-- `trim_start_matches` and `trim_end_matches`.
unfoldable pub trim_start_matches : (ℕ → Bool) → Text → Text
trim_start_matches p [] = []
trim_start_matches p (c ∷ s) = if p c then trim_start_matches p s else c ∷ s

abbrev pub push_unless : (ℕ → Bool) → ℕ → Text → Text
push_unless p c [] = if p c then [] else c ∷ []
push_unless p c (d ∷ s) = c ∷ d ∷ s

unfoldable pub trim_end_matches : (ℕ → Bool) → Text → Text
trim_end_matches p [] = []
trim_end_matches p (c ∷ s) = push_unless p c (trim_end_matches p s)

unfoldable pub trim : Text → Text
trim s = trim_end_matches is_whitespace (trim_start_matches is_whitespace s)

unfoldable pub strip_prefix : Text → Text → Option Text
strip_prefix [] s = some s
strip_prefix (c ∷ p) [] = none
strip_prefix (c ∷ p) (d ∷ s) = if c == d then strip_prefix p s else none

unfoldable pub starts_with : Text → Text → Bool
starts_with [] s = true
starts_with (c ∷ p) [] = false
starts_with (c ∷ p) (d ∷ s) = (c == d) && starts_with p s

-- `contains` of a text.
unfoldable pub contains : Text → Text → Bool
unfolding starts_with
contains p [] = starts_with p []
contains p (c ∷ s) = starts_with p (c ∷ s) || contains p s

-- No character of the text passes the test.
abbrev pub NoneOf : (ℕ → Bool) → Text → Type 0
NoneOf p = All (λ c. p c ≡ false)

abbrev pub EndsOutside : (ℕ → Bool) → Text → Type 0
EndsOutside p [] = Unit
EndsOutside p (c ∷ []) = p c ≡ false
EndsOutside p (c ∷ d ∷ s) = EndsOutside p (d ∷ s)

abbrev pub StartsOutside : (ℕ → Bool) → Text → Type 0
StartsOutside p [] = Unit
StartsOutside p (c ∷ s) = p c ≡ false

pub trim_start_matches_fixed :
    (p : ℕ → Bool) (s : Text) → StartsOutside p s → trim_start_matches p s ≡ s
unfolding trim_start_matches
trim_start_matches_fixed p [] h = refl
trim_start_matches_fixed p (c ∷ s) h = rw h

pub trim_end_matches_fixed : (p : ℕ → Bool) (s : Text) → EndsOutside p s → trim_end_matches p s ≡ s
unfolding trim_end_matches
trim_end_matches_fixed p [] h = refl
trim_end_matches_fixed p (c ∷ []) h = rw h
trim_end_matches_fixed p (c ∷ d ∷ s) h = rw (trim_end_matches_fixed p (d ∷ s) h)

-- A run of characters that pass the test is cut from the start.
pub trim_start_matches_run :
    (p : ℕ → Bool) (r s : Text)
    → All (λ c. p c ≡ true) r
    → trim_start_matches p (r ++ s) ≡ trim_start_matches p s
unfolding trim_start_matches
trim_start_matches_run p [] s h = refl
trim_start_matches_run p (c ∷ r) s h = rw h.0 (trim_start_matches_run p r s h.1)

pub trim_end_matches_run :
    (p : ℕ → Bool) (r : Text) → All (λ c. p c ≡ true) r → trim_end_matches p r ≡ []
unfolding trim_end_matches
trim_end_matches_run p [] h = refl
trim_end_matches_run p (c ∷ r) h = rw (trim_end_matches_run p r h.1, h.0)

pub trim_end_matches-append :
    (p : ℕ → Bool) (s r : Text)
    → EndsOutside p s
    → All (λ c. p c ≡ true) r
    → trim_end_matches p (s ++ r) ≡ s
unfolding trim_end_matches
trim_end_matches-append p [] r h k = trim_end_matches_run p r k
trim_end_matches-append p (c ∷ []) r h k = rw (trim_end_matches_run p r k, h)
trim_end_matches-append p (c ∷ d ∷ s) r h k = rw (trim_end_matches-append p (d ∷ s) r h k)

pub strip_prefix-append : (p s : Text) → strip_prefix p (p ++ s) ≡ some s
unfolding strip_prefix
strip_prefix-append [] s = refl
strip_prefix-append (c ∷ p) s = rw (==_self c) (strip_prefix-append p s)

-- `contains` of a character.
unfoldable pub has_char : ℕ → Text → Bool
has_char c [] = false
has_char c (d ∷ s) = (d == c) || has_char c s

unfoldable pub ends_with_char : ℕ → Text → Bool
ends_with_char c [] = false
ends_with_char c (d ∷ []) = d == c
ends_with_char c (d ∷ e ∷ s) = ends_with_char c (e ∷ s)

-- `split_once(c)`: what stands before the first `c` and what stands after it.
unfoldable pub split_once : ℕ → Text → Option (Text × Text)
split_once c [] = none
split_once c (d ∷ s) =
    if d == c then some ([], s) else Option.map (λ r. (d ∷ r.0, r.1)) (split_once c s)

-- `str::len`: the bytes of the text in UTF-8.
abbrev pub char_bytes : ℕ → ℕ
char_bytes c = if ltb c 0x80 then 1 else if ltb c 0x800 then 2 else if ltb c 0x10000 then 3 else 4

unfoldable pub byte_length : Text → ℕ
byte_length [] = 0
byte_length (c ∷ s) = char_bytes c + byte_length s

pub has_char-append : (c : ℕ) (s t : Text) → has_char c (s ++ t) ≡ (has_char c s || has_char c t)
unfolding has_char
has_char-append c [] t = refl
has_char-append c (d ∷ s) t = ground (arith, has_char-append c s t)

pub starts_with-append : (p s : Text) → starts_with p (p ++ s) ≡ true
unfolding starts_with
starts_with-append [] s = refl
starts_with-append (c ∷ p) s = rw (==_self c) (starts_with-append p s)

pub contains-append : (p r s : Text) → contains p (r ++ (p ++ s)) ≡ true
unfolding contains
contains-append [] [] [] = refl
contains-append [] [] (c ∷ s) = refl
contains-append (c ∷ p) [] s = ground (arith, starts_with-append (c ∷ p) s)
contains-append p (d ∷ r) s = ground (arith, contains-append p r s)
