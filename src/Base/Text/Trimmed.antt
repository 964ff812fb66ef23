-- ===== src/Base/Text/Trimmed.antt =====
-- Texts that trimming leaves alone, and the white space around them.
use Prim.Native.Nat.{ℕ}
use mathlib.Core.Path.{◌≡◌}
use mathlib.Core.Bool.{Bool, true}
use mathlib.Core.List.{[], ◌∷◌, ◌++◌}
use iceberg_db_rs.Base.Lists.{All}
use iceberg_db_rs.Base.Text.{Text}
use iceberg_db_rs.Base.Text.Chars.{is_whitespace}
use iceberg_db_rs.Base.Text.Cut.{
  trim, StartsOutside, EndsOutside, trim_start_matches_fixed, trim_end_matches_fixed,
  trim_start_matches_run, trim_end_matches-append,
}

-- Neither end of the text is white space.
pub record IsTrimmed (s : Text) : Type 0 where
  pub starts : StartsOutside is_whitespace s
  pub ends : EndsOutside is_whitespace s

pub trim-IsTrimmed : (s : Text) → IsTrimmed s → trim s ≡ s
unfolding trim
trim-IsTrimmed s h =
    rw (trim_start_matches_fixed is_whitespace s h.starts)
      (trim_end_matches_fixed is_whitespace s h.ends)

pub EndsOutside-append :
    (p : ℕ → Bool) (r : Text) (c : ℕ) (s : Text)
    → EndsOutside p (c ∷ s)
    → EndsOutside p (r ++ (c ∷ s))
EndsOutside-append p [] c s h = h
EndsOutside-append p (d ∷ []) c s h = h
EndsOutside-append p (d ∷ e ∷ r) c s h = EndsOutside-append p (e ∷ r) c s h

abbrev pub Spaces : Text → Type 0
Spaces = All (λ c. is_whitespace c ≡ true)

pub trim-around :
    (l : Text) (c : ℕ) (s r : Text)
    → Spaces l
    → IsTrimmed (c ∷ s)
    → Spaces r
    → trim (l ++ ((c ∷ s) ++ r)) ≡ c ∷ s
unfolding trim
trim-around l c s r a h b =
    rw
      (
        trim_start_matches_run is_whitespace l ((c ∷ s) ++ r) a,
        trim_start_matches_fixed is_whitespace ((c ∷ s) ++ r) h.starts,
      )
      (trim_end_matches-append is_whitespace (c ∷ s) r h.ends b)

pub trim-before : (l s : Text) → Spaces l → IsTrimmed s → trim (l ++ s) ≡ s
unfolding trim
trim-before l s a h = rw (trim_start_matches_run is_whitespace l s a) (trim-IsTrimmed s h)
