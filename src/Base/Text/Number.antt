-- ===== src/Base/Text/Number.antt =====
-- `str::parse` of an unsigned number, and the suffix of a text.
use Prim.Native.Nat.{ℕ, ◌+◌, ◌-◌, ◌*◌}
use mathlib.Core.Bool.{◌&&◌}
use mathlib.Core.List.{[], ◌∷◌}
use mathlib.Core.Option
use mathlib.Core.Option.{Option, none, some}
use iceberg_db_rs.Base.Tests.{ltb, leb, ◌==◌, if◌then◌else◌}
use iceberg_db_rs.Base.Text.{Text, text_eq}

-- Digits of a number below the limit.
unfoldable pub parse_digits : ℕ → Text → ℕ → Option ℕ
parse_digits limit [] n = some n
parse_digits limit (c ∷ s) n =
    let next = n * 10 + (c - b'0') in
    let rest = parse_digits limit s next in
    if leb b'0' c && leb c b'9' && ltb next limit then rest else none

abbrev pub parse_nonempty : ℕ → Text → Option ℕ
parse_nonempty limit [] = none
parse_nonempty limit (c ∷ s) = parse_digits limit (c ∷ s) 0

-- At least one digit, after a plus sign or not.
unfoldable pub parse_unsigned : ℕ → Text → Option ℕ
unfolding parse_digits
parse_unsigned limit [] = none
parse_unsigned limit (c ∷ s) =
    if c == b'+' then parse_nonempty limit s else parse_nonempty limit (c ∷ s)

unfoldable pub strip_suffix : Text → Text → Option Text
strip_suffix p [] = if text_eq [] p then some [] else none
strip_suffix p (c ∷ s) =
    let rest = strip_suffix p s in
    if text_eq (c ∷ s) p then some [] else Option.map (λ r. c ∷ r) rest
