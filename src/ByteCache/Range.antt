-- ===== src/ByteCache/Range.antt =====
-- Byte ranges and cache keys of byte_cache/mod.rs, and the cut of a cached range. A `usize` has 32
-- bits in the browser and 64 in a native build.
use iceberg_db_rs.Base.{
  ℕ, ◌+◌, ◌-◌, ◌%◌, ◌^◌, ◌≤◌, ◌<◌, ◌≡◌, ap, true, ◌∙◌, Bool, ◌&&◌, Option, none, some, List, arith,
  leb, ◌==◌, if◌then◌else◌, length, take, drop, sub64, word_mod, sub64_exact, Outcome, ok, panic,
  ◌>>=◌, drop-drop, take-drop-take,
}
use iceberg_db_rs.Base.Text.{Text}
use iceberg_db_rs.QueryIo.{Target, native, wasm32}

abbrev pub Bytes : Type 0
Bytes = List ℕ

pub record Range : Type 0 where
  pub start : ℕ
  pub end : ℕ

pub record ByteCacheKey : Type 0 where
  pub path : Text
  pub range : Range
  pub cred_fingerprint : ℕ

abbrev pub range_eq : Range → Range → Bool
range_eq a b = (a.start == b.start) && (a.end == b.end)

pub range_eq_sound : (a b : Range) → range_eq a b ≡ true → a ≡ b
range_eq_sound a b h = ground arith

-- `Bytes::slice(begin..end)` panics unless `begin <= end <= len`.
unfoldable pub slice : Bytes → ℕ → ℕ → Outcome Bytes
slice b begin end =
    if leb begin end && leb end (length b) then ok (take (end - begin) (drop begin b)) else panic

abbrev pub usize_mod : Target → ℕ
usize_mod native = 2 ^ 64
usize_mod wasm32 = 2 ^ 32

-- `as usize`, and a sum that wraps.
unfoldable pub as_usize : Target → ℕ → ℕ
as_usize target n = n % usize_mod target

as_usize_exact : (target : Target) (n : ℕ) → n < usize_mod target → as_usize target n ≡ n
unfolding as_usize
as_usize_exact native n h = omega arith
as_usize_exact wasm32 n h = omega arith

usize_mod_le : (target : Target) → usize_mod target ≤ word_mod
usize_mod_le native = omega arith
usize_mod_le wasm32 = omega arith

unfoldable pub slice_cached_range : Target → Range → Bytes → Range → Outcome (Option Bytes)
unfolding slice as_usize
slice_cached_range target cached b want =
    let start = as_usize target (sub64 want.start cached.start) in
    let len = as_usize target (sub64 want.end want.start) in
    let stop = as_usize target (start + len) in
    if leb cached.start want.start && leb want.end cached.end
    then if leb stop (length b) then (do s ← slice b start stop; ok (some s)) else ok none
    else ok none

-- A range that a reader may ask for.
pub record IsRange (target : Target) (r : Range) : Type 0 where
  pub ordered : r.start ≤ r.end
  pub word : r.end < usize_mod target

-- The bytes of an object that lie in a range.
abbrev pub window : Range → Bytes → Bytes
window r object = take (r.end - r.start) (drop r.start object)

-- Whether a chunk can serve a range.
abbrev pub covers : Range → Bytes → Range → Bool
covers cached b want =
    (leb cached.start want.start && leb want.end cached.end)
    && leb (want.end - cached.start) (length b)

pub slice_cached_range_lem :
    (target : Target) (cached : Range) (b : Bytes) (want : Range)
    → IsRange target want
    → slice_cached_range target cached b want
      ≡ ok (
          if covers cached b want
          then some (take (want.end - want.start) (drop (want.start - cached.start) b))
          else none)
unfolding slice_cached_range
slice_cached_range_lem target cached b want h = ground (
  arith,
  h.ordered,
  h.word,
  usize_mod_le target,
  sub64_exact want.start cached.start,
  sub64_exact want.end want.start,
  as_usize_exact target (want.start - cached.start),
  as_usize_exact target (want.end - want.start),
  as_usize_exact target ((want.start - cached.start) + (want.end - want.start)),
)

-- A window of a window is a window of the object.
pub window-window :
    (cached want : Range) (object : Bytes)
    → cached.start ≤ want.start
    → want.end ≤ cached.end
    → want.start ≤ want.end
    → take (want.end - want.start) (drop (want.start - cached.start) (window cached object))
      ≡ window want object
window-window cached want object low high ordered =
    take-drop-take (want.end - want.start) (want.start - cached.start) (cached.end - cached.start)
      (drop cached.start object) (omega arith)
    ∙ (rw drop-drop (ap (λ n. take (want.end - want.start) (drop n object)) (omega arith)))
