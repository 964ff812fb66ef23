-- ===== src/ByteCache/Chunks.antt =====
-- `CachedChunk` and `PathByteCache` of byte_cache/mod.rs: the chunks cached for one path and one
-- credential, in the order in which they came.
pub mod Lookup
pub mod Sizes
pub mod Full
use mathlib.Core.Option
use iceberg_db_rs.Base.{
  ℕ, ◌+◌, ◌-◌, ◌≤◌, ◌<◌, ◌%◌, ◌≡◌, ap, ◌∙◌, sym, ◌&&◌, refl, ◌⊎◌, inl, inr, Bool, true, false,
  Option, none, some, List, [], ◌∷◌, ◌++◌, map, Bool-cases, ==_iff, arith, leb, ◌==◌, if◌then◌else◌,
  length, take, drop, All, add32, word32_mod, Outcome, ok, ◌>>=◌,
}
use iceberg_db_rs.QueryIo.{Target}
use iceberg_db_rs.ByteCache.Range.{
  Bytes, Range, ByteCacheKey, range_eq, range_eq_sound, slice_cached_range, IsRange, window, covers,
  slice_cached_range_lem, window-window,
}

pub record CachedChunk : Type 0 where
  pub range : Range
  pub bytes : Bytes

abbrev pub PathByteCache : Type 0
PathByteCache = List CachedChunk

abbrev pub or_else : Option Bytes → Outcome (Option Bytes) → Outcome (Option Bytes)
or_else none next = next
or_else (some b) next = ok (some b)

unfoldable pub find_range : Target → PathByteCache → Range → Outcome (Option Bytes)
find_range target [] want = ok none
find_range target (c ∷ cs) want = do
  slice ← slice_cached_range target c.range c.bytes want
  or_else slice (find_range target cs want)

-- `filter(start == 0)` and `max_by_key(end)`: of equal keys the last chunk wins.
abbrev pub longer : Option CachedChunk → CachedChunk → Option CachedChunk
longer none c = if c.range.start == 0 then some c else none
longer (some b) c = if (c.range.start == 0) && leb b.range.end c.range.end then some c else some b

unfoldable pub longest_from_zero : Option CachedChunk → PathByteCache → Option CachedChunk
longest_from_zero best [] = best
longest_from_zero best (c ∷ cs) = longest_from_zero (longer best c) cs

unfoldable pub find_full_object : PathByteCache → Option Bytes
unfolding longest_from_zero
find_full_object cs = Option.map (λ c. c.bytes) (longest_from_zero none cs)

-- The chunks after an insertion, and the length of the bytes that it replaced.
unfoldable pub replace_or_push : PathByteCache → Range → Bytes → PathByteCache × Option ℕ
replace_or_push [] range b = (record { range = range; bytes = b } ∷ [], none)
replace_or_push (c ∷ cs) range b =
    let (cs', replaced) = replace_or_push cs range b in
    if range_eq c.range range
    then (record c { bytes = b } ∷ cs, some (length c.bytes))
    else (c ∷ cs', replaced)

unfoldable pub insert : PathByteCache → ByteCacheKey → Bytes → PathByteCache × Option ℕ
unfolding replace_or_push
insert cs key [] = (cs, none)
insert cs key (x ∷ b) = replace_or_push cs key.range (x ∷ b)

unfoldable pub sum_lengths : ℕ → PathByteCache → ℕ
sum_lengths acc [] = acc
sum_lengths acc (c ∷ cs) = sum_lengths (add32 acc (length c.bytes)) cs

unfoldable pub bytes_used : PathByteCache → ℕ
unfolding sum_lengths
bytes_used = sum_lengths 0

-- A chunk that holds the bytes of an object at its range.
pub record IsChunkOf (object : Bytes) (c : CachedChunk) : Type 0 where
  pub ordered : c.range.start ≤ c.range.end
  pub content : c.bytes ≡ window c.range object

abbrev pub ChunksOf : Bytes → PathByteCache → Type 0
ChunksOf object = All (IsChunkOf object)

-- The bytes held, without wrap-around.
abbrev pub held : PathByteCache → ℕ
held [] = 0
held (c ∷ cs) = length c.bytes + held cs
