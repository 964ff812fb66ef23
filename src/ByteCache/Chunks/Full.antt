-- ===== src/ByteCache/Chunks/Full.antt =====
-- The full-object lookup: which prefix of the object it gives.
use mathlib.Core.Option
use iceberg_db_rs.Base.{
  ℕ, ◌-◌, ◌≡◌, ap, ◌∙◌, ◌&&◌, refl, inl, inr, true, Option, none, some, [], ◌∷◌, Bool-cases, ==_iff,
  arith, leb, ◌==◌, if◌then◌else◌, take, drop,
}
use iceberg_db_rs.ByteCache.Range.{Bytes, Range, window}
use iceberg_db_rs.ByteCache.Chunks.{
  CachedChunk, PathByteCache, longer, longest_from_zero, find_full_object, IsChunkOf, ChunksOf,
}

-- The furthest end of the chunks from offset 0.
abbrev pub further : Option ℕ → CachedChunk → Option ℕ
further none c = if c.range.start == 0 then some c.range.end else none
further (some n) c = if (c.range.start == 0) && leb n c.range.end then some c.range.end else some n

abbrev pub reach : Option ℕ → PathByteCache → Option ℕ
reach best [] = best
reach best (c ∷ cs) = reach (further best c) cs

abbrev HoldsPrefix : Bytes → Option CachedChunk → Type 0
HoldsPrefix object none = Unit
HoldsPrefix object (some c) = c.bytes ≡ take c.range.end object

prefix_of_window :
    (object : Bytes) (r : Range) → (r.start == 0) ≡ true → window r object ≡ take r.end object
prefix_of_window object r h =
    ap (λ n. take (r.end - n) (drop n object)) ((==_iff r.start 0).0 h)
    ∙ ap (λ n. take n object) (omega arith)

longer-HoldsPrefix :
    (object : Bytes) (best : Option CachedChunk) (c : CachedChunk)
    → HoldsPrefix object best
    → IsChunkOf object c
    → HoldsPrefix object (longer best c)
longer-HoldsPrefix object none c p h = elim (Bool-cases (c.range.start == 0)) [
  | inl first ↦ rw first (h.content ∙ prefix_of_window object c.range first)
  | inr other ↦ rw other tt
]
longer-HoldsPrefix object (some b) c p h =
    elim (Bool-cases ((c.range.start == 0) && leb b.range.end c.range.end)) [
      | inl first ↦ rw first (h.content ∙ prefix_of_window object c.range (ground arith))
      | inr other ↦ rw other p
    ]

map-longer :
    (best : Option CachedChunk) (c : CachedChunk)
    → Option.map (λ b. b.range.end) (longer best c) ≡ further (Option.map (λ b. b.range.end) best) c
map-longer none c = ground arith
map-longer (some b) c = ground arith

longest_from_zero_lem :
    (object : Bytes) (best : Option CachedChunk) (cs : PathByteCache)
    → HoldsPrefix object best
    → ChunksOf object cs
    → Option.map (λ c. c.bytes) (longest_from_zero best cs)
      ≡ Option.map (λ n. take n object) (reach (Option.map (λ c. c.range.end) best) cs)
unfolding longest_from_zero
longest_from_zero_lem object none [] p h = refl
longest_from_zero_lem object (some b) [] p h = ap some p
longest_from_zero_lem object best (c ∷ cs) p h =
    longest_from_zero_lem object (longer best c) cs (longer-HoldsPrefix object best c p h.0) h.1
    ∙ ap (λ r. Option.map (λ n. take n object) (reach r cs)) (map-longer best c)

-- The full-object lookup gives the prefix of the object up to the furthest end of a chunk from 0.
pub find_full_object_lem :
    (object : Bytes) (cs : PathByteCache)
    → ChunksOf object cs
    → find_full_object cs ≡ Option.map (λ n. take n object) (reach none cs)
unfolding find_full_object
find_full_object_lem object cs h = longest_from_zero_lem object none cs tt h
