-- ===== src/ByteCache/Chunks/Lookup.antt =====
-- Lookups in the chunks of one object: what they find, and that a stored range is found.
use iceberg_db_rs.Base.{
  ℕ, ◌-◌, ◌≡◌, ap, ◌∙◌, sym, refl, ◌⊎◌, inl, inr, true, none, some, [], ◌∷◌, Bool-cases, arith,
  if◌then◌else◌, take, drop, ok,
}
use iceberg_db_rs.QueryIo.{Target}
use iceberg_db_rs.ByteCache.Range.{
  Bytes, Range, ByteCacheKey, range_eq, range_eq_sound, slice_cached_range, IsRange, window, covers,
  slice_cached_range_lem, window-window,
}
use iceberg_db_rs.ByteCache.Chunks.{
  CachedChunk, PathByteCache, find_range, insert, replace_or_push, IsChunkOf, ChunksOf,
}

module _ (target : Target) (want : Range) (valid : IsRange target want) where
  -- A chunk of an object serves a range that it covers with the object's bytes.
  chunk_serves :
      (object : Bytes) (c : CachedChunk)
      → IsChunkOf object c
      → slice_cached_range target c.range c.bytes want
        ≡ ok (if covers c.range c.bytes want then some (window want object) else none)
  chunk_serves object c h = rw (slice_cached_range_lem target c.range c.bytes want valid) (
      ground (
        arith,
        ap (λ b. take (want.end - want.start) (drop (want.start - c.range.start) b)) h.content,
        window-window c.range want object,
      ))

  -- On chunks of an object a lookup does not panic, and what it finds are the object's bytes.
  pub find_range_sound :
      (object : Bytes) (cs : PathByteCache)
      → ChunksOf object cs
      → (find_range target cs want ≡ ok none)
        ⊎ (find_range target cs want ≡ ok (some (window want object)))
  unfolding find_range
  find_range_sound object [] h = inl refl
  find_range_sound object (c ∷ cs) h =
      ground (arith, chunk_serves object c h.0, find_range_sound object cs h.1)

  -- After a chunk that covers the range was stored, every lookup inside it is a hit.
  pub find_range-replace_or_push :
      (object : Bytes) (cs : PathByteCache) (range : Range) (b : Bytes)
      → ChunksOf object cs
      → IsChunkOf object (record { range = range; bytes = b })
      → covers range b want ≡ true
      → find_range target (replace_or_push cs range b).0 want ≡ ok (some (window want object))
  unfolding find_range replace_or_push
  find_range-replace_or_push object [] range b h new wide =
      ground (arith, chunk_serves object (record { range = range; bytes = b }) new)
  find_range-replace_or_push object (c ∷ cs) range b h new wide = ground (
    arith,
    chunk_serves object (record { range = range; bytes = b }) new,
    chunk_serves object c h.0,
    find_range-replace_or_push object cs range b h.1 new wide,
  )

pub replace_or_push-ChunksOf :
    (object : Bytes) (cs : PathByteCache) (range : Range) (b : Bytes)
    → ChunksOf object cs
    → IsChunkOf object (record { range = range; bytes = b })
    → ChunksOf object (replace_or_push cs range b).0
unfolding replace_or_push
replace_or_push-ChunksOf object [] range b h new = (new, tt)
replace_or_push-ChunksOf object (c ∷ cs) range b h new =
    elim (Bool-cases (range_eq c.range range)) [
      | inl same ↦ rw same (
        record {
          ordered = h.0.ordered;
          content =
              new.content
              ∙ ap (λ (r : Range). window r object) (sym (range_eq_sound c.range range same));
        },
        h.1,
      )
      | inr other ↦ rw other (h.0, replace_or_push-ChunksOf object cs range b h.1 new)
    ]

pub insert-ChunksOf :
    (object : Bytes) (cs : PathByteCache) (key : ByteCacheKey) (b : Bytes)
    → ChunksOf object cs
    → IsChunkOf object (record { range = key.range; bytes = b })
    → ChunksOf object (insert cs key b).0
unfolding insert
insert-ChunksOf object cs key [] h new = h
insert-ChunksOf object cs key (x ∷ b) h new =
    replace_or_push-ChunksOf object cs key.range (x ∷ b) h new

-- The same of a nonempty insertion.
pub find_range-insert :
    (target : Target) (want : Range) (object : Bytes) (cs : PathByteCache) (key : ByteCacheKey)
    (x : ℕ) (b : Bytes)
    → IsRange target want
    → ChunksOf object cs
    → IsChunkOf object (record { range = key.range; bytes = x ∷ b })
    → covers key.range (x ∷ b) want ≡ true
    → find_range target (insert cs key (x ∷ b)).0 want ≡ ok (some (window want object))
unfolding insert
find_range-insert target want object cs key x b valid h new wide =
    find_range-replace_or_push target want valid object cs key.range (x ∷ b) h new wide
