-- ===== src/ByteCache/Memory/Serves.antt =====
-- The in-process cache as a `ByteCacheStore`: it keeps the laws, and serves every range put.
use mathlib.Core.Option
use iceberg_db_rs.Base.{
  ℕ, ◌-◌, ◌≤◌, ◌≡◌, refl, subst, ◌⊎◌, inl, inr, Option, none, some, [], ◌∷◌, arith, length, take,
  AllSome, Option-cases, ok,
}
use iceberg_db_rs.Base.Text.{Text}
use iceberg_db_rs.QueryIo.{wasm32}
use iceberg_db_rs.ByteCache.Range.{Bytes, Range, ByteCacheKey, IsRange, window}
use iceberg_db_rs.ByteCache.Chunks.{ChunksOf}
use iceberg_db_rs.ByteCache.Chunks.Lookup.{find_range_sound, find_range-insert}
use iceberg_db_rs.ByteCache.Chunks.Full.{reach, find_full_object_lem}
use iceberg_db_rs.ByteCache.Interface.{ByteCacheStore, StoreLaws, Origin}
use iceberg_db_rs.ByteCache.Memory.{
  get_path, MapOrder, MemoryByteCache, evict_if_needed, put, get_range, get_full_object,
}
use iceberg_db_rs.ByteCache.Memory.Content.{
  MapOf, get_path-ChunksOf, evict_if_needed-MapOf, insert_path-MapOf, get_path-insert_path,
}

abbrev pub memory_store : MapOrder → ByteCacheStore MemoryByteCache
memory_store order = record {
  get_range = get_range;
  get_full_object = get_full_object;
  put = put order;
}

-- Every chunk of the cache holds the bytes of its object.
abbrev pub ServesOrigin : Origin → MemoryByteCache → Type 0
ServesOrigin origin c = MapOf origin c.by_path

module _ (origin : Origin) where
  -- On a cache of bytes of the objects, a lookup of an ordered range below 2^32, where the browser's
  -- `usize` ends, does not panic: it misses, or it gives exactly the bytes of the object in the range.
  pub get_range-window :
      (c : MemoryByteCache) (path : Text) (range : Range) (cred : ℕ)
      → ServesOrigin origin c
      → IsRange wasm32 range
      → (get_range c path range cred ≡ ok none)
        ⊎ (get_range c path range cred ≡ ok (some (window range (origin path cred))))
  unfolding get_range
  get_range-window c path range cred h valid =
      elim (Option-cases (get_path c.by_path (path, cred))) [
        | inl miss ↦ rw (miss, get_range) (inl refl)
        | inr (cs, found) ↦
            rw (found, get_range)
              (find_range_sound wasm32 range valid (origin path cred) cs (
                subst (AllSome (ChunksOf (origin path cred))) found
                  (get_path-ChunksOf origin c.by_path (path, cred) h)))
      ]

  pub get_full_object-prefix :
      (c : MemoryByteCache) (path : Text) (cred : ℕ)
      → ServesOrigin origin c
      → (get_full_object c path cred ≡ none)
        ⊎ ((n : ℕ) × (get_full_object c path cred ≡ some (take n (origin path cred))))
  unfolding get_full_object
  get_full_object-prefix c path cred h = elim (Option-cases (get_path c.by_path (path, cred))) [
    | inl miss ↦ rw (miss, get_full_object) (inl refl)
    | inr (cs, found) ↦
        let own =
          subst (AllSome (ChunksOf (origin path cred))) found
            (get_path-ChunksOf origin c.by_path (path, cred) h) in
        rw (found, get_full_object, find_full_object_lem (origin path cred) cs own)
          (prefix (reach none cs))
  ]
    where
      prefix :
          (r : Option ℕ)
          → (Option.map (λ n. take n (origin path cred)) r ≡ none)
            ⊎ ((n : ℕ) × (Option.map (λ n. take n (origin path cred)) r
                  ≡ some (take n (origin path cred))))
      prefix none = inl refl
      prefix (some n) = inr (n, refl)

  module _ (order : MapOrder) (c : MemoryByteCache) (key : ByteCacheKey) where
    -- A put of the object's bytes of an ordered range below 2^32 keeps what the cache holds right,
    -- evictions included.
    pub put-ServesOrigin :
        (b : Bytes)
        → ServesOrigin origin c
        → IsRange wasm32 key.range
        → b ≡ window key.range (origin key.path key.cred_fingerprint)
        → ServesOrigin origin (put order c key b)
    unfolding put
    put-ServesOrigin [] h valid e = h
    put-ServesOrigin (x ∷ b) h valid e =
        insert_path-MapOf origin (evict_if_needed order c (length (x ∷ b))).by_path key (x ∷ b)
          (evict_if_needed-MapOf origin order c (length (x ∷ b)) h)
          (record { ordered = valid.ordered; content = e })

    -- On a cache of bytes of the objects, right after a put of the nonempty bytes of a whole ordered
    -- range below 2^32, every ordered range inside it is a hit with the object's bytes.
    pub get_range-put :
        (x : ℕ) (b : Bytes) (want : Range)
        → ServesOrigin origin c
        → IsRange wasm32 key.range
        → x ∷ b ≡ window key.range (origin key.path key.cred_fingerprint)
        → length (x ∷ b) ≡ key.range.end - key.range.start
        → IsRange wasm32 want
        → key.range.start ≤ want.start
        → want.end ≤ key.range.end
        → get_range (put order c key (x ∷ b)) key.path want key.cred_fingerprint
          ≡ ok (some (window want (origin key.path key.cred_fingerprint)))
    unfolding put get_range
    get_range-put x b want h valid e whole inside low high =
        let (cs, own, found) =
          get_path-insert_path origin (evict_if_needed order c (length (x ∷ b))).by_path key (x ∷ b)
            (evict_if_needed-MapOf origin order c (length (x ∷ b)) h) in
        rw (found, get_range)
          (find_range-insert wasm32 want (origin key.path key.cred_fingerprint) cs key x b inside
            own (record { ordered = valid.ordered; content = e }) (ground arith))

abbrev pub memory_laws : (order : MapOrder) → StoreLaws (memory_store order)
memory_laws order = record {
  target = wasm32;
  Serves = ServesOrigin;
  get_range-Serves = get_range-window;
  get_full_object-Serves = get_full_object-prefix;
  put-Serves = λ origin c key h valid.
      put-ServesOrigin origin order c key (window key.range (origin key.path key.cred_fingerprint))
        h valid refl;
}
