-- ===== src/ByteCache/Memory/Bounds.antt =====
-- How many bytes the in-process cache holds: its counter is exact and its limit is kept.
use iceberg_db_rs.Base.{
  ℕ, zero, suc, ◌+◌, ◌-◌, ◌≤◌, ◌<◌, ◌%◌, ◌≡◌, ◌∙◌, refl, ◌≢◌, ◌⊎◌, inl, inr, true, false, none,
  some, [], ◌∷◌, arith, ltb, length, add32, word32_mod, add32_exact, Bool-cases,
}
use iceberg_db_rs.ByteCache.Range.{Bytes, ByteCacheKey}
use iceberg_db_rs.ByteCache.Chunks.{PathByteCache, insert, bytes_used, held}
use iceberg_db_rs.ByteCache.Chunks.Sizes.{held-replace_or_push, bytes_used_lem}
use iceberg_db_rs.ByteCache.Memory.{
  PathCredKey, PathMap, key_eq, get_path, remove_path, insert_path, sum_used, is_empty, MapOrder,
  MemoryByteCache, evict_loop, evict_if_needed, put,
}

-- All the bytes in the map, without wrap-around.
abbrev pub stored : PathMap → ℕ
stored [] = 0
stored ((k, cs) ∷ m) = held cs + stored m

remove_path-some :
    (m : PathMap) (k : PathCredKey)
    → get_path m k ≢ none
    → (r : PathByteCache × PathMap) × (remove_path m k ≡ some r)
      × (stored m ≡ held r.0 + stored r.1)
      × (length m ≡ suc (length r.1))
unfolding get_path remove_path
remove_path-some [] k h = absurd (h refl)
remove_path-some ((j, cs) ∷ m) k h = elim (Bool-cases (key_eq j k)) [
  | inl here ↦ ((cs, m), rw here, refl, refl)
  | inr later ↦
      let (r, removed, sum, shorter) = remove_path-some m k (rw later at h) in
      ((r.0, (j, cs) ∷ r.1), rw (later, removed), omega arith, omega arith)
]

stored-insert_path :
    (m : PathMap) (k : PathCredKey) (key : ByteCacheKey) (x : ℕ) (b : Bytes)
    → stored (insert_path m k key (x ∷ b)) ≤ stored m + length (x ∷ b)
unfolding insert_path insert
stored-insert_path [] k key x b = omega (arith, held-replace_or_push [] key.range (x ∷ b))
stored-insert_path ((j, cs) ∷ m) k key x b =
    ground (arith, held-replace_or_push cs key.range (x ∷ b), stored-insert_path m k key x b)

sum_used_acc :
    (acc : ℕ) (m : PathMap) → acc < word32_mod → sum_used acc m ≡ (acc + stored m) % word32_mod
unfolding sum_used add32
sum_used_acc acc [] h = omega arith
sum_used_acc acc ((k, cs) ∷ m) h =
    omega
      (arith, bytes_used_lem cs, sum_used_acc ((acc + bytes_used cs) % word32_mod) m (omega arith))

sum_used_lem : (m : PathMap) → stored m < word32_mod → sum_used 0 m ≡ stored m
sum_used_lem m h = sum_used_acc 0 m (omega arith) ∙ omega arith

-- The counter is exact.
pub record IsCounted (c : MemoryByteCache) : Type 0 where
  pub counted : c.bytes_used ≡ stored c.by_path
  pub fits : stored c.by_path < word32_mod

-- What the loop leaves, in bytes: an exact counter, and room for the incoming bytes or an empty map.
record IsEvicted (max incoming : ℕ) (m : PathMap) (r : PathMap × ℕ) : Type 0 where
  counted : r.1 ≡ stored r.0
  smaller : stored r.0 ≤ stored m
  room : (stored r.0 + incoming ≤ max) ⊎ (stored r.0 ≡ 0)

module _ (order : MapOrder) (max incoming : ℕ) where
  evict_round :
      (fuel : ℕ) (m : PathMap) (used : ℕ)
      → is_empty m ≡ false
      → ltb max (add32 used incoming) ≡ true
      → (r : PathByteCache × PathMap) × (evict_loop order (suc fuel) max incoming m used
          ≡ evict_loop order fuel max incoming r.1 (used - bytes_used r.0))
        × (stored m ≡ held r.0 + stored r.1)
        × (length m ≡ suc (length r.1))
  unfolding evict_loop
  evict_round fuel m used full over =
      let (k, next, there) = order.next_key_stored m full in
      let (r, removed, sum, shorter) = remove_path-some m k there in
      (r, rw (full, over, next, removed, evict_loop), sum, shorter)

  evict_loop-IsEvicted :
      (fuel : ℕ) (m : PathMap) (used : ℕ)
      → length m ≤ fuel
      → used ≡ stored m
      → used + incoming < word32_mod
      → IsEvicted max incoming m (evict_loop order fuel max incoming m used)
  unfolding evict_loop
  evict_loop-IsEvicted zero [] used f e w = ground arith
  evict_loop-IsEvicted zero (x ∷ m) used f e w = absurd (omega arith)
  evict_loop-IsEvicted (suc fuel) [] used f e w =
      elim (Bool-cases (ltb max (add32 used incoming))) [
        | inl over ↦
            rw (over, evict_loop) (record { counted = e; smaller = omega arith; room = inr refl })
        | inr fits ↦
            rw (fits, evict_loop) (record { counted = e; smaller = omega arith; room = inr refl })
      ]
  evict_loop-IsEvicted (suc fuel) (x ∷ m) used f e w =
      elim (Bool-cases (ltb max (add32 used incoming))) [
        | inl over ↦
            let (r, round, sum, shorter) = evict_round fuel (x ∷ m) used refl over in
            let used' : used - bytes_used r.0 ≡ stored r.1 = omega (arith, bytes_used_lem r.0) in
            let ih =
              evict_loop-IsEvicted fuel r.1 (used - bytes_used r.0) (omega arith) used'
                (omega arith) in
            rw round (record { counted = ih.counted; smaller = omega arith; room = ih.room })
        | inr fits ↦
            rw (fits, evict_loop)
              (record {
                counted = e;
                smaller = omega arith;
                room = inl (ground (arith, add32_exact used incoming));
              })
      ]

-- A put keeps the counter exact, leaves the limit alone, and holds no more than the limit, or else
-- nothing but the bytes put.
pub record IsBounded (b : Bytes) (c c' : MemoryByteCache) : Type 0 where
  pub counted : IsCounted c'
  pub max_bytes : c'.max_bytes ≡ c.max_bytes
  pub bounded : (c'.bytes_used ≤ c.max_bytes) ⊎ (c'.bytes_used ≤ length b)

module _ (order : MapOrder) (c : MemoryByteCache) where
  evict_if_needed_lem :
      (incoming : ℕ)
      → IsCounted c
      → stored c.by_path + incoming < word32_mod
      → (stored (evict_if_needed order c incoming).by_path ≤ stored c.by_path)
        × ((evict_if_needed order c incoming).max_bytes ≡ c.max_bytes)
        × ((stored (evict_if_needed order c incoming).by_path + incoming ≤ c.max_bytes)
            ⊎ (stored (evict_if_needed order c incoming).by_path ≡ 0))
  unfolding evict_if_needed
  evict_if_needed_lem incoming h w = ground (
    arith,
    add32_exact c.bytes_used incoming,
    evict_loop-IsEvicted order c.max_bytes incoming (length c.by_path) c.by_path c.bytes_used
        (omega arith) h.counted (omega arith),
  )

  -- With an exact counter, and the held and the incoming bytes together below 2^32, a put of a
  -- nonempty chunk keeps the counter exact and the limit unchanged, and ends with a counter within
  -- the limit or within the length of the new chunk alone.
  pub put-IsBounded :
      (key : ByteCacheKey) (x : ℕ) (b : Bytes)
      → IsCounted c
      → stored c.by_path + length (x ∷ b) < word32_mod
      → IsBounded (x ∷ b) c (put order c key (x ∷ b))
  unfolding put
  put-IsBounded key x b h w =
      let n = length (x ∷ b) in
      let c' = evict_if_needed order c n in
      let m = insert_path c'.by_path (key.path, key.cred_fingerprint) key (x ∷ b) in
      let (smaller, same, room) = evict_if_needed_lem n h w in
      let more = stored-insert_path c'.by_path (key.path, key.cred_fingerprint) key x b in
      let fits : stored m < word32_mod = omega arith in
      let exact : sum_used 0 m ≡ stored m = sum_used_lem m fits in
      record {
        counted = record { counted = exact; fits = fits };
        max_bytes = same;
        bounded = omega arith;
      }
