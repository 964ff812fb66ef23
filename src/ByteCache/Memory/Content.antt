-- ===== src/ByteCache/Memory/Content.antt =====
-- What the in-process cache serves: only bytes of the objects, and every range that was put.
use mathlib.Core.Option
use iceberg_db_rs.Base.{
  ℕ, zero, suc, ◌-◌, ◌≡◌, sym, inl, inr, true, not, ◌&&◌, Option, none, some, [], ◌∷◌, arith, ltb,
  leb, length, All, AllSome, subst, add32, Bool-cases, Option-cases,
}
use iceberg_db_rs.Base.Text.{text_eq_iff, text_eq_self}
use iceberg_db_rs.ByteCache.Range.{Bytes, ByteCacheKey}
use iceberg_db_rs.ByteCache.Chunks.{PathByteCache, insert, bytes_used, IsChunkOf, ChunksOf}
use iceberg_db_rs.ByteCache.Chunks.Lookup.{insert-ChunksOf}
use iceberg_db_rs.ByteCache.Interface.{Origin}
use iceberg_db_rs.ByteCache.Memory.{
  PathCredKey, PathMap, key_eq, get_path, remove_path, insert_path, is_empty, MapOrder,
  MemoryByteCache, evict_loop, evict_if_needed,
}

abbrev pub MapOf : Origin → PathMap → Type 0
MapOf origin = All (λ e. ChunksOf (origin e.0.0 e.0.1) e.1)

key_eq_sound : (j k : PathCredKey) → key_eq j k ≡ true → j ≡ k
key_eq_sound j k h = ground (arith, text_eq_iff j.0 k.0)

pub key_eq_self : (k : PathCredKey) → key_eq k k ≡ true
key_eq_self k = ground (arith, text_eq_self k.0)

module _ (origin : Origin) where
  abbrev pub object_at : PathCredKey → Bytes
  object_at k = origin k.0 k.1

  pub get_path-ChunksOf :
      (m : PathMap) (k : PathCredKey)
      → MapOf origin m
      → AllSome (ChunksOf (object_at k)) (get_path m k)
  unfolding get_path
  get_path-ChunksOf [] k h = tt
  get_path-ChunksOf ((j, cs) ∷ m) k h = elim (Bool-cases (key_eq j k)) [
    | inl here ↦ rw here (subst (λ i. ChunksOf (object_at i) cs) (key_eq_sound j k here) h.0)
    | inr later ↦ rw later (get_path-ChunksOf m k h.1)
  ]

  remove_path-MapOf :
      (m : PathMap) (k : PathCredKey)
      → MapOf origin m
      → AllSome (λ (r : PathByteCache × PathMap). MapOf origin r.1) (remove_path m k)
  unfolding remove_path
  remove_path-MapOf [] k h = tt
  remove_path-MapOf ((j, cs) ∷ m) k h = elim (Bool-cases (key_eq j k)) [
    | inl here ↦ rw here h.1
    | inr later ↦ rw later (keep (remove_path m k) (remove_path-MapOf m k h.1))
  ]
    where
      keep :
          (o : Option (PathByteCache × PathMap))
          → AllSome (λ (r : PathByteCache × PathMap). MapOf origin r.1) o
          → AllSome
              (λ (r : PathByteCache × PathMap). MapOf origin r.1)
              (Option.map (λ r. (r.0, (j, cs) ∷ r.1)) o)
      keep none g = tt
      keep (some r) g = (h.0, g)

  module _ (order : MapOrder) (max incoming : ℕ) where
    evict_loop-MapOf :
        (fuel : ℕ) (m : PathMap) (used : ℕ)
        → MapOf origin m
        → MapOf origin (evict_loop order fuel max incoming m used).0
    unfolding evict_loop
    evict_loop-MapOf zero m used h = h
    evict_loop-MapOf (suc fuel) m used h =
        elim (Bool-cases (ltb max (add32 used incoming) && not (is_empty m))) [
          | inr fits ↦ rw (fits, evict_loop) h
          | inl over ↦ elim (Option-cases (order.next_key m)) [
            | inl no_key ↦ rw (over, no_key, evict_loop) h
            | inr (k, next) ↦ elim (Option-cases (remove_path m k)) [
              | inl missing ↦ rw (over, next, missing, evict_loop) (evict_loop-MapOf fuel m used h)
              | inr (r, removed) ↦
                  rw (over, next, removed, evict_loop)
                    (evict_loop-MapOf fuel r.1 (used - bytes_used r.0) (
                      subst (AllSome (λ (q : PathByteCache × PathMap). MapOf origin q.1)) removed
                        (remove_path-MapOf m k h)))
            ]
          ]
        ]

  pub evict_if_needed-MapOf :
      (order : MapOrder) (c : MemoryByteCache) (incoming : ℕ)
      → MapOf origin c.by_path
      → MapOf origin (evict_if_needed order c incoming).by_path
  unfolding evict_if_needed
  evict_if_needed-MapOf order c incoming h =
      elim (Bool-cases (leb (add32 c.bytes_used incoming) c.max_bytes)) [
        | inl room ↦ rw room h
        | inr full ↦ rw full (
            evict_loop-MapOf order c.max_bytes incoming (length c.by_path) c.by_path c.bytes_used h)
      ]

  pub insert_path-MapOf :
      (m : PathMap) (key : ByteCacheKey) (b : Bytes)
      → MapOf origin m
      → IsChunkOf (origin key.path key.cred_fingerprint) (record { range = key.range; bytes = b })
      → MapOf origin (insert_path m (key.path, key.cred_fingerprint) key b)
  unfolding insert_path
  insert_path-MapOf [] key b h new =
      (insert-ChunksOf (origin key.path key.cred_fingerprint) [] key b tt new, tt)
  insert_path-MapOf ((j, cs) ∷ m) key b h new =
      let k : PathCredKey = (key.path, key.cred_fingerprint) in
      elim (Bool-cases (key_eq j k)) [
        | inl here ↦
            let e = key_eq_sound j k here in
            rw here (
              insert-ChunksOf (object_at j) cs key b h.0 (
                  subst (λ i. IsChunkOf (object_at i) (record { range = key.range; bytes = b }))
                    (sym e) new),
              h.1,
            )
        | inr later ↦ rw later (h.0, insert_path-MapOf m key b h.1 new)
      ]

  -- The chunks of a key after an insertion for it.
  pub get_path-insert_path :
      (m : PathMap) (key : ByteCacheKey) (b : Bytes)
      → MapOf origin m
      → (cs : PathByteCache) × ChunksOf (origin key.path key.cred_fingerprint) cs
        × (get_path
              (insert_path m (key.path, key.cred_fingerprint) key b)
              (key.path, key.cred_fingerprint)
            ≡ some (insert cs key b).0)
  unfolding insert_path get_path
  get_path-insert_path [] key b h = ([], tt, rw (key_eq_self (key.path, key.cred_fingerprint)))
  get_path-insert_path ((j, cs) ∷ m) key b h =
      let k : PathCredKey = (key.path, key.cred_fingerprint) in
      elim (Bool-cases (key_eq j k)) [
        | inl here ↦ (
          cs,
          subst (λ i. ChunksOf (object_at i) cs) (key_eq_sound j k here) h.0,
          rw (here, get_path) (rw here),
        )
        | inr later ↦
            let (cs', own, found) = get_path-insert_path m key b h.1 in
            (cs', own, rw (later, get_path) (rw later found))
      ]
