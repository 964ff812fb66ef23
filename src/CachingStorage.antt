-- ===== src/CachingStorage.antt =====
-- crates/idb-catalog/src/caching_storage.rs and `read_range_cached` of byte_cache/mod.rs: reads that
-- go through the byte cache. The wrapped `Storage` is the iceberg crate's, a parameter.
pub mod Transparent
pub mod Prefix
pub mod Files
pub mod WriteOnce
use iceberg_db_rs.Base.{
  ℕ, Option, none, some, [], ◌∷◌, Bool, ◌==◌, if◌then◌else◌, length, Outcome, ok, err, panic,
  cancelled, Io, pure, lift, and_then,
}
use iceberg_db_rs.Base.Text.{Text}
use iceberg_db_rs.ByteCache.Range.{Bytes, Range}
use iceberg_db_rs.ByteCache.Interface.{ByteCacheStore}
use iceberg_db_rs.QueryIo.{Target, QueryIo, query_cancelled, record_byte_cache_hit}

-- The operations of `Storage` and `FileRead` that the cache calls; a file's metadata is its size.
pub record Storage : Type 0 where
  pub metadata : Text → Outcome ℕ
  pub read : Text → Outcome Bytes
  pub read_range : Text → Range → Outcome Bytes

-- What the calls share and change: the cache and the counters of the query.
pub record World (S : Type 0) : Type 0 where
  pub cache : S
  pub io : QueryIo

module _ {S : Type 0} (store : ByteCacheStore S) where
  -- `if !data.is_empty() { cache.put(..) }`, and the data as the result.
  unfoldable pub keep : Text → Range → ℕ → Bytes → S → Outcome Bytes × S
  keep path range cred [] c = (ok [], c)
  keep path range cred (x ∷ b) c = (
    ok (x ∷ b),
    store.put c (record { path = path; range = range; cred_fingerprint = cred }) (x ∷ b),
  )

  -- `fetch` is what the future yields, if it is run.
  unfoldable pub read_range_cached : Text → ℕ → Range → Outcome Bytes → S → Outcome Bytes × S
  unfolding keep
  read_range_cached path cred range fetch c = elim (store.get_range c path range cred) [
    | ok (some hit) ↦ (ok hit, c)
    | ok none ↦ and_then fetch (keep path range cred) c
    | err e ↦ (err e, c)
    | panic ↦ (panic, c)
  ]

  module _ (target : Target) (inner : Storage) (cred_fp : ℕ) where
    abbrev hit_in : Bytes → World S → Outcome Bytes × World S
    hit_in hit w = (ok hit, record w { io = record_byte_cache_hit target w.io })

    unfoldable pub keep_in : Text → Range → Bytes → World S → Outcome Bytes × World S
    unfolding keep
    keep_in path range b w =
        let (r, c) = keep path range cred_fp b w.cache in (r, record w { cache = c })

    -- `CachingFileRead::read`.
    unfoldable pub file_read : Text → Range → Io (World S) Bytes
    unfolding keep_in
    file_read path range w =
        if query_cancelled target w.io
        then (err cancelled, w)
        else elim (store.get_range w.cache path range cred_fp) [
          | ok (some hit) ↦ hit_in hit w
          | ok none ↦ and_then (inner.read_range path range) (keep_in path range) w
          | err e ↦ (err e, w)
          | panic ↦ (panic, w)
        ]

    -- The part of `read` after the full-object lookup missed.
    unfoldable pub read_sized : Text → ℕ → Io (World S) Bytes
    unfolding keep_in
    read_sized path size w =
        if size == 0
        then (inner.read path, w)
        else elim (store.get_range w.cache path (record { start = 0; end = size }) cred_fp) [
          | ok (some hit) ↦ hit_in hit w
          | ok none ↦ and_then (inner.read path) (keep_in path (record { start = 0; end = size })) w
          | err e ↦ (err e, w)
          | panic ↦ (panic, w)
        ]

    -- `CachingStorage::read`.
    unfoldable pub read : Text → Io (World S) Bytes
    unfolding read_sized
    read path w =
        if query_cancelled target w.io
        then (err cancelled, w)
        else elim (store.get_full_object w.cache path cred_fp) [
          | some hit ↦ hit_in hit w
          | none ↦ and_then (inner.metadata path) (read_sized path) w
        ]
