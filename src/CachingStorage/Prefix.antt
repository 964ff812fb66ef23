-- ===== src/CachingStorage/Prefix.antt =====
-- A whole-file read after a ranged read from offset 0, in a native build, whose cache is on disk.
use iceberg_db_rs.Base.{
  ℕ, ◌≡◌, ◌≢◌, ◌<◌, ap, ◌∙◌, Bool, none, some, [], ◌∷◌, length, take, Outcome, ok, arith,
  length-take,
}
use iceberg_db_rs.Base.Text.{Text}
use iceberg_db_rs.Base.Dict
use iceberg_db_rs.Base.Dict.{Dict}
use iceberg_db_rs.ByteCache.Range.{Bytes, ByteCacheKey}
use iceberg_db_rs.ByteCache.Chunks.{insert, find_full_object}
use iceberg_db_rs.ByteCache.Interface.{ByteCacheStore}
use iceberg_db_rs.ByteCache.Memory.{insert_path, get_path}
use iceberg_db_rs.ByteCache.Memory.Content.{key_eq_self}
use iceberg_db_rs.ByteCache.Disk.{
  FsByteCache, fs_new, fs_get, fs_get_range, fs_get_full_object, fs_put,
}
use iceberg_db_rs.QueryIo.{native, QueryIo, query_cancelled}
use iceberg_db_rs.CachingStorage.{Storage, World, file_read, read}

abbrev value : Outcome Bytes → Bytes
value (ok b) = b
value _ = []

module _ (file_name : ByteCacheKey → Text) (writes : ByteCacheKey → Bool) where
  -- `FsByteCache` as a `ByteCacheStore`.
  abbrev pub disk_store : ByteCacheStore FsByteCache
  disk_store = record {
    get_range = fs_get_range file_name writes;
    get_full_object = fs_get_full_object file_name writes;
    put = fs_put file_name writes;
  }

  module _ (path : Text) (cred n : ℕ) where
    abbrev pub key : ByteCacheKey
    key = record { path = path; range = record { start = 0; end = n }; cred_fingerprint = cred }

    get_path-single :
        (x : ℕ) (b : Bytes)
        → get_path (insert_path [] (path, cred) key (x ∷ b)) (path, cred)
          ≡ some (insert [] key (x ∷ b)).0
    unfolding get_path insert_path
    get_path-single x b = rw (key_eq_self (path, cred))

    fs_get_full_object-fs_put :
        (disk : Dict Bytes) (x : ℕ) (b : Bytes)
        → fs_get_full_object file_name writes
            (fs_put file_name writes (fs_new disk) key (x ∷ b))
            path
            cred
          ≡ some (x ∷ b)
    unfolding fs_put fs_new fs_get_full_object insert find_full_object
    fs_get_full_object-fs_put disk x b = rw (get_path-single x b, fs_get_full_object)

    -- A process that starts on a disk of chunks.
    abbrev pub started : Dict Bytes → QueryIo → World FsByteCache
    started disk io = record { cache = fs_new disk; io = io }

    abbrev pub after_range : Storage → World FsByteCache → World FsByteCache
    after_range inner w = (file_read disk_store native inner cred path key.range w).1

    file_read-fs_new :
        (inner : Storage) (disk : Dict Bytes) (io : QueryIo) (x : ℕ) (b : Bytes)
        → Dict.get disk (file_name key) ≡ none
        → inner.read_range path key.range ≡ ok (x ∷ b)
        → (after_range inner (started disk io)).cache
          ≡ fs_put file_name writes (fs_new disk) key (x ∷ b)
    unfolding file_read fs_get_range fs_get fs_new query_cancelled get_path
    file_read-fs_new inner disk io x b miss e = rw (miss, e, after_range, file_read)

    full_object-file_read :
        (inner : Storage) (disk : Dict Bytes) (io : QueryIo) (b : Bytes)
        → 0 < length b
        → Dict.get disk (file_name key) ≡ none
        → inner.read_range path key.range ≡ ok b
        → fs_get_full_object file_name writes (after_range inner (started disk io)).cache path cred
          ≡ some b
    full_object-file_read inner disk io [] h miss e = absurd (omega arith)
    full_object-file_read inner disk io (x ∷ b) h miss e =
        rw (file_read-fs_new inner disk io x b miss e) (fs_get_full_object-fs_put disk x b)

    -- In a native build that starts on a disk without a file for the first n bytes of an object: a
    -- ranged read of these bytes, n being more than none and less than all, makes a later read of
    -- the whole object return those n bytes only, where the storage returns the object.
    pub read-file_read-prefix :
        (inner : Storage) (disk : Dict Bytes) (io : QueryIo) (object : Bytes)
        → 0 < n
        → n < length object
        → Dict.get disk (file_name key) ≡ none
        → inner.read_range path key.range ≡ ok (take n object)
        → inner.read path ≡ ok object
        → ((read disk_store native inner cred path (after_range inner (started disk io))).0
            ≡ ok (take n object))
          × (ok (take n object) ≢ inner.read path)
    unfolding read query_cancelled
    read-file_read-prefix inner disk io object pos longer miss ranged whole = (
      rw (
        full_object-file_read inner disk io (take n object) (omega (arith, length-take n object))
            miss ranged,
        read,
      ),
      λ e. absurd (omega (arith, length-take n object, ap (λ o. length (value o)) (e ∙ whole))),
    )
