-- ===== src/CachingStorage/Transparent.antt =====
-- Reads through the cache give what the wrapped storage would give.
use iceberg_db_rs.Base.{
  ℕ, ◌≡◌, ◌<◌, refl, sym, subst, ap, ◌⊎◌, inl, inr, none, [], ◌∷◌, false, Bool-cases, ◌==◌, length,
  Outcome, ok, err, panic, and_then, ◌>>=◌, arith, take_all, ◌-◌, ◌∙◌,
}
use iceberg_db_rs.Base.Text.{Text}
use iceberg_db_rs.ByteCache.Range.{Bytes, Range, IsRange, usize_mod, window}
use iceberg_db_rs.ByteCache.Interface.{ByteCacheStore, StoreLaws, Origin}
use iceberg_db_rs.QueryIo.{Target, query_cancelled}
use iceberg_db_rs.CachingStorage.{
  Storage, World, keep, read_range_cached, keep_in, file_read, read_sized, read,
}

-- A storage that, where it succeeds, gives the bytes of the objects.
pub record IsStorageOf (origin : Origin) (cred : ℕ) (inner : Storage) : Type 0 where
  pub metadata-length :
      (path : Text) (n : ℕ) → inner.metadata path ≡ ok n → n ≡ length (origin path cred)
  pub read-object : (path : Text) (b : Bytes) → inner.read path ≡ ok b → b ≡ origin path cred
  pub read_range-window :
      (path : Text) (range : Range) (b : Bytes)
      → inner.read_range path range ≡ ok b
      → b ≡ window range (origin path cred)

module _ {S : Type 0} (store : ByteCacheStore S) (laws : StoreLaws store) (origin : Origin) where
  -- The result is that of the fetch, or a success with the object's bytes; the cache stays right.
  pub record IsTransparent (object : Bytes) (fetch : Outcome Bytes) (r : Outcome Bytes × S)
      : Type 0 where
    pub result : (r.0 ≡ fetch) ⊎ (r.0 ≡ ok object)
    pub serves : laws.Serves origin r.1

  keep-serves :
      (path : Text) (range : Range) (cred : ℕ) (b : Bytes) (c : S)
      → laws.Serves origin c
      → IsRange laws.target range
      → b ≡ window range (origin path cred)
      → ((keep store path range cred b c).0 ≡ ok b)
        × laws.Serves origin (keep store path range cred b c).1
  unfolding keep
  keep-serves path range cred [] c h valid e = (refl, h)
  keep-serves path range cred (x ∷ b) c h valid e = (
    refl,
    rw e (
        laws.put-Serves origin c (record { path = path; range = range; cred_fingerprint = cred }) h
          valid),
  )

  -- A fetch whose bytes are then kept.
  fetch_and_keep :
      (path : Text) (range : Range) (cred : ℕ) (fetch : Outcome Bytes) (c : S)
      → laws.Serves origin c
      → IsRange laws.target range
      → ((b : Bytes) → fetch ≡ ok b → b ≡ window range (origin path cred))
      → IsTransparent
          (window range (origin path cred))
          fetch
          (and_then fetch (keep store path range cred) c)
  fetch_and_keep path range cred (ok b) c h valid sound =
      let (same, serves) = keep-serves path range cred b c h valid (sound b refl) in
      record { result = inl same; serves = serves }
  fetch_and_keep path range cred (err e) c h valid sound = record { result = inl refl; serves = h }
  fetch_and_keep path range cred panic c h valid sound = record { result = inl refl; serves = h }

  -- A ranged read through the cache.
  pub read_range_cached-IsTransparent :
      (path : Text) (cred : ℕ) (range : Range) (fetch : Outcome Bytes) (c : S)
      → laws.Serves origin c
      → IsRange laws.target range
      → ((b : Bytes) → fetch ≡ ok b → b ≡ window range (origin path cred))
      → IsTransparent
          (window range (origin path cred))
          fetch
          (read_range_cached store path cred range fetch c)
  unfolding read_range_cached
  read_range_cached-IsTransparent path cred range fetch c h valid sound =
      elim (laws.get_range-Serves origin c path range cred h valid) [
        | inl miss ↦
            rw (miss, read_range_cached) (fetch_and_keep path range cred fetch c h valid sound)
        | inr hit ↦ rw (hit, read_range_cached) (record { result = inr refl; serves = h })
      ]

  module _ (target : Target) (inner : Storage) (cred : ℕ)
      (sound : IsStorageOf origin cred inner) where
    -- What a read of a query that is not cancelled leaves: the wrapped storage's outcome, or a
    -- success with the object's bytes, and a cache that stays right.
    pub record IsRead (object : Bytes) (fetch : Outcome Bytes) (w : World S)
        (r : Outcome Bytes × World S) : Type 0 where
      pub result : (r.0 ≡ fetch) ⊎ (r.0 ≡ ok object)
      pub serves : laws.Serves origin r.1.cache

    fetch_in :
        (path : Text) (range : Range) (fetch : Outcome Bytes) (w : World S)
        → laws.Serves origin w.cache
        → IsRange laws.target range
        → ((b : Bytes) → fetch ≡ ok b → b ≡ window range (origin path cred))
        → IsRead
            (window range (origin path cred))
            fetch
            w
            (and_then fetch (keep_in store target inner cred path range) w)
    unfolding keep_in
    fetch_in path range (ok b) w h valid e =
        let (same, serves) = keep-serves path range cred b w.cache h valid (e b refl) in
        record { result = inl same; serves = serves }
    fetch_in path range (err e) w h valid s = record { result = inl refl; serves = h }
    fetch_in path range panic w h valid s = record { result = inl refl; serves = h }

    -- On a query that is not cancelled, over any cache that keeps the laws and a storage whose
    -- successes are the bytes of the objects, a ranged read of an ordered range that a `usize` of the
    -- cache's platform counts gives the outcome of the wrapped storage or a success with the bytes
    -- of the object in the range, and the cache still serves only bytes of the objects.
    pub file_read-IsRead :
        (path : Text) (range : Range) (w : World S)
        → query_cancelled target w.io ≡ false
        → laws.Serves origin w.cache
        → IsRange laws.target range
        → IsRead
            (window range (origin path cred))
            (inner.read_range path range)
            w
            (file_read store target inner cred path range w)
    unfolding file_read
    file_read-IsRead path range w live h valid =
        elim (laws.get_range-Serves origin w.cache path range cred h valid) [
          | inl miss ↦
              rw (live, miss, file_read)
                (fetch_in path range (inner.read_range path range) w h valid
                  (sound.read_range-window path range))
          | inr hit ↦ rw (live, hit, file_read) (record { result = inr refl; serves = h })
        ]

    module _ (path : Text) (w : World S) (h : laws.Serves origin w.cache)
        (fits : length (origin path cred) < usize_mod laws.target) where
      abbrev object : Bytes
      object = origin path cred

      abbrev whole : Range
      whole = record { start = 0; end = length object }

      window-whole : window whole object ≡ object
      window-whole = take_all (length object - 0) object (omega arith)

      -- The ranged part of a whole-file read, for the whole file.
      read_whole :
          IsRead object
            (inner.read path)
            w
            (read_sized store target inner cred path (length object) w)
      unfolding read_sized
      read_whole = elim (Bool-cases (length object == 0)) [
        | inl empty ↦ rw (empty, read_sized) (record { result = inl refl; serves = h })
        | inr full ↦
            let valid : IsRange laws.target whole = record { ordered = omega arith; word = fits } in
            elim (laws.get_range-Serves origin w.cache path whole cred h valid) [
              | inl miss ↦
                  rw (full, miss, read_sized)
                    (subst
                      (λ o.
                        IsRead o (inner.read path) w (
                          and_then (inner.read path) (keep_in store target inner cred path whole)
                            w))
                      window-whole
                      (fetch_in path whole (inner.read path) w h valid
                        (λ b e. sound.read-object path b e ∙ sym window-whole)))
              | inr hit ↦
                  rw (full, hit, read_sized)
                    (record { result = inr (ap ok window-whole); serves = h })
            ]
      ]

      sized :
          (m : Outcome ℕ)
          → inner.metadata path ≡ m
          → IsRead object
              (m >>= λ _. inner.read path)
              w
              (and_then m (read_sized store target inner cred path) w)
      sized (err e) p = record { result = inl refl; serves = h }
      sized panic p = record { result = inl refl; serves = h }
      sized (ok n) p =
          subst
            (λ k. IsRead object (inner.read path) w (read_sized store target inner cred path k w))
            (sym (sound.metadata-length path n p)) read_whole

      -- On a query that is not cancelled, for an object whose length a `usize` of the cache's
      -- platform counts and of which no chunk from offset 0 is cached, a whole-file read gives the
      -- outcome of the metadata call and the read, or a success with the whole object, and the cache
      -- still serves only bytes of the objects.
      pub read-IsRead :
          query_cancelled target w.io ≡ false
          → store.get_full_object w.cache path cred ≡ none
          → IsRead object
              (inner.metadata path >>= λ _. inner.read path)
              w
              (read store target inner cred path w)
      unfolding read
      read-IsRead live miss = rw (live, miss, read) (sized (inner.metadata path) refl)
