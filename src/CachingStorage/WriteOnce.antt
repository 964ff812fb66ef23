-- ===== src/CachingStorage/WriteOnce.antt =====
-- Reads between writes and deletions, through the cache.
use iceberg_db_rs.Base.{ℕ, ◌≡◌, ◌<◌, ◌⊎◌, inl, inr, false, Bool-cases, Option-cases, length, ok}
use iceberg_db_rs.Base.Text.{Text}
use iceberg_db_rs.ByteCache.Range.{Range, IsRange, usize_mod, window}
use iceberg_db_rs.ByteCache.Interface.{ByteCacheStore, StoreLaws, Origin}
use iceberg_db_rs.QueryIo.{Target, query_cancelled, request_query_cancel, reset_query_state}
use iceberg_db_rs.CachingStorage
use iceberg_db_rs.CachingStorage.{World, file_read}
use iceberg_db_rs.CachingStorage.Transparent.{IsStorageOf, file_read-IsRead, read-IsRead}
use iceberg_db_rs.CachingStorage.Files.{
  Wrapped, Files, FileReader, read, read_from, write, delete, delete_prefix,
}

module _ {S T : Type 0} {store : ByteCacheStore S} (laws : StoreLaws store) (origin : Origin)
    (target : Target) (wrapped : Wrapped T) (cred : ℕ) where
  -- A state of the wrapped storage in which its reads yield the bytes of the objects, if any.
  abbrev pub Holds : T → Type 0
  Holds t = IsStorageOf origin cred (wrapped.view t)

  -- A wrapped storage whose reads still yield the bytes of the objects, if any, when one of them
  -- has been written, and when some have been deleted.
  pub record IsWritable : Type 0 where
    pub write_file-Holds :
        (path : Text) (t : T) → Holds t → Holds (wrapped.write_file path (origin path cred) t).1
    pub delete_file-Holds : (path : Text) (t : T) → Holds t → Holds (wrapped.delete_file path t).1
    pub delete_files-Holds : (path : Text) (t : T) → Holds t → Holds (wrapped.delete_files path t).1

  -- What is written at a path is its object. Others may change the files too.
  pub data Step : Files S T → Files S T → Type 0 where
    reads : (path : Text) (s : Files S T) → Step s (read store target wrapped cred path s).1
    reads_range :
        (file : FileReader) (range : Range) (s : Files S T)
        → IsRange laws.target range
        → Step s (read_from store target wrapped cred file range s).1
    writes :
        (path : Text) (s : Files S T)
        → Step s (write store target wrapped cred path (origin path cred) s).1
    deletes : (path : Text) (s : Files S T) → Step s (delete store target wrapped cred path s).1
    deletes_prefix :
        (path : Text) (s : Files S T) → Step s (delete_prefix store target wrapped cred path s).1
    elsewhere : (t : T) (s : Files S T) → Holds t → Step s (record s { remote = t })
    cancels :
        (s : Files S T)
        → Step s
            (record s { world = record s.world { io = request_query_cancel target s.world.io } })
    restarts :
        (s : Files S T)
        → Step s (record s { world = record s.world { io = reset_query_state target s.world.io } })

  pub data Reach (s : Files S T) : Files S T → Type 0 where
    here : Reach s s
    next : {s1 s2 : Files S T} → Reach s s1 → Step s1 s2 → Reach s s2

  pub record IsRight (s : Files S T) : Type 0 where
    pub serves : laws.Serves origin s.world.cache
    pub holds : Holds s.remote

  module _ (fits : (path : Text) → length (origin path cred) < usize_mod laws.target) where
    read-Serves :
        (path : Text) (s : Files S T)
        → IsRight s
        → laws.Serves origin (read store target wrapped cred path s).1.world.cache
    unfolding read CachingStorage.read
    read-Serves path s h = elim (Bool-cases (query_cancelled target s.world.io)) [
      | inl cancelled ↦ rw cancelled h.serves
      | inr live ↦ elim (Option-cases (store.get_full_object s.world.cache path cred)) [
        | inl miss ↦
            (read-IsRead store laws origin target (wrapped.view s.remote) cred h.holds path s.world
              h.serves (fits path) live miss).serves
        | inr (hit, found) ↦ rw (live, found) h.serves
      ]
    ]

    read_from-Serves :
        (file : FileReader) (range : Range) (s : Files S T)
        → IsRange laws.target range
        → IsRight s
        → laws.Serves origin (read_from store target wrapped cred file range s).1.world.cache
    unfolding read_from file_read
    read_from-Serves file range s valid h = elim (Bool-cases (query_cancelled target s.world.io)) [
      | inl cancelled ↦ rw cancelled h.serves
      | inr live ↦
          (file_read-IsRead store laws origin target (wrapped.view s.remote) cred h.holds
            file.location range s.world live h.serves valid).serves
    ]

    module _ (writable : IsWritable) where
      Step-IsRight : {s s' : Files S T} → Step s s' → IsRight s → IsRight s'
      unfolding read read_from write delete delete_prefix
      Step-IsRight (reads path s) h = record { serves = read-Serves path s h; holds = h.holds }
      Step-IsRight (reads_range file range s valid) h = record {
        serves = read_from-Serves file range s valid h;
        holds = h.holds;
      }
      Step-IsRight (writes path s) h = record {
        serves = h.serves;
        holds = writable.write_file-Holds path s.remote h.holds;
      }
      Step-IsRight (deletes path s) h = record {
        serves = h.serves;
        holds = writable.delete_file-Holds path s.remote h.holds;
      }
      Step-IsRight (deletes_prefix path s) h = record {
        serves = h.serves;
        holds = writable.delete_files-Holds path s.remote h.holds;
      }
      Step-IsRight (elsewhere t s holds) h = record { serves = h.serves; holds = holds }
      Step-IsRight (cancels s) h = record { serves = h.serves; holds = h.holds }
      Step-IsRight (restarts s) h = record { serves = h.serves; holds = h.holds }

      Reach-IsRight : {s s' : Files S T} → IsRight s → Reach s s' → IsRight s'
      Reach-IsRight h here = h
      Reach-IsRight h (next r s) = Step-IsRight s (Reach-IsRight h r)

      -- Over a cache that keeps the laws and a wrapped storage whose reads keep to the objects,
      -- whose lengths a `usize` of the cache's platform counts, when they are written and deleted: after any sequence of reads, of
      -- writes of the objects at their paths, of deletions, of such changes by others, of
      -- cancellations and of restarts, a ranged read of a query that is not cancelled gives what
      -- the wrapped storage gives at that time or a success with the object's bytes in the range.
      pub Reach-read_from :
          (file : FileReader) (range : Range) (s s' : Files S T)
          → IsRight s
          → Reach s s'
          → query_cancelled target s'.world.io ≡ false
          → IsRange laws.target range
          → ((read_from store target wrapped cred file range s').0
              ≡ (wrapped.view s'.remote).read_range file.location range)
            ⊎ ((read_from store target wrapped cred file range s').0
                ≡ ok (window range (origin file.location cred)))
      unfolding read_from
      Reach-read_from file range s s' h r live valid =
          (file_read-IsRead store laws origin target (wrapped.view s'.remote) cred
            (Reach-IsRight h r).holds file.location range s'.world live (Reach-IsRight h r).serves
            valid).result
