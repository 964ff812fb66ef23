-- ===== src/CachingStorage/Files.antt =====
-- `CachingStorage` of crates/idb-catalog/src/caching_storage.rs as a `Storage`: which calls go through
-- the cache and which go to the wrapped storage alone. The wrapped storage and its files are
-- parameters.
use iceberg_db_rs.Base.{ℕ, Bool, Outcome, ok, Io, ◌>>=◌}
use iceberg_db_rs.Base.Text.{Text}
use iceberg_db_rs.ByteCache.Range.{Bytes, Range}
use iceberg_db_rs.ByteCache.Interface.{ByteCacheStore}
use iceberg_db_rs.QueryIo.{Target}
use iceberg_db_rs.CachingStorage
use iceberg_db_rs.CachingStorage.{Storage, World, file_read}

-- The wrapped storage, over the state of its files: `view` is what its reads yield there, and
-- `open_reader` whether a reader opens.
pub record Wrapped (T : Type 0) : Type 0 where
  pub view : T → Storage
  pub file_exists : Text → T → Outcome Bool
  pub open_reader : Text → T → Outcome (Unit {0})
  pub write_file : Text → Bytes → Io T (Unit {0})
  pub delete_file : Text → Io T (Unit {0})
  pub delete_files : Text → Io T (Unit {0})

pub record Files (S T : Type 0) : Type 0 where
  pub world : World S
  pub remote : T

-- `CachingFileRead`, but for what all of them share.
pub record FileReader : Type 0 where
  pub location : Text

module _ {S T : Type 0} (store : ByteCacheStore S) (target : Target) (wrapped : Wrapped T)
    (cred_fp : ℕ) where
  -- A read on the shared world, over the files as they are.
  abbrev pub on_world : {A : Type 0} → (Storage → Io (World S) A) → Io (Files S T) A
  on_world call s = let (r, w) = call (wrapped.view s.remote) s.world in (r, record s { world = w })

  abbrev pub on_remote : {A : Type 0} → Io T A → Io (Files S T) A
  on_remote call s = let (r, t) = call s.remote in (r, record s { remote = t })

  unfoldable pub exists : Text → Io (Files S T) Bool
  exists path s = (wrapped.file_exists path s.remote, s)

  unfoldable pub metadata : Text → Io (Files S T) ℕ
  metadata path s = ((wrapped.view s.remote).metadata path, s)

  unfoldable pub read : Text → Io (Files S T) Bytes
  unfolding CachingStorage.read
  read path = on_world (λ inner. CachingStorage.read store target inner cred_fp path)

  unfoldable pub reader : Text → Io (Files S T) FileReader
  reader path s = (wrapped.open_reader path s.remote >>= λ u. ok (record { location = path }), s)

  -- `read` of a reader.
  unfoldable pub read_from : FileReader → Range → Io (Files S T) Bytes
  unfolding file_read
  read_from file range =
      on_world (λ inner. file_read store target inner cred_fp file.location range)

  unfoldable pub write : Text → Bytes → Io (Files S T) (Unit {0})
  write path bs = on_remote (wrapped.write_file path bs)

  unfoldable pub delete : Text → Io (Files S T) (Unit {0})
  delete path = on_remote (wrapped.delete_file path)

  unfoldable pub delete_prefix : Text → Io (Files S T) (Unit {0})
  delete_prefix path = on_remote (wrapped.delete_files path)
