-- ===== src/Tests/Files.antt =====
-- Runs of reads, writes and deletions through the cache.
use iceberg_db_rs.Base.{
  ◌≡◌, ◌⊎◌, refl, true, add32, sub64, Option, none, some, length, ok, err, not_found, arith,
}
use iceberg_db_rs.Base.Text.{codes}
use iceberg_db_rs.ByteCache.Chunks.{find_range, find_full_object, insert}
use iceberg_db_rs.ByteCache.Range.{Bytes, window, slice_cached_range}
use iceberg_db_rs.ByteCache.Memory.{MemoryByteCache, new, put, get_range, get_full_object}
use iceberg_db_rs.ByteCache.Memory.Serves.{memory_store, memory_laws}
use iceberg_db_rs.QueryIo.{wasm32, initial, query_cancelled}
use iceberg_db_rs.CachingStorage
use iceberg_db_rs.CachingStorage.{Storage, file_read}
use iceberg_db_rs.CachingStorage.Transparent.{IsStorageOf}
use iceberg_db_rs.CachingStorage.Files.{Wrapped, Files, FileReader, read, read_from, write, delete}
use iceberg_db_rs.CachingStorage.WriteOnce.{
  IsWritable, here, next, reads_range, writes, deletes, Reach-read_from,
}
use iceberg_db_rs.Tests.Cache.{
  insertion_order, path, object, origin, range, range_valid, remote-IsStorageOf,
}

-- A storage of one content, at every path.
abbrev missing : Storage
missing = record {
  metadata = λ p. err not_found;
  read = λ p. err not_found;
  read_range = λ p r. err not_found;
}

abbrev holding : Option Bytes → Storage
holding none = missing
holding (some b) = record {
  metadata = λ p. ok (length b);
  read = λ p. ok b;
  read_range = λ p r. ok (window r b);
}

abbrev one_file : Wrapped (Option Bytes)
one_file = record {
  view = holding;
  file_exists = λ p t. ok true;
  open_reader = λ p t. ok tt;
  write_file = λ p b t. (ok tt, some b);
  delete_file = λ p t. (ok tt, none);
  delete_files = λ p t. (ok tt, none);
}

missing-IsStorageOf : IsStorageOf origin 42 missing
missing-IsStorageOf = record {
  metadata-length = λ p n e. cc;
  read-object = λ p b e. cc;
  read_range-window = λ p r b e. cc;
}

one_file-IsWritable : IsWritable (memory_laws insertion_order) origin wasm32 one_file 42
one_file-IsWritable = record {
  write_file-Holds = λ p t h. remote-IsStorageOf;
  delete_file-Holds = λ p t h. missing-IsStorageOf;
  delete_files-Holds = λ p t h. missing-IsStorageOf;
}

abbrev start : Files MemoryByteCache (Option Bytes)
start = record { world = record { cache = new 100; io = initial }; remote = none }

abbrev file : FileReader
file = record { location = path }

abbrev written : Files MemoryByteCache (Option Bytes)
written = (write (memory_store insertion_order) wasm32 one_file 42 path object start).1

abbrev seen : Files MemoryByteCache (Option Bytes)
seen = (read_from (memory_store insertion_order) wasm32 one_file 42 file (range 1 3) written).1

abbrev ended : Files MemoryByteCache (Option Bytes)
ended = (delete (memory_store insertion_order) wasm32 one_file 42 path seen).1

-- What the runs unfold.
program : Unit {0}
unfolding put get_range get_full_object new find_range find_full_object insert slice_cached_range
    add32 sub64 query_cancelled file_read CachingStorage.read read read_from write delete
program = tt

deleted_still_read :
    (read_from (memory_store insertion_order) wasm32 one_file 42 file (range 1 3) ended).0
    ≡ ok (codes "bc")
unfolding program
deleted_still_read = refl

-- What is written over a range that was read is not seen there.
overwritten_not_seen :
    (read_from
      (memory_store insertion_order)
      wasm32
      one_file
      42
      file
      (range 1 3)
      (write (memory_store insertion_order) wasm32 one_file 42 path (codes "12345678") seen).1).0
    ≡ ok (codes "bc")
unfolding program
overwritten_not_seen = refl

Reach-read_from_example :
    ((read_from (memory_store insertion_order) wasm32 one_file 42 file (range 1 3) ended).0
      ≡ (one_file.view ended.remote).read_range path (range 1 3))
    ⊎ ((read_from (memory_store insertion_order) wasm32 one_file 42 file (range 1 3) ended).0
        ≡ ok (codes "bc"))
unfolding program
Reach-read_from_example =
    Reach-read_from (memory_laws insertion_order) origin wasm32 one_file 42 (λ p. omega arith)
      one_file-IsWritable file (range 1 3) start ended
      (record { serves = tt; holds = missing-IsStorageOf })
      (next
        (next (next here (writes path start)) (reads_range file (range 1 3) written range_valid))
        (deletes path seen))
      refl range_valid
