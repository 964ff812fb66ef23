-- ===== src/Tests/Cache.antt =====
-- Runs of the byte cache, the reads through it and the counters of a query.
use iceberg_db_rs.Base.{
  ℕ, ◌≡◌, ◌≢◌, ◌⊎◌, refl, sym, ap, add32, sub64, Option, none, some, [], ◌∷◌, false, length,
  Outcome, ok, arith,
}
use iceberg_db_rs.Base.Text.{Text, codes}
use iceberg_db_rs.ByteCache.Range.{
  Bytes, Range, ByteCacheKey, IsRange, window, slice_cached_range, as_usize,
}
use iceberg_db_rs.ByteCache.Chunks.{bytes_used, find_range, find_full_object, insert}
use iceberg_db_rs.ByteCache.Interface.{Origin}
use iceberg_db_rs.ByteCache.Memory.{
  MapOrder, PathMap, PathCredKey, get_path, remove_path, is_empty, MemoryByteCache, new, put,
  get_range, get_full_object,
}
use iceberg_db_rs.ByteCache.Memory.Bounds.{IsCounted, IsBounded, put-IsBounded}
use iceberg_db_rs.ByteCache.Memory.Content.{key_eq_self}
use iceberg_db_rs.ByteCache.Memory.Serves.{
  memory_store, memory_laws, ServesOrigin, get_range-window, get_range-put, put-ServesOrigin,
}
use iceberg_db_rs.QueryIo.{
  native, wasm32, initial, reset_query_state, files_fetched, query_cancelled,
}
use iceberg_db_rs.QueryIo.Counters.{fetch_all, files_fetched-distinct}
use iceberg_db_rs.CachingStorage.{Storage, World, read_range_cached, file_read, read}
use iceberg_db_rs.CachingStorage.Transparent.{IsStorageOf, IsRead, file_read-IsRead, read-IsRead}
use iceberg_db_rs.CachingStorage.Prefix.{disk_store, started, after_range, read-file_read-prefix}
use iceberg_db_rs.Base.{Bool, true}
use iceberg_db_rs.Base.Dict

abbrev pub first_key : PathMap → Option PathCredKey
first_key [] = none
first_key (e ∷ m) = some e.0

pub first_key_stored :
    (m : PathMap)
    → is_empty m ≡ false
    → (k : PathCredKey) × (first_key m ≡ some k) × (get_path m k ≢ none)
unfolding get_path
first_key_stored [] h = absurd (ground arith)
first_key_stored ((k, cs) ∷ m) h = (k, refl, ground (arith, key_eq_self k))

abbrev pub insertion_order : MapOrder
insertion_order = record { next_key = first_key; next_key_stored = first_key_stored }

abbrev pub path : Text
path = codes "s3://b/k"

abbrev pub object : Bytes
object = codes "abcdefgh"

abbrev pub origin : Origin
origin p cred = object

abbrev pub range : ℕ → ℕ → Range
range start end = record { start = start; end = end }

abbrev key : ByteCacheKey
key = record { path = path; range = range 0 6; cred_fingerprint = 42 }

abbrev warm : MemoryByteCache
warm = put insertion_order (new 100) key (codes "abcdef")

abbrev other_key : ByteCacheKey
other_key = record { path = codes "s3://b/j"; range = range 0 3; cred_fingerprint = 42 }

-- What the runs unfold.
program : Unit {0}
unfolding put get_range get_full_object new find_range find_full_object add32 sub64 insert
    slice_cached_range query_cancelled file_read read read_range_cached
program = tt

-- `memory_cache_serves_subset_of_cached_range`, on a smaller object.
subset_hit : get_range warm path (range 1 3) 42 ≡ ok (some (codes "bc"))
unfolding program
subset_hit = refl

outside_miss : get_range warm path (range 4 8) 42 ≡ ok none
unfolding program
outside_miss = refl

other_credential_miss : get_range warm path (range 1 3) 7 ≡ ok none
unfolding program
other_credential_miss = refl

-- The length of a range is cut to 32 bits: of a range far beyond the object, bytes of its start.
truncated_hit :
    get_range
      (put insertion_order
        (new 100)
        (record { path = path; range = range 0 4294967306; cred_fingerprint = 42 })
        (codes "abcdefghij"))
      path
      (range 4294967298 4294967301)
      42
    ≡ ok (some (codes "cde"))
unfolding program as_usize
truncated_hit = refl

-- A cache of 4 bytes drops everything for a chunk of 6.
small_keeps_last :
    (put insertion_order
      (put insertion_order (new 4) key (codes "abcdef"))
      other_key
      (codes "abc")).bytes_used
    ≡ 3
unfolding program bytes_used remove_path
small_keeps_last = refl

pub range_valid : IsRange wasm32 (range 1 3)
range_valid = omega arith

key_valid : IsRange wasm32 key.range
key_valid = omega arith

new-ServesOrigin : ServesOrigin origin (new 100)
unfolding new
new-ServesOrigin = tt

new-IsCounted : IsCounted (new 100)
unfolding new
new-IsCounted = omega arith

put-ServesOrigin_example : ServesOrigin origin warm
put-ServesOrigin_example =
    put-ServesOrigin origin insertion_order (new 100) key (codes "abcdef") new-ServesOrigin
      key_valid refl

warm-ServesOrigin : ServesOrigin origin warm
warm-ServesOrigin =
    put-ServesOrigin origin insertion_order (new 100) key (codes "abcdef") new-ServesOrigin
      key_valid refl

get_range-window_example :
    (get_range warm path (range 1 3) 42 ≡ ok none)
    ⊎ (get_range warm path (range 1 3) 42 ≡ ok (some (codes "bc")))
get_range-window_example =
    get_range-window origin warm path (range 1 3) 42 warm-ServesOrigin range_valid

get_range-put_example : get_range warm path (range 1 3) 42 ≡ ok (some (codes "bc"))
get_range-put_example =
    get_range-put origin insertion_order (new 100) key b'a' (codes "bcdef") (range 1 3)
      new-ServesOrigin key_valid refl refl range_valid (omega arith) (omega arith)

put-IsBounded_example : IsBounded (codes "abcdef") (new 100) warm
unfolding new
put-IsBounded_example =
    put-IsBounded insertion_order (new 100) key b'a' (codes "bcdef") new-IsCounted (omega arith)

-- The storage that holds the object at every path.
abbrev pub remote : Storage
remote = record {
  metadata = λ p. ok (length object);
  read = λ p. ok object;
  read_range = λ p r. ok (window r object);
}

outcome_value : Outcome Bytes → Bytes
outcome_value (ok b) = b
outcome_value _ = []

outcome_size : Outcome ℕ → ℕ
outcome_size (ok n) = n
outcome_size _ = 0

pub remote-IsStorageOf : IsStorageOf origin 42 remote
unfolding outcome_value outcome_size
remote-IsStorageOf = record {
  metadata-length = λ p n e. sym (ap outcome_size e);
  read-object = λ p b e. sym (ap outcome_value e);
  read_range-window = λ p r b e. sym (ap outcome_value e);
}

abbrev world : World MemoryByteCache
world = record { cache = new 100; io = initial }

file_read-IsRead_example :
    IsRead
      (memory_store insertion_order)
      (memory_laws insertion_order)
      origin
      wasm32
      remote
      42
      remote-IsStorageOf
      (codes "bc")
      (ok (codes "bc"))
      world
      (file_read (memory_store insertion_order) wasm32 remote 42 path (range 1 3) world)
unfolding query_cancelled
file_read-IsRead_example =
    file_read-IsRead (memory_store insertion_order) (memory_laws insertion_order) origin wasm32
      remote 42 remote-IsStorageOf path (range 1 3) world refl new-ServesOrigin range_valid

read-IsRead_example :
    IsRead
      (memory_store insertion_order)
      (memory_laws insertion_order)
      origin
      wasm32
      remote
      42
      remote-IsStorageOf
      object
      (ok object)
      world
      (read (memory_store insertion_order) wasm32 remote 42 path world)
unfolding query_cancelled get_full_object new
read-IsRead_example =
    read-IsRead (memory_store insertion_order) (memory_laws insertion_order) origin wasm32 remote 42
      remote-IsStorageOf path world new-ServesOrigin (omega arith) refl refl

-- Every chunk in one file.
abbrev one_name : ByteCacheKey → Text
one_name k = codes "0a"

abbrev all_written : ByteCacheKey → Bool
all_written k = true

read-file_read-prefix_example :
    ((read (disk_store one_name all_written) native remote 42 path (
        after_range one_name all_written path 42 3 remote
          (started one_name all_written path 42 3 [] initial))).0
      ≡ ok (codes "abc"))
    × (ok (codes "abc") ≢ remote.read path)
unfolding Dict.get
read-file_read-prefix_example =
    read-file_read-prefix one_name all_written path 42 3 remote [] initial object (omega arith)
      (omega arith) refl refl refl

files_fetched-distinct_example :
    files_fetched wasm32
      (fetch_all (codes "a" ∷ codes "b" ∷ codes "a" ∷ []) (reset_query_state wasm32 initial))
    ≡ 2
files_fetched-distinct_example =
    files_fetched-distinct (codes "a" ∷ codes "b" ∷ codes "a" ∷ []) initial (omega arith)
