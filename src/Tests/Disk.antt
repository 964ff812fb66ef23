-- ===== src/Tests/Disk.antt =====
-- Runs of the cache on disk.
use iceberg_db_rs.Base.{◌≡◌, refl, Bool, true, some, [], ◌∷◌, ok}
use iceberg_db_rs.Base.Text.{Text, codes}
use iceberg_db_rs.ByteCache.Range.{ByteCacheKey}
use iceberg_db_rs.ByteCache.Disk.{fs_new, fs_put, fs_get_range, fs_get_range-fs_new-fs_put}

-- The range and the path.
abbrev file_name : ByteCacheKey → Text
file_name key = key.range.start ∷ key.range.end ∷ key.path

abbrev writes : ByteCacheKey → Bool
writes key = true

abbrev key : ByteCacheKey
key = record {
  path = codes "s3://b/k";
  range = record { start = 2; end = 5 };
  cred_fingerprint = 7;
}

fs_get_range-fs_new-fs_put_example :
    (fs_get_range file_name writes
        (fs_put file_name writes (fs_new []) key (codes "abc"))
        key.path
        key.range
        key.cred_fingerprint
      ≡ ok (some (codes "abc")))
    × (fs_get_range file_name writes
          (fs_new (fs_put file_name writes (fs_new []) key (codes "abc")).disk)
          key.path
          key.range
          key.cred_fingerprint
        ≡ ok (some (codes "abc")))
fs_get_range-fs_new-fs_put_example =
    fs_get_range-fs_new-fs_put file_name writes (fs_new []) key b'a' (codes "bc") refl
