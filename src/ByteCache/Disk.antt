-- ===== src/ByteCache/Disk.antt =====
-- `FsByteCache`: chunks on disk and in the process. The disk is a map from file names to contents.
-- The name of a chunk's file, which is a hash of its key, and whether its write succeeds are
-- parameters; a write goes to a temporary file that is then renamed, so it is seen whole or not.
use iceberg_db_rs.Base.{
  ℕ, ◌≡◌, ◌∙◌, Bool, true, Option, none, some, [], ◌∷◌, if◌then◌else◌, Outcome, ok,
}
use iceberg_db_rs.Base.Text.{Text, text_eq_self}
use iceberg_db_rs.Base.Dict
use iceberg_db_rs.Base.Dict.{Dict, get-insert}
use iceberg_db_rs.QueryIo.{native}
use iceberg_db_rs.ByteCache.Range.{Bytes, Range, ByteCacheKey}
use iceberg_db_rs.ByteCache.Chunks.{find_range, find_full_object}
use iceberg_db_rs.ByteCache.Memory.{PathMap, get_path, insert_path}

pub record FsByteCache : Type 0 where
  pub disk : Dict Bytes
  pub by_path : PathMap

-- A new cache has no chunks in the process; the files of earlier ones are there.
unfoldable pub fs_new : Dict Bytes → FsByteCache
fs_new disk = record { disk = disk; by_path = [] }

module _ (file_name : ByteCacheKey → Text) (writes : ByteCacheKey → Bool) where
  unfoldable pub fs_get : FsByteCache → ByteCacheKey → Option Bytes
  fs_get c key = Dict.get c.disk (file_name key)

  -- From the lookup of the file to the lookup of the chunks.
  unfoldable pub fs_get_range : FsByteCache → Text → Range → ℕ → Outcome (Option Bytes)
  unfolding fs_get
  fs_get_range c path range cred =
      elim (fs_get c (record { path = path; range = range; cred_fingerprint = cred })) [
        | some hit ↦ ok (some hit)
        | none ↦ elim (get_path c.by_path (path, cred)) [
          | none ↦ ok none
          | some chunks ↦ find_range native chunks range
        ]
      ]

  unfoldable pub fs_get_full_object : FsByteCache → Text → ℕ → Option Bytes
  fs_get_full_object c path cred = elim (get_path c.by_path (path, cred)) [
    | none ↦ none
    | some chunks ↦ find_full_object chunks
  ]

  unfoldable pub fs_put : FsByteCache → ByteCacheKey → Bytes → FsByteCache
  fs_put c key [] = c
  fs_put c key (x ∷ b) = record {
    disk = if writes key then Dict.insert c.disk (file_name key) (x ∷ b) else c.disk;
    by_path = insert_path c.by_path (key.path, key.cred_fingerprint) key (x ∷ b);
  }

  -- A chunk whose file was written is found again under its range, by the same cache and by one that
  -- is opened later on the same disk.
  pub fs_get_range-fs_new-fs_put :
      (c : FsByteCache) (key : ByteCacheKey) (x : ℕ) (b : Bytes)
      → writes key ≡ true
      → (fs_get_range (fs_put c key (x ∷ b)) key.path key.range key.cred_fingerprint
          ≡ ok (some (x ∷ b)))
        × (fs_get_range (fs_new (fs_put c key (x ∷ b)).disk) key.path key.range key.cred_fingerprint
            ≡ ok (some (x ∷ b)))
  unfolding fs_get_range fs_get fs_put fs_new
  fs_get_range-fs_new-fs_put c key x b w =
      let found : Dict.get (fs_put c key (x ∷ b)).disk (file_name key) ≡ some (x ∷ b) = rw w (
        get-insert c.disk (file_name key) (x ∷ b) (file_name key)
        ∙ rw (text_eq_self (file_name key))) in
      (rw (found, fs_get_range), rw (found, fs_get_range))
