-- ===== src/ByteCache/Interface.antt =====
-- The trait `ByteCacheStore` of byte_cache/mod.rs as a record of operations, what its clients rely
-- on as laws, `NoopByteCache`, and the read-through helper `read_range_cached`.
use iceberg_db_rs.Base.{ℕ, ◌≡◌, refl, ◌⊎◌, inl, Option, none, some, take, Outcome, ok}
use iceberg_db_rs.Base.Text.{Text}
use iceberg_db_rs.QueryIo.{Target}
use iceberg_db_rs.ByteCache.Range.{Bytes, Range, ByteCacheKey, IsRange, window}

pub record ByteCacheStore (S : Type 0) : Type 0 where
  pub get_range : S → Text → Range → ℕ → Outcome (Option Bytes)
  pub get_full_object : S → Text → ℕ → Option Bytes
  pub put : S → ByteCacheKey → Bytes → S

-- The content of each remote object, by path and credential.
abbrev pub Origin : Type 0
Origin = Text → ℕ → Bytes

-- What a store promises: it serves the bytes of the objects, if it was only given such bytes.
pub record StoreLaws {S : Type 0} (store : ByteCacheStore S) : Type 1 where
  -- The platform of the store.
  pub target : Target
  pub Serves : Origin → S → Type 0
  pub get_range-Serves :
      (origin : Origin) (s : S) (path : Text) (range : Range) (cred : ℕ)
      → Serves origin s
      → IsRange target range
      → (store.get_range s path range cred ≡ ok none)
        ⊎ (store.get_range s path range cred ≡ ok (some (window range (origin path cred))))
  pub get_full_object-Serves :
      (origin : Origin) (s : S) (path : Text) (cred : ℕ)
      → Serves origin s
      → (store.get_full_object s path cred ≡ none)
        ⊎ ((n : ℕ) × (store.get_full_object s path cred ≡ some (take n (origin path cred))))
  pub put-Serves :
      (origin : Origin) (s : S) (key : ByteCacheKey)
      → Serves origin s
      → IsRange target key.range
      → Serves origin (store.put s key (window key.range (origin key.path key.cred_fingerprint)))

-- `NoopByteCache`: nothing is found and nothing is kept.
unfoldable pub noop : ByteCacheStore (Unit {0})
noop = record {
  get_range = λ s path range cred. ok none;
  get_full_object = λ s path cred. none;
  put = λ s key b. s;
}

pub noop_laws : Target → StoreLaws noop
unfolding noop
noop_laws target = record {
  target = target;
  Serves = λ origin s. Unit;
  get_range-Serves = λ origin s path range cred h r. inl refl;
  get_full_object-Serves = λ origin s path cred h. inl refl;
  put-Serves = λ origin s key h r. tt;
}
