-- ===== src/ByteCache/Settings.antt =====
-- The settings of the byte cache, the process's cache and the browser's reads through it
-- (`wasm_try_cache_read` and `wasm_store_cache_read` of idb-catalog/src/wasm_s3_storage.rs).
use iceberg_db_rs.Base.{
  ℕ, ◌*◌, ◌-◌, ◌≡◌, refl, ◌∙◌, ap, Bool, true, false, ◌||◌, not, Option, none, some, List, [], ◌∷◌,
  ◌++◌, ltb, if◌then◌else◌, arith, length, Outcome, ok,
}
use iceberg_db_rs.Base.Text.{Text, codes, text_eq}
use iceberg_db_rs.Base.Text.Chars.{to_ascii_lowercase}
use iceberg_db_rs.Base.Text.Cut.{trim}
use iceberg_db_rs.Base.Dict
use iceberg_db_rs.Base.Dict.{Dict, get-insert}
use iceberg_db_rs.ByteCache.Range.{Bytes, Range, usize_mod}
use iceberg_db_rs.ByteCache.Interface.{ByteCacheStore}
use iceberg_db_rs.QueryIo.{QueryIo, Target, native, wasm32, record_byte_cache_hit}
use iceberg_db_rs.BrowserS3.{parse_usize, nonempty, or_option, or_text}

-- `IDB_BYTE_CACHE`, if it is set.
unfoldable pub byte_cache_enabled_from_env : Option Text → Bool
byte_cache_enabled_from_env none = true
byte_cache_enabled_from_env (some v) = not (
    text_eq v (codes "0")
    || text_eq v (codes "false")
    || text_eq v (codes "FALSE")
    || text_eq v (codes "off"))

unfoldable pub byte_cache_enabled_from_props : Option Text → Dict Text → Bool
unfolding byte_cache_enabled_from_env
byte_cache_enabled_from_props env props = elim (Dict.get props (codes "idb.byte-cache")) [
  | none ↦ byte_cache_enabled_from_env env
  | some v ↦
      let w = trim v in
      not (
        text_eq w (codes "0")
        || text_eq (to_ascii_lowercase w) (codes "false")
        || text_eq (to_ascii_lowercase w) (codes "off"))
]

abbrev pub stable_keys : List Text
stable_keys =
    codes "uri"
    ∷ codes "warehouse"
    ∷ codes "prefix"
    ∷ codes "s3.endpoint"
    ∷ codes "client.region"
    ∷ codes "s3.path-style-access"
    ∷ codes "s3.region"
    ∷ codes "s3.bucket"
    ∷ []

abbrev pub push_some : Option Text → List Text → List Text
push_some none vs = vs
push_some (some v) vs = v ∷ vs

-- What is written to the hasher, in order.
unfoldable pub hashed : List Text → Dict Text → List Text
hashed [] props = []
hashed (k ∷ ks) props = push_some (nonempty (Dict.get props k)) (hashed ks props)

-- `finish` is what the hasher makes of the texts written to it.
unfoldable pub cred_fingerprint : (List Text → ℕ) → Dict Text → ℕ
unfolding hashed
cred_fingerprint finish props = finish (hashed stable_keys props)

abbrev pub saturating : Target → ℕ → ℕ
saturating target n = if ltb n (usize_mod target) then n else usize_mod target - 1

abbrev pub mib : ℕ
mib = 1024 * 1024

abbrev pub default_max_bytes : Target → ℕ
default_max_bytes native = 0
default_max_bytes wasm32 = 1024 * mib

abbrev pub parse_some : Target → Option Text → Option ℕ
parse_some target none = none
parse_some target (some s) = parse_usize target (trim s)

unfoldable pub max_cache_bytes_from_props : Target → Dict Text → ℕ
max_cache_bytes_from_props target props =
    elim (parse_some target (Dict.get props (codes "idb.byte-cache-max-mib"))) [
      | none ↦ default_max_bytes target
      | some n ↦ saturating target (n * mib)
    ]

-- The cache that is opened: none, one on the disk in a directory, or one of so many bytes.
pub data OpenCache : Type 0 where
  no_cache : OpenCache
  disk_cache : Text → OpenCache
  memory_cache : ℕ → OpenCache

-- A path in a directory: nothing stands before it when the directory is the empty path.
abbrev pub join_path : Text → Text → Text
join_path [] path = path
join_path (c ∷ dir) path = (c ∷ dir) ++ codes "/" ++ path

module _ (env : Text → Option Text) (temp_dir : Text) where
  unfoldable pub default_native_cache_dir : Text
  default_native_cache_dir =
      elim (or_option (env (codes "IDB_BYTE_CACHE_DIR"))
        (or_option (env (codes "HOME")) (env (codes "USERPROFILE")))) [
          | some h ↦ join_path h (codes ".cache/iceberg-db/byte-cache")
          | none ↦ join_path temp_dir (codes "iceberg-db-byte-cache")
        ]

  abbrev pub opened_cache : Target → Dict Text → OpenCache
  opened_cache native props =
      disk_cache
        (or_text (nonempty (Dict.get props (codes "idb.byte-cache-dir"))) default_native_cache_dir)
  opened_cache wasm32 props = memory_cache (max_cache_bytes_from_props wasm32 props)

  unfoldable pub open_byte_cache : Target → Dict Text → OpenCache
  unfolding byte_cache_enabled_from_props max_cache_bytes_from_props default_native_cache_dir
  open_byte_cache target props =
      if byte_cache_enabled_from_props (env (codes "IDB_BYTE_CACHE")) props
      then opened_cache target props
      else no_cache

-- The process's cache, which is set once, and the fingerprint, which every call sets.
pub record Global (S : Type 0) : Type 0 where
  pub global_cache : Option S
  pub global_fingerprint : ℕ

unfoldable pub install_global_byte_cache :
    {S : Type 0} → (List Text → ℕ) → S → Dict Text → Global S → Global S
unfolding cred_fingerprint
install_global_byte_cache finish store props g = record {
  global_cache = elim g.global_cache [ none ↦ some store | some old ↦ some old ];
  global_fingerprint = cred_fingerprint finish props;
}

module _ {S : Type 0} (store : ByteCacheStore S) (fingerprint : ℕ) where
  abbrev pub counted : Outcome (Option Bytes) → QueryIo → Outcome (Option Bytes) × QueryIo
  counted (ok (some hit)) io = (ok (some hit), record_byte_cache_hit wasm32 io)
  counted r io = (r, io)

  -- A read of a range, or of the whole object, in the browser.
  unfoldable pub wasm_try_cache_read :
      Text → Option Range → Option S → QueryIo → Outcome (Option Bytes) × QueryIo
  wasm_try_cache_read path range none io = (ok none, io)
  wasm_try_cache_read path (some range) (some cache) io =
      counted (store.get_range cache path range fingerprint) io
  wasm_try_cache_read path none (some cache) io =
      counted (ok (store.get_full_object cache path fingerprint)) io

  abbrev pub range_or_whole : Option Range → ℕ → Range
  range_or_whole none n = record { start = 0; end = n }
  range_or_whole (some range) n = range

  unfoldable pub wasm_store_cache_read : Text → Option Range → Bytes → Option S → Option S
  wasm_store_cache_read path range [] cache = cache
  wasm_store_cache_read path range (x ∷ b) none = none
  wasm_store_cache_read path range (x ∷ b) (some cache) = some (
      store.put cache
        (record {
          path = path;
          range = range_or_whole range (length (x ∷ b));
          cred_fingerprint = fingerprint;
        })
        (x ∷ b))

abbrev pub is_key : Text → List Text → Bool
is_key k [] = false
is_key k (x ∷ xs) = text_eq k x || is_key k xs

hashed-insert :
    (ks : List Text) (props : Dict Text) (k v : Text)
    → is_key k ks ≡ false
    → hashed ks (Dict.insert props k v) ≡ hashed ks props
unfolding hashed
hashed-insert [] props k v h = refl
hashed-insert (x ∷ ks) props k v h =
    ap (λ o. push_some (nonempty o) (hashed ks (Dict.insert props k v)))
      (get-insert props k v x ∙ unchanged (text_eq k x) (ground arith))
    ∙ ap (push_some (nonempty (Dict.get props x))) (hashed-insert ks props k v (ground arith))
  where
    unchanged : (b : Bool) → b ≡ false → (if b then some v else Dict.get props x) ≡ Dict.get props x
    unchanged true e = absurd (ground (arith, e))
    unchanged false e = refl

-- A property other than the eight that name a catalog's connection does not change the fingerprint,
-- so that fresh keys and session tokens find the chunks of the earlier ones.
pub cred_fingerprint-insert :
    (finish : List Text → ℕ) (props : Dict Text) (k v : Text)
    → is_key k stable_keys ≡ false
    → cred_fingerprint finish (Dict.insert props k v) ≡ cred_fingerprint finish props
unfolding cred_fingerprint
cred_fingerprint-insert finish props k v h = ap finish (hashed-insert stable_keys props k v h)
