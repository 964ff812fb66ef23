-- ===== src/ByteCache/Memory.antt =====
-- `MemoryByteCache` of byte_cache/mod.rs: the in-process cache of the browser build. A method takes
-- the state and returns the new one; the locks guard single calls and are not modelled.
pub mod Bounds
pub mod Content
pub mod Serves
use mathlib.Core.Option
use iceberg_db_rs.Base.{
  ℕ, zero, suc, ◌-◌, ◌≡◌, ◌≢◌, Bool, true, false, not, ◌&&◌, Option, none, some, List, [], ◌∷◌, ltb,
  leb, ◌==◌, if◌then◌else◌, length, add32, Outcome, ok,
}
use iceberg_db_rs.Base.Text.{Text, text_eq}
use iceberg_db_rs.QueryIo.{wasm32}
use iceberg_db_rs.ByteCache.Range.{Bytes, Range, ByteCacheKey}
use iceberg_db_rs.ByteCache.Chunks.{PathByteCache, find_range, find_full_object, insert, bytes_used}

abbrev pub PathCredKey : Type 0
PathCredKey = Text × ℕ

abbrev pub key_eq : PathCredKey → PathCredKey → Bool
key_eq a b = text_eq a.0 b.0 && (a.1 == b.1)

-- `HashMap<PathCredKey, PathByteCache>`.
abbrev pub PathMap : Type 0
PathMap = List (PathCredKey × PathByteCache)

unfoldable pub get_path : PathMap → PathCredKey → Option PathByteCache
get_path [] k = none
get_path ((j, cs) ∷ m) k = if key_eq j k then some cs else get_path m k

-- `remove`: the chunks taken out, and the map without them.
unfoldable pub remove_path : PathMap → PathCredKey → Option (PathByteCache × PathMap)
remove_path [] k = none
remove_path ((j, cs) ∷ m) k =
    if key_eq j k then some (cs, m) else Option.map (λ r. (r.0, (j, cs) ∷ r.1)) (remove_path m k)

-- `entry(path_key).or_default()` and `PathByteCache::insert`.
unfoldable pub insert_path : PathMap → PathCredKey → ByteCacheKey → Bytes → PathMap
insert_path [] k key b = (k, (insert [] key b).0) ∷ []
insert_path ((j, cs) ∷ m) k key b =
    if key_eq j k then (j, (insert cs key b).0) ∷ m else (j, cs) ∷ insert_path m k key b

-- `values().map(bytes_used).sum()`.
unfoldable pub sum_used : ℕ → PathMap → ℕ
sum_used acc [] = acc
sum_used acc ((k, cs) ∷ m) = sum_used (add32 acc (bytes_used cs)) m

abbrev pub is_empty : PathMap → Bool
is_empty [] = true
is_empty (e ∷ m) = false

-- `keys().next()`: the order of a hash map is not specified, but the key is one of the map's.
pub record MapOrder : Type 0 where
  pub next_key : PathMap → Option PathCredKey
  pub next_key_stored :
      (m : PathMap)
      → is_empty m ≡ false
      → (k : PathCredKey) × (next_key m ≡ some k) × (get_path m k ≢ none)

pub record MemoryByteCache : Type 0 where
  pub by_path : PathMap
  pub bytes_used : ℕ
  pub max_bytes : ℕ

unfoldable pub new : ℕ → MemoryByteCache
new max_bytes = record { by_path = []; bytes_used = 0; max_bytes = max_bytes }

module _ (order : MapOrder) where
  -- The loop of `evict_if_needed`; each round takes one entry out.
  unfoldable pub evict_loop : ℕ → ℕ → ℕ → PathMap → ℕ → PathMap × ℕ
  evict_loop zero max incoming m used = (m, used)
  evict_loop (suc fuel) max incoming m used =
      elim (ltb max (add32 used incoming) && not (is_empty m)) [
        | false ↦ (m, used)
        | true ↦ elim (order.next_key m) [
          | none ↦ (m, used)
          | some k ↦ elim (remove_path m k) [
            | none ↦ evict_loop fuel max incoming m used
            | some r ↦ evict_loop fuel max incoming r.1 (used - bytes_used r.0)
          ]
        ]
      ]

  unfoldable pub evict_if_needed : MemoryByteCache → ℕ → MemoryByteCache
  unfolding evict_loop
  evict_if_needed c incoming =
      if leb (add32 c.bytes_used incoming) c.max_bytes
      then c
      else (let (m, used) =
            evict_loop (length c.by_path) c.max_bytes incoming c.by_path c.bytes_used in
          record c { by_path = m; bytes_used = used })

  unfoldable pub put : MemoryByteCache → ByteCacheKey → Bytes → MemoryByteCache
  unfolding evict_if_needed insert_path sum_used
  put c key [] = c
  put c key (x ∷ b) =
      let c' = evict_if_needed c (length (x ∷ b)) in
      let m = insert_path c'.by_path (key.path, key.cred_fingerprint) key (x ∷ b) in
      record c' { by_path = m; bytes_used = sum_used 0 m }

unfoldable pub get_range : MemoryByteCache → Text → Range → ℕ → Outcome (Option Bytes)
unfolding get_path
get_range c path range cred = elim (get_path c.by_path (path, cred)) [
  | none ↦ ok none
  | some cs ↦ find_range wasm32 cs range
]

unfoldable pub get : MemoryByteCache → ByteCacheKey → Outcome (Option Bytes)
unfolding get_range
get c key = get_range c key.path key.range key.cred_fingerprint

unfoldable pub get_full_object : MemoryByteCache → Text → ℕ → Option Bytes
unfolding get_path
get_full_object c path cred = elim (get_path c.by_path (path, cred)) [
  | none ↦ none
  | some cs ↦ find_full_object cs
]
