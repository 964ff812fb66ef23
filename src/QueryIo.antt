-- ===== src/QueryIo.antt =====
-- crates/idb-catalog/src/wasm_query_io.rs: the counters and the cancel flag of the running query.
-- They are static variables of the browser build; the native build has none, and its reads give 0.
pub mod Counters
use iceberg_db_rs.Base.{
  ℕ, ◌+◌, Bool, true, false, ◌||◌, Option, none, some, List, [], ◌∷◌, ltb, if◌then◌else◌, add64,
}
use iceberg_db_rs.Base.Text.{Text, text_eq}

-- `cfg(target_arch = "wasm32")`.
pub data Target : Type 0 where
  native wasm32 : Target

-- `HashSet<String>`.
abbrev pub contains : Text → List Text → Bool
contains u [] = false
contains u (v ∷ vs) = text_eq v u || contains u vs

pub record QueryIo : Type 0 where
  pub cancel_requested : Bool
  pub bytes_fetched : ℕ
  pub s3_files_fetched : ℕ
  pub byte_cache_hits : ℕ
  pub byte_cache_misses : ℕ
  pub seen_s3_objects : Option (List Text)

-- The initial values of the statics.
abbrev pub initial : QueryIo
initial = record {
  cancel_requested = false;
  bytes_fetched = 0;
  s3_files_fetched = 0;
  byte_cache_hits = 0;
  byte_cache_misses = 0;
  seen_s3_objects = none;
}

unfoldable pub reset_query_state : Target → QueryIo → QueryIo
reset_query_state native q = q
reset_query_state wasm32 q = record q {
  cancel_requested = false;
  bytes_fetched = 0;
  s3_files_fetched = 0;
  byte_cache_hits = 0;
  byte_cache_misses = 0;
  seen_s3_objects = some [];
}

unfoldable pub record_byte_cache_hit : Target → QueryIo → QueryIo
record_byte_cache_hit native q = q
record_byte_cache_hit wasm32 q = record q { byte_cache_hits = add64 q.byte_cache_hits 1 }

unfoldable pub record_byte_cache_miss : Target → QueryIo → QueryIo
record_byte_cache_miss native q = q
record_byte_cache_miss wasm32 q = record q { byte_cache_misses = add64 q.byte_cache_misses 1 }

unfoldable pub request_query_cancel : Target → QueryIo → QueryIo
request_query_cancel native q = q
request_query_cancel wasm32 q = record q { cancel_requested = true }

unfoldable pub query_cancelled : Target → QueryIo → Bool
query_cancelled native q = false
query_cancelled wasm32 q = q.cancel_requested

unfoldable pub add_bytes_fetched : Target → ℕ → QueryIo → QueryIo
add_bytes_fetched native n q = q
add_bytes_fetched wasm32 n q =
    if ltb 0 n then record q { bytes_fetched = add64 q.bytes_fetched n } else q

abbrev seen_or_empty : Option (List Text) → List Text
seen_or_empty none = []
seen_or_empty (some seen) = seen

unfoldable pub record_s3_object_fetch : Target → Text → QueryIo → QueryIo
record_s3_object_fetch native url q = q
record_s3_object_fetch wasm32 url q =
    let seen = seen_or_empty q.seen_s3_objects in
    if contains url seen then record q { seen_s3_objects = some seen } else record q {
      seen_s3_objects = some (url ∷ seen);
      s3_files_fetched = add64 q.s3_files_fetched 1;
    }

unfoldable pub files_fetched : Target → QueryIo → ℕ
files_fetched native q = 0
files_fetched wasm32 q = q.s3_files_fetched

unfoldable pub bytes_fetched : Target → QueryIo → ℕ
bytes_fetched native q = 0
bytes_fetched wasm32 q = q.bytes_fetched
