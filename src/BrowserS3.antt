-- ===== src/BrowserS3.antt =====
-- crates/idb-catalog/src/wasm_s3_storage.rs: the settings of the browser's S3 storage (here), the
-- locations of objects (Objects) and the laws of the settings (Settings).
pub mod Objects
pub mod Settings
pub mod Signed
pub mod ThroughProxy
pub mod Storage
pub mod Reads
pub mod Steps
use iceberg_db_rs.Base.{
  ℕ, ◌+◌, ◌*◌, ◌-◌, Bool, true, false, ◌&&◌, ◌||◌, Option, none, some, List, [], ◌∷◌, ltb, leb,
  if◌then◌else◌, ◌==◌,
}
use iceberg_db_rs.Base.Text.{Text, codes, text_eq}
use iceberg_db_rs.Base.Text.Chars.{to_ascii_lowercase}
use iceberg_db_rs.Base.Text.Number.{parse_unsigned}
use iceberg_db_rs.Base.Dict
use iceberg_db_rs.QueryIo.{Target, wasm32}
use iceberg_db_rs.ByteCache.Range.{usize_mod}
use iceberg_db_rs.Base.Dict.{Dict}

pub record S3Props : Type 0 where
  pub endpoint : Option Text
  pub access_key_id : Text
  pub secret_access_key : Text
  pub session_token : Option Text
  pub region : Text
  pub path_style : Bool
  pub dev_proxy_base : Option Text
  pub fetch_concurrency : ℕ

-- `filter(|s| !s.is_empty())`.
abbrev pub nonempty : Option Text → Option Text
nonempty none = none
nonempty (some []) = none
nonempty (some (c ∷ s)) = some (c ∷ s)

abbrev pub or_option : Option Text → Option Text → Option Text
or_option none b = b
or_option (some t) b = some t

abbrev pub or_text : Option Text → Text → Text
or_text none d = d
or_text (some t) d = t

unfoldable pub is_truthy : Text → Bool
is_truthy value =
    text_eq value (codes "1")
    || text_eq value (codes "true")
    || text_eq value (codes "yes")
    || text_eq value (codes "on")

-- `parse::<usize>()`.
unfoldable pub parse_usize : Target → Text → Option ℕ
unfolding parse_unsigned
parse_usize target = parse_unsigned (usize_mod target)

abbrev pub default_wasm_s3_fetch_concurrency : ℕ
default_wasm_s3_fetch_concurrency = 6

-- `clamp(1, 32)`.
unfoldable pub clamp_concurrency : ℕ → ℕ
clamp_concurrency n = if ltb n 1 then 1 else if ltb 32 n then 32 else n

unfoldable pub fetch_concurrency_of : Option Text → ℕ
unfolding parse_usize clamp_concurrency
fetch_concurrency_of none = clamp_concurrency default_wasm_s3_fetch_concurrency
fetch_concurrency_of (some s) = elim (parse_usize wasm32 s) [
  | none ↦ clamp_concurrency default_wasm_s3_fetch_concurrency
  | some n ↦ clamp_concurrency n
]

abbrev pub path_style_of : Option Text → Bool
path_style_of none = false
path_style_of (some s) = is_truthy (to_ascii_lowercase s)

-- The settings after the two keys are found.
unfoldable pub s3_props : Dict Text → Text → Text → S3Props
unfolding fetch_concurrency_of is_truthy
s3_props m access secret = record {
  endpoint = nonempty (Dict.get m (codes "s3.endpoint"));
  access_key_id = access;
  secret_access_key = secret;
  session_token = nonempty (Dict.get m (codes "s3.session-token"));
  region =
      or_text
        (nonempty (or_option (Dict.get m (codes "s3.region")) (Dict.get m (codes "client.region"))))
        (codes "us-east-1");
  path_style = path_style_of (Dict.get m (codes "s3.path-style-access"));
  dev_proxy_base = nonempty (Dict.get m (codes "s3.dev-proxy"));
  fetch_concurrency = fetch_concurrency_of (Dict.get m (codes "s3.fetch-concurrency"));
}

-- Nothing for an error, which is that of a missing key. No property is read after it is removed.
unfoldable pub parse_s3_props : Dict Text → Option S3Props
unfolding s3_props
parse_s3_props m = elim (nonempty (Dict.get m (codes "s3.access-key-id"))) [
  | none ↦ none
  | some access ↦ elim (nonempty (Dict.get m (codes "s3.secret-access-key"))) [
    | none ↦ none
    | some secret ↦ some (s3_props m access secret)
  ]
]
