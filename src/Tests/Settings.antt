-- ===== src/Tests/Settings.antt =====
-- Runs of the settings of the browser's S3 storage and of the byte cache.
use mathlib.Core.Option
use iceberg_db_rs.Base.{List, ℕ, ◌≡◌, refl, Option, none, some, [], ◌∷◌}
use iceberg_db_rs.Base.Text.{Text, codes}
use iceberg_db_rs.Base.Dict
use iceberg_db_rs.Base.Dict.{Dict}
use iceberg_db_rs.Base.{length, false}
use iceberg_db_rs.ByteCache.Settings.{
  cred_fingerprint, is_key, stable_keys, byte_cache_enabled_from_props, max_cache_bytes_from_props,
}
use iceberg_db_rs.Base.Text.Cut.{trim, trim_start_matches, trim_end_matches}
use iceberg_db_rs.Base.Text.Chars.{is_whitespace, lower_char}
use iceberg_db_rs.QueryIo.{wasm32}
use iceberg_db_rs.BrowserS3.{S3Props, parse_s3_props, parse_usize}

-- What the runs unfold.
program : Unit {0}
unfolding parse_s3_props parse_usize Dict.get cred_fingerprint byte_cache_enabled_from_props
    max_cache_bytes_from_props trim trim_start_matches trim_end_matches is_whitespace lower_char
program = tt

abbrev minimal : Dict Text
minimal = (codes "s3.access-key-id", codes "AK") ∷ (codes "s3.secret-access-key", codes "SK") ∷ []

abbrev with_concurrency : Text → Dict Text
with_concurrency n = (codes "s3.fetch-concurrency", n) ∷ minimal

abbrev concurrency : Dict Text → Option ℕ
concurrency m = Option.map (λ (p : S3Props). p.fetch_concurrency) (parse_s3_props m)

-- `parse_fetch_concurrency_defaults_to_six` and `parse_fetch_concurrency_clamps`.
defaults_to_six : concurrency minimal ≡ some 6
unfolding program
defaults_to_six = refl

clamps : concurrency (with_concurrency (codes "99")) ≡ some 32
unfolding program
clamps = refl

missing_key : parse_s3_props [] ≡ none
unfolding program
missing_key = refl

-- The number of texts that are hashed.
abbrev count : List Text → ℕ
count vs = length vs

token_unstable : is_key (codes "s3.session-token") stable_keys ≡ false
token_unstable = refl

switched_off :
    byte_cache_enabled_from_props none ((codes "idb.byte-cache", codes " Off ") ∷ []) ≡ false
unfolding program
switched_off = refl

two_mib :
    max_cache_bytes_from_props wasm32 ((codes "idb.byte-cache-max-mib", codes "2") ∷ []) ≡ 2097152
unfolding program
two_mib = refl
