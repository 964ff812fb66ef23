-- ===== src/BrowserS3/Objects.antt =====
-- `parse_location` and `object_url` of WasmS3Storage. URLs are those of the crate `url`.
use iceberg_db_rs.Base.{ℕ, Bool, not, ◌&&◌, Option, none, some, [], ◌∷◌, ◌++◌, ◌==◌, if◌then◌else◌}
use iceberg_db_rs.Base.Text.{Text, codes, text_eq}
use iceberg_db_rs.Base.Text.Cut.{trim_start_matches, trim_end_matches}
use iceberg_db_rs.BrowserS3.{S3Props}

-- What the code uses of the crate `url`; the setters change a parsed URL.
pub record UrlLibrary : Type 1 where
  pub Url : Type 0
  pub parse : Text → Option Url
  pub scheme : Url → Text
  pub host_str : Url → Option Text
  pub url_path : Url → Text
  pub set_path : Url → Text → Url
  pub set_host : Url → Text → Option Url

pub record ObjectRef : Type 0 where
  pub bucket : Text
  pub key : Text

pub data LocationError : Type 0 where
  invalid_url wrong_scheme missing_bucket missing_key : LocationError

pub data Location : Type 0 where
  found : ObjectRef → Location
  bad : LocationError → Location

abbrev pub is_slash : ℕ → Bool
is_slash c = c == b'/'

abbrev pub key_of : Text → Text → Location
key_of bucket [] = bad missing_key
key_of bucket (c ∷ s) = found (record { bucket = bucket; key = c ∷ s })

module _ (urls : UrlLibrary) (cfg : S3Props) where
  unfoldable pub parse_location : Text → Text → Location
  parse_location configured_scheme path = elim (urls.parse path) [
    | none ↦ bad invalid_url
    | some url ↦
        if not (text_eq (urls.scheme url) (codes "s3"))
          && not (text_eq (urls.scheme url) (codes "s3a"))
          && not (text_eq (urls.scheme url) configured_scheme)
        then bad wrong_scheme
        else elim (urls.host_str url) [
          | none ↦ bad missing_bucket
          | some bucket ↦ key_of bucket (trim_start_matches is_slash (urls.url_path url))
        ]
  ]

  abbrev pub path_style_path : Text → ObjectRef → Text
  path_style_path base obj =
      trim_end_matches is_slash base ++ (b'/' ∷ (obj.bucket ++ (b'/' ∷ obj.key)))

  unfoldable pub endpoint_url : urls.Url → ObjectRef → Option urls.Url
  endpoint_url base obj =
      if cfg.path_style
      then some (urls.set_path base (path_style_path (urls.url_path base) obj))
      else elim (urls.set_host base obj.bucket) [
        | none ↦ none
        | some hosted ↦ some (urls.set_path hosted (b'/' ∷ obj.key))
      ]

  abbrev pub amazon_host : Text
  amazon_host =
      if text_eq cfg.region (codes "us-east-1")
      then codes "s3.amazonaws.com"
      else codes "s3." ++ (cfg.region ++ codes ".amazonaws.com")

  abbrev pub amazon_url : ObjectRef → Text
  amazon_url obj =
      if cfg.path_style
      then codes "https://" ++ (amazon_host ++ (b'/' ∷ (obj.bucket ++ (b'/' ∷ obj.key))))
      else codes "https://" ++ (obj.bucket ++ (b'.' ∷ (amazon_host ++ (b'/' ∷ obj.key))))

  unfoldable pub object_url : ObjectRef → Option urls.Url
  unfolding endpoint_url
  object_url obj = elim cfg.endpoint [
    | none ↦ urls.parse (amazon_url obj)
    | some endpoint ↦ elim (urls.parse endpoint) [ none ↦ none | some base ↦ endpoint_url base obj ]
  ]
