-- ===== src/BrowserS3/Settings.antt =====
-- What parsed settings satisfy.
use iceberg_db_rs.Base.{ℕ, ◌≤◌, Option, none, some, [], ◌∷◌, AllSome, arith}
use iceberg_db_rs.Base.Text.{Text, codes}
use iceberg_db_rs.Base.Dict
use iceberg_db_rs.Base.Dict.{Dict}
use iceberg_db_rs.BrowserS3.{
  S3Props, nonempty, or_option, or_text, clamp_concurrency, fetch_concurrency_of, s3_props,
  parse_s3_props,
}

abbrev pub IsNonempty : Text → Type 0
IsNonempty [] = ⊥
IsNonempty (c ∷ s) = Unit

pub record IsS3Props (p : S3Props) : Type 0 where
  pub has_access_key : IsNonempty p.access_key_id
  pub has_secret : IsNonempty p.secret_access_key
  pub has_region : IsNonempty p.region
  pub token_given : AllSome IsNonempty p.session_token
  pub endpoint_given : AllSome IsNonempty p.endpoint
  pub proxy_given : AllSome IsNonempty p.dev_proxy_base
  pub some_fetches : 1 ≤ p.fetch_concurrency
  pub few_fetches : p.fetch_concurrency ≤ 32

nonempty-IsNonempty : (t : Option Text) → AllSome IsNonempty (nonempty t)
nonempty-IsNonempty none = tt
nonempty-IsNonempty (some []) = tt
nonempty-IsNonempty (some (c ∷ s)) = tt

or_default-IsNonempty :
    (t : Option Text) (c : ℕ) (d : Text) → AllSome IsNonempty t → IsNonempty (or_text t (c ∷ d))
or_default-IsNonempty none c d h = tt
or_default-IsNonempty (some t) c d h = h

fetch_concurrency_positive : (t : Option Text) → 1 ≤ fetch_concurrency_of t
unfolding fetch_concurrency_of clamp_concurrency
fetch_concurrency_positive none = omega arith
fetch_concurrency_positive (some s) = ground arith

fetch_concurrency_bounded : (t : Option Text) → fetch_concurrency_of t ≤ 32
unfolding fetch_concurrency_of clamp_concurrency
fetch_concurrency_bounded none = omega arith
fetch_concurrency_bounded (some s) = ground arith

s3_props-IsS3Props :
    (m : Dict Text) (access secret : Text)
    → IsNonempty access
    → IsNonempty secret
    → IsS3Props (s3_props m access secret)
unfolding s3_props
s3_props-IsS3Props m access secret a s = record {
  has_access_key = a;
  has_secret = s;
  has_region =
      or_default-IsNonempty
        (nonempty (or_option (Dict.get m (codes "s3.region")) (Dict.get m (codes "client.region"))))
        b'u' (codes "s-east-1")
        (nonempty-IsNonempty
          (or_option (Dict.get m (codes "s3.region")) (Dict.get m (codes "client.region"))));
  token_given = nonempty-IsNonempty (Dict.get m (codes "s3.session-token"));
  endpoint_given = nonempty-IsNonempty (Dict.get m (codes "s3.endpoint"));
  proxy_given = nonempty-IsNonempty (Dict.get m (codes "s3.dev-proxy"));
  some_fetches = fetch_concurrency_positive (Dict.get m (codes "s3.fetch-concurrency"));
  few_fetches = fetch_concurrency_bounded (Dict.get m (codes "s3.fetch-concurrency"));
}

-- Parsed settings have both keys and a region, no empty token, endpoint or proxy, and between 1 and
-- 32 fetches at a time.
pub parse_s3_props-IsS3Props : (m : Dict Text) → AllSome IsS3Props (parse_s3_props m)
unfolding parse_s3_props
parse_s3_props-IsS3Props m =
    go (nonempty (Dict.get m (codes "s3.access-key-id")))
      (nonempty (Dict.get m (codes "s3.secret-access-key")))
      (nonempty-IsNonempty (Dict.get m (codes "s3.access-key-id")))
      (nonempty-IsNonempty (Dict.get m (codes "s3.secret-access-key")))
  where
    go :
        (access secret : Option Text)
        → AllSome IsNonempty access
        → AllSome IsNonempty secret
        → AllSome IsS3Props (elim access [
          | none ↦ none
          | some a ↦ elim secret [ none ↦ none | some s ↦ some (s3_props m a s) ]
        ])
    go none secret a s = tt
    go (some x) none a s = tt
    go (some x) (some y) a s = s3_props-IsS3Props m x y a s
