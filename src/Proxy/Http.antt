-- ===== src/Proxy/Http.antt =====
-- Requests, responses and headers of idb-sf-proxy/src/main.rs, and the libraries it calls.
use iceberg_db_rs.Base.{
  ℕ, Bool, false, ◌||◌, Option, none, some, List, [], ◌∷◌, ◌++◌, if◌then◌else◌,
}
use iceberg_db_rs.Base.Text.{Text, codes, text_eq}
use iceberg_db_rs.Base.Text.Chars.{to_ascii_lowercase}
use iceberg_db_rs.Base.Text.Cut.{starts_with}

pub data Method : Type 0 where
  get post put delete head options patch other : Method

-- `reqwest`'s methods are the same, but for those it has no name for.
unfoldable pub map_method : Method → Method
map_method other = get
map_method m = m

abbrev pub Headers : Type 0
Headers = List (Text × Text)

-- `body` is what reading the body yields: nothing, when it fails.
pub record Request : Type 0 where
  pub method : Method
  pub url : Text
  pub headers : Headers
  pub body : Option Text

pub record Upstream : Type 0 where
  pub upstream_method : Method
  pub target : Text
  pub sent : Headers
  pub payload : Text

pub record Reply : Type 0 where
  pub reply_status : ℕ
  pub reply_headers : Headers
  pub reply_body : Option Text

pub record Response : Type 0 where
  pub status : ℕ
  pub fields : Headers
  pub content : Text

-- `S3SignedProxyBody`; the access key, its secret and the region are only handed to the signer.
pub record S3SignedBody : Type 0 where
  pub object_url : Text
  pub object_method : Text
  pub range : Option Text
  pub access_key_id : Text
  pub secret_access_key : Text
  pub session_token : Option Text
  pub region : Text

-- The libraries: header validity, percent-decoding, JSON, request building, AWS signatures, HTTP.
pub record Libraries : Type 0 where
  pub valid_name : Text → Bool
  pub valid_value : Text → Bool
  pub valid_response_header : Text × Text → Bool
  pub decode : Text → Option Text
  pub parse_signed : Text → Option S3SignedBody
  pub build : Method → Text → Option Upstream
  pub sign : Upstream → S3SignedBody → Option Upstream
  pub send : Upstream → Option Reply

abbrev pub equiv : Text → Text → Bool
equiv a b = text_eq (to_ascii_lowercase a) (to_ascii_lowercase b)

unfoldable pub find_header : Text → Headers → Option Text
find_header name [] = none
find_header name ((k, v) ∷ hs) = if equiv k name then some v else find_header name hs

abbrev pub one_of : Text → List Text → Bool
one_of n [] = false
one_of n (x ∷ xs) = text_eq x n || one_of n xs

unfoldable pub is_hop_header : Text → Bool
is_hop_header name = one_of (to_ascii_lowercase name) (
    codes "host"
    ∷ codes "connection"
    ∷ codes "content-length"
    ∷ codes "transfer-encoding"
    ∷ codes "keep-alive"
    ∷ codes "proxy-connection"
    ∷ [])

unfoldable pub strip_upstream_header : Text → Bool
unfolding is_hop_header
strip_upstream_header name =
    is_hop_header name
    || starts_with (codes "sec-") (to_ascii_lowercase name)
    || one_of (to_ascii_lowercase name) (
        codes "origin"
        ∷ codes "referer"
        ∷ codes "access-control-request-method"
        ∷ codes "access-control-request-headers"
        ∷ codes "priority"
        ∷ codes "x-requested-with"
        ∷ [])

abbrev pub local_origin : Text → Option Text
local_origin origin =
    if starts_with (codes "http://127.0.0.1:") origin
      || starts_with (codes "http://localhost:") origin
      || starts_with (codes "http://[::1]:") origin
    then some origin
    else none

unfoldable pub cors_origin : Request → Option Text
unfolding find_header
cors_origin request = elim (find_header (codes "Origin") request.headers) [
  | none ↦ none
  | some origin ↦ local_origin origin
]

abbrev pub cors_allow_headers_default : Text
cors_allow_headers_default =
    codes
      "Authorization, Content-Type, Range, X-Amz-Date, X-Amz-Security-Token, X-Amz-Content-Sha256, X-Amz-Algorithm, X-Amz-Credential, X-Amz-SignedHeaders, X-Amz-Signature, X-Iceberg-Access-Delegation"

unfoldable pub cors_allow_headers : Request → Text
unfolding find_header
cors_allow_headers request =
    elim (find_header (codes "Access-Control-Request-Headers") request.headers) [
      | none ↦ cors_allow_headers_default
      | some v ↦ v
    ]

unfoldable pub with_cors : Response → Option Text → Response
with_cors response none = response
with_cors response (some origin) = record response {
  fields =
      response.fields
      ++ ((codes "Access-Control-Allow-Origin", origin)
          ∷ (codes "Access-Control-Allow-Credentials", codes "true")
          ∷ (
            codes "Vary",
            codes "Origin, Access-Control-Request-Method, Access-Control-Request-Headers",
          )
          ∷ []);
}
