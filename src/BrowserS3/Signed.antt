-- ===== src/BrowserS3/Signed.antt =====
-- `build_signed_s3_request`, `signed_request_direct` and `signed_request_via_dev_proxy` of
-- crates/idb-catalog/src/wasm_s3_storage.rs: the request that leaves the browser. The signer of AWS
-- and percent-encoding are parameters; sending is input and output.
use iceberg_db_rs.Base.{Option, none, some, [], ◌∷◌, ◌++◌, if◌then◌else◌}
use iceberg_db_rs.Base.Text.{Text, codes}
use iceberg_db_rs.Base.Text.Cut.{trim_end_matches}
use iceberg_db_rs.BrowserS3.{S3Props}
use iceberg_db_rs.BrowserS3.Storage.{byte_range}
use iceberg_db_rs.ByteCache.Range.{Range}
use iceberg_db_rs.HttpLog.{decimal}
use iceberg_db_rs.Proxy.Http.{Method, Headers, Upstream, equiv}
use iceberg_db_rs.Proxy.Url.{is_slash}

unfoldable pub range_headers : Option Range → Headers
unfolding decimal byte_range
range_headers range = elim (byte_range range) [
  | none ↦ []
  | some bytes ↦
      (codes "range", codes "bytes=" ++ (decimal 20 bytes.0 ++ (codes "-" ++ decimal 20 bytes.1)))
      ∷ []
]

-- The headers but those of the host.
unfoldable pub without_host : Headers → Headers
without_host [] = []
without_host ((k, v) ∷ hs) =
    let rest = without_host hs in if equiv k (codes "host") then rest else (k, v) ∷ rest

abbrev pub no_cache : Headers
no_cache = (codes "cache-control", codes "no-cache") ∷ (codes "pragma", codes "no-cache") ∷ []

module _ (encode : Text → Text) where
  -- What the proxy is asked for, after its address.
  abbrev pub proxy_path : Text → Text
  proxy_path url = codes "/_s3?u=" ++ encode url

  -- The request to the proxy, in place of the signed one.
  unfoldable pub via_dev_proxy : Method → Text → Text → Upstream → Upstream
  unfolding without_host
  via_dev_proxy method proxy_base url signed = record {
    upstream_method = method;
    target = trim_end_matches is_slash proxy_base ++ proxy_path url;
    sent = no_cache ++ without_host signed.sent;
    payload = [];
  }

  abbrev pub sent_by : Method → Option Text → Text → Option Upstream → Option Upstream
  sent_by method proxy_base url none = none
  sent_by method none url (some signed) = some signed
  sent_by method (some proxy_base) url (some signed) =
      some (via_dev_proxy method proxy_base url signed)

module _ (sign : S3Props → Upstream → Option Upstream) (encode : Text → Text) (cfg : S3Props) where
  unfoldable pub build_signed_s3_request : Method → Text → Option Range → Option Upstream
  unfolding range_headers
  build_signed_s3_request method url range =
      sign cfg (record {
        upstream_method = method;
        target = url;
        sent = range_headers range;
        payload = [];
      })

  -- The request that `signed_request` sends, if it can be signed.
  unfoldable pub request_sent : Method → Text → Option Range → Option Upstream
  unfolding build_signed_s3_request via_dev_proxy
  request_sent method url range =
      sent_by encode method cfg.dev_proxy_base url (build_signed_s3_request method url range)
