-- ===== src/Proxy/Handle.antt =====
-- `handle` of idb-sf-proxy/src/main.rs: every request gets one response. The text of an error,
-- which quotes the libraries, is a parameter.
use iceberg_db_rs.Base.{Bool, true, false, Option, none, some, [], ◌∷◌, if◌then◌else◌}
use iceberg_db_rs.Base.Text.{Text, codes, text_eq}
use iceberg_db_rs.Proxy.Http.{
  Method, options, Headers, Request, Response, Libraries, cors_origin, cors_allow_headers,
  with_cors,
}
use iceberg_db_rs.Proxy.Url.{path_and_query}
use iceberg_db_rs.Proxy.Forward.{
  Failure, Forwarded, answered, failed, forward_snowflake, handle_s3_impl, handle_s3_signed_impl,
}

unfoldable pub preflight_headers : Request → Option Text → Headers
preflight_headers request none = []
preflight_headers request (some origin) =
    (codes "Access-Control-Allow-Origin", origin)
    ∷ (codes "Access-Control-Allow-Credentials", codes "true")
    ∷ (codes "Access-Control-Allow-Methods", codes "GET, POST, PUT, PATCH, DELETE, HEAD, OPTIONS")
    ∷ (codes "Access-Control-Allow-Headers", cors_allow_headers request)
    ∷ (codes "Access-Control-Max-Age", codes "86400")
    ∷ []

abbrev pub is_options : Method → Bool
is_options options = true
is_options m = false

module _ (libs : Libraries) (message : Failure → Text) where
  -- `respond_proxy_error` for a failure, the response itself otherwise.
  unfoldable pub respond : Option Text → Forwarded → Response
  respond cors (answered response) = response
  respond cors (failed f) =
      with_cors (record { status = 502; fields = []; content = message f }) cors

  unfoldable pub dispatch : Request → Text → Option Text → Option Text → Response
  unfolding respond
  dispatch request path query cors =
      if text_eq path (codes "health")
      then with_cors (record { status = 200; fields = []; content = codes "ok" }) cors
      else if text_eq path (codes "_s3_signed")
      then respond cors (handle_s3_signed_impl libs request cors)
      else if text_eq path (codes "_s3")
      then respond cors (handle_s3_impl libs request query cors)
      else respond cors (forward_snowflake libs request path query cors)

  unfoldable pub handle : Request → Response
  unfolding dispatch preflight_headers
  handle request =
      let (path, query) = path_and_query request.url in
      let cors = cors_origin request in
      if is_options request.method
      then record { status = 204; fields = preflight_headers request cors; content = [] }
      else dispatch request path query cors
