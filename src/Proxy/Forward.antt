-- ===== src/Proxy/Forward.antt =====
-- `forward_snowflake`, `handle_s3_impl` and `handle_s3_signed_impl` of idb-sf-proxy/src/main.rs: the
-- upstream request, and the answer from its reply.

use iceberg_db_rs.Base.{
  Bool, true, false, ◌||◌, ◌&&◌, not, Option, none, some, [], ◌∷◌, ◌++◌, if◌then◌else◌,
}
use iceberg_db_rs.Base.Text.{Text, codes}
use iceberg_db_rs.Proxy.Http.{
  Method, get, post, put, patch, head, map_method, Headers, Request, Upstream, Reply, Response,
  S3SignedBody, Libraries, equiv, strip_upstream_header, with_cors,
}
use iceberg_db_rs.Proxy.Url.{first_segment, upstream_url, second_part, query_param}

pub data Failure : Type 0 where
  missing_account read_body upstream_request read_upstream : Failure
  missing_target expects_post parse_body build_request invalid_range signature : Failure

pub data Forwarded : Type 0 where
  answered : Response → Forwarded
  failed : Failure → Forwarded

abbrev pub is_empty : Text → Bool
is_empty [] = true
is_empty (c ∷ s) = false

abbrev pub sends_form : Method → Bool
sends_form post = true
sends_form put = true
sends_form patch = true
sends_form m = false

-- The last header of that name.
unfoldable pub content_type : Headers → Option Text → Option Text
content_type [] found = found
content_type ((k, v) ∷ hs) found =
    content_type hs (if equiv k (codes "content-type") then some v else found)

abbrev pub type_header : Method → Option Text → Headers
type_header m (some ct) = (codes "content-type", ct) ∷ []
type_header m none =
    if sends_form m
    then (codes "content-type", codes "application/x-www-form-urlencoded") ∷ []
    else []

module _ (libs : Libraries) where
  -- The headers that go upstream: those that `skip` leaves and the client accepts.
  unfoldable pub pass_headers : (Text → Bool) → Headers → Headers
  pass_headers skip [] = []
  pass_headers skip ((k, v) ∷ hs) =
      let rest = pass_headers skip hs in
      if not (skip k) && (libs.valid_name k && libs.valid_value v) then (k, v) ∷ rest else rest

  abbrev pub skip_snowflake : Text → Bool
  skip_snowflake k = equiv k (codes "content-type") || strip_upstream_header k

  abbrev pub skip_s3 : Text → Bool
  skip_s3 k = strip_upstream_header k || equiv k (codes "host")

  unfoldable pub out_headers : Headers → Headers
  out_headers [] = []
  out_headers (h ∷ hs) =
      let rest = out_headers hs in
      if not (strip_upstream_header h.0) && libs.valid_response_header h then h ∷ rest else rest

  -- From the reply, if there is one, to the answer.
  unfoldable pub answer : Option Text → Option Reply → Forwarded
  unfolding out_headers
  answer cors none = failed upstream_request
  answer cors (some reply) = elim reply.reply_body [
    | none ↦ failed read_upstream
    | some bytes ↦ answered (
        with_cors
          (record {
            status = reply.reply_status;
            fields = out_headers reply.reply_headers;
            content = bytes;
          })
          cors)
  ]

  unfoldable pub snowflake_request : Request → Text → Text → Option Text → Text → Upstream
  unfolding pass_headers content_type
  snowflake_request request account rest query body = record {
    upstream_method = map_method request.method;
    target = upstream_url account rest query;
    sent =
        pass_headers skip_snowflake request.headers
        ++ (if is_empty body
            then []
            else type_header request.method (content_type request.headers none));
    payload = body;
  }

  unfoldable pub forward_snowflake : Request → Text → Option Text → Option Text → Forwarded
  unfolding snowflake_request answer
  forward_snowflake request path query cors = elim (first_segment path).0 [
    | [] ↦ failed missing_account
    | c ∷ account ↦ elim request.body [
      | none ↦ failed read_body
      | some body ↦
          answer cors
            (libs.send (snowflake_request request (c ∷ account) (first_segment path).1 query body))
    ]
  ]

  abbrev pub host_header : Option Text → Headers
  host_header none = []
  host_header (some rest) = (codes "host", (first_segment rest).0) ∷ []

  unfoldable pub s3_request : Request → Text → Text → Upstream
  unfolding pass_headers
  s3_request request target body = record {
    upstream_method = map_method request.method;
    target = target;
    sent = host_header (second_part target) ++ pass_headers skip_s3 request.headers;
    payload = body;
  }

  unfoldable pub handle_s3_impl : Request → Option Text → Option Text → Forwarded
  unfolding s3_request answer
  handle_s3_impl request query cors = elim (query_param libs.decode query (codes "u")) [
    | none ↦ failed missing_target
    | some target ↦ elim request.body [
      | none ↦ failed read_body
      | some body ↦ answer cors (libs.send (s3_request request target body))
    ]
  ]

  abbrev pub signed_method : S3SignedBody → Method
  signed_method b = if equiv b.object_method (codes "HEAD") then head else get

  -- `req.headers_mut().insert(RANGE, ..)`: none when the value is no header value.
  abbrev pub add_range : Option Text → Upstream → Option Upstream
  add_range none u = some u
  add_range (some r) u =
      if is_empty r
      then some u
      else if libs.valid_value r
      then some (record u { sent = u.sent ++ ((codes "range", r) ∷ []) })
      else none

  abbrev pub nonempty : Option Text → Option Text
  nonempty none = none
  nonempty (some t) = if is_empty t then none else some t

  unfoldable pub forward_signed : S3SignedBody → Option Text → Forwarded
  unfolding answer
  forward_signed b cors = elim (libs.build (signed_method b) b.object_url) [
    | none ↦ failed build_request
    | some u ↦ elim (add_range b.range u) [
      | none ↦ failed invalid_range
      | some ranged ↦
          elim (libs.sign ranged (record b { session_token = nonempty b.session_token })) [
            | none ↦ failed signature
            | some signed ↦ answer cors (libs.send signed)
          ]
    ]
  ]

  unfoldable pub handle_s3_signed_impl : Request → Option Text → Forwarded
  unfolding forward_signed
  handle_s3_signed_impl request cors = elim request.method [
    | post ↦ elim request.body [
      | none ↦ failed read_body
      | some body ↦ elim (libs.parse_signed body) [
        | none ↦ failed parse_body
        | some b ↦ forward_signed b cors
      ]
    ]
    | _ ↦ failed expects_post
  ]
