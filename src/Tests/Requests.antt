-- ===== src/Tests/Requests.antt =====
-- Runs of the proxy, with an upstream that answers with the address it was asked for.
use mathlib.Core.Option
use iceberg_db_rs.Base.{◌≡◌, refl, true, false, Option, none, some, [], ◌∷◌, ◌==◌}
use iceberg_db_rs.Base.Text.{Text, codes}
use iceberg_db_rs.Base.Text.Chars.{lower_char}
use iceberg_db_rs.Base.Text.Cut.{
  starts_with, strip_prefix, contains, split_once, trim_start_matches, NoneOf, trim_end_matches,
}
use iceberg_db_rs.Proxy.Http.{
  with_cors, cors_origin, get, post, map_method, Headers, Request, Upstream, Libraries, find_header,
  strip_upstream_header, is_hop_header,
}
use iceberg_db_rs.Proxy.Url.{
  upstream_url, path_and_query, first_segment, second_part, is_slash, query_param,
}
use iceberg_db_rs.Proxy.Forward.{
  Failure, forward_snowflake, snowflake_request, s3_request, answer, content_type,
}
use iceberg_db_rs.Proxy.Handle.{handle, respond}
use iceberg_db_rs.BrowserS3.Signed.{proxy_path, via_dev_proxy}
use iceberg_db_rs.BrowserS3.ThroughProxy.{IsEncoded, received, handle-via_dev_proxy}
use iceberg_db_rs.Proxy.Clean.{IsClean, snowflake_request-IsClean}

abbrev libs : Libraries
libs = record {
  valid_name = λ n. true;
  valid_value = λ v. true;
  valid_response_header = λ h. true;
  decode = λ v. some v;
  parse_signed = λ b. none;
  build = λ m t. none;
  sign = λ u b. none;
  send = λ u. some (record { reply_status = 200; reply_headers = []; reply_body = some u.target });
}

abbrev request : Request
request = record {
  method = post;
  url = codes "/acct/polaris/api?w=X";
  headers =
      (codes "Origin", codes "http://localhost:8080")
      ∷ (codes "Content-Type", codes "application/json")
      ∷ (codes "Sec-Fetch-Mode", codes "cors")
      ∷ (codes "Host", codes "127.0.0.1:8787")
      ∷ [];
  body = some (codes "{}");
}

-- What the runs unfold.
program : Unit {0}
unfolding via_dev_proxy trim_end_matches handle forward_snowflake snowflake_request s3_request
    answer path_and_query first_segment second_part find_header strip_upstream_header is_hop_header
    lower_char starts_with strip_prefix contains split_once trim_start_matches content_type
    query_param with_cors cors_origin upstream_url
program = tt

abbrev no_message : Failure → Text
no_message f = []

abbrev local : Option Text
local = some (codes "http://localhost:8080")

answered_by_account :
    (handle libs no_message request).content
    ≡ codes "https://acct.snowflakecomputing.com/polaris/api?w=X"
unfolding program
answered_by_account = refl

missing_account_fails : (handle libs no_message (record request { url = codes "/" })).status ≡ 502
unfolding program
missing_account_fails = refl

snowflake_request-IsClean_example :
    IsClean (snowflake_request libs request (codes "acct") (codes "polaris") none (codes "{}")).sent
snowflake_request-IsClean_example =
    snowflake_request-IsClean libs request (codes "acct") (codes "polaris") none (codes "{}")

no_slash : NoneOf is_slash (codes "acct")
no_slash = (refl, (refl, (refl, (refl, tt))))

no_question : NoneOf (λ d. d == b'?') (codes "acct/p")
no_question = (refl, (refl, (refl, (refl, (refl, (refl, tt))))))

abbrev short : Request
short = record request { url = codes "/acct/p?w" }

no_scheme : contains (codes "://") (codes "/acct/p?w") ≡ false
unfolding program
no_scheme = refl

-- A signed request of the browser, through the proxy.
abbrev object : Text
object = codes "https://b/k"

abbrev encode : Text → Text
encode t = codes "https%3A%2F%2Fb%2Fk"

object-IsEncoded : IsEncoded (encode object)
object-IsEncoded = (
  (refl, refl),
  (
    (refl, refl),
    (
      (refl, refl),
      (
        (refl, refl),
        (
          (refl, refl),
          (
            (refl, refl),
            (
              (refl, refl),
              (
                (refl, refl),
                (
                  (refl, refl),
                  (
                    (refl, refl),
                    (
                      (refl, refl),
                      (
                        (refl, refl),
                        (
                          (refl, refl),
                          (
                            (refl, refl),
                            (
                              (refl, refl),
                              ((refl, refl), ((refl, refl), ((refl, refl), ((refl, refl), tt)))),
                            ),
                          ),
                        ),
                      ),
                    ),
                  ),
                ),
              ),
            ),
          ),
        ),
      ),
    ),
  ),
)

abbrev reading : Libraries
reading = record libs { decode = λ t. some object }

abbrev signed : Upstream
signed = record {
  upstream_method = get;
  target = object;
  sent =
      (codes "range", codes "bytes=0-7")
      ∷ (codes "host", codes "b")
      ∷ (codes "authorization", codes "AWS4")
      ∷ [];
  payload = [];
}

abbrev browser : Headers
browser = (codes "Host", codes "127.0.0.1:8787") ∷ []

handle-via_dev_proxy_example :
    (cors : Option Text) × (u : Upstream) × (handle reading no_message (
        received browser
          (proxy_path encode object)
          (via_dev_proxy encode get (codes "http://127.0.0.1:8787/") object signed))
      ≡ respond reading no_message cors (answer reading cors (reading.send u)))
    × (u.upstream_method ≡ map_method get)
    × (u.target ≡ object)
    × (u.payload ≡ [])
    × (find_header (codes "host") u.sent
        ≡ Option.map (λ r. (first_segment r).0) (second_part object))
    × (find_header (codes "authorization") u.sent ≡ find_header (codes "authorization") signed.sent)
unfolding program
handle-via_dev_proxy_example =
    handle-via_dev_proxy reading no_message encode browser get (codes "http://127.0.0.1:8787/")
      object (proxy_path encode object) (codes "authorization") signed refl object-IsEncoded refl
      refl (refl, (refl, (refl, tt))) refl (refl, tt) (refl, (refl, tt))
