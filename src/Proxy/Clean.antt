-- ===== src/Proxy/Clean.antt =====
-- Which headers go upstream.
use mathlib.Core.Option
use iceberg_db_rs.Base.{
  ℕ, ◌≡◌, refl, ◌∙◌, Bool, false, ◌||◌, ◌&&◌, not, Option, none, some, List, [], ◌∷◌, ◌++◌,
  if◌then◌else◌, All, All-append, arith, Bool-cases, inl, inr,
}
use iceberg_db_rs.Base.Text.{Text, codes, text_eq, text_eq_self}
use iceberg_db_rs.Base.Text.Chars.{to_ascii_lowercase, lower_char}
use iceberg_db_rs.Base.Text.Cut.{starts_with}
use iceberg_db_rs.Proxy.Http.{
  Method, Headers, Request, Libraries, equiv, find_header, one_of, is_hop_header,
  strip_upstream_header,
}
use iceberg_db_rs.Proxy.Url.{first_segment, second_part}
use iceberg_db_rs.Proxy.Forward.{
  sends_form, content_type, type_header, pass_headers, skip_snowflake, skip_s3, snowflake_request,
  s3_request, host_header,
}

-- Headers that the proxy does not strip.
abbrev pub IsStripped : Headers → Type 0
IsStripped = All (λ h. strip_upstream_header h.0 ≡ false)

-- The names, in small letters, of headers that are for the hop.
abbrev pub hop_names : List Text
hop_names =
    codes "host"
    ∷ codes "connection"
    ∷ codes "content-length"
    ∷ codes "transfer-encoding"
    ∷ codes "keep-alive"
    ∷ codes "proxy-connection"
    ∷ []

-- And of those that are for browsers only, but for the ones that start with `sec-`.
abbrev pub browser_names : List Text
browser_names =
    codes "origin"
    ∷ codes "referer"
    ∷ codes "access-control-request-method"
    ∷ codes "access-control-request-headers"
    ∷ codes "priority"
    ∷ codes "x-requested-with"
    ∷ []

-- A name that is none of these in any case, and does not start with `sec-` in any case.
abbrev pub IsCleanName : Text → Type 0
IsCleanName name =
    All (λ n. text_eq n (to_ascii_lowercase name) ≡ false) (hop_names ++ browser_names)
    × (starts_with (codes "sec-") (to_ascii_lowercase name) ≡ false)

abbrev pub IsClean : Headers → Type 0
IsClean = All (λ h. IsCleanName h.0)

both_false : (a b : Bool) → (a || b) ≡ false → (a ≡ false) × (b ≡ false)
both_false a b h = (ground (arith, h), ground (arith, h))

one_of-All :
    (name : Text) (names : List Text)
    → one_of name names ≡ false
    → All (λ n. text_eq n name ≡ false) names
one_of-All name [] h = tt
one_of-All name (n ∷ names) h =
    let halves = both_false (text_eq n name) (one_of name names) h in
    (halves.0, one_of-All name names halves.1)

strip_upstream_header-IsCleanName :
    (name : Text) → strip_upstream_header name ≡ false → IsCleanName name
unfolding strip_upstream_header is_hop_header
strip_upstream_header-IsCleanName name h =
    let lower = to_ascii_lowercase name in
    let sec = starts_with (codes "sec-") lower in
    let rest = both_false (is_hop_header name || sec) (one_of lower browser_names) h in
    let hop = both_false (is_hop_header name) sec rest.0 in
    (
      All-append (λ n. text_eq n lower ≡ false) hop_names browser_names
          (one_of-All lower hop_names hop.0) (one_of-All lower browser_names rest.1),
      hop.1,
    )

IsStripped-IsClean : (hs : Headers) → IsStripped hs → IsClean hs
IsStripped-IsClean [] h = tt
IsStripped-IsClean (e ∷ hs) h =
    (strip_upstream_header-IsCleanName e.0 h.0, IsStripped-IsClean hs h.1)

module _ (libs : Libraries) where
  pass_headers-All :
      (skip : Text → Bool) (hs : Headers) → All (λ h. skip h.0 ≡ false) (pass_headers libs skip hs)
  unfolding pass_headers
  pass_headers-All skip [] = tt
  pass_headers-All skip ((k, v) ∷ hs) =
      elim (Bool-cases (not (skip k) && (libs.valid_name k && libs.valid_value v))) [
        | inl kept ↦ rw (kept, pass_headers) (ground arith, pass_headers-All skip hs)
        | inr dropped ↦ rw (dropped, pass_headers) (pass_headers-All skip hs)
      ]

  All-unskipped : (hs : Headers) → All (λ h. skip_snowflake libs h.0 ≡ false) hs → IsStripped hs
  All-unskipped [] h = tt
  All-unskipped (e ∷ hs) h = (ground (arith, h.0), All-unskipped hs h.1)

  type_header-IsStripped : (m : Method) (ct : Option Text) → IsStripped (type_header m ct)
  unfolding strip_upstream_header is_hop_header lower_char starts_with
  type_header-IsStripped m (some ct) = (refl, tt)
  type_header-IsStripped m none = elim (Bool-cases (sends_form m)) [
    | inl form ↦ rw form (refl, tt)
    | inr other ↦ rw other tt
  ]

  snowflake_request-IsStripped :
      (request : Request) (account rest : Text) (query : Option Text) (body : Text)
      → IsStripped (snowflake_request libs request account rest query body).sent
  unfolding snowflake_request
  snowflake_request-IsStripped request account rest query [] =
      All-append (λ h. strip_upstream_header h.0 ≡ false) _ [] (kept request.headers) tt
    where
      kept : (hs : Headers) → IsStripped (pass_headers libs (skip_snowflake libs) hs)
      kept hs = All-unskipped _ (pass_headers-All (skip_snowflake libs) hs)
  snowflake_request-IsStripped request account rest query (c ∷ body) =
      All-append (λ h. strip_upstream_header h.0 ≡ false) _ _
        (All-unskipped _ (pass_headers-All (skip_snowflake libs) request.headers))
        (type_header-IsStripped request.method (content_type request.headers none))

  -- No header goes to Snowflake whose name, in any case, is Connection, Content-Length, Host,
  -- Keep-Alive, Proxy-Connection, Transfer-Encoding, Origin, Priority, Referer, X-Requested-With,
  -- Access-Control-Request-Headers or Access-Control-Request-Method, or starts with Sec-.
  pub snowflake_request-IsClean :
      (request : Request) (account rest : Text) (query : Option Text) (body : Text)
      → IsClean (snowflake_request libs request account rest query body).sent
  snowflake_request-IsClean request account rest query body =
      IsStripped-IsClean _ (snowflake_request-IsStripped request account rest query body)

  find_header-skipped :
      (name : Text) (hs more : Headers)
      → All (λ h. equiv h.0 name ≡ false) hs
      → find_header name (hs ++ more) ≡ find_header name more
  unfolding find_header
  find_header-skipped name [] more h = refl
  find_header-skipped name ((k, v) ∷ hs) more h =
      rw (h.0, find_header) (find_header-skipped name hs more h.1)

  untyped :
      (hs : Headers)
      → All (λ h. skip_snowflake libs h.0 ≡ false) hs
      → All (λ h. equiv h.0 (codes "content-type") ≡ false) hs
  untyped [] h = tt
  untyped (e ∷ hs) h = (ground (arith, h.0), untyped hs h.1)

  -- What a request without a body, or with one, says of its type.
  abbrev pub upstream_type : Method → Option Text → Text → Option Text
  upstream_type m found [] = none
  upstream_type m (some ct) (c ∷ body) = some ct
  upstream_type m none (c ∷ body) =
      if sends_form m then some (codes "application/x-www-form-urlencoded") else none

  find_header-type :
      (m : Method) (found : Option Text) (c : ℕ) (body : Text)
      → find_header (codes "content-type") (type_header m found) ≡ upstream_type m found (c ∷ body)
  unfolding find_header lower_char
  find_header-type m (some ct) c body = refl
  find_header-type m none c body = elim (Bool-cases (sends_form m)) [
    | inl form ↦ rw form
    | inr other ↦ rw other
  ]

  -- The content type that goes to Snowflake: none without a body; with a body that of the last such
  -- header of the request, else that of a form for POST, PUT and PATCH, else none.
  pub find_header-snowflake_request :
      (request : Request) (account rest : Text) (query : Option Text) (body : Text)
      → find_header
          (codes "content-type")
          (snowflake_request libs request account rest query body).sent
        ≡ upstream_type request.method (content_type request.headers none) body
  unfolding snowflake_request find_header
  find_header-snowflake_request request account rest query [] =
      find_header-skipped (codes "content-type") _ []
        (untyped _ (pass_headers-All (skip_snowflake libs) request.headers))
  find_header-snowflake_request request account rest query (c ∷ body) =
      find_header-skipped (codes "content-type") _
        (type_header request.method (content_type request.headers none))
        (untyped _ (pass_headers-All (skip_snowflake libs) request.headers))
      ∙ find_header-type request.method (content_type request.headers none) c body

  unhosted :
      (hs : Headers)
      → All (λ h. skip_s3 libs h.0 ≡ false) hs
      → All (λ h. equiv h.0 (codes "host") ≡ false) hs
  unhosted [] h = tt
  unhosted (e ∷ hs) h = (ground (arith, h.0), unhosted hs h.1)

  find_header-none :
      (name : Text) (hs : Headers)
      → All (λ h. equiv h.0 name ≡ false) hs
      → find_header name hs ≡ none
  unfolding find_header
  find_header-none name [] h = refl
  find_header-none name ((k, v) ∷ hs) h = rw (h.0, find_header) (find_header-none name hs h.1)

  -- The host that goes to S3 is the target's, whatever the request said.
  pub find_header-s3_request :
      (request : Request) (target body : Text)
      → find_header (codes "host") (s3_request libs request target body).sent
        ≡ Option.map (λ r. (first_segment r).0) (second_part target)
  unfolding s3_request find_header first_segment
  find_header-s3_request request target body =
      go (second_part target) (pass_headers libs (skip_s3 libs) request.headers)
        (unhosted _ (pass_headers-All (skip_s3 libs) request.headers))
    where
      go :
          (part : Option Text) (hs : Headers)
          → All (λ h. equiv h.0 (codes "host") ≡ false) hs
          → find_header (codes "host") (host_header libs part ++ hs)
            ≡ Option.map (λ r. (first_segment r).0) part
      go none hs h = find_header-none (codes "host") hs h
      go (some r) hs h = rw (text_eq_self (to_ascii_lowercase (codes "host")), find_header)
