-- ===== src/BrowserS3/ThroughProxy.antt =====
-- A signed request that goes through the proxy of crates/idb-sf-proxy.
use mathlib.Core.Option
use iceberg_db_rs.Base.{
  ◌≡◌, refl, ◌∙◌, ap, Bool, true, false, ◌&&◌, ◌||◌, not, Option, none, some, [], ◌∷◌, ◌++◌, ◌==◌,
  All, arith, Bool-cases, inl, inr,
}
use iceberg_db_rs.Base.Text.{Text, codes, text_eq, text_eq_iff}
use iceberg_db_rs.Base.Text.Chars.{to_ascii_lowercase, lower_char}
use iceberg_db_rs.Base.Text.Cut.{starts_with, split_once, strip_prefix, trim_start_matches}
use iceberg_db_rs.Proxy.Http.{
  Method, map_method, Headers, Request, Upstream, Libraries, equiv, find_header, one_of,
  is_hop_header, strip_upstream_header, cors_origin,
}
use iceberg_db_rs.Proxy.Url.{
  path_and_query, path_text, cut_query, second_part, after_scheme, query_param, split_rest,
  find_param, first_segment,
}
use iceberg_db_rs.Proxy.Forward.{
  Failure, pass_headers, skip_s3, s3_request, handle_s3_impl, answer, host_header,
}
use iceberg_db_rs.Proxy.Clean.{find_header-s3_request}
use iceberg_db_rs.Proxy.Handle.{handle, respond, dispatch, is_options}
use iceberg_db_rs.BrowserS3.Signed.{without_host, no_cache, proxy_path, via_dev_proxy}
use iceberg_db_rs.Proxy.Url.{is_slash}
use iceberg_db_rs.Base.Text.Cut.{trim_end_matches}
use iceberg_db_rs.Base.{sym}

-- A text in which `encode` leaves none of the characters that split the URL.
abbrev pub IsEncoded : Text → Type 0
IsEncoded = All (λ c. ((b':' == c) ≡ false) × ((c == b'&') ≡ false))

no_scheme : (s : Text) → IsEncoded s → after_scheme s ≡ none
unfolding after_scheme strip_prefix
no_scheme [] h = refl
no_scheme (c ∷ s) h = rw (h.0.0, after_scheme) (no_scheme s h.1)

one_part : (s : Text) → IsEncoded s → split_rest b'&' s ≡ (s, [])
unfolding split_rest
one_part [] h = refl
one_part (c ∷ s) h = rw (one_part s h.1, h.0.1) refl

-- The path and the query of the request to the proxy.
path_and_query-proxy_path :
    (encode : Text → Text) (url : Text)
    → IsEncoded (encode url)
    → path_and_query (proxy_path encode url) ≡ (codes "_s3", some (codes "u=" ++ encode url))
unfolding path_and_query path_text cut_query second_part split_once trim_start_matches strip_prefix
path_and_query-proxy_path encode url h = rw (no_scheme (encode url) h) refl

query_param-encoded :
    (decode : Text → Option Text) (encoded : Text)
    → IsEncoded encoded
    → query_param decode (some (codes "u=" ++ encoded)) (codes "u") ≡ decode encoded
unfolding query_param find_param split_once split_rest
query_param-encoded decode encoded h = rw (one_part encoded h) refl

-- Names that are equal but for case are skipped alike.
skip_lower : Text → Bool
skip_lower k =
    ((one_of k (
        codes "host"
        ∷ codes "connection"
        ∷ codes "content-length"
        ∷ codes "transfer-encoding"
        ∷ codes "keep-alive"
        ∷ codes "proxy-connection"
        ∷ []))
      || starts_with (codes "sec-") k
      || one_of k (
          codes "origin"
          ∷ codes "referer"
          ∷ codes "access-control-request-method"
          ∷ codes "access-control-request-headers"
          ∷ codes "priority"
          ∷ codes "x-requested-with"
          ∷ []))
    || text_eq k (to_ascii_lowercase (codes "host"))

-- What the proxy receives of a request: the browser may add headers.
abbrev pub received : Headers → Text → Upstream → Request
received browser path request = record {
  method = request.upstream_method;
  url = path;
  headers = browser ++ request.sent;
  body = some request.payload;
}

-- No header is of that name.
abbrev pub HasNo : Text → Headers → Type 0
HasNo n = All (λ h. equiv h.0 n ≡ false)

append_cancel : (r s t : Text) → r ++ s ≡ r ++ t → s ≡ t
append_cancel [] s t e = e
append_cancel (c ∷ r) s t e = append_cancel r s t cc

module _ (libs : Libraries) where
  skip_s3-equiv : (k n : Text) → equiv k n ≡ true → skip_s3 libs k ≡ skip_s3 libs n
  unfolding strip_upstream_header is_hop_header skip_lower
  skip_s3-equiv k n h =
      ap skip_lower ((text_eq_iff (to_ascii_lowercase k) (to_ascii_lowercase n)).0 h)

  not_skipped : (k n : Text) → skip_s3 libs k ≡ true → skip_s3 libs n ≡ false → equiv k n ≡ false
  not_skipped k n skipped kept = elim (Bool-cases (equiv k n)) [
    | inl same ↦ ground (arith, skip_s3-equiv k n same)
    | inr other ↦ other
  ]

  abbrev pub AreValid : Headers → Type 0
  AreValid = All (λ h. (libs.valid_name h.0 && libs.valid_value h.1) ≡ true)

  -- A header of another name is not found, passed on or not.
  find_header-other :
      (n k v : Text) (hs : Headers)
      → equiv k n ≡ false
      → find_header n (pass_headers libs (skip_s3 libs) ((k, v) ∷ hs))
        ≡ find_header n (pass_headers libs (skip_s3 libs) hs)
  unfolding find_header pass_headers
  find_header-other n k v hs other =
      elim (Bool-cases (not (skip_s3 libs k) && (libs.valid_name k && libs.valid_value v))) [
        | inl passed ↦ rw (passed, other, find_header) refl
        | inr dropped ↦ rw dropped refl
      ]

  find_header-others :
      (n : Text) (others hs : Headers)
      → HasNo n others
      → find_header n (pass_headers libs (skip_s3 libs) (others ++ hs))
        ≡ find_header n (pass_headers libs (skip_s3 libs) hs)
  find_header-others n [] hs h = refl
  find_header-others n ((k, v) ∷ others) hs h =
      find_header-other n k v (others ++ hs) h.0 ∙ find_header-others n others hs h.1

  find_header-pass_headers :
      (n : Text) (hs : Headers)
      → skip_s3 libs n ≡ false
      → AreValid hs
      → find_header n (pass_headers libs (skip_s3 libs) (without_host hs)) ≡ find_header n hs
  unfolding find_header pass_headers without_host
  find_header-pass_headers n [] kept valid = refl
  find_header-pass_headers n ((k, v) ∷ hs) kept valid = elim (Bool-cases (equiv k n)) [
    | inl same ↦
        rw (unhosted same) (rw (skip_s3-equiv k n same, kept, valid.0, same, find_header) refl)
    | inr other ↦ elim (Bool-cases (equiv k (codes "host"))) [
      | inl host ↦ rw (host, other) (find_header-pass_headers n hs kept valid.1)
      | inr free ↦
          rw (free, other)
            (find_header-other n k v (without_host hs) other
              ∙ find_header-pass_headers n hs kept valid.1)
    ]
  ]
    where
      unhosted : equiv k n ≡ true → equiv k (codes "host") ≡ false
      unhosted same = ground (arith, skip_s3-equiv k n same)

  find_header-host :
      (n : Text) (part : Option Text) (hs : Headers)
      → skip_s3 libs n ≡ false
      → find_header n (host_header libs part ++ hs) ≡ find_header n hs
  unfolding find_header strip_upstream_header lower_char
  find_header-host n none hs kept = refl
  find_header-host n (some r) hs kept = rw (not_skipped (codes "host") n refl kept) refl

  handle-received :
      (message : Failure → Text) (encode : Text → Text) (browser : Headers) (url : Text)
      (request : Upstream)
      → IsEncoded (encode url)
      → libs.decode (encode url) ≡ some url
      → is_options request.upstream_method ≡ false
      → handle libs message (received browser (proxy_path encode url) request)
        ≡ respond libs message (cors_origin (received browser (proxy_path encode url) request)) (
            answer libs (cors_origin (received browser (proxy_path encode url) request)) (
              libs.send (
                s3_request libs
                  (received browser (proxy_path encode url) request)
                  url
                  request.payload)))
  unfolding handle dispatch handle_s3_impl query_param split_once
  handle-received message encode browser url request encoded decoded other =
      rw (path_and_query-proxy_path encode url encoded)
        (rw (other) (rw (query_param-encoded libs.decode (encode url) encoded) (rw decoded refl)))

  handle-proxy_path :
      (message : Failure → Text) (encode : Text → Text) (browser : Headers) (method : Method)
      (proxy_base url n : Text) (signed : Upstream)
      → IsEncoded (encode url)
      → libs.decode (encode url) ≡ some url
      → is_options method ≡ false
      → AreValid signed.sent
      → skip_s3 libs n ≡ false
      → HasNo n browser
      → HasNo n no_cache
      → (cors : Option Text) × (u : Upstream) × (handle libs message (
            received browser
              (proxy_path encode url)
              (via_dev_proxy encode method proxy_base url signed))
          ≡ respond libs message cors (answer libs cors (libs.send u)))
        × (u.upstream_method ≡ map_method method)
        × (u.target ≡ url)
        × (u.payload ≡ [])
        × (find_header (codes "host") u.sent
            ≡ Option.map (λ r. (first_segment r).0) (second_part url))
        × (find_header n u.sent ≡ find_header n signed.sent)
  unfolding s3_request via_dev_proxy
  handle-proxy_path message encode browser method proxy_base url n signed encoded decoded other
        valid kept plain caches =
      (
        cors_origin request,
        s3_request libs request url [],
        handle-received message encode browser url
            (via_dev_proxy encode method proxy_base url signed) encoded decoded other,
        refl,
        refl,
        refl,
        find_header-s3_request libs request url [],
        find_header-host n (second_part url) (pass_headers libs (skip_s3 libs) request.headers) kept
            ∙ find_header-others n browser (no_cache ++ without_host signed.sent) plain
            ∙ find_header-others n no_cache (without_host signed.sent) caches
            ∙ find_header-pass_headers n signed.sent kept valid,
      )
    where
      request : Request
      request =
          received browser (proxy_path encode url)
            (via_dev_proxy encode method proxy_base url signed)

  -- A request that the browser signs and sends through the proxy, its method not OPTIONS, its
  -- signed headers valid and its URL encoded without `:` and `&` in a way that the proxy decodes, whose
  -- target is the proxy's address, less the slashes at its end, and what the proxy receives, is
  -- answered by what the proxy makes of the reply to one request upstream: with the method that the
  -- proxy's client has for the browser's, to the URL that was signed, without a body, with the host
  -- of that URL, and with the value that was signed for any header that the proxy does not skip and
  -- that neither the browser nor the cache control of the request adds.
  pub handle-via_dev_proxy :
      (message : Failure → Text) (encode : Text → Text) (browser : Headers) (method : Method)
      (proxy_base url path n : Text) (signed : Upstream)
      → (via_dev_proxy encode method proxy_base url signed).target
        ≡ trim_end_matches is_slash proxy_base ++ path
      → IsEncoded (encode url)
      → libs.decode (encode url) ≡ some url
      → is_options method ≡ false
      → AreValid signed.sent
      → skip_s3 libs n ≡ false
      → HasNo n browser
      → HasNo n no_cache
      → (cors : Option Text) × (u : Upstream) × (handle libs message
            (received browser path (via_dev_proxy encode method proxy_base url signed))
          ≡ respond libs message cors (answer libs cors (libs.send u)))
        × (u.upstream_method ≡ map_method method)
        × (u.target ≡ url)
        × (u.payload ≡ [])
        × (find_header (codes "host") u.sent
            ≡ Option.map (λ r. (first_segment r).0) (second_part url))
        × (find_header n u.sent ≡ find_header n signed.sent)
  unfolding via_dev_proxy
  handle-via_dev_proxy message encode browser method proxy_base url path n signed sent encoded
        decoded other valid kept plain caches =
      rw
        (append_cancel (trim_end_matches is_slash proxy_base) path (proxy_path encode url)
          (sym sent))
        (handle-proxy_path message encode browser method proxy_base url n signed encoded decoded
          other valid kept plain caches)
