-- ===== src/BrowserS3/Storage.antt =====
-- The methods of WasmS3Storage and WasmS3Reader that read. The signing of a request and its way to
-- S3, direct or through the proxy, are a parameter, `send`, over the state of the network; it is given
-- the first and the last byte that the header `range` asks for, if the request has one.
use iceberg_db_rs.Base.{
  ℕ, ◌-◌, Bool, ◌&&◌, Option, none, some, ltb, leb, length, if◌then◌else◌, Outcome, ok, err, panic,
  cancelled, data_invalid, unexpected, unsupported, Io, pure, fail, and_then,
}
use iceberg_db_rs.Base.Text.{Text}
use iceberg_db_rs.ByteCache.Range.{Bytes, Range}
use iceberg_db_rs.ByteCache.Interface.{ByteCacheStore}
use iceberg_db_rs.ByteCache.Settings.{wasm_try_cache_read, wasm_store_cache_read}
use iceberg_db_rs.QueryIo.{
  QueryIo, wasm32, query_cancelled, record_byte_cache_miss, record_s3_object_fetch,
  add_bytes_fetched,
}
use iceberg_db_rs.BrowserS3.{S3Props}
use iceberg_db_rs.BrowserS3.Objects.{UrlLibrary, Location, found, bad, parse_location, object_url}

pub data S3Method : Type 0 where
  head_object get_object : S3Method

pub record WasmHttpResponse : Type 0 where
  pub status : ℕ
  pub body : Bytes
  pub content_length : Option ℕ

-- The browser's cache, the counters of its query and the network.
pub record Browser (S N : Type 0) : Type 0 where
  pub cache : Option S
  pub io : QueryIo
  pub net : N

abbrev pub is_success : ℕ → Bool
is_success status = leb 200 status && ltb status 300

abbrev pub size_of : Option ℕ → ℕ
size_of none = 0
size_of (some n) = n

-- The first and the last byte of a range, as `build_signed_s3_request` asks for them.
unfoldable pub byte_range : Option Range → Option (ℕ × ℕ)
byte_range none = none
byte_range (some r) = some (r.start, r.end - 1)

module _ {S N : Type 0} (store : ByteCacheStore S) (fingerprint : ℕ) (urls : UrlLibrary)
    (as_str : urls.Url → Text) (cfg : S3Props) (configured_scheme : Text)
    (send : S3Method → urls.Url → Option (ℕ × ℕ) → Io N WasmHttpResponse) where
  -- GETs are counted by their URLs.
  abbrev pub counted_get : S3Method → urls.Url → QueryIo → QueryIo
  counted_get head_object url io = io
  counted_get get_object url io = record_s3_object_fetch wasm32 (as_str url) io

  -- `wasm_response_from_reqwest` counts the bytes of a response.
  abbrev pub counted_bytes : Outcome WasmHttpResponse → QueryIo → QueryIo
  counted_bytes (ok resp) io = add_bytes_fetched wasm32 (length resp.body) io
  counted_bytes (err e) io = io
  counted_bytes panic io = io

  unfoldable pub signed_request :
      S3Method → urls.Url → Option Range → Io (Browser S N) WasmHttpResponse
  unfolding byte_range
  signed_request method url range b =
      if query_cancelled wasm32 b.io
      then (err cancelled, b)
      else (let (r, n) = send method url (byte_range range) b.net in
          (r, record b { io = counted_bytes r (counted_get method url b.io); net = n }))

  abbrev pub url_of : Option urls.Url → Outcome urls.Url
  url_of none = err data_invalid
  url_of (some url) = ok url

  abbrev pub located : Location → Outcome urls.Url
  located (bad e) = err data_invalid
  located (found obj) = url_of (object_url urls cfg obj)

  -- `parse_location`, then `object_url`, whose errors are not told apart by their kind.
  abbrev pub url_at : Text → Outcome urls.Url
  url_at path = located (parse_location urls cfg configured_scheme path)

  -- What is made of the response to a HEAD request.
  unfoldable pub head_request :
      {A : Type 0} → (WasmHttpResponse → Outcome A) → Text → Io (Browser S N) A
  unfolding signed_request
  head_request answer path b =
      and_then (url_at path)
        (λ url b1.
          let (r, b2) = signed_request head_object url none b1 in
          and_then r (λ resp b3. (answer resp, b3)) b2)
        b

  unfoldable pub exists : Text → Io (Browser S N) Bool
  unfolding head_request
  exists = head_request (λ resp. ok (is_success resp.status))

  unfoldable pub metadata : Text → Io (Browser S N) ℕ
  unfolding head_request
  metadata =
      head_request (λ resp.
        if is_success resp.status then ok (size_of resp.content_length) else err unexpected)

  -- The bytes of a response that succeeded are kept.
  unfoldable pub keep_response : Text → Option Range → WasmHttpResponse → Io (Browser S N) Bytes
  unfolding wasm_store_cache_read
  keep_response path range resp b =
      if is_success resp.status
      then (
        ok resp.body,
        record b { cache = wasm_store_cache_read store fingerprint path range resp.body b.cache },
      )
      else (err unexpected, b)

  -- After the cache missed.
  unfoldable pub fetch_object : Text → Option Range → Io (Browser S N) Bytes
  unfolding keep_response signed_request
  fetch_object path range b =
      and_then (url_at path)
        (λ url b1.
          let (r, b2) = signed_request get_object url range b1 in
          and_then r (keep_response path range) b2)
        (record b { io = record_byte_cache_miss wasm32 b.io })

  abbrev pub hit_or_fetch : Text → Option Range → Option Bytes → Io (Browser S N) Bytes
  hit_or_fetch path range (some hit) = pure hit
  hit_or_fetch path range none = fetch_object path range

  -- WasmS3Storage::read without a range, WasmS3Reader::read with one.
  unfoldable pub read_object : Text → Option Range → Io (Browser S N) Bytes
  unfolding fetch_object wasm_try_cache_read
  read_object path range b =
      let (r, io) = wasm_try_cache_read store fingerprint path range b.cache b.io in
      and_then r (hit_or_fetch path range) (record b { io = io })

  -- `write`, `writer`, `delete` and `delete_prefix` are not for the browser.
  unfoldable pub write_object : Text → Bytes → Io (Browser S N) (Unit {0})
  write_object path bs = fail unsupported

  unfoldable pub delete_object : Text → Io (Browser S N) (Unit {0})
  delete_object path = fail unsupported
