-- ===== src/Tests/Browser.antt =====
-- A session of the browser's S3 storage, over a network with one object.
use iceberg_db_rs.Base.{
  ℕ, ◌+◌, ◌≡◌, refl, sym, ap, false, Option, none, some, [], Outcome, ok, err, panic, Io, arith,
  add32, sub64,
}
use iceberg_db_rs.Base.Text.{Text, codes}
use iceberg_db_rs.Base.Text.Cut.{trim_start_matches, trim_end_matches}
use iceberg_db_rs.ByteCache.Range.{Bytes, Range, slice_cached_range}
use iceberg_db_rs.ByteCache.Chunks.{find_range, find_full_object, insert}
use iceberg_db_rs.ByteCache.Interface.{Origin}
use iceberg_db_rs.ByteCache.Memory.{MemoryByteCache, new, put, get_range, get_full_object}
use iceberg_db_rs.ByteCache.Memory.Serves.{memory_laws}
use iceberg_db_rs.QueryIo.{
  record_byte_cache_miss, initial, query_cancelled, wasm32, request_query_cancel, reset_query_state,
}
use iceberg_db_rs.BrowserS3.{S3Props}
use iceberg_db_rs.BrowserS3.Objects.{UrlLibrary, parse_location, object_url}
use iceberg_db_rs.BrowserS3.Storage.{S3Method, WasmHttpResponse, Browser, read_object}
use iceberg_db_rs.BrowserS3.Reads.{asked, Answers, IsNetwork}
use iceberg_db_rs.BrowserS3.Steps.{
  reading, Reach, here, next, reads, cancels, restarts, Reach-read_object,
}
use iceberg_db_rs.Tests.Cache.{insertion_order}

-- What the runs unfold.
program : Unit {0}
unfolding read_object parse_location object_url trim_start_matches trim_end_matches put get_range
    get_full_object new find_range find_full_object add32 sub64 insert slice_cached_range
    query_cancelled record_byte_cache_miss
program = tt

abbrev object : Bytes
object = codes "abcdefgh"

abbrev origin : Origin
origin path cred = object

abbrev urls : UrlLibrary
urls = record {
  Url = Text;
  parse = some;
  scheme = λ url. codes "s3";
  host_str = λ url. some (codes "b");
  url_path = λ url. codes "/k";
  set_path = λ url path. url;
  set_host = λ url host. some url;
}

abbrev cfg : S3Props
cfg = record {
  endpoint = none;
  access_key_id = codes "A";
  secret_access_key = codes "S";
  session_token = none;
  region = codes "us-east-1";
  path_style = false;
  dev_proxy_base = none;
  fetch_concurrency = 6;
}

-- The network is the number of requests.
abbrev send : S3Method → Text → Option (ℕ × ℕ) → Io ℕ WasmHttpResponse
send method url bytes n =
    (ok (record { status = 206; body = asked bytes object; content_length = none }), n + 1)

abbrev body_of : Outcome WasmHttpResponse → Bytes
body_of (ok resp) = resp.body
body_of (err e) = []
body_of panic = []

network : IsNetwork (memory_laws insertion_order) 42 urls (λ url. url) cfg (codes "s3") send origin
network = record {
  responds = λ path url bytes n n' resp a u e good.
      sym (ap (λ (r : Outcome WasmHttpResponse × ℕ). body_of r.0) e);
  fits = λ path. omega arith;
}

abbrev path : Text
path = codes "s3://b/k"

abbrev middle : Option Range
middle = some (record { start = 2; end = 5 })

abbrev start : Browser MemoryByteCache ℕ
start = record { cache = some (new 100); io = initial; net = 0 }

abbrev read_at : Option Range → Io (Browser MemoryByteCache ℕ) Bytes
read_at =
    reading (memory_laws insertion_order) 42 urls (λ url. url) cfg (codes "s3") send origin path

-- A read of the object, a cancellation and a new query.
abbrev later : Browser MemoryByteCache ℕ
later =
    let b1 = (read_at none start).1 in
    let b2 : Browser MemoryByteCache ℕ = record b1 { io = request_query_cancel wasm32 b1.io } in
    record b2 { io = reset_query_state wasm32 b2.io }

middle_run : (read_at middle later).0 ≡ ok (codes "cde")
unfolding program
middle_run = refl

no_second_request : (read_at middle later).1.net ≡ 1
unfolding program
no_second_request = refl

session :
    Reach
      (memory_laws insertion_order)
      42
      urls
      (λ url. url)
      cfg
      (codes "s3")
      send
      origin
      start
      later
session =
    let b1 = (read_at none start).1 in
    let b2 : Browser MemoryByteCache ℕ = record b1 { io = request_query_cancel wasm32 b1.io } in
    next (next (next here (reads path none start tt)) (cancels b1)) (restarts b2)

Reach-read_object_example : Answers middle object (read_at middle later).0
unfolding new
Reach-read_object_example =
    Reach-read_object (memory_laws insertion_order) 42 urls (λ url. url) cfg (codes "s3") send
      origin network path middle start later
      (record { ordered = omega arith; word = omega arith }, omega arith) tt session
