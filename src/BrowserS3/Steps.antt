-- ===== src/BrowserS3/Steps.antt =====
-- A browser session as a sequence of steps: reads, calls for metadata, cancellations and new queries,
-- in any order.
use iceberg_db_rs.Base.{
  ℕ, none, ◌≡◌, refl, sym, ◌∙◌, subst, Option, Outcome, ok, err, panic, unexpected, if◌then◌else◌,
  Io, and_then, arith,
}
use iceberg_db_rs.Base.Text.{Text}
use iceberg_db_rs.ByteCache.Range.{Bytes, Range}
use iceberg_db_rs.ByteCache.Interface.{ByteCacheStore, StoreLaws, Origin}
use iceberg_db_rs.QueryIo.{wasm32, request_query_cancel, reset_query_state}
use iceberg_db_rs.BrowserS3.{S3Props}
use iceberg_db_rs.BrowserS3.Objects.{UrlLibrary}
use iceberg_db_rs.BrowserS3.Storage.{
  S3Method, head_object, WasmHttpResponse, Browser, url_at, signed_request, head_request,
  is_success, size_of, exists, metadata, read_object,
}
use iceberg_db_rs.BrowserS3.Reads.{IsPart, Answers, IsNetwork, CacheServes, read_object-IsRead}

and_then_cache :
    {S N A B : Type 0} (r : Outcome A) (f : A → Io (Browser S N) B) (b : Browser S N)
    → ((a : A) → (f a b).1.cache ≡ b.cache)
    → (and_then r f b).1.cache ≡ b.cache
and_then_cache (ok a) f b k = k a
and_then_cache (err e) f b k = refl
and_then_cache panic f b k = refl

module _ {S N : Type 0} {store : ByteCacheStore S} (laws : StoreLaws store) (fingerprint : ℕ)
    (urls : UrlLibrary) (as_str : urls.Url → Text) (cfg : S3Props) (configured_scheme : Text)
    (send : S3Method → urls.Url → Option (ℕ × ℕ) → Io N WasmHttpResponse) (origin : Origin) where
  abbrev pub reading : Text → Option Range → Io (Browser S N) Bytes
  reading = read_object store fingerprint urls as_str cfg configured_scheme send

  pub data Step : Browser S N → Browser S N → Type 0 where
    reads :
        (path : Text) (range : Option Range) (b : Browser S N)
        → IsPart laws.target range
        → Step b (reading path range b).1
    asks_existence :
        (path : Text) (b : Browser S N)
        → Step b (exists store fingerprint urls as_str cfg configured_scheme send path b).1
    asks_size :
        (path : Text) (b : Browser S N)
        → Step b (metadata store fingerprint urls as_str cfg configured_scheme send path b).1
    cancels : (b : Browser S N) → Step b (record b { io = request_query_cancel wasm32 b.io })
    restarts : (b : Browser S N) → Step b (record b { io = reset_query_state wasm32 b.io })

  pub data Reach (b : Browser S N) : Browser S N → Type 0 where
    here : Reach b b
    next : {b1 b2 : Browser S N} → Reach b b1 → Step b1 b2 → Reach b b2

  abbrev pub SessionServes : Browser S N → Type 0
  SessionServes b =
      CacheServes laws fingerprint urls as_str cfg configured_scheme send origin b.cache

  heading_cache :
      (url : urls.Url) (b : Browser S N)
      → (signed_request store fingerprint urls as_str cfg configured_scheme send head_object url
          none b).1.cache
        ≡ b.cache
  unfolding signed_request
  heading_cache url b = ground arith

  head_request_cache :
      {A : Type 0} (answer : WasmHttpResponse → Outcome A) (path : Text) (b : Browser S N)
      → (head_request store fingerprint urls as_str cfg configured_scheme send answer path
          b).1.cache
        ≡ b.cache
  unfolding head_request
  head_request_cache answer path b =
      and_then_cache (url_at store fingerprint urls as_str cfg configured_scheme send path)
        (λ url b1.
          let (r, b2) =
            signed_request store fingerprint urls as_str cfg configured_scheme send head_object url
              none b1 in
          and_then r (λ resp b3. (answer resp, b3)) b2)
        b
        (λ url.
          let sent =
            signed_request store fingerprint urls as_str cfg configured_scheme send head_object url
              none b in
          and_then_cache sent.0 (λ resp b3. (answer resp, b3)) sent.1 (λ resp. refl)
          ∙ heading_cache url b)

  module _
      (network : IsNetwork laws fingerprint urls as_str cfg configured_scheme send origin) where
    Step-SessionServes : {b b' : Browser S N} → Step b b' → SessionServes b → SessionServes b'
    unfolding exists metadata
    Step-SessionServes (reads path range b valid) h =
        (read_object-IsRead laws fingerprint urls as_str cfg configured_scheme send origin network
          path range b h valid).serves
    Step-SessionServes (asks_existence path b) h =
        subst (CacheServes laws fingerprint urls as_str cfg configured_scheme send origin)
          (sym (head_request_cache (λ resp. ok (is_success resp.status)) path b)) h
    Step-SessionServes (asks_size path b) h =
        subst (CacheServes laws fingerprint urls as_str cfg configured_scheme send origin)
          (sym (
            head_request_cache
              (λ resp.
                if is_success resp.status then ok (size_of resp.content_length) else err unexpected)
              path b))
          h
    Step-SessionServes (cancels b) h = h
    Step-SessionServes (restarts b) h = h

    Reach-SessionServes : {b b' : Browser S N} → SessionServes b → Reach b b' → SessionServes b'
    Reach-SessionServes h here = h
    Reach-SessionServes h (next r s) = Step-SessionServes s (Reach-SessionServes h r)

    -- Over a network whose successful responses are the bytes asked for, of objects whose lengths a
    -- `usize` of the cache's platform counts, in a session that starts with a cache of such bytes
    -- and makes any reads of objects and of ranges within that count that are not empty, calls for
    -- metadata, cancellations and restarts: a read of such a range that succeeds gives exactly the
    -- bytes of the object in the range, and a read of an object that succeeds gives a prefix of it.
    pub Reach-read_object :
        (path : Text) (range : Option Range) (b b' : Browser S N)
        → IsPart laws.target range
        → SessionServes b
        → Reach b b'
        → Answers range (origin path fingerprint) (reading path range b').0
    Reach-read_object path range b b' valid h r =
        (read_object-IsRead laws fingerprint urls as_str cfg configured_scheme send origin network
          path range b' (Reach-SessionServes h r) valid).answers
