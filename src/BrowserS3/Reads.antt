-- ===== src/BrowserS3/Reads.antt =====
-- What the reads of a browser give, after any others.
use iceberg_db_rs.Base.{
  ℕ, ◌-◌, ◌<◌, ◌≡◌, refl, sym, ap, ◌∙◌, subst, inl, inr, true, Bool-cases, Option, none, some, [],
  ◌∷◌, length, take, take_all, AllSome, Outcome, ErrorKind, ok, err, panic, unexpected, Io,
  and_then, arith, ◌+◌, ◌≤◌, drop,
}
use iceberg_db_rs.Base.Text.{Text}
use iceberg_db_rs.ByteCache.Range.{Bytes, Range, ByteCacheKey, IsRange, usize_mod, window}
use iceberg_db_rs.ByteCache.Interface.{ByteCacheStore, StoreLaws, Origin}
use iceberg_db_rs.ByteCache.Settings.{wasm_try_cache_read, wasm_store_cache_read}
use iceberg_db_rs.QueryIo.{Target, QueryIo, wasm32, record_byte_cache_miss}
use iceberg_db_rs.BrowserS3.{S3Props}
use iceberg_db_rs.BrowserS3.Objects.{UrlLibrary}
use iceberg_db_rs.BrowserS3.Storage.{
  S3Method, get_object, byte_range, WasmHttpResponse, Browser, is_success, url_at, signed_request,
  keep_response, fetch_object, hit_or_fetch, read_object,
}

-- The bytes of an object in a range, or all of them.
abbrev pub part : Option Range → Bytes → Bytes
part none object = object
part (some range) object = window range object

-- A range that is not empty.
abbrev pub IsPart : Target → Option Range → Type 0
IsPart target none = Unit
IsPart target (some range) = IsRange target range × (range.start < range.end)

-- The bytes of an object that a request asks for, by the first and the last of them.
abbrev pub asked : Option (ℕ × ℕ) → Bytes → Bytes
asked none object = object
asked (some (first, last)) object = window (record { start = first; end = last + 1 }) object

abbrev pub IsAsked : Option (ℕ × ℕ) → Type 0
IsAsked none = Unit
IsAsked (some (first, last)) = first ≤ last

byte_range-IsAsked :
    (target : Target) (range : Option Range) → IsPart target range → IsAsked (byte_range range)
unfolding byte_range
byte_range-IsAsked target none valid = tt
byte_range-IsAsked target (some r) valid = omega (arith, valid.1)

asked-byte_range :
    (target : Target) (range : Option Range) (object : Bytes)
    → IsPart target range
    → asked (byte_range range) object ≡ part range object
unfolding byte_range
asked-byte_range target none object valid = refl
asked-byte_range target (some r) object valid =
    ap (λ n. take (n - r.start) (drop r.start object)) (omega (arith, valid.1))

-- A read of a range that succeeds gives its bytes, one of the object a prefix of it.
abbrev pub Answers : Option Range → Bytes → Outcome Bytes → Type 0
Answers (some range) object (ok b) = b ≡ window range object
Answers none object (ok b) = (n : ℕ) × (b ≡ take n object)
Answers range object (err e) = Unit
Answers range object panic = Unit

part-Answers :
    (range : Option Range) (object b : Bytes) → b ≡ part range object → Answers range object (ok b)
part-Answers (some range) object b e = e
part-Answers none object b e =
    (length object, e ∙ sym (take_all (length object) object (omega arith)))

module _ {S N : Type 0} {store : ByteCacheStore S} (laws : StoreLaws store) (fingerprint : ℕ)
    (urls : UrlLibrary) (as_str : urls.Url → Text) (cfg : S3Props) (configured_scheme : Text)
    (send : S3Method → urls.Url → Option (ℕ × ℕ) → Io N WasmHttpResponse) (origin : Origin) where
  abbrev pub url_for : Text → Outcome urls.Url
  url_for = url_at store fingerprint urls as_str cfg configured_scheme send

  -- A response that succeeds has the bytes of the object at the URL, those asked for if there are
  -- any; objects are shorter than a `usize` counts.
  pub record IsNetwork : Type 0 where
    pub responds :
        (path : Text) (url : urls.Url) (bytes : Option (ℕ × ℕ)) (n n' : N) (resp : WasmHttpResponse)
        → IsAsked bytes
        → url_for path ≡ ok url
        → send get_object url bytes n ≡ (ok resp, n')
        → is_success resp.status ≡ true
        → resp.body ≡ asked bytes (origin path fingerprint)
    pub fits : (path : Text) → length (origin path fingerprint) < usize_mod laws.target

  abbrev pub CacheServes : Option S → Type 0
  CacheServes = AllSome (laws.Serves origin)

  stored :
      (path : Text) (range : Option Range) (body : Bytes) (cache : Option S)
      → length (origin path fingerprint) < usize_mod laws.target
      → CacheServes cache
      → IsPart laws.target range
      → body ≡ part range (origin path fingerprint)
      → CacheServes (wasm_store_cache_read store fingerprint path range body cache)
  unfolding wasm_store_cache_read
  stored path range [] cache fits h valid e = h
  stored path range (x ∷ b) none fits h valid e = tt
  stored path (some range) (x ∷ b) (some c) fits h valid e =
      let key : ByteCacheKey = record {
        path = path;
        range = range;
        cred_fingerprint = fingerprint;
      } in
      subst (λ d. laws.Serves origin (store.put c key d)) (sym e)
        (laws.put-Serves origin c key h valid.0)
  stored path none (x ∷ b) (some c) fits h valid e =
      let object = origin path fingerprint in
      let whole : Range = record { start = 0; end = length (x ∷ b) } in
      let key : ByteCacheKey = record {
        path = path;
        range = whole;
        cred_fingerprint = fingerprint;
      } in
      let size : length (x ∷ b) ≡ length object = ap length e in
      subst (λ d. laws.Serves origin (store.put c key d))
        (take_all (length (x ∷ b) - 0) object (omega arith) ∙ sym e)
        (laws.put-Serves origin c key h (record { ordered = omega arith; word = omega arith }))

  -- A result that answers, and a cache that stays right.
  pub record IsRead (path : Text) (range : Option Range) (r : Outcome Bytes × Browser S N)
      : Type 0 where
    pub answers : Answers range (origin path fingerprint) r.0
    pub serves : CacheServes r.1.cache

  failed-IsRead :
      (path : Text) (range : Option Range) (e : ErrorKind) (b : Browser S N)
      → CacheServes b.cache
      → IsRead path range (err e, b)
  failed-IsRead path none e b h = record { answers = tt; serves = h }
  failed-IsRead path (some range) e b h = record { answers = tt; serves = h }

  abbrev HitAnswers : Option Range → Bytes → Option Bytes → Type 0
  HitAnswers range object none = Unit
  HitAnswers range object (some hit) = Answers range object (ok hit)

  lookup-HitAnswers :
      (path : Text) (range : Option Range) (cache : Option S) (io : QueryIo) (o : Option Bytes)
      → CacheServes cache
      → IsPart laws.target range
      → (wasm_try_cache_read store fingerprint path range cache io).0 ≡ ok o
      → HitAnswers range (origin path fingerprint) o
  unfolding wasm_try_cache_read
  lookup-HitAnswers path range none io o h valid e =
      let miss : none ≡ o = ground (arith, e) in
      subst (HitAnswers range (origin path fingerprint)) miss tt
  lookup-HitAnswers path (some range) (some c) io o h valid e =
      elim (laws.get_range-Serves origin c path range fingerprint h valid.0) [
        | inl miss ↦
            let same : none ≡ o = ground (arith, e, miss) in
            subst (HitAnswers (some range) (origin path fingerprint)) same tt
        | inr hit ↦
            let same : some (window range (origin path fingerprint)) ≡ o = ground (arith, e, hit) in
            subst (HitAnswers (some range) (origin path fingerprint)) same refl
      ]
  lookup-HitAnswers path none (some c) io o h valid e =
      elim (laws.get_full_object-Serves origin c path fingerprint h) [
        | inl miss ↦
            let same : none ≡ o = ground (arith, e, miss) in
            subst (HitAnswers none (origin path fingerprint)) same tt
        | inr (n, hit) ↦
            let same : some (take n (origin path fingerprint)) ≡ o = ground (arith, e, hit) in
            subst (HitAnswers none (origin path fingerprint)) same (n, refl)
      ]

  and_then-IsRead :
      {A : Type 0} (path : Text) (range : Option Range) (r : Outcome A)
      (f : A → Io (Browser S N) Bytes) (b : Browser S N)
      → CacheServes b.cache
      → ((a : A) → r ≡ ok a → IsRead path range (f a b))
      → IsRead path range (and_then r f b)
  and_then-IsRead path range (err e) f b h k = failed-IsRead path range e b h
  and_then-IsRead path none panic f b h k = record { answers = tt; serves = h }
  and_then-IsRead path (some range) panic f b h k = record { answers = tt; serves = h }
  and_then-IsRead path range (ok a) f b h k = k a refl

  abbrev request : urls.Url → Option Range → Io (Browser S N) WasmHttpResponse
  request = signed_request store fingerprint urls as_str cfg configured_scheme send get_object

  signed_request_cache :
      (url : urls.Url) (range : Option Range) (b : Browser S N)
      → (request url range b).1.cache ≡ b.cache
  unfolding signed_request
  signed_request_cache url range b = ground arith

  signed_request_sent :
      (url : urls.Url) (range : Option Range) (b : Browser S N) (resp : WasmHttpResponse)
      → (request url range b).0 ≡ ok resp
      → send get_object url (byte_range range) b.net
        ≡ (ok resp, (send get_object url (byte_range range) b.net).1)
  unfolding signed_request
  signed_request_sent url range b resp e =
      let answered : (send get_object url (byte_range range) b.net).0 ≡ ok resp =
        ground (arith, e) in
      λ i. (answered i, (send get_object url (byte_range range) b.net).1)

  module _ (network : IsNetwork) where
    keep_response-IsRead :
        (path : Text) (range : Option Range) (resp : WasmHttpResponse) (b : Browser S N)
        → CacheServes b.cache
        → IsPart laws.target range
        → (is_success resp.status ≡ true → resp.body ≡ part range (origin path fingerprint))
        → IsRead path range (
            keep_response store fingerprint urls as_str cfg configured_scheme send path range resp
              b)
    unfolding keep_response
    keep_response-IsRead path range resp b h valid e = elim (Bool-cases (is_success resp.status)) [
      | inr failed ↦ rw failed (failed-IsRead path range unexpected b h)
      | inl good ↦ rw good (record {
        answers = part-Answers range (origin path fingerprint) resp.body (e good);
        serves = stored path range resp.body b.cache (network.fits path) h valid (e good);
      })
    ]

    fetch_object-IsRead :
        (path : Text) (range : Option Range) (b : Browser S N)
        → CacheServes b.cache
        → IsPart laws.target range
        → IsRead path range
            (fetch_object store fingerprint urls as_str cfg configured_scheme send path range b)
    unfolding fetch_object
    fetch_object-IsRead path range b h valid =
        let missed : Browser S N = record b { io = record_byte_cache_miss wasm32 b.io } in
        and_then-IsRead path range (url_for path)
          (λ url b1.
            and_then (request url range b1).0
              (keep_response store fingerprint urls as_str cfg configured_scheme send path range)
              (request url range b1).1)
          missed h
          (λ url located.
            and_then-IsRead path range (request url range missed).0
              (keep_response store fingerprint urls as_str cfg configured_scheme send path range)
              (request url range missed).1
              (subst CacheServes (sym (signed_request_cache url range missed)) h)
              (λ resp sent.
                keep_response-IsRead path range resp (request url range missed).1
                  (subst CacheServes (sym (signed_request_cache url range missed)) h) valid
                  (λ good.
                    network.responds path url (byte_range range) b.net
                      (send get_object url (byte_range range) b.net).1 resp
                      (byte_range-IsAsked laws.target range valid) located
                      (signed_request_sent url range missed resp sent) good
                    ∙ asked-byte_range laws.target range (origin path fingerprint) valid)))

    hit_or_fetch-IsRead :
        (path : Text) (range : Option Range) (o : Option Bytes) (b : Browser S N)
        → CacheServes b.cache
        → IsPart laws.target range
        → HitAnswers range (origin path fingerprint) o
        → IsRead path range
            (hit_or_fetch store fingerprint urls as_str cfg configured_scheme send path range o b)
    hit_or_fetch-IsRead path range none b h valid a = fetch_object-IsRead path range b h valid
    hit_or_fetch-IsRead path range (some hit) b h valid a = record { answers = a; serves = h }

    pub read_object-IsRead :
        (path : Text) (range : Option Range) (b : Browser S N)
        → CacheServes b.cache
        → IsPart laws.target range
        → IsRead path range
            (read_object store fingerprint urls as_str cfg configured_scheme send path range b)
    unfolding read_object
    read_object-IsRead path range b h valid =
        let looked = wasm_try_cache_read store fingerprint path range b.cache b.io in
        let b1 : Browser S N = record b { io = looked.1 } in
        and_then-IsRead path range looked.0
          (hit_or_fetch store fingerprint urls as_str cfg configured_scheme send path range) b1 h
          (λ o e.
            hit_or_fetch-IsRead path range o b1 h valid
              (lookup-HitAnswers path range b.cache b.io o h valid e))
