-- ===== src/Proxy/Address.antt =====
-- The upstream address of a request.
use iceberg_db_rs.Base.{
  ℕ, ◌≡◌, refl, ◌∙◌, ap, false, Option, none, some, [], ◌∷◌, ◌++◌, ◌==◌, arith,
}
use iceberg_db_rs.Base.Text.{Text, codes}
use iceberg_db_rs.Base.Text.Cut.{
  strip_prefix, starts_with, contains, split_once, trim_start_matches, NoneOf,
}
use iceberg_db_rs.Proxy.Http.{Request, Libraries}
use iceberg_db_rs.Proxy.Url.{
  after_scheme, second_part, is_slash, path_and_query, path_text, cut_query, first_segment,
}
use iceberg_db_rs.Proxy.Forward.{answer, forward_snowflake, snowflake_request}

strip-starts_with : (p s : Text) → starts_with p s ≡ false → strip_prefix p s ≡ none
unfolding strip_prefix starts_with
strip-starts_with [] s h = absurd (ground arith)
strip-starts_with (c ∷ p) [] h = refl
strip-starts_with (c ∷ p) (d ∷ s) h = ground (arith, strip-starts_with p s)

after_scheme-none : (s : Text) → contains (codes "://") s ≡ false → after_scheme s ≡ none
unfolding after_scheme contains
after_scheme-none [] h = refl
after_scheme-none (c ∷ s) h =
    rw (strip-starts_with (codes "://") (c ∷ s) (ground arith), after_scheme)
      (after_scheme-none s (ground arith))

split_once-first :
    (c : ℕ) (s t : Text) → NoneOf (λ d. d == c) s → split_once c (s ++ (c ∷ t)) ≡ some (s, t)
unfolding split_once
split_once-first c [] t h = ground arith
split_once-first c (d ∷ s) t h = rw (h.0, split_once-first c s t h.1, split_once)

split_once-none : (c : ℕ) (s : Text) → NoneOf (λ d. d == c) s → split_once c s ≡ none
unfolding split_once
split_once-none c [] h = refl
split_once-none c (d ∷ s) h = rw (h.0, split_once-none c s h.1, split_once)

abbrev pub with_query : Text → Option Text → Text
with_query path none = path
with_query path (some query) = path ++ (b'?' ∷ query)

cut_query-with_query :
    (path : Text) (query : Option Text)
    → NoneOf (λ d. d == b'?') path
    → cut_query (with_query path query) ≡ (path, query)
unfolding cut_query
cut_query-with_query path none n = rw (split_once-none b'?' path n, cut_query)
cut_query-with_query path (some q) n = rw (split_once-first b'?' path q n, cut_query)

second_part-none : (s : Text) → contains (codes "://") s ≡ false → second_part s ≡ none
unfolding second_part
second_part-none s h = rw (after_scheme-none s h, second_part)

path_text_relative :
    (c : ℕ) (s : Text)
    → is_slash c ≡ false
    → contains (codes "://") (b'/' ∷ c ∷ s) ≡ false
    → path_text (b'/' ∷ c ∷ s) ≡ c ∷ s
unfolding path_text trim_start_matches
path_text_relative c s f h =
    rw (second_part-none (b'/' ∷ c ∷ s) h, path_text) (rw (f, trim_start_matches))

pub path_and_query-with_query :
    (c : ℕ) (s : Text) (query : Option Text)
    → is_slash c ≡ false
    → NoneOf (λ d. d == b'?') (c ∷ s)
    → contains (codes "://") (b'/' ∷ with_query (c ∷ s) query) ≡ false
    → path_and_query (b'/' ∷ with_query (c ∷ s) query) ≡ (c ∷ s, query)
unfolding path_and_query
path_and_query-with_query c s none f n h =
    ap cut_query (path_text_relative c s f h) ∙ cut_query-with_query (c ∷ s) none n
path_and_query-with_query c s (some q) f n h =
    ap cut_query (path_text_relative c (s ++ (b'?' ∷ q)) f h)
    ∙ cut_query-with_query (c ∷ s) (some q) n

module _ (libs : Libraries) (request : Request) (c : ℕ) (account rest : Text) where
  abbrev path : Text
  path = (c ∷ account) ++ (b'/' ∷ rest)

  first_segment-path : NoneOf is_slash (c ∷ account) → first_segment path ≡ (c ∷ account, rest)
  unfolding first_segment
  first_segment-path n = rw (split_once-first b'/' (c ∷ account) rest n, first_segment)

  forward_snowflake-path :
      (query cors : Option Text) (body : Text)
      → NoneOf is_slash (c ∷ account)
      → request.body ≡ some body
      → forward_snowflake libs request path query cors
        ≡ answer libs cors
            (libs.send (snowflake_request libs request (c ∷ account) rest query body))
  unfolding forward_snowflake
  forward_snowflake-path query cors body n b =
      rw (first_segment-path n, b, forward_snowflake)
        (ap
          (λ r.
            answer libs cors
              (libs.send (snowflake_request libs request (c ∷ account) r.1 query body)))
          (first_segment-path n))

  -- A request whose URL has no scheme, with an account that is not empty and has no slash, a path
  -- without `?` and perhaps a query: what is forwarded is the request for the same path and query
  -- at the account's host, and the answer is that of its reply.
  pub forward_snowflake-upstream_url :
      (query cors : Option Text) (body : Text)
      → NoneOf is_slash (c ∷ account)
      → NoneOf (λ d. d == b'?') path
      → contains (codes "://") (b'/' ∷ with_query path query) ≡ false
      → request.url ≡ b'/' ∷ with_query path query
      → request.body ≡ some body
      → forward_snowflake libs request
          (path_and_query request.url).0
          (path_and_query request.url).1
          cors
        ≡ answer libs cors
            (libs.send (snowflake_request libs request (c ∷ account) rest query body))
  forward_snowflake-upstream_url query cors body n q h u b =
      ap (λ r. forward_snowflake libs request r.0 r.1 cors)
        (ap path_and_query u ∙ path_and_query-with_query c (account ++ (b'/' ∷ rest)) query n.0 q h)
      ∙ forward_snowflake-path query cors body n b
