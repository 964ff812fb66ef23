-- ===== src/QueryIo/Counters.antt =====
-- The object counter of a query counts each object once, however often its ranges are fetched.
use iceberg_db_rs.Base.{
  ℕ, suc, ◌+◌, ◌<◌, ◌≡◌, refl, true, false, ◌||◌, inl, inr, ◌∙◌, Bool-cases, some, List, [], ◌∷◌,
  if◌then◌else◌, add64, add64_exact, word_mod, arith, length,
}
use iceberg_db_rs.Base.Text.{Text, text_eq, text_eq_iff, text_eq_self}
use iceberg_db_rs.QueryIo.{
  wasm32, contains, QueryIo, seen_or_empty, reset_query_state, record_s3_object_fetch,
  files_fetched,
}

-- The fetches of a query, in order, after the reset.
abbrev pub fetch_all : List Text → QueryIo → QueryIo
fetch_all [] q = q
fetch_all (url ∷ urls) q = fetch_all urls (record_s3_object_fetch wasm32 url q)

-- The number of different texts in a list that are not in another: the last of each is counted.
abbrev pub distinct_beyond : List Text → List Text → ℕ
distinct_beyond seen [] = 0
distinct_beyond seen (url ∷ urls) =
    if contains url urls || contains url seen
    then distinct_beyond seen urls
    else suc (distinct_beyond seen urls)

distinct_beyond-cons :
    (url : Text) (seen urls : List Text)
    → contains url seen ≡ false
    → distinct_beyond seen urls ≡ (
        if contains url urls
        then suc (distinct_beyond (url ∷ seen) urls)
        else distinct_beyond (url ∷ seen) urls)
distinct_beyond-cons url seen [] h = refl
distinct_beyond-cons url seen (v ∷ vs) h = elim (Bool-cases (text_eq v url)) [
  | inl same ↦
      rw ((text_eq_iff v url).0 same, text_eq_self url)
        (ground (arith, distinct_beyond-cons url seen vs h))
  | inr other ↦
      ground (arith, distinct_beyond-cons url seen vs h, text_eq_iff v url, text_eq_iff url v)
]

module _ (url : Text) (q : QueryIo) where
  abbrev seen : List Text
  seen = seen_or_empty q.seen_s3_objects

  record_old :
      contains url seen ≡ true
      → record_s3_object_fetch wasm32 url q ≡ record q { seen_s3_objects = some seen }
  unfolding record_s3_object_fetch
  record_old h = rw h

  record_new :
      contains url seen ≡ false
      → record_s3_object_fetch wasm32 url q ≡ record q {
        seen_s3_objects = some (url ∷ seen);
        s3_files_fetched = add64 q.s3_files_fetched 1;
      }
  unfolding record_s3_object_fetch
  record_new h = rw h

files-fetch_all :
    (urls : List Text) (q : QueryIo)
    → q.s3_files_fetched + length urls < word_mod
    → (fetch_all urls q).s3_files_fetched
      ≡ q.s3_files_fetched + distinct_beyond (seen_or_empty q.seen_s3_objects) urls
files-fetch_all [] q h = omega arith
files-fetch_all (url ∷ urls) q h = elim (Bool-cases (contains url (seen url q))) [
  | inl old ↦
      rw (record_old url q old, fetch_all)
        (ground (
          arith,
          old,
          files-fetch_all urls (record q { seen_s3_objects = some (seen url q) }) (omega arith),
        ))
  | inr new ↦
      let one = add64_exact q.s3_files_fetched 1 (omega arith) in
      let q' : QueryIo = record q {
        seen_s3_objects = some (url ∷ seen url q);
        s3_files_fetched = add64 q.s3_files_fetched 1;
      } in
      rw (record_new url q new, fetch_all)
        (ground (
          arith,
          new,
          one,
          distinct_beyond-cons url (seen url q) urls new,
          files-fetch_all urls q' (omega arith),
        ))
]

-- After a reset, the browser's count of fetched files is the number of different objects among
-- those fetched, as long as there are fewer than 2 ^ 64 fetches.
pub files_fetched-distinct :
    (urls : List Text) (q : QueryIo)
    → length urls < word_mod
    → files_fetched wasm32 (fetch_all urls (reset_query_state wasm32 q)) ≡ distinct_beyond [] urls
unfolding files_fetched reset_query_state
files_fetched-distinct urls q h =
    files-fetch_all urls (reset_query_state wasm32 q) (omega arith) ∙ omega arith
