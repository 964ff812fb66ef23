-- ===== src/Proxy/Url.antt =====
-- `path_and_query`, `query_param` and the cuts of paths of idb-sf-proxy/src/main.rs.
use mathlib.Core.Option
use iceberg_db_rs.Base.{ℕ, Bool, Option, none, some, List, [], ◌∷◌, ◌++◌, ◌==◌, if◌then◌else◌}
use iceberg_db_rs.Base.Text.{Text, codes, text_eq}
use iceberg_db_rs.Base.Text.Cut.{strip_prefix, starts_with, split_once, trim_start_matches}

-- What stands after the first `://`, and what stands before the next one.
unfoldable pub after_scheme : Text → Option Text
after_scheme [] = none
after_scheme (c ∷ s) = elim (strip_prefix (codes "://") (c ∷ s)) [
  | some r ↦ some r
  | none ↦ after_scheme s
]

unfoldable pub before_scheme : Text → Text
before_scheme [] = []
before_scheme (c ∷ s) =
    let rest = before_scheme s in if starts_with (codes "://") (c ∷ s) then [] else c ∷ rest

-- `split("://").nth(1)`.
unfoldable pub second_part : Text → Option Text
unfolding after_scheme before_scheme
second_part s = Option.map before_scheme (after_scheme s)

-- From the first slash on; `/` when there is none.
unfoldable pub from_slash : Text → Text
from_slash [] = codes "/"
from_slash (c ∷ s) = if c == b'/' then c ∷ s else from_slash s

abbrev pub is_slash : ℕ → Bool
is_slash c = c == b'/'

-- The path with its query, without leading slashes.
unfoldable pub path_text : Text → Text
unfolding second_part from_slash
path_text url =
    trim_start_matches is_slash
      (elim (second_part url) [ some after ↦ from_slash after | none ↦ url ])

unfoldable pub cut_query : Text → Text × Option Text
cut_query path_q = elim (split_once b'?' path_q) [
  | some r ↦ (r.0, some r.1)
  | none ↦ (path_q, none)
]

unfoldable pub path_and_query : Text → Text × Option Text
unfolding path_text cut_query
path_and_query url = cut_query (path_text url)

-- `splitn(2, '/')`: the first segment and what follows it.
unfoldable pub first_segment : Text → Text × Text
first_segment path = elim (split_once b'/' path) [ some r ↦ (r.0, r.1) | none ↦ (path, []) ]

-- The parts of the text between the characters `c`: the first, and the others.
unfoldable pub split_rest : ℕ → Text → Text × List Text
split_rest c [] = ([], [])
split_rest c (d ∷ s) =
    let rest = split_rest c s in if d == c then ([], rest.0 ∷ rest.1) else (d ∷ rest.0, rest.1)

module _ (decode : Text → Option Text) where
  unfoldable pub find_param : Text → List Text → Option Text
  find_param key [] = none
  find_param key (pair ∷ pairs) = elim (split_once b'=' pair) [
    | none ↦ none
    | some r ↦ if text_eq r.0 key then decode r.1 else find_param key pairs
  ]

  unfoldable pub query_param : Option Text → Text → Option Text
  unfolding split_rest find_param
  query_param none key = none
  query_param (some query) key =
      let pairs = split_rest b'&' query in find_param key (pairs.0 ∷ pairs.1)

unfoldable pub upstream_url : Text → Text → Option Text → Text
upstream_url account rest none =
    codes "https://" ++ (account ++ (codes ".snowflakecomputing.com/" ++ rest))
upstream_url account rest (some q) =
    codes "https://" ++ (account ++ (codes ".snowflakecomputing.com/" ++ (rest ++ (b'?' ∷ q))))
