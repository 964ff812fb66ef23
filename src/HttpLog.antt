-- ===== src/HttpLog.antt =====
-- crates/idb-catalog/src/http_log.rs: what is logged of requests, with secrets redacted. The printing
-- itself is left out.
pub mod Redacted
use iceberg_db_rs.Base.{
  ℕ, zero, suc, ◌+◌, ◌-◌, ◌/◌, ◌%◌, Bool, true, false, ◌||◌, Option, none, some, List, [], ◌∷◌,
  ◌++◌, map, leb, ltb, ◌==◌, if◌then◌else◌, Outcome, ok, panic, ◌>>=◌,
}
use iceberg_db_rs.Base.Text.{Text, codes, text_eq}
use iceberg_db_rs.Base.Text.Chars.{to_ascii_lowercase}
use iceberg_db_rs.Base.Text.Cut.{byte_length, char_bytes, contains, strip_prefix, trim_end_matches}
use iceberg_db_rs.Base.Dict
use iceberg_db_rs.Base.Dict.{Dict}

-- `&s[..n]` and `&s[n..]`, which panic inside a character and beyond the end.
unfoldable pub byte_prefix : ℕ → Text → Outcome Text
byte_prefix zero s = ok []
byte_prefix (suc n) [] = panic
byte_prefix (suc n) (c ∷ s) =
    let rest = (do t ← byte_prefix (suc n - char_bytes c) s; ok (c ∷ t)) in
    if leb (char_bytes c) (suc n) then rest else panic

unfoldable pub byte_suffix : ℕ → Text → Outcome Text
byte_suffix zero s = ok s
byte_suffix (suc n) [] = panic
byte_suffix (suc n) (c ∷ s) =
    let rest = byte_suffix (suc n - char_bytes c) s in
    if leb (char_bytes c) (suc n) then rest else panic

-- The decimal digits of a number; twenty are enough for 64 bits.
unfoldable pub decimal : ℕ → ℕ → Text
decimal zero n = []
decimal (suc fuel) n =
    let high = decimal fuel (n / 10) in
    if ltb n 10 then (b'0' + n) ∷ [] else high ++ ((b'0' + n % 10) ∷ [])

-- `…` is the code point 0x2026.
abbrev pub redacted : Text → Text → ℕ → Text
redacted first last n =
    first ++ (0x2026 ∷ (last ++ (codes " (" ++ (decimal 20 n ++ codes " chars)"))))

unfoldable pub redact_secret : Text → Outcome Text
unfolding byte_prefix byte_suffix
redact_secret value =
    let n = byte_length value in
    if leb n 8 then ok (codes "***") else (do
      first ← byte_prefix 4 value
      last ← byte_suffix (n - 4) value
      ok (redacted first last n))

unfoldable pub redact_header : Text → Text → Outcome Text
unfolding redact_secret
redact_header name value =
    let lower = to_ascii_lowercase name in
    if text_eq lower (codes "authorization")
      || contains (codes "secret") lower
      || contains (codes "token") lower
    then elim (strip_prefix (codes "Bearer ") value) [
      | some token ↦ (do t ← redact_secret token; ok (codes "Bearer " ++ t))
      | none ↦ redact_secret value
    ]
    else ok value

-- One parameter of a form: the secret redacted.
unfoldable pub form_entry : Text × Text → Outcome Text
unfolding redact_secret
form_entry (k, v) = do
  shown ← if text_eq k (codes "client_secret") then redact_secret v else ok v
  ok (k ++ (b'=' ∷ shown))

unfoldable pub form_entries : List (Text × Text) → Outcome (List Text)
unfolding form_entry
form_entries [] = ok []
form_entries (p ∷ params) = do e ← form_entry p; rest ← form_entries params; ok (e ∷ rest)

-- `join("&")`.
abbrev pub join_and : List Text → Text
join_and [] = []
join_and (e ∷ []) = e
join_and (e ∷ f ∷ es) = e ++ (b'&' ∷ join_and (f ∷ es))

unfoldable pub form_body : List (Text × Text) → Outcome Text
unfolding form_entries
form_body params = do es ← form_entries params; ok (join_and es)

abbrev pub config_url : Text → Option Text → Text
config_url base none = base ++ codes "/v1/config"
config_url base (some wh) = base ++ (codes "/v1/config" ++ (codes "?warehouse=" ++ wh))

abbrev pub auth_url : Text → Option Text → Text
auth_url base (some oauth) = oauth
auth_url base none = base ++ codes "/v1/oauth/tokens"

unfoldable pub iceberg_rest_urls : Dict Text → List (Text × Text)
iceberg_rest_urls props = elim (Dict.get props (codes "uri")) [
  | none ↦ []
  | some uri ↦
      let base = trim_end_matches (λ c. c == b'/') uri in
      (codes "GET (init)", config_url base (Dict.get props (codes "warehouse")))
      ∷ (codes "POST (auth)", auth_url base (Dict.get props (codes "oauth2-server-uri")))
      ∷ (codes "GET", base ++ codes "/v1/namespaces")
      ∷ []
]

-- What `log_catalog_bootstrap` shows of a property.
unfoldable pub shown_property : Text → Text → Outcome Text
unfolding redact_secret
shown_property k v =
    if contains (codes "token") k || contains (codes "credential") k || contains (codes "secret") k
    then redact_secret v
    else ok v

-- `IDB_LOG_HTTP`, if it is set.
unfoldable pub enabled : Option Text → Bool
enabled none = false
enabled (some v) =
    text_eq v (codes "1")
    || text_eq v (codes "true")
    || text_eq v (codes "TRUE")
    || text_eq v (codes "yes")
