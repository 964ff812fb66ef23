-- ===== src/Config/Profile.antt =====
-- crates/idb-config/src/profile.rs: profile presets and the validation of REST catalog properties.
-- A map of properties is a `Dict`; an error is told apart by its message.
pub mod Expansion
pub mod Horizon
use iceberg_db_rs.Base.{
  ℕ, Bool, true, false, ◌&&◌, ◌||◌, not, Option, none, some, List, [], ◌∷◌, ◌++◌, ltb,
  if◌then◌else◌,
}
use iceberg_db_rs.Base.Text.{Text, codes, text_eq}
use iceberg_db_rs.Base.Text.Chars.{to_ascii_lowercase}
use iceberg_db_rs.Base.Text.Cut.{
  trim, starts_with, contains, strip_prefix, has_char, ends_with_char, split_once, byte_length,
}
use iceberg_db_rs.Base.Dict
use iceberg_db_rs.Base.Dict.{Dict}

pub data ConfigError : Type 0 where
  missing_uri placeholder_uri not_http missing_token missing_session_role not_a_pat : ConfigError

pub data Validation : Type 0 where
  valid : Validation
  invalid : ConfigError → Validation

abbrev pub is_empty : Text → Bool
is_empty [] = true
is_empty (c ∷ s) = false

-- `is_none_or(|t| t.is_empty())`.
abbrev pub is_none_or_empty : Option Text → Bool
is_none_or_empty none = true
is_none_or_empty (some t) = is_empty t

-- `filter(|s| !s.is_empty())`.
abbrev pub nonempty : Option Text → Option Text
nonempty none = none
nonempty (some t) = if is_empty t then none else some t

abbrev pub or_option : Option Text → Option Text → Option Text
or_option none b = b
or_option (some t) b = some t

abbrev pub or_text : Option Text → Text → Text
or_text none d = d
or_text (some t) d = t

unfoldable pub snowflake_pat_secret : Text → Text
snowflake_pat_secret credential = elim (split_once b':' credential) [
  | none ↦ credential
  | some r ↦ r.1
]

unfoldable pub is_snowflake_horizon_uri : Text → Bool
is_snowflake_horizon_uri uri =
    contains (codes "/polaris/api/catalog") uri
    && (contains (codes "snowflakecomputing.com") uri
        || contains (codes "/sf/") uri
        || contains (codes "127.0.0.1:8787") uri
        || contains (codes "localhost:8787") uri)

abbrev pub names_horizon : Option Text → Bool
names_horizon none = false
names_horizon (some p) = text_eq (to_ascii_lowercase p) (codes "snowflake-horizon")

abbrev pub is_horizon_uri? : Option Text → Bool
is_horizon_uri? none = false
is_horizon_uri? (some uri) = is_snowflake_horizon_uri uri

unfoldable pub is_snowflake_horizon_profile : Option Text → Option Text → Bool
is_snowflake_horizon_profile profile uri = names_horizon profile || is_horizon_uri? uri

abbrev pub bad_scope : Option Text → Bool
bad_scope none = true
bad_scope (some s) = is_empty s || not (starts_with (codes "session:role:") s)

unfoldable pub validate_snowflake_horizon : Dict Text → Validation
unfolding snowflake_pat_secret
validate_snowflake_horizon props =
    if bad_scope
      (or_option (Dict.get props (codes "scope")) (Dict.get props (codes "oauth2-scope")))
    then invalid missing_session_role
    else (let cred =
          or_text
            (or_option (nonempty (Dict.get props (codes "credential")))
              (nonempty (Dict.get props (codes "token"))))
            [] in
        if ltb (byte_length (snowflake_pat_secret cred)) 32 then invalid not_a_pat else valid)

-- `validate_rest_props` after the uri was found.
unfoldable pub validate_uri : Text → Dict Text → Option Text → Validation
unfolding validate_snowflake_horizon is_snowflake_horizon_profile
validate_uri uri props profile =
    if has_char b'<' uri || has_char b'>' uri
    then invalid placeholder_uri
    else if not (starts_with (codes "http://") uri) && not (starts_with (codes "https://") uri)
    then invalid not_http
    else if is_none_or_empty (Dict.get props (codes "token"))
        && is_none_or_empty (Dict.get props (codes "credential"))
    then invalid missing_token
    else if is_snowflake_horizon_profile profile (Dict.get props (codes "uri"))
    then validate_snowflake_horizon props
    else valid

unfoldable pub validate_rest_props : Dict Text → Option Text → Validation
unfolding validate_uri
validate_rest_props props profile = elim (nonempty (Dict.get props (codes "uri"))) [
  | none ↦ invalid missing_uri
  | some uri ↦ validate_uri uri props profile
]

-- `normalize_rest_headers`: the headers are collected first and entered afterwards.
unfoldable pub java_headers : Dict Text → Dict Text
java_headers [] = []
java_headers ((k, v) ∷ m) = elim (strip_prefix (codes "rest.headers.") k) [
  | none ↦ java_headers m
  | some name ↦ (codes "header." ++ name, v) ∷ java_headers m
]

unfoldable pub enter_all : Dict Text → Dict Text → Dict Text
enter_all [] props = props
enter_all ((k, v) ∷ headers) props = enter_all headers (Dict.or_insert props k v)

unfoldable pub normalize_rest_headers : Dict Text → Dict Text
unfolding java_headers enter_all
normalize_rest_headers props = enter_all (java_headers props) props

-- The five steps of `apply_snowflake_horizon`, in order.
unfoldable pub move_username : Dict Text → Dict Text
move_username props = elim (Dict.get props (codes "username")) [
  | none ↦ props
  | some username ↦
      Dict.or_insert (Dict.remove props (codes "username")) (codes "oauth2-client-id") username
]

abbrev pub account_uri : Text → Text
account_uri account =
    codes "https://" ++ (account ++ codes ".snowflakecomputing.com/polaris/api/catalog")

unfoldable pub expand_uri : Dict Text → Dict Text
expand_uri props = elim (Dict.get props (codes "uri")) [
  | none ↦ props
  | some uri ↦
      if not (contains (codes "snowflakecomputing.com") uri) && not (starts_with (codes "http") uri)
      then Dict.insert props (codes "uri") (account_uri uri)
      else props
]

unfoldable pub move_trimmed : Text → Text → Dict Text → Dict Text
move_trimmed from to props = elim (Dict.get props from) [
  | none ↦ props
  | some v ↦ Dict.insert (Dict.remove props from) to (trim v)
]

unfoldable pub add_server_uri : Dict Text → Dict Text
add_server_uri props = elim (Dict.get props (codes "uri")) [
  | none ↦ props
  | some uri ↦ Dict.or_insert props (codes "oauth2-server-uri") (
      if ends_with_char b'/' uri
      then uri ++ codes "v1/oauth/tokens"
      else uri ++ codes "/v1/oauth/tokens")
]

unfoldable pub apply_snowflake_horizon : Dict Text → Dict Text
unfolding move_username expand_uri move_trimmed add_server_uri
apply_snowflake_horizon props = add_server_uri (
    move_trimmed (codes "scope") (codes "oauth2-scope")
      (move_trimmed (codes "token") (codes "credential") (expand_uri (move_username props))))

unfoldable pub apply_profile : Option Text → Dict Text → Dict Text
unfolding normalize_rest_headers apply_snowflake_horizon
apply_profile profile props =
    if names_horizon profile
    then apply_snowflake_horizon (normalize_rest_headers props)
    else normalize_rest_headers props
