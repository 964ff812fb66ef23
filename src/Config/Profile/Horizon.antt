-- ===== src/Config/Profile/Horizon.antt =====
-- What the validation says of a snowflake-horizon catalog after the expansion of its profile.
use iceberg_db_rs.Base.{
  ◌≡◌, refl, ◌∙◌, true, false, Option, none, some, [], ◌∷◌, ltb, if◌then◌else◌, arith,
}
use iceberg_db_rs.Base.Text.{Text, codes}
use iceberg_db_rs.Base.Text.Cut.{
  trim, starts_with, contains, has_char, byte_length, has_char-append,
}
use iceberg_db_rs.Base.Dict
use iceberg_db_rs.Base.Dict.{Dict, get-remove, get-insert, get-or_insert}
use iceberg_db_rs.Config.Profile.{
  missing_token, missing_session_role, not_a_pat, Validation, valid, invalid, is_empty,
  snowflake_pat_secret, names_horizon, bad_scope, is_snowflake_horizon_profile,
  validate_snowflake_horizon, validate_uri, validate_rest_props, java_headers, enter_all,
  normalize_rest_headers, move_username, account_uri, expand_uri, move_trimmed, add_server_uri,
  apply_snowflake_horizon, apply_profile,
}
use iceberg_db_rs.Config.Profile.Expansion.{
  get-move_username, get-expand_uri, get-move_trimmed, get-move_trimmed_to, get-move_trimmed_from,
  get-add_server_uri, get-enter_all,
}

-- An account name that the profile expands: no URL, no placeholder, no whole host name.
pub record IsShorthand (account : Text) : Type 0 where
  pub no_open : has_char b'<' account ≡ false
  pub no_close : has_char b'>' account ≡ false
  pub no_host : contains (codes "snowflakecomputing.com") account ≡ false
  pub no_scheme : starts_with (codes "http") account ≡ false

module _ (m : Dict Text) where
  after_scope : Dict Text → Dict Text
  after_scope n = add_server_uri (move_trimmed (codes "scope") (codes "oauth2-scope") n)

  pub horizon_uri :
      (account : Text)
      → IsShorthand account
      → Dict.get m (codes "uri") ≡ some account
      → Dict.get (apply_snowflake_horizon m) (codes "uri") ≡ some (account_uri account)
  unfolding apply_snowflake_horizon
  horizon_uri account short u =
      let m1 = move_username m in
      let m2 = expand_uri m1 in
      let m3 = move_trimmed (codes "token") (codes "credential") m2 in
      let m4 = move_trimmed (codes "scope") (codes "oauth2-scope") m3 in
      get-add_server_uri m4 (codes "uri") refl
      ∙ (get-move_trimmed (codes "scope") (codes "oauth2-scope") m3 (codes "uri") refl refl
          ∙ (get-move_trimmed (codes "token") (codes "credential") m2 (codes "uri") refl refl
              ∙ rw (
                get-move_username m (codes "uri") refl refl,
                expand_uri,
                u,
                short.no_host,
                short.no_scheme,
                get-insert m1 (codes "uri") (account_uri account) (codes "uri"),
              )))

  pub horizon_token : Dict.get (apply_snowflake_horizon m) (codes "token") ≡ none
  unfolding apply_snowflake_horizon
  horizon_token =
      let m2 = expand_uri (move_username m) in
      let m3 = move_trimmed (codes "token") (codes "credential") m2 in
      let m4 = move_trimmed (codes "scope") (codes "oauth2-scope") m3 in
      get-add_server_uri m4 (codes "token") refl
      ∙ (get-move_trimmed (codes "scope") (codes "oauth2-scope") m3 (codes "token") refl refl
          ∙ get-move_trimmed_from (codes "token") (codes "credential") m2 refl)

  pub horizon_credential :
      (token : Text)
      → Dict.get m (codes "token") ≡ some token
      → Dict.get (apply_snowflake_horizon m) (codes "credential") ≡ some (trim token)
  unfolding apply_snowflake_horizon
  horizon_credential token t =
      let m1 = move_username m in
      let m2 = expand_uri m1 in
      let m3 = move_trimmed (codes "token") (codes "credential") m2 in
      let m4 = move_trimmed (codes "scope") (codes "oauth2-scope") m3 in
      get-add_server_uri m4 (codes "credential") refl
      ∙ (get-move_trimmed (codes "scope") (codes "oauth2-scope") m3 (codes "credential") refl refl
          ∙ get-move_trimmed_to (codes "token") (codes "credential") m2 token (
              get-expand_uri m1 (codes "token") refl
              ∙ (get-move_username m (codes "token") refl refl ∙ t)))

  pub horizon_scope : Dict.get (apply_snowflake_horizon m) (codes "scope") ≡ none
  unfolding apply_snowflake_horizon
  horizon_scope =
      let m3 = move_trimmed (codes "token") (codes "credential") (expand_uri (move_username m)) in
      get-add_server_uri (move_trimmed (codes "scope") (codes "oauth2-scope") m3) (codes "scope")
        refl
      ∙ get-move_trimmed_from (codes "scope") (codes "oauth2-scope") m3 refl

  pub horizon_oauth2_scope :
      (scope : Text)
      → Dict.get m (codes "scope") ≡ some scope
      → Dict.get (apply_snowflake_horizon m) (codes "oauth2-scope") ≡ some (trim scope)
  unfolding apply_snowflake_horizon
  horizon_oauth2_scope scope s =
      let m1 = move_username m in
      let m2 = expand_uri m1 in
      let m3 = move_trimmed (codes "token") (codes "credential") m2 in
      get-add_server_uri (move_trimmed (codes "scope") (codes "oauth2-scope") m3)
        (codes "oauth2-scope") refl
      ∙ get-move_trimmed_to (codes "scope") (codes "oauth2-scope") m3 scope (
          get-move_trimmed (codes "token") (codes "credential") m2 (codes "scope") refl refl
          ∙ (get-expand_uri m1 (codes "scope") refl
              ∙ (get-move_username m (codes "scope") refl refl ∙ s)))

-- The verdict on an expanded catalog: what its trimmed token and scope decide.
abbrev pub horizon_verdict : Text → Text → Validation
horizon_verdict token scope =
    if is_empty token
    then invalid missing_token
    else if bad_scope (some scope)
    then invalid missing_session_role
    else if ltb (byte_length (snowflake_pat_secret token)) 32
    then invalid not_a_pat
    else valid

module _ (account : Text) (short : IsShorthand account) where
  account_uri-no_open : has_char b'<' (account_uri account) ≡ false
  unfolding has_char
  account_uri-no_open = ground (
    arith,
    has_char-append b'<' account (codes ".snowflakecomputing.com/polaris/api/catalog"),
    short.no_open,
  )

  account_uri-no_close : has_char b'>' (account_uri account) ≡ false
  unfolding has_char
  account_uri-no_close = ground (
    arith,
    has_char-append b'>' account (codes ".snowflakecomputing.com/polaris/api/catalog"),
    short.no_close,
  )

  -- Any properties with the expanded uri, no token and no scope of their own.
  pub validate_expanded :
      (m : Dict Text) (p : Option Text) (token scope : Text)
      → names_horizon p ≡ true
      → Dict.get m (codes "uri") ≡ some (account_uri account)
      → Dict.get m (codes "token") ≡ none
      → Dict.get m (codes "credential") ≡ some token
      → Dict.get m (codes "scope") ≡ none
      → Dict.get m (codes "oauth2-scope") ≡ some scope
      → validate_rest_props m p ≡ horizon_verdict token scope
  unfolding validate_rest_props starts_with
  validate_expanded m p [] scope named u t c s o =
      rw (validate_rest_props, u, validate_uri, account_uri-no_open, account_uri-no_close, t, c)
  validate_expanded m p (d ∷ token) scope named u t c s o = rw (
    validate_rest_props, u, validate_uri, account_uri-no_open, account_uri-no_close, t, c,
    is_snowflake_horizon_profile, named, validate_snowflake_horizon, s, o,
  )

  -- For a profile that names snowflake-horizon and properties with an account shorthand as uri, a
  -- token and a scope: after the expansion the validation fails for a missing token when the
  -- trimmed token is empty, for the role when the trimmed scope is no session:role:, for the
  -- token when its secret has fewer than 32 bytes, and passes otherwise.
  pub validate_rest_props-apply_profile :
      (m : Dict Text) (p : Option Text) (token scope : Text)
      → names_horizon p ≡ true
      → Dict.get m (codes "uri") ≡ some account
      → Dict.get m (codes "token") ≡ some token
      → Dict.get m (codes "scope") ≡ some scope
      → validate_rest_props (apply_profile p m) p ≡ horizon_verdict (trim token) (trim scope)
  unfolding normalize_rest_headers apply_profile
  validate_rest_props-apply_profile m p token scope named u t s =
      let n = enter_all (java_headers m) m in
      let kept = get-enter_all (java_headers m) m in
      rw (named, apply_profile)
        (validate_expanded (apply_snowflake_horizon n) p (trim token) (trim scope) named
          (horizon_uri n account short (kept (codes "uri") account u)) (horizon_token n)
          (horizon_credential n token (kept (codes "token") token t)) (horizon_scope n)
          (horizon_oauth2_scope n scope (kept (codes "scope") scope s)))
