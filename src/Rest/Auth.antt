-- ===== src/Rest/Auth.antt =====
-- crates/idb-catalog/src/snowflake_auth.rs: a programmatic access token (PAT) is exchanged for a
-- bearer. Logging is left out, but for the redaction of the secret, which may panic.
pub mod Ready
use iceberg_db_rs.Base.{ℕ, Bool, ◌&&◌, Option, none, some, List, [], ◌∷◌, ltb, leb, if◌then◌else◌}
use iceberg_db_rs.Base.Text.{Text, codes}
use iceberg_db_rs.Base.Text.Cut.{starts_with, byte_length}
use iceberg_db_rs.Base.Dict
use iceberg_db_rs.Base.Dict.{Dict}
use iceberg_db_rs.HttpLog.{form_body}
use iceberg_db_rs.Config.Profile.{nonempty, or_option, snowflake_pat_secret}
use iceberg_db_rs.Rest.Http.{
  RestError, missing_credential, not_a_pat, missing_scope, scope_not_role, missing_server_uri,
  bad_json, rejected, Attempt, done, failed, Call, ◌>>=◌, lift, shown, required, Reply, HttpClient,
}

unfoldable pub oauth_client_id : Dict Text → Option Text
oauth_client_id props = nonempty (Dict.get props (codes "oauth2-client-id"))

abbrev pub check_pat : Text → Attempt Text
check_pat pat = if ltb (byte_length pat) 32 then failed not_a_pat else done pat

unfoldable pub pat_from_props : Dict Text → Attempt Text
pat_from_props props = elim (nonempty (Dict.get props (codes "credential"))) [
  | none ↦ failed missing_credential
  | some cred ↦ check_pat (snowflake_pat_secret cred)
]

abbrev pub check_scope : Text → Attempt Text
check_scope scope =
    if starts_with (codes "session:role:") scope then done scope else failed scope_not_role

unfoldable pub oauth_scope : Dict Text → Attempt Text
oauth_scope props =
    elim (nonempty
      (or_option (Dict.get props (codes "oauth2-scope")) (Dict.get props (codes "scope")))) [
        | none ↦ failed missing_scope
        | some scope ↦ check_scope scope
      ]

abbrev pub client_entry : Option Text → List (Text × Text) → List (Text × Text)
client_entry none form = form
client_entry (some id) form = (codes "client_id", id) ∷ form

unfoldable pub oauth_form : Text → Option Text → Text → List (Text × Text)
oauth_form scope client_id pat =
    (codes "grant_type", codes "client_credentials")
    ∷ (codes "scope", scope)
    ∷ client_entry client_id ((codes "client_secret", pat) ∷ [])

abbrev pub is_success : ℕ → Bool
is_success status = leb 200 status && ltb status 300

-- `parse_token` reads the access token of a reply's JSON.
module _ {S : Type 0} (http : HttpClient S) (parse_token : Text → Option Text) where
  unfoldable pub access_token : Reply → Attempt Text
  access_token reply =
      if is_success reply.status
      then required bad_json (parse_token reply.body)
      else failed (rejected reply.status reply.body)

  unfoldable pub request_token : Dict Text → Call S Text
  unfolding pat_from_props oauth_scope oauth_client_id access_token form_body
  request_token props = do
    pat ← lift (pat_from_props props)
    oauth_uri ← lift (required missing_server_uri (Dict.get props (codes "oauth2-server-uri")))
    scope ← lift (oauth_scope props)
    body ← lift (shown (form_body (oauth_form scope (oauth_client_id props) pat)))
    reply ← http.post_form oauth_uri (oauth_form scope (oauth_client_id props) pat)
    lift (access_token reply)

  -- The preset token, or a new one.
  unfoldable pub exchange_pat : Dict Text → Call S Text
  unfolding request_token
  exchange_pat props = elim (nonempty (Dict.get props (codes "token"))) [
    | some token ↦ lift (done token)
    | none ↦ request_token props
  ]
