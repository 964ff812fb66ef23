-- ===== src/Rest/Auth/Ready.antt =====
-- A snowflake-horizon catalog that passes the validation reaches the token endpoint.
use iceberg_db_rs.Base.{
  ◌≡◌, refl, sym, ◌∙◌, inl, inr, true, false, Option, Option-cases, none, some, [], ◌∷◌, ◌++◌, ltb,
  if◌then◌else◌, arith, Outcome, ok, err, panic,
}
use iceberg_db_rs.Base.Text.{Text, codes, text_eq_self}
use iceberg_db_rs.Base.Text.Cut.{trim, starts_with, byte_length, ends_with_char}
use iceberg_db_rs.Base.Dict
use iceberg_db_rs.Base.Dict.{Dict, get-or_insert}
use iceberg_db_rs.Config.Profile.{
  valid, snowflake_pat_secret, names_horizon, java_headers, enter_all, normalize_rest_headers,
  apply_profile, apply_snowflake_horizon, account_uri, add_server_uri, move_username, expand_uri,
  move_trimmed, validate_rest_props,
}
use iceberg_db_rs.Config.Profile.Expansion.{get-enter_all, get-add_server_uri}
use iceberg_db_rs.Config.Profile.Horizon.{
  IsShorthand, horizon_verdict, horizon_uri, horizon_token, horizon_credential,
  horizon_oauth2_scope, validate_rest_props-apply_profile,
}
use iceberg_db_rs.Rest.Http.{◌>>=◌, Call, lift, shown, HttpClient}
use iceberg_db_rs.HttpLog.{redact_secret, form_body, form_entries, form_entry}
use iceberg_db_rs.Rest.Auth.{
  oauth_client_id, pat_from_props, oauth_scope, oauth_form, access_token, request_token,
  exchange_pat,
}

-- An entry that was asked for is there.
has-or_insert :
    (m : Dict Text) (k v : Text) → (w : Text) × (Dict.get (Dict.or_insert m k v) k ≡ some w)
has-or_insert m k v = elim (Option-cases (Dict.get m k)) [
  | inl missing ↦ (v, rw (get-or_insert m k v k, text_eq_self k, missing))
  | inr (w, there) ↦ (w, rw (get-or_insert m k v k, text_eq_self k, there))
]

horizon_server_uri :
    (m : Dict Text) (uri : Text)
    → Dict.get m (codes "uri") ≡ some uri
    → (server : Text) × (Dict.get (add_server_uri m) (codes "oauth2-server-uri") ≡ some server)
unfolding add_server_uri
horizon_server_uri m uri u =
    rw (u, add_server_uri)
      (has-or_insert m (codes "oauth2-server-uri") (
        if ends_with_char b'/' uri
        then uri ++ codes "v1/oauth/tokens"
        else uri ++ codes "/v1/oauth/tokens"))

-- What a valid verdict says of the token and the scope.
verdict_role :
    (token scope : Text)
    → horizon_verdict token scope ≡ valid
    → (starts_with (codes "session:role:") scope ≡ true)
      × (ltb (byte_length (snowflake_pat_secret token)) 32 ≡ false)
verdict_role token scope v = (ground arith, ground arith)

pub record IsReady (m : Dict Text) (token scope server : Text) : Type 0 where
  pub no_token : Dict.get m (codes "token") ≡ none
  pub credential : Dict.get m (codes "credential") ≡ some token
  pub role : Dict.get m (codes "oauth2-scope") ≡ some scope
  pub endpoint : Dict.get m (codes "oauth2-server-uri") ≡ some server

horizon_endpoint :
    (m : Dict Text) (account : Text)
    → IsShorthand account
    → Dict.get m (codes "uri") ≡ some account
    → (server : Text) × (Dict.get (apply_snowflake_horizon m) (codes "oauth2-server-uri")
        ≡ some server)
unfolding apply_snowflake_horizon
horizon_endpoint m account short u =
    let m3 = move_trimmed (codes "token") (codes "credential") (expand_uri (move_username m)) in
    let m4 = move_trimmed (codes "scope") (codes "oauth2-scope") m3 in
    horizon_server_uri m4 (account_uri account)
      (sym (get-add_server_uri m4 (codes "uri") refl) ∙ horizon_uri m account short u)

-- The log of the form panics if the redaction of the secret does.
form_body-redact_secret :
    {S A : Type 0} (scope : Text) (id : Option Text) (pat : Text) (sent : Call S A) (s : S)
    → (lift (shown (form_body (oauth_form scope id pat))) >>= λ body. sent) s
      ≡ (lift (shown (redact_secret pat)) >>= λ log. sent) s
unfolding form_body form_entries form_entry oauth_form
form_body-redact_secret scope id pat sent s = go id (redact_secret pat) refl
  where
    go :
        (i : Option Text) (r : Outcome Text)
        → redact_secret pat ≡ r
        → (lift (shown (form_body (oauth_form scope i pat))) >>= λ body. sent) s
          ≡ (lift (shown (redact_secret pat)) >>= λ log. sent) s
    go none (ok t) e = rw (e) refl
    go none (err k) e = rw (e) refl
    go none panic e = rw (e) refl
    go (some n) (ok t) e = rw (e) refl
    go (some n) (err k) e = rw (e) refl
    go (some n) panic e = rw (e) refl

module _ {S : Type 0} (http : HttpClient S) (parse_token : Text → Option Text) where
  -- The request for a token, and what its reply yields.
  abbrev pub sending : Dict Text → Text → Text → Text → Call S Text
  sending props server scope pat =
      http.post_form server (oauth_form scope (oauth_client_id props) pat) >>= λ reply.
      lift (access_token http parse_token reply)

  pub exchange_pat-IsReady :
      (m : Dict Text) (token scope server : Text) (s : S)
      → IsReady m token scope server
      → horizon_verdict token scope ≡ valid
      → exchange_pat http parse_token m s
        ≡ (lift (shown (redact_secret (snowflake_pat_secret token))) >>= λ log.
              sending m server scope (snowflake_pat_secret token))
            s
  unfolding exchange_pat
  exchange_pat-IsReady m [] scope server s r v = absurd (ground arith)
  exchange_pat-IsReady m (c ∷ token) [] server s r v = absurd (ground arith)
  exchange_pat-IsReady m (c ∷ token) (d ∷ scope) server s r v =
      let role = verdict_role (c ∷ token) (d ∷ scope) v in
      rw
        (
          exchange_pat, r.no_token, request_token, pat_from_props, r.credential, oauth_scope,
          r.role, r.endpoint, role.1,
        )
        (rw role.0 (
          form_body-redact_secret (d ∷ scope) (oauth_client_id m) (snowflake_pat_secret (c ∷ token))
            (sending m server (d ∷ scope) (snowflake_pat_secret (c ∷ token))) s))

  -- For a profile that names snowflake-horizon and properties with an account shorthand as uri, a
  -- token and a scope: when the validation passes after the expansion of the profile, the exchange
  -- redacts the secret of the trimmed token for the log, and sends nothing if that panics; else it
  -- sends the secret and the trimmed scope to the token endpoint, and its outcome is that of the
  -- reply.
  pub exchange_pat-apply_profile :
      (account : Text)
      → IsShorthand account
      → (m : Dict Text) (p : Option Text) (token scope : Text) (s : S) → names_horizon p ≡ true
      → Dict.get m (codes "uri") ≡ some account
      → Dict.get m (codes "token") ≡ some token
      → Dict.get m (codes "scope") ≡ some scope
      → validate_rest_props (apply_profile p m) p ≡ valid
      → (server : Text) × ((Dict.get (apply_profile p m) (codes "oauth2-server-uri") ≡ some server)
          × (exchange_pat http parse_token (apply_profile p m) s
              ≡ (lift (shown (redact_secret (snowflake_pat_secret (trim token)))) >>= λ log.
                    sending
                      (apply_profile p m)
                      server
                      (trim scope)
                      (snowflake_pat_secret (trim token)))
                  s))
  unfolding normalize_rest_headers apply_profile
  exchange_pat-apply_profile account short m p token scope s named u t o v =
      let n = enter_all (java_headers m) m in
      let kept = get-enter_all (java_headers m) m in
      let server = horizon_endpoint n account short (kept (codes "uri") account u) in
      let verdict =
        sym (validate_rest_props-apply_profile account short m p token scope named u t o) ∙ v in
      rw (named, apply_profile)
        (
          server.0,
          (
            server.1,
            exchange_pat-IsReady (apply_snowflake_horizon n) (trim token) (trim scope) server.0 s
                (record {
                  no_token = horizon_token n;
                  credential = horizon_credential n token (kept (codes "token") token t);
                  role = horizon_oauth2_scope n scope (kept (codes "scope") scope o);
                  endpoint = server.1;
                })
                verdict,
          ),
        )
