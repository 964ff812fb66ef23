-- ===== src/Rest/Open/Bearer.antt =====
-- What the properties of an opened catalog hold of its credentials.
use iceberg_db_rs.Base.{◌≡◌, ◌∙◌, subst, inl, inr, true, false, Bool-cases, Option, none, some}
use iceberg_db_rs.Base.Text.{Text, codes}
use iceberg_db_rs.Base.Dict
use iceberg_db_rs.Base.Dict.{Dict, get-remove, get-insert, get-or_insert}
use iceberg_db_rs.ByteCache.Settings.{Global, OpenCache}
use iceberg_db_rs.QueryIo.{Target}
use iceberg_db_rs.Config.Resolve.{Env}
use iceberg_db_rs.Config.Profile.{
  validate_rest_props, is_empty, names_horizon, nonempty, is_snowflake_horizon_profile,
}
use iceberg_db_rs.Rest.Http.{
  Attempt, done, and_then, ◌>>=◌, lift, required, missing_uri, HttpClient, Satisfies,
  Satisfies-and_then, anything,
}
use iceberg_db_rs.Rest.Auth.{exchange_pat}
use iceberg_db_rs.Rest.Open.{
  CatalogSpec, profile_name, with_bearer, with_browser_defaults, Opening, vended_rest_catalog,
  headers_valid, inner_catalog, authorized, open_with, open_rest, install_and_open, validated,
  with_defaults, rest_catalog_properties,
}

get-with_bearer_token :
    (bearer : Text) (props : Dict Text)
    → Dict.get (with_bearer bearer props) (codes "token") ≡ some bearer
unfolding with_bearer
get-with_bearer_token bearer props =
    get-remove (Dict.insert props (codes "token") bearer) (codes "credential") (codes "token")
    ∙ get-insert props (codes "token") bearer (codes "token")

get-with_bearer_credential :
    (bearer : Text) (props : Dict Text)
    → Dict.get (with_bearer bearer props) (codes "credential") ≡ none
unfolding with_bearer
get-with_bearer_credential bearer props =
    get-remove (Dict.insert props (codes "token") bearer) (codes "credential") (codes "credential")

-- The properties hold a bearer and no credential.
pub record HasBearer (bearer : Text) (props : Dict Text) : Type 0 where
  pub token : Dict.get props (codes "token") ≡ some bearer
  pub no_credential : Dict.get props (codes "credential") ≡ none

abbrev pub Authorized : Dict Text → Type 0
Authorized props = (bearer : Text) × HasBearer bearer props

module _ {S : Type 0} (o : Opening S) (http : HttpClient S) (parse_token : Text → Option Text)
    (target : Target) where
  vended_rest_catalog-Authorized :
      (props : Dict Text) → Authorized props → Satisfies Authorized (vended_rest_catalog o props)
  unfolding vended_rest_catalog
  vended_rest_catalog-Authorized props a = elim (Bool-cases (headers_valid o props)) [
    | inl good ↦ rw good a
    | inr bad ↦ rw bad tt
  ]

  authorized-Authorized :
      (props rest_props : Dict Text) (s : S)
      → Satisfies
          (λ (both : Dict Text × Dict Text). Authorized both.0)
          (authorized o http parse_token target true props rest_props s).0
  unfolding authorized
  authorized-Authorized props rest_props s =
      Satisfies-and_then (λ b. Unit {0}) (λ (both : Dict Text × Dict Text). Authorized both.0)
        (exchange_pat http parse_token rest_props s).0
        (λ bearer s'. (
          done (
            with_bearer bearer (with_browser_defaults target props),
            with_bearer bearer rest_props,
          ),
          s',
        ))
        (exchange_pat http parse_token rest_props s).1
        (anything (exchange_pat http parse_token rest_props s).0)
        (λ bearer u s'. (
          bearer,
          record {
            token = get-with_bearer_token bearer (with_browser_defaults target props);
            no_credential = get-with_bearer_credential bearer (with_browser_defaults target props);
          },
        ))

  open_with-Authorized :
      (spec : CatalogSpec) (props : Dict Text) (s : S)
      → names_horizon (profile_name spec) ≡ true
      → Satisfies Authorized (open_with o http parse_token target spec props s).0
  unfolding open_with is_snowflake_horizon_profile
  open_with-Authorized spec props s h =
      let rest_props = Dict.remove props (codes "header.X-Iceberg-Access-Delegation") in
      let a = authorized o http parse_token target true props rest_props s in
      rw (h, is_snowflake_horizon_profile)
        (Satisfies-and_then (λ (both : Dict Text × Dict Text). Authorized both.0) Authorized a.0
          (λ both s'.
            and_then (inner_catalog o target both.1 s').0
              (λ u s''. (vended_rest_catalog o both.0, s'')) (inner_catalog o target both.1 s').1)
          a.1 (authorized-Authorized props rest_props s)
          (λ both p s'.
            Satisfies-and_then (λ u. Unit {0}) Authorized (inner_catalog o target both.1 s').0
              (λ u s''. (vended_rest_catalog o both.0, s'')) (inner_catalog o target both.1 s').1
              (anything (inner_catalog o target both.1 s').0)
              (λ u v s''. vended_rest_catalog-Authorized both.0 p)))

  install_and_open-Authorized :
      (env : Env) (spec : CatalogSpec) (props : Dict Text) (s : Global OpenCache × S)
      → names_horizon (profile_name spec) ≡ true
      → Satisfies Authorized (install_and_open o http parse_token target env spec props s).0
  unfolding install_and_open
  install_and_open-Authorized env spec props s h = open_with-Authorized spec props s.1 h

  open_rest-Authorized :
      (env : Env) (spec : CatalogSpec) (s : Global OpenCache × S)
      → names_horizon (profile_name spec) ≡ true
      → Satisfies Authorized (open_rest o http parse_token target env spec s).0
  unfolding open_rest
  open_rest-Authorized env spec s h =
      let props = rest_catalog_properties env spec in
      Satisfies-and_then (λ u. Unit {0}) Authorized
        (validated (validate_rest_props props (profile_name spec)))
        (λ u. lift (required missing_uri (nonempty (Dict.get props (codes "uri")))) >>= λ uri.
          install_and_open o http parse_token target env spec (with_defaults spec uri props))
        s (anything (validated (validate_rest_props props (profile_name spec))))
        (λ u v s'.
          Satisfies-and_then (λ uri. Unit {0}) Authorized
            (required missing_uri (nonempty (Dict.get props (codes "uri"))))
            (λ uri.
              install_and_open o http parse_token target env spec (with_defaults spec uri props))
            s' (anything (required missing_uri (nonempty (Dict.get props (codes "uri")))))
            (λ uri w s''.
              install_and_open-Authorized env spec (with_defaults spec uri props) s'' h))

  exchange_again :
      (bearer : Text) (props : Dict Text) (n : S)
      → Dict.get props (codes "token") ≡ some bearer
      → is_empty bearer ≡ false
      → exchange_pat http parse_token props n ≡ (done bearer, n)
  unfolding exchange_pat
  exchange_again bearer props n token more = rw (token, more, exchange_pat)

  -- When a catalog whose profile names snowflake-horizon has been opened, by whatever requests: its
  -- properties hold a bearer and no credential, and every later exchange for the catalog gives that
  -- bearer, if it is not empty, and makes no request.
  pub open_rest-exchange_pat :
      (env : Env) (spec : CatalogSpec) (props : Dict Text) (s s' : Global OpenCache × S)
      → names_horizon (profile_name spec) ≡ true
      → open_rest o http parse_token target env spec s ≡ (done props, s')
      → (bearer : Text) × (HasBearer bearer props
          × (is_empty bearer ≡ false
              → (n : S) → exchange_pat http parse_token props n ≡ (done bearer, n)))
  open_rest-exchange_pat env spec props s s' h opened =
      let a =
        subst (λ (r : Attempt (Dict Text) × (Global OpenCache × S)). Satisfies Authorized r.0)
          opened (open_rest-Authorized env spec s h) in
      (a.0, (a.1, λ more n. exchange_again a.0 props n a.1.token more))
