-- ===== src/Rest/Vended/Credentials.antt =====
-- Which of the properties of the catalog, of the table and of the vended credentials a table gets.
use iceberg_db_rs.Base.{
  ok, ◌≡◌, refl, ◌∙◌, ap, Bool, true, false, Option, Option-cases, inl, inr, none, some, List, [],
  ◌∷◌, if◌then◌else◌,
}
use iceberg_db_rs.Base.Text.{Text, codes, text_eq}
use iceberg_db_rs.Base.Dict
use iceberg_db_rs.Base.Dict.{Dict, get-insert}
use iceberg_db_rs.Config.Profile.{nonempty, or_option}
use iceberg_db_rs.Rest.Http.{
  RestError, missing_server_uri, missing_uri, missing_scope, Attempt, done, failed, Reply,
  HttpClient,
}
use iceberg_db_rs.HttpLog.{redact_secret}
use iceberg_db_rs.Rest.Auth.{exchange_pat, request_token, oauth_scope, pat_from_props}
use iceberg_db_rs.Rest.Vended.{
  TableIdent, table_endpoint, StorageCredential, LoadTableResult, extend, extend_all,
  merge_storage_credentials, build_file_io, loaded_config, table_parts, Libraries, parsed_table,
  replied_table, load_table_vended,
}

-- The value of the last credential that has the key.
abbrev pub vended : List StorageCredential → Text → Option Text
vended [] k = none
vended (cred ∷ creds) k = or_option (vended creds k) (Dict.get cred.config k)

abbrev pub vended_by : Option (List StorageCredential) → Text → Option Text
vended_by none k = none
vended_by (some creds) k = vended creds k

get-extend :
    (m e : Dict Text) (k : Text) → Dict.get (extend m e) k ≡ or_option (Dict.get e k) (Dict.get m k)
unfolding extend Dict.get
get-extend m [] k = refl
get-extend m ((j, v) ∷ e) k = get-insert (extend m e) j v k ∙ found (text_eq j k) (get-extend m e k)
  where
    found :
        (b : Bool)
        → Dict.get (extend m e) k ≡ or_option (Dict.get e k) (Dict.get m k)
        → (if b then some v else Dict.get (extend m e) k)
          ≡ or_option (if b then some v else Dict.get e k) (Dict.get m k)
    found true h = refl
    found false h = h

or_option_assoc : (a b c : Option Text) → or_option a (or_option b c) ≡ or_option (or_option a b) c
or_option_assoc none b c = refl
or_option_assoc (some t) b c = refl

get-extend_all :
    (m : Dict Text) (creds : List StorageCredential) (k : Text)
    → Dict.get (extend_all m creds) k ≡ or_option (vended creds k) (Dict.get m k)
unfolding extend_all
get-extend_all m [] k = refl
get-extend_all m (cred ∷ creds) k =
    get-extend_all (extend m cred.config) creds k
    ∙ (ap (or_option (vended creds k)) (get-extend m cred.config k)
        ∙ or_option_assoc (vended creds k) (Dict.get cred.config k) (Dict.get m k))

or_option-none : (o : Option Text) → or_option o none ≡ o
or_option-none none = refl
or_option-none (some t) = refl

module _ {M : Type 0} where
  -- The vended credentials, the catalog's properties and the table's, in this order.
  abbrev pub setting : Dict Text → LoadTableResult M → Text → Option Text
  setting props load k =
      or_option (vended_by load.storage_credentials k)
        (or_option (Dict.get props k) (Dict.get load.config k))

  get-loaded_config :
      (props : Dict Text) (load : LoadTableResult M) (k : Text)
      → Dict.get (loaded_config props load) k ≡ setting props load k
  unfolding loaded_config Dict.get
  get-loaded_config props load k =
      merged load.storage_credentials
      ∙ ap (or_option (vended_by load.storage_credentials k)) (
          get-extend (extend [] load.config) props k
          ∙ ap (or_option (Dict.get props k))
              (get-extend [] load.config k ∙ or_option-none (Dict.get load.config k)))
    where
      merged :
          (creds : Option (List StorageCredential))
          → Dict.get (merge_storage_credentials (extend (extend [] load.config) props) creds) k
            ≡ or_option (vended_by creds k) (Dict.get (extend (extend [] load.config) props) k)
      merged none = refl
      merged (some creds) = get-extend_all (extend (extend [] load.config) props) creds k

module _ {S M T : Type 0} (http : HttpClient S) (libs : Libraries M T) where
  -- When a catalog has a uri, the exchange gives a bearer, which the log can redact (no
  -- cut is inside a character), and the server answers the load with
  -- status 200 and the JSON of a table that has a metadata location: the table is built of its
  -- identifier, metadata and location, and each property of its files is that of the last vended
  -- credential that has it, else the catalog's, else the table's.
  pub load_table_vended-setting :
      (props : Dict Text) (ident : TableIdent) (load : LoadTableResult M)
      (uri bearer log location : Text) (reply : Reply) (s s1 s2 : S)
      → nonempty (Dict.get props (codes "uri")) ≡ some uri
      → exchange_pat http libs.parse_token props s ≡ (done bearer, s1)
      → redact_secret bearer ≡ ok log
      → http.http_get (table_endpoint libs.to_uppercase uri ident props) bearer s1
        ≡ (done reply, s2)
      → reply.status ≡ 200
      → libs.parse_load_table reply.body ≡ some load
      → load.metadata_location ≡ some location
      → (file_io : Dict Text) × ((load_table_vended http libs props ident s ≡ (
        libs.build_table (record {
          identifier = ident;
          file_io = file_io;
          metadata = load.metadata;
          metadata_location = load.metadata_location;
        }),
        s2,
      ))
          × ((k : Text) → Dict.get file_io k ≡ setting props load k))
  unfolding load_table_vended
  load_table_vended-setting props ident load uri bearer log location reply s s1 s2 u b shows r good
        l m =
      (
        loaded_config props load,
        (
          rw (u, b, shows, r, good, l, replied_table, parsed_table, table_parts, m, build_file_io)
              (rw m),
          get-loaded_config props load,
        ),
      )

  no_role :
      (props : Dict Text) (pat : Attempt Text) (server : Option Text) (s : S)
      → nonempty
          (or_option (Dict.get props (codes "oauth2-scope")) (Dict.get props (codes "scope")))
        ≡ none
      → pat_from_props props ≡ pat
      → Dict.get props (codes "oauth2-server-uri") ≡ server
      → (e : RestError) × (request_token http libs.parse_token props s ≡ (failed e, s))
  unfolding request_token
  no_role props (failed e) server s r p u = (e, rw p)
  no_role props (done pat) none s r p u = (missing_server_uri, rw (p, u))
  no_role props (done pat) (some server) s r p u = (missing_scope, rw (p, u, oauth_scope, r))

  exchange_pat_no_role :
      (props : Dict Text) (s : S)
      → nonempty (Dict.get props (codes "token")) ≡ none
      → nonempty
          (or_option (Dict.get props (codes "oauth2-scope")) (Dict.get props (codes "scope")))
        ≡ none
      → (e : RestError) × (exchange_pat http libs.parse_token props s ≡ (failed e, s))
  unfolding exchange_pat
  exchange_pat_no_role props s t r =
      rw (t, exchange_pat)
        (no_role props (pat_from_props props) (Dict.get props (codes "oauth2-server-uri")) s r refl
          refl)

  -- For a catalog without a token and without a scope, Snowflake's or not: the loading of any table
  -- fails, and no request is made.
  pub load_table_vended_no_role :
      (props : Dict Text) (ident : TableIdent) (s : S)
      → nonempty (Dict.get props (codes "token")) ≡ none
      → nonempty
          (or_option (Dict.get props (codes "oauth2-scope")) (Dict.get props (codes "scope")))
        ≡ none
      → (e : RestError) × (load_table_vended http libs props ident s ≡ (failed e, s))
  unfolding load_table_vended
  load_table_vended_no_role props ident s t r =
      elim (Option-cases (nonempty (Dict.get props (codes "uri")))) [
        | inl missing ↦ (missing_uri, rw missing)
        | inr (uri, there) ↦
            let refused = exchange_pat_no_role props s t r in (refused.0, rw (there, refused.1))
      ]
