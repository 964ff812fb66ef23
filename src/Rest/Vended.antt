-- ===== src/Rest/Vended.antt =====
-- crates/idb-catalog/src/rest_vended.rs: the URLs of tables, the merge of vended credentials, and
-- the loading of a table. `to_uppercase`, by the tables of Unicode, is a parameter, and so is the
-- builder of tables of the iceberg crate. Logging is left out, and so is that a table of the browser
-- is built without a cache. The redaction of the bearer for the log may panic.
pub mod Credentials
use iceberg_db_rs.Base.{
  ℕ, Bool, true, false, ◌&&◌, not, Option, none, some, List, [], ◌∷◌, ◌++◌, ◌==◌, if◌then◌else◌,
}
use iceberg_db_rs.Base.Text.{Text, codes}
use iceberg_db_rs.Base.Text.Cut.{contains, trim_start_matches, trim_end_matches, strip_prefix}
use iceberg_db_rs.Base.Dict
use iceberg_db_rs.Base.Dict.{Dict}
use iceberg_db_rs.Config.Profile.{is_empty, nonempty, or_option, is_snowflake_horizon_uri}
use iceberg_db_rs.Rest.Http.{
  missing_uri, missing_location, bad_json, rejected, Attempt, done, failed, Call, ◌>>=◌, lift,
  shown, required, Reply, HttpClient,
}
use iceberg_db_rs.HttpLog.{redact_secret}
use iceberg_db_rs.Rest.Auth.{exchange_pat}

-- A namespace by its text for URLs.
pub record TableIdent : Type 0 where
  pub namespace : Text
  pub name : Text

abbrev pub is_slash : ℕ → Bool
is_slash c = c == b'/'

abbrev pub not_a_url : Option Text → Option Text
not_a_url none = none
not_a_url (some w) = if not (is_empty w) && not (contains (codes "://") w) then some w else none

abbrev pub when : {A : Type 0} → Bool → Option A → Option A
when b o = if b then o else none

module _ (to_uppercase : Text → Text) where
  -- What stands between `v1/` and `namespaces/`: nothing, or a segment and a slash.
  unfoldable pub path_prefix : Text → Dict Text → Text
  path_prefix uri props =
      elim (when (is_snowflake_horizon_uri uri) (
        not_a_url
          (or_option (Dict.get props (codes "warehouse")) (Dict.get props (codes "prefix"))))) [
            | some db ↦ to_uppercase db ++ codes "/"
            | none ↦ elim (nonempty (Dict.get props (codes "prefix"))) [
              | some prefix ↦
                  trim_end_matches is_slash (trim_start_matches is_slash prefix) ++ codes "/"
              | none ↦ []
            ]
          ]

  unfoldable pub tables_list_endpoint : Text → Text → Dict Text → Text
  unfolding path_prefix
  tables_list_endpoint uri namespace props =
      trim_end_matches is_slash uri
      ++ (codes "/v1/"
          ++ (path_prefix uri props
              ++ (codes "namespaces/" ++ (to_uppercase namespace ++ codes "/tables"))))

  unfoldable pub table_endpoint : Text → TableIdent → Dict Text → Text
  unfolding path_prefix
  table_endpoint uri table props =
      trim_end_matches is_slash uri
      ++ (codes "/v1/"
          ++ (path_prefix uri props
              ++ (codes "namespaces/"
                  ++ (to_uppercase table.namespace
                      ++ (codes "/tables/" ++ to_uppercase table.name)))))

pub record StorageCredential : Type 0 where
  pub prefix : Text
  pub config : Dict Text

-- Of the type `M` of table metadata.
pub record LoadTableResult (M : Type 0) : Type 0 where
  pub metadata_location : Option Text
  pub metadata : M
  pub config : Dict Text
  pub storage_credentials : Option (List StorageCredential)

-- `extend`: the entries of the second map replace those of the first.
unfoldable pub extend : Dict Text → Dict Text → Dict Text
extend m [] = m
extend m ((k, v) ∷ entries) = Dict.insert (extend m entries) k v

unfoldable pub extend_all : Dict Text → List StorageCredential → Dict Text
unfolding extend
extend_all config [] = config
extend_all config (cred ∷ creds) = extend_all (extend config cred.config) creds

unfoldable pub merge_storage_credentials : Dict Text → Option (List StorageCredential) → Dict Text
unfolding extend_all
merge_storage_credentials config none = config
merge_storage_credentials config (some creds) = extend_all config creds

abbrev pub is_none : {A : Type 0} → Option A → Bool
is_none none = true
is_none (some a) = false

-- The properties of the file reader and writer.
unfoldable pub build_file_io : Option Text → Dict Text → Attempt (Dict Text)
build_file_io metadata_location props =
    if is_none metadata_location && is_none (Dict.get props (codes "warehouse"))
    then failed missing_location
    else done props

-- What is handed to the builder of a table.
pub record TableParts (M : Type 0) : Type 0 where
  pub identifier : TableIdent
  pub file_io : Dict Text
  pub metadata : M
  pub metadata_location : Option Text

-- `loaded_config`: the catalog's properties over the table's, and the credentials over both.
module _ {M : Type 0} where
  unfoldable pub loaded_config : Dict Text → LoadTableResult M → Dict Text
  unfolding merge_storage_credentials
  loaded_config props load =
      merge_storage_credentials (extend (extend [] load.config) props) load.storage_credentials

  unfoldable pub table_parts : TableIdent → Dict Text → LoadTableResult M → Attempt (TableParts M)
  unfolding loaded_config build_file_io
  table_parts ident props load =
      elim (build_file_io load.metadata_location (loaded_config props load)) [
        | failed e ↦ failed e
        | done file_io ↦ done (record {
          identifier = ident;
          file_io = file_io;
          metadata = load.metadata;
          metadata_location = load.metadata_location;
        })
      ]

-- What the code asks of the libraries: JSON, upper case and the builder of tables.
pub record Libraries (M T : Type 0) : Type 0 where
  pub to_uppercase : Text → Text
  pub parse_token : Text → Option Text
  pub parse_load_table : Text → Option (LoadTableResult M)
  pub build_table : TableParts M → Attempt T

module _ {S M T : Type 0} (http : HttpClient S) (libs : Libraries M T) where
  unfoldable pub parsed_table : TableIdent → Dict Text → Option (LoadTableResult M) → Attempt T
  unfolding table_parts
  parsed_table ident props none = failed bad_json
  parsed_table ident props (some load) = elim (table_parts ident props load) [
    | failed e ↦ failed e
    | done parts ↦ libs.build_table parts
  ]

  -- The reply to the request for a table.
  unfoldable pub replied_table : TableIdent → Dict Text → Reply → Attempt T
  unfolding parsed_table
  replied_table ident props reply =
      if reply.status == 200
      then parsed_table ident props (libs.parse_load_table reply.body)
      else failed (rejected reply.status reply.body)

  unfoldable pub load_table_vended : Dict Text → TableIdent → Call S T
  unfolding exchange_pat table_endpoint replied_table redact_secret
  load_table_vended props ident = do
    uri ← lift (required missing_uri (nonempty (Dict.get props (codes "uri"))))
    bearer ← exchange_pat http libs.parse_token props
    header ← lift (shown (redact_secret bearer))
    reply ← http.http_get (table_endpoint libs.to_uppercase uri ident props) bearer
    lift (replied_table ident props reply)
