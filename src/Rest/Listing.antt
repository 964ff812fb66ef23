-- ===== src/Rest/Listing.antt =====
-- The browser's listings of crates/idb-catalog/src/rest_vended.rs: the one namespace of a catalog,
-- and its tables, page by page.
pub mod Pages
use iceberg_db_rs.Base.{
  ℕ, zero, suc, Bool, Option, none, some, List, [], ◌∷◌, ◌++◌, ◌==◌, if◌then◌else◌,
}
use iceberg_db_rs.Base.Text.{Text, codes}
use iceberg_db_rs.Base.Dict
use iceberg_db_rs.Base.Dict.{Dict}
use iceberg_db_rs.Config.Profile.{nonempty, or_option, or_text}
use iceberg_db_rs.Rest.Http.{
  missing_uri, namespace_missing, bad_json, rejected, Attempt, done, failed, Call, ◌>>=◌, lift,
  required, Reply, HttpClient,
}
use iceberg_db_rs.Rest.Auth.{exchange_pat}
use iceberg_db_rs.Rest.Vended.{TableIdent, tables_list_endpoint}

pub record ListTablesResponse : Type 0 where
  pub identifiers : List TableIdent
  pub next_page_token : Option Text

-- Namespaces by their one level, at the root; none below another.
unfoldable pub list_namespaces_wasm : Dict Text → Option Text → List Text
list_namespaces_wasm props (some parent) = []
list_namespaces_wasm props none =
    or_text
      (nonempty
        (or_option (Dict.get props (codes "default-schema")) (Dict.get props (codes "schema"))))
      (codes "public")
    ∷ []

abbrev pub page_url : Text → Option Text → Text
page_url url none = url
page_url url (some token) = url ++ (codes "?pageToken=" ++ token)

module _ {S : Type 0} (http : HttpClient S) (parse_page : Text → Option ListTablesResponse) where
  unfoldable pub page_of : Reply → Attempt ListTablesResponse
  page_of reply =
      if reply.status == 404
      then failed namespace_missing
      else if reply.status == 200
      then required bad_json (parse_page reply.body)
      else failed (rejected reply.status reply.body)

  -- The loop, on fuel: `none` means that the fuel ran out.
  unfoldable pub list_loop :
      ℕ → Text → Text → Option Text → List TableIdent → Call S (Option (List TableIdent))
  unfolding page_of
  list_loop zero url bearer token identifiers = lift (done none)
  list_loop (suc fuel) url bearer token identifiers = do
    reply ← http.http_get (page_url url token) bearer
    page ← lift (page_of reply)
    let found = identifiers ++ page.identifiers
    elim (nonempty page.next_page_token) [
      | none ↦ lift (done (some found))
      | some next ↦ list_loop fuel url bearer (some next) found
    ]

  module _ (to_uppercase : Text → Text) (parse_token : Text → Option Text) where
    unfoldable pub list_tables_wasm : ℕ → Dict Text → Text → Call S (Option (List TableIdent))
    unfolding list_loop exchange_pat tables_list_endpoint
    list_tables_wasm fuel props namespace = do
      uri ← lift (required missing_uri (nonempty (Dict.get props (codes "uri"))))
      bearer ← exchange_pat http parse_token props
      list_loop fuel (tables_list_endpoint to_uppercase uri namespace props) bearer none []
