-- ===== src/Tests/Rest.antt =====
-- Runs of the REST catalog, against a server whose state is the number of its requests.
use iceberg_db_rs.Base.{ℕ, ◌+◌, ◌≡◌, refl, Option, none, some, [], ◌∷◌, if◌then◌else◌, arith}
use iceberg_db_rs.Base.Text.{Text, codes, text_eq}
use iceberg_db_rs.Base.Text.Chars.{is_whitespace, lower_char}
use iceberg_db_rs.Base.Text.Cut.{
  trim, trim_start_matches, trim_end_matches, starts_with, contains, has_char, byte_length,
  split_once, strip_prefix, ends_with_char,
}
use iceberg_db_rs.Base.Dict
use iceberg_db_rs.Base.Dict.{Dict}
use iceberg_db_rs.Config.Profile.{
  valid, validate_rest_props, apply_profile, snowflake_pat_secret, is_snowflake_horizon_uri,
}
use iceberg_db_rs.Config.Profile.Horizon.{IsShorthand}
use iceberg_db_rs.HttpLog.{redact_secret, form_body, byte_prefix, byte_suffix}
use iceberg_db_rs.Rest.Http.{shown, RestError, done, failed, ◌>>=◌, lift, HttpClient}
use iceberg_db_rs.Rest.Auth.{oauth_form, exchange_pat, pat_from_props, oauth_scope}
use iceberg_db_rs.Rest.Auth.Ready.{sending, exchange_pat-apply_profile}
use iceberg_db_rs.Rest.Vended.{
  TableIdent, LoadTableResult, TableParts, Libraries, load_table_vended,
}
use iceberg_db_rs.Rest.Vended.Credentials.{
  setting, load_table_vended-setting, load_table_vended_no_role,
}
use iceberg_db_rs.Rest.Listing.{ListTablesResponse, list_tables_wasm, page_of}
use iceberg_db_rs.Rest.Listing.Pages.{Pages, last, more, list_tables_wasm-Pages}

-- What the runs unfold.
program : Unit {0}
unfolding oauth_form redact_secret form_body byte_prefix byte_suffix load_table_vended
    list_tables_wasm validate_rest_props apply_profile exchange_pat snowflake_pat_secret Dict.get
    Dict.insert Dict.remove Dict.or_insert trim contains starts_with has_char byte_length
    strip_prefix trim_end_matches trim_start_matches is_whitespace split_once lower_char
    is_snowflake_horizon_uri ends_with_char pat_from_props oauth_scope
program = tt

abbrev secret : Text
secret = codes "0123456789abcdef0123456789abcdef"

abbrev horizon_props : Dict Text
horizon_props =
    (codes "uri", codes "xy")
    ∷ (codes "token", codes "me:0123456789abcdef0123456789abcdef ")
    ∷ (codes "scope", codes "session:role:R")
    ∷ []

abbrev profile : Option Text
profile = some (codes "snowflake-horizon")

-- A token for every form, a page for every list URL, a table for every table URL.
abbrev server : HttpClient ℕ
server = record {
  post_form = λ url form n. (done (record { status = 200; body = codes "T" }), n + 1);
  http_get = λ url bearer n. (
    done (record {
      status = 200;
      body = if contains (codes "pageToken=2") url then codes "second" else codes "first";
    }),
    n + 1,
  );
}

abbrev parse_token : Text → Option Text
parse_token body = some body

short : IsShorthand (codes "xy")
unfolding program
short = record { no_open = refl; no_close = refl; no_host = refl; no_scheme = refl }

exchange_pat-apply_profile_example :
    (url : Text) × ((Dict.get (apply_profile profile horizon_props) (codes "oauth2-server-uri")
        ≡ some url)
      × (exchange_pat server parse_token (apply_profile profile horizon_props) 0
          ≡ (lift (
                  shown (
                    redact_secret
                      (snowflake_pat_secret (trim (codes "me:0123456789abcdef0123456789abcdef ")))))
                >>= λ log.
                    sending server parse_token
                      (apply_profile profile horizon_props)
                      url
                      (trim (codes "session:role:R"))
                      (snowflake_pat_secret (trim (codes "me:0123456789abcdef0123456789abcdef "))))
              0))
unfolding program
exchange_pat-apply_profile_example =
    exchange_pat-apply_profile server parse_token (codes "xy") short horizon_props profile
      (codes "me:0123456789abcdef0123456789abcdef ") (codes "session:role:R") 0 refl refl refl refl
      refl

exchange_run :
    exchange_pat server parse_token (apply_profile profile horizon_props) 0 ≡ (done (codes "T"), 1)
unfolding program
exchange_run = refl

abbrev plain_props : Dict Text
plain_props =
    (codes "uri", codes "https://c/")
    ∷ (codes "token", codes "B")
    ∷ (codes "s3.endpoint", codes "mine")
    ∷ []

abbrev orders : TableIdent
orders = record { namespace = codes "DB"; name = codes "ORDERS" }

abbrev loaded : LoadTableResult Text
loaded = record {
  metadata_location = some (codes "s3://b/m");
  metadata = codes "M";
  config = (codes "s3.endpoint", codes "theirs") ∷ (codes "s3.region", codes "r") ∷ [];
  storage_credentials = some (
      record { prefix = codes "s3"; config = (codes "k", codes "1") ∷ [] }
      ∷ record { prefix = codes "s3"; config = (codes "k", codes "2") ∷ [] }
      ∷ []);
}

abbrev libs : Libraries Text (TableParts Text)
libs = record {
  to_uppercase = λ t. t;
  parse_token = parse_token;
  parse_load_table = λ body. some loaded;
  build_table = done;
}

load_table_vended-setting_example :
    (file_io : Dict Text) × ((load_table_vended server libs plain_props orders 0 ≡ (
      libs.build_table (record {
        identifier = orders;
        file_io = file_io;
        metadata = loaded.metadata;
        metadata_location = loaded.metadata_location;
      }),
      1,
    ))
      × ((k : Text) → Dict.get file_io k ≡ setting plain_props loaded k))
unfolding program
load_table_vended-setting_example =
    load_table_vended-setting server libs plain_props orders loaded (codes "https://c/") (codes "B")
      (codes "***") (codes "s3://b/m") (record { status = 200; body = codes "first" }) 0 0 1 refl
      refl refl refl refl refl refl

-- A catalog that passes the validation with a credential, and no table of it can be loaded.
abbrev credential_props : Dict Text
credential_props = (codes "uri", codes "https://c/") ∷ (codes "credential", codes "id:secret") ∷ []

credential_valid : validate_rest_props credential_props none ≡ valid
unfolding program
credential_valid = refl

load_table_vended_no_role_example :
    (e : RestError) × (load_table_vended server libs credential_props orders 0 ≡ (failed e, 0))
unfolding program
load_table_vended_no_role_example =
    load_table_vended_no_role server libs credential_props orders 0 refl refl

abbrev item : TableIdent
item = record { namespace = codes "DB"; name = codes "ITEM" }

abbrev first_page : ListTablesResponse
first_page = record { identifiers = orders ∷ []; next_page_token = some (codes "2") }

abbrev second_page : ListTablesResponse
second_page = record { identifiers = item ∷ []; next_page_token = some [] }

abbrev parse_page : Text → Option ListTablesResponse
parse_page body = if text_eq body (codes "first") then some first_page else some second_page

two_pages :
    Pages server parse_page
      (codes "https://c/v1/namespaces/DB/tables")
      (codes "B")
      2
      none
      (orders ∷ item ∷ [])
      0
      2
unfolding program page_of
two_pages =
    more 1 none first_page (record { status = 200; body = codes "first" }) (codes "2") (item ∷ []) 0
      1 2 refl refl refl
      (last (some (codes "2")) second_page (record { status = 200; body = codes "second" }) 1 2 refl
        refl refl)

list_tables_wasm-Pages_example :
    list_tables_wasm server parse_page (λ t. t) parse_token 5 plain_props (codes "DB") 0
    ≡ (done (some (orders ∷ item ∷ [])), 2)
unfolding program
list_tables_wasm-Pages_example =
    list_tables_wasm-Pages server parse_page (λ t. t) parse_token 5 2 plain_props (codes "DB")
      (codes "https://c/") (codes "B") (orders ∷ item ∷ []) 0 0 2 refl refl two_pages (omega arith)
