-- ===== src/Tests/Opening.antt =====
-- Runs of the opening of catalogs.
use iceberg_db_rs.Base.{
  ℕ, ◌+◌, ◌≡◌, refl, true, false, Option, none, some, [], ◌∷◌, if◌then◌else◌, ok, for_each,
}
use iceberg_db_rs.Base.Text.{Text, codes, text_eq}
use iceberg_db_rs.Base.Text.Chars.{is_whitespace, lower_char}
use iceberg_db_rs.Base.Text.Cut.{
  trim, trim_start_matches, trim_end_matches, starts_with, contains, has_char, byte_length,
  split_once, strip_prefix, ends_with_char,
}
use iceberg_db_rs.Base.Dict
use iceberg_db_rs.Base.Dict.{Dict}
use iceberg_db_rs.ByteCache.Settings.{
  Global, OpenCache, disk_cache, open_byte_cache, install_global_byte_cache,
}
use iceberg_db_rs.QueryIo.{native}
use iceberg_db_rs.Config.Resolve.{Env, resolve_value, outside, inside}
use iceberg_db_rs.Config.Profile.{
  validate_rest_props, apply_profile, snowflake_pat_secret, is_snowflake_horizon_uri, is_empty,
}
use iceberg_db_rs.Rest.Http.{Attempt, done, failed, HttpClient}
use iceberg_db_rs.Rest.Auth.{exchange_pat, pat_from_props, oauth_form, oauth_scope}
use iceberg_db_rs.Rest.Open.{CatalogSpec, Opening, open_rest}
use iceberg_db_rs.Rest.Open.Bearer.{HasBearer, open_rest-exchange_pat}
use iceberg_db_rs.Registry.{
  AppConfig, CatalogRegistry, file_warehouse, rest, Warehouses, from_config,
  from_file_warehouse_with_schema,
}
use iceberg_db_rs.Registry.Warehouse.{one_warehouse, from_file_warehouse-from_config}
use iceberg_db_rs.Registry.Complete.{IsComplete, from_config-IsComplete}

-- What the runs unfold.
program : Unit {0}
unfolding oauth_form open_rest from_config validate_rest_props apply_profile resolve_value
    exchange_pat snowflake_pat_secret Dict.get Dict.insert Dict.remove Dict.or_insert trim contains
    starts_with has_char byte_length strip_prefix trim_end_matches trim_start_matches is_whitespace
    split_once lower_char is_snowflake_horizon_uri ends_with_char pat_from_props oauth_scope
    for_each outside inside install_global_byte_cache open_byte_cache
program = tt

abbrev env : Env
env name =
    if text_eq name (codes "PAT") then some (codes "0123456789abcdef0123456789abcdef") else none

abbrev horizon : CatalogSpec
horizon = record {
  catalog_type = codes "rest";
  properties =
      (codes "profile", codes "snowflake-horizon")
      ∷ (codes "scope", codes "session:role:R")
      ∷ (codes "token", codes "${PAT}")
      ∷ (codes "uri", codes "xy")
      ∷ [];
}

-- The network is the number of requests.
abbrev server : HttpClient ℕ
server = record {
  post_form = λ url form n. (done (record { status = 200; body = codes "T" }), n + 1);
  http_get = λ url bearer n. (done (record { status = 200; body = [] }), n + 1);
}

abbrev parse_token : Text → Option Text
parse_token body = some body

abbrev opening : Opening ℕ
opening = record {
  valid_name = λ t. true;
  valid_value = λ t. true;
  temp_dir = codes "/tmp";
  finish = λ texts. 7;
  load_inner = λ props n. (done tt, n + 1);
}

abbrev start : Global OpenCache × ℕ
start = (record { global_cache = none; global_fingerprint = 0 }, 0)

abbrev ended : Global OpenCache × ℕ
ended = (
  record {
    global_cache = some (disk_cache (codes "/tmp/iceberg-db-byte-cache"));
    global_fingerprint = 7;
  },
  2,
)

abbrev props_of : Attempt (Dict Text) × (Global OpenCache × ℕ) → Dict Text
props_of (failed e, s) = []
props_of (done props, s) = props

horizon_props : Dict Text
unfolding program
horizon_props = props_of (open_rest opening server parse_token native env horizon start)

horizon_opened :
    open_rest opening server parse_token native env horizon start ≡ (done horizon_props, ended)
unfolding program horizon_props
horizon_opened = refl

open_rest-exchange_pat_example :
    (bearer : Text) × (HasBearer bearer horizon_props
      × (is_empty bearer ≡ false
          → (n : ℕ) → exchange_pat server parse_token horizon_props n ≡ (done bearer, n)))
unfolding program
open_rest-exchange_pat_example =
    open_rest-exchange_pat opening server parse_token native env horizon horizon_props start ended
      refl horizon_opened

bearer_kept : Dict.get horizon_props (codes "token") ≡ some (codes "T")
unfolding program horizon_props
bearer_kept = refl

-- A catalog of files and one of REST, over the same state.
abbrev local : CatalogSpec
local = record {
  catalog_type = codes "Hadoop";
  properties = (codes "schema", codes " db ") ∷ (codes "warehouse", codes "/wh") ∷ [];
}

abbrev State : Type 0
State = Global OpenCache × ℕ

abbrev warehouses : Warehouses State
warehouses = record {
  is_absolute = starts_with (codes "/");
  files = record {
    read_dir = λ dir. ok [];
    read_to_string = λ path. ok [];
    is_dir = λ path. false;
    is_file = λ path. false;
  };
  load_memory = λ name props s. (done tt, s);
  catalog = record {
    namespace_exists = λ n s. (ok true, s);
    create_namespace = λ n l s. (ok tt, s);
    table_exists = λ n t s. (ok true, s);
    register_table = λ n t l s. (ok tt, s);
  };
}

abbrev config : AppConfig
config = record {
  default_catalog = some (codes "local");
  catalogs = (codes "horizon", horizon) ∷ (codes "local", local) ∷ [];
}

abbrev registry : CatalogRegistry
registry = record {
  default_name = codes "local";
  default_schema = codes "db";
  catalogs =
      (codes "local", file_warehouse (codes "/wh")) ∷ (codes "horizon", rest horizon_props) ∷ [];
}

registry_opened :
    from_config warehouses native env (open_rest opening server parse_token native env) config start
    ≡ (done registry, ended)
unfolding program horizon_props
registry_opened = refl

from_config-IsComplete_example : IsComplete config registry
from_config-IsComplete_example =
    from_config-IsComplete warehouses native env (open_rest opening server parse_token native env)
      config registry start ended registry_opened

from_file_warehouse-from_config_example :
    from_file_warehouse_with_schema warehouses
      (λ p. none)
      (codes "local")
      (codes "/wh")
      (codes "db")
      start
    ≡ from_config warehouses native env
        (open_rest opening server parse_token native env)
        (one_warehouse (codes "local") (codes "/wh") (codes "db"))
        start
unfolding program
from_file_warehouse-from_config_example =
    from_file_warehouse-from_config warehouses env (open_rest opening server parse_token native env)
      (λ p. none) (codes "local") (codes "/wh") (codes "db") refl refl refl
      (record { schema_trimmed = refl; schema_filled = refl }) start
