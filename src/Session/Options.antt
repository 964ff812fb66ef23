-- ===== src/Session/Options.antt =====
-- crates/idb-sql/src/session_options.rs, with `wasm_session_config` and the configuration that
-- `open_iceberg_catalog` builds in lib.rs.
use iceberg_db_rs.Base.{ℕ, Bool, true, false, Option, none, some}
use iceberg_db_rs.Base.Text.{Text}

pub record SessionOptions : Type 0 where
  pub target_partitions : Option ℕ
  pub repartition_file_scans : Option Bool
  pub enable_join_dynamic_filter_pushdown : Option Bool
  pub repartition_joins : Option Bool

abbrev pub default_options : SessionOptions
default_options = record {
  target_partitions = none;
  repartition_file_scans = none;
  enable_join_dynamic_filter_pushdown = none;
  repartition_joins = none;
}

unfoldable pub with_target_partitions : SessionOptions → ℕ → SessionOptions
with_target_partitions options n = record options { target_partitions = some n }

-- The settings of DataFusion's `SessionConfig` that the code sets.
pub record SessionConfig : Type 0 where
  pub information_schema : Bool
  pub create_default_catalog_and_schema : Bool
  pub catalog : Text
  pub schema : Text
  pub partitions : ℕ
  pub file_scans : Bool
  pub dynamic_filter_pushdown : Bool
  pub joins : Bool

abbrev pub set_or {ℓ} : {A : Type ℓ} → Option A → A → A
set_or none old = old
set_or (some new) old = new

unfoldable pub apply_to_config : SessionConfig → SessionOptions → SessionConfig
apply_to_config config options = record config {
  partitions = set_or options.target_partitions config.partitions;
  file_scans = set_or options.repartition_file_scans config.file_scans;
  dynamic_filter_pushdown =
      set_or options.enable_join_dynamic_filter_pushdown config.dynamic_filter_pushdown;
  joins = set_or options.repartition_joins config.joins;
}

-- `with_information_schema(true)` and the two settings after it.
abbrev pub for_catalog : SessionConfig → Text → Text → SessionConfig
for_catalog new catalog schema = record new {
  information_schema = true;
  create_default_catalog_and_schema = false;
  catalog = catalog;
  schema = schema;
}

-- `new` is `SessionConfig::new()`.
unfoldable pub wasm_session_config : SessionConfig → Text → Text → SessionConfig
wasm_session_config new catalog schema = record (for_catalog new catalog schema) { partitions = 1 }

unfoldable pub iceberg_session_config : SessionConfig → Text → Text → SessionOptions → SessionConfig
unfolding apply_to_config
iceberg_session_config new catalog schema options =
    apply_to_config (for_catalog new catalog schema) options
