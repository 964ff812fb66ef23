-- ===== src/Tests/Paths.antt =====
-- Runs of the resolution of data-file paths.
use iceberg_db_rs.Base.{true, ◌≡◌, refl, none}
use iceberg_db_rs.Base.Text.{Text, codes}
use iceberg_db_rs.Base.Text.Chars.{is_whitespace}
use iceberg_db_rs.Base.Text.Cut.{strip_prefix, trim, trim_end_matches, trim_start_matches, contains}
use iceberg_db_rs.ResolvedPaths.{resolve_path, file_uri_to_local_path, is_absolute_path, forward}
use iceberg_db_rs.Base.Text.Trimmed.{IsTrimmed}
use iceberg_db_rs.ResolvedPaths.FileUri.{resolve_path-file_uri}
use iceberg_db_rs.ResolvedPaths.Idempotent.{resolve_path_idem}

-- What the runs unfold.
program : Unit {0}
unfolding resolve_path file_uri_to_local_path is_absolute_path is_whitespace strip_prefix trim
    trim_end_matches trim_start_matches contains
program = tt

abbrev location : Text
location = codes "C:\\wh\\ns\\orders"

relative_joins :
    resolve_path location (codes " data/a.parquet ") ≡ codes "C:/wh/ns/orders/data/a.parquet"
unfolding program
relative_joins = refl

absolute_stays : resolve_path location (codes "s3://b/k") ≡ codes "s3://b/k"
unfolding program
absolute_stays = refl

resolve_path-file_uri_example :
    resolve_path location (codes "file:///wh/a.parquet") ≡ forward (codes "wh/a.parquet")
unfolding program
resolve_path-file_uri_example =
    resolve_path-file_uri (codes "///") b'w' (codes "h/a.parquet") location
      (refl, (refl, (refl, tt))) refl refl

trimmed : IsTrimmed (codes "data/a.parquet")
unfolding program
trimmed = record { starts = refl; ends = refl }

location_absolute : is_absolute_path location ≡ true
unfolding program
location_absolute = refl

no_uri : file_uri_to_local_path (codes "data/a.parquet") ≡ none
unfolding program
no_uri = refl

resolve_path_idem_example :
    resolve_path location (resolve_path location (codes "data/a.parquet"))
    ≡ resolve_path location (codes "data/a.parquet")
unfolding program
resolve_path_idem_example =
    resolve_path_idem location b'd' (codes "ata/a.parquet") trimmed location_absolute refl no_uri
