-- ===== src/Tests/Catalogs.antt =====
-- Runs of the configuration: placeholders, and the snowflake-horizon profile.
use iceberg_db_rs.Base.{◌≡◌, refl, Option, none, some, [], ◌++◌, ◌∷◌, true, if◌then◌else◌}
use iceberg_db_rs.Base.Text.{Text, codes, text_eq}
use iceberg_db_rs.Base.Text.Chars.{lower_char, is_whitespace}
use iceberg_db_rs.Base.Text.Cut.{
  strip_prefix, trim, trim_end_matches, trim_start_matches, split_once, contains, starts_with,
  has_char, byte_length,
}
use iceberg_db_rs.Base.Dict
use iceberg_db_rs.Base.Dict.{Dict}
use iceberg_db_rs.Config.Resolve.{
  Env, literal, placeholder, resolve_value, render, meaning, render_open, meaning_open,
  resolve_value-render, outside, inside,
}
use iceberg_db_rs.Config.Profile.{
  valid, names_horizon, validate_rest_props, apply_profile, snowflake_pat_secret,
}
use iceberg_db_rs.Config.Profile.Horizon.{
  IsShorthand, horizon_verdict, validate_rest_props-apply_profile,
}

-- What the runs unfold.
program : Unit {0}
unfolding resolve_value outside inside validate_rest_props apply_profile Dict.get Dict.insert
    Dict.remove Dict.or_insert trim contains starts_with has_char byte_length snowflake_pat_secret
    strip_prefix trim_end_matches trim_start_matches is_whitespace split_once lower_char
program = tt

abbrev env : Env
env name = if text_eq name (codes "HOME") then some (codes "/h") else none

open_placeholder : resolve_value env (codes "a${HOME}b$c${X") ≡ codes "a/hb$c"
unfolding program
open_placeholder = refl

resolve_value-render_example :
    resolve_value env (
      render (literal (codes "a") ∷ placeholder (codes "HOME") ∷ [])
      ++ render_open (some (codes "X")))
    ≡ meaning env (literal (codes "a") ∷ placeholder (codes "HOME") ∷ [])
      ++ meaning_open env (some (codes "X"))
resolve_value-render_example =
    resolve_value-render env (literal (codes "a") ∷ placeholder (codes "HOME") ∷ [])
      (some (codes "X")) ((refl, tt), ((refl, (refl, (refl, (refl, tt)))), tt)) (refl, tt)

abbrev token : Text
token = codes " eyJ0eXAiOiJKV1QiLCJhbGciOiJIUzI1NiJ9.x"

abbrev props : Dict Text
props =
    (codes "uri", codes "xy12345")
    ∷ (codes "token", token)
    ∷ (codes "scope", codes "session:role:ADMIN")
    ∷ []

abbrev horizon : Option Text
horizon = some (codes "Snowflake-Horizon")

expanded_uri :
    Dict.get (apply_profile horizon props) (codes "uri")
    ≡ some (codes "https://xy12345.snowflakecomputing.com/polaris/api/catalog")
unfolding program
expanded_uri = refl

shorthand : IsShorthand (codes "xy12345")
unfolding program
shorthand = record { no_open = refl; no_close = refl; no_host = refl; no_scheme = refl }

verdict : horizon_verdict (trim token) (trim (codes "session:role:ADMIN")) ≡ valid
unfolding program
verdict = refl

uri_given : Dict.get props (codes "uri") ≡ some (codes "xy12345")
unfolding program
uri_given = refl

token_given : Dict.get props (codes "token") ≡ some token
unfolding program
token_given = refl

scope_given : Dict.get props (codes "scope") ≡ some (codes "session:role:ADMIN")
unfolding program
scope_given = refl

horizon_named : names_horizon horizon ≡ true
unfolding program
horizon_named = refl

validate_rest_props-apply_profile_example :
    validate_rest_props (apply_profile horizon props) horizon
    ≡ horizon_verdict (trim token) (trim (codes "session:role:ADMIN"))
validate_rest_props-apply_profile_example =
    validate_rest_props-apply_profile (codes "xy12345") shorthand props horizon token
      (codes "session:role:ADMIN") horizon_named uri_given token_given scope_given
