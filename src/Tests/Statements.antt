-- ===== src/Tests/Statements.antt =====
-- Runs of the statements that the program takes as its own.
use iceberg_db_rs.Base.{◌≡◌, refl, none, some, []}
use iceberg_db_rs.Base.Text.{codes}
use iceberg_db_rs.Base.Text.Chars.{lower_char, is_whitespace}
use iceberg_db_rs.Base.Text.Cut.{trim, trim_start_matches, trim_end_matches}
use iceberg_db_rs.ShowTables.{parse_show_tables, strip_ascii_prefix_ci}
use iceberg_db_rs.ShowTables.Schema.{Parts, IsStatement}

-- What the runs unfold.
program : Unit {0}
unfolding parse_show_tables lower_char is_whitespace trim trim_start_matches trim_end_matches
    strip_ascii_prefix_ci
program = tt

no_schema : parse_show_tables (codes "Show TaBLes ;") ≡ some none
unfolding program
no_schema = refl

run_together : parse_show_tables (codes "SHOW TABLES INFOO") ≡ none
unfolding program
run_together = refl

quoted : parse_show_tables (codes "SHOW TABLES IN \"ns\"") ≡ some (some (codes "ns"))
unfolding program
quoted = refl

-- " Show TABLES  in cat.ns; "
abbrev pub parts : Parts
parts = record {
  lead = codes " ";
  show_tables = codes "Show TABLES";
  gap = b' ';
  gaps = codes " ";
  in_word = codes "in";
  space = b' ';
  spaces = [];
  catalog = some (codes "cat");
  first = b'n';
  rest = codes "s";
  semicolons = codes ";";
  trail = codes " ";
}

pub parts-IsStatement : IsStatement parts
unfolding program
parts-IsStatement = record {
  lead_spaces = (refl, tt);
  keyword =
      (refl, (refl, (refl, (refl, (refl, (refl, (refl, (refl, (refl, (refl, (refl, tt)))))))))));
  gap_spaces = (refl, (refl, tt));
  in_keyword = (refl, (refl, tt));
  more_spaces = (refl, tt);
  name_trimmed = record { starts = refl; ends = refl };
  name_end = refl;
  bare = record {
    no_dot = (refl, (refl, tt));
    quote_first = refl;
    quote_last = refl;
    backquote_first = refl;
    backquote_last = refl;
  };
  ends = (refl, tt);
  trail_spaces = (refl, tt);
}
