-- ===== src/Helper/Backend/Parse/Tests.antt =====
-- Witnesses for the laws of `parse_inspect_output` (apps/runtime-helper/src/lib.rs).
use nopager.Prelude.{
  ◌≡◌, refl, arith, [], ◌∷◌, ◌++◌, Text, text, trim_start, trim_end, byte_len, ok, err,
}
use nopager.Helper.Config.{valid_container_id, valid_container_name}
use nopager.Helper.Backend.{invalid_inspect_output}
use nopager.Helper.Backend.Parse.{parse_inspect_output}
use nopager.Helper.Backend.Parse.Columns.{parse-empty_last_column}
use nopager.Helper.Backend.Parse.RoundTrip.{
  Columns, IsPrinted, inspect_line, state_of, parse_inspect_output-inspect_line,
}

abbrev columns : Columns
columns = record {
  id = text "aaaaaaaaaaaaaaaaaaaaaaaaaaaaaaaaaaaaaaaaaaaaaaaaaaaaaaaaaaaaaaaa";
  name = text "customer-app";
  status = text "running";
  project = text "customer";
  service = [];
  label = text "false";
}

columns-IsPrinted : IsPrinted columns
unfolding trim_start trim_end valid_container_id valid_container_name byte_len
columns-IsPrinted = record {
  id = record {
    no_tab = ground arith;
    no_newline = ground arith;
    trimmed_start = refl;
    trimmed_end = refl;
  };
  name = record {
    no_tab = ground arith;
    no_newline = ground arith;
    trimmed_start = refl;
    trimmed_end = refl;
  };
  status = record {
    no_tab = ground arith;
    no_newline = ground arith;
    trimmed_start = refl;
    trimmed_end = refl;
  };
  project = record {
    no_tab = ground arith;
    no_newline = ground arith;
    trimmed_start = refl;
    trimmed_end = refl;
  };
  service = record { no_tab = tt; no_newline = tt; trimmed_start = refl; trimmed_end = refl };
  label = record {
    no_tab = ground arith;
    no_newline = ground arith;
    trimmed_start = refl;
    trimmed_end = refl;
  };
  valid_id = refl;
  valid_name = refl;
  some_status = refl;
  some_label = refl;
}

parse_inspect_output-inspect_line_example :
    parse_inspect_output (inspect_line columns ++ 10 ∷ []) ≡ ok (state_of columns)
parse_inspect_output-inspect_line_example =
    parse_inspect_output-inspect_line columns columns-IsPrinted

abbrev line : Text
line = 97 ∷ 9 ∷ 98 ∷ 9 ∷ 99 ∷ 9 ∷ 100 ∷ 9 ∷ 101 ∷ []

parse-empty_last_column_example :
    parse_inspect_output (line ++ 9 ∷ 10 ∷ []) ≡ err invalid_inspect_output
parse-empty_last_column_example = parse-empty_last_column line (ground arith) (omega arith)
