-- ===== src/Helper/Backend/Parse.antt =====
-- apps/runtime-helper/src/lib.rs: `parse_inspect_output` and what it uses.
pub mod Columns
pub mod RoundTrip
mod Tests
use nopager.Prelude.{
  ℕ, Bool, not, ◌&&◌, ◌||◌, Option, none, some, List, [], ◌∷◌, map, Text, text, text_eq, trim,
  is_empty, eq_ignore_ascii_case, ◌==◌, if◌then◌else◌, Result, ok, err,
}
use nopager.Protocol.{ContainerState}
use nopager.Helper.Config.{valid_container_id, valid_container_name}
use nopager.Helper.Backend.{BackendError, invalid_inspect_output}

-- `value.lines().next().unwrap_or_default()`: up to the first line feed; a carriage return before
-- it goes too, which the `trim` that follows would take.
unfoldable pub first_line : Text → Text
first_line [] = []
first_line (c ∷ s) = if c == 10 then [] else c ∷ first_line s

abbrev add_to_first : ℕ → List Text → List Text
add_to_first c [] = (c ∷ []) ∷ []
add_to_first c (p ∷ ps) = (c ∷ p) ∷ ps

-- `line.split('\t')`
unfoldable pub split_tab : Text → List Text
split_tab [] = [] ∷ []
split_tab (c ∷ s) = if c == 9 then [] ∷ split_tab s else add_to_first c (split_tab s)

-- `trim_start_matches('/')`
unfoldable pub trim_slashes : Text → Text
trim_slashes [] = []
trim_slashes (c ∷ s) = if c == b'/' then trim_slashes s else c ∷ s

unfoldable pub optional_template_value : Text → Option Text
optional_template_value value =
    let v = trim value in
    if not (is_empty v) && not (text_eq v (text "<no value>")) then some v else none

-- The body after `parts.len() != 6`, at the six parts.
parse_parts : Text → Text → Text → Text → Text → Text → Result BackendError ContainerState
unfolding trim_slashes optional_template_value
parse_parts p0 p1 p2 p3 p4 p5 =
    let id = trim p0 in
    let name = trim_slashes (trim p1) in
    let status = trim p2 in
    if not (valid_container_id id) || not (valid_container_name name) || is_empty status
    then err invalid_inspect_output
    else ok (record {
      id = id;
      name = name;
      status = status;
      compose_project = optional_template_value p3;
      compose_service = optional_template_value p4;
      nopager_control_plane = eq_ignore_ascii_case (trim p5) (text "true");
    })

parse_fields : List Text → Result BackendError ContainerState
unfolding parse_parts
parse_fields (p0 ∷ p1 ∷ p2 ∷ p3 ∷ p4 ∷ p5 ∷ []) = parse_parts p0 p1 p2 p3 p4 p5
parse_fields _ = err invalid_inspect_output

unfoldable pub parse_inspect_output : Text → Result BackendError ContainerState
unfolding first_line split_tab parse_fields
parse_inspect_output value = parse_fields (split_tab (trim (first_line value)))
