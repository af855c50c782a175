-- ===== src/Helper/Config.antt =====
-- apps/runtime-helper/src/lib.rs: `HelperConfig`, `EnrolledTarget` and their validation.
use nopager.Prelude.{
  ℕ, Bool, false, not, ◌&&◌, ◌||◌, Option, none, some, List, [], ◌∷◌, Text, text_eq, byte_len, trim,
  is_empty, is_ascii_hexdigit, is_ascii_alphanumeric, all, any, ltb, leb, ◌==◌, Result, ◌>>◌,
  refuse_if,
}
use nopager.Protocol.{protocol_version}

pub data ConfigError : Type 0 where
  protocol_version_error control_plane_project_error target_id_error target_name_error
        target_project_error denied_container_id enrolled_target_denied :
      ConfigError

pub record EnrolledTarget : Type 0 where
  pub id : Text
  pub name : Text
  pub compose_project : Option Text

pub record HelperConfig : Type 0 where
  pub protocol_version : ℕ  -- u16
  pub allowed_peer_uid : ℕ  -- u32
  pub control_plane_compose_project : Text
  pub enrolled_target : EnrolledTarget
  pub denied_container_ids : List Text

-- A hexadecimal digit is one byte, so `bytes()` and `chars()` agree on the second test.
unfoldable pub valid_container_id : Text → Bool
valid_container_id value = byte_len value == 64 && all is_ascii_hexdigit value

abbrev is_name_char : ℕ → Bool
is_name_char c = is_ascii_alphanumeric c || c == b'_' || c == b'-' || c == b'.'

abbrev first_is_alphanumeric : Text → Bool
first_is_alphanumeric [] = false
first_is_alphanumeric (c ∷ _) = is_ascii_alphanumeric c

unfoldable pub valid_container_name : Text → Bool
valid_container_name value =
    not (is_empty value)
    && leb (byte_len value) 128
    && first_is_alphanumeric value
    && all is_name_char value

-- `project.is_empty() || project.len() > 128 || project.contains(['\n', '\r', '\t'])`
abbrev bad_project : Option Text → Bool
bad_project none = false
bad_project (some p) =
    is_empty p || ltb 128 (byte_len p) || any (λ c. c == 10 || c == 13 || c == 9) p

unfoldable pub validate_target : EnrolledTarget → Result ConfigError (Unit {0})
validate_target t = do
  refuse_if (not (valid_container_id t.id)) target_id_error
  refuse_if (not (valid_container_name t.name)) target_name_error
  refuse_if (bad_project t.compose_project) target_project_error

unfoldable pub validate : HelperConfig → Result ConfigError (Unit {0})
unfolding validate_target
validate c = do
  refuse_if (not (c.protocol_version == protocol_version)) protocol_version_error
  refuse_if
      (is_empty (trim c.control_plane_compose_project)
        || ltb 128 (byte_len c.control_plane_compose_project))
      control_plane_project_error
  validate_target c.enrolled_target
  refuse_if (any (λ value. not (valid_container_id value)) c.denied_container_ids)
      denied_container_id
  refuse_if (any (λ value. text_eq value c.enrolled_target.id) c.denied_container_ids)
      enrolled_target_denied
