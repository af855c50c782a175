-- ===== src/Monitor/Signal.antt =====
-- crates/nopager-monitor/src/signal.rs: operational signals and the keys that deduplicate them.
pub mod Keys
use nopager.Prelude.{
  ℕ, Bool, true, false, ◌||◌, List, [], ◌∷◌, ◌++◌, map, Text, text, trim, is_ascii_alphanumeric,
  to_ascii_lowercase, ◌==◌, if◌then◌else◌,
}

pub data OperationalSignalKind : Type 0 where
  http_health tcp_health instance_health cpu_pressure memory_pressure disk_pressure traffic_anomaly
        edge_security dependency_health database_health deployment :
      OperationalSignalKind

unfoldable pub as_str : OperationalSignalKind → Text
as_str http_health = text "http_health"
as_str tcp_health = text "tcp_health"
as_str instance_health = text "instance_health"
as_str cpu_pressure = text "cpu_pressure"
as_str memory_pressure = text "memory_pressure"
as_str disk_pressure = text "disk_pressure"
as_str traffic_anomaly = text "traffic_anomaly"
as_str edge_security = text "edge_security"
as_str dependency_health = text "dependency_health"
as_str database_health = text "database_health"
as_str deployment = text "deployment"

pub record ProtectedResourceIdentity : Type 0 where
  pub provider : Text
  pub resource_type : Text
  pub resource_id : Text

pub record OperationalSignal : Type 0 where
  pub resource : ProtectedResourceIdentity
  pub kind : OperationalSignalKind
  pub source_id : Text
  pub observed_at_unix_ms : ℕ  -- u64
  pub failing : Bool

abbrev is_key_char : ℕ → Bool
is_key_char c = is_ascii_alphanumeric c || c == b'-' || c == b'_' || c == b'.' || c == b':'

abbrev pub normalize_char : ℕ → ℕ
normalize_char c = if is_key_char c then to_ascii_lowercase c else b'_'

unfoldable pub normalize_key_part : Text → Text
normalize_key_part value = map normalize_char (trim value)

unfoldable pub incident_prefix : ProtectedResourceIdentity → Text
incident_prefix r =
    text "ops:"
    ++ (normalize_key_part r.provider
        ++ (b':'
            ∷ (normalize_key_part r.resource_type ++ (b':' ∷ normalize_key_part r.resource_id))))

unfoldable pub incident_key : OperationalSignal → Text
incident_key s =
    incident_prefix s.resource
    ++ (b':' ∷ (as_str s.kind ++ (b':' ∷ normalize_key_part s.source_id)))
