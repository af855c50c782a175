-- ===== src/Store/Schema.antt =====
-- The tables that crates/nopager-db/src/lib.rs reads and writes, with the columns that its statements
-- name. A transaction is a function that returns the new tables, or an error and no change. A `Uuid`
-- is a number; `next_id` stands for `Uuid::now_v7`, which never gives one twice; `clock` is `now()`.
use Prim.Native.String.{String}
use nopager.Prelude.{
  ℕ, ◌+◌, suc, Bool, ◌&&◌, Option, none, some, List, [], ◌∷◌, Text, text_eq, if◌then◌else◌,
}
use nopager.Core.Incident.{IncidentState}

pub data DatabaseError : Type 0 where
  sqlx_error : DatabaseError
  invalid_transition : (expected next : IncidentState) → DatabaseError
  concurrent_incident_update job_lease_lost incomplete_repair_attempt protection_paused
        incident_not_awaiting_approval deployment_not_found :
      DatabaseError

pub record ProjectRow : Type 0 where
  pub id : ℕ
  pub is_active : Bool  -- status = 'ACTIVE'
  pub safety_mode : Text
  pub protection_paused : Bool

pub record IncidentRow : Type 0 where
  pub id : ℕ
  pub project_id : ℕ
  pub deduplication_key : Text
  pub trigger_type : Text
  pub status : IncidentState
  pub title : String
  pub autonomous_resolution : Bool
  pub resolved_at : Option ℕ
  pub current_attempt_id : Option ℕ

pub data ActionStatus : Type 0 where
  planned approval_required running executed verified verification_failed blocked failed_closed
        ambiguous rejected :
      ActionStatus

pub data RecordedDecision : Type 0 where
  allow require_approval block approved rejected : RecordedDecision

pub record ActionRow : Type 0 where
  pub id : ℕ
  pub incident_id : ℕ
  pub action_kind : Text
  pub target_id : Option Text
  pub required_consecutive_successes : ℕ  -- of `plan_json`
  pub policy_decision : RecordedDecision
  pub status : ActionStatus

pub record EventRow : Type 0 where
  pub incident_id : ℕ
  pub actor : String
  pub message : String

-- `RevertIdentity` of source_recovery.rs, the part of `metadata_json` that statements compare.
pub record RevertIdentity : Type 0 where
  pub number : ℕ
  pub node_id : Text
  pub head_sha : Text
  pub base_sha : Text

pub record AuditRow : Type 0 where
  pub project_id : ℕ
  pub incident_id : Option ℕ
  pub actor : String
  pub action : String
  pub target : Option Text  -- kept where it is not an id of another table
  pub outcome : String
  pub revert : Option RevertIdentity
  pub created_at : ℕ

-- `diagnosis_json`, `plan_json` and `patch_diff` are only asked for their presence.
pub record AttemptRow : Type 0 where
  pub id : ℕ
  pub incident_id : ℕ
  pub attempt_number : ℕ
  pub base_commit_sha : Text
  pub is_complete : Bool
  pub repair_branch : Option Text
  pub repair_commit_sha : Option Text
  pub preview_deployment_id : Option Text

-- UNIQUE(project_id, provider_deployment_id)
pub record DeploymentRow : Type 0 where
  pub project_id : ℕ
  pub provider_deployment_id : Text
  pub environment : Text
  pub commit_sha : Text
  pub url : Text
  pub status : Text
  pub known_good : Bool

pub data HealthStatus : Type 0 where
  unknown healthy failing down : HealthStatus

pub record HealthRow : Type 0 where
  pub id : ℕ
  pub project_id : ℕ
  pub consecutive_failures : ℕ  -- integer
  pub consecutive_successes : ℕ  -- integer
  pub status : HealthStatus

-- A formatted key, `family:{part}:{part}…`; ids hold no colon, so the text and the parts agree.
pub record JobKey : Type 0 where
  pub family : Text
  pub parts : List ℕ

abbrev pub key_eq : JobKey → JobKey → Bool
key_eq a b = text_eq a.family b.family && text_eq a.parts b.parts

pub record Payload : Type 0 where
  pub incident_id : Option ℕ
  pub operation_action_id : Option ℕ
  pub attempt_id : Option ℕ
  pub check : Option ℕ
  pub poll : Option ℕ
  pub phase : Option Text
  pub action : Option Text
  pub source_repair_merged : Option Bool
  pub expected_production_id : Option Text
  pub production_deployment_id : Option Text
  pub production_commit_sha : Option Text
  pub revert : Option RevertIdentity
  pub revert_merge_sha : Option Text

-- `json!({})`
abbrev pub empty_payload : Payload
empty_payload = record {
  incident_id = none;
  operation_action_id = none;
  attempt_id = none;
  check = none;
  poll = none;
  phase = none;
  action = none;
  source_repair_merged = none;
  expected_production_id = none;
  production_deployment_id = none;
  production_commit_sha = none;
  revert = none;
  revert_merge_sha = none;
}

pub data JobStatus : Type 0 where
  pending retry running completed failed : JobStatus

pub record JobRow : Type 0 where
  pub id : ℕ
  pub job_type : Text
  pub idempotency_key : JobKey
  pub payload : Payload
  pub status : JobStatus
  pub attempt : ℕ
  pub max_attempts : ℕ
  pub available_at : ℕ
  pub locked_by : Option Text

pub record Database : Type 0 where
  pub projects : List ProjectRow
  pub incidents : List IncidentRow
  pub actions : List ActionRow
  pub attempts : List AttemptRow
  pub deployments : List DeploymentRow  -- newest first
  pub health_checks : List HealthRow
  pub jobs : List JobRow
  pub events : List EventRow  -- newest first
  pub audits : List AuditRow  -- newest first
  pub next_id : ℕ
  pub clock : ℕ

module _ {A : Type 0} (test : A → Bool) where
  -- `SELECT … WHERE …` for one row
  unfoldable pub find_row : List A → Option A
  find_row [] = none
  find_row (x ∷ xs) = if test x then some x else find_row xs

  -- `UPDATE … WHERE …`
  unfoldable pub update_rows : (A → A) → List A → List A
  update_rows change [] = []
  update_rows change (x ∷ xs) = (if test x then change x else x) ∷ update_rows change xs

  -- `rows_affected()`
  unfoldable pub count_rows : List A → ℕ
  count_rows [] = 0
  count_rows (x ∷ xs) = let rest = count_rows xs in if test x then suc rest else rest

abbrev pub add_event : ℕ → String → String → Database → Database
add_event incident_id actor message db = record db {
  events = record { incident_id = incident_id; actor = actor; message = message } ∷ db.events;
}

abbrev pub add_audit_event :
    ℕ
    → Option ℕ
    → String
    → String
    → Option Text
    → String
    → Option RevertIdentity
    → Database
    → Database
add_audit_event project_id incident_id actor action target outcome revert db = record db {
  audits =
      record {
        project_id = project_id;
        incident_id = incident_id;
        actor = actor;
        action = action;
        target = target;
        outcome = outcome;
        revert = revert;
        created_at = db.clock;
      }
      ∷ db.audits;
}

abbrev pub add_audit : ℕ → Option ℕ → String → String → String → Database → Database
add_audit project_id incident_id actor action outcome =
    add_audit_event project_id incident_id actor action none outcome none

-- `INSERT INTO jobs … ON CONFLICT (idempotency_key) DO NOTHING`
unfoldable pub insert_job : Text → JobKey → Payload → ℕ → ℕ → Database → Database
insert_job job_type key payload max_attempts delay db =
    elim (find_row (λ j. key_eq j.idempotency_key key) db.jobs) [
      | some _ ↦ record db { next_id = db.next_id + 1 }
      | none ↦ record db {
        next_id = db.next_id + 1;
        jobs =
            record {
              id = db.next_id;
              job_type = job_type;
              idempotency_key = key;
              payload = payload;
              status = JobStatus.pending;
              attempt = 0;
              max_attempts = max_attempts;
              available_at = db.clock + delay;
              locked_by = none;
            }
            ∷ db.jobs;
      }
    ]
