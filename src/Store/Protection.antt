-- ===== src/Store/Protection.antt =====
-- crates/nopager-db/src/lib.rs: `set_safety_mode` and `set_protection_paused`, which an administrator
-- asks for. The table `policies`, the status of an attempt and
-- the time at which an incident was opened are not kept: a resume takes the incidents as they stand.
pub mod Laws
pub mod Resume
mod Tests
use Prim.Native.String.{String}
use nopager.Prelude.{
  ℕ, ◌+◌, Bool, true, false, not, ◌&&◌, ◌||◌, Option, none, some, List, [], ◌∷◌, Text, text,
  text_eq, ◌==◌, if◌then◌else◌, Option, Result, ok, err,
}
use nopager.Core.Incident.{IncidentState, collecting_context, paused, state_eq}
use nopager.Store.Schema.{
  Database, ProjectRow, IncidentRow, JobStatus, empty_payload, update_rows, count_rows, add_event,
  add_audit,
}

-- The ids that a statement returns.
unfoldable pub ids_where {ℓ} : {A : Type ℓ} → (A → Bool) → (A → ℕ) → List A → List ℕ
ids_where p id [] = []
ids_where p id (x ∷ xs) = let rest = ids_where p id xs in if p x then id x ∷ rest else rest

unfoldable pub for_each : List ℕ → (ℕ → Database → Database) → Database → Database
for_each [] f db = db
for_each (id ∷ ids) f db = for_each ids f (f id db)

abbrev pub other_mode : Text → ProjectRow → Bool
other_mode mode p = p.is_active && not (text_eq p.safety_mode mode)

-- `none` is `DatabaseError::InvalidSafetyMode`.
unfoldable pub set_safety_mode : Text → String → Database → Option (List ℕ × Database)
set_safety_mode mode actor db =
    if not (text_eq mode (text "safe") || text_eq mode (text "autopilot_experimental"))
    then none
    else let ids = ids_where (other_mode mode) (λ p. p.id) db.projects in
      some (
        ids,
        for_each ids (λ id. add_audit id none actor "safety.mode.change" "success")
            (record db {
              projects =
                  update_rows (other_mode mode) (λ p. record p { safety_mode = mode }) db.projects;
            }),
      )

abbrev pub differs : Bool → Bool → Bool
differs true b = not b
differs false b = b

abbrev pub is_other : Bool → ProjectRow → Bool
is_other value p = p.is_active && differs value p.protection_paused

abbrev pub is_paused_incident : ℕ → IncidentRow → Bool
is_paused_incident id i = i.id == id && state_eq i.status paused

-- The plain INSERT of a job with a key that is new.
unfoldable pub enqueue_resume : ℕ → Database → Database
enqueue_resume incident db = record db {
  next_id = db.next_id + 2;
  jobs =
      record {
        id = db.next_id;
        job_type = text "diagnose";
        idempotency_key = record {
          family = text "resume-diagnose";
          parts = incident ∷ (db.next_id + 1) ∷ [];
        };
        payload = record empty_payload { incident_id = some incident };
        status = JobStatus.pending;
        attempt = 0;
        max_attempts = 3;
        available_at = db.clock;
        locked_by = none;
      }
      ∷ db.jobs;
}

abbrev pub restart_row : IncidentRow → IncidentRow
restart_row i = record i { status = collecting_context; current_attempt_id = none }

unfoldable pub resume_incident : ℕ → String → ℕ → Database → Database
resume_incident project actor id db =
    let db1 = record db {
      incidents = update_rows (is_paused_incident id) restart_row db.incidents;
    } in
    if count_rows (is_paused_incident id) db.incidents == 1
    then enqueue_resume id (
        add_audit project (some id) actor "incident.resume" "success"
          (add_event id actor "Protection resumed; restarting incident from fresh context" db1))
    else db1

abbrev pub is_paused_of : ℕ → IncidentRow → Bool
is_paused_of project i = i.project_id == project && state_eq i.status paused

unfoldable pub resume_project : String → ℕ → Database → Database
resume_project actor project db =
    for_each (ids_where (is_paused_of project) (λ i. i.id) db.incidents)
      (resume_incident project actor) db

unfoldable pub change_project : Bool → String → ℕ → Database → Database
change_project true actor project db = add_audit project none actor "protection.pause" "success" db
change_project false actor project db =
    resume_project actor project (add_audit project none actor "protection.resume" "success" db)

unfoldable pub set_protection_paused : Bool → String → Database → List ℕ × Database
set_protection_paused value actor db =
    let ids = ids_where (is_other value) (λ p. p.id) db.projects in
    (
      ids,
      for_each ids (change_project value actor) (record db {
        projects =
            update_rows (is_other value) (λ p. record p { protection_paused = value }) db.projects;
      }),
    )
