-- ===== src/Store/Incidents/Unique.antt =====
-- The partial index `incidents_active_dedup_idx`: crates/nopager-db/src/lib.rs keeps one active incident
-- for each project and key.
use Prim.Native.String.{String}
use nopager.Prelude.{
  ℕ, ◌+◌, ◌≤◌, Bool, ◌&&◌, ◌≡◌, arith, Option, none, Text, text_eq, text_eq_iff, ok, if◌then◌else◌,
  ◌==◌, Bool-cases, inl, inr,
}
use nopager.Store.Schema.{Database, find_row, count_rows, insert_job}
use nopager.Store.Rows.{no_row}
use nopager.Store.Incidents.{is_active_for, open_incident_tx, insert_incident, open_incident_job}

abbrev pub active_count : ℕ → Text → Database → ℕ
active_count project key db = count_rows (is_active_for project key) db.incidents

insert_incident_rows :
    (p : ℕ) (k type : Text) (title : String) (paused : Bool) (db : Database) (project : ℕ)
    (key : Text)
    → active_count project key (insert_incident p k type title paused db).1
      ≤ active_count project key db + (if p == project && text_eq k key then 1 else 0)
unfolding insert_incident open_incident_job insert_job count_rows
insert_incident_rows p k type title paused db project key = ground arith

same_key_free :
    (p : ℕ) (k : Text) (db : Database) (project : ℕ) (key : Text)
    → find_row (is_active_for p k) db.incidents ≡ none
    → active_count project key db ≤ 1
    → active_count project key db + (if p == project && text_eq k key then 1 else 0) ≤ 1
same_key_free p k db project key free h = elim (Bool-cases (p == project && text_eq k key)) [
  | inl e ↦
      let same_project : project ≡ p = ground arith in
      let same_key : key ≡ k = ground (arith, text_eq_iff k key) in
      rw (same_project, same_key) (ground (arith, no_row (is_active_for p k) db.incidents free))
  | inr e ↦ ground arith
]

-- Opening an incident keeps at most one active incident for each project and key.
pub open_incident_tx-active_count :
    (p : ℕ) (k type : Text) (title : String) (db : Database) (project : ℕ) (key : Text)
    {opened : Option ℕ} {db' : Database}
    → active_count project key db ≤ 1
    → open_incident_tx p k type title db ≡ ok (opened, db')
    → active_count project key db' ≤ 1
unfolding open_incident_tx
open_incident_tx-active_count p k type title db project key {opened} {db'} h o =
    grind (arith, insert_incident_rows, same_key_free p k db project key)
