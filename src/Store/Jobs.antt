-- ===== src/Store/Jobs.antt =====
-- crates/nopager-db/src/lib.rs: the job queue, `enqueue_after` (and `enqueue`, with no delay),
-- `claim_next`, `complete_job` and `fail_job`. A claim skips no row here, since no other transaction
-- holds a lock; jobs stand in the order in which they were created, newest first.
pub mod Laws
use nopager.Prelude.{
  ℕ, ◌+◌, ◌^◌, min, max, Bool, true, false, ◌&&◌, ◌||◌, Option, none, some, List, [], ◌∷◌, Text,
  text_eq, leb, ltb, ◌==◌, if◌then◌else◌, Result, ok, err,
}
use nopager.Store.Schema.{
  Database, DatabaseError, sqlx_error, job_lease_lost, JobRow, JobStatus, JobKey, Payload, pending,
  retry, running, key_eq, find_row, update_rows, count_rows, insert_job,
}

-- The stored id: of the new row, or of the one that has the key.
unfoldable pub enqueue_after :
    Text → JobKey → Payload → (max_attempts delay : ℕ) → Database → Option ℕ × Database
enqueue_after job_type key payload max_attempts delay db =
    let db' = insert_job job_type key payload max_attempts delay db in
    (
      elim (find_row (λ j. key_eq j.idempotency_key key) db'.jobs) [
        | none ↦ none
        | some j ↦ some j.id
      ],
      db',
    )

abbrev pub is_waiting : JobStatus → Bool
is_waiting pending = true
is_waiting retry = true
is_waiting _ = false

-- `status IN ('PENDING', 'RETRY') AND available_at <= now()`
abbrev pub is_due : ℕ → JobRow → Bool
is_due now j = is_waiting j.status && leb j.available_at now

-- `ORDER BY available_at, created_at … LIMIT 1`: the older row wins a tie.
unfoldable pub next_job : ℕ → List JobRow → Option JobRow
next_job now [] = none
next_job now (j ∷ js) =
    let rest = next_job now js in
    if is_due now j
    then (elim rest [
      | none ↦ some j
      | some k ↦ if ltb j.available_at k.available_at then some j else some k
    ])
    else rest

abbrev pub claim_row : Text → JobRow → JobRow
claim_row worker_id j = record j {
  status = running;
  locked_by = some worker_id;
  attempt = j.attempt + 1;
}

unfoldable pub claim_next : Text → Database → Option JobRow × Database
claim_next worker_id db = elim (next_job db.clock db.jobs) [
  | none ↦ (none, db)
  | some j ↦ (
    some (record j { attempt = j.attempt + 1 }),
    record db { jobs = update_rows (λ r. r.id == j.id) (claim_row worker_id) db.jobs },
  )
]

abbrev pub is_running : JobStatus → Bool
is_running running = true
is_running _ = false

abbrev pub held_by : Text → Option Text → Bool
held_by worker none = false
held_by worker (some w) = text_eq w worker

-- `WHERE id = … AND status = 'RUNNING' AND locked_by = …`
abbrev pub is_leased : ℕ → Text → JobRow → Bool
is_leased id worker_id r = r.id == id && (is_running r.status && held_by worker_id r.locked_by)

abbrev one_row : ℕ → Database → Result DatabaseError Database
one_row rows db = if rows == 1 then ok db else err job_lease_lost

unfoldable pub complete_job : ℕ → Text → Database → Result DatabaseError Database
complete_job id worker_id db = one_row (count_rows (is_leased id worker_id) db.jobs) (record db {
  jobs =
      update_rows (is_leased id worker_id)
        (λ r. record r { status = JobStatus.completed; locked_by = none }) db.jobs;
})

-- `2_i32.saturating_pow(job.attempt.clamp(1, 10) as u32)`, which never saturates
abbrev pub backoff_seconds : ℕ → ℕ
backoff_seconds attempt = 2 ^ min 10 (max 1 attempt)

abbrev pub fail_row : JobRow → ℕ → JobRow → JobRow
fail_row job now r =
    if leb job.max_attempts job.attempt
    then record r { status = JobStatus.failed; locked_by = none }
    else record r {
      status = retry;
      available_at = now + backoff_seconds job.attempt;
      locked_by = none;
    }

unfoldable pub fail_job : JobRow → Text → Database → Result DatabaseError Database
fail_job job worker_id db =
    one_row (count_rows (is_leased job.id worker_id) db.jobs) (record db {
      jobs = update_rows (is_leased job.id worker_id) (fail_row job db.clock) db.jobs;
    })
