-- ===== src/Store/Jobs/Laws.antt =====
-- The order, the exclusion and the bounds of the job queue: crates/nopager-db/src/lib.rs.
use nopager.Prelude.{
  ℕ, ◌+◌, ◌≤◌, ◌⊎◌, Any, Bool, true, not, ◌≡◌, ◌≢◌, refl, arith, none, some, List, [], ◌∷◌, Text,
  text_eq_refl, all, ◌||◌, Option-cases, inl, inr, is_some, leb, ◌==◌,
}
use nopager.Store.Schema.{
  Database, JobRow, JobStatus, pending, retry, running, JobKey, Payload, key_eq, find_row,
  update_rows, insert_job,
}
use nopager.Store.Jobs.{enqueue_after, next_job, is_waiting, is_due, claim_row, claim_next}

-- No due job was available earlier.
abbrev pub is_earliest : ℕ → JobRow → List JobRow → Bool
is_earliest now j js = all (λ k. not (is_due now k) || leb j.available_at k.available_at) js

earliest_trans :
    (now : ℕ) (i j : JobRow) (js : List JobRow)
    → i.available_at ≤ j.available_at
    → is_earliest now j js ≡ true
    → is_earliest now i js ≡ true
earliest_trans now i j [] h e = refl
earliest_trans now i j (k ∷ js) h e = ground (arith, earliest_trans now i j js h)

none_due :
    (now : ℕ) (js : List JobRow) (j : JobRow) → next_job now js ≡ none → is_earliest now j js ≡ true
unfolding next_job
none_due now [] j h = refl
none_due now (k ∷ js) j h = ground (arith, none_due now js j)

next_job_due :
    (now : ℕ) (js : List JobRow) {j : JobRow} → next_job now js ≡ some j → is_due now j ≡ true
unfolding next_job
next_job_due now [] {j} h = ground arith
next_job_due now (k ∷ js) {j} h =
    ground (arith, next_job_due now js {j = j}, Option-cases (next_job now js))

next_job_earliest :
    (now : ℕ) (js : List JobRow) {j : JobRow}
    → next_job now js ≡ some j
    → is_earliest now j js ≡ true
unfolding next_job
next_job_earliest now [] {j} h = refl
next_job_earliest now (k ∷ js) {j} h = elim (Option-cases (next_job now js)) [
  | inl e ↦ ground (arith, none_due now js j e)
  | inr (i, e) ↦ ground (arith, next_job_earliest now js e, earliest_trans now k i js)
]

-- No claim gives a job that a claim has just taken.
next_job-claimed :
    (now id : ℕ) (worker : Text) (js : List JobRow) {j : JobRow}
    → next_job now (update_rows (λ r. r.id == id) (claim_row worker) js) ≡ some j
    → j.id ≢ id
unfolding next_job update_rows
next_job-claimed now id worker [] h = ground arith
next_job-claimed now id worker (k ∷ js) {j} h = ground (
  arith,
  next_job-claimed now id worker js {j = j},
  Option-cases (next_job now (update_rows (λ r. r.id == id) (claim_row worker) js)),
)

-- A claim gives a job that is due, and none that is due was available earlier.
pub claim_next_earliest :
    (worker : Text) (db : Database) {j : JobRow}
    → (claim_next worker db).0 ≡ some j
    → (is_due db.clock j ≡ true) × (is_earliest db.clock j db.jobs ≡ true)
unfolding claim_next
claim_next_earliest worker db {j} h = elim (Option-cases (next_job db.clock db.jobs)) [
  | inl e ↦ absurd (ground arith)
  | inr (i, e) ↦ (
    ground (arith, next_job_due db.clock db.jobs e),
    ground (arith, next_job_earliest db.clock db.jobs e, earliest_trans db.clock j i db.jobs),
  )
]

waiting_status : (s : JobStatus) → is_waiting s ≡ true → (s ≡ pending) ⊎ (s ≡ retry)
waiting_status pending h = inl refl
waiting_status retry h = inr refl
waiting_status running h = absurd (ground arith)
waiting_status JobStatus.completed h = absurd (ground arith)
waiting_status JobStatus.failed h = absurd (ground arith)

-- The job waits, for its first run or for another one, and its time has come.
pub record IsRunnable (now : ℕ) (j : JobRow) : Type 0 where
  pub is_waiting : (j.status ≡ pending) ⊎ (j.status ≡ retry)
  pub is_available : j.available_at ≤ now

due-IsRunnable : (now : ℕ) (j : JobRow) → is_due now j ≡ true → IsRunnable now j
due-IsRunnable now j h = record {
  is_waiting = waiting_status j.status (ground arith);
  is_available = ground arith;
}

IsRunnable-due : (now : ℕ) (j : JobRow) → IsRunnable now j → is_due now j ≡ true
IsRunnable-due now j h = elim h.is_waiting [
  | inl e ↦ ground (arith, h.is_available)
  | inr e ↦ ground (arith, h.is_available)
]

none_due_absurd :
    (now : ℕ) (js : List JobRow) (j : JobRow)
    → Any (λ r. r ≡ j) js
    → is_due now j ≡ true
    → next_job now js ≢ none
unfolding next_job
none_due_absurd now [] j m h e = absurd m
none_due_absurd now (k ∷ js) j (inl same) h e = absurd (ground arith)
none_due_absurd now (k ∷ js) j (inr m) h e = absurd (none_due_absurd now js j m h (ground arith))

earliest-le :
    (now : ℕ) (i j : JobRow) (js : List JobRow)
    → is_earliest now i js ≡ true
    → Any (λ r. r ≡ j) js
    → is_due now j ≡ true
    → i.available_at ≤ j.available_at
earliest-le now i j [] e m h = absurd m
earliest-le now i j (k ∷ js) e (inl same) h = ground arith
earliest-le now i j (k ∷ js) e (inr m) h = earliest-le now i j js (ground arith) m h

-- Where a job of the queue is pending or waits for a retry, and its time has come, a claim gives a
-- job: one that is pending or waits for a retry, whose time came no later than that job's.
pub claim_next_progress :
    (worker : Text) (db : Database) (j : JobRow)
    → Any (λ r. r ≡ j) db.jobs
    → IsRunnable db.clock j
    → (k : JobRow) × ((claim_next worker db).0 ≡ some (record k { attempt = k.attempt + 1 }))
      × IsRunnable db.clock k
      × (k.available_at ≤ j.available_at)
unfolding claim_next
claim_next_progress worker db j m h = elim (Option-cases (next_job db.clock db.jobs)) [
  | inl e ↦ absurd (none_due_absurd db.clock db.jobs j m (IsRunnable-due db.clock j h) e)
  | inr (k, e) ↦ (
    k,
    ground arith,
    due-IsRunnable db.clock k (next_job_due db.clock db.jobs e),
    earliest-le db.clock k j db.jobs (next_job_earliest db.clock db.jobs e) m
        (IsRunnable-due db.clock j h),
  )
]

-- Once a worker has claimed a job, the next claim, whoever makes it, gives another job or none.
pub claim_next-claim_next :
    (first second : Text) (db : Database) {j k : JobRow}
    → (claim_next first db).0 ≡ some j
    → (claim_next second (claim_next first db).1).0 ≡ some k
    → k.id ≢ j.id
unfolding claim_next
claim_next-claim_next first second db {j} {k} h g =
    elim (Option-cases (next_job db.clock db.jobs)) [
      | inl e ↦ absurd (ground arith)
      | inr (i, e) ↦
          let js = update_rows (λ r. r.id == i.id) (claim_row first) db.jobs in
          elim (Option-cases (next_job db.clock js)) [
            | inl e1 ↦ absurd (ground arith)
            | inr (l, e1) ↦ ground (arith, next_job-claimed db.clock i.id first db.jobs e1)
          ]
    ]

key_eq_refl : (key : JobKey) → key_eq key key ≡ true
key_eq_refl key = ground (arith, text_eq_refl key.family, text_eq_refl key.parts)

-- Enqueueing with a key that has a job, with whatever other content, gives that job's id, and no job
-- is added or changed.
pub enqueue_after-enqueue_after :
    (type type' : Text) (key : JobKey) (p p' : Payload) (m m' delay delay' : ℕ) (db : Database)
    → let first = enqueue_after type key p m delay db in
      let second = enqueue_after type' key p' m' delay' first.1 in
      is_some first.0 ≡ true × second.0 ≡ first.0 × second.1.jobs ≡ first.1.jobs
unfolding enqueue_after insert_job find_row
enqueue_after-enqueue_after type type' key p p' m m' delay delay' db =
    ground (arith, key_eq_refl key)
