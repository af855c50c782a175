-- ===== src/Helper/Journal.antt =====
-- apps/runtime-helper/src/lib.rs: `RequestJournal`, one file for each claimed request. The journal's
-- directory is a list of files by request id. Input and output may fail: a fault says how, for each
-- call, and the model keeps what the failed call has left on the disk.
pub mod Laws
use nopager.Prelude.{
  ℕ, Bool, true, false, not, ◌||◌, Option, none, some, List, [], ◌∷◌, Text, text_eq, ◌==◌,
  if◌then◌else◌, Result, ok, err,
}
use nopager.Protocol.{RuntimeResponse}

pub data JournalStatus : Type 0 where
  started completed : JournalStatus

pub record JournalRecord : Type 0 where
  pub request_id : ℕ
  pub target_id : Text
  pub status : JournalStatus
  pub response : Option RuntimeResponse

-- What a journal file holds: a record, or bytes that do not decode.
pub data JournalFile : Type 0 where
  readable : JournalRecord → JournalFile
  undecodable : JournalFile

pub data ClaimResult : Type 0 where
  new : ClaimResult
  started : ClaimResult
  completed : RuntimeResponse → ClaimResult

abbrev pub Journal : Type 0
Journal = List (ℕ × JournalFile)

unfoldable pub file_at : ℕ → Journal → Option JournalFile
file_at id [] = none
file_at id ((k, f) ∷ j) = if k == id then some f else file_at id j

-- Creating the file, or renaming onto it.
unfoldable pub put_file : ℕ → JournalFile → Journal → Journal
put_file id f [] = (id, f) ∷ []
put_file id f ((k, g) ∷ j) = if k == id then (id, f) ∷ j else (k, g) ∷ put_file id f j

-- How a claim's input and output go: no fault; the file cannot be created or read; the write breaks
-- off and leaves a file that does not decode; a sync fails after the whole record is written.
pub data ClaimFault : Type 0 where
  fine cannot_open torn_write sync_fails : ClaimFault

-- How a completion's input and output go: no fault; it fails before the rename; the directory's
-- sync fails after it.
pub data CompleteFault : Type 0 where
  fine before_rename after_rename : CompleteFault

pub data IoError : Type 0 where
  io_error : IoError

-- `create_new(true)` succeeds only where there is no file.
create_claim : ClaimFault → JournalRecord → ℕ → Journal → Result IoError ClaimResult × Journal
create_claim ClaimFault.fine r id j = (ok ClaimResult.new, put_file id (readable r) j)
create_claim cannot_open r id j = (err io_error, j)
create_claim torn_write r id j = (err io_error, put_file id undecodable j)
create_claim sync_fails r id j = (err io_error, put_file id (readable r) j)

-- `match (existing.status, existing.response)`
existing_result : JournalStatus → Option RuntimeResponse → ClaimResult
existing_result JournalStatus.completed (some response) = ClaimResult.completed response
existing_result _ _ = ClaimResult.started

-- The branch on `AlreadyExists`.
read_claim : ClaimFault → ℕ → Text → JournalFile → Result IoError ClaimResult
unfolding existing_result
read_claim cannot_open id t f = err io_error
read_claim _ id t undecodable = err io_error
read_claim _ id t (readable r) =
    if not (r.request_id == id) || not (text_eq r.target_id t)
    then ok ClaimResult.started
    else ok (existing_result r.status r.response)

unfoldable pub claim : ClaimFault → ℕ → Text → Journal → Result IoError ClaimResult × Journal
unfolding create_claim read_claim
claim fault id t j = elim (file_at id j) [
  | none ↦
      create_claim fault
        (record { request_id = id; target_id = t; status = JournalStatus.started; response = none })
        id j
  | some f ↦ (read_claim fault id t f, j)
]

unfoldable pub complete_record : ℕ → Text → RuntimeResponse → JournalRecord
complete_record id t response = record {
  request_id = id;
  target_id = t;
  status = JournalStatus.completed;
  response = some response;
}

unfoldable pub complete :
    CompleteFault → ℕ → Text → RuntimeResponse → Journal → Result IoError (Unit {0}) × Journal
unfolding complete_record
complete CompleteFault.fine id t r j = (ok tt, put_file id (readable (complete_record id t r)) j)
complete before_rename id t r j = (err io_error, j)
complete after_rename id t r j = (err io_error, put_file id (readable (complete_record id t r)) j)
