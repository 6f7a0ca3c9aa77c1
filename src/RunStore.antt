-- ===== src/RunStore.antt =====
-- The files of one run in the store of src/devloop/persistence/run_store.py: its lease, its snapshot
-- and its log of events. A file is what its reader decodes: `corrupt` is a line of the log that is
-- not an event. An operation that raises gives the error alone.
pub mod Log
pub mod Records
pub mod Leases
pub mod Stored
mod Samples
use devloop.Domain.Run.{
  is_terminal, is_running, is_operation_running, OperationState, operation_unknown, paused,
  RunLease, RunEventType, WorkflowRunSnapshot,
}
use devloop.Domain.Attempts.{validate_attempt_history}
use devloop.Domain.Doctor.{redact_sensitive_text}
use devloop.Prelude.{
  text_same, ◌==◌, ◌&&◌, ◌||◌, not, nat_beq, ltb, if◌then◌else◌, is_nil, Result, ok, err, ◌>>=◌,
  ◌>>◌, guard, raise_if, or_raise, Option, some, none, Bool, true, false, List, [], ◌∷◌, ◌++◌, ℕ,
  zero, suc, ◌+◌, String,
}
use mathlib.Core.Option

-- `RunStoreError` and `RunLeaseError`, by the check that raises it.
pub data RunStoreError : Type 0 where
  stale terminal_run no_state corrupt_event bad_event_sequence running_operation lease_missing
        lease_changed lease_held already_leased bad_history :
      RunStoreError

pub record RunEvent : Type 0 where
  pub sequence : ℕ
  pub event_type : RunEventType
  pub occurred_at : String
  pub state : WorkflowRunSnapshot

pub data LogLine : Type 0 where
  event : RunEvent → LogLine
  corrupt : LogLine

pub data SnapshotFile : Type 0 where
  undecodable : SnapshotFile
  decoded : WorkflowRunSnapshot → SnapshotFile

-- `is_ended` says whether the log's last line has its line break. `owned` is the entry of
-- `_owned_leases`, which is of the process.
pub record RunFiles : Type 0 where
  pub lease : Option RunLease
  pub snapshot : Option SnapshotFile
  pub log : List LogLine
  pub is_ended : Bool
  pub quarantine : List LogLine
  pub owned : Option String

-- The process, and what it asks of the system: the time, and which processes run. `substitute` is
-- what the regular expressions of the redaction put in the place of an address or a key.
pub record RunProcess : Type 0 where
  pub process_id : ℕ
  pub now : String
  pub is_live : ℕ → Bool
  pub substitute : String → String

-- `_is_complete_event`
abbrev pub is_complete_event : String → ℕ → LogLine → Bool
is_complete_event run_id expected corrupt = false
is_complete_event run_id expected (event e) =
    nat_beq e.sequence expected
    && not (e.occurred_at == "")
    && e.state.run_id == run_id
    && nat_beq e.state.event_sequence e.sequence

-- What `_read_valid_events` reads from the lines after `count` events: the valid ones, and the last
-- line where it is set apart.
pub record ReadEvents : Type 0 where
  pub valid : List LogLine
  pub rejected : List LogLine

unfoldable pub read_events : String → ℕ → List LogLine → Result RunStoreError ReadEvents
read_events run_id count [] = ok (record { valid = []; rejected = [] })
read_events run_id count (line ∷ lines) =
    let later = read_events run_id (suc count) lines in
    if is_complete_event run_id (suc count) line
    then (later >>= λ (read : ReadEvents). ok (record read { valid = line ∷ read.valid }))
    else if is_nil lines
    then ok (record { valid = []; rejected = line ∷ [] })
    else err corrupt_event

-- `_read_valid_events` with `_quarantine_final_event`: the valid lines that are kept before a line
-- that is set apart have their line breaks.
unfoldable pub read_valid_events :
    String → RunFiles → Result RunStoreError (List LogLine × RunFiles)
read_valid_events run_id files = read_events run_id 0 files.log >>= λ (read : ReadEvents). ok (
  read.valid,
  if is_nil read.rejected then files else (record files {
    log = read.valid;
    is_ended = true;
    quarantine = files.quarantine ++ read.rejected;
  }),
)

-- `snapshot is None or replayed.event_sequence > snapshot.event_sequence`
abbrev pub newer : Option WorkflowRunSnapshot → WorkflowRunSnapshot → WorkflowRunSnapshot
newer none replayed = replayed
newer (some snapshot) replayed =
    if ltb snapshot.event_sequence replayed.event_sequence then replayed else snapshot

-- The loop of `load` over the events.
unfoldable pub replay :
    Option WorkflowRunSnapshot → List LogLine → Result RunStoreError (Option WorkflowRunSnapshot)
replay snapshot [] = ok snapshot
replay snapshot (corrupt ∷ lines) = err bad_event_sequence
replay snapshot (event e ∷ lines) =
    guard (nat_beq e.state.event_sequence e.sequence) bad_event_sequence
    >> replay (some (newer snapshot e.state)) lines

-- `candidate`, where it is of the run.
abbrev pub candidate : String → Option SnapshotFile → Option WorkflowRunSnapshot
candidate run_id (some (decoded snapshot)) =
    if snapshot.run_id == run_id then some snapshot else none
candidate run_id _ = none

-- An operation that runs no more.
abbrev pub settled : OperationState → OperationState
settled operation =
    if is_operation_running operation.status
    then (record operation { status = operation_unknown })
    else operation

abbrev pub lease_is_live : RunProcess → WorkflowRunSnapshot → Option RunLease → Bool
lease_is_live process snapshot none = false
lease_is_live process snapshot (some lease) =
    lease.lease_id == snapshot.lease.lease_id && process.is_live lease.process_id

-- `_recover_stale_presentation`
unfoldable pub recover_stale_presentation :
    RunProcess → Option RunLease → WorkflowRunSnapshot → Result RunStoreError WorkflowRunSnapshot
recover_stale_presentation process lease snapshot =
    if not (is_running snapshot.run_status)
    then (if is_operation_running snapshot.operation.status
        then err running_operation
        else ok snapshot)
    else if lease_is_live process snapshot lease
    then ok snapshot
    else ok (record snapshot { run_status = paused; operation = settled snapshot.operation })

-- `load`
unfoldable pub load :
    RunProcess → String → RunFiles → Result RunStoreError (WorkflowRunSnapshot × RunFiles)
load process run_id files = read_valid_events run_id files >>= λ (lines, after).
    replay (candidate run_id files.snapshot) lines >>= λ latest.
    or_raise no_state latest >>= λ snapshot.
    recover_stale_presentation process after.lease snapshot >>= λ recovered. ok (recovered, after)

-- `_validate_lease_unlocked`
unfoldable pub validate_lease_unlocked :
    RunProcess → WorkflowRunSnapshot → RunFiles → Result RunStoreError RunFiles
validate_lease_unlocked process snapshot files = or_raise lease_missing files.lease >>= λ lease.
    guard (lease.lease_id == snapshot.lease.lease_id && nat_beq lease.process_id process.process_id)
      lease_changed
    >>= λ _. ok (record files { owned = some snapshot.lease.lease_id })

-- The state that `record` saves: no operation runs in a run that does not.
abbrev pub saved : WorkflowRunSnapshot → WorkflowRunSnapshot
saved snapshot = record snapshot {
  operation =
      if is_running snapshot.run_status then snapshot.operation else settled snapshot.operation;
}

-- Writing a line to the log: after a line without its break it makes one line with that, which is no
-- event.
abbrev pub merge_last : List LogLine → List LogLine
merge_last [] = []
merge_last (line ∷ []) = corrupt ∷ []
merge_last (line ∷ next ∷ lines) = line ∷ merge_last (next ∷ lines)

unfoldable pub append_event : RunFiles → RunEvent → RunFiles
append_event files e = record files {
  log =
      if files.is_ended || is_nil files.log
      then files.log ++ event e ∷ []
      else merge_last files.log;
  is_ended = true;
}

-- `_sanitize_persisted_text`
abbrev pub sanitize_persisted_text : RunProcess → String → String
sanitize_persisted_text process value = redact_sensitive_text process.substitute value 20000

-- What the dict of `snapshot_to_dict` holds: the snapshot with its free text redacted and bounded.
abbrev pub redacted : RunProcess → WorkflowRunSnapshot → WorkflowRunSnapshot
redacted process snapshot = record snapshot {
  feature_title = sanitize_persisted_text process snapshot.feature_title;
  clarification = Option.map (sanitize_persisted_text process) snapshot.clarification;
}

-- `snapshot_to_dict`, as the snapshot that a reader decodes from the dict.
unfoldable pub snapshot_to_dict :
    RunProcess → WorkflowRunSnapshot → Result RunStoreError WorkflowRunSnapshot
snapshot_to_dict process snapshot = elim (validate_attempt_history snapshot.attempts) [
  | ok _ ↦ ok (redacted process snapshot)
  | err _ ↦ err bad_history
]

-- `_atomic_json` on the dict of the snapshot.
abbrev pub write_snapshot : RunFiles → WorkflowRunSnapshot → RunFiles
write_snapshot files snapshot = record files { snapshot = some (decoded snapshot) }

abbrev pub next_snapshot : RunProcess → WorkflowRunSnapshot → WorkflowRunSnapshot
next_snapshot process snapshot = record snapshot {
  event_sequence = snapshot.event_sequence + 1;
  updated_at = process.now;
}

-- The event of the next snapshot, with the dict of that.
abbrev pub next_event : WorkflowRunSnapshot → WorkflowRunSnapshot → RunEventType → RunEvent
next_event next dict event_type = record {
  sequence = next.event_sequence;
  event_type = event_type;
  occurred_at = next.updated_at;
  state = dict;
}

-- The checks of `record` against what is stored.
unfoldable pub check_stored :
    RunProcess → WorkflowRunSnapshot → RunFiles → Result RunStoreError RunFiles
check_stored process snapshot files = elim files.snapshot [
  | none ↦ ok files
  | some _ ↦ load process snapshot.run_id files >>= λ (persisted, after).
      guard (nat_beq persisted.event_sequence snapshot.event_sequence) stale >>= λ _.
      raise_if (is_terminal persisted.run_status) terminal_run >>= λ _. ok after
]

-- `record`
unfoldable pub record_event :
    RunProcess
    → WorkflowRunSnapshot
    → RunEventType
    → RunFiles
    → Result RunStoreError (WorkflowRunSnapshot × RunFiles)
record_event process given event_type files =
    let snapshot = saved given in
    validate_lease_unlocked process snapshot files >>= λ leased.
    check_stored process snapshot leased >>= λ checked.
    let next = next_snapshot process snapshot in
    snapshot_to_dict process next >>= λ dict.
    ok (next, write_snapshot (append_event checked (next_event next dict event_type)) dict)

-- `take_lease` under the lock: a lease of another process that runs is respected.
unfoldable pub take_lease :
    RunProcess
    → RunLease
    → WorkflowRunSnapshot
    → RunFiles
    → Result RunStoreError (WorkflowRunSnapshot × RunFiles)
take_lease process lease snapshot files = do
  raise_if
      (elim files.lease [
        | none ↦ false
        | some current ↦
            not (nat_beq current.process_id process.process_id)
            && process.is_live current.process_id
      ])
      lease_held
  ok (
    record snapshot { lease = lease },
    record files { lease = some lease; owned = some lease.lease_id },
  )

-- `release_lease`
unfoldable pub release_lease :
    RunProcess → WorkflowRunSnapshot → RunFiles → Result RunStoreError RunFiles
release_lease process snapshot files = do
  leased ← validate_lease_unlocked process snapshot files
  ok (record leased { lease = none; owned = none })
