-- ===== src/RunStore/Samples.antt =====
-- A run with one event, and the theorems about src/devloop/persistence/run_store.py at it.
use devloop.Domain.Doctor.{redact_sensitive_text}
use devloop.Domain.Attempts.{validate_attempt_history}
use devloop.RunStore.Records.{IsBounded, IsStored}
use devloop.RunStore.Stored.{record_event-IsStored, record_event-load, record_event-once}
use devloop.RunStore.Leases.{take_lease-refuses, is_held}
use devloop.RunStore.{
  snapshot_to_dict, lease_changed, RunProcess, RunFiles, stale, LogLine, event, corrupt, decoded,
  load, record_event, take_lease, lease_held, validate_lease_unlocked, check_stored, append_event,
  read_events, read_valid_events, replay, recover_stale_presentation,
}
use devloop.Domain.Run.{
  paused, run_resumed, running, operation_idle, run_created, run_paused, WorkflowRunSnapshot,
  RunLease, RunEventType,
}
use devloop.Json.{null_value}
use devloop.Prelude.{
  text_same, nat_beq, ok, err, none, some, false, true, [], ◌∷◌, ℕ, ◌≡◌, refl, arith, length, ◌+◌,
}

abbrev process : RunProcess
process = record {
  process_id = 7;
  now = "t";
  is_live = λ id. nat_beq id 7;
  substitute = λ text. "*";
}

-- Process 8 runs, and process 7 no more.
abbrev later_process : RunProcess
later_process = record {
  process_id = 8;
  now = "t";
  is_live = λ id. nat_beq id 8;
  substitute = λ text. "*";
}

abbrev lease : RunLease
lease = record { lease_id = "l"; process_id = 7; acquired_at = "t" }

abbrev at_number : ℕ → WorkflowRunSnapshot
at_number n = record {
  run_id = "r";
  feature_title = "f";
  run_status = running;
  lease = lease;
  event_sequence = n;
  updated_at = "t";
  operation = record { item_id = none; status = operation_idle };
  clarification = some "c";
  attempts = [];
  content = null_value;
}

-- What is stored of it: the redaction of these processes leaves a star of a text.
abbrev masked : ℕ → WorkflowRunSnapshot
masked n = record (at_number n) { feature_title = "*"; clarification = some "*" }

abbrev line : ℕ → RunEventType → LogLine
line n event_type =
    event (record { sequence = n; event_type = event_type; occurred_at = "t"; state = masked n })

abbrev files : RunFiles
files = record {
  lease = some lease;
  snapshot = some (decoded (masked 1));
  log = line 1 run_created ∷ [];
  is_ended = true;
  quarantine = [];
  owned = none;
}

abbrev after_files : RunFiles
after_files = record {
  lease = some lease;
  snapshot = some (decoded (masked 2));
  log = line 1 run_created ∷ line 2 run_paused ∷ [];
  is_ended = true;
  quarantine = [];
  owned = some "l";
}

files-IsStored : IsStored "r" files (masked 1)
files-IsStored = record {
  complete = (refl, tt);
  ended = refl;
  written = refl;
  of_run = refl;
  known = omega arith;
}

program : Unit {0}
unfolding record_event load take_lease validate_lease_unlocked check_stored append_event read_events
    read_valid_events replay recover_stale_presentation snapshot_to_dict validate_attempt_history
    redact_sensitive_text
program = tt

recorded : record_event process (at_number 1) run_paused files ≡ ok (at_number 2, after_files)
unfolding program
recorded = refl

refused : record_event process (at_number 1) run_paused after_files ≡ err stale
unfolding program
refused = refl

-- A last line that is cut short is set apart.
truncated :
    load process "r" (record files { log = line 1 run_created ∷ corrupt ∷ []; is_ended = false })
    ≡ ok (masked 1, record files { quarantine = corrupt ∷ [] })
unfolding program
truncated = refl

-- An event whose line break alone is missing is read, and the next record takes it from the log.
unended :
    record_event process (at_number 1) run_paused (record files { is_ended = false })
    ≡ ok (at_number 2, record after_files { log = corrupt ∷ [] })
unfolding program
unended = refl

held : take_lease (record process { process_id = 8 }) lease (at_number 1) files ≡ err lease_held
unfolding program
held = refl

-- A text that is longer than the limit ends in three dots.
bounded : redact_sensitive_text (λ text. text) "abcdef" 5 ≡ "ab..."
unfolding redact_sensitive_text
bounded = refl

record_event-IsStored_example :
    IsStored "r" after_files (masked 2)
    × IsBounded (masked 2)
    × (2 ≡ 1 + 1)
    × (length after_files.log ≡ 1 + 1)
unfolding redact_sensitive_text
record_event-IsStored_example =
    record_event-IsStored process "r" (at_number 1) run_paused files (masked 1) {made = at_number 2}
      {after = after_files} refl refl files-IsStored recorded

-- Read by a process that finds the writer gone: the run is paused.
record_event-load_example :
    let paused_run = record (masked 2) { run_status = paused } in
    (load later_process "r" after_files ≡ ok (paused_run, after_files))
    × (load later_process "r" (record after_files { snapshot = some (decoded (masked 1)) })
        ≡ ok (paused_run, record after_files { snapshot = some (decoded (masked 1)) }))
unfolding recover_stale_presentation redact_sensitive_text
record_event-load_example =
    record_event-load process "r" (at_number 1) run_paused files (masked 1) {made = at_number 2}
      {after = after_files} later_process refl refl files-IsStored recorded

record_event-once_example : ¬ (
    record_event later_process
      (record (at_number 1) { feature_title = "g" })
      run_resumed
      after_files
    ≡ ok (at_number 2, after_files))
record_event-once_example =
    record_event-once process "r" (at_number 1) run_paused files (masked 1) {made = at_number 2}
      {after = after_files} later_process (record (at_number 1) { feature_title = "g" }) run_resumed
      refl refl files-IsStored recorded refl refl (at_number 2, after_files)

abbrev taken : RunLease
taken = record { lease_id = "m"; process_id = 8; acquired_at = "t" }

lease_taken :
    take_lease later_process taken (at_number 1) files
    ≡ ok (
      record (at_number 1) { lease = taken },
      record files { lease = some taken; owned = some "m" },
    )
unfolding program
lease_taken = refl

take_lease-refuses_example :
    (is_held later_process files ≡ false)
    × (taken ≡ taken)
    × (record_event process
          (at_number 1)
          run_paused
          (record files { lease = some taken; owned = some "m" })
        ≡ err lease_changed)
take_lease-refuses_example =
    take_lease-refuses later_process taken (at_number 1) files process (at_number 1) run_paused
      {mine = record (at_number 1) { lease = taken }}
      {after = record files { lease = some taken; owned = some "m" }} lease_taken refl
