-- ===== src/RunStore/Records.antt =====
-- What `record` of src/devloop/persistence/run_store.py stores, and what is loaded after it.
use devloop.Domain.Doctor.{length-redact_sensitive_text}
use devloop.Protocol.Payload.{text_length}
use devloop.Domain.Attempts.{validate_attempt_history}
use devloop.RunStore.Log.{AllComplete, read_valid_events_complete, replay-number}
use devloop.RunStore.{
  sanitize_persisted_text, RunEvent, snapshot_to_dict, redacted, lease_changed, lease_missing,
  terminal_run, RunProcess, RunFiles, RunStoreError, decoded, event, load, record_event,
  check_stored, validate_lease_unlocked, append_event, write_snapshot, next_snapshot, next_event,
  saved, recover_stale_presentation, candidate, replay, stale, lease_is_live,
}
use devloop.Domain.Run.{
  RunLease, WorkflowRunSnapshot, RunEventType, is_running, is_terminal, is_operation_running,
}
use devloop.Prelude.{
  none, Result-cases, raise_if, text_same, ◌==◌, ◌&&◌, nat_beq, Result, ok, ◌>>=◌, guard, Option,
  some, true, [], ◌∷◌, ◌++◌, ◌≤◌, String, ◌≡◌, refl, ap, sym, ◌∙◌, subst, arith, length, inl, inr,
  Bool-cases, ok-injective, >>=-eq-ok, or_raise, guard-eq-ok,
}
use mathlib.Core.Option

-- A run whose files agree: the log has the run's events with their numbers, each on a line of its
-- own, and the snapshot is of the run and no newer than the log.
pub record IsStored (run_id : String) (files : RunFiles) (snapshot : WorkflowRunSnapshot)
    : Type 0 where
  pub complete : AllComplete run_id 0 files.log
  pub ended : files.is_ended ≡ true
  pub written : files.snapshot ≡ some (decoded snapshot)
  pub of_run : (snapshot.run_id == run_id) ≡ true
  pub known : snapshot.event_sequence ≤ length files.log

-- The free text of a snapshot has at most the length that is stored.
pub record IsBounded (snapshot : WorkflowRunSnapshot) : Type 0 where
  pub title : text_length snapshot.feature_title ≤ 20000
  pub clarified : (text : String) → snapshot.clarification ≡ some text → text_length text ≤ 20000

pub redacted-IsBounded :
    (process : RunProcess) (snapshot : WorkflowRunSnapshot) → IsBounded (redacted process snapshot)
redacted-IsBounded process snapshot = record {
  title = length-redact_sensitive_text process.substitute snapshot.feature_title 20000;
  clarified = bound snapshot.clarification;
}
  where
    bound :
        (clarification : Option String) (text : String)
        → Option.map (sanitize_persisted_text process) clarification ≡ some text
        → text_length text ≤ 20000
    bound none text e = cc
    bound (some c) text e =
        let same : sanitize_persisted_text process c ≡ text = cc in
        subst (λ (t : String). text_length t ≤ 20000) same
          (length-redact_sensitive_text process.substitute c 20000)

module _ (process : RunProcess) (run_id : String) where
  -- `load` where the files agree, after the events are replayed to `latest`.
  pub load-replayed :
      (files : RunFiles) {latest : WorkflowRunSnapshot}
      → AllComplete run_id 0 files.log
      → replay (candidate run_id files.snapshot) files.log ≡ ok (some latest)
      → load process run_id files ≡ (
          recover_stale_presentation process files.lease latest >>= λ recovered.
          ok (recovered, files))
  unfolding load
  load-replayed files h run = rw (read_valid_events_complete run_id files h) (rw run refl)

  pub candidate-written :
      (files : RunFiles) (snapshot : WorkflowRunSnapshot)
      → IsStored run_id files snapshot
      → candidate run_id files.snapshot ≡ some snapshot
  candidate-written files snapshot h = ap (candidate run_id) h.written ∙ rw h.of_run refl

  pub recovered-number :
      (lease : Option RunLease) (snapshot : WorkflowRunSnapshot) {recovered : WorkflowRunSnapshot}
      → recover_stale_presentation process lease snapshot ≡ ok recovered
      → recovered.event_sequence ≡ snapshot.event_sequence
  unfolding recover_stale_presentation
  recovered-number lease snapshot {recovered} h =
      elim (Bool-cases (is_running snapshot.run_status)) [
        | inl runs ↦ elim (Bool-cases (lease_is_live process snapshot lease)) [
          | inl live ↦ number (rw (runs, live) at h)
          | inr lost ↦ number (rw (runs, lost) at h)
        ]
        | inr rests ↦ elim (Bool-cases (is_operation_running snapshot.operation.status)) [
          | inl operates ↦ absurd (cc (rw (rests, operates) at h))
          | inr idle ↦ number (rw (rests, idle) at h)
        ]
      ]
    where
      number :
          {x : WorkflowRunSnapshot}
          → ◌≡◌ {A = Result RunStoreError WorkflowRunSnapshot} (ok x) (ok recovered)
          → recovered.event_sequence ≡ x.event_sequence
      number e = ap (λ (y : WorkflowRunSnapshot). y.event_sequence) (sym (ok-injective e))

  -- Where the files agree, what is loaded has the number of the last event, and the files stay.
  pub load-number :
      (files : RunFiles) (snapshot : WorkflowRunSnapshot) {loaded : WorkflowRunSnapshot}
      {after : RunFiles}
      → IsStored run_id files snapshot
      → load process run_id files ≡ ok (loaded, after)
      → (loaded.event_sequence ≡ length files.log) × (after ≡ files)
  load-number files snapshot {loaded} {after} h r =
      let (latest, run, last) =
        replay-number run_id 0 files.log snapshot h.complete (omega arith)
          (omega (arith, h.known)) in
      let read = load-replayed files h.complete (
        ap (λ (c : Option WorkflowRunSnapshot). replay c files.log)
          (candidate-written files snapshot h)
        ∙ run) in
      let (recovered, recovers, e) =
        >>=-eq-ok (recover_stale_presentation process files.lease latest) _ (sym read ∙ r) in
      let pair = ok-injective e in
      (
        ap (λ (p : WorkflowRunSnapshot × RunFiles). p.0.event_sequence) (sym pair)
            ∙ recovered-number files.lease latest recovers
            ∙ omega (arith, last),
        ap (λ (p : WorkflowRunSnapshot × RunFiles). p.1) (sym pair),
      )

  -- What `check_stored` passes is the number of the last event, and the files stay.
  check_stored-number :
      (given : WorkflowRunSnapshot) (files : RunFiles) (snapshot : WorkflowRunSnapshot)
      {checked : RunFiles}
      → given.run_id ≡ run_id
      → IsStored run_id files snapshot
      → check_stored process given files ≡ ok checked
      → (given.event_sequence ≡ length files.log) × (checked ≡ files)
  unfolding check_stored
  check_stored-number given files snapshot {checked} e h r =
      let ((persisted, after), loads, r1) =
        >>=-eq-ok (load process given.run_id files) _ (rw (h.written, check_stored) at r) in
      let (_, same, r2) =
        >>=-eq-ok (guard (nat_beq persisted.event_sequence given.event_sequence) stale) _ r1 in
      let (_, _, r3) = >>=-eq-ok (raise_if (is_terminal persisted.run_status) terminal_run) _ r2 in
      let loaded : load process run_id files ≡ ok (persisted, after) =
        ap (λ (i : String). load process i files) (sym e) ∙ loads in
      let (number, files_same) = load-number files snapshot h loaded in
      let equal : nat_beq persisted.event_sequence given.event_sequence ≡ true =
        guard-eq-ok (nat_beq persisted.event_sequence given.event_sequence) stale same in
      (ground arith, sym (ok-injective r3) ∙ files_same)

  snapshot_to_dict-eq-ok :
      (snapshot : WorkflowRunSnapshot) {dict : WorkflowRunSnapshot}
      → snapshot_to_dict process snapshot ≡ ok dict
      → dict ≡ redacted process snapshot
  unfolding snapshot_to_dict
  snapshot_to_dict-eq-ok snapshot {dict} h =
      elim (Result-cases (validate_attempt_history snapshot.attempts)) [
        | inl (_, valid) ↦ sym (ok-injective (rw (snapshot_to_dict, valid) at h))
        | inr (_, invalid) ↦ absurd (cc (rw (snapshot_to_dict, invalid) at h))
      ]

  -- What `record` did where it succeeded: the files are those before it, with the lease as the
  -- process's own, an event more, and the new snapshot.
  pub record_event-writes :
      (given : WorkflowRunSnapshot) (event_type : RunEventType) (files : RunFiles)
      (snapshot : WorkflowRunSnapshot) {next : WorkflowRunSnapshot} {after : RunFiles}
      → given.run_id ≡ run_id
      → IsStored run_id files snapshot
      → record_event process given event_type files ≡ ok (next, after)
      → (given.event_sequence ≡ length files.log)
        × (next ≡ next_snapshot process (saved given))
        × (after ≡ record files {
          owned = some given.lease.lease_id;
          log = files.log ++ event (next_event next (redacted process next) event_type) ∷ [];
          is_ended = true;
          snapshot = some (decoded (redacted process next));
        })
  unfolding record_event validate_lease_unlocked append_event
  record_event-writes given event_type files snapshot {next} e h r =
      let snap = saved given in
      let (leased, lease, r1) = >>=-eq-ok (validate_lease_unlocked process snap files) _ r in
      let (current, held, l1) = >>=-eq-ok (or_raise lease_missing files.lease) _ lease in
      let (_, _, l2) =
        >>=-eq-ok
          (guard
            (current.lease_id == given.lease.lease_id
              && nat_beq current.process_id process.process_id)
            lease_changed)
          _ l1 in
      let own : leased ≡ record files { owned = some given.lease.lease_id } =
        sym (ok-injective l2) in
      let stored : IsStored run_id leased snapshot =
        subst (λ (f : RunFiles). IsStored run_id f snapshot) (sym own)
          (record {
            complete = h.complete;
            ended = h.ended;
            written = h.written;
            of_run = h.of_run;
            known = h.known;
          }) in
      let (checked, checks, r2) = >>=-eq-ok (check_stored process snap leased) _ r1 in
      let (number, same) = check_stored-number snap leased snapshot e stored checks in
      let kept = same ∙ own in
      let (dict, made, r3) =
        >>=-eq-ok (snapshot_to_dict process (next_snapshot process snap)) _ r2 in
      let pair = ok-injective r3 in
      let new : next_snapshot process snap ≡ next =
        ap (λ (p : WorkflowRunSnapshot × RunFiles). p.0) pair in
      let written : dict ≡ redacted process next =
        snapshot_to_dict-eq-ok (next_snapshot process snap) made ∙ ap (redacted process) new in
      (
        number ∙ ap (λ (f : RunFiles). length f.log) own,
        sym new,
        sym (ap (λ (p : WorkflowRunSnapshot × RunFiles). p.1) pair)
            ∙ (λ i.
                write_snapshot
                  (append_event ((same ∙ own) i) (next_event (new i) (written i) event_type))
                  (written i))
            ∙ ap (λ (f : RunFiles). write_snapshot f (redacted process next))
                (appended (next_event next (redacted process next) event_type)),
      )
    where
      appended :
          (e : RunEvent)
          → append_event (record files { owned = some given.lease.lease_id }) e ≡ record files {
            owned = some given.lease.lease_id;
            log = files.log ++ event e ∷ [];
            is_ended = true;
          }
      appended e = rw h.ended refl
