-- ===== src/RunStore/Stored.antt =====
-- What `record` of src/devloop/persistence/run_store.py leaves, whole or cut off between its two
-- writes, and what is loaded then.
use devloop.RunStore.Log.{AllComplete, AllComplete-snoc, replay-old, replay-number, replay-append}
use devloop.RunStore.Records.{
  redacted-IsBounded, IsBounded, IsStored, load-replayed, candidate-written, record_event-writes,
}
use devloop.RunStore.{
  decoded, redacted, RunProcess, RunFiles, LogLine, event, load, record_event, next_snapshot,
  next_event, saved, recover_stale_presentation, replay, is_complete_event,
}
use devloop.Domain.Run.{WorkflowRunSnapshot, RunEventType}
use devloop.Prelude.{
  text_same, ==-refl, ◌==◌, nat_beq, ltb, ok, ◌>>=◌, Option, some, true, false, List, [], ◌∷◌, ◌++◌,
  suc, ◌+◌, String, ◌≡◌, refl, ap, sym, ◌∙◌, subst, arith, length, length-append,
}

module _ (process : RunProcess) (run_id : String) (given : WorkflowRunSnapshot)
    (event_type : RunEventType) (files : RunFiles) (snapshot : WorkflowRunSnapshot) where
  abbrev next : WorkflowRunSnapshot
  next = next_snapshot process (saved given)

  abbrev logged : List LogLine
  logged = files.log ++ event (next_event next (redacted process next) event_type) ∷ []

  next_complete :
      (process.now == "") ≡ false
      → given.run_id ≡ run_id
      → given.event_sequence ≡ length files.log
      → is_complete_event run_id
          (suc (length files.log))
          (event (next_event next (redacted process next) event_type))
        ≡ true
  next_complete clock e n =
      let number : nat_beq (given.event_sequence + 1) (suc (length files.log)) ≡ true =
        ground arith in
      let own : nat_beq (given.event_sequence + 1) (given.event_sequence + 1) ≡ true =
        ground arith in
      rw number (rw clock (rw e (rw (==-refl run_id) (rw own refl))))

  logged_complete :
      (process.now == "") ≡ false
      → given.run_id ≡ run_id
      → given.event_sequence ≡ length files.log
      → AllComplete run_id 0 files.log
      → AllComplete run_id 0 logged
  logged_complete clock e n h =
      AllComplete-snoc run_id 0 (length files.log) files.log _ h (omega arith)
        (next_complete clock e n)

  -- What `record_event-writes` says, with the snapshot that is recorded written out.
  written :
      {made : WorkflowRunSnapshot} {after : RunFiles}
      → given.run_id ≡ run_id
      → IsStored run_id files snapshot
      → record_event process given event_type files ≡ ok (made, after)
      → (given.event_sequence ≡ length files.log)
        × (made ≡ next)
        × (after.log ≡ logged)
        × (after.is_ended ≡ true)
        × (after.snapshot ≡ some (decoded (redacted process made)))
  written {made} {after} e h r =
      let (n, same, left) =
        record_event-writes process run_id given event_type files snapshot e h r in
      (
        n,
        same,
        ap (λ (f : RunFiles). f.log) left
            ∙ ap
                (λ (s : WorkflowRunSnapshot).
                  files.log ++ event (next_event s (redacted process s) event_type) ∷ [])
                same,
        ap (λ (f : RunFiles). f.is_ended) left,
        ap (λ (f : RunFiles). f.snapshot) left,
      )

  -- Where the files of a run agree and the clock's text is not empty: where `record` succeeds, the
  -- snapshot that it gives has the number after the given one, the log has one event more, and the
  -- files agree with that snapshot, its free text redacted; each such text has at most 20,000
  -- characters.
  pub record_event-IsStored :
      {made : WorkflowRunSnapshot} {after : RunFiles}
      → (process.now == "") ≡ false
      → given.run_id ≡ run_id
      → IsStored run_id files snapshot
      → record_event process given event_type files ≡ ok (made, after)
      → IsStored run_id after (redacted process made)
        × IsBounded (redacted process made)
        × (made.event_sequence ≡ given.event_sequence + 1)
        × (length after.log ≡ length files.log + 1)
  record_event-IsStored {made} {after} clock e h r =
      let (n, same, log, ended, snap) = written e h r in
      let grown =
        length-append files.log (event (next_event next (redacted process next) event_type) ∷ []) in
      let number : made.event_sequence ≡ given.event_sequence + 1 =
        ap (λ (s : WorkflowRunSnapshot). s.event_sequence) same in
      let size : length after.log ≡ length files.log + 1 = ap length log ∙ omega (arith, grown) in
      (
        record {
          complete = subst (AllComplete run_id 0) (sym log) (logged_complete clock e n h.complete);
          ended = ended;
          written = snap;
          of_run =
              ap (λ (s : WorkflowRunSnapshot). s.run_id == run_id) same
              ∙ ap (λ (i : String). i == run_id) e
              ∙ ==-refl run_id;
          known = omega (arith, number, size, n);
        },
        redacted-IsBounded process made,
        number,
        size,
      )

  -- Replaying the log with the new event, over the old snapshot, ends at the new state.
  replay-logged :
      given.event_sequence ≡ length files.log
      → IsStored run_id files snapshot
      → replay (some snapshot) logged ≡ ok (some (redacted process next))
  replay-logged n h =
      let (latest, run, last) =
        replay-number run_id 0 files.log snapshot h.complete (omega arith)
          (omega (arith, h.known)) in
      let own : nat_beq (given.event_sequence + 1) (given.event_sequence + 1) ≡ true =
        ground arith in
      let later : ltb latest.event_sequence (given.event_sequence + 1) ≡ true = ground arith in
      replay-append (some snapshot) files.log (next_event next (redacted process next) event_type)
        run own
      ∙ rw later refl

  -- In the same case, what is loaded after `record`, by any process, is the snapshot that it gave
  -- with its free text redacted and bounded, as the check of the process that runs it leaves it; and
  -- that is loaded too where the program stops after the event is written and before the new
  -- snapshot is.
  pub record_event-load :
      {made : WorkflowRunSnapshot} {after : RunFiles} (reader : RunProcess)
      → (process.now == "") ≡ false
      → given.run_id ≡ run_id
      → IsStored run_id files snapshot
      → record_event process given event_type files ≡ ok (made, after)
      → let stopped = record after { snapshot = files.snapshot } in
        (load reader run_id after ≡ (
          recover_stale_presentation reader after.lease (redacted process made) >>= λ recovered.
          ok (recovered, after)))
        × (load reader run_id stopped ≡ (
            recover_stale_presentation reader after.lease (redacted process made) >>= λ recovered.
            ok (recovered, stopped)))
  record_event-load {made} {after} reader clock e h r =
      let (n, same, log, _, _) = written e h r in
      let (stored, _, number, size) = record_event-IsStored clock e h r in
      let stopped = record after { snapshot = files.snapshot } in
      (
        load-replayed reader run_id after stored.complete (
            ap (λ (c : Option WorkflowRunSnapshot). replay c after.log)
              (candidate-written reader run_id after (redacted process made) stored)
            ∙ replay-old run_id 0 after.log (redacted process made) stored.complete
                (omega (arith, number, size, n))),
        load-replayed reader run_id stopped stored.complete (
            (λ i. replay (candidate-written reader run_id files snapshot h i) (log i))
            ∙ replay-logged n h
            ∙ ap (λ (s : WorkflowRunSnapshot). ok (some (redacted process s))) (sym same)),
      )

  -- In the same case, a second record fails, of any writer, with any snapshot of the run that has the
  -- number of the given one: of two writers that start from the same state, one at most succeeds.
  pub record_event-once :
      {made : WorkflowRunSnapshot} {after : RunFiles} (writer : RunProcess)
      (other : WorkflowRunSnapshot) (again : RunEventType)
      → (process.now == "") ≡ false
      → given.run_id ≡ run_id
      → IsStored run_id files snapshot
      → record_event process given event_type files ≡ ok (made, after)
      → other.run_id ≡ run_id
      → other.event_sequence ≡ given.event_sequence
      → (second : WorkflowRunSnapshot × RunFiles)
      → ¬ (record_event writer other again after ≡ ok second)
  record_event-once {made} {after} writer other again clock e h r f same_number second twice =
      let (n, _, _, _, _) = written e h r in
      let (stored, _, number, size) = record_event-IsStored clock e h r in
      let (m, _, _) =
        record_event-writes writer run_id other again after (redacted process made) f stored
          twice in
      absurd (omega (arith, n, size, m, same_number))
