-- ===== src/RunStore/Log.antt =====
-- The log of src/devloop/persistence/run_store.py: reading it, and replaying its events.
use devloop.RunStore.{
  is_complete_event, read_events, read_valid_events, replay, newer, LogLine, event, corrupt,
  RunEvent, RunFiles,
}
use devloop.Domain.Run.{WorkflowRunSnapshot}
use devloop.Prelude.{
  ok-injective, text_same, nat_beq, ltb, ok, Option, some, true, false, List, [], ◌∷◌, ◌++◌, ℕ, suc,
  ◌+◌, ◌≤◌, String, ◌≡◌, refl, ap, sym, ◌∙◌, arith, length, inl, inr, Bool-cases,
}

-- The lines after `count` events are events of the run, numbered one after the other.
abbrev pub AllComplete : String → ℕ → List LogLine → Type 0
AllComplete run_id count [] = Unit
AllComplete run_id count (line ∷ lines) =
    (is_complete_event run_id (suc count) line ≡ true) × AllComplete run_id (suc count) lines

pub AllComplete-snoc :
    (run_id : String) (count last : ℕ) (lines : List LogLine) (line : LogLine)
    → AllComplete run_id count lines
    → last ≡ count + length lines
    → is_complete_event run_id (suc last) line ≡ true
    → AllComplete run_id count (lines ++ line ∷ [])
AllComplete-snoc run_id count last [] line h n e =
    let same : last ≡ count = omega arith in
    (ap (λ (k : ℕ). is_complete_event run_id (suc k) line) (sym same) ∙ e, tt)
AllComplete-snoc run_id count last (first ∷ lines) line (h, hs) n e =
    (h, AllComplete-snoc run_id (suc count) last lines line hs (omega arith) e)

read_events_complete :
    (run_id : String) (count : ℕ) (lines : List LogLine)
    → AllComplete run_id count lines
    → read_events run_id count lines ≡ ok (record { valid = lines; rejected = [] })
unfolding read_events
read_events_complete run_id count [] h = refl
read_events_complete run_id count (line ∷ lines) (h, hs) =
    rw h (rw (read_events_complete run_id (suc count) lines hs) refl)

pub read_valid_events_complete :
    (run_id : String) (files : RunFiles)
    → AllComplete run_id 0 files.log
    → read_valid_events run_id files ≡ ok (files.log, files)
unfolding read_valid_events
read_valid_events_complete run_id files h = rw (read_events_complete run_id 0 files.log h) refl

-- The numbers of a complete event.
complete-numbers :
    (run_id : String) (expected : ℕ) (e : RunEvent)
    → is_complete_event run_id expected (event e) ≡ true
    → (e.state.event_sequence ≡ expected) × (nat_beq e.state.event_sequence e.sequence ≡ true)
complete-numbers run_id expected e h = (ground arith, ground arith)

-- Events that are numbered up to the snapshot's number leave the snapshot.
pub replay-old :
    (run_id : String) (count : ℕ) (lines : List LogLine) (snapshot : WorkflowRunSnapshot)
    → AllComplete run_id count lines
    → count + length lines ≤ snapshot.event_sequence
    → replay (some snapshot) lines ≡ ok (some snapshot)
unfolding replay
replay-old run_id count [] snapshot h n = refl
replay-old run_id count (corrupt ∷ lines) snapshot (h, hs) n = absurd (cc h)
replay-old run_id count (event e ∷ lines) snapshot (h, hs) n =
    let (number, same) = complete-numbers run_id (suc count) e h in
    let old : ltb snapshot.event_sequence e.state.event_sequence ≡ false = ground arith in
    rw same (rw old (replay-old run_id (suc count) lines snapshot hs (omega arith)))

-- Replaying ends at the number of the last event.
pub replay-number :
    (run_id : String) (count : ℕ) (lines : List LogLine) (snapshot : WorkflowRunSnapshot)
    → AllComplete run_id count lines
    → count ≤ snapshot.event_sequence
    → snapshot.event_sequence ≤ count + length lines
    → (latest : WorkflowRunSnapshot) × (replay (some snapshot) lines ≡ ok (some latest))
      × (latest.event_sequence ≡ count + length lines)
unfolding replay
replay-number run_id count [] snapshot h low high = (snapshot, refl, omega arith)
replay-number run_id count (corrupt ∷ lines) snapshot (h, hs) low high = absurd (cc h)
replay-number run_id count (event e ∷ lines) snapshot (h, hs) low high =
    let (number, same) = complete-numbers run_id (suc count) e h in
    let next = newer (some snapshot) e.state in
    let number_low : suc count ≤ next.event_sequence = ground arith in
    let number_high : next.event_sequence ≤ suc count + length lines = ground arith in
    let (latest, run, last) =
      replay-number run_id (suc count) lines next hs number_low number_high in
    (latest, rw same run, omega arith)

pub replay-append :
    (snapshot : Option WorkflowRunSnapshot) (lines : List LogLine) (e : RunEvent)
    {latest : WorkflowRunSnapshot}
    → replay snapshot lines ≡ ok (some latest)
    → nat_beq e.state.event_sequence e.sequence ≡ true
    → replay snapshot (lines ++ event e ∷ []) ≡ ok (some (newer (some latest) e.state))
unfolding replay
replay-append snapshot [] e {latest} h same =
    let found : snapshot ≡ some latest = ok-injective h in
    rw same (ap (λ (s : Option WorkflowRunSnapshot). ok (some (newer s e.state))) found)
replay-append snapshot (corrupt ∷ lines) e h same = absurd (cc h)
replay-append snapshot (event first ∷ lines) e h same =
    elim (Bool-cases (nat_beq first.state.event_sequence first.sequence)) [
      | inl fits ↦
          rw fits (replay-append (some (newer snapshot first.state)) lines e (rw fits at h) same)
      | inr clash ↦ absurd (cc (rw clash at h))
    ]
