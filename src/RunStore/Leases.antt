-- ===== src/RunStore/Leases.antt =====
-- The lease of a run in src/devloop/persistence/run_store.py.
use devloop.RunStore.{
  RunProcess, RunFiles, record_event, take_lease, validate_lease_unlocked, lease_held,
  lease_changed,
}
use devloop.Domain.Run.{WorkflowRunSnapshot, RunLease, RunEventType}
use devloop.Prelude.{
  text_same, ◌==◌, not, ◌&&◌, nat_beq, ok, err, raise_if, >>=-eq-ok, ok-injective, raise_if-eq-ok,
  some, none, Bool, false, ◌≡◌, refl, ap, sym,
}

-- The lease of another process that runs.
abbrev pub is_held : RunProcess → RunFiles → Bool
is_held process files = elim files.lease [
  | none ↦ false
  | some current ↦
      not (nat_beq current.process_id process.process_id) && process.is_live current.process_id
]

refused :
    (process : RunProcess) (other : WorkflowRunSnapshot) (files : RunFiles) (lease : RunLease)
    → files.lease ≡ some lease
    → (lease.lease_id == other.lease.lease_id) ≡ false
    → (event_type : RunEventType) → record_event process other event_type files ≡ err lease_changed
unfolding record_event validate_lease_unlocked
refused process other files lease h differs event_type = rw h (rw differs refl)

-- A process that takes the lease of a run: no other process that runs held it, the snapshot that it
-- gets has the lease, and after that a record from a snapshot with another lease is refused, also
-- where the process records that had the lease before.
pub take_lease-refuses :
    (process : RunProcess) (lease : RunLease) (snapshot : WorkflowRunSnapshot) (files : RunFiles)
    (writer : RunProcess) (other : WorkflowRunSnapshot) (event_type : RunEventType)
    {mine : WorkflowRunSnapshot} {after : RunFiles}
    → take_lease process lease snapshot files ≡ ok (mine, after)
    → (lease.lease_id == other.lease.lease_id) ≡ false
    → (is_held process files ≡ false)
      × (mine.lease ≡ lease)
      × (record_event writer other event_type after ≡ err lease_changed)
unfolding take_lease
take_lease-refuses process lease snapshot files writer other event_type {mine} {after} h differs =
    let (_, free, r) = >>=-eq-ok (raise_if (is_held process files) lease_held) _ h in
    let pair = ok-injective r in
    (
      raise_if-eq-ok (is_held process files) lease_held free,
      ap (λ (p : WorkflowRunSnapshot × RunFiles). p.0.lease) (sym pair),
      refused writer other after lease
          (ap (λ (p : WorkflowRunSnapshot × RunFiles). p.1.lease) (sym pair)) differs event_type,
    )
