-- ===== src/Domain/Attempts/Retries.antt =====
-- The retry limits of src/devloop/domain/scheduler.py bound the attempts and the delays.
use devloop.Prelude.{
  ◌∙◌, some, ◌-◌, [], refl, ok, ap, ◌↔◌, ◌∷◌, subst, ◌+◌, zero, ◌≡◌, arith, List, suc, ◌≤◌, ℕ,
  length,
}
use devloop.Prelude.Int.{◌+ℤ◌, pos_part, pos, ℤ}
use devloop.Domain.Attempts.{
  RetryPolicy, next_rework_attempt_number, transient_retry_delays, delays_from, delay, max_delay,
}
use native.Mathlib.Nat.{pow-suc}

-- The attempts of an issue: the number of the current one, and how many of those before it asked for
-- changes. A rework is asked for with the count that includes the current attempt; any other attempt,
-- as one that the user authorizes after a block, is not counted.
pub data Attempted (policy : RetryPolicy) : ℤ → ℕ → Type 0 where
  first : Attempted policy (pos 1) 0
  rework :
      {current next : ℤ} {requested : ℕ}
      → Attempted policy current requested
      → next_rework_attempt_number policy current (some (pos (requested + 1))) ≡ ok (some next)
      → Attempted policy next (requested + 1)
  other :
      {current : ℤ} {requested : ℕ}
      → Attempted policy current requested
      → Attempted policy (current +ℤ pos 1) requested

plus_one : (k : ℕ) → (pos k +ℤ pos 1) ≡ pos (k + 1)
unfolding ◌+ℤ◌
plus_one k = ground arith

abbrev IsAllowed : RetryPolicy → ℤ → ℕ → Type 0
IsAllowed policy n requested =
    (k : ℕ) × (n ≡ pos k) × (requested + 1 ≤ k) × (requested ≤ policy.max_rework_cycles_per_issue)

next-IsAllowed :
    (policy : RetryPolicy) (k requested : ℕ) {next : ℤ}
    → requested + 1 ≤ k
    → next_rework_attempt_number policy (pos k) (some (pos (requested + 1))) ≡ ok (some next)
    → IsAllowed policy next (requested + 1)
unfolding next_rework_attempt_number ◌+ℤ◌
next-IsAllowed policy k requested h e = (k + 1, ground arith, omega arith, ground arith)

Attempted-IsAllowed :
    (policy : RetryPolicy) {n : ℤ} {requested : ℕ}
    → Attempted policy n requested
    → IsAllowed policy n requested
unfolding ◌+ℤ◌
Attempted-IsAllowed policy first = (1, refl, omega arith, omega arith)
Attempted-IsAllowed policy (rework {next = next} {requested = requested} a h) =
    let (k, same, low, _) = Attempted-IsAllowed policy a in
    next-IsAllowed policy k requested low (
      subst (λ c. next_rework_attempt_number policy c (some (pos (requested + 1))) ≡ ok (some next))
        same h)
Attempted-IsAllowed policy (other a) =
    let (k, same, low, high) = Attempted-IsAllowed policy a in
    (k + 1, ap (λ c. c +ℤ pos 1) same ∙ plus_one k, omega arith, high)

next-eq :
    (policy : RetryPolicy) (requested : ℕ)
    → requested + 1 ≤ policy.max_rework_cycles_per_issue
    → next_rework_attempt_number policy (pos (requested + 1)) (some (pos (requested + 1)))
      ≡ ok (some (pos (requested + 2)))
unfolding next_rework_attempt_number ◌+ℤ◌
next-eq policy requested h = ground arith

-- As many attempts as reworks were asked for, and the first.
reworks :
    (policy : RetryPolicy) (requested : ℕ)
    → requested ≤ policy.max_rework_cycles_per_issue
    → Attempted policy (pos (requested + 1)) requested
reworks policy zero h = first
reworks policy (suc requested) h =
    let a = reworks policy requested (omega arith) in
    let e : requested + 1 ≡ suc requested = omega arith in
    let e2 : requested + 2 ≡ suc requested + 1 = omega arith in
    subst (λ (r : ℕ). Attempted policy (pos (suc requested + 1)) r) e
      (subst (λ (k : ℕ). Attempted policy (pos k) (requested + 1)) e2
        (rework a (next-eq policy requested (omega arith))))

others :
    (policy : RetryPolicy) (more requested : ℕ)
    → requested ≤ policy.max_rework_cycles_per_issue
    → Attempted policy (pos (more + (requested + 1))) requested
unfolding ◌+ℤ◌
others policy zero requested h =
    let e : requested + 1 ≡ zero + (requested + 1) = omega arith in
    subst (λ (k : ℕ). Attempted policy (pos k) requested) e (reworks policy requested h)
others policy (suc more) requested h =
    let e : more + (requested + 1) + 1 ≡ suc more + (requested + 1) = omega arith in
    subst (λ (c : ℤ). Attempted policy c requested) (plus_one (more + (requested + 1)) ∙ ap pos e)
      (other (others policy more requested h))

pub Attempted-iff :
    (policy : RetryPolicy) (k requested : ℕ)
    → Attempted policy (pos k) requested
      ↔ ((requested + 1 ≤ k) × (requested ≤ policy.max_rework_cycles_per_issue))
Attempted-iff policy k requested = (
  λ a.
      let (j, same, low, high) = Attempted-IsAllowed policy a in
      let e : k ≡ j = ap pos_part same in (rw e low, high),
  λ (low, high).
      let e : k - (requested + 1) + (requested + 1) ≡ k = omega arith in
      subst (λ (n : ℕ). Attempted policy (pos n) requested) e
        (others policy (k - (requested + 1)) requested high),
)

-- Every delay lies between the base and the maximum, and no delay is shorter than the one before.
abbrev pub IsBackoff : ℕ → List ℕ → Type 0
IsBackoff least [] = Unit
IsBackoff least (d ∷ rest) = (least ≤ d) × (d ≤ max_delay) × IsBackoff d rest

delay_mono : (start : ℕ) → (delay start ≤ delay (suc start)) × (delay start ≤ max_delay)
delay_mono start = rw (pow-suc 2 start) (ground arith)

delays-IsBackoff :
    (count start least : ℕ) → least ≤ delay start → IsBackoff least (delays_from start count)
unfolding delays_from
delays-IsBackoff zero start least h = tt
delays-IsBackoff (suc count) start least h =
    (h, (delay_mono start).1, delays-IsBackoff count (suc start) (delay start) (delay_mono start).0)

length-delays_from : (count start : ℕ) → length (delays_from start count) ≡ count
unfolding delays_from
length-delays_from zero start = refl
length-delays_from (suc count) start = ap suc (length-delays_from count (suc start))

-- There are as many transient delays as retries; they begin with the base delay or more, never
-- shrink and never exceed the maximum.
pub transient_delays_lem :
    (policy : RetryPolicy)
    → (length (transient_retry_delays policy) ≡ policy.max_transient_backend_retries)
      × IsBackoff 1 (transient_retry_delays policy)
unfolding transient_retry_delays
transient_delays_lem policy = (
  length-delays_from policy.max_transient_backend_retries 0,
  delays-IsBackoff policy.max_transient_backend_retries 0 1 (omega arith),
)
