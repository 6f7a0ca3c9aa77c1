-- ===== src/Portable/Schedule.antt =====
-- `DependencyScheduler` of src/devloop/issue_scheduler.py. Sets of numbers are lists with the
-- membership test, the mapping `additional_passes` is a list of pairs, and a pass count is a
-- natural number. The dict of waiting dependencies keeps its entries in the order of insertion.
pub mod Progress
pub mod Choice
mod Samples
use devloop.Prelude.{
  ℕ, suc, ◌+◌, String, List, [], ◌∷◌, Option, none, some, Bool, true, false, not, ◌&&◌, ◌||◌,
  Result, ok, err, for_each, ◌>>=◌, ◌>>◌, contains, find, find_last, keep, ltb, leb, nat_beq,
  if◌then◌else◌, text_same, ◌==◌, map,
}
use devloop.Prelude.Int.{ℤ, pos, negsuc}
use devloop.Portable.Graph.{
  IssueDependencyNode, IssueDependencyGraph, GraphError, negative_passes, number, dependencies,
  node_numbers, node_of,
}

pub data SchedulingPhase : Type 0 where
  normal_scheduling blocker_resolution complete exhausted run_paused : SchedulingPhase

pub record SchedulingProjection : Type 0 where
  pub phase : SchedulingPhase
  pub next_normal : Option IssueDependencyNode
  pub next_blocker : Option IssueDependencyNode
  pub blocker_round : Option ℕ
  pub ready : List IssueDependencyNode
  pub waiting_dependencies : List (String × List String)
  pub exhausted_blockers : List IssueDependencyNode

pub record DependencyScheduler : Type 0 where
  pub graph : IssueDependencyGraph
  pub blocker_resolution_passes : ℕ
  pub selected : List String

abbrev selection : IssueDependencyGraph → Option (List String) → List String
selection graph none = node_numbers graph.nodes
selection graph (some numbers) = numbers

-- `DependencyScheduler(graph, selected_issue_numbers, blocker_resolution_passes)`
unfoldable pub new_scheduler :
    IssueDependencyGraph → Option (List String) → ℤ → Result GraphError DependencyScheduler
new_scheduler graph selected_issue_numbers (negsuc _) = err negative_passes
new_scheduler graph selected_issue_numbers (pos passes) = do
  let selected = selection graph selected_issue_numbers
  for_each (λ issue_number. node_of graph.nodes issue_number >>= λ _. ok tt) selected
  ok (record { graph = graph; blocker_resolution_passes = passes; selected = selected })

-- The keyword arguments of `project`.
pub record ProjectInput : Type 0 where
  pub completed : List String
  pub normal_attempted : List String
  pub additional_passes : List (String × ℕ)
  pub non_retryable : List String
  pub allow_blocker_resolution : Bool

-- `additional.get(issue_number, 0)`
abbrev pub passes_of : List (String × ℕ) → String → ℕ
passes_of [] issue_number = 0
passes_of ((a, n) ∷ rest) issue_number =
    if a == issue_number then n else passes_of rest issue_number

module _ (s : DependencyScheduler) (input : ProjectInput) where
  -- The node is selected and not completed: the loop over the nodes does not skip it.
  unfoldable pub is_open : IssueDependencyNode → Bool
  is_open node = contains s.selected (number node) && not (contains input.completed (number node))

  unfoldable pub incomplete : IssueDependencyNode → List String
  incomplete node =
      keep (λ dependency. not (contains input.completed dependency)) (dependencies node)

  abbrev is_nil : List String → Bool
  is_nil [] = true
  is_nil (_ ∷ _) = false

  -- The two collections that the loop over the nodes fills.
  unfoldable pub ready_nodes : List IssueDependencyNode → List IssueDependencyNode
  unfolding is_open incomplete
  ready_nodes = keep (λ node. is_open node && is_nil (incomplete node))

  unfoldable pub waiting_nodes : List IssueDependencyNode → List IssueDependencyNode
  unfolding is_open incomplete
  waiting_nodes = keep (λ node. is_open node && not (is_nil (incomplete node)))

  -- The test of `next_normal`.
  unfoldable pub is_normal : IssueDependencyNode → Bool
  is_normal node =
      not (contains input.normal_attempted (number node))
      && not (contains input.non_retryable (number node))

  -- The test of `eligible_blockers`.
  unfoldable pub is_eligible : IssueDependencyNode → Bool
  is_eligible node =
      contains input.normal_attempted (number node)
      && not (contains input.non_retryable (number node))
      && input.allow_blocker_resolution
      && ltb (passes_of input.additional_passes (number node)) s.blocker_resolution_passes

  -- The test of `exhausted_blockers`.
  unfoldable pub is_exhausted : IssueDependencyNode → Bool
  is_exhausted node =
      contains input.normal_attempted (number node)
      && leb s.blocker_resolution_passes (passes_of input.additional_passes (number node))

  -- The order of the keys `(additional.get(node.number, 0), node.index)`.
  unfoldable pub before : IssueDependencyNode → IssueDependencyNode → Bool
  before a b =
      let p = passes_of input.additional_passes (number a) in
      let q = passes_of input.additional_passes (number b) in
      ltb p q || (nat_beq p q && ltb a.index b.index)

  -- `min(nodes, key=...)`, which keeps the first of equal keys, on a list that begins with `best`.
  unfoldable pub least : IssueDependencyNode → List IssueDependencyNode → IssueDependencyNode
  least best [] = best
  least best (node ∷ rest) = least (if before node best then node else best) rest

  unfoldable pub least_of : List IssueDependencyNode → Option IssueDependencyNode
  unfolding least
  least_of [] = none
  least_of (node ∷ rest) = some (least node rest)

  abbrev is_none : {A : Type 0} → List A → Bool
  is_none [] = true
  is_none (_ ∷ _) = false

  unfoldable pub phase_of :
      Option IssueDependencyNode
      → Option IssueDependencyNode
      → List IssueDependencyNode
      → List IssueDependencyNode
      → SchedulingPhase
  phase_of (some _) next_blocker ready waiting = normal_scheduling
  phase_of none (some _) ready waiting = blocker_resolution
  phase_of none none [] [] = complete
  phase_of none none _ _ = exhausted

  unfoldable pub round_of : Option IssueDependencyNode → Option ℕ
  round_of none = none
  round_of (some node) = some (passes_of input.additional_passes (number node) + 1)

  unfoldable pub project : SchedulingProjection
  unfolding ready_nodes waiting_nodes is_normal is_eligible is_exhausted least_of before phase_of
      round_of
  project =
      let ready = ready_nodes s.graph.nodes in
      let waiting = waiting_nodes s.graph.nodes in
      let next_normal = find is_normal ready in
      let next_blocker = least_of (keep is_eligible ready) in
      record {
        phase = phase_of next_normal next_blocker ready waiting;
        next_normal = next_normal;
        next_blocker = next_blocker;
        blocker_round = round_of next_blocker;
        ready = ready;
        waiting_dependencies = map (λ node. (number node, incomplete node)) waiting;
        exhausted_blockers = keep is_exhausted ready;
      }
