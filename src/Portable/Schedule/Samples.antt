-- ===== src/Portable/Schedule/Samples.antt =====
-- A scheduler over three issues, and the theorems about src/devloop/issue_scheduler.py at it.
use devloop.Prelude.Int.{pos}
use devloop.Prelude.{
  text_same, all_elim, arith, ◌||◌, contains, not, refl, true, ◌↔◌, ok, Bool, [], Memᴰ, ap, false,
  some, none, List, String, ◌≡◌, ◌∷◌, ◌≢◌,
}
use devloop.Portable.Graph.{
  build, validate_dependencies, check_node, check_dependency, validate_acyclic, visit, visit_each,
  node_of, number, Issue, IssueDependencyNode, validate_selection,
}
use devloop.Portable.Schedule.{
  new_scheduler, DependencyScheduler, ProjectInput, SchedulingPhase, SchedulingProjection, project,
}
use devloop.Portable.Schedule.Choice.{
  IsNormal, IsBlockerChoice, IsReady, next_normal_lem, next_blocker_lem,
}
use devloop.Portable.Schedule.Progress.{AllDone, complete_iff, project_progress}
use devloop.Portable.Graph.Accepts.{graph_of}

abbrev issue : String → Bool → List String → Issue
issue number completed dependencies = record {
  number = number;
  title = "";
  path = "";
  completed = completed;
  dependencies = dependencies;
}

abbrev pack : List Issue
pack = issue "3" false ("1" ∷ "2" ∷ []) ∷ issue "1" true [] ∷ issue "2" false ("1" ∷ []) ∷ []

abbrev chosen_issues : List Issue
chosen_issues = issue "3" false ("1" ∷ "2" ∷ []) ∷ issue "2" false ("1" ∷ []) ∷ []

abbrev scheduler : DependencyScheduler
scheduler = record {
  graph = graph_of pack;
  blocker_resolution_passes = 5;
  selected = "3" ∷ "2" ∷ [];
}

abbrev input : ProjectInput
input = record {
  completed = "1" ∷ [];
  normal_attempted = "2" ∷ [];
  additional_passes = ("2", 3) ∷ [];
  non_retryable = [];
  allow_blocker_resolution = true;
}

abbrev second : IssueDependencyNode
second = record { issue = issue "2" false ("1" ∷ []); index = 2 }

building : Unit {0}
unfolding build validate_dependencies check_node check_dependency validate_acyclic visit visit_each
    node_of validate_selection
building = tt

new_scheduler_run : new_scheduler (graph_of pack) (some ("3" ∷ "2" ∷ [])) (pos 5) ≡ ok scheduler
unfolding new_scheduler node_of
new_scheduler_run = refl

project_run : project scheduler input ≡ record {
  phase = SchedulingPhase.blocker_resolution;
  next_normal = none;
  next_blocker = some second;
  blocker_round = some 4;
  ready = second ∷ [];
  waiting_dependencies = ("3", "2" ∷ []) ∷ [];
  exhausted_blockers = [];
}
unfolding project
project_run = refl

build-pack : build pack ≡ ok (graph_of pack)
unfolding building
build-pack = refl

select-pack : validate_selection (graph_of pack) chosen_issues ≡ ok tt
unfolding building
select-pack = refl

implies : (b c : Bool) → (not b || c) ≡ true → b ≡ true → c ≡ true
implies b c h k = ground arith

recorded :
    (node : IssueDependencyNode)
    → Memᴰ node scheduler.graph.nodes
    → node.issue.completed ≡ true
    → contains input.completed (number node) ≡ true
recorded node m h =
    implies node.issue.completed (contains input.completed (number node))
      (all_elim
        (λ (n : IssueDependencyNode). not n.issue.completed || contains input.completed (number n))
        scheduler.graph.nodes refl m)
      h

next_normal_example :
    ((node : IssueDependencyNode)
      → (project scheduler input).next_normal ≡ some node
      → IsNormal scheduler input node)
    × ((project scheduler input).next_normal ≡ none
        → (node : IssueDependencyNode) → ¬ IsNormal scheduler input node)
next_normal_example = next_normal_lem scheduler input

blocker_chosen : (project scheduler input).next_blocker ≡ some second
unfolding project
blocker_chosen = refl

next_blocker_example :
    IsBlockerChoice scheduler input second (project scheduler input).blocker_round
next_blocker_example = next_blocker_lem scheduler input second blocker_chosen

complete_example :
    ((project scheduler input).phase ≡ SchedulingPhase.complete) ↔ AllDone scheduler input
complete_example = complete_iff scheduler input

not_complete : (project scheduler input).phase ≢ SchedulingPhase.complete
not_complete h = cc (ap (λ (p : SchedulingProjection). p.phase) project_run)

project_progress_example :
    (node : IssueDependencyNode) × IsReady scheduler input node
    × Memᴰ node (project scheduler input).ready
project_progress_example =
    project_progress pack scheduler input chosen_issues build-pack refl select-pack recorded
      not_complete
