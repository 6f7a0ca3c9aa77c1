-- ===== src/Portable/Graph/Samples.antt =====
-- Issue packs, what src/devloop/issue_scheduler.py builds of them, and the theorems at these inputs.
use devloop.Prelude.{true, ◌↔◌, refl, [], ok, false, err, Bool, ◌∷◌, ◌≡◌, List, String}
use devloop.Portable.Graph.{
  Issue, build, node_of, check_node, check_dependency, validate_dependencies, validate_acyclic,
  visit, visit_each, dependency_cycle, unknown_dependency,
}
use devloop.Portable.Graph.Accepts.{IsWellFormed, graph_of, build_iff}
use devloop.Portable.Graph.Errors.{Explains, build-eq-err}

abbrev pub issue : String → Bool → List String → Issue
issue number completed dependencies = record {
  number = number;
  title = "";
  path = "";
  completed = completed;
  dependencies = dependencies;
}

abbrev pub pack : List Issue
pack = issue "3" false ("1" ∷ "2" ∷ []) ∷ issue "1" true [] ∷ issue "2" false ("1" ∷ []) ∷ []

abbrev cyclic : List Issue
cyclic = issue "1" false ("2" ∷ []) ∷ issue "2" false ("3" ∷ []) ∷ issue "3" false ("2" ∷ []) ∷ []

abbrev dangling : List Issue
dangling = issue "1" false ("7" ∷ []) ∷ []

building : Unit {0}
unfolding build validate_dependencies check_node check_dependency validate_acyclic visit visit_each
    node_of
building = tt

build-pack : build pack ≡ ok (graph_of pack)
unfolding building
build-pack = refl

build-cyclic : build cyclic ≡ err (dependency_cycle ("2" ∷ "3" ∷ "2" ∷ []))
unfolding building
build-cyclic = refl

build-dangling : build dangling ≡ err (unknown_dependency "1" "7")
unfolding building
build-dangling = refl

build_iff_example : (build pack ≡ ok (graph_of pack)) ↔ IsWellFormed pack
build_iff_example = build_iff pack

build-eq-err_example : Explains cyclic (dependency_cycle ("2" ∷ "3" ∷ "2" ∷ []))
build-eq-err_example = build-eq-err cyclic (dependency_cycle ("2" ∷ "3" ∷ "2" ∷ [])) build-cyclic
