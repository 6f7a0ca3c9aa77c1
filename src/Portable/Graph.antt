-- ===== src/Portable/Graph.antt =====
-- `Issue` of src/devloop/issue_pack.py and `IssueDependencyGraph` of
-- src/devloop/issue_scheduler.py. The texts of the error messages are not modelled: an error keeps
-- its kind and the issue numbers that it names. The dict `_nodes_by_number` is a function of
-- `_nodes`: the last node with a number is its value.
pub mod Edges
pub mod Walks
pub mod Order
pub mod Cycles
pub mod Repeats
pub mod Errors
pub mod Accepts
mod Samples
use devloop.Prelude.{
  ℕ, zero, suc, ◌+◌, String, List, [], ◌∷◌, ◌++◌, map, Option, Bool, true, false, not, ◌||◌, Result,
  ok, err, guard, raise_if, or_raise, for_each, ◌>>=◌, ◌>>◌, ◌==◌, contains, add, all_unique,
  length, find, find_last, keep, ltb, if◌then◌else◌, text_same,
}

-- `path` is the text of the path; the title is kept as the field that it is.
pub record Issue : Type 0 where
  pub number : String
  pub title : String
  pub path : String
  pub completed : Bool
  pub dependencies : List String

pub record IssueDependencyNode : Type 0 where
  pub issue : Issue
  pub index : ℕ

abbrev pub number : IssueDependencyNode → String
number node = node.issue.number

abbrev pub dependencies : IssueDependencyNode → List String
dependencies node = node.issue.dependencies

pub data GraphError : Type 0 where
  duplicate_issues : GraphError
  duplicate_dependency : (issue_number : String) (duplicate : Option String) → GraphError
  self_dependency : (issue_number : String) → GraphError
  unknown_dependency : (issue_number dependency : String) → GraphError
  dependency_cycle : (cycle : List String) → GraphError
  unknown_issue : (issue_number : String) → GraphError
  unfinished_dependency : (issue_number dependency : String) → GraphError
  negative_passes : GraphError
  out_of_fuel : GraphError

pub record IssueDependencyGraph : Type 0 where
  pub nodes : List IssueDependencyNode

-- `enumerate(issues)`, from a first index.
abbrev pub enumerate : ℕ → List Issue → List IssueDependencyNode
enumerate index [] = []
enumerate index (issue ∷ issues) =
    record { issue = issue; index = index } ∷ enumerate (suc index) issues

abbrev pub node_numbers : List IssueDependencyNode → List String
node_numbers nodes = map number nodes

-- `self._nodes_by_number.get(issue_number)`
abbrev pub node_by_number : List IssueDependencyNode → String → Option IssueDependencyNode
node_by_number nodes issue_number = find_last (λ node. number node == issue_number) nodes

unfoldable pub node_of : List IssueDependencyNode → String → Result GraphError IssueDependencyNode
node_of nodes issue_number =
    or_raise (unknown_issue issue_number) (node_by_number nodes issue_number)

-- `tuple.count`
abbrev pub count : String → List String → ℕ
count a xs = length (keep (λ x. x == a) xs)

unfoldable pub check_dependency :
    List IssueDependencyNode → IssueDependencyNode → String → Result GraphError Unit
check_dependency nodes node dependency = do
  raise_if (dependency == number node) (self_dependency (number node))
  guard (contains (node_numbers nodes) dependency) (unknown_dependency (number node) dependency)

unfoldable pub check_node : List IssueDependencyNode → IssueDependencyNode → Result GraphError Unit
check_node nodes node = do
  guard (all_unique (dependencies node)) (
      duplicate_dependency (number node)
        (find (λ dependency. ltb 1 (count dependency (dependencies node))) (dependencies node)))
  for_each (check_dependency nodes node) (dependencies node)

unfoldable pub validate_dependencies : List IssueDependencyNode → Result GraphError Unit
validate_dependencies nodes = for_each (check_node nodes) nodes

-- The two local collections of `_validate_acyclic`.
pub record Marks : Type 0 where
  pub visited : List String
  pub active : List String

-- `active[active.index(issue_number):]`
abbrev pub from_first : String → List String → List String
from_first a [] = []
from_first a (x ∷ xs) = if x == a then x ∷ xs else from_first a xs

-- `active.pop()`
abbrev pub pop : List String → List String
pop [] = []
pop (x ∷ []) = []
pop (x ∷ y ∷ xs) = x ∷ pop (y ∷ xs)

-- A `for` loop that threads the marks through `visit`.
unfoldable pub visit_each :
    (String → Marks → Result GraphError Marks) → List String → Marks → Result GraphError Marks
visit_each step [] marks = ok marks
visit_each step (a ∷ rest) marks = step a marks >>= visit_each step rest

-- The end of a visit: `active.pop()` and `visited.add(issue_number)`.
abbrev pub leave : String → Marks → Marks
leave issue_number marks = record {
  visited = add marks.visited issue_number;
  active = pop marks.active;
}

abbrev pub enter : String → Marks → Marks
enter issue_number marks = record marks { active = marks.active ++ issue_number ∷ [] }

-- The local function `visit`, on fuel that bounds the depth of the recursion.
unfoldable pub visit : List IssueDependencyNode → ℕ → String → Marks → Result GraphError Marks
visit nodes zero issue_number marks = err out_of_fuel
visit nodes (suc fuel) issue_number marks =
    if contains marks.active issue_number
    then err (dependency_cycle (from_first issue_number marks.active ++ issue_number ∷ []))
    else if contains marks.visited issue_number
    then ok marks
    else node_of nodes issue_number >>= λ node.
        visit_each (visit nodes fuel) (dependencies node) (enter issue_number marks) >>= λ after.
        ok (leave issue_number after)

abbrev pub no_marks : Marks
no_marks = record { visited = []; active = [] }

-- Every visit below another one has a longer path of distinct nodes, so one more than the number of
-- nodes is enough.
unfoldable pub validate_acyclic : List IssueDependencyNode → Result GraphError Marks
unfolding visit_each
validate_acyclic nodes = visit_each (visit nodes (length nodes + 1)) (node_numbers nodes) no_marks

-- `IssueDependencyGraph(issues)`
unfoldable pub build : List Issue → Result GraphError IssueDependencyGraph
build issues = do
  let nodes = enumerate 0 issues
  guard (all_unique (node_numbers nodes)) duplicate_issues
  validate_dependencies nodes
  validate_acyclic nodes
  ok (record { nodes = nodes })

-- The two tests on one dependency of a selected issue.
unfoldable pub check_selected_dependency :
    IssueDependencyGraph → List String → String → String → Result GraphError Unit
check_selected_dependency graph selected_numbers issue_number dependency_number = do
  dependency ← node_of graph.nodes dependency_number
  guard (dependency.issue.completed || contains selected_numbers dependency_number)
      (unfinished_dependency issue_number dependency_number)

-- The iteration order over the set `selected_numbers` decides only which error is raised first.
unfoldable pub validate_selection : IssueDependencyGraph → List Issue → Result GraphError Unit
unfolding check_selected_dependency
validate_selection graph selected =
    let selected_numbers = map (λ issue. issue.number) selected in
    for_each
      (λ issue_number. do
        node ← node_of graph.nodes issue_number
        for_each (check_selected_dependency graph selected_numbers issue_number)
            (dependencies node))
      selected_numbers
