-- ===== src/Portable/Graph/Edges.antt =====
-- The dependency relation of a list of nodes, read through the number lookup of
-- src/devloop/issue_scheduler.py, and what a visit keeps.
use devloop.Prelude.{
  contains_elim, mem_of_mem-map, err, ◌≢◌, guard-eq-ok, subst, >>=-eq-ok, false≢true, String, List,
  [], ◌∷◌, ◌++◌, Memᴰ, ◌≡◌, refl, sym, ap, ◌∙◌, inl, inr, some, true, ok, ==-refl, contains,
  contains_intro, find_last-eq-some, find_last-eq-none, mem-map, Option-cases, text_same, ◌==◌,
  arith, guard, all_unique,
}
use devloop.Portable.Graph.{
  GraphError, duplicate_issues, enumerate, validate_acyclic, Marks, IssueDependencyGraph, Issue,
  validate_dependencies, build, IssueDependencyNode, number, dependencies, node_numbers,
  node_by_number, node_of, pop,
}

-- `issue_number` is the number of a node, and `dependency` is one of its dependencies.
pub record Edge (nodes : List IssueDependencyNode) (issue_number dependency : String) : Type 0 where
  pub node : IssueDependencyNode
  pub found : node_of nodes issue_number ≡ ok node
  pub depends : contains (dependencies node) dependency ≡ true

-- A path of one edge or more.
pub data Reaches (nodes : List IssueDependencyNode) : String → String → Type 0 where
  one : {a b : String} → Edge nodes a b → Reaches nodes a b
  step : {a b c : String} → Edge nodes a b → Reaches nodes b c → Reaches nodes a c

pub Reaches-trans :
    {nodes : List IssueDependencyNode} {a b c : String}
    → Reaches nodes a b
    → Reaches nodes b c
    → Reaches nodes a c
Reaches-trans (one e) r = step e r
Reaches-trans (step e q) r = step e (Reaches-trans q r)

-- The lookup answers with a node of the list that has the number.
pub node_of-eq-ok :
    (nodes : List IssueDependencyNode) (a : String) {node : IssueDependencyNode}
    → node_of nodes a ≡ ok node
    → Memᴰ node nodes × (number node ≡ a)
unfolding node_of
node_of-eq-ok nodes a {node} h = elim (Option-cases (node_by_number nodes a)) [
  | inl missing ↦ absurd (ground arith)
  | inr (n, found) ↦
      let same : n ≡ node = ground arith in
      let (m, e) = find_last-eq-some (λ x. number x == a) nodes (found ∙ ap some same) in
      (m, (text_same.same_iff (number node) a).0 e)
]

pub node_of-contains :
    (nodes : List IssueDependencyNode) (a : String) {node : IssueDependencyNode}
    → node_of nodes a ≡ ok node
    → contains (node_numbers nodes) a ≡ true
node_of-contains nodes a h =
    let (m, e) = node_of-eq-ok nodes a h in
    contains_intro (node_numbers nodes) (rw (sym e) (mem-map number nodes m))

-- Each number of the list has a node.
pub node_of_total :
    (nodes : List IssueDependencyNode) {node : IssueDependencyNode}
    → Memᴰ node nodes
    → (found : IssueDependencyNode) × (node_of nodes (number node) ≡ ok found)
unfolding node_of
node_of_total nodes {node} m = elim (Option-cases (node_by_number nodes (number node))) [
  | inl missing ↦ absurd (
      false≢true (
        sym (find_last-eq-none (λ x. number x == number node) nodes missing m)
        ∙ ==-refl (number node)))
  | inr (n, found) ↦ (n, rw found)
]

pub node_of-ne-err :
    (nodes : List IssueDependencyNode) (a : String) {error : GraphError}
    → contains (node_numbers nodes) a ≡ true
    → node_of nodes a ≢ err error
node_of-ne-err nodes a m h =
    let (node, at_node, e) = mem_of_mem-map number nodes (contains_elim (node_numbers nodes) a m) in
    let (found, total) = node_of_total nodes at_node in
    cc (subst (λ b. node_of nodes b ≡ ok found) e total)

pub pop-snoc : (xs : List String) (a : String) → pop (xs ++ a ∷ []) ≡ xs
pop-snoc [] a = refl
pop-snoc (x ∷ []) a = refl
pop-snoc (x ∷ y ∷ xs) a = ap (λ r. x ∷ r) (pop-snoc (y ∷ xs) a)

pub Reaches-contains :
    {nodes : List IssueDependencyNode} {a b : String}
    → Reaches nodes a b
    → contains (node_numbers nodes) a ≡ true
Reaches-contains {nodes} {a} (one e) = node_of-contains nodes a e.found
Reaches-contains {nodes} {a} (step e r) = node_of-contains nodes a e.found

-- What a successful `build` went through.
pub record IsBuilt (nodes : List IssueDependencyNode) : Type 0 where
  pub unique : all_unique (node_numbers nodes) ≡ true
  pub valid : validate_dependencies nodes ≡ ok tt
  pub marks : Marks
  pub acyclic : validate_acyclic nodes ≡ ok marks

pub build-parts :
    (issues : List Issue) (graph : IssueDependencyGraph)
    → build issues ≡ ok graph
    → IsBuilt graph.nodes
unfolding build
build-parts issues graph h =
    let nodes = enumerate 0 issues in
    let (_, unique, h1) =
      >>=-eq-ok (guard (all_unique (node_numbers nodes)) duplicate_issues) _ h in
    let (_, valid, h2) = >>=-eq-ok (validate_dependencies nodes) _ h1 in
    let (marks, acyclic, h3) = >>=-eq-ok (validate_acyclic nodes) _ h2 in
    let same : nodes ≡ graph.nodes = cc in
    subst IsBuilt same (record {
      unique = guard-eq-ok (all_unique (node_numbers nodes)) duplicate_issues unique;
      valid = valid;
      marks = marks;
      acyclic = acyclic;
    })
