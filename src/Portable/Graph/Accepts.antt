-- ===== src/Portable/Graph/Accepts.antt =====
-- `IssueDependencyGraph(issues)` (src/devloop/issue_scheduler.py) accepts exactly the well-formed
-- issue lists.
use devloop.Portable.Graph.Repeats.{OccursTwice-refutes}
use devloop.Portable.Graph.Order.{build-ne-cycle}
use devloop.Portable.Graph.Walks.{IsCycle-Reaches}
use devloop.Portable.Graph.Edges.{
  node_of_total, step, build-parts, one, node_of-eq-ok, Reaches, Edge,
}
use devloop.Portable.Graph.{
  out_of_fuel, negative_passes, unfinished_dependency, unknown_issue, validate_acyclic,
  dependencies, node_of, dependency_cycle, duplicate_issues, node_numbers, unknown_dependency,
  number, self_dependency, IssueDependencyNode, check_node, enumerate, duplicate_dependency,
  validate_dependencies, GraphError, build, IssueDependencyGraph, Issue,
}
use devloop.Prelude.{
  none, some, refl, eq_of_same_key, [], guard-eq-ok, subst, suc, inr, for_each-eq-ok, all_unique,
  sym, guard, ◌∙◌, false≢true, all_unique→Distinct, inl, ◌↔◌, text_same, >>=-eq-ok, ap,
  Result-cases, true, ok, ◌∷◌, ◌≡◌, contains, Distinct, Memᴰ, String, ℕ, List,
}
use devloop.Portable.Graph.Errors.{
  Depends, issue_numbers, Explains, node_numbers-enumerate, mem_of_mem-enumerate, AllKnown_of_valid,
  build-eq-err,
}
use mathlib.Core.List.Memᴰ

-- The issue needs the other one, over one declared dependency or more.
pub data Requires (issues : List Issue) : String → String → Type 0 where
  direct : {a b : String} → Depends issues a b → Requires issues a b
  through : {a b c : String} → Depends issues a b → Requires issues b c → Requires issues a c

pub record IsWellFormed (issues : List Issue) : Type 0 where
  pub unique : Distinct (issue_numbers issues)
  pub unrepeated : (issue : Issue) → Memᴰ issue issues → Distinct issue.dependencies
  pub known : (a b : String) → Depends issues a b → contains (issue_numbers issues) b ≡ true
  pub acyclic : (a : String) → ¬ Requires issues a a

abbrev pub graph_of : List Issue → IssueDependencyGraph
graph_of issues = record { nodes = enumerate 0 issues }

mem-enumerate :
    (i : ℕ) (issues : List Issue) {issue : Issue}
    → Memᴰ issue issues
    → (node : IssueDependencyNode) × Memᴰ node (enumerate i issues) × (node.issue ≡ issue)
mem-enumerate i [] m = elim m [ ]
mem-enumerate i (first ∷ issues) {issue} m = elim (Memᴰ.cases_cons m) [
  | inl e ↦ (record { issue = first; index = i }, Memᴰ.head refl, sym e)
  | inr n ↦ let (node, at_node, e) = mem-enumerate (suc i) issues n in (node, Memᴰ.tail at_node, e)
]

module _ (issues : List Issue) where
  Edge→Depends : {a b : String} → Edge (enumerate 0 issues) a b → Depends issues a b
  Edge→Depends {a} e =
      let (m, named) = node_of-eq-ok (enumerate 0 issues) a e.found in
      record {
        issue = e.node.issue;
        listed = mem_of_mem-enumerate 0 issues m;
        named = named;
        declares = e.depends;
      }

  Reaches→Requires : {a b : String} → Reaches (enumerate 0 issues) a b → Requires issues a b
  Reaches→Requires (one e) = direct (Edge→Depends e)
  Reaches→Requires (step e r) = through (Edge→Depends e) (Reaches→Requires r)

  -- A well-formed list makes every error false.
  IsWellFormed-refutes : IsWellFormed issues → (error : GraphError) → ¬ Explains issues error
  IsWellFormed-refutes w duplicate_issues x = x w.unique
  IsWellFormed-refutes w (duplicate_dependency a none) x = x
  IsWellFormed-refutes w (duplicate_dependency a (some d)) (issue, m, _, twice) =
      OccursTwice-refutes issue.dependencies d twice (w.unrepeated issue m)
  IsWellFormed-refutes w (self_dependency a) x = w.acyclic a (direct x)
  IsWellFormed-refutes w (unknown_dependency a d) (x, unknown) =
      false≢true (sym unknown ∙ w.known a d x)
  IsWellFormed-refutes w (dependency_cycle cycle) c =
      w.acyclic c.start (Reaches→Requires (IsCycle-Reaches (enumerate 0 issues) c))
  IsWellFormed-refutes w (unknown_issue a) x = x
  IsWellFormed-refutes w (unfinished_dependency a d) x = x
  IsWellFormed-refutes w negative_passes x = x
  IsWellFormed-refutes w out_of_fuel x = x

  build-eq-graph_of :
      {graph : IssueDependencyGraph} → build issues ≡ ok graph → graph ≡ graph_of issues
  unfolding build
  build-eq-graph_of h =
      let nodes = enumerate 0 issues in
      let (_, _, h1) = >>=-eq-ok (guard (all_unique (node_numbers nodes)) duplicate_issues) _ h in
      let (_, _, h2) = >>=-eq-ok (validate_dependencies nodes) _ h1 in
      let (_, _, h3) = >>=-eq-ok (validate_acyclic nodes) _ h2 in cc

  build_of_IsWellFormed : IsWellFormed issues → build issues ≡ ok (graph_of issues)
  build_of_IsWellFormed w = elim (Result-cases (build issues)) [
    | inl (graph, built) ↦ rw (sym (build-eq-graph_of built)) built
    | inr (error, fails) ↦ absurd (IsWellFormed-refutes w error (build-eq-err issues error fails))
  ]

  module _ (unique : Distinct (issue_numbers issues)) where
    Depends→Edge : {a b : String} → Depends issues a b → Edge (enumerate 0 issues) a b
    Depends→Edge {a} {b} d =
        let nodes = enumerate 0 issues in
        let (node, m, same) = mem-enumerate 0 issues d.listed in
        let named : number node ≡ a = ap (λ (i : Issue). i.number) same ∙ d.named in
        let (found, total) = node_of_total nodes m in
        let looked : node_of nodes a ≡ ok found =
          subst (λ n. node_of nodes n ≡ ok found) named total in
        let (at_found, found_named) = node_of-eq-ok nodes a looked in
        let one_node : found ≡ node =
          eq_of_same_key number nodes
            (subst Distinct (sym (node_numbers-enumerate 0 issues)) unique) at_found m
            (found_named ∙ sym named) in
        record {
          node = found;
          found = looked;
          depends =
              subst (λ (i : Issue). contains i.dependencies b ≡ true)
                (sym (ap (λ (n : IssueDependencyNode). n.issue) one_node ∙ same)) d.declares;
        }

    Requires→Reaches : {a b : String} → Requires issues a b → Reaches (enumerate 0 issues) a b
    Requires→Reaches (direct d) = one (Depends→Edge d)
    Requires→Reaches (through d r) = step (Depends→Edge d) (Requires→Reaches r)

  pub IsWellFormed-of_build : build issues ≡ ok (graph_of issues) → IsWellFormed issues
  unfolding validate_dependencies check_node
  IsWellFormed-of_build h =
      let nodes = enumerate 0 issues in
      let parts = build-parts issues (graph_of issues) h in
      let unique =
        rw (node_numbers-enumerate 0 issues) at
          (all_unique→Distinct (node_numbers nodes) parts.unique) in
      record {
        unique = unique;
        unrepeated = λ issue m.
            let (node, at_node, same) = mem-enumerate 0 issues m in
            let checked = for_each-eq-ok (check_node nodes) nodes parts.valid at_node in
            let (_, passed, _) = >>=-eq-ok (guard (all_unique (dependencies node)) _) _ checked in
            subst (λ (i : Issue). Distinct i.dependencies) same
              (all_unique→Distinct (dependencies node) (guard-eq-ok _ _ passed));
        known = λ a b d.
            rw (node_numbers-enumerate 0 issues) at
              (AllKnown_of_valid nodes parts.valid a b (Depends→Edge unique d));
        acyclic = λ a r. build-ne-cycle issues (graph_of issues) h a (Requires→Reaches unique r);
      }

  -- The graph is built, with the issues as nodes in their order, exactly when no number occurs
  -- twice, no issue declares a dependency twice, every dependency is the number of an issue, and no
  -- issue needs itself over one dependency or more.
  pub build_iff : (build issues ≡ ok (graph_of issues)) ↔ IsWellFormed issues
  build_iff = (IsWellFormed-of_build, build_of_IsWellFormed)
