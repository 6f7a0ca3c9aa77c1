-- ===== src/Portable/Graph/Errors.antt =====
-- Every error of `IssueDependencyGraph(issues)` (src/devloop/issue_scheduler.py) says something
-- true of the issues.
use devloop.Portable.Graph.Repeats.{OccursTwice, find_repeated}
use devloop.Portable.Graph.Walks.{IsCycle}
use devloop.Portable.Graph.Edges.{node_of-eq-ok, Edge}
use devloop.Portable.Graph.{
  out_of_fuel, negative_passes, duplicate_issues, no_marks, unfinished_dependency, unknown_issue,
  number, visit, unknown_dependency, self_dependency, dependency_cycle, dependencies,
  duplicate_dependency, enumerate, node_numbers, GraphError, Issue, check_node, IssueDependencyNode,
  validate_dependencies, validate_acyclic, check_dependency, build,
}
use devloop.Prelude.{
  none, some, >>=-eq-err, Distinct→all_unique, ◌∙◌, sym, contains_elim, false≢true, guard, subst,
  refl, ◌+◌, >>=-eq-ok, [], arith, false, length, err-injective, contains_intro, inl, suc, inr,
  for_each-eq-ok, ap, text_same, all_unique, ◌==◌, for_each-eq-err, true, Bool-cases, ◌∷◌, Distinct,
  contains, ok, err, map, String, Memᴰ, ◌≡◌, ℕ, List,
}
use devloop.Portable.Graph.Cycles.{visit-eq-err, visit-keeps, visit_each-fails}
use mathlib.Core.List.Memᴰ

-- An issue of the list has the number, and it declares the dependency.
pub record Depends (issues : List Issue) (issue_number dependency : String) : Type 0 where
  pub issue : Issue
  pub listed : Memᴰ issue issues
  pub named : issue.number ≡ issue_number
  pub declares : contains issue.dependencies dependency ≡ true

abbrev pub issue_numbers : List Issue → List String
issue_numbers issues = map (λ issue. issue.number) issues

-- What each error says. The last cases are those that a constructor call cannot raise.
abbrev pub Explains : List Issue → GraphError → Type 0
Explains issues duplicate_issues = ¬ Distinct (issue_numbers issues)
Explains issues (duplicate_dependency a none) = ⊥
Explains issues (duplicate_dependency a (some d)) =
    (issue : Issue) × Memᴰ issue issues × (issue.number ≡ a) × OccursTwice issue.dependencies d
Explains issues (self_dependency a) = Depends issues a a
Explains issues (unknown_dependency a d) =
    Depends issues a d × (contains (issue_numbers issues) d ≡ false)
Explains issues (dependency_cycle cycle) = IsCycle (enumerate 0 issues) cycle
Explains issues (unknown_issue a) = ⊥
Explains issues (unfinished_dependency a d) = ⊥
Explains issues negative_passes = ⊥
Explains issues out_of_fuel = ⊥

pub node_numbers-enumerate :
    (i : ℕ) (issues : List Issue) → node_numbers (enumerate i issues) ≡ issue_numbers issues
node_numbers-enumerate i [] = refl
node_numbers-enumerate i (issue ∷ issues) =
    ap (λ ns. issue.number ∷ ns) (node_numbers-enumerate (suc i) issues)

pub mem_of_mem-enumerate :
    (i : ℕ) (issues : List Issue) {node : IssueDependencyNode}
    → Memᴰ node (enumerate i issues)
    → Memᴰ node.issue issues
mem_of_mem-enumerate i [] m = elim m [ ]
mem_of_mem-enumerate i (issue ∷ issues) m = elim (Memᴰ.cases_cons m) [
  | inl e ↦ Memᴰ.head (ap (λ (n : IssueDependencyNode). n.issue) e)
  | inr n ↦ Memᴰ.tail (mem_of_mem-enumerate (suc i) issues n)
]

check_dependency-eq-err :
    (issues : List Issue) (node : IssueDependencyNode) (d : String) {error : GraphError}
    → Memᴰ node.issue issues
    → contains (dependencies node) d ≡ true
    → check_dependency (enumerate 0 issues) node d ≡ err error
    → Explains issues error
unfolding check_dependency
check_dependency-eq-err issues node d {error} m depends h = elim (Bool-cases (d == number node)) [
  | inl self ↦
      let e : self_dependency (number node) ≡ error = ground arith in
      subst (Explains issues) e (record {
        issue = node.issue;
        listed = m;
        named = refl;
        declares = rw ((text_same.same_iff d (number node)).0 self) at depends;
      })
  | inr other ↦ elim (Bool-cases (contains (node_numbers (enumerate 0 issues)) d)) [
    | inl known ↦ absurd (ground arith)
    | inr unknown ↦
        let e : unknown_dependency (number node) d ≡ error = ground arith in
        subst (Explains issues) e (
          record { issue = node.issue; listed = m; named = refl; declares = depends },
          rw (node_numbers-enumerate 0 issues) at unknown,
        )
  ]
]

validate_dependencies-eq-err :
    (issues : List Issue) {error : GraphError}
    → validate_dependencies (enumerate 0 issues) ≡ err error
    → Explains issues error
unfolding validate_dependencies check_node
validate_dependencies-eq-err issues {error} h =
    let (node, m, fails) =
      for_each-eq-err (check_node (enumerate 0 issues)) (enumerate 0 issues) h in
    let listed = mem_of_mem-enumerate 0 issues m in
    elim (Bool-cases (all_unique (dependencies node))) [
      | inl unique ↦
          let (d, at_d, wrong) =
            for_each-eq-err (check_dependency (enumerate 0 issues) node) (dependencies node)
              (rw unique at fails) in
          check_dependency-eq-err issues node d listed (contains_intro (dependencies node) at_d)
            wrong
      | inr repeated ↦
          let (d, found, twice) = find_repeated (dependencies node) repeated in
          let e =
            ap (duplicate_dependency (number node)) (sym found)
            ∙ err-injective (rw repeated at fails) in
          subst (Explains issues) e (node.issue, listed, refl, twice)
    ]

-- What the checks of the dependencies establish.
pub AllKnown_of_valid :
    (nodes : List IssueDependencyNode)
    → validate_dependencies nodes ≡ ok tt
    → (a b : String) → Edge nodes a b
    → contains (node_numbers nodes) b ≡ true
unfolding validate_dependencies check_node check_dependency
AllKnown_of_valid nodes valid a b e =
    let (m, _) = node_of-eq-ok nodes a e.found in
    let checked = for_each-eq-ok (check_node nodes) nodes valid m in
    let (_, _, each) = >>=-eq-ok (guard (all_unique (dependencies e.node)) _) _ checked in
    let one_checked =
      for_each-eq-ok (check_dependency nodes e.node) (dependencies e.node) each
        (contains_elim (dependencies e.node) b e.depends) in
    ground arith

validate_acyclic-eq-err :
    (nodes : List IssueDependencyNode) {error : GraphError}
    → validate_dependencies nodes ≡ ok tt
    → validate_acyclic nodes ≡ err error
    → (cycle : List String) × (error ≡ dependency_cycle cycle) × IsCycle nodes cycle
unfolding validate_acyclic
validate_acyclic-eq-err nodes valid h =
    let known = AllKnown_of_valid nodes valid in
    let (a, middle, listed, (o, same), fails) =
      visit_each-fails (visit nodes (length nodes + 1))
        (visit-keeps nodes known (length nodes + 1) []) (node_numbers nodes) no_marks (tt, refl)
        h in
    visit-eq-err nodes known (length nodes + 1) a middle
      (record {
        walk = rw same tt;
        distinct = rw same tt;
        active_known = rw same (λ b m. cc);
        target_known = listed;
        ordered = o;
      })
      (rw same (omega arith)) fails

-- Building the graph fails only with an error that describes the issues: a number that occurs
-- twice, a dependency that occurs twice among those of its issue, that names its own issue or that no issue has, or a
-- list of numbers that begins and ends alike and in which each issue depends on the next. The depth of the search
-- never exceeds the fuel.
pub build-eq-err :
    (issues : List Issue) (error : GraphError) → build issues ≡ err error → Explains issues error
unfolding build
build-eq-err issues error h =
    let nodes = enumerate 0 issues in
    elim (Bool-cases (all_unique (node_numbers nodes))) [
      | inr repeated ↦
          let e = err-injective (rw repeated at h) in
          subst (Explains issues) e (λ d. false≢true (
            sym repeated
            ∙ ap all_unique (node_numbers-enumerate 0 issues)
            ∙ Distinct→all_unique _ d))
      | inl unique ↦ elim (>>=-eq-err (validate_dependencies nodes) _ (rw unique at h)) [
        | inl invalid ↦ validate_dependencies-eq-err issues invalid
        | inr (_, valid, rest) ↦ elim (>>=-eq-err (validate_acyclic nodes) _ rest) [
          | inl cyclic ↦
              let (cycle, same, c) = validate_acyclic-eq-err nodes valid cyclic in
              subst (Explains issues) (sym same) c
          | inr (_, _, wrong) ↦ absurd (ground arith)
        ]
      ]
    ]
