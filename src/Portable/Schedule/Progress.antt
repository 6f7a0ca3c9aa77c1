-- ===== src/Portable/Schedule/Progress.antt =====
-- The scheduler of src/devloop/issue_scheduler.py reports completion only when all is done, and an
-- accepted graph with an accepted selection always has a ready node until then.
use devloop.Portable.Graph.Order.{build-HasOrder, IsOrdered}
use devloop.Portable.Graph.Edges.{node_of_total, node_of-eq-ok, Edge}
use devloop.Portable.Graph.{
  node_numbers, dependencies, check_selected_dependency, node_of, build, Issue,
  IssueDependencyGraph, validate_selection, number, IssueDependencyNode,
}
use devloop.Prelude.{
  mem-map, guard-eq-ok, false, subst, ap, contains_intro, >>=-eq-ok, contains_elim, List-cases,
  for_each-eq-ok, ◌∷◌, ◌||◌, ◌≢◌, ok, String, map, List, ◌∙◌, sym, false≢true, nil_of_empty,
  text_same, inr, true, inl, Bool-cases, arith, contains, refl, ◌↔◌, [], Memᴰ, ◌≡◌,
}
use devloop.Portable.Schedule.{
  incomplete, is_open, least_of, complete, DependencyScheduler, ProjectInput, project, phase_of,
  ready_nodes, waiting_nodes,
}
use devloop.Portable.Schedule.Choice.{
  incomplete-nil, incomplete-cons, IsReady, IsReady-ready, IsReady-waiting, waiting-open,
  IsReady-of_mem, open_iff,
}
use mathlib.Core.List.Memᴰ

-- Each selected node is completed.
abbrev pub AllDone : DependencyScheduler → ProjectInput → Type 0
AllDone s input =
    (node : IssueDependencyNode)
    → Memᴰ node s.graph.nodes
    → contains s.selected (number node) ≡ true
    → contains input.completed (number node) ≡ true

module _ (s : DependencyScheduler) (input : ProjectInput) where
  complete→nil :
      (project s input).phase ≡ complete
      → (ready_nodes s input s.graph.nodes ≡ []) × (waiting_nodes s input s.graph.nodes ≡ [])
  unfolding project phase_of
  complete→nil h = (ground arith, ground arith)

  nil→complete :
      ready_nodes s input s.graph.nodes ≡ []
      → waiting_nodes s input s.graph.nodes ≡ []
      → (project s input).phase ≡ complete
  unfolding project phase_of least_of
  nil→complete h k = rw (h, k) refl

  -- The phase is COMPLETE exactly when every selected node is completed.
  pub complete_iff : ((project s input).phase ≡ complete) ↔ AllDone s input
  complete_iff = (
    λ h node m selected. elim (Bool-cases (contains input.completed (number node))) [
      | inl done ↦ done
      | inr unfinished ↦
          let (no_ready, no_waiting) = complete→nil h in
          elim (IsReady-waiting s input m ((open_iff s input node).1 (selected, unfinished))) [
            | inl r ↦ absurd (Memᴰ.not-nil (rw no_ready at (IsReady-ready s input r)))
            | inr w ↦ absurd (Memᴰ.not-nil (rw no_waiting at w))
          ]
    ],
    λ done.
        nil→complete
          (nil_of_empty (ready_nodes s input s.graph.nodes) (λ node m.
            let r = IsReady-of_mem s input m in
            false≢true (sym r.unfinished ∙ done node r.listed r.selected)))
          (nil_of_empty (waiting_nodes s input s.graph.nodes) (λ node m.
            let (listed, opened) = waiting-open s input m in
            let (selected, unfinished) = (open_iff s input node).0 opened in
            false≢true (sym unfinished ∙ done node listed selected))),
  )

-- What `validate_selection` establishes of a selected issue.
selection-closed :
    (graph : IssueDependencyGraph) (selected : List Issue) (a d : String)
    → validate_selection graph selected ≡ ok tt
    → contains (map (λ (issue : Issue). issue.number) selected) a ≡ true
    → Edge graph.nodes a d
    → (node : IssueDependencyNode) × (node_of graph.nodes d ≡ ok node)
      × ((node.issue.completed || contains (map (λ (issue : Issue). issue.number) selected) d)
          ≡ true)
unfolding validate_selection
selection-closed graph selected a d valid m e =
    let numbers = map (λ (issue : Issue). issue.number) selected in
    let at_a = for_each-eq-ok _ numbers valid (contains_elim numbers a m) in
    let (node, found, each) = >>=-eq-ok (node_of graph.nodes a) _ at_a in
    let same : e.node ≡ node = cc (e.found, found) in
    let at_d =
      for_each-eq-ok (check_selected_dependency graph numbers a) (dependencies node) each
        (contains_elim (dependencies node) d (rw (ap dependencies same) at e.depends)) in
    let (below, found_below, passes) = >>=-eq-ok (node_of graph.nodes d) _ at_d in
    (below, found_below, guard-eq-ok _ _ passes)

module _ (s : DependencyScheduler) (input : ProjectInput) (selected : List Issue)
    (chosen : s.selected ≡ map (λ (issue : Issue). issue.number) selected)
    (valid : validate_selection s.graph selected ≡ ok tt)
    (recorded : (node : IssueDependencyNode)
      → Memᴰ node s.graph.nodes
      → node.issue.completed ≡ true
      → contains input.completed (number node) ≡ true) where
  -- A dependency that an open node still waits for is open too.
  blocker-open :
      (node : IssueDependencyNode) {d : String} {rest : List String}
      → node_of s.graph.nodes (number node) ≡ ok node
      → is_open s input node ≡ true
      → incomplete s input node ≡ d ∷ rest
      → (below : IssueDependencyNode) × (node_of s.graph.nodes d ≡ ok below)
        × Edge s.graph.nodes (number node) d
        × (is_open s input below ≡ true)
  blocker-open node {d} found opened e =
      let (m, missing) = incomplete-cons s input node e in
      let edge : Edge s.graph.nodes (number node) d = record {
        node = node;
        found = found;
        depends = contains_intro (dependencies node) m;
      } in
      let (is_selected, _) = (open_iff s input node).0 opened in
      let (below, found_below, fine) =
        selection-closed s.graph selected (number node) d valid
          (subst (λ l. contains l (number node) ≡ true) chosen is_selected) edge in
      let (listed, named) = node_of-eq-ok s.graph.nodes d found_below in
      let unfinished : contains input.completed (number below) ≡ false = rw named missing in
      let pending : below.issue.completed ≡ false = elim (Bool-cases below.issue.completed) [
        | inl done ↦ absurd (false≢true (sym unfinished ∙ recorded below listed done))
        | inr open_issue ↦ open_issue
      ] in
      let in_selection : contains s.selected (number below) ≡ true =
        subst (λ l. contains l (number below) ≡ true) (sym chosen)
          (rw named (rw pending at fine)) in
      (below, found_below, edge, (open_iff s input below).1 (in_selection, unfinished))

  -- Going down the order of the visited numbers meets a ready node.
  IsReady-below :
      (earlier : List String)
      → IsOrdered s.graph.nodes earlier
      → (node : IssueDependencyNode) → contains earlier (number node) ≡ true
      → node_of s.graph.nodes (number node) ≡ ok node
      → is_open s input node ≡ true
      → (r : IssueDependencyNode) × IsReady s input r
  IsReady-below [] o node m found opened = cc
  IsReady-below (a ∷ earlier) o node m found opened =
      elim (Bool-cases (contains earlier (number node))) [
        | inl behind ↦ IsReady-below earlier o.1 node behind found opened
        | inr first ↦ elim (List-cases (incomplete s input node)) [
          | inl nil ↦
              let (is_selected, unfinished) = (open_iff s input node).0 opened in
              (
                node,
                record {
                  listed = (node_of-eq-ok s.graph.nodes (number node) found).0;
                  selected = is_selected;
                  unfinished = unfinished;
                  unblocked = incomplete-nil s input node nil;
                },
              )
          | inr (d, rest, e) ↦
              let (below, found_below, edge, open_below) = blocker-open node found opened e in
              let same : number node ≡ a = (text_same.same_iff (number node) a).0 (ground arith) in
              let at_d = o.0 d (subst (λ x. Edge s.graph.nodes x d) same edge) in
              let named = (node_of-eq-ok s.graph.nodes d found_below).1 in
              IsReady-below earlier o.1 below (rw named at_d) (rw named found_below) open_below
        ]
      ]

-- No deadlock. Let the graph be built from issues, let the selection be one that
-- `validate_selection` accepts, and let the issues that are marked completed be recorded as
-- completed. Then, unless the phase is COMPLETE, some node of the selection that is not completed
-- has all of its dependencies completed, and `project` lists it as ready.
pub project_progress :
    (issues : List Issue) (s : DependencyScheduler) (input : ProjectInput) (selected : List Issue)
    → build issues ≡ ok s.graph
    → s.selected ≡ map (λ (issue : Issue). issue.number) selected
    → validate_selection s.graph selected ≡ ok tt
    → ((node : IssueDependencyNode)
        → Memᴰ node s.graph.nodes
        → node.issue.completed ≡ true
        → contains input.completed (number node) ≡ true)
    → (project s input).phase ≢ complete
    → (node : IssueDependencyNode) × IsReady s input node × Memᴰ node (project s input).ready
unfolding project
project_progress issues s input selected built chosen valid recorded unfinished =
    let (node, r) = some_ready in (node, r, IsReady-ready s input r)
  where
    some_ready : (node : IssueDependencyNode) × IsReady s input node
    some_ready = elim (List-cases (ready_nodes s input s.graph.nodes)) [
      | inr (node, rest, e) ↦
          (node, IsReady-of_mem s input (subst (Memᴰ node) (sym e) (Memᴰ.head refl)))
      | inl no_ready ↦ elim (List-cases (waiting_nodes s input s.graph.nodes)) [
        | inl no_waiting ↦ absurd (unfinished (nil→complete s input no_ready no_waiting))
        | inr (node, rest, e) ↦
            let (listed, opened) =
              waiting-open s input (subst (Memᴰ node) (sym e) (Memᴰ.head refl)) in
            let (found, total) = node_of_total s.graph.nodes listed in
            let named = (node_of-eq-ok s.graph.nodes (number node) total).1 in
            let o = build-HasOrder issues s.graph built in
            IsReady-below s input selected chosen valid recorded o.order o.ordered found
              (o.total (number found) (
                rw named (
                  contains_intro (node_numbers s.graph.nodes)
                    (mem-map number s.graph.nodes listed))))
              (rw named total)
              ((open_iff s input found).1 (rw named ((open_iff s input node).0 opened)))
      ]
    ]
