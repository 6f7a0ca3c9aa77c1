-- ===== src/Portable/Graph/Order.antt =====
-- A graph that `build` accepts (src/devloop/issue_scheduler.py) has no dependency cycle: the
-- visited numbers are an order in which each number stands after all of its dependencies.
use devloop.Prelude.{
  false≢true, ℕ, zero, suc, ◌+◌, String, List, [], ◌∷◌, ◌≡◌, refl, sym, ap, subst, ◌∙◌, inl, inr,
  true, Result, ok, >>=-eq-ok, ◌==◌, eq_of_contains_singleton, contains, contains-add, length,
  Bool-cases, text_same, arith,
}
use devloop.Portable.Graph.{
  IssueDependencyNode, dependencies, GraphError, node_numbers, node_of, Marks, no_marks, visit_each,
  visit, enter, leave, pop, validate_acyclic, build, IssueDependencyGraph, Issue,
}
use devloop.Portable.Graph.Edges.{Reaches-contains, build-parts, Edge, Reaches, one, step, pop-snoc}

-- Every number has its dependencies behind it in the list, which grows at the front.
abbrev pub IsOrdered : List IssueDependencyNode → List String → Type 0
IsOrdered nodes [] = Unit
IsOrdered nodes (a ∷ earlier) =
    ((b : String) → Edge nodes a b → contains earlier b ≡ true) × IsOrdered nodes earlier

module _ (nodes : List IssueDependencyNode) where
  -- What a successful visit of `targets` leaves behind.
  pub record IsVisited (before after : Marks) (targets : List String) : Type 0 where
    pub restored : after.active ≡ before.active
    pub ordered : IsOrdered nodes after.visited
    pub kept : (b : String) → contains before.visited b ≡ true → contains after.visited b ≡ true
    pub included : (b : String) → contains targets b ≡ true → contains after.visited b ≡ true

  abbrev pub Visits : (String → Marks → Result GraphError Marks) → Type 0
  Visits visit_one =
      (a : String) (before after : Marks)
      → IsOrdered nodes before.visited
      → visit_one a before ≡ ok after
      → IsVisited before after (a ∷ [])

  pub visit_each-IsVisited :
      (visit_one : String → Marks → Result GraphError Marks)
      → Visits visit_one
      → (targets : List String) (before after : Marks) → IsOrdered nodes before.visited
      → visit_each visit_one targets before ≡ ok after
      → IsVisited before after targets
  unfolding visit_each
  visit_each-IsVisited visit_one each [] before after o h =
      let same : before ≡ after = cc in
      record {
        restored = ap (λ (m : Marks). m.active) (sym same);
        ordered = subst (λ m. IsOrdered nodes m.visited) same o;
        kept = λ b k. rw (sym same) k;
        included = λ b k. cc;
      }
  visit_each-IsVisited visit_one each (a ∷ rest) before after o h =
      let (middle, first, then_rest) =
        >>=-eq-ok (visit_one a before) (visit_each visit_one rest) h in
      let head = each a before middle o first in
      let tail = visit_each-IsVisited visit_one each rest middle after head.ordered then_rest in
      record {
        restored = tail.restored ∙ head.restored;
        ordered = tail.ordered;
        kept = λ b k. tail.kept b (head.kept b k);
        included = λ b k. elim (Bool-cases (b == a)) [
          | inl same ↦ tail.kept b (head.included b (rw same refl))
          | inr other ↦ tail.included b (rw other at k)
        ];
      }

  -- The end of a visit, where all dependencies of the node were visited.
  leave-IsVisited :
      (a : String) (before after : Marks) (node : IssueDependencyNode)
      → node_of nodes a ≡ ok node
      → IsVisited (enter a before) after (dependencies node)
      → IsVisited before (leave a after) (a ∷ [])
  leave-IsVisited a before after node found v = record {
    restored = ap pop v.restored ∙ pop-snoc before.active a;
    ordered = elim (Bool-cases (contains after.visited a)) [
      | inl old ↦ rw old v.ordered
      | inr new ↦ rw new (behind, v.ordered)
    ];
    kept = λ b k. rw (contains-add after.visited a b) (rw (v.kept b k) (ground arith));
    included = λ b k. rw (contains-add after.visited a b) (ground arith);
  }
    where
      behind : (b : String) → Edge nodes a b → contains after.visited b ≡ true
      behind b e =
          let same : e.node ≡ node = cc (e.found, found) in
          v.included b (rw (ap dependencies same) at e.depends)

  pub visit-IsVisited : (fuel : ℕ) → Visits (visit nodes fuel)
  unfolding visit
  visit-IsVisited zero a before after o h = cc
  visit-IsVisited (suc fuel) a before after o h = elim (Bool-cases (contains before.active a)) [
    | inl cyclic ↦ absurd (ground arith)
    | inr acyclic ↦ elim (Bool-cases (contains before.visited a)) [
      | inl seen ↦
          let same : before ≡ after = ground arith in
          record {
            restored = ap (λ (m : Marks). m.active) (sym same);
            ordered = subst (λ m. IsOrdered nodes m.visited) same o;
            kept = λ b k. rw (sym same) k;
            included = λ b k. rw (eq_of_contains_singleton a b k) (rw (sym same) seen);
          }
      | inr unseen ↦
          let opened = rw (acyclic, unseen) at h in
          let (node, found, rest) = >>=-eq-ok (node_of nodes a) _ opened in
          let (inner, each, last) =
            >>=-eq-ok (visit_each (visit nodes fuel) (dependencies node) (enter a before)) _ rest in
          let v =
            visit_each-IsVisited (visit nodes fuel) (visit-IsVisited fuel) (dependencies node)
              (enter a before) inner o each in
          let done : leave a inner ≡ after = cc in
          subst (λ m. IsVisited before m (a ∷ [])) done
            (leave-IsVisited a before inner node found v)
    ]
  ]

  IsOrdered-Edge :
      (earlier : List String)
      → IsOrdered nodes earlier
      → {a b : String} → contains earlier a ≡ true
      → Edge nodes a b
      → contains earlier b ≡ true
  IsOrdered-Edge [] o m e = cc
  IsOrdered-Edge (c ∷ earlier) o {a} {b} m e = elim (Bool-cases (a == c)) [
    | inl same ↦
        let below = o.0 b (subst (λ x. Edge nodes x b) ((text_same.same_iff a c).0 same) e) in
        ground arith
    | inr other ↦
        let below = IsOrdered-Edge earlier o.1 {a = a} {b = b} (ground arith) e in ground arith
  ]

  -- A number in the order has only earlier numbers below it.
  IsOrdered-closed :
      (earlier : List String)
      → IsOrdered nodes earlier
      → {a b : String} → contains earlier a ≡ true
      → Reaches nodes a b
      → contains earlier b ≡ true
  IsOrdered-closed earlier o m (one e) = IsOrdered-Edge earlier o m e
  IsOrdered-closed earlier o m (step e r) =
      IsOrdered-closed earlier o (IsOrdered-Edge earlier o m e) r

  IsOrdered-no_cycle :
      (earlier : List String)
      → IsOrdered nodes earlier
      → (a : String) → contains earlier a ≡ true
      → ¬ Reaches nodes a a
  IsOrdered-no_cycle [] o a m r = cc
  IsOrdered-no_cycle (b ∷ earlier) o a m r = elim (Bool-cases (contains earlier a)) [
    | inl behind ↦ IsOrdered-no_cycle earlier o.1 a behind r
    | inr first ↦
        let same : a ≡ b = (text_same.same_iff a b).0 (ground arith) in
        false≢true (
          sym first
          ∙ below_first r (
              subst (λ x. (c : String) → Edge nodes x c → contains earlier c ≡ true) (sym same)
                o.0))
  ]
    where
      below_first :
          Reaches nodes a a
          → ((c : String) → Edge nodes a c → contains earlier c ≡ true)
          → contains earlier a ≡ true
      below_first (one e) next = next a e
      below_first (step {b = c} e q) next = IsOrdered-closed earlier o.1 (next c e) q

-- An order of all node numbers in which each one stands after its dependencies.
pub record HasOrder (nodes : List IssueDependencyNode) : Type 0 where
  pub order : List String
  pub ordered : IsOrdered nodes order
  pub total : (a : String) → contains (node_numbers nodes) a ≡ true → contains order a ≡ true

pub build-HasOrder :
    (issues : List Issue) (graph : IssueDependencyGraph)
    → build issues ≡ ok graph
    → HasOrder graph.nodes
build-HasOrder issues graph h =
    let fuel = length graph.nodes + 1 in
    let parts = build-parts issues graph h in
    let v =
      visit_each-IsVisited graph.nodes (visit graph.nodes fuel) (visit-IsVisited graph.nodes fuel)
        (node_numbers graph.nodes) no_marks parts.marks tt
        (unfold validate_acyclic in parts.acyclic) in
    record { order = parts.marks.visited; ordered = v.ordered; total = v.included }

-- A graph that was built has no dependency cycle: no number is reached from itself over one edge
-- or more.
pub build-ne-cycle :
    (issues : List Issue) (graph : IssueDependencyGraph)
    → build issues ≡ ok graph
    → (a : String) → ¬ Reaches graph.nodes a a
build-ne-cycle issues graph h a r =
    let o = build-HasOrder issues graph h in
    IsOrdered-no_cycle graph.nodes o.order o.ordered a (o.total a (Reaches-contains r)) r
