-- ===== src/Portable/Graph/Cycles.antt =====
-- The errors of `_validate_acyclic` (src/devloop/issue_scheduler.py): where every dependency is
-- known, the only one is a cycle, and the cycle that it names is one.
use devloop.Portable.Graph.Walks.{from_first-IsWalk, from_first-cons, IsWalk-snoc, IsCycle, IsWalk}
use devloop.Prelude.{
  refl, zero, length-append, text_same, ap, suc, eq_of_contains_singleton, Bool-cases, length-map,
  Distinct-snoc, length_le_of_Distinct, contains-append, ◌∙◌, Distinct, arith, ◌+◌, ◌++◌, inr,
  ==-refl, ◌<◌, inl, >>=-eq-err, ◌≡◌, String, List, [], ◌∷◌, length, ℕ, err, false, true, ok,
  Result, contains,
}
use devloop.Portable.Graph.{
  enter, dependencies, node_of, from_first, number, dependency_cycle, visit, visit_each, GraphError,
  node_numbers, Marks, IssueDependencyNode,
}
use devloop.Portable.Graph.Edges.{node_of-ne-err, Edge}
use devloop.Portable.Graph.Order.{visit-IsVisited, IsOrdered}

module _ {P : Marks → Type 0} (visit_one : String → Marks → Result GraphError Marks)
    (keeps : (a : String) (before after : Marks)
      → P before
      → visit_one a before ≡ ok after
      → P after) where
  -- A loop over targets fails at one of them, after visits that kept the invariant.
  pub visit_each-fails :
      (targets : List String) (before : Marks) {error : GraphError}
      → P before
      → visit_each visit_one targets before ≡ err error
      → (a : String) × (middle : Marks) × (contains targets a ≡ true)
        × P middle
        × (visit_one a middle ≡ err error)
  unfolding visit_each
  visit_each-fails [] before p h = cc
  visit_each-fails (a ∷ rest) before p h =
      elim (>>=-eq-err (visit_one a before) (visit_each visit_one rest) h) [
        | inl fails ↦ (a, before, rw (==-refl a) refl, p, fails)
        | inr (middle, passes, later) ↦
            let (b, m, found, q, fails) =
              visit_each-fails rest middle (keeps a before middle p passes) later in
            (b, m, ground arith, q, fails)
      ]

module _ (nodes : List IssueDependencyNode)
    (known : (a b : String) → Edge nodes a b → contains (node_numbers nodes) b ≡ true) where
  -- What holds when `visit` is called for `a`.
  pub record IsOnPath (marks : Marks) (a : String) : Type 0 where
    pub walk : IsWalk nodes (marks.active ++ a ∷ [])
    pub distinct : Distinct marks.active
    pub active_known :
        (b : String) → contains marks.active b ≡ true → contains (node_numbers nodes) b ≡ true
    pub target_known : contains (node_numbers nodes) a ≡ true
    pub ordered : IsOrdered nodes marks.visited

  enter-IsOnPath :
      (marks : Marks) (a b : String)
      → IsOnPath marks a
      → contains marks.active a ≡ false
      → Edge nodes a b
      → (inner : Marks) → inner.active ≡ marks.active ++ a ∷ []
      → IsOrdered nodes inner.visited
      → IsOnPath inner b
  enter-IsOnPath marks a b p new e inner same o = record {
    walk = rw same (IsWalk-snoc nodes marks.active a b p.walk e);
    distinct = rw same (Distinct-snoc marks.active a p.distinct new);
    active_known = rw same (λ c m. elim (Bool-cases (contains marks.active c)) [
      | inl old ↦ p.active_known c old
      | inr fresh ↦
          let last : c ≡ a = eq_of_contains_singleton a c (singled c m fresh) in
          rw last p.target_known
    ]);
    target_known = known a b e;
    ordered = o;
  }
    where
      singled :
          (c : String)
          → contains (marks.active ++ a ∷ []) c ≡ true
          → contains marks.active c ≡ false
          → contains (a ∷ []) c ≡ true
      singled c m fresh = rw (contains-append marks.active (a ∷ []) c, fresh) at m

  -- A visit keeps the order of the visited numbers and restores the active ones.
  pub visit-keeps :
      (fuel : ℕ) (active : List String) (a : String) (before after : Marks)
      → IsOrdered nodes before.visited × (before.active ≡ active)
      → visit nodes fuel a before ≡ ok after
      → IsOrdered nodes after.visited × (after.active ≡ active)
  visit-keeps fuel active a before after (o, same) h =
      let v = visit-IsVisited nodes fuel a before after o h in (v.ordered, v.restored ∙ same)

  pub visit-eq-err :
      (fuel : ℕ) (a : String) (marks : Marks) {error : GraphError}
      → IsOnPath marks a
      → length nodes < fuel + length marks.active
      → visit nodes fuel a marks ≡ err error
      → (cycle : List String) × (error ≡ dependency_cycle cycle) × IsCycle nodes cycle
  unfolding visit
  visit-eq-err zero a marks p room h = absurd (
      omega (
        arith,
        length_le_of_Distinct marks.active (node_numbers nodes) p.distinct p.active_known,
        length-map number nodes,
      ))
  visit-eq-err (suc fuel) a marks {error} p room h = elim (Bool-cases (contains marks.active a)) [
    | inl cyclic ↦
        let (rest, shape) = from_first-cons nodes a marks.active cyclic in
        (
          from_first a marks.active ++ a ∷ [],
          ground arith,
          record {
            start = a;
            between = rest;
            closed = ap (λ xs. xs ++ a ∷ []) shape;
            walk = from_first-IsWalk nodes a marks.active (a ∷ []) p.walk;
          },
        )
    | inr acyclic ↦ elim (Bool-cases (contains marks.visited a)) [
      | inl seen ↦ absurd (ground arith)
      | inr unseen ↦ elim (>>=-eq-err (node_of nodes a) _ (rw (acyclic, unseen) at h)) [
        | inl missing ↦ absurd (node_of-ne-err nodes a p.target_known missing)
        | inr (node, found, rest) ↦
            let each = visit_each (visit nodes fuel) (dependencies node) (enter a marks) in
            elim (>>=-eq-err each _ rest) [
              | inl fails ↦
                  let (b, middle, depends, (o, same), failed) =
                    visit_each-fails (visit nodes fuel) (visit-keeps fuel (marks.active ++ a ∷ []))
                      (dependencies node) (enter a marks) (p.ordered, refl) fails in
                  let e : Edge nodes a b = record {
                    node = node;
                    found = found;
                    depends = depends;
                  } in
                  visit-eq-err fuel b middle (enter-IsOnPath marks a b p acyclic e middle same o)
                    (rw same (omega (arith, length-append marks.active (a ∷ [])))) failed
              | inr (_, _, wrong) ↦ absurd (ground arith)
            ]
      ]
    ]
  ]
