-- ===== src/Portable/Schedule/Choice.antt =====
-- What `DependencyScheduler.project` (src/devloop/issue_scheduler.py) chooses, against a
-- description of the nodes that are ready.
use devloop.Prelude.{
  ltb, ◌≤◌, ◌+◌, ℕ, ap, Option, keep, contains_intro, ◌∙◌, false≢true, not-eq_true, contains_elim,
  find-eq-none, inr, sym, refl, subst, inl, find-eq-some, List-cases, none, text_same, ◌<◌, ◌↔◌,
  &&-eq_true, ◌⊎◌, not, Bool-cases, arith, mem-keep, mem_of_mem-keep, false, some, true, ◌∷◌, [],
  contains, List, String, ◌≡◌, Memᴰ,
}
use devloop.Portable.Graph.{dependencies, number, IssueDependencyNode}
use devloop.Portable.Schedule.{
  DependencyScheduler, ProjectInput, passes_of, project, is_open, incomplete, ready_nodes,
  waiting_nodes, is_normal, is_eligible, before, least, least_of, round_of,
}
use mathlib.Core.List.Memᴰ

-- A selected node that is not completed, though all of its dependencies are.
pub record IsReady (s : DependencyScheduler) (input : ProjectInput) (node : IssueDependencyNode)
    : Type 0 where
  pub listed : Memᴰ node s.graph.nodes
  pub selected : contains s.selected (number node) ≡ true
  pub unfinished : contains input.completed (number node) ≡ false
  pub unblocked :
      (d : String) → contains (dependencies node) d ≡ true → contains input.completed d ≡ true

module _ (s : DependencyScheduler) (input : ProjectInput) where
  pub open_iff :
      (node : IssueDependencyNode)
      → (is_open s input node ≡ true) ↔ (
          (contains s.selected (number node) ≡ true)
          × (contains input.completed (number node) ≡ false))
  unfolding is_open
  open_iff node = ground arith

  -- Nothing is incomplete exactly when each dependency is completed.
  pub incomplete-nil :
      (node : IssueDependencyNode)
      → incomplete s input node ≡ []
      → (d : String) → contains (dependencies node) d ≡ true
      → contains input.completed d ≡ true
  unfolding incomplete
  incomplete-nil node e d m = elim (Bool-cases (contains input.completed d)) [
    | inl done ↦ done
    | inr missing ↦
        let kept =
          mem-keep (λ x. not (contains input.completed x)) (dependencies node)
            (contains_elim (dependencies node) d m) (rw missing refl) in
        absurd (Memᴰ.not-nil (rw e at kept))
  ]

  pub incomplete-cons :
      (node : IssueDependencyNode) {d : String} {rest : List String}
      → incomplete s input node ≡ d ∷ rest
      → Memᴰ d (dependencies node) × (contains input.completed d ≡ false)
  unfolding incomplete
  incomplete-cons node {d} {rest} e =
      let (m, missing) =
        mem_of_mem-keep (λ x. not (contains input.completed x)) (dependencies node)
          (subst (Memᴰ d) (sym e) (Memᴰ.head refl)) in
      (m, not-eq_true _ missing)

  incomplete_of_unblocked :
      (node : IssueDependencyNode)
      → ((d : String) → contains (dependencies node) d ≡ true → contains input.completed d ≡ true)
      → incomplete s input node ≡ []
  incomplete_of_unblocked node h = elim (List-cases (incomplete s input node)) [
    | inl nil ↦ nil
    | inr (d, rest, e) ↦
        let (m, missing) = incomplete-cons node e in
        absurd (false≢true (sym missing ∙ h d (contains_intro (dependencies node) m)))
  ]

  pub IsReady-of_mem :
      {node : IssueDependencyNode}
      → Memᴰ node (ready_nodes s input s.graph.nodes)
      → IsReady s input node
  unfolding ready_nodes
  IsReady-of_mem {node} m =
      let (listed, passes) = mem_of_mem-keep _ s.graph.nodes m in
      let (opened, nil) = &&-eq_true (is_open s input node) _ passes in
      let (selected, unfinished) = (open_iff node).0 opened in
      record {
        listed = listed;
        selected = selected;
        unfinished = unfinished;
        unblocked = incomplete-nil node (ground arith);
      }

  pub IsReady-ready :
      {node : IssueDependencyNode}
      → IsReady s input node
      → Memᴰ node (ready_nodes s input s.graph.nodes)
  unfolding ready_nodes
  IsReady-ready {node} r = mem-keep _ s.graph.nodes r.listed (
      rw ((open_iff node).1 (r.selected, r.unfinished))
        (rw (incomplete_of_unblocked node r.unblocked) refl))

  pub IsReady-waiting :
      {node : IssueDependencyNode}
      → Memᴰ node s.graph.nodes
      → is_open s input node ≡ true
      → IsReady s input node ⊎ Memᴰ node (waiting_nodes s input s.graph.nodes)
  unfolding waiting_nodes
  IsReady-waiting {node} m opened = elim (List-cases (incomplete s input node)) [
    | inl nil ↦
        let (selected, unfinished) = (open_iff node).0 opened in
        inl (record {
          listed = m;
          selected = selected;
          unfinished = unfinished;
          unblocked = incomplete-nil node nil;
        })
    | inr (d, rest, e) ↦ inr (mem-keep _ s.graph.nodes m (rw opened (rw e refl)))
  ]

  pub waiting-open :
      {node : IssueDependencyNode}
      → Memᴰ node (waiting_nodes s input s.graph.nodes)
      → Memᴰ node s.graph.nodes × (is_open s input node ≡ true)
  unfolding waiting_nodes
  waiting-open {node} m =
      let (listed, passes) = mem_of_mem-keep _ s.graph.nodes m in
      (listed, (&&-eq_true (is_open s input node) _ passes).0)

  -- A node that the normal pass may start.
  abbrev pub IsNormal : IssueDependencyNode → Type 0
  IsNormal node =
      IsReady s input node
      × (contains input.normal_attempted (number node) ≡ false)
      × (contains input.non_retryable (number node) ≡ false)

  -- A node that a blocker pass may retry.
  abbrev pub IsEligible : IssueDependencyNode → Type 0
  IsEligible node =
      IsReady s input node
      × (contains input.normal_attempted (number node) ≡ true)
      × (contains input.non_retryable (number node) ≡ false)
      × (input.allow_blocker_resolution ≡ true)
      × (passes_of input.additional_passes (number node) < s.blocker_resolution_passes)

  -- The node chosen for the normal pass may be started; and where none is chosen, no node may.
  pub next_normal_lem :
      ((node : IssueDependencyNode) → (project s input).next_normal ≡ some node → IsNormal node)
      × ((project s input).next_normal ≡ none → (node : IssueDependencyNode) → ¬ IsNormal node)
  unfolding project is_normal
  next_normal_lem = (
    λ node e.
        let (m, passes) = find-eq-some (is_normal s input) (ready_nodes s input s.graph.nodes) e in
        (IsReady-of_mem m, ground arith, ground arith),
    λ e node (r, fresh, retryable).
        let fails =
          find-eq-none (is_normal s input) (ready_nodes s input s.graph.nodes) e
            (IsReady-ready r) in
        ground arith,
  )

  -- `before` is a strict order by passes and position, so what is not before a node is not before a
  -- smaller one.
  before_trans :
      (a b c : IssueDependencyNode)
      → before s input a b ≡ false
      → before s input c b ≡ true
      → before s input a c ≡ false
  unfolding before
  before_trans a b c h k = ground arith

  before_irrefl : (a : IssueDependencyNode) → before s input a a ≡ false
  unfolding before
  before_irrefl a = ground arith

  least-mem :
      (best : IssueDependencyNode) (rest : List IssueDependencyNode)
      → Memᴰ (least s input best rest) (best ∷ rest)
  unfolding least
  least-mem best [] = Memᴰ.head refl
  least-mem best (node ∷ rest) = elim (Bool-cases (before s input node best)) [
    | inl smaller ↦ rw smaller (Memᴰ.tail (least-mem node rest))
    | inr not_smaller ↦ rw not_smaller (elim (Memᴰ.cases_cons (least-mem best rest)) [
      | inl e ↦ Memᴰ.head e
      | inr m ↦ Memᴰ.tail (Memᴰ.tail m)
    ])
  ]

  least-least :
      (best : IssueDependencyNode) (rest : List IssueDependencyNode) (a : IssueDependencyNode)
      → (before s input a best ≡ false) ⊎ Memᴰ a rest
      → before s input a (least s input best rest) ≡ false
  unfolding least
  least-least best [] a (inl h) = h
  least-least best [] a (inr m) = elim m [ ]
  least-least best (node ∷ rest) a h = elim (Bool-cases (before s input node best)) [
    | inl smaller ↦ rw smaller (
        least-least node rest a (elim h [
          | inl k ↦ inl (before_trans a best node k smaller)
          | inr m ↦ elim (Memᴰ.cases_cons m) [
            | inl e ↦ inl (rw e (before_irrefl node))
            | inr n ↦ inr n
          ]
        ]))
    | inr not_smaller ↦ rw not_smaller (
        least-least best rest a (elim h [
          | inl k ↦ inl k
          | inr m ↦ elim (Memᴰ.cases_cons m) [ inl e ↦ inl (rw e not_smaller) | inr n ↦ inr n ]
        ]))
  ]

  least_of-eq-some :
      (nodes : List IssueDependencyNode) {node : IssueDependencyNode}
      → least_of s input nodes ≡ some node
      → Memᴰ node nodes × ((a : IssueDependencyNode) → Memᴰ a nodes → before s input a node ≡ false)
  unfolding least_of
  least_of-eq-some [] h = cc
  least_of-eq-some (first ∷ rest) {node} h =
      let same : least s input first rest ≡ node = cc in
      subst
        (λ x.
          Memᴰ x (first ∷ rest)
          × ((a : IssueDependencyNode) → Memᴰ a (first ∷ rest) → before s input a x ≡ false))
        same
        (
          least-mem first rest,
          λ a m. elim (Memᴰ.cases_cons m) [
            | inl e ↦ least-least first rest a (inl (rw e (before_irrefl first)))
            | inr n ↦ least-least first rest a (inr n)
          ],
        )

  eligible_iff :
      (node : IssueDependencyNode)
      → (is_eligible s input node ≡ true) ↔ (
          (contains input.normal_attempted (number node) ≡ true)
          × (contains input.non_retryable (number node) ≡ false)
          × (input.allow_blocker_resolution ≡ true)
          × (passes_of input.additional_passes (number node) < s.blocker_resolution_passes))
  unfolding is_eligible
  eligible_iff node =
      (λ h. (ground arith, ground arith, ground arith, ground arith), λ h. ground arith)

  -- A node has had fewer additional passes than another, or as many and is not after it.
  abbrev pub IsFirst : IssueDependencyNode → IssueDependencyNode → Type 0
  IsFirst node other =
      (passes_of input.additional_passes (number node)
        < passes_of input.additional_passes (number other))
      ⊎ ((passes_of input.additional_passes (number node)
            ≡ passes_of input.additional_passes (number other))
          × (node.index ≤ other.index))

  before-IsFirst :
      (node other : IssueDependencyNode) → before s input other node ≡ false → IsFirst node other
  unfolding before
  before-IsFirst node other h =
      let p = passes_of input.additional_passes (number node) in
      let q = passes_of input.additional_passes (number other) in
      elim (Bool-cases (ltb p q)) [
        | inl fewer ↦ inl (ground arith)
        | inr more ↦ inr (ground arith, ground arith)
      ]

  -- What is true of the node that is chosen for a blocker pass.
  pub record IsBlockerChoice (node : IssueDependencyNode) (round : Option ℕ) : Type 0 where
    pub eligible : IsEligible node
    pub first : (other : IssueDependencyNode) → IsEligible other → IsFirst node other
    pub numbered : round ≡ some (passes_of input.additional_passes (number node) + 1)
    pub in_budget :
        passes_of input.additional_passes (number node) + 1 ≤ s.blocker_resolution_passes

  -- The node chosen for a blocker pass is eligible, no other eligible node has fewer passes, or as
  -- many and a smaller position, and its round is the next one and is within the number of passes.
  pub next_blocker_lem :
      (node : IssueDependencyNode)
      → (project s input).next_blocker ≡ some node
      → IsBlockerChoice node (project s input).blocker_round
  unfolding project
  next_blocker_lem node e =
      let ready = ready_nodes s input s.graph.nodes in
      let (m, smallest) = least_of-eq-some (keep (is_eligible s input) ready) e in
      let (at_ready, passes) = mem_of_mem-keep (is_eligible s input) ready m in
      let (attempted, retryable, allowed, room) = (eligible_iff node).0 passes in
      record {
        eligible = (IsReady-of_mem at_ready, attempted, retryable, allowed, room);
        first = λ other (r, a, b, c, d). before-IsFirst node other (
            smallest other (
              mem-keep (is_eligible s input) ready (IsReady-ready r)
                ((eligible_iff other).1 (a, b, c, d))));
        numbered = ap (round_of s input) e;
        in_budget = omega arith;
      }
