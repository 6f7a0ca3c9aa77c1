-- ===== src/Portable/Graph/Walks.antt =====
-- Walks along dependencies: the `active` list of `_validate_acyclic` in
-- src/devloop/issue_scheduler.py is one, and so is the cycle that it reports.
use devloop.Prelude.{
  text_same, inr, arith, inl, false, ◌==◌, Bool-cases, subst, String, List, [], ◌∷◌, ◌++◌, ◌≡◌, ap,
  true, contains,
}
use devloop.Portable.Graph.{IssueDependencyNode, from_first}
use devloop.Portable.Graph.Edges.{Edge, Reaches, one, step}

module _ (nodes : List IssueDependencyNode) where
  abbrev pub Follows : String → List String → Type 0
  Follows a [] = Unit
  Follows a (b ∷ rest) = Edge nodes a b × Follows b rest

  -- Each element depends on the next one.
  abbrev pub IsWalk : List String → Type 0
  IsWalk [] = Unit
  IsWalk (a ∷ rest) = Follows a rest

  -- The list that an error reports: it begins and ends with the same number, over one edge or more.
  pub record IsCycle (cycle : List String) : Type 0 where
    pub start : String
    pub between : List String
    pub closed : cycle ≡ start ∷ between ++ start ∷ []
    pub walk : IsWalk cycle

  pub Follows-snoc :
      (a : String) (rest : List String) (b c : String)
      → Follows a (rest ++ b ∷ [])
      → Edge nodes b c
      → Follows a ((rest ++ b ∷ []) ++ c ∷ [])
  Follows-snoc a [] b c (e, _) f = (e, (f, tt))
  Follows-snoc a (d ∷ rest) b c (e, w) f = (e, Follows-snoc d rest b c w f)

  pub IsWalk-snoc :
      (xs : List String) (b c : String)
      → IsWalk (xs ++ b ∷ [])
      → Edge nodes b c
      → IsWalk ((xs ++ b ∷ []) ++ c ∷ [])
  IsWalk-snoc [] b c w e = (e, tt)
  IsWalk-snoc (a ∷ rest) b c w e = Follows-snoc a rest b c w e

  Follows-IsWalk : (a : String) (rest : List String) → Follows a rest → IsWalk rest
  Follows-IsWalk a [] w = tt
  Follows-IsWalk a (b ∷ rest) w = w.1

  pub from_first-IsWalk :
      (a : String) (xs ys : List String) → IsWalk (xs ++ ys) → IsWalk (from_first a xs ++ ys)
  from_first-IsWalk a [] ys w = w
  from_first-IsWalk a (x ∷ xs) ys w = elim (Bool-cases (x == a)) [
    | inl here ↦ rw here w
    | inr later ↦ rw later (from_first-IsWalk a xs ys (Follows-IsWalk x (xs ++ ys) w))
  ]

  pub from_first-cons :
      (a : String) (xs : List String)
      → contains xs a ≡ true
      → (rest : List String) × (from_first a xs ≡ a ∷ rest)
  from_first-cons a [] m = cc
  from_first-cons a (x ∷ xs) m = elim (Bool-cases (x == a)) [
    | inl here ↦ (xs, rw here (ap (λ b. b ∷ xs) ((text_same.same_iff x a).0 here)))
    | inr later ↦ rw later (from_first-cons a xs (elsewhere later))
  ]
    where
      elsewhere : (x == a) ≡ false → contains xs a ≡ true
      elsewhere later = ground (arith, text_same.same_iff x a, text_same.same_iff a x)

  Follows-Reaches :
      (a : String) (between : List String) (b : String)
      → Follows a (between ++ b ∷ [])
      → Reaches nodes a b
  Follows-Reaches a [] b (e, _) = one e
  Follows-Reaches a (c ∷ between) b (e, w) = step e (Follows-Reaches c between b w)

  pub IsCycle-Reaches : {cycle : List String} (c : IsCycle cycle) → Reaches nodes c.start c.start
  IsCycle-Reaches c = Follows-Reaches c.start c.between c.start (subst IsWalk c.closed c.walk)
