-- ===== src/Portable/Graph/Repeats.antt =====
-- What src/devloop/issue_scheduler.py reports of an issue that declares a dependency twice.
use mathlib.Core.List.Memᴰ
use devloop.Portable.Graph.{count}
use devloop.Prelude.{
  text_same, ◌==◌, ==-refl, contains, contains_intro, contains_elim, all_unique, Distinct,
  Distinct→all_unique, find, find-eq-some, find-eq-none, some, Option-cases, ltb, Bool-cases, true,
  false, false≢true, List, [], ◌∷◌, ◌≤◌, String, Memᴰ, ◌⊎◌, inl, inr, ◌≡◌, ap, sym, ◌∙◌, refl,
  arith,
}

-- The text occurs in the list and again further on.
abbrev pub OccursTwice : List String → String → Type 0
OccursTwice [] d = ⊥
OccursTwice (x ∷ xs) d = ((x ≡ d) × Memᴰ d xs) ⊎ OccursTwice xs d

pub OccursTwice-refutes : (xs : List String) (d : String) → OccursTwice xs d → ¬ Distinct xs
OccursTwice-refutes [] d t u = t
OccursTwice-refutes (x ∷ xs) d t (fresh, rest) = elim t [
  | inl (e, m) ↦ false≢true (sym fresh ∙ ap (contains xs) e ∙ contains_intro xs m)
  | inr later ↦ OccursTwice-refutes xs d later rest
]

mem_of_count : (xs : List String) (d : String) → 1 ≤ count d xs → Memᴰ d xs
mem_of_count [] d h = absurd (omega arith)
mem_of_count (x ∷ xs) d h = elim (Bool-cases (x == d)) [
  | inl same ↦ Memᴰ.head (sym ((text_same.same_iff x d).0 same))
  | inr other ↦ Memᴰ.tail (mem_of_count xs d (rw other at h))
]

count-mem : (xs : List String) (d : String) → Memᴰ d xs → 1 ≤ count d xs
count-mem [] d m = elim m [ ]
count-mem (x ∷ xs) d m = elim (Bool-cases (x == d)) [
  | inl same ↦ rw same (omega arith)
  | inr other ↦ elim (Memᴰ.cases_cons m) [
    | inl e ↦ absurd (false≢true (sym other ∙ (text_same.same_iff x d).1 (sym e)))
    | inr n ↦ rw other (count-mem xs d n)
  ]
]

twice_of_count : (xs : List String) (d : String) → 2 ≤ count d xs → OccursTwice xs d
twice_of_count [] d h = absurd (omega arith)
twice_of_count (x ∷ xs) d h = elim (Bool-cases (x == d)) [
  | inl same ↦
      let two = rw same at h in
      inl ((text_same.same_iff x d).0 same, mem_of_count xs d (omega arith))
  | inr other ↦ inr (twice_of_count xs d (rw other at h))
]

count-cons : (x : String) (xs : List String) (d : String) → count d xs ≤ count d (x ∷ xs)
count-cons x xs d = elim (Bool-cases (x == d)) [
  | inl same ↦ rw same (omega arith)
  | inr other ↦ rw other (omega arith)
]

Distinct-of_count : (xs : List String) → ((d : String) → Memᴰ d xs → count d xs ≤ 1) → Distinct xs
Distinct-of_count [] h = tt
Distinct-of_count (x ∷ xs) h = (
  elim (Bool-cases (contains xs x)) [
    | inl again ↦
        let one = count-mem xs x (contains_elim xs x again) in
        let most = rw (==-refl x) at (h x (Memᴰ.head refl)) in absurd (omega arith)
    | inr fresh ↦ fresh
  ],
  Distinct-of_count xs
      (λ d m. let most = h d (Memᴰ.tail m) in let less = count-cons x xs d in omega arith),
)

-- The search for a text that is counted more than once, in a list that repeats one.
pub find_repeated :
    (xs : List String)
    → all_unique xs ≡ false
    → (d : String) × (find (λ x. ltb 1 (count x xs)) xs ≡ some d) × OccursTwice xs d
find_repeated xs h =
    let test = λ (x : String). ltb 1 (count x xs) in
    elim (Option-cases (find test xs)) [
      | inl missing ↦ absurd (
          false≢true (
            sym h
            ∙ Distinct→all_unique xs (
                Distinct-of_count xs (λ d m.
                  let low : ltb 1 (count d xs) ≡ false = find-eq-none test xs missing m in
                  ground arith))))
      | inr (d, found) ↦
          let (_, more) = find-eq-some test xs found in
          let two : ltb 1 (count d xs) ≡ true = more in
          (d, found, twice_of_count xs d (ground arith))
    ]
