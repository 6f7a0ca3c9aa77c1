-- ===== src/Prelude/Keys.antt =====
-- Python's `==` on the values that the program compares, its sets and its membership tests.
use Prim.Native.Nat.{suc, ◌≤◌}
use Prim.Native.String.{String}
use mathlib.Core.Path.{sym, ◌≡◌, refl, ap, ◌∙◌}
use mathlib.Core.Logic.{◌⊎◌, ◌↔◌, inl, inr}
use mathlib.Core.Bool.{◌&&◌, false≢true, Bool, true, false, ◌||◌}
use mathlib.Core.List.{map, ◌++◌, List, [], ◌∷◌, Memᴰ}
use mathlib.Core.List.Memᴰ
use native.Mathlib.Omega.{arith}
use text.Mathlib.Text.{◌==◌ as str_eq}
use text.Mathlib.TextEquality.{eq_iff}
use devloop.Prelude.Tests.{&&-eq_true, nat_beq, Bool-cases, if◌then◌else◌}
use devloop.Prelude.Lists.{mem-map, length, any, any_intro, any_elim}

-- How the values of a type are compared, and that the comparison is equality.
pub record Comparable {ℓ} (A : Type ℓ) : Type ℓ where
  pub same : A → A → Bool
  pub same_iff : (x y : A) → (same x y ≡ true) ↔ (x ≡ y)

instance abbrev pub text_same : Comparable String
text_same = record { same_iff = eq_iff; same = str_eq }

module _ {ℓ} {A : Type ℓ} ⦃comparable : Comparable A⦄ where
  infix 50 ◌==◌
  abbrev pub ◌==◌ : A → A → Bool
  ◌==◌ = comparable.same

module _ {ℓ} {A : Type ℓ} ⦃e : Comparable A⦄ where
  pub ==-refl : (a : A) → (a == a) ≡ true
  ==-refl a = (e.same_iff a a).1 refl

  -- `a in xs`
  abbrev pub contains : List A → A → Bool
  contains xs a = any (λ x. a == x) xs

  -- `s.add(a)` on a set.
  abbrev pub add : List A → A → List A
  add s a = if contains s a then s else a ∷ s

  -- `set(xs)`
  abbrev pub to_set : List A → List A
  to_set [] = []
  to_set (x ∷ xs) = add (to_set xs) x

  -- `len(set(xs)) == len(xs)`
  abbrev pub all_unique : List A → Bool
  all_unique xs = nat_beq (length (to_set xs)) (length xs)

  -- No element occurs twice.
  abbrev pub Distinct : List A → Type 0
  Distinct [] = Unit
  Distinct (x ∷ xs) = (contains xs x ≡ false) × Distinct xs

  pub contains_intro : (xs : List A) {a : A} → Memᴰ a xs → contains xs a ≡ true
  contains_intro xs {a} m = any_intro (λ x. a == x) xs m (==-refl a)

  pub contains_elim : (xs : List A) (a : A) → contains xs a ≡ true → Memᴰ a xs
  contains_elim xs a h =
      let (x, m, same) = any_elim (λ x. a == x) xs h in Memᴰ.cast ((e.same_iff a x).0 same) m

  pub eq_of_contains_singleton : (a b : A) → contains (a ∷ []) b ≡ true → b ≡ a
  eq_of_contains_singleton a b h = (e.same_iff b a).0 (ground arith)

  pub contains-add : (xs : List A) (a b : A) → contains (add xs a) b ≡ (b == a || contains xs b)
  contains-add xs a b = elim (Bool-cases (contains xs a)) [
    | inl old ↦ rw old (elim (Bool-cases (b == a)) [
      | inl same ↦ rw same (ap (contains xs) ((e.same_iff b a).0 same) ∙ old)
      | inr other ↦ rw other refl
    ])
    | inr new ↦ rw new refl
  ]

  pub contains-to_set : (xs : List A) (b : A) → contains (to_set xs) b ≡ contains xs b
  contains-to_set [] b = refl
  contains-to_set (x ∷ xs) b =
      contains-add (to_set xs) x b ∙ ap (λ r. b == x || r) (contains-to_set xs b)

  pub length-to_set-le : (xs : List A) → length (to_set xs) ≤ length xs
  length-to_set-le [] = omega arith
  length-to_set-le (x ∷ xs) = ground (arith, length-to_set-le xs)

  pub all_unique→Distinct : (xs : List A) → all_unique xs ≡ true → Distinct xs
  all_unique→Distinct [] h = tt
  all_unique→Distinct (x ∷ xs) h =
      let fresh : contains xs x ≡ false =
        ground (arith, length-to_set-le xs, contains-to_set xs x) in
      (fresh, all_unique→Distinct xs (ground (arith, length-to_set-le xs, contains-to_set xs x)))

  pub Distinct→all_unique : (xs : List A) → Distinct xs → all_unique xs ≡ true
  Distinct→all_unique [] h = refl
  Distinct→all_unique (x ∷ xs) (fresh, rest) =
      ground (arith, contains-to_set xs x, Distinct→all_unique xs rest)

  -- The list without the first occurrence.
  abbrev pub remove : A → List A → List A
  remove a [] = []
  remove a (x ∷ xs) = let rest = x ∷ remove a xs in if a == x then xs else rest

  pub length-remove :
      (a : A) (xs : List A) → contains xs a ≡ true → length xs ≡ suc (length (remove a xs))
  length-remove a [] h = cc
  length-remove a (x ∷ xs) h = ground (arith, length-remove a xs)

  pub contains-remove :
      (a b : A) (xs : List A)
      → (b == a) ≡ false
      → contains xs b ≡ true
      → contains (remove a xs) b ≡ true
  contains-remove a b [] other h = h
  contains-remove a b (x ∷ xs) other h = elim (Bool-cases (a == x)) [
    | inl same ↦ rw same (
        let e : a ≡ x = (e.same_iff a x).0 same in
        let different : (b == x) ≡ false = rw (ap (λ c. b == c) (sym e)) other in ground arith)
    | inr differs ↦ rw differs (ground (arith, contains-remove a b xs other))
  ]

  -- A list without repetitions is no longer than a list that has all of its elements.
  pub length_le_of_Distinct :
      (xs ys : List A)
      → Distinct xs
      → ((a : A) → contains xs a ≡ true → contains ys a ≡ true)
      → length xs ≤ length ys
  length_le_of_Distinct [] ys d h = omega arith
  length_le_of_Distinct (x ∷ xs) ys (fresh, d) h = omega (
    arith,
    length-remove x ys (h x (rw (==-refl x) refl)),
    length_le_of_Distinct xs (remove x ys) d
        (λ b m. contains-remove x b ys (other b m) (h b (ground arith))),
  )
    where
      other : (b : A) → contains xs b ≡ true → (b == x) ≡ false
      other b m = elim (Bool-cases (b == x)) [
        | inl same ↦
            absurd (false≢true (sym fresh ∙ ap (contains xs) (sym ((e.same_iff b x).0 same)) ∙ m))
        | inr differs ↦ differs
      ]

  pub contains-append :
      (xs ys : List A) (a : A) → contains (xs ++ ys) a ≡ (contains xs a || contains ys a)
  contains-append [] ys a = refl
  contains-append (x ∷ xs) ys a = ground (arith, contains-append xs ys a)

  pub Distinct-snoc :
      (xs : List A) (a : A) → Distinct xs → contains xs a ≡ false → Distinct (xs ++ a ∷ [])
  Distinct-snoc [] a d h = (refl, tt)
  Distinct-snoc (x ∷ xs) a (fresh, d) h = (
    rw (contains-append xs (a ∷ []) x) (rw fresh (differs (Bool-cases (x == a)))),
    Distinct-snoc xs a d (ground arith),
  )
    where
      differs : ((x == a) ≡ true) ⊎ ((x == a) ≡ false) → (x == a || false) ≡ false
      differs (inl same) = absurd (
          false≢true (
            sym h
            ∙ ap (λ b. any (λ y. b == y) (x ∷ xs)) (sym ((e.same_iff x a).0 same))
            ∙ rw (==-refl x) refl))
      differs (inr other) = rw other refl

module _ {ℓ κ} {A : Type ℓ} {B : Type κ} ⦃e : Comparable B⦄ (f : A → B) where
  -- Where no key occurs twice, a key has one element.
  pub eq_of_same_key :
      (xs : List A) {x y : A} → Distinct (map f xs) → Memᴰ x xs → Memᴰ y xs → f x ≡ f y → x ≡ y
  eq_of_same_key [] d m n h = elim m [ ]
  eq_of_same_key (z ∷ zs) {x} {y} (fresh, d) m n h = elim (Memᴰ.cases_cons m) [
    | inl here ↦ elim (Memᴰ.cases_cons n) [
      | inl there ↦ here ∙ sym there
      | inr later ↦ absurd (clash later (sym h ∙ ap f here))
    ]
    | inr later ↦ elim (Memᴰ.cases_cons n) [
      | inl there ↦ absurd (clash later (h ∙ ap f there))
      | inr later' ↦ eq_of_same_key zs d later later' h
    ]
  ]
    where
      clash : {w : A} → Memᴰ w zs → f w ≡ f z → ⊥
      clash {w} later same = false≢true (
          sym fresh
          ∙ ap (contains (map f zs)) (sym same)
          ∙ contains_intro (map f zs) (mem-map f zs later))

-- Pairs are compared part by part.
abbrev pub pair_beq {ℓ κ} :
    {A : Type ℓ} {B : Type κ} ⦃e : Comparable A⦄ ⦃f : Comparable B⦄ → A × B → A × B → Bool
pair_beq (a, b) (c, d) = a == c && b == d

pub pair_beq_iff {ℓ κ} :
    {A : Type ℓ} {B : Type κ} ⦃e : Comparable A⦄ ⦃f : Comparable B⦄ (p q : A × B)
    → (pair_beq p q ≡ true) ↔ (p ≡ q)
pair_beq_iff {A} {B} ⦃e⦄ ⦃f⦄ (a, b) (c, d) = (
  λ h.
      let (x, y) = &&-eq_true (a == c) (b == d) h in
      λ i. ((e.same_iff a c).0 x i, (f.same_iff b d).0 y i),
  λ h.
      rw ((e.same_iff a c).1 (ap (λ (p : A × B). p.0) h))
        ((f.same_iff b d).1 (ap (λ (p : A × B). p.1) h)),
)

instance abbrev pub pair_same {ℓ κ} :
    {A : Type ℓ} {B : Type κ} ⦃e : Comparable A⦄ ⦃f : Comparable B⦄ → Comparable (A × B)
pair_same = record { same = pair_beq; same_iff = pair_beq_iff }
