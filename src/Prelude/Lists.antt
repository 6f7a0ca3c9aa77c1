-- ===== src/Prelude/Lists.antt =====
-- Lists measured by native numbers, comprehensions with a Boolean test, and Python's loops over them.
use Prim.Native.Nat.{ℕ, suc, ◌+◌}
use mathlib.Core.Path.{◌≡◌, refl, sym, ap, ◌∙◌}
use mathlib.Core.List.Memᴰ
use mathlib.Core.Logic.{inl, inr}
use mathlib.Core.Bool.{Bool, true, false, ◌&&◌, ◌||◌, false≢true}
use mathlib.Core.Option.{Option, none, some}
use mathlib.Core.List.{List, [], ◌∷◌, ◌++◌, map, Memᴰ}
use native.Mathlib.Omega.{arith}
use devloop.Prelude.Tests.{if◌then◌else◌, Bool-cases, Option-cases}

module _ {ℓ} {A : Type ℓ} where
  abbrev pub length : List A → ℕ
  length [] = 0
  length (x ∷ xs) = suc (length xs)

  pub length-append : (xs ys : List A) → length (xs ++ ys) ≡ length xs + length ys
  length-append [] ys = omega arith
  length-append (x ∷ xs) ys = omega (arith, length-append xs ys)

module _ {ℓ} {A : Type ℓ} (p : A → Bool) where
  -- `any(p(x) for x in xs)`
  abbrev pub any : List A → Bool
  any [] = false
  any (x ∷ xs) = p x || any xs

  -- `all(p(x) for x in xs)`
  abbrev pub all : List A → Bool
  all [] = true
  all (x ∷ xs) = p x && all xs

  -- `[x for x in xs if p(x)]`
  abbrev pub keep : List A → List A
  keep [] = []
  keep (x ∷ xs) = let rest = keep xs in if p x then x ∷ rest else rest

  -- `next((x for x in xs if p(x)), None)`
  abbrev pub find : List A → Option A
  find [] = none
  find (x ∷ xs) = let rest = find xs in if p x then some x else rest

-- `b if a is None else a`
abbrev pub or_else {ℓ} : {A : Type ℓ} → Option A → Option A → Option A
or_else none b = b
or_else (some a) b = some a

module _ {ℓ} {A : Type ℓ} (p : A → Bool) where
  -- The value that a dict comprehension keeps for a key: the last element that passes.
  abbrev pub find_last : List A → Option A
  find_last [] = none
  find_last (x ∷ xs) = or_else (find_last xs) (if p x then some x else none)

module _ {ℓ} {A : Type ℓ} (p : A → Bool) where
  pub any_intro : (xs : List A) {x : A} → Memᴰ x xs → p x ≡ true → any p xs ≡ true
  any_intro [] m h = elim m [ ]
  any_intro (y ∷ ys) m h = elim (Memᴰ.cases_cons m) [
    | inl e ↦ rw (ap p (sym e) ∙ h)
    | inr n ↦ ground (arith, any_intro ys n h)
  ]

  pub any_elim : (xs : List A) → any p xs ≡ true → (x : A) × Memᴰ x xs × (p x ≡ true)
  any_elim [] h = cc
  any_elim (x ∷ xs) h = elim (Bool-cases (p x)) [
    | inl passes ↦ (x, Memᴰ.head refl, passes)
    | inr fails ↦ let (y, m, py) = any_elim xs (ground arith) in (y, Memᴰ.tail m, py)
  ]

  pub any-false : (xs : List A) {x : A} → any p xs ≡ false → Memᴰ x xs → p x ≡ false
  any-false [] h m = elim m [ ]
  any-false (y ∷ ys) h m = elim (Memᴰ.cases_cons m) [
    | inl e ↦ ap p e ∙ ground arith
    | inr n ↦ any-false ys (ground arith) n
  ]

  pub any_none : (xs : List A) → ((x : A) → Memᴰ x xs → p x ≡ false) → any p xs ≡ false
  any_none [] h = refl
  any_none (x ∷ xs) h = rw (h x (Memᴰ.head refl)) (any_none xs (λ y m. h y (Memᴰ.tail m)))

  pub all_elim : (xs : List A) {x : A} → all p xs ≡ true → Memᴰ x xs → p x ≡ true
  all_elim [] h m = elim m [ ]
  all_elim (y ∷ ys) h m = elim (Memᴰ.cases_cons m) [
    | inl e ↦ ap p e ∙ ground arith
    | inr n ↦ all_elim ys (ground arith) n
  ]

  pub all_intro : (xs : List A) → ((x : A) → Memᴰ x xs → p x ≡ true) → all p xs ≡ true
  all_intro [] h = refl
  all_intro (x ∷ xs) h = rw (h x (Memᴰ.head refl)) (all_intro xs (λ y m. h y (Memᴰ.tail m)))

  -- A member that breaks the test, where not all pass.
  pub all_fails : (xs : List A) → all p xs ≡ false → (x : A) × Memᴰ x xs × (p x ≡ false)
  all_fails [] h = cc
  all_fails (x ∷ xs) h = elim (Bool-cases (p x)) [
    | inl passes ↦ let (y, m, e) = all_fails xs (ground arith) in (y, Memᴰ.tail m, e)
    | inr fails ↦ (x, Memᴰ.head refl, fails)
  ]

  pub mem-keep : (xs : List A) {x : A} → Memᴰ x xs → p x ≡ true → Memᴰ x (keep p xs)
  mem-keep [] m h = elim m [ ]
  mem-keep (y ∷ ys) m h = elim (Bool-cases (p y)) [
    | inl passes ↦
        rw passes
          (elim (Memᴰ.cases_cons m) [ inl e ↦ Memᴰ.head e | inr n ↦ Memᴰ.tail (mem-keep ys n h) ])
    | inr fails ↦ rw fails (elim (Memᴰ.cases_cons m) [
      | inl e ↦ absurd (false≢true (sym fails ∙ ap p (sym e) ∙ h))
      | inr n ↦ mem-keep ys n h
    ])
  ]

  pub mem_of_mem-keep : (xs : List A) {x : A} → Memᴰ x (keep p xs) → Memᴰ x xs × (p x ≡ true)
  mem_of_mem-keep [] m = elim m [ ]
  mem_of_mem-keep (y ∷ ys) m = elim (Bool-cases (p y)) [
    | inl passes ↦ elim (Memᴰ.cases_cons (rw passes at m)) [
      | inl e ↦ (Memᴰ.head e, ap p e ∙ passes)
      | inr n ↦ let (n', h) = mem_of_mem-keep ys n in (Memᴰ.tail n', h)
    ]
    | inr fails ↦ let (n, h) = mem_of_mem-keep ys (rw fails at m) in (Memᴰ.tail n, h)
  ]

  pub find-eq-some : (xs : List A) {x : A} → find p xs ≡ some x → Memᴰ x xs × (p x ≡ true)
  find-eq-some [] h = cc
  find-eq-some (y ∷ ys) {x} h = elim (Bool-cases (p y)) [
    | inl passes ↦ let e : x ≡ y = ground arith in (Memᴰ.head e, ap p e ∙ passes)
    | inr fails ↦ let (m, e) = find-eq-some ys (rw fails at h) in (Memᴰ.tail m, e)
  ]

  pub find-eq-none : (xs : List A) {x : A} → find p xs ≡ none → Memᴰ x xs → p x ≡ false
  find-eq-none [] h m = elim m [ ]
  find-eq-none (y ∷ ys) {x} h m = elim (Memᴰ.cases_cons m) [
    | inl e ↦ ap p e ∙ ground arith
    | inr n ↦ find-eq-none ys (ground arith) n
  ]

  pub find_last-eq-some : (xs : List A) {x : A} → find_last p xs ≡ some x → Memᴰ x xs × (p x ≡ true)
  find_last-eq-some [] h = cc
  find_last-eq-some (y ∷ ys) {x} h = elim (Option-cases (find_last p ys)) [
    | inl missing ↦ elim (Bool-cases (p y)) [
      | inl passes ↦ let e : x ≡ y = ground arith in (Memᴰ.head e, ap p e ∙ passes)
      | inr fails ↦ absurd (ground arith)
    ]
    | inr (z, found) ↦
        let (m, e) =
          find_last-eq-some ys (let same : find_last p ys ≡ some x = ground arith in same) in
        (Memᴰ.tail m, e)
  ]

  pub find_last-eq-none : (xs : List A) {x : A} → find_last p xs ≡ none → Memᴰ x xs → p x ≡ false
  find_last-eq-none [] h m = elim m [ ]
  find_last-eq-none (y ∷ ys) h m = elim (Memᴰ.cases_cons m) [
    | inl e ↦ ap p e ∙ ground arith
    | inr n ↦ find_last-eq-none ys (ground arith) n
  ]

module _ {ℓ κ} {A : Type ℓ} {B : Type κ} (f : A → B) where
  pub mem-map : {x : A} (xs : List A) → Memᴰ x xs → Memᴰ (f x) (map f xs)
  mem-map [] m = elim m [ ]
  mem-map (y ∷ ys) m = elim (Memᴰ.cases_cons m) [
    | inl e ↦ Memᴰ.head (ap f e)
    | inr n ↦ Memᴰ.tail (mem-map ys n)
  ]

  pub mem_of_mem-map : {y : B} (xs : List A) → Memᴰ y (map f xs) → (x : A) × Memᴰ x xs × (f x ≡ y)
  mem_of_mem-map [] m = elim m [ ]
  mem_of_mem-map (x ∷ xs) m = elim (Memᴰ.cases_cons m) [
    | inl e ↦ (x, Memᴰ.head refl, sym e)
    | inr n ↦ let (z, n', e) = mem_of_mem-map xs n in (z, Memᴰ.tail n', e)
  ]

  pub length-map : (xs : List A) → length (map f xs) ≡ length xs
  length-map [] = refl
  length-map (x ∷ xs) = ap suc (length-map xs)

pub nil_of_empty {ℓ} : {A : Type ℓ} (xs : List A) → ((x : A) → ¬ Memᴰ x xs) → xs ≡ []
nil_of_empty [] h = refl
nil_of_empty (x ∷ xs) h = absurd (h x (Memᴰ.head refl))

pub map_cong {ℓ κ} :
    {A : Type ℓ} {B : Type κ} {f g : A → B} (xs : List A)
    → ((x : A) → Memᴰ x xs → f x ≡ g x)
    → map f xs ≡ map g xs
map_cong [] h = refl
map_cong (x ∷ xs) h = λ i. h x (Memᴰ.head refl) i ∷ map_cong xs (λ y m. h y (Memᴰ.tail m)) i

abbrev pub is_some {ℓ} : {A : Type ℓ} → Option A → Bool
is_some none = false
is_some (some _) = true

abbrev pub is_missing {ℓ} : {A : Type ℓ} → Option A → Bool
is_missing none = true
is_missing (some _) = false

abbrev pub is_nil {ℓ} : {A : Type ℓ} → List A → Bool
is_nil [] = true
is_nil (_ ∷ _) = false
