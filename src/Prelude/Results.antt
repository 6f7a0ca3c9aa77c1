-- ===== src/Prelude/Results.antt =====
-- Errors as values: what Python raises is `err`, and a `None` returned by a validation is `ok tt`.
use mathlib.Core.Path.{◌≡◌, refl, ap, sym, ◌∙◌}
use mathlib.Core.Logic.{◌⊎◌, inl, inr}
use mathlib.Core.Bool.{Bool, true, false}
use mathlib.Core.Option.{Option, none, some}
use mathlib.Core.List.{List, [], ◌∷◌, Memᴰ}

pub data Result {ℓ} (E A : Type ℓ) : Type ℓ where
  ok : A → Result E A
  err : E → Result E A

-- `if not condition: raise e`
abbrev pub guard : {E : Type 0} → Bool → E → Result E Unit
guard true e = ok tt
guard false e = err e

module _ {ℓ} {E A B : Type ℓ} where
  infixl 5 ◌>>=◌ ◌>>◌
  abbrev pub ◌>>=◌ : Result E A → (A → Result E B) → Result E B
  err e >>= rest = err e
  ok a >>= rest = rest a

  abbrev pub ◌>>◌ : Result E A → Result E B → Result E B
  first >> second = first >>= λ _. second

-- `if condition: raise e`
abbrev pub raise_if : {E : Type 0} → Bool → E → Result E Unit
raise_if true e = err e
raise_if false e = ok tt

-- The value of a lookup, or the error that a missing key raises.
abbrev pub or_raise {ℓ} : {E A : Type ℓ} → E → Option A → Result E A
or_raise e none = err e
or_raise e (some a) = ok a

-- `for x in xs: check(x)`
abbrev pub for_each {ℓ} : {E A : Type ℓ} → (A → Result E (Unit {ℓ})) → List A → Result E (Unit {ℓ})
for_each f [] = ok tt
for_each f (x ∷ xs) = f x >> for_each f xs

-- `tuple(f(x) for x in xs)`, where `f` may raise.
abbrev pub map_result {ℓ} : {E A B : Type ℓ} → (A → Result E B) → List A → Result E (List B)
map_result f [] = ok []
map_result f (x ∷ xs) = f x >>= λ y. map_result f xs >>= λ ys. ok (y ∷ ys)

pub Result-cases {ℓ} :
    {E A : Type ℓ} (r : Result E A) → ((a : A) × (r ≡ ok a)) ⊎ ((e : E) × (r ≡ err e))
Result-cases (ok a) = inl (a, refl)
Result-cases (err e) = inr (e, refl)

module _ {ℓ} {E A B : Type ℓ} (m : Result E A) (rest : A → Result E B) where
  -- Where a chain succeeds, its first step did, and the rest on the value of that step.
  pub >>=-eq-ok : {b : B} → (m >>= rest) ≡ ok b → (a : A) × (m ≡ ok a) × (rest a ≡ ok b)
  >>=-eq-ok h = elim (Result-cases m) [
    | inl (a, e) ↦ (a, e, ap (λ r. r >>= rest) (sym e) ∙ h)
    | inr (e', e) ↦ absurd (cc (ap (λ r. r >>= rest) (sym e) ∙ h))
  ]

  -- Where a chain fails, its first step did, or the rest on the value of that step.
  pub >>=-eq-err :
      {e : E} → (m >>= rest) ≡ err e → (m ≡ err e) ⊎ ((a : A) × (m ≡ ok a) × (rest a ≡ err e))
  >>=-eq-err h = elim (Result-cases m) [
    | inl (a, passed) ↦ inr (a, passed, ap (λ r. r >>= rest) (sym passed) ∙ h)
    | inr (e', failed) ↦ inl (failed ∙ cc (ap (λ r. r >>= rest) (sym failed) ∙ h))
  ]

pub guard-eq-ok : {E : Type 0} (b : Bool) (e : E) {u : Unit {0}} → guard b e ≡ ok u → b ≡ true
guard-eq-ok true e h = refl
guard-eq-ok false e h = cc

pub raise_if-eq-ok :
    {E : Type 0} (b : Bool) (e : E) {u : Unit {0}} → raise_if b e ≡ ok u → b ≡ false
raise_if-eq-ok true e h = cc
raise_if-eq-ok false e h = refl

-- A loop of checks passes exactly when each element passes.
pub for_each-eq-ok {ℓ} :
    {E A : Type ℓ} (f : A → Result E (Unit {ℓ})) (xs : List A) {x : A}
    → for_each f xs ≡ ok tt
    → Memᴰ x xs
    → f x ≡ ok tt
for_each-eq-ok f [] h m = elim m [ ]
for_each-eq-ok f (y ∷ ys) h (Memᴰ.head e) =
    let (u, passed, _) = >>=-eq-ok (f y) (λ _. for_each f ys) h in cc
for_each-eq-ok f (y ∷ ys) h (Memᴰ.tail m) =
    let (u, _, rest) = >>=-eq-ok (f y) (λ _. for_each f ys) h in for_each-eq-ok f ys rest m

pub for_each_ok {ℓ} :
    {E A : Type ℓ} (f : A → Result E (Unit {ℓ})) (xs : List A)
    → ((x : A) → Memᴰ x xs → f x ≡ ok tt)
    → for_each f xs ≡ ok tt
for_each_ok f [] h = refl
for_each_ok f (x ∷ xs) h = rw (h x (Memᴰ.head refl)) (for_each_ok f xs (λ y m. h y (Memᴰ.tail m)))

-- A loop of checks that fails does so at one of its elements.
pub for_each-eq-err {ℓ} :
    {E A : Type ℓ} (f : A → Result E (Unit {ℓ})) (xs : List A) {error : E}
    → for_each f xs ≡ err error
    → (x : A) × Memᴰ x xs × (f x ≡ err error)
for_each-eq-err f [] h = cc
for_each-eq-err f (x ∷ xs) h = elim (>>=-eq-err (f x) (λ _. for_each f xs) h) [
  | inl fails ↦ (x, Memᴰ.head refl, fails)
  | inr (_, _, later) ↦ let (y, m, e) = for_each-eq-err f xs later in (y, Memᴰ.tail m, e)
]

pub err-injective {ℓ} : {E A : Type ℓ} {e e' : E} → ◌≡◌ {A = Result E A} (err e) (err e') → e ≡ e'
err-injective h = cc

pub raise_if-false : {E : Type 0} (b : Bool) (e : E) → b ≡ false → raise_if b e ≡ ok tt
raise_if-false true e h = cc
raise_if-false false e h = refl

-- A step that succeeds hands its value on.
pub ok->>= {ℓ} :
    {E A B : Type ℓ} (m : Result E A) (f : A → Result E B) {a : A} → m ≡ ok a → (m >>= f) ≡ f a
ok->>= m f h = ap (λ r. r >>= f) h

pub or_raise-eq-ok {ℓ} :
    {E A : Type ℓ} (e : E) (found : Option A) {a : A} → or_raise e found ≡ ok a → found ≡ some a
or_raise-eq-ok e none h = cc
or_raise-eq-ok e (some a) h = cc

pub ok-injective {ℓ} : {E A : Type ℓ} {a b : A} → ◌≡◌ {A = Result E A} (ok a) (ok b) → a ≡ b
ok-injective h = cc
