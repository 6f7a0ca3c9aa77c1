-- ===== src/Protocol/Stream/Lines.antt =====
-- The lines of a buffer of `PortableProtocolStreamDecoder`, src/devloop/portable_protocol.py, when
-- bytes are added to it.
use devloop.Protocol.Stream.{
  split_line, unterminated_frame_is_oversized, ends_with_return, without_last,
}
use devloop.Protocol.{max_frame_bytes}
use mathlib.Core.List
use devloop.Prelude.{
  if◌then◌else◌, ◌≤◌, ltb, Option, Option-cases, Bool-cases, some, none, List, [], ◌∷◌, ◌++◌, ℕ,
  ◌+◌, ◌≡◌, ◌⊎◌, ◌∙◌, sym, ap, refl, inl, inr, arith, length, length-append, true, false, nat_beq,
}

some_pair :
    {A B : Type 0} {a c : A} {b d : B}
    → ◌≡◌ {A = Option (A × B)} (some (a, b)) (some (c, d))
    → (a ≡ c) × (b ≡ d)
some_pair {A} {B} {a} {c} {b} {d} h =
    let e : (a, b) ≡ (c, d) = cc in (ap (λ (p : A × B). p.0) e, ap (λ (p : A × B). p.1) e)

-- The steps of the search for a newline.
split_line-cases :
    (x : ℕ) (xs : List ℕ)
    → (split_line (x ∷ xs) ≡ some ([], xs))
        × ((ys : List ℕ) → split_line (x ∷ xs ++ ys) ≡ some ([], xs ++ ys))
      ⊎ ((nat_beq x 10 ≡ false)
          × (((split_line xs ≡ none) × (split_line (x ∷ xs) ≡ none))
              ⊎ ((found : List ℕ × List ℕ) × (split_line xs ≡ some found)
                  × (split_line (x ∷ xs) ≡ some (x ∷ found.0, found.1)))))
unfolding split_line
split_line-cases x xs = elim (Bool-cases (nat_beq x 10)) [
  | inl newline ↦ inl (rw newline refl, λ ys. rw newline refl)
  | inr other ↦ inr (
    other,
    elim (Option-cases (split_line xs)) [
      | inl missing ↦ inl (missing, rw other (rw missing refl))
      | inr (found, e) ↦ inr (found, e, rw other (rw e refl))
    ],
  )
]

split_line-skip :
    (x : ℕ) (xs : List ℕ) {found : List ℕ × List ℕ}
    → nat_beq x 10 ≡ false
    → split_line xs ≡ some found
    → split_line (x ∷ xs) ≡ some (x ∷ found.0, found.1)
unfolding split_line
split_line-skip x xs other e = rw other (rw e refl)

split_line-skip_none :
    (x : ℕ) (xs : List ℕ) → nat_beq x 10 ≡ false → split_line xs ≡ none → split_line (x ∷ xs) ≡ none
unfolding split_line
split_line-skip_none x xs other e = rw other (rw e refl)

-- A line ends at the first newline: the bytes are it, the newline, and the rest.
pub length-split_line :
    (xs : List ℕ) {line rest : List ℕ}
    → split_line xs ≡ some (line, rest)
    → length xs ≡ length line + length rest + 1
unfolding split_line
length-split_line [] h = cc
length-split_line (x ∷ xs) {line} {rest} h = elim (split_line-cases x xs) [
  | inl (e, _) ↦ let (a, b) = some_pair (sym h ∙ e) in omega (arith, ap length a, ap length b)
  | inr (_, inl (_, e)) ↦ absurd (cc (sym h ∙ e))
  | inr (_, inr ((l, r), found, e)) ↦
      let (a, b) = some_pair (sym h ∙ e) in
      omega (arith, ap length a, ap length b, length-split_line xs found)
]

-- A line that is complete stays the first one when bytes follow.
pub split_line-append :
    (xs ys : List ℕ) {line rest : List ℕ}
    → split_line xs ≡ some (line, rest)
    → split_line (xs ++ ys) ≡ some (line, rest ++ ys)
unfolding split_line
split_line-append [] ys h = cc
split_line-append (x ∷ xs) ys {line} {rest} h = elim (split_line-cases x xs) [
  | inl (e, extended) ↦
      let (a, b) = some_pair (sym e ∙ h) in extended ys ∙ λ i. some (a i, b i ++ ys)
  | inr (_, inl (_, e)) ↦ absurd (cc (sym h ∙ e))
  | inr (other, inr ((l, r), found, e)) ↦
      let (a, b) = some_pair (sym e ∙ h) in
      split_line-skip x (xs ++ ys) other (split_line-append xs ys found) ∙ λ i.
      some (a i, b i ++ ys)
]

-- A line that is not complete is the start of the next one.
pub split_line-append_start :
    (xs ys : List ℕ) {line rest : List ℕ}
    → split_line xs ≡ none
    → split_line ys ≡ some (line, rest)
    → split_line (xs ++ ys) ≡ some (xs ++ line, rest)
unfolding split_line
split_line-append_start [] ys h e = e
split_line-append_start (x ∷ xs) ys h e = elim (split_line-cases x xs) [
  | inl (e', _) ↦ absurd (cc (sym h ∙ e'))
  | inr (other, inl (missing, _)) ↦
      split_line-skip x (xs ++ ys) other (split_line-append_start xs ys missing e)
  | inr (_, inr (_, _, e')) ↦ absurd (cc (sym h ∙ e'))
]

pub split_line-append_none :
    (xs ys : List ℕ) → split_line xs ≡ none → split_line ys ≡ none → split_line (xs ++ ys) ≡ none
unfolding split_line
split_line-append_none [] ys h e = e
split_line-append_none (x ∷ xs) ys h e = elim (split_line-cases x xs) [
  | inl (e', _) ↦ absurd (cc (sym h ∙ e'))
  | inr (other, inl (missing, _)) ↦
      split_line-skip_none x (xs ++ ys) other (split_line-append_none xs ys missing e)
  | inr (_, inr (_, _, e')) ↦ absurd (cc (sym h ∙ e'))
]

length-without_last : (xs : List ℕ) → length xs ≤ length (without_last xs) + 1
length-without_last [] = omega arith
length-without_last (b ∷ []) = omega arith
length-without_last (b ∷ c ∷ rest) = omega (arith, length-without_last (c ∷ rest))

-- A buffer that is too long for a frame stays so, whatever follows.
pub oversized-append :
    (xs ys : List ℕ)
    → unterminated_frame_is_oversized xs ≡ true
    → unterminated_frame_is_oversized (xs ++ ys) ≡ true
unfolding unterminated_frame_is_oversized
oversized-append xs [] h = ap unterminated_frame_is_oversized (List.append-nil xs) ∙ h
oversized-append xs (y ∷ ys) h = ground (arith, length-append xs (y ∷ ys))

-- The line that begins with such a buffer is refused.
pub oversized-line :
    (xs : List ℕ)
    → unterminated_frame_is_oversized xs ≡ true
    → ltb max_frame_bytes (length (if ends_with_return xs then without_last xs else xs)) ≡ true
unfolding unterminated_frame_is_oversized
oversized-line xs h = ground (arith, length-without_last xs)
