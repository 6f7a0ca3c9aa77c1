-- ===== src/TerminalText/Safe.antt =====
-- What src/devloop/terminal_text.py leaves of a text.
use devloop.TerminalText.{
  after_escape_char, skip_from, after_sequence, consume_control_string, consume_csi, is_unsafe,
  has_unsafe_terminal_controls, sanitize_from, sanitize_terminal_text, skip_terminal_sequences,
}
use devloop.Prelude.{
  zero, subst, ap, none, any, Option-cases, ◌<◌, suc, true, some, Option, if_both, ℕ, ◌≤◌, List, [],
  ◌∷◌, ◌≡◌, refl, Bool, false, nat_beq, arith, length, Bool-cases, inl, inr,
}

consume_control_string-le :
    (osc : Bool) (text : List ℕ) → length (consume_control_string osc text) ≤ length text
unfolding consume_control_string
consume_control_string-le osc [] = omega arith
consume_control_string-le osc (char ∷ []) = ground (arith, consume_control_string-le osc [])
consume_control_string-le osc (char ∷ next ∷ rest) =
    ground (arith, consume_control_string-le osc (next ∷ rest))

consume_csi-le : (text : List ℕ) → length (consume_csi text) ≤ length text
unfolding consume_csi
consume_csi-le [] = omega arith
consume_csi-le (char ∷ rest) = ground (arith, consume_csi-le rest)

-- What is left, where anything is, is no longer than this.
abbrev IsWithin : ℕ → Option (List ℕ) → Type 0
IsWithin n none = Unit
IsWithin n (some later) = length later ≤ n

after_escape_char-IsWithin : (rest : List ℕ) → IsWithin (length rest) (after_escape_char rest)
unfolding after_escape_char
after_escape_char-IsWithin [] = tt
after_escape_char-IsWithin (introducer ∷ rest) =
    let P = IsWithin (suc (length rest)) in
    if_both P (nat_beq introducer 93) (omega (arith, consume_control_string-le true rest)) (
      if_both P (any (nat_beq introducer) (80 ∷ 88 ∷ 94 ∷ 95 ∷ []))
        (omega (arith, consume_control_string-le false rest))
        (if_both P (nat_beq introducer 91) (omega (arith, consume_csi-le rest)) tt))

after_sequence-IsWithin :
    (char : ℕ) (rest : List ℕ) → IsWithin (length rest) (after_sequence char rest)
unfolding after_sequence
after_sequence-IsWithin char rest =
    let P = IsWithin (length rest) in
    if_both P (nat_beq char 27) (after_escape_char-IsWithin rest) (
      if_both P (nat_beq char 157) (consume_control_string-le true rest) (
        if_both P (any (nat_beq char) (144 ∷ 152 ∷ 158 ∷ 159 ∷ []))
          (consume_control_string-le false rest)
          (if_both P (nat_beq char 155) (consume_csi-le rest) tt)))

-- Rounds beyond the number of characters change nothing.
pub skip_from-fuel :
    (n m : ℕ) (text : List ℕ)
    → length text < n
    → length text < m
    → skip_from n text ≡ skip_from m text
unfolding skip_from
skip_from-fuel zero m text h h' = absurd (omega arith)
skip_from-fuel (suc n) zero text h h' = absurd (omega arith)
skip_from-fuel (suc n) (suc m) [] h h' = refl
skip_from-fuel (suc n) (suc m) (char ∷ rest) h h' = elim (Option-cases (after_sequence char rest)) [
  | inl none_begins ↦
      rw (none_begins, skip_from)
        (ap (λ (r : List ℕ). char ∷ r) (skip_from-fuel n m rest (omega arith) (omega arith)))
  | inr (later, begins) ↦
      let shorter : length later ≤ length rest =
        subst (IsWithin (length rest)) begins (after_sequence-IsWithin char rest) in
      rw (begins, skip_from) (skip_from-fuel n m later (omega arith) (omega arith))
]

safe_line :
    (is_control : ℕ → Bool) (text : List ℕ)
    → is_control 32 ≡ false
    → has_unsafe_terminal_controls is_control (sanitize_from is_control false text) ≡ false
unfolding sanitize_from
safe_line is_control [] h = refl
safe_line is_control (char ∷ rest) h = elim (Bool-cases (nat_beq char 10)) [
  | inl newline ↦ rw newline (rw h (safe_line is_control rest h))
  | inr other ↦ elim (Bool-cases (is_unsafe is_control char)) [
    | inl unsafe ↦ rw other (rw unsafe (safe_line is_control rest h))
    | inr safe ↦ rw other (rw safe (rw safe (safe_line is_control rest h)))
  ]
]

-- Where the space is safe, a text for one line has no unsafe character.
pub sanitize_terminal_text-safe :
    (is_control : ℕ → Bool) (text : List ℕ)
    → is_control 32 ≡ false
    → has_unsafe_terminal_controls is_control (sanitize_terminal_text is_control false text) ≡ false
sanitize_terminal_text-safe is_control text h =
    safe_line is_control (skip_terminal_sequences text) h
