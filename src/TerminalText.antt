-- ===== src/TerminalText.antt =====
-- The text that may be shown in a terminal, src/devloop/terminal_text.py. A text is the list of its
-- code points.
pub mod Safe
mod Samples
use devloop.Prelude.{
  ℕ, zero, suc, ◌+◌, List, [], ◌∷◌, Option, none, some, Bool, true, false, nat_beq, leb, ◌&&◌, ◌||◌,
  not, if◌then◌else◌, length, any, keep, map, contains, or_else,
}

abbrev is_in : List ℕ → ℕ → Bool
is_in codes char = any (nat_beq char) codes

-- What is left after ESC and a backslash.
abbrev terminated : ℕ → List ℕ → Option (List ℕ)
terminated char [] = none
terminated char (next ∷ rest) = if nat_beq char 27 && nat_beq next 92 then some rest else none

-- `_consume_control_string`: what is left after the sequence.
unfoldable pub consume_control_string : Bool → List ℕ → List ℕ
consume_control_string osc [] = []
consume_control_string osc (char ∷ rest) =
    let later = consume_control_string osc rest in
    if osc && nat_beq char 7
    then rest
    else if nat_beq char 156
    then rest
    else elim (terminated char rest) [ none ↦ later | some more ↦ more ]

-- `_consume_csi`: what is left after the sequence.
unfoldable pub consume_csi : List ℕ → List ℕ
consume_csi [] = []
consume_csi (char ∷ rest) =
    let later = consume_csi rest in if leb 64 char && leb char 126 then rest else later

-- What is left after the sequence that begins with ESC and `rest`, where one does.
unfoldable pub after_escape_char : List ℕ → Option (List ℕ)
after_escape_char [] = none
after_escape_char (introducer ∷ rest) =
    if nat_beq introducer 93
    then some (consume_control_string true rest)
    else if is_in (80 ∷ 88 ∷ 94 ∷ 95 ∷ []) introducer
    then some (consume_control_string false rest)
    else if nat_beq introducer 91
    then some (consume_csi rest)
    else none

-- What is left after the sequence that begins with `char`, where one does: the chain of branches in
-- `_skip_terminal_sequences`.
unfoldable pub after_sequence : ℕ → List ℕ → Option (List ℕ)
after_sequence char rest =
    if nat_beq char 27
    then after_escape_char rest
    else if nat_beq char 157
    then some (consume_control_string true rest)
    else if is_in (144 ∷ 152 ∷ 158 ∷ 159 ∷ []) char
    then some (consume_control_string false rest)
    else if nat_beq char 155
    then some (consume_csi rest)
    else none

-- The loop of `_skip_terminal_sequences`.
unfoldable pub skip_from : ℕ → List ℕ → List ℕ
skip_from zero text = []
skip_from (suc fuel) [] = []
skip_from (suc fuel) (char ∷ rest) = elim (after_sequence char rest) [
  | none ↦ char ∷ skip_from fuel rest
  | some later ↦ skip_from fuel later
]

-- `_skip_terminal_sequences`
abbrev pub skip_terminal_sequences : List ℕ → List ℕ
skip_terminal_sequences text = skip_from (length text + 1) text

-- `_BIDIRECTIONAL_CONTROL_CHARACTERS`
abbrev pub is_bidirectional : ℕ → Bool
is_bidirectional char =
    is_in (1564 ∷ 8206 ∷ 8207 ∷ []) char
    || (leb 8234 char && leb char 8238)
    || (leb 8294 char && leb char 8303)

module _ (is_control : ℕ → Bool) where
  -- The test of `has_unsafe_terminal_controls` on a character; `is_control` says whether the category
  -- that `unicodedata` gives it is Cc, Cs, Zl or Zp.
  abbrev pub is_unsafe : ℕ → Bool
  is_unsafe char = is_control char || is_bidirectional char

  -- `has_unsafe_terminal_controls`
  abbrev pub has_unsafe_terminal_controls : List ℕ → Bool
  has_unsafe_terminal_controls = any is_unsafe

  -- The loop of `sanitize_terminal_text`.
  unfoldable pub sanitize_from : Bool → List ℕ → List ℕ
  sanitize_from preserve_newlines [] = []
  sanitize_from preserve_newlines (char ∷ rest) =
      let safe = sanitize_from preserve_newlines rest in
      if nat_beq char 10
      then (if preserve_newlines then 10 else 32) ∷ safe
      else if is_unsafe char
      then safe
      else char ∷ safe

  -- `sanitize_terminal_text`
  abbrev pub sanitize_terminal_text : Bool → List ℕ → List ℕ
  sanitize_terminal_text preserve_newlines text =
      sanitize_from preserve_newlines (skip_terminal_sequences text)
