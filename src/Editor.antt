-- ===== src/Editor.antt =====
-- The composer of src/devloop/terminal_editor.py: the state of a line that is edited, and what the
-- keys do to it (Moves, Keys). A text is the list of its code points.
pub mod Moves
mod Texts
pub mod Bounds
pub mod Kept
pub mod Loop
pub mod Edits
pub mod Typed
pub mod Words
pub mod Recall
pub mod Keys
mod Samples
use devloop.Prelude.{
  ℕ, zero, suc, ◌+◌, ◌-◌, List, [], ◌∷◌, ◌++◌, Option, none, some, Bool, true, false, nat_beq,
  if◌then◌else◌,
}

module _ {ℓ} {A : Type ℓ} where
  -- `xs[:n]`
  abbrev pub take : ℕ → List A → List A
  take zero xs = []
  take (suc n) [] = []
  take (suc n) (x ∷ xs) = x ∷ take n xs

  -- `xs[n:]`
  abbrev pub drop : ℕ → List A → List A
  drop zero xs = xs
  drop (suc n) [] = []
  drop (suc n) (x ∷ xs) = drop n xs

  -- `xs[n]`, where it is in the list.
  abbrev pub get_elem? : List A → ℕ → Option A
  get_elem? [] n = none
  get_elem? (x ∷ xs) zero = some x
  get_elem? (x ∷ xs) (suc n) = get_elem? xs n

-- `xs[start:end]`
abbrev pub slice : ℕ → ℕ → List ℕ → List ℕ
slice start end xs = drop start (take end xs)

-- What the code takes from elsewhere: the tests of Python's characters, and those of `unicodedata`:
-- the category is one of C, the character combines, and its width is F or W.
pub record Characters : Type 0 where
  pub is_space : ℕ → Bool
  pub is_printable : ℕ → Bool
  pub is_alpha : ℕ → Bool
  pub is_other : ℕ → Bool
  pub is_combining : ℕ → Bool
  pub is_wide : ℕ → Bool

-- `_char_width`
abbrev pub char_width : Characters → ℕ → ℕ
char_width characters char =
    if nat_beq char 9
    then 4
    else if characters.is_other char
    then 0
    else if characters.is_combining char
    then 0
    else if characters.is_wide char
    then 2
    else 1

-- `_EditorState`, but for what `_render` has written.
pub record EditorState : Type 0 where
  pub buffer : List ℕ
  pub cursor : ℕ
  pub history_index : Option ℕ
  pub stash : List ℕ
  pub vertical_column : Option ℕ

abbrev pub new_state : EditorState
new_state = record {
  buffer = [];
  cursor = 0;
  history_index = none;
  stash = [];
  vertical_column = none;
}
