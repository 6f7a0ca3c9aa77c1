-- ===== src/Editor/Moves.antt =====
-- The operations of `TerminalEditor` on its state, src/devloop/terminal_editor.py. The code reads
-- the buffer only before its end: `at` is `false` beyond it.
use devloop.Editor.{char_width, take, drop, get_elem?, slice, Characters, EditorState}
use devloop.Prelude.{
  ℕ, zero, suc, ◌+◌, ◌-◌, List, [], ◌∷◌, ◌++◌, Option, none, some, Bool, false, nat_beq,
  if◌then◌else◌, ltb, not, length, is_nil,
}

abbrev newline : ℕ
newline = 10

-- `set_text`
abbrev pub set_text : EditorState → List ℕ → EditorState
set_text state text = record state { buffer = text; cursor = length text; vertical_column = none }

-- `p(buffer[index])`
abbrev pub at : (ℕ → Bool) → List ℕ → ℕ → Bool
at p buffer index = elim (get_elem? buffer index) [ none ↦ false | some char ↦ p char ]

-- `while index > 0 and p(buffer[index - 1]): index -= 1`
unfoldable pub back_while : (ℕ → Bool) → List ℕ → ℕ → ℕ
back_while p buffer zero = zero
back_while p buffer (suc index) =
    let earlier = back_while p buffer index in if at p buffer index then earlier else suc index

-- The number of elements before the first that fails.
unfoldable pub prefix_length : (ℕ → Bool) → List ℕ → ℕ
prefix_length p [] = zero
prefix_length p (char ∷ rest) =
    let more = suc (prefix_length p rest) in if p char then more else zero

-- `while index < len(buffer) and p(buffer[index]): index += 1`
abbrev pub forward_while : (ℕ → Bool) → List ℕ → ℕ → ℕ
forward_while p buffer index = index + prefix_length p (drop index buffer)

abbrev pub not_newline : ℕ → Bool
not_newline char = not (nat_beq char newline)

-- `_line_start` and `_line_end`
abbrev pub line_start : EditorState → ℕ → ℕ
line_start state index = back_while not_newline state.buffer index

abbrev pub line_end : EditorState → ℕ → ℕ
line_end state index = forward_while not_newline state.buffer index

-- `_insert_text`
unfoldable pub insert_char : EditorState → ℕ → EditorState
insert_char state char = record state {
  buffer = take state.cursor state.buffer ++ char ∷ drop state.cursor state.buffer;
  cursor = suc state.cursor;
}

unfoldable pub insert_text : EditorState → List ℕ → EditorState
unfolding insert_char
insert_text state [] = record state { vertical_column = none }
insert_text state (char ∷ text) = insert_text (insert_char state char) text

-- `del state.buffer[index]`
abbrev pub delete_index : List ℕ → ℕ → List ℕ
delete_index buffer index = take index buffer ++ drop (suc index) buffer

-- The branch of `_edit` on a backspace.
unfoldable pub backspace : EditorState → EditorState
backspace state =
    if ltb 0 state.cursor
    then (record state {
      buffer = delete_index state.buffer (state.cursor - 1);
      cursor = state.cursor - 1;
      vertical_column = none;
    })
    else state

-- `_delete_at_cursor`
unfoldable pub delete_at_cursor : EditorState → EditorState
delete_at_cursor state =
    if ltb state.cursor (length state.buffer)
    then (record state { buffer = delete_index state.buffer state.cursor; vertical_column = none })
    else state

abbrev pub min : ℕ → ℕ → ℕ
min a b = if ltb a b then a else b

abbrev pub max : ℕ → ℕ → ℕ
max a b = if ltb a b then b else a

-- `_delete_range`, after its bounds are clamped.
unfoldable pub cut : EditorState → ℕ → ℕ → EditorState
cut state start end = if nat_beq start end then state else (record state {
  buffer = take start state.buffer ++ drop end state.buffer;
  cursor = start;
  vertical_column = none;
})

-- `_delete_range`
unfoldable pub delete_range : EditorState → ℕ → ℕ → EditorState
delete_range state first last =
    let start = min first (length state.buffer) in
    cut state start (max start (min last (length state.buffer)))

-- `_move_left` and `_move_right`
unfoldable pub move_left : EditorState → EditorState
move_left state = record state {
  cursor = if ltb 0 state.cursor then state.cursor - 1 else state.cursor;
  vertical_column = none;
}

unfoldable pub move_right : EditorState → EditorState
move_right state = record state {
  cursor = if ltb state.cursor (length state.buffer) then suc state.cursor else state.cursor;
  vertical_column = none;
}

-- `_move_to_line_start` and `_move_to_line_end`
unfoldable pub move_to_line_start : EditorState → EditorState
move_to_line_start state = record state {
  cursor = line_start state state.cursor;
  vertical_column = none;
}

unfoldable pub move_to_line_end : EditorState → EditorState
move_to_line_end state = record state {
  cursor = line_end state state.cursor;
  vertical_column = none;
}

module _ (characters : Characters) where
  open characters use {is_space}

  abbrev pub not_space : ℕ → Bool
  not_space char = not (is_space char)

  -- The two loops of `_delete_word_before` and `_move_word_left`.
  abbrev pub word_before : EditorState → ℕ
  word_before state =
      back_while not_space state.buffer (back_while is_space state.buffer state.cursor)

  -- `_delete_word_before`
  unfoldable pub delete_word_before : EditorState → EditorState
  delete_word_before state = delete_range state (word_before state) state.cursor

  -- `_move_word_left` and `_move_word_right`
  unfoldable pub move_word_left : EditorState → EditorState
  move_word_left state = record state { cursor = word_before state; vertical_column = none }

  unfoldable pub move_word_right : EditorState → EditorState
  move_word_right state = record state {
    cursor =
        forward_while not_space state.buffer (forward_while is_space state.buffer state.cursor);
    vertical_column = none;
  }

  -- `_text_width`
  abbrev pub text_width : List ℕ → ℕ
  text_width [] = 0
  text_width (char ∷ rest) =
      let more = text_width rest in
      if not_newline char then char_width characters char + more else more

  -- The loop of `_index_for_column` over the characters from `index` on.
  unfoldable pub column_index : ℕ → ℕ → ℕ → List ℕ → ℕ
  column_index target column index [] = index
  column_index target column index (char ∷ rest) =
      let later = column_index target (column + char_width characters char) (suc index) rest in
      if ltb target (column + char_width characters char) then index else later

  -- `_index_for_column`
  abbrev pub index_for_column : ℕ → ℕ → ℕ → EditorState → ℕ
  index_for_column start end target state =
      column_index target 0 start (slice start end state.buffer)

  -- The column that `_move_up` and `_move_down` keep.
  abbrev pub target_column : EditorState → ℕ
  target_column state = elim state.vertical_column [
    | none ↦ text_width (slice (line_start state state.cursor) state.cursor state.buffer)
    | some column ↦ column
  ]

module _ (history : List (List ℕ)) where
  -- `state.set_text(self.history[index])`
  abbrev pub recall : EditorState → ℕ → EditorState
  recall state index = elim (get_elem? history index) [
    | none ↦ state
    | some text ↦ set_text state text
  ]

  abbrev pub previous_entry : EditorState → Option ℕ → EditorState
  previous_entry state none =
      let last = length history - 1 in
      recall (record state { stash = state.buffer; history_index = some last }) last
  previous_entry state (some zero) = recall state 0
  previous_entry state (some (suc index)) =
      recall (record state { history_index = some index }) index

  -- `_history_previous`
  unfoldable pub history_previous : EditorState → EditorState
  history_previous state =
      if is_nil history then state else previous_entry state state.history_index

  abbrev pub next_entry : EditorState → Option ℕ → EditorState
  next_entry state none = state
  next_entry state (some index) =
      if ltb index (length history - 1)
      then recall (record state { history_index = some (suc index) }) (suc index)
      else set_text (record state { history_index = none }) state.stash

  -- `_history_next`
  unfoldable pub history_next : EditorState → EditorState
  history_next state = next_entry state state.history_index

module _ (characters : Characters) (history : List (List ℕ)) where
  -- `_move_up` and `_move_down`
  unfoldable pub move_up : EditorState → EditorState
  move_up state =
      let start = line_start state state.cursor in
      if nat_beq start 0
      then history_previous history state
      else (let column = target_column characters state in
          let previous_end = start - 1 in
          let previous_start = line_start state previous_end in
          record state {
            cursor = index_for_column characters previous_start previous_end column state;
            vertical_column = some column;
          })

  unfoldable pub move_down : EditorState → EditorState
  move_down state =
      let end = line_end state state.cursor in
      if nat_beq end (length state.buffer)
      then history_next history state
      else (let column = target_column characters state in
          let next_start = end + 1 in
          let next_end = line_end state next_start in
          record state {
            cursor = index_for_column characters next_start next_end column state;
            vertical_column = some column;
          })
