-- ===== src/Editor/Bounds.antt =====
-- The cursor stays in the buffer and the history index in the history, whatever is done to the state
-- of src/devloop/terminal_editor.py.
use devloop.Editor.Texts.{length-take, back_while-le, forward_while-le, index_for_column-le}
use devloop.Editor.Moves.{
  min, cut, set_text, insert_text, insert_char, backspace, delete_at_cursor, delete_range,
  delete_word_before, move_left, move_right, move_up, move_down, move_word_left, move_word_right,
  move_to_line_start, move_to_line_end, line_start, line_end, word_before, back_while, not_newline,
  not_space, history_previous, history_next, recall, next_entry, previous_entry, target_column,
}
use devloop.Editor.{take, drop, get_elem?, Characters, EditorState, new_state}
use devloop.Prelude.{
  ℕ, zero, suc, ◌+◌, ◌-◌, ◌≤◌, ◌<◌, List, [], ◌∷◌, ◌++◌, ◌≡◌, Option, none, some, false, arith,
  length, length-append, inl, inr, Bool-cases, ltb, nat_beq, is_nil,
}

abbrev pub IndexIn : List (List ℕ) → Option ℕ → Type 0
IndexIn history none = Unit
IndexIn history (some index) = index < length history

pub record IsInBounds (history : List (List ℕ)) (state : EditorState) : Type 0 where
  pub cursor_in : state.cursor ≤ length state.buffer
  pub index_in : IndexIn history state.history_index

pub new_state-IsInBounds : (history : List (List ℕ)) → IsInBounds history new_state
new_state-IsInBounds history = record { cursor_in = omega arith; index_in = tt }

-- A buffer of which a part is taken out has all that stood before the part.
joined-le :
    (start end : ℕ) (buffer : List ℕ)
    → start ≤ length buffer
    → start ≤ length (take start buffer ++ drop end buffer)
joined-le start end buffer h =
    omega (arith, length-append (take start buffer) (drop end buffer), length-take start buffer h)

word_before-le :
    (characters : Characters) (state : EditorState) → word_before characters state ≤ state.cursor
word_before-le characters state = omega (
  arith,
  back_while-le characters.is_space state.buffer state.cursor,
  back_while-le (not_space characters) state.buffer
      (back_while characters.is_space state.buffer state.cursor),
)

some_entry : {A : Type 0} (xs : List A) → is_nil xs ≡ false → 0 < length xs
some_entry [] h = cc
some_entry (x ∷ xs) h = omega arith

module _ {history : List (List ℕ)} where
  pub insert_text-IsInBounds :
      (state : EditorState) (text : List ℕ)
      → IsInBounds history state
      → IsInBounds history (insert_text state text)
  unfolding insert_text insert_char
  insert_text-IsInBounds state [] h = record { cursor_in = h.cursor_in; index_in = h.index_in }
  insert_text-IsInBounds state (char ∷ text) h =
      insert_text-IsInBounds (insert_char state char) text (record {
        cursor_in = omega (
          arith,
          h.cursor_in,
          length-append (take state.cursor state.buffer) (char ∷ drop state.cursor state.buffer),
          length-take state.cursor state.buffer h.cursor_in,
        );
        index_in = h.index_in;
      })

  pub backspace-IsInBounds :
      (state : EditorState) → IsInBounds history state → IsInBounds history (backspace state)
  unfolding backspace
  backspace-IsInBounds state h = elim (Bool-cases (ltb 0 state.cursor)) [
    | inl inside ↦ rw inside (record {
      cursor_in =
          joined-le (state.cursor - 1) (suc (state.cursor - 1)) state.buffer
            (omega (arith, h.cursor_in));
      index_in = h.index_in;
    })
    | inr start ↦ rw start h
  ]

  pub delete_at_cursor-IsInBounds :
      (state : EditorState) → IsInBounds history state → IsInBounds history (delete_at_cursor state)
  unfolding delete_at_cursor
  delete_at_cursor-IsInBounds state h = elim (Bool-cases (ltb state.cursor (length state.buffer))) [
    | inl inside ↦ rw inside (record {
      cursor_in = joined-le state.cursor (suc state.cursor) state.buffer h.cursor_in;
      index_in = h.index_in;
    })
    | inr end ↦ rw end h
  ]

  pub delete_range-IsInBounds :
      (state : EditorState) (first last : ℕ)
      → IsInBounds history state
      → IsInBounds history (delete_range state first last)
  unfolding delete_range cut
  delete_range-IsInBounds state first last h =
      clamped (min first (length state.buffer)) _ (ground arith)
    where
      clamped :
          (start end : ℕ) → start ≤ length state.buffer → IsInBounds history (cut state start end)
      clamped start end inside = elim (Bool-cases (nat_beq start end)) [
        | inl empty ↦ rw empty h
        | inr some_text ↦
            rw some_text (record {
              cursor_in = joined-le start end state.buffer inside;
              index_in = h.index_in;
            })
      ]

  -- A move of the cursor inside the buffer.
  moved :
      {state : EditorState} {cursor : ℕ} {column : Option ℕ}
      → IsInBounds history state
      → cursor ≤ length state.buffer
      → IsInBounds history (record state { cursor = cursor; vertical_column = column })
  moved h inside = record { cursor_in = inside; index_in = h.index_in }

  pub move_left-IsInBounds :
      (state : EditorState) → IsInBounds history state → IsInBounds history (move_left state)
  unfolding move_left
  move_left-IsInBounds state h = moved h (ground (arith, h.cursor_in))

  pub move_right-IsInBounds :
      (state : EditorState) → IsInBounds history state → IsInBounds history (move_right state)
  unfolding move_right
  move_right-IsInBounds state h = moved h (ground (arith, h.cursor_in))

  pub move_to_line_start-IsInBounds :
      (state : EditorState)
      → IsInBounds history state
      → IsInBounds history (move_to_line_start state)
  unfolding move_to_line_start
  move_to_line_start-IsInBounds state h =
      moved h (omega (arith, h.cursor_in, back_while-le not_newline state.buffer state.cursor))

  pub move_to_line_end-IsInBounds :
      (state : EditorState) → IsInBounds history state → IsInBounds history (move_to_line_end state)
  unfolding move_to_line_end
  move_to_line_end-IsInBounds state h =
      moved h (forward_while-le not_newline state.buffer state.cursor h.cursor_in)

  recall-IsInBounds :
      (state : EditorState) (index : ℕ)
      → IsInBounds history state
      → IsInBounds history (recall history state index)
  recall-IsInBounds state index h = recalled (get_elem? history index)
    where
      recalled :
          (entry : Option (List ℕ))
          → IsInBounds history (elim entry [ none ↦ state | some text ↦ set_text state text ])
      recalled none = h
      recalled (some text) = record { cursor_in = omega arith; index_in = h.index_in }

  pub history_previous-IsInBounds :
      (state : EditorState)
      → IsInBounds history state
      → IsInBounds history (history_previous history state)
  unfolding history_previous
  history_previous-IsInBounds state h = elim (Bool-cases (is_nil history)) [
    | inl empty ↦ rw empty h
    | inr entries ↦ rw entries (entry (some_entry history entries) state.history_index h.index_in)
  ]
    where
      entry :
          0 < length history
          → (index : Option ℕ) → IndexIn history index
          → IsInBounds history (previous_entry history state index)
      entry nonempty none inside =
          recall-IsInBounds _ _
            (record { cursor_in = h.cursor_in; index_in = omega (arith, nonempty) })
      entry nonempty (some zero) inside = recall-IsInBounds state 0 h
      entry nonempty (some (suc index)) inside =
          recall-IsInBounds _ index
            (record { cursor_in = h.cursor_in; index_in = omega (arith, inside) })

  pub history_next-IsInBounds :
      (state : EditorState)
      → IsInBounds history state
      → IsInBounds history (history_next history state)
  unfolding history_next
  history_next-IsInBounds state h = entry state.history_index
    where
      entry : (index : Option ℕ) → IsInBounds history (next_entry history state index)
      entry none = h
      entry (some index) = elim (Bool-cases (ltb index (length history - 1))) [
        | inl later ↦ rw later (
            recall-IsInBounds _ (suc index)
              (record { cursor_in = h.cursor_in; index_in = ground arith }))
        | inr last ↦ rw last (record { cursor_in = omega arith; index_in = tt })
      ]

  module _ (characters : Characters) where
    pub delete_word_before-IsInBounds :
        (state : EditorState)
        → IsInBounds history state
        → IsInBounds history (delete_word_before characters state)
    unfolding delete_word_before
    delete_word_before-IsInBounds state h =
        delete_range-IsInBounds state (word_before characters state) state.cursor h

    pub move_word_left-IsInBounds :
        (state : EditorState)
        → IsInBounds history state
        → IsInBounds history (move_word_left characters state)
    unfolding move_word_left
    move_word_left-IsInBounds state h =
        moved h (omega (arith, h.cursor_in, word_before-le characters state))

    pub move_word_right-IsInBounds :
        (state : EditorState)
        → IsInBounds history state
        → IsInBounds history (move_word_right characters state)
    unfolding move_word_right
    move_word_right-IsInBounds state h = moved h (
        forward_while-le (not_space characters) state.buffer _
          (forward_while-le characters.is_space state.buffer state.cursor h.cursor_in))

    pub move_up-IsInBounds :
        (state : EditorState)
        → IsInBounds history state
        → IsInBounds history (move_up characters history state)
    unfolding move_up
    move_up-IsInBounds state h = elim (Bool-cases (nat_beq start 0)) [
      | inl first ↦ rw first (history_previous-IsInBounds state h)
      | inr later ↦ rw later (
          moved h (
            omega (
              arith,
              h.cursor_in,
              back_while-le not_newline state.buffer state.cursor,
              index_for_column-le characters (line_start state (start - 1)) (start - 1)
                  (target_column characters state) state
                  (back_while-le not_newline state.buffer (start - 1)),
            )))
    ]
      where
        start : ℕ
        start = line_start state state.cursor

    pub move_down-IsInBounds :
        (state : EditorState)
        → IsInBounds history state
        → IsInBounds history (move_down characters history state)
    unfolding move_down
    move_down-IsInBounds state h = elim (Bool-cases (nat_beq end (length state.buffer))) [
      | inl last ↦ rw last (history_next-IsInBounds state h)
      | inr earlier ↦
          let inside : end ≤ length state.buffer =
            forward_while-le not_newline state.buffer state.cursor h.cursor_in in
          let before : end + 1 ≤ length state.buffer = ground arith in
          rw earlier (
            moved h (
              omega (
                arith,
                forward_while-le not_newline state.buffer (end + 1) before,
                index_for_column-le characters (end + 1) (line_end state (end + 1))
                    (target_column characters state) state (omega arith),
              )))
    ]
      where
        end : ℕ
        end = line_end state state.cursor
