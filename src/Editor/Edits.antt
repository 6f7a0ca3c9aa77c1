-- ===== src/Editor/Edits.antt =====
-- What the edits of src/devloop/terminal_editor.py do to the text before and after the cursor.
use devloop.Editor.Texts.{length-take, take-append, drop-append, take-drop}
use devloop.Editor.Moves.{insert_text, insert_char, backspace}
use devloop.Editor.{take, drop, EditorState}
use devloop.Prelude.{
  none, ℕ, zero, suc, ◌-◌, ◌≤◌, List, [], ◌∷◌, ◌++◌, ◌≡◌, refl, ap, sym, ◌∙◌, true, arith, length,
  length-append, ltb,
}
use mathlib.Core.List

-- A state after an edit, with its cursor between two texts.
abbrev pub between : EditorState → List ℕ → List ℕ → EditorState
between state before after = record state {
  buffer = before ++ after;
  cursor = length before;
  vertical_column = none;
}

-- The backspace key, pressed so many times.
unfoldable pub backspaces : ℕ → EditorState → EditorState
backspaces zero state = state
backspaces (suc n) state = backspace (backspaces n state)

between_at :
    (state : EditorState) (before after : List ℕ) {buffer : List ℕ} {cursor : ℕ}
    → before ++ after ≡ buffer
    → length before ≡ cursor
    → between state before after
      ≡ record state { buffer = buffer; cursor = cursor; vertical_column = none }
between_at state before after e n =
    λ i. record state { buffer = e i; cursor = n i; vertical_column = none }

insert_char-between :
    (state : EditorState) (before after : List ℕ) (char : ℕ)
    → insert_char (between state before after) char ≡ between state (before ++ char ∷ []) after
unfolding insert_char
insert_char-between state before after char =
    let before_char = before ++ char ∷ [] in
    sym (
      between_at state before_char after
        (List.append_assoc before (char ∷ []) after
          ∙ sym (λ i.
            take-append (length before) before after refl i
            ++ char ∷ drop-append (length before) before after refl i))
        (omega (arith, length-append before (char ∷ []))))

pub insert_text-between :
    (state : EditorState) (before text after : List ℕ)
    → insert_text (between state before after) text ≡ between state (before ++ text) after
unfolding insert_text
insert_text-between state before [] after =
    ap (λ (b : List ℕ). between state b after) (sym (List.append-nil before))
insert_text-between state before (char ∷ text) after =
    ap (λ (s : EditorState). insert_text s text) (insert_char-between state before after char)
    ∙ insert_text-between state (before ++ char ∷ []) text after
    ∙ ap (λ (b : List ℕ). between state b after) (List.append_assoc before (char ∷ []) text)

backspace-between :
    (state : EditorState) (before after : List ℕ) (char : ℕ)
    → backspace (between state (before ++ char ∷ []) after) ≡ between state before after
unfolding backspace
backspace-between state before after char =
    let cursor : length (before ++ char ∷ []) ≡ suc (length before) =
      omega (arith, length-append before (char ∷ [])) in
    let inside : ltb 0 (length (before ++ char ∷ [])) ≡ true = ground arith in
    let back : length (before ++ char ∷ []) - 1 ≡ length before = omega arith in
    let left : take (length before) (before ++ char ∷ [] ++ after) ≡ before =
      ap (take (length before)) (List.append_assoc before (char ∷ []) after)
      ∙ take-append (length before) before (char ∷ [] ++ after) refl in
    let right : drop (suc (length before)) (before ++ char ∷ [] ++ after) ≡ after =
      drop-append (suc (length before)) (before ++ char ∷ []) after cursor in
    rw inside (
      rw back (λ i. record state {
        buffer = left i ++ right i;
        cursor = length before;
        vertical_column = none;
      }))

backspaces-between :
    (state : EditorState) (before text after : List ℕ)
    → backspaces (length text) (between state (before ++ text) after) ≡ between state before after
unfolding backspaces
backspaces-between state before [] after =
    ap (λ (b : List ℕ). between state b after) (List.append-nil before)
backspaces-between state before (char ∷ text) after =
    ap (λ (b : List ℕ). backspace (backspaces (length text) (between state b after)))
      (sym (List.append_assoc before (char ∷ []) text))
    ∙ ap backspace (backspaces-between state (before ++ char ∷ []) text after)
    ∙ backspace-between state before after char

insert_text-column :
    (state : EditorState) (text : List ℕ)
    → insert_text state text ≡ insert_text (record state { vertical_column = none }) text
unfolding insert_text insert_char
insert_text-column state [] = refl
insert_text-column state (char ∷ text) = insert_text-column (insert_char state char) text

-- Where the cursor is in the buffer: as many backspaces as characters were inserted give the text and
-- the cursor back that there were, and the rest of the state but the column that Up and Down keep.
pub backspaces-insert_text :
    (state : EditorState) (text : List ℕ)
    → state.cursor ≤ length state.buffer
    → backspaces (length text) (insert_text state text) ≡ record state { vertical_column = none }
unfolding insert_text
backspaces-insert_text state text h =
    let before = take state.cursor state.buffer in
    let after = drop state.cursor state.buffer in
    let here : between state before after ≡ record state { vertical_column = none } =
      between_at state before after (take-drop state.cursor state.buffer)
        (length-take state.cursor state.buffer h) in
    ap (backspaces (length text)) (
      insert_text-column state text
      ∙ ap (λ (s : EditorState). insert_text s text) (sym here)
      ∙ insert_text-between state before text after)
    ∙ backspaces-between state before text after
    ∙ here
