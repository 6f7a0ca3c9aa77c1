-- ===== src/Editor/Samples.antt =====
-- Lines that are edited, and the theorems about src/devloop/terminal_editor.py at them.
use devloop.Editor.Bounds.{IsInBounds}
use devloop.Editor.Kept.{press-KeptBy, KeptBy}
use devloop.Editor.Loop.{edit-returns}
use devloop.Editor.Edits.{backspaces, backspaces-insert_text}
use devloop.Editor.Words.{IsWordCut, delete_word_before-IsWordCut}
use devloop.Editor.Typed.{plain_key, edit-typed}
use devloop.Editor.Recall.{previous_times, next_times, back, next_times-previous_times}
use devloop.Editor.Moves.{
  insert_text, insert_char, backspace, delete_at_cursor, delete_range, cut, back_while,
  prefix_length, delete_word_before, move_left, move_right, move_to_line_start, move_to_line_end,
  move_word_left, move_word_right, column_index, move_up, move_down, history_previous, history_next,
}
use devloop.Editor.Keys.{
  Input, Edited, submitted, press, edit, edit_from, press_key, press_control, handle_escape,
  handle_windows_extended, handle_csi_sequence, handle_tilde_sequence, insert_paste_token, read_csi,
  csi_parts,
}
use devloop.Editor.{Characters, EditorState}
use devloop.Prelude.{
  ℕ, List, [], ◌∷◌, ◌≡◌, refl, false, none, some, nat_beq, ltb, leb, ◌&&◌, arith, map,
}

-- The ASCII letters, digits and space, without wide or combining characters.
abbrev ascii : Characters
ascii = record {
  is_space = λ char. nat_beq char 32;
  is_printable = λ char. leb 32 char && ltb char 127;
  is_alpha = λ char. leb 65 char && ltb char 123;
  is_other = λ char. ltb char 32;
  is_combining = λ char. false;
  is_wide = λ char. false;
}

abbrev history : List (List ℕ)
history = (97 ∷ []) ∷ (98 ∷ 99 ∷ []) ∷ []

-- "a bc ", with the cursor at its end.
abbrev line : EditorState
line = record {
  buffer = 97 ∷ 32 ∷ 98 ∷ 99 ∷ 32 ∷ [];
  cursor = 5;
  history_index = none;
  stash = [];
  vertical_column = none;
}

line-IsInBounds : IsInBounds history line
line-IsInBounds = record { cursor_in = omega arith; index_in = tt }

program : Unit {0}
unfolding insert_text insert_char backspace delete_at_cursor delete_range cut back_while
    prefix_length delete_word_before move_left move_right move_to_line_start move_to_line_end
    move_word_left move_word_right column_index move_up move_down history_previous history_next
    press edit edit_from press_key press_control handle_escape handle_windows_extended
    handle_csi_sequence handle_tilde_sequence insert_paste_token read_csi csi_parts backspaces
    previous_times next_times
program = tt

abbrev typed : List ℕ → Input
typed codes = record { keys = map plain_key codes; pastes = [] }

word_deleted : (delete_word_before ascii line).buffer ≡ 97 ∷ 32 ∷ []
unfolding program
word_deleted = refl

-- Left with ESC "[D", then a character before the last.
moved_left :
    edit ascii history (typed (97 ∷ 98 ∷ 27 ∷ 91 ∷ 68 ∷ 99 ∷ 13 ∷ []))
    ≡ some (submitted (97 ∷ 99 ∷ 98 ∷ []))
unfolding program
moved_left = refl

-- U+00E0 is read as a prefix of Windows: it and the next key are lost.
accent_lost :
    edit ascii history (typed (97 ∷ 224 ∷ 98 ∷ 99 ∷ 13 ∷ [])) ≡ some (submitted (97 ∷ 99 ∷ []))
unfolding program
accent_lost = refl

press-KeptBy_example : KeptBy history 1 (press ascii history (plain_key 23) line (typed (13 ∷ [])))
press-KeptBy_example =
    press-KeptBy ascii history (plain_key 23) line (typed (13 ∷ [])) line-IsInBounds

edit-returns_example :
    (result : Edited) × (edit ascii history (typed (97 ∷ 27 ∷ 91 ∷ 68 ∷ [])) ≡ some result)
edit-returns_example = edit-returns ascii history (typed (97 ∷ 27 ∷ 91 ∷ 68 ∷ []))

backspaces-insert_text_example : backspaces 2 (insert_text line (100 ∷ 101 ∷ [])) ≡ line
backspaces-insert_text_example = backspaces-insert_text line (100 ∷ 101 ∷ []) (omega arith)

delete_word_before-IsWordCut_example :
    IsWordCut ascii line (delete_word_before ascii line) (move_word_left ascii line).cursor
delete_word_before-IsWordCut_example = delete_word_before-IsWordCut ascii line (omega arith)

next_times-previous_times_example :
    next_times history 2 (previous_times history 2 line) ≡ back history line
next_times-previous_times_example = next_times-previous_times history line 1 refl (omega arith)

edit-typed_example :
    edit ascii history (typed (97 ∷ 98 ∷ 13 ∷ 99 ∷ [])) ≡ some (submitted (97 ∷ 98 ∷ []))
edit-typed_example = edit-typed ascii history (97 ∷ 98 ∷ []) (plain_key 99 ∷ []) [] refl
