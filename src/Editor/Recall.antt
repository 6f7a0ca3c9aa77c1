-- ===== src/Editor/Recall.antt =====
-- The history of src/devloop/terminal_editor.py: `_history_previous` and `_history_next`.
use devloop.Editor.Texts.{get_elem?-lt}
use devloop.Editor.Moves.{history_previous, history_next, previous_entry, recall, set_text}
use devloop.Editor.{get_elem?, EditorState}
use devloop.Prelude.{
  ℕ, zero, suc, ◌+◌, ◌-◌, ◌≤◌, ◌<◌, List, [], ◌∷◌, ◌≡◌, refl, ap, ◌∙◌, true, false, arith, length,
  Option, some, none, ltb, is_nil,
}

module _ (history : List (List ℕ)) where
  -- Up, pressed on the first line so many times, and Down on the last.
  unfoldable pub previous_times : ℕ → EditorState → EditorState
  previous_times zero state = state
  previous_times (suc n) state = history_previous history (previous_times n state)

  unfoldable pub next_times : ℕ → EditorState → EditorState
  next_times zero state = state
  next_times (suc n) state = next_times n (history_next history state)

  module _ (state : EditorState) where
    -- The state that shows an entry of the history, and the one that shows the text again that was
    -- edited before.
    abbrev shown : ℕ → List ℕ → EditorState
    shown index text = record state {
      buffer = text;
      cursor = length text;
      vertical_column = none;
      stash = state.buffer;
      history_index = some index;
    }

    abbrev pub back : EditorState
    back = record state {
      cursor = length state.buffer;
      vertical_column = none;
      stash = state.buffer;
      history_index = none;
    }

    recall-some :
        (given : EditorState) (index : ℕ) {text : List ℕ}
        → get_elem? history index ≡ some text
        → recall history given index ≡ set_text given text
    recall-some given index found =
        ap
          (λ (entry : Option (List ℕ)). elim entry [
            | none ↦ given
            | some text ↦ set_text given text
          ])
          found

    history_previous-first :
        (index : ℕ) {text : List ℕ}
        → state.history_index ≡ none
        → suc index ≡ length history
        → get_elem? history index ≡ some text
        → history_previous history state ≡ shown index text
    unfolding history_previous
    history_previous-first index {text} h last found =
        let entries : is_nil history ≡ false = some_entries history (omega arith) in
        let same : length history - 1 ≡ index = omega arith in
        rw entries (
          ap (previous_entry history state) h
          ∙ (λ i.
              recall history (record state { stash = state.buffer; history_index = some (same i) })
                (same i))
          ∙ recall-some (record state { stash = state.buffer; history_index = some index }) index
              found)
      where
        some_entries : (xs : List (List ℕ)) → 0 < length xs → is_nil xs ≡ false
        some_entries [] n = absurd (omega arith)
        some_entries (x ∷ xs) n = refl

    history_previous-shown :
        (index : ℕ) (later : List ℕ) {text : List ℕ}
        → get_elem? history index ≡ some text
        → history_previous history (shown (suc index) later) ≡ shown index text
    unfolding history_previous
    history_previous-shown index later {text} found =
        rw (some_entries history found) (recall-some (shown index later) index found)
      where
        some_entries : (xs : List (List ℕ)) → get_elem? xs index ≡ some text → is_nil xs ≡ false
        some_entries [] e = cc
        some_entries (x ∷ xs) e = refl

    history_next-shown :
        (index : ℕ) (earlier : List ℕ) {text : List ℕ}
        → suc index < length history
        → get_elem? history (suc index) ≡ some text
        → history_next history (shown index earlier) ≡ shown (suc index) text
    unfolding history_next
    history_next-shown index earlier {text} h found =
        let inside : ltb index (length history - 1) ≡ true = ground arith in
        rw inside (recall-some (shown (suc index) earlier) (suc index) found)

    history_next-last :
        (index : ℕ) (earlier : List ℕ)
        → suc index ≡ length history
        → history_next history (shown index earlier) ≡ back
    unfolding history_next
    history_next-last index earlier h =
        let outside : ltb index (length history - 1) ≡ false = ground arith in rw outside refl

    previous_times-shown :
        (n index : ℕ) {text : List ℕ}
        → state.history_index ≡ none
        → index + suc n ≡ length history
        → get_elem? history index ≡ some text
        → previous_times (suc n) state ≡ shown index text
    unfolding previous_times
    previous_times-shown zero index h e found = history_previous-first index h (omega arith) found
    previous_times-shown (suc n) index h e found =
        let (later, above) = get_elem?-lt history (suc index) (omega arith) in
        ap (history_previous history) (previous_times-shown n (suc index) h (omega arith) above)
        ∙ history_previous-shown index later found

    next_times-shown :
        (n index : ℕ) (text : List ℕ)
        → index + suc n ≡ length history
        → next_times (suc n) (shown index text) ≡ back
    unfolding next_times
    next_times-shown zero index text e = history_next-last index text (omega arith)
    next_times-shown (suc n) index text e =
        let (later, above) = get_elem?-lt history (suc index) (omega arith) in
        ap (next_times (suc n)) (history_next-shown index text (omega arith) above)
        ∙ next_times-shown n (suc index) later (omega arith)

    -- From a text that is no entry of the history: going back through some of the history's entries,
    -- and forward as often, shows the text again, with the cursor at its end.
    pub next_times-previous_times :
        (n : ℕ)
        → state.history_index ≡ none
        → suc n ≤ length history
        → next_times (suc n) (previous_times (suc n) state) ≡ back
    next_times-previous_times n h inside =
        let index = length history - suc n in
        let (text, found) = get_elem?-lt history index (omega arith) in
        ap (next_times (suc n)) (previous_times-shown n index h (omega arith) found)
        ∙ next_times-shown n index text (omega arith)
