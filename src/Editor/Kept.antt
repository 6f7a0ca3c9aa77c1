-- ===== src/Editor/Kept.antt =====
-- What a key leaves of the state and of the input in `_edit` of src/devloop/terminal_editor.py.
use devloop.Editor.Moves.{line_start, line_end, insert_text}
use devloop.Editor.Bounds.{
  IsInBounds, insert_text-IsInBounds, backspace-IsInBounds, delete_at_cursor-IsInBounds,
  delete_range-IsInBounds, move_left-IsInBounds, move_right-IsInBounds,
  move_to_line_start-IsInBounds, move_to_line_end-IsInBounds, delete_word_before-IsInBounds,
  move_word_left-IsInBounds, move_word_right-IsInBounds, move_up-IsInBounds, move_down-IsInBounds,
}
use devloop.Editor.Keys.{
  action_newline, action_submit, handle_parameters, escape, action_none, after_action,
  handle_application_key, after_prefix, windows_extended_prefixes, backspace_keys, enter_keys,
  after_escape, ends_sequence, Key, Input, EditorAction, Pressed, ended, going, is_char, is_one_of,
  csi_key, csi_has_modifier, is_thirteen, handle_tilde_sequence, insert_paste_token,
  handle_csi_sequence, read_csi, handle_escape, handle_windows_extended, press_control, press_key,
  press,
}
use devloop.Editor.{Characters, EditorState}
use devloop.Prelude.{
  if_both, all, not, inr, ap, inl, Bool-cases, ℕ, suc, ◌≤◌, List, [], ◌∷◌, ◌++◌, ◌≡◌, refl, Option,
  none, some, Bool, arith, length, is_nil, if◌then◌else◌, ◌&&◌,
}

-- Unless the editor ends, the state is in bounds and at most `n` keys are left.
abbrev pub KeptBy : List (List ℕ) → ℕ → Pressed → Type 0
KeptBy history n (ended result) = Unit
KeptBy history n (going state input) = IsInBounds history state × (length input.keys ≤ n)

abbrev Kept : List (List ℕ) → ℕ → EditorState × Input → Type 0
Kept history n (state, input) = IsInBounds history state × (length input.keys ≤ n)

abbrev ActionKept : List (List ℕ) → ℕ → EditorAction × EditorState × Input → Type 0
ActionKept history n (action, state, input) = IsInBounds history state × (length input.keys ≤ n)

abbrev StateKept : List (List ℕ) → EditorAction × EditorState → Type 0
StateKept history (action, state) = IsInBounds history state

read_csi-le :
    (characters : Characters) (parameters : List ℕ) (keys : List Key)
    {found : List ℕ × List ℕ × List Key}
    → read_csi characters parameters keys ≡ some found
    → length found.2 ≤ length keys
unfolding read_csi
read_csi-le characters parameters [] h = cc
read_csi-le characters parameters (key ∷ keys) {found} h =
    elim (Bool-cases (ends_sequence characters key.text)) [
      | inl last ↦
          let e : (parameters, key.text, keys) ≡ found = cc (rw last at h) in
          omega (arith, ap (λ (f : List ℕ × List ℕ × List Key). length f.2) e)
      | inr more ↦
          omega (arith, read_csi-le characters (parameters ++ key.text) keys (rw more at h))
    ]

module _ (characters : Characters) (history : List (List ℕ)) where
  kept_if :
      (condition : Bool) {x y : EditorState}
      → IsInBounds history x
      → IsInBounds history y
      → IsInBounds history (if condition then x else y)
  kept_if condition hx hy = if_both (IsInBounds history) condition hx hy

  handle_tilde_sequence-IsInBounds :
      (parameters : List ℕ) (state : EditorState)
      → IsInBounds history state
      → IsInBounds history (handle_tilde_sequence parameters state).1
  unfolding handle_tilde_sequence
  handle_tilde_sequence-IsInBounds parameters state h =
      let key = csi_key parameters in
      if_both (StateKept history) (is_thirteen key) h (
        kept_if (is_char 51 key) (delete_at_cursor-IsInBounds state h) (
          kept_if (is_one_of (49 ∷ 55 ∷ []) key) (move_to_line_start-IsInBounds state h)
            (kept_if (is_one_of (52 ∷ 56 ∷ []) key) (move_to_line_end-IsInBounds state h) h)))

  handle_csi_sequence-IsInBounds :
      (parameters final : List ℕ) (state : EditorState)
      → IsInBounds history state
      → IsInBounds history (handle_csi_sequence characters history parameters final state).1
  unfolding handle_csi_sequence
  handle_csi_sequence-IsInBounds parameters final state h =
      let modified = csi_has_modifier parameters in
      if_both (StateKept history) (is_char 117 final && is_thirteen (csi_key parameters)) h (
        if_both (StateKept history) (is_char 68 final)
          (kept_if modified (move_word_left-IsInBounds characters state h)
            (move_left-IsInBounds state h))
          (if_both (StateKept history) (is_char 67 final)
            (kept_if modified (move_word_right-IsInBounds characters state h)
              (move_right-IsInBounds state h))
            (if_both (StateKept history) (is_char 65 final) (move_up-IsInBounds characters state h)
              (if_both (StateKept history) (is_char 66 final)
                (move_down-IsInBounds characters state h)
                (if_both (StateKept history) (is_char 72 final)
                  (move_to_line_start-IsInBounds state h)
                  (if_both (StateKept history) (is_char 70 final)
                    (move_to_line_end-IsInBounds state h)
                    (if_both (StateKept history) (is_char 126 final)
                      (handle_tilde_sequence-IsInBounds parameters state h) h)))))))

  insert_paste_token-Kept :
      (state : EditorState) (input : Input)
      → IsInBounds history state
      → Kept history (length input.keys) (insert_paste_token state input)
  unfolding insert_paste_token
  insert_paste_token-Kept state input h = paste input.pastes
    where
      inserted :
          (result : Option (List ℕ))
          → IsInBounds history (elim result [
            | none ↦ state
            | some token ↦ if is_nil token then state else insert_text state token
          ])
      inserted none = h
      inserted (some token) = kept_if (is_nil token) h (insert_text-IsInBounds state token h)

      paste :
          (pastes : List (Option (List ℕ)))
          → Kept history (length input.keys) (elim pastes [
            | [] ↦ (state, input)
            | result ∷ later ↦ (
              elim result [
                | none ↦ state
                | some token ↦ if is_nil token then state else insert_text state token
              ],
              record input { pastes = later },
            )
          ])
      paste [] = (h, omega arith)
      paste (result ∷ later) = (inserted result, omega arith)

  after_escape-Kept :
      (state : EditorState) (input : Input) (keys : List Key)
      → IsInBounds history state
      → ActionKept history (length keys) (after_escape characters history state input keys)
  after_escape-Kept state input [] h = (h, omega arith)
  after_escape-Kept state input (key ∷ keys) h =
      let follow = key.text in
      let rest = record input { keys = keys } in
      let same : length keys ≤ length (key ∷ keys) = omega arith in
      let P = ActionKept history (length (key ∷ keys)) in
      if_both P (is_one_of enter_keys follow) (h, same)
        (if_both P (is_one_of (118 ∷ 86 ∷ []) follow)
          (let (b, n) = insert_paste_token-Kept state rest h in (b, omega arith))
          (if_both P (is_one_of (98 ∷ 66 ∷ []) follow)
            (move_word_left-IsInBounds characters state h, same)
            (if_both P (is_one_of (102 ∷ 70 ∷ []) follow)
              (move_word_right-IsInBounds characters state h, same)
              (if_both P (is_one_of backspace_keys follow)
                (delete_word_before-IsInBounds characters state h, same)
                (if_both P (is_char 79 follow) (application rest keys)
                  (if_both P (not (is_char 91 follow)) (h, same) (parameters rest keys)))))))
    where
      application :
          (rest : Input) (keys : List Key)
          → ActionKept history
              (suc (length keys))
              (handle_application_key characters history state rest keys)
      application rest [] = (h, omega arith)
      application rest (key ∷ keys) =
          let same : length keys ≤ suc (suc (length keys)) = omega arith in
          let P = ActionKept history (suc (suc (length keys))) in
          if_both P (is_char 77 key.text) (h, same)
            (if_both P (is_char 72 key.text) (move_to_line_start-IsInBounds state h, same)
              (if_both P (is_char 70 key.text) (move_to_line_end-IsInBounds state h, same)
                (h, same)))

      parameters :
          (rest : Input) (keys : List Key)
          → ActionKept history
              (suc (length keys))
              (handle_parameters characters history state rest keys)
      parameters rest keys = found (read_csi characters [] keys) refl
        where
          found :
              (sequence : Option (List ℕ × List ℕ × List Key))
              → read_csi characters [] keys ≡ sequence
              → ActionKept history (suc (length keys)) (elim sequence [
                | none ↦ (action_none, state, record rest { keys = [] })
                | some (parameters, final, more) ↦
                    let (action, after) =
                      handle_csi_sequence characters history parameters final state in
                    (action, after, record rest { keys = more })
              ])
          found none e = (h, omega arith)
          found (some (parameters, final, more)) e = (
            handle_csi_sequence-IsInBounds parameters final state h,
            omega (arith, read_csi-le characters [] keys e),
          )

  after_prefix-Kept :
      (state : EditorState) (input : Input) (keys : List Key)
      → IsInBounds history state
      → Kept history (length keys) (after_prefix characters history state input keys)
  after_prefix-Kept state input [] h = (h, omega arith)
  after_prefix-Kept state input (key ∷ keys) h =
      let code = key.text in
      let same : length keys ≤ length (key ∷ keys) = omega arith in
      let P = Kept history (length (key ∷ keys)) in
      if_both P (is_char 75 code) (move_left-IsInBounds state h, same)
        (if_both P (is_char 77 code) (move_right-IsInBounds state h, same)
          (if_both P (is_char 72 code) (move_up-IsInBounds characters state h, same)
            (if_both P (is_char 80 code) (move_down-IsInBounds characters state h, same)
              (if_both P (is_char 71 code) (move_to_line_start-IsInBounds state h, same)
                (if_both P (is_char 79 code) (move_to_line_end-IsInBounds state h, same)
                  (if_both P (is_char 83 code) (delete_at_cursor-IsInBounds state h, same)
                    (if_both P (is_one_of (47 ∷ 118 ∷ 86 ∷ []) code)
                      (let (b, n) =
                          insert_paste_token-Kept state (record input { keys = keys }) h in
                        (b, omega arith))
                      (h, same))))))))

  press_control-IsInBounds :
      (char : List ℕ) (state : EditorState)
      → IsInBounds history state
      → IsInBounds history (press_control characters history char state)
  unfolding press_control
  press_control-IsInBounds char state h =
      kept_if (is_char 4 char) (delete_at_cursor-IsInBounds state h) (
        kept_if (is_char 1 char) (move_to_line_start-IsInBounds state h) (
          kept_if (is_char 5 char) (move_to_line_end-IsInBounds state h) (
            kept_if (is_char 11 char)
              (delete_range-IsInBounds state state.cursor (line_end state state.cursor) h)
              (kept_if (is_char 21 char)
                (delete_range-IsInBounds state (line_start state state.cursor) state.cursor h)
                (kept_if (is_char 23 char) (delete_word_before-IsInBounds characters state h) h)))))

  after_action-KeptBy :
      (action : EditorAction) (state : EditorState) (input : Input) {n : ℕ}
      → IsInBounds history state × (length input.keys ≤ n)
      → KeptBy history n (after_action characters history action state input)
  after_action-KeptBy action_none state input h = h
  after_action-KeptBy action_submit state input h = tt
  after_action-KeptBy action_newline state input (h, n) =
      (insert_text-IsInBounds state (10 ∷ []) h, n)

  press_key-KeptBy :
      (key : Key) (state : EditorState) (input : Input)
      → IsInBounds history state
      → KeptBy history (length input.keys) (press_key characters history key state input)
  unfolding press_key handle_windows_extended handle_escape
  press_key-KeptBy key state input h =
      let char = key.text in
      let same : length input.keys ≤ length input.keys = omega arith in
      let P = KeptBy history (length input.keys) in
      let escaped = handle_escape characters history state input in
      if_both P (is_one_of windows_extended_prefixes char)
        (after_prefix-Kept state input input.keys h)
        (if_both P (is_char escape char)
          (after_action-KeptBy escaped.0 escaped.1 escaped.2
            (after_escape-Kept state input input.keys h))
          (if_both P (is_one_of backspace_keys char) (backspace-IsInBounds state h, same)
            (if_both P (is_one_of (118 ∷ 86 ∷ []) char && key.alt)
              (insert_paste_token-Kept state input h)
              (if_both P (all characters.is_printable char)
                (insert_text-IsInBounds state char h, same) (h, same)))))

  -- Whatever key is read in a state where the cursor is in the buffer and the history index in the
  -- history: unless the editor ends, it goes on in such a state, and no more keys are left to read
  -- than there were after that key.
  pub press-KeptBy :
      (key : Key) (state : EditorState) (input : Input)
      → IsInBounds history state
      → KeptBy history (length input.keys) (press characters history key state input)
  unfolding press
  press-KeptBy key state input h =
      let char = key.text in
      let controlled = press_control-IsInBounds char state h in
      let P = KeptBy history (length input.keys) in
      if_both P (is_nil char) (h, omega arith)
        (if_both P (is_char 3 char) tt (
          if_both P (is_char 4 char && is_nil state.buffer) tt (
            if_both P (is_one_of enter_keys char)
              (if_both P key.alt
                (press_key-KeptBy key _ input (
                  insert_text-IsInBounds (press_control characters history char state) (10 ∷ [])
                    controlled))
                tt)
              (press_key-KeptBy key (press_control characters history char state) input
                controlled))))
