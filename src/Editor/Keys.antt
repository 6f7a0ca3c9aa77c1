-- ===== src/Editor/Keys.antt =====
-- The keys of `TerminalEditor`, src/devloop/terminal_editor.py: `_edit` and the handlers that it
-- calls. A key source is the list of what its reads give before it is exhausted.
use devloop.Editor.Moves.{
  insert_text, backspace, delete_at_cursor, delete_range, delete_word_before, move_left, move_right,
  move_up, move_down, move_word_left, move_word_right, move_to_line_start, move_to_line_end,
  line_start, line_end,
}
use devloop.Editor.{Characters, EditorState, new_state}
use devloop.Prelude.{
  ℕ, zero, suc, ◌+◌, List, [], ◌∷◌, ◌++◌, Option, none, some, Bool, false, nat_beq, if◌then◌else◌,
  not, length, is_nil, ◌||◌, ◌&&◌, any, all,
}

-- What a read gives, and whether Alt was pressed at it.
pub record Key : Type 0 where
  pub text : List ℕ
  pub alt : Bool

-- The reads of the source, and the results of the calls of `on_paste_image`, to come.
pub record Input : Type 0 where
  pub keys : List Key
  pub pastes : List (Option (List ℕ))

pub data EditorAction : Type 0 where
  action_none action_submit action_newline : EditorAction

-- How `_edit` ends, and what a key does: it ends the editor, or the loop goes on in a state.
pub data Edited : Type 0 where
  submitted : List ℕ → Edited
  end_of_file interrupted : Edited

pub data Pressed : Type 0 where
  ended : Edited → Pressed
  going : EditorState → Input → Pressed

abbrev pub is_char : ℕ → List ℕ → Bool
is_char code (char ∷ []) = nat_beq char code
is_char code _ = false

abbrev pub is_one_of : List ℕ → List ℕ → Bool
is_one_of codes text = any (λ code. is_char code text) codes

abbrev pub escape : ℕ
escape = 27

-- `ENTER_KEYS`, `BACKSPACE_KEYS` and `WINDOWS_EXTENDED_PREFIXES`
abbrev pub enter_keys : List ℕ
enter_keys = 13 ∷ 10 ∷ []

abbrev pub backspace_keys : List ℕ
backspace_keys = 127 ∷ 8 ∷ []

abbrev pub windows_extended_prefixes : List ℕ
windows_extended_prefixes = 0 ∷ 224 ∷ []

-- `str.split` at ";" of the text in which ":" is replaced, without the empty parts: `_csi_parts`.
-- The part before the first separator comes first.
abbrev is_separator : ℕ → Bool
is_separator char = nat_beq char 58 || nat_beq char 59

abbrev split_parts : List ℕ → List ℕ × List (List ℕ)
split_parts [] = ([], [])
split_parts (char ∷ rest) =
    let (part, parts) = split_parts rest in
    if is_separator char
    then ([], if is_nil part then parts else part ∷ parts)
    else (char ∷ part, parts)

unfoldable pub csi_parts : List ℕ → List (List ℕ)
csi_parts parameters =
    let (part, parts) = split_parts parameters in if is_nil part then parts else part ∷ parts

-- `_csi_key`
abbrev pub csi_key : List ℕ → List ℕ
csi_key parameters = elim (csi_parts parameters) [ [] ↦ [] | part ∷ parts ↦ part ]

abbrev parts_after : List (List ℕ) → List (List ℕ)
parts_after [] = []
parts_after (part ∷ parts) = parts

-- `_csi_has_modifier` with the modifiers "3" and "5".
abbrev pub csi_has_modifier : List ℕ → Bool
csi_has_modifier parameters = any (is_one_of (51 ∷ 53 ∷ [])) (parts_after (csi_parts parameters))

-- `key == "13"`
abbrev pub is_thirteen : List ℕ → Bool
is_thirteen (first ∷ second ∷ []) = nat_beq first 49 && nat_beq second 51
is_thirteen _ = false

-- `_handle_tilde_sequence`
unfoldable pub handle_tilde_sequence : List ℕ → EditorState → EditorAction × EditorState
handle_tilde_sequence parameters state =
    let key = csi_key parameters in
    if is_thirteen key then (action_newline, state) else (
      action_none,
      if is_char 51 key
          then delete_at_cursor state
          else if is_one_of (49 ∷ 55 ∷ []) key
          then move_to_line_start state
          else if is_one_of (52 ∷ 56 ∷ []) key
          then move_to_line_end state
          else state,
    )

-- `_insert_paste_token`
unfoldable pub insert_paste_token : EditorState → Input → EditorState × Input
insert_paste_token state input = elim input.pastes [
  | [] ↦ (state, input)
  | result ∷ pastes ↦ (
    elim result [
      | none ↦ state
      | some token ↦ if is_nil token then state else insert_text state token
    ],
    record input { pastes = pastes },
  )
]

module _ (characters : Characters) where
  open characters use {is_alpha}

  -- `final.isalpha() or final == "~"`
  abbrev pub ends_sequence : List ℕ → Bool
  ends_sequence text = (not (is_nil text) && all is_alpha text) || is_char 126 text

  -- The loop of `_handle_escape`: the parameters, the final key and the reads after it.
  unfoldable pub read_csi : List ℕ → List Key → Option (List ℕ × List ℕ × List Key)
  read_csi parameters [] = none
  read_csi parameters (key ∷ keys) =
      let later = read_csi (parameters ++ key.text) keys in
      if ends_sequence key.text then some (parameters, key.text, keys) else later

module _ (characters : Characters) (history : List (List ℕ)) where
  open characters use {is_printable}

  -- `_handle_csi_sequence`
  unfoldable pub handle_csi_sequence : List ℕ → List ℕ → EditorState → EditorAction × EditorState
  handle_csi_sequence parameters final state =
      if is_char 117 final && is_thirteen (csi_key parameters)
      then (action_newline, state)
      else if is_char 68 final
      then (
        action_none,
        if csi_has_modifier parameters then move_word_left characters state else move_left state,
      )
      else if is_char 67 final
      then (
        action_none,
        if csi_has_modifier parameters then move_word_right characters state else move_right state,
      )
      else if is_char 65 final
      then (action_none, move_up characters history state)
      else if is_char 66 final
      then (action_none, move_down characters history state)
      else if is_char 72 final
      then (action_none, move_to_line_start state)
      else if is_char 70 final
      then (action_none, move_to_line_end state)
      else if is_char 126 final
      then handle_tilde_sequence parameters state
      else (action_none, state)

  abbrev pub pasted : EditorState → Input → EditorAction × EditorState × Input
  pasted state input =
      let (after, rest) = insert_paste_token state input in (action_none, after, rest)

  -- The keys after ESC "O".
  abbrev pub handle_application_key :
      EditorState → Input → List Key → EditorAction × EditorState × Input
  handle_application_key state input [] = (action_none, state, record input { keys = [] })
  handle_application_key state input (key ∷ keys) =
      let rest = record input { keys = keys } in
      if is_char 77 key.text
      then (action_submit, state, rest)
      else if is_char 72 key.text
      then (action_none, move_to_line_start state, rest)
      else if is_char 70 key.text
      then (action_none, move_to_line_end state, rest)
      else (action_none, state, rest)

  abbrev pub handle_parameters : EditorState → Input → List Key → EditorAction × EditorState × Input
  handle_parameters state input keys = elim (read_csi characters [] keys) [
    | none ↦ (action_none, state, record input { keys = [] })
    | some (parameters, final, rest) ↦
        let (action, after) = handle_csi_sequence parameters final state in
        (action, after, record input { keys = rest })
  ]

  abbrev pub after_escape : EditorState → Input → List Key → EditorAction × EditorState × Input
  after_escape state input [] = (action_none, state, record input { keys = [] })
  after_escape state input (key ∷ keys) =
      let rest = record input { keys = keys } in
      let follow = key.text in
      if is_one_of enter_keys follow
      then (action_newline, state, rest)
      else if is_one_of (118 ∷ 86 ∷ []) follow
      then pasted state rest
      else if is_one_of (98 ∷ 66 ∷ []) follow
      then (action_none, move_word_left characters state, rest)
      else if is_one_of (102 ∷ 70 ∷ []) follow
      then (action_none, move_word_right characters state, rest)
      else if is_one_of backspace_keys follow
      then (action_none, delete_word_before characters state, rest)
      else if is_char 79 follow
      then handle_application_key state rest keys
      else if not (is_char 91 follow)
      then (action_none, state, rest)
      else handle_parameters state rest keys

  -- `_handle_escape`
  unfoldable pub handle_escape : EditorState → Input → EditorAction × EditorState × Input
  handle_escape state input = after_escape state input input.keys

  abbrev pub after_prefix : EditorState → Input → List Key → EditorState × Input
  after_prefix state input [] = (state, record input { keys = [] })
  after_prefix state input (key ∷ keys) =
      let rest = record input { keys = keys } in
      let code = key.text in
      if is_char 75 code
      then (move_left state, rest)
      else if is_char 77 code
      then (move_right state, rest)
      else if is_char 72 code
      then (move_up characters history state, rest)
      else if is_char 80 code
      then (move_down characters history state, rest)
      else if is_char 71 code
      then (move_to_line_start state, rest)
      else if is_char 79 code
      then (move_to_line_end state, rest)
      else if is_char 83 code
      then (delete_at_cursor state, rest)
      else if is_one_of (47 ∷ 118 ∷ 86 ∷ []) code
      then insert_paste_token state rest
      else (state, rest)

  -- `_handle_windows_extended`
  unfoldable pub handle_windows_extended : EditorState → Input → EditorState × Input
  handle_windows_extended state input = after_prefix state input input.keys

  -- The first chain of branches in `_edit`, of the control keys that edit.
  unfoldable pub press_control : List ℕ → EditorState → EditorState
  press_control char state =
      if is_char 4 char
      then delete_at_cursor state
      else if is_char 1 char
      then move_to_line_start state
      else if is_char 5 char
      then move_to_line_end state
      else if is_char 11 char
      then delete_range state state.cursor (line_end state state.cursor)
      else if is_char 21 char
      then delete_range state (line_start state state.cursor) state.cursor
      else if is_char 23 char
      then delete_word_before characters state
      else state

  abbrev pub after_action : EditorAction → EditorState → Input → Pressed
  after_action action_submit state input = ended (submitted state.buffer)
  after_action action_newline state input = going (insert_text state (10 ∷ [])) input
  after_action action_none state input = going state input

  -- The second chain of branches in `_edit`.
  unfoldable pub press_key : Key → EditorState → Input → Pressed
  press_key key state input =
      let char = key.text in
      if is_one_of windows_extended_prefixes char
      then (let (after, rest) = handle_windows_extended state input in going after rest)
      else if is_char escape char
      then (let (action, after, rest) = handle_escape state input in after_action action after rest)
      else if is_one_of backspace_keys char
      then going (backspace state) input
      else if is_one_of (118 ∷ 86 ∷ []) char && key.alt
      then (let (after, rest) = insert_paste_token state input in going after rest)
      else if all is_printable char
      then going (insert_text state char) input
      else going state input

  -- The body of the loop of `_edit` after its read.
  unfoldable pub press : Key → EditorState → Input → Pressed
  press key state input =
      let char = key.text in
      let controlled = press_control char state in
      if is_nil char
      then going state input
      else if is_char 3 char
      then ended interrupted
      else if is_char 4 char && is_nil state.buffer
      then ended end_of_file
      else if is_one_of enter_keys char
      then (if key.alt
          then press_key key (insert_text controlled (10 ∷ [])) input
          else ended (submitted controlled.buffer))
      else press_key key controlled input

  -- The loop of `_edit`. Each round reads a key at least, so that one more round than there are keys
  -- is enough: `none` is where the rounds do not suffice.
  unfoldable pub edit_from : ℕ → EditorState → Input → Option Edited
  edit_from zero state input = none
  edit_from (suc fuel) state input = elim input.keys [
    | [] ↦ some end_of_file
    | key ∷ keys ↦ elim (press key state (record input { keys = keys })) [
      | ended result ↦ some result
      | going after rest ↦ edit_from fuel after rest
    ]
  ]

  -- `_edit`
  unfoldable pub edit : Input → Option Edited
  edit input = edit_from (length input.keys + 1) new_state input

-- `if line.strip(): self.history.append(line)`, of `read_line` and `feed`.
abbrev pub remember : Characters → List (List ℕ) → List ℕ → List (List ℕ)
remember characters history line =
    if all characters.is_space line then history else history ++ line ∷ []
