-- ===== src/Editor/Typed.antt =====
-- Typing a line in src/devloop/terminal_editor.py.
use mathlib.Core.List
use devloop.Editor.Edits.{between, insert_text-between}
use devloop.Editor.Moves.{insert_text}
use devloop.Editor.Keys.{
  Key, Input, Edited, Pressed, submitted, going, ended, press_control, press_key, press, edit_from,
  edit,
}
use devloop.Editor.{Characters, EditorState, new_state}
use devloop.Prelude.{
  length-map, &&-eq_true, ℕ, zero, suc, ◌<◌, List, [], ◌∷◌, ◌++◌, ◌≡◌, refl, ap, ◌∙◌, Bool, true,
  false, arith, length, length-append, map, Option, some, nat_beq, all, not, ◌&&◌, any,
}

-- A character that `_edit` inserts: it is printable, and no key of a command. The codes are those of
-- the control keys, Enter, the Windows prefixes, ESC and the backspace keys.
abbrev pub commands : List ℕ
commands = 4 ∷ 1 ∷ 5 ∷ 11 ∷ 21 ∷ 23 ∷ 3 ∷ 13 ∷ 10 ∷ 0 ∷ 224 ∷ 27 ∷ 127 ∷ 8 ∷ []

abbrev pub is_ordinary : Characters → ℕ → Bool
is_ordinary characters char = not (any (nat_beq char) commands) && characters.is_printable char

abbrev pub plain_key : ℕ → Key
plain_key char = record { text = char ∷ []; alt = false }

module _ (characters : Characters) (history : List (List ℕ)) where
  press_control-plain :
      (char : ℕ) (state : EditorState)
      → is_ordinary characters char ≡ true
      → press_control characters history (char ∷ []) state ≡ state
  unfolding press_control
  press_control-plain char state h = ground arith

  press_key-plain :
      (char : ℕ) (state : EditorState) (input : Input)
      → is_ordinary characters char ≡ true
      → press_key characters history (plain_key char) state input
        ≡ going (insert_text state (char ∷ [])) input
  unfolding press_key
  press_key-plain char state input h = ground arith

  press-plain :
      (char : ℕ) (state : EditorState) (input : Input)
      → is_ordinary characters char ≡ true
      → press characters history (plain_key char) state input
        ≡ going (insert_text state (char ∷ [])) input
  unfolding press
  press-plain char state input h =
      let interrupts : nat_beq char 3 ≡ false = ground arith in
      let ends : nat_beq char 4 ≡ false = ground arith in
      let returns : nat_beq char 13 ≡ false = ground arith in
      let feeds : nat_beq char 10 ≡ false = ground arith in
      rw interrupts (
        rw ends (
          rw returns (
            rw feeds (
              ap (λ (s : EditorState). press_key characters history (plain_key char) s input)
                (press_control-plain char state h)
              ∙ press_key-plain char state input h))))

  press-enter :
      (state : EditorState) (input : Input)
      → press characters history (plain_key 13) state input ≡ ended (submitted state.buffer)
  unfolding press press_control
  press-enter state input = refl

  -- What the loop does after a key.
  abbrev after_key : ℕ → Pressed → Option Edited
  after_key fuel (ended result) = some result
  after_key fuel (going after rest) = edit_from characters history fuel after rest

  edit_from-step :
      (fuel : ℕ) (state : EditorState) (key : Key) (keys : List Key)
      (pastes : List (Option (List ℕ))) {outcome : Pressed}
      → press characters history key state (record { keys = keys; pastes = pastes }) ≡ outcome
      → edit_from characters history
          (suc fuel)
          state
          (record { keys = key ∷ keys; pastes = pastes })
        ≡ after_key fuel outcome
  unfolding edit_from
  edit_from-step fuel state key keys pastes h = go _ ∙ ap (after_key fuel) h
    where
      go :
          (outcome : Pressed)
          → (elim outcome [
            | ended result ↦ some result
            | going after rest ↦ edit_from characters history fuel after rest
          ])
            ≡ after_key fuel outcome
      go (ended result) = refl
      go (going after rest) = refl

  edit_from-typed :
      (fuel : ℕ) (state : EditorState) (before text : List ℕ) (rest : List Key)
      (pastes : List (Option (List ℕ)))
      → all (is_ordinary characters) text ≡ true
      → length text < fuel
      → edit_from characters history fuel
          (between state before [])
          (record { keys = map plain_key text ++ plain_key 13 ∷ rest; pastes = pastes })
        ≡ some (submitted (before ++ text))
  unfolding edit_from
  edit_from-typed zero state before text rest pastes h n = absurd (omega arith)
  edit_from-typed (suc fuel) state before [] rest pastes h n =
      edit_from-step fuel (between state before []) (plain_key 13) rest pastes
        (press-enter (between state before []) (record { keys = rest; pastes = pastes }))
  edit_from-typed (suc fuel) state before (char ∷ text) rest pastes h n =
      let input : Input = record {
        keys = map plain_key text ++ plain_key 13 ∷ rest;
        pastes = pastes;
      } in
      let ordinary : is_ordinary characters char ≡ true =
        (&&-eq_true (is_ordinary characters char) (all (is_ordinary characters) text) h).0 in
      let others : all (is_ordinary characters) text ≡ true =
        (&&-eq_true (is_ordinary characters char) (all (is_ordinary characters) text) h).1 in
      let goes : press characters history (plain_key char) (between state before []) input
          ≡ going (between state (before ++ char ∷ []) []) input =
        press-plain char (between state before []) input ordinary
        ∙ ap (λ (s : EditorState). going s input)
            (insert_text-between state before (char ∷ []) []) in
      edit_from-step fuel (between state before []) (plain_key char)
        (map plain_key text ++ plain_key 13 ∷ rest) pastes goes
      ∙ edit_from-typed fuel state (before ++ char ∷ []) text rest pastes others (omega arith)
      ∙ ap (λ (line : List ℕ). some (submitted line)) (List.append_assoc before (char ∷ []) text)

  -- Typing characters that are no commands, and then Enter, gives exactly the line that was typed,
  -- whatever keys and pastes follow.
  pub edit-typed :
      (text : List ℕ) (rest : List Key) (pastes : List (Option (List ℕ)))
      → all (is_ordinary characters) text ≡ true
      → edit characters history
          (record { keys = map plain_key text ++ plain_key 13 ∷ rest; pastes = pastes })
        ≡ some (submitted text)
  unfolding edit
  edit-typed text rest pastes h = edit_from-typed _ new_state [] text rest pastes h (
      omega (
        arith,
        length-append (map plain_key text) (plain_key 13 ∷ rest),
        length-map plain_key text,
      ))
