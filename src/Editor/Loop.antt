-- ===== src/Editor/Loop.antt =====
-- The loop of `_edit`, src/devloop/terminal_editor.py, ends.
use devloop.Editor.Kept.{press-KeptBy, KeptBy}
use devloop.Editor.Bounds.{IsInBounds, new_state-IsInBounds}
use devloop.Editor.Keys.{
  end_of_file, Key, Input, Edited, Pressed, ended, going, press, edit_from, edit,
}
use devloop.Editor.{Characters, EditorState, new_state}
use devloop.Prelude.{ℕ, zero, suc, ◌+◌, ◌<◌, List, [], ◌∷◌, ◌≡◌, refl, some, arith, length}

module _ (characters : Characters) (history : List (List ℕ)) where
  -- With this fuel the loop ends from every state in bounds.
  abbrev Again : ℕ → Type 0
  Again fuel =
      (after : EditorState) (rest : Input)
      → IsInBounds history after
      → length rest.keys < fuel
      → (result : Edited) × (edit_from characters history fuel after rest ≡ some result)

  edit_from-returns :
      (fuel : ℕ) (state : EditorState) (input : Input)
      → IsInBounds history state
      → length input.keys < fuel
      → (result : Edited) × (edit_from characters history fuel state input ≡ some result)
  unfolding edit_from
  edit_from-returns zero state input h n = absurd (omega arith)
  edit_from-returns (suc fuel) state input h n =
      read (λ after rest b left. edit_from-returns fuel after rest b left) input.keys n
    where
      pressed :
          Again fuel
          → (left : ℕ) (outcome : Pressed) → left < fuel
          → KeptBy history left outcome
          → (result : Edited) × ((elim outcome [
            | ended result ↦ some result
            | going after rest ↦ edit_from characters history fuel after rest
          ])
              ≡ some result)
      pressed again left (ended result) enough kept = (result, refl)
      pressed again left (going after rest) enough (bounds, shorter) =
          again after rest bounds (omega arith)

      read :
          Again fuel
          → (keys : List Key) → length keys < suc fuel
          → (result : Edited) × ((elim keys [
            | [] ↦ some end_of_file
            | key ∷ keys ↦
                elim (press characters history key state (record input { keys = keys })) [
                  | ended result ↦ some result
                  | going after rest ↦ edit_from characters history fuel after rest
                ]
          ])
              ≡ some result)
      read again [] n = (end_of_file, refl)
      read again (key ∷ keys) n =
          pressed again (length keys) _ (omega arith)
            (press-KeptBy characters history key state (record input { keys = keys }) h)

  -- The loop of `_edit` ends for every input: with the line, with an interrupt, or with the end of the
  -- input.
  pub edit-returns :
      (input : Input) → (result : Edited) × (edit characters history input ≡ some result)
  unfolding edit
  edit-returns input =
      edit_from-returns (length input.keys + 1) new_state input (new_state-IsInBounds history)
        (omega arith)
