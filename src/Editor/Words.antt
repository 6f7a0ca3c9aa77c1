-- ===== src/Editor/Words.antt =====
-- The words of a text: what `_delete_word_before` and `_move_word_left` of
-- src/devloop/terminal_editor.py skip.
use mathlib.Core.List
use devloop.Editor.Texts.{take-drop, length-take, back_while-le}
use devloop.Editor.Moves.{
  back_while, delete_word_before, move_word_left, word_before, delete_range, cut, not_space, min,
  max,
}
use devloop.Editor.{take, drop, get_elem?, Characters, EditorState}
use devloop.Prelude.{
  none, Option, if◌then◌else◌, ℕ, zero, suc, ◌≤◌, ◌<◌, List, [], ◌∷◌, ◌++◌, ◌≡◌, refl, ap, sym, ◌∙◌,
  subst, Bool, true, false, arith, length, inl, inr, Bool-cases, ◌⊎◌, all, nat_beq, some,
}

-- A text in which the loop `while index > 0 and p(text[index - 1])` goes no further back.
abbrev pub StopsAt : (ℕ → Bool) → List ℕ → Type 0
StopsAt p text =
    (text ≡ []) ⊎ ((rest : List ℕ) × (char : ℕ) × (text ≡ rest ++ char ∷ []) × (p char ≡ false))

take-suc :
    (index : ℕ) (buffer : List ℕ)
    → index < length buffer
    → (char : ℕ) × (get_elem? buffer index ≡ some char)
      × (take (suc index) buffer ≡ take index buffer ++ char ∷ [])
take-suc index [] h = absurd (omega arith)
take-suc zero (char ∷ buffer) h = (char, refl, refl)
take-suc (suc index) (first ∷ buffer) h =
    let (char, found, e) = take-suc index buffer (omega arith) in
    (char, found, ap (λ r. first ∷ r) e)

all-snoc :
    (p : ℕ → Bool) (text : List ℕ) (char : ℕ)
    → all p text ≡ true
    → p char ≡ true
    → all p (text ++ char ∷ []) ≡ true
all-snoc p [] char h e = rw e refl
all-snoc p (first ∷ text) char h e = ground (arith, all-snoc p text char)

-- The loop that goes back from `index` stops at `stop`.
record IsStop (p : ℕ → Bool) (buffer : List ℕ) (index stop : ℕ) : Type 0 where
  skipped : List ℕ
  parts : take index buffer ≡ take stop buffer ++ skipped
  passes : all p skipped ≡ true
  stops : StopsAt p (take stop buffer)

-- One round of the loop, at a character of the buffer.
back_while-step :
    (p : ℕ → Bool) (buffer : List ℕ) (index : ℕ) {char : ℕ} {test : Bool}
    → get_elem? buffer index ≡ some char
    → p char ≡ test
    → back_while p buffer (suc index) ≡ (if test then back_while p buffer index else suc index)
unfolding back_while
back_while-step p buffer index found e =
    ap (λ (b : Bool). if b then back_while p buffer index else suc index)
      (ap (λ (entry : Option ℕ). elim entry [ none ↦ false | some char ↦ p char ]) found ∙ e)

back_while-IsStop :
    (p : ℕ → Bool) (buffer : List ℕ) (index : ℕ)
    → index ≤ length buffer
    → IsStop p buffer index (back_while p buffer index)
unfolding back_while
back_while-IsStop p buffer zero h = record {
  skipped = [];
  parts = refl;
  passes = refl;
  stops = inl refl;
}
back_while-IsStop p buffer (suc index) h =
    let (char, found, parts) = take-suc index buffer (omega arith) in
    elim (Bool-cases (p char)) [
      | inl skips ↦
          let earlier = back_while-IsStop p buffer index (omega arith) in
          let e : back_while p buffer (suc index) ≡ back_while p buffer index =
            back_while-step p buffer index found skips in
          subst (IsStop p buffer (suc index)) (sym e) (record {
            skipped = earlier.skipped ++ char ∷ [];
            parts =
                parts
                ∙ ap (λ text. text ++ char ∷ []) earlier.parts
                ∙ List.append_assoc (take (back_while p buffer index) buffer) earlier.skipped
                    (char ∷ []);
            passes = all-snoc p earlier.skipped char earlier.passes skips;
            stops = earlier.stops;
          })
      | inr fails ↦
          let e : back_while p buffer (suc index) ≡ suc index =
            back_while-step p buffer index found fails in
          subst (IsStop p buffer (suc index)) (sym e) (record {
            skipped = [];
            parts = sym (List.append-nil (take (suc index) buffer));
            passes = refl;
            stops = inr (take index buffer, char, parts, fails);
          })
    ]

min-le : (a b : ℕ) → a ≤ b → min a b ≡ a
min-le a b h = ground arith

max-le : (a b : ℕ) → a ≤ b → max a b ≡ b
max-le a b h = ground arith

delete_range-cut :
    (state : EditorState) (start end : ℕ)
    → start ≤ end
    → end ≤ length state.buffer
    → delete_range state start end ≡ cut state start end
unfolding delete_range
delete_range-cut state start end h inside =
    let size = length state.buffer in
    (λ i.
      cut state (min-le start size (omega arith) i)
        (max (min-le start size (omega arith) i) (min-le end size inside i)))
    ∙ ap (cut state start) (max-le start end h)

-- What is cut out before the cursor.
cut-before :
    (state : EditorState) (start : ℕ)
    → ((cut state start state.cursor).buffer
        ≡ take start state.buffer ++ drop state.cursor state.buffer)
      × ((cut state start state.cursor).cursor ≡ start)
unfolding cut
cut-before state start = elim (Bool-cases (nat_beq start state.cursor)) [
  | inl empty ↦
      let same : start ≡ state.cursor = ground arith in
      rw empty (
        sym (take-drop state.cursor state.buffer)
            ∙ ap (λ n. take n state.buffer ++ drop state.cursor state.buffer) (sym same),
        sym same,
      )
  | inr between ↦ rw between (refl, refl)
]

module _ (characters : Characters) (state : EditorState) where
  -- The text before the cursor, cut in three: `gap` is white space, and the text before it is empty or
  -- ends in another character, so that it is all of the white space before the cursor; `word` has no
  -- white space, and `head` before it is empty or ends in white space, so that it is a whole word.
  -- `head` stays, and the cursor stands after it.
  pub record IsWordCut (after : EditorState) (cursor : ℕ) : Type 0 where
    pub head : List ℕ
    pub word : List ℕ
    pub gap : List ℕ
    pub parts : take state.cursor state.buffer ≡ head ++ (word ++ gap)
    pub spaces : all characters.is_space gap ≡ true
    pub gap_starts : StopsAt characters.is_space (head ++ word)
    pub letters : all (not_space characters) word ≡ true
    pub starts : StopsAt (not_space characters) head
    pub remains : after.buffer ≡ head ++ drop state.cursor state.buffer
    pub stands : after.cursor ≡ length head
    pub moves : cursor ≡ length head

  -- Where the cursor is in the buffer: Ctrl+W takes out exactly the word before the cursor and the
  -- white space between them, and moving a word to the left takes the cursor to the same place.
  pub delete_word_before-IsWordCut :
      state.cursor ≤ length state.buffer
      → IsWordCut (delete_word_before characters state) (move_word_left characters state).cursor
  unfolding delete_word_before move_word_left
  delete_word_before-IsWordCut inside =
      let blank = back_while characters.is_space state.buffer state.cursor in
      let start = word_before characters state in
      let first = back_while-IsStop characters.is_space state.buffer state.cursor inside in
      let blank_le = back_while-le characters.is_space state.buffer state.cursor in
      let start_le = back_while-le (not_space characters) state.buffer blank in
      let second = back_while-IsStop (not_space characters) state.buffer blank (omega arith) in
      let size = length-take start state.buffer (omega arith) in
      let cuts = delete_range-cut state start state.cursor (omega arith) inside in
      let (buffer, cursor) = cut-before state start in
      record {
        head = take start state.buffer;
        word = second.skipped;
        gap = first.skipped;
        parts =
            first.parts
            ∙ ap (λ text. text ++ first.skipped) second.parts
            ∙ List.append_assoc (take start state.buffer) second.skipped first.skipped;
        spaces = first.passes;
        gap_starts = subst (StopsAt characters.is_space) second.parts first.stops;
        letters = second.passes;
        starts = second.stops;
        remains = ap (λ (s : EditorState). s.buffer) cuts ∙ buffer;
        stands = ap (λ (s : EditorState). s.cursor) cuts ∙ cursor ∙ sym size;
        moves = sym size;
      }
