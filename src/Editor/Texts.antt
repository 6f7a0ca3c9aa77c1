-- ===== src/Editor/Texts.antt =====
-- The slices of a text, and where the loops over a buffer of src/devloop/terminal_editor.py stop.
use devloop.Editor.Moves.{back_while, prefix_length, forward_while, column_index, index_for_column}
use devloop.Editor.{take, drop, slice, get_elem?, Characters, EditorState, char_width}
use devloop.Prelude.{
  ℕ, zero, suc, ◌+◌, ◌-◌, ◌≤◌, ◌<◌, List, [], ◌∷◌, ◌++◌, ◌≡◌, refl, ap, some, Bool, arith, length,
}

module _ {ℓ} {A : Type ℓ} where
  pub length-take : (n : ℕ) (xs : List A) → n ≤ length xs → length (take n xs) ≡ n
  length-take zero xs h = refl
  length-take (suc n) [] h = absurd (omega arith)
  length-take (suc n) (x ∷ xs) h = omega (arith, length-take n xs (omega arith))

  pub length-take-le : (n : ℕ) (xs : List A) → length (take n xs) ≤ n
  length-take-le zero xs = omega arith
  length-take-le (suc n) [] = omega arith
  length-take-le (suc n) (x ∷ xs) = omega (arith, length-take-le n xs)

  pub length-drop : (n : ℕ) (xs : List A) → length (drop n xs) ≡ length xs - n
  length-drop zero xs = omega arith
  length-drop (suc n) [] = omega arith
  length-drop (suc n) (x ∷ xs) = omega (arith, length-drop n xs)

  -- The parts before and after an index are the whole.
  pub take-drop : (n : ℕ) (xs : List A) → take n xs ++ drop n xs ≡ xs
  take-drop zero xs = refl
  take-drop (suc n) [] = refl
  take-drop (suc n) (x ∷ xs) = ap (λ r. x ∷ r) (take-drop n xs)

  -- The two parts of a text that was put together at an index.
  pub take-append : (n : ℕ) (xs ys : List A) → length xs ≡ n → take n (xs ++ ys) ≡ xs
  take-append zero [] ys h = refl
  take-append zero (x ∷ xs) ys h = absurd (omega arith)
  take-append (suc n) [] ys h = absurd (omega arith)
  take-append (suc n) (x ∷ xs) ys h = ap (λ r. x ∷ r) (take-append n xs ys (omega arith))

  pub drop-append : (n : ℕ) (xs ys : List A) → length xs ≡ n → drop n (xs ++ ys) ≡ ys
  drop-append zero [] ys h = refl
  drop-append zero (x ∷ xs) ys h = absurd (omega arith)
  drop-append (suc n) [] ys h = absurd (omega arith)
  drop-append (suc n) (x ∷ xs) ys h = drop-append n xs ys (omega arith)

  pub take-length : (xs : List A) → take (length xs) xs ≡ xs
  take-length [] = refl
  take-length (x ∷ xs) = ap (λ r. x ∷ r) (take-length xs)

  pub drop-length : (xs : List A) → drop (length xs) xs ≡ []
  drop-length [] = refl
  drop-length (x ∷ xs) = drop-length xs

pub back_while-le : (p : ℕ → Bool) (buffer : List ℕ) (index : ℕ) → back_while p buffer index ≤ index
unfolding back_while
back_while-le p buffer zero = omega arith
back_while-le p buffer (suc index) = ground (arith, back_while-le p buffer index)

prefix_length-le : (p : ℕ → Bool) (text : List ℕ) → prefix_length p text ≤ length text
unfolding prefix_length
prefix_length-le p [] = omega arith
prefix_length-le p (char ∷ rest) = ground (arith, prefix_length-le p rest)

pub forward_while-le :
    (p : ℕ → Bool) (buffer : List ℕ) (index : ℕ)
    → index ≤ length buffer
    → forward_while p buffer index ≤ length buffer
forward_while-le p buffer index h =
    omega (arith, prefix_length-le p (drop index buffer), length-drop index buffer)

column_index-le :
    (characters : Characters) (target column index : ℕ) (text : List ℕ)
    → column_index characters target column index text ≤ index + length text
unfolding column_index
column_index-le characters target column index [] = omega arith
column_index-le characters target column index (char ∷ rest) = ground (
  arith,
  column_index-le characters target (column + char_width characters char) (suc index) rest,
)

pub index_for_column-le :
    (characters : Characters) (start end target : ℕ) (state : EditorState)
    → start ≤ end
    → index_for_column characters start end target state ≤ end
index_for_column-le characters start end target state h = omega (
  arith,
  column_index-le characters target 0 start (slice start end state.buffer),
  length-drop start (take end state.buffer),
  length-take-le end state.buffer,
)

pub get_elem?-lt {ℓ} :
    {A : Type ℓ} (xs : List A) (index : ℕ)
    → index < length xs
    → (x : A) × (get_elem? xs index ≡ some x)
get_elem?-lt [] index h = absurd (omega arith)
get_elem?-lt (x ∷ xs) zero h = (x, refl)
get_elem?-lt (x ∷ xs) (suc index) h = get_elem?-lt xs index (omega arith)
