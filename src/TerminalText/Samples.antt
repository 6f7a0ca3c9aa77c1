-- ===== src/TerminalText/Samples.antt =====
-- Texts with control sequences, for src/devloop/terminal_text.py.
use devloop.TerminalText.{
  consume_control_string, consume_csi, after_escape_char, after_sequence, skip_from,
  skip_terminal_sequences, sanitize_from, sanitize_terminal_text,
}
use devloop.Prelude.{[], ◌∷◌, ◌≡◌, refl, false, ltb}

-- ESC "[1m" between "a" and "b".
bold : skip_terminal_sequences (97 ∷ 27 ∷ 91 ∷ 49 ∷ 109 ∷ 98 ∷ []) ≡ 97 ∷ 98 ∷ []
unfolding skip_from after_sequence after_escape_char consume_csi consume_control_string
bold = refl

one_line :
    sanitize_terminal_text (λ char. ltb char 32) false (97 ∷ 10 ∷ 7 ∷ 8206 ∷ 98 ∷ [])
    ≡ 97 ∷ 32 ∷ 98 ∷ []
unfolding skip_from after_sequence after_escape_char consume_csi consume_control_string
    sanitize_from
one_line = refl
