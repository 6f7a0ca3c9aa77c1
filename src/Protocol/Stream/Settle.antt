-- ===== src/Protocol/Stream/Settle.antt =====
-- The loop of `PortableProtocolStreamDecoder.feed`, src/devloop/portable_protocol.py, on a buffer to
-- which bytes are added.
use devloop.Protocol.Stream.Lines.{
  length-split_line, split_line-append, split_line-append_start, split_line-append_none,
  oversized-append, oversized-line,
}
use devloop.Protocol.Stream.{
  decode_frame, split_line, drain, decode_line, advance, extend, unterminated_frame_is_oversized,
  Fed, PortableProtocolStreamDecoder,
}
use devloop.Protocol.{oversized_frame, ProtocolLibrary, ProtocolError}
use devloop.Protocol.Frame.{PortableProtocolFrame}
use mathlib.Core.List
use devloop.Prelude.{
  Result, Option-cases, Bool-cases, ok, err, some, none, List, [], ◌∷◌, ◌++◌, ℕ, suc, zero, ◌+◌,
  ◌<◌, ◌≡◌, ◌∙◌, sym, ap, refl, inl, inr, arith, length, length-append, true, raise_if, ◌>>=◌,
}

abbrev pub prepend : List PortableProtocolFrame → Fed → Fed
prepend frames (err e) = err e
prepend frames (ok (more, final)) = ok (frames ++ more, final)

-- What a decoder gives when the frames of `fed` come first.
abbrev pub and_then : Fed → (PortableProtocolStreamDecoder → Fed) → Fed
and_then (err e) rest = err e
and_then (ok (frames, after)) rest = prepend frames (rest after)

pub prepend-nil : (fed : Fed) → prepend [] fed ≡ fed
prepend-nil (err e) = refl
prepend-nil (ok (more, final)) = refl

pub prepend-append :
    (frames more : List PortableProtocolFrame) (fed : Fed)
    → prepend (frames ++ more) fed ≡ prepend frames (prepend more fed)
prepend-append frames more (err e) = refl
prepend-append frames more (ok (rest, last)) = λ i. ok (List.append_assoc frames more rest i, last)

and_then-prepend :
    (frames : List PortableProtocolFrame) (fed : Fed) (g : PortableProtocolStreamDecoder → Fed)
    → and_then (prepend frames fed) g ≡ prepend frames (and_then fed g)
and_then-prepend frames (err e) g = refl
and_then-prepend frames (ok (more, final)) g = prepend-append frames more (g final)

and_then_assoc :
    (fed : Fed) (f g : PortableProtocolStreamDecoder → Fed)
    → and_then (and_then fed f) g ≡ and_then fed (λ d. and_then (f d) g)
and_then_assoc (err e) f g = refl
and_then_assoc (ok (frames, after)) f g = and_then-prepend frames (f after) g

abbrev one : Result ProtocolError PortableProtocolFrame → PortableProtocolStreamDecoder → Fed
one (err e) after = err e
one (ok frame) after = ok (frame ∷ [], after)

and_then-one :
    (decoded : Result ProtocolError PortableProtocolFrame) {a b : PortableProtocolStreamDecoder}
    (f g : PortableProtocolStreamDecoder → Fed)
    → f a ≡ g b
    → and_then (one decoded a) f ≡ and_then (one decoded b) g
and_then-one (err e) f g h = refl
and_then-one (ok frame) f g h = ap (prepend (frame ∷ [])) h

and_then-cons :
    (decoded : Result ProtocolError PortableProtocolFrame) (after : PortableProtocolStreamDecoder)
    (run g : PortableProtocolStreamDecoder → Fed)
    → and_then (decoded >>= λ frame. run after >>= λ (frames, last). ok (frame ∷ frames, last)) g
      ≡ and_then (one decoded after) (λ d. and_then (run d) g)
and_then-cons (err e) after run g = refl
and_then-cons (ok frame) after run g = go (run after)
  where
    go :
        (fed : Fed)
        → and_then (fed >>= λ (frames, last). ok (frame ∷ frames, last)) g
          ≡ prepend (frame ∷ []) (and_then fed g)
    go (err e) = refl
    go (ok (frames, last)) = prepend-append (frame ∷ []) frames (g last)

module _ (library : ProtocolLibrary) where
  -- The check of `feed` on what is left of the buffer.
  abbrev pub check_rest : PortableProtocolStreamDecoder → Fed
  check_rest decoder =
      raise_if (unterminated_frame_is_oversized decoder.buffer) oversized_frame >>= λ _.
      ok ([], decoder)

  -- `drain`, and then that check.
  unfoldable pub settle : ℕ → PortableProtocolStreamDecoder → Fed
  settle fuel decoder = and_then (drain library fuel decoder) check_rest

  pub settle-none :
      (fuel : ℕ) (d : PortableProtocolStreamDecoder)
      → split_line d.buffer ≡ none
      → settle (suc fuel) d ≡ check_rest d
  unfolding settle drain
  settle-none fuel d h = rw (h, and_then) (prepend-nil (check_rest d))

  settle-some :
      (fuel : ℕ) (d : PortableProtocolStreamDecoder) {line rest : List ℕ}
      → split_line d.buffer ≡ some (line, rest)
      → settle (suc fuel) d
        ≡ and_then (one (decode_line library d line) (advance d rest)) (settle fuel)
  unfolding settle drain
  settle-some fuel d {line} {rest} h =
      rw (h, and_then)
        (and_then-cons (decode_line library d line) (advance d rest) (drain library fuel)
          check_rest)

  -- Fuel beyond the length of the buffer changes nothing.
  settle-fuel :
      (n m : ℕ) (d : PortableProtocolStreamDecoder)
      → length d.buffer < n
      → length d.buffer < m
      → settle n d ≡ settle m d
  unfolding advance
  settle-fuel zero m d h h' = absurd (omega arith)
  settle-fuel (suc n) zero d h h' = absurd (omega arith)
  settle-fuel (suc n) (suc m) d h h' = elim (Option-cases (split_line d.buffer)) [
    | inl missing ↦ settle-none n d missing ∙ sym (settle-none m d missing)
    | inr ((line, rest), found) ↦
        let shorter = length-split_line d.buffer found in
        let same = settle-fuel n m (advance d rest) (omega arith) (omega arith) in
        settle-some n d found
        ∙ and_then-one (decode_line library d line) (settle n) (settle m) same
        ∙ sym (settle-some m d found)
  ]

  -- The whole of `feed` after its first check.
  abbrev pub whole : PortableProtocolStreamDecoder → Fed
  whole d = settle (length d.buffer + 1) d

  decode_line-extend :
      (d : PortableProtocolStreamDecoder) (b line : List ℕ)
      → decode_line library (extend library d b) line ≡ decode_line library d line
  unfolding decode_line decode_frame
  decode_line-extend d b line = refl

  refused :
      (d : PortableProtocolStreamDecoder) (line : List ℕ)
      → unterminated_frame_is_oversized line ≡ true
      → decode_line library d line ≡ err oversized_frame
  unfolding decode_line
  refused d line h = rw (oversized-line line h) refl

  settle-oversized :
      (fuel : ℕ) (d : PortableProtocolStreamDecoder) (b : List ℕ)
      → split_line d.buffer ≡ none
      → unterminated_frame_is_oversized d.buffer ≡ true
      → settle (suc fuel) (extend library d b) ≡ err oversized_frame
  settle-oversized fuel d b missing over = elim (Option-cases (split_line b)) [
    | inl none_left ↦
        settle-none fuel (extend library d b) (split_line-append_none d.buffer b missing none_left)
        ∙ rw (oversized-append d.buffer b over) refl
    | inr ((line, rest), found) ↦
        settle-some fuel (extend library d b) (split_line-append_start d.buffer b missing found)
        ∙ ap
            (λ (r : Result ProtocolError PortableProtocolFrame).
              and_then (one r (advance (extend library d b) rest)) (settle fuel))
            (refused (extend library d b) (d.buffer ++ line) (oversized-append d.buffer line over))
  ]

  -- What is fed after `fed`.
  abbrev pub continue : List ℕ → Fed → Fed
  continue b fed = and_then fed (λ after. whole (extend library after b))

  pub settle-extend :
      (n m : ℕ) (d : PortableProtocolStreamDecoder) (b : List ℕ)
      → length d.buffer < n
      → length (d.buffer ++ b) < m
      → settle m (extend library d b) ≡ continue b (settle n d)
  unfolding advance
  settle-extend zero m d b h h' = absurd (omega arith)
  settle-extend (suc n) zero d b h h' = absurd (omega arith)
  settle-extend (suc n) (suc m) d b h h' = elim (Option-cases (split_line d.buffer)) [
    | inl missing ↦ elim (Bool-cases (unterminated_frame_is_oversized d.buffer)) [
      | inl over ↦
          let stops : settle (suc n) d ≡ err oversized_frame =
            settle-none n d missing ∙ rw over refl in
          settle-oversized m d b missing over ∙ ap (continue b) (sym stops)
      | inr fits ↦
          let waits : settle (suc n) d ≡ ok ([], d) = settle-none n d missing ∙ rw fits refl in
          settle-fuel (suc m) (length (d.buffer ++ b) + 1) (extend library d b) h' (omega arith)
          ∙ sym (prepend-nil (whole (extend library d b)))
          ∙ ap (continue b) (sym waits)
    ]
    | inr ((line, rest), found) ↦
        let shorter = length-split_line d.buffer found in
        let next = advance d rest in
        let decoded = decode_line library d line in
        let later =
          settle-extend n m next b (omega arith)
            (omega (arith, length-append d.buffer b, length-append rest b)) in
        settle-some m (extend library d b) (split_line-append d.buffer b found)
        ∙ ap
            (λ (r : Result ProtocolError PortableProtocolFrame).
              and_then (one r (extend library next b)) (settle m))
            (decode_line-extend d b line)
        ∙ and_then-one decoded (settle m) (λ e. continue b (settle n e)) later
        ∙ sym
            (and_then_assoc (one decoded next) (settle n) (λ after. whole (extend library after b)))
        ∙ ap (continue b) (sym (settle-some n d found))
  ]
