-- ===== src/Protocol/Stream/Chunks.antt =====
-- How `PortableProtocolStreamDecoder.feed` of src/devloop/portable_protocol.py depends on the way
-- in which a stream is cut into chunks.
use devloop.Protocol.Stream.Settle.{
  and_then, prepend, check_rest, settle, settle-none, whole, continue, settle-extend,
}
use devloop.Protocol.Stream.{
  split_line, drain, extend, feed, unterminated_frame_is_oversized, Fed,
  PortableProtocolStreamDecoder,
}
use devloop.Protocol.{ProtocolError, oversized_frame, ProtocolLibrary}
use devloop.Protocol.Frame.{PortableProtocolFrame}
use devloop.Prelude.{
  Result, Bool, is_missing, ◌&&◌, Option, Bool-cases, ok, err, some, none, List, [], ◌∷◌, ◌++◌, ℕ,
  ◌+◌, ◌≡◌, ◌∙◌, sym, ap, refl, inl, inr, arith, length, true, false, raise_if, ◌>>=◌,
}
use mathlib.Core.List

-- A stream that is cut into chunks.
abbrev pub joined : List (List ℕ) → List ℕ
joined [] = []
joined (chunk ∷ chunks) = chunk ++ joined chunks

and_then-last : (fed : Fed) → and_then fed (λ after. ok ([], after)) ≡ fed
and_then-last (err e) = refl
and_then-last (ok (frames, after)) = λ i. ok (List.append-nil frames i, after)

module _ (library : ProtocolLibrary) where
  -- The check before the loop refuses nothing that the check after it would take.
  feed-whole :
      (d : PortableProtocolStreamDecoder) (content : List ℕ)
      → feed library d content ≡ whole library (extend library d content)
  unfolding feed settle
  feed-whole d content = elim (Bool-cases refuses) [
    | inl early ↦
        let (missing, over) = refused_early (split_line (d.buffer ++ content)) early in
        let stops : whole library after ≡ err oversized_frame =
          ap (λ n. settle library n after) (omega arith)
          ∙ settle-none library (length after.buffer) after missing
          ∙ rw over refl in
        rw early (sym stops)
    | inr late ↦ rw late (same_check (drain library (length (d.buffer ++ content) + 1) after))
  ]
    where
      after : PortableProtocolStreamDecoder
      after = extend library d content

      refuses : Bool
      refuses =
          is_missing (split_line (d.buffer ++ content))
          && unterminated_frame_is_oversized (d.buffer ++ content)

      refused_early :
          (found : Option (List ℕ × List ℕ)) {over : Bool}
          → (is_missing found && over) ≡ true
          → (found ≡ none) × (over ≡ true)
      refused_early none h = (refl, h)
      refused_early (some _) h = cc

      same_rest :
          (over : Bool) (frames : List PortableProtocolFrame) (d : PortableProtocolStreamDecoder)
          → (raise_if over oversized_frame >>= λ _. ok (frames, d))
            ≡ prepend frames (raise_if over oversized_frame >>= λ _. ok ([], d))
      same_rest true frames d = refl
      same_rest false frames d = sym (λ i. ok (List.append-nil frames i, d))

      same_check :
          (fed : Fed)
          → (fed >>= λ (frames, after).
              raise_if (unterminated_frame_is_oversized after.buffer) oversized_frame >>= λ _.
              ok (frames, after))
            ≡ and_then fed (check_rest library)
      same_check (err e) = refl
      same_check (ok (frames, after)) =
          same_rest (unterminated_frame_is_oversized after.buffer) frames after

  -- Feeding two chunks one after the other gives what feeding their concatenation gives: the frames,
  -- the decoder and the error.
  pub feed-append :
      (d : PortableProtocolStreamDecoder) (a b : List ℕ)
      → feed library d (a ++ b) ≡ and_then (feed library d a) (λ after. feed library after b)
  feed-append d a b =
      feed-whole d (a ++ b)
      ∙ ap (whole library) (sym (λ i. record d { buffer = List.append_assoc d.buffer a b i }))
      ∙ settle-extend library (length (d.buffer ++ a) + 1) (length (d.buffer ++ a ++ b) + 1)
          (extend library d a) b (omega arith) (omega arith)
      ∙ ap (continue library b) (sym (feed-whole d a))
      ∙ ap (and_then (feed library d a)) (sym (λ i after. feed-whole after b i))

  -- The caller of `feed` has the frames of each chunk before it feeds the next. What it has in the
  -- end: the frames that the chunks gave before one failed, and the decoder or the error.
  unfoldable pub feed_all :
      PortableProtocolStreamDecoder
      → List (List ℕ)
      → List PortableProtocolFrame × Result ProtocolError PortableProtocolStreamDecoder
  feed_all d [] = ([], ok d)
  feed_all d (chunk ∷ chunks) = elim (feed library d chunk) [
    | err e ↦ ([], err e)
    | ok (frames, after) ↦ let (more, outcome) = feed_all after chunks in (frames ++ more, outcome)
  ]

  -- What one call gives that ends in the same way: all of the frames, or the error and no frame.
  abbrev pub in_one_call :
      List PortableProtocolFrame × Result ProtocolError PortableProtocolStreamDecoder → Fed
  in_one_call (frames, err e) = err e
  in_one_call (frames, ok after) = ok (frames, after)

  in_one_call-prepend :
      (frames : List PortableProtocolFrame)
      (given : List PortableProtocolFrame × Result ProtocolError PortableProtocolStreamDecoder)
      → in_one_call (frames ++ given.0, given.1) ≡ prepend frames (in_one_call given)
  in_one_call-prepend frames (more, err e) = refl
  in_one_call-prepend frames (more, ok after) = refl

  -- Feeding one chunk by one, then `rest`, seen as one call.
  feed_all-and_then :
      (d : PortableProtocolStreamDecoder) (chunk : List ℕ) (chunks : List (List ℕ))
      → in_one_call (feed_all d (chunk ∷ chunks))
        ≡ and_then (feed library d chunk) (λ after. in_one_call (feed_all after chunks))
  unfolding feed_all
  feed_all-and_then d chunk chunks = go (feed library d chunk)
    where
      go :
          (fed : Fed)
          → in_one_call (elim fed [
            | err e ↦ ([], err e)
            | ok (frames, after) ↦
                let (more, outcome) = feed_all after chunks in (frames ++ more, outcome)
          ])
            ≡ and_then fed (λ after. in_one_call (feed_all after chunks))
      go (err e) = refl
      go (ok (frames, after)) = in_one_call-prepend frames (feed_all after chunks)

  -- Where a stream is fed in one chunk or more, one call with all of its bytes succeeds exactly when
  -- no chunk fails, and then gives the frames of all chunks, in order, and the same decoder; and
  -- where a chunk fails, the one call fails with the same error. It then gives no frame, while the
  -- chunks before the failure gave theirs.
  pub feed_all-joined :
      (d : PortableProtocolStreamDecoder) (chunk : List ℕ) (chunks : List (List ℕ))
      → feed library d (joined (chunk ∷ chunks)) ≡ in_one_call (feed_all d (chunk ∷ chunks))
  unfolding feed_all
  feed_all-joined d chunk [] =
      ap (feed library d) (List.append-nil chunk)
      ∙ sym (and_then-last (feed library d chunk))
      ∙ sym (feed_all-and_then d chunk [])
  feed_all-joined d chunk (next ∷ chunks) =
      feed-append d chunk (joined (next ∷ chunks))
      ∙ ap (and_then (feed library d chunk)) (λ i after. feed_all-joined after next chunks i)
      ∙ sym (feed_all-and_then d chunk (next ∷ chunks))
