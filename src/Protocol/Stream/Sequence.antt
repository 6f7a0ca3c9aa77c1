-- ===== src/Protocol/Stream/Sequence.antt =====
-- What `PortableProtocolStreamDecoder.feed` of src/devloop/portable_protocol.py hands over: the
-- frames of one session in the order of their numbers.
use devloop.Protocol.Stream.Lines.{length-split_line}
use devloop.Protocol.Payload.{subset}
use devloop.Protocol.Stream.{
  extend, unterminated_frame_is_oversized, advance, feed, split_line, drain, without_last,
  ends_with_return, decode_frame, kinds_for, decode_line, PortableProtocolStreamDecoder,
}
use devloop.Protocol.Frame.{
  integer_of, frame_fields, unique_keys, PortableProtocolFrame, parse, read_frame, validate_payload,
  loaded_value,
}
use devloop.Protocol.{
  bad_payload, bad_kind, unexpected_sequence, unsupported_kind, unsupported_version, not_utf8,
  protocol_version, oversized_frame, max_frame_bytes, not_object, repeated_field, ProtocolLibrary,
  PortableProtocolDirection, bad_sequence, bad_version, wrong_session, wrong_fields,
}
use devloop.Json.{text_of, fields_in, get, field_names, JsonFields}
use devloop.Prelude.Int.{lt_one, ℤ, pos, ◌+ℤ◌, beq_ℤ_iff, beq_ℤ}
use devloop.Prelude.{
  refl, zero, raise_if-eq-ok, inr, ◌+◌, inl, is_missing, Option-cases, ◌<◌, false, none, ◌==◌, ltb,
  raise_if, ◌&&◌, or_raise, subst, if◌then◌else◌, guard, String, ℕ, suc, List, [], ◌∷◌, ◌≡◌, ◌∙◌,
  ap, sym, some, ok, arith, length, >>=-eq-ok, guard-eq-ok, ok-injective, contains, true, text_same,
}

-- A frame that passed the checks of a decoder in a session, at a number and in a direction.
pub record IsAccepted (library : ProtocolLibrary) (session_id : String) (sequence : ℤ)
    (direction : PortableProtocolDirection) (frame : PortableProtocolFrame) : Type 0 where
  pub session : frame.session_id ≡ session_id
  pub numbered : frame.sequence ≡ sequence
  pub permitted : contains (kinds_for direction) frame.kind ≡ true
  pub checked : validate_payload library frame.kind frame.payload ≡ ok tt

-- Frames that passed, with consecutive numbers.
abbrev pub AllAccepted :
    ProtocolLibrary → String → ℤ → PortableProtocolDirection → List PortableProtocolFrame → Type 0
AllAccepted library session_id sequence direction [] = Unit
AllAccepted library session_id sequence direction (frame ∷ frames) =
    IsAccepted library session_id sequence direction frame
    × AllAccepted library session_id (sequence +ℤ pos 1) direction frames

read_frame-numbers :
    (session_id : String) (sequence : ℤ) (object : JsonFields) {frame : PortableProtocolFrame}
    → read_frame session_id (some sequence) object ≡ ok frame
    → (frame.session_id ≡ session_id) × (frame.sequence ≡ sequence)
unfolding read_frame
read_frame-numbers session_id sequence object h0 =
    let names = field_names object in
    let (_, _, h1) =
      >>=-eq-ok (guard (subset names frame_fields && subset frame_fields names) wrong_fields) _
        h0 in
    let (version, _, h2) = >>=-eq-ok (integer_of bad_version (get object "version")) _ h1 in
    let (_, _, h3) = >>=-eq-ok (guard (beq_ℤ version protocol_version) unsupported_version) _ h2 in
    let (session, _, h3a) =
      >>=-eq-ok (or_raise wrong_session (text_of (get object "session_id"))) _ h3 in
    let (_, named, h4) = >>=-eq-ok (guard (session == session_id) wrong_session) _ h3a in
    let (number, _, h5) = >>=-eq-ok (integer_of bad_sequence (get object "sequence")) _ h4 in
    let (_, _, h6) = >>=-eq-ok (raise_if (lt_one number) bad_sequence) _ h5 in
    let (_, expected, h7) = >>=-eq-ok (guard (beq_ℤ number sequence) unexpected_sequence) _ h6 in
    let (kind, _, h8) = >>=-eq-ok (or_raise bad_kind (text_of (get object "kind"))) _ h7 in
    let (_, _, h9) = >>=-eq-ok (raise_if (kind == "") bad_kind) _ h8 in
    let (_, _, h10) = >>=-eq-ok (or_raise bad_payload (fields_in (get object "payload"))) _ h9 in
    let made = ok-injective h10 in
    let same =
      (beq_ℤ_iff number sequence).0
        (guard-eq-ok (beq_ℤ number sequence) unexpected_sequence expected) in
    (
      ap (λ (f : PortableProtocolFrame). f.session_id) (sym made)
          ∙ (text_same.same_iff session session_id).0
              (guard-eq-ok (session == session_id) wrong_session named),
      ap (λ (f : PortableProtocolFrame). f.sequence) (sym made) ∙ same,
    )

parse-numbers :
    (library : ProtocolLibrary) (session_id : String) (sequence : ℤ) (line : String)
    {frame : PortableProtocolFrame}
    → parse library session_id (some sequence) line ≡ ok frame
    → (frame.session_id ≡ session_id) × (frame.sequence ≡ sequence)
unfolding parse
parse-numbers library session_id sequence line h0 =
    let (value, _, h1) = >>=-eq-ok (loaded_value (library.loads line)) _ h0 in
    let (_, _, h2) = >>=-eq-ok (guard (unique_keys value) repeated_field) _ h1 in
    let (object, _, h3) = >>=-eq-ok (or_raise not_object (fields_in value)) _ h2 in
    read_frame-numbers session_id sequence object h3

decode_line-IsAccepted :
    (library : ProtocolLibrary) (d : PortableProtocolStreamDecoder) (line : List ℕ)
    {frame : PortableProtocolFrame}
    → decode_line library d line ≡ ok frame
    → IsAccepted library d.session_id d.expected_sequence d.direction frame
unfolding decode_line decode_frame
decode_line-IsAccepted library d line {frame} h0 =
    let encoded = if ends_with_return line then without_last line else line in
    let (_, _, h1) =
      >>=-eq-ok (raise_if (ltb max_frame_bytes (length encoded)) oversized_frame) _ h0 in
    let (text, _, h2) = >>=-eq-ok (or_raise not_utf8 (library.decode_utf8 encoded)) _ h1 in
    let (read, parsed, h3) =
      >>=-eq-ok (parse library d.session_id (some d.expected_sequence) text) _ h2 in
    let (_, kinds, h4) =
      >>=-eq-ok (guard (contains (kinds_for d.direction) read.kind) unsupported_kind) _ h3 in
    let (_, valid, h5) = >>=-eq-ok (validate_payload library read.kind read.payload) _ h4 in
    let (session, number) = parse-numbers library d.session_id d.expected_sequence text parsed in
    subst (IsAccepted library d.session_id d.expected_sequence d.direction) (ok-injective h5)
      (record {
        session = session;
        numbered = number;
        permitted = guard-eq-ok (contains (kinds_for d.direction) read.kind) unsupported_kind kinds;
        checked = valid;
      })

next_number : (n : ℤ) (k : ℕ) → n +ℤ pos 1 +ℤ pos k ≡ n +ℤ pos (suc k)
unfolding ◌+ℤ◌
next_number n k = ground arith

same_number : (n : ℤ) → n +ℤ pos 0 ≡ n
unfolding ◌+ℤ◌
same_number n = ground arith

-- A decoder that handed over `frames`: it is at the number after theirs, in the same session and
-- direction, and no complete line is left in its buffer.
pub record IsAdvanced (library : ProtocolLibrary) (d : PortableProtocolStreamDecoder)
    (frames : List PortableProtocolFrame) (after : PortableProtocolStreamDecoder) : Type 0 where
  pub accepted : AllAccepted library d.session_id d.expected_sequence d.direction frames
  pub counted : after.expected_sequence ≡ d.expected_sequence +ℤ pos (length frames)
  pub session : after.session_id ≡ d.session_id
  pub directed : after.direction ≡ d.direction
  pub drained : split_line after.buffer ≡ none

drain-IsAdvanced :
    (library : ProtocolLibrary) (fuel : ℕ) (d : PortableProtocolStreamDecoder)
    {frames : List PortableProtocolFrame} {after : PortableProtocolStreamDecoder}
    → length d.buffer < fuel
    → drain library fuel d ≡ ok (frames, after)
    → IsAdvanced library d frames after
unfolding drain advance
drain-IsAdvanced library zero d h r = absurd (omega arith)
drain-IsAdvanced library (suc fuel) d {frames} {after} h r =
    elim (Option-cases (split_line d.buffer)) [
      | inl missing ↦
          let e = ok-injective (rw (missing, drain) at r) in
          subst
            (λ (p : List PortableProtocolFrame × PortableProtocolStreamDecoder).
              IsAdvanced library d p.0 p.1)
            e
            (record {
              accepted = tt;
              counted = sym (same_number d.expected_sequence);
              session = refl;
              directed = refl;
              drained = missing;
            })
      | inr ((line, rest), found) ↦
          let shorter = length-split_line d.buffer found in
          let next = advance d rest in
          let (frame, decoded, r1) =
            >>=-eq-ok (decode_line library d line) _ (rw (found, drain) at r) in
          let ((more, final), drains, r2) = >>=-eq-ok (drain library fuel next) _ r1 in
          let later = drain-IsAdvanced library fuel next (omega arith) drains in
          subst
            (λ (p : List PortableProtocolFrame × PortableProtocolStreamDecoder).
              IsAdvanced library d p.0 p.1)
            (ok-injective r2)
            (record {
              accepted = (decode_line-IsAccepted library d line decoded, later.accepted);
              counted = later.counted ∙ next_number d.expected_sequence (length more);
              session = later.session;
              directed = later.directed;
              drained = later.drained;
            })
    ]

-- Where `feed` succeeds, the frames it gives are of the decoder's session, have the numbers from the
-- expected one on, one after the other, are of a kind of its direction and passed the payload's
-- validation. The decoder then expects the next number, and its buffer has no complete line and is
-- not too long for a frame.
pub feed-IsAdvanced :
    (library : ProtocolLibrary) (d : PortableProtocolStreamDecoder) (content : List ℕ)
    {frames : List PortableProtocolFrame} {after : PortableProtocolStreamDecoder}
    → feed library d content ≡ ok (frames, after)
    → IsAdvanced library d frames after × (unterminated_frame_is_oversized after.buffer ≡ false)
unfolding feed
feed-IsAdvanced library d content {frames} {after} h0 =
    let extended = extend library d content in
    let (_, _, h1) =
      >>=-eq-ok
        (raise_if
          (is_missing (split_line extended.buffer)
            && unterminated_frame_is_oversized extended.buffer)
          oversized_frame)
        _ h0 in
    let ((given, last), drains, h2) =
      >>=-eq-ok (drain library (length extended.buffer + 1) extended) _ h1 in
    let (_, fits, h3) =
      >>=-eq-ok (raise_if (unterminated_frame_is_oversized last.buffer) oversized_frame) _ h2 in
    let advanced =
      drain-IsAdvanced library (length extended.buffer + 1) extended (omega arith) drains in
    subst
      (λ (p : List PortableProtocolFrame × PortableProtocolStreamDecoder).
        IsAdvanced library d p.0 p.1 × (unterminated_frame_is_oversized p.1.buffer ≡ false))
      (ok-injective h3)
      (
        record {
          accepted = advanced.accepted;
          counted = advanced.counted;
          session = advanced.session;
          directed = advanced.directed;
          drained = advanced.drained;
        },
        raise_if-eq-ok (unterminated_frame_is_oversized last.buffer) oversized_frame fits,
      )
