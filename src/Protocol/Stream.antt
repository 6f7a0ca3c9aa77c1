-- ===== src/Protocol/Stream.antt =====
-- `PortableProtocolStreamDecoder` of src/devloop/portable_protocol.py. A byte is a number. The
-- decoder is a record; an error ends the use of it, so that its state is not kept then.
mod Lines
mod Settle
pub mod Chunks
pub mod Sequence
use devloop.Protocol.Frame.{validate_payload, PortableProtocolFrame, parse}
use devloop.Protocol.{
  unsupported_kind, supervisor_command, not_utf8, max_frame_bytes, worker_event, oversized_frame,
  partial_frame, bad_identity, supervisor_payload_fields, worker_payload_fields, kinds_of,
  ProtocolError, PortableProtocolDirection, ProtocolLibrary,
}
use devloop.Prelude.Int.{lt_one, pos, ℤ, ◌+ℤ◌}
use devloop.Prelude.{
  text_same, contains, ◌+◌, not, or_raise, zero, if◌then◌else◌, is_nil, ltb, nat_beq, suc, ◌&&◌,
  ◌>>=◌, [], is_missing, ◌>>◌, guard, some, false, none, length, ◌++◌, ◌∷◌, ok, raise_if, Option,
  Bool, Result, ℕ, String, List,
}

pub record PortableProtocolStreamDecoder : Type 0 where
  pub session_id : String
  pub direction : PortableProtocolDirection
  pub expected_sequence : ℤ
  pub buffer : List ℕ

abbrev pub Fed : Type 0
Fed = Result ProtocolError (List PortableProtocolFrame × PortableProtocolStreamDecoder)

-- `encoded.endswith(b"\r")`
abbrev pub ends_with_return : List ℕ → Bool
ends_with_return [] = false
ends_with_return (b ∷ []) = nat_beq b 13
ends_with_return (b ∷ c ∷ rest) = ends_with_return (c ∷ rest)

-- `encoded[:-1]`
abbrev pub without_last : List ℕ → List ℕ
without_last [] = []
without_last (b ∷ []) = []
without_last (b ∷ c ∷ rest) = b ∷ without_last (c ∷ rest)

-- `_unterminated_frame_is_oversized`
unfoldable pub unterminated_frame_is_oversized : List ℕ → Bool
unterminated_frame_is_oversized bytes =
    let size = length bytes in
    ltb max_frame_bytes size && not (nat_beq size (max_frame_bytes + 1) && ends_with_return bytes)

abbrev after_byte : ℕ → Option (List ℕ × List ℕ) → Option (List ℕ × List ℕ)
after_byte b none = none
after_byte b (some (line, rest)) = some (b ∷ line, rest)

-- The bytes before and after the first newline: `buffer.find(b"\n")` and the slices at it.
unfoldable pub split_line : List ℕ → Option (List ℕ × List ℕ)
split_line [] = none
split_line (b ∷ rest) =
    let later = split_line rest in if nat_beq b 10 then some ([], rest) else after_byte b later

abbrev pub kinds_for : PortableProtocolDirection → List String
kinds_for worker_event = kinds_of worker_payload_fields
kinds_for supervisor_command = kinds_of supervisor_payload_fields

-- `PortableProtocolStreamDecoder(...)`
unfoldable pub new_decoder :
    ProtocolLibrary
    → String
    → PortableProtocolDirection
    → ℤ
    → Result ProtocolError PortableProtocolStreamDecoder
new_decoder library session_id direction expected_sequence = do
  guard (library.is_session_id session_id) bad_identity
  raise_if (lt_one expected_sequence) bad_identity
  ok (record {
    session_id = session_id;
    direction = direction;
    expected_sequence = expected_sequence;
    buffer = [];
  })

-- The decoder after a frame: the rest of the buffer, and the next sequence number.
unfoldable pub advance : PortableProtocolStreamDecoder → List ℕ → PortableProtocolStreamDecoder
unfolding ◌+ℤ◌
advance decoder rest = record decoder {
  buffer = rest;
  expected_sequence = decoder.expected_sequence +ℤ pos 1;
}

module _ (library : ProtocolLibrary) where
  open library use {decode_utf8}

  -- `_decode`, but for the increment of the sequence number.
  unfoldable pub decode_frame :
      PortableProtocolStreamDecoder → List ℕ → Result ProtocolError PortableProtocolFrame
  decode_frame decoder encoded = do
    line ← or_raise not_utf8 (decode_utf8 encoded)
    frame ← parse library decoder.session_id (some decoder.expected_sequence) line
    guard (contains (kinds_for decoder.direction) frame.kind) unsupported_kind
    validate_payload library frame.kind frame.payload
    ok frame

  -- The checks of `feed` on one line, and its decoding.
  unfoldable pub decode_line :
      PortableProtocolStreamDecoder → List ℕ → Result ProtocolError PortableProtocolFrame
  decode_line decoder line =
      let encoded = if ends_with_return line then without_last line else line in
      raise_if (ltb max_frame_bytes (length encoded)) oversized_frame >>= λ _.
      decode_frame decoder encoded

  -- The `while` loop of `feed`. Each round takes a byte at least from the buffer, so that one more
  -- round than there are bytes is enough.
  unfoldable pub drain : ℕ → PortableProtocolStreamDecoder → Fed
  drain zero decoder = ok ([], decoder)
  drain (suc fuel) decoder = elim (split_line decoder.buffer) [
    | none ↦ ok ([], decoder)
    | some (line, rest) ↦ decode_line decoder line >>= λ frame.
        drain fuel (advance decoder rest) >>= λ (frames, after). ok (frame ∷ frames, after)
  ]

  abbrev pub extend : PortableProtocolStreamDecoder → List ℕ → PortableProtocolStreamDecoder
  extend decoder content = record decoder { buffer = decoder.buffer ++ content }

  -- `feed`
  unfoldable pub feed : PortableProtocolStreamDecoder → List ℕ → Fed
  feed decoder content =
      let extended = extend decoder content in
      raise_if
        (is_missing (split_line extended.buffer) && unterminated_frame_is_oversized extended.buffer)
        oversized_frame
      >>= λ _. drain (length extended.buffer + 1) extended >>= λ (frames, after).
          raise_if (unterminated_frame_is_oversized after.buffer) oversized_frame >>= λ _.
          ok (frames, after)

-- `finish`
unfoldable pub finish : PortableProtocolStreamDecoder → Result ProtocolError Unit
finish decoder = guard (is_nil decoder.buffer) partial_frame
