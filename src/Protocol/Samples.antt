-- ===== src/Protocol/Samples.antt =====
-- Two HELLO frames of a worker, and the theorems about src/devloop/portable_protocol.py at them.
use devloop.Protocol.Payload.Bounds.{
  widest, longest, nesting, validate_json_value, validate_json_value_bounds,
}
use devloop.Protocol.Frame.{
  PortableProtocolFrame, frame_members, validate_payload, unique_keys, read_frame, parse,
  to_json_line,
}
use devloop.Protocol.Frame.Line.{parse-to_json_line}
use devloop.Protocol.Stream.{
  PortableProtocolStreamDecoder, split_line, drain, decode_line, decode_frame, advance, feed,
  unterminated_frame_is_oversized,
}
use devloop.Protocol.Stream.Chunks.{in_one_call, feed_all, feed_all-joined}
use devloop.Protocol.Stream.Sequence.{IsAdvanced, feed-IsAdvanced}
use devloop.Protocol.{ProtocolLibrary, unexpected_sequence, worker_event, loaded, malformed_text}
use devloop.Json.{no_fields, object_value, Json}
use devloop.Prelude.Int.{pos, ℤ, ◌+ℤ◌}
use devloop.Prelude.{
  nat_beq, ◌≤◌, Option, ok, err, refl, ◌≡◌, List, [], ◌∷◌, ℕ, String, some, none, true, false, ◌==◌,
  if◌then◌else◌, text_same,
}

abbrev hello : ℤ → PortableProtocolFrame
hello sequence = record {
  version = pos 1;
  session_id = "s";
  sequence = sequence;
  kind = "HELLO";
  payload = no_fields;
}

abbrev hello_value : ℤ → Json
hello_value sequence = object_value (frame_members (hello sequence))

-- The lines of the two frames are "1" and "2" here, as texts and as bytes.
abbrev library : ProtocolLibrary
library = record {
  loads = λ line.
      if line == "1"
      then loaded (hello_value (pos 1))
      else if line == "2"
      then loaded (hello_value (pos 2))
      else malformed_text;
  dumps = λ value. "1";
  encode = λ line. 49 ∷ [];
  decode_utf8 = one_digit;
  strip = λ text. text;
  is_absolute = λ text. false;
  canonical_uuid = λ text. false;
  is_session_id = λ text. text == "s";
  is_finite = λ text. true;
  float_of = λ n. "";
  float_less = λ a b. false;
  decodes_reply = λ text. false;
}
  where
    one_digit : List ℕ → Option String
    one_digit (byte ∷ []) =
        if nat_beq byte 49 then some "1" else if nat_beq byte 50 then some "2" else none
    one_digit _ = none

abbrev decoder : PortableProtocolStreamDecoder
decoder = record {
  session_id = "s";
  direction = worker_event;
  expected_sequence = pos 1;
  buffer = [];
}

abbrev rest_decoder : PortableProtocolStreamDecoder
rest_decoder = record {
  session_id = "s";
  direction = worker_event;
  expected_sequence = pos 3;
  buffer = 49 ∷ [];
}

program : Unit {0}
unfolding parse read_frame unique_keys validate_payload validate_json_value to_json_line split_line
    drain decode_line decode_frame advance feed unterminated_frame_is_oversized feed_all ◌+ℤ◌
program = tt

hello_line : to_json_line library (hello (pos 1)) ≡ ok "1"
unfolding program
hello_line = refl

two_frames :
    feed library decoder (49 ∷ 13 ∷ 10 ∷ 50 ∷ 10 ∷ 49 ∷ [])
    ≡ ok (hello (pos 1) ∷ hello (pos 2) ∷ [], rest_decoder)
unfolding program
two_frames = refl

wrong_order : feed library decoder (50 ∷ 10 ∷ []) ≡ err unexpected_sequence
unfolding program
wrong_order = refl

small_payload : validate_json_value library.is_finite 0 (hello_value (pos 1)) ≡ ok tt
unfolding program
small_payload = refl

parse-to_json_line_example : parse library "s" (some (pos 1)) "1" ≡ ok (hello (pos 1))
unfolding unique_keys
parse-to_json_line_example =
    parse-to_json_line library (hello (pos 1)) {line = "1"} refl refl refl refl hello_line

feed_all-joined_example :
    feed library decoder (49 ∷ 13 ∷ 10 ∷ 50 ∷ [])
    ≡ in_one_call library (feed_all library decoder ((49 ∷ 13 ∷ []) ∷ (10 ∷ 50 ∷ []) ∷ []))
feed_all-joined_example = feed_all-joined library decoder (49 ∷ 13 ∷ []) ((10 ∷ 50 ∷ []) ∷ [])

-- A frame that was given stays given when a later chunk fails; one call gives none then.
given_then_failed :
    feed_all library decoder ((49 ∷ 10 ∷ []) ∷ (49 ∷ 10 ∷ []) ∷ [])
    ≡ (hello (pos 1) ∷ [], err unexpected_sequence)
unfolding program
given_then_failed = refl

feed-IsAdvanced_example :
    IsAdvanced library decoder (hello (pos 1) ∷ hello (pos 2) ∷ []) rest_decoder
    × (unterminated_frame_is_oversized (49 ∷ []) ≡ false)
feed-IsAdvanced_example =
    feed-IsAdvanced library decoder (49 ∷ 13 ∷ 10 ∷ 50 ∷ 10 ∷ 49 ∷ []) two_frames

validate_json_value_bounds_example :
    (nesting (hello_value (pos 1)) ≤ 12)
    × (longest (hello_value (pos 1)) ≤ 8192)
    × (widest (hello_value (pos 1)) ≤ 200)
validate_json_value_bounds_example =
    validate_json_value_bounds library.is_finite (hello_value (pos 1)) small_payload
