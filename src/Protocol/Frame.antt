-- ===== src/Protocol/Frame.antt =====
-- One frame of src/devloop/portable_protocol.py: `_validate_payload`, `to_json_line`, `parse` and
-- the hooks of `json.loads`.
pub mod Line
use devloop.Protocol.Payload.Launch.{validate_launch_payload}
use devloop.Protocol.Payload.{
  integer_fields, passes, text_fields, is_textual, has_text, schema_of, subset,
  validate_input_request,
}
use devloop.Protocol.Payload.Bounds.{validate_json_value}
use devloop.Json.{
  is_bool, text_of, is_integer, no_items, items, JsonItems, get, fields_in, array_value, no_fields,
  text_value, field_names, int_value, fields, JsonFields, object_value, Json,
}
use devloop.Prelude.Int.{lt_one, beq_ℤ, ℤ}
use devloop.Prelude.{
  if◌then◌else◌, some, none, all, ◌==◌, is_nil, ◌||◌, not, ◌++◌, length, true, ltb, or_raise, ◌&&◌,
  guard, ok, raise_if, text_same, contains, [], ◌>>=◌, ◌>>◌, all_unique, err, ◌∷◌, Result, Bool,
  Option, String, List,
}
use devloop.Protocol.{
  bad_decisions, approval_decisions, not_boolean, not_integer, bad_payload, bad_kind,
  unexpected_sequence, not_text, wrong_session, lifecycle_fields, unsupported_version,
  protocol_version, invalid_fields, constant_number, oversized_frame, bad_version, malformed_text,
  wrong_fields, not_object, max_frame_bytes, loaded, unsupported_kind, bad_number, repeated_field,
  malformed, ProtocolError, Loaded, ProtocolLibrary, bad_sequence,
}

pub record PortableProtocolFrame : Type 0 where
  pub version : ℤ
  pub session_id : String
  pub sequence : ℤ
  pub kind : String
  pub payload : JsonFields

abbrev is_lifecycle : String → Bool
is_lifecycle = contains ("PAUSE" ∷ "FORCE_STOP" ∷ "CANCEL" ∷ "SHUTDOWN" ∷ [])

-- `_reject_duplicate_fields` in every object.
unfoldable mutual
  pub unique_keys : Json → Bool
  unique_keys (object_value object) = all_unique (field_names object) && unique_members object
  unique_keys (array_value values) = unique_items values
  unique_keys _ = true

  pub unique_members : JsonFields → Bool
  unique_members no_fields = true
  unique_members (fields name value rest) = unique_keys value && unique_members rest

  pub unique_items : JsonItems → Bool
  unique_items no_items = true
  unique_items (items value rest) = unique_keys value && unique_items rest

abbrev pub frame_fields : List String
frame_fields = "version" ∷ "session_id" ∷ "sequence" ∷ "kind" ∷ "payload" ∷ []

-- The members of the object that `to_json_line` writes.
abbrev pub frame_members : PortableProtocolFrame → JsonFields
frame_members frame = fields "version" (int_value frame.version) (
    fields "session_id" (text_value frame.session_id) (
      fields "sequence" (int_value frame.sequence) (
        fields "kind" (text_value frame.kind)
          (fields "payload" (object_value frame.payload) no_fields))))

abbrev pub integer_of : ProtocolError → Json → Result ProtocolError ℤ
integer_of error (int_value n) = ok n
integer_of error _ = err error

-- What `parse` reads of the object, in its order.
unfoldable pub read_frame :
    String → Option ℤ → JsonFields → Result ProtocolError PortableProtocolFrame
read_frame expected_session_id expected_sequence value = do
  guard (subset (field_names value) frame_fields && subset frame_fields (field_names value))
      wrong_fields
  version ← integer_of bad_version (get value "version")
  guard (beq_ℤ version protocol_version) unsupported_version
  session_id ← or_raise wrong_session (text_of (get value "session_id"))
  guard (session_id == expected_session_id) wrong_session
  sequence ← integer_of bad_sequence (get value "sequence")
  raise_if (lt_one sequence) bad_sequence
  guard (elim expected_sequence [ none ↦ true | some expected ↦ beq_ℤ sequence expected ])
      unexpected_sequence
  kind ← or_raise bad_kind (text_of (get value "kind"))
  raise_if (kind == "") bad_kind
  payload ← or_raise bad_payload (fields_in (get value "payload"))
  ok (record {
    version = version;
    session_id = session_id;
    sequence = sequence;
    kind = kind;
    payload = payload;
  })

abbrev pub loaded_value : Loaded → Result ProtocolError Json
loaded_value malformed_text = err malformed
loaded_value constant_number = err bad_number
loaded_value (loaded value) = ok value

module _ (library : ProtocolLibrary) where
  open library use {loads, dumps, encode, is_finite, decodes_reply}

  -- `_validate_payload`
  unfoldable pub validate_payload : String → JsonFields → Result ProtocolError Unit
  unfolding validate_json_value validate_input_request validate_launch_payload
  validate_payload kind payload = do
    schema ← or_raise unsupported_kind (schema_of kind)
    let names = field_names payload
    guard (subset schema.required names && subset names (schema.required ++ schema.optional))
        invalid_fields
    guard (not (is_lifecycle kind) || is_nil names || subset lifecycle_fields names) invalid_fields
    validate_json_value is_finite 0 (object_value payload)
    guard (all (is_textual payload) text_fields) not_text
    guard (all (passes is_integer payload) integer_fields) not_integer
    guard (passes is_bool payload "is_error") not_boolean
    guard (passes is_bool payload "descendants_confirmed") not_boolean
    if kind == "INPUT_REQUEST" then validate_input_request decodes_reply payload else ok tt
    guard
        (not (kind == "APPROVAL_DECISION")
          || has_text (contains approval_decisions) (get payload "decision"))
        bad_decisions
    if kind == "START" || kind == "RESUME" then validate_launch_payload library payload else ok tt

  -- `PortableProtocolFrame.to_json_line`
  unfoldable pub to_json_line : PortableProtocolFrame → Result ProtocolError String
  to_json_line frame = do
    validate_payload frame.kind frame.payload
    let line = dumps (object_value (frame_members frame))
    raise_if (ltb max_frame_bytes (length (encode line))) oversized_frame
    ok line

  -- `PortableProtocolFrame.parse`
  unfoldable pub parse : String → Option ℤ → String → Result ProtocolError PortableProtocolFrame
  unfolding read_frame unique_keys
  parse expected_session_id expected_sequence line = do
    value ← loaded_value (loads line)
    guard (unique_keys value) repeated_field
    object ← or_raise not_object (fields_in value)
    read_frame expected_session_id expected_sequence object
