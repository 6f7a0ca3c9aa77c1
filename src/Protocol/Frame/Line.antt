-- ===== src/Protocol/Frame/Line.antt =====
-- Writing and reading one line of src/devloop/portable_protocol.py.
use devloop.Protocol.Payload.{schema_of}
use devloop.Json.{Json, object_value, JsonFields}
use devloop.Protocol.{
  oversized_frame, max_frame_bytes, loaded, unsupported_kind, protocol_version, ProtocolLibrary,
}
use devloop.Protocol.Frame.{
  parse, unique_keys, to_json_line, frame_members, PortableProtocolFrame, validate_payload,
  read_frame,
}
use devloop.Prelude.Int.{lt_one, beq_ℤ_iff, beq_ℤ, ℤ}
use devloop.Prelude.{
  ok-injective, length, ltb, raise_if, ==-refl, inr, or_raise-eq-ok, ◌∙◌, sym, ap, none, or_raise,
  >>=-eq-ok, inl, some, Bool-cases, refl, false, ◌==◌, ok, true, String, ◌≡◌, text_same,
}

beq_ℤ-refl : (n : ℤ) → beq_ℤ n n ≡ true
beq_ℤ-refl n = (beq_ℤ_iff n n).1 refl

-- What `parse` reads from the object that `to_json_line` writes.
read_frame-frame_members :
    (frame : PortableProtocolFrame)
    → beq_ℤ frame.version protocol_version ≡ true
    → lt_one frame.sequence ≡ false
    → (frame.kind == "") ≡ false
    → read_frame frame.session_id (some frame.sequence) (frame_members frame) ≡ ok frame
unfolding read_frame
read_frame-frame_members frame version sequence kind =
    rw version
      (rw (==-refl frame.session_id) (rw sequence (rw (beq_ℤ-refl frame.sequence) (rw kind refl))))

known_kind :
    (library : ProtocolLibrary) (kind : String) (payload : JsonFields)
    → validate_payload library kind payload ≡ ok tt
    → (kind == "") ≡ false
unfolding validate_payload
known_kind library kind payload h = elim (Bool-cases (kind == "")) [
  | inl empty ↦
      let e : kind ≡ "" = (text_same.same_iff kind "").0 empty in
      let (schema, found, _) = >>=-eq-ok (or_raise unsupported_kind (schema_of kind)) _ h in
      let none_found : schema_of kind ≡ none = ap schema_of e in
      absurd (cc (sym none_found ∙ or_raise-eq-ok unsupported_kind (schema_of kind) found))
  | inr fine ↦ fine
]

-- The object of a frame has no repeated key where the payload has none.
unique_keys-frame_members :
    (frame : PortableProtocolFrame)
    → unique_keys (object_value frame.payload) ≡ true
    → unique_keys (object_value (frame_members frame)) ≡ true
unfolding unique_keys
unique_keys-frame_members frame h = rw h refl

-- A line that a frame of this version was written to is read back as that frame, in its session and
-- at its sequence number. The frame's payload has no key twice, its number is positive, and
-- `json.loads` reads the object that `json.dumps` wrote for it.
pub parse-to_json_line :
    (library : ProtocolLibrary) (frame : PortableProtocolFrame) {line : String}
    → library.loads (library.dumps (object_value (frame_members frame)))
      ≡ loaded (object_value (frame_members frame))
    → frame.version ≡ protocol_version
    → lt_one frame.sequence ≡ false
    → unique_keys (object_value frame.payload) ≡ true
    → to_json_line library frame ≡ ok line
    → parse library frame.session_id (some frame.sequence) line ≡ ok frame
unfolding to_json_line parse
parse-to_json_line library frame {line} reads version sequence unique h =
    let whole : Json = object_value (frame_members frame) in
    let (_, valid, h1) = >>=-eq-ok (validate_payload library frame.kind frame.payload) _ h in
    let (_, _, h2) =
      >>=-eq-ok
        (raise_if (ltb max_frame_bytes (length (library.encode (library.dumps whole))))
          oversized_frame)
        _ h1 in
    let written : library.dumps whole ≡ line = ok-injective h2 in
    let distinct = unique_keys-frame_members frame unique in
    let read : library.loads line ≡ loaded whole = ap library.loads (sym written) ∙ reads in
    rw read (
      rw distinct (
        read_frame-frame_members frame ((beq_ℤ_iff frame.version protocol_version).1 version)
          sequence (known_kind library frame.kind frame.payload valid)))
