-- ===== src/Protocol/Payload.antt =====
-- `_validate_payload`, `_validate_json_value`, `_validate_input_request` and
-- `validated_portable_approval_decisions` of src/devloop/portable_protocol.py.
pub mod Launch
pub mod Bounds
use devloop.Prelude.Int.{lt_one}
use devloop.Protocol.{
  approval_decisions, supervisor_payload_fields, bad_decisions, worker_payload_fields, bad_request,
  PayloadFields, ProtocolError,
}
use devloop.Prelude.{
  length, nat_beq, some, none, if◌then◌else◌, ok, is_missing, map, all_unique, is_nil, or_raise,
  raise_if, false, find, ◌&&◌, guard, contains, ◌||◌, ◌>>◌, ◌>>=◌, text_same, or_else, ◌==◌, suc,
  not, true, [], all, Option, ℕ, Bool, ◌∷◌, Result, List, String,
}
use devloop.Json.{
  fields_in, get, no_fields, field_names, is_null, fields, text_value, field, int_value, is_text,
  text_of, items_in, JsonFields, Json,
}

-- `len(value)` of a text.
abbrev pub text_length : String → ℕ
text_length String.[] = 0
text_length (String.◌∷◌ c rest) = suc (text_length rest)

abbrev pub subset : List String → List String → Bool
subset xs ys = all (contains ys) xs

-- `schema is None` is `none`.
abbrev pub schema_of : String → Option PayloadFields
schema_of kind =
    or_else (find (λ (entry : PayloadFields). entry.kind == kind) worker_payload_fields)
      (find (λ (entry : PayloadFields). entry.kind == kind) supervisor_payload_fields)

-- `_text_fields_for`
abbrev pub text_fields : List String
text_fields =
    "message" ∷ "content" ∷ "status" ∷ "stage" ∷ "active_issue" ∷ "request_kind" ∷ "request_id"
    ∷ "prompt" ∷ "default_key" ∷ "cancel_key" ∷ "checkpoint_kind" ∷ "summary" ∷ "action" ∷ "detail"
    ∷ "owner_id" ∷ "operation" ∷ "planning_thread_id" ∷ "prd_path" ∷ "issues_index_path"
    ∷ "issue_id" ∷ "next_role" ∷ "last_checkpoint" ∷ "value" ∷ "decision" ∷ "project_root"
    ∷ "implementation_branch" ∷ "implementation_worktree" ∷ []

-- `_NULLABLE_TEXT_FIELDS`
abbrev pub nullable_text_fields : List String
nullable_text_fields =
    "active_issue" ∷ "cancel_key" ∷ "issue_id" ∷ "last_checkpoint" ∷ "next_role"
    ∷ "planning_thread_id" ∷ "prd_path" ∷ "issues_index_path" ∷ []

-- `_integer_fields_for`
abbrev pub integer_fields : List String
integer_fields =
    "sequence" ∷ "request_generation" ∷ "worker_generation" ∷ "completed_issues" ∷ "total_issues"
    ∷ "pass_number" ∷ "exit_code" ∷ []

-- The field is missing, or its value passes the test.
abbrev pub passes : (Json → Bool) → JsonFields → String → Bool
passes test payload key = elim (field payload key) [ none ↦ true | some value ↦ test value ]

abbrev pub is_textual : JsonFields → String → Bool
is_textual payload key =
    passes (λ value. is_text value || (is_null value && contains nullable_text_fields key)) payload
      key

-- The values of a field's text that the test accepts.
abbrev pub has_text : (String → Bool) → Json → Bool
has_text test value = elim (text_of value) [ none ↦ false | some text ↦ test text ]

abbrev pub has_positive : Json → Bool
has_positive (int_value n) = not (lt_one n)
has_positive _ = false

abbrev pub all_texts : Json → Bool
all_texts value = elim (items_in value) [ none ↦ false | some values ↦ all is_text values ]

abbrev pub texts_of : List Json → List String
texts_of [] = []
texts_of (text_value text ∷ rest) = text ∷ texts_of rest
texts_of (_ ∷ rest) = texts_of rest

unfoldable pub validated_portable_approval_decisions :
    List String → String → String → Result ProtocolError (List String)
validated_portable_approval_decisions decisions default_decision cancel_decision = do
  raise_if
      (is_nil decisions
        || not (all_unique decisions)
        || not (subset decisions approval_decisions)
        || not (contains decisions default_decision)
        || not (contains decisions cancel_decision))
      bad_decisions
  ok decisions

-- An option is a list of two texts.
abbrev is_option : Json → Bool
is_option value = elim (items_in value) [
  | none ↦ false
  | some values ↦ all is_text values && nat_beq (length values) 2
]

abbrev first_text : Json → List String
first_text value = elim (items_in value) [ none ↦ [] | some values ↦ texts_of values ]

-- `option[0]`
abbrev option_key : Json → String
option_key value = elim (first_text value) [ [] ↦ "" | key ∷ _ ↦ key ]

abbrev values_are_text : JsonFields → Bool
values_are_text no_fields = true
values_are_text (fields name value rest) = is_text value && values_are_text rest

-- `payload.get("options", [])` and its like: a missing field passes.
abbrev check_collections : JsonFields → Result ProtocolError Unit
check_collections payload = do
  guard
      (passes
        (λ value. elim (items_in value) [ none ↦ false | some options ↦ all is_option options ])
        payload "options")
      bad_request
  guard
      (passes
        (λ value. elim (fields_in value) [ none ↦ false | some entries ↦ values_are_text entries ])
        payload "shortcuts")
      bad_request
  guard (passes all_texts payload "history") bad_request

abbrev decision_fields : List String
decision_fields =
    "request_id" ∷ "request_generation" ∷ "prompt" ∷ "options" ∷ "default_key" ∷ "cancel_key" ∷ []

abbrev options_of : Json → List Json
options_of value = elim (items_in value) [ none ↦ [] | some options ↦ options ]

-- `validated_portable_approval_decisions` on the fields of the payload; a key that is not a text is
-- refused there.
abbrev check_decisions : JsonFields → Result ProtocolError Unit
unfolding validated_portable_approval_decisions
check_decisions payload = do
  guard (subset decision_fields (field_names payload)) bad_request
  default_key ← or_raise bad_decisions (text_of (get payload "default_key"))
  cancel_key ← or_raise bad_decisions (text_of (get payload "cancel_key"))
  validated_portable_approval_decisions (map option_key (options_of (get payload "options")))
        default_key cancel_key
      >>= λ _. ok tt

abbrev is_nonempty : String → Bool
is_nonempty text = not (text == "")

abbrev is_choice : String → Bool
is_choice kind = kind == "CHOICE" || kind == "APPROVAL"

-- `_validate_input_request`; `decodes_reply` is that of `ProtocolLibrary`.
unfoldable pub validate_input_request : (String → Bool) → JsonFields → Result ProtocolError Unit
unfolding check_collections check_decisions
validate_input_request decodes_reply payload = do
  request_kind ← or_raise bad_request (text_of (get payload "request_kind"))
  guard (contains ("CHOICE" ∷ "TEXT" ∷ "REPLY" ∷ "APPROVAL" ∷ []) request_kind) bad_request
  let request_id = get payload "request_id"
  guard (is_null request_id || has_text is_nonempty request_id) bad_request
  let generation = get payload "request_generation"
  guard (is_null generation || has_positive generation) bad_request
  raise_if (contains ("TEXT" ∷ "REPLY" ∷ []) request_kind && not (is_text (get payload "prompt")))
      bad_request
  guard (passes is_text payload "initial_value") bad_request
  raise_if
      (request_kind == "REPLY"
        && has_text is_nonempty (get payload "initial_value")
        && not (has_text decodes_reply (get payload "initial_value")))
      bad_request
  raise_if
      (is_choice request_kind
        && (is_missing (items_in (get payload "options"))
            || not (is_text (get payload "default_key"))))
      bad_request
  check_collections payload
  if request_kind == "APPROVAL" then check_decisions payload else ok tt
