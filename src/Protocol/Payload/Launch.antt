-- ===== src/Protocol/Payload/Launch.antt =====
-- `_validate_launch_payload`, `_validate_planning_settings`, `_validate_recovery` and the checks
-- below them in src/devloop/portable_protocol.py.
use Prim.Native.Char.{code}
use devloop.Prelude.Int.{lt_one}
use devloop.Protocol.Payload.{text_length, has_positive, all_texts, subset, has_text}
use devloop.Json.{
  is_bool, field_names, float_value, items_in, get, text_of, fields_in, is_null, int_value,
  JsonFields, Json,
}
use devloop.Prelude.{
  text_same, length, ltb, err, ◌||◌, ok, all, ◌==◌, not, contains, nat_beq, raise_if, guard, ◌&&◌,
  false, if◌then◌else◌, ◌>>◌, [], or_raise, ◌>>=◌, Result, Bool, ℕ, ◌∷◌, List, String,
}
use devloop.Protocol.{
  ProtocolLibrary, ProtocolError, bad_launch, bad_settings, bad_recovery, invalid_fields,
}

-- `_PLANNING_SETTINGS_FIELDS`
abbrev pub planning_settings_fields : List String
planning_settings_fields =
    "backend" ∷ "model" ∷ "reasoning_effort" ∷ "fast" ∷ "timeout_seconds" ∷ "checkpoint_seconds"
    ∷ []

-- `_RECOVERY_FIELDS`
abbrev pub recovery_fields : List String
recovery_fields =
    "checkpoint_kind" ∷ "checkout" ∷ "activity" ∷ "diagnostics" ∷ "planning_thread_id"
    ∷ "planning_settings" ∷ "prd_path" ∷ "issues_index_path" ∷ "issue_id" ∷ "next_role"
    ∷ "pass_number" ∷ []

-- `_RECOVERY_NEXT_ROLES`
abbrev pub recovery_next_roles : List String
recovery_next_roles = "scheduler" ∷ "coder" ∷ "reviewer" ∷ "qa" ∷ "complete" ∷ []

-- `"\x00" in value`
abbrev has_nul : String → Bool
has_nul String.[] = false
has_nul (String.◌∷◌ c rest) = nat_beq (code c) 0 || has_nul rest

-- `_require_exact_mapping`
unfoldable pub require_exact_mapping : Json → List String → Result ProtocolError JsonFields
require_exact_mapping value expected = or_raise invalid_fields (fields_in value) >>= λ object.
    guard (subset (field_names object) expected && subset expected (field_names object))
      invalid_fields
    >>= λ _. ok object

-- `_validate_context_text_list`
unfoldable pub validate_context_text_list : Json → Result ProtocolError Unit
validate_context_text_list value = or_raise bad_launch (items_in value) >>= λ values.
    guard
      (not (ltb 20 (length values))
        && all (has_text (λ text. not (ltb 2000 (text_length text)))) values)
      bad_launch

-- `_bounded_nonempty_text`
unfoldable pub bounded_nonempty_text : ProtocolError → ℕ → Json → Result ProtocolError String
bounded_nonempty_text error maximum_length value = or_raise error (text_of value) >>= λ text.
    raise_if (text == "" || ltb maximum_length (text_length text) || has_nul text) error >>= λ _.
    ok text

module _ (library : ProtocolLibrary) where
  open library use {strip, is_absolute, canonical_uuid, is_finite, float_of, float_less}

  abbrev positive_finite : String → Bool
  positive_finite text = is_finite text && float_less "0.0" text

  -- `_positive_finite_number`
  unfoldable pub positive_finite_number : Json → Result ProtocolError String
  positive_finite_number (int_value n) = raise_if (lt_one n) bad_settings >>= λ _. ok (float_of n)
  positive_finite_number (float_value text) =
      guard (positive_finite text) bad_settings >>= λ _. ok text
  positive_finite_number _ = err bad_settings

  -- `_absolute_path_text`
  unfoldable pub absolute_path_text : Json → Result ProtocolError String
  unfolding bounded_nonempty_text
  absolute_path_text value = bounded_nonempty_text bad_recovery 4096 value >>= λ path_text.
      guard (is_absolute path_text) bad_recovery >>= λ _. ok path_text

  -- `_validate_planning_settings`
  unfoldable pub validate_planning_settings : Json → Result ProtocolError Unit
  unfolding require_exact_mapping bounded_nonempty_text positive_finite_number
  validate_planning_settings value = do
    settings ← require_exact_mapping value planning_settings_fields
    backend ← bounded_nonempty_text bad_settings 200 (get settings "backend")
    guard (contains ("CODEX_CLI" ∷ "CLAUDE_CODE" ∷ []) backend) bad_settings
    model ← bounded_nonempty_text bad_settings 200 (get settings "model")
    reasoning ← bounded_nonempty_text bad_settings 200 (get settings "reasoning_effort")
    guard (model == strip model && reasoning == strip reasoning) bad_settings
    fast ← bounded_nonempty_text bad_settings 200 (get settings "fast")
    guard (contains ("ON" ∷ "OFF" ∷ []) fast) bad_settings
    raise_if (backend == "CLAUDE_CODE" && fast == "ON") bad_settings
    timeout ← positive_finite_number (get settings "timeout_seconds")
    checkpoint ← positive_finite_number (get settings "checkpoint_seconds")
    raise_if (float_less "3600.0" timeout || float_less timeout checkpoint) bad_settings

  -- `_canonical_uuid`
  unfoldable pub canonical_uuid_text : Json → Result ProtocolError Unit
  unfolding bounded_nonempty_text
  canonical_uuid_text value = bounded_nonempty_text bad_recovery 64 value >>= λ text.
      guard (canonical_uuid text) bad_recovery

  -- The part of `_validate_recovery` for the checkpoint kind PLANNING.
  unfoldable pub validate_planning_recovery : JsonFields → Result ProtocolError Unit
  unfolding validate_planning_settings canonical_uuid_text
  validate_planning_recovery recovery = do
    canonical_uuid_text (get recovery "planning_thread_id")
    validate_planning_settings (get recovery "planning_settings")
    guard
        (all (λ key. is_null (get recovery key))
          ("prd_path" ∷ "issues_index_path" ∷ "issue_id" ∷ "next_role" ∷ "pass_number" ∷ []))
        bad_recovery

  -- The part of `_validate_recovery` for the checkpoint kind PRD.
  unfoldable pub validate_prd_recovery : JsonFields → Result ProtocolError Unit
  unfolding absolute_path_text bounded_nonempty_text
  validate_prd_recovery recovery = do
    guard
        (is_null (get recovery "planning_thread_id") && is_null (get recovery "planning_settings"))
        bad_recovery
    absolute_path_text (get recovery "prd_path") >>= λ _. ok tt
    absolute_path_text (get recovery "issues_index_path") >>= λ _. ok tt
    let issue_id = get recovery "issue_id"
    if is_null issue_id
        then ok tt
        else (bounded_nonempty_text bad_recovery 128 issue_id >>= λ _. ok tt)
    next_role ← bounded_nonempty_text bad_recovery 200 (get recovery "next_role")
    guard (contains recovery_next_roles next_role) bad_recovery
    guard (if is_null issue_id then next_role == "scheduler" else not (next_role == "scheduler"))
        bad_recovery
    guard (has_positive (get recovery "pass_number")) bad_recovery

  -- `_validate_recovery`
  unfoldable pub validate_recovery : Json → Result ProtocolError Unit
  unfolding require_exact_mapping absolute_path_text validate_context_text_list
      bounded_nonempty_text validate_planning_recovery validate_prd_recovery
  validate_recovery value = do
    recovery ← require_exact_mapping value recovery_fields
    absolute_path_text (get recovery "checkout") >>= λ _. ok tt
    validate_context_text_list (get recovery "activity")
    validate_context_text_list (get recovery "diagnostics")
    checkpoint_kind ← bounded_nonempty_text bad_recovery 200 (get recovery "checkpoint_kind")
    if checkpoint_kind == "PLANNING"
        then validate_planning_recovery recovery
        else if checkpoint_kind == "PRD"
        then validate_prd_recovery recovery
        else err bad_recovery

  abbrev check_partial_context : Json → Result ProtocolError Unit
  unfolding require_exact_mapping validate_context_text_list
  check_partial_context value = do
    context ← require_exact_mapping value ("activity" ∷ "diagnostics" ∷ [])
    validate_context_text_list (get context "activity")
    validate_context_text_list (get context "diagnostics")

  abbrev unless_null : Json → Result ProtocolError Unit → Result ProtocolError Unit
  unless_null value check = if is_null value then ok tt else check

  -- `_validate_launch_payload`
  unfoldable pub validate_launch_payload : JsonFields → Result ProtocolError Unit
  unfolding check_partial_context validate_planning_settings validate_recovery
  validate_launch_payload payload = do
    guard (has_text (contains ("PLANNING" ∷ "DELIVERY" ∷ [])) (get payload "operation")) bad_launch
    guard (all_texts (get payload "arguments")) bad_launch
    guard (has_text (λ text. not (text == "")) (get payload "owner_id")) bad_launch
    guard (has_positive (get payload "worker_generation")) bad_launch
    let context = get payload "partial_work_context"
    unless_null context (check_partial_context context)
    let restore = get payload "restore_catalog_session"
    guard (is_null restore || is_bool restore) bad_launch
    let settings = get payload "planning_settings"
    unless_null settings (validate_planning_settings settings)
    let recovery = get payload "recovery"
    unless_null recovery (validate_recovery recovery)
