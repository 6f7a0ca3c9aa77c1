-- ===== src/Protocol.antt =====
-- The protocol between the supervisor and a worker, src/devloop/portable_protocol.py: the messages,
-- their fields and their bounds. The children are the validation of a payload (Payload), one frame
-- (Frame) and the decoder of a stream (Stream).
pub mod Payload
pub mod Frame
pub mod Stream
mod Samples
use devloop.Json.{Json}
use devloop.Prelude.Int.{pos, ℤ}
use devloop.Prelude.{Bool, ◌∷◌, map, [], Option, List, String, ℕ}

-- `PortableProtocolError`, by the check that raises it.
pub data ProtocolError : Type 0 where
  malformed bad_number repeated_field not_object wrong_fields bad_version unsupported_version
        wrong_session bad_sequence unexpected_sequence bad_kind bad_payload unsupported_kind
        invalid_fields too_deep oversized_text oversized_object oversized_list not_finite not_text
        not_integer not_boolean bad_request bad_decisions bad_launch bad_settings bad_recovery
        oversized_frame not_utf8 partial_frame bad_identity :
      ProtocolError

pub data PortableProtocolDirection : Type 0 where
  supervisor_command worker_event : PortableProtocolDirection

abbrev pub protocol_version : ℤ
protocol_version = pos 1

abbrev pub max_frame_bytes : ℕ
max_frame_bytes = 65536

abbrev pub max_text_characters : ℕ
max_text_characters = 8192

abbrev pub max_collection_items : ℕ
max_collection_items = 200

-- The values of `PortableApprovalDecision`.
abbrev pub approval_decisions : List String
approval_decisions = "APPROVE_ONCE" ∷ "APPROVE_FOR_SESSION" ∷ "DENY" ∷ "ABORT_RUN" ∷ []

-- The required and the optional fields of a message.
pub record PayloadFields : Type 0 where
  pub kind : String
  pub required : List String
  pub optional : List String

-- `_WORKER_PAYLOAD_FIELDS`, in the order of `WorkerMessageKind`.
abbrev pub worker_payload_fields : List PayloadFields
worker_payload_fields =
    record { kind = "HELLO"; required = []; optional = [] }
    ∷ record {
      kind = "CONTEXT";
      required =
          "project_root" ∷ "implementation_branch" ∷ "implementation_worktree" ∷ "prd_path" ∷ [];
      optional = [];
    }
    ∷ record {
      kind = "STATUS";
      required = "status" ∷ [];
      optional = "stage" ∷ "completed_issues" ∷ "total_issues" ∷ "active_issue" ∷ [];
    }
    ∷ record { kind = "ACTIVITY"; required = "message" ∷ []; optional = [] }
    ∷ record { kind = "SAFE_OUTPUT"; required = "content" ∷ []; optional = "is_error" ∷ [] }
    ∷ record { kind = "SCREEN"; required = "content" ∷ []; optional = [] }
    ∷ record {
      kind = "INPUT_REQUEST";
      required = "request_kind" ∷ [];
      optional =
          "request_id" ∷ "request_generation" ∷ "prompt" ∷ "options" ∷ "default_key" ∷ "cancel_key"
          ∷ "shortcuts" ∷ "history" ∷ "initial_value" ∷ [];
    }
    ∷ record {
      kind = "CHECKPOINT";
      required = "summary" ∷ "action" ∷ "worker_generation" ∷ "request_id" ∷ [];
      optional =
          "checkpoint_kind" ∷ "planning_thread_id" ∷ "planning_settings" ∷ "prd_path"
          ∷ "issues_index_path" ∷ "issue_id" ∷ "next_role" ∷ "pass_number" ∷ [];
    }
    ∷ record {
      kind = "CHECKPOINT_FAILURE";
      required = "message" ∷ "action" ∷ "worker_generation" ∷ "request_id" ∷ [];
      optional = [];
    }
    ∷ record {
      kind = "TERMINATION";
      required =
          "action" ∷ "worker_generation" ∷ "request_id" ∷ "descendants_confirmed" ∷ "detail" ∷ [];
      optional = [];
    }
    ∷ record { kind = "COMPLETION"; required = "exit_code" ∷ []; optional = [] }
    ∷ record { kind = "FAILURE"; required = "message" ∷ []; optional = [] }
    ∷ record { kind = "HEARTBEAT"; required = "owner_id" ∷ "worker_generation" ∷ []; optional = [] }
    ∷ []

abbrev launch_required : List String
launch_required = "operation" ∷ "arguments" ∷ "owner_id" ∷ "worker_generation" ∷ []

abbrev launch_optional : List String
launch_optional =
    "last_checkpoint" ∷ "partial_work_context" ∷ "restore_catalog_session" ∷ "planning_thread_id"
    ∷ "planning_settings" ∷ "recovery" ∷ []

abbrev pub lifecycle_fields : List String
lifecycle_fields = "action" ∷ "worker_generation" ∷ "request_id" ∷ []

abbrev lifecycle : String → PayloadFields
lifecycle kind = record { kind = kind; required = []; optional = lifecycle_fields }

-- `_SUPERVISOR_PAYLOAD_FIELDS`, in the order of `SupervisorMessageKind`.
abbrev pub supervisor_payload_fields : List PayloadFields
supervisor_payload_fields =
    record { kind = "START"; required = launch_required; optional = launch_optional }
    ∷ record { kind = "RESUME"; required = launch_required; optional = launch_optional }
    ∷ record {
      kind = "USER_INPUT";
      required = "value" ∷ "request_id" ∷ "request_generation" ∷ [];
      optional = [];
    }
    ∷ record {
      kind = "APPROVAL_DECISION";
      required = "decision" ∷ "request_id" ∷ "request_generation" ∷ [];
      optional = [];
    }
    ∷ lifecycle "PAUSE"
    ∷ lifecycle "FORCE_STOP"
    ∷ lifecycle "CANCEL"
    ∷ lifecycle "SHUTDOWN"
    ∷ []

-- The values of an enum of message kinds.
abbrev pub kinds_of : List PayloadFields → List String
kinds_of = map (λ (entry : PayloadFields). entry.kind)

-- What the code takes from elsewhere. `loads` is `json.loads` with its two hooks, before they reject
-- anything: a constant such as NaN, or an object with its repeated keys. A float is a text;
-- `float_of` is the conversion of an integer and `float_less` is `<`. `decodes_reply` says whether
-- `IssueReply.decode` returns, and `canonical_uuid` whether `str(uuid.UUID(text))` is the text.
pub data Loaded : Type 0 where
  malformed_text constant_number : Loaded
  loaded : Json → Loaded

pub record ProtocolLibrary : Type 0 where
  pub loads : String → Loaded
  pub dumps : Json → String
  pub encode : String → List ℕ
  pub decode_utf8 : List ℕ → Option String
  pub strip : String → String
  pub is_absolute : String → Bool
  pub canonical_uuid : String → Bool
  pub is_session_id : String → Bool
  pub is_finite : String → Bool
  pub float_of : ℤ → String
  pub float_less : String → String → Bool
  pub decodes_reply : String → Bool
