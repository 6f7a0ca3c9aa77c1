-- ===== src/Lib.antt =====
-- devloop runs an issue pack through analysis, development, code review and QA. Two programs share
-- the repository: the portable runner (src/devloop/*.py), which orders the issues of a pack by
-- their dependencies, and CodexCLI (src/devloop/domain, application, components, workflow), which
-- keeps a run as a snapshot of states, attempts and results and moves it by the rules of its domain
-- layer. This library models those rules.
--
-- Protocol: src/devloop/portable_protocol.py, the messages between the supervisor and a worker.
--   Payload, with Launch, is `_validate_payload` and the functions that it calls; Frame is
--   `PortableProtocolFrame`, where `read_frame` is `parse` on the decoded object; Stream is
--   `PortableProtocolStreamDecoder`, where `drain` is the loop of `feed`, on fuel: one more than the
--   bytes in the buffer, of which each round takes one at least. Json has the values of a decoder.
-- Editor: `TerminalEditor` of src/devloop/terminal_editor.py. Moves has the operations on the state
--   (`cut` is the end of `_delete_range`), Keys the decoding of key sequences and `_edit`. The loop is
--   `edit_from`, on fuel: one more than the keys to read. What `_render` writes is left out.
-- TerminalText: src/devloop/terminal_text.py, which takes the control sequences out of a text. Its scan
--   is on fuel: one more than the characters, of which each round takes one at least.
-- RunStore: `RunStore` of src/devloop/persistence/run_store.py on the files of one run, with the
--   snapshot of src/devloop/domain/run.py (Domain/Run). `record_event` is `record`; `append_event` and
--   `write_snapshot` are its two writes, and `snapshot_to_dict` gives the snapshot that is read back
--   from what they write, its free text redacted as in src/devloop/domain/doctor.py (Domain/Doctor).
-- Portable/Graph: `IssueDependencyGraph` of src/devloop/issue_scheduler.py. `build` is the
--   constructor with its validations (`validate_dependencies`, `validate_acyclic`, the local
--   function `visit`), `validate_selection` the method. The recursion of `visit` takes fuel: one
--   more than the number of nodes, and running out of it would be an error of its own, which is
--   proved not to occur.
-- Portable/Schedule: `DependencyScheduler` of the same file. `new_scheduler` is the constructor and
--   `project` the method, with its loop, its comprehensions and its `min` as functions.
-- Domain/Development, Domain/Planning, Domain/Outcomes: the records, enums and
--   `validate_rework_resolutions` of src/devloop/domain/{development,planning,outcomes}.py.
-- Domain/Attempts and Domain/Scheduler: src/devloop/domain/scheduler.py: the retry policy, attempt
--   records and their history; the refresh of issue states, the next issue, and the issue board.
-- Domain/ReviewQa: src/devloop/domain/review_qa.py: validation and outcomes of reviews and QA.
-- Domain/Approval: src/devloop/domain/approval.py: policies (`check_policy` is `__post_init__`), the
--   words and paths of a command (Tokens) and its classification (Classify).
-- Domain/Capabilities: `CapabilityCatalog` of src/devloop/domain/capabilities.py.
-- Domain/Execution: budgets, profiles and telemetry of src/devloop/domain/execution.py;
--   `record_phase` is `ExecutionTelemetry.record`, `check_telemetry` its `__post_init__`.
-- Workflow: src/devloop/workflow/definition.py: the methods of a definition, its parser over JSON
--   values (Parse) and the validation of ports (Ports); Registry: the component registry of
--   src/devloop/components/contracts.py.
--
-- Conventions. An identifier is the text that it wraps. A raised exception is `err` with the kind of
-- the error; the wording of messages is left out. A Python integer is ℤ where the code tests its
-- sign and ℕ elsewhere. A set is a list read by `contains`; a dict built by a comprehension is a
-- lookup of the last element with the key. What belongs to Python's library (white space,
-- patterns, paths, dates, JSON) is a record parameter.
--
-- Not modelled: the drawing of the user interfaces, the subprocess and App Server clients, the other
-- stores and their files, git, hashing and the installer, which are input and output; the application
-- services, which call them at every step.
pub mod Domain
pub mod Editor
pub mod Json
pub mod Portable
pub mod Prelude
pub mod Protocol
pub mod RunStore
pub mod TerminalText
pub mod Workflow
