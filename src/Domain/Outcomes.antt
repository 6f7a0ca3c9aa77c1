-- ===== src/Domain/Outcomes.antt =====
-- src/devloop/domain/outcomes.py
pub data StepOutcome : Type 0 where
  succeeded changes_requested blocked failed cancelled : StepOutcome
