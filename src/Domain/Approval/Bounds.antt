-- ===== src/Domain/Approval/Bounds.antt =====
-- What a classified request may do (src/devloop/domain/approval.py).
use devloop.Prelude.{
  text_same, map, not, refl, [], Option-cases, arith, ◌&&◌, inr, none, false, ◌||◌, inl, ◌∷◌, ◌==◌,
  Bool-cases, List, true, String, ◌≡◌, contains,
}
use devloop.Domain.Approval.Classify.{
  boundary_reason, is_recursive, family_of, is_acl_handoff, classify_tokens, classify_words,
  classify_command, ambiguous_request, classified, ClassifiedApproval,
}
use devloop.Domain.Approval.Tokens.{
  unquote, shell_control, executable_path, path_boundary, ShellLibrary,
}
use devloop.Domain.Approval.{
  is_outside, PathBoundary, is_workspace, CommandFamily, ApprovalPolicy, family_same, ambiguous,
  user_decision,
}

-- A request that waits for a decision of the user is one that the policy lists, and under a policy
-- for the workspace it is not outside of it. A grant of rights is in the workspace.
pub record IsPermitted (policy : ApprovalPolicy) (r : ClassifiedApproval) : Type 0 where
  pub family_listed : contains policy.command_families r.family ≡ true
  pub not_outside : is_workspace policy.path_boundary ≡ true → is_outside r.boundary ≡ false
  pub grant_inside : is_acl_handoff r.family ≡ true → is_workspace r.boundary ≡ true
  pub not_automatic : r.auto_decision ≡ none

abbrev Permits : ApprovalPolicy → ClassifiedApproval → Type 0
Permits policy r = r.classification ≡ user_decision → IsPermitted policy r

classified-Permits :
    (policy : ApprovalPolicy) (family : CommandFamily) (boundary : PathBoundary)
    (action reason digest : String)
    → (is_acl_handoff family ≡ true → is_workspace boundary ≡ true)
    → Permits policy (classified policy family boundary action reason digest)
unfolding classified
classified-Permits policy family boundary action reason digest grant =
    elim (Bool-cases (contains policy.command_families family)) [
      | inl listed ↦
          rw listed (elim (Bool-cases (is_workspace policy.path_boundary && is_outside boundary)) [
            | inl out ↦ rw out (λ h. cc)
            | inr fine ↦ rw fine (λ h. record {
              family_listed = listed;
              not_outside = λ w. ground arith;
              grant_inside = grant;
              not_automatic = refl;
            })
          ])
      | inr missing ↦ rw missing (λ h. cc)
    ]

module _ (library : ShellLibrary) (cwd root : String) (policy : ApprovalPolicy) where
  open library use {match_pattern, strip, shlex_split}

  ambiguous-Permits :
      (action reason digest : String)
      → Permits policy (ambiguous_request library policy action reason digest)
  ambiguous-Permits action reason digest =
      classified-Permits policy ambiguous PathBoundary.unknown action reason digest (λ h. cc)

  words-Permits :
      (digest command : String) (rest : List String)
      → Permits policy (classify_words library digest cwd root policy command rest)
  unfolding classify_words
  words-Permits digest command rest =
      let boundary = path_boundary library rest cwd root in
      let found = family_of library command rest in
      elim (Bool-cases (
        is_acl_handoff found.0
        && (is_recursive library (command ∷ rest) || not (is_workspace boundary)))) [
          | inl refused ↦ rw refused (λ h. cc)
          | inr fine ↦ rw fine (
              classified-Permits policy found.0 boundary found.1 (boundary_reason boundary) digest
                (λ h. ground arith))
        ]

  tokens-Permits :
      (digest : String) (words : List String)
      → Permits policy (classify_tokens library digest cwd root policy words)
  unfolding classify_tokens
  tokens-Permits digest [] = ambiguous-Permits _ _ digest
  tokens-Permits digest (command ∷ rest) =
      elim (Bool-cases (match_pattern executable_path command)) [
        | inl path ↦ rw path (ambiguous-Permits _ _ digest)
        | inr plain ↦ rw plain (words-Permits digest command rest)
      ]

  command-Permits :
      (command : String) → Permits policy (classify_command library command cwd root policy)
  unfolding classify_command
  command-Permits command =
      let text = strip command in
      elim (Bool-cases (text == "" || match_pattern shell_control text)) [
        | inl control ↦ rw control (ambiguous-Permits _ _ _)
        | inr plain ↦ rw plain (elim (Option-cases (shlex_split text)) [
          | inl missing ↦ rw missing (ambiguous-Permits _ _ _)
          | inr (words, split) ↦ rw split (tokens-Permits _ (map unquote words))
        ])
      ]

-- A command that waits for a decision of the user is of a family that the policy lists. Under a
-- policy for the workspace its boundary is not OUTSIDE_WORKSPACE, a grant of Windows rights is
-- inside the workspace under every policy, and no decision is made automatically.
pub classify_command-IsPermitted :
    (library : ShellLibrary) (command cwd root : String) (policy : ApprovalPolicy)
    → (classify_command library command cwd root policy).classification ≡ user_decision
    → IsPermitted policy (classify_command library command cwd root policy)
classify_command-IsPermitted library command cwd root policy h =
    command-Permits library cwd root policy command h
