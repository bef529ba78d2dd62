-- ===== src/Approval/ValidLine.antt =====
-- What a validated approval line guarantees, in terms of the policy's rules.
use youone_rnd.Shared.{
  ◌≡◌, ◌≢◌, Bool, true, false, some, List, [], ◌∷◌, length, any, find, arith, All, ok, str_eq,
  includes, >>=-eq-ok, >>-eq-ok, present, fail_if, not, ◌&&◌, ◌||◌, ◌==◌,
}
use youone_rnd.Kernel.{Uuid}
use youone_rnd.Approval.Types.{
  ApprovalRole, ApprovalPolicyStepRule, ApprovalPolicyVersion, ResolvedParticipant, ResolvedStep,
  CompletionMode, same_role, same_bool, same_mode,
}
use youone_rnd.Approval.Policy.{
  is_official_position, is_senior_position, effective_mode, specific_mismatch, check_participants,
  check_rules, validate_resolved_line,
}

-- A participant whom a rule allows.
pub record Qualifies (rule : ApprovalPolicyStepRule) (p : ResolvedParticipant) : Type 0 where
  pub position : includes rule.allowed_position_ids p.position_id ≡ true
  pub specific : specific_mismatch rule.specific_user_id p.user_id ≡ false
  pub roles : rule.allowed_role_ids ≢ [] → any (includes rule.allowed_role_ids) p.role_ids ≡ true
  pub official : rule.role ≡ ApprovalRole.approval → is_official_position p.position_id ≡ true
  pub no_senior : rule.role ≡ ApprovalRole.approval → is_senior_position p.position_id ≡ false

-- A step that resolves a rule.
pub record Resolves (rule : ApprovalPolicyStepRule) (step : ResolvedStep) : Type 0 where
  pub same_role : step.role ≡ rule.role
  pub same_place : step.sequence_no ≡ rule.sequence_no
  pub same_required : step.required ≡ rule.required
  pub same_mode : step.completion_mode ≡ effective_mode rule
  pub staffed : step.required ≡ true → step.participants ≢ []
  pub qualified : All (Qualifies rule) step.participants

check_participants_sound :
    (rule : ApprovalPolicyStepRule) (ids : List Uuid) (ps : List ResolvedParticipant)
    {seen : List Uuid}
    → check_participants rule ids ps ≡ ok seen
    → All (Qualifies rule) ps
unfolding check_participants
check_participants_sound rule ids [] h = tt
check_participants_sound rule ids (p ∷ ps) {seen} h = (
  record {
    position = ground arith;
    specific = ground arith;
    roles = λ e. ground arith;
    official = λ e. ground arith;
    no_senior = λ e. ground arith;
  },
  check_participants_sound rule (p.participant_id ∷ ids) ps {seen = seen} (ground arith),
)

-- What `check_rules` has shown of each rule.
abbrev pub IsResolved : List ResolvedStep → ApprovalPolicyStepRule → Type 0
IsResolved line rule =
    (step : ResolvedStep) × (find (λ s. str_eq s.rule_id rule.rule_id) line ≡ some step)
    × Resolves rule step

role_of_same : (a b : ApprovalRole) → same_role a b ≡ true → a ≡ b
role_of_same a b h = ground arith

mode_of_same : (a b : CompletionMode) → same_mode a b ≡ true → a ≡ b
mode_of_same a b h = ground arith

bool_of_same : (a b : Bool) → same_bool a b ≡ true → a ≡ b
bool_of_same a b h = ground arith

check_rules_sound :
    (line : List ResolvedStep) (ids : List Uuid) (rules : List ApprovalPolicyStepRule)
    {seen : List Uuid}
    → check_rules line ids rules ≡ ok seen
    → All (IsResolved line) rules
unfolding check_rules
check_rules_sound line ids [] h = tt
check_rules_sound line ids (rule ∷ rules) {seen} h =
    let (step, found, h1) =
      >>=-eq-ok
        (present (find (λ s. str_eq s.rule_id rule.rule_id) line) "APPROVAL_LINE_POLICY_MISMATCH") _
        h in
    let (place, h2) =
      >>-eq-ok
        (fail_if (not (same_role step.role rule.role) || not (step.sequence_no == rule.sequence_no))
          "APPROVAL_LINE_POLICY_MISMATCH")
        _ h1 in
    let (owned, h3) =
      >>-eq-ok
        (fail_if
          (not (same_bool step.required rule.required)
            || not (same_mode step.completion_mode (effective_mode rule)))
          "APPROVAL_LINE_POLICY_MISMATCH")
        _ h2 in
    let (_, h4) =
      >>-eq-ok (fail_if (includes ids step.step_id) "APPROVAL_LINE_DUPLICATE_ID") _ h3 in
    let (staffed, h5) =
      >>-eq-ok
        (fail_if (step.required && length step.participants == 0)
          "APPROVAL_LINE_PARTICIPANT_REQUIRED")
        _ h4 in
    let (seen', inner, h6) =
      >>=-eq-ok (check_participants rule (step.step_id ∷ ids) step.participants) _ h5 in
    (
      (
        step,
        ground arith,
        record {
          same_role = role_of_same step.role rule.role (ground arith);
          same_place = ground arith;
          same_required = bool_of_same step.required rule.required (ground arith);
          same_mode = mode_of_same step.completion_mode (effective_mode rule) (ground arith);
          staffed = λ r e. ground arith;
          qualified = check_participants_sound rule (step.step_id ∷ ids) step.participants inner;
        },
      ),
      check_rules_sound line seen' rules h6,
    )

-- A line that was validated against a policy has as many steps as the policy has rules, and resolves
-- every rule to a step of the same role, place, requirement and completion mode, with participants
-- whom the rule allows; a required step has some, and only directors and representatives stand in
-- an approval step.
pub validate_resolved_line_sound :
    (policy : ApprovalPolicyVersion) (line : List ResolvedStep)
    → validate_resolved_line policy line ≡ ok tt
    → (length line ≡ length policy.steps) × All (IsResolved line) policy.steps
unfolding validate_resolved_line
validate_resolved_line_sound policy line h =
    let (same, h1) =
      >>-eq-ok (fail_if (not (length line == length policy.steps)) "APPROVAL_LINE_POLICY_MISMATCH")
        _ h in
    let (ids, checked, _) = >>=-eq-ok (check_rules line [] policy.steps) _ h1 in
    (ground arith, check_rules_sound line [] policy.steps checked)
