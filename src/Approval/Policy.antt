-- ===== src/Approval/Policy.antt =====
-- packages/core/approval/src/domain/approval.ts: normalising a policy, matching it against a
-- subject, and validating a resolved approval line against it.
use youone_rnd.Shared.{
  ℕ, ◌+◌, ◌*◌, Bool, true, false, not, ◌&&◌, ◌||◌, Option, none, some, List, [], ◌∷◌, Result, ok,
  err, ◌>>=◌, ◌>>◌, fail_if, present, ltb, leb, ◌==◌, if◌then◌else◌, length, any, all, find, str_eq,
  includes, truthy,
}
use youone_rnd.Decimal.{Digits, is_digit, span_digits, value_from, pad_end}
use youone_rnd.Kernel.{Uuid, StableCode}
use youone_rnd.Approval.Types.{
  ApprovalActionKind, SubjectKind, AmountBand, StrengthenedRisk, ApprovalPolicySelectionInput,
  SelectionAmount, ApprovalPolicyStepRule, PolicyState, ApprovalPolicyVersion, ApprovalRole,
  CompletionMode, ResolvedParticipant, ResolvedStep, SecurityLevel, same_role, same_mode,
  same_subject, same_level, same_bool,
}

-- `officialPositions`
abbrev pub is_official_position : StableCode → Bool
is_official_position p = str_eq p "POSITION_LAB_DIRECTOR" || str_eq p "POSITION_REPRESENTATIVE"

-- `seniorPositions`
abbrev pub is_senior_position : StableCode → Bool
is_senior_position p = str_eq p "POSITION_SENIOR_RESEARCHER"

unfoldable pub approval_permission_for_action : ApprovalActionKind → Result StableCode
approval_permission_for_action ApprovalActionKind.review = ok "approval.step.review"
approval_permission_for_action ApprovalActionKind.agree = ok "approval.step.agree"
approval_permission_for_action ApprovalActionKind.approve = ok "approval.step.approve"
approval_permission_for_action ApprovalActionKind.reference_receipt = ok "approval.step.reference"
approval_permission_for_action ApprovalActionKind.reject = ok "approval.step.reject"
approval_permission_for_action _ = err "APPROVAL_STEP_PERMISSION_UNDEFINED"

-- `rule.completionMode ?? (… ? "ANY_ONE" : "SEQUENTIAL")`
unfoldable pub effective_mode : ApprovalPolicyStepRule → CompletionMode
effective_mode rule = elim rule.completion_mode [
  | some mode ↦ mode
  | none ↦
      if includes rule.allowed_position_ids "POSITION_REPRESENTATIVE"
      then CompletionMode.any_one
      else CompletionMode.sequential
]

-- The body of the `map` in `normalizePolicy`.
unfoldable pub normalize_rule : ApprovalPolicyStepRule → Result ApprovalPolicyStepRule
normalize_rule rule = do
  fail_if (rule.sequence_no == 0) "APPROVAL_POLICY_SEQUENCE_INVALID"
  fail_if
      (same_role rule.role ApprovalRole.approval
        && any is_senior_position rule.allowed_position_ids)
      "APPROVAL_SENIOR_OFFICIAL_AUTHORITY_FORBIDDEN"
  fail_if
      (same_mode (effective_mode rule) CompletionMode.specific
        && not (truthy rule.specific_user_id))
      "APPROVAL_SPECIFIC_USER_REQUIRED"
  ok (record rule { completion_mode = some (effective_mode rule) })

unfoldable pub normalize_rules : List ApprovalPolicyStepRule → Result (List ApprovalPolicyStepRule)
normalize_rules [] = ok []
normalize_rules (rule ∷ rules) = do
  normalized ← normalize_rule rule
  rest ← normalize_rules rules
  ok (normalized ∷ rest)

abbrev pub is_published : PolicyState → Bool
is_published PolicyState.published = true
is_published _ = false

unfoldable pub normalize_policy : ApprovalPolicyVersion → Result ApprovalPolicyVersion
normalize_policy policy = do
  fail_if (not (is_published policy.state) || length policy.steps == 0) "APPROVAL_POLICY_NOT_ACTIVE"
  steps ← normalize_rules policy.steps
  ok (record policy { steps = steps })

-- The fraction that may stand behind the whole part of an amount.
unfoldable pub unit_fraction : ℕ → Digits → Result ℕ
unit_fraction whole [] = ok (whole * 1000000 + value_from 0 (pad_end 6 []))
unit_fraction whole (c ∷ cs) =
    if c == b'.' && (all is_digit cs && (leb 1 (length cs) && leb (length cs) 6))
    then ok (whole * 1000000 + value_from 0 (pad_end 6 cs))
    else err "APPROVAL_AMOUNT_INVALID"

-- `decimalUnits`: `\d+`, so leading zeros are accepted here.
unfoldable pub decimal_units : Digits → Result ℕ
decimal_units text =
    let (whole, rest) = span_digits text in
    if length whole == 0
    then err "APPROVAL_AMOUNT_INVALID"
    else unit_fraction (value_from 0 whole) rest

-- `bound && …`: a bound that is undefined or empty sets no limit.
unfoldable pub at_least_bound : Option Digits → ℕ → Result Bool
at_least_bound none v = ok true
at_least_bound (some []) v = ok true
at_least_bound (some (c ∷ cs)) v = do bound ← decimal_units (c ∷ cs); ok (leb bound v)

unfoldable pub below_bound : Option Digits → ℕ → Result Bool
below_bound none v = ok true
below_bound (some []) v = ok true
below_bound (some (c ∷ cs)) v = do bound ← decimal_units (c ∷ cs); ok (ltb v bound)

-- The part of `policyMatches` under `if (s.amountBand)`.
unfoldable pub band_matches : Option AmountBand → Option SelectionAmount → Result Bool
band_matches none amount = ok true
band_matches (some band) none = ok false
band_matches (some band) (some amount) =
    if str_eq amount.currency band.currency
    then (do
      v ← decimal_units amount.value
      enough ← at_least_bound band.min_inclusive v
      if enough then below_bound band.max_exclusive v else ok false)
    else ok false

abbrev pub level_matches : List SecurityLevel → Option SecurityLevel → Bool
level_matches [] level = true
level_matches (l ∷ ls) none = false
level_matches (l ∷ ls) (some level) = any (same_level level) (l ∷ ls)

abbrev pub document_type_matches : List StableCode → Option StableCode → Bool
document_type_matches [] type = true
document_type_matches (t ∷ ts) none = false
document_type_matches (t ∷ ts) (some type) = truthy (some type) && any (λ v. str_eq v type) (t ∷ ts)

abbrev pub risk_matches : StrengthenedRisk → Bool → Bool
risk_matches StrengthenedRisk.any strengthened = true
risk_matches StrengthenedRisk.required strengthened = strengthened
risk_matches StrengthenedRisk.excluded strengthened = not strengthened

unfoldable pub policy_matches :
    ApprovalPolicyVersion → ApprovalPolicySelectionInput → SubjectKind → Result Bool
policy_matches policy input kind =
    let s = policy.selection in
    if any (same_subject kind) s.subject_kinds
      && (document_type_matches s.document_type_ids input.document_type_id
          && (level_matches s.security_levels input.security_level
              && risk_matches s.strengthened_risk input.strengthened_risk))
    then band_matches s.amount_band input.amount
    else ok false

-- `rule.specificUserId && p.userId !== rule.specificUserId`
abbrev pub specific_mismatch : Option Uuid → Uuid → Bool
specific_mismatch none user = false
specific_mismatch (some id) user = truthy (some id) && not (str_eq user id)

-- The inner loop of `validateResolvedLine`; the result is the identifiers seen so far.
unfoldable pub check_participants :
    ApprovalPolicyStepRule → List Uuid → List ResolvedParticipant → Result (List Uuid)
check_participants rule ids [] = ok ids
check_participants rule ids (p ∷ ps) = do
  fail_if (includes ids p.participant_id) "APPROVAL_LINE_DUPLICATE_ID"
  fail_if (specific_mismatch rule.specific_user_id p.user_id) "APPROVAL_LINE_SPECIFIC_USER_MISMATCH"
  fail_if (not (includes rule.allowed_position_ids p.position_id))
      "APPROVAL_LINE_POSITION_FORBIDDEN"
  fail_if
      (not (length rule.allowed_role_ids == 0)
        && not (any (includes rule.allowed_role_ids) p.role_ids))
      "APPROVAL_LINE_ROLE_FORBIDDEN"
  fail_if
      (same_role rule.role ApprovalRole.approval
        && (not (is_official_position p.position_id) || is_senior_position p.position_id))
      "APPROVAL_OFFICIAL_AUTHORITY_INVALID"
  check_participants rule (p.participant_id ∷ ids) ps

-- The outer loop of `validateResolvedLine`, over the policy's rules.
unfoldable pub check_rules :
    List ResolvedStep → List Uuid → List ApprovalPolicyStepRule → Result (List Uuid)
check_rules line ids [] = ok ids
check_rules line ids (rule ∷ rules) = do
  step ← present (find (λ s. str_eq s.rule_id rule.rule_id) line) "APPROVAL_LINE_POLICY_MISMATCH"
  fail_if (not (same_role step.role rule.role) || not (step.sequence_no == rule.sequence_no))
      "APPROVAL_LINE_POLICY_MISMATCH"
  fail_if
      (not (same_bool step.required rule.required)
        || not (same_mode step.completion_mode (effective_mode rule)))
      "APPROVAL_LINE_POLICY_MISMATCH"
  fail_if (includes ids step.step_id) "APPROVAL_LINE_DUPLICATE_ID"
  fail_if (step.required && length step.participants == 0) "APPROVAL_LINE_PARTICIPANT_REQUIRED"
  seen ← check_participants rule (step.step_id ∷ ids) step.participants
  check_rules line seen rules

unfoldable pub validate_resolved_line :
    ApprovalPolicyVersion → List ResolvedStep → Result (Unit {0})
validate_resolved_line policy line = do
  fail_if (not (length line == length policy.steps)) "APPROVAL_LINE_POLICY_MISMATCH"
  ids ← check_rules line [] policy.steps
  ok tt

unfoldable pub validate_research_project_designation_line : List ResolvedStep → Result (Unit {0})
validate_research_project_designation_line (step ∷ []) = do
  fail_if
      (not step.required
        || not (same_role step.role ApprovalRole.approval)
        || not (same_mode step.completion_mode CompletionMode.sequential)
        || not (length step.participants == 1))
      "APPROVAL_RESEARCH_DESIGNATION_LINE_INVALID"
  participant ←
      present (find (λ p. true) step.participants) "APPROVAL_RESEARCH_DESIGNATION_LINE_INVALID"
  fail_if (not (str_eq participant.position_id "POSITION_LAB_DIRECTOR"))
      "APPROVAL_RESEARCH_DESIGNATION_LINE_INVALID"
validate_research_project_designation_line _ = err "APPROVAL_RESEARCH_DESIGNATION_LINE_INVALID"

-- `kinds.length !== 1 || kinds[0] !== kind`, the other way round.
abbrev pub only_subject : List SubjectKind → SubjectKind → Bool
only_subject (k ∷ []) kind = same_subject k kind
only_subject _ kind = false

abbrev pub only_code : List StableCode → StableCode → Bool
only_code (c ∷ []) code = str_eq c code
only_code _ code = false

abbrev pub is_absent : Option Uuid → Bool
is_absent none = true
is_absent (some _) = false

-- `mode === "SEQUENTIAL"`, where the mode may be undefined.
abbrev pub is_sequential : Option CompletionMode → Bool
is_sequential none = false
is_sequential (some mode) = same_mode mode CompletionMode.sequential

-- The checks on the one rule of a designation policy.
unfoldable pub designation_rule : List ApprovalPolicyStepRule → Result (Unit {0})
designation_rule (step ∷ []) = do
  fail_if
      (not step.required
        || not (step.sequence_no == 1)
        || not (same_role step.role ApprovalRole.approval)
        || not (is_sequential step.completion_mode))
      "APPROVAL_RESEARCH_DESIGNATION_POLICY_INVALID"
  fail_if
      (not (only_code step.allowed_position_ids "POSITION_LAB_DIRECTOR")
        || not (length step.allowed_role_ids == 0)
        || not (is_absent step.specific_user_id))
      "APPROVAL_RESEARCH_DESIGNATION_POLICY_INVALID"
designation_rule _ = err "APPROVAL_RESEARCH_DESIGNATION_POLICY_INVALID"

unfoldable pub validate_research_project_designation_policy :
    ApprovalPolicyVersion → List ResolvedStep → Result (Unit {0})
validate_research_project_designation_policy policy line = do
  fail_if
      (not (only_subject policy.selection.subject_kinds SubjectKind.research_project_application))
      "APPROVAL_RESEARCH_DESIGNATION_POLICY_INVALID"
  designation_rule policy.steps
  validate_research_project_designation_line line
