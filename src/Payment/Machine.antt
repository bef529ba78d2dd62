-- ===== src/Payment/Machine.antt =====
-- packages/processes/vendor-acceptance-payment/src/domain/acceptance-payment.ts: the class
-- `AcceptancePaymentDecision`. Each method computes its new value before it assigns it, so a method
-- that throws changes nothing, and one that returns leaves the snapshot of its mutation.
use youone_rnd.Shared.{
  ℕ, Bool, true, false, not, ◌&&◌, ◌||◌, Option, none, some, List, [], ◌∷◌, String, Result, ok,
  ◌>>=◌, ◌>>◌, fail_if, present, ltb, ◌==◌, if◌then◌else◌, length, any, all, str_eq, opt_eq,
  includes, is_blank, truthy, is_some, is_none, codes_eq,
}
use youone_rnd.Decimal.{decimal_micros, percentage_micros}
use youone_rnd.Kernel.{Uuid, StableCode, Version, is_safe_integer, next_version}
use youone_rnd.Approval.Types.{ApprovalActorSnapshot}
use youone_rnd.Approval.Authority.{is_direct_internal, is_system_actor}
use youone_rnd.Payment.Types.{
  AcceptancePaymentState, Direction, AcceptancePaymentApprovalSnapshot,
  acceptance_responsibility_invariant, NegativeOutcome, AcceptancePaymentDecisionSnapshot,
  CalculateInput, AcceptancePaymentActorCommand, AcceptancePaymentMutation, AdjustmentInput,
  same_payment_state,
}
use youone_rnd.Payment.Rate.{validate_policy, calculate_rate, calculate_approved_payable_amount}

abbrev Value : Type 0
Value = AcceptancePaymentDecisionSnapshot

-- `requireText`
unfoldable pub require_text : String → String → Result (Unit {0})
require_text value code = fail_if (is_blank value) code

-- `requireDirectInternal`
unfoldable pub require_direct_internal : ApprovalActorSnapshot → Result Uuid
require_direct_internal actor = do
  fail_if (not (is_direct_internal actor)) "ACCEPTANCE_PAYMENT_DIRECT_INTERNAL_REQUIRED"
  present actor.authenticated_user_id "ACCEPTANCE_PAYMENT_DIRECT_INTERNAL_REQUIRED"

-- `requireSystem`
unfoldable pub require_system : ApprovalActorSnapshot → Result (Unit {0})
require_system actor =
    fail_if (not (is_system_actor actor)) "ACCEPTANCE_PAYMENT_SYSTEM_ACTOR_REQUIRED"

-- `guard`
unfoldable pub payment_guard :
    Value → AcceptancePaymentActorCommand → List AcceptancePaymentState → Result (Unit {0})
payment_guard value command states = do
  fail_if (not (command.expected_version == value.version)) "ACCEPTANCE_PAYMENT_STALE_VERSION"
  fail_if (not (any (same_payment_state value.state) states)) "ACCEPTANCE_PAYMENT_STATE_INVALID"

-- `left.length === right.length && left.every((value) => right.includes(value))`
unfoldable pub same_uuid_set : List Uuid → List Uuid → Bool
same_uuid_set left right = length left == length right && all (includes right) left

abbrev pub kept_reason : Option String → Option String
kept_reason reason = if truthy reason then reason else none

-- `mutation`
unfoldable pub mutation :
    Value
    → AcceptancePaymentActorCommand
    → Version
    → StableCode
    → Option String
    → List Uuid
    → AcceptancePaymentMutation
mutation snapshot command expected_version event_type reason evidence_ids = record {
  expected_version = expected_version;
  snapshot = snapshot;
  event = record {
    event_id = command.event_id;
    event_type = event_type;
    machine_id = "SM-ACCEPTANCE-PAYMENT-V1";
    aggregate_id = snapshot.acceptance_payment_decision_id;
    aggregate_version = snapshot.version;
    occurred_at = command.at;
    correlation_id = command.correlation_id;
    idempotency_key = command.idempotency_key;
    payload = record {
      acceptance_payment_decision_id = snapshot.acceptance_payment_decision_id;
      inspection_attempt_id = snapshot.basis.inspection_attempt_id;
      contract_id = snapshot.basis.contract_id;
      state = snapshot.state;
      disposition = snapshot.basis.disposition;
      achievement_percent = snapshot.achievement_percent;
      calculated_proposed_rate = snapshot.calculated_proposed_rate;
      has_adjustment = is_some snapshot.adjustment;
      external_transfer_executed = false;
    };
  };
  audit = record {
    action_id = event_type;
    actor = command.actor;
    aggregate_id = snapshot.acceptance_payment_decision_id;
    occurred_at = command.at;
    correlation_id = command.correlation_id;
    reason = kept_reason reason;
    evidence_ids = evidence_ids;
  };
}

abbrev pub fresh_decision :
    CalculateInput → AcceptancePaymentActorCommand → List ℕ → AcceptancePaymentDecisionSnapshot
fresh_decision input command rate = record {
  acceptance_payment_decision_id = input.acceptance_payment_decision_id;
  decision_root_id = input.decision_root_id;
  revision_no = input.revision_no;
  previous_decision_id = input.previous_decision_id;
  basis = input.basis;
  policy = input.policy;
  milestone_amount = input.milestone_amount;
  achievement_percent = input.basis.achievement_percent;
  calculated_proposed_rate = rate;
  adjusted_requested_rate = none;
  final_approved_rate = none;
  approved_payable_amount = none;
  adjustment = none;
  approval_instance_id = none;
  approval_subject_version = none;
  sealed_snapshot_checksum = none;
  sealed_at = none;
  approval_snapshot = none;
  residual_conditions = [];
  independently_usable_portions = [];
  held_amount = none;
  unpaid_remainder = none;
  state = AcceptancePaymentState.calculated;
  responsibility = acceptance_responsibility_invariant;
  version = 1;
  created_at = command.at;
  updated_at = command.at;
  cancellation_reason = none;
  approval_terminal_outcome = none;
}

abbrev pub same_truth : Bool → Bool → Bool
same_truth true b = b
same_truth false b = not b

unfoldable pub calculate :
    CalculateInput → AcceptancePaymentActorCommand → Result AcceptancePaymentMutation
calculate input command = do
  require_system command.actor
  fail_if (not (is_safe_integer input.revision_no) || ltb input.revision_no 1)
      "ACCEPTANCE_PAYMENT_REVISION_INVALID"
  fail_if (not (same_truth (input.revision_no == 1) (is_none input.previous_decision_id)))
      "ACCEPTANCE_PAYMENT_LINEAGE_INVALID"
  fail_if (ltb input.basis.attempt_no 1 || not (is_safe_integer input.basis.attempt_no))
      "ACCEPTANCE_PAYMENT_ATTEMPT_INVALID"
  achievement ←
      percentage_micros input.basis.achievement_percent "ACCEPTANCE_PAYMENT_ACHIEVEMENT_INVALID"
  amount ←
      decimal_micros input.milestone_amount.amount "ACCEPTANCE_PAYMENT_MILESTONE_AMOUNT_INVALID"
  validate_policy input.policy command.at
  rate ← calculate_rate input.policy input.basis.achievement_percent input.basis.disposition
  ok (
      mutation (fresh_decision input command rate) command 0 "EVT-ACCEPTANCE-PAYMENT-CALCULATE" none
        [])

abbrev pub direction_of : ℕ → ℕ → Direction
direction_of requested calculated =
    if ltb calculated requested
    then Direction.upward
    else if ltb requested calculated
    then Direction.downward
    else Direction.unchanged

unfoldable pub propose_adjustment :
    Value → AcceptancePaymentActorCommand → AdjustmentInput → Result AcceptancePaymentMutation
propose_adjustment value command input = do
  payment_guard value command (AcceptancePaymentState.calculated ∷ [])
  actor ← require_direct_internal command.actor
  require_text input.reason "ACCEPTANCE_PAYMENT_ADJUSTMENT_REASON_REQUIRED"
  fail_if (length input.evidence_ids == 0) "ACCEPTANCE_PAYMENT_ADJUSTMENT_EVIDENCE_REQUIRED"
  requested ← percentage_micros input.requested_rate "ACCEPTANCE_PAYMENT_ADJUSTMENT_RATE_INVALID"
  calculated ←
      percentage_micros value.calculated_proposed_rate "ACCEPTANCE_PAYMENT_CALCULATED_RATE_INVALID"
  next ← next_version value.version
  ok (
      mutation
        (record value {
          adjusted_requested_rate = some input.requested_rate;
          adjustment = some (record {
            adjustment_id = input.adjustment_id;
            requested_rate = input.requested_rate;
            reason = input.reason;
            evidence_ids = input.evidence_ids;
            actor = command.actor;
            proposed_at = command.at;
            direction = direction_of requested calculated;
          });
          state = AcceptancePaymentState.adjustment_proposed;
          version = next;
          updated_at = command.at;
        })
        command value.version "EVT-ACCEPTANCE-PAYMENT-ADJUST" (some input.reason)
        input.evidence_ids)

unfoldable pub submit_for_approval :
    Value → AcceptancePaymentActorCommand → Uuid → String → Result AcceptancePaymentMutation
submit_for_approval value command approval_instance_id checksum = do
  payment_guard value command
      (AcceptancePaymentState.calculated ∷ AcceptancePaymentState.adjustment_proposed ∷ [])
  actor ← require_direct_internal command.actor
  next ← next_version value.version
  ok (
      mutation
        (record value {
          approval_instance_id = some approval_instance_id;
          approval_subject_version = some next;
          sealed_snapshot_checksum = some checksum;
          sealed_at = some command.at;
          state = AcceptancePaymentState.approval_pending;
          version = next;
          updated_at = command.at;
        })
        command value.version "EVT-ACCEPTANCE-PAYMENT-SUBMIT" none [])

-- `adjustedRequestedRate ?? calculatedProposedRate`
abbrev pub exact_requested_rate : Value → List ℕ
exact_requested_rate value = elim value.adjusted_requested_rate [
  | none ↦ value.calculated_proposed_rate
  | some rate ↦ rate
]

unfoldable pub apply_approved_outcome :
    Value
    → AcceptancePaymentActorCommand
    → AcceptancePaymentApprovalSnapshot
    → Result AcceptancePaymentMutation
apply_approved_outcome value command approval = do
  payment_guard value command (AcceptancePaymentState.approval_pending ∷ [])
  require_system command.actor
  checksum ← present value.sealed_snapshot_checksum "ACCEPTANCE_PAYMENT_EXACT_SUBJECT_REQUIRED"
  subject_version ←
      present value.approval_subject_version "ACCEPTANCE_PAYMENT_EXACT_SUBJECT_REQUIRED"
  fail_if
      (not (opt_eq (some approval.approval_instance_id) value.approval_instance_id)
        || not (str_eq approval.subject_decision_id value.acceptance_payment_decision_id)
        || not (approval.subject_version == subject_version)
        || not (str_eq approval.subject_checksum checksum))
      "ACCEPTANCE_PAYMENT_APPROVAL_SUBJECT_MISMATCH"
  rate ← percentage_micros approval.final_approved_rate "ACCEPTANCE_PAYMENT_FINAL_RATE_INVALID"
  fail_if (not (codes_eq approval.final_approved_rate (exact_requested_rate value)))
      "ACCEPTANCE_PAYMENT_APPROVED_RATE_MISMATCH"
  payable ←
      calculate_approved_payable_amount value.milestone_amount approval.final_approved_rate
        value.policy
  next ← next_version value.version
  ok (
      mutation
        (record value {
          final_approved_rate = some approval.final_approved_rate;
          approved_payable_amount = some payable;
          approval_snapshot = some approval;
          state = AcceptancePaymentState.approved;
          version = next;
          updated_at = command.at;
        })
        command value.version "EVT-ACCEPTANCE-PAYMENT-APPROVE" none [])

unfoldable pub apply_negative_approval_outcome :
    Value
    → AcceptancePaymentActorCommand
    → NegativeOutcome
    → String
    → Result AcceptancePaymentMutation
apply_negative_approval_outcome value command outcome reason = do
  payment_guard value command (AcceptancePaymentState.approval_pending ∷ [])
  require_system command.actor
  require_text reason "ACCEPTANCE_PAYMENT_CANCELLATION_REASON_REQUIRED"
  next ← next_version value.version
  ok (
      mutation
        (record value {
          state = AcceptancePaymentState.cancelled;
          approval_terminal_outcome = some outcome;
          cancellation_reason = some reason;
          version = next;
          updated_at = command.at;
        })
        command value.version "EVT-ACCEPTANCE-PAYMENT-CANCEL" (some reason) [])

unfoldable pub cancel_before_approval :
    Value → AcceptancePaymentActorCommand → String → Result AcceptancePaymentMutation
cancel_before_approval value command reason = do
  payment_guard value command
      (AcceptancePaymentState.calculated ∷ AcceptancePaymentState.adjustment_proposed ∷ [])
  actor ← require_direct_internal command.actor
  require_text reason "ACCEPTANCE_PAYMENT_CANCELLATION_REASON_REQUIRED"
  next ← next_version value.version
  ok (
      mutation
        (record value {
          state = AcceptancePaymentState.cancelled;
          cancellation_reason = some reason;
          version = next;
          updated_at = command.at;
        })
        command value.version "EVT-ACCEPTANCE-PAYMENT-CANCEL" (some reason) [])
