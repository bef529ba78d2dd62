-- ===== src/Payment/Types.antt =====
-- The data of packages/processes/vendor-acceptance-payment/src/domain/acceptance-payment.ts.
use youone_rnd.Shared.{ℕ, Bool, true, false, Option, List, String, ◌==◌}
use youone_rnd.Decimal.{Digits}
use youone_rnd.Kernel.{Uuid, UtcInstant, StableCode, Sha256, Version, Money}
use youone_rnd.Approval.Types.{ApprovalActorSnapshot}

pub data AcceptancePaymentState : Type 0 where
  calculated adjustment_proposed approval_pending approved held_for_conditions
        eligible_for_external_payment cancelled :
      AcceptancePaymentState

pub data AcceptanceDisposition : Type 0 where
  accepted conditional_acceptance partial_acceptance rejected : AcceptanceDisposition

-- A percentage is a decimal text.
abbrev pub Percentage : Type 0
Percentage = Digits

pub data ProposedRate : Type 0 where
  zero_rate achievement_percent : ProposedRate
  fixed : Percentage → ProposedRate

pub record AcceptanceRateRule : Type 0 where
  pub rule_id : StableCode
  pub minimum_achievement_inclusive : Percentage
  pub maximum_achievement_exclusive : Option Percentage
  pub disposition : AcceptanceDisposition
  pub proposed_rate : ProposedRate

pub data BasisKind : Type 0 where
  internal_preset contract_override government_agreement mandatory_law : BasisKind

pub data RoundingMode : Type 0 where
  half_up down : RoundingMode

pub record AcceptancePaymentPolicyVersionSnapshot : Type 0 where
  pub policy_version_id : Uuid
  pub policy_id : StableCode
  pub version : ℕ
  pub checksum : Sha256
  pub effective_from : UtcInstant
  pub effective_to : Option UtcInstant
  pub basis_kind : BasisKind
  pub basis_reference_id : StableCode
  pub basis_version : ℕ
  pub amount_rounding_decimal_places : ℕ
  pub amount_rounding_mode : RoundingMode
  pub rate_rules : List AcceptanceRateRule

pub record BasisPortion : Type 0 where
  pub portion_code : StableCode
  pub description : String
  pub deliverable_version_id : Uuid
  pub evidence_ids : List Uuid

pub record BasisCondition : Type 0 where
  pub condition_code : StableCode
  pub description : String
  pub due_at : Option UtcInstant
  pub evidence_ids : List Uuid

pub record SealedInspectionAttemptBasis : Type 0 where
  pub inspection_attempt_id : Uuid
  pub inspection_id : Uuid
  pub attempt_no : ℕ
  pub checksum : Sha256
  pub sealed_at : UtcInstant
  pub inspection_checklist_version_id : Uuid
  pub contract_id : Uuid
  pub contract_milestone_id : Uuid
  pub deliverable_id : Uuid
  pub deliverable_version_id : Uuid
  pub disposition : AcceptanceDisposition
  pub achievement_percent : Percentage
  pub evidence_ids : List Uuid
  pub critical_failure_criterion_ids : List Uuid
  pub independently_usable_portions : List BasisPortion
  pub residual_conditions : List BasisCondition

pub data Direction : Type 0 where
  upward downward unchanged : Direction

pub record PaymentRateAdjustmentSnapshot : Type 0 where
  pub adjustment_id : Uuid
  pub requested_rate : Percentage
  pub reason : String
  pub evidence_ids : List Uuid
  pub actor : ApprovalActorSnapshot
  pub proposed_at : UtcInstant
  pub direction : Direction

-- `outcome` is "APPROVED" in every value of the type.
pub record AcceptancePaymentApprovalSnapshot : Type 0 where
  pub approval_instance_id : Uuid
  pub approval_version : Version
  pub subject_decision_id : Uuid
  pub subject_version : Version
  pub subject_checksum : Sha256
  pub final_approved_rate : Percentage
  pub approved_at : UtcInstant

pub data ConditionState : Type 0 where
  open_condition satisfied : ConditionState

pub record ResidualPaymentConditionSnapshot : Type 0 where
  pub residual_condition_id : Uuid
  pub source_condition_code : StableCode
  pub description : String
  pub due_date : String
  pub evidence_ids : List Uuid
  pub state : ConditionState
  pub satisfied_at : Option UtcInstant
  pub satisfied_by_user_id : Option Uuid
  pub satisfaction_evidence_ids : Option (List Uuid)

pub record PartialUsablePortionSnapshot : Type 0 where
  pub usable_portion_id : Uuid
  pub source_portion_code : StableCode
  pub source_deliverable_version_id : Uuid
  pub description : String
  pub evidence_ids : List Uuid
  pub release_eligible : Bool

pub record AcceptanceResponsibilityInvariant : Type 0 where
  pub acceptance_waives_vendor_responsibility : Bool
  pub payment_eligibility_waives_vendor_responsibility : Bool
  pub warranty_and_latent_defect_responsibility_survives : Bool
  pub professional_responsibility_survives : Bool
  pub external_transfer_executed : Bool

-- ACCEPTANCE_RESPONSIBILITY_INVARIANT
abbrev pub acceptance_responsibility_invariant : AcceptanceResponsibilityInvariant
acceptance_responsibility_invariant = record {
  acceptance_waives_vendor_responsibility = false;
  payment_eligibility_waives_vendor_responsibility = false;
  warranty_and_latent_defect_responsibility_survives = true;
  professional_responsibility_survives = true;
  external_transfer_executed = false;
}

pub data NegativeOutcome : Type 0 where
  rejected recalled cancelled : NegativeOutcome

pub record AcceptancePaymentDecisionSnapshot : Type 0 where
  pub acceptance_payment_decision_id : Uuid
  pub decision_root_id : Uuid
  pub revision_no : ℕ
  pub previous_decision_id : Option Uuid
  pub basis : SealedInspectionAttemptBasis
  pub policy : AcceptancePaymentPolicyVersionSnapshot
  pub milestone_amount : Money
  pub achievement_percent : Percentage
  pub calculated_proposed_rate : Percentage
  pub adjusted_requested_rate : Option Percentage
  pub final_approved_rate : Option Percentage
  pub approved_payable_amount : Option Money
  pub adjustment : Option PaymentRateAdjustmentSnapshot
  pub approval_instance_id : Option Uuid
  pub approval_subject_version : Option Version
  pub sealed_snapshot_checksum : Option Sha256
  pub sealed_at : Option UtcInstant
  pub approval_snapshot : Option AcceptancePaymentApprovalSnapshot
  pub residual_conditions : List ResidualPaymentConditionSnapshot
  pub independently_usable_portions : List PartialUsablePortionSnapshot
  pub held_amount : Option Money
  pub unpaid_remainder : Option Money
  pub state : AcceptancePaymentState
  pub responsibility : AcceptanceResponsibilityInvariant
  pub version : Version
  pub created_at : UtcInstant
  pub updated_at : UtcInstant
  pub cancellation_reason : Option String
  pub approval_terminal_outcome : Option NegativeOutcome

-- What the caller of `calculate` supplies: the snapshot without the fields that it computes.
pub record CalculateInput : Type 0 where
  pub acceptance_payment_decision_id : Uuid
  pub decision_root_id : Uuid
  pub revision_no : ℕ
  pub previous_decision_id : Option Uuid
  pub basis : SealedInspectionAttemptBasis
  pub policy : AcceptancePaymentPolicyVersionSnapshot
  pub milestone_amount : Money

pub record AcceptancePaymentActorCommand : Type 0 where
  pub actor : ApprovalActorSnapshot
  pub at : UtcInstant
  pub expected_version : Version
  pub correlation_id : String
  pub idempotency_key : String
  pub event_id : Uuid

pub record PaymentPayload : Type 0 where
  pub acceptance_payment_decision_id : Uuid
  pub inspection_attempt_id : Uuid
  pub contract_id : Uuid
  pub state : AcceptancePaymentState
  pub disposition : AcceptanceDisposition
  pub achievement_percent : Percentage
  pub calculated_proposed_rate : Percentage
  pub has_adjustment : Bool
  pub external_transfer_executed : Bool

pub record AcceptancePaymentEvent : Type 0 where
  pub event_id : Uuid
  pub event_type : StableCode
  pub machine_id : String
  pub aggregate_id : Uuid
  pub aggregate_version : Version
  pub occurred_at : UtcInstant
  pub correlation_id : String
  pub idempotency_key : String
  pub payload : PaymentPayload

pub record PaymentAudit : Type 0 where
  pub action_id : StableCode
  pub actor : ApprovalActorSnapshot
  pub aggregate_id : Uuid
  pub occurred_at : UtcInstant
  pub correlation_id : String
  pub reason : Option String
  pub evidence_ids : List Uuid

pub record AcceptancePaymentMutation : Type 0 where
  pub expected_version : Version
  pub snapshot : AcceptancePaymentDecisionSnapshot
  pub event : AcceptancePaymentEvent
  pub audit : PaymentAudit

pub record HoldInput : Type 0 where
  pub residual_conditions : List ResidualPaymentConditionSnapshot
  pub independently_usable_portions : List PartialUsablePortionSnapshot
  pub held_amount : Money
  pub unpaid_remainder : Money

pub record AdjustmentInput : Type 0 where
  pub adjustment_id : Uuid
  pub requested_rate : Percentage
  pub reason : String
  pub evidence_ids : List Uuid

-- `===` on the enumerations.
abbrev pub payment_state_no : AcceptancePaymentState → ℕ
payment_state_no calculated = 0
payment_state_no adjustment_proposed = 1
payment_state_no approval_pending = 2
payment_state_no approved = 3
payment_state_no held_for_conditions = 4
payment_state_no eligible_for_external_payment = 5
payment_state_no cancelled = 6

abbrev pub same_payment_state : AcceptancePaymentState → AcceptancePaymentState → Bool
same_payment_state a b = payment_state_no a == payment_state_no b

abbrev pub disposition_no : AcceptanceDisposition → ℕ
disposition_no accepted = 0
disposition_no conditional_acceptance = 1
disposition_no partial_acceptance = 2
disposition_no rejected = 3

abbrev pub same_disposition : AcceptanceDisposition → AcceptanceDisposition → Bool
same_disposition a b = disposition_no a == disposition_no b

abbrev pub is_satisfied : ResidualPaymentConditionSnapshot → Bool
is_satisfied c = elim c.state [ open_condition ↦ false | satisfied ↦ true ]
