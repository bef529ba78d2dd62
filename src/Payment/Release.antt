-- ===== src/Payment/Release.antt =====
-- packages/processes/vendor-acceptance-payment/src/domain/acceptance-payment.ts: holding an approved
-- payment for conditions, satisfying them, releasing it, and restoring a stored decision.
use youone_rnd.Shared.{
  Bool, true, false, not, ◌&&◌, ◌||◌, Option, none, some, List, [], ◌∷◌, map, String, Result, ok,
  err, ◌>>=◌, ◌>>◌, fail_if, present, ◌==◌, if◌then◌else◌, length, any, find, str_eq, is_none,
  codes,
}
use youone_rnd.Decimal.{decimal_micros}
use youone_rnd.Kernel.{Uuid, UtcInstant, Money, next_version, money}
use youone_rnd.Payment.Types.{
  AcceptancePaymentState, AcceptanceDisposition, BasisPortion, BasisCondition, ConditionState,
  ResidualPaymentConditionSnapshot, PartialUsablePortionSnapshot, AcceptancePaymentDecisionSnapshot,
  AcceptancePaymentActorCommand, AcceptancePaymentMutation, HoldInput, same_payment_state,
  same_disposition, is_satisfied,
}
use youone_rnd.Payment.Rate.{validate_money_within}
use youone_rnd.Payment.Machine.{
  require_text, require_direct_internal, require_system, payment_guard, same_uuid_set, mutation,
}

-- `source.dueAt !== undefined && source.dueAt !== condition.dueDate`
abbrev pub due_differs : Option UtcInstant → String → Bool
due_differs none due = false
due_differs (some at) due = not (str_eq at due)

abbrev pub condition_differs : Option BasisCondition → ResidualPaymentConditionSnapshot → Bool
condition_differs none condition = true
condition_differs (some source) condition =
    not (str_eq source.description condition.description)
    || due_differs source.due_at condition.due_date
    || not (same_uuid_set source.evidence_ids condition.evidence_ids)

abbrev pub condition_mismatch : List BasisCondition → ResidualPaymentConditionSnapshot → Bool
condition_mismatch sources condition =
    condition_differs (find (λ s. str_eq s.condition_code condition.source_condition_code) sources)
      condition

abbrev pub portion_differs : Option BasisPortion → PartialUsablePortionSnapshot → Bool
portion_differs none portion = true
portion_differs (some source) portion =
    not (str_eq source.description portion.description)
    || not (str_eq source.deliverable_version_id portion.source_deliverable_version_id)
    || not (same_uuid_set source.evidence_ids portion.evidence_ids)

abbrev pub portion_mismatch : List BasisPortion → PartialUsablePortionSnapshot → Bool
portion_mismatch sources portion =
    portion_differs (find (λ s. str_eq s.portion_code portion.source_portion_code) sources) portion

-- The checks of `holdForConditions` against the sealed basis, by its disposition.
unfoldable pub check_hold_basis :
    AcceptanceDisposition → AcceptancePaymentDecisionSnapshot → HoldInput → Result (Unit {0})
check_hold_basis AcceptanceDisposition.conditional_acceptance value input = do
  fail_if (length input.residual_conditions == 0) "ACCEPTANCE_PAYMENT_RESIDUAL_CONDITION_REQUIRED"
  fail_if
      (not (length input.residual_conditions == length value.basis.residual_conditions)
        || any (condition_mismatch value.basis.residual_conditions) input.residual_conditions)
      "ACCEPTANCE_PAYMENT_RESIDUAL_BASIS_MISMATCH"
check_hold_basis AcceptanceDisposition.partial_acceptance value input = do
  fail_if (length input.independently_usable_portions == 0)
      "ACCEPTANCE_PAYMENT_USABLE_PORTION_REQUIRED"
  fail_if
      (not (
          length input.independently_usable_portions
          == length value.basis.independently_usable_portions)
        || any (portion_mismatch value.basis.independently_usable_portions)
            input.independently_usable_portions)
      "ACCEPTANCE_PAYMENT_PORTION_BASIS_MISMATCH"
check_hold_basis _ value input = err "ACCEPTANCE_PAYMENT_HOLD_DISPOSITION_INVALID"

unfoldable pub check_condition_texts : List ResidualPaymentConditionSnapshot → Result (Unit {0})
check_condition_texts [] = ok tt
check_condition_texts (condition ∷ conditions) = do
  require_text condition.description "ACCEPTANCE_PAYMENT_RESIDUAL_DESCRIPTION_REQUIRED"
  require_text condition.due_date "ACCEPTANCE_PAYMENT_RESIDUAL_DUE_DATE_REQUIRED"
  check_condition_texts conditions

unfoldable pub check_portion_texts : List PartialUsablePortionSnapshot → Result (Unit {0})
check_portion_texts [] = ok tt
check_portion_texts (portion ∷ portions) = do
  require_text portion.description "ACCEPTANCE_PAYMENT_PORTION_DESCRIPTION_REQUIRED"
  check_portion_texts portions

-- `!this.value.approvalSnapshot || this.value.finalApprovedRate === undefined`
abbrev pub lacks_approval : AcceptancePaymentDecisionSnapshot → Bool
lacks_approval value = is_none value.approval_snapshot || is_none value.final_approved_rate

unfoldable pub check_hold_amounts : Money → Money → Money → Result (Unit {0})
check_hold_amounts held remainder payable = do
  validate_money_within held payable "ACCEPTANCE_PAYMENT_HELD_AMOUNT_INVALID"
  validate_money_within remainder payable "ACCEPTANCE_PAYMENT_UNPAID_REMAINDER_INVALID"
  fail_if (not (str_eq held.currency remainder.currency))
      "ACCEPTANCE_PAYMENT_HOLD_REMAINDER_MISMATCH"
  held_micros ← decimal_micros held.amount "ACCEPTANCE_PAYMENT_HELD_AMOUNT_INVALID"
  remainder_micros ← decimal_micros remainder.amount "ACCEPTANCE_PAYMENT_UNPAID_REMAINDER_INVALID"
  fail_if (not (held_micros == remainder_micros)) "ACCEPTANCE_PAYMENT_HOLD_REMAINDER_MISMATCH"

unfoldable pub hold_for_conditions :
    AcceptancePaymentDecisionSnapshot
    → AcceptancePaymentActorCommand
    → HoldInput
    → Result AcceptancePaymentMutation
hold_for_conditions value command input = do
  payment_guard value command (AcceptancePaymentState.approved ∷ [])
  require_system command.actor
  fail_if (lacks_approval value) "ACCEPTANCE_PAYMENT_OFFICIAL_APPROVAL_REQUIRED"
  check_hold_basis value.basis.disposition value input
  check_condition_texts input.residual_conditions
  check_portion_texts input.independently_usable_portions
  payable ← present value.approved_payable_amount "ACCEPTANCE_PAYMENT_APPROVED_AMOUNT_REQUIRED"
  check_hold_amounts input.held_amount input.unpaid_remainder payable
  held ← money input.held_amount.amount input.held_amount.currency
  remainder ← money input.unpaid_remainder.amount input.unpaid_remainder.currency
  next ← next_version value.version
  ok (
      mutation
        (record value {
          residual_conditions = input.residual_conditions;
          independently_usable_portions = input.independently_usable_portions;
          held_amount = some held;
          unpaid_remainder = some remainder;
          state = AcceptancePaymentState.held_for_conditions;
          version = next;
          updated_at = command.at;
        })
        command value.version "EVT-ACCEPTANCE-PAYMENT-HOLD" none [])

abbrev pub is_condition : Uuid → ResidualPaymentConditionSnapshot → Bool
is_condition id condition = str_eq condition.residual_condition_id id

abbrev pub satisfy :
    Uuid
    → UtcInstant
    → Uuid
    → List Uuid
    → ResidualPaymentConditionSnapshot
    → ResidualPaymentConditionSnapshot
satisfy id at actor evidence condition =
    if is_condition id condition
    then record condition {
      state = ConditionState.satisfied;
      satisfied_at = some at;
      satisfied_by_user_id = some actor;
      satisfaction_evidence_ids = some evidence;
    }
    else condition

unfoldable pub satisfy_residual_condition :
    AcceptancePaymentDecisionSnapshot
    → AcceptancePaymentActorCommand
    → Uuid
    → List Uuid
    → Result AcceptancePaymentMutation
satisfy_residual_condition value command residual_condition_id evidence_ids = do
  payment_guard value command (AcceptancePaymentState.held_for_conditions ∷ [])
  actor ← require_direct_internal command.actor
  fail_if (length evidence_ids == 0) "ACCEPTANCE_PAYMENT_CONDITION_EVIDENCE_REQUIRED"
  condition ←
      present (find (is_condition residual_condition_id) value.residual_conditions)
        "ACCEPTANCE_PAYMENT_RESIDUAL_CONDITION_NOT_FOUND"
  fail_if (is_satisfied condition) "ACCEPTANCE_PAYMENT_CONDITION_ALREADY_SATISFIED"
  next ← next_version value.version
  ok (
      mutation
        (record value {
          residual_conditions =
              map (satisfy residual_condition_id command.at actor evidence_ids)
                value.residual_conditions;
          version = next;
          updated_at = command.at;
        })
        command value.version "EVT-ACCEPTANCE-PAYMENT-CONDITION-SATISFY" none evidence_ids)

-- The checks on a held decision before its release.
unfoldable pub check_release : AcceptancePaymentDecisionSnapshot → Result (Unit {0})
check_release value =
    if same_payment_state value.state AcceptancePaymentState.held_for_conditions
    then (do
      fail_if (any (λ c. not (is_satisfied c)) value.residual_conditions)
          "ACCEPTANCE_PAYMENT_RESIDUAL_CONDITIONS_OPEN"
      fail_if
          (same_disposition value.basis.disposition AcceptanceDisposition.partial_acceptance
            && any (λ p. not p.release_eligible) value.independently_usable_portions)
          "ACCEPTANCE_PAYMENT_PORTION_NOT_RELEASED")
    else ok tt

unfoldable pub mark_eligible_for_external_payment :
    AcceptancePaymentDecisionSnapshot
    → AcceptancePaymentActorCommand
    → Result AcceptancePaymentMutation
mark_eligible_for_external_payment value command = do
  payment_guard value command
      (AcceptancePaymentState.approved ∷ AcceptancePaymentState.held_for_conditions ∷ [])
  actor ← require_direct_internal command.actor
  fail_if (lacks_approval value) "ACCEPTANCE_PAYMENT_OFFICIAL_APPROVAL_REQUIRED"
  fail_if (same_disposition value.basis.disposition AcceptanceDisposition.rejected)
      "ACCEPTANCE_PAYMENT_REJECTED_NOT_ELIGIBLE"
  check_release value
  released ← present value.approved_payable_amount "ACCEPTANCE_PAYMENT_APPROVED_AMOUNT_REQUIRED"
  held ← money (codes "0") released.currency
  remainder ← money (codes "0") released.currency
  next ← next_version value.version
  ok (
      mutation
        (record value {
          held_amount = some held;
          unpaid_remainder = some remainder;
          state = AcceptancePaymentState.eligible_for_external_payment;
          version = next;
          updated_at = command.at;
        })
        command value.version "EVT-ACCEPTANCE-PAYMENT-ELIGIBLE" none [])
