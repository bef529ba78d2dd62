-- ===== src/Payment/Restore.antt =====
-- packages/processes/vendor-acceptance-payment/src/domain/acceptance-payment.ts: `restore` of a stored
-- decision, with its check `validateRestored`.
use youone_rnd.Shared.{
  Bool, false, not, ◌&&◌, ◌||◌, Option, none, some, [], ◌∷◌, String, Result, ok, ◌>>=◌, ◌>>◌,
  fail_if, ◌==◌, any, str_eq, truthy, is_none, codes_eq,
}
use youone_rnd.Decimal.{decimal_micros, percentage_micros}
use youone_rnd.Kernel.{Version, Money}
use youone_rnd.Payment.Types.{
  AcceptancePaymentState, AcceptanceResponsibilityInvariant, AcceptancePaymentDecisionSnapshot,
  Percentage, same_payment_state,
}
use youone_rnd.Payment.Rate.{calculate_approved_payable_amount}
use youone_rnd.Payment.Release.{lacks_approval}

-- `if (rate !== undefined) percentageMicros(rate, code)`
unfoldable pub check_optional_percentage : Option Percentage → String → Result (Unit {0})
check_optional_percentage none code = ok tt
check_optional_percentage (some rate) code = do parsed ← percentage_micros rate code; ok tt

-- A version that may be undefined, read as a condition: undefined and 0 are false.
abbrev pub truthy_version : Option Version → Bool
truthy_version none = false
truthy_version (some v) = not (v == 0)

abbrev pub lacks_subject : AcceptancePaymentDecisionSnapshot → Bool
lacks_subject v =
    not (truthy v.approval_instance_id)
    || not (truthy_version v.approval_subject_version)
    || not (truthy v.sealed_snapshot_checksum)
    || not (truthy v.sealed_at)

unfoldable pub check_restored_amount :
    AcceptancePaymentDecisionSnapshot → Option Percentage → Option Money → Result (Unit {0})
check_restored_amount v (some rate) (some amount) = do
  expected ← calculate_approved_payable_amount v.milestone_amount rate v.policy
  fail_if (not (str_eq amount.currency expected.currency))
      "ACCEPTANCE_PAYMENT_APPROVED_AMOUNT_MISMATCH"
  stored_micros ← decimal_micros amount.amount "ACCEPTANCE_PAYMENT_APPROVED_AMOUNT_INVALID"
  expected_micros ← decimal_micros expected.amount "ACCEPTANCE_PAYMENT_APPROVED_AMOUNT_INVALID"
  fail_if (not (stored_micros == expected_micros)) "ACCEPTANCE_PAYMENT_APPROVED_AMOUNT_MISMATCH"
check_restored_amount v _ _ = ok tt

abbrev pub waives : AcceptanceResponsibilityInvariant → Bool
waives r =
    r.acceptance_waives_vendor_responsibility
    || r.payment_eligibility_waives_vendor_responsibility
    || not r.warranty_and_latent_defect_responsibility_survives
    || not r.professional_responsibility_survives
    || r.external_transfer_executed

unfoldable pub validate_restored : AcceptancePaymentDecisionSnapshot → Result (Unit {0})
validate_restored v = do
  achievement ← percentage_micros v.achievement_percent "ACCEPTANCE_PAYMENT_ACHIEVEMENT_INVALID"
  calculated ←
      percentage_micros v.calculated_proposed_rate "ACCEPTANCE_PAYMENT_CALCULATED_RATE_INVALID"
  check_optional_percentage v.adjusted_requested_rate "ACCEPTANCE_PAYMENT_ADJUSTMENT_RATE_INVALID"
  check_optional_percentage v.final_approved_rate "ACCEPTANCE_PAYMENT_FINAL_RATE_INVALID"
  fail_if (not (codes_eq v.achievement_percent v.basis.achievement_percent))
      "ACCEPTANCE_PAYMENT_BASIS_REWRITTEN"
  fail_if (same_payment_state v.state AcceptancePaymentState.approval_pending && lacks_subject v)
      "ACCEPTANCE_PAYMENT_EXACT_SUBJECT_REQUIRED"
  fail_if
      (any (same_payment_state v.state) (
          AcceptancePaymentState.approved ∷ AcceptancePaymentState.held_for_conditions
          ∷ AcceptancePaymentState.eligible_for_external_payment ∷ [])
        && (lacks_approval v || is_none v.approved_payable_amount))
      "ACCEPTANCE_PAYMENT_OFFICIAL_APPROVAL_REQUIRED"
  check_restored_amount v v.final_approved_rate v.approved_payable_amount
  fail_if (waives v.responsibility) "ACCEPTANCE_PAYMENT_NON_WAIVER_REQUIRED"

unfoldable pub restore :
    AcceptancePaymentDecisionSnapshot → Result AcceptancePaymentDecisionSnapshot
restore v = do validate_restored v; ok v
