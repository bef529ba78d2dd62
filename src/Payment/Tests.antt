-- ===== src/Payment/Tests.antt =====
-- A conditional acceptance, from its calculation to its release, and the theorems on it.
use mathlib.Core.List.{Memᴰ}
use youone_rnd.Shared.{
  ℕ, ◌<◌, ◌≤◌, ◌≡◌, refl, inl, inr, true, none, some, [], ◌∷◌, String, if◌then◌else◌, ok, err,
  is_ok, from_ok, from_ok_lem, before, is_blank, includes, codes,
}
use youone_rnd.Decimal.{
  decimal_micros, percentage_micros, format_micros, fraction_micros, value_from, span_digits,
  print_from, to_text, strip_zeros,
}
use youone_rnd.Decimal.RoundTrip.{decimal_micros-format_micros}
use youone_rnd.Kernel.{
  Money, money, version, next_version, is_decimal, is_unsigned_decimal, is_currency,
}
use youone_rnd.Approval.Types.{ActorType, AccountKind, ApprovalActorSnapshot}
use youone_rnd.Approval.Authority.{is_direct_internal, is_system_actor}
use youone_rnd.Payment.Types.{
  AcceptancePaymentState, AcceptanceDisposition, ProposedRate, AcceptanceRateRule, BasisKind,
  RoundingMode, AcceptancePaymentPolicyVersionSnapshot, BasisCondition,
  SealedInspectionAttemptBasis, AcceptancePaymentApprovalSnapshot, ConditionState,
  ResidualPaymentConditionSnapshot, AcceptancePaymentDecisionSnapshot, CalculateInput,
  AcceptancePaymentActorCommand, AcceptancePaymentMutation, HoldInput,
}
use youone_rnd.Payment.Rate.{
  band_maximum, check_proposed_rate, check_rate_rules, validate_policy, matching_rules, rate_of,
  calculate_rate, rounded, calculate_approved_payable_amount, validate_money_within,
}
use youone_rnd.Payment.Machine.{
  require_text, require_direct_internal, require_system, payment_guard, same_uuid_set, mutation,
  calculate, propose_adjustment, submit_for_approval, apply_approved_outcome,
  apply_negative_approval_outcome, cancel_before_approval,
}
use youone_rnd.Payment.Release.{
  check_hold_basis, check_condition_texts, check_portion_texts, check_hold_amounts,
  hold_for_conditions, satisfy_residual_condition, check_release,
  mark_eligible_for_external_payment,
}
use youone_rnd.Payment.Lifecycle.{
  PaymentCall, payment_run, Stepped, payment_run-Stepped, payment_run_final,
}
use youone_rnd.Payment.History.{PaymentReach, PaymentInv}
use youone_rnd.Payment.Restore.{restore}
use youone_rnd.Payment.Restored.{Branded, PaymentReach-restore}
use youone_rnd.Payment.Keeping.{PaymentReach-Inv}
use youone_rnd.Payment.Rules.{Applies, calculate_rate_unique}
use youone_rnd.Payment.Amount.{
  Pays, calculate_approved_payable_amount-Pays, calculate_approved_payable_amount-total,
  payable_bounded,
}
use youone_rnd.Payment.Holding.{
  is_system_call, payment_run_actor, HoldsWithin, hold_for_conditions-HoldsWithin, count_open,
  satisfy_progress,
}

engine : Unit {0}
unfolding decimal_micros percentage_micros format_micros fraction_micros value_from span_digits
    print_from to_text strip_zeros money version next_version is_decimal is_unsigned_decimal
    is_currency band_maximum check_proposed_rate check_rate_rules validate_policy matching_rules
    calculate_rate rounded calculate_approved_payable_amount validate_money_within require_text
    require_direct_internal require_system payment_guard same_uuid_set mutation calculate
    propose_adjustment submit_for_approval apply_approved_outcome apply_negative_approval_outcome
    cancel_before_approval check_hold_basis check_condition_texts check_portion_texts
    check_hold_amounts hold_for_conditions satisfy_residual_condition check_release
    mark_eligible_for_external_payment payment_run before is_blank includes
engine = tt

abbrev manager : ApprovalActorSnapshot
manager = record {
  actor_type = ActorType.user;
  account_kind = AccountKind.internal;
  authenticated_user_id = some "manager";
  effective_user_id = some "manager";
  position_ids = [];
  role_ids = [];
  acting_authority = none;
}

abbrev system_actor : ApprovalActorSnapshot
system_actor = record {
  actor_type = ActorType.system;
  account_kind = AccountKind.system;
  authenticated_user_id = none;
  effective_user_id = none;
  position_ids = [];
  role_ids = [];
  acting_authority = none;
}

abbrev order : ApprovalActorSnapshot → ℕ → AcceptancePaymentActorCommand
order actor expected = record {
  actor = actor;
  at = "2026-05-01T00:00:00.000Z";
  expected_version = expected;
  correlation_id = "correlation";
  idempotency_key = "key";
  event_id = "event";
}

abbrev whole_rule : AcceptanceRateRule
whole_rule = record {
  rule_id = "RULE-1";
  minimum_achievement_inclusive = codes "60";
  maximum_achievement_exclusive = none;
  disposition = AcceptanceDisposition.conditional_acceptance;
  proposed_rate = ProposedRate.achievement_percent;
}

abbrev low_rule : AcceptanceRateRule
low_rule = record {
  rule_id = "RULE-0";
  minimum_achievement_inclusive = codes "0";
  maximum_achievement_exclusive = some (codes "60");
  disposition = AcceptanceDisposition.conditional_acceptance;
  proposed_rate = ProposedRate.zero_rate;
}

abbrev policy : AcceptancePaymentPolicyVersionSnapshot
policy = record {
  policy_version_id = "policy-version";
  policy_id = "POLICY";
  version = 1;
  checksum = "sum";
  effective_from = "2026-01-01T00:00:00.000Z";
  effective_to = none;
  basis_kind = BasisKind.internal_preset;
  basis_reference_id = "BASIS";
  basis_version = 1;
  amount_rounding_decimal_places = 0;
  amount_rounding_mode = RoundingMode.half_up;
  rate_rules = low_rule ∷ whole_rule ∷ [];
}

abbrev condition : BasisCondition
condition = record {
  condition_code = "CONDITION-1";
  description = "Manual";
  due_at = none;
  evidence_ids = "evidence" ∷ [];
}

abbrev basis : SealedInspectionAttemptBasis
basis = record {
  inspection_attempt_id = "attempt";
  inspection_id = "inspection";
  attempt_no = 1;
  checksum = "sum";
  sealed_at = "2026-04-01T00:00:00.000Z";
  inspection_checklist_version_id = "checklist";
  contract_id = "contract";
  contract_milestone_id = "milestone";
  deliverable_id = "deliverable";
  deliverable_version_id = "deliverable-version";
  disposition = AcceptanceDisposition.conditional_acceptance;
  achievement_percent = codes "87.5";
  evidence_ids = [];
  critical_failure_criterion_ids = [];
  independently_usable_portions = [];
  residual_conditions = condition ∷ [];
}

abbrev milestone : Money
milestone = record { amount = codes "1001"; currency = "KRW" }

abbrev input : CalculateInput
input = record {
  acceptance_payment_decision_id = "decision";
  decision_root_id = "decision";
  revision_no = 1;
  previous_decision_id = none;
  basis = basis;
  policy = policy;
  milestone_amount = milestone;
}

abbrev approval : AcceptancePaymentApprovalSnapshot
approval = record {
  approval_instance_id = "instance";
  approval_version = 5;
  subject_decision_id = "decision";
  subject_version = 2;
  subject_checksum = "checksum";
  final_approved_rate = codes "87.5";
  approved_at = "2026-05-01T00:00:00.000Z";
}

abbrev residual : ResidualPaymentConditionSnapshot
residual = record {
  residual_condition_id = "condition";
  source_condition_code = "CONDITION-1";
  description = "Manual";
  due_date = "2026-06-01";
  evidence_ids = "evidence" ∷ [];
  state = ConditionState.open_condition;
  satisfied_at = none;
  satisfied_by_user_id = none;
  satisfaction_evidence_ids = none;
}

abbrev putting_aside : HoldInput
putting_aside = record {
  residual_conditions = residual ∷ [];
  independently_usable_portions = [];
  held_amount = record { amount = codes "100"; currency = "KRW" };
  unpaid_remainder = record { amount = codes "100"; currency = "KRW" };
}

abbrev c0 : AcceptancePaymentActorCommand
c0 = order system_actor 0

calculate_ok : is_ok (calculate input c0) ≡ true
unfolding engine
calculate_ok = refl

abbrev m1 : AcceptancePaymentMutation
m1 = from_ok (calculate input c0) calculate_ok

abbrev v1 : AcceptancePaymentDecisionSnapshot
v1 = m1.snapshot

r1 : PaymentReach v1
r1 = PaymentReach.calculated input c0 (from_ok_lem (calculate input c0) calculate_ok)

abbrev submitting : PaymentCall
submitting = PaymentCall.submit "instance" "checksum"

abbrev c1 : AcceptancePaymentActorCommand
c1 = order manager 1

submitting_ok : is_ok (payment_run v1 c1 submitting) ≡ true
unfolding engine
submitting_ok = refl

submitting_runs :
    payment_run v1 c1 submitting ≡ ok (from_ok (payment_run v1 c1 submitting) submitting_ok)
submitting_runs = from_ok_lem (payment_run v1 c1 submitting) submitting_ok

abbrev m2 : AcceptancePaymentMutation
m2 = from_ok (payment_run v1 c1 submitting) submitting_ok

abbrev v2 : AcceptancePaymentDecisionSnapshot
v2 = m2.snapshot

r2 : PaymentReach v2
r2 = PaymentReach.stepped c1 submitting r1 submitting_runs

abbrev approving : PaymentCall
approving = PaymentCall.approve approval

abbrev c2 : AcceptancePaymentActorCommand
c2 = order system_actor 2

approving_ok : is_ok (payment_run v2 c2 approving) ≡ true
unfolding engine
approving_ok = refl

approving_runs :
    payment_run v2 c2 approving ≡ ok (from_ok (payment_run v2 c2 approving) approving_ok)
approving_runs = from_ok_lem (payment_run v2 c2 approving) approving_ok

abbrev m3 : AcceptancePaymentMutation
m3 = from_ok (payment_run v2 c2 approving) approving_ok

abbrev v3 : AcceptancePaymentDecisionSnapshot
v3 = m3.snapshot

r3 : PaymentReach v3
r3 = PaymentReach.stepped c2 approving r2 approving_runs

abbrev holding : PaymentCall
holding = PaymentCall.hold putting_aside

abbrev c3 : AcceptancePaymentActorCommand
c3 = order system_actor 3

holding_ok : is_ok (payment_run v3 c3 holding) ≡ true
unfolding engine
holding_ok = refl

holding_runs : payment_run v3 c3 holding ≡ ok (from_ok (payment_run v3 c3 holding) holding_ok)
holding_runs = from_ok_lem (payment_run v3 c3 holding) holding_ok

abbrev m4 : AcceptancePaymentMutation
m4 = from_ok (payment_run v3 c3 holding) holding_ok

abbrev v4 : AcceptancePaymentDecisionSnapshot
v4 = m4.snapshot

r4 : PaymentReach v4
r4 = PaymentReach.stepped c3 holding r3 holding_runs

abbrev satisfying : PaymentCall
satisfying = PaymentCall.satisfy_one "condition" ("proof" ∷ [])

abbrev c4 : AcceptancePaymentActorCommand
c4 = order manager 4

satisfying_ok : is_ok (payment_run v4 c4 satisfying) ≡ true
unfolding engine
satisfying_ok = refl

satisfying_runs :
    payment_run v4 c4 satisfying ≡ ok (from_ok (payment_run v4 c4 satisfying) satisfying_ok)
satisfying_runs = from_ok_lem (payment_run v4 c4 satisfying) satisfying_ok

abbrev m5 : AcceptancePaymentMutation
m5 = from_ok (payment_run v4 c4 satisfying) satisfying_ok

abbrev v5 : AcceptancePaymentDecisionSnapshot
v5 = m5.snapshot

r5 : PaymentReach v5
r5 = PaymentReach.stepped c4 satisfying r4 satisfying_runs

abbrev releasing : PaymentCall
releasing = PaymentCall.release

abbrev c5 : AcceptancePaymentActorCommand
c5 = order manager 5

releasing_ok : is_ok (payment_run v5 c5 releasing) ≡ true
unfolding engine
releasing_ok = refl

releasing_runs :
    payment_run v5 c5 releasing ≡ ok (from_ok (payment_run v5 c5 releasing) releasing_ok)
releasing_runs = from_ok_lem (payment_run v5 c5 releasing) releasing_ok

abbrev m6 : AcceptancePaymentMutation
m6 = from_ok (payment_run v5 c5 releasing) releasing_ok

abbrev v6 : AcceptancePaymentDecisionSnapshot
v6 = m6.snapshot

r6 : PaymentReach v6
r6 = PaymentReach.stepped c5 releasing r5 releasing_runs

payable_text : v3.approved_payable_amount ≡ some (record { amount = codes "876"; currency = "KRW" })
unfolding engine
payable_text = refl

released_state : v6.state ≡ AcceptancePaymentState.eligible_for_external_payment
unfolding engine
released_state = refl

PaymentReach-Inv_example : PaymentInv v6
PaymentReach-Inv_example = PaymentReach-Inv r6

payment_run-Stepped_example : Stepped v3 c3 holding m4
payment_run-Stepped_example = payment_run-Stepped v3 c3 holding m4 holding_runs

payment_run_final_example : (code : String) × (payment_run v6 c5 releasing ≡ err code)
payment_run_final_example = payment_run_final v6 c5 releasing (inl released_state)

payment_run_actor_example :
    (if is_system_call approving then is_system_actor c2.actor else is_direct_internal c2.actor)
    ≡ true
payment_run_actor_example = payment_run_actor v2 c2 approving m3 approving_runs

abbrev payable : Money
payable = record { amount = codes "876"; currency = "KRW" }

hold_runs : hold_for_conditions v3 c3 putting_aside ≡ ok m4
unfolding engine
hold_runs = refl

hold_for_conditions-HoldsWithin_example :
    HoldsWithin payable putting_aside.held_amount putting_aside.unpaid_remainder
    × (m4.snapshot.held_amount ≡ some putting_aside.held_amount)
    × (m4.snapshot.unpaid_remainder ≡ some putting_aside.unpaid_remainder)
hold_for_conditions-HoldsWithin_example =
    hold_for_conditions-HoldsWithin v3 c3 putting_aside m4 payable hold_runs payable_text

satisfy_runs : satisfy_residual_condition v4 c4 "condition" ("proof" ∷ []) ≡ ok m5
unfolding engine
satisfy_runs = refl

satisfy_progress_example :
    count_open m5.snapshot.residual_conditions < count_open v4.residual_conditions
satisfy_progress_example = satisfy_progress v4 c4 "condition" ("proof" ∷ []) m5 satisfy_runs

rate_runs :
    calculate_rate policy (codes "87.5") AcceptanceDisposition.conditional_acceptance
    ≡ ok (codes "87.5")
unfolding engine
rate_runs = refl

calculate_rate_unique_example :
    (achievement : ℕ) × (rule : AcceptanceRateRule) × (percentage_micros
        (codes "87.5")
        "ACCEPTANCE_PAYMENT_ACHIEVEMENT_INVALID"
      ≡ ok achievement)
    × Memᴰ rule policy.rate_rules
    × Applies achievement AcceptanceDisposition.conditional_acceptance rule
    × (codes "87.5" ≡ rate_of rule.proposed_rate (codes "87.5"))
    × ((other : AcceptanceRateRule)
        → Memᴰ other policy.rate_rules
        → Applies achievement AcceptanceDisposition.conditional_acceptance other
        → other ≡ rule)
calculate_rate_unique_example =
    calculate_rate_unique policy (codes "87.5") AcceptanceDisposition.conditional_acceptance
      (codes "87.5") rate_runs

payable_runs : calculate_approved_payable_amount milestone (codes "87.5") policy ≡ ok payable
unfolding engine
payable_runs = refl

milestone_read :
    decimal_micros milestone.amount "ACCEPTANCE_PAYMENT_MILESTONE_AMOUNT_INVALID" ≡ ok 1001000000
unfolding engine
milestone_read = refl

rate_read : percentage_micros (codes "87.5") "ACCEPTANCE_PAYMENT_FINAL_RATE_INVALID" ≡ ok 87500000
unfolding engine
rate_read = refl

currency_read : is_currency (codes milestone.currency) ≡ true
unfolding engine
currency_read = refl

payable_read : decimal_micros payable.amount "" ≡ ok 876000000
unfolding engine
payable_read = refl

calculate_approved_payable_amount-Pays_example : Pays milestone (codes "87.5") policy payable
calculate_approved_payable_amount-Pays_example =
    calculate_approved_payable_amount-Pays milestone (codes "87.5") policy payable payable_runs

calculate_approved_payable_amount-total_example :
    (p : Money) × (calculate_approved_payable_amount milestone (codes "87.5") policy ≡ ok p)
calculate_approved_payable_amount-total_example =
    calculate_approved_payable_amount-total milestone (codes "87.5") policy 1001000000 87500000
      milestone_read rate_read currency_read

payable_bounded_example : 876000000 ≤ 1001000000
payable_bounded_example =
    payable_bounded milestone (codes "87.5") policy payable 1001000000 876000000 payable_runs
      milestone_read payable_read (inr (1001, refl))

-- Half a unit at the full rate: rounding half up pays more than the milestone amount.
rounded_above_milestone :
    calculate_approved_payable_amount
      (record { amount = codes "0.5"; currency = "KRW" })
      (codes "100")
      policy
    ≡ ok (record { amount = codes "1"; currency = "KRW" })
unfolding engine
rounded_above_milestone = refl

decimal_micros-format_micros_example : decimal_micros (format_micros 1250000) "CODE" ≡ ok 1250000
decimal_micros-format_micros_example = decimal_micros-format_micros 1250000 "CODE"

branded : Branded v2
unfolding engine
branded = record { approval_instance = refl; checksum = refl; sealed_at = refl }

PaymentReach-restore_example : restore v2 ≡ ok v2
PaymentReach-restore_example = PaymentReach-restore r2 branded
