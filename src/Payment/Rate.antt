-- ===== src/Payment/Rate.antt =====
-- packages/processes/vendor-acceptance-payment/src/domain/acceptance-payment.ts: the policy's checks,
-- the proposed rate, and the approved payable amount.
use youone_rnd.Shared.{
  ℕ, ◌+◌, ◌-◌, ◌*◌, ◌/◌, ◌%◌, ◌^◌, Bool, false, not, ◌&&◌, ◌||◌, Option, none, some, List, [], ◌∷◌,
  String, Result, ok, err, ◌>>=◌, ◌>>◌, fail_if, leb, ltb, ◌==◌, if◌then◌else◌, length, str_eq,
  before, codes,
}
use youone_rnd.Decimal.{decimal_micros, percentage_micros, format_micros}
use youone_rnd.Kernel.{UtcInstant, Money, is_safe_integer, money}
use youone_rnd.Payment.Types.{
  Percentage, ProposedRate, AcceptanceRateRule, AcceptanceDisposition, RoundingMode,
  AcceptancePaymentPolicyVersionSnapshot, same_disposition,
}

-- The upper end of a band; where it is undefined, one above 100 percent.
unfoldable pub band_maximum : Option Percentage → Result ℕ
band_maximum none = ok 100000001
band_maximum (some max) = percentage_micros max "ACCEPTANCE_PAYMENT_POLICY_RATE_INVALID"

unfoldable pub check_proposed_rate : ProposedRate → Result (Unit {0})
check_proposed_rate (ProposedRate.fixed value) = do
  parsed ← percentage_micros value "ACCEPTANCE_PAYMENT_POLICY_RATE_INVALID"
  ok tt
check_proposed_rate _ = ok tt

-- The loop of `validatePolicy`.
unfoldable pub check_rate_rules : List AcceptanceRateRule → Result (Unit {0})
check_rate_rules [] = ok tt
check_rate_rules (rule ∷ rules) = do
  min ←
      percentage_micros rule.minimum_achievement_inclusive "ACCEPTANCE_PAYMENT_POLICY_RATE_INVALID"
  max ← band_maximum rule.maximum_achievement_exclusive
  fail_if (leb max min) "ACCEPTANCE_PAYMENT_POLICY_BAND_INVALID"
  check_proposed_rate rule.proposed_rate
  check_rate_rules rules

-- `end !== undefined && at >= end`
abbrev pub has_ended : Option UtcInstant → UtcInstant → Bool
has_ended none at = false
has_ended (some end) at = not (before at end)

unfoldable pub validate_policy :
    AcceptancePaymentPolicyVersionSnapshot → UtcInstant → Result (Unit {0})
validate_policy policy at = do
  fail_if
      (not (is_safe_integer policy.version)
        || ltb policy.version 1
        || not (is_safe_integer policy.basis_version)
        || ltb policy.basis_version 1
        || length policy.rate_rules == 0
        || ltb 2 policy.amount_rounding_decimal_places
        || before at policy.effective_from
        || has_ended policy.effective_to at)
      "ACCEPTANCE_PAYMENT_POLICY_INVALID"
  check_rate_rules policy.rate_rules

-- The `filter` of `calculateRate`.
unfoldable pub matching_rules :
    ℕ → AcceptanceDisposition → List AcceptanceRateRule → Result (List AcceptanceRateRule)
matching_rules achievement disposition [] = ok []
matching_rules achievement disposition (rule ∷ rules) = do
  min ←
      percentage_micros rule.minimum_achievement_inclusive "ACCEPTANCE_PAYMENT_POLICY_RATE_INVALID"
  max ← band_maximum rule.maximum_achievement_exclusive
  rest ← matching_rules achievement disposition rules
  ok (
      if leb min achievement
        && (ltb achievement max && same_disposition rule.disposition disposition)
      then rule ∷ rest
      else rest)

abbrev pub rate_of : ProposedRate → Percentage → Percentage
rate_of ProposedRate.zero_rate achievement = codes "0"
rate_of ProposedRate.achievement_percent achievement = achievement
rate_of (ProposedRate.fixed value) achievement = value

abbrev pub only_rule : List AcceptanceRateRule → Result AcceptanceRateRule
only_rule (rule ∷ []) = ok rule
only_rule _ = err "ACCEPTANCE_PAYMENT_POLICY_RULE_AMBIGUOUS"

unfoldable pub calculate_rate :
    AcceptancePaymentPolicyVersionSnapshot → Percentage → AcceptanceDisposition → Result Percentage
calculate_rate policy achievement_percent disposition = do
  achievement ← percentage_micros achievement_percent "ACCEPTANCE_PAYMENT_ACHIEVEMENT_INVALID"
  matches ← matching_rules achievement disposition policy.rate_rules
  rule ← only_rule matches
  ok (rate_of rule.proposed_rate achievement_percent)

abbrev pub rounds_up : RoundingMode → ℕ → ℕ → Bool
rounds_up RoundingMode.half_up remainder denominator = leb denominator (remainder * 2)
rounds_up RoundingMode.down remainder denominator = false

-- `numerator / denominator`, and one more where the mode rounds up.
unfoldable pub rounded : RoundingMode → ℕ → ℕ → ℕ
rounded mode numerator denominator =
    if rounds_up mode (numerator % denominator) denominator
    then numerator / denominator + 1
    else numerator / denominator

abbrev pub quantum_micros : AcceptancePaymentPolicyVersionSnapshot → ℕ
quantum_micros policy = 10 ^ (6 - policy.amount_rounding_decimal_places)

unfoldable pub calculate_approved_payable_amount :
    Money → Percentage → AcceptancePaymentPolicyVersionSnapshot → Result Money
calculate_approved_payable_amount milestone_amount final_approved_rate policy = do
  amount ← decimal_micros milestone_amount.amount "ACCEPTANCE_PAYMENT_MILESTONE_AMOUNT_INVALID"
  rate ← percentage_micros final_approved_rate "ACCEPTANCE_PAYMENT_FINAL_RATE_INVALID"
  let quantum = quantum_micros policy
  let count = rounded policy.amount_rounding_mode (amount * rate) (100000000 * quantum)
  money (format_micros (count * quantum)) milestone_amount.currency

unfoldable pub validate_money_within : Money → Money → String → Result (Unit {0})
validate_money_within value total code = do
  fail_if (not (str_eq value.currency total.currency)) code
  given ← decimal_micros value.amount code
  limit ← decimal_micros total.amount code
  fail_if (ltb limit given) code
