-- ===== src/Payment/Restoring.antt =====
-- Every decision that the methods of `AcceptancePaymentDecision` can produce can be restored.
use mathlib.Core.Path.{subst}
use mathlib.Core.List.{Memᴰ}
use youone_rnd.Shared.{
  ◌<◌, is_some, ℕ, ◌≡◌, refl, sym, true, false, none, List, [], ◌∷◌, String, ok, err, arith,
  >>=-eq-ok, codes, if◌then◌else◌,
}
use youone_rnd.Decimal.{
  Digits, decimal_micros, percentage_micros, fraction_micros, span_digits, is_whole, value_from,
}
use youone_rnd.Payment.Types.{
  AcceptancePaymentState, AcceptanceDisposition, AcceptanceRateRule, ProposedRate, Percentage,
  AcceptancePaymentPolicyVersionSnapshot, AcceptancePaymentDecisionSnapshot, CalculateInput,
  AcceptancePaymentActorCommand, AcceptancePaymentMutation,
}
use youone_rnd.Payment.Rate.{
  check_proposed_rate, check_rate_rules, validate_policy, rate_of, calculate_rate,
}
use youone_rnd.Payment.Machine.{calculate, mutation}
use youone_rnd.Payment.Restore.{check_optional_percentage}
use youone_rnd.Payment.History.{has_approval}
use youone_rnd.Payment.Rules.{calculate_rate_unique}

-- Whether a text parses does not depend on the code of the error.
decimal_other_code :
    (text : Digits) (a b : String) (n : ℕ)
    → decimal_micros text a ≡ ok n
    → decimal_micros text b ≡ ok n
unfolding decimal_micros
decimal_other_code text a b n h = go (span_digits text).0 (span_digits text).1 h
  where
    go :
        (whole rest : Digits)
        → (if is_whole whole then fraction_micros a (value_from 0 whole) rest else err a) ≡ ok n
        → (if is_whole whole then fraction_micros b (value_from 0 whole) rest else err b) ≡ ok n
    go whole [] e = ground arith
    go whole (c ∷ rest) e = ground arith

-- The text is a percentage.
pub record IsPercentage (text : Digits) : Type 0 where
  pub micros : ℕ
  pub read : (code : String) → percentage_micros text code ≡ ok micros

percentage_other_code :
    (text : Digits) (a b : String) (n : ℕ)
    → percentage_micros text a ≡ ok n
    → percentage_micros text b ≡ ok n
unfolding percentage_micros
percentage_other_code text a b n h =
    let (m, read, _) = >>=-eq-ok (decimal_micros text a) _ h in
    ground (arith, read, decimal_other_code text a b m read)

pub IsPercentage-of_micros :
    (text : Digits) (code : String) (n : ℕ) → percentage_micros text code ≡ ok n → IsPercentage text
IsPercentage-of_micros text code n h = record {
  micros = n;
  read = λ other. percentage_other_code text code other n h;
}

-- What every decision carries that lets it be restored.
pub record Storable (v : AcceptancePaymentDecisionSnapshot) : Type 0 where
  pub kept : v.achievement_percent ≡ v.basis.achievement_percent
  pub achieved : IsPercentage v.achievement_percent
  pub rated : IsPercentage v.calculated_proposed_rate
  pub adjusted : (code : String) → check_optional_percentage v.adjusted_requested_rate code ≡ ok tt
  pub unapproved : has_approval v.state ≡ false → v.final_approved_rate ≡ none
  pub numbered : 0 < v.version
  pub subject :
      v.state ≡ AcceptancePaymentState.approval_pending
      → (is_some v.approval_instance_id ≡ true)
        × (is_some v.sealed_snapshot_checksum ≡ true)
        × (is_some v.sealed_at ≡ true)

check_rate_rules_fixed :
    (rules : List AcceptanceRateRule) {rule : AcceptanceRateRule}
    → check_rate_rules rules ≡ ok tt
    → Memᴰ rule rules
    → check_proposed_rate rule.proposed_rate ≡ ok tt
unfolding check_rate_rules
check_rate_rules_fixed [] h m = elim m [ ]
check_rate_rules_fixed (r ∷ rules) {rule} h (Memᴰ.head e) =
    let here : check_proposed_rate r.proposed_rate ≡ ok tt = ground arith in
    subst (λ x. check_proposed_rate x.proposed_rate ≡ ok tt) (sym e) here
check_rate_rules_fixed (r ∷ rules) h (Memᴰ.tail m) = check_rate_rules_fixed rules (ground arith) m

zero-IsPercentage : IsPercentage (codes "0")
unfolding percentage_micros decimal_micros fraction_micros span_digits value_from
zero-IsPercentage = record { micros = 0; read = λ code. refl }

rate_of-IsPercentage :
    (proposed : ProposedRate) (achievement : Percentage)
    → check_proposed_rate proposed ≡ ok tt
    → IsPercentage achievement
    → IsPercentage (rate_of proposed achievement)
unfolding check_proposed_rate
rate_of-IsPercentage ProposedRate.zero_rate achievement h p = zero-IsPercentage
rate_of-IsPercentage ProposedRate.achievement_percent achievement h p = p
rate_of-IsPercentage (ProposedRate.fixed value) achievement h p =
    let (n, read, _) = >>=-eq-ok (percentage_micros value _) _ h in
    IsPercentage-of_micros value _ n read

validate_policy_rules :
    (policy : AcceptancePaymentPolicyVersionSnapshot) (at : String)
    → validate_policy policy at ≡ ok tt
    → check_rate_rules policy.rate_rules ≡ ok tt
unfolding validate_policy
validate_policy_rules policy at h = ground arith

calculated-IsPercentage :
    (policy : AcceptancePaymentPolicyVersionSnapshot) (at : String) (text : Percentage)
    (disposition : AcceptanceDisposition) (rate : Percentage)
    → validate_policy policy at ≡ ok tt
    → calculate_rate policy text disposition ≡ ok rate
    → IsPercentage text × IsPercentage rate
calculated-IsPercentage policy at text disposition rate hp hr =
    let (n, rule, read, member, applies, same, _) =
      calculate_rate_unique policy text disposition rate hr in
    let given = IsPercentage-of_micros text _ n read in
    (
      given,
      subst IsPercentage (sym same) (
          rate_of-IsPercentage rule.proposed_rate text
            (check_rate_rules_fixed policy.rate_rules (validate_policy_rules policy at hp) member)
            given),
    )

calculate_parts :
    (input : CalculateInput) (c : AcceptancePaymentActorCommand) (m : AcceptancePaymentMutation)
    → calculate input c ≡ ok m
    → (validate_policy input.policy c.at ≡ ok tt)
      × (calculate_rate input.policy input.basis.achievement_percent input.basis.disposition
          ≡ ok m.snapshot.calculated_proposed_rate)
      × (m.snapshot.achievement_percent ≡ input.basis.achievement_percent)
      × (m.snapshot.adjusted_requested_rate ≡ none)
unfolding calculate mutation
calculate_parts input c m h = (ground arith, ground arith, ground arith, ground arith)

pub calculate-Storable :
    (input : CalculateInput) (c : AcceptancePaymentActorCommand) (m : AcceptancePaymentMutation)
    → calculate input c ≡ ok m
    → Storable m.snapshot
unfolding calculate mutation check_optional_percentage
calculate-Storable input c m h =
    let (valid, rated, same, unadjusted) = calculate_parts input c m h in
    let (given, percentage) =
      calculated-IsPercentage input.policy c.at input.basis.achievement_percent
        input.basis.disposition m.snapshot.calculated_proposed_rate valid rated in
    record {
      kept = ground arith;
      achieved = subst IsPercentage (sym same) given;
      rated = percentage;
      adjusted = λ code. rw unadjusted refl;
      unapproved = λ s. ground arith;
      numbered = ground arith;
      subject = λ s. absurd (ground arith);
    }
