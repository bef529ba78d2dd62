-- ===== src/Payment/Amount.antt =====
-- The approved payable amount of
-- packages/processes/vendor-acceptance-payment/src/domain/acceptance-payment.ts: its rounding, and the
-- text that carries it.
use native.Mathlib.Nat.{pow-suc}
use youone_rnd.Shared.{
  ℕ, zero, suc, ◌+◌, ◌-◌, ◌*◌, ◌%◌, ◌^◌, ◌≤◌, ◌<◌, ◌≡◌, refl, ap, true, false, String, ok, codes,
  arith, Bool-cases, inl, inr, ◌⊎◌, leb, >>=-eq-ok,
}
use youone_rnd.Decimal.{decimal_micros, percentage_micros, format_micros}
use youone_rnd.Decimal.RoundTrip.{decimal_micros-format_micros}
use youone_rnd.Kernel.{Money, is_currency}
use youone_rnd.Kernel.Laws.{money_inv, money-format_micros}
use youone_rnd.Payment.Types.{Percentage, RoundingMode, AcceptancePaymentPolicyVersionSnapshot}
use youone_rnd.Payment.Rate.{rounded, quantum_micros, calculate_approved_payable_amount}

-- `paid` units of account stand for `exact / 10 ^ 8` of them, to the next multiple of the quantum.
pub IsRounding : RoundingMode → ℕ → ℕ → ℕ → Type 0
IsRounding RoundingMode.down quantum exact paid =
    (paid * 100000000 ≤ exact) × (exact < (paid + quantum) * 100000000)
IsRounding RoundingMode.half_up quantum exact paid =
    (paid * 200000000 ≤ exact * 2 + quantum * 100000000)
    × (exact * 2 < paid * 200000000 + quantum * 100000000)

-- Rounding down yields the greatest count of denominators that does not exceed the numerator.
rounded_down :
    (n d : ℕ)
    → 0 < d
    → (rounded RoundingMode.down n d * d ≤ n) × (n < rounded RoundingMode.down n d * d + d)
unfolding rounded
rounded_down n d h = ground arith

leb_holds : (a b : ℕ) → leb a b ≡ true → a ≤ b
leb_holds a b h = ground arith

leb_fails : (a b : ℕ) → leb a b ≡ false → b < a
leb_fails a b h = ground arith

-- Rounding half up stays within half a denominator of the numerator, and a tie goes up.
rounded_half_up :
    (n d : ℕ)
    → 0 < d
    → (rounded RoundingMode.half_up n d * d * 2 ≤ n * 2 + d)
      × (n * 2 < rounded RoundingMode.half_up n d * d * 2 + d)
unfolding rounded
rounded_half_up n d h = elim (Bool-cases (leb d (n % d * 2))) [
  | inl up ↦ rw up (omega (arith, h, leb_holds d (n % d * 2) up))
  | inr down ↦ rw down (omega (arith, h, leb_fails d (n % d * 2) down))
]

rounded-IsRounding :
    (mode : RoundingMode) (quantum exact : ℕ)
    → 0 < quantum
    → IsRounding mode quantum exact (rounded mode exact (100000000 * quantum) * quantum)
unfolding IsRounding
rounded-IsRounding RoundingMode.down quantum exact h =
    let (low, high) = rounded_down exact (100000000 * quantum) (omega (arith, h)) in
    scaled (rounded RoundingMode.down exact (100000000 * quantum)) low high
  where
    scaled :
        (c : ℕ)
        → c * (100000000 * quantum) ≤ exact
        → exact < c * (100000000 * quantum) + 100000000 * quantum
        → (c * quantum * 100000000 ≤ exact) × (exact < (c * quantum + quantum) * 100000000)
    scaled c low high = (omega (arith, low), omega (arith, high))
rounded-IsRounding RoundingMode.half_up quantum exact h =
    let (low, high) = rounded_half_up exact (100000000 * quantum) (omega (arith, h)) in
    scaled (rounded RoundingMode.half_up exact (100000000 * quantum)) low high
  where
    scaled :
        (c : ℕ)
        → c * (100000000 * quantum) * 2 ≤ exact * 2 + 100000000 * quantum
        → exact * 2 < c * (100000000 * quantum) * 2 + 100000000 * quantum
        → (c * quantum * 200000000 ≤ exact * 2 + quantum * 100000000)
          × (exact * 2 < c * quantum * 200000000 + quantum * 100000000)
    scaled c low high = (omega (arith, low), omega (arith, high))

-- What the approved payable amount owes to the milestone amount and the approved rate, in
-- millionths.
pub record Pays (milestone : Money) (final_rate : Percentage)
    (policy : AcceptancePaymentPolicyVersionSnapshot) (payable : Money) : Type 0 where
  pub amount : ℕ
  pub rate : ℕ
  pub paid : ℕ
  pub amount_read :
      decimal_micros milestone.amount "ACCEPTANCE_PAYMENT_MILESTONE_AMOUNT_INVALID" ≡ ok amount
  pub rate_read : percentage_micros final_rate "ACCEPTANCE_PAYMENT_FINAL_RATE_INVALID" ≡ ok rate
  pub paid_read : (code : String) → decimal_micros payable.amount code ≡ ok paid
  pub same_currency : payable.currency ≡ milestone.currency
  pub whole_quanta : (count : ℕ) × (paid ≡ count * quantum_micros policy)
  pub nearest : IsRounding policy.amount_rounding_mode (quantum_micros policy) (amount * rate) paid

pow_pos : (k : ℕ) → 0 < 10 ^ k
pow_pos zero = omega arith
pow_pos (suc k) = rw (pow-suc 10 k) (omega (arith, pow_pos k))

quantum_pos : (policy : AcceptancePaymentPolicyVersionSnapshot) → 0 < quantum_micros policy
quantum_pos policy = pow_pos (6 - policy.amount_rounding_decimal_places)

-- The approved payable amount is the milestone amount times the rate, rounded to a whole number of
-- the policy's smallest units in the policy's mode, in the milestone's currency, and its text reads
-- back as exactly that amount.
pub calculate_approved_payable_amount-Pays :
    (milestone : Money) (final_rate : Percentage) (policy : AcceptancePaymentPolicyVersionSnapshot)
    (payable : Money)
    → calculate_approved_payable_amount milestone final_rate policy ≡ ok payable
    → Pays milestone final_rate policy payable
unfolding calculate_approved_payable_amount
calculate_approved_payable_amount-Pays milestone final_rate policy payable h =
    let (amount, amount_read, h₁) = >>=-eq-ok (decimal_micros milestone.amount _) _ h in
    let (rate, rate_read, h₂) = >>=-eq-ok (percentage_micros final_rate _) _ h₁ in
    let quantum = quantum_micros policy in
    let count = rounded policy.amount_rounding_mode (amount * rate) (100000000 * quantum) in
    let same = (money_inv (format_micros (count * quantum)) milestone.currency payable h₂).0 in
    record {
      amount = amount;
      rate = rate;
      paid = count * quantum;
      amount_read = amount_read;
      rate_read = rate_read;
      paid_read = λ code. rw same (decimal_micros-format_micros (count * quantum) code);
      same_currency = ap (λ m. m.currency) same;
      whole_quanta = (count, refl);
      nearest =
          rounded-IsRounding policy.amount_rounding_mode quantum (amount * rate)
            (quantum_pos policy);
    }

-- Where the milestone amount and the rate parse and the currency is a currency code, there is an
-- approved payable amount.
pub calculate_approved_payable_amount-total :
    (milestone : Money) (final_rate : Percentage) (policy : AcceptancePaymentPolicyVersionSnapshot)
    (amount rate : ℕ)
    → decimal_micros milestone.amount "ACCEPTANCE_PAYMENT_MILESTONE_AMOUNT_INVALID" ≡ ok amount
    → percentage_micros final_rate "ACCEPTANCE_PAYMENT_FINAL_RATE_INVALID" ≡ ok rate
    → is_currency (codes milestone.currency) ≡ true
    → (payable : Money) × (calculate_approved_payable_amount milestone final_rate policy
        ≡ ok payable)
unfolding calculate_approved_payable_amount
calculate_approved_payable_amount-total milestone final_rate policy amount rate ha hr hc =
    let quantum = quantum_micros policy in
    let text =
      format_micros
        (rounded policy.amount_rounding_mode (amount * rate) (100000000 * quantum) * quantum) in
    (
      record { amount = text; currency = milestone.currency },
      rw (ha, hr)
          (money-format_micros
            (rounded policy.amount_rounding_mode (amount * rate) (100000000 * quantum) * quantum)
            milestone.currency hc),
    )

percentage_bound :
    (text : Percentage) (code : String) (n : ℕ) → percentage_micros text code ≡ ok n → n ≤ 100000000
unfolding percentage_micros
percentage_bound text code n h = ground arith

product_bound : (amount rate : ℕ) → rate ≤ 100000000 → amount * rate ≤ amount * 100000000
product_bound amount rate h = grind arith

multiples_mono : (a b q : ℕ) → a < b → a * q + q ≤ b * q
multiples_mono a b q h = grind arith

multiples_le : (a b q : ℕ) → a ≤ b → a * q ≤ b * q
multiples_le a b q h = grind arith

-- The arithmetic of the bound below.
bounded :
    (mode : RoundingMode) (quantum amount rate paid : ℕ)
    → 0 < quantum
    → rate ≤ 100000000
    → IsRounding mode quantum (amount * rate) paid
    → ((count : ℕ) × (paid ≡ count * quantum))
    → (mode ≡ RoundingMode.down) ⊎ ((whole : ℕ) × (amount ≡ whole * quantum))
    → paid ≤ amount
unfolding IsRounding
bounded RoundingMode.down quantum amount rate paid hq hr (low, high) (count, e) fair =
    omega (arith, low, product_bound amount rate hr)
bounded RoundingMode.half_up quantum amount rate paid hq hr (low, high) (count, e) (inl d) =
    absurd (ground arith)
bounded RoundingMode.half_up quantum amount rate paid hq hr (low, high) (count, e)
      (inr (whole, f)) =
    elim (Bool-cases (leb count whole)) [
      | inl within ↦ rw (e, f) (multiples_le count whole quantum (leb_holds count whole within))
      | inr beyond ↦
          let step = multiples_mono whole count quantum (leb_fails count whole beyond) in
          absurd (omega (arith, hq, low, step, e, f, product_bound amount rate hr))
    ]

-- Rounding down never pays more than the milestone amount. Rounding half up does not either where
-- the milestone amount is a whole number of the policy's smallest units.
pub payable_bounded :
    (milestone : Money) (final_rate : Percentage) (policy : AcceptancePaymentPolicyVersionSnapshot)
    (payable : Money) (amount paid : ℕ)
    → calculate_approved_payable_amount milestone final_rate policy ≡ ok payable
    → decimal_micros milestone.amount "ACCEPTANCE_PAYMENT_MILESTONE_AMOUNT_INVALID" ≡ ok amount
    → decimal_micros payable.amount "" ≡ ok paid
    → (policy.amount_rounding_mode ≡ RoundingMode.down)
      ⊎ ((whole : ℕ) × (amount ≡ whole * quantum_micros policy))
    → paid ≤ amount
unfolding IsRounding
payable_bounded milestone final_rate policy payable amount paid h ha hp fair =
    let pays = calculate_approved_payable_amount-Pays milestone final_rate policy payable h in
    let same_paid : pays.paid ≡ paid = cc (pays.paid_read "", hp) in
    let same_amount : pays.amount ≡ amount = cc (pays.amount_read, ha) in
    rw (← same_paid, ← same_amount)
      (bounded policy.amount_rounding_mode (quantum_micros policy) pays.amount pays.rate pays.paid
        (quantum_pos policy) (percentage_bound final_rate _ pays.rate pays.rate_read) pays.nearest
        pays.whole_quanta (rw same_amount fair))
