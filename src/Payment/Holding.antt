-- ===== src/Payment/Holding.antt =====
-- Who may call which method of `AcceptancePaymentDecision`, and what a held payment is worth.
use youone_rnd.Shared.{
  ℕ, ◌+◌, ◌≤◌, ◌<◌, ◌≡◌, refl, Bool, true, false, Option, none, some, List, [], ◌∷◌, map, Result,
  ok, err, if◌then◌else◌, find, arith, str_eq,
}
use youone_rnd.Decimal.{decimal_micros}
use youone_rnd.Kernel.{Uuid, UtcInstant, Money, money}
use youone_rnd.Approval.Authority.{is_direct_internal, is_system_actor}
use youone_rnd.Payment.Types.{
  ResidualPaymentConditionSnapshot, AcceptancePaymentDecisionSnapshot,
  AcceptancePaymentActorCommand, AcceptancePaymentMutation, HoldInput, is_satisfied,
}
use youone_rnd.Payment.Rate.{validate_money_within}
use youone_rnd.Payment.Machine.{
  require_direct_internal, require_system, propose_adjustment, submit_for_approval,
  apply_approved_outcome, apply_negative_approval_outcome, cancel_before_approval, mutation,
}
use youone_rnd.Payment.Release.{
  check_hold_amounts, hold_for_conditions, is_condition, satisfy, satisfy_residual_condition,
  mark_eligible_for_external_payment,
}
use youone_rnd.Payment.Lifecycle.{PaymentCall, payment_run}

abbrev Value : Type 0
Value = AcceptancePaymentDecisionSnapshot

-- The outcomes of the approval and the hold come from the system, all else from a person.
abbrev pub is_system_call : PaymentCall → Bool
is_system_call (PaymentCall.approve _) = true
is_system_call (PaymentCall.deny _ _) = true
is_system_call (PaymentCall.hold _) = true
is_system_call _ = false

-- A method that succeeds was called by the system where it applies an approval's outcome or holds the
-- payment, and by a signed-in internal user who acts directly where it is any other.
pub payment_run_actor :
    (v : Value) (c : AcceptancePaymentActorCommand) (call : PaymentCall)
    (m : AcceptancePaymentMutation)
    → payment_run v c call ≡ ok m
    → (if is_system_call call then is_system_actor c.actor else is_direct_internal c.actor) ≡ true
unfolding payment_run propose_adjustment submit_for_approval apply_approved_outcome
    apply_negative_approval_outcome cancel_before_approval hold_for_conditions
    satisfy_residual_condition mark_eligible_for_external_payment require_direct_internal
    require_system
payment_run_actor v c (PaymentCall.propose i) m h = ground arith
payment_run_actor v c (PaymentCall.submit id checksum) m h = ground arith
payment_run_actor v c (PaymentCall.approve a) m h = ground arith
payment_run_actor v c (PaymentCall.deny outcome reason) m h = ground arith
payment_run_actor v c (PaymentCall.cancel reason) m h = ground arith
payment_run_actor v c (PaymentCall.hold i) m h = ground arith
payment_run_actor v c (PaymentCall.satisfy_one id evidence) m h = ground arith
payment_run_actor v c PaymentCall.release m h = ground arith

-- What a hold puts aside: an amount of the payable amount's currency, no larger than that amount, of
-- which the unpaid remainder has the same value.
pub record HoldsWithin (payable held remainder : Money) : Type 0 where
  pub limit : ℕ
  pub held_micros : ℕ
  pub limit_read : decimal_micros payable.amount "ACCEPTANCE_PAYMENT_HELD_AMOUNT_INVALID" ≡ ok limit
  pub held_read :
      decimal_micros held.amount "ACCEPTANCE_PAYMENT_HELD_AMOUNT_INVALID" ≡ ok held_micros
  pub remainder_read :
      decimal_micros remainder.amount "ACCEPTANCE_PAYMENT_UNPAID_REMAINDER_INVALID" ≡ ok held_micros
  pub within : held_micros ≤ limit
  pub currency :
      (str_eq held.currency payable.currency ≡ true)
      × (str_eq held.currency remainder.currency ≡ true)

check_hold_amounts-HoldsWithin :
    (held remainder payable : Money)
    → check_hold_amounts held remainder payable ≡ ok tt
    → HoldsWithin payable held remainder
unfolding check_hold_amounts validate_money_within
check_hold_amounts-HoldsWithin held remainder payable h =
    go (decimal_micros payable.amount "ACCEPTANCE_PAYMENT_HELD_AMOUNT_INVALID")
      (decimal_micros held.amount "ACCEPTANCE_PAYMENT_HELD_AMOUNT_INVALID") refl refl
  where
    go :
        (r s : Result ℕ)
        → decimal_micros payable.amount "ACCEPTANCE_PAYMENT_HELD_AMOUNT_INVALID" ≡ r
        → decimal_micros held.amount "ACCEPTANCE_PAYMENT_HELD_AMOUNT_INVALID" ≡ s
        → HoldsWithin payable held remainder
    go (ok a) (ok b) p q = record {
      limit = a;
      held_micros = b;
      limit_read = p;
      held_read = q;
      remainder_read = ground arith;
      within = ground arith;
      currency = ground arith;
    }
    go (ok a) (err e) p q = absurd (ground arith)
    go (err e) s p q = absurd (ground arith)

hold_checked :
    (v : Value) (c : AcceptancePaymentActorCommand) (i : HoldInput) (m : AcceptancePaymentMutation)
    (payable : Money)
    → hold_for_conditions v c i ≡ ok m
    → v.approved_payable_amount ≡ some payable
    → (check_hold_amounts i.held_amount i.unpaid_remainder payable ≡ ok tt)
      × (m.snapshot.held_amount ≡ some i.held_amount)
      × (m.snapshot.unpaid_remainder ≡ some i.unpaid_remainder)
unfolding hold_for_conditions mutation money
hold_checked v c i m payable h e = (ground arith, ground arith, ground arith)

-- A payment is held only with an amount that stays within the approved payable amount, in its
-- currency, and an unpaid remainder of the same value; both are recorded as given.
pub hold_for_conditions-HoldsWithin :
    (v : Value) (c : AcceptancePaymentActorCommand) (i : HoldInput) (m : AcceptancePaymentMutation)
    (payable : Money)
    → hold_for_conditions v c i ≡ ok m
    → v.approved_payable_amount ≡ some payable
    → HoldsWithin payable i.held_amount i.unpaid_remainder
      × (m.snapshot.held_amount ≡ some i.held_amount)
      × (m.snapshot.unpaid_remainder ≡ some i.unpaid_remainder)
hold_for_conditions-HoldsWithin v c i m payable h e =
    let (checked, held, unpaid) = hold_checked v c i m payable h e in
    (check_hold_amounts-HoldsWithin i.held_amount i.unpaid_remainder payable checked, held, unpaid)

-- The number of conditions that are still open.
abbrev pub count_open : List ResidualPaymentConditionSnapshot → ℕ
count_open [] = 0
count_open (c ∷ cs) = let rest = count_open cs in if is_satisfied c then rest else rest + 1

module _ (id : Uuid) (at : UtcInstant) (actor : Uuid) (evidence : List Uuid) where
  count_open-satisfy :
      (cs : List ResidualPaymentConditionSnapshot)
      → count_open (map (satisfy id at actor evidence) cs) ≤ count_open cs
  count_open-satisfy [] = ground arith
  count_open-satisfy (c ∷ cs) = ground (arith, count_open-satisfy cs)

  count_open_found :
      (cs : List ResidualPaymentConditionSnapshot) (c : ResidualPaymentConditionSnapshot)
      → find (is_condition id) cs ≡ some c
      → is_satisfied c ≡ false
      → count_open (map (satisfy id at actor evidence) cs) < count_open cs
  count_open_found [] c h o = absurd (ground arith)
  count_open_found (d ∷ ds) c h o = ground (arith, count_open-satisfy ds, count_open_found ds c)

-- Each satisfaction of a condition leaves strictly fewer conditions open.
pub satisfy_progress :
    (v : Value) (c : AcceptancePaymentActorCommand) (id : Uuid) (evidence : List Uuid)
    (m : AcceptancePaymentMutation)
    → satisfy_residual_condition v c id evidence ≡ ok m
    → count_open m.snapshot.residual_conditions < count_open v.residual_conditions
unfolding satisfy_residual_condition mutation
satisfy_progress v c id evidence m h =
    go (require_direct_internal c.actor) (find (is_condition id) v.residual_conditions) refl refl
  where
    go :
        (r : Result Uuid) (o : Option ResidualPaymentConditionSnapshot)
        → require_direct_internal c.actor ≡ r
        → find (is_condition id) v.residual_conditions ≡ o
        → count_open m.snapshot.residual_conditions < count_open v.residual_conditions
    go (ok actor) (some condition) e f =
        let still_open : is_satisfied condition ≡ false = ground arith in
        let marked : m.snapshot.residual_conditions
            ≡ map (satisfy id c.at actor evidence) v.residual_conditions =
          ground arith in
        rw marked
          (count_open_found id c.at actor evidence v.residual_conditions condition f still_open)
    go (ok actor) none e f = absurd (ground arith)
    go (err code) o e f = absurd (ground arith)
