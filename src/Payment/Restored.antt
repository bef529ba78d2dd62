-- ===== src/Payment/Restored.antt =====
-- `restore` accepts every decision that the methods of `AcceptancePaymentDecision` have produced.
use youone_rnd.Shared.{
  opt_eq, ◌≡◌, refl, true, false, Option, some, [], ◌∷◌, String, ok, arith, truthy, codes_eq_iff,
  is_some, is_none, eq_iff, any, ◌||◌, ◌&&◌, Bool-cases, inl, inr,
}
use youone_rnd.Payment.Types.{
  AcceptancePaymentState, AcceptancePaymentDecisionSnapshot, same_payment_state,
}
use youone_rnd.Payment.Release.{lacks_approval}
use youone_rnd.Payment.Restore.{
  check_optional_percentage, lacks_subject, check_restored_amount, waives, validate_restored,
  restore,
}
use youone_rnd.Payment.History.{PaymentReach, has_approval}
use youone_rnd.Payment.Keeping.{PaymentReach-Inv}
use youone_rnd.Payment.Amount.{calculate_approved_payable_amount-Pays}
use youone_rnd.Payment.Restoring.{IsPercentage-of_micros}
use youone_rnd.Payment.Stored.{HasSubject, PaymentReach-Storable}

abbrev Value : Type 0
Value = AcceptancePaymentDecisionSnapshot

-- The texts of a sealed subject are not empty, which their branded types promise.
pub record Branded (v : Value) : Type 0 where
  pub approval_instance : opt_eq v.approval_instance_id (some "") ≡ false
  pub checksum : opt_eq v.sealed_snapshot_checksum (some "") ≡ false
  pub sealed_at : opt_eq v.sealed_at (some "") ≡ false

truthy_of_some :
    (o : Option String) → is_some o ≡ true → opt_eq o (some "") ≡ false → truthy o ≡ true
truthy_of_some o h d = ground arith

restored_amount :
    (v : Value)
    → PaymentReach v
    → check_restored_amount v v.final_approved_rate v.approved_payable_amount ≡ ok tt
unfolding check_restored_amount
restored_amount v r = elim (Bool-cases (has_approval v.state)) [
  | inl reached ↦
      let a = (PaymentReach-Inv r).approved reached in
      let pays =
        calculate_approved_payable_amount-Pays v.milestone_amount a.approval.final_approved_rate
          v.policy a.payable a.computed in
      let own = (eq_iff a.payable.currency a.payable.currency).1 refl in
      rw (a.rated, a.paid)
        (rw (a.computed, own, pays.paid_read "ACCEPTANCE_PAYMENT_APPROVED_AMOUNT_INVALID")
          (ground arith))
  | inr unreached ↦ rw ((PaymentReach-Storable r).unapproved unreached) refl
]

restored_final :
    (v : Value) (code : String)
    → PaymentReach v
    → check_optional_percentage v.final_approved_rate code ≡ ok tt
unfolding check_optional_percentage
restored_final v code r = elim (Bool-cases (has_approval v.state)) [
  | inl reached ↦
      let a = (PaymentReach-Inv r).approved reached in
      let pays =
        calculate_approved_payable_amount-Pays v.milestone_amount a.approval.final_approved_rate
          v.policy a.payable a.computed in
      let percentage =
        IsPercentage-of_micros a.approval.final_approved_rate _ pays.rate pays.rate_read in
      rw (a.rated, percentage.read code) refl
  | inr unreached ↦ rw ((PaymentReach-Storable r).unapproved unreached) refl
]

restored_subject :
    (v : Value)
    → PaymentReach v
    → Branded v
    → (same_payment_state v.state AcceptancePaymentState.approval_pending && lacks_subject v)
      ≡ false
unfolding HasSubject
restored_subject v r b =
    elim (Bool-cases (same_payment_state v.state AcceptancePaymentState.approval_pending)) [
      | inl pending ↦
          let is_pending : v.state ≡ AcceptancePaymentState.approval_pending = ground arith in
          let s = PaymentReach-Storable r in
          let (instance_there, checksum_there, at_there) = s.subject is_pending in
          let named = truthy_of_some v.approval_instance_id instance_there b.approval_instance in
          let summed = truthy_of_some v.sealed_snapshot_checksum checksum_there b.checksum in
          let dated = truthy_of_some v.sealed_at at_there b.sealed_at in
          let sealed = (PaymentReach-Inv r).sealed is_pending in
          ground (arith, named, summed, dated, sealed, s.numbered)
      | inr other ↦ rw other refl
    ]

restored_approval :
    (v : Value)
    → PaymentReach v
    → (any (same_payment_state v.state) (
          AcceptancePaymentState.approved ∷ AcceptancePaymentState.held_for_conditions
          ∷ AcceptancePaymentState.eligible_for_external_payment ∷ [])
        && (lacks_approval v || is_none v.approved_payable_amount))
      ≡ false
restored_approval v r = elim (Bool-cases (has_approval v.state)) [
  | inl reached ↦
      let a = (PaymentReach-Inv r).approved reached in ground (arith, a.recorded, a.rated, a.paid)
  | inr unreached ↦ ground arith
]

-- Every decision that the methods can produce, stored with a subject whose texts are not empty, is
-- accepted by `restore` and comes back unchanged.
pub PaymentReach-restore : {v : Value} → PaymentReach v → Branded v → restore v ≡ ok v
unfolding restore validate_restored
PaymentReach-restore {v} r b =
    let s = PaymentReach-Storable r in
    let kept = (codes_eq_iff v.achievement_percent v.basis.achievement_percent).1 s.kept in
    let responsible : waives v.responsibility ≡ false =
      rw ((PaymentReach-Inv r).responsible) refl in
    ground (
      arith,
      s.achieved.read "ACCEPTANCE_PAYMENT_ACHIEVEMENT_INVALID",
      s.rated.read "ACCEPTANCE_PAYMENT_CALCULATED_RATE_INVALID",
      s.adjusted "ACCEPTANCE_PAYMENT_ADJUSTMENT_RATE_INVALID",
      restored_final v "ACCEPTANCE_PAYMENT_FINAL_RATE_INVALID" r,
      kept,
      restored_subject v r b,
      restored_approval v r,
      restored_amount v r,
      responsible,
    )
