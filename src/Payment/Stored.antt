-- ===== src/Payment/Stored.antt =====
-- Every method of `AcceptancePaymentDecision` keeps what lets a decision be restored.
use mathlib.Core.Path.{subst}
use youone_rnd.Shared.{
  ℕ, ◌+◌, ◌<◌, ◌≡◌, refl, sym, ap, ◌∙◌, true, false, none, some, List, String, Result, ok, err,
  arith, is_some,
}
use youone_rnd.Decimal.{percentage_micros}
use youone_rnd.Kernel.{Uuid}
use youone_rnd.Payment.Types.{
  AcceptancePaymentState, AcceptancePaymentApprovalSnapshot, NegativeOutcome,
  AcceptancePaymentDecisionSnapshot, AcceptancePaymentActorCommand, AcceptancePaymentMutation,
  HoldInput, AdjustmentInput,
}
use youone_rnd.Payment.Machine.{
  payment_guard, propose_adjustment, submit_for_approval, apply_approved_outcome,
  apply_negative_approval_outcome, cancel_before_approval, mutation,
}
use youone_rnd.Payment.Release.{
  hold_for_conditions, satisfy_residual_condition, mark_eligible_for_external_payment,
}
use youone_rnd.Payment.Restore.{check_optional_percentage}
use youone_rnd.Payment.Lifecycle.{PaymentCall, payment_run, payment_run-Stepped}
use youone_rnd.Payment.History.{PaymentReach, has_approval}
use youone_rnd.Payment.Restoring.{
  Storable, IsPercentage, IsPercentage-of_micros, calculate-Storable,
}

abbrev Value : Type 0
Value = AcceptancePaymentDecisionSnapshot

unfoldable pub HasSubject : Value → Type 0
HasSubject v =
    (is_some v.approval_instance_id ≡ true)
    × (is_some v.sealed_snapshot_checksum ≡ true)
    × (is_some v.sealed_at ≡ true)

-- What a method leaves alone stays storable.
keep_stored :
    {v w : Value}
    → Storable v
    → w.achievement_percent ≡ v.achievement_percent
    → w.basis ≡ v.basis
    → w.calculated_proposed_rate ≡ v.calculated_proposed_rate
    → w.adjusted_requested_rate ≡ v.adjusted_requested_rate
    → 0 < w.version
    → (has_approval w.state ≡ false → w.final_approved_rate ≡ none)
    → (w.state ≡ AcceptancePaymentState.approval_pending → HasSubject w)
    → Storable w
unfolding HasSubject
keep_stored s achievement basis rate adjusted numbered unapproved subject = record {
  kept = achievement ∙ s.kept ∙ sym (ap (λ b. b.achievement_percent) basis);
  achieved = subst IsPercentage (sym achievement) s.achieved;
  rated = subst IsPercentage (sym rate) s.rated;
  adjusted = λ code.
      subst (λ r. check_optional_percentage r code ≡ ok tt) (sym adjusted) (s.adjusted code);
  unapproved = unapproved;
  numbered = numbered;
  subject = subject;
}

positive_next : (a : ℕ) {b : ℕ} → b ≡ a + 1 → 0 < b
positive_next a e = omega (arith, e)

proposed_rate :
    (v : Value) (c : AcceptancePaymentActorCommand) (i : AdjustmentInput)
    (m : AcceptancePaymentMutation)
    → propose_adjustment v c i ≡ ok m
    → (m.snapshot.adjusted_requested_rate ≡ some i.requested_rate)
      × (n : ℕ) × (percentage_micros i.requested_rate "ACCEPTANCE_PAYMENT_ADJUSTMENT_RATE_INVALID"
          ≡ ok n)
unfolding propose_adjustment mutation
proposed_rate v c i m h =
    go (percentage_micros i.requested_rate "ACCEPTANCE_PAYMENT_ADJUSTMENT_RATE_INVALID") refl
  where
    go :
        (r : Result ℕ)
        → percentage_micros i.requested_rate "ACCEPTANCE_PAYMENT_ADJUSTMENT_RATE_INVALID" ≡ r
        → (m.snapshot.adjusted_requested_rate ≡ some i.requested_rate)
          × (n : ℕ) × (percentage_micros i.requested_rate
                "ACCEPTANCE_PAYMENT_ADJUSTMENT_RATE_INVALID"
              ≡ ok n)
    go (ok n) e = (ground arith, n, e)
    go (err code) e = absurd (ground arith)

propose-Storable :
    (v : Value) (c : AcceptancePaymentActorCommand) (i : AdjustmentInput)
    (m : AcceptancePaymentMutation)
    → Storable v
    → 0 < m.snapshot.version
    → propose_adjustment v c i ≡ ok m
    → Storable m.snapshot
unfolding propose_adjustment payment_guard mutation check_optional_percentage
propose-Storable v c i m s positive h =
    let (requested, n, read) = proposed_rate v c i m h in
    let percentage = IsPercentage-of_micros i.requested_rate _ n read in
    record {
      kept = ground (arith, s.kept);
      achieved = subst IsPercentage (ground arith) s.achieved;
      rated = subst IsPercentage (ground arith) s.rated;
      adjusted = λ code. rw (requested, percentage.read code) refl;
      unapproved = λ e. ground (arith, s.unapproved);
      numbered = positive;
      subject = λ e. absurd (ground arith);
    }

submit-Storable :
    (v : Value) (c : AcceptancePaymentActorCommand) (i : Uuid) (checksum : String)
    (m : AcceptancePaymentMutation)
    → Storable v
    → 0 < m.snapshot.version
    → submit_for_approval v c i checksum ≡ ok m
    → Storable m.snapshot
unfolding submit_for_approval payment_guard mutation HasSubject
submit-Storable v c i checksum m s positive h =
    keep_stored s (ground arith) (ground arith) (ground arith) (ground arith) positive
      (λ e. ground (arith, s.unapproved)) (λ e. ground arith)

approve-Storable :
    (v : Value) (c : AcceptancePaymentActorCommand) (a : AcceptancePaymentApprovalSnapshot)
    (m : AcceptancePaymentMutation)
    → Storable v
    → 0 < m.snapshot.version
    → apply_approved_outcome v c a ≡ ok m
    → Storable m.snapshot
unfolding apply_approved_outcome payment_guard mutation HasSubject
approve-Storable v c a m s positive h =
    keep_stored s (ground arith) (ground arith) (ground arith) (ground arith) positive
      (λ e. absurd (ground arith)) (λ e. absurd (ground arith))

deny-Storable :
    (v : Value) (c : AcceptancePaymentActorCommand) (outcome : NegativeOutcome) (reason : String)
    (m : AcceptancePaymentMutation)
    → Storable v
    → 0 < m.snapshot.version
    → apply_negative_approval_outcome v c outcome reason ≡ ok m
    → Storable m.snapshot
unfolding apply_negative_approval_outcome payment_guard mutation HasSubject
deny-Storable v c outcome reason m s positive h =
    keep_stored s (ground arith) (ground arith) (ground arith) (ground arith) positive
      (λ e. ground (arith, s.unapproved)) (λ e. absurd (ground arith))

cancel-Storable :
    (v : Value) (c : AcceptancePaymentActorCommand) (reason : String)
    (m : AcceptancePaymentMutation)
    → Storable v
    → 0 < m.snapshot.version
    → cancel_before_approval v c reason ≡ ok m
    → Storable m.snapshot
unfolding cancel_before_approval payment_guard mutation HasSubject
cancel-Storable v c reason m s positive h =
    keep_stored s (ground arith) (ground arith) (ground arith) (ground arith) positive
      (λ e. ground (arith, s.unapproved)) (λ e. absurd (ground arith))

hold-Storable :
    (v : Value) (c : AcceptancePaymentActorCommand) (i : HoldInput) (m : AcceptancePaymentMutation)
    → Storable v
    → 0 < m.snapshot.version
    → hold_for_conditions v c i ≡ ok m
    → Storable m.snapshot
unfolding hold_for_conditions payment_guard mutation HasSubject
hold-Storable v c i m s positive h =
    keep_stored s (ground arith) (ground arith) (ground arith) (ground arith) positive
      (λ e. absurd (ground arith)) (λ e. absurd (ground arith))

satisfy-Storable :
    (v : Value) (c : AcceptancePaymentActorCommand) (id : Uuid) (evidence : List Uuid)
    (m : AcceptancePaymentMutation)
    → Storable v
    → 0 < m.snapshot.version
    → satisfy_residual_condition v c id evidence ≡ ok m
    → Storable m.snapshot
unfolding satisfy_residual_condition payment_guard mutation HasSubject
satisfy-Storable v c id evidence m s positive h =
    keep_stored s (ground arith) (ground arith) (ground arith) (ground arith) positive
      (λ e. absurd (ground arith)) (λ e. absurd (ground arith))

release-Storable :
    (v : Value) (c : AcceptancePaymentActorCommand) (m : AcceptancePaymentMutation)
    → Storable v
    → 0 < m.snapshot.version
    → mark_eligible_for_external_payment v c ≡ ok m
    → Storable m.snapshot
unfolding mark_eligible_for_external_payment payment_guard mutation HasSubject
release-Storable v c m s positive h =
    keep_stored s (ground arith) (ground arith) (ground arith) (ground arith) positive
      (λ e. absurd (ground arith)) (λ e. absurd (ground arith))

payment_run-Storable :
    (v : Value) (c : AcceptancePaymentActorCommand) (call : PaymentCall)
    (m : AcceptancePaymentMutation)
    → Storable v
    → 0 < m.snapshot.version
    → payment_run v c call ≡ ok m
    → Storable m.snapshot
unfolding payment_run
payment_run-Storable v c (PaymentCall.propose i) m s positive h =
    propose-Storable v c i m s positive h
payment_run-Storable v c (PaymentCall.submit i checksum) m s positive h =
    submit-Storable v c i checksum m s positive h
payment_run-Storable v c (PaymentCall.approve a) m s positive h =
    approve-Storable v c a m s positive h
payment_run-Storable v c (PaymentCall.deny outcome reason) m s positive h =
    deny-Storable v c outcome reason m s positive h
payment_run-Storable v c (PaymentCall.cancel reason) m s positive h =
    cancel-Storable v c reason m s positive h
payment_run-Storable v c (PaymentCall.hold i) m s positive h = hold-Storable v c i m s positive h
payment_run-Storable v c (PaymentCall.satisfy_one id evidence) m s positive h =
    satisfy-Storable v c id evidence m s positive h
payment_run-Storable v c PaymentCall.release m s positive h = release-Storable v c m s positive h

pub PaymentReach-Storable : {v : Value} → PaymentReach v → Storable v
PaymentReach-Storable (PaymentReach.calculated input c {m} e) = calculate-Storable input c m e
PaymentReach-Storable (PaymentReach.stepped {v} c call {m} r e) =
    payment_run-Storable v c call m (PaymentReach-Storable r)
      (positive_next v.version (payment_run-Stepped v c call m e).stamped.advanced) e
