-- ===== src/Payment/Keeping.antt =====
-- Every method of `AcceptancePaymentDecision` keeps what holds of the decisions made so far.
use mathlib.Core.Path.{subst}
use youone_rnd.Shared.{
  ◌≡◌, refl, sym, ap, inl, inr, true, false, not, Option, none, some, List, [], ◌∷◌, String, Result,
  ok, err, any, all, Bool-cases, arith, codes_eq_iff, codes, opt_eq, eq_iff,
}
use youone_rnd.Kernel.{Uuid, Money, money}
use youone_rnd.Payment.Types.{
  AcceptancePaymentApprovalSnapshot, AcceptancePaymentDecisionSnapshot,
  AcceptancePaymentActorCommand, AcceptancePaymentMutation, HoldInput, is_satisfied,
}
use youone_rnd.Payment.Rate.{calculate_approved_payable_amount}
use youone_rnd.Payment.Machine.{
  payment_guard, apply_approved_outcome, mutation, exact_requested_rate,
}
use youone_rnd.Payment.Release.{
  hold_for_conditions, satisfy_residual_condition, check_release,
  mark_eligible_for_external_payment,
}
use youone_rnd.Payment.Lifecycle.{PaymentCall, payment_run}
use youone_rnd.Payment.History.{
  PaymentReach, approval_part, Approved, has_approval, has_conditions, PaymentInv,
}
use youone_rnd.Payment.Early.{calculate-Inv, propose-Inv, submit-Inv, deny-Inv, cancel-Inv}

abbrev Value : Type 0
Value = AcceptancePaymentDecisionSnapshot

-- The approval.
approve_computed :
    (v : Value) (c : AcceptancePaymentActorCommand) (a : AcceptancePaymentApprovalSnapshot)
    (m : AcceptancePaymentMutation)
    → apply_approved_outcome v c a ≡ ok m
    → (payable : Money) × (calculate_approved_payable_amount v.milestone_amount
          a.final_approved_rate v.policy
        ≡ ok payable)
      × (m.snapshot.approved_payable_amount ≡ some payable)
unfolding apply_approved_outcome mutation
approve_computed v c a m h =
    go (calculate_approved_payable_amount v.milestone_amount a.final_approved_rate v.policy) refl
  where
    go :
        (r : Result Money)
        → calculate_approved_payable_amount v.milestone_amount a.final_approved_rate v.policy ≡ r
        → (payable : Money) × (calculate_approved_payable_amount v.milestone_amount
              a.final_approved_rate v.policy
            ≡ ok payable)
          × (m.snapshot.approved_payable_amount ≡ some payable)
    go (ok payable) e = (payable, e, ground arith)
    go (err code) e = absurd (ground arith)

opt_eq-some : (a : String) (o : Option String) → opt_eq (some a) o ≡ true → o ≡ some a
opt_eq-some a none h = absurd (ground arith)
opt_eq-some a (some b) h = ap some (sym ((eq_iff a b).0 h))

approve_part :
    (v : Value) (c : AcceptancePaymentActorCommand) (a : AcceptancePaymentApprovalSnapshot)
    (m : AcceptancePaymentMutation)
    → apply_approved_outcome v c a ≡ ok m
    → (m.snapshot.approval_snapshot ≡ some a)
      × (m.snapshot.approval_instance_id ≡ some a.approval_instance_id)
      × (m.snapshot.final_approved_rate ≡ some a.final_approved_rate)
      × (a.final_approved_rate ≡ exact_requested_rate m.snapshot)
      × (m.snapshot.milestone_amount ≡ v.milestone_amount)
      × (m.snapshot.policy ≡ v.policy)
unfolding apply_approved_outcome payment_guard mutation
approve_part v c a m h =
    let named : opt_eq (some a.approval_instance_id) m.snapshot.approval_instance_id ≡ true =
      ground arith in
    (
      ground arith,
      opt_eq-some a.approval_instance_id m.snapshot.approval_instance_id named,
      ground arith,
      ground (arith, codes_eq_iff a.final_approved_rate (exact_requested_rate v)),
      ground arith,
      ground arith,
    )

approve-Inv :
    (v : Value) (c : AcceptancePaymentActorCommand) (a : AcceptancePaymentApprovalSnapshot)
    (m : AcceptancePaymentMutation)
    → PaymentInv v
    → apply_approved_outcome v c a ≡ ok m
    → PaymentInv m.snapshot
unfolding apply_approved_outcome payment_guard mutation
approve-Inv v c a m inv h = record {
  responsible = ground (arith, inv.responsible);
  priced = ground (arith, inv.priced);
  sealed = λ s. absurd (ground arith);
  unheld = λ s. ground (arith, inv.unheld);
  approved = λ s.
      (let (payable, computed, paid) = approve_computed v c a m h in
        let (recorded, asked, rated, exact, milestone, policy) = approve_part v c a m h in
        record {
          approval = a;
          payable = payable;
          recorded = recorded;
          asked = asked;
          rated = rated;
          exact = exact;
          paid = paid;
          computed = rw (milestone, policy) computed;
        });
  released = λ s. absurd (ground arith);
}

-- After the approval: the part of the decision that it rests on stays as it is.
hold-Inv :
    (v : Value) (c : AcceptancePaymentActorCommand) (i : HoldInput) (m : AcceptancePaymentMutation)
    → PaymentInv v
    → hold_for_conditions v c i ≡ ok m
    → PaymentInv m.snapshot
unfolding hold_for_conditions payment_guard mutation
hold-Inv v c i m inv h =
    let same : approval_part v ≡ approval_part m.snapshot = ground arith in
    let before : has_approval v.state ≡ true = ground arith in
    record {
      responsible = ground (arith, inv.responsible);
      priced = ground (arith, inv.priced);
      sealed = λ s. absurd (ground arith);
      unheld = λ s. absurd (ground arith);
      approved = λ s. subst Approved same (inv.approved before);
      released = λ s. absurd (ground arith);
    }

satisfy-Inv :
    (v : Value) (c : AcceptancePaymentActorCommand) (id : Uuid) (evidence : List Uuid)
    (m : AcceptancePaymentMutation)
    → PaymentInv v
    → satisfy_residual_condition v c id evidence ≡ ok m
    → PaymentInv m.snapshot
unfolding satisfy_residual_condition payment_guard mutation
satisfy-Inv v c id evidence m inv h =
    let same : approval_part v ≡ approval_part m.snapshot = ground arith in
    let before : has_approval v.state ≡ true = ground arith in
    record {
      responsible = ground (arith, inv.responsible);
      priced = ground (arith, inv.priced);
      sealed = λ s. absurd (ground arith);
      unheld = λ s. absurd (ground arith);
      approved = λ s. subst Approved same (inv.approved before);
      released = λ s. absurd (ground arith);
    }

-- The release.
satisfied_none_open :
    (cs : List _) → any (λ c. not (is_satisfied c)) cs ≡ false → all is_satisfied cs ≡ true
satisfied_none_open [] h = refl
satisfied_none_open (c ∷ cs) h = ground (arith, satisfied_none_open cs)

release_settled :
    (v : Value) (c : AcceptancePaymentActorCommand) (m : AcceptancePaymentMutation)
    → PaymentInv v
    → mark_eligible_for_external_payment v c ≡ ok m
    → all is_satisfied v.residual_conditions ≡ true
unfolding mark_eligible_for_external_payment payment_guard check_release
release_settled v c m inv h = elim (Bool-cases (has_conditions v.state)) [
  | inl held ↦ satisfied_none_open v.residual_conditions (ground arith)
  | inr unheld ↦ rw (inv.unheld unheld) refl
]

abbrev IsZero : Option Money → Type 0
IsZero amount = (m : Money) × (amount ≡ some m) × (m.amount ≡ codes "0")

release-IsZero :
    (v : Value) (c : AcceptancePaymentActorCommand) (m : AcceptancePaymentMutation)
    → mark_eligible_for_external_payment v c ≡ ok m
    → IsZero m.snapshot.held_amount × IsZero m.snapshot.unpaid_remainder
unfolding mark_eligible_for_external_payment mutation money
release-IsZero v c m h = (held m.snapshot.held_amount refl, unpaid m.snapshot.unpaid_remainder refl)
  where
    held : (o : Option Money) → m.snapshot.held_amount ≡ o → IsZero m.snapshot.held_amount
    held none e = absurd (ground arith)
    held (some x) e = (x, e, ground arith)

    unpaid :
        (o : Option Money) → m.snapshot.unpaid_remainder ≡ o → IsZero m.snapshot.unpaid_remainder
    unpaid none e = absurd (ground arith)
    unpaid (some x) e = (x, e, ground arith)

release-Inv :
    (v : Value) (c : AcceptancePaymentActorCommand) (m : AcceptancePaymentMutation)
    → PaymentInv v
    → mark_eligible_for_external_payment v c ≡ ok m
    → PaymentInv m.snapshot
unfolding mark_eligible_for_external_payment payment_guard mutation
release-Inv v c m inv h =
    let same : approval_part v ≡ approval_part m.snapshot = ground arith in
    let before : has_approval v.state ≡ true = ground arith in
    record {
      responsible = ground (arith, inv.responsible);
      priced = ground (arith, inv.priced);
      sealed = λ s. absurd (ground arith);
      unheld = λ s. absurd (ground arith);
      approved = λ s. subst Approved same (inv.approved before);
      released = λ s. record {
        acceptable = λ e. absurd (ground arith);
        settled = ground (arith, release_settled v c m inv h);
        nothing_held = (release-IsZero v c m h).0;
        nothing_unpaid = (release-IsZero v c m h).1;
      };
    }

payment_run-Inv :
    (v : Value) (c : AcceptancePaymentActorCommand) (call : PaymentCall)
    (m : AcceptancePaymentMutation)
    → PaymentInv v
    → payment_run v c call ≡ ok m
    → PaymentInv m.snapshot
unfolding payment_run
payment_run-Inv v c (PaymentCall.propose i) m inv h = propose-Inv v c i m inv h
payment_run-Inv v c (PaymentCall.submit id checksum) m inv h = submit-Inv v c id checksum m inv h
payment_run-Inv v c (PaymentCall.approve a) m inv h = approve-Inv v c a m inv h
payment_run-Inv v c (PaymentCall.deny outcome reason) m inv h = deny-Inv v c outcome reason m inv h
payment_run-Inv v c (PaymentCall.cancel reason) m inv h = cancel-Inv v c reason m inv h
payment_run-Inv v c (PaymentCall.hold i) m inv h = hold-Inv v c i m inv h
payment_run-Inv v c (PaymentCall.satisfy_one id evidence) m inv h =
    satisfy-Inv v c id evidence m inv h
payment_run-Inv v c PaymentCall.release m inv h = release-Inv v c m inv h

-- Every decision that the methods can produce keeps the responsibility invariant and the rate that
-- its policy gives for the achievement; while its approval is pending, the subject version is its
-- own version; it has no residual conditions unless it is held or eligible; it has an approval, of
-- exactly the requested rate and the payable amount that the policy computes, while it is approved,
-- held or eligible; and while it is eligible for external payment, nothing is held or unpaid, every
-- condition is satisfied, and the deliverable was not rejected.
pub PaymentReach-Inv : {v : Value} → PaymentReach v → PaymentInv v
PaymentReach-Inv (PaymentReach.calculated input c {m} e) = calculate-Inv input c m e
PaymentReach-Inv (PaymentReach.stepped {v} c call {m} r e) =
    payment_run-Inv v c call m (PaymentReach-Inv r) e
