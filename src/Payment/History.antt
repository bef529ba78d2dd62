-- ===== src/Payment/History.antt =====
-- Decisions that the methods of `AcceptancePaymentDecision` can produce, and what holds of all of them.
use youone_rnd.Shared.{◌≡◌, ◌≢◌, Bool, true, false, Option, some, [], ok, all, codes}
use youone_rnd.Kernel.{Uuid, Money}
use youone_rnd.Payment.Types.{
  AcceptancePaymentState, AcceptanceDisposition, AcceptancePaymentApprovalSnapshot,
  AcceptancePaymentPolicyVersionSnapshot, AcceptancePaymentDecisionSnapshot,
  AcceptancePaymentActorCommand, AcceptancePaymentMutation, CalculateInput, Percentage,
  is_satisfied, acceptance_responsibility_invariant,
}
use youone_rnd.Payment.Rate.{calculate_rate, calculate_approved_payable_amount}
use youone_rnd.Payment.Machine.{calculate, exact_requested_rate}
use youone_rnd.Payment.Lifecycle.{PaymentCall, payment_run}

abbrev Value : Type 0
Value = AcceptancePaymentDecisionSnapshot

-- A decision that `calculate` made, and any that a method that succeeded made of one.
pub data PaymentReach : Value → Type 0 where
  calculated :
      (input : CalculateInput) (c : AcceptancePaymentActorCommand) {m : AcceptancePaymentMutation}
      → calculate input c ≡ ok m
      → PaymentReach m.snapshot
  stepped :
      {v : Value} (c : AcceptancePaymentActorCommand) (call : PaymentCall)
      {m : AcceptancePaymentMutation}
      → PaymentReach v
      → payment_run v c call ≡ ok m
      → PaymentReach m.snapshot

-- What the approval of a decision rests on.
pub record ApprovalPart : Type 0 where
  pub instance_id : Option Uuid
  pub snapshot : Option AcceptancePaymentApprovalSnapshot
  pub final_rate : Option Percentage
  pub requested : Percentage
  pub payable : Option Money
  pub milestone : Money
  pub policy : AcceptancePaymentPolicyVersionSnapshot

abbrev pub approval_part : Value → ApprovalPart
approval_part v = record {
  instance_id = v.approval_instance_id;
  snapshot = v.approval_snapshot;
  final_rate = v.final_approved_rate;
  requested = exact_requested_rate v;
  payable = v.approved_payable_amount;
  milestone = v.milestone_amount;
  policy = v.policy;
}

-- There is an official approval, of the rate that was asked for, by the instance that was asked, and
-- the payable amount is the one that the policy computes from the milestone amount and that rate.
pub record Approved (part : ApprovalPart) : Type 0 where
  pub approval : AcceptancePaymentApprovalSnapshot
  pub payable : Money
  pub recorded : part.snapshot ≡ some approval
  pub asked : part.instance_id ≡ some approval.approval_instance_id
  pub rated : part.final_rate ≡ some approval.final_approved_rate
  pub exact : approval.final_approved_rate ≡ part.requested
  pub paid : part.payable ≡ some payable
  pub computed :
      calculate_approved_payable_amount part.milestone approval.final_approved_rate part.policy
      ≡ ok payable

-- Nothing stands against the payment any more.
pub record Released (v : Value) : Type 0 where
  pub acceptable : v.basis.disposition ≢ AcceptanceDisposition.rejected
  pub settled : all is_satisfied v.residual_conditions ≡ true
  pub nothing_held : (m : Money) × (v.held_amount ≡ some m) × (m.amount ≡ codes "0")
  pub nothing_unpaid : (m : Money) × (v.unpaid_remainder ≡ some m) × (m.amount ≡ codes "0")

abbrev pub has_approval : AcceptancePaymentState → Bool
has_approval AcceptancePaymentState.approved = true
has_approval AcceptancePaymentState.held_for_conditions = true
has_approval AcceptancePaymentState.eligible_for_external_payment = true
has_approval _ = false

abbrev pub has_conditions : AcceptancePaymentState → Bool
has_conditions AcceptancePaymentState.held_for_conditions = true
has_conditions AcceptancePaymentState.eligible_for_external_payment = true
has_conditions _ = false

pub record PaymentInv (v : Value) : Type 0 where
  pub responsible : v.responsibility ≡ acceptance_responsibility_invariant
  pub priced :
      calculate_rate v.policy v.basis.achievement_percent v.basis.disposition
      ≡ ok v.calculated_proposed_rate
  pub sealed :
      v.state ≡ AcceptancePaymentState.approval_pending
      → v.approval_subject_version ≡ some v.version
  pub unheld : has_conditions v.state ≡ false → v.residual_conditions ≡ []
  pub approved : has_approval v.state ≡ true → Approved (approval_part v)
  pub released : v.state ≡ AcceptancePaymentState.eligible_for_external_payment → Released v
