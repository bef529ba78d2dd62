-- ===== src/Payment/Lifecycle.antt =====
-- The methods of `AcceptancePaymentDecision` as calls on one decision, and the graph of its states.
use youone_rnd.Shared.{
  ℕ, ◌+◌, ◌≤◌, ◌≡◌, refl, ap, ◌∙◌, ◌⊎◌, Option, none, some, List, String, Result, ok, err, arith,
}
use youone_rnd.Kernel.{Uuid, UtcInstant, Money, max_safe_integer, next_version}
use youone_rnd.Kernel.Laws.{next_version_iff}
use youone_rnd.Payment.Types.{
  AcceptancePaymentState, AcceptancePaymentApprovalSnapshot, NegativeOutcome,
  AcceptancePaymentDecisionSnapshot, SealedInspectionAttemptBasis,
  AcceptancePaymentPolicyVersionSnapshot, Percentage, AcceptanceResponsibilityInvariant,
  AcceptancePaymentActorCommand, AcceptancePaymentMutation, HoldInput, AdjustmentInput,
}
use youone_rnd.Payment.Machine.{
  payment_guard, propose_adjustment, submit_for_approval, apply_approved_outcome,
  apply_negative_approval_outcome, cancel_before_approval, mutation,
}
use youone_rnd.Payment.Release.{
  hold_for_conditions, satisfy_residual_condition, mark_eligible_for_external_payment,
}

abbrev Value : Type 0
Value = AcceptancePaymentDecisionSnapshot

-- One method with its arguments beside the command.
pub data PaymentCall : Type 0 where
  propose : AdjustmentInput → PaymentCall
  submit : Uuid → String → PaymentCall
  approve : AcceptancePaymentApprovalSnapshot → PaymentCall
  deny : NegativeOutcome → String → PaymentCall
  cancel : String → PaymentCall
  hold : HoldInput → PaymentCall
  satisfy_one : Uuid → List Uuid → PaymentCall
  release : PaymentCall

unfoldable pub payment_run :
    Value → AcceptancePaymentActorCommand → PaymentCall → Result AcceptancePaymentMutation
payment_run v c (propose input) = propose_adjustment v c input
payment_run v c (submit instance_id checksum) = submit_for_approval v c instance_id checksum
payment_run v c (approve approval) = apply_approved_outcome v c approval
payment_run v c (deny outcome reason) = apply_negative_approval_outcome v c outcome reason
payment_run v c (cancel reason) = cancel_before_approval v c reason
payment_run v c (hold input) = hold_for_conditions v c input
payment_run v c (satisfy_one id evidence) = satisfy_residual_condition v c id evidence
payment_run v c release = mark_eligible_for_external_payment v c

-- The arrows of SM-ACCEPTANCE-PAYMENT-V1: where a call leads from a state, if it is allowed there.
abbrev pub target : PaymentCall → AcceptancePaymentState → Option AcceptancePaymentState
target (propose _) AcceptancePaymentState.calculated =
    some AcceptancePaymentState.adjustment_proposed
target (submit _ _) AcceptancePaymentState.calculated = some AcceptancePaymentState.approval_pending
target (submit _ _) AcceptancePaymentState.adjustment_proposed =
    some AcceptancePaymentState.approval_pending
target (approve _) AcceptancePaymentState.approval_pending = some AcceptancePaymentState.approved
target (deny _ _) AcceptancePaymentState.approval_pending = some AcceptancePaymentState.cancelled
target (cancel _) AcceptancePaymentState.calculated = some AcceptancePaymentState.cancelled
target (cancel _) AcceptancePaymentState.adjustment_proposed = some AcceptancePaymentState.cancelled
target (hold _) AcceptancePaymentState.approved = some AcceptancePaymentState.held_for_conditions
target (satisfy_one _ _) AcceptancePaymentState.held_for_conditions =
    some AcceptancePaymentState.held_for_conditions
target release AcceptancePaymentState.approved =
    some AcceptancePaymentState.eligible_for_external_payment
target release AcceptancePaymentState.held_for_conditions =
    some AcceptancePaymentState.eligible_for_external_payment
target _ _ = none

-- What every mutation records of the decision `v` that it was made from.
pub record Stamped (v : Value) (c : AcceptancePaymentActorCommand) (m : AcceptancePaymentMutation)
    : Type 0 where
  pub fresh : c.expected_version ≡ v.version
  pub expected : m.expected_version ≡ v.version
  pub advanced : m.snapshot.version ≡ v.version + 1
  pub safe : m.snapshot.version ≤ max_safe_integer
  pub event_version : m.event.aggregate_version ≡ m.snapshot.version
  pub event_state : m.event.payload.state ≡ m.snapshot.state
  pub event_id : m.event.aggregate_id ≡ v.acceptance_payment_decision_id
  pub audited :
      (m.audit.actor ≡ c.actor)
      × (m.audit.aggregate_id ≡ v.acceptance_payment_decision_id)
      × (m.audit.action_id ≡ m.event.event_type)
  pub updated : m.snapshot.updated_at ≡ c.at

-- The facts of a decision that are fixed when it is calculated.
pub record FixedPart : Type 0 where
  pub id : Uuid
  pub root : Uuid
  pub revision : ℕ
  pub previous : Option Uuid
  pub basis : SealedInspectionAttemptBasis
  pub policy : AcceptancePaymentPolicyVersionSnapshot
  pub milestone : Money
  pub achievement : Percentage
  pub calculated : Percentage
  pub responsibility : AcceptanceResponsibilityInvariant
  pub created : UtcInstant

abbrev pub fixed_part : Value → FixedPart
fixed_part v = record {
  id = v.acceptance_payment_decision_id;
  root = v.decision_root_id;
  revision = v.revision_no;
  previous = v.previous_decision_id;
  basis = v.basis;
  policy = v.policy;
  milestone = v.milestone_amount;
  achievement = v.achievement_percent;
  calculated = v.calculated_proposed_rate;
  responsibility = v.responsibility;
  created = v.created_at;
}

-- All that holds of one successful call.
pub record Stepped (v : Value) (c : AcceptancePaymentActorCommand) (call : PaymentCall)
    (m : AcceptancePaymentMutation) : Type 0 where
  pub stamped : Stamped v c m
  pub same : fixed_part m.snapshot ≡ fixed_part v
  pub moves : target call v.state ≡ some m.snapshot.state

step_of :
    (v : Value) (c : AcceptancePaymentActorCommand) (call : PaymentCall)
    (m : AcceptancePaymentMutation)
    → c.expected_version ≡ v.version
    → m.snapshot.updated_at ≡ c.at
    → target call v.state ≡ some m.snapshot.state
    → fixed_part m.snapshot ≡ fixed_part v
    → next_version v.version ≡ ok m.snapshot.version
    → m ≡ mutation m.snapshot c v.version m.event.event_type m.audit.reason m.audit.evidence_ids
    → Stepped v c call m
unfolding mutation
step_of v c call m fresh updated moves same numbered built =
    let (next, safe) = (next_version_iff v.version m.snapshot.version).0 numbered in
    let id = ap (λ f. f.id) same in
    record {
      stamped = record {
        fresh = fresh;
        expected = ap (λ m. m.expected_version) built;
        advanced = next;
        safe = safe;
        event_version = ap (λ m. m.event.aggregate_version) built;
        event_state = ap (λ m. m.event.payload.state) built;
        event_id = ap (λ m. m.event.aggregate_id) built ∙ id;
        audited = (
          ap (λ m. m.audit.actor) built,
          ap (λ m. m.audit.aggregate_id) built ∙ id,
          ap (λ m. m.audit.action_id) built,
        );
        updated = updated;
      };
      same = same;
      moves = moves;
    }

propose_adjustment-Stepped :
    (v : Value) (c : AcceptancePaymentActorCommand) (i : AdjustmentInput)
    (m : AcceptancePaymentMutation)
    → propose_adjustment v c i ≡ ok m
    → Stepped v c (PaymentCall.propose i) m
unfolding propose_adjustment payment_guard mutation
propose_adjustment-Stepped v c i m h =
    step_of v c (PaymentCall.propose i) m (ground arith) (ground arith) (ground arith)
      (ground arith) (ground arith) (ground arith)

submit_for_approval-Stepped :
    (v : Value) (c : AcceptancePaymentActorCommand) (i : Uuid) (checksum : String)
    (m : AcceptancePaymentMutation)
    → submit_for_approval v c i checksum ≡ ok m
    → Stepped v c (PaymentCall.submit i checksum) m
unfolding submit_for_approval payment_guard mutation
submit_for_approval-Stepped v c i checksum m h =
    step_of v c (PaymentCall.submit i checksum) m (ground arith) (ground arith) (ground arith)
      (ground arith) (ground arith) (ground arith)

apply_approved_outcome-Stepped :
    (v : Value) (c : AcceptancePaymentActorCommand) (a : AcceptancePaymentApprovalSnapshot)
    (m : AcceptancePaymentMutation)
    → apply_approved_outcome v c a ≡ ok m
    → Stepped v c (PaymentCall.approve a) m
unfolding apply_approved_outcome payment_guard mutation
apply_approved_outcome-Stepped v c a m h =
    step_of v c (PaymentCall.approve a) m (ground arith) (ground arith) (ground arith)
      (ground arith) (ground arith) (ground arith)

apply_negative_approval_outcome-Stepped :
    (v : Value) (c : AcceptancePaymentActorCommand) (outcome : NegativeOutcome) (reason : String)
    (m : AcceptancePaymentMutation)
    → apply_negative_approval_outcome v c outcome reason ≡ ok m
    → Stepped v c (PaymentCall.deny outcome reason) m
unfolding apply_negative_approval_outcome payment_guard mutation
apply_negative_approval_outcome-Stepped v c outcome reason m h =
    step_of v c (PaymentCall.deny outcome reason) m (ground arith) (ground arith) (ground arith)
      (ground arith) (ground arith) (ground arith)

cancel_before_approval-Stepped :
    (v : Value) (c : AcceptancePaymentActorCommand) (reason : String)
    (m : AcceptancePaymentMutation)
    → cancel_before_approval v c reason ≡ ok m
    → Stepped v c (PaymentCall.cancel reason) m
unfolding cancel_before_approval payment_guard mutation
cancel_before_approval-Stepped v c reason m h =
    step_of v c (PaymentCall.cancel reason) m (ground arith) (ground arith) (ground arith)
      (ground arith) (ground arith) (ground arith)

hold_for_conditions-Stepped :
    (v : Value) (c : AcceptancePaymentActorCommand) (i : HoldInput) (m : AcceptancePaymentMutation)
    → hold_for_conditions v c i ≡ ok m
    → Stepped v c (PaymentCall.hold i) m
unfolding hold_for_conditions payment_guard mutation
hold_for_conditions-Stepped v c i m h =
    step_of v c (PaymentCall.hold i) m (ground arith) (ground arith) (ground arith) (ground arith)
      (ground arith) (ground arith)

satisfy_residual_condition-Stepped :
    (v : Value) (c : AcceptancePaymentActorCommand) (id : Uuid) (evidence : List Uuid)
    (m : AcceptancePaymentMutation)
    → satisfy_residual_condition v c id evidence ≡ ok m
    → Stepped v c (PaymentCall.satisfy_one id evidence) m
unfolding satisfy_residual_condition payment_guard mutation
satisfy_residual_condition-Stepped v c id evidence m h =
    step_of v c (PaymentCall.satisfy_one id evidence) m (ground arith) (ground arith) (ground arith)
      (ground arith) (ground arith) (ground arith)

mark_eligible_for_external_payment-Stepped :
    (v : Value) (c : AcceptancePaymentActorCommand) (m : AcceptancePaymentMutation)
    → mark_eligible_for_external_payment v c ≡ ok m
    → Stepped v c PaymentCall.release m
unfolding mark_eligible_for_external_payment payment_guard mutation
mark_eligible_for_external_payment-Stepped v c m h =
    step_of v c PaymentCall.release m (ground arith) (ground arith) (ground arith) (ground arith)
      (ground arith) (ground arith)

-- A method that succeeds was called for the current version, moves the decision along an arrow of its
-- state machine, keeps the identifiers, the revision and its predecessor, the inspection basis, the
-- policy, the milestone's amount, the achievement, the calculated rate, the responsibility and the time
-- of creation, moves to the next version within the safe integers, and stamps its event and its audit
-- entry with the new version and state, the decision and the actor.
pub payment_run-Stepped :
    (v : Value) (c : AcceptancePaymentActorCommand) (call : PaymentCall)
    (m : AcceptancePaymentMutation)
    → payment_run v c call ≡ ok m
    → Stepped v c call m
unfolding payment_run
payment_run-Stepped v c (PaymentCall.propose i) m h = propose_adjustment-Stepped v c i m h
payment_run-Stepped v c (PaymentCall.submit i checksum) m h =
    submit_for_approval-Stepped v c i checksum m h
payment_run-Stepped v c (PaymentCall.approve a) m h = apply_approved_outcome-Stepped v c a m h
payment_run-Stepped v c (PaymentCall.deny outcome reason) m h =
    apply_negative_approval_outcome-Stepped v c outcome reason m h
payment_run-Stepped v c (PaymentCall.cancel reason) m h =
    cancel_before_approval-Stepped v c reason m h
payment_run-Stepped v c (PaymentCall.hold i) m h = hold_for_conditions-Stepped v c i m h
payment_run-Stepped v c (PaymentCall.satisfy_one id evidence) m h =
    satisfy_residual_condition-Stepped v c id evidence m h
payment_run-Stepped v c PaymentCall.release m h = mark_eligible_for_external_payment-Stepped v c m h

abbrev pub IsFinal : AcceptancePaymentState → Type 0
IsFinal state =
    (state ≡ AcceptancePaymentState.eligible_for_external_payment)
    ⊎ (state ≡ AcceptancePaymentState.cancelled)

target_final :
    (call : PaymentCall) (state : AcceptancePaymentState) → IsFinal state → target call state ≡ none
target_final call state f = ground arith

-- A decision that is eligible for external payment or cancelled is final: no method succeeds on it.
pub payment_run_final :
    (v : Value) (c : AcceptancePaymentActorCommand) (call : PaymentCall)
    → IsFinal v.state
    → (code : String) × (payment_run v c call ≡ err code)
payment_run_final v c call f = go (payment_run v c call) refl
  where
    go :
        (r : Result AcceptancePaymentMutation)
        → payment_run v c call ≡ r
        → (code : String) × (payment_run v c call ≡ err code)
    go (ok m) e =
        absurd
          (ground (arith, target_final call v.state f, (payment_run-Stepped v c call m e).moves))
    go (err code) e = (code, e)
