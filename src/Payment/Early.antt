-- ===== src/Payment/Early.antt =====
-- The methods of `AcceptancePaymentDecision` up to the approval keep what holds of the decisions.
use youone_rnd.Shared.{◌≡◌, String, ok, arith}
use youone_rnd.Kernel.{Uuid}
use youone_rnd.Payment.Types.{
  NegativeOutcome, AcceptancePaymentDecisionSnapshot, AcceptancePaymentActorCommand,
  AcceptancePaymentMutation, CalculateInput, AdjustmentInput,
}
use youone_rnd.Payment.Machine.{
  payment_guard, calculate, propose_adjustment, submit_for_approval,
  apply_negative_approval_outcome, cancel_before_approval, mutation,
}
use youone_rnd.Payment.History.{PaymentInv}

abbrev Value : Type 0
Value = AcceptancePaymentDecisionSnapshot

pub calculate-Inv :
    (input : CalculateInput) (c : AcceptancePaymentActorCommand) (m : AcceptancePaymentMutation)
    → calculate input c ≡ ok m
    → PaymentInv m.snapshot
unfolding calculate mutation
calculate-Inv input c m h = record {
  responsible = ground arith;
  priced = ground arith;
  sealed = λ s. absurd (ground arith);
  unheld = λ s. ground arith;
  approved = λ s. absurd (ground arith);
  released = λ s. absurd (ground arith);
}

-- Before the approval.
pub propose-Inv :
    (v : Value) (c : AcceptancePaymentActorCommand) (i : AdjustmentInput)
    (m : AcceptancePaymentMutation)
    → PaymentInv v
    → propose_adjustment v c i ≡ ok m
    → PaymentInv m.snapshot
unfolding propose_adjustment payment_guard mutation
propose-Inv v c i m inv h = record {
  responsible = ground (arith, inv.responsible);
  priced = ground (arith, inv.priced);
  sealed = λ s. absurd (ground arith);
  unheld = λ s. ground (arith, inv.unheld);
  approved = λ s. absurd (ground arith);
  released = λ s. absurd (ground arith);
}

pub submit-Inv :
    (v : Value) (c : AcceptancePaymentActorCommand) (id : Uuid) (checksum : String)
    (m : AcceptancePaymentMutation)
    → PaymentInv v
    → submit_for_approval v c id checksum ≡ ok m
    → PaymentInv m.snapshot
unfolding submit_for_approval payment_guard mutation
submit-Inv v c id checksum m inv h = record {
  responsible = ground (arith, inv.responsible);
  priced = ground (arith, inv.priced);
  sealed = λ s. ground arith;
  unheld = λ s. ground (arith, inv.unheld);
  approved = λ s. absurd (ground arith);
  released = λ s. absurd (ground arith);
}

pub deny-Inv :
    (v : Value) (c : AcceptancePaymentActorCommand) (outcome : NegativeOutcome) (reason : String)
    (m : AcceptancePaymentMutation)
    → PaymentInv v
    → apply_negative_approval_outcome v c outcome reason ≡ ok m
    → PaymentInv m.snapshot
unfolding apply_negative_approval_outcome payment_guard mutation
deny-Inv v c outcome reason m inv h = record {
  responsible = ground (arith, inv.responsible);
  priced = ground (arith, inv.priced);
  sealed = λ s. absurd (ground arith);
  unheld = λ s. ground (arith, inv.unheld);
  approved = λ s. absurd (ground arith);
  released = λ s. absurd (ground arith);
}

pub cancel-Inv :
    (v : Value) (c : AcceptancePaymentActorCommand) (reason : String)
    (m : AcceptancePaymentMutation)
    → PaymentInv v
    → cancel_before_approval v c reason ≡ ok m
    → PaymentInv m.snapshot
unfolding cancel_before_approval payment_guard mutation
cancel-Inv v c reason m inv h = record {
  responsible = ground (arith, inv.responsible);
  priced = ground (arith, inv.priced);
  sealed = λ s. absurd (ground arith);
  unheld = λ s. ground (arith, inv.unheld);
  approved = λ s. absurd (ground arith);
  released = λ s. absurd (ground arith);
}
