-- ===== src/Contract/Termination.antt =====
-- packages/features/contract/src/domain/contract.ts: the review of a termination and its two ends.
use youone_rnd.Shared.{Bool, not, ◌||◌, Option, none, some, [], ◌∷◌, err, ◌>>◌, fail_if}
use youone_rnd.Contract.Types.{VendorContractState, ContractAuthority, ContractScopeObligation}
use youone_rnd.Contract.Machine.{
  PriorState, VendorContractSnapshot, ContractCommand, require_authority, contract_guard,
  contract_text, ContractOutcome, contract_transition, past,
}

-- `this.value.state as ...`, in the three states that the guard lets through.
abbrev pub prior_of : VendorContractState → Option PriorState
prior_of VendorContractState.active = some PriorState.active
prior_of VendorContractState.change_pending = some PriorState.change_pending
prior_of VendorContractState.performance_complete = some PriorState.performance_complete
prior_of _ = none

abbrev pub state_of_prior : PriorState → VendorContractState
state_of_prior PriorState.active = VendorContractState.active
state_of_prior PriorState.change_pending = VendorContractState.change_pending
state_of_prior PriorState.performance_complete = VendorContractState.performance_complete

unfoldable pub review_termination : VendorContractSnapshot → ContractCommand → ContractOutcome
review_termination value command =
    past
      (contract_guard value command (
          VendorContractState.active ∷ VendorContractState.change_pending
          ∷ VendorContractState.performance_complete ∷ [])
        >> (require_authority command.actor (ContractAuthority.director ∷ [])
            >> contract_text command.reason "CONTRACT_TERMINATION_REASON_REQUIRED"))
      value
      (contract_transition
        (record value { prior_state_before_termination_review = prior_of value.state }) command
        VendorContractState.termination_review "EVT-CONTRACT-REVIEW-TERMINATION"
        ContractScopeObligation.nothing_due)

unfoldable pub terminate : VendorContractSnapshot → ContractCommand → Bool → Bool → ContractOutcome
terminate value command legal_requirements_satisfied approval_requirements_satisfied =
    past
      (contract_guard value command (VendorContractState.termination_review ∷ [])
        >> (require_authority command.actor (ContractAuthority.policy_approver ∷ [])
            >> (contract_text command.reason "CONTRACT_TERMINATION_REASON_REQUIRED"
                >> fail_if (not legal_requirements_satisfied || not approval_requirements_satisfied)
                    "CONTRACT_TERMINATION_REQUIREMENTS_REQUIRED")))
      value
      (contract_transition value command VendorContractState.terminated "EVT-CONTRACT-TERMINATE"
        ContractScopeObligation.revoke)

-- The end of `continueAfterReview`, where there is a prior state.
abbrev pub return_to :
    VendorContractSnapshot → ContractCommand → Option PriorState → ContractOutcome
return_to value command none = (value, err "CONTRACT_REMEDY_DECISION_REQUIRED")
return_to value command (some prior) =
    contract_transition (record value { prior_state_before_termination_review = none }) command
      (state_of_prior prior) "EVT-CONTRACT-CONTINUE" ContractScopeObligation.nothing_due

unfoldable pub continue_after_review :
    VendorContractSnapshot → ContractCommand → Bool → ContractOutcome
continue_after_review value command remedy_decision_recorded =
    past
      (contract_guard value command (VendorContractState.termination_review ∷ [])
        >> (require_authority command.actor (ContractAuthority.policy_approver ∷ [])
            >> (contract_text command.reason "CONTRACT_CONTINUE_REASON_REQUIRED"
                >> fail_if (not remedy_decision_recorded) "CONTRACT_REMEDY_DECISION_REQUIRED")))
      value (return_to value command value.prior_state_before_termination_review)
