-- ===== src/Contract/Methods.antt =====
-- packages/features/contract/src/domain/contract.ts: the public methods of `VendorContract`.
use youone_rnd.Shared.{
  ℕ, ◌+◌, Bool, false, not, ◌&&◌, ◌||◌, Option, none, some, [], ◌∷◌, String, ◌>>◌, fail_if, ◌==◌,
  str_eq, opt_eq, truthy, before, if◌then◌else◌,
}
use youone_rnd.Kernel.{Uuid}
use youone_rnd.Contract.Types.{
  VendorContractState, ContractAuthority, ContractScopeObligation, ContractVersionSnapshot,
}
use youone_rnd.Contract.Revision.{is_original, is_sealed_version}
use youone_rnd.Contract.Machine.{
  VendorContractSnapshot, ContractCommand, is_vendor_party, is_system_party, require_authority,
  contract_guard, require_author_or_manager, require_signed_version, contract_text, ContractOutcome,
  contract_transition, past,
}

unfoldable pub request_review : VendorContractSnapshot → ContractCommand → Bool → ContractOutcome
request_review value command mandatory_draft_documents_satisfied =
    past
      (contract_guard value command (VendorContractState.draft ∷ [])
        >> (require_author_or_manager value command.actor
            >> fail_if (not mandatory_draft_documents_satisfied)
                "CONTRACT_DRAFT_DOCUMENTS_REQUIRED"))
      value
      (contract_transition value command VendorContractState.internal_review
        "EVT-CONTRACT-REQUEST-REVIEW" ContractScopeObligation.nothing_due)

unfoldable pub begin_negotiation : VendorContractSnapshot → ContractCommand → Bool → ContractOutcome
begin_negotiation value command review_outcome_recorded =
    past
      (contract_guard value command (VendorContractState.internal_review ∷ [])
        >> (require_authority command.actor
              (ContractAuthority.director ∷ ContractAuthority.policy_approver ∷ [])
            >> fail_if (not review_outcome_recorded) "CONTRACT_REVIEW_OUTCOME_REQUIRED"))
      value
      (contract_transition value command VendorContractState.negotiation
        "EVT-CONTRACT-BEGIN-NEGOTIATION" ContractScopeObligation.nothing_due)

unfoldable pub submit_approval :
    VendorContractSnapshot → ContractCommand → ContractVersionSnapshot → ContractOutcome
submit_approval value command sealed =
    past
      (contract_guard value command (VendorContractState.negotiation ∷ [])
        >> (require_author_or_manager value command.actor
            >> fail_if
                (not (str_eq sealed.contract_id value.contract_id)
                  || not (is_sealed_version sealed.state)
                  || not (truthy sealed.manifest_hash))
                "CONTRACT_EXACT_SEALED_VERSION_REQUIRED"))
      value
      (contract_transition
        (record value {
          pending_approval_version_id = some sealed.contract_version_id;
          pending_approval_manifest_hash = sealed.manifest_hash;
        })
        command VendorContractState.approval_pending "EVT-CONTRACT-SUBMIT-APPROVAL"
        ContractScopeObligation.nothing_due)

unfoldable pub record_approved_signature :
    VendorContractSnapshot → ContractCommand → ContractVersionSnapshot → ContractOutcome
record_approved_signature value command signed =
    past
      (contract_guard value command (VendorContractState.approval_pending ∷ [])
        >> (fail_if (not (is_system_party command.actor.actor_kind) || not command.actor.active)
              "CONTRACT_SYSTEM_COMPLETION_REQUIRED"
            >> (require_signed_version value signed
                >> fail_if
                    (not
                        (opt_eq (some signed.contract_version_id) value.pending_approval_version_id)
                      || not (opt_eq signed.manifest_hash value.pending_approval_manifest_hash))
                    "CONTRACT_PENDING_APPROVAL_VERSION_MISMATCH")))
      value
      (contract_transition
        (record value {
          current_signed_version_id = some signed.contract_version_id;
          current_signed_version_no = some signed.version_no;
          pending_approval_version_id = none;
          pending_approval_manifest_hash = none;
        })
        command VendorContractState.signed "EVT-CONTRACT-APPROVED-SIGNED"
        ContractScopeObligation.nothing_due)

-- `effectiveTo && effectiveOn > effectiveTo`
abbrev pub is_past_end : String → Option String → Bool
is_past_end on none = false
is_past_end on (some end) = not (str_eq end "") && before end on

unfoldable pub activate_contract :
    VendorContractSnapshot → ContractCommand → String → ContractVersionSnapshot → ContractOutcome
activate_contract value command effective_on signed =
    past
      (contract_guard value command (VendorContractState.signed ∷ [])
        >> (require_authority command.actor (ContractAuthority.contract_manager ∷ [])
            >> (require_signed_version value signed
                >> fail_if
                    (before effective_on signed.effective_from
                      || is_past_end effective_on signed.effective_to)
                    "CONTRACT_EFFECTIVE_DATE_INVALID")))
      value
      (contract_transition value command VendorContractState.active "EVT-CONTRACT-ACTIVATE"
        ContractScopeObligation.issue)

unfoldable pub request_change : VendorContractSnapshot → ContractCommand → Uuid → ContractOutcome
request_change value command change_request_id =
    past
      (contract_guard value command (VendorContractState.active ∷ [])
        >> (if is_vendor_party command.actor.actor_kind
            then fail_if
                (not command.actor.active
                  || not (opt_eq command.actor.vendor_id (some value.vendor_id))
                  || not (truthy command.actor.contract_scope_id)
                  || not (opt_eq command.actor.contract_scope_contract_id (some value.contract_id)))
                "CONTRACT_VENDOR_SCOPE_REQUIRED"
            else require_authority command.actor
                (ContractAuthority.contract_manager ∷ ContractAuthority.director ∷ [])))
      value
      (contract_transition (record value { pending_change_request_id = some change_request_id })
        command VendorContractState.change_pending "EVT-CONTRACT-REQUEST-CHANGE"
        ContractScopeObligation.nothing_due)

-- The amendment is the next one: its predecessor is the version in force, and its number follows.
abbrev pub is_next_number : ℕ → Option ℕ → Bool
is_next_number version_no none = false
is_next_number version_no (some current) = version_no == current + 1

unfoldable pub make_change_effective :
    VendorContractSnapshot → ContractCommand → ContractVersionSnapshot → ContractOutcome
make_change_effective value command amendment =
    past
      (contract_guard value command (VendorContractState.change_pending ∷ [])
        >> (require_authority command.actor
              (ContractAuthority.contract_manager ∷ ContractAuthority.director ∷ [])
            >> (require_signed_version value amendment
                >> fail_if
                    (not (truthy value.pending_change_request_id)
                      || not (truthy value.current_signed_version_id)
                      || is_original amendment.version_kind
                      || not (
                          opt_eq amendment.previous_contract_version_id
                            value.current_signed_version_id)
                      || not (is_next_number amendment.version_no value.current_signed_version_no))
                    "CONTRACT_SIGNED_AMENDMENT_REQUIRED")))
      value
      (contract_transition
        (record value {
          current_signed_version_id = some amendment.contract_version_id;
          current_signed_version_no = some amendment.version_no;
          pending_change_request_id = none;
        })
        command VendorContractState.active "EVT-CONTRACT-CHANGE-EFFECTIVE"
        ContractScopeObligation.refresh)

unfoldable pub complete_performance :
    VendorContractSnapshot → ContractCommand → Bool → Bool → ContractOutcome
complete_performance value command deliverables_satisfied inspection_checks_satisfied =
    past
      (contract_guard value command (VendorContractState.active ∷ [])
        >> (require_authority command.actor (ContractAuthority.director ∷ [])
            >> fail_if (not deliverables_satisfied || not inspection_checks_satisfied)
                "CONTRACT_PERFORMANCE_CHECKS_REQUIRED"))
      value
      (contract_transition value command VendorContractState.performance_complete
        "EVT-CONTRACT-PERFORMANCE-COMPLETE" ContractScopeObligation.nothing_due)

unfoldable pub begin_close :
    VendorContractSnapshot → ContractCommand → Bool → Bool → Bool → ContractOutcome
begin_close value command handover_satisfied payment_status_recorded guarantee_checks_satisfied =
    past
      (contract_guard value command (VendorContractState.performance_complete ∷ [])
        >> (require_authority command.actor (ContractAuthority.contract_manager ∷ [])
            >> fail_if
                (not handover_satisfied
                  || not payment_status_recorded
                  || not guarantee_checks_satisfied)
                "CONTRACT_CLOSE_CHECKLIST_REQUIRED"))
      value
      (contract_transition value command VendorContractState.closing "EVT-CONTRACT-BEGIN-CLOSE"
        ContractScopeObligation.nothing_due)

unfoldable pub close : VendorContractSnapshot → ContractCommand → ContractOutcome
close value command =
    past
      (contract_guard value command (VendorContractState.closing ∷ [])
        >> (require_authority command.actor
              (ContractAuthority.director ∷ ContractAuthority.policy_approver ∷ [])
            >> contract_text command.reason "CONTRACT_CLOSE_REASON_REQUIRED"))
      value
      (contract_transition value command VendorContractState.closed "EVT-CONTRACT-CLOSE"
        ContractScopeObligation.revoke)
