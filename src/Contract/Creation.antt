-- ===== src/Contract/Creation.antt =====
-- packages/features/contract/src/domain/contract.ts: `VendorContract.create`.
use youone_rnd.Shared.{
  Bool, false, not, ◌||◌, none, some, List, [], ◌∷◌, String, Result, ok, ◌>>◌, fail_if, ◌==◌, any,
  length, str_eq,
}
use youone_rnd.Kernel.{Uuid, UtcInstant}
use youone_rnd.Contract.Types.{
  VendorContractState, ContractAuthority, ContractScopeObligation, ContractProject,
}
use youone_rnd.Contract.Revision.{ends_early}
use youone_rnd.Contract.Machine.{
  VendorContractSnapshot, ContractCommand, ContractMutation, require_authority, contract_text,
  contract_mutation,
}

-- The input of `create`: a snapshot without the fields that the method sets.
pub record ContractInput : Type 0 where
  pub contract_id : Uuid
  pub vendor_id : Uuid
  pub contract_no : String
  pub title : String
  pub manager_user_id : Uuid
  pub project_links : List ContractProject

-- Two links name one project.
abbrev pub links_twice : List ContractProject → Bool
links_twice [] = false
links_twice (link ∷ links) =
    any (λ other. str_eq other.project_id link.project_id) links || links_twice links

abbrev pub contract_of : ContractInput → UtcInstant → VendorContractSnapshot
contract_of input at = record {
  contract_id = input.contract_id;
  vendor_id = input.vendor_id;
  contract_no = input.contract_no;
  title = input.title;
  manager_user_id = input.manager_user_id;
  project_links = input.project_links;
  current_signed_version_id = none;
  current_signed_version_no = none;
  pending_approval_version_id = none;
  pending_approval_manifest_hash = none;
  pending_change_request_id = none;
  state = VendorContractState.draft;
  prior_state_before_termination_review = none;
  version = 1;
  created_at = at;
  updated_at = at;
}

-- The expected version of the command is not read.
unfoldable pub create_contract : ContractInput → ContractCommand → Bool → Result ContractMutation
create_contract input command vendor_exists = do
  require_authority command.actor (ContractAuthority.contract_manager ∷ [])
  fail_if (not vendor_exists) "CONTRACT_VENDOR_NOT_FOUND"
  contract_text (some input.contract_no) "CONTRACT_NO_REQUIRED"
  contract_text (some input.title) "CONTRACT_TITLE_REQUIRED"
  fail_if
      (length input.project_links == 0
        || any (λ link. not (str_eq link.contract_id input.contract_id)) input.project_links)
      "CONTRACT_PROJECT_LINK_REQUIRED"
  fail_if (links_twice input.project_links) "CONTRACT_PROJECT_LINK_DUPLICATE"
  fail_if (any (λ link. ends_early link.valid_from link.valid_to) input.project_links)
      "CONTRACT_PROJECT_LINK_PERIOD_INVALID"
  ok (
      contract_mutation (contract_of input command.at) command 0 "EVT-CONTRACT-CREATE"
        ContractScopeObligation.nothing_due)
