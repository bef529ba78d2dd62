-- ===== src/Contract/Tests.antt =====
-- A contract from its creation, and one that comes through the review of a termination.
use youone_rnd.Shared.{
  ℕ, ◌+◌, ◌≡◌, refl, true, none, some, List, [], ◌∷◌, String, err, is_ok, from_ok, from_ok_lem,
  is_blank, before,
}
use youone_rnd.Kernel.{next_version, version}
use youone_rnd.Contract.Types.{
  VendorContractState, ContractAuthority, ContractActorKind, ContractActorSnapshot, ContractProject,
}
use youone_rnd.Contract.Machine.{
  VendorContractSnapshot, ContractCommand, require_authority, contract_guard, contract_text,
  contract_mutation, contract_transition,
}
use youone_rnd.Contract.Creation.{ContractInput, create_contract}
use youone_rnd.Contract.Termination.{review_termination, continue_after_review}
use youone_rnd.Contract.Review.{continue_after_review-review_termination}

engine : Unit {0}
unfolding is_blank before next_version version require_authority contract_guard contract_text
    contract_mutation contract_transition create_contract review_termination continue_after_review
engine = tt

abbrev actor : ContractAuthority → ContractActorSnapshot
actor authority = record {
  actor_kind = ContractActorKind.internal;
  user_id = some "user";
  vendor_id = none;
  contract_scope_id = none;
  contract_scope_contract_id = none;
  active = true;
  authorities = authority ∷ [];
}

abbrev command : ContractAuthority → ℕ → ContractCommand
command authority expected = record {
  actor = actor authority;
  at = "t";
  expected_version = expected;
  event_id = "event";
  correlation_id = "correlation";
  idempotency_key = "key";
  reason = some "reason";
}

abbrev link : String → ContractProject
link project = record {
  contract_project_id = "link";
  contract_id = "contract";
  project_id = project;
  valid_from = "2026-01-01";
  valid_to = none;
}

abbrev contract : List ContractProject → ContractInput
contract links = record {
  contract_id = "contract";
  vendor_id = "vendor";
  contract_no = "C-1";
  title = "title";
  manager_user_id = "user";
  project_links = links;
}

created_ok :
    is_ok (
      create_contract
        (contract (link "p" ∷ []))
        (command ContractAuthority.contract_manager 0)
        true)
    ≡ true
unfolding engine
created_ok = refl

-- A project is linked only once.
linked_twice :
    create_contract
      (contract (link "p" ∷ link "q" ∷ link "p" ∷ []))
      (command ContractAuthority.contract_manager 0)
      true
    ≡ err "CONTRACT_PROJECT_LINK_DUPLICATE"
unfolding engine
linked_twice = refl

abbrev in_force : VendorContractSnapshot
in_force = record {
  contract_id = "contract";
  vendor_id = "vendor";
  contract_no = "C-1";
  title = "title";
  manager_user_id = "user";
  project_links = link "p" ∷ [];
  current_signed_version_id = some "version";
  current_signed_version_no = some 1;
  pending_approval_version_id = none;
  pending_approval_manifest_hash = none;
  pending_change_request_id = some "change";
  state = VendorContractState.change_pending;
  prior_state_before_termination_review = none;
  version = 7;
  created_at = "t0";
  updated_at = "t1";
}

abbrev reviewing : ContractCommand
reviewing = command ContractAuthority.director 7

abbrev continuing : ContractCommand
continuing = command ContractAuthority.policy_approver 8

reviewing_ok : is_ok (review_termination in_force reviewing).1 ≡ true
unfolding engine
reviewing_ok = refl

continuing_ok :
    is_ok (continue_after_review (review_termination in_force reviewing).0 continuing true).1 ≡ true
unfolding engine
continuing_ok = refl

continue_after_review-review_termination_example :
    (continue_after_review (review_termination in_force reviewing).0 continuing true).0
    ≡ record in_force {
      prior_state_before_termination_review = none;
      version = 7 + 2;
      updated_at = "t";
    }
continue_after_review-review_termination_example =
    continue_after_review-review_termination in_force reviewing continuing true
      (from_ok (review_termination in_force reviewing).1 reviewing_ok)
      (from_ok (continue_after_review (review_termination in_force reviewing).0 continuing true).1
        continuing_ok)
      (from_ok_lem (review_termination in_force reviewing).1 reviewing_ok)
      (from_ok_lem
        (continue_after_review (review_termination in_force reviewing).0 continuing true).1
        continuing_ok)
