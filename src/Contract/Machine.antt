-- ===== src/Contract/Machine.antt =====
-- packages/features/contract/src/domain/contract.ts: the data and the private methods of the class
-- `VendorContract`. A method takes the value of the object and returns the value that it leaves behind
-- beside its result, since it assigns the value before `transition` can still throw.
use youone_rnd.Shared.{
  ℕ, Bool, true, false, not, ◌&&◌, ◌||◌, Option, none, some, List, String, Result, ok, err, ◌>>◌,
  fail_if, ◌==◌, any, str_eq, opt_eq, truthy, is_some, is_blank, if◌then◌else◌,
}
use youone_rnd.Kernel.{Uuid, UtcInstant, StableCode, Sha256, Version, next_version}
use youone_rnd.Contract.Types.{
  VendorContractState, ContractAuthority, ContractScopeObligation, ContractActorKind,
  ContractActorSnapshot, ContractProject, ContractVersionSnapshot,
}
use youone_rnd.Contract.Revision.{is_signed_version}

pub data PriorState : Type 0 where
  active change_pending performance_complete : PriorState

pub record VendorContractSnapshot : Type 0 where
  pub contract_id : Uuid
  pub vendor_id : Uuid
  pub contract_no : String
  pub title : String
  pub manager_user_id : Uuid
  pub project_links : List ContractProject
  pub current_signed_version_id : Option Uuid
  pub current_signed_version_no : Option ℕ
  pub pending_approval_version_id : Option Uuid
  pub pending_approval_manifest_hash : Option Sha256
  pub pending_change_request_id : Option Uuid
  pub state : VendorContractState
  pub prior_state_before_termination_review : Option PriorState
  pub version : Version
  pub created_at : UtcInstant
  pub updated_at : UtcInstant

pub record ContractCommand : Type 0 where
  pub actor : ContractActorSnapshot
  pub at : UtcInstant
  pub expected_version : Version
  pub event_id : Uuid
  pub correlation_id : String
  pub idempotency_key : String
  pub reason : Option String

-- The payload of an event, whose four fields are fixed.
pub record ContractPayload : Type 0 where
  pub contract_id : Uuid
  pub vendor_id : Uuid
  pub state : VendorContractState
  pub scope_obligation : ContractScopeObligation

pub record ContractDomainEvent : Type 0 where
  pub event_id : Uuid
  pub event_type : StableCode
  pub machine_id : String
  pub aggregate_id : Uuid
  pub aggregate_version : Version
  pub occurred_at : UtcInstant
  pub correlation_id : String
  pub idempotency_key : String
  pub payload : ContractPayload

pub record ContractAudit : Type 0 where
  pub action_id : StableCode
  pub actor : ContractActorSnapshot
  pub contract_id : Uuid
  pub occurred_at : UtcInstant
  pub correlation_id : String
  pub reason : Option String

pub record ContractMutation : Type 0 where
  pub expected_version : Version
  pub snapshot : VendorContractSnapshot
  pub event : ContractDomainEvent
  pub audit : ContractAudit
  pub scope_obligation : ContractScopeObligation

-- `===` on the enumerations.
abbrev pub authority_number : ContractAuthority → ℕ
authority_number ContractAuthority.contract_author = 0
authority_number ContractAuthority.contract_manager = 1
authority_number ContractAuthority.director = 2
authority_number ContractAuthority.policy_approver = 3

abbrev pub contract_state_number : VendorContractState → ℕ
contract_state_number VendorContractState.draft = 0
contract_state_number VendorContractState.internal_review = 1
contract_state_number VendorContractState.negotiation = 2
contract_state_number VendorContractState.approval_pending = 3
contract_state_number VendorContractState.signed = 4
contract_state_number VendorContractState.active = 5
contract_state_number VendorContractState.change_pending = 6
contract_state_number VendorContractState.performance_complete = 7
contract_state_number VendorContractState.closing = 8
contract_state_number VendorContractState.closed = 9
contract_state_number VendorContractState.termination_review = 10
contract_state_number VendorContractState.terminated = 11

abbrev pub same_contract_state : VendorContractState → VendorContractState → Bool
same_contract_state a b = contract_state_number a == contract_state_number b

abbrev pub is_internal_party : ContractActorKind → Bool
is_internal_party ContractActorKind.internal = true
is_internal_party _ = false

abbrev pub is_vendor_party : ContractActorKind → Bool
is_vendor_party ContractActorKind.vendor = true
is_vendor_party _ = false

abbrev pub is_system_party : ContractActorKind → Bool
is_system_party ContractActorKind.system = true
is_system_party _ = false

abbrev pub holds_authority : ContractActorSnapshot → ContractAuthority → Bool
holds_authority actor authority =
    any (λ a. authority_number a == authority_number authority) actor.authorities

-- `hasAuthority`
abbrev pub has_authority : ContractActorSnapshot → List ContractAuthority → Bool
has_authority actor allowed =
    is_internal_party actor.actor_kind
    && actor.active
    && truthy actor.user_id
    && any (holds_authority actor) allowed

unfoldable pub require_authority :
    ContractActorSnapshot → List ContractAuthority → Result (Unit {0})
require_authority actor allowed =
    fail_if (not (has_authority actor allowed)) "CONTRACT_INTERNAL_AUTHORITY_REQUIRED"

unfoldable pub contract_guard :
    VendorContractSnapshot → ContractCommand → List VendorContractState → Result (Unit {0})
contract_guard value command states = do
  fail_if (not (command.expected_version == value.version)) "CONTRACT_STALE_VERSION"
  fail_if (not (any (λ state. same_contract_state state value.state) states))
      "CONTRACT_STATE_INVALID"
  fail_if (not command.actor.active) "CONTRACT_ACTOR_INACTIVE"

unfoldable pub require_author_or_manager :
    VendorContractSnapshot → ContractActorSnapshot → Result (Unit {0})
require_author_or_manager value actor =
    fail_if
      (not (is_internal_party actor.actor_kind)
        || not (truthy actor.user_id)
        || not (opt_eq actor.user_id (some value.manager_user_id))
          && not (holds_authority actor ContractAuthority.contract_author)
          && not (holds_authority actor ContractAuthority.contract_manager))
      "CONTRACT_AUTHOR_OR_MANAGER_REQUIRED"

unfoldable pub require_signed_version :
    VendorContractSnapshot → ContractVersionSnapshot → Result (Unit {0})
require_signed_version value signed =
    fail_if
      (not (str_eq signed.contract_id value.contract_id)
        || not (is_signed_version signed.state)
        || not (truthy signed.manifest_hash)
        || not (truthy signed.signature_evidence_id)
        || not (is_some signed.policy_provenance.approval_snapshot))
      "CONTRACT_EXACT_SIGNED_VERSION_REQUIRED"

-- `requireText`
unfoldable pub contract_text : Option String → String → Result (Unit {0})
contract_text none code = err code
contract_text (some text) code = fail_if (is_blank text) code

abbrev pub audited_reason : Option String → Option String
audited_reason reason = if truthy reason then reason else none

unfoldable pub contract_mutation :
    VendorContractSnapshot
    → ContractCommand
    → Version
    → String
    → ContractScopeObligation
    → ContractMutation
contract_mutation snapshot command expected_version event_type scope_obligation = record {
  expected_version = expected_version;
  snapshot = snapshot;
  event = record {
    event_id = command.event_id;
    event_type = event_type;
    machine_id = "SM-VENDOR-CONTRACT-V1";
    aggregate_id = snapshot.contract_id;
    aggregate_version = snapshot.version;
    occurred_at = command.at;
    correlation_id = command.correlation_id;
    idempotency_key = command.idempotency_key;
    payload = record {
      contract_id = snapshot.contract_id;
      vendor_id = snapshot.vendor_id;
      state = snapshot.state;
      scope_obligation = scope_obligation;
    };
  };
  audit = record {
    action_id = event_type;
    actor = command.actor;
    contract_id = snapshot.contract_id;
    occurred_at = command.at;
    correlation_id = command.correlation_id;
    reason = audited_reason command.reason;
  };
  scope_obligation = scope_obligation;
}

abbrev pub ContractOutcome : Type 0
ContractOutcome = VendorContractSnapshot × Result ContractMutation

abbrev pub contract_moved :
    VendorContractSnapshot
    → ContractCommand
    → VendorContractState
    → String
    → ContractScopeObligation
    → Result Version
    → ContractOutcome
contract_moved value command state event_type obligation (err code) = (value, err code)
contract_moved value command state event_type obligation (ok next) =
    let after = record value { state = state; version = next; updated_at = command.at } in
    (after, ok (contract_mutation after command value.version event_type obligation))

unfoldable pub contract_transition :
    VendorContractSnapshot
    → ContractCommand
    → VendorContractState
    → String
    → ContractScopeObligation
    → ContractOutcome
contract_transition value command state event_type obligation =
    contract_moved value command state event_type obligation (next_version value.version)

-- The checks at the start of a method, and what it does behind them.
abbrev pub past : Result (Unit {0}) → VendorContractSnapshot → ContractOutcome → ContractOutcome
past (err code) value rest = (value, err code)
past (ok tt) value rest = rest
