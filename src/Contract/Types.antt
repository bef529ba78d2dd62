-- ===== src/Contract/Types.antt =====
-- The data of packages/features/contract/src/domain/contract.ts that contracts and their versions have.
use youone_rnd.Shared.{ℕ, Bool, Option, List, String}
use youone_rnd.Kernel.{Uuid, UtcInstant, StableCode, Sha256, Money}

pub data VendorContractState : Type 0 where
  draft internal_review negotiation approval_pending signed active : VendorContractState
  change_pending performance_complete closing closed : VendorContractState
  termination_review terminated : VendorContractState

pub data ContractAuthority : Type 0 where
  contract_author contract_manager director policy_approver : ContractAuthority

pub data ContractVersionState : Type 0 where
  draft sealed signed superseded : ContractVersionState

pub data ContractVersionKind : Type 0 where
  original amendment : ContractVersionKind

pub data ContractScopeObligation : Type 0 where
  nothing_due issue refresh revoke : ContractScopeObligation

pub data ContractActorKind : Type 0 where
  internal vendor system : ContractActorKind

pub record ContractActorSnapshot : Type 0 where
  pub actor_kind : ContractActorKind
  pub user_id : Option Uuid
  pub vendor_id : Option Uuid
  pub contract_scope_id : Option Uuid
  pub contract_scope_contract_id : Option Uuid
  pub active : Bool
  pub authorities : List ContractAuthority

pub record ContractProject : Type 0 where
  pub contract_project_id : Uuid
  pub contract_id : Uuid
  pub project_id : Uuid
  pub valid_from : String
  pub valid_to : Option String

-- The outcome of an approval snapshot is always "APPROVED" and is left out.
pub record ContractApprovalSnapshot : Type 0 where
  pub approval_instance_id : Uuid
  pub subject_contract_version_id : Uuid
  pub subject_manifest_hash : Sha256
  pub decided_at : UtcInstant

pub record ContractPolicyProvenance : Type 0 where
  pub preset_policy_id : StableCode
  pub preset_policy_version : ℕ
  pub legal_baseline_id : StableCode
  pub legal_baseline_version : ℕ
  pub override_applied : Bool
  pub override_reason : Option String
  pub approval_snapshot : Option ContractApprovalSnapshot

pub record ContractVersionSnapshot : Type 0 where
  pub contract_version_id : Uuid
  pub contract_id : Uuid
  pub version_no : ℕ
  pub version_kind : ContractVersionKind
  pub previous_contract_version_id : Option Uuid
  pub statement_of_work_document_version_id : Uuid
  pub requirements_snapshot_id : Uuid
  pub effective_from : String
  pub effective_to : Option String
  pub contract_amount : Money
  pub intellectual_property_terms_code : StableCode
  pub security_terms_code : StableCode
  pub warranty_terms_code : StableCode
  pub liability_terms_code : StableCode
  pub policy_provenance : ContractPolicyProvenance
  pub state : ContractVersionState
  pub manifest_hash : Option Sha256
  pub signature_evidence_id : Option Uuid
  pub created_at : UtcInstant
  pub sealed_at : Option UtcInstant
  pub signed_at : Option UtcInstant
