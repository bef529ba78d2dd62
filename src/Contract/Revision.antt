-- ===== src/Contract/Revision.antt =====
-- packages/features/contract/src/domain/contract.ts: the class `ContractVersion`, whose values never
-- change: a version is drafted, sealed and signed as a new value each time.
use youone_rnd.Shared.{
  ℕ, Bool, true, false, not, ◌&&◌, ◌||◌, Option, none, some, String, Result, ok, ◌>>◌, fail_if, leb,
  ◌==◌, str_eq, opt_eq, truthy, is_some, before, is_blank,
}
use youone_rnd.Kernel.{Uuid, UtcInstant, StableCode, Sha256, Money, is_safe_integer}
use youone_rnd.Contract.Types.{
  ContractVersionState, ContractVersionKind, ContractApprovalSnapshot, ContractPolicyProvenance,
  ContractVersionSnapshot,
}

-- `requirePositiveInteger`
unfoldable pub require_positive_integer : ℕ → String → Result (Unit {0})
require_positive_integer value code = fail_if (not (is_safe_integer value) || value == 0) code

-- The input of `draft`: a version without the fields that the later steps set.
pub record DraftInput : Type 0 where
  pub contract_version_id : Uuid
  pub contract_id : Uuid
  pub version_no : ℕ
  pub version_kind : ContractVersionKind
  pub previous_contract_version_id : Option Uuid
  pub statement_of_work_document_version_id : Uuid
  pub requirements_snapshot_id : Uuid
  pub effective_from : String
  pub effective_to : Option String
  pub contract_amount : Money
  pub intellectual_property_terms_code : StableCode
  pub security_terms_code : StableCode
  pub warranty_terms_code : StableCode
  pub liability_terms_code : StableCode
  pub policy_provenance : ContractPolicyProvenance
  pub created_at : UtcInstant

abbrev pub is_original : ContractVersionKind → Bool
is_original ContractVersionKind.original = true
is_original ContractVersionKind.amendment = false

abbrev pub wrong_number : ContractVersionKind → ℕ → Bool
wrong_number ContractVersionKind.original version_no = not (version_no == 1)
wrong_number ContractVersionKind.amendment version_no = leb version_no 1

abbrev pub wrong_previous : ContractVersionKind → Option Uuid → Bool
wrong_previous ContractVersionKind.original previous = truthy previous
wrong_previous ContractVersionKind.amendment previous = not (truthy previous)

-- `effectiveTo && effectiveFrom > effectiveTo`
abbrev pub ends_early : String → Option String → Bool
ends_early start none = false
ends_early start (some end) = not (str_eq end "") && before end start

-- `!overrideReason?.trim()`
abbrev pub lacks_reason : Option String → Bool
lacks_reason none = true
lacks_reason (some reason) = is_blank reason

abbrev pub draft_of : DraftInput → ContractVersionSnapshot
draft_of input = record {
  contract_version_id = input.contract_version_id;
  contract_id = input.contract_id;
  version_no = input.version_no;
  version_kind = input.version_kind;
  previous_contract_version_id = input.previous_contract_version_id;
  statement_of_work_document_version_id = input.statement_of_work_document_version_id;
  requirements_snapshot_id = input.requirements_snapshot_id;
  effective_from = input.effective_from;
  effective_to = input.effective_to;
  contract_amount = input.contract_amount;
  intellectual_property_terms_code = input.intellectual_property_terms_code;
  security_terms_code = input.security_terms_code;
  warranty_terms_code = input.warranty_terms_code;
  liability_terms_code = input.liability_terms_code;
  policy_provenance = input.policy_provenance;
  state = ContractVersionState.draft;
  manifest_hash = none;
  signature_evidence_id = none;
  created_at = input.created_at;
  sealed_at = none;
  signed_at = none;
}

unfoldable pub draft_version : DraftInput → Result ContractVersionSnapshot
draft_version input = do
  require_positive_integer input.version_no "CONTRACT_VERSION_NO_INVALID"
  fail_if (wrong_number input.version_kind input.version_no) "CONTRACT_VERSION_KIND_NUMBER_INVALID"
  fail_if (wrong_previous input.version_kind input.previous_contract_version_id)
      "CONTRACT_VERSION_PREDECESSOR_INVALID"
  fail_if (ends_early input.effective_from input.effective_to) "CONTRACT_VERSION_PERIOD_INVALID"
  fail_if
      (input.policy_provenance.override_applied
        && lacks_reason input.policy_provenance.override_reason)
      "CONTRACT_OVERRIDE_REASON_REQUIRED"
  fail_if
      (not input.policy_provenance.override_applied
        && truthy input.policy_provenance.override_reason)
      "CONTRACT_OVERRIDE_REASON_UNEXPECTED"
  fail_if (is_some input.policy_provenance.approval_snapshot)
      "CONTRACT_DRAFT_APPROVAL_SNAPSHOT_FORBIDDEN"
  ok (draft_of input)

abbrev pub is_draft_version : ContractVersionState → Bool
is_draft_version ContractVersionState.draft = true
is_draft_version _ = false

abbrev pub is_sealed_version : ContractVersionState → Bool
is_sealed_version ContractVersionState.sealed = true
is_sealed_version _ = false

abbrev pub is_signed_version : ContractVersionState → Bool
is_signed_version ContractVersionState.signed = true
is_signed_version _ = false

unfoldable pub seal : ContractVersionSnapshot → Sha256 → UtcInstant → Result ContractVersionSnapshot
seal value manifest_hash sealed_at = do
  fail_if (not (is_draft_version value.state)) "CONTRACT_VERSION_ALREADY_IMMUTABLE"
  ok (record value {
    state = ContractVersionState.sealed;
    manifest_hash = some manifest_hash;
    sealed_at = some sealed_at;
  })

unfoldable pub sign :
    ContractVersionSnapshot
    → ContractApprovalSnapshot
    → Uuid
    → UtcInstant
    → Result ContractVersionSnapshot
sign value approval signature_evidence_id signed_at = do
  fail_if
      (not (is_sealed_version value.state)
        || not (truthy value.manifest_hash)
        || not (truthy value.sealed_at))
      "CONTRACT_VERSION_NOT_SEALED"
  fail_if
      (not (str_eq approval.subject_contract_version_id value.contract_version_id)
        || not (opt_eq (some approval.subject_manifest_hash) value.manifest_hash))
      "CONTRACT_APPROVAL_SUBJECT_MISMATCH"
  ok (record value {
    state = ContractVersionState.signed;
    signature_evidence_id = some signature_evidence_id;
    signed_at = some signed_at;
    policy_provenance = record (value.policy_provenance) { approval_snapshot = some approval };
  })
