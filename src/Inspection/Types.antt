-- ===== src/Inspection/Types.antt =====
-- The data of packages/features/quality/src/domain/inspection.ts.
use youone_rnd.Shared.{ℕ, Bool, Option, List, String, Result, fail_if, is_blank}
use youone_rnd.Kernel.{Uuid, UtcInstant, StableCode, Sha256, Version}

pub data InspectionState : Type 0 where
  requested scheduled in_progress decision_pending : InspectionState
  correction_required reinspection_pending completed cancelled : InspectionState

pub data InspectionDisposition : Type 0 where
  accepted partial_acceptance conditional_acceptance : InspectionDisposition
  correction_requested rejected unable_to_verify : InspectionDisposition

pub data CriterionVerdict : Type 0 where
  pass fail partial unable_to_verify : CriterionVerdict

pub data InspectionActorKind : Type 0 where
  internal vendor system : InspectionActorKind

pub record InspectionActorSnapshot : Type 0 where
  pub actor_kind : InspectionActorKind
  pub user_id : Option Uuid
  pub vendor_id : Option Uuid
  pub active : Bool
  pub authorities : List StableCode
  pub contract_scope_id : Option Uuid
  pub contract_scope_contract_id : Option Uuid

pub record InspectionSnapshot : Type 0 where
  pub inspection_id : Uuid
  pub inspection_no : String
  pub inspection_type_code : StableCode
  pub contract_id : Uuid
  pub contract_milestone_id : Uuid
  pub deliverable_id : Uuid
  pub deliverable_version_id : Uuid
  pub assigned_vendor_id : Uuid
  pub inspection_checklist_version_id : Uuid
  pub state : InspectionState
  pub scheduled_at : Option UtcInstant
  pub open_attempt_id : Option Uuid
  pub open_attempt_no : Option ℕ
  pub latest_sealed_attempt_id : Option Uuid
  pub latest_attempt_no : ℕ
  pub final_disposition : Option InspectionDisposition
  pub version : Version
  pub created_at : UtcInstant
  pub updated_at : UtcInstant

pub data RoundingMode : Type 0 where
  half_up down : RoundingMode

pub record Rounding : Type 0 where
  pub decimal_places : ℕ
  pub mode : RoundingMode

pub data BandDisposition : Type 0 where
  accepted conditional_acceptance partial_acceptance rejected : BandDisposition

pub record Band : Type 0 where
  pub min_inclusive : String
  pub max_exclusive : Option String
  pub disposition : BandDisposition

pub record AcceptanceScorePolicy : Type 0 where
  pub policy_id : StableCode
  pub policy_version : ℕ
  pub rounding : Rounding
  pub bands : List Band

pub record InspectionCriterionSnapshot : Type 0 where
  pub inspection_criterion_id : Uuid
  pub inspection_checklist_version_id : Uuid
  pub sequence_no : ℕ
  pub criterion_code : StableCode
  pub title : String
  pub requirement_revision_id : Option Uuid
  pub weight_percent : String
  pub critical : Bool
  pub required_evidence : List StableCode
  pub measurement_rule : String
  pub pass_rule : String

pub record InspectionChecklistVersionSnapshot : Type 0 where
  pub inspection_checklist_version_id : Uuid
  pub inspection_id : Uuid
  pub version_no : ℕ
  pub previous_checklist_version_id : Option Uuid
  pub policy : AcceptanceScorePolicy
  pub criteria : List InspectionCriterionSnapshot
  pub checksum : Sha256
  pub sealed_at : UtcInstant
  pub sealed_by_user_id : Uuid

pub record InspectionCriterionResultSnapshot : Type 0 where
  pub inspection_criterion_result_id : Uuid
  pub inspection_attempt_id : Uuid
  pub inspection_criterion_id : Uuid
  pub requirement_revision_id : Option Uuid
  pub achieved_percent : String
  pub verdict : CriterionVerdict
  pub observed_value : String
  pub evidence_ids : List Uuid

pub record IndependentUsablePortionSnapshot : Type 0 where
  pub portion_code : StableCode
  pub description : String
  pub deliverable_version_id : Uuid
  pub evidence_ids : List Uuid

pub record ResidualConditionSnapshot : Type 0 where
  pub condition_code : StableCode
  pub description : String
  pub due_at : Option UtcInstant
  pub evidence_ids : List Uuid

-- The achievement is a text that the code prints, kept as its code points. The state of an attempt is
-- always "SEALED" and is left out.
pub record InspectionAttemptSnapshot : Type 0 where
  pub inspection_attempt_id : Uuid
  pub inspection_id : Uuid
  pub attempt_no : ℕ
  pub sealed_at : UtcInstant
  pub checksum : Sha256
  pub inspection_checklist_version_id : Uuid
  pub policy_id : StableCode
  pub policy_version : ℕ
  pub contract_id : Uuid
  pub contract_milestone_id : Uuid
  pub deliverable_id : Uuid
  pub deliverable_version_id : Uuid
  pub disposition : InspectionDisposition
  pub achievement_percent : List ℕ
  pub criterion_results : List InspectionCriterionResultSnapshot
  pub evidence_ids : List Uuid
  pub critical_failure_criterion_ids : List Uuid
  pub independently_usable_portions : List IndependentUsablePortionSnapshot
  pub residual_conditions : List ResidualConditionSnapshot
  pub inspector_user_id : Uuid

pub record SealInspectionAttemptInput : Type 0 where
  pub inspection_attempt_id : Uuid
  pub inspection_id : Uuid
  pub attempt_no : ℕ
  pub contract_id : Uuid
  pub contract_milestone_id : Uuid
  pub deliverable_id : Uuid
  pub deliverable_version_id : Uuid
  pub criterion_results : List InspectionCriterionResultSnapshot
  pub independently_usable_portions : Option (List IndependentUsablePortionSnapshot)
  pub residual_conditions : Option (List ResidualConditionSnapshot)
  pub inspector_user_id : Uuid
  pub checksum : Sha256
  pub sealed_at : UtcInstant

-- `requireText`
unfoldable pub need_text : String → String → Result (Unit {0})
need_text value code = fail_if (is_blank value) code
