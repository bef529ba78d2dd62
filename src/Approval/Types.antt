-- ===== src/Approval/Types.antt =====
-- The data of packages/core/approval/src/domain/approval.ts: states, roles, policies, resolved lines,
-- actors, commands, the instance's snapshot and what a mutation hands out.
use youone_rnd.Shared.{ℕ, Bool, true, false, Option, List, String, ◌==◌}
use youone_rnd.Decimal.{Digits}
use youone_rnd.Kernel.{Uuid, UtcInstant, StableCode, Sha256, Version}

pub data ApprovalState : Type 0 where
  draft submitted in_progress rejected recall_requested recalled completed cancelled : ApprovalState

pub data ApprovalStepState : Type 0 where
  waiting active reviewed agreed approved rejected skipped_by_policy cancelled : ApprovalStepState

pub data ParticipantState : Type 0 where
  pending active completed cancelled : ParticipantState

pub data ApprovalRole : Type 0 where
  review agreement approval reference : ApprovalRole

pub data CompletionMode : Type 0 where
  sequential any_one all specific : CompletionMode

pub data ApprovalActionKind : Type 0 where
  submit activate review agree approve reference_receipt reject request_recall recall cancel
        complete :
      ApprovalActionKind

pub data SubjectKind : Type 0 where
  document_version research_project_application purchase_request_version contract_version
        technical_access_request technical_copy_request acceptance_payment_decision
        change_request_version change_order_version approval_policy_version :
      SubjectKind

-- `ApprovalSubject`: a kind, and the one identifier that the kind carries.
pub record ApprovalSubject : Type 0 where
  pub kind : SubjectKind
  pub id : Uuid

pub record ApprovalSubjectSnapshot : Type 0 where
  pub subject : ApprovalSubject
  pub subject_version : Version
  pub checksum : Sha256
  pub sealed_at : UtcInstant

pub data SecurityLevel : Type 0 where
  l1 l2 l3 l4 : SecurityLevel

pub data StrengthenedRisk : Type 0 where
  any required excluded : StrengthenedRisk

pub record AmountBand : Type 0 where
  pub currency : String
  pub min_inclusive : Option Digits
  pub max_exclusive : Option Digits

pub record PolicySelection : Type 0 where
  pub subject_kinds : List SubjectKind
  pub document_type_ids : List StableCode
  pub security_levels : List SecurityLevel
  pub amount_band : Option AmountBand
  pub strengthened_risk : StrengthenedRisk

pub record SelectionAmount : Type 0 where
  pub currency : String
  pub value : Digits

pub record ApprovalPolicySelectionInput : Type 0 where
  pub document_type_id : Option StableCode
  pub security_level : Option SecurityLevel
  pub amount : Option SelectionAmount
  pub strengthened_risk : Bool

pub record ApprovalPolicyStepRule : Type 0 where
  pub rule_id : Uuid
  pub sequence_no : ℕ
  pub role : ApprovalRole
  pub completion_mode : Option CompletionMode
  pub required : Bool
  pub allowed_position_ids : List StableCode
  pub allowed_role_ids : List StableCode
  pub specific_user_id : Option Uuid

pub data PolicyState : Type 0 where
  draft published retired : PolicyState

pub record ApprovalPolicyVersion : Type 0 where
  pub policy_version_id : Uuid
  pub policy_id : StableCode
  pub version : ℕ
  pub checksum : Sha256
  pub state : PolicyState
  pub effective_from : UtcInstant
  pub effective_to : Option UtcInstant
  pub selection : PolicySelection
  pub recall_allowed : Bool
  pub steps : List ApprovalPolicyStepRule

pub record ActingAuthoritySnapshot : Type 0 where
  pub assignment_id : Uuid
  pub evidence_id : Uuid
  pub grantor_user_id : Uuid
  pub delegate_user_id : Uuid
  pub represented_position_id : StableCode
  pub allowed_action_ids : List StableCode
  pub valid_from : UtcInstant
  pub valid_to : UtcInstant
  pub reason : String

pub data ActorType : Type 0 where
  user system : ActorType

pub data AccountKind : Type 0 where
  internal vendor system : AccountKind

pub record ApprovalActorSnapshot : Type 0 where
  pub actor_type : ActorType
  pub account_kind : AccountKind
  pub authenticated_user_id : Option Uuid
  pub effective_user_id : Option Uuid
  pub position_ids : List StableCode
  pub role_ids : List StableCode
  pub acting_authority : Option ActingAuthoritySnapshot

pub record ResolvedParticipant : Type 0 where
  pub participant_id : Uuid
  pub user_id : Uuid
  pub position_id : StableCode
  pub role_ids : List StableCode
  pub order : ℕ

pub record ResolvedStep : Type 0 where
  pub step_id : Uuid
  pub rule_id : Uuid
  pub sequence_no : ℕ
  pub role : ApprovalRole
  pub completion_mode : CompletionMode
  pub required : Bool
  pub participants : List ResolvedParticipant

pub record ApprovalSubmissionSnapshot : Type 0 where
  pub submitted_at : UtcInstant
  pub submitted_by : ApprovalActorSnapshot
  pub subject : ApprovalSubjectSnapshot
  pub policy : ApprovalPolicyVersion
  pub policy_selection_input : ApprovalPolicySelectionInput
  pub line : List ResolvedStep

pub record ApprovalAction : Type 0 where
  pub action_id : Uuid
  pub kind : ApprovalActionKind
  pub at : UtcInstant
  pub actor : ApprovalActorSnapshot
  pub step_id : Option Uuid
  pub participant_id : Option Uuid
  pub reason_code : Option StableCode
  pub comment : Option String

-- `ApprovalRuntimeParticipant` extends `ResolvedParticipant` by its state.
pub record ApprovalRuntimeParticipant : Type 0 where
  pub resolved : ResolvedParticipant
  pub open resolved use *
  pub state : ParticipantState

pub record ApprovalRuntimeStep : Type 0 where
  pub step_id : Uuid
  pub rule_id : Uuid
  pub sequence_no : ℕ
  pub role : ApprovalRole
  pub completion_mode : CompletionMode
  pub required : Bool
  pub participants : List ApprovalRuntimeParticipant
  pub state : ApprovalStepState

pub record ApprovalInstanceSnapshot : Type 0 where
  pub approval_instance_id : Uuid
  pub generation : ℕ
  pub previous_instance_id : Option Uuid
  pub submitter_user_id : Uuid
  pub state : ApprovalState
  pub version : Version
  pub resubmission_of_subject : Option ApprovalSubjectSnapshot
  pub submission : Option ApprovalSubmissionSnapshot
  pub steps : List ApprovalRuntimeStep
  pub actions : List ApprovalAction

-- The payload that every event and audit obligation of an instance carries.
pub record ApprovalPayload : Type 0 where
  pub machine_id : String
  pub state : ApprovalState
  pub generation : ℕ
  pub action_id : Uuid

pub record ApprovalDomainEvent : Type 0 where
  pub event_id : Uuid
  pub event_type : StableCode
  pub aggregate_id : Uuid
  pub aggregate_version : Version
  pub occurred_at : UtcInstant
  pub correlation_id : String
  pub idempotency_key : String
  pub payload : ApprovalPayload

pub record ApprovalAuditObligation : Type 0 where
  pub event_type : StableCode
  pub actor : ApprovalActorSnapshot
  pub aggregate_id : Uuid
  pub action_id : Uuid
  pub occurred_at : UtcInstant
  pub correlation_id : String
  pub metadata : ApprovalPayload

pub record ApprovalMutation : Type 0 where
  pub expected_version : Version
  pub instance_snapshot : ApprovalInstanceSnapshot
  pub appended_action : ApprovalAction
  pub events : List ApprovalDomainEvent
  pub audit : ApprovalAuditObligation

pub record ApprovalCommand : Type 0 where
  pub actor : ApprovalActorSnapshot
  pub at : UtcInstant
  pub expected_version : Version
  pub action_id : Uuid
  pub event_id : Uuid
  pub completion_event_id : Option Uuid
  pub correlation_id : String
  pub idempotency_key : String

-- The kinds that a participant's command may have.
pub data ParticipantKind : Type 0 where
  review agree approve reference_receipt : ParticipantKind

pub record ParticipantCommand : Type 0 where
  pub command : ApprovalCommand
  pub step_id : Uuid
  pub participant_id : Uuid
  pub kind : ParticipantKind
  pub comment : Option String

pub record RejectCommand : Type 0 where
  pub command : ApprovalCommand
  pub step_id : Uuid
  pub participant_id : Uuid
  pub reason_code : StableCode
  pub comment : Option String

-- `===` on the enumerations.
abbrev pub state_no : ApprovalState → ℕ
state_no draft = 0
state_no submitted = 1
state_no in_progress = 2
state_no rejected = 3
state_no recall_requested = 4
state_no recalled = 5
state_no completed = 6
state_no cancelled = 7

abbrev pub same_state : ApprovalState → ApprovalState → Bool
same_state a b = state_no a == state_no b

abbrev pub step_state_no : ApprovalStepState → ℕ
step_state_no waiting = 0
step_state_no active = 1
step_state_no reviewed = 2
step_state_no agreed = 3
step_state_no approved = 4
step_state_no rejected = 5
step_state_no skipped_by_policy = 6
step_state_no cancelled = 7

abbrev pub same_step_state : ApprovalStepState → ApprovalStepState → Bool
same_step_state a b = step_state_no a == step_state_no b

abbrev pub participant_state_no : ParticipantState → ℕ
participant_state_no pending = 0
participant_state_no active = 1
participant_state_no completed = 2
participant_state_no cancelled = 3

abbrev pub same_participant_state : ParticipantState → ParticipantState → Bool
same_participant_state a b = participant_state_no a == participant_state_no b

abbrev pub role_no : ApprovalRole → ℕ
role_no review = 0
role_no agreement = 1
role_no approval = 2
role_no reference = 3

abbrev pub same_role : ApprovalRole → ApprovalRole → Bool
same_role a b = role_no a == role_no b

abbrev pub mode_no : CompletionMode → ℕ
mode_no sequential = 0
mode_no any_one = 1
mode_no all = 2
mode_no specific = 3

abbrev pub same_mode : CompletionMode → CompletionMode → Bool
same_mode a b = mode_no a == mode_no b

abbrev pub subject_no : SubjectKind → ℕ
subject_no document_version = 0
subject_no research_project_application = 1
subject_no purchase_request_version = 2
subject_no contract_version = 3
subject_no technical_access_request = 4
subject_no technical_copy_request = 5
subject_no acceptance_payment_decision = 6
subject_no change_request_version = 7
subject_no change_order_version = 8
subject_no approval_policy_version = 9

abbrev pub same_subject : SubjectKind → SubjectKind → Bool
same_subject a b = subject_no a == subject_no b

abbrev pub level_no : SecurityLevel → ℕ
level_no l1 = 1
level_no l2 = 2
level_no l3 = 3
level_no l4 = 4

abbrev pub same_level : SecurityLevel → SecurityLevel → Bool
same_level a b = level_no a == level_no b

abbrev pub kind_no : ParticipantKind → ℕ
kind_no review = 0
kind_no agree = 1
kind_no approve = 2
kind_no reference_receipt = 3

abbrev pub same_kind : ParticipantKind → ParticipantKind → Bool
same_kind a b = kind_no a == kind_no b

abbrev pub same_bool : Bool → Bool → Bool
same_bool true b = b
same_bool false true = false
same_bool false false = true
