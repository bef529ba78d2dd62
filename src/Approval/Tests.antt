-- ===== src/Approval/Tests.antt =====
-- An approval of a document by a reviewer and a director, run to its end, and the theorems on it.
use mathlib.Core.List.{Memᴰ}
use youone_rnd.Shared.{
  ℕ, ◌<◌, ◌≡◌, ◌↔◌, ◌⊎◌, refl, inl, true, false, Option, none, some, List, [], ◌∷◌, String, All,
  length, ok, err, is_ok, from_ok, from_ok_lem, before, is_blank, includes,
}
use youone_rnd.Approval.Types.{
  ApprovalState, ApprovalStepState, ApprovalRole, CompletionMode, SubjectKind, StrengthenedRisk,
  ApprovalSubjectSnapshot, ApprovalPolicySelectionInput, ApprovalPolicyStepRule, PolicyState,
  ApprovalPolicyVersion, ActorType, AccountKind, ApprovalActorSnapshot, ResolvedParticipant,
  ResolvedStep, ApprovalActionKind, ApprovalInstanceSnapshot, ApprovalCommand, ParticipantKind,
  ParticipantCommand, ApprovalRuntimeStep, ApprovalRuntimeParticipant, ParticipantState,
}
use youone_rnd.Approval.Policy.{
  approval_permission_for_action, effective_mode, normalize_rule, normalize_rules, normalize_policy,
  unit_fraction, decimal_units, at_least_bound, below_bound, band_matches, policy_matches,
  check_participants, check_rules, validate_resolved_line,
  validate_research_project_designation_line, designation_rule,
  validate_research_project_designation_policy,
}
use youone_rnd.Approval.Authority.{
  guard, guard_direct_submitter, guard_own, guard_acting, guard_actor,
}
use youone_rnd.Approval.Steps.{
  minimum, activate_first, step_complete, complete_participant, settle_step, activate_step,
  activate_at, cancel_step, recall_step, update_first,
}
use youone_rnd.Approval.Instance.{
  emitted_type, action_of, payload_of, event_of, events_of, record_action, activate_next, create,
}
use youone_rnd.Approval.Methods as Methods
use youone_rnd.Approval.Methods.{
  submit_checks, system_checks, active_participant, act_checks, advance, reject_checks, reject_step,
  recall_checks, cancel_checks, create_resubmission, act, action_kind,
}
use youone_rnd.Approval.Invariant.{Inv, ActReady}
use youone_rnd.Approval.Reach.{Call, run, command_of, Reach, Reach-Inv, active_before_waiting}
use youone_rnd.Approval.Permission.{MayAct, guard_actor_iff, act_authorized}
use youone_rnd.Approval.Effects.{Describes, LeftComplete, run-Describes, run_failure}
use youone_rnd.Approval.Terminal.{run_terminal}
use youone_rnd.Approval.ValidLine.{IsResolved, validate_resolved_line_sound}

engine : Unit {0}
unfolding guard guard_direct_submitter guard_own guard_acting guard_actor emitted_type action_of
    payload_of event_of events_of record_action activate_next submit_checks Methods.submit
    system_checks Methods.activate active_participant act_checks advance Methods.act reject_checks
    reject_step Methods.reject recall_checks Methods.request_recall Methods.confirm_recall
    cancel_checks Methods.cancel create_resubmission approval_permission_for_action effective_mode
    normalize_rule normalize_rules normalize_policy unit_fraction decimal_units at_least_bound
    below_bound band_matches policy_matches check_participants check_rules validate_resolved_line
    validate_research_project_designation_line designation_rule
    validate_research_project_designation_policy run minimum activate_first step_complete
    complete_participant settle_step activate_step activate_at cancel_step recall_step update_first
    before is_blank includes
engine = tt

abbrev person : String → List String → ApprovalActorSnapshot
person id positions = record {
  actor_type = ActorType.user;
  account_kind = AccountKind.internal;
  authenticated_user_id = some id;
  effective_user_id = some id;
  position_ids = positions;
  role_ids = [];
  acting_authority = none;
}

abbrev system_actor : ApprovalActorSnapshot
system_actor = record {
  actor_type = ActorType.system;
  account_kind = AccountKind.system;
  authenticated_user_id = none;
  effective_user_id = none;
  position_ids = [];
  role_ids = [];
  acting_authority = none;
}

abbrev order : ApprovalActorSnapshot → ℕ → Option String → ApprovalCommand
order actor expected completion = record {
  actor = actor;
  at = "2026-03-01T00:00:00.000Z";
  expected_version = expected;
  action_id = "action";
  event_id = "event";
  completion_event_id = completion;
  correlation_id = "correlation";
  idempotency_key = "key";
}

abbrev rule : String → ℕ → ApprovalRole → String → ApprovalPolicyStepRule
rule id sequence role position = record {
  rule_id = id;
  sequence_no = sequence;
  role = role;
  completion_mode = some CompletionMode.sequential;
  required = true;
  allowed_position_ids = position ∷ [];
  allowed_role_ids = [];
  specific_user_id = none;
}

abbrev rules_of_policy : List ApprovalPolicyStepRule
rules_of_policy =
    rule "rule-1" 1 ApprovalRole.review "POSITION_RESEARCHER"
    ∷ rule "rule-2" 2 ApprovalRole.approval "POSITION_LAB_DIRECTOR"
    ∷ []

abbrev policy : ApprovalPolicyVersion
policy = record {
  policy_version_id = "policy-version";
  policy_id = "POLICY";
  version = 1;
  checksum = "sum";
  state = PolicyState.published;
  effective_from = "2026-01-01T00:00:00.000Z";
  effective_to = none;
  selection = record {
    subject_kinds = SubjectKind.document_version ∷ [];
    document_type_ids = [];
    security_levels = [];
    amount_band = none;
    strengthened_risk = StrengthenedRisk.any;
  };
  recall_allowed = true;
  steps = rules_of_policy;
}

abbrev member : String → String → String → ResolvedParticipant
member id user position = record {
  participant_id = id;
  user_id = user;
  position_id = position;
  role_ids = [];
  order = 1;
}

abbrev step : String → String → ℕ → ApprovalRole → ResolvedParticipant → ResolvedStep
step id rule_id sequence role participant = record {
  step_id = id;
  rule_id = rule_id;
  sequence_no = sequence;
  role = role;
  completion_mode = CompletionMode.sequential;
  required = true;
  participants = participant ∷ [];
}

abbrev line_of_two : List ResolvedStep
line_of_two =
    step "step-1" "rule-1" 1 ApprovalRole.review (member "p-1" "reviewer" "POSITION_RESEARCHER")
    ∷ step "step-2" "rule-2" 2 ApprovalRole.approval
        (member "p-2" "director" "POSITION_LAB_DIRECTOR")
    ∷ []

abbrev subject : ApprovalSubjectSnapshot
subject = record {
  subject = record { kind = SubjectKind.document_version; id = "document" };
  subject_version = 1;
  checksum = "checksum";
  sealed_at = "2026-02-01T00:00:00.000Z";
}

abbrev selection_input : ApprovalPolicySelectionInput
selection_input = record {
  document_type_id = none;
  security_level = none;
  amount = none;
  strengthened_risk = false;
}

abbrev submitting : Call
submitting =
    Call.submit (order (person "author" []) 0 none) subject policy line_of_two selection_input

abbrev activating : Call
activating = Call.activate (order system_actor 1 none)

abbrev review_command : ParticipantCommand
review_command = record {
  command = order (person "reviewer" ("POSITION_RESEARCHER" ∷ [])) 2 none;
  step_id = "step-1";
  participant_id = "p-1";
  kind = ParticipantKind.review;
  comment = none;
}

abbrev approval_command : Option String → ParticipantCommand
approval_command completion = record {
  command = order (person "director" ("POSITION_LAB_DIRECTOR" ∷ [])) 3 completion;
  step_id = "step-2";
  participant_id = "p-2";
  kind = ParticipantKind.approve;
  comment = none;
}

abbrev drafted : ApprovalInstanceSnapshot
drafted = create "instance" "author"

abbrev submitted_one : ApprovalInstanceSnapshot
submitted_one = (run drafted submitting).0

abbrev started : ApprovalInstanceSnapshot
started = (run submitted_one activating).0

abbrev reviewed_one : ApprovalInstanceSnapshot
reviewed_one = (run started (Call.act review_command)).0

abbrev completed_one : ApprovalInstanceSnapshot
completed_one = (run reviewed_one (Call.act (approval_command (some "event-2")))).0

abbrev left_complete : ApprovalInstanceSnapshot
left_complete = (run reviewed_one (Call.act (approval_command none))).0

submitting_ok : is_ok (run drafted submitting).1 ≡ true
unfolding engine
submitting_ok = refl

started_state : started.state ≡ ApprovalState.in_progress
unfolding engine
started_state = refl

reviewing_ok : is_ok (run started (Call.act review_command)).1 ≡ true
unfolding engine
reviewing_ok = refl

completed_state : completed_one.state ≡ ApprovalState.completed
unfolding engine
completed_state = refl

left_fails :
    (run reviewed_one (Call.act (approval_command none))).1
    ≡ err "APPROVAL_COMPLETION_EVENT_ID_REQUIRED"
unfolding engine
left_fails = refl

Reach-submitted : Reach submitted_one
Reach-submitted = Reach.called submitting (Reach.created "instance" "author")

Reach-started : Reach started
Reach-started = Reach.called activating Reach-submitted

Reach-reviewed : Reach reviewed_one
Reach-reviewed = Reach.called (Call.act review_command) Reach-started

Reach-completed : Reach completed_one
Reach-completed = Reach.called (Call.act (approval_command (some "event-2"))) Reach-reviewed

Reach-Inv_example : Inv completed_one
Reach-Inv_example = Reach-Inv Reach-completed

abbrev review_step : ApprovalRuntimeStep
review_step = record {
  step_id = "step-1";
  rule_id = "rule-1";
  sequence_no = 1;
  role = ApprovalRole.review;
  completion_mode = CompletionMode.sequential;
  required = true;
  participants =
      record {
        resolved = member "p-1" "reviewer" "POSITION_RESEARCHER";
        state = ParticipantState.active;
      }
      ∷ [];
  state = ApprovalStepState.active;
}

abbrev approval_step : ApprovalRuntimeStep
approval_step = record {
  step_id = "step-2";
  rule_id = "rule-2";
  sequence_no = 2;
  role = ApprovalRole.approval;
  completion_mode = CompletionMode.sequential;
  required = true;
  participants =
      record {
        resolved = member "p-2" "director" "POSITION_LAB_DIRECTOR";
        state = ParticipantState.pending;
      }
      ∷ [];
  state = ApprovalStepState.waiting;
}

started_steps : started.steps ≡ review_step ∷ approval_step ∷ []
unfolding engine
started_steps = refl

review_step_in : Memᴰ review_step started.steps
review_step_in = rw started_steps (Memᴰ.head {xs = approval_step ∷ []} refl)

approval_step_in : Memᴰ approval_step started.steps
approval_step_in = rw started_steps (Memᴰ.tail (Memᴰ.head {xs = []} refl))

active_before_waiting_example : review_step.sequence_no < approval_step.sequence_no
active_before_waiting_example =
    active_before_waiting review_step approval_step Reach-started review_step_in approval_step_in
      refl refl

reviewing_mutation :
    (run started (Call.act review_command)).1
    ≡ ok (from_ok (run started (Call.act review_command)).1 reviewing_ok)
reviewing_mutation = from_ok_lem (run started (Call.act review_command)).1 reviewing_ok

run-Describes_example :
    Describes started reviewed_one (from_ok (run started (Call.act review_command)).1 reviewing_ok)
run-Describes_example = run-Describes started (Call.act review_command) reviewing_mutation

run_failure_example :
    (left_complete ≡ reviewed_one)
    ⊎ LeftComplete reviewed_one left_complete
        (command_of (Call.act (approval_command none)))
        "APPROVAL_COMPLETION_EVENT_ID_REQUIRED"
run_failure_example = run_failure reviewed_one (Call.act (approval_command none)) left_fails

run_terminal_example : (code : String) × (run completed_one submitting ≡ (completed_one, err code))
run_terminal_example = run_terminal completed_one submitting (inl completed_state)

-- The director's own approval, as `guardActor` sees it.
abbrev director : ApprovalActorSnapshot
director = person "director" ("POSITION_LAB_DIRECTOR" ∷ [])

abbrev director_participant : ApprovalRuntimeParticipant
director_participant = record {
  resolved = member "p-2" "director" "POSITION_LAB_DIRECTOR";
  state = ParticipantState.active;
}

director_accepted :
    guard_actor director director_participant ApprovalActionKind.approve "2026-03-01T00:00:00.000Z"
    ≡ ok tt
unfolding engine
director_accepted = refl

guard_actor_iff_example :
    (guard_actor director director_participant ApprovalActionKind.approve "2026-03-01T00:00:00.000Z"
      ≡ ok tt)
    ↔ MayAct director director_participant ApprovalActionKind.approve "2026-03-01T00:00:00.000Z"
guard_actor_iff_example =
    guard_actor_iff director director_participant ApprovalActionKind.approve
      "2026-03-01T00:00:00.000Z"

acting_ok : is_ok (act started review_command).1 ≡ true
unfolding engine
acting_ok = refl

act_authorized_example :
    (s : ApprovalRuntimeStep) × (p : ApprovalRuntimeParticipant) × ActReady started review_command s
      p
    × MayAct review_command.command.actor p
        (action_kind review_command.kind)
        review_command.command.at
act_authorized_example =
    act_authorized started review_command (from_ok_lem (act started review_command).1 acting_ok)

line_valid : validate_resolved_line policy line_of_two ≡ ok tt
unfolding engine
line_valid = refl

validate_resolved_line_sound_example :
    (length line_of_two ≡ length policy.steps) × All (IsResolved line_of_two) policy.steps
validate_resolved_line_sound_example = validate_resolved_line_sound policy line_of_two line_valid
