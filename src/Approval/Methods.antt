-- ===== src/Approval/Methods.antt =====
-- packages/core/approval/src/domain/approval.ts: the public methods of `ApprovalInstance`.
use youone_rnd.Shared.{
  ◌+◌, Bool, true, false, not, ◌&&◌, ◌||◌, Option, none, some, List, [], ◌∷◌, map, Result, ok,
  ◌>>=◌, ◌>>◌, fail_if, present, ◌==◌, if◌then◌else◌, find, str_eq, before, truthy,
}
use youone_rnd.Kernel.{Uuid, UtcInstant}
use youone_rnd.Approval.Types.{
  ApprovalState, ApprovalStepState, ParticipantState, ApprovalRole, ParticipantKind,
  ApprovalActionKind, SubjectKind, ApprovalSubjectSnapshot, ApprovalPolicySelectionInput,
  ApprovalPolicyVersion, ResolvedStep, ApprovalRuntimeParticipant, ApprovalRuntimeStep,
  ApprovalInstanceSnapshot, ApprovalMutation, ApprovalCommand, ApprovalSubmissionSnapshot,
  ParticipantCommand, RejectCommand, same_participant_state, same_kind, same_subject,
}
use youone_rnd.Approval.Policy.{
  normalize_policy, policy_matches, validate_resolved_line,
  validate_research_project_designation_policy,
}
use youone_rnd.Approval.Authority.{guard, guard_direct_submitter, guard_actor, is_system_actor}
use youone_rnd.Approval.Steps.{
  update_first, is_active, with_state, complete_participant, step_complete, settle_step,
  cancel_step, recall_step, start_step,
}
use youone_rnd.Approval.Instance.{
  attempt, ActionInput, plain, record_action, activate_next, activation_fuel,
}

-- A resubmission that carries the subject version and checksum that were turned down.
abbrev pub resubmits_same : Option ApprovalSubjectSnapshot → ApprovalSubjectSnapshot → Bool
resubmits_same none subject = false
resubmits_same (some prior) subject =
    prior.subject_version == subject.subject_version && str_eq prior.checksum subject.checksum

-- `end && at >= end`
abbrev pub is_over : Option UtcInstant → UtcInstant → Bool
is_over none at = false
is_over (some end) at = truthy (some end) && not (before at end)

abbrev pub is_research : SubjectKind → Bool
is_research kind = same_subject kind SubjectKind.research_project_application

abbrev pub designation_checks :
    SubjectKind → ApprovalPolicyVersion → List ResolvedStep → Result (Unit {0})
designation_checks kind policy line =
    if is_research kind then validate_research_project_designation_policy policy line else ok tt

-- The checks of `submit`; the result is the normalised policy.
unfoldable pub submit_checks :
    ApprovalInstanceSnapshot
    → ApprovalCommand
    → ApprovalSubjectSnapshot
    → ApprovalPolicyVersion
    → List ResolvedStep
    → ApprovalPolicySelectionInput
    → Result ApprovalPolicyVersion
submit_checks value command subject policy_input line selection_input = do
  guard value command.expected_version (ApprovalState.draft ∷ [])
  guard_direct_submitter value command.actor
  fail_if (resubmits_same value.resubmission_of_subject subject)
      "APPROVAL_RESUBMISSION_EXACT_VERSION_REQUIRED"
  policy ← normalize_policy policy_input
  fail_if (before command.at policy.effective_from || is_over policy.effective_to command.at)
      "APPROVAL_POLICY_NOT_EFFECTIVE"
  matches ← policy_matches policy selection_input subject.subject.kind
  fail_if (not matches) "APPROVAL_POLICY_SELECTION_MISMATCH"
  validate_resolved_line policy line
  designation_checks subject.subject.kind policy line
  ok policy

-- The value that `submit` records: the line becomes the waiting steps.
abbrev pub submitted_value :
    ApprovalInstanceSnapshot
    → ApprovalCommand
    → ApprovalSubjectSnapshot
    → ApprovalPolicyVersion
    → List ResolvedStep
    → ApprovalPolicySelectionInput
    → ApprovalInstanceSnapshot
submitted_value value command subject policy line selection_input = record value {
  submission = some (record {
    submitted_at = command.at;
    submitted_by = command.actor;
    subject = subject;
    policy = policy;
    policy_selection_input = selection_input;
    line = line;
  });
  state = ApprovalState.submitted;
  steps = map start_step line;
  version = value.version + 1;
}

unfoldable pub submit :
    ApprovalInstanceSnapshot
    → ApprovalCommand
    → ApprovalSubjectSnapshot
    → ApprovalPolicyVersion
    → List ResolvedStep
    → ApprovalPolicySelectionInput
    → ApprovalInstanceSnapshot × Result ApprovalMutation
submit value command subject policy_input line selection_input =
    attempt (submit_checks value command subject policy_input line selection_input) value (λ policy.
      record_action (submitted_value value command subject policy line selection_input) command
        (plain ApprovalActionKind.submit))

unfoldable pub system_checks :
    ApprovalInstanceSnapshot → ApprovalCommand → ApprovalState → Result (Unit {0})
system_checks value command state = do
  guard value command.expected_version (state ∷ [])
  fail_if (not (is_system_actor command.actor)) "APPROVAL_SYSTEM_ACTOR_REQUIRED"

abbrev pub started_value : ApprovalInstanceSnapshot → ApprovalInstanceSnapshot
started_value value = record value {
  state = ApprovalState.in_progress;
  version = value.version + 1;
}

unfoldable pub activate :
    ApprovalInstanceSnapshot → ApprovalCommand → ApprovalInstanceSnapshot × Result ApprovalMutation
activate value command = attempt (system_checks value command ApprovalState.submitted) value (λ _.
    record_action (activate_next (activation_fuel (started_value value)) (started_value value))
      command (plain ApprovalActionKind.activate))

-- `step`, and the search for the participant; both must be active.
unfoldable pub active_participant :
    ApprovalInstanceSnapshot
    → Uuid
    → Uuid
    → Result (ApprovalRuntimeStep × ApprovalRuntimeParticipant)
active_participant value step_id participant_id = do
  step ← present (find (λ s. str_eq s.step_id step_id) value.steps) "APPROVAL_STEP_NOT_FOUND"
  participant ←
      present (find (λ p. str_eq p.participant_id participant_id) step.participants)
        "APPROVAL_PARTICIPANT_NOT_ACTIVE"
  fail_if
      (not (is_active step)
        || not (same_participant_state participant.state ParticipantState.active))
      "APPROVAL_PARTICIPANT_NOT_ACTIVE"
  ok (step, participant)

abbrev pub expected_kind : ApprovalRole → ParticipantKind
expected_kind ApprovalRole.review = ParticipantKind.review
expected_kind ApprovalRole.agreement = ParticipantKind.agree
expected_kind ApprovalRole.approval = ParticipantKind.approve
expected_kind ApprovalRole.reference = ParticipantKind.reference_receipt

abbrev pub action_kind : ParticipantKind → ApprovalActionKind
action_kind ParticipantKind.review = ApprovalActionKind.review
action_kind ParticipantKind.agree = ApprovalActionKind.agree
action_kind ParticipantKind.approve = ApprovalActionKind.approve
action_kind ParticipantKind.reference_receipt = ApprovalActionKind.reference_receipt

unfoldable pub act_checks :
    ApprovalInstanceSnapshot
    → ParticipantCommand
    → Result (ApprovalRuntimeStep × ApprovalRuntimeParticipant)
act_checks value c = do
  guard value c.command.expected_version (ApprovalState.in_progress ∷ [])
  (step, participant) ← active_participant value c.step_id c.participant_id
  fail_if (not (same_kind c.kind (expected_kind step.role))) "APPROVAL_ACTION_ROLE_MISMATCH"
  guard_actor c.command.actor participant (action_kind c.kind) c.command.at
  ok (step, participant)

-- The value after the changes of `act` in its step: `activateNext` runs only where the step is done.
unfoldable pub advance :
    ApprovalInstanceSnapshot → Uuid → ApprovalRuntimeStep → ApprovalInstanceSnapshot
advance value step_id step =
    let settled = settle_step step in
    let moved = record value {
      steps = update_first (λ s. str_eq s.step_id step_id) (λ _. settled) value.steps;
    } in
    if step_complete step then activate_next (activation_fuel moved) moved else moved

-- The value that `act` records.
abbrev pub acted_value :
    ApprovalInstanceSnapshot → ParticipantCommand → ApprovalRuntimeStep → ApprovalInstanceSnapshot
acted_value value c step =
    let advanced = advance value c.step_id (complete_participant c.participant_id step) in
    record advanced { version = value.version + 1 }

abbrev pub acted_input :
    ParticipantCommand → ApprovalRuntimeStep → ApprovalRuntimeParticipant → ActionInput
acted_input c step participant = record {
  kind = action_kind c.kind;
  step_id = some step.step_id;
  participant_id = some participant.participant_id;
  reason_code = none;
  comment = c.comment;
}

unfoldable pub act :
    ApprovalInstanceSnapshot
    → ParticipantCommand
    → ApprovalInstanceSnapshot × Result ApprovalMutation
act value c = attempt (act_checks value c) value (λ (step, participant).
    record_action (acted_value value c step) c.command (acted_input c step participant))

unfoldable pub reject_checks :
    ApprovalInstanceSnapshot
    → RejectCommand
    → Result (ApprovalRuntimeStep × ApprovalRuntimeParticipant)
reject_checks value c = do
  guard value c.command.expected_version (ApprovalState.in_progress ∷ [])
  (step, participant) ← active_participant value c.step_id c.participant_id
  guard_actor c.command.actor participant ApprovalActionKind.reject c.command.at
  ok (step, participant)

unfoldable pub reject_step : Uuid → ApprovalRuntimeStep → ApprovalRuntimeStep
reject_step id step = record step {
  state = ApprovalStepState.rejected;
  participants =
      update_first (λ p. str_eq p.participant_id id) (with_state ParticipantState.completed)
        step.participants;
}

abbrev pub rejected_value : ApprovalInstanceSnapshot → RejectCommand → ApprovalInstanceSnapshot
rejected_value value c = record value {
  steps =
      map cancel_step
        (update_first (λ s. str_eq s.step_id c.step_id) (reject_step c.participant_id) value.steps);
  state = ApprovalState.rejected;
  version = value.version + 1;
}

abbrev pub rejected_input :
    RejectCommand → ApprovalRuntimeStep → ApprovalRuntimeParticipant → ActionInput
rejected_input c step participant = record {
  kind = ApprovalActionKind.reject;
  step_id = some step.step_id;
  participant_id = some participant.participant_id;
  reason_code = some c.reason_code;
  comment = c.comment;
}

unfoldable pub reject :
    ApprovalInstanceSnapshot → RejectCommand → ApprovalInstanceSnapshot × Result ApprovalMutation
reject value c = attempt (reject_checks value c) value (λ (step, participant).
    record_action (rejected_value value c) c.command (rejected_input c step participant))

abbrev pub recall_allowed : Option ApprovalSubmissionSnapshot → Bool
recall_allowed none = false
recall_allowed (some submission) = submission.policy.recall_allowed

unfoldable pub recall_checks : ApprovalInstanceSnapshot → ApprovalCommand → Result (Unit {0})
recall_checks value command = do
  guard value command.expected_version (ApprovalState.submitted ∷ ApprovalState.in_progress ∷ [])
  fail_if (not (recall_allowed value.submission)) "APPROVAL_RECALL_POLICY_FORBIDDEN"
  guard_direct_submitter value command.actor

abbrev pub moved_value : ApprovalInstanceSnapshot → ApprovalState → ApprovalInstanceSnapshot
moved_value value state = record value { state = state; version = value.version + 1 }

unfoldable pub request_recall :
    ApprovalInstanceSnapshot → ApprovalCommand → ApprovalInstanceSnapshot × Result ApprovalMutation
request_recall value command = attempt (recall_checks value command) value (λ _.
    record_action (moved_value value ApprovalState.recall_requested) command
      (plain ApprovalActionKind.request_recall))

abbrev pub recalled_value : ApprovalInstanceSnapshot → ApprovalInstanceSnapshot
recalled_value value = record value {
  steps = map recall_step value.steps;
  state = ApprovalState.recalled;
  version = value.version + 1;
}

unfoldable pub confirm_recall :
    ApprovalInstanceSnapshot → ApprovalCommand → ApprovalInstanceSnapshot × Result ApprovalMutation
confirm_recall value command =
    attempt (system_checks value command ApprovalState.recall_requested) value
      (λ _. record_action (recalled_value value) command (plain ApprovalActionKind.recall))

unfoldable pub cancel_checks : ApprovalInstanceSnapshot → ApprovalCommand → Result (Unit {0})
cancel_checks value command = do
  guard value command.expected_version
      (ApprovalState.draft ∷ ApprovalState.rejected ∷ ApprovalState.recalled ∷ [])
  guard_direct_submitter value command.actor

unfoldable pub cancel :
    ApprovalInstanceSnapshot → ApprovalCommand → ApprovalInstanceSnapshot × Result ApprovalMutation
cancel value command = attempt (cancel_checks value command) value (λ _.
    record_action (moved_value value ApprovalState.cancelled) command
      (plain ApprovalActionKind.cancel))

abbrev pub may_resubmit : ApprovalState → Bool
may_resubmit ApprovalState.rejected = true
may_resubmit ApprovalState.recalled = true
may_resubmit _ = false

abbrev pub prior_subject : Option ApprovalSubmissionSnapshot → Option ApprovalSubjectSnapshot
prior_subject none = none
prior_subject (some submission) = some submission.subject

unfoldable pub create_resubmission :
    ApprovalInstanceSnapshot → Uuid → Uuid → Result ApprovalInstanceSnapshot
create_resubmission value approval_instance_id submitter_user_id = do
  fail_if (not (may_resubmit value.state)) "APPROVAL_RESUBMISSION_FORBIDDEN"
  prior ← present (prior_subject value.submission) "APPROVAL_RESUBMISSION_SUBJECT_MISSING"
  ok (record {
    approval_instance_id = approval_instance_id;
    generation = value.generation + 1;
    previous_instance_id = some value.approval_instance_id;
    submitter_user_id = submitter_user_id;
    state = ApprovalState.draft;
    version = 0;
    resubmission_of_subject = some prior;
    submission = none;
    steps = [];
    actions = [];
  })
