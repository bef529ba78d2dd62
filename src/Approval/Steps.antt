-- ===== src/Approval/Steps.antt =====
-- packages/core/approval/src/domain/approval.ts: the runtime steps (`stepComplete`, `activateNext`,
-- and the changes that `act`, `reject` and `confirmRecall` make in them). The source changes steps
-- and participants in place; here each change is a function of the list.
use youone_rnd.Shared.{
  ℕ, Bool, true, not, ◌&&◌, ◌||◌, Option, none, some, List, [], ◌∷◌, map, leb, ◌==◌, if◌then◌else◌,
  length, filter, str_eq,
}
use youone_rnd.Kernel.{Uuid}
use youone_rnd.Approval.Types.{
  ApprovalStepState, ParticipantState, ApprovalRole, CompletionMode, ResolvedParticipant,
  ResolvedStep, ApprovalRuntimeParticipant, ApprovalRuntimeStep, same_step_state,
  same_participant_state, same_mode,
}

-- Changes the first element that passes the test, as an assignment through `find` does.
unfoldable pub update_first {ℓ} : {A : Type ℓ} → (A → Bool) → (A → A) → List A → List A
update_first p f [] = []
update_first p f (x ∷ xs) = if p x then f x ∷ xs else x ∷ update_first p f xs

abbrev pub smaller : ℕ → Option ℕ → ℕ
smaller n none = n
smaller n (some m) = if leb n m then n else m

-- `Math.min(...numbers)`, or nothing of an empty list.
unfoldable pub minimum : List ℕ → Option ℕ
minimum [] = none
minimum (n ∷ ns) = some (smaller n (minimum ns))

abbrev pub is_waiting : ApprovalRuntimeStep → Bool
is_waiting step = same_step_state step.state ApprovalStepState.waiting

abbrev pub is_active : ApprovalRuntimeStep → Bool
is_active step = same_step_state step.state ApprovalStepState.active

abbrev pub is_pending : ApprovalRuntimeParticipant → Bool
is_pending p = same_participant_state p.state ParticipantState.pending

abbrev pub is_completed : ApprovalRuntimeParticipant → Bool
is_completed p = same_participant_state p.state ParticipantState.completed

abbrev pub with_state : ParticipantState → ApprovalRuntimeParticipant → ApprovalRuntimeParticipant
with_state s p = record p { state = s }

-- `[...eligible].sort((a, b) => a.order - b.order)[0]`, made active: the first of least order.
unfoldable pub activate_first :
    (ApprovalRuntimeParticipant → Bool)
    → List ApprovalRuntimeParticipant
    → List ApprovalRuntimeParticipant
activate_first eligible ps = elim (minimum (map (λ p. p.order) (filter eligible ps))) [
  | none ↦ ps
  | some least ↦
      update_first (λ p. eligible p && p.order == least) (with_state ParticipantState.active) ps
]

-- Sets every participant that has not completed to CANCELLED.
abbrev pub cancel_open : ApprovalRuntimeParticipant → ApprovalRuntimeParticipant
cancel_open p = if is_completed p then p else with_state ParticipantState.cancelled p

-- `stepComplete`
unfoldable pub step_complete : ApprovalRuntimeStep → Bool
step_complete step =
    let done = length (filter is_completed step.participants) in
    if same_mode step.completion_mode CompletionMode.any_one
      || same_mode step.completion_mode CompletionMode.specific
    then leb 1 done
    else done == length step.participants

abbrev pub finished_state : ApprovalRole → ApprovalStepState
finished_state ApprovalRole.review = ApprovalStepState.reviewed
finished_state ApprovalRole.agreement = ApprovalStepState.agreed
finished_state ApprovalRole.approval = ApprovalStepState.approved
finished_state ApprovalRole.reference = ApprovalStepState.reviewed

-- What `act` does in the step: the participant completes, the others of an ANY_ONE step are
-- cancelled, and then the step is finished or hands over to its next participant.
unfoldable pub complete_participant : Uuid → ApprovalRuntimeStep → ApprovalRuntimeStep
complete_participant id step =
    let ps =
      update_first (λ p. str_eq p.participant_id id) (with_state ParticipantState.completed)
        step.participants in
    record step {
      participants =
          if same_mode step.completion_mode CompletionMode.any_one then map cancel_open ps else ps;
    }

unfoldable pub settle_step : ApprovalRuntimeStep → ApprovalRuntimeStep
settle_step step =
    if step_complete step
    then record step { state = finished_state step.role }
    else if same_mode step.completion_mode CompletionMode.sequential
    then record step { participants = activate_first is_pending step.participants }
    else step

-- One pending step of `activateNext`.
unfoldable pub activate_step : ApprovalRuntimeStep → ApprovalRuntimeStep
activate_step step =
    if not step.required && length step.participants == 0
    then record step { state = ApprovalStepState.skipped_by_policy }
    else record step {
      state = ApprovalStepState.active;
      participants =
          if same_mode step.completion_mode CompletionMode.sequential
          then activate_first (λ p. true) step.participants
          else map (with_state ParticipantState.active) step.participants;
    }

unfoldable pub activate_at : ℕ → ApprovalRuntimeStep → ApprovalRuntimeStep
activate_at seq step =
    if is_waiting step && step.sequence_no == seq then activate_step step else step

-- `reject` and `confirmRecall`, on the steps that are still open.
unfoldable pub cancel_step : ApprovalRuntimeStep → ApprovalRuntimeStep
cancel_step step =
    if is_waiting step || is_active step
    then record step {
      state = ApprovalStepState.cancelled;
      participants = map cancel_open step.participants;
    }
    else step

unfoldable pub recall_step : ApprovalRuntimeStep → ApprovalRuntimeStep
recall_step step =
    if is_waiting step || is_active step
    then record step { state = ApprovalStepState.cancelled }
    else step

abbrev pub start_participant : ResolvedParticipant → ApprovalRuntimeParticipant
start_participant p = record { resolved = p; state = ParticipantState.pending }

-- A resolved step as `submit` puts it into the instance.
abbrev pub start_step : ResolvedStep → ApprovalRuntimeStep
start_step s = record {
  step_id = s.step_id;
  rule_id = s.rule_id;
  sequence_no = s.sequence_no;
  role = s.role;
  completion_mode = s.completion_mode;
  required = s.required;
  participants = map start_participant s.participants;
  state = ApprovalStepState.waiting;
}
