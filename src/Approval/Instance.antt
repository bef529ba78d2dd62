-- ===== src/Approval/Instance.antt =====
-- packages/core/approval/src/domain/approval.ts: the class `ApprovalInstance`. A method takes the
-- private `value` and returns the new one with its result, since a method that throws may already
-- have changed it.
use youone_rnd.Shared.{
  ℕ, zero, suc, Bool, true, false, Option, none, some, List, [], ◌∷◌, ◌++◌, map, String, Result, ok,
  err, ◌>>=◌, present, if◌then◌else◌, length, any, filter,
}
use youone_rnd.Kernel.{Uuid, StableCode}
use youone_rnd.Approval.Types.{
  ApprovalState, ApprovalActionKind, ApprovalAction, ApprovalInstanceSnapshot, ApprovalPayload,
  ApprovalDomainEvent, ApprovalMutation, ApprovalCommand,
}
use youone_rnd.Approval.Steps.{minimum, is_waiting, is_active, activate_at}

-- Checks that change nothing, and then the part that changes the value.
abbrev pub attempt {ℓ} :
    {A : Type ℓ}
    → Result A
    → ApprovalInstanceSnapshot
    → (A → ApprovalInstanceSnapshot × Result ApprovalMutation)
    → ApprovalInstanceSnapshot × Result ApprovalMutation
attempt (err code) value k = (value, err code)
attempt (ok a) value k = k a

-- The part of an action that its method supplies.
pub record ActionInput : Type 0 where
  pub kind : ApprovalActionKind
  pub step_id : Option Uuid
  pub participant_id : Option Uuid
  pub reason_code : Option StableCode
  pub comment : Option String

abbrev pub plain : ApprovalActionKind → ActionInput
plain kind = record {
  kind = kind;
  step_id = none;
  participant_id = none;
  reason_code = none;
  comment = none;
}

-- `mapping[eventType]`, by the action's kind.
unfoldable pub emitted_type : ApprovalActionKind → StableCode
emitted_type ApprovalActionKind.submit = "EVT-APPROVAL-SUBMITTED"
emitted_type ApprovalActionKind.activate = "EVT-APPROVAL-ACTIVATED"
emitted_type ApprovalActionKind.review = "EVT-APPROVAL-REVIEWED"
emitted_type ApprovalActionKind.agree = "EVT-APPROVAL-AGREED"
emitted_type ApprovalActionKind.approve = "EVT-APPROVAL-APPROVED"
emitted_type ApprovalActionKind.reference_receipt = "EVT-APPROVAL-REFERENCE-RECEIVED"
emitted_type ApprovalActionKind.reject = "EVT-APPROVAL-REJECTED"
emitted_type ApprovalActionKind.request_recall = "EVT-APPROVAL-RECALL-REQUESTED"
emitted_type ApprovalActionKind.recall = "EVT-APPROVAL-RECALLED"
emitted_type ApprovalActionKind.cancel = "EVT-APPROVAL-CANCELLED"
emitted_type ApprovalActionKind.complete = "EVT-APPROVAL-COMPLETED"

abbrev pub is_complete_state : ApprovalState → Bool
is_complete_state ApprovalState.completed = true
is_complete_state _ = false

unfoldable pub action_of : ApprovalCommand → ActionInput → ApprovalAction
action_of command input = record {
  action_id = command.action_id;
  kind = input.kind;
  at = command.at;
  actor = command.actor;
  step_id = input.step_id;
  participant_id = input.participant_id;
  reason_code = input.reason_code;
  comment = input.comment;
}

unfoldable pub payload_of : ApprovalInstanceSnapshot → ApprovalCommand → ApprovalPayload
payload_of value command = record {
  machine_id = "SM-APPROVAL-V1";
  state = value.state;
  generation = value.generation;
  action_id = command.action_id;
}

unfoldable pub event_of :
    ApprovalInstanceSnapshot → ApprovalCommand → ApprovalActionKind → ApprovalDomainEvent
event_of value command kind = record {
  event_id = command.event_id;
  event_type = emitted_type kind;
  aggregate_id = value.approval_instance_id;
  aggregate_version = value.version;
  occurred_at = command.at;
  correlation_id = command.correlation_id;
  idempotency_key = command.idempotency_key;
  payload = payload_of value command;
}

-- The events of a mutation: its own, and the completion's where the instance is complete.
unfoldable pub events_of :
    ApprovalInstanceSnapshot
    → ApprovalCommand
    → ApprovalActionKind
    → Result (List ApprovalDomainEvent)
events_of value command kind =
    let event = event_of value command kind in
    if is_complete_state value.state
    then (do
      id ← present command.completion_event_id "APPROVAL_COMPLETION_EVENT_ID_REQUIRED"
      ok (event ∷ record event { event_id = id; event_type = "EVT-APPROVAL-COMPLETED" } ∷ []))
    else ok (event ∷ [])

-- `record`: the action is appended to the value before the events are built.
unfoldable pub record_action :
    ApprovalInstanceSnapshot
    → ApprovalCommand
    → ActionInput
    → ApprovalInstanceSnapshot × Result ApprovalMutation
record_action value command input =
    let action = action_of command input in
    let recorded = record value { actions = value.actions ++ action ∷ [] } in
    attempt (events_of recorded command input.kind) recorded (λ events. (
      recorded,
      ok (record {
        expected_version = command.expected_version;
        instance_snapshot = recorded;
        appended_action = action;
        events = events;
        audit = record {
          event_type = emitted_type input.kind;
          actor = command.actor;
          aggregate_id = recorded.approval_instance_id;
          action_id = action.action_id;
          occurred_at = command.at;
          correlation_id = command.correlation_id;
          metadata = payload_of recorded command;
        };
      }),
    ))

abbrev pub create : Uuid → Uuid → ApprovalInstanceSnapshot
create approval_instance_id submitter_user_id = record {
  approval_instance_id = approval_instance_id;
  generation = 1;
  previous_instance_id = none;
  submitter_user_id = submitter_user_id;
  state = ApprovalState.draft;
  version = 0;
  resubmission_of_subject = none;
  submission = none;
  steps = [];
  actions = [];
}

-- `activateNext`, with fuel for its recursion.
unfoldable pub activate_next : ℕ → ApprovalInstanceSnapshot → ApprovalInstanceSnapshot
activate_next zero value = value
activate_next (suc fuel) value =
    if any is_active value.steps
    then value
    else elim (minimum (map (λ s. s.sequence_no) (filter is_waiting value.steps))) [
      | none ↦ record value { state = ApprovalState.completed }
      | some seq ↦
          let next = record value { steps = map (activate_at seq) value.steps } in
          let again = activate_next fuel next in if any is_active next.steps then next else again
    ]

-- Enough fuel: each round takes at least one step out of the waiting ones.
abbrev pub activation_fuel : ApprovalInstanceSnapshot → ℕ
activation_fuel value = suc (length value.steps)
