-- ===== src/Inspection/Machine.antt =====
-- packages/features/quality/src/domain/inspection.ts: the class `Inspection`. A method takes the value
-- of the object and returns the value that it leaves behind beside its result, since it assigns the
-- value before `transition` can still throw.
use youone_rnd.Shared.{
  ℕ, Bool, true, false, not, ◌&&◌, ◌||◌, Option, none, some, List, String, Result, ok, err, ◌>>◌,
  fail_if, ◌==◌, any, str_eq, opt_eq, includes, if◌then◌else◌,
}
use youone_rnd.Kernel.{Uuid, UtcInstant, StableCode, Version, next_version}
use youone_rnd.Inspection.Types.{
  InspectionState, InspectionActorKind, InspectionActorSnapshot, InspectionSnapshot,
  InspectionAttemptSnapshot,
}

pub record InspectionCommand : Type 0 where
  pub actor : InspectionActorSnapshot
  pub at : UtcInstant
  pub expected_version : Version
  pub event_id : Uuid
  pub correlation_id : String
  pub idempotency_key : String
  pub reason : Option String

pub record InspectionEvent : Type 0 where
  pub event_id : Uuid
  pub event_type : StableCode
  pub machine_id : String
  pub aggregate_id : Uuid
  pub aggregate_version : Version
  pub occurred_at : UtcInstant
  pub correlation_id : String
  pub idempotency_key : String

pub record InspectionAudit : Type 0 where
  pub action_id : StableCode
  pub actor : InspectionActorSnapshot
  pub inspection_id : Uuid
  pub occurred_at : UtcInstant
  pub correlation_id : String
  pub reason : Option String

pub record InspectionMutation : Type 0 where
  pub expected_version : Version
  pub snapshot : InspectionSnapshot
  pub immutable_attempt : Option InspectionAttemptSnapshot
  pub event : InspectionEvent
  pub audit : InspectionAudit

-- A text that is there and is not empty, as `if (text)` tests.
abbrev pub is_given : Option String → Bool
is_given none = false
is_given (some text) = not (str_eq text "")

abbrev pub given : Option String → Option String
given text = elim (is_given text) [ true ↦ text | false ↦ none ]

-- `text ?? ""`
abbrev pub or_blank : Option String → String
or_blank none = ""
or_blank (some text) = text

abbrev pub state_number : InspectionState → ℕ
state_number InspectionState.requested = 0
state_number InspectionState.scheduled = 1
state_number InspectionState.in_progress = 2
state_number InspectionState.decision_pending = 3
state_number InspectionState.correction_required = 4
state_number InspectionState.reinspection_pending = 5
state_number InspectionState.completed = 6
state_number InspectionState.cancelled = 7

-- `===` on states.
abbrev pub same_inspection_state : InspectionState → InspectionState → Bool
same_inspection_state a b = state_number a == state_number b

abbrev pub is_internal_kind : InspectionActorKind → Bool
is_internal_kind InspectionActorKind.internal = true
is_internal_kind _ = false

abbrev pub is_vendor_kind : InspectionActorKind → Bool
is_vendor_kind InspectionActorKind.vendor = true
is_vendor_kind _ = false

unfoldable pub inspection_guard :
    InspectionSnapshot → InspectionCommand → List InspectionState → Result (Unit {0})
inspection_guard value command states = do
  fail_if (not (command.expected_version == value.version)) "INSPECTION_STALE_VERSION"
  fail_if (not (any (λ state. same_inspection_state state value.state) states))
      "INSPECTION_STATE_INVALID"
  fail_if (not command.actor.active) "INSPECTION_ACTOR_INACTIVE"

unfoldable pub require_internal : InspectionActorSnapshot → String → Result (Unit {0})
require_internal actor authority =
    fail_if
      (not (is_internal_kind actor.actor_kind)
        || not (is_given actor.user_id)
        || not (includes actor.authorities authority))
      "INSPECTION_INTERNAL_AUTHORITY_REQUIRED"

unfoldable pub require_internal_decider : InspectionActorSnapshot → Result (Unit {0})
require_internal_decider actor =
    fail_if
      (not (is_internal_kind actor.actor_kind)
        || not (is_given actor.user_id)
        || not (includes actor.authorities "INSPECTION_DECIDER")
          && not (includes actor.authorities "DIRECTOR"))
      "INSPECTION_INTERNAL_DECIDER_REQUIRED"

abbrev pub is_number : ℕ → Option ℕ → Bool
is_number n none = false
is_number n (some m) = n == m

unfoldable pub require_exact_attempt :
    InspectionSnapshot → InspectionAttemptSnapshot → Result (Unit {0})
require_exact_attempt value attempt =
    fail_if
      (not (str_eq attempt.inspection_id value.inspection_id)
        || not (opt_eq (some attempt.inspection_attempt_id) value.open_attempt_id)
        || not (is_number attempt.attempt_no value.open_attempt_no)
        || not
            (str_eq attempt.inspection_checklist_version_id value.inspection_checklist_version_id)
        || not (str_eq attempt.contract_id value.contract_id)
        || not (str_eq attempt.contract_milestone_id value.contract_milestone_id)
        || not (str_eq attempt.deliverable_id value.deliverable_id)
        || not (str_eq attempt.deliverable_version_id value.deliverable_version_id))
      "INSPECTION_ATTEMPT_SUBJECT_MISMATCH"

unfoldable pub require_latest_attempt :
    InspectionSnapshot → InspectionAttemptSnapshot → Result (Unit {0})
require_latest_attempt value attempt =
    fail_if
      (not (str_eq attempt.inspection_id value.inspection_id)
        || not (opt_eq (some attempt.inspection_attempt_id) value.latest_sealed_attempt_id)
        || not (attempt.attempt_no == value.latest_attempt_no))
      "INSPECTION_ATTEMPT_NOT_LATEST"

-- `requireRequester`, of the contract and the assigned vendor of the subject.
unfoldable pub require_requester : Uuid → Uuid → InspectionActorSnapshot → Result (Unit {0})
require_requester contract_id assigned_vendor_id actor = do
  fail_if (not actor.active) "INSPECTION_ACTOR_INACTIVE"
  (if is_vendor_kind actor.actor_kind
      then fail_if
          (not (is_given actor.user_id)
            || not (opt_eq actor.vendor_id (some assigned_vendor_id))
            || not (is_given actor.contract_scope_id)
            || not (opt_eq actor.contract_scope_contract_id (some contract_id)))
          "INSPECTION_VENDOR_SCOPE_REQUIRED"
      else fail_if (not (is_internal_kind actor.actor_kind) || not (is_given actor.user_id))
          "INSPECTION_REQUESTER_INVALID")

unfoldable pub inspection_mutation :
    InspectionSnapshot
    → InspectionCommand
    → Version
    → String
    → Option InspectionAttemptSnapshot
    → InspectionMutation
inspection_mutation snapshot command expected_version event_type immutable_attempt = record {
  expected_version = expected_version;
  snapshot = snapshot;
  immutable_attempt = immutable_attempt;
  event = record {
    event_id = command.event_id;
    event_type = event_type;
    machine_id = "SM-INSPECTION-V1";
    aggregate_id = snapshot.inspection_id;
    aggregate_version = snapshot.version;
    occurred_at = command.at;
    correlation_id = command.correlation_id;
    idempotency_key = command.idempotency_key;
  };
  audit = record {
    action_id = event_type;
    actor = command.actor;
    inspection_id = snapshot.inspection_id;
    occurred_at = command.at;
    correlation_id = command.correlation_id;
    reason = given command.reason;
  };
}

-- What a method leaves behind, and its result.
abbrev pub Outcome : Type 0
Outcome = InspectionSnapshot × Result InspectionMutation

abbrev pub inspection_moved :
    InspectionSnapshot
    → InspectionCommand
    → InspectionState
    → String
    → Option InspectionAttemptSnapshot
    → Result Version
    → Outcome
inspection_moved value command state event_type immutable_attempt (err code) = (value, err code)
inspection_moved value command state event_type immutable_attempt (ok next) =
    let after = record value { state = state; version = next; updated_at = command.at } in
    (after, ok (inspection_mutation after command value.version event_type immutable_attempt))

unfoldable pub transition :
    InspectionSnapshot
    → InspectionCommand
    → InspectionState
    → String
    → Option InspectionAttemptSnapshot
    → Outcome
transition value command state event_type immutable_attempt =
    inspection_moved value command state event_type immutable_attempt (next_version value.version)

-- The checks at the start of a method, and what it does behind them.
abbrev pub behind : Result (Unit {0}) → InspectionSnapshot → Outcome → Outcome
behind (err code) value rest = (value, err code)
behind (ok tt) value rest = rest
