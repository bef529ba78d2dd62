-- ===== src/Inspection/Graph.antt =====
-- packages/features/quality/src/domain/inspection.ts: the calls of an inspection as edges of its state
-- machine, and the fields that each sets.
use youone_rnd.Shared.{◌+◌, not, Option, none, some, List, [], ◌∷◌, String, Result, ◌>>◌, fail_if}
use youone_rnd.Kernel.{Uuid, UtcInstant}
use youone_rnd.Inspection.Types.{
  InspectionState, InspectionDisposition, InspectionSnapshot, InspectionAttemptSnapshot, need_text,
}
use youone_rnd.Inspection.Sealing.{is_rejected}
use youone_rnd.Inspection.Machine.{
  InspectionCommand, or_blank, require_internal, require_internal_decider, require_exact_attempt,
  require_latest_attempt, require_requester, Outcome,
}
use youone_rnd.Inspection.Methods.{
  schedule, start, submit_decision, accept, request_correction, reject, submit_correction,
  start_reinspection, cancel, is_acceptance, supports_correction,
}

-- The methods, with their arguments behind the command.
pub data InspectionCall : Type 0 where
  scheduling : (scheduled_at : UtcInstant) → InspectionCall
  starting : (inspection_attempt_id : Uuid) → InspectionCall
  submitting_decision : (attempt : InspectionAttemptSnapshot) → InspectionCall
  accepting : (attempt : InspectionAttemptSnapshot) → InspectionCall
  requesting_correction : (attempt : InspectionAttemptSnapshot) → InspectionCall
  rejecting : (attempt : InspectionAttemptSnapshot) → InspectionCall
  submitting_correction : (corrected_deliverable_version_id : Uuid) → InspectionCall
  starting_reinspection : (inspection_attempt_id : Uuid) → InspectionCall
  cancelling : InspectionCall

abbrev pub inspection_run : InspectionSnapshot → InspectionCommand → InspectionCall → Outcome
inspection_run v c (InspectionCall.scheduling at) = schedule v c at
inspection_run v c (InspectionCall.starting id) = start v c id
inspection_run v c (InspectionCall.submitting_decision attempt) = submit_decision v c attempt
inspection_run v c (InspectionCall.accepting attempt) = accept v c attempt
inspection_run v c (InspectionCall.requesting_correction attempt) = request_correction v c attempt
inspection_run v c (InspectionCall.rejecting attempt) = reject v c attempt
inspection_run v c (InspectionCall.submitting_correction id) = submit_correction v c id
inspection_run v c (InspectionCall.starting_reinspection id) = start_reinspection v c id
inspection_run v c InspectionCall.cancelling = cancel v c

-- The graph of the machine: the states a call leaves, the state it enters, its event.
abbrev pub sources : InspectionCall → List InspectionState
sources (InspectionCall.scheduling at) = InspectionState.requested ∷ []
sources (InspectionCall.starting id) = InspectionState.scheduled ∷ []
sources (InspectionCall.submitting_decision attempt) = InspectionState.in_progress ∷ []
sources (InspectionCall.accepting attempt) = InspectionState.decision_pending ∷ []
sources (InspectionCall.requesting_correction attempt) = InspectionState.decision_pending ∷ []
sources (InspectionCall.rejecting attempt) = InspectionState.decision_pending ∷ []
sources (InspectionCall.submitting_correction id) = InspectionState.correction_required ∷ []
sources (InspectionCall.starting_reinspection id) = InspectionState.reinspection_pending ∷ []
sources InspectionCall.cancelling = InspectionState.requested ∷ InspectionState.scheduled ∷ []

abbrev pub target : InspectionCall → InspectionState
target (InspectionCall.scheduling at) = InspectionState.scheduled
target (InspectionCall.starting id) = InspectionState.in_progress
target (InspectionCall.submitting_decision attempt) = InspectionState.decision_pending
target (InspectionCall.accepting attempt) = InspectionState.completed
target (InspectionCall.requesting_correction attempt) = InspectionState.correction_required
target (InspectionCall.rejecting attempt) = InspectionState.completed
target (InspectionCall.submitting_correction id) = InspectionState.reinspection_pending
target (InspectionCall.starting_reinspection id) = InspectionState.in_progress
target InspectionCall.cancelling = InspectionState.cancelled

abbrev pub call_event : InspectionCall → String
call_event (InspectionCall.scheduling at) = "EVT-INSPECTION-SCHEDULE"
call_event (InspectionCall.starting id) = "EVT-INSPECTION-START"
call_event (InspectionCall.submitting_decision attempt) = "EVT-INSPECTION-SUBMIT-DECISION"
call_event (InspectionCall.accepting attempt) = "EVT-INSPECTION-ACCEPT"
call_event (InspectionCall.requesting_correction attempt) = "EVT-INSPECTION-REQUEST-CORRECTION"
call_event (InspectionCall.rejecting attempt) = "EVT-INSPECTION-REJECT"
call_event (InspectionCall.submitting_correction id) = "EVT-INSPECTION-CORRECTION-SUBMITTED"
call_event (InspectionCall.starting_reinspection id) = "EVT-INSPECTION-REINSPECT"
call_event InspectionCall.cancelling = "EVT-INSPECTION-CANCEL"

abbrev pub attempt_of : InspectionCall → Option InspectionAttemptSnapshot
attempt_of (InspectionCall.submitting_decision attempt) = some attempt
attempt_of _ = none

-- The fields that a call sets besides the state, the version and the time.
abbrev pub edited : InspectionSnapshot → InspectionCall → InspectionSnapshot
edited v (InspectionCall.scheduling at) = record v { scheduled_at = some at }
edited v (InspectionCall.starting id) = record v {
  open_attempt_id = some id;
  open_attempt_no = some 1;
}
edited v (InspectionCall.submitting_decision attempt) = record v {
  latest_sealed_attempt_id = some attempt.inspection_attempt_id;
  latest_attempt_no = attempt.attempt_no;
  open_attempt_id = none;
  open_attempt_no = none;
}
edited v (InspectionCall.accepting attempt) = record v {
  final_disposition = some attempt.disposition;
}
edited v (InspectionCall.requesting_correction attempt) = record v {
  final_disposition = some InspectionDisposition.correction_requested;
}
edited v (InspectionCall.rejecting attempt) = record v {
  final_disposition = some InspectionDisposition.rejected;
}
edited v (InspectionCall.submitting_correction id) = record v {
  deliverable_version_id = id;
  final_disposition = none;
}
edited v (InspectionCall.starting_reinspection id) = record v {
  open_attempt_id = some id;
  open_attempt_no = some (v.latest_attempt_no + 1);
}
edited v InspectionCall.cancelling = v

-- The checks of a call besides its guard.
abbrev pub permits : InspectionSnapshot → InspectionCommand → InspectionCall → Result (Unit {0})
permits v c (InspectionCall.scheduling at) = require_internal c.actor "INSPECTOR"
permits v c (InspectionCall.starting id) = require_internal c.actor "INSPECTOR"
permits v c (InspectionCall.submitting_decision attempt) =
    require_internal c.actor "INSPECTOR" >> require_exact_attempt v attempt
permits v c (InspectionCall.accepting attempt) =
    require_internal_decider c.actor
    >> require_latest_attempt v attempt
    >> fail_if (not (is_acceptance attempt.disposition)) "INSPECTION_ACCEPT_DISPOSITION_INVALID"
permits v c (InspectionCall.requesting_correction attempt) =
    require_internal_decider c.actor
    >> require_latest_attempt v attempt
    >> (need_text (or_blank c.reason) "INSPECTION_CORRECTION_REASON_REQUIRED"
        >> fail_if (not (supports_correction attempt.disposition))
            "INSPECTION_CORRECTION_DISPOSITION_INVALID")
permits v c (InspectionCall.rejecting attempt) =
    require_internal_decider c.actor
    >> require_latest_attempt v attempt
    >> (need_text (or_blank c.reason) "INSPECTION_REJECT_REASON_REQUIRED"
        >> fail_if (not (is_rejected attempt.disposition)) "INSPECTION_REJECT_DISPOSITION_INVALID")
permits v c (InspectionCall.submitting_correction id) =
    require_requester v.contract_id v.assigned_vendor_id c.actor
permits v c (InspectionCall.starting_reinspection id) = require_internal c.actor "INSPECTOR"
permits v c InspectionCall.cancelling =
    require_internal c.actor "INSPECTION_MANAGER"
    >> need_text (or_blank c.reason) "INSPECTION_CANCEL_REASON_REQUIRED"
