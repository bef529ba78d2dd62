-- ===== src/Inspection/Methods.antt =====
-- packages/features/quality/src/domain/inspection.ts: the public methods of `Inspection`.
use youone_rnd.Shared.{
  ◌+◌, Bool, true, false, not, none, some, [], ◌∷◌, String, Result, ok, ◌>>◌, fail_if,
}
use youone_rnd.Kernel.{Uuid, UtcInstant, StableCode}
use youone_rnd.Inspection.Types.{
  InspectionState, InspectionDisposition, InspectionSnapshot, InspectionAttemptSnapshot, need_text,
}
use youone_rnd.Inspection.Sealing.{is_rejected}
use youone_rnd.Inspection.Machine.{
  InspectionCommand, InspectionMutation, or_blank, inspection_guard, require_internal,
  require_internal_decider, require_exact_attempt, require_latest_attempt, require_requester,
  inspection_mutation, Outcome, transition, behind,
}

-- The input of `request`: a snapshot without the fields that the method sets.
pub record InspectionInput : Type 0 where
  pub inspection_id : Uuid
  pub inspection_no : String
  pub inspection_type_code : StableCode
  pub contract_id : Uuid
  pub contract_milestone_id : Uuid
  pub deliverable_id : Uuid
  pub deliverable_version_id : Uuid
  pub assigned_vendor_id : Uuid
  pub inspection_checklist_version_id : Uuid

abbrev pub requested_of : InspectionInput → UtcInstant → InspectionSnapshot
requested_of input at = record {
  inspection_id = input.inspection_id;
  inspection_no = input.inspection_no;
  inspection_type_code = input.inspection_type_code;
  contract_id = input.contract_id;
  contract_milestone_id = input.contract_milestone_id;
  deliverable_id = input.deliverable_id;
  deliverable_version_id = input.deliverable_version_id;
  assigned_vendor_id = input.assigned_vendor_id;
  inspection_checklist_version_id = input.inspection_checklist_version_id;
  state = InspectionState.requested;
  scheduled_at = none;
  open_attempt_id = none;
  open_attempt_no = none;
  latest_sealed_attempt_id = none;
  latest_attempt_no = 0;
  final_disposition = none;
  version = 1;
  created_at = at;
  updated_at = at;
}

-- The expected version of the command is not read.
unfoldable pub request : InspectionInput → InspectionCommand → Result InspectionMutation
request input command = do
  need_text input.inspection_no "INSPECTION_NO_REQUIRED"
  require_requester input.contract_id input.assigned_vendor_id command.actor
  ok (inspection_mutation (requested_of input command.at) command 0 "EVT-INSPECTION-REQUEST" none)

unfoldable pub schedule : InspectionSnapshot → InspectionCommand → UtcInstant → Outcome
schedule value command scheduled_at =
    behind
      (inspection_guard value command (InspectionState.requested ∷ [])
        >> require_internal command.actor "INSPECTOR")
      value
      (transition (record value { scheduled_at = some scheduled_at }) command
        InspectionState.scheduled "EVT-INSPECTION-SCHEDULE" none)

unfoldable pub start : InspectionSnapshot → InspectionCommand → Uuid → Outcome
start value command inspection_attempt_id =
    behind
      (inspection_guard value command (InspectionState.scheduled ∷ [])
        >> require_internal command.actor "INSPECTOR")
      value
      (transition
        (record value { open_attempt_id = some inspection_attempt_id; open_attempt_no = some 1 })
        command InspectionState.in_progress "EVT-INSPECTION-START" none)

unfoldable pub submit_decision :
    InspectionSnapshot → InspectionCommand → InspectionAttemptSnapshot → Outcome
submit_decision value command attempt =
    behind
      (inspection_guard value command (InspectionState.in_progress ∷ [])
        >> (require_internal command.actor "INSPECTOR" >> require_exact_attempt value attempt))
      value
      (transition
        (record value {
          latest_sealed_attempt_id = some attempt.inspection_attempt_id;
          latest_attempt_no = attempt.attempt_no;
          open_attempt_id = none;
          open_attempt_no = none;
        })
        command InspectionState.decision_pending "EVT-INSPECTION-SUBMIT-DECISION" (some attempt))

-- The guard of the three decisions.
abbrev pub decision_guard :
    InspectionSnapshot → InspectionCommand → InspectionAttemptSnapshot → Result (Unit {0})
decision_guard value command attempt =
    inspection_guard value command (InspectionState.decision_pending ∷ [])
    >> (require_internal_decider command.actor >> require_latest_attempt value attempt)

abbrev pub is_acceptance : InspectionDisposition → Bool
is_acceptance InspectionDisposition.accepted = true
is_acceptance InspectionDisposition.partial_acceptance = true
is_acceptance InspectionDisposition.conditional_acceptance = true
is_acceptance _ = false

unfoldable pub accept : InspectionSnapshot → InspectionCommand → InspectionAttemptSnapshot → Outcome
accept value command attempt =
    behind
      (decision_guard value command attempt
        >> fail_if (not (is_acceptance attempt.disposition))
            "INSPECTION_ACCEPT_DISPOSITION_INVALID")
      value
      (transition (record value { final_disposition = some attempt.disposition }) command
        InspectionState.completed "EVT-INSPECTION-ACCEPT" none)

abbrev pub supports_correction : InspectionDisposition → Bool
supports_correction InspectionDisposition.correction_requested = true
supports_correction InspectionDisposition.unable_to_verify = true
supports_correction InspectionDisposition.rejected = true
supports_correction _ = false

unfoldable pub request_correction :
    InspectionSnapshot → InspectionCommand → InspectionAttemptSnapshot → Outcome
request_correction value command attempt =
    behind
      (decision_guard value command attempt
        >> (need_text (or_blank command.reason) "INSPECTION_CORRECTION_REASON_REQUIRED"
            >> fail_if (not (supports_correction attempt.disposition))
                "INSPECTION_CORRECTION_DISPOSITION_INVALID"))
      value
      (transition
        (record value { final_disposition = some InspectionDisposition.correction_requested })
        command InspectionState.correction_required "EVT-INSPECTION-REQUEST-CORRECTION" none)

unfoldable pub reject : InspectionSnapshot → InspectionCommand → InspectionAttemptSnapshot → Outcome
reject value command attempt =
    behind
      (decision_guard value command attempt
        >> (need_text (or_blank command.reason) "INSPECTION_REJECT_REASON_REQUIRED"
            >> fail_if (not (is_rejected attempt.disposition))
                "INSPECTION_REJECT_DISPOSITION_INVALID"))
      value
      (transition (record value { final_disposition = some InspectionDisposition.rejected }) command
        InspectionState.completed "EVT-INSPECTION-REJECT" none)

unfoldable pub submit_correction : InspectionSnapshot → InspectionCommand → Uuid → Outcome
submit_correction value command corrected_deliverable_version_id =
    behind
      (inspection_guard value command (InspectionState.correction_required ∷ [])
        >> require_requester value.contract_id value.assigned_vendor_id command.actor)
      value
      (transition
        (record value {
          deliverable_version_id = corrected_deliverable_version_id;
          final_disposition = none;
        })
        command InspectionState.reinspection_pending "EVT-INSPECTION-CORRECTION-SUBMITTED" none)

unfoldable pub start_reinspection : InspectionSnapshot → InspectionCommand → Uuid → Outcome
start_reinspection value command inspection_attempt_id =
    behind
      (inspection_guard value command (InspectionState.reinspection_pending ∷ [])
        >> require_internal command.actor "INSPECTOR")
      value
      (transition
        (record value {
          open_attempt_id = some inspection_attempt_id;
          open_attempt_no = some (value.latest_attempt_no + 1);
        })
        command InspectionState.in_progress "EVT-INSPECTION-REINSPECT" none)

unfoldable pub cancel : InspectionSnapshot → InspectionCommand → Outcome
cancel value command =
    behind
      (inspection_guard value command (InspectionState.requested ∷ InspectionState.scheduled ∷ [])
        >> (require_internal command.actor "INSPECTION_MANAGER"
            >> need_text (or_blank command.reason) "INSPECTION_CANCEL_REASON_REQUIRED"))
      value (transition value command InspectionState.cancelled "EVT-INSPECTION-CANCEL" none)
