-- ===== src/Inspection/Stamped.antt =====
-- packages/features/quality/src/domain/inspection.ts: the mutation that a call of an inspection returns,
-- against the inspection before it.
use youone_rnd.Shared.{
  ℕ, ◌+◌, ◌≤◌, ◌≡◌, refl, sym, ap, ◌∙◌, true, Option, none, some, String, ok, any, arith, >>-eq-ok,
  str_eq, opt_eq, opt_eq_iff, eq_iff,
}
use youone_rnd.Kernel.{Uuid, StableCode, UtcInstant, max_safe_integer}
use youone_rnd.Kernel.Laws.{next_version_iff}
use youone_rnd.Inspection.Types.{InspectionState, InspectionSnapshot, InspectionAttemptSnapshot}
use youone_rnd.Inspection.Machine.{
  InspectionCommand, InspectionMutation, is_number, same_inspection_state, require_exact_attempt,
  require_internal, inspection_mutation,
}
use youone_rnd.Inspection.Graph.{
  InspectionCall, inspection_run, sources, target, call_event, attempt_of, edited, permits,
}
use youone_rnd.Inspection.Lifecycle.{inspection_run-Moves}
use youone_rnd.Inspection.Shape.{stamped}

-- The arrows of SM-INSPECTION-V1: where a call leads from a state, if it is allowed there.
abbrev pub arrow : InspectionCall → InspectionState → Option InspectionState
arrow (InspectionCall.scheduling _) InspectionState.requested = some InspectionState.scheduled
arrow (InspectionCall.starting _) InspectionState.scheduled = some InspectionState.in_progress
arrow (InspectionCall.submitting_decision _) InspectionState.in_progress =
    some InspectionState.decision_pending
arrow (InspectionCall.accepting _) InspectionState.decision_pending = some InspectionState.completed
arrow (InspectionCall.requesting_correction _) InspectionState.decision_pending =
    some InspectionState.correction_required
arrow (InspectionCall.rejecting _) InspectionState.decision_pending = some InspectionState.completed
arrow (InspectionCall.submitting_correction _) InspectionState.correction_required =
    some InspectionState.reinspection_pending
arrow (InspectionCall.starting_reinspection _) InspectionState.reinspection_pending =
    some InspectionState.in_progress
arrow InspectionCall.cancelling InspectionState.requested = some InspectionState.cancelled
arrow InspectionCall.cancelling InspectionState.scheduled = some InspectionState.cancelled
arrow _ _ = none

-- The subject of an inspection.
pub record Subject : Type 0 where
  pub id : Uuid
  pub number : String
  pub type_code : StableCode
  pub contract : Uuid
  pub milestone : Uuid
  pub deliverable : Uuid
  pub vendor : Uuid
  pub checklist : Uuid
  pub created : UtcInstant

abbrev pub subject_of : InspectionSnapshot → Subject
subject_of v = record {
  id = v.inspection_id;
  number = v.inspection_no;
  type_code = v.inspection_type_code;
  contract = v.contract_id;
  milestone = v.contract_milestone_id;
  deliverable = v.deliverable_id;
  vendor = v.assigned_vendor_id;
  checklist = v.inspection_checklist_version_id;
  created = v.created_at;
}

-- What a mutation from `v` to `after` with that attempt says of the sealed attempts.
abbrev pub Carried :
    InspectionSnapshot → InspectionSnapshot → Option InspectionAttemptSnapshot → Type 0
Carried v after none =
    (after.latest_sealed_attempt_id ≡ v.latest_sealed_attempt_id)
    × (after.latest_attempt_no ≡ v.latest_attempt_no)
Carried v after (some attempt) =
    (attempt.inspection_id ≡ v.inspection_id)
    × (v.open_attempt_id ≡ some attempt.inspection_attempt_id)
    × (v.open_attempt_no ≡ some attempt.attempt_no)
    × (attempt.deliverable_version_id ≡ v.deliverable_version_id)
    × (after.latest_sealed_attempt_id ≡ some attempt.inspection_attempt_id)
    × (after.latest_attempt_no ≡ attempt.attempt_no)
    × (after.open_attempt_id ≡ none)

-- What a mutation records of the inspection `v` that it was made from.
pub record Stamped (v : InspectionSnapshot) (c : InspectionCommand) (call : InspectionCall)
    (m : InspectionMutation) : Type 0 where
  pub fresh : c.expected_version ≡ v.version
  pub expected : m.expected_version ≡ v.version
  pub left : m.snapshot ≡ (inspection_run v c call).0
  pub advanced : m.snapshot.version ≡ v.version + 1
  pub safe : m.snapshot.version ≤ max_safe_integer
  pub moves : arrow call v.state ≡ some m.snapshot.state
  pub same : subject_of m.snapshot ≡ subject_of v
  pub sealed : Carried v m.snapshot m.immutable_attempt
  pub event_type : m.event.event_type ≡ call_event call
  pub event_version : m.event.aggregate_version ≡ v.version + 1
  pub event_id : m.event.aggregate_id ≡ v.inspection_id
  pub audited :
      (m.audit.actor ≡ c.actor)
      × (m.audit.inspection_id ≡ v.inspection_id)
      × (m.audit.action_id ≡ m.event.event_type)
  pub times :
      (m.snapshot.updated_at ≡ c.at) × (m.event.occurred_at ≡ c.at) × (m.audit.occurred_at ≡ c.at)

arrow_of :
    (call : InspectionCall) (state : InspectionState)
    → any (λ source. same_inspection_state source state) (sources call) ≡ true
    → arrow call state ≡ some (target call)
arrow_of call state h = ground arith

subject_of-edited :
    (v : InspectionSnapshot) (call : InspectionCall) → subject_of (edited v call) ≡ subject_of v
subject_of-edited v (InspectionCall.scheduling at) = refl
subject_of-edited v (InspectionCall.starting id) = refl
subject_of-edited v (InspectionCall.submitting_decision attempt) = refl
subject_of-edited v (InspectionCall.accepting attempt) = refl
subject_of-edited v (InspectionCall.requesting_correction attempt) = refl
subject_of-edited v (InspectionCall.rejecting attempt) = refl
subject_of-edited v (InspectionCall.submitting_correction id) = refl
subject_of-edited v (InspectionCall.starting_reinspection id) = refl
subject_of-edited v InspectionCall.cancelling = refl

is_number-some : (n : ℕ) (o : Option ℕ) → is_number n o ≡ true → o ≡ some n
is_number-some n o h = ground arith

is_exact :
    (v : InspectionSnapshot) (attempt : InspectionAttemptSnapshot)
    → require_exact_attempt v attempt ≡ ok tt
    → (str_eq attempt.inspection_id v.inspection_id ≡ true)
      × (opt_eq (some attempt.inspection_attempt_id) v.open_attempt_id ≡ true)
      × (is_number attempt.attempt_no v.open_attempt_no ≡ true)
      × (str_eq attempt.deliverable_version_id v.deliverable_version_id ≡ true)
unfolding require_exact_attempt
is_exact v attempt h = (ground arith, ground arith, ground arith, ground arith)

exact-Carried :
    (v after : InspectionSnapshot) (attempt : InspectionAttemptSnapshot)
    → require_exact_attempt v attempt ≡ ok tt
    → after.latest_sealed_attempt_id ≡ some attempt.inspection_attempt_id
    → after.latest_attempt_no ≡ attempt.attempt_no
    → after.open_attempt_id ≡ none
    → Carried v after (some attempt)
exact-Carried v after attempt h latest numbered closed =
    let (subject, open_id, open_no, delivered) = is_exact v attempt h in
    (
      (eq_iff attempt.inspection_id v.inspection_id).0 subject,
      sym ((opt_eq_iff (some attempt.inspection_attempt_id) v.open_attempt_id).0 open_id),
      is_number-some attempt.attempt_no v.open_attempt_no open_no,
      (eq_iff attempt.deliverable_version_id v.deliverable_version_id).0 delivered,
      latest,
      numbered,
      closed,
    )

edited-Carried :
    (v : InspectionSnapshot) (c : InspectionCommand) (call : InspectionCall)
    → permits v c call ≡ ok tt
    → Carried v (stamped (edited v call) (target call) (v.version + 1) c.at) (attempt_of call)
edited-Carried v c (InspectionCall.submitting_decision attempt) h =
    let (_, exact) = >>-eq-ok (require_internal c.actor "INSPECTOR") _ h in
    let after =
      stamped (edited v (InspectionCall.submitting_decision attempt))
        InspectionState.decision_pending (v.version + 1) c.at in
    exact-Carried v after attempt exact refl refl refl
edited-Carried v c (InspectionCall.scheduling at) h = (refl, refl)
edited-Carried v c (InspectionCall.starting id) h = (refl, refl)
edited-Carried v c (InspectionCall.accepting attempt) h = (refl, refl)
edited-Carried v c (InspectionCall.requesting_correction attempt) h = (refl, refl)
edited-Carried v c (InspectionCall.rejecting attempt) h = (refl, refl)
edited-Carried v c (InspectionCall.submitting_correction id) h = (refl, refl)
edited-Carried v c (InspectionCall.starting_reinspection id) h = (refl, refl)
edited-Carried v c InspectionCall.cancelling h = (refl, refl)

-- A call that succeeds was made for the current version and follows an arrow of the state machine. Its
-- mutation carries the version before and the inspection that is left, which has the next version, a
-- safe integer, keeps its subject (the identifiers, the contract, the milestone, the deliverable, the
-- vendor, the checklist and the time of creation), and has the time of the command. The mutation
-- carries a sealed attempt only where that was the open attempt of the inspection, by identifier, by
-- number and by deliverable version: it is then the latest one and none is open; otherwise the latest
-- attempt stays. The event is the one of the call, and it and the audit entry are of this inspection, at
-- the new version, of the actor, and at the time of the command.
pub inspection_run-Stamped :
    (v : InspectionSnapshot) (c : InspectionCommand) (call : InspectionCall)
    (m : InspectionMutation)
    → (inspection_run v c call).1 ≡ ok m
    → Stamped v c call m
unfolding inspection_mutation
inspection_run-Stamped v c call m h =
    let moves = inspection_run-Moves v c call m h in
    let left : m.snapshot ≡ (inspection_run v c call).0 = ap (λ m. m.snapshot) moves.returned in
    let now = left ∙ moves.after in
    let same : subject_of m.snapshot ≡ subject_of v =
      ap subject_of now ∙ subject_of-edited v call in
    let version = ap (λ v. v.version) now in
    let id = ap (λ s. s.id) same in
    record {
      fresh = moves.current;
      expected = ap (λ m. m.expected_version) moves.returned;
      left = left;
      advanced = version;
      safe = rw version ((next_version_iff v.version (v.version + 1)).0 moves.next).1;
      moves = arrow_of call v.state moves.from ∙ ap some (sym (ap (λ v. v.state) now));
      same = same;
      sealed =
          rw (now, ap (λ m. m.immutable_attempt) moves.returned)
            (edited-Carried v c call moves.permitted);
      event_type = ap (λ m. m.event.event_type) moves.returned;
      event_version =
          ap (λ m. m.event.aggregate_version) moves.returned ∙ ap (λ v. v.version) moves.after;
      event_id =
          ap (λ m. m.event.aggregate_id) moves.returned ∙ ap (λ v. v.inspection_id) (sym left) ∙ id;
      audited = (
        ap (λ m. m.audit.actor) moves.returned,
        ap (λ m. m.audit.inspection_id) moves.returned ∙ ap (λ v. v.inspection_id) (sym left) ∙ id,
        ap (λ m. m.audit.action_id) moves.returned
            ∙ sym (ap (λ m. m.event.event_type) moves.returned),
      );
      times = (
        ap (λ v. v.updated_at) now,
        ap (λ m. m.event.occurred_at) moves.returned,
        ap (λ m. m.audit.occurred_at) moves.returned,
      );
    }
