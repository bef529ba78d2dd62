-- ===== src/Inspection/Lifecycle.antt =====
-- packages/features/quality/src/domain/inspection.ts: what each call of an inspection does.
use youone_rnd.Shared.{
  ℕ, ◌+◌, ◌≡◌, refl, sym, ap, ◌∙◌, true, not, Option, [], ◌∷◌, String, Result, ok, err, ◌>>◌,
  >>-eq-ok, fail_if, any, arith,
}
use youone_rnd.Kernel.{Version, next_version, version}
use youone_rnd.Inspection.Types.{
  InspectionState, InspectionSnapshot, InspectionAttemptSnapshot, need_text,
}
use youone_rnd.Inspection.Sealing.{is_rejected}
use youone_rnd.Inspection.Machine.{
  InspectionCommand, InspectionMutation, or_blank, same_inspection_state, inspection_guard,
  require_internal_decider, require_latest_attempt, inspection_mutation, Outcome, transition,
  inspection_moved, behind,
}
use youone_rnd.Inspection.Methods.{
  schedule, start, submit_decision, accept, request_correction, reject, submit_correction,
  start_reinspection, cancel, decision_guard, is_acceptance, supports_correction,
}
use youone_rnd.Inspection.Graph.{
  InspectionCall, inspection_run, sources, target, call_event, attempt_of, edited, permits,
}

then_assoc :
    (first second third : Result (Unit {0}))
    → (first >> second >> third) ≡ (first >> (second >> third))
then_assoc (err e) second third = refl
then_assoc (ok tt) second third = refl

-- What a successful call did.
pub record Moves (v : InspectionSnapshot) (c : InspectionCommand) (call : InspectionCall)
    (m : InspectionMutation) : Type 0 where
  pub current : c.expected_version ≡ v.version
  pub from : any (λ state. same_inspection_state state v.state) (sources call) ≡ true
  pub active : c.actor.active ≡ true
  pub permitted : permits v c call ≡ ok tt
  pub next : next_version v.version ≡ ok (v.version + 1)
  pub after :
      (inspection_run v c call).0
      ≡ record (edited v call) { state = target call; version = v.version + 1; updated_at = c.at }
  pub returned :
      m
      ≡ inspection_mutation
          (inspection_run v c call).0
          c
          v.version
          (call_event call)
          (attempt_of call)

behind-ok :
    (checks : Result (Unit {0})) (v : InspectionSnapshot) (rest : Outcome) {m : InspectionMutation}
    → (behind checks v rest).1 ≡ ok m
    → (checks ≡ ok tt) × (rest.1 ≡ ok m) × ((behind checks v rest).0 ≡ rest.0)
behind-ok (err e) v rest h = absurd (cc h)
behind-ok (ok tt) v rest h = (refl, h, refl)

-- The checks of a decision, grouped.
abbrev then_move :
    InspectionSnapshot → InspectionCommand → InspectionCall → Result (Unit {0}) → Outcome
then_move v c call checks =
    behind checks v (transition (edited v call) c (target call) (call_event call) (attempt_of call))

decision_assoc :
    (v : InspectionSnapshot) (c : InspectionCommand) (attempt : InspectionAttemptSnapshot)
    (call : InspectionCall) (last : Result (Unit {0}))
    → then_move v c call (decision_guard v c attempt >> last)
      ≡ then_move v c call (
          inspection_guard v c (InspectionState.decision_pending ∷ [])
          >> (require_internal_decider c.actor >> require_latest_attempt v attempt >> last))
decision_assoc v c attempt call last = ap (then_move v c call) (
    then_assoc (inspection_guard v c (InspectionState.decision_pending ∷ []))
      (require_internal_decider c.actor >> require_latest_attempt v attempt) last)

-- A call is its guard, its other checks and then its transition.
pub inspection_run-behind :
    (v : InspectionSnapshot) (c : InspectionCommand) (call : InspectionCall)
    → inspection_run v c call
      ≡ behind
          (inspection_guard v c (sources call) >> permits v c call)
          v
          (transition (edited v call) c (target call) (call_event call) (attempt_of call))
unfolding schedule start submit_decision accept request_correction reject submit_correction
    start_reinspection cancel
inspection_run-behind v c (InspectionCall.scheduling at) = refl
inspection_run-behind v c (InspectionCall.starting id) = refl
inspection_run-behind v c (InspectionCall.submitting_decision attempt) = refl
inspection_run-behind v c (InspectionCall.accepting attempt) =
    decision_assoc v c attempt (InspectionCall.accepting attempt)
      (fail_if (not (is_acceptance attempt.disposition)) "INSPECTION_ACCEPT_DISPOSITION_INVALID")
inspection_run-behind v c (InspectionCall.requesting_correction attempt) =
    decision_assoc v c attempt (InspectionCall.requesting_correction attempt) (
      need_text (or_blank c.reason) "INSPECTION_CORRECTION_REASON_REQUIRED"
      >> fail_if (not (supports_correction attempt.disposition))
          "INSPECTION_CORRECTION_DISPOSITION_INVALID")
inspection_run-behind v c (InspectionCall.rejecting attempt) =
    decision_assoc v c attempt (InspectionCall.rejecting attempt) (
      need_text (or_blank c.reason) "INSPECTION_REJECT_REASON_REQUIRED"
      >> fail_if (not (is_rejected attempt.disposition)) "INSPECTION_REJECT_DISPOSITION_INVALID")
inspection_run-behind v c (InspectionCall.submitting_correction id) = refl
inspection_run-behind v c (InspectionCall.starting_reinspection id) = refl
inspection_run-behind v c InspectionCall.cancelling = refl

pub edited_version :
    (v : InspectionSnapshot) (call : InspectionCall) → (edited v call).version ≡ v.version
edited_version v (InspectionCall.scheduling at) = refl
edited_version v (InspectionCall.starting id) = refl
edited_version v (InspectionCall.submitting_decision attempt) = refl
edited_version v (InspectionCall.accepting attempt) = refl
edited_version v (InspectionCall.requesting_correction attempt) = refl
edited_version v (InspectionCall.rejecting attempt) = refl
edited_version v (InspectionCall.submitting_correction id) = refl
edited_version v (InspectionCall.starting_reinspection id) = refl
edited_version v InspectionCall.cancelling = refl

next_version-ok : (n next : ℕ) → next_version n ≡ ok next → next ≡ n + 1
unfolding next_version version
next_version-ok n next h = ground arith

transition-ok :
    (e : InspectionSnapshot) (c : InspectionCommand) (state : InspectionState) (event : String)
    (attempt : Option InspectionAttemptSnapshot) (m : InspectionMutation)
    → (transition e c state event attempt).1 ≡ ok m
    → (next_version e.version ≡ ok (e.version + 1))
      × ((transition e c state event attempt).0
          ≡ record e { state = state; version = e.version + 1; updated_at = c.at })
      × (m ≡ inspection_mutation (transition e c state event attempt).0 c e.version event attempt)
unfolding transition
transition-ok e c state event attempt m h = go (next_version e.version) refl h
  where
    go :
        (r : Result Version)
        → next_version e.version ≡ r
        → (inspection_moved e c state event attempt r).1 ≡ ok m
        → (r ≡ ok (e.version + 1))
          × ((inspection_moved e c state event attempt r).0
              ≡ record e { state = state; version = e.version + 1; updated_at = c.at })
          × (m
              ≡ inspection_mutation
                  (inspection_moved e c state event attempt r).0
                  c
                  e.version
                  event
                  attempt)
    go (err code) eq k = absurd (cc k)
    go (ok next) eq k =
        let same = next_version-ok e.version next eq in
        (
          ap ok same,
          ap (λ n. record e { state = state; version = n; updated_at = c.at }) same,
          sym (cc k),
        )

-- A call that succeeds passed its checks, and made its edit and its transition.
pub inspection_run-Moves :
    (v : InspectionSnapshot) (c : InspectionCommand) (call : InspectionCall)
    (m : InspectionMutation)
    → (inspection_run v c call).1 ≡ ok m
    → Moves v c call m
unfolding inspection_guard
inspection_run-Moves v c call m h =
    let e = edited v call in
    let same = edited_version v call in
    let normal = inspection_run-behind v c call in
    let (checks, rest, left) =
      behind-ok (inspection_guard v c (sources call) >> permits v c call) v
        (transition e c (target call) (call_event call) (attempt_of call)) (rw normal at h) in
    let (guarded, permitted) = >>-eq-ok (inspection_guard v c (sources call)) _ checks in
    let (next, after, made) =
      transition-ok e c (target call) (call_event call) (attempt_of call) m rest in
    let whole = ap (λ (o : Outcome). o.0) normal ∙ left in
    record {
      current = ground arith;
      from = ground arith;
      active = ground arith;
      permitted = permitted;
      next = rw same at next;
      after = rw whole (rw same at after);
      returned = rw whole (rw same at made);
    }
