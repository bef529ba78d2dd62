-- ===== src/Inspection/Failing.antt =====
-- packages/features/quality/src/domain/inspection.ts: what a call that throws leaves behind, and who
-- may make a call that does not.
use youone_rnd.Shared.{
  ℕ, ◌+◌, ◌<◌, ◌≡◌, refl, sym, ap, ◌∙◌, true, ◌||◌, some, String, Result, ok, err, ◌>>◌, >>-eq-ok,
  arith, inl, inr, ◌⊎◌, includes, opt_eq, opt_eq_iff,
}
use youone_rnd.Kernel.{Uuid, next_version, version, max_safe_integer}
use youone_rnd.Inspection.Types.{
  InspectionState, InspectionActorSnapshot, InspectionSnapshot, InspectionAttemptSnapshot,
}
use youone_rnd.Inspection.Machine.{
  InspectionCommand, InspectionMutation, inspection_guard, require_internal,
  require_internal_decider, require_latest_attempt, require_requester, inspection_mutation,
  transition, behind, is_internal_kind, is_vendor_kind, is_given,
}
use youone_rnd.Inspection.Graph.{
  InspectionCall, inspection_run, sources, target, call_event, attempt_of, edited, permits,
}
use youone_rnd.Inspection.Lifecycle.{inspection_run-behind, inspection_run-Moves, edited_version}

next_version_total : (n : ℕ) → n < max_safe_integer → next_version n ≡ ok (n + 1)
unfolding next_version version
next_version_total n h = ground arith

-- A call that throws leaves the inspection as it was, unless its version is the greatest safe integer.
pub inspection_run_unchanged :
    (v : InspectionSnapshot) (c : InspectionCommand) (call : InspectionCall) (code : String)
    → v.version < max_safe_integer
    → (inspection_run v c call).1 ≡ err code
    → (inspection_run v c call).0 ≡ v
unfolding transition
inspection_run_unchanged v c call code h thrown =
    let normal = inspection_run-behind v c call in
    rw normal (go (inspection_guard v c (sources call) >> permits v c call) (rw normal at thrown))
  where
    go :
        (checks : Result (Unit {0}))
        → (behind checks v
            (transition (edited v call) c (target call) (call_event call) (attempt_of call))).1
          ≡ err code
        → (behind checks v
            (transition (edited v call) c (target call) (call_event call) (attempt_of call))).0
          ≡ v
    go (err e) k = refl
    go (ok tt) k =
        let same = edited_version v call in
        let next : next_version (edited v call).version ≡ ok ((edited v call).version + 1) =
          next_version_total (edited v call).version (omega (arith, same, h)) in
        absurd (cc (rw next at k))

decides :
    (v : InspectionSnapshot) (c : InspectionCommand) (attempt : InspectionAttemptSnapshot)
    → (require_internal_decider c.actor >> require_latest_attempt v attempt) ≡ ok tt
    → (is_internal_kind c.actor.actor_kind ≡ true)
      × (is_given c.actor.user_id ≡ true)
      × ((includes c.actor.authorities "INSPECTION_DECIDER"
            || includes c.actor.authorities "DIRECTOR")
          ≡ true)
      × (v.latest_sealed_attempt_id ≡ some attempt.inspection_attempt_id)
      × (attempt.attempt_no ≡ v.latest_attempt_no)
unfolding require_internal_decider require_latest_attempt
decides v c attempt h =
    let (decider, latest) = >>-eq-ok (require_internal_decider c.actor) _ h in
    let same : opt_eq (some attempt.inspection_attempt_id) v.latest_sealed_attempt_id ≡ true =
      ground (arith, latest) in
    (
      ground (arith, decider),
      ground (arith, decider),
      ground (arith, decider),
      sym ((opt_eq_iff (some attempt.inspection_attempt_id) v.latest_sealed_attempt_id).0 same),
      ground (arith, latest),
    )

-- Only a call that completes an inspection enters its completed state, and it is made by an active
-- internal actor with the authority to decide, on the latest sealed attempt.
pub inspection_run_completes :
    (v : InspectionSnapshot) (c : InspectionCommand) (call : InspectionCall)
    (m : InspectionMutation)
    → (inspection_run v c call).1 ≡ ok m
    → m.snapshot.state ≡ InspectionState.completed
    → (attempt : InspectionAttemptSnapshot) × ((call ≡ InspectionCall.accepting attempt)
        ⊎ (call ≡ InspectionCall.rejecting attempt))
      × (c.actor.active ≡ true)
      × (is_internal_kind c.actor.actor_kind ≡ true)
      × (is_given c.actor.user_id ≡ true)
      × ((includes c.actor.authorities "INSPECTION_DECIDER"
            || includes c.actor.authorities "DIRECTOR")
          ≡ true)
      × (v.latest_sealed_attempt_id ≡ some attempt.inspection_attempt_id)
      × (attempt.attempt_no ≡ v.latest_attempt_no)
unfolding inspection_mutation
inspection_run_completes v c call m h e =
    let moves = inspection_run-Moves v c call m h in
    let entered : m.snapshot.state ≡ target call =
      ap (λ m. m.snapshot.state) moves.returned ∙ ap (λ v. v.state) moves.after in
    let active = moves.active in
    let permitted = moves.permitted in go call (sym entered ∙ e) active permitted
  where
    Deciding : InspectionCall → Type 0
    Deciding call =
        (attempt : InspectionAttemptSnapshot) × ((call ≡ InspectionCall.accepting attempt)
          ⊎ (call ≡ InspectionCall.rejecting attempt))
        × (c.actor.active ≡ true)
        × (is_internal_kind c.actor.actor_kind ≡ true)
        × (is_given c.actor.user_id ≡ true)
        × ((includes c.actor.authorities "INSPECTION_DECIDER"
              || includes c.actor.authorities "DIRECTOR")
            ≡ true)
        × (v.latest_sealed_attempt_id ≡ some attempt.inspection_attempt_id)
        × (attempt.attempt_no ≡ v.latest_attempt_no)

    go :
        (call : InspectionCall)
        → target call ≡ InspectionState.completed
        → c.actor.active ≡ true
        → permits v c call ≡ ok tt
        → Deciding call
    go (InspectionCall.accepting attempt) entered active permitted =
        let (checks, _) =
          >>-eq-ok (require_internal_decider c.actor >> require_latest_attempt v attempt) _
            permitted in
        let (k, g, a, latest, numbered) = decides v c attempt checks in
        (attempt, inl refl, active, k, g, a, latest, numbered)
    go (InspectionCall.rejecting attempt) entered active permitted =
        let (checks, _) =
          >>-eq-ok (require_internal_decider c.actor >> require_latest_attempt v attempt) _
            permitted in
        let (k, g, a, latest, numbered) = decides v c attempt checks in
        (attempt, inr refl, active, k, g, a, latest, numbered)
    go (InspectionCall.scheduling at) entered active permitted = absurd (cc entered)
    go (InspectionCall.starting id) entered active permitted = absurd (cc entered)
    go (InspectionCall.submitting_decision attempt) entered active permitted = absurd (cc entered)
    go (InspectionCall.requesting_correction attempt) entered active permitted = absurd (cc entered)
    go (InspectionCall.submitting_correction id) entered active permitted = absurd (cc entered)
    go (InspectionCall.starting_reinspection id) entered active permitted = absurd (cc entered)
    go InspectionCall.cancelling entered active permitted = absurd (cc entered)

internal_no_vendor :
    (actor : InspectionActorSnapshot)
    → is_vendor_kind actor.actor_kind ≡ true
    → ¬ (is_internal_kind actor.actor_kind ≡ true)
internal_no_vendor actor e h = ground arith

require_internal-ok :
    (actor : InspectionActorSnapshot) (authority : String)
    → require_internal actor authority ≡ ok tt
    → is_internal_kind actor.actor_kind ≡ true
unfolding require_internal
require_internal-ok actor authority h = ground arith

-- A vendor's actor can do nothing to an inspection but hand in a correction for its own contract.
pub inspection_run_vendor :
    (v : InspectionSnapshot) (c : InspectionCommand) (call : InspectionCall)
    (m : InspectionMutation)
    → (inspection_run v c call).1 ≡ ok m
    → is_vendor_kind c.actor.actor_kind ≡ true
    → (id : Uuid) × (call ≡ InspectionCall.submitting_correction id)
      × (c.actor.vendor_id ≡ some v.assigned_vendor_id)
      × (c.actor.contract_scope_contract_id ≡ some v.contract_id)
unfolding require_requester
inspection_run_vendor v c call m h e = go call (inspection_run-Moves v c call m h).permitted
  where
    go :
        (call : InspectionCall)
        → permits v c call ≡ ok tt
        → (id : Uuid) × (call ≡ InspectionCall.submitting_correction id)
          × (c.actor.vendor_id ≡ some v.assigned_vendor_id)
          × (c.actor.contract_scope_contract_id ≡ some v.contract_id)
    go (InspectionCall.submitting_correction id) permitted =
        let own : opt_eq c.actor.vendor_id (some v.assigned_vendor_id) ≡ true = ground arith in
        let scoped : opt_eq c.actor.contract_scope_contract_id (some v.contract_id) ≡ true =
          ground arith in
        (
          id,
          refl,
          (opt_eq_iff c.actor.vendor_id (some v.assigned_vendor_id)).0 own,
          (opt_eq_iff c.actor.contract_scope_contract_id (some v.contract_id)).0 scoped,
        )
    go (InspectionCall.accepting attempt) permitted = absurd (
        internal_no_vendor c.actor e
          (decides v c attempt
            (>>-eq-ok (require_internal_decider c.actor >> require_latest_attempt v attempt) _
              permitted).0).0)
    go (InspectionCall.rejecting attempt) permitted = absurd (
        internal_no_vendor c.actor e
          (decides v c attempt
            (>>-eq-ok (require_internal_decider c.actor >> require_latest_attempt v attempt) _
              permitted).0).0)
    go (InspectionCall.scheduling at) permitted =
        absurd (internal_no_vendor c.actor e (require_internal-ok c.actor "INSPECTOR" permitted))
    go (InspectionCall.starting id) permitted =
        absurd (internal_no_vendor c.actor e (require_internal-ok c.actor "INSPECTOR" permitted))
    go (InspectionCall.submitting_decision attempt) permitted = absurd (
        internal_no_vendor c.actor e (
          require_internal-ok c.actor "INSPECTOR"
            (>>-eq-ok (require_internal c.actor "INSPECTOR") _ permitted).0))
    go (InspectionCall.requesting_correction attempt) permitted = absurd (
        internal_no_vendor c.actor e
          (decides v c attempt
            (>>-eq-ok (require_internal_decider c.actor >> require_latest_attempt v attempt) _
              permitted).0).0)
    go (InspectionCall.starting_reinspection id) permitted =
        absurd (internal_no_vendor c.actor e (require_internal-ok c.actor "INSPECTOR" permitted))
    go InspectionCall.cancelling permitted = absurd (
        internal_no_vendor c.actor e (
          require_internal-ok c.actor "INSPECTION_MANAGER"
            (>>-eq-ok (require_internal c.actor "INSPECTION_MANAGER") _ permitted).0))
