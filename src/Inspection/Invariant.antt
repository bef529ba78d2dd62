-- ===== src/Inspection/Invariant.antt =====
-- packages/features/quality/src/domain/inspection.ts: the histories of an inspection's mutations.
use mathlib.Core.Path.{subst}
use youone_rnd.Shared.{
  ℕ, ◌+◌, ◌-◌, ◌<◌, ◌≡◌, refl, ap, true, Option, none, some, List, [], ◌∷◌, ok, >>-eq-ok, any,
  arith, length,
}
use youone_rnd.Inspection.Types.{
  InspectionState, InspectionSnapshot, InspectionAttemptSnapshot, need_text,
}
use youone_rnd.Inspection.Machine.{
  InspectionCommand, InspectionMutation, same_inspection_state, is_number, require_requester,
  inspection_mutation,
}
use youone_rnd.Inspection.Methods.{InspectionInput, request, requested_of}
use youone_rnd.Inspection.Graph.{
  InspectionCall, inspection_run, sources, target, attempt_of, edited, permits,
}
use youone_rnd.Inspection.Lifecycle.{inspection_run-Moves}
use youone_rnd.Inspection.Shape.{Shape, stamped, source-Shape, exact_number, edited-Shape}

abbrev pub with_attempt :
    Option InspectionAttemptSnapshot
    → List InspectionAttemptSnapshot
    → List InspectionAttemptSnapshot
with_attempt none rest = rest
with_attempt (some attempt) rest = attempt ∷ rest

-- The attempts that a history seals, the latest first.
abbrev pub attempts : List InspectionMutation → List InspectionAttemptSnapshot
attempts [] = []
attempts (m ∷ ms) = with_attempt m.immutable_attempt (attempts ms)

-- The attempts are numbered down to one, without gaps.
abbrev pub Numbered : ℕ → List InspectionAttemptSnapshot → Type 0
Numbered n [] = n ≡ 0
Numbered n (attempt ∷ rest) = (attempt.attempt_no ≡ n) × (0 < n) × Numbered (n - 1) rest

-- The inspections that calls lead to, with the mutations that they returned, the latest first.
pub data InspectionReach : InspectionSnapshot → List InspectionMutation → Type 0 where
  requested_by :
      (input : InspectionInput) (c : InspectionCommand) (m : InspectionMutation)
      → request input c ≡ ok m
      → InspectionReach m.snapshot (m ∷ [])
  called :
      (v : InspectionSnapshot) (ms : List InspectionMutation) (c : InspectionCommand)
      (call : InspectionCall) (m : InspectionMutation)
      → InspectionReach v ms
      → (inspection_run v c call).1 ≡ ok m
      → InspectionReach (inspection_run v c call).0 (m ∷ ms)

pub record InspectionInv (v : InspectionSnapshot) (ms : List InspectionMutation) : Type 0 where
  pub shape : Shape v.state v
  pub versions : v.version ≡ length ms
  pub numbered : Numbered v.latest_attempt_no (attempts ms)

request-Inv :
    (input : InspectionInput) (c : InspectionCommand) (m : InspectionMutation)
    → request input c ≡ ok m
    → InspectionInv m.snapshot (m ∷ [])
unfolding request inspection_mutation
request-Inv input c m h =
    let (_, h1) = >>-eq-ok (need_text input.inspection_no "INSPECTION_NO_REQUIRED") _ h in
    let (_, h2) =
      >>-eq-ok (require_requester input.contract_id input.assigned_vendor_id c.actor) _ h1 in
    let made : inspection_mutation (requested_of input c.at) c 0 "EVT-INSPECTION-REQUEST" none ≡ m =
      cc h2 in
    subst (λ m. InspectionInv m.snapshot (m ∷ [])) made
      (record {
        shape = record {
          closed = record { no_open_id = refl; no_open_no = refl };
          none_sealed = refl;
          none_counted = refl;
          undecided = refl;
        };
        versions = refl;
        numbered = refl;
      })

-- A sealed attempt has the next number.
edited-Numbered :
    (v : InspectionSnapshot) (c : InspectionCommand) (call : InspectionCall)
    (sealed : List InspectionAttemptSnapshot)
    → Shape v.state v
    → any (λ state. same_inspection_state state v.state) (sources call) ≡ true
    → permits v c call ≡ ok tt
    → Numbered v.latest_attempt_no sealed
    → Numbered (edited v call).latest_attempt_no (with_attempt (attempt_of call) sealed)
edited-Numbered v c (InspectionCall.submitting_decision attempt) sealed s from p k =
    let o = source-Shape v InspectionState.in_progress s from in
    let next : is_number attempt.attempt_no (some (v.latest_attempt_no + 1)) ≡ true =
      rw o.open_no at (exact_number v c attempt p) in
    let same : v.latest_attempt_no ≡ attempt.attempt_no - 1 = ground arith in
    (refl, ground arith, rw same at k)
edited-Numbered v c (InspectionCall.scheduling at) sealed s from p k = k
edited-Numbered v c (InspectionCall.starting id) sealed s from p k = k
edited-Numbered v c (InspectionCall.accepting attempt) sealed s from p k = k
edited-Numbered v c (InspectionCall.requesting_correction attempt) sealed s from p k = k
edited-Numbered v c (InspectionCall.rejecting attempt) sealed s from p k = k
edited-Numbered v c (InspectionCall.submitting_correction id) sealed s from p k = k
edited-Numbered v c (InspectionCall.starting_reinspection id) sealed s from p k = k
edited-Numbered v c InspectionCall.cancelling sealed s from p k = k

inspection_run-Inv :
    (v : InspectionSnapshot) (ms : List InspectionMutation) (c : InspectionCommand)
    (call : InspectionCall) (m : InspectionMutation)
    → InspectionInv v ms
    → (inspection_run v c call).1 ≡ ok m
    → InspectionInv (inspection_run v c call).0 (m ∷ ms)
unfolding inspection_mutation
inspection_run-Inv v ms c call m inv h =
    let moves = inspection_run-Moves v c call m h in
    let e = stamped (edited v call) (target call) (v.version + 1) c.at in
    let shape = edited-Shape v c call (v.version + 1) c.at inv.shape moves.from moves.permitted in
    let sealed : m.immutable_attempt ≡ attempt_of call =
      ap (λ m. m.immutable_attempt) moves.returned in
    rw moves.after (record {
      shape = shape;
      versions = omega (arith, inv.versions);
      numbered = rw sealed (
          edited-Numbered v c call (attempts ms) inv.shape moves.from moves.permitted inv.numbered);
    })

-- In every inspection that calls lead to, an attempt is open exactly while it is in progress, and has
-- the next number; an attempt is sealed and counted in every state behind it; a disposition stands
-- exactly where a correction is required and where it is completed, where it is an acceptance or a
-- rejection; the version counts the mutations; and the sealed attempts are numbered from one without
-- gaps.
pub InspectionReach-Inv :
    (v : InspectionSnapshot) (ms : List InspectionMutation)
    → InspectionReach v ms
    → InspectionInv v ms
InspectionReach-Inv v ms (InspectionReach.requested_by input c m made) = request-Inv input c m made
InspectionReach-Inv v ms (InspectionReach.called before earlier c call m reach made) =
    inspection_run-Inv before earlier c call m (InspectionReach-Inv before earlier reach) made
