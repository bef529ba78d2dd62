-- ===== src/Inspection/Shape.antt =====
-- packages/features/quality/src/domain/inspection.ts: the attempts of an inspection in each state.
use youone_rnd.Shared.{
  ◌+◌, ◌<◌, ◌≡◌, refl, sym, ap, ◌∙◌, true, ◌||◌, none, some, [], ◌∷◌, ok, ◌>>◌, >>-eq-ok, any,
  arith, is_some, Bool-cases, inl, inr,
}
use youone_rnd.Kernel.{UtcInstant, Version}
use youone_rnd.Inspection.Types.{
  InspectionState, InspectionDisposition, InspectionSnapshot, InspectionAttemptSnapshot,
}
use youone_rnd.Inspection.Sealing.{is_rejected}
use youone_rnd.Inspection.Machine.{
  InspectionCommand, same_inspection_state, is_number, require_exact_attempt, require_internal,
  require_internal_decider, require_latest_attempt,
}
use youone_rnd.Inspection.Methods.{is_acceptance}
use youone_rnd.Inspection.Graph.{InspectionCall, sources, target, edited, permits}

-- No attempt is open.
pub record Closed (v : InspectionSnapshot) : Type 0 where
  pub no_open_id : v.open_attempt_id ≡ none
  pub no_open_no : v.open_attempt_no ≡ none

-- No attempt was made.
pub record Untried (v : InspectionSnapshot) : Type 0 where
  pub closed : Closed v
  pub none_sealed : v.latest_sealed_attempt_id ≡ none
  pub none_counted : v.latest_attempt_no ≡ 0
  pub undecided : v.final_disposition ≡ none

-- An attempt is open, with the next number.
pub record Open (v : InspectionSnapshot) : Type 0 where
  pub open_id : is_some v.open_attempt_id ≡ true
  pub open_no : v.open_attempt_no ≡ some (v.latest_attempt_no + 1)
  pub undecided : v.final_disposition ≡ none

-- The latest attempt is sealed.
pub record Tried (v : InspectionSnapshot) : Type 0 where
  pub closed : Closed v
  pub sealed : is_some v.latest_sealed_attempt_id ≡ true
  pub counted : 0 < v.latest_attempt_no

abbrev pub Shape : InspectionState → InspectionSnapshot → Type 0
Shape InspectionState.requested v = Untried v
Shape InspectionState.scheduled v = Untried v × (is_some v.scheduled_at ≡ true)
Shape InspectionState.in_progress v = Open v
Shape InspectionState.decision_pending v = Tried v × (v.final_disposition ≡ none)
Shape InspectionState.correction_required v =
    Tried v × (v.final_disposition ≡ some InspectionDisposition.correction_requested)
Shape InspectionState.reinspection_pending v = Tried v × (v.final_disposition ≡ none)
Shape InspectionState.completed v =
    Tried v
    × (d : InspectionDisposition) × (v.final_disposition ≡ some d)
    × ((is_acceptance d || is_rejected d) ≡ true)
Shape InspectionState.cancelled v = Untried v

pub same_inspection_state-eq : (a b : InspectionState) → same_inspection_state a b ≡ true → a ≡ b
same_inspection_state-eq a b h = ground arith

abbrev pub stamped :
    InspectionSnapshot → InspectionState → Version → UtcInstant → InspectionSnapshot
stamped e s n t = record e { state = s; version = n; updated_at = t }

-- Fields that no attempt is in may change.
retried :
    {v w : InspectionSnapshot}
    → Tried v
    → v.open_attempt_id ≡ w.open_attempt_id
    → v.open_attempt_no ≡ w.open_attempt_no
    → v.latest_sealed_attempt_id ≡ w.latest_sealed_attempt_id
    → v.latest_attempt_no ≡ w.latest_attempt_no
    → Tried w
retried d e1 e2 e3 e4 = record {
  closed = record {
    no_open_id = sym e1 ∙ d.closed.no_open_id;
    no_open_no = sym e2 ∙ d.closed.no_open_no;
  };
  sealed = ap is_some (sym e3) ∙ d.sealed;
  counted = omega (arith, e4, d.counted);
}

-- The shape that a state which a call leaves has.
pub source-Shape :
    (v : InspectionSnapshot) (state : InspectionState)
    → Shape v.state v
    → any (λ s. same_inspection_state s v.state) (state ∷ []) ≡ true
    → Shape state v
source-Shape v state s from =
    let same : state ≡ v.state = same_inspection_state-eq state v.state (ground arith) in rw same s

Untried-cancel :
    (v : InspectionSnapshot)
    → Shape v.state v
    → any
        (λ s. same_inspection_state s v.state)
        (InspectionState.requested ∷ InspectionState.scheduled ∷ [])
      ≡ true
    → Untried v
Untried-cancel v s from =
    elim (Bool-cases (same_inspection_state InspectionState.requested v.state)) [
      | inl here ↦ source-Shape v InspectionState.requested s (rw here refl)
      | inr other ↦
          let there : same_inspection_state InspectionState.scheduled v.state ≡ true =
            ground (arith, other) in
          (source-Shape v InspectionState.scheduled s (rw there refl)).0
    ]

pub exact_number :
    (v : InspectionSnapshot) (c : InspectionCommand) (attempt : InspectionAttemptSnapshot)
    → (require_internal c.actor "INSPECTOR" >> require_exact_attempt v attempt) ≡ ok tt
    → is_number attempt.attempt_no v.open_attempt_no ≡ true
unfolding require_exact_attempt
exact_number v c attempt p =
    let (_, exact) = >>-eq-ok (require_internal c.actor "INSPECTOR") _ p in ground (arith, exact)

-- A call that is permitted in a state of its sources takes the shape of that state to the shape of its
-- target.
pub edited-Shape :
    (v : InspectionSnapshot) (c : InspectionCommand) (call : InspectionCall) (n : Version)
    (t : UtcInstant)
    → Shape v.state v
    → any (λ state. same_inspection_state state v.state) (sources call) ≡ true
    → permits v c call ≡ ok tt
    → Shape (target call) (stamped (edited v call) (target call) n t)
edited-Shape v c (InspectionCall.scheduling at) n t s from p =
    let u = source-Shape v InspectionState.requested s from in
    (
      record {
        closed = record { no_open_id = u.closed.no_open_id; no_open_no = u.closed.no_open_no };
        none_sealed = u.none_sealed;
        none_counted = u.none_counted;
        undecided = u.undecided;
      },
      refl,
    )
edited-Shape v c (InspectionCall.starting id) n t s from p =
    let (u, _) = source-Shape v InspectionState.scheduled s from in
    let first : 1 ≡ v.latest_attempt_no + 1 = omega (arith, u.none_counted) in
    record { open_id = refl; open_no = ap some first; undecided = u.undecided }
edited-Shape v c (InspectionCall.submitting_decision attempt) n t s from p =
    let o = source-Shape v InspectionState.in_progress s from in
    let next : is_number attempt.attempt_no (some (v.latest_attempt_no + 1)) ≡ true =
      rw o.open_no at (exact_number v c attempt p) in
    (
      record {
        closed = record { no_open_id = refl; no_open_no = refl };
        sealed = refl;
        counted = ground arith;
      },
      o.undecided,
    )
edited-Shape v c (InspectionCall.accepting attempt) n t s from p =
    let (d, _) = source-Shape v InspectionState.decision_pending s from in
    let (_, last) =
      >>-eq-ok (require_internal_decider c.actor >> require_latest_attempt v attempt) _ p in
    (retried d refl refl refl refl, attempt.disposition, refl, ground (arith, last))
edited-Shape v c (InspectionCall.requesting_correction attempt) n t s from p =
    let (d, _) = source-Shape v InspectionState.decision_pending s from in
    (retried d refl refl refl refl, refl)
edited-Shape v c (InspectionCall.rejecting attempt) n t s from p =
    let (d, _) = source-Shape v InspectionState.decision_pending s from in
    (retried d refl refl refl refl, InspectionDisposition.rejected, refl, refl)
edited-Shape v c (InspectionCall.submitting_correction id) n t s from p =
    let (d, _) = source-Shape v InspectionState.correction_required s from in
    (retried d refl refl refl refl, refl)
edited-Shape v c (InspectionCall.starting_reinspection id) n t s from p =
    let (d, undecided) = source-Shape v InspectionState.reinspection_pending s from in
    record { open_id = refl; open_no = refl; undecided = undecided }
edited-Shape v c InspectionCall.cancelling n t s from p =
    let u = Untried-cancel v s from in
    record {
      closed = record { no_open_id = u.closed.no_open_id; no_open_no = u.closed.no_open_no };
      none_sealed = u.none_sealed;
      none_counted = u.none_counted;
      undecided = u.undecided;
    }
