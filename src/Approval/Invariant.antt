-- ===== src/Approval/Invariant.antt =====
-- The invariant of an approval instance, and that every method keeps it, the ones that throw
-- included.
use mathlib.Core.Bool.{false≢true}
use youone_rnd.Shared.{
  ◌+◌, ◌≡◌, refl, sym, ap, ◌∙◌, inl, inr, Bool, true, false, some, List, [], ◌∷◌, ◌++◌, map, length,
  any, find, arith, Result, ok, err, str_eq, length-append,
}
use youone_rnd.Kernel.{Uuid, Version}
use youone_rnd.Approval.Types.{
  ApprovalState, ApprovalRuntimeStep, ApprovalRuntimeParticipant, ApprovalInstanceSnapshot,
  ApprovalMutation, ApprovalCommand, ParticipantCommand, ApprovalSubjectSnapshot,
  ApprovalPolicyVersion, ResolvedStep, ApprovalPolicySelectionInput, ApprovalActionKind,
  ParticipantState, same_state, same_participant_state, same_kind,
}
use youone_rnd.Approval.Authority.{guard, guard_actor}
use youone_rnd.Approval.Steps.{is_waiting, is_active, start_step}
use youone_rnd.Approval.Instance.{
  attempt, ActionInput, action_of, record_action, activate_next, activation_fuel, create, events_of,
  plain,
}
use youone_rnd.Approval.Methods.{
  expected_kind, action_kind, submitted_value, started_value, submit, submit_checks, activate,
  system_checks, act_checks, active_participant,
}
use youone_rnd.Approval.Activation.{
  Gate, IsGated, activate_next-IsSettled, activate_next-IsGated, activate_next-SameFrame,
}

-- The states in which steps may be waiting or active.
abbrev pub is_open : ApprovalState → Bool
is_open ApprovalState.submitted = true
is_open ApprovalState.in_progress = true
is_open ApprovalState.recall_requested = true
is_open _ = false

abbrev pub IsDormant : List ApprovalRuntimeStep → Type 0
IsDormant steps = (any is_waiting steps ≡ false) × (any is_active steps ≡ false)

-- What holds of the steps in each state.
pub record StepsFit (v : ApprovalInstanceSnapshot) : Type 0 where
  pub gated : IsGated v
  pub live : v.state ≡ ApprovalState.in_progress → any is_active v.steps ≡ true
  pub dormant : is_open v.state ≡ false → IsDormant v.steps

-- The invariant: the version counts the recorded actions, and the steps fit the state.
pub record Inv (v : ApprovalInstanceSnapshot) : Type 0 where
  pub counted : v.version ≡ length v.actions
  pub fit : StepsFit v

module _ (v : ApprovalInstanceSnapshot) where
  pub attempt-Inv {ℓ} :
      {A : Type ℓ} (r : Result A) (k : A → ApprovalInstanceSnapshot × Result ApprovalMutation)
      → Inv v
      → ((a : A) → r ≡ ok a → Inv (k a).0)
      → Inv (attempt r v k).0
  attempt-Inv (ok a) k h next = next a refl
  attempt-Inv (err code) k h next = h

  pub attempt_value {ℓ} :
      {A : Type ℓ} (r : Result A) (k : A → ApprovalInstanceSnapshot × Result ApprovalMutation)
      → ((a : A) → (k a).0 ≡ v)
      → (attempt r v k).0 ≡ v
  attempt_value (ok a) k h = h a
  attempt_value (err code) k h = refl

-- Whether or not the events can be built, `record` leaves the value with the action appended.
pub record_action_value :
    (w : ApprovalInstanceSnapshot) (c : ApprovalCommand) (i : ActionInput)
    → (record_action w c i).0 ≡ record w { actions = w.actions ++ action_of c i ∷ [] }
unfolding record_action
record_action_value w c i =
    let recorded = record w { actions = w.actions ++ action_of c i ∷ [] } in
    attempt_value recorded (events_of recorded c i.kind) _ (λ _. refl)

pub record_action-Inv :
    (w : ApprovalInstanceSnapshot) (c : ApprovalCommand) (i : ActionInput)
    → w.version ≡ length w.actions + 1
    → StepsFit w
    → Inv (record_action w c i).0
record_action-Inv w c i count fit = rw (record_action_value w c i) (record {
  counted = omega (arith, length-append w.actions (action_of c i ∷ []));
  fit = record { gated = fit.gated; live = fit.live; dormant = fit.dormant };
})

-- Steps of which none is active are gated.
pub Gate-none : (steps : List ApprovalRuntimeStep) → any is_active steps ≡ false → Gate 0 steps
Gate-none [] h = tt
Gate-none (s ∷ steps) h =
    (((λ a. absurd (ground arith)), (λ w. omega arith)), Gate-none steps (ground arith))

-- In a state that is not open, dormant steps fit.
pub fit_of_dormant :
    (v : ApprovalInstanceSnapshot) → is_open v.state ≡ false → IsDormant v.steps → StepsFit v
fit_of_dormant v closed d = record {
  gated = (0, Gate-none v.steps d.1);
  live = λ e. absurd (ground arith);
  dormant = λ _. d;
}

start_step_active : (line : List ResolvedStep) → any is_active (map start_step line) ≡ false
start_step_active [] = refl
start_step_active (s ∷ line) = start_step_active line

pub create-Inv : (id submitter : Uuid) → Inv (create id submitter)
create-Inv id submitter = record {
  counted = refl;
  fit = fit_of_dormant (create id submitter) refl (refl, refl);
}

pub submit-Inv :
    (v : ApprovalInstanceSnapshot) (c : ApprovalCommand) (subject : ApprovalSubjectSnapshot)
    (policy : ApprovalPolicyVersion) (line : List ResolvedStep)
    (input : ApprovalPolicySelectionInput)
    → Inv v
    → Inv (submit v c subject policy line input).0
unfolding submit
submit-Inv v c subject policy line input h =
    attempt-Inv v (submit_checks v c subject policy line input) _ h (λ p _.
      record_action-Inv (submitted_value v c subject p line input) c
        (plain ApprovalActionKind.submit) (omega (arith, h.counted))
        (record {
          gated = (0, Gate-none (map start_step line) (start_step_active line));
          live = λ e. cc;
          dormant = λ e. cc;
        }))

-- After `activateNext` in progress the steps fit, whatever they were, if they were gated.
pub activate_next-fit :
    (v : ApprovalInstanceSnapshot)
    → v.state ≡ ApprovalState.in_progress
    → IsGated v
    → StepsFit (activate_next (activation_fuel v) v)
activate_next-fit v state g =
    let w = activate_next (activation_fuel v) v in
    elim (activate_next-IsSettled v) [
      | inl (busy, same) ↦ record {
        gated = activate_next-IsGated v g;
        live = λ _. busy;
        dormant = λ (e : is_open w.state ≡ false).
            absurd (false≢true (sym e ∙ ap is_open (same ∙ state)));
      }
      | inr (done, quiet, idle) ↦ fit_of_dormant w (ap is_open done) (quiet, idle)
    ]

pub activate-Inv :
    (v : ApprovalInstanceSnapshot) (c : ApprovalCommand) → Inv v → Inv (activate v c).0
unfolding activate
activate-Inv v c h = attempt-Inv v (system_checks v c ApprovalState.submitted) _ h (λ _ _.
    let started = started_value v in
    let frame = activate_next-SameFrame started in
    record_action-Inv (activate_next (activation_fuel started) started) c
      (plain ApprovalActionKind.activate)
      (frame.0 ∙ omega (arith, h.counted) ∙ ap (λ l. length l + 1) (sym frame.1))
      (activate_next-fit started refl h.fit.gated))

-- What the checks of `act` have established.
pub record ActReady (v : ApprovalInstanceSnapshot) (c : ParticipantCommand)
    (step : ApprovalRuntimeStep) (participant : ApprovalRuntimeParticipant) : Type 0 where
  pub fresh : c.command.expected_version ≡ v.version
  pub state : v.state ≡ ApprovalState.in_progress
  pub found : find (λ s. str_eq s.step_id c.step_id) v.steps ≡ some step
  pub member :
      find (λ p. str_eq p.participant_id c.participant_id) step.participants ≡ some participant
  pub active : is_active step ≡ true
  pub turn : same_participant_state participant.state ParticipantState.active ≡ true
  pub role : same_kind c.kind (expected_kind step.role) ≡ true
  pub authority : guard_actor c.command.actor participant (action_kind c.kind) c.command.at ≡ ok tt

pub guard-eq-ok :
    (v : ApprovalInstanceSnapshot) (expected : Version) (states : List ApprovalState)
    → guard v expected states ≡ ok tt
    → (expected ≡ v.version) × (any (same_state v.state) states ≡ true)
unfolding guard
guard-eq-ok v expected states h = ground arith

in_progress_of_guard :
    (s : ApprovalState)
    → any (same_state s) (ApprovalState.in_progress ∷ []) ≡ true
    → s ≡ ApprovalState.in_progress
in_progress_of_guard s h = ground arith

active_participant-eq-ok :
    (v : ApprovalInstanceSnapshot) (step_id participant_id : Uuid) (step : ApprovalRuntimeStep)
    (participant : ApprovalRuntimeParticipant)
    → active_participant v step_id participant_id ≡ ok (step, participant)
    → (find (λ s. str_eq s.step_id step_id) v.steps ≡ some step)
      × (find (λ p. str_eq p.participant_id participant_id) step.participants ≡ some participant)
      × (is_active step ≡ true)
      × (same_participant_state participant.state ParticipantState.active ≡ true)
unfolding active_participant
active_participant-eq-ok v step_id participant_id step participant h = ground arith

pub act_checks-ActReady :
    (v : ApprovalInstanceSnapshot) (c : ParticipantCommand) (step : ApprovalRuntimeStep)
    (participant : ApprovalRuntimeParticipant)
    → act_checks v c ≡ ok (step, participant)
    → ActReady v c step participant
unfolding act_checks
act_checks-ActReady v c step participant h =
    let inner : active_participant v c.step_id c.participant_id ≡ ok (step, participant) =
      ground arith in
    let (found, member, active, turn) =
      active_participant-eq-ok v c.step_id c.participant_id step participant inner in
    let guarded : guard v c.command.expected_version (ApprovalState.in_progress ∷ []) ≡ ok tt =
      ground arith in
    let (fresh, state) =
      guard-eq-ok v c.command.expected_version (ApprovalState.in_progress ∷ []) guarded in
    record {
      fresh = fresh;
      state = in_progress_of_guard v.state state;
      found = found;
      member = member;
      active = active;
      turn = turn;
      role = ground arith;
      authority = ground arith;
    }
