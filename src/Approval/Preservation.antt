-- ===== src/Approval/Preservation.antt =====
-- Acting, rejecting, recalling and cancelling keep the invariant of an approval instance.
use mathlib.Core.Bool.{false≢true}
use youone_rnd.Shared.{
  ℕ, ◌≤◌, ◌<◌, ◌≡◌, refl, sym, ap, ◌∙◌, inl, inr, Bool, true, false, some, List, [], ◌∷◌, map,
  length, any, find, arith, Bool-cases, All, ok, str_eq, All-find,
}
use youone_rnd.Kernel.{Uuid}
use youone_rnd.Approval.Types.{
  ApprovalState, ApprovalRuntimeStep, ApprovalRuntimeParticipant, ApprovalInstanceSnapshot,
  ApprovalCommand, ParticipantCommand, RejectCommand, ApprovalActionKind, ApprovalAction,
}
use youone_rnd.Approval.Authority.{guard}
use youone_rnd.Approval.Steps.{
  is_waiting, is_active, update_first, settle_step, step_complete, complete_participant,
  cancel_step, recall_step,
}
use youone_rnd.Approval.Instance.{plain}
use youone_rnd.Approval.Methods.{
  acted_value, acted_input, rejected_value, rejected_input, recalled_value, moved_value, act,
  act_checks, advance, reject, reject_checks, request_recall, recall_checks, confirm_recall, cancel,
  cancel_checks, system_checks,
}
use youone_rnd.Approval.Activation.{Gate, IsGated, activate_next-SameFrame}
use youone_rnd.Approval.Invariant.{
  IsDormant, StepsFit, Inv, ActReady, act_checks-ActReady, attempt-Inv, record_action-Inv,
  fit_of_dormant, activate_next-fit, is_open,
}

module _ {ℓ} {A : Type ℓ} where
  All-update_first {κ} :
      (P : A → Type κ) (p : A → Bool) (f : A → A) (xs : List A)
      → ((x : A) → P x → P (f x))
      → All P xs
      → All P (update_first p f xs)
  unfolding update_first
  All-update_first P p f [] hf h = tt
  All-update_first P p f (x ∷ xs) hf h = elim (Bool-cases (p x)) [
    | inl here ↦ rw here (hf x h.0, h.1)
    | inr later ↦ rw later (h.0, All-update_first P p f xs hf h.1)
  ]

  -- An element that is found and replaced by one that passes a test passes it.
  any-update_first :
      (p q : A → Bool) (y : A) (xs : List A) {x : A}
      → find p xs ≡ some x
      → q y ≡ true
      → any q (update_first p (λ _. y) xs) ≡ true
  unfolding update_first
  any-update_first p q y [] {x} found good = ground arith
  any-update_first p q y (z ∷ xs) {x} found good = ground (arith, any-update_first p q y xs {x = x})

complete_participant_frame :
    (id : Uuid) (step : ApprovalRuntimeStep)
    → ((complete_participant id step).step_id ≡ step.step_id)
      × ((complete_participant id step).sequence_no ≡ step.sequence_no)
      × ((complete_participant id step).state ≡ step.state)
unfolding complete_participant
complete_participant_frame id step = (refl, refl, refl)

settle_step_frame :
    (step : ApprovalRuntimeStep)
    → ((settle_step step).sequence_no ≡ step.sequence_no)
      × (is_active step ≡ true → is_waiting (settle_step step) ≡ false)
      × (step_complete step ≡ false → (settle_step step).state ≡ step.state)
unfolding settle_step
settle_step_frame step = (ground arith, (λ h. ground arith), (λ h. ground arith))

-- The gate survives the change of an active step into one of the same place that does not wait.
Gate-update_first :
    (bound : ℕ) (p : ApprovalRuntimeStep → Bool) (step settled : ApprovalRuntimeStep)
    (steps : List ApprovalRuntimeStep)
    → find p steps ≡ some step
    → is_active step ≡ true
    → settled.sequence_no ≡ step.sequence_no
    → is_waiting settled ≡ false
    → Gate bound steps
    → Gate bound (update_first p (λ _. settled) steps)
Gate-update_first bound p step settled steps found active same quiet g =
    let (low, high) =
      All-find
        (λ s.
          (is_active s ≡ true → s.sequence_no < bound)
          × (is_waiting s ≡ true → bound ≤ s.sequence_no))
        p steps g found in
    All-update_first _ p (λ _. settled) steps
      (λ _ _. ((λ _. omega (arith, low active)), (λ w. absurd (ground arith)))) g

-- The value of `advance` before `activateNext`.
abbrev moved_steps :
    ApprovalInstanceSnapshot → ParticipantCommand → ApprovalRuntimeStep → List ApprovalRuntimeStep
moved_steps v c step =
    update_first (λ s. str_eq s.step_id c.step_id)
      (λ _. settle_step (complete_participant c.participant_id step)) v.steps

module _ (v : ApprovalInstanceSnapshot) (c : ParticipantCommand) {step : ApprovalRuntimeStep}
    {participant : ApprovalRuntimeParticipant} (r : ActReady v c step participant) where
  moved_steps-Gate : (bound : ℕ) → Gate bound v.steps → Gate bound (moved_steps v c step)
  moved_steps-Gate bound g =
      let done = complete_participant c.participant_id step in
      let (_, same, state) = complete_participant_frame c.participant_id step in
      let (same', quiet, _) = settle_step_frame done in
      Gate-update_first bound _ step (settle_step done) v.steps r.found r.active (same' ∙ same)
        (quiet (ground (arith, r.active))) g

  moved_steps_active :
      step_complete (complete_participant c.participant_id step) ≡ false
      → any is_active (moved_steps v c step) ≡ true
  moved_steps_active unfinished =
      let done = complete_participant c.participant_id step in
      let (_, _, state) = complete_participant_frame c.participant_id step in
      let (_, _, kept) = settle_step_frame done in
      any-update_first (λ s. str_eq s.step_id c.step_id) is_active (settle_step done) v.steps
        r.found (ground (arith, kept unfinished, r.active))

  advance-fit :
      IsGated v → StepsFit (advance v c.step_id (complete_participant c.participant_id step))
  unfolding advance
  advance-fit (bound, g) =
      let done = complete_participant c.participant_id step in
      let moved = record v { steps = moved_steps v c step } in
      elim (Bool-cases (step_complete done)) [
        | inl finished ↦
            rw finished (activate_next-fit moved r.state (bound, moved_steps-Gate bound g))
        | inr unfinished ↦ rw unfinished (record {
          gated = (bound, moved_steps-Gate bound g);
          live = λ _. moved_steps_active unfinished;
          dormant = λ e. absurd (false≢true (sym e ∙ ap is_open r.state));
        })
      ]

  pub advance_frame :
      ((advance v c.step_id (complete_participant c.participant_id step)).version ≡ v.version)
      × ((advance v c.step_id (complete_participant c.participant_id step)).actions ≡ v.actions)
  unfolding advance
  advance_frame =
      let done = complete_participant c.participant_id step in
      let frame = activate_next-SameFrame (record v { steps = moved_steps v c step }) in
      elim (Bool-cases (step_complete done)) [
        | inl finished ↦ rw finished (frame.0, frame.1)
        | inr unfinished ↦ rw unfinished (refl, refl)
      ]

pub act-Inv : (v : ApprovalInstanceSnapshot) (c : ParticipantCommand) → Inv v → Inv (act v c).0
unfolding act
act-Inv v c h = attempt-Inv v (act_checks v c) _ h (λ found ready.
    let r = act_checks-ActReady v c found.0 found.1 ready in
    let fit = advance-fit v c r h.fit.gated in
    let frame = advance_frame v c r in
    record_action-Inv (acted_value v c found.0) c.command (acted_input c found.0 found.1)
      (omega (arith, h.counted, ap (length {A = ApprovalAction}) frame.1))
      (record { gated = fit.gated; live = fit.live; dormant = fit.dormant }))

cancel_step-IsDormant : (steps : List ApprovalRuntimeStep) → IsDormant (map cancel_step steps)
unfolding cancel_step
cancel_step-IsDormant [] = (refl, refl)
cancel_step-IsDormant (s ∷ steps) = ground (arith, cancel_step-IsDormant steps)

recall_step-IsDormant : (steps : List ApprovalRuntimeStep) → IsDormant (map recall_step steps)
unfolding recall_step
recall_step-IsDormant [] = (refl, refl)
recall_step-IsDormant (s ∷ steps) = ground (arith, recall_step-IsDormant steps)

pub reject-Inv : (v : ApprovalInstanceSnapshot) (c : RejectCommand) → Inv v → Inv (reject v c).0
unfolding reject
reject-Inv v c h = attempt-Inv v (reject_checks v c) _ h (λ found _.
    record_action-Inv (rejected_value v c) c.command (rejected_input c found.0 found.1)
      (omega (arith, h.counted))
      (fit_of_dormant (rejected_value v c) refl (cancel_step-IsDormant _)))

pub request_recall-Inv :
    (v : ApprovalInstanceSnapshot) (c : ApprovalCommand) → Inv v → Inv (request_recall v c).0
unfolding request_recall
request_recall-Inv v c h = attempt-Inv v (recall_checks v c) _ h (λ _ _.
    record_action-Inv (moved_value v ApprovalState.recall_requested) c
      (plain ApprovalActionKind.request_recall) (omega (arith, h.counted))
      (record { gated = h.fit.gated; live = λ e. cc; dormant = λ e. cc }))

pub confirm_recall-Inv :
    (v : ApprovalInstanceSnapshot) (c : ApprovalCommand) → Inv v → Inv (confirm_recall v c).0
unfolding confirm_recall
confirm_recall-Inv v c h =
    attempt-Inv v (system_checks v c ApprovalState.recall_requested) _ h (λ _ _.
      record_action-Inv (recalled_value v) c (plain ApprovalActionKind.recall)
        (omega (arith, h.counted))
        (fit_of_dormant (recalled_value v) refl (recall_step-IsDormant v.steps)))

-- Cancelling is possible only where no step waits or is active.
cancel_checks_closed :
    (v : ApprovalInstanceSnapshot) (c : ApprovalCommand)
    → cancel_checks v c ≡ ok tt
    → is_open v.state ≡ false
unfolding cancel_checks guard
cancel_checks_closed v c h = ground arith

pub cancel-Inv : (v : ApprovalInstanceSnapshot) (c : ApprovalCommand) → Inv v → Inv (cancel v c).0
unfolding cancel
cancel-Inv v c h = attempt-Inv v (cancel_checks v c) _ h (λ u ready.
    record_action-Inv (moved_value v ApprovalState.cancelled) c (plain ApprovalActionKind.cancel)
      (omega (arith, h.counted))
      (fit_of_dormant (moved_value v ApprovalState.cancelled) refl
        (h.fit.dormant (cancel_checks_closed v c ready))))
