-- ===== src/Approval/Effects.antt =====
-- What a call hands out and what it leaves behind: the mutation of a call that succeeds, and the
-- value after a call that throws.
use youone_rnd.Shared.{
  ◌+◌, ◌≡◌, refl, ◌⊎◌, inl, inr, none, List, [], ◌∷◌, ◌++◌, length, arith, All, Result, ok, err,
  String, if◌then◌else◌, ◌>>◌, >>-eq-ok,
}
use youone_rnd.Kernel.{Version}
use youone_rnd.Approval.Types.{
  ApprovalState, ApprovalInstanceSnapshot, ApprovalMutation, ApprovalCommand, ApprovalActionKind,
  ParticipantCommand, RejectCommand, ApprovalSubjectSnapshot, ApprovalPolicyVersion, ResolvedStep,
  ApprovalPolicySelectionInput, ApprovalRuntimeStep, ApprovalRuntimeParticipant,
}
use youone_rnd.Approval.Authority.{guard}
use youone_rnd.Approval.Instance.{
  attempt, ActionInput, record_action, events_of, event_of, payload_of, is_complete_state,
  activate_next, activation_fuel, plain,
}
use youone_rnd.Approval.Methods.{
  submitted_value, started_value, acted_value, acted_input, rejected_value, rejected_input,
  recalled_value, moved_value, submit, submit_checks, activate, act, act_checks, reject,
  reject_checks, request_recall, recall_checks, confirm_recall, cancel, cancel_checks,
  system_checks,
}
use youone_rnd.Approval.Activation.{activate_next-SameFrame}
use youone_rnd.Approval.Invariant.{act_checks-ActReady, guard-eq-ok}
use youone_rnd.Approval.Preservation.{advance_frame}
use youone_rnd.Approval.Reach.{Call, run, command_of}

-- The mutation describes the step from `v` to `w`.
pub record Describes (v w : ApprovalInstanceSnapshot) (m : ApprovalMutation) : Type 0 where
  pub expected : m.expected_version ≡ v.version
  pub advanced : w.version ≡ v.version + 1
  pub snapshot : m.instance_snapshot ≡ w
  pub appended : w.actions ≡ v.actions ++ m.appended_action ∷ []
  pub stamped : All (λ e. (e.aggregate_version ≡ w.version) × (e.payload.state ≡ w.state)) m.events
  pub completion : length m.events ≡ (if is_complete_state w.state then 2 else 1)

-- The one failure that happens after the value has changed.
pub record LeftComplete (v w : ApprovalInstanceSnapshot) (c : ApprovalCommand) (code : String)
    : Type 0 where
  pub reason : code ≡ "APPROVAL_COMPLETION_EVENT_ID_REQUIRED"
  pub missing : c.completion_event_id ≡ none
  pub complete : w.state ≡ ApprovalState.completed
  pub moved : w.version ≡ v.version + 1

record_action-Describes :
    (v w : ApprovalInstanceSnapshot) (c : ApprovalCommand) (i : ActionInput) (m : ApprovalMutation)
    → c.expected_version ≡ v.version
    → w.version ≡ v.version + 1
    → w.actions ≡ v.actions
    → (record_action w c i).1 ≡ ok m
    → Describes v (record_action w c i).0 m
unfolding record_action events_of event_of payload_of
record_action-Describes v w c i m fresh version actions h = record {
  expected = ground arith;
  advanced = ground arith;
  snapshot = ground arith;
  appended = ground arith;
  stamped = ground arith;
  completion = ground arith;
}

record_action-LeftComplete :
    (v w : ApprovalInstanceSnapshot) (c : ApprovalCommand) (i : ActionInput) (code : String)
    → w.version ≡ v.version + 1
    → (record_action w c i).1 ≡ err code
    → LeftComplete v (record_action w c i).0 c code
unfolding record_action events_of
record_action-LeftComplete v w c i code version h = ground arith

-- A method is its checks, and then one recorded value.
module _ {ℓ} {A : Type ℓ} (v : ApprovalInstanceSnapshot) (c : ApprovalCommand) (r : Result A)
    (w : A → ApprovalInstanceSnapshot) (i : A → ActionInput) where
  method_Describes :
      ((a : A)
        → r ≡ ok a
        → (c.expected_version ≡ v.version)
          × ((w a).version ≡ v.version + 1)
          × ((w a).actions ≡ v.actions))
      → (m : ApprovalMutation) → (attempt r v (λ a. record_action (w a) c (i a))).1 ≡ ok m
      → Describes v (attempt r v (λ a. record_action (w a) c (i a))).0 m
  method_Describes facts m h = go r refl h
    where
      go :
          (q : Result A)
          → r ≡ q
          → (attempt q v (λ a. record_action (w a) c (i a))).1 ≡ ok m
          → Describes v (attempt q v (λ a. record_action (w a) c (i a))).0 m
      go (ok a) e k =
          let (fresh, version, actions) = facts a e in
          record_action-Describes v (w a) c (i a) m fresh version actions k
      go (err code) e k = absurd (ground arith)

  method_failure :
      ((a : A) → r ≡ ok a → (w a).version ≡ v.version + 1)
      → (code : String) → (attempt r v (λ a. record_action (w a) c (i a))).1 ≡ err code
      → ((attempt r v (λ a. record_action (w a) c (i a))).0 ≡ v)
        ⊎ LeftComplete v (attempt r v (λ a. record_action (w a) c (i a))).0 c code
  method_failure facts code h = go r refl h
    where
      go :
          (q : Result A)
          → r ≡ q
          → (attempt q v (λ a. record_action (w a) c (i a))).1 ≡ err code
          → ((attempt q v (λ a. record_action (w a) c (i a))).0 ≡ v)
            ⊎ LeftComplete v (attempt q v (λ a. record_action (w a) c (i a))).0 c code
      go (ok a) e k = inr (record_action-LeftComplete v (w a) c (i a) code (facts a e) k)
      go (err other) e k = inl refl

-- Each method's checks begin with the guard of the expected version.
guard_first {ℓ} :
    {A : Type ℓ} (v : ApprovalInstanceSnapshot) (expected : Version) (states : List ApprovalState)
    (k : Result A) {a : A}
    → (guard v expected states >> k) ≡ ok a
    → expected ≡ v.version
guard_first v expected states k h =
    (guard-eq-ok v expected states (>>-eq-ok (guard v expected states) k h).0).0

submit_fresh :
    (v : ApprovalInstanceSnapshot) (c : ApprovalCommand) (subject : ApprovalSubjectSnapshot)
    (policy : ApprovalPolicyVersion) (line : List ResolvedStep)
    (input : ApprovalPolicySelectionInput) {p : ApprovalPolicyVersion}
    → submit_checks v c subject policy line input ≡ ok p
    → c.expected_version ≡ v.version
unfolding submit_checks
submit_fresh v c subject policy line input h = guard_first v c.expected_version _ _ h

system_fresh :
    (v : ApprovalInstanceSnapshot) (c : ApprovalCommand) (state : ApprovalState) {u : Unit {0}}
    → system_checks v c state ≡ ok u
    → c.expected_version ≡ v.version
unfolding system_checks
system_fresh v c state h = guard_first v c.expected_version _ _ h

reject_fresh :
    (v : ApprovalInstanceSnapshot) (c : RejectCommand)
    {found : ApprovalRuntimeStep × ApprovalRuntimeParticipant}
    → reject_checks v c ≡ ok found
    → c.command.expected_version ≡ v.version
unfolding reject_checks
reject_fresh v c h = guard_first v c.command.expected_version _ _ h

recall_fresh :
    (v : ApprovalInstanceSnapshot) (c : ApprovalCommand) {u : Unit {0}}
    → recall_checks v c ≡ ok u
    → c.expected_version ≡ v.version
unfolding recall_checks
recall_fresh v c h = guard_first v c.expected_version _ _ h

cancel_fresh :
    (v : ApprovalInstanceSnapshot) (c : ApprovalCommand) {u : Unit {0}}
    → cancel_checks v c ≡ ok u
    → c.expected_version ≡ v.version
unfolding cancel_checks
cancel_fresh v c h = guard_first v c.expected_version _ _ h

module _ (v : ApprovalInstanceSnapshot) where
  activated_frame :
      let w = activate_next (activation_fuel (started_value v)) (started_value v) in
      (w.version ≡ v.version + 1) × (w.actions ≡ v.actions)
  activated_frame = let frame = activate_next-SameFrame (started_value v) in (frame.0, frame.1)

  acted_actions :
      (c : ParticipantCommand) (found : ApprovalRuntimeStep × ApprovalRuntimeParticipant)
      → act_checks v c ≡ ok found
      → (acted_value v c found.0).actions ≡ v.actions
  acted_actions c found e = (advance_frame v c (act_checks-ActReady v c found.0 found.1 e)).1

-- A call that succeeds was made for the instance's version, advances the version by one, appends
-- exactly the action that it hands out, hands out the value that it leaves behind, and stamps every
-- event with that version and state; a completed instance yields a second event, any other one only.
pub run-Describes :
    (v : ApprovalInstanceSnapshot) (call : Call) {m : ApprovalMutation}
    → (run v call).1 ≡ ok m
    → Describes v (run v call).0 m
unfolding run submit activate act reject request_recall confirm_recall cancel
run-Describes v (Call.submit c subject policy line input) {m} h =
    method_Describes v c (submit_checks v c subject policy line input)
      (λ p. submitted_value v c subject p line input) (λ _. plain ApprovalActionKind.submit)
      (λ p e. (submit_fresh v c subject policy line input e, refl, refl)) m h
run-Describes v (Call.activate c) {m} h =
    method_Describes v c (system_checks v c ApprovalState.submitted)
      (λ _. activate_next (activation_fuel (started_value v)) (started_value v))
      (λ _. plain ApprovalActionKind.activate)
      (λ _ e. (system_fresh v c _ e, (activated_frame v).0, (activated_frame v).1)) m h
run-Describes v (Call.act c) {m} h =
    method_Describes v c.command (act_checks v c) (λ found. acted_value v c found.0)
      (λ found. acted_input c found.0 found.1)
      (λ found e.
        ((act_checks-ActReady v c found.0 found.1 e).fresh, refl, acted_actions v c found e))
      m h
run-Describes v (Call.reject c) {m} h =
    method_Describes v c.command (reject_checks v c) (λ _. rejected_value v c)
      (λ found. rejected_input c found.0 found.1) (λ _ e. (reject_fresh v c e, refl, refl)) m h
run-Describes v (Call.request_recall c) {m} h =
    method_Describes v c (recall_checks v c) (λ _. moved_value v ApprovalState.recall_requested)
      (λ _. plain ApprovalActionKind.request_recall) (λ _ e. (recall_fresh v c e, refl, refl)) m h
run-Describes v (Call.confirm_recall c) {m} h =
    method_Describes v c (system_checks v c ApprovalState.recall_requested) (λ _. recalled_value v)
      (λ _. plain ApprovalActionKind.recall) (λ _ e. (system_fresh v c _ e, refl, refl)) m h
run-Describes v (Call.cancel c) {m} h =
    method_Describes v c (cancel_checks v c) (λ _. moved_value v ApprovalState.cancelled)
      (λ _. plain ApprovalActionKind.cancel) (λ _ e. (cancel_fresh v c e, refl, refl)) m h

-- A call that throws leaves the instance as it was, but for one case: a call that completes the
-- instance without a completion event id throws after the instance has moved to COMPLETED.
pub run_failure :
    (v : ApprovalInstanceSnapshot) (call : Call) {code : String}
    → (run v call).1 ≡ err code
    → ((run v call).0 ≡ v) ⊎ LeftComplete v (run v call).0 (command_of call) code
unfolding run submit activate act reject request_recall confirm_recall cancel
run_failure v (Call.submit c subject policy line input) {code} h =
    method_failure v c (submit_checks v c subject policy line input)
      (λ p. submitted_value v c subject p line input) (λ _. plain ApprovalActionKind.submit)
      (λ p e. refl) code h
run_failure v (Call.activate c) {code} h =
    method_failure v c (system_checks v c ApprovalState.submitted)
      (λ _. activate_next (activation_fuel (started_value v)) (started_value v))
      (λ _. plain ApprovalActionKind.activate) (λ _ e. (activated_frame v).0) code h
run_failure v (Call.act c) {code} h =
    method_failure v c.command (act_checks v c) (λ found. acted_value v c found.0)
      (λ found. acted_input c found.0 found.1) (λ found e. refl) code h
run_failure v (Call.reject c) {code} h =
    method_failure v c.command (reject_checks v c) (λ _. rejected_value v c)
      (λ found. rejected_input c found.0 found.1) (λ _ e. refl) code h
run_failure v (Call.request_recall c) {code} h =
    method_failure v c (recall_checks v c) (λ _. moved_value v ApprovalState.recall_requested)
      (λ _. plain ApprovalActionKind.request_recall) (λ _ e. refl) code h
run_failure v (Call.confirm_recall c) {code} h =
    method_failure v c (system_checks v c ApprovalState.recall_requested) (λ _. recalled_value v)
      (λ _. plain ApprovalActionKind.recall) (λ _ e. refl) code h
run_failure v (Call.cancel c) {code} h =
    method_failure v c (cancel_checks v c) (λ _. moved_value v ApprovalState.cancelled)
      (λ _. plain ApprovalActionKind.cancel) (λ _ e. refl) code h
