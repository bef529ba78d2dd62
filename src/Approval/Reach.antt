-- ===== src/Approval/Reach.antt =====
-- Every history of an approval instance: the methods as commands, applied in any order by any
-- caller, whether they succeed or throw.
use mathlib.Core.List.{Memᴰ}
use mathlib.Core.Path.{subst}
use youone_rnd.Shared.{
  ◌<◌, ◌≡◌, true, List, [], ◌∷◌, length, any, arith, All, ok, Result, ap, sym, ◌∙◌,
}
use youone_rnd.Kernel.{Uuid}
use youone_rnd.Approval.Types.{
  ApprovalState, ApprovalRuntimeStep, ApprovalInstanceSnapshot, ApprovalCommand, ParticipantCommand,
  RejectCommand, ApprovalSubjectSnapshot, ApprovalMutation, ApprovalPolicyVersion, ResolvedStep,
  ApprovalPolicySelectionInput,
}
use youone_rnd.Approval.Steps.{is_waiting, is_active}
use youone_rnd.Approval.Instance.{create}
use youone_rnd.Approval.Methods as Methods
use youone_rnd.Approval.Methods.{create_resubmission}
use youone_rnd.Approval.Invariant.{
  Inv, create-Inv, submit-Inv, activate-Inv, fit_of_dormant, is_open,
}
use youone_rnd.Approval.Preservation.{
  act-Inv, reject-Inv, request_recall-Inv, confirm_recall-Inv, cancel-Inv,
}

pub data Call : Type 0 where
  submit :
      ApprovalCommand
      → ApprovalSubjectSnapshot
      → ApprovalPolicyVersion
      → List ResolvedStep
      → ApprovalPolicySelectionInput
      → Call
  activate : ApprovalCommand → Call
  act : ParticipantCommand → Call
  reject : RejectCommand → Call
  request_recall : ApprovalCommand → Call
  confirm_recall : ApprovalCommand → Call
  cancel : ApprovalCommand → Call

-- A call on the instance: the value that it leaves behind, and what it returns or throws.
unfoldable pub run :
    ApprovalInstanceSnapshot → Call → ApprovalInstanceSnapshot × Result ApprovalMutation
run v (submit c subject policy line input) = Methods.submit v c subject policy line input
run v (activate c) = Methods.activate v c
run v (act c) = Methods.act v c
run v (reject c) = Methods.reject v c
run v (request_recall c) = Methods.request_recall v c
run v (confirm_recall c) = Methods.confirm_recall v c
run v (cancel c) = Methods.cancel v c

-- The command that a call carries.
abbrev pub command_of : Call → ApprovalCommand
command_of (submit c subject policy line input) = c
command_of (activate c) = c
command_of (act c) = c.command
command_of (reject c) = c.command
command_of (request_recall c) = c
command_of (confirm_recall c) = c
command_of (cancel c) = c

-- The instances that the program can reach: created, resubmitted from a reachable one, or left
-- behind by a call.
pub data Reach : ApprovalInstanceSnapshot → Type 0 where
  created : (id submitter : Uuid) → Reach (create id submitter)
  resubmitted :
      {v w : ApprovalInstanceSnapshot} (id submitter : Uuid)
      → Reach v
      → create_resubmission v id submitter ≡ ok w
      → Reach w
  called : {v : ApprovalInstanceSnapshot} (call : Call) → Reach v → Reach (run v call).0

run-Inv : (v : ApprovalInstanceSnapshot) (call : Call) → Inv v → Inv (run v call).0
unfolding run
run-Inv v (submit c subject policy line input) h = submit-Inv v c subject policy line input h
run-Inv v (activate c) h = activate-Inv v c h
run-Inv v (act c) h = act-Inv v c h
run-Inv v (reject c) h = reject-Inv v c h
run-Inv v (request_recall c) h = request_recall-Inv v c h
run-Inv v (confirm_recall c) h = confirm_recall-Inv v c h
run-Inv v (cancel c) h = cancel-Inv v c h

resubmission_fresh :
    (v w : ApprovalInstanceSnapshot) (id submitter : Uuid)
    → create_resubmission v id submitter ≡ ok w
    → (w.version ≡ 0) × (w.actions ≡ []) × (w.steps ≡ []) × (w.state ≡ ApprovalState.draft)
unfolding create_resubmission
resubmission_fresh v w id submitter h = ground arith

resubmission-Inv :
    (v w : ApprovalInstanceSnapshot) (id submitter : Uuid)
    → create_resubmission v id submitter ≡ ok w
    → Inv w
resubmission-Inv v w id submitter h =
    let (version, actions, steps, state) = resubmission_fresh v w id submitter h in
    record {
      counted = version ∙ sym (ap length actions);
      fit =
          fit_of_dormant w (ap is_open state) (ap (any is_waiting) steps, ap (any is_active) steps);
    }

-- Every reachable instance satisfies the invariant: its version is the number of its recorded
-- actions, its steps open in the order of their sequence numbers, one of them is active while it is
-- in progress, and none waits or is active once it is no longer open.
pub Reach-Inv : {v : ApprovalInstanceSnapshot} → Reach v → Inv v
Reach-Inv (created id submitter) = create-Inv id submitter
Reach-Inv (resubmitted {v} {w} id submitter r e) = resubmission-Inv v w id submitter e
Reach-Inv (called {v} call r) = run-Inv v call (Reach-Inv r)

All_mem {ℓ κ} : {A : Type ℓ} (P : A → Type κ) (xs : List A) {x : A} → All P xs → Memᴰ x xs → P x
All_mem P [] h m = elim m [ ]
All_mem P (x ∷ xs) h (Memᴰ.head e) = subst P (sym e) h.0
All_mem P (x ∷ xs) h (Memᴰ.tail m) = All_mem P xs h.1 m

-- In every reachable instance a waiting step comes strictly after every active one: no step is open
-- to its participants while a step of a smaller sequence number still waits.
pub active_before_waiting :
    {v : ApprovalInstanceSnapshot} (s t : ApprovalRuntimeStep)
    → Reach v
    → Memᴰ s v.steps
    → Memᴰ t v.steps
    → is_active s ≡ true
    → is_waiting t ≡ true
    → s.sequence_no < t.sequence_no
active_before_waiting {v} s t r ms mt a w =
    let (bound, gate) = (Reach-Inv r).fit.gated in
    let low = (All_mem _ v.steps gate ms).0 a in
    let high = (All_mem _ v.steps gate mt).1 w in omega (arith, low, high)
