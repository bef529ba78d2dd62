-- ===== src/Approval/Terminal.antt =====
-- Instances that no call moves any more.
use youone_rnd.Shared.{
  ◌≡◌, refl, ◌⊎◌, inl, inr, false, List, [], ◌∷◌, arith, err, String, any, Bool-cases, ◌==◌,
}
use youone_rnd.Kernel.{Version}
use youone_rnd.Approval.Types.{ApprovalState, ApprovalInstanceSnapshot, same_state}
use youone_rnd.Approval.Authority.{guard}
use youone_rnd.Approval.Methods.{
  submit, submit_checks, activate, act, act_checks, reject, reject_checks, request_recall,
  recall_checks, confirm_recall, cancel, cancel_checks, system_checks,
}
use youone_rnd.Approval.Reach.{Call, run}

abbrev pub IsTerminal : ApprovalState → Type 0
IsTerminal state = (state ≡ ApprovalState.completed) ⊎ (state ≡ ApprovalState.cancelled)

guard_refuses :
    (v : ApprovalInstanceSnapshot) (expected : Version) (states : List ApprovalState)
    → any (same_state v.state) states ≡ false
    → (code : String) × (guard v expected states ≡ err code)
unfolding guard
guard_refuses v expected states h = elim (Bool-cases (expected == v.version)) [
  | inl fresh ↦ ("APPROVAL_STATE_INVALID", rw (fresh, h) refl)
  | inr stale ↦ ("APPROVAL_STALE_VERSION", rw stale refl)
]

-- A completed or cancelled instance is final: every call throws and changes nothing.
pub run_terminal :
    (v : ApprovalInstanceSnapshot) (call : Call)
    → IsTerminal v.state
    → (code : String) × (run v call ≡ (v, err code))
unfolding run submit activate act reject request_recall confirm_recall cancel submit_checks
    system_checks act_checks reject_checks recall_checks cancel_checks
run_terminal v (Call.submit c subject policy line input) t =
    let (code, e) = guard_refuses v c.expected_version (ApprovalState.draft ∷ []) (ground arith) in
    (code, rw e refl)
run_terminal v (Call.activate c) t =
    let (code, e) =
      guard_refuses v c.expected_version (ApprovalState.submitted ∷ []) (ground arith) in
    (code, rw e refl)
run_terminal v (Call.act c) t =
    let (code, e) =
      guard_refuses v c.command.expected_version (ApprovalState.in_progress ∷ []) (ground arith) in
    (code, rw e refl)
run_terminal v (Call.reject c) t =
    let (code, e) =
      guard_refuses v c.command.expected_version (ApprovalState.in_progress ∷ []) (ground arith) in
    (code, rw e refl)
run_terminal v (Call.request_recall c) t =
    let (code, e) =
      guard_refuses v c.expected_version (ApprovalState.submitted ∷ ApprovalState.in_progress ∷ [])
        (ground arith) in
    (code, rw e refl)
run_terminal v (Call.confirm_recall c) t =
    let (code, e) =
      guard_refuses v c.expected_version (ApprovalState.recall_requested ∷ []) (ground arith) in
    (code, rw e refl)
run_terminal v (Call.cancel c) t =
    let (code, e) =
      guard_refuses v c.expected_version
        (ApprovalState.draft ∷ ApprovalState.rejected ∷ ApprovalState.recalled ∷ [])
        (ground arith) in
    (code, rw e refl)
