-- ===== src/Approval/Authority.antt =====
-- packages/core/approval/src/domain/approval.ts: who may do what (`guard`, `guardDirectSubmitter`,
-- `guardActor` of `ApprovalInstance`).
use youone_rnd.Shared.{
  Bool, true, false, not, ◌&&◌, ◌||◌, some, List, Result, ◌>>=◌, ◌>>◌, fail_if, present, ◌==◌,
  if◌then◌else◌, any, all, str_eq, includes, truthy, opt_eq, before, is_some,
}
use youone_rnd.Kernel.{UtcInstant, Version}
use youone_rnd.Approval.Types.{
  ApprovalState, ApprovalActionKind, ActorType, AccountKind, ApprovalActorSnapshot,
  ApprovalInstanceSnapshot, ApprovalRuntimeParticipant, same_state,
}
use youone_rnd.Approval.Policy.{
  is_official_position, is_senior_position, approval_permission_for_action,
}

-- `guard`
unfoldable pub guard : ApprovalInstanceSnapshot → Version → List ApprovalState → Result (Unit {0})
guard value expected states = do
  fail_if (not (expected == value.version)) "APPROVAL_STALE_VERSION"
  fail_if (not (any (same_state value.state) states)) "APPROVAL_STATE_INVALID"

abbrev pub is_user : ActorType → Bool
is_user ActorType.user = true
is_user ActorType.system = false

abbrev pub is_internal : AccountKind → Bool
is_internal AccountKind.internal = true
is_internal _ = false

abbrev pub is_system_account : AccountKind → Bool
is_system_account AccountKind.system = true
is_system_account _ = false

-- `actorType === "SYSTEM" && accountKind === "SYSTEM"`
abbrev pub is_system_actor : ApprovalActorSnapshot → Bool
is_system_actor actor = not (is_user actor.actor_type) && is_system_account actor.account_kind

-- A trusted internal user who acts in their own name.
abbrev pub is_direct_internal : ApprovalActorSnapshot → Bool
is_direct_internal actor =
    is_user actor.actor_type
    && (is_internal actor.account_kind
        && (truthy actor.authenticated_user_id
            && (opt_eq actor.authenticated_user_id actor.effective_user_id
                && not (is_some actor.acting_authority))))

-- `guardDirectSubmitter`
unfoldable pub guard_direct_submitter :
    ApprovalInstanceSnapshot → ApprovalActorSnapshot → Result (Unit {0})
guard_direct_submitter value actor =
    fail_if
      (not
        (is_direct_internal actor && opt_eq actor.effective_user_id (some value.submitter_user_id)))
      "APPROVAL_DIRECT_SUBMITTER_REQUIRED"

abbrev pub is_approve : ApprovalActionKind → Bool
is_approve ApprovalActionKind.approve = true
is_approve _ = false

-- The branch of `guardActor` for an actor who is the participant.
unfoldable pub guard_own :
    ApprovalActorSnapshot → ApprovalRuntimeParticipant → ApprovalActionKind → Result (Unit {0})
guard_own actor participant action = do
  fail_if
      (not (includes actor.position_ids participant.position_id)
        || not (all (includes actor.role_ids) participant.role_ids))
      "APPROVAL_ACTOR_ASSIGNMENT_MISMATCH"
  fail_if
      (is_approve action
        && (not (is_official_position participant.position_id)
            || is_senior_position participant.position_id))
      "APPROVAL_OFFICIAL_AUTHORITY_INVALID"

-- The branch of `guardActor` for an actor who stands in for the participant.
unfoldable pub guard_acting :
    ApprovalActorSnapshot
    → ApprovalRuntimeParticipant
    → ApprovalActionKind
    → UtcInstant
    → Result (Unit {0})
guard_acting actor participant action at = do
  a ← present actor.acting_authority "APPROVAL_ACTING_AUTHORITY_INVALID"
  fail_if
      (not (opt_eq (some a.delegate_user_id) actor.authenticated_user_id)
        || not (str_eq a.grantor_user_id participant.user_id)
        || before at a.valid_from
        || not (before at a.valid_to))
      "APPROVAL_ACTING_AUTHORITY_INVALID"
  permission ← approval_permission_for_action action
  fail_if (not (includes a.allowed_action_ids permission)) "APPROVAL_ACTING_ACTION_FORBIDDEN"
  fail_if (is_approve action && not (is_official_position a.represented_position_id))
      "APPROVAL_OFFICIAL_AUTHORITY_INVALID"

-- `actor` is the participant, in their own name.
abbrev pub is_own : ApprovalActorSnapshot → ApprovalRuntimeParticipant → Bool
is_own actor participant =
    opt_eq actor.authenticated_user_id actor.effective_user_id
    && opt_eq actor.effective_user_id (some participant.user_id)

-- `guardActor`
unfoldable pub guard_actor :
    ApprovalActorSnapshot
    → ApprovalRuntimeParticipant
    → ApprovalActionKind
    → UtcInstant
    → Result (Unit {0})
guard_actor actor participant action at = do
  fail_if
      (not (is_user actor.actor_type)
        || not (is_internal actor.account_kind)
        || not (truthy actor.authenticated_user_id))
      "APPROVAL_USER_ACTOR_REQUIRED"
  if is_own actor participant
      then guard_own actor participant action
      else guard_acting actor participant action at
