-- ===== src/Approval/Permission.antt =====
-- Who may act on a step: an independent description of `guardActor`, and what an accepted action of
-- `act` shows of its actor.
use youone_rnd.Shared.{
  ◌≡◌, refl, ◌↔◌, ◌⊎◌, inl, inr, true, false, Option, none, some, all, arith, ok, err, str_eq,
  includes, before, truthy, opt_eq, String, Bool-cases, Result,
}
use youone_rnd.Kernel.{UtcInstant}
use youone_rnd.Approval.Types.{
  ApprovalActionKind, ActorType, AccountKind, ApprovalActorSnapshot, ActingAuthoritySnapshot,
  ApprovalRuntimeParticipant, ApprovalInstanceSnapshot, ParticipantCommand, ApprovalRuntimeStep,
  ApprovalMutation,
}
use youone_rnd.Approval.Policy.{
  is_official_position, is_senior_position, approval_permission_for_action,
}
use youone_rnd.Approval.Authority.{guard_own, guard_acting, guard_actor, is_own, is_approve}
use youone_rnd.Approval.Methods.{act, act_checks, action_kind}
use youone_rnd.Approval.Invariant.{ActReady, act_checks-ActReady}

-- The permission that stands for an action on a step.
abbrev pub Permits : ApprovalActionKind → String → Type 0
Permits action permission = approval_permission_for_action action ≡ ok permission

-- The participant acts in their own name, with the assignments of the snapshot.
pub record ActsAsSelf (actor : ApprovalActorSnapshot) (participant : ApprovalRuntimeParticipant)
    (action : ApprovalActionKind) : Type 0 where
  pub own : is_own actor participant ≡ true
  pub position : includes actor.position_ids participant.position_id ≡ true
  pub roles : all (includes actor.role_ids) participant.role_ids ≡ true
  pub official : is_approve action ≡ true → is_official_position participant.position_id ≡ true
  pub no_senior : is_approve action ≡ true → is_senior_position participant.position_id ≡ false

-- A delegate acts under an authority that the participant granted.
pub record ActsAsDelegate (actor : ApprovalActorSnapshot) (participant : ApprovalRuntimeParticipant)
    (action : ApprovalActionKind) (at : UtcInstant) : Type 0 where
  pub not_own : is_own actor participant ≡ false
  pub authority : ActingAuthoritySnapshot
  pub snapshot : actor.acting_authority ≡ some authority
  pub delegate : opt_eq (some authority.delegate_user_id) actor.authenticated_user_id ≡ true
  pub grantor : str_eq authority.grantor_user_id participant.user_id ≡ true
  pub begun : before at authority.valid_from ≡ false
  pub unexpired : before at authority.valid_to ≡ true
  pub permission : String
  pub permitted : Permits action permission
  pub granted : includes authority.allowed_action_ids permission ≡ true
  pub official :
      is_approve action ≡ true → is_official_position authority.represented_position_id ≡ true

-- A signed-in internal user, who is the participant or their delegate.
pub record MayAct (actor : ApprovalActorSnapshot) (participant : ApprovalRuntimeParticipant)
    (action : ApprovalActionKind) (at : UtcInstant) : Type 0 where
  pub user : actor.actor_type ≡ ActorType.user
  pub internal : actor.account_kind ≡ AccountKind.internal
  pub signed_in : truthy actor.authenticated_user_id ≡ true
  pub capacity : ActsAsSelf actor participant action ⊎ ActsAsDelegate actor participant action at

guard_own-ActsAsSelf :
    (actor : ApprovalActorSnapshot) (participant : ApprovalRuntimeParticipant)
    (action : ApprovalActionKind)
    → is_own actor participant ≡ true
    → guard_own actor participant action ≡ ok tt
    → ActsAsSelf actor participant action
unfolding guard_own
guard_own-ActsAsSelf actor participant action own h = record {
  own = own;
  position = ground arith;
  roles = ground arith;
  official = λ e. ground arith;
  no_senior = λ e. ground arith;
}

guard_acting-ActsAsDelegate :
    (actor : ApprovalActorSnapshot) (participant : ApprovalRuntimeParticipant)
    (action : ApprovalActionKind) (at : UtcInstant) (a : ActingAuthoritySnapshot)
    (permission : String)
    → is_own actor participant ≡ false
    → actor.acting_authority ≡ some a
    → approval_permission_for_action action ≡ ok permission
    → guard_acting actor participant action at ≡ ok tt
    → ActsAsDelegate actor participant action at
unfolding guard_acting
guard_acting-ActsAsDelegate actor participant action at a permission own e p h = record {
  not_own = own;
  authority = a;
  snapshot = e;
  delegate = ground arith;
  grantor = ground arith;
  begun = ground arith;
  unexpired = ground arith;
  permission = permission;
  permitted = p;
  granted = ground arith;
  official = λ q. ground arith;
}

guard_acting_parts :
    (actor : ApprovalActorSnapshot) (participant : ApprovalRuntimeParticipant)
    (action : ApprovalActionKind) (at : UtcInstant)
    → guard_acting actor participant action at ≡ ok tt
    → (a : ActingAuthoritySnapshot) × (permission : String) × (actor.acting_authority ≡ some a)
      × (approval_permission_for_action action ≡ ok permission)
unfolding guard_acting
guard_acting_parts actor participant action at h =
    go actor.acting_authority (approval_permission_for_action action) refl refl
  where
    go :
        (o : Option ActingAuthoritySnapshot) (r : Result String)
        → actor.acting_authority ≡ o
        → approval_permission_for_action action ≡ r
        → (a : ActingAuthoritySnapshot) × (permission : String) × (actor.acting_authority ≡ some a)
          × (approval_permission_for_action action ≡ ok permission)
    go (some a) (ok p) e f = (a, p, e, f)
    go none r e f = absurd (ground arith)
    go (some a) (err code) e f = absurd (ground arith)

guard_actor_sound :
    (actor : ApprovalActorSnapshot) (participant : ApprovalRuntimeParticipant)
    (action : ApprovalActionKind) (at : UtcInstant)
    → guard_actor actor participant action at ≡ ok tt
    → MayAct actor participant action at
unfolding guard_actor
guard_actor_sound actor participant action at h = record {
  user = ground arith;
  internal = ground arith;
  signed_in = ground arith;
  capacity = elim (Bool-cases (is_own actor participant)) [
    | inl own ↦ inl (guard_own-ActsAsSelf actor participant action own (ground arith))
    | inr other ↦
        let accepted : guard_acting actor participant action at ≡ ok tt = ground arith in
        let (a, permission, e, p) = guard_acting_parts actor participant action at accepted in
        inr
          (guard_acting-ActsAsDelegate actor participant action at a permission other e p accepted)
  ];
}

guard_own_complete :
    {actor : ApprovalActorSnapshot} {participant : ApprovalRuntimeParticipant}
    {action : ApprovalActionKind}
    → ActsAsSelf actor participant action
    → guard_own actor participant action ≡ ok tt
unfolding guard_own
guard_own_complete s = ground (arith, s.position, s.roles, s.official, s.no_senior)

guard_acting_complete :
    {actor : ApprovalActorSnapshot} {participant : ApprovalRuntimeParticipant}
    {action : ApprovalActionKind} {at : UtcInstant}
    → ActsAsDelegate actor participant action at
    → guard_acting actor participant action at ≡ ok tt
unfolding guard_acting
guard_acting_complete d = ground (
  arith, d.snapshot, d.delegate, d.grantor, d.begun, d.unexpired, d.permitted, d.granted,
  d.official,
)

guard_actor_complete :
    {actor : ApprovalActorSnapshot} {participant : ApprovalRuntimeParticipant}
    {action : ApprovalActionKind} {at : UtcInstant}
    → MayAct actor participant action at
    → guard_actor actor participant action at ≡ ok tt
unfolding guard_actor
guard_actor_complete m = elim m.capacity [
  | inl s ↦ ground (arith, m.user, m.internal, m.signed_in, s.own, guard_own_complete s)
  | inr d ↦ ground (arith, m.user, m.internal, m.signed_in, d.not_own, guard_acting_complete d)
]

-- `guardActor` accepts exactly the signed-in internal users who are the participant with the
-- participant's assignments, or a delegate of the participant under an unexpired authority that
-- grants the action; approving also takes the position of a director or representative.
pub guard_actor_iff :
    (actor : ApprovalActorSnapshot) (participant : ApprovalRuntimeParticipant)
    (action : ApprovalActionKind) (at : UtcInstant)
    → (guard_actor actor participant action at ≡ ok tt) ↔ MayAct actor participant action at
guard_actor_iff actor participant action at =
    (guard_actor_sound actor participant action at, guard_actor_complete)

act_accepted :
    (v : ApprovalInstanceSnapshot) (c : ParticipantCommand) {m : ApprovalMutation}
    → (act v c).1 ≡ ok m
    → (step : ApprovalRuntimeStep) × (participant : ApprovalRuntimeParticipant) × (act_checks v c
        ≡ ok (step, participant))
unfolding act
act_accepted v c h = go (act_checks v c) refl
  where
    go :
        (r : Result (ApprovalRuntimeStep × ApprovalRuntimeParticipant))
        → act_checks v c ≡ r
        → (step : ApprovalRuntimeStep) × (participant : ApprovalRuntimeParticipant) × (act_checks v
              c
            ≡ ok (step, participant))
    go (ok (step, participant)) e = (step, participant, e)
    go (err code) e = absurd (ground arith)

-- An accepted action names an active step and an active participant of it, has the kind of the
-- step's role, and comes from an actor who may take that action for that participant.
pub act_authorized :
    (v : ApprovalInstanceSnapshot) (c : ParticipantCommand) {m : ApprovalMutation}
    → (act v c).1 ≡ ok m
    → (step : ApprovalRuntimeStep) × (participant : ApprovalRuntimeParticipant) × ActReady v c step
        participant
      × MayAct c.command.actor participant (action_kind c.kind) c.command.at
act_authorized v c h =
    let (step, participant, checked) = act_accepted v c h in
    let ready = act_checks-ActReady v c step participant checked in
    (step, participant, ready, guard_actor_sound _ _ _ _ ready.authority)
