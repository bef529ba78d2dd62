-- ===== src/Authorization/Session.antt =====
-- `TrustedActorContextFactory.create` of packages/core/authorization/src/public.ts. The verifier of
-- access tokens, the source of identities and the clock are not part of it: what they answered are
-- arguments.
use youone_rnd.Shared.{
  ◌+◌, Bool, true, false, not, ◌&&◌, ◌||◌, Option, none, some, List, [], ◌∷◌, map, String, Result,
  ok, err, ◌>>=◌, ◌>>◌, fail_if, present, find, filter, str_eq, before, is_blank, is_some,
}
use youone_rnd.Kernel.{Uuid, UtcInstant, StableCode}
use youone_rnd.Authorization.Types.{
  IdentityStatus, AssignmentStatus, VerifiedAuthSession, EffectiveAssignment, VendorMembership,
  ActingAuthority, IdentitySnapshot, TypedScopeGrant, ActorContext, ActorContextSnapshot, Object,
  is_vendor,
}
use youone_rnd.Authorization.Trust.{Trust}

-- `isEffective`, of an item without a status.
unfoldable pub is_effective : UtcInstant → Option UtcInstant → UtcInstant → Bool
is_effective valid_from none now = not (before now valid_from)
is_effective valid_from (some valid_until) now =
    not (before now valid_from) && before now valid_until

abbrev pub is_revoked : AssignmentStatus → Bool
is_revoked AssignmentStatus.active = false
is_revoked AssignmentStatus.revoked = true

abbrev pub assignment_effective : UtcInstant → EffectiveAssignment → Bool
assignment_effective now item = is_effective item.valid_from item.valid_until now

abbrev pub membership_effective : UtcInstant → VendorMembership → Bool
membership_effective now item =
    is_effective item.valid_from item.valid_until now && not (is_revoked item.status)

abbrev pub grant_effective : UtcInstant → TypedScopeGrant → Bool
grant_effective now item = is_effective item.valid_from item.valid_until now

abbrev pub authority_effective : UtcInstant → ActingAuthority → Bool
authority_effective now item = is_effective item.valid_from item.valid_until now

abbrev pub is_active_status : IdentityStatus → Bool
is_active_status IdentityStatus.active = true
is_active_status _ = false

-- `accountValidUntil !== undefined && accountValidUntil <= now`
abbrev pub has_lapsed : Option UtcInstant → UtcInstant → Bool
has_lapsed none now = false
has_lapsed (some until) now = not (before now until)

unfoldable pub assert_active_identity : IdentitySnapshot → UtcInstant → Result (Unit {0})
assert_active_identity identity now =
    fail_if
      (not (is_active_status identity.account_status)
        || before now identity.account_valid_from
        || has_lapsed identity.account_valid_until now)
      "server identity is disabled or expired"

-- The codes of the assignments that are effective.
abbrev pub effective_codes : UtcInstant → List EffectiveAssignment → List StableCode
effective_codes now items = map (λ item. item.stable_code) (filter (assignment_effective now) items)

-- The authority that was asked for, among those that are effective.
unfoldable pub select_authority :
    IdentitySnapshot → UtcInstant → Option Uuid → Result (Option ActingAuthority)
select_authority identity now none = ok none
select_authority identity now (some id) =
    elim (find (λ item. str_eq item.assignment_id id)
      (filter (authority_effective now) identity.acting_authorities)) [
        | none ↦ err "acting authority is missing, expired, or revoked"
        | some authority ↦ ok (some authority)
      ]

abbrev pub effective_actor : Option ActingAuthority → Uuid → Uuid
effective_actor none user = user
effective_actor (some authority) user = authority.effective_actor_id

abbrev pub authority_list : Option ActingAuthority → List ActingAuthority
authority_list none = []
authority_list (some authority) = authority ∷ []

abbrev pub authority_id : Option ActingAuthority → Option Uuid
authority_id none = none
authority_id (some authority) = some authority.assignment_id

abbrev pub authority_evidence : Option ActingAuthority → Option Uuid
authority_evidence none = none
authority_evidence (some authority) = some authority.evidence_id

abbrev pub actor_of :
    VerifiedAuthSession
    → ActorContextSnapshot
    → UtcInstant
    → String
    → Option ActingAuthority
    → ActorContext
actor_of session snapshot now correlation_id selected = record {
  actor_kind = snapshot.identity.account_kind;
  authenticated_actor_id = snapshot.identity.user_id;
  effective_actor_id = effective_actor selected snapshot.identity.user_id;
  auth_subject = snapshot.identity.auth_subject;
  session_id = session.session_id;
  assurance_level = session.assurance_level;
  request_time = now;
  correlation_id = correlation_id;
  organizations = effective_codes now snapshot.identity.organizations;
  departments = effective_codes now snapshot.identity.departments;
  positions = effective_codes now snapshot.identity.positions;
  roles = effective_codes now snapshot.identity.roles;
  permissions = effective_codes now snapshot.identity.permissions;
  vendor_memberships = filter (membership_effective now) snapshot.identity.vendor_memberships;
  scope_grants = filter (grant_effective now) snapshot.scope_grants;
  acting_authorities = authority_list selected;
  selected_acting_authority_id = authority_id selected;
  selected_acting_authority_evidence_id = authority_evidence selected;
  security_entitlements = snapshot.security_entitlements;
  evidence_ids = snapshot.identity.evidence_ids;
}

-- The checks of `create`, up to the context that it freezes.
unfoldable pub actor_checks :
    VerifiedAuthSession
    → UtcInstant
    → Option ActorContextSnapshot
    → String
    → Option Uuid
    → Result ActorContext
actor_checks session now loaded correlation_id acting_authority_id = do
  fail_if (is_blank session.auth_subject || is_blank session.session_id)
      "verified session identity is incomplete"
  fail_if (not (before now session.expires_at)) "verified session is expired"
  snapshot ← present loaded "verified session has no matching server identity"
  fail_if (not (str_eq snapshot.identity.auth_subject session.auth_subject))
      "verified session has no matching server identity"
  assert_active_identity snapshot.identity now
  fail_if (is_vendor snapshot.identity.account_kind && is_some acting_authority_id)
      "vendor accounts cannot select acting authority"
  selected ← select_authority snapshot.identity now acting_authority_id
  ok (actor_of session snapshot now correlation_id selected)

abbrev pub trust_actor : Trust → Result ActorContext → Trust × Result (Object ActorContext)
trust_actor trust (err message) = (trust, err message)
trust_actor trust (ok actor) = (
  record trust {
    trusted_actors = trust.next_identity ∷ trust.trusted_actors;
    next_identity = trust.next_identity + 1;
  },
  ok (record { identity = trust.next_identity; content = actor }),
)

unfoldable pub create_actor :
    Trust
    → Result VerifiedAuthSession
    → UtcInstant
    → (String → String → UtcInstant → Option ActorContextSnapshot)
    → String
    → Option Uuid
    → Trust × Result (Object ActorContext)
create_actor trust verified now load correlation_id acting_authority_id = trust_actor trust (do
  session ← verified
  actor_checks session now (load session.auth_subject session.session_id now) correlation_id
      acting_authority_id)
