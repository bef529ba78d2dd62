-- ===== src/Authorization/Denials.antt =====
-- packages/core/authorization/src/public.ts: the checks of a decision that deny on their own.
use youone_rnd.Shared.{
  ℕ, Bool, false, not, ◌&&◌, ◌||◌, Option, none, some, List, [], ◌∷◌, String, ◌==◌, any, str_eq,
  opt_eq, includes, codes, is_some, is_none, if◌then◌else◌,
}
use youone_rnd.Kernel.{StableCode}
use youone_rnd.Authorization.Types.{
  ActorContext, ActingAuthority, ServerResourceContextRecord, ResourceSecurity, ProjectionProfile,
  AuthorizationRequest, Object, is_vendor, same_actor_kind, is_controlled, is_released,
}

abbrev pub is_official_approval : StableCode → Bool
is_official_approval action = str_eq action "approval.step.approve"

abbrev pub is_source_read : StableCode → Bool
is_source_read action =
    str_eq action "technical_document.content.preview"
    || str_eq action "technical_document.content.download"

abbrev pub is_source_action : StableCode → Bool
is_source_action action =
    is_source_read action
    || str_eq action "technical_document.copy.render"
    || str_eq action "technical_document.copy.print"

-- `vendorHardDeny`
unfoldable pub vendor_hard_deny :
    ActorContext → StableCode → ServerResourceContextRecord → Option String
vendor_hard_deny actor action resource =
    if not (is_vendor actor.actor_kind)
    then none
    else (if is_official_approval action
        then some "AUTHZ_VENDOR_APPROVAL_DENIED"
        else (if str_eq action "technical_document.repository.search"
            then some "AUTHZ_VENDOR_REPOSITORY_SEARCH_DENIED"
            else (if is_source_action action && is_controlled resource.security_level
                then some "AUTHZ_VENDOR_CONTROLLED_SOURCE_DENIED"
                else (if is_source_read action
                      && is_released resource.security_level
                      && is_none resource.external_release_approval_evidence_id
                    then some "AUTHZ_VENDOR_EXTERNAL_RELEASE_APPROVAL_REQUIRED"
                    else none))))

-- `permissions.includes(action)`, or an acting authority that allows it.
abbrev pub is_permitted_action : ActorContext → StableCode → Bool
is_permitted_action actor action =
    includes actor.permissions action
    || any (λ authority. includes authority.allowed_actions action) actor.acting_authorities

abbrev pub is_participant : ActorContext → ServerResourceContextRecord → Bool
is_participant actor resource =
    opt_eq resource.approval_participant_user_id (some actor.effective_actor_id)
    && is_some resource.approval_participant_evidence_id

abbrev pub is_direct_official : ActorContext → Bool
is_direct_official actor =
    includes actor.positions "POSITION_LAB_DIRECTOR"
    || includes actor.positions "POSITION_REPRESENTATIVE"

abbrev pub is_official_authority : ActorContext → StableCode → ActingAuthority → Bool
is_official_authority actor action authority =
    opt_eq (some authority.assignment_id) actor.selected_acting_authority_id
    && str_eq authority.effective_actor_id actor.effective_actor_id
    && includes authority.allowed_actions action
    && (str_eq authority.role_id "ROLE_LAB_DIRECTOR"
        || str_eq authority.role_id "ROLE_REPRESENTATIVE")

abbrev pub is_acting_official : ActorContext → StableCode → Bool
is_acting_official actor action =
    is_some actor.selected_acting_authority_id
    && any (is_official_authority actor action) actor.acting_authorities

-- `officialApprovalDeny`
unfoldable pub official_approval_deny :
    ActorContext → StableCode → ServerResourceContextRecord → Option String
official_approval_deny actor action resource =
    if not (is_official_approval action)
    then none
    else (if not (is_participant actor resource)
        then some "AUTHZ_APPROVAL_PARTICIPANT_MISMATCH"
        else (if is_direct_official actor || is_acting_official actor action
            then none
            else some "AUTHZ_OFFICIAL_APPROVER_REQUIRED"))

-- `isSystemAdminSensitiveSourceDenied`
abbrev pub lacks_entitlement : Option ResourceSecurity → List StableCode → Bool
lacks_entitlement (some ResourceSecurity.sec_l3_confidential) entitlements =
    not (includes entitlements "ENTITLEMENT_L3_SOURCE_READ")
lacks_entitlement (some ResourceSecurity.sec_l4_core_secret) entitlements =
    not (includes entitlements "ENTITLEMENT_L4_SOURCE_READ")
lacks_entitlement _ entitlements = false

unfoldable pub is_system_admin_sensitive_source_denied :
    ActorContext → ServerResourceContextRecord → Bool
is_system_admin_sensitive_source_denied actor resource =
    includes actor.roles "ADMIN_SYSTEM"
    && lacks_entitlement resource.security_level actor.security_entitlements

-- `/\.read$/`
unfoldable pub ends_in_read : List ℕ → Bool
ends_in_read [] = false
ends_in_read (c ∷ cs) = is_read (c ∷ cs) || ends_in_read cs
  where
    is_read : List ℕ → Bool
    is_read (a ∷ b ∷ d ∷ e ∷ f ∷ []) = a == b'.' && b == b'r' && d == b'e' && e == b'a' && f == b'd'
    is_read _ = false

abbrev pub same_version : Option ℕ → ℕ → Bool
same_version none v = false
same_version (some w) v = v == w

abbrev pub projection_matches : ActorContext → AuthorizationRequest → ProjectionProfile → Bool
projection_matches actor request projection =
    opt_eq (some projection.profile_id) request.projection_profile_id
    && same_version request.projection_profile_version projection.version
    && same_actor_kind projection.actor_kind actor.actor_kind
    && str_eq projection.resource_type request.resource.content.resource_type
    && str_eq projection.action request.action

-- The part of `validateProjection` behind its first test; `trusted` tells whether the registry made
-- the profile.
abbrev pub untrusted_projection :
    ActorContext
    → AuthorizationRequest
    → (Object ProjectionProfile → Bool)
    → Option (Object ProjectionProfile)
    → Option String
untrusted_projection actor request trusted none =
    if is_none request.projection_profile_id
    then none
    else some "AUTHZ_PROJECTION_PROFILE_UNTRUSTED"
untrusted_projection actor request trusted (some projection) =
    if trusted projection && projection_matches actor request projection.content
    then none
    else some "AUTHZ_PROJECTION_PROFILE_UNTRUSTED"

unfoldable pub validate_projection :
    ActorContext
    → AuthorizationRequest
    → (Object ProjectionProfile → Bool)
    → Option (Object ProjectionProfile)
    → Option String
validate_projection actor request trusted projection =
    if is_vendor actor.actor_kind
      && ends_in_read (codes request.action)
      && (is_none projection
          || is_none request.projection_profile_id
          || is_none request.projection_profile_version)
    then some "AUTHZ_VENDOR_PROJECTION_REQUIRED"
    else untrusted_projection actor request trusted projection
