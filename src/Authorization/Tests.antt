-- ===== src/Authorization/Tests.antt =====
-- An internal actor signs in and is authorized for a project's resource, and a vendor's for a version
-- of a document; and the theorems on them.
use youone_rnd.Shared.{
  ℕ, ◌≡◌, ◌↔◌, refl, true, false, Option, none, some, List, [], ◌∷◌, String, Result, ok, before,
  is_blank, includes, is_some,
}
use youone_rnd.Kernel.{Uuid, UtcInstant}
use youone_rnd.Authorization.Types.{
  IdentityStatus, AssignmentStatus, AssuranceLevel, VerifiedAuthSession, EffectiveAssignment,
  VendorMembership, ActingAuthority, ActorKind, ScopeKind, TypedScopeGrant, ActorContext,
  ActorContextSnapshot, ResourceSecurity, ServerResourceContextRecord, ResourceReference,
  ProjectionProfile, AuthorizationDecision, AuthorizationRequest, Effect, Object,
}
use youone_rnd.Authorization.Trust.{
  has, Trust, assert_trusted_actor_context, assert_trusted_resource_context,
  assert_authorized_decision_for, assert_trusted_authorization_decision, load_resource,
  provenance_of,
}
use youone_rnd.Authorization.Session.{
  is_effective, assert_active_identity, select_authority, actor_of, actor_checks, create_actor,
}
use youone_rnd.Authorization.Denials.{
  vendor_hard_deny, official_approval_deny, is_system_admin_sensitive_source_denied, ends_in_read,
  validate_projection,
}
use youone_rnd.Authorization.Scope.{membership_ids, document_evidence, vendor_scope, resolve_scope}
use youone_rnd.Authorization.Decision.{judge, decide}
use youone_rnd.Authorization.Grants.{Reaches}
use youone_rnd.Authorization.Reach.{resolve_scope-Reaches}
use youone_rnd.Authorization.Permission.{Permitted, judge-Permitted}
use youone_rnd.Authorization.Provenance.{Later, decide-assert_authorized_decision_for}
use youone_rnd.Authorization.Current.{IsCurrent, create_actor-IsCurrent}

abbrev valid_start : UtcInstant
valid_start = "2026-01-01T00:00:00.000Z"

abbrev stop : UtcInstant
stop = "2026-12-31T00:00:00.000Z"

abbrev at_noon : UtcInstant
at_noon = "2026-06-01T12:00:00.000Z"

abbrev session : VerifiedAuthSession
session = record {
  auth_subject = "subject";
  session_id = "session";
  expires_at = "2026-06-01T13:00:00.000Z";
  assurance_level = AssuranceLevel.aal2;
  verification_evidence_hash = none;
}

abbrev reads : EffectiveAssignment
reads = record {
  assignment_id = "p1";
  stable_code = "project.document.read";
  valid_from = valid_start;
  valid_until = some stop;
  evidence_id = "e1";
}

abbrev grant_of : ScopeKind → Uuid → Uuid → Option Uuid → TypedScopeGrant
grant_of kind id target user = record {
  grant_id = id;
  scope_kind = kind;
  target_id = target;
  action_set_id = "set";
  action_set_version = 1;
  actions = "project.document.read" ∷ [];
  vendor_user_id = user;
  valid_from = valid_start;
  valid_until = none;
  evidence_id = id;
}

abbrev membership : VendorMembership
membership = record {
  vendor_user_id = "vu";
  vendor_id = "vendor";
  status = AssignmentStatus.active;
  valid_from = valid_start;
  valid_until = none;
  evidence_id = "e2";
}

abbrev authority : ActingAuthority
authority = record {
  assignment_id = "acting";
  role_id = "ROLE_LAB_DIRECTOR";
  effective_actor_id = "director";
  allowed_actions = "approval.step.approve" ∷ [];
  valid_from = valid_start;
  valid_until = some stop;
  evidence_id = "e3";
}

abbrev snapshot_of : ActorKind → List VendorMembership → List TypedScopeGrant → ActorContextSnapshot
snapshot_of kind memberships grants = record {
  identity = record {
    user_id = "user";
    auth_subject = "subject";
    account_kind = kind;
    account_status = IdentityStatus.active;
    account_valid_from = valid_start;
    account_valid_until = none;
    account_version = 1;
    organizations = [];
    departments = [];
    positions = [];
    roles = [];
    permissions = reads ∷ [];
    vendor_memberships = memberships;
    acting_authorities = authority ∷ [];
    evidence_ids = [];
  };
  scope_grants = grants;
  security_entitlements = [];
}

abbrev employee : ActorContextSnapshot
employee = snapshot_of ActorKind.internal [] (grant_of ScopeKind.project "g1" "project" none ∷ [])

abbrev vendor_user : ActorContextSnapshot
vendor_user = snapshot_of ActorKind.vendor (membership ∷ []) (
    grant_of ScopeKind.document_version "g2" "version" (some "vu")
    ∷ grant_of ScopeKind.project "g3" "project" (some "vu")
    ∷ [])

abbrev document : ServerResourceContextRecord
document = record {
  resource_type = "document";
  resource_id = "d";
  resource_version = some 3;
  owning_organization_id = none;
  department_id = none;
  project_id = some "project";
  contract_id = none;
  vendor_id = some "vendor";
  document_version_id = some "version";
  owner_user_id = none;
  auth_subject = none;
  security_level = some ResourceSecurity.sec_l2_internal;
  workflow_state = none;
  approval_participant_user_id = none;
  approval_participant_evidence_id = none;
  external_release_approval_evidence_id = none;
  workflow_allows = true;
  security_allows = true;
  explicit_deny = false;
}

-- A registry that made a profile and nothing else.
abbrev empty : Trust
empty = record {
  trusted_actors = [];
  trusted_resources = [];
  trusted_projections = 0 ∷ [];
  trusted_decisions = [];
  next_identity = 1;
}

abbrev profile_for_vendor : Object ProjectionProfile
profile_for_vendor = record {
  identity = 0;
  content = record {
    profile_id = "profile";
    version = 2;
    actor_kind = ActorKind.vendor;
    resource_type = "document";
    action = "project.document.read";
    fields = "title" ∷ [];
  };
}

abbrev sign_in : Trust → ActorContextSnapshot → Option Uuid → Trust × Result (Object ActorContext)
sign_in trust snapshot acting =
    create_actor trust (ok session) at_noon (λ subject id time. some snapshot) "correlation" acting

abbrev reference : ResourceReference
reference = record { resource_type = "document"; resource_id = "d" }

abbrev prepared : ActorContextSnapshot → Trust
prepared snapshot =
    (load_resource (sign_in empty snapshot none).0 (λ asked. some document) reference).0

abbrev request_for : Option String → Option ℕ → AuthorizationRequest
request_for profile version = record {
  action = "project.document.read";
  resource = record { identity = 2; content = document };
  projection_profile_id = profile;
  projection_profile_version = version;
}

abbrev signed_in : ActorContextSnapshot → Object ActorContext
signed_in snapshot = record {
  identity = 1;
  content = actor_of session snapshot at_noon "correlation" none;
}

engine : Unit {0}
unfolding assert_trusted_actor_context assert_trusted_resource_context
    assert_authorized_decision_for assert_trusted_authorization_decision load_resource provenance_of
    is_effective assert_active_identity select_authority actor_checks create_actor vendor_hard_deny
    official_approval_deny is_system_admin_sensitive_source_denied ends_in_read validate_projection
    membership_ids document_evidence vendor_scope resolve_scope judge decide before is_blank
    includes
engine = tt

vendor_signed_in : (sign_in empty vendor_user none).1 ≡ ok (signed_in vendor_user)
unfolding engine
vendor_signed_in = refl

create_actor-IsCurrent_example :
    (verified : VerifiedAuthSession) × (snapshot : ActorContextSnapshot) × (ok session
      ≡ ok verified)
    × (some vendor_user ≡ some snapshot)
    × IsCurrent verified snapshot (signed_in vendor_user).content
    × (has (sign_in empty vendor_user none).0.trusted_actors 1 ≡ true)
create_actor-IsCurrent_example =
    create_actor-IsCurrent empty (ok session) at_noon (λ subject id time. some vendor_user)
      "correlation" none (signed_in vendor_user) vendor_signed_in

resolve_scope-Reaches_example :
    (is_some (resolve_scope (signed_in vendor_user).content "project.document.read" document)
      ≡ true)
    ↔ Reaches (signed_in vendor_user).content "project.document.read" document
resolve_scope-Reaches_example =
    resolve_scope-Reaches (signed_in vendor_user).content "project.document.read" document

vendor_evidence :
    resolve_scope (signed_in vendor_user).content "project.document.read" document
    ≡ some ("g2" ∷ "g2" ∷ "g3" ∷ "g3" ∷ [])
unfolding engine
vendor_evidence = refl

vendor_allowed :
    (judge
      (signed_in vendor_user).content
      (request_for (some "profile") (some 2))
      (λ p. true)
      (some profile_for_vendor)).effect
    ≡ Effect.allow
unfolding engine
vendor_allowed = refl

-- A vendor's read needs a projection.
vendor_unprojected :
    (judge (signed_in vendor_user).content (request_for none none) (λ p. true) none).reason
    ≡ "AUTHZ_VENDOR_PROJECTION_REQUIRED"
unfolding engine
vendor_unprojected = refl

judge-Permitted_example :
    ((judge
        (signed_in vendor_user).content
        (request_for (some "profile") (some 2))
        (λ p. true)
        (some profile_for_vendor)).effect
      ≡ Effect.allow)
    ↔ Permitted
        (signed_in vendor_user).content
        (request_for (some "profile") (some 2))
        (λ p. true)
        (some profile_for_vendor)
judge-Permitted_example =
    judge-Permitted (signed_in vendor_user).content (request_for (some "profile") (some 2))
      (λ p. true) (some profile_for_vendor)

abbrev allowed_decision : Object AuthorizationDecision
allowed_decision = record {
  identity = 3;
  content =
      judge (signed_in employee).content (request_for none none)
        (λ p. has (prepared employee).trusted_projections p.identity) none;
}

employee_decided :
    (decide (prepared employee) (signed_in employee) (request_for none none) none).1
    ≡ ok allowed_decision
unfolding engine
employee_decided = refl

abbrev after_decision : Trust
after_decision = (decide (prepared employee) (signed_in employee) (request_for none none) none).0

decide-assert_authorized_decision_for_example :
    (has (prepared employee).trusted_actors (signed_in employee).identity ≡ true)
    × (has (prepared employee).trusted_resources (request_for none none).resource.identity ≡ true)
    × ((assert_authorized_decision_for
            (sign_in after_decision employee none).0
            allowed_decision
            (signed_in employee)
            (request_for none none)
          ≡ ok tt)
        ↔ ((allowed_decision.content.effect ≡ Effect.allow)
            × ((signed_in employee).identity ≡ (signed_in employee).identity)
            × ((request_for none none).action ≡ (request_for none none).action)
            × ((request_for none none).resource.identity
                ≡ (request_for none none).resource.identity)))
decide-assert_authorized_decision_for_example =
    decide-assert_authorized_decision_for (prepared employee) (signed_in employee)
      (request_for none none) none allowed_decision (sign_in after_decision employee none).0
      (signed_in employee) (request_for none none) employee_decided
      (Later.created after_decision (ok session) at_noon (λ subject id time. some employee)
        "correlation" none Later.now)
