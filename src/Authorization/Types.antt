-- ===== src/Authorization/Types.antt =====
-- The data of packages/core/authorization/src/public.ts, and those of
-- packages/core/identity/src/public.ts that it reads.
use youone_rnd.Shared.{ℕ, Bool, true, false, Option, some, List, String}
use youone_rnd.Kernel.{Uuid, UtcInstant, StableCode, Sha256, Version}

pub data IdentityStatus : Type 0 where
  active disabled pending : IdentityStatus

pub data AssignmentStatus : Type 0 where
  active revoked : AssignmentStatus

pub data AssuranceLevel : Type 0 where
  aal1 aal2 unknown : AssuranceLevel

pub record VerifiedAuthSession : Type 0 where
  pub auth_subject : String
  pub session_id : String
  pub expires_at : UtcInstant
  pub assurance_level : AssuranceLevel
  pub verification_evidence_hash : Option Sha256

pub record EffectiveAssignment : Type 0 where
  pub assignment_id : Uuid
  pub stable_code : StableCode
  pub valid_from : UtcInstant
  pub valid_until : Option UtcInstant
  pub evidence_id : Uuid

pub record VendorMembership : Type 0 where
  pub vendor_user_id : Uuid
  pub vendor_id : Uuid
  pub status : AssignmentStatus
  pub valid_from : UtcInstant
  pub valid_until : Option UtcInstant
  pub evidence_id : Uuid

pub record ActingAuthority : Type 0 where
  pub assignment_id : Uuid
  pub role_id : StableCode
  pub effective_actor_id : Uuid
  pub allowed_actions : List StableCode
  pub valid_from : UtcInstant
  pub valid_until : Option UtcInstant
  pub evidence_id : Uuid

pub data ActorKind : Type 0 where
  internal vendor : ActorKind

pub record IdentitySnapshot : Type 0 where
  pub user_id : Uuid
  pub auth_subject : String
  pub account_kind : ActorKind
  pub account_status : IdentityStatus
  pub account_valid_from : UtcInstant
  pub account_valid_until : Option UtcInstant
  pub account_version : Version
  pub organizations : List EffectiveAssignment
  pub departments : List EffectiveAssignment
  pub positions : List EffectiveAssignment
  pub roles : List EffectiveAssignment
  pub permissions : List EffectiveAssignment
  pub vendor_memberships : List VendorMembership
  pub acting_authorities : List ActingAuthority
  pub evidence_ids : List Uuid

pub data ScopeKind : Type 0 where
  contract department document_version organization project self vendor : ScopeKind

pub record TypedScopeGrant : Type 0 where
  pub grant_id : Uuid
  pub scope_kind : ScopeKind
  pub target_id : Uuid
  pub action_set_id : StableCode
  pub action_set_version : Version
  pub actions : List StableCode
  pub vendor_user_id : Option Uuid
  pub valid_from : UtcInstant
  pub valid_until : Option UtcInstant
  pub evidence_id : Uuid

pub record ActorContext : Type 0 where
  pub actor_kind : ActorKind
  pub authenticated_actor_id : Uuid
  pub effective_actor_id : Uuid
  pub auth_subject : String
  pub session_id : String
  pub assurance_level : AssuranceLevel
  pub request_time : UtcInstant
  pub correlation_id : String
  pub organizations : List StableCode
  pub departments : List StableCode
  pub positions : List StableCode
  pub roles : List StableCode
  pub permissions : List StableCode
  pub vendor_memberships : List VendorMembership
  pub scope_grants : List TypedScopeGrant
  pub acting_authorities : List ActingAuthority
  pub selected_acting_authority_id : Option Uuid
  pub selected_acting_authority_evidence_id : Option Uuid
  pub security_entitlements : List StableCode
  pub evidence_ids : List Uuid

pub record ActorContextSnapshot : Type 0 where
  pub identity : IdentitySnapshot
  pub scope_grants : List TypedScopeGrant
  pub security_entitlements : List StableCode

pub data ResourceSecurity : Type 0 where
  sec_l1_public_general sec_l2_internal sec_l3_confidential sec_l4_core_secret : ResourceSecurity

pub record ServerResourceContextRecord : Type 0 where
  pub resource_type : StableCode
  pub resource_id : Uuid
  pub resource_version : Option Version
  pub owning_organization_id : Option Uuid
  pub department_id : Option Uuid
  pub project_id : Option Uuid
  pub contract_id : Option Uuid
  pub vendor_id : Option Uuid
  pub document_version_id : Option Uuid
  pub owner_user_id : Option Uuid
  pub auth_subject : Option String
  pub security_level : Option ResourceSecurity
  pub workflow_state : Option StableCode
  pub approval_participant_user_id : Option Uuid
  pub approval_participant_evidence_id : Option Uuid
  pub external_release_approval_evidence_id : Option Uuid
  pub workflow_allows : Bool
  pub security_allows : Bool
  pub explicit_deny : Bool

pub record ResourceReference : Type 0 where
  pub resource_type : StableCode
  pub resource_id : Uuid

pub record ProjectionProfile : Type 0 where
  pub profile_id : StableCode
  pub version : Version
  pub actor_kind : ActorKind
  pub resource_type : StableCode
  pub action : StableCode
  pub fields : List String

pub data AuthorizationObligation : Type 0 where
  audit_denial audit_sensitive_read reauthorize_on_delivery step_up_auth : AuthorizationObligation

pub data Effect : Type 0 where
  allow deny : Effect

pub record AuthorizationDecision : Type 0 where
  pub effect : Effect
  pub reason : StableCode
  pub scope_evidence : List Uuid
  pub projection_profile_id : Option StableCode
  pub obligations : List AuthorizationObligation

-- An object with its identity, which `===` and the weak collections compare.
pub record Object {ℓ} (A : Type ℓ) : Type ℓ where
  pub identity : ℕ
  pub content : A

pub record AuthorizationRequest : Type 0 where
  pub action : StableCode
  pub resource : Object ServerResourceContextRecord
  pub projection_profile_id : Option StableCode
  pub projection_profile_version : Option Version

-- `===` on the enumerations.
abbrev pub is_vendor : ActorKind → Bool
is_vendor ActorKind.internal = false
is_vendor ActorKind.vendor = true

abbrev pub same_actor_kind : ActorKind → ActorKind → Bool
same_actor_kind ActorKind.internal b = elim b [
  | ActorKind.internal ↦ true
  | ActorKind.vendor ↦ false
]
same_actor_kind ActorKind.vendor b = is_vendor b

-- The two controlled levels, and the two others; a level may be undefined.
abbrev pub is_controlled : Option ResourceSecurity → Bool
is_controlled (some ResourceSecurity.sec_l3_confidential) = true
is_controlled (some ResourceSecurity.sec_l4_core_secret) = true
is_controlled _ = false

abbrev pub is_released : Option ResourceSecurity → Bool
is_released (some ResourceSecurity.sec_l1_public_general) = true
is_released (some ResourceSecurity.sec_l2_internal) = true
is_released _ = false
