-- ===== src/Authorization/Decision.antt =====
-- packages/core/authorization/src/public.ts: `AuthorizationService.decide`.
use youone_rnd.Shared.{
  ◌+◌, Bool, not, Option, none, some, List, [], ◌∷◌, ◌++◌, String, Result, ok, err, ◌>>◌,
  if◌then◌else◌,
}
use youone_rnd.Kernel.{Uuid, StableCode}
use youone_rnd.Authorization.Types.{
  ActorContext, ServerResourceContextRecord, ResourceSecurity, ProjectionProfile,
  AuthorizationObligation, AuthorizationDecision, AuthorizationRequest, Effect, Object,
}
use youone_rnd.Authorization.Trust.{
  Trust, has, assert_trusted_actor_context, assert_trusted_resource_context,
}
use youone_rnd.Authorization.Denials.{
  is_official_approval, vendor_hard_deny, is_permitted_action, official_approval_deny,
  is_system_admin_sensitive_source_denied, validate_projection,
}
use youone_rnd.Authorization.Scope.{resolve_scope}

-- `deny`
abbrev pub denied : String → List AuthorizationObligation → AuthorizationDecision
denied reason obligations = record {
  effect = Effect.deny;
  reason = reason;
  scope_evidence = [];
  projection_profile_id = none;
  obligations = obligations;
}

abbrev pub audited_denial : String → AuthorizationDecision
audited_denial reason = denied reason (AuthorizationObligation.audit_denial ∷ [])

abbrev pub evidence_list : Option Uuid → List Uuid
evidence_list none = []
evidence_list (some id) = id ∷ []

abbrev pub delivery_obligations : Option ResourceSecurity → List AuthorizationObligation
delivery_obligations none = []
delivery_obligations (some level) =
    AuthorizationObligation.reauthorize_on_delivery ∷ AuthorizationObligation.audit_sensitive_read
    ∷ []

abbrev pub profile_of : Option (Object ProjectionProfile) → Option StableCode
profile_of none = none
profile_of (some profile) = some profile.content.profile_id

abbrev pub allowed :
    StableCode
    → ServerResourceContextRecord
    → Option (Object ProjectionProfile)
    → List Uuid
    → AuthorizationDecision
allowed action resource projection scope = record {
  effect = Effect.allow;
  reason = "AUTHZ_ALLOWED";
  scope_evidence =
      scope
      ++ (if is_official_approval action
          then evidence_list resource.approval_participant_evidence_id
          else [])
      ++ evidence_list resource.external_release_approval_evidence_id;
  projection_profile_id = profile_of projection;
  obligations = delivery_obligations resource.security_level;
}

-- The last two checks: the scope, and the projection.
abbrev pub judge_scope :
    ActorContext
    → AuthorizationRequest
    → Option (Object ProjectionProfile)
    → Option (List Uuid)
    → Option String
    → AuthorizationDecision
judge_scope actor request projection none projection_deny = audited_denial "AUTHZ_SCOPE_DENIED"
judge_scope actor request projection (some scope) (some reason) = audited_denial reason
judge_scope actor request projection (some scope) none =
    allowed request.action request.resource.content projection scope

-- The checks behind the vendor's.
abbrev pub judge_action :
    ActorContext
    → AuthorizationRequest
    → (Object ProjectionProfile → Bool)
    → Option (Object ProjectionProfile)
    → Option String
    → AuthorizationDecision
judge_action actor request trusted projection (some approval_deny) =
    if is_permitted_action actor request.action
    then audited_denial approval_deny
    else denied "AUTHZ_PERMISSION_MISSING" []
judge_action actor request trusted projection none =
    if not (is_permitted_action actor request.action)
    then denied "AUTHZ_PERMISSION_MISSING" []
    else (if is_system_admin_sensitive_source_denied actor request.resource.content
        then denied "AUTHZ_SYSTEM_ADMIN_SOURCE_DENIED" []
        else (if not request.resource.content.workflow_allows
            then denied "AUTHZ_WORKFLOW_STATE_DENIED" []
            else (if not request.resource.content.security_allows
                then audited_denial "AUTHZ_SECURITY_LEVEL_DENIED"
                else judge_scope actor request projection
                    (resolve_scope actor request.action request.resource.content)
                    (validate_projection actor request trusted projection))))

abbrev pub judge_vendor :
    ActorContext
    → AuthorizationRequest
    → (Object ProjectionProfile → Bool)
    → Option (Object ProjectionProfile)
    → Option String
    → AuthorizationDecision
judge_vendor actor request trusted projection (some vendor_deny) = audited_denial vendor_deny
judge_vendor actor request trusted projection none =
    judge_action actor request trusted projection
      (official_approval_deny actor request.action request.resource.content)

-- The decision, by the checks in their order.
unfoldable pub judge :
    ActorContext
    → AuthorizationRequest
    → (Object ProjectionProfile → Bool)
    → Option (Object ProjectionProfile)
    → AuthorizationDecision
judge actor request trusted projection =
    if request.resource.content.explicit_deny
    then denied "AUTHZ_EXPLICIT_DENY" []
    else judge_vendor actor request trusted projection
        (vendor_hard_deny actor request.action request.resource.content)

abbrev pub register :
    Trust → Object ActorContext → AuthorizationRequest → AuthorizationDecision → Trust
register trust actor request decision = record trust {
  trusted_decisions =
      record {
        decision = trust.next_identity;
        actor = actor.identity;
        action = request.action;
        resource = request.resource.identity;
      }
      ∷ trust.trusted_decisions;
  next_identity = trust.next_identity + 1;
}

abbrev pub finish :
    Trust
    → Object ActorContext
    → AuthorizationRequest
    → AuthorizationDecision
    → Result (Unit {0})
    → Trust × Result (Object AuthorizationDecision)
finish trust actor request decision (err message) = (trust, err message)
finish trust actor request decision (ok tt) = (
  register trust actor request decision,
  ok (record { identity = trust.next_identity; content = decision }),
)

unfoldable pub decide :
    Trust
    → Object ActorContext
    → AuthorizationRequest
    → Option (Object ProjectionProfile)
    → Trust × Result (Object AuthorizationDecision)
decide trust actor request projection =
    finish trust actor request
      (judge actor.content request (λ p. has trust.trusted_projections p.identity) projection)
      (do
        assert_trusted_actor_context trust actor
        assert_trusted_resource_context trust request.resource)
