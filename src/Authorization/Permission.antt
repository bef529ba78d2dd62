-- ===== src/Authorization/Permission.antt =====
-- packages/core/authorization/src/public.ts: what an actor may do, stated apart from the order in
-- which `AuthorizationService.decide` makes its checks.
use youone_rnd.Shared.{
  ◌≡◌, ◌↔◌, Bool, true, false, ◌&&◌, ◌||◌, Option, none, some, is_some, is_none, arith, str_eq,
  codes, Bool-cases, inl, inr,
}
use youone_rnd.Kernel.{StableCode}
use youone_rnd.Authorization.Types.{
  ActorContext, ServerResourceContextRecord, ProjectionProfile, AuthorizationRequest, Effect,
  Object, is_vendor, is_controlled, is_released,
}
use youone_rnd.Authorization.Denials.{
  is_official_approval, is_source_action, is_source_read, vendor_hard_deny, is_permitted_action,
  is_participant, is_direct_official, is_acting_official, official_approval_deny,
  is_system_admin_sensitive_source_denied, ends_in_read, projection_matches, validate_projection,
}
use youone_rnd.Authorization.Scope.{resolve_scope}
use youone_rnd.Authorization.Grants.{Reaches}
use youone_rnd.Authorization.Reach.{resolve_scope-Reaches}
use youone_rnd.Authorization.Decision.{judge}

-- What a vendor's actor may do with a resource at all.
pub record VendorMay (action : StableCode) (resource : ServerResourceContextRecord) : Type 0 where
  pub no_approval : is_official_approval action ≡ false
  pub no_search : str_eq action "technical_document.repository.search" ≡ false
  pub no_controlled : (is_source_action action && is_controlled resource.security_level) ≡ false
  pub only_released :
      (is_source_read action && is_released resource.security_level) ≡ true
      → is_some resource.external_release_approval_evidence_id ≡ true

-- An official approval is one by the participant of the step, as an official or for one.
pub record MayApprove (actor : ActorContext) (action : StableCode)
    (resource : ServerResourceContextRecord) : Type 0 where
  pub participant : is_participant actor resource ≡ true
  pub official : (is_direct_official actor || is_acting_official actor action) ≡ true

-- The profile is absent where none was asked for, and else one of the registry that fits the request;
-- a vendor's read has one.
abbrev pub Fits :
    ActorContext
    → AuthorizationRequest
    → (Object ProjectionProfile → Bool)
    → Option (Object ProjectionProfile)
    → Type 0
Fits actor request trusted none =
    (is_none request.projection_profile_id ≡ true)
    × ((is_vendor actor.actor_kind && ends_in_read (codes request.action)) ≡ false)
Fits actor request trusted (some projection) =
    (trusted projection ≡ true) × (projection_matches actor request projection.content ≡ true)

vendor_hard_deny-VendorMay :
    (actor : ActorContext) (action : StableCode) (resource : ServerResourceContextRecord)
    → (vendor_hard_deny actor action resource ≡ none)
      ↔ (is_vendor actor.actor_kind ≡ true → VendorMay action resource)
unfolding vendor_hard_deny
vendor_hard_deny-VendorMay actor action resource = (
  (λ h v. record {
    no_approval = ground arith;
    no_search = ground arith;
    no_controlled = ground arith;
    only_released = λ k. ground arith;
  }),
  λ may. elim (Bool-cases (is_vendor actor.actor_kind)) [
    | inl outside ↦
        let m = may outside in
        let e1 = m.no_approval in
        let e2 = m.no_search in let e3 = m.no_controlled in ground (arith, m.only_released)
    | inr inside ↦ ground arith
  ],
)

official_approval_deny-MayApprove :
    (actor : ActorContext) (action : StableCode) (resource : ServerResourceContextRecord)
    → (official_approval_deny actor action resource ≡ none)
      ↔ (is_official_approval action ≡ true → MayApprove actor action resource)
unfolding official_approval_deny
official_approval_deny-MayApprove actor action resource = (
  (λ h v. record { participant = ground arith; official = ground arith }),
  λ may. elim (Bool-cases (is_official_approval action)) [
    | inl approval ↦
        let m = may approval in let e1 = m.participant in let e2 = m.official in ground arith
    | inr other ↦ ground arith
  ],
)

validate_projection-Fits :
    (actor : ActorContext) (request : AuthorizationRequest)
    (trusted : Object ProjectionProfile → Bool) (projection : Option (Object ProjectionProfile))
    → (validate_projection actor request trusted projection ≡ none)
      ↔ Fits actor request trusted projection
unfolding validate_projection
validate_projection-Fits actor request trusted none =
    (λ h. (ground arith, ground arith), λ fits. ground arith)
validate_projection-Fits actor request trusted (some projection) =
    (λ h. (ground arith, ground arith), λ fits. ground arith)

-- What a request needs to be allowed.
pub record Permitted (actor : ActorContext) (request : AuthorizationRequest)
    (trusted : Object ProjectionProfile → Bool) (projection : Option (Object ProjectionProfile))
    : Type 0 where
  pub not_denied : request.resource.content.explicit_deny ≡ false
  pub vendor_may :
      is_vendor actor.actor_kind ≡ true → VendorMay request.action request.resource.content
  pub permission : is_permitted_action actor request.action ≡ true
  pub may_approve :
      is_official_approval request.action ≡ true
      → MayApprove actor request.action request.resource.content
  pub entitled : is_system_admin_sensitive_source_denied actor request.resource.content ≡ false
  pub workflow : request.resource.content.workflow_allows ≡ true
  pub security : request.resource.content.security_allows ≡ true
  pub scope : Reaches actor request.action request.resource.content
  pub fits : Fits actor request trusted projection

module _ (actor : ActorContext) (request : AuthorizationRequest)
    (trusted : Object ProjectionProfile → Bool)
    (projection : Option (Object ProjectionProfile)) where
  abbrev resource : ServerResourceContextRecord
  resource = request.resource.content

  -- The checks of a decision, by their results.
  abbrev Checks : Type 0
  Checks =
      (resource.explicit_deny ≡ false)
      × (vendor_hard_deny actor request.action resource ≡ none)
      × (is_permitted_action actor request.action ≡ true)
      × (official_approval_deny actor request.action resource ≡ none)
      × (is_system_admin_sensitive_source_denied actor resource ≡ false)
      × (resource.workflow_allows ≡ true)
      × (resource.security_allows ≡ true)
      × (is_some (resolve_scope actor request.action resource) ≡ true)
      × (validate_projection actor request trusted projection ≡ none)

  judge-Checks : (judge actor request trusted projection).effect ≡ Effect.allow → Checks
  unfolding judge
  judge-Checks h = (
    ground arith,
    ground arith,
    ground arith,
    ground arith,
    ground arith,
    ground arith,
    ground arith,
    ground arith,
    ground arith,
  )

  Checks-judge : Checks → (judge actor request trusted projection).effect ≡ Effect.allow
  unfolding judge
  Checks-judge (e1, e2, e3, e4, e5, e6, e7, e8, e9) = ground arith

  -- A decision allows a request exactly where it is permitted: no explicit denial, no restriction of
  -- vendors, a permission or an acting authority for the action, an official participant for an
  -- official approval, an entitled administrator, a workflow state and a security level that allow it,
  -- grants that reach the resource and a projection that fits.
  pub judge-Permitted :
      ((judge actor request trusted projection).effect ≡ Effect.allow)
      ↔ Permitted actor request trusted projection
  judge-Permitted = (
    (λ h.
        let (e1, e2, e3, e4, e5, e6, e7, e8, e9) = judge-Checks h in
        record {
          not_denied = e1;
          vendor_may = (vendor_hard_deny-VendorMay actor request.action resource).0 e2;
          permission = e3;
          may_approve = (official_approval_deny-MayApprove actor request.action resource).0 e4;
          entitled = e5;
          workflow = e6;
          security = e7;
          scope = (resolve_scope-Reaches actor request.action resource).0 e8;
          fits = (validate_projection-Fits actor request trusted projection).0 e9;
        }),
    λ p. Checks-judge (
      p.not_denied,
      (vendor_hard_deny-VendorMay actor request.action resource).1 p.vendor_may,
      p.permission,
      (official_approval_deny-MayApprove actor request.action resource).1 p.may_approve,
      p.entitled,
      p.workflow,
      p.security,
      (resolve_scope-Reaches actor request.action resource).1 p.scope,
      (validate_projection-Fits actor request trusted projection).1 p.fits,
    ),
  )
