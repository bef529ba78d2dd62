-- ===== src/Authorization/Scope.antt =====
-- packages/core/authorization/src/public.ts: `resolveScope`, the evidence that an actor's grants give
-- for a resource.
use youone_rnd.Shared.{
  Bool, true, false, not, ◌&&◌, Option, none, some, List, [], ◌∷◌, ◌++◌, map, find, filter, str_eq,
  opt_eq, includes, is_some, length, ◌==◌, if◌then◌else◌,
}
use youone_rnd.Kernel.{Uuid, StableCode}
use youone_rnd.Authorization.Types.{
  ScopeKind, TypedScopeGrant, ActorContext, ServerResourceContextRecord, is_vendor,
}

-- `flatMap`
abbrev pub flat_map {ℓ κ} : {A : Type ℓ} {B : Type κ} → (A → List B) → List A → List B
flat_map f [] = []
flat_map f (x ∷ xs) = f x ++ flat_map f xs

abbrev pub names : Uuid → Option Uuid → Bool
names target id = opt_eq (some target) id

-- The target of a grant is the resource, by the kind of the grant.
abbrev pub covers_target : ScopeKind → Uuid → Uuid → ServerResourceContextRecord → Bool
covers_target ScopeKind.self target effective resource =
    str_eq target effective && opt_eq resource.owner_user_id (some effective)
covers_target ScopeKind.project target effective resource = names target resource.project_id
covers_target ScopeKind.contract target effective resource = names target resource.contract_id
covers_target ScopeKind.document_version target effective resource =
    names target resource.document_version_id
covers_target ScopeKind.organization target effective resource =
    names target resource.owning_organization_id
covers_target ScopeKind.department target effective resource = names target resource.department_id
covers_target ScopeKind.vendor target effective resource = false

abbrev pub covers : ActorContext → StableCode → ServerResourceContextRecord → TypedScopeGrant → Bool
covers actor action resource grant =
    includes grant.actions action
    && covers_target grant.scope_kind grant.target_id actor.effective_actor_id resource

abbrev pub is_document_grant : ScopeKind → Bool
is_document_grant ScopeKind.document_version = true
is_document_grant _ = false

abbrev pub is_parent_grant : ScopeKind → Bool
is_parent_grant ScopeKind.project = true
is_parent_grant ScopeKind.contract = true
is_parent_grant _ = false

-- `grant.vendorUserId !== undefined && membershipIds.includes(grant.vendorUserId)`
abbrev pub of_membership : List Uuid → Option Uuid → Bool
of_membership ids none = false
of_membership ids (some id) = includes ids id

unfoldable pub membership_ids : ActorContext → ServerResourceContextRecord → List Uuid
membership_ids actor resource =
    map (λ m. m.vendor_user_id)
      (filter (λ m. names m.vendor_id resource.vendor_id) actor.vendor_memberships)

-- The grant is for the project or for the contract of the resource.
abbrev pub covers_parent : ScopeKind → Uuid → ServerResourceContextRecord → Bool
covers_parent ScopeKind.project target resource = names target resource.project_id
covers_parent ScopeKind.contract target resource = names target resource.contract_id
covers_parent _ target resource = false

abbrev pub is_vendor_parent :
    List Uuid → StableCode → ServerResourceContextRecord → TypedScopeGrant → Bool
is_vendor_parent ids action resource grant =
    of_membership ids grant.vendor_user_id
    && includes grant.actions action
    && covers_parent grant.scope_kind grant.target_id resource

abbrev pub both_evidence : TypedScopeGrant → List Uuid
both_evidence grant = grant.grant_id ∷ grant.evidence_id ∷ []

-- The evidence of a document's grant and of its first parent of the same vendor user.
abbrev pub with_parent : TypedScopeGrant → Option TypedScopeGrant → List Uuid
with_parent document none = []
with_parent document (some parent) =
    document.grant_id ∷ document.evidence_id ∷ parent.grant_id ∷ parent.evidence_id ∷ []

unfoldable pub document_evidence : List TypedScopeGrant → List TypedScopeGrant → List Uuid
document_evidence parents documents =
    flat_map
      (λ document.
        with_parent document
          (find (λ grant. opt_eq grant.vendor_user_id document.vendor_user_id) parents))
      documents

-- `evidence.length === 0 ? null : evidence`
abbrev pub unless_empty : List Uuid → Option (List Uuid)
unless_empty [] = none
unless_empty (id ∷ ids) = some (id ∷ ids)

-- The branch for vendors that are members of the resource's vendor.
unfoldable pub vendor_scope :
    ActorContext → StableCode → ServerResourceContextRecord → List Uuid → Option (List Uuid)
vendor_scope actor action resource ids =
    let matching = filter (covers actor action resource) actor.scope_grants in
    let vendor_matching = filter (λ grant. of_membership ids grant.vendor_user_id) matching in
    if is_some resource.document_version_id
    then unless_empty (
        document_evidence (filter (is_vendor_parent ids action resource) actor.scope_grants)
          (filter (λ grant. is_document_grant grant.scope_kind) vendor_matching))
    else unless_empty (
        flat_map both_evidence (filter (λ grant. is_parent_grant grant.scope_kind) vendor_matching))

unfoldable pub resolve_scope :
    ActorContext → StableCode → ServerResourceContextRecord → Option (List Uuid)
resolve_scope actor action resource =
    if not (is_vendor actor.actor_kind)
    then unless_empty
        (flat_map both_evidence (filter (covers actor action resource) actor.scope_grants))
    else (if length (membership_ids actor resource) == 0
        then none
        else vendor_scope actor action resource (membership_ids actor resource))
