-- ===== src/Authorization/Grants.antt =====
-- What the evidence of `resolveScope` rests on: the grants and memberships of the actor.
use mathlib.Core.List.{Memᴰ, map}
use youone_rnd.Shared.{
  ◌≡◌, refl, sym, ap, ◌∙◌, Bool, true, false, Option, none, some, List, [], ◌∷◌, any, filter,
  str_eq, includes, is_some, arith, Bool-cases, inl, inr, eq_iff, Mem-filter, filter-Mem,
}
use youone_rnd.Kernel.{Uuid, StableCode}
use youone_rnd.Authorization.Types.{
  TypedScopeGrant, VendorMembership, ActorContext, ServerResourceContextRecord, is_vendor,
}
use youone_rnd.Authorization.Scope.{
  names, covers, covers_parent, is_document_grant, is_parent_grant, of_membership, membership_ids,
}

-- The grant is one that a membership of the resource's vendor carries.
abbrev pub Belongs : ActorContext → ServerResourceContextRecord → TypedScopeGrant → Type 0
Belongs actor resource grant =
    (m : VendorMembership) × Memᴰ m actor.vendor_memberships
    × (names m.vendor_id resource.vendor_id ≡ true)
    × (grant.vendor_user_id ≡ some m.vendor_user_id)

-- The ways in which an actor reaches a resource by grants: an internal actor by a grant that covers
-- it; a vendor by a grant for its project or contract, or, where it is a version of a document, by a
-- grant for that version together with one for its project or contract, of one vendor user.
pub data Reaches (actor : ActorContext) (action : StableCode)
    (resource : ServerResourceContextRecord) : Type 0 where
  by_grant :
      (grant : TypedScopeGrant)
      → is_vendor actor.actor_kind ≡ false
      → Memᴰ grant actor.scope_grants
      → covers actor action resource grant ≡ true
      → Reaches actor action resource
  by_vendor_grant :
      (grant : TypedScopeGrant)
      → is_vendor actor.actor_kind ≡ true
      → is_some resource.document_version_id ≡ false
      → Memᴰ grant actor.scope_grants
      → covers actor action resource grant ≡ true
      → is_parent_grant grant.scope_kind ≡ true
      → Belongs actor resource grant
      → Reaches actor action resource
  by_vendor_document :
      (document parent : TypedScopeGrant)
      → is_vendor actor.actor_kind ≡ true
      → is_some resource.document_version_id ≡ true
      → Memᴰ document actor.scope_grants
      → covers actor action resource document ≡ true
      → is_document_grant document.scope_kind ≡ true
      → Belongs actor resource document
      → Memᴰ parent actor.scope_grants
      → includes parent.actions action ≡ true
      → covers_parent parent.scope_kind parent.target_id resource ≡ true
      → parent.vendor_user_id ≡ document.vendor_user_id
      → Reaches actor action resource

-- The names that a list of memberships yields are those of its members.
Mem-map :
    (f : VendorMembership → Uuid) (ms : List VendorMembership) (id : Uuid)
    → any (λ v. str_eq v id) (map f ms) ≡ true
    → (m : VendorMembership) × Memᴰ m ms × (id ≡ f m)
Mem-map f [] id h = absurd (ground arith)
Mem-map f (m ∷ ms) id h = elim (Bool-cases (str_eq (f m) id)) [
  | inl here ↦ (m, Memᴰ.head refl, sym ((eq_iff (f m) id).0 here))
  | inr other ↦ let (n, there, e) = Mem-map f ms id (ground arith) in (n, Memᴰ.tail there, e)
]

map-Mem :
    (f : VendorMembership → Uuid) (ms : List VendorMembership) (m : VendorMembership)
    → Memᴰ m ms
    → any (λ v. str_eq v (f m)) (map f ms) ≡ true
map-Mem f [] m k = elim k [ ]
map-Mem f (n ∷ ms) m (Memᴰ.head e) =
    let here : str_eq (f n) (f m) ≡ true = (eq_iff (f n) (f m)).1 (ap f (sym e)) in ground arith
map-Mem f (n ∷ ms) m (Memᴰ.tail k) = ground (arith, map-Mem f ms m k)

module _ (actor : ActorContext) (resource : ServerResourceContextRecord) where
  abbrev of_vendor : VendorMembership → Bool
  of_vendor m = names m.vendor_id resource.vendor_id

  abbrev user : VendorMembership → Uuid
  user m = m.vendor_user_id

  pub ids-Belongs :
      (grant : TypedScopeGrant)
      → of_membership (membership_ids actor resource) grant.vendor_user_id ≡ true
      → Belongs actor resource grant
  unfolding membership_ids includes
  ids-Belongs grant h = go grant.vendor_user_id refl h
    where
      go :
          (o : Option Uuid)
          → grant.vendor_user_id ≡ o
          → of_membership (membership_ids actor resource) o ≡ true
          → Belongs actor resource grant
      go none e k = absurd (ground arith)
      go (some id) e k =
          let (m, there, same) = Mem-map user (filter of_vendor actor.vendor_memberships) id k in
          let (member, named) = Mem-filter of_vendor actor.vendor_memberships there in
          (m, member, named, e ∙ ap some same)

  pub Belongs-ids :
      (grant : TypedScopeGrant)
      → Belongs actor resource grant
      → of_membership (membership_ids actor resource) grant.vendor_user_id ≡ true
  unfolding membership_ids includes
  Belongs-ids grant (m, member, named, same) = rw same (
      map-Mem user (filter of_vendor actor.vendor_memberships) m
        (filter-Mem of_vendor actor.vendor_memberships member named))
