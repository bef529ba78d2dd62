-- ===== src/Authorization/Reach.antt =====
-- packages/core/authorization/src/public.ts: `resolveScope` finds evidence exactly where the actor's
-- grants reach the resource.
use mathlib.Core.List.{Memᴰ}
use youone_rnd.Shared.{
  ◌≡◌, ◌↔◌, refl, Bool, true, false, Option, none, some, List, [], ◌∷◌, ◌++◌, find, filter, opt_eq,
  includes, is_some, length, arith, ◌==◌, if◌then◌else◌, Bool-cases, inl, inr, Mem-filter,
  filter-Mem, Mem-find, find-Mem, find_holds, opt_eq_iff, ◌⊎◌,
}
use youone_rnd.Kernel.{Uuid, StableCode}
use youone_rnd.Authorization.Types.{
  TypedScopeGrant, ActorContext, ServerResourceContextRecord, is_vendor,
}
use youone_rnd.Authorization.Scope.{
  covers, covers_parent, is_document_grant, is_parent_grant, of_membership, membership_ids,
  is_vendor_parent, both_evidence, with_parent, document_evidence, unless_empty, vendor_scope,
  resolve_scope, flat_map,
}
use youone_rnd.Authorization.Grants.{Belongs, Reaches, ids-Belongs, Belongs-ids}

-- There is evidence in the list.
abbrev found : List Uuid → Bool
found ids = is_some (unless_empty ids)

found-append :
    (front back : List Uuid)
    → found (front ++ back) ≡ true
    → (found front ≡ true) ⊎ (found back ≡ true)
found-append [] back h = inr h
found-append (a ∷ front) back h = inl refl

append-found :
    (front back : List Uuid)
    → (found front ≡ true) ⊎ (found back ≡ true)
    → found (front ++ back) ≡ true
append-found [] back (inl h) = absurd (ground arith)
append-found [] back (inr h) = h
append-found (a ∷ front) back h = refl

not_none :
    (test : Bool) (o : Option (List Uuid))
    → is_some (if test then none else o) ≡ true
    → is_some o ≡ true
not_none true o h = absurd (cc h)
not_none false o h = h

module _ (f : TypedScopeGrant → List Uuid) where
  found-flat_map :
      (xs : List TypedScopeGrant)
      → found (flat_map f xs) ≡ true
      → (x : TypedScopeGrant) × Memᴰ x xs × (found (f x) ≡ true)
  found-flat_map [] h = absurd (ground arith)
  found-flat_map (x ∷ xs) h = elim (found-append (f x) (flat_map f xs) h) [
    | inl here ↦ (x, Memᴰ.head refl, here)
    | inr there ↦ let (y, m, holds) = found-flat_map xs there in (y, Memᴰ.tail m, holds)
  ]

  flat_map-found :
      (xs : List TypedScopeGrant) (x : TypedScopeGrant)
      → Memᴰ x xs
      → found (f x) ≡ true
      → found (flat_map f xs) ≡ true
  flat_map-found [] x m h = elim m [ ]
  flat_map-found (y ∷ ys) x (Memᴰ.head e) h = append-found (f y) (flat_map f ys) (inl (rw (← e) h))
  flat_map-found (y ∷ ys) x (Memᴰ.tail m) h =
      append-found (f y) (flat_map f ys) (inr (flat_map-found ys x m h))

module _ (actor : ActorContext) (action : StableCode) (resource : ServerResourceContextRecord) where
  abbrev ids : List Uuid
  ids = membership_ids actor resource

  abbrev matching : List TypedScopeGrant
  matching = filter (covers actor action resource) actor.scope_grants

  abbrev vendor_matching : List TypedScopeGrant
  vendor_matching = filter (λ grant. of_membership ids grant.vendor_user_id) matching

  abbrev documents : List TypedScopeGrant
  documents = filter (λ grant. is_document_grant grant.scope_kind) vendor_matching

  abbrev direct : List TypedScopeGrant
  direct = filter (λ grant. is_parent_grant grant.scope_kind) vendor_matching

  abbrev parents : List TypedScopeGrant
  parents = filter (is_vendor_parent ids action resource) actor.scope_grants

  abbrev evidence_of : TypedScopeGrant → List Uuid
  evidence_of document =
      with_parent document
        (find (λ grant. opt_eq grant.vendor_user_id document.vendor_user_id) parents)

  vendor_matching-Mem :
      (grant : TypedScopeGrant)
      → Memᴰ grant vendor_matching
      → Memᴰ grant actor.scope_grants
        × (covers actor action resource grant ≡ true)
        × Belongs actor resource grant
  vendor_matching-Mem grant m =
      let (m1, belongs) = Mem-filter (λ grant. of_membership ids grant.vendor_user_id) matching m in
      let (m2, covering) = Mem-filter (covers actor action resource) actor.scope_grants m1 in
      (m2, covering, ids-Belongs actor resource grant belongs)

  Mem-vendor_matching :
      (grant : TypedScopeGrant)
      → Memᴰ grant actor.scope_grants
      → covers actor action resource grant ≡ true
      → Belongs actor resource grant
      → Memᴰ grant vendor_matching
  Mem-vendor_matching grant m covering belongs =
      filter-Mem (λ grant. of_membership ids grant.vendor_user_id) matching
        (filter-Mem (covers actor action resource) actor.scope_grants m covering)
        (Belongs-ids actor resource grant belongs)

  -- A parent that was found is one of the same vendor user.
  parent-found :
      (document : TypedScopeGrant)
      → found (evidence_of document) ≡ true
      → (parent : TypedScopeGrant) × Memᴰ parent actor.scope_grants
        × (is_vendor_parent ids action resource parent ≡ true)
        × (parent.vendor_user_id ≡ document.vendor_user_id)
  parent-found document h =
      go (find (λ grant. opt_eq grant.vendor_user_id document.vendor_user_id) parents) refl h
    where
      go :
          (o : Option TypedScopeGrant)
          → find (λ grant. opt_eq grant.vendor_user_id document.vendor_user_id) parents ≡ o
          → found (with_parent document o) ≡ true
          → (parent : TypedScopeGrant) × Memᴰ parent actor.scope_grants
            × (is_vendor_parent ids action resource parent ≡ true)
            × (parent.vendor_user_id ≡ document.vendor_user_id)
      go none e k = absurd (ground arith)
      go (some parent) e k =
          let same =
            find_holds (λ grant. opt_eq grant.vendor_user_id document.vendor_user_id) parents e in
          let (m, holds) =
            Mem-filter (is_vendor_parent ids action resource) actor.scope_grants
              (Mem-find (λ grant. opt_eq grant.vendor_user_id document.vendor_user_id) parents e) in
          (parent, m, holds, (opt_eq_iff parent.vendor_user_id document.vendor_user_id).0 same)

  found-Reaches :
      is_some (resolve_scope actor action resource) ≡ true → Reaches actor action resource
  unfolding resolve_scope vendor_scope document_evidence
  found-Reaches h = elim (Bool-cases (is_vendor actor.actor_kind)) [
    | inl outside ↦
        vendor outside (Bool-cases (is_some resource.document_version_id)) (rw outside at h)
    | inr inside ↦
        let (grant, m, _) = found-flat_map both_evidence matching (rw inside at h) in
        let (member, covering) = Mem-filter (covers actor action resource) actor.scope_grants m in
        Reaches.by_grant grant inside member covering
  ]
    where
      vendor :
          is_vendor actor.actor_kind ≡ true
          → (is_some resource.document_version_id ≡ true)
            ⊎ (is_some resource.document_version_id ≡ false)
          → is_some (if length ids == 0 then none else vendor_scope actor action resource ids)
            ≡ true
          → Reaches actor action resource
      vendor outside (inl versioned) k =
          let some_scope : found (document_evidence parents documents) ≡ true =
            rw versioned at
              (not_none (length ids == 0) (vendor_scope actor action resource ids) k) in
          let (document, m, pair) = found-flat_map evidence_of documents some_scope in
          let (m1, documental) =
            Mem-filter (λ grant. is_document_grant grant.scope_kind) vendor_matching m in
          let (member, covering, belongs) = vendor_matching-Mem document m1 in
          let (parent, parent_member, parental, same) = parent-found document pair in
          Reaches.by_vendor_document document parent outside versioned member covering documental
            belongs parent_member (ground arith) (ground arith) same
      vendor outside (inr unversioned) k =
          let some_scope : found (flat_map both_evidence direct) ≡ true =
            rw unversioned at
              (not_none (length ids == 0) (vendor_scope actor action resource ids) k) in
          let (grant, m, _) = found-flat_map both_evidence direct some_scope in
          let (m1, parental) =
            Mem-filter (λ grant. is_parent_grant grant.scope_kind) vendor_matching m in
          let (member, covering, belongs) = vendor_matching-Mem grant m1 in
          Reaches.by_vendor_grant grant outside unversioned member covering parental belongs

  -- A vendor with a grant of a membership has a membership.
  Belongs-length :
      (grant : TypedScopeGrant) → Belongs actor resource grant → (length ids == 0) ≡ false
  unfolding includes
  Belongs-length grant belongs =
      go ids grant.vendor_user_id (Belongs-ids actor resource grant belongs)
    where
      go : (us : List Uuid) (o : Option Uuid) → of_membership us o ≡ true → (length us == 0) ≡ false
      go [] none h = absurd (ground arith)
      go [] (some id) h = absurd (ground arith)
      go (u ∷ us) o h = ground arith

  found-parent :
      (document parent : TypedScopeGrant)
      → Belongs actor resource document
      → Memᴰ parent actor.scope_grants
      → includes parent.actions action ≡ true
      → covers_parent parent.scope_kind parent.target_id resource ≡ true
      → parent.vendor_user_id ≡ document.vendor_user_id
      → found (evidence_of document) ≡ true
  found-parent document parent belongs member allowed covered same =
      let of_ids : of_membership ids parent.vendor_user_id ≡ true =
        rw same (Belongs-ids actor resource document belongs) in
      let parental : is_vendor_parent ids action resource parent ≡ true = ground arith in
      let (other, e) =
        find-Mem (λ grant. opt_eq grant.vendor_user_id document.vendor_user_id) parents
          (filter-Mem (is_vendor_parent ids action resource) actor.scope_grants member parental)
          ((opt_eq_iff parent.vendor_user_id document.vendor_user_id).1 same) in
      rw e refl

  Reaches-found :
      Reaches actor action resource → is_some (resolve_scope actor action resource) ≡ true
  unfolding resolve_scope vendor_scope document_evidence
  Reaches-found (Reaches.by_grant grant inside member covering) = rw inside (
      flat_map-found both_evidence matching grant
        (filter-Mem (covers actor action resource) actor.scope_grants member covering) refl)
  Reaches-found
        (Reaches.by_vendor_grant grant outside unversioned member covering parental belongs) =
      rw (outside, Belongs-length grant belongs, unversioned)
        (flat_map-found both_evidence direct grant
          (filter-Mem (λ grant. is_parent_grant grant.scope_kind) vendor_matching
            (Mem-vendor_matching grant member covering belongs) parental)
          refl)
  Reaches-found
        (Reaches.by_vendor_document document parent outside versioned member covering documental
          belongs parent_member allowed covered same) =
      rw (outside, Belongs-length document belongs, versioned)
        (flat_map-found evidence_of documents document
          (filter-Mem (λ grant. is_document_grant grant.scope_kind) vendor_matching
            (Mem-vendor_matching document member covering belongs) documental)
          (found-parent document parent belongs parent_member allowed covered same))

  -- The actor's scope for an action on a resource is found, with its evidence, exactly where the
  -- actor's grants and memberships reach the resource.
  pub resolve_scope-Reaches :
      (is_some (resolve_scope actor action resource) ≡ true) ↔ Reaches actor action resource
  resolve_scope-Reaches = (found-Reaches, Reaches-found)
