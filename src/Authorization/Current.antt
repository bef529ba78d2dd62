-- ===== src/Authorization/Current.antt =====
-- packages/core/authorization/src/public.ts: what holds of an actor that
-- `TrustedActorContextFactory.create` made, at the time of the request.
use mathlib.Core.List.{Memᴰ}
use youone_rnd.Shared.{
  ◌≡◌, refl, true, false, not, ◌&&◌, ◌||◌, Option, none, some, [], ◌∷◌, String, Result, ok, err,
  >>=-eq-ok, >>-eq-ok, fail_if, find, filter, Mem-filter, Mem-find, str_eq, eq_iff, before,
  is_blank, is_some, arith,
}
use youone_rnd.Kernel.{Uuid, UtcInstant}
use youone_rnd.Authorization.Types.{
  VerifiedAuthSession, VendorMembership, ActingAuthority, IdentitySnapshot, TypedScopeGrant,
  ActorContext, ActorContextSnapshot, Object, is_vendor,
}
use youone_rnd.Authorization.Trust.{Trust, has}
use youone_rnd.Authorization.Session.{
  membership_effective, grant_effective, authority_effective, assert_active_identity,
  is_active_status, has_lapsed, select_authority, actor_of, actor_checks, trust_actor, create_actor,
}

-- The actor acts for itself, or by one authority that is effective and that the identity has.
pub data Acts (identity : IdentitySnapshot) (actor : ActorContext) : Type 0 where
  for_itself :
      actor.acting_authorities ≡ []
      → actor.effective_actor_id ≡ actor.authenticated_actor_id
      → actor.selected_acting_authority_id ≡ none
      → Acts identity actor
  by_authority :
      (authority : ActingAuthority)
      → Memᴰ authority identity.acting_authorities
      → authority_effective actor.request_time authority ≡ true
      → actor.acting_authorities ≡ authority ∷ []
      → actor.effective_actor_id ≡ authority.effective_actor_id
      → actor.selected_acting_authority_id ≡ some authority.assignment_id
      → is_vendor actor.actor_kind ≡ false
      → Acts identity actor

pub record IsCurrent (session : VerifiedAuthSession) (snapshot : ActorContextSnapshot)
    (actor : ActorContext) : Type 0 where
  pub same_subject : actor.auth_subject ≡ session.auth_subject
  pub same_user : actor.authenticated_actor_id ≡ snapshot.identity.user_id
  pub unexpired : before actor.request_time session.expires_at ≡ true
  pub active : is_active_status snapshot.identity.account_status ≡ true
  pub begun : before actor.request_time snapshot.identity.account_valid_from ≡ false
  pub not_lapsed : has_lapsed snapshot.identity.account_valid_until actor.request_time ≡ false
  pub grants :
      (g : TypedScopeGrant)
      → Memᴰ g actor.scope_grants
      → Memᴰ g snapshot.scope_grants × (grant_effective actor.request_time g ≡ true)
  pub memberships :
      (m : VendorMembership)
      → Memᴰ m actor.vendor_memberships
      → Memᴰ m snapshot.identity.vendor_memberships
        × (membership_effective actor.request_time m ≡ true)
  pub acting : Acts snapshot.identity actor

module _ (session : VerifiedAuthSession) (now : UtcInstant) (correlation_id : String) where
  select_authority-Acts :
      (acting : Option Uuid) (snapshot : ActorContextSnapshot) (selected : Option ActingAuthority)
      → (is_vendor snapshot.identity.account_kind && is_some acting) ≡ false
      → select_authority snapshot.identity now acting ≡ ok selected
      → Acts snapshot.identity (actor_of session snapshot now correlation_id selected)
  unfolding select_authority
  select_authority-Acts acting snapshot none kind h = Acts.for_itself refl refl refl
  select_authority-Acts none snapshot (some authority) kind h = absurd (ground arith)
  select_authority-Acts (some id) snapshot (some authority) kind h =
      let chosen : find (λ item. str_eq item.assignment_id id)
            (filter (authority_effective now) snapshot.identity.acting_authorities)
          ≡ some authority =
        ground arith in
      let (m, effective) =
        Mem-filter (authority_effective now) snapshot.identity.acting_authorities (
          Mem-find (λ item. str_eq item.assignment_id id)
            (filter (authority_effective now) snapshot.identity.acting_authorities) chosen) in
      Acts.by_authority authority m effective refl refl refl (ground arith)

  pub actor_checks-IsCurrent :
      (acting : Option Uuid) (loaded : Option ActorContextSnapshot) {actor : ActorContext}
      → actor_checks session now loaded correlation_id acting ≡ ok actor
      → (snapshot : ActorContextSnapshot) × (loaded ≡ some snapshot)
        × IsCurrent session snapshot actor
  unfolding actor_checks assert_active_identity
  actor_checks-IsCurrent acting none h = absurd (ground arith)
  actor_checks-IsCurrent acting (some snapshot) {actor = a} h =
      let (_, h1) =
        >>-eq-ok
          (fail_if (is_blank session.auth_subject || is_blank session.session_id)
            "verified session identity is incomplete")
          _ h in
      let (unexpired, h2) =
        >>-eq-ok (fail_if (not (before now session.expires_at)) "verified session is expired") _
          h1 in
      let (same, h3) =
        >>-eq-ok
          (fail_if (not (str_eq snapshot.identity.auth_subject session.auth_subject))
            "verified session has no matching server identity")
          _ h2 in
      let (active, h4) = >>-eq-ok (assert_active_identity snapshot.identity now) _ h3 in
      let (kind, h5) =
        >>-eq-ok
          (fail_if (is_vendor snapshot.identity.account_kind && is_some acting)
            "vendor accounts cannot select acting authority")
          _ h4 in
      let (selected, chosen, last) =
        >>=-eq-ok (select_authority snapshot.identity now acting) _ h5 in
      let made : actor_of session snapshot now correlation_id selected ≡ a = cc last in
      (
        snapshot,
        refl,
        rw made at
            (current snapshot selected (ground arith) (ground arith) active (ground arith) chosen),
      )
    where
      current :
          (snapshot : ActorContextSnapshot) (selected : Option ActingAuthority)
          → before now session.expires_at ≡ true
          → str_eq snapshot.identity.auth_subject session.auth_subject ≡ true
          → assert_active_identity snapshot.identity now ≡ ok tt
          → (is_vendor snapshot.identity.account_kind && is_some acting) ≡ false
          → select_authority snapshot.identity now acting ≡ ok selected
          → IsCurrent session snapshot (actor_of session snapshot now correlation_id selected)
      current snapshot selected unexpired same active kind chosen = record {
        same_subject = (eq_iff snapshot.identity.auth_subject session.auth_subject).0 same;
        same_user = refl;
        unexpired = unexpired;
        active = ground arith;
        begun = ground arith;
        not_lapsed = ground arith;
        grants = λ g m. Mem-filter (grant_effective now) snapshot.scope_grants m;
        memberships =
            λ g m. Mem-filter (membership_effective now) snapshot.identity.vendor_memberships m;
        acting = select_authority-Acts acting snapshot selected kind chosen;
      }

-- A new actor is the one that the checks let pass, and is trusted.
trust_actor-ok :
    (trust : Trust) (checked : Result ActorContext) {actor : Object ActorContext}
    → (trust_actor trust checked).1 ≡ ok actor
    → (checked ≡ ok actor.content)
      × (has (trust_actor trust checked).0.trusted_actors actor.identity ≡ true)
trust_actor-ok trust (err e) h = absurd (cc h)
trust_actor-ok trust (ok content) h = (ground arith, ground arith)

-- An actor that the factory made, at the time of its request: the session was verified and had not
-- expired, the identity is the session's, active and within its dates, every grant and membership is
-- one of the identity's that is effective, and it acts for itself or, for one that is not a vendor, by
-- one effective authority of the identity; and it is trusted.
pub create_actor-IsCurrent :
    (trust : Trust) (verified : Result VerifiedAuthSession) (now : UtcInstant)
    (load : String → String → UtcInstant → Option ActorContextSnapshot) (correlation_id : String)
    (acting : Option Uuid) (actor : Object ActorContext)
    → (create_actor trust verified now load correlation_id acting).1 ≡ ok actor
    → (session : VerifiedAuthSession) × (snapshot : ActorContextSnapshot) × (verified ≡ ok session)
      × (load session.auth_subject session.session_id now ≡ some snapshot)
      × IsCurrent session snapshot actor.content
      × (has
            (create_actor trust verified now load correlation_id acting).0.trusted_actors
            actor.identity
          ≡ true)
unfolding create_actor
create_actor-IsCurrent trust (err e) now load correlation_id acting actor h = absurd (ground arith)
create_actor-IsCurrent trust (ok session) now load correlation_id acting actor h =
    let checked =
      actor_checks session now (load session.auth_subject session.session_id now) correlation_id
        acting in
    let (passed, trusted) = trust_actor-ok trust checked h in
    let (snapshot, found, current) =
      actor_checks-IsCurrent session now correlation_id acting
        (load session.auth_subject session.session_id now) passed in
    (session, snapshot, refl, found, current, trusted)
