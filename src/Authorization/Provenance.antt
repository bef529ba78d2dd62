-- ===== src/Authorization/Provenance.antt =====
-- packages/core/authorization/src/public.ts: how long a decision counts, and for whom, while the
-- factories and the service go on making objects.
use youone_rnd.Shared.{
  ℕ, ◌+◌, ◌≤◌, ◌<◌, ◌≡◌, ◌↔◌, refl, ◌∙◌, true, Option, some, String, Result, ok, err, ◌>>=◌, ◌>>◌,
  str_eq, eq_iff, arith,
}
use youone_rnd.Kernel.{Uuid, UtcInstant}
use youone_rnd.Authorization.Types.{
  ActorContext, ActorContextSnapshot, VerifiedAuthSession, ServerResourceContextRecord,
  ResourceReference, ProjectionProfile, AuthorizationDecision, AuthorizationRequest, Effect, Object,
}
use youone_rnd.Authorization.Trust.{
  Trust, Provenance, has, assert_trusted_actor_context, assert_trusted_resource_context,
  provenance_of, assert_trusted_authorization_decision, assert_authorized_decision_for,
  load_resource,
}
use youone_rnd.Authorization.Session.{create_actor, trust_actor, actor_checks}
use youone_rnd.Authorization.Decision.{decide, finish, judge}

-- What a registry keeps while others are made: its objects stay trusted, and its decisions keep what
-- they were made for.
pub record Extends (trust later : Trust) : Type 0 where
  pub identities : trust.next_identity ≤ later.next_identity
  pub actors : (i : ℕ) → has trust.trusted_actors i ≡ true → has later.trusted_actors i ≡ true
  pub resources :
      (i : ℕ) → has trust.trusted_resources i ≡ true → has later.trusted_resources i ≡ true
  pub decisions : (i : ℕ) → i < trust.next_identity → provenance_of later i ≡ provenance_of trust i

Extends-refl : (trust : Trust) → Extends trust trust
Extends-refl trust = record {
  identities = omega arith;
  actors = λ i h. h;
  resources = λ i h. h;
  decisions = λ i h. refl;
}

Extends-trans : (t u v : Trust) → Extends t u → Extends u v → Extends t v
Extends-trans t u v first second =
    let le = first.identities in
    record {
      identities = omega (arith, first.identities, second.identities);
      actors = λ i h. second.actors i (first.actors i h);
      resources = λ i h. second.resources i (first.resources i h);
      decisions = λ i h. second.decisions i (omega (arith, h, le)) ∙ first.decisions i h;
    }

create_actor-Extends :
    (trust : Trust) (verified : Result VerifiedAuthSession) (now : UtcInstant)
    (load : String → String → UtcInstant → Option ActorContextSnapshot) (correlation_id : String)
    (acting : Option Uuid)
    → Extends trust (create_actor trust verified now load correlation_id acting).0
unfolding create_actor provenance_of
create_actor-Extends trust verified now load correlation_id acting = go (
    verified >>= λ session.
    actor_checks session now (load session.auth_subject session.session_id now) correlation_id
      acting)
  where
    go : (r : Result ActorContext) → Extends trust (trust_actor trust r).0
    go (err e) = Extends-refl trust
    go (ok actor) = record {
      identities = omega arith;
      actors = λ i h. ground arith;
      resources = λ i h. h;
      decisions = λ i h. refl;
    }

load_resource-Extends :
    (trust : Trust) (loader : ResourceReference → Option ServerResourceContextRecord)
    (reference : ResourceReference)
    → Extends trust (load_resource trust loader reference).0
unfolding load_resource provenance_of
load_resource-Extends trust loader reference = record {
  identities = ground arith;
  actors = λ i h. ground arith;
  resources = λ i h. ground arith;
  decisions = λ i h. ground arith;
}

decide-Extends :
    (trust : Trust) (actor : Object ActorContext) (request : AuthorizationRequest)
    (projection : Option (Object ProjectionProfile))
    → Extends trust (decide trust actor request projection).0
unfolding decide provenance_of
decide-Extends trust actor request projection = go (
    assert_trusted_actor_context trust actor
    >> assert_trusted_resource_context trust request.resource)
  where
    go :
        (r : Result (Unit {0}))
        → Extends trust
            (finish trust actor request
              (judge actor.content request
                (λ p. has trust.trusted_projections p.identity)
                projection)
              r).0
    go (err e) = Extends-refl trust
    go (ok tt) = record {
      identities = omega arith;
      actors = λ i h. h;
      resources = λ i h. h;
      decisions = λ i h. ground arith;
    }

-- The registry after further objects were made, in any order.
pub data Later (trust : Trust) : Trust → Type 0 where
  now : Later trust trust
  created :
      (t : Trust) (verified : Result VerifiedAuthSession) (at : UtcInstant)
      (load : String → String → UtcInstant → Option ActorContextSnapshot) (correlation_id : String)
      (acting : Option Uuid)
      → Later trust t
      → Later trust (create_actor t verified at load correlation_id acting).0
  loaded :
      (t : Trust) (loader : ResourceReference → Option ServerResourceContextRecord)
      (reference : ResourceReference)
      → Later trust t
      → Later trust (load_resource t loader reference).0
  decided :
      (t : Trust) (actor : Object ActorContext) (request : AuthorizationRequest)
      (projection : Option (Object ProjectionProfile))
      → Later trust t
      → Later trust (decide t actor request projection).0

Later-Extends : (trust later : Trust) → Later trust later → Extends trust later
Later-Extends trust later Later.now = Extends-refl trust
Later-Extends trust later (Later.created t verified at load correlation_id acting steps) =
    Extends-trans trust t later (Later-Extends trust t steps)
      (create_actor-Extends t verified at load correlation_id acting)
Later-Extends trust later (Later.loaded t loader reference steps) =
    Extends-trans trust t later (Later-Extends trust t steps)
      (load_resource-Extends t loader reference)
Later-Extends trust later (Later.decided t actor request projection steps) =
    Extends-trans trust t later (Later-Extends trust t steps)
      (decide-Extends t actor request projection)

-- The decision that was made, as it stands in the registry.
decide-ok :
    (trust : Trust) (actor : Object ActorContext) (request : AuthorizationRequest)
    (projection : Option (Object ProjectionProfile)) {decision : Object AuthorizationDecision}
    → (decide trust actor request projection).1 ≡ ok decision
    → (has trust.trusted_actors actor.identity ≡ true)
      × (has trust.trusted_resources request.resource.identity ≡ true)
      × (decision.identity ≡ trust.next_identity)
      × ((decide trust actor request projection).0.next_identity ≡ trust.next_identity + 1)
      × (provenance_of (decide trust actor request projection).0 trust.next_identity
          ≡ some (record {
            decision = trust.next_identity;
            actor = actor.identity;
            action = request.action;
            resource = request.resource.identity;
          }))
unfolding decide provenance_of assert_trusted_actor_context assert_trusted_resource_context
decide-ok trust actor request projection {decision} h =
    (ground arith, ground arith, ground arith, ground arith, ground arith)

-- A decision of the registry passes for an actor and a request where it allows, and was made for that
-- actor, action and resource.
module _ (trust : Trust) (decision : Object AuthorizationDecision) (provenance : Provenance)
    (known : provenance_of trust decision.identity ≡ some provenance) (actor : Object ActorContext)
    (request : AuthorizationRequest) where
  passes_iff : (assert_authorized_decision_for trust decision actor request ≡ ok tt) ↔ (
      (has trust.trusted_actors actor.identity ≡ true)
      × (has trust.trusted_resources request.resource.identity ≡ true)
      × (decision.content.effect ≡ Effect.allow)
      × (provenance.actor ≡ actor.identity)
      × (provenance.action ≡ request.action)
      × (provenance.resource ≡ request.resource.identity))
  unfolding assert_authorized_decision_for assert_trusted_authorization_decision
      assert_trusted_actor_context assert_trusted_resource_context
  passes_iff = (
    (λ h.
        let same : str_eq provenance.action request.action ≡ true = ground (arith, known) in
        (
          ground arith,
          ground arith,
          ground (arith, known),
          ground (arith, known),
          (eq_iff provenance.action request.action).0 same,
          ground (arith, known),
        )),
    λ (actors, resources, effect, h1, h2, h3).
        let same : str_eq provenance.action request.action ≡ true =
          (eq_iff provenance.action request.action).1 h2 in
        ground (arith, known),
  )

-- A decision that the service made, whether it allows or denies, was made for a trusted actor and a
-- trusted resource; and at any later time it passes for an actor and a request exactly where it allows
-- and the actor, the action and the resource are those it was made for.
pub decide-assert_authorized_decision_for :
    (trust : Trust) (actor : Object ActorContext) (request : AuthorizationRequest)
    (projection : Option (Object ProjectionProfile)) (decision : Object AuthorizationDecision)
    (later : Trust) (presented : Object ActorContext) (wanted : AuthorizationRequest)
    → (decide trust actor request projection).1 ≡ ok decision
    → Later (decide trust actor request projection).0 later
    → (has trust.trusted_actors actor.identity ≡ true)
      × (has trust.trusted_resources request.resource.identity ≡ true)
      × ((assert_authorized_decision_for later decision presented wanted ≡ ok tt) ↔ (
          (decision.content.effect ≡ Effect.allow)
          × (actor.identity ≡ presented.identity)
          × (request.action ≡ wanted.action)
          × (request.resource.identity ≡ wanted.resource.identity)))
decide-assert_authorized_decision_for trust actor request projection decision later presented wanted
      made steps =
    let (actor_known, resource_known, fresh, next, entry) =
      decide-ok trust actor request projection made in
    let after = (decide trust actor request projection).0 in
    let first = decide-Extends trust actor request projection in
    let rest = Later-Extends after later steps in
    let made_for : Provenance = record {
      decision = trust.next_identity;
      actor = actor.identity;
      action = request.action;
      resource = request.resource.identity;
    } in
    let known : provenance_of later decision.identity ≡ some made_for =
      rw fresh (rest.decisions trust.next_identity (omega (arith, next)) ∙ entry) in
    let iff = passes_iff later decision made_for known presented wanted in
    (
      actor_known,
      resource_known,
      (
        (λ h. let (_, _, effect, h1, h2, h3) = iff.0 h in (effect, h1, h2, h3)),
        λ (effect, h1, h2, h3). iff.1 (
          rw (← h1) (rest.actors actor.identity (first.actors actor.identity actor_known)),
          rw (← h3) (
              rest.resources request.resource.identity
                (first.resources request.resource.identity resource_known)),
          effect,
          h1,
          h2,
          h3,
        ),
      ),
    )
