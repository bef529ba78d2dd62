-- ===== src/Authorization/Trust.antt =====
-- The weak sets of packages/core/authorization/src/public.ts: which objects the factories made. An
-- object's identity is a number that no other object has; collection of unused objects is not seen.
use youone_rnd.Shared.{
  ℕ, ◌+◌, Bool, true, false, not, ◌||◌, Option, none, some, List, ◌∷◌, Result, ok, err, ◌>>=◌, ◌>>◌,
  fail_if, ◌==◌, any, find, str_eq,
}
use youone_rnd.Kernel.{StableCode}
use youone_rnd.Authorization.Types.{
  Object, ActorContext, ServerResourceContextRecord, ProjectionProfile, AuthorizationDecision,
  AuthorizationRequest, Effect, ResourceReference,
}

pub record Provenance : Type 0 where
  pub decision : ℕ
  pub actor : ℕ
  pub action : StableCode
  pub resource : ℕ

-- trustedActors, trustedResources, trustedProjections and trustedDecisions; and the next identity.
pub record Trust : Type 0 where
  pub trusted_actors : List ℕ
  pub trusted_resources : List ℕ
  pub trusted_projections : List ℕ
  pub trusted_decisions : List Provenance
  pub next_identity : ℕ

abbrev pub has : List ℕ → ℕ → Bool
has identities identity = any (λ i. i == identity) identities

unfoldable pub assert_trusted_actor_context : Trust → Object ActorContext → Result (Unit {0})
assert_trusted_actor_context trust actor =
    fail_if (not (has trust.trusted_actors actor.identity))
      "ActorContext was not produced by TrustedActorContextFactory"

unfoldable pub assert_trusted_resource_context :
    Trust → Object ServerResourceContextRecord → Result (Unit {0})
assert_trusted_resource_context trust resource =
    fail_if (not (has trust.trusted_resources resource.identity))
      "ResourceContext was not produced by TrustedResourceContextFactory"

unfoldable pub assert_trusted_projection_profile :
    Trust → Object ProjectionProfile → Result (Unit {0})
assert_trusted_projection_profile trust profile =
    fail_if (not (has trust.trusted_projections profile.identity))
      "ProjectionProfile was not produced by ProjectionProfileRegistry"

unfoldable pub provenance_of : Trust → ℕ → Option Provenance
provenance_of trust decision = find (λ p. p.decision == decision) trust.trusted_decisions

unfoldable pub assert_trusted_authorization_decision :
    Trust → Object AuthorizationDecision → Result Provenance
assert_trusted_authorization_decision trust decision =
    elim (provenance_of trust decision.identity) [
      | none ↦ err "AuthorizationDecision was not produced by AuthorizationService"
      | some provenance ↦ ok provenance
    ]

abbrev pub is_deny : Effect → Bool
is_deny Effect.allow = false
is_deny Effect.deny = true

unfoldable pub assert_authorized_decision_for :
    Trust
    → Object AuthorizationDecision
    → Object ActorContext
    → AuthorizationRequest
    → Result (Unit {0})
assert_authorized_decision_for trust decision actor request = do
  assert_trusted_actor_context trust actor
  assert_trusted_resource_context trust request.resource
  provenance ← assert_trusted_authorization_decision trust decision
  fail_if
      (is_deny decision.content.effect
        || not (provenance.actor == actor.identity)
        || not (str_eq provenance.action request.action)
        || not (provenance.resource == request.resource.identity))
      "AuthorizationDecision is not an ALLOW for the exact actor, action, and resource"

-- The part of `TrustedResourceContextFactory.load` behind the loader, which is not part of it.
unfoldable pub load_resource :
    Trust
    → (ResourceReference → Option ServerResourceContextRecord)
    → ResourceReference
    → Trust × Result (Option (Object ServerResourceContextRecord))
load_resource trust loader reference = elim (loader reference) [
  | none ↦ (trust, ok none)
  | some found ↦ elim (str_eq found.resource_type reference.resource_type) [
    | true ↦ elim (str_eq found.resource_id reference.resource_id) [
      | true ↦ (
        record trust {
          trusted_resources = trust.next_identity ∷ trust.trusted_resources;
          next_identity = trust.next_identity + 1;
        },
        ok (some (record { identity = trust.next_identity; content = found })),
      )
      | false ↦ (trust, err "server resource loader returned a mismatched identity")
    ]
    | false ↦ (trust, err "server resource loader returned a mismatched identity")
  ]
]
