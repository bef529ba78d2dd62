-- ===== src/Lib.antt =====
-- A model of the decision logic of youone_rnd, a system for the research, purchase, contract and
-- quality records of a laboratory, and the proofs of what makes it correct.
--
-- The program's parts. packages/shared-kernel makes the branded values that all parts use: UUIDs,
-- codes, keys, checksums, versions and money. packages/core/approval runs approvals: a published
-- policy is normalised, a line of steps is resolved against it, and an `ApprovalInstance` moves from
-- its submission over its steps to its completion, its rejection or its recall.
-- packages/processes/vendor-acceptance-payment decides on the payment for an accepted deliverable: a
-- rate is calculated from a sealed inspection and a policy, may be adjusted, is approved by the
-- approval engine, may be held for conditions, and is released. The process receives the outcome of
-- an approval as a snapshot, so the two machines interact by values only.
-- packages/core/authorization makes trusted actors from verified sessions, loads trusted resources, and
-- decides whether an actor may do an action on a resource; an adapter accepts a decision only for the
-- very objects that it was made for. packages/features/quality inspects deliverables: a checklist
-- weighs its criteria, an attempt is sealed with a score and a disposition, and an `Inspection` moves
-- over its attempts to a decision; the score that it seals is what the acceptance payment starts from.
-- packages/features/contract drafts, seals and signs versions of contracts and moves a `VendorContract`
-- from its draft over its approval, its changes and the reviews of its termination to its end.
--
-- Which file models which part:
-- - Shared and its children: results in place of thrown errors, tests on numbers, texts and lists.
-- - Decimal: `decimalMicros`, `percentageMicros`, `formatMicros` of acceptance-payment.ts, on lists
--   of code points; Decimal/Digits and Decimal/RoundTrip: their laws.
-- - Kernel: packages/shared-kernel/src/public.ts; Kernel/Laws: its laws.
-- - Approval: packages/core/approval/src/domain/approval.ts. Approval/Types has its types,
--   Approval/Policy the functions in front of the class (normalizePolicy, policyMatches,
--   validateResolvedLine and the designation checks), Approval/Authority `guard`,
--   `guardDirectSubmitter` and `guardActor`, Approval/Steps what happens inside the steps,
--   Approval/Instance `create`, `record` and `activateNext`, Approval/Methods the public methods. A
--   method takes the snapshot and returns the snapshot that it leaves behind beside its result, since
--   the class changes its value before it can still throw. The other files below Approval are proofs:
--   Activation and Invariant and Preservation (the invariant), Reach (all histories), Permission (who
--   may act), Effects (mutations and failures), Terminal (final states), ValidLine (lines).
-- - Payment: packages/processes/vendor-acceptance-payment/src/domain/acceptance-payment.ts.
--   Payment/Types has its types, Payment/Rate the policy, the rate and the payable amount,
--   Payment/Machine the methods up to the approval, Payment/Release those after it, Payment/Restore
--   `restore` and `validateRestored`. Each method computes its new value before it assigns it, so it
--   is a function into a result. The other files below Payment are proofs: Amount, Rules, Lifecycle,
--   History, Early, Keeping, Holding, Restoring, Stored and Restored.
-- - Authorization: packages/core/authorization/src/public.ts. Authorization/Types has its types and
--   those of packages/core/identity/src/public.ts, Authorization/Trust the weak collections and the
--   assertions on them, Authorization/Session `TrustedActorContextFactory.create`,
--   Authorization/Denials `vendorHardDeny`, `officialApprovalDeny`, `isSystemAdminSensitiveSourceDenied`
--   and `validateProjection`, Authorization/Scope `resolveScope`, Authorization/Decision
--   `AuthorizationService.decide`. The other files below Authorization are specifications and proofs:
--   Grants and Reach (scopes), Permission (decisions), Provenance (what a decision passes for),
--   Current (actors).
-- - Inspection: packages/features/quality/src/domain/inspection.ts. Inspection/Types has its types,
--   Inspection/Percent `parsePercent`, `formatPercent` and `rounded`, Inspection/Checklist
--   `validatePolicy` and `createInspectionChecklistVersion`, Inspection/Sealing `dispositionFor`,
--   `sealInspectionAttempt` and `deriveRepeatedCriticalFailureCount`, Inspection/Initial the initial
--   policy, Inspection/Machine the private methods of `Inspection`, Inspection/Methods the public ones,
--   which return the value that is left behind beside the result, as in Approval. The other files below
--   Inspection are proofs: Places, Rounding and RoundTrip (percentages), Weights, Tallying, Disposal and
--   Sealed (attempts), Graph, Lifecycle, Stamped and Failing (calls), Shape, Invariant, Log and
--   Failures (histories).
-- - Contract: packages/features/contract/src/domain/contract.ts. Contract/Types has the types of
--   versions, Contract/Revision the class `ContractVersion`, Contract/Machine the data and the private
--   methods of `VendorContract`, Contract/Creation, Contract/Methods and Contract/Termination its public
--   ones, with the value that is left behind beside the result; Contract/Review is a proof.
-- - The Tests modules run the machines and the decisions on concrete records.
--
-- Numbers, texts and fuel. The program's `bigint`s are natural numbers. Its `number`s are natural
-- numbers as well: versions, sequence numbers and orders are integers that start at 0 or 1, and the
-- checks for negative or fractional ones are left out. `nextVersion` refuses to leave the safe
-- integers; the approval engine's own `next` adds one without a check, as here. An instant is its
-- text, and instants compare as texts, as in the program. `print_from` takes as many rounds as the
-- value, each of which removes a digit; `activate_next` takes one round for each step, and each round
-- that does not stop closes a waiting step, so the fuel suffices. An object's identity, which weak
-- collections and `===` compare, is a number that the registry hands out once.
--
-- Not modelled: the messages of errors (an error is its code; the errors of the authorization have
-- none, and there an error is its message); `structuredClone` and `Object.freeze` (values are immutable
-- here); the verifier of access tokens, the source of identities, the loader of resources and the
-- clock, whose answers are arguments; `ProjectionProfileRegistry`, whose profiles enter as trusted
-- objects, and `applyFieldProjection`; the state of a sealed attempt, the state of a payment policy
-- (so `validatePolicy` does not check it) and the outcome of an approval's snapshot, which have one
-- value each; the check of `calculate` that the contract and the milestone of the basis are defined,
-- which their types make sure of; the type 0 | 1 | 2 of the decimal places of a payment policy, which
-- are any natural number here; of contracts, the check of milestones, whose ratios are
-- floating-point numbers, guarantees and warranty issues; `utcInstant` and `safeEventPayload` of the
-- shared kernel; `restore` of `ApprovalInstance`, of `Inspection` and of `VendorContract`, which only
-- copies; and all other packages, which are adapters to databases and services, presentation, or
-- features that this development does not cover yet.
pub mod Shared
pub mod Decimal
pub mod Kernel
pub mod Approval
pub mod Payment
pub mod Authorization
pub mod Inspection
pub mod Contract
