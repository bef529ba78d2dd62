-- ===== src/Inspection/Log.antt =====
-- packages/features/quality/src/domain/inspection.ts: the log of the mutations of an inspection, which
-- a store appends under the version that each expects.
use mathlib.Core.Path.{subst}
use youone_rnd.Shared.{
  ℕ, ◌+◌, ◌-◌, ◌<◌, ◌≡◌, refl, sym, ap, ◌∙◌, none, List, [], ◌∷◌, ok, >>-eq-ok, arith,
}
use youone_rnd.Inspection.Types.{InspectionSnapshot, need_text}
use youone_rnd.Inspection.Machine.{
  InspectionCommand, InspectionMutation, require_requester, inspection_mutation,
}
use youone_rnd.Inspection.Methods.{InspectionInput, request, requested_of}
use youone_rnd.Inspection.Graph.{InspectionCall, inspection_run}
use youone_rnd.Inspection.Stamped.{Subject, subject_of, Stamped, inspection_run-Stamped}
use youone_rnd.Inspection.Invariant.{InspectionReach}

-- One entry: the mutation that takes the inspection of that subject to the version `n`.
pub record Entry (s : Subject) (n : ℕ) (m : InspectionMutation) : Type 0 where
  pub positive : 0 < n
  pub expected : m.expected_version ≡ n - 1
  pub reached : m.snapshot.version ≡ n
  pub event_version : m.event.aggregate_version ≡ n
  pub event_id : m.event.aggregate_id ≡ s.id
  pub audit_id : m.audit.inspection_id ≡ s.id
  pub subject : subject_of m.snapshot ≡ s

-- A log, the latest entry first, whose versions go down to one.
abbrev pub Logged : Subject → ℕ → List InspectionMutation → Type 0
Logged s n [] = n ≡ 0
Logged s n (m ∷ ms) = Entry s n m × Logged s (n - 1) ms

Logged-along :
    (ms : List InspectionMutation) {s t : Subject} {n k : ℕ}
    → s ≡ t
    → n ≡ k
    → Logged s n ms
    → Logged t k ms
Logged-along ms {s} {k = k} same equal h =
    subst (λ s. Logged s k ms) same (subst (λ n. Logged s n ms) equal h)

request-Logged :
    (input : InspectionInput) (c : InspectionCommand) (m : InspectionMutation)
    → request input c ≡ ok m
    → Logged (subject_of m.snapshot) m.snapshot.version (m ∷ [])
unfolding request inspection_mutation
request-Logged input c m h =
    let (_, h1) = >>-eq-ok (need_text input.inspection_no "INSPECTION_NO_REQUIRED") _ h in
    let (_, h2) =
      >>-eq-ok (require_requester input.contract_id input.assigned_vendor_id c.actor) _ h1 in
    let made : inspection_mutation (requested_of input c.at) c 0 "EVT-INSPECTION-REQUEST" none ≡ m =
      cc h2 in
    subst (λ m. Logged (subject_of m.snapshot) m.snapshot.version (m ∷ [])) made
      (
        record {
          positive = omega arith;
          expected = refl;
          reached = refl;
          event_version = refl;
          event_id = refl;
          audit_id = refl;
          subject = refl;
        },
        refl,
      )

Stamped-Entry :
    (v : InspectionSnapshot) (c : InspectionCommand) (call : InspectionCall)
    (m : InspectionMutation)
    → Stamped v c call m
    → Entry (subject_of v) (v.version + 1) m
Stamped-Entry v c call m s = record {
  positive = omega arith;
  expected = omega (arith, s.expected);
  reached = s.advanced;
  event_version = s.event_version;
  event_id = s.event_id;
  audit_id = s.audited.1;
  subject = s.same;
}

-- The mutations of every history of an inspection are a log without gaps: they lead, one by one, from
-- version one to the current version, each expects the version that the one before it reached (the
-- first expects none, 0), each event carries the version that its mutation reached, and all of them,
-- with their audit entries, are of one and the same subject, that of the current inspection.
pub InspectionReach-Logged :
    (v : InspectionSnapshot) (ms : List InspectionMutation)
    → InspectionReach v ms
    → Logged (subject_of v) v.version ms
InspectionReach-Logged v ms (InspectionReach.requested_by input c m made) =
    request-Logged input c m made
InspectionReach-Logged v ms (InspectionReach.called before earlier c call m reach made) =
    let s = inspection_run-Stamped before c call m made in
    let rest = InspectionReach-Logged before earlier reach in
    let less : before.version ≡ before.version + 1 - 1 = omega arith in
    let version : (inspection_run before c call).0.version ≡ before.version + 1 =
      ap (λ v. v.version) (sym s.left) ∙ s.advanced in
    let subject : subject_of (inspection_run before c call).0 ≡ subject_of before =
      ap subject_of (sym s.left) ∙ s.same in
    Logged-along (m ∷ earlier) (sym subject) (sym version)
      (Stamped-Entry before c call m s, Logged-along earlier refl less rest)
