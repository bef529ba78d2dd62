-- ===== src/Inspection/Failures.antt =====
-- packages/features/quality/src/domain/inspection.ts: the repeated critical failures of an inspection's
-- own attempts.
use youone_rnd.Shared.{
  ℕ, ◌+◌, ◌-◌, ◌<◌, ◌≡◌, refl, ap, ◌∙◌, false, List, [], ◌∷◌, ok, filter, length, arith, includes,
  All, Bool-cases, inl, inr,
}
use youone_rnd.Kernel.{Uuid}
use youone_rnd.Inspection.Types.{InspectionSnapshot, InspectionAttemptSnapshot}
use youone_rnd.Inspection.Checklist.{has_number}
use youone_rnd.Inspection.Machine.{InspectionMutation}
use youone_rnd.Inspection.Sealing.{count_failures, derive_repeated_critical_failure_count}
use youone_rnd.Inspection.Invariant.{attempts, Numbered, InspectionReach, InspectionReach-Inv}

-- The attempts that fail the criterion critically.
abbrev pub failing : Uuid → List InspectionAttemptSnapshot → List InspectionAttemptSnapshot
failing criterion list = filter (λ a. includes a.critical_failure_criterion_ids criterion) list

above_has_none :
    (n : ℕ) (numbers : List ℕ) → All (λ k. n < k) numbers → has_number numbers n ≡ false
above_has_none n [] h = refl
above_has_none n (k ∷ ks) h = ground (arith, h.0, above_has_none n ks h.1)

above_less : (n : ℕ) (numbers : List ℕ) → All (λ k. n < k) numbers → All (λ k. n - 1 < k) numbers
above_less n [] h = tt
above_less n (k ∷ ks) h = (omega (arith, h.0), above_less n ks h.1)

count_failures-Numbered :
    (numbers : List ℕ) (count n : ℕ) (list : List InspectionAttemptSnapshot) (criterion : Uuid)
    → Numbered n list
    → All (λ k. n < k) numbers
    → count_failures numbers count list criterion ≡ ok (count + length (failing criterion list))
unfolding count_failures
count_failures-Numbered numbers count n [] criterion k h = ap ok (omega arith)
count_failures-Numbered numbers count n (a ∷ list) criterion k h =
    let (number, positive, rest) = k in
    let fresh : has_number numbers a.attempt_no ≡ false = rw number (above_has_none n numbers h) in
    let above : All (λ k. n - 1 < k) (a.attempt_no ∷ numbers) =
      (omega (arith, number, positive), above_less n numbers h) in
    elim (Bool-cases (includes a.critical_failure_criterion_ids criterion)) [
      | inl fails ↦
          rw (fresh, fails)
            (count_failures-Numbered (a.attempt_no ∷ numbers) (count + 1) (n - 1) list criterion
                rest above
              ∙ ap ok (omega arith))
      | inr holds ↦
          rw (fresh, holds)
            (count_failures-Numbered (a.attempt_no ∷ numbers) count (n - 1) list criterion rest
              above)
    ]

-- On the attempts that an inspection has sealed, the count of repeated critical failures is defined:
-- it is the number of those that fail the criterion critically.
pub derive_repeated_critical_failure_count-InspectionReach :
    (v : InspectionSnapshot) (ms : List InspectionMutation) (criterion : Uuid)
    → InspectionReach v ms
    → derive_repeated_critical_failure_count (attempts ms) criterion
      ≡ ok (length (failing criterion (attempts ms)))
unfolding derive_repeated_critical_failure_count
derive_repeated_critical_failure_count-InspectionReach v ms criterion reach =
    let inv = InspectionReach-Inv v ms reach in
    count_failures-Numbered [] 0 v.latest_attempt_no (attempts ms) criterion inv.numbered tt
    ∙ ap ok (omega arith)
