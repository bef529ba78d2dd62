-- ===== src/Inspection/Disposal.antt =====
-- packages/features/quality/src/domain/inspection.ts: the checks behind the loop of
-- `sealInspectionAttempt`, and the disposition they choose.
use youone_rnd.Shared.{
  ℕ, ◌≡◌, refl, Bool, true, false, ◌&&◌, ◌||◌, List, [], ◌∷◌, ok, >>=-eq-ok, >>-eq-ok,
  fail_if-eq-ok, fail_if, ◌==◌, length, arith, if◌then◌else◌,
}
use youone_rnd.Kernel.{Uuid}
use youone_rnd.Inspection.Types.{
  InspectionDisposition, InspectionChecklistVersionSnapshot, InspectionAttemptSnapshot,
  SealInspectionAttemptInput,
}
use youone_rnd.Inspection.Percent.{rounded_score}
use youone_rnd.Inspection.Sealing.{
  Tally, dispose, disposition_for, check_usable, check_residual, or_empty, overridden,
  sealed_attempt, is_partial, is_conditional, is_accepted,
}
use youone_rnd.Inspection.Methods.{is_acceptance}

-- What the checks behind the loop decided.
pub record Disposes (input : SealInspectionAttemptInput)
    (checklist : InspectionChecklistVersionSnapshot) (t : Tally)
    (attempt : InspectionAttemptSnapshot) : Type 0 where
  pub score : ℕ
  pub first : InspectionDisposition
  pub rounds : rounded_score t.weighted_score checklist.policy.rounding ≡ ok score
  pub chosen :
      (if t.unable_to_verify
        then ok InspectionDisposition.unable_to_verify
        else disposition_for score checklist.policy.bands)
      ≡ ok first
  pub made :
      sealed_attempt input checklist t score (
        overridden first t.critical_failures
          (length (or_empty input.independently_usable_portions)))
      ≡ attempt
  pub usable :
      (is_partial attempt.disposition && length attempt.independently_usable_portions == 0) ≡ false
  pub residual :
      (is_conditional attempt.disposition && length attempt.residual_conditions == 0) ≡ false

pub dispose-Disposes :
    (input : SealInspectionAttemptInput) (checklist : InspectionChecklistVersionSnapshot)
    (t : Tally) {attempt : InspectionAttemptSnapshot}
    → dispose input checklist t ≡ ok attempt
    → Disposes input checklist t attempt
unfolding dispose
dispose-Disposes input checklist t {attempt} h =
    let usable = length (or_empty input.independently_usable_portions) in
    let residual = length (or_empty input.residual_conditions) in
    let (score, rounded, h1) =
      >>=-eq-ok (rounded_score t.weighted_score checklist.policy.rounding) _ h in
    let (first, chosen, h2) =
      >>=-eq-ok
        (if t.unable_to_verify
          then ok InspectionDisposition.unable_to_verify
          else disposition_for score checklist.policy.bands)
        _ h1 in
    let (_, h3) =
      >>-eq-ok
        (check_usable input.deliverable_version_id (or_empty input.independently_usable_portions)) _
        h2 in
    let (_, h4) = >>-eq-ok (check_residual (or_empty input.residual_conditions)) _ h3 in
    let last = overridden first t.critical_failures usable in
    let (partial_ok, h5) =
      >>-eq-ok
        (fail_if (is_partial last && usable == 0) "INSPECTION_PARTIAL_USABLE_PORTION_REQUIRED") _
        h4 in
    let (conditional_ok, h6) =
      >>-eq-ok
        (fail_if (is_conditional last && residual == 0) "INSPECTION_CONDITIONAL_RESIDUAL_REQUIRED")
        _ h5 in
    let made : sealed_attempt input checklist t score last ≡ attempt = cc h6 in
    record {
      score = score;
      first = first;
      rounds = rounded;
      chosen = chosen;
      made = made;
      usable = rw (← made) (
          fail_if-eq-ok (is_partial last && usable == 0)
            "INSPECTION_PARTIAL_USABLE_PORTION_REQUIRED" partial_ok);
      residual = rw (← made) (
          fail_if-eq-ok (is_conditional last && residual == 0)
            "INSPECTION_CONDITIONAL_RESIDUAL_REQUIRED" conditional_ok);
    }

pub no_critical :
    (first : InspectionDisposition) (critical : List Uuid) (usable : ℕ)
    → (is_accepted (overridden first critical usable)
        || is_conditional (overridden first critical usable))
      ≡ true
    → critical ≡ []
no_critical first [] usable h = refl
no_critical first (id ∷ ids) usable h = absurd (ground arith)

-- What could not be verified is not accepted.
pub no_unable :
    (checklist : InspectionChecklistVersionSnapshot) (unable : Bool) (score : ℕ)
    (first : InspectionDisposition) (critical : List Uuid) (usable : ℕ)
    → (if unable
        then ok InspectionDisposition.unable_to_verify
        else disposition_for score checklist.policy.bands)
      ≡ ok first
    → is_acceptance (overridden first critical usable) ≡ true
    → unable ≡ false
no_unable checklist true score first critical usable h a =
    let same : first ≡ InspectionDisposition.unable_to_verify = cc h in absurd (ground arith)
no_unable checklist false score first critical usable h a = refl
