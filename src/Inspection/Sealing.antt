-- ===== src/Inspection/Sealing.antt =====
-- packages/features/quality/src/domain/inspection.ts: `dispositionFor`, `sealInspectionAttempt` and
-- `deriveRepeatedCriticalFailureCount`.
use youone_rnd.Shared.{
  ℕ, ◌+◌, ◌*◌, ◌/◌, Bool, true, false, not, ◌&&◌, ◌||◌, Option, none, some, List, [], ◌∷◌, ◌++◌,
  String, Result, ok, err, ◌>>=◌, ◌>>◌, fail_if, present, leb, ltb, ◌==◌, find, length, str_eq,
  opt_eq, codes, includes, if◌then◌else◌,
}
use youone_rnd.Kernel.{Uuid}
use youone_rnd.Inspection.Types.{
  InspectionDisposition, BandDisposition, Band, InspectionCriterionSnapshot,
  InspectionChecklistVersionSnapshot, CriterionVerdict, InspectionCriterionResultSnapshot,
  IndependentUsablePortionSnapshot, ResidualConditionSnapshot, InspectionAttemptSnapshot,
  SealInspectionAttemptInput, need_text,
}
use youone_rnd.Inspection.Percent.{parse_percent, rounded_score, format_percent}
use youone_rnd.Inspection.Checklist.{
  is_not_positive, has_number, create_inspection_checklist_version,
}

abbrev pub of_band : BandDisposition → InspectionDisposition
of_band BandDisposition.accepted = InspectionDisposition.accepted
of_band BandDisposition.conditional_acceptance = InspectionDisposition.conditional_acceptance
of_band BandDisposition.partial_acceptance = InspectionDisposition.partial_acceptance
of_band BandDisposition.rejected = InspectionDisposition.rejected

-- `score < max`, where there is a maximum.
abbrev pub below_maximum : ℕ → Option String → Result Bool
below_maximum score none = ok true
below_maximum score (some text) =
    parse_percent (codes text) "INSPECTION_POLICY_BAND_INVALID" >>= λ max. ok (ltb score max)

unfoldable pub disposition_for : ℕ → List Band → Result InspectionDisposition
disposition_for score [] = err "INSPECTION_POLICY_NO_MATCHING_BAND"
disposition_for score (band ∷ bands) =
    let rest = disposition_for score bands in
    parse_percent (codes band.min_inclusive) "INSPECTION_POLICY_BAND_INVALID" >>= λ min.
    (below_maximum score band.max_exclusive >>= λ below.
    (if leb min score && below then ok (of_band band.disposition) else rest))

-- What the loop over the results has gathered.
pub record Tally : Type 0 where
  pub seen : List Uuid
  pub evidence_ids : List Uuid
  pub critical_failures : List Uuid
  pub weighted_score : ℕ
  pub unable_to_verify : Bool

abbrev pub is_pass : CriterionVerdict → Bool
is_pass CriterionVerdict.pass = true
is_pass _ = false

abbrev pub is_unable : CriterionVerdict → Bool
is_unable CriterionVerdict.unable_to_verify = true
is_unable _ = false

-- `evidenceIds.add` for each: a set keeps the order in which its members came.
abbrev pub add_evidence : List Uuid → List Uuid → List Uuid
add_evidence ids [] = ids
add_evidence ids (id ∷ more) = add_evidence (if includes ids id then ids else ids ++ id ∷ []) more

-- `criterionMap.get`; the ids of a checklist's criteria are unique.
abbrev pub criterion_of :
    List InspectionCriterionSnapshot → Uuid → Option InspectionCriterionSnapshot
criterion_of criteria id = find (λ c. str_eq c.inspection_criterion_id id) criteria

abbrev pub tallied :
    Tally → InspectionCriterionSnapshot → InspectionCriterionResultSnapshot → ℕ → ℕ → Tally
tallied t criterion result weight achievement = record {
  seen = result.inspection_criterion_id ∷ t.seen;
  evidence_ids = add_evidence t.evidence_ids result.evidence_ids;
  critical_failures =
      if criterion.critical && not (is_pass result.verdict)
      then t.critical_failures ++ criterion.inspection_criterion_id ∷ []
      else t.critical_failures;
  weighted_score = t.weighted_score + weight * achievement / 100000000;
  unable_to_verify = is_unable result.verdict || t.unable_to_verify;
}

-- The loop's body.
unfoldable pub tally_result :
    Uuid
    → List InspectionCriterionSnapshot
    → Tally
    → InspectionCriterionResultSnapshot
    → Result Tally
tally_result attempt criteria t result = do
  fail_if (not (str_eq result.inspection_attempt_id attempt)) "INSPECTION_RESULT_ATTEMPT_MISMATCH"
  criterion ←
      present (criterion_of criteria result.inspection_criterion_id)
        "INSPECTION_RESULT_CRITERION_INVALID"
  fail_if (includes t.seen result.inspection_criterion_id) "INSPECTION_RESULT_CRITERION_INVALID"
  fail_if (not (opt_eq result.requirement_revision_id criterion.requirement_revision_id))
      "INSPECTION_RESULT_REQUIREMENT_REVISION_MISMATCH"
  need_text result.observed_value "INSPECTION_RESULT_OBSERVED_VALUE_REQUIRED"
  fail_if (length result.evidence_ids == 0) "INSPECTION_RESULT_EVIDENCE_REQUIRED"
  achievement ←
      parse_percent (codes result.achieved_percent) "INSPECTION_RESULT_ACHIEVEMENT_INVALID"
  weight ← parse_percent (codes criterion.weight_percent) "INSPECTION_CRITERION_WEIGHT_INVALID"
  ok (tallied t criterion result weight achievement)

unfoldable pub tally_results :
    Uuid
    → List InspectionCriterionSnapshot
    → Tally
    → List InspectionCriterionResultSnapshot
    → Result Tally
tally_results attempt criteria t [] = ok t
tally_results attempt criteria t (result ∷ results) =
    tally_result attempt criteria t result >>= λ next. tally_results attempt criteria next results

abbrev pub no_tally : Tally
no_tally = record {
  seen = [];
  evidence_ids = [];
  critical_failures = [];
  weighted_score = 0;
  unable_to_verify = false;
}

unfoldable pub check_usable : Uuid → List IndependentUsablePortionSnapshot → Result (Unit {0})
check_usable version [] = ok tt
check_usable version (item ∷ items) = do
  need_text item.description "INSPECTION_USABLE_PORTION_DESCRIPTION_REQUIRED"
  fail_if (not (str_eq item.deliverable_version_id version))
      "INSPECTION_USABLE_PORTION_VERSION_MISMATCH"
  fail_if (length item.evidence_ids == 0) "INSPECTION_USABLE_PORTION_EVIDENCE_REQUIRED"
  check_usable version items

unfoldable pub check_residual : List ResidualConditionSnapshot → Result (Unit {0})
check_residual [] = ok tt
check_residual (item ∷ items) = do
  need_text item.description "INSPECTION_RESIDUAL_CONDITION_DESCRIPTION_REQUIRED"
  check_residual items

-- `items ?? []`
abbrev pub or_empty {ℓ} : {A : Type ℓ} → Option (List A) → List A
or_empty none = []
or_empty (some items) = items

abbrev pub is_rejected : InspectionDisposition → Bool
is_rejected InspectionDisposition.rejected = true
is_rejected _ = false

abbrev pub is_unable_to_verify : InspectionDisposition → Bool
is_unable_to_verify InspectionDisposition.unable_to_verify = true
is_unable_to_verify _ = false

abbrev pub is_accepted : InspectionDisposition → Bool
is_accepted InspectionDisposition.accepted = true
is_accepted _ = false

abbrev pub is_partial : InspectionDisposition → Bool
is_partial InspectionDisposition.partial_acceptance = true
is_partial _ = false

abbrev pub is_conditional : InspectionDisposition → Bool
is_conditional InspectionDisposition.conditional_acceptance = true
is_conditional _ = false

-- A critical failure overrides every disposition but the two that accept nothing.
abbrev pub overridden : InspectionDisposition → List Uuid → ℕ → InspectionDisposition
overridden disposition critical_failures usable =
    if not (length critical_failures == 0)
      && not (is_rejected disposition)
      && not (is_unable_to_verify disposition)
    then (if usable == 0
        then InspectionDisposition.correction_requested
        else InspectionDisposition.partial_acceptance)
    else disposition

abbrev pub sealed_attempt :
    SealInspectionAttemptInput
    → InspectionChecklistVersionSnapshot
    → Tally
    → ℕ
    → InspectionDisposition
    → InspectionAttemptSnapshot
sealed_attempt input checklist t score disposition = record {
  inspection_attempt_id = input.inspection_attempt_id;
  inspection_id = input.inspection_id;
  attempt_no = input.attempt_no;
  sealed_at = input.sealed_at;
  checksum = input.checksum;
  inspection_checklist_version_id = checklist.inspection_checklist_version_id;
  policy_id = checklist.policy.policy_id;
  policy_version = checklist.policy.policy_version;
  contract_id = input.contract_id;
  contract_milestone_id = input.contract_milestone_id;
  deliverable_id = input.deliverable_id;
  deliverable_version_id = input.deliverable_version_id;
  disposition = disposition;
  achievement_percent = format_percent score checklist.policy.rounding.decimal_places;
  criterion_results = input.criterion_results;
  evidence_ids = t.evidence_ids;
  critical_failure_criterion_ids = t.critical_failures;
  independently_usable_portions = or_empty input.independently_usable_portions;
  residual_conditions = or_empty input.residual_conditions;
  inspector_user_id = input.inspector_user_id;
}

-- The checks behind the loop.
unfoldable pub dispose :
    SealInspectionAttemptInput
    → InspectionChecklistVersionSnapshot
    → Tally
    → Result InspectionAttemptSnapshot
dispose input checklist t = do
  score ← rounded_score t.weighted_score checklist.policy.rounding
  first ←
      (if t.unable_to_verify
        then ok InspectionDisposition.unable_to_verify
        else disposition_for score checklist.policy.bands)
  check_usable input.deliverable_version_id (or_empty input.independently_usable_portions)
  check_residual (or_empty input.residual_conditions)
  fail_if
      (is_partial (
          overridden first t.critical_failures
            (length (or_empty input.independently_usable_portions)))
        && length (or_empty input.independently_usable_portions) == 0)
      "INSPECTION_PARTIAL_USABLE_PORTION_REQUIRED"
  fail_if
      (is_conditional (
          overridden first t.critical_failures
            (length (or_empty input.independently_usable_portions)))
        && length (or_empty input.residual_conditions) == 0)
      "INSPECTION_CONDITIONAL_RESIDUAL_REQUIRED"
  ok (
      sealed_attempt input checklist t score (
        overridden first t.critical_failures
          (length (or_empty input.independently_usable_portions))))

unfoldable pub seal_inspection_attempt :
    SealInspectionAttemptInput
    → InspectionChecklistVersionSnapshot
    → Result InspectionAttemptSnapshot
seal_inspection_attempt input checklist_input = do
  checklist ← create_inspection_checklist_version checklist_input
  fail_if (not (str_eq input.inspection_id checklist.inspection_id))
      "INSPECTION_ATTEMPT_CHECKLIST_SUBJECT_MISMATCH"
  fail_if (is_not_positive input.attempt_no) "INSPECTION_ATTEMPT_NO_INVALID"
  fail_if (not (length input.criterion_results == length checklist.criteria))
      "INSPECTION_RESULT_COVERAGE_INCOMPLETE"
  t ← tally_results input.inspection_attempt_id checklist.criteria no_tally input.criterion_results
  dispose input checklist t

-- The loop of `deriveRepeatedCriticalFailureCount`, given the attempt numbers before.
unfoldable pub count_failures : List ℕ → ℕ → List InspectionAttemptSnapshot → Uuid → Result ℕ
count_failures numbers count [] criterion = ok count
count_failures numbers count (attempt ∷ attempts) criterion = do
  fail_if (has_number numbers attempt.attempt_no) "INSPECTION_ATTEMPT_NO_DUPLICATE"
  count_failures (attempt.attempt_no ∷ numbers)
      (if includes attempt.critical_failure_criterion_ids criterion then count + 1 else count)
      attempts criterion

unfoldable pub derive_repeated_critical_failure_count :
    List InspectionAttemptSnapshot → Uuid → Result ℕ
derive_repeated_critical_failure_count attempts criterion = count_failures [] 0 attempts criterion
