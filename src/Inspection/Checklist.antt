-- ===== src/Inspection/Checklist.antt =====
-- packages/features/quality/src/domain/inspection.ts: `validatePolicy` and
-- `createInspectionChecklistVersion`.
use youone_rnd.Shared.{
  ℕ, ◌+◌, Bool, not, ◌||◌, Option, none, some, List, [], ◌∷◌, String, Result, ok, ◌>>=◌, ◌>>◌,
  fail_if, leb, ◌==◌, any, length, str_eq, codes, includes,
}
use youone_rnd.Kernel.{Uuid, is_safe_integer}
use youone_rnd.Inspection.Types.{
  Band, AcceptanceScorePolicy, InspectionCriterionSnapshot, InspectionChecklistVersionSnapshot,
  need_text,
}
use youone_rnd.Inspection.Percent.{parse_percent, rounded_score}

-- `!Number.isSafeInteger(value) || value <= 0`
abbrev pub is_not_positive : ℕ → Bool
is_not_positive value = not (is_safe_integer value) || value == 0

abbrev pub check_maximum : ℕ → Option String → Result (Unit {0})
check_maximum min none = ok tt
check_maximum min (some text) =
    parse_percent (codes text) "INSPECTION_POLICY_BAND_INVALID" >>= λ max.
    fail_if (leb max min) "INSPECTION_POLICY_BAND_INVALID"

unfoldable pub check_bands : List Band → Result (Unit {0})
check_bands [] = ok tt
check_bands (band ∷ bands) = do
  min ← parse_percent (codes band.min_inclusive) "INSPECTION_POLICY_BAND_INVALID"
  check_maximum min band.max_exclusive
  check_bands bands

-- `validatePolicy`
unfoldable pub check_policy : AcceptanceScorePolicy → Result (Unit {0})
check_policy policy = do
  fail_if (is_not_positive policy.policy_version || length policy.bands == 0)
      "INSPECTION_POLICY_INVALID"
  zero_score ← rounded_score 0 policy.rounding
  check_bands policy.bands

abbrev pub has_number : List ℕ → ℕ → Bool
has_number numbers n = any (λ m. m == n) numbers

-- `(versionNo === 1) !== (previousChecklistVersionId === undefined)`
abbrev pub wrong_predecessor : ℕ → Option Uuid → Bool
wrong_predecessor version_no none = not (version_no == 1)
wrong_predecessor version_no (some id) = version_no == 1

-- The checks of one criterion, and its weight, given the ids and sequence numbers before it.
unfoldable pub check_criterion : Uuid → List Uuid → List ℕ → InspectionCriterionSnapshot → Result ℕ
check_criterion checklist ids sequences criterion = do
  fail_if (not (str_eq criterion.inspection_checklist_version_id checklist))
      "INSPECTION_CRITERION_CHECKLIST_MISMATCH"
  fail_if (is_not_positive criterion.sequence_no || has_number sequences criterion.sequence_no)
      "INSPECTION_CRITERION_SEQUENCE_INVALID"
  fail_if (includes ids criterion.inspection_criterion_id) "INSPECTION_CRITERION_DUPLICATE"
  need_text criterion.title "INSPECTION_CRITERION_TITLE_REQUIRED"
  need_text criterion.measurement_rule "INSPECTION_MEASUREMENT_RULE_REQUIRED"
  need_text criterion.pass_rule "INSPECTION_PASS_RULE_REQUIRED"
  fail_if (length criterion.required_evidence == 0) "INSPECTION_REQUIRED_EVIDENCE_EMPTY"
  parse_percent (codes criterion.weight_percent) "INSPECTION_CRITERION_WEIGHT_INVALID"

-- The loop over the criteria; the total of the weights.
unfoldable pub check_criteria :
    Uuid → List Uuid → List ℕ → ℕ → List InspectionCriterionSnapshot → Result ℕ
check_criteria checklist ids sequences total [] = ok total
check_criteria checklist ids sequences total (criterion ∷ criteria) =
    check_criterion checklist ids sequences criterion >>= λ weight.
    check_criteria checklist (criterion.inspection_criterion_id ∷ ids)
      (criterion.sequence_no ∷ sequences) (total + weight) criteria

unfoldable pub create_inspection_checklist_version :
    InspectionChecklistVersionSnapshot → Result InspectionChecklistVersionSnapshot
create_inspection_checklist_version input = do
  fail_if (is_not_positive input.version_no) "INSPECTION_CHECKLIST_VERSION_NO_INVALID"
  fail_if (wrong_predecessor input.version_no input.previous_checklist_version_id)
      "INSPECTION_CHECKLIST_PREDECESSOR_INVALID"
  check_policy input.policy
  fail_if (length input.criteria == 0) "INSPECTION_CRITERIA_REQUIRED"
  total ← check_criteria input.inspection_checklist_version_id [] [] 0 input.criteria
  fail_if (not (total == 100000000)) "INSPECTION_CRITERION_WEIGHT_TOTAL_INVALID"
  ok input
