-- ===== src/Inspection/Weights.antt =====
-- packages/features/quality/src/domain/inspection.ts: the weights of a checklist's criteria, and what
-- the loop of `sealInspectionAttempt` takes of them.
use youone_rnd.Shared.{
  ℕ, ◌+◌, ◌-◌, ◌*◌, ◌/◌, ◌≤◌, ◌≡◌, sym, ap, true, false, some, List, [], ◌∷◌, String, ok, err,
  >>=-eq-ok, str_eq, eq_iff, codes, includes, arith, Bool-cases, inl, inr, if◌then◌else◌,
}
use youone_rnd.Kernel.{Uuid}
use youone_rnd.Decimal.{Digits, fraction_micros}
use youone_rnd.Inspection.Types.{InspectionCriterionSnapshot}
use youone_rnd.Inspection.Percent.{parse_percent}
use youone_rnd.Inspection.Checklist.{check_criterion, check_criteria}
use youone_rnd.Inspection.Sealing.{criterion_of}

-- What the criteria that have no result yet amount to.
module _ (w : InspectionCriterionSnapshot → ℕ) where
  abbrev pub left : List Uuid → List InspectionCriterionSnapshot → ℕ
  left seen [] = 0
  left seen (c ∷ cs) = (if includes seen c.inspection_criterion_id then 0 else w c) + left seen cs

  left_mono :
      (seen : List Uuid) (id : Uuid) (cs : List InspectionCriterionSnapshot)
      → left (id ∷ seen) cs ≤ left seen cs
  unfolding includes
  left_mono seen id [] = omega arith
  left_mono seen id (c ∷ cs) = ground (arith, left_mono seen id cs)

  -- A criterion that gets its result is no longer among them.
  pub left_taken :
      (seen : List Uuid) (id : Uuid) (cs : List InspectionCriterionSnapshot)
      (c : InspectionCriterionSnapshot)
      → criterion_of cs id ≡ some c
      → includes seen id ≡ false
      → w c + left (id ∷ seen) cs ≤ left seen cs
  unfolding includes
  left_taken seen id [] c e h = absurd (ground arith)
  left_taken seen id (d ∷ cs) c e h = elim (Bool-cases (str_eq d.inspection_criterion_id id)) [
    | inl here ↦
        let same_id = (eq_iff d.inspection_criterion_id id).0 here in
        let same : d ≡ c = ground arith in
        let back : str_eq id d.inspection_criterion_id ≡ true =
          (eq_iff id d.inspection_criterion_id).1 (sym same_id) in
        let fresh : includes seen d.inspection_criterion_id ≡ false = rw same_id h in
        let weights : w d ≡ w c = ap w same in
        rw (fresh, back) (omega (arith, weights, left_mono seen id cs))
    | inr other ↦ ground (arith, left_taken seen id cs c (rw other at e) h)
  ]

abbrev pub percent_of : String → ℕ
percent_of text = elim (parse_percent (codes text) "") [ ok value ↦ value | err code ↦ 0 ]

abbrev pub weight_of : InspectionCriterionSnapshot → ℕ
weight_of criterion = percent_of criterion.weight_percent

abbrev pub one_each : InspectionCriterionSnapshot → ℕ
one_each criterion = 1

-- A weight times an achievement, in percents, is at most the weight.
pub product_bounded :
    (weight achieved : ℕ) → achieved ≤ 100000000 → weight * achieved / 100000000 ≤ weight
product_bounded weight achieved h =
    let rest = 100000000 - achieved in
    let parts : weight * 100000000 ≡ weight * (achieved + rest) =
      ap (λ (t : ℕ). weight * t) (omega arith) in
    omega (arith, parts)

pub parse_percent_bounded :
    (text : Digits) (code : String) {value : ℕ}
    → parse_percent text code ≡ ok value
    → value ≤ 100000000
unfolding parse_percent
parse_percent_bounded text code {value} h = ground arith

-- The code of the error does not matter to the value.
pub parse_percent_code :
    (text : String) (code : String) {value : ℕ}
    → parse_percent (codes text) code ≡ ok value
    → percent_of text ≡ value
unfolding parse_percent fraction_micros
parse_percent_code text code {value} h = ground arith

-- The total of the loop over the criteria is their weight.
pub check_criteria_total :
    (checklist : Uuid) (ids : List Uuid) (sequences : List ℕ) (total : ℕ)
    (cs : List InspectionCriterionSnapshot) {sum : ℕ}
    → check_criteria checklist ids sequences total cs ≡ ok sum
    → sum ≡ total + left weight_of [] cs
unfolding check_criteria check_criterion includes
check_criteria_total checklist ids sequences total [] {sum = s} h = ground arith
check_criteria_total checklist ids sequences total (c ∷ cs) h =
    let (weight, checked, rest) = >>=-eq-ok (check_criterion checklist ids sequences c) _ h in
    let read : parse_percent (codes c.weight_percent) "INSPECTION_CRITERION_WEIGHT_INVALID"
        ≡ ok weight =
      ground arith in
    let weighs = parse_percent_code c.weight_percent "INSPECTION_CRITERION_WEIGHT_INVALID" read in
    omega (
      arith,
      weighs,
      check_criteria_total checklist (c.inspection_criterion_id ∷ ids) (c.sequence_no ∷ sequences)
          (total + weight) cs rest,
    )
