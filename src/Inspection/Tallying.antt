-- ===== src/Inspection/Tallying.antt =====
-- packages/features/quality/src/domain/inspection.ts: what the loop of `sealInspectionAttempt` gathers.
use mathlib.Core.List.{append-nil, append_assoc}
use youone_rnd.Shared.{
  ℕ, ◌+◌, ◌*◌, ◌/◌, ◌≤◌, ◌≡◌, refl, sym, ap, ◌∙◌, Bool, true, false, not, ◌&&◌, ◌||◌, Option, none,
  some, List, [], ◌∷◌, ◌++◌, ok, >>=-eq-ok, >>-eq-ok, fail_if, present, ◌==◌, any, filter, map,
  find_holds, length, str_eq, eq_iff, opt_eq, codes, includes, arith, Bool-cases, inl, inr, ◌⊎◌,
}
use youone_rnd.Kernel.{Uuid}
use youone_rnd.Inspection.Types.{
  InspectionCriterionSnapshot, InspectionCriterionResultSnapshot, need_text,
}
use youone_rnd.Inspection.Percent.{parse_percent}
use youone_rnd.Inspection.Sealing.{
  Tally, criterion_of, tallied, tally_result, tally_results, is_pass, is_unable,
}
use youone_rnd.Inspection.Weights.{
  left, left_taken, weight_of, one_each, product_bounded, parse_percent_bounded, parse_percent_code,
}

-- A result that passed the checks.
record Takes (attempt : Uuid) (criteria : List InspectionCriterionSnapshot) (t : Tally)
    (result : InspectionCriterionResultSnapshot) (next : Tally) : Type 0 where
  criterion : InspectionCriterionSnapshot
  weight : ℕ
  achieved : ℕ
  of_attempt : str_eq result.inspection_attempt_id attempt ≡ true
  listed : criterion_of criteria result.inspection_criterion_id ≡ some criterion
  fresh : includes t.seen result.inspection_criterion_id ≡ false
  weighs : weight_of criterion ≡ weight
  bounded : achieved ≤ 100000000
  gathers : tallied t criterion result weight achieved ≡ next

module _ (attempt : Uuid) (criteria : List InspectionCriterionSnapshot) where
  tally_result-Takes :
      (t : Tally) (result : InspectionCriterionResultSnapshot) {next : Tally}
      → tally_result attempt criteria t result ≡ ok next
      → Takes attempt criteria t result next
  unfolding tally_result
  tally_result-Takes t result {next = n} h =
      let (mine, h1) =
        >>-eq-ok
          (fail_if (not (str_eq result.inspection_attempt_id attempt))
            "INSPECTION_RESULT_ATTEMPT_MISMATCH")
          _ h in
      let (criterion, listed, h2) =
        >>=-eq-ok
          (present (criterion_of criteria result.inspection_criterion_id)
            "INSPECTION_RESULT_CRITERION_INVALID")
          _ h1 in
      let (fresh, h3) =
        >>-eq-ok
          (fail_if (includes t.seen result.inspection_criterion_id)
            "INSPECTION_RESULT_CRITERION_INVALID")
          _ h2 in
      let (_, h4) =
        >>-eq-ok
          (fail_if (not (opt_eq result.requirement_revision_id criterion.requirement_revision_id))
            "INSPECTION_RESULT_REQUIREMENT_REVISION_MISMATCH")
          _ h3 in
      let (_, h5) =
        >>-eq-ok (need_text result.observed_value "INSPECTION_RESULT_OBSERVED_VALUE_REQUIRED") _
          h4 in
      let (_, h6) =
        >>-eq-ok (fail_if (length result.evidence_ids == 0) "INSPECTION_RESULT_EVIDENCE_REQUIRED") _
          h5 in
      let (achieved, read, h7) =
        >>=-eq-ok
          (parse_percent (codes result.achieved_percent) "INSPECTION_RESULT_ACHIEVEMENT_INVALID") _
          h6 in
      let (weight, weighed, h8) =
        >>=-eq-ok
          (parse_percent (codes criterion.weight_percent) "INSPECTION_CRITERION_WEIGHT_INVALID") _
          h7 in
      record {
        criterion = criterion;
        weight = weight;
        achieved = achieved;
        of_attempt = ground arith;
        listed = ground arith;
        fresh = ground arith;
        weighs =
            parse_percent_code criterion.weight_percent "INSPECTION_CRITERION_WEIGHT_INVALID"
              weighed;
        bounded =
            parse_percent_bounded (codes result.achieved_percent)
              "INSPECTION_RESULT_ACHIEVEMENT_INVALID" read;
        gathers = cc h8;
      }

  -- The score so far, and the weights of the criteria that are left, never exceed what there was.
  pub tally_results_score :
      (results : List InspectionCriterionResultSnapshot) (t : Tally) {last : Tally}
      → tally_results attempt criteria t results ≡ ok last
      → last.weighted_score + left weight_of last.seen criteria
        ≤ t.weighted_score + left weight_of t.seen criteria
  unfolding tally_results
  tally_results_score [] t {last = l} h = let same : t ≡ l = cc h in rw same (omega arith)
  tally_results_score (r ∷ rs) t h =
      let (next, one, rest) = >>=-eq-ok (tally_result attempt criteria t r) _ h in
      let taken = tally_result-Takes t r one in
      let step =
        left_taken weight_of t.seen r.inspection_criterion_id criteria taken.criterion taken.listed
          taken.fresh in
      let bound = product_bounded taken.weight taken.achieved taken.bounded in
      let w = taken.weighs in
      let score : t.weighted_score + taken.weight * taken.achieved / 100000000
          ≡ next.weighted_score =
        ap (λ n. n.weighted_score) taken.gathers in
      let seen : r.inspection_criterion_id ∷ t.seen ≡ next.seen = ap (λ n. n.seen) taken.gathers in
      let step2 : weight_of taken.criterion + left weight_of next.seen criteria
          ≤ left weight_of t.seen criteria =
        rw seen at step in
      omega (arith, bound, w, score, step2, tally_results_score rs next rest)

  -- Each result takes one criterion.
  pub tally_results_count :
      (results : List InspectionCriterionResultSnapshot) (t : Tally) {last : Tally}
      → tally_results attempt criteria t results ≡ ok last
      → length results + left one_each last.seen criteria ≤ left one_each t.seen criteria
  unfolding tally_results
  tally_results_count [] t {last = l} h = let same : t ≡ l = cc h in rw same (omega arith)
  tally_results_count (r ∷ rs) t h =
      let (next, one, rest) = >>=-eq-ok (tally_result attempt criteria t r) _ h in
      let taken = tally_result-Takes t r one in
      let step =
        left_taken one_each t.seen r.inspection_criterion_id criteria taken.criterion taken.listed
          taken.fresh in
      let seen : r.inspection_criterion_id ∷ t.seen ≡ next.seen = ap (λ n. n.seen) taken.gathers in
      let step2 : 1 + left one_each next.seen criteria ≤ left one_each t.seen criteria =
        rw seen at step in
      omega (arith, step2, tally_results_count rs next rest)

  -- What the loop has seen, one of the results is about.
  pub tally_results_seen :
      (results : List InspectionCriterionResultSnapshot) (t : Tally) (id : Uuid) {last : Tally}
      → tally_results attempt criteria t results ≡ ok last
      → includes last.seen id ≡ true
      → (includes t.seen id ≡ true)
        ⊎ (any (λ r. str_eq r.inspection_criterion_id id) results ≡ true)
  unfolding tally_results includes
  tally_results_seen [] t id {last = l} h k = let same : l ≡ t = cc h in inl (rw (← same) k)
  tally_results_seen (r ∷ rs) t id h k =
      let (next, one, rest) = >>=-eq-ok (tally_result attempt criteria t r) _ h in
      let taken = tally_result-Takes t r one in
      let seen : next.seen ≡ r.inspection_criterion_id ∷ t.seen =
        sym (ap (λ n. n.seen) taken.gathers) in
      elim (tally_results_seen rs next id rest k) [
        | inl before ↦
            let here : includes (r.inspection_criterion_id ∷ t.seen) id ≡ true =
              rw seen at before in
            elim (Bool-cases (str_eq r.inspection_criterion_id id)) [
              | inl mine ↦ inr (rw mine refl)
              | inr other ↦ inl (rw other at here)
            ]
        | inr later ↦ inr (ground arith)
      ]

  abbrev pub is_critical : Option InspectionCriterionSnapshot → Bool
  is_critical none = false
  is_critical (some criterion) = criterion.critical

  -- The results that fail a critical criterion.
  abbrev pub is_critical_failure : InspectionCriterionResultSnapshot → Bool
  is_critical_failure r =
      is_critical (criterion_of criteria r.inspection_criterion_id) && not (is_pass r.verdict)

  critical_step :
      (t : Tally) (r : InspectionCriterionResultSnapshot) (next : Tally)
      (rs : List InspectionCriterionResultSnapshot)
      → Takes attempt criteria t r next
      → next.critical_failures
          ++ map (λ r. r.inspection_criterion_id) (filter is_critical_failure rs)
        ≡ t.critical_failures
          ++ map (λ r. r.inspection_criterion_id) (filter is_critical_failure (r ∷ rs))
  critical_step t r next rs taken =
      let rest =
        map (λ (r : InspectionCriterionResultSnapshot). r.inspection_criterion_id)
          (filter is_critical_failure rs) in
      let c = taken.criterion in
      let id = (eq_iff c.inspection_criterion_id r.inspection_criterion_id).0 (
        find_holds (λ c. str_eq c.inspection_criterion_id r.inspection_criterion_id) criteria
          taken.listed) in
      let here : is_critical_failure r ≡ (c.critical && not (is_pass r.verdict)) =
        rw taken.listed refl in
      let gathered = sym (ap (λ n. n.critical_failures) taken.gathers) in
      elim (Bool-cases (c.critical && not (is_pass r.verdict))) [
        | inl failed ↦
            let more : next.critical_failures
                ≡ t.critical_failures ++ r.inspection_criterion_id ∷ [] =
              rw failed at (rw id at gathered) in
            rw (more, here, failed)
              (append_assoc t.critical_failures (r.inspection_criterion_id ∷ []) rest)
        | inr passed ↦
            let same : next.critical_failures ≡ t.critical_failures = rw passed at gathered in
            rw (same, here, passed) refl
      ]

  pub tally_results_critical :
      (results : List InspectionCriterionResultSnapshot) (t : Tally) {last : Tally}
      → tally_results attempt criteria t results ≡ ok last
      → last.critical_failures
        ≡ t.critical_failures
          ++ map (λ r. r.inspection_criterion_id) (filter is_critical_failure results)
  unfolding tally_results
  tally_results_critical [] t {last = l} h =
      let same : l ≡ t = cc h in
      ap (λ n. n.critical_failures) same ∙ sym (append-nil t.critical_failures)
  tally_results_critical (r ∷ rs) t h =
      let (next, one, rest) = >>=-eq-ok (tally_result attempt criteria t r) _ h in
      let taken = tally_result-Takes t r one in
      tally_results_critical rs next rest ∙ critical_step t r next rs taken

  pub tally_results_unable :
      (results : List InspectionCriterionResultSnapshot) (t : Tally) {last : Tally}
      → tally_results attempt criteria t results ≡ ok last
      → last.unable_to_verify ≡ any (λ r. is_unable r.verdict) results || t.unable_to_verify
  unfolding tally_results
  tally_results_unable [] t {last = l} h =
      let same : l ≡ t = cc h in ap (λ n. n.unable_to_verify) same
  tally_results_unable (r ∷ rs) t h =
      let (next, one, rest) = >>=-eq-ok (tally_result attempt criteria t r) _ h in
      let taken = tally_result-Takes t r one in
      let unable : next.unable_to_verify ≡ is_unable r.verdict || t.unable_to_verify =
        sym (ap (λ n. n.unable_to_verify) taken.gathers) in
      ground (arith, unable, tally_results_unable rs next rest)
