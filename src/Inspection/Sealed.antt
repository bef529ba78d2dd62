-- ===== src/Inspection/Sealed.antt =====
-- packages/features/quality/src/domain/inspection.ts: what holds of a sealed attempt.
use mathlib.Core.List.{Memᴰ}
use youone_rnd.Shared.{
  ℕ, ◌≤◌, ◌<◌, ◌≡◌, refl, sym, ap, ◌∙◌, true, false, not, ◌||◌, List, [], ◌∷◌, String, ok, ◌>>=◌,
  ◌>>◌, >>=-eq-ok, >>-eq-ok, fail_if, ◌==◌, any, filter, map, length, str_eq, includes, arith, inl,
  inr,
}
use youone_rnd.Kernel.{Uuid}
use youone_rnd.Decimal.{percentage_micros}
use youone_rnd.Inspection.Types.{
  InspectionCriterionSnapshot, InspectionChecklistVersionSnapshot, InspectionAttemptSnapshot,
  SealInspectionAttemptInput,
}
use youone_rnd.Inspection.Percent.{parse_percent, format_percent}
use youone_rnd.Inspection.Checklist.{
  is_not_positive, wrong_predecessor, check_policy, check_criteria,
  create_inspection_checklist_version,
}
use youone_rnd.Inspection.Sealing.{
  Tally, no_tally, tally_results, dispose, or_empty, overridden, seal_inspection_attempt, is_unable,
  is_partial, is_conditional, is_accepted,
}
use youone_rnd.Inspection.Methods.{is_acceptance}
use youone_rnd.Inspection.Weights.{left, one_each, check_criteria_total}
use youone_rnd.Inspection.Tallying.{
  tally_results_score, tally_results_count, tally_results_seen, tally_results_critical,
  tally_results_unable, is_critical_failure,
}
use youone_rnd.Inspection.RoundTrip.{parse_percent-format_percent}
use youone_rnd.Inspection.Disposal.{dispose-Disposes, no_critical, no_unable}

-- The way to a sealed attempt.
record Seals (input : SealInspectionAttemptInput) (checklist : InspectionChecklistVersionSnapshot)
    (attempt : InspectionAttemptSnapshot) : Type 0 where
  t : Tally
  total :
      check_criteria checklist.inspection_checklist_version_id [] [] 0 checklist.criteria
      ≡ ok 100000000
  lengths : length input.criterion_results ≡ length checklist.criteria
  gathered :
      tally_results input.inspection_attempt_id checklist.criteria no_tally input.criterion_results
      ≡ ok t
  disposed : dispose input checklist t ≡ ok attempt

left-one_each : (cs : List InspectionCriterionSnapshot) → left one_each [] cs ≡ length cs
unfolding includes
left-one_each [] = refl
left-one_each (c ∷ cs) = omega (arith, left-one_each cs)

-- Where no criterion is left, each has been seen.
left-seen :
    (seen : List Uuid) (cs : List InspectionCriterionSnapshot) (c : InspectionCriterionSnapshot)
    → Memᴰ c cs
    → left one_each seen cs ≡ 0
    → includes seen c.inspection_criterion_id ≡ true
left-seen seen [] c m h = elim m [ ]
left-seen seen (d ∷ cs) c (Memᴰ.head e) h =
    let here : includes seen d.inspection_criterion_id ≡ true = ground arith in rw e here
left-seen seen (d ∷ cs) c (Memᴰ.tail m) h = left-seen seen cs c m (ground arith)

module _ (input : SealInspectionAttemptInput) (checklist : InspectionChecklistVersionSnapshot) where
  create_same :
      {made : InspectionChecklistVersionSnapshot}
      → create_inspection_checklist_version checklist ≡ ok made
      → (checklist ≡ made)
        × (check_criteria checklist.inspection_checklist_version_id [] [] 0 checklist.criteria
            ≡ ok 100000000)
  unfolding create_inspection_checklist_version
  create_same h =
      let (_, h1) =
        >>-eq-ok
          (fail_if (is_not_positive checklist.version_no) "INSPECTION_CHECKLIST_VERSION_NO_INVALID")
          _ h in
      let (_, h2) =
        >>-eq-ok
          (fail_if (wrong_predecessor checklist.version_no checklist.previous_checklist_version_id)
            "INSPECTION_CHECKLIST_PREDECESSOR_INVALID")
          _ h1 in
      let (_, h3) = >>-eq-ok (check_policy checklist.policy) _ h2 in
      let (_, h4) =
        >>-eq-ok (fail_if (length checklist.criteria == 0) "INSPECTION_CRITERIA_REQUIRED") _ h3 in
      let (total, added, h5) =
        >>=-eq-ok
          (check_criteria checklist.inspection_checklist_version_id [] [] 0 checklist.criteria) _
          h4 in
      let (full, h6) =
        >>-eq-ok (fail_if (not (total == 100000000)) "INSPECTION_CRITERION_WEIGHT_TOTAL_INVALID") _
          h5 in
      let hundred : total ≡ 100000000 = ground arith in (cc h6, rw hundred at added)

  seal-Seals :
      {attempt : InspectionAttemptSnapshot}
      → seal_inspection_attempt input checklist ≡ ok attempt
      → Seals input checklist attempt
  unfolding seal_inspection_attempt
  seal-Seals {attempt = a} h =
      let (made, created, h1) = >>=-eq-ok (create_inspection_checklist_version checklist) _ h in
      let (same, total) = create_same created in go (rw same h1) total
    where
      go :
          (fail_if
                (not (str_eq input.inspection_id checklist.inspection_id))
                "INSPECTION_ATTEMPT_CHECKLIST_SUBJECT_MISMATCH"
              >> (fail_if (is_not_positive input.attempt_no) "INSPECTION_ATTEMPT_NO_INVALID"
                  >> (fail_if
                        (not (length input.criterion_results == length checklist.criteria))
                        "INSPECTION_RESULT_COVERAGE_INCOMPLETE"
                      >> (tally_results input.inspection_attempt_id checklist.criteria no_tally
                            input.criterion_results
                          >>= λ t. dispose input checklist t))))
            ≡ ok a
          → check_criteria checklist.inspection_checklist_version_id [] [] 0 checklist.criteria
            ≡ ok 100000000
          → Seals input checklist a
      go k total =
          let (_, k1) =
            >>-eq-ok
              (fail_if (not (str_eq input.inspection_id checklist.inspection_id))
                "INSPECTION_ATTEMPT_CHECKLIST_SUBJECT_MISMATCH")
              _ k in
          let (_, k2) =
            >>-eq-ok (fail_if (is_not_positive input.attempt_no) "INSPECTION_ATTEMPT_NO_INVALID") _
              k1 in
          let (same, k3) =
            >>-eq-ok
              (fail_if (not (length input.criterion_results == length checklist.criteria))
                "INSPECTION_RESULT_COVERAGE_INCOMPLETE")
              _ k2 in
          let (t, gathered, k4) =
            >>=-eq-ok
              (tally_results input.inspection_attempt_id checklist.criteria no_tally
                input.criterion_results)
              _ k3 in
          record {
            t = t;
            total = total;
            lengths = ground arith;
            gathered = gathered;
            disposed = k4;
          }

  -- A sealed attempt states an achievement of at most a hundred percent, as a text that the
  -- inspection and the acceptance payment read as the same number.
  pub seal_inspection_attempt_score :
      (attempt : InspectionAttemptSnapshot)
      → seal_inspection_attempt input checklist ≡ ok attempt
      → (score : ℕ) × (score ≤ 100000000)
        × ((code : String)
            → (parse_percent attempt.achievement_percent code ≡ ok score)
              × (percentage_micros attempt.achievement_percent code ≡ ok score))
  seal_inspection_attempt_score attempt h =
      let s = seal-Seals h in
      let d = dispose-Disposes input checklist s.t s.disposed in
      let weights =
        check_criteria_total checklist.inspection_checklist_version_id [] [] 0 checklist.criteria
          s.total in
      let bound =
        tally_results_score input.inspection_attempt_id checklist.criteria input.criterion_results
          no_tally s.gathered in
      let within : s.t.weighted_score ≤ 100000000 = omega (arith, weights, bound) in
      let read = λ (code : String).
        parse_percent-format_percent s.t.weighted_score checklist.policy.rounding d.score code
          within d.rounds in
      let text : format_percent d.score checklist.policy.rounding.decimal_places
          ≡ attempt.achievement_percent =
        ap (λ a. a.achievement_percent) d.made in
      (d.score, (read "").0, λ code. let (_, p, q) = read code in (rw text at p, rw text at q))

  -- Every criterion of the checklist has a result in a sealed attempt, and there are as many results
  -- as criteria.
  pub seal_inspection_attempt_covers :
      (attempt : InspectionAttemptSnapshot) (criterion : InspectionCriterionSnapshot)
      → seal_inspection_attempt input checklist ≡ ok attempt
      → Memᴰ criterion checklist.criteria
      → (any
            (λ r. str_eq r.inspection_criterion_id criterion.inspection_criterion_id)
            attempt.criterion_results
          ≡ true)
        × (length attempt.criterion_results ≡ length checklist.criteria)
  unfolding includes
  seal_inspection_attempt_covers attempt criterion h m =
      let s = seal-Seals h in
      let d = dispose-Disposes input checklist s.t s.disposed in
      let count =
        tally_results_count input.inspection_attempt_id checklist.criteria input.criterion_results
          no_tally s.gathered in
      let all_of_them = left-one_each checklist.criteria in
      let same = s.lengths in
      let none_left : left one_each s.t.seen checklist.criteria ≡ 0 =
        omega (arith, count, all_of_them, same) in
      let results : input.criterion_results ≡ attempt.criterion_results =
        ap (λ a. a.criterion_results) d.made in
      rw (← results)
        (elim (tally_results_seen input.inspection_attempt_id checklist.criteria
          input.criterion_results no_tally criterion.inspection_criterion_id s.gathered
          (left-seen s.t.seen checklist.criteria criterion m none_left)) [
            | inl before ↦ absurd (cc before)
            | inr found ↦ (found, same)
          ])

  -- A sealed attempt lists the criteria that a result fails critically; it is accepted or accepted
  -- conditionally only without any, it is accepted at all only where every result could be verified,
  -- partly only with usable portions, and conditionally only with residual conditions.
  pub seal_inspection_attempt_disposition :
      (attempt : InspectionAttemptSnapshot)
      → seal_inspection_attempt input checklist ≡ ok attempt
      → (attempt.critical_failure_criterion_ids
          ≡ map
              (λ r. r.inspection_criterion_id)
              (filter
                (is_critical_failure input.inspection_attempt_id checklist.criteria)
                attempt.criterion_results))
        × ((is_accepted attempt.disposition || is_conditional attempt.disposition) ≡ true
            → attempt.critical_failure_criterion_ids ≡ [])
        × (is_acceptance attempt.disposition ≡ true
            → any (λ r. is_unable r.verdict) attempt.criterion_results ≡ false)
        × (is_partial attempt.disposition ≡ true → 0 < length attempt.independently_usable_portions)
        × (is_conditional attempt.disposition ≡ true → 0 < length attempt.residual_conditions)
  seal_inspection_attempt_disposition attempt h =
      let s = seal-Seals h in
      let d = dispose-Disposes input checklist s.t s.disposed in
      let critical =
        tally_results_critical input.inspection_attempt_id checklist.criteria
          input.criterion_results no_tally s.gathered in
      let unable =
        tally_results_unable input.inspection_attempt_id checklist.criteria input.criterion_results
          no_tally s.gathered in
      let made = d.made in
      let usable = d.usable in
      let residual = d.residual in
      let results : input.criterion_results ≡ attempt.criterion_results =
        ap (λ a. a.criterion_results) made in
      let listed : s.t.critical_failures ≡ attempt.critical_failure_criterion_ids =
        ap (λ a. a.critical_failure_criterion_ids) made in
      let disposition : overridden d.first s.t.critical_failures
            (length (or_empty input.independently_usable_portions))
          ≡ attempt.disposition =
        ap (λ a. a.disposition) made in
      (
        rw (← results) (sym listed ∙ critical),
        (λ a. rw (← listed) (
            no_critical d.first s.t.critical_failures
              (length (or_empty input.independently_usable_portions)) (rw disposition a))),
        (λ a.
            let none_unable =
              no_unable checklist s.t.unable_to_verify d.score d.first s.t.critical_failures
                (length (or_empty input.independently_usable_portions)) d.chosen
                (rw disposition a) in
            rw (← results) (ground (arith, unable, none_unable))),
        (λ a. ground (arith, usable)),
        λ a. ground (arith, residual),
      )
