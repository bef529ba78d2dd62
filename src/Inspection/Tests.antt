-- ===== src/Inspection/Tests.antt =====
-- An inspection from its request to its acceptance, and the theorems on it.
use mathlib.Core.List.{Memᴰ}
use youone_rnd.Shared.{
  ℕ, ◌≤◌, ◌<◌, ◌≡◌, refl, true, false, ◌||◌, none, some, List, [], ◌∷◌, ◌⊎◌, map, filter, any,
  length, String, ok, err, is_ok, from_ok, from_ok_lem, codes, is_blank, includes, str_eq, arith,
}
use youone_rnd.Kernel.{Uuid, next_version, version, max_safe_integer}
use youone_rnd.Decimal.{
  percentage_micros, decimal_micros, span_digits, value_from, fraction_micros, to_text, print_from,
  strip_zeros,
}
use youone_rnd.Inspection.Types.{
  InspectionState, InspectionDisposition, CriterionVerdict, InspectionActorKind,
  InspectionActorSnapshot, InspectionSnapshot, RoundingMode, BandDisposition, AcceptanceScorePolicy,
  InspectionCriterionSnapshot, InspectionChecklistVersionSnapshot,
  InspectionCriterionResultSnapshot, InspectionAttemptSnapshot, SealInspectionAttemptInput,
  need_text,
}
use youone_rnd.Inspection.Percent.{parse_percent, format_percent, rounded_score}
use youone_rnd.Inspection.Checklist.{
  check_bands, check_policy, check_criterion, check_criteria, create_inspection_checklist_version,
}
use youone_rnd.Inspection.Sealing.{
  disposition_for, tally_result, tally_results, check_usable, check_residual, dispose,
  seal_inspection_attempt, count_failures, derive_repeated_critical_failure_count, is_unable,
  is_accepted, is_partial, is_conditional,
}
use youone_rnd.Inspection.Initial.{
  initial_acceptance_policy_v1, by_threshold, initial_acceptance_policy_v1_total,
}
use youone_rnd.Inspection.Machine.{
  InspectionCommand, InspectionMutation, inspection_guard, require_internal,
  require_internal_decider, require_exact_attempt, require_latest_attempt, require_requester,
  inspection_mutation, transition, is_internal_kind, is_given,
}
use youone_rnd.Inspection.Methods.{
  InspectionInput, request, schedule, start, submit_decision, accept, request_correction, reject,
  submit_correction, start_reinspection, cancel, is_acceptance,
}
use youone_rnd.Inspection.Tallying.{is_critical_failure}
use youone_rnd.Inspection.Sealed.{
  seal_inspection_attempt_score, seal_inspection_attempt_covers,
  seal_inspection_attempt_disposition,
}
use youone_rnd.Inspection.Graph.{InspectionCall, inspection_run}
use youone_rnd.Inspection.Stamped.{subject_of, Stamped, inspection_run-Stamped}
use youone_rnd.Inspection.Log.{Logged, InspectionReach-Logged}
use youone_rnd.Inspection.Failing.{
  inspection_run_unchanged, inspection_run_completes, inspection_run_vendor,
}
use youone_rnd.Inspection.Invariant.{InspectionReach, InspectionInv, InspectionReach-Inv, attempts}
use youone_rnd.Inspection.Failures.{failing, derive_repeated_critical_failure_count-InspectionReach}

engine : Unit {0}
unfolding is_blank includes next_version version percentage_micros decimal_micros span_digits
    value_from fraction_micros to_text print_from strip_zeros need_text parse_percent format_percent
    rounded_score check_bands check_policy check_criterion check_criteria
    create_inspection_checklist_version disposition_for tally_result tally_results check_usable
    check_residual dispose seal_inspection_attempt count_failures
    derive_repeated_critical_failure_count inspection_guard require_internal
    require_internal_decider require_exact_attempt require_latest_attempt require_requester
    inspection_mutation transition request schedule start submit_decision accept request_correction
    reject submit_correction start_reinspection cancel
engine = tt

abbrev policy : AcceptanceScorePolicy
policy = record {
  policy_id = "POL-ACCEPTANCE-PAYMENT-V1";
  policy_version = 1;
  rounding = record { decimal_places = 2; mode = RoundingMode.half_up };
  bands =
      record { min_inclusive = "100"; max_exclusive = none; disposition = BandDisposition.accepted }
      ∷ record {
        min_inclusive = "90";
        max_exclusive = some "100";
        disposition = BandDisposition.conditional_acceptance;
      }
      ∷ record {
        min_inclusive = "0";
        max_exclusive = some "90";
        disposition = BandDisposition.rejected;
      }
      ∷ [];
}

abbrev criterion : Uuid → ℕ → String → InspectionCriterionSnapshot
criterion id sequence weight = record {
  inspection_criterion_id = id;
  inspection_checklist_version_id = "checklist";
  sequence_no = sequence;
  criterion_code = "C";
  title = "title";
  requirement_revision_id = none;
  weight_percent = weight;
  critical = true;
  required_evidence = "photo" ∷ [];
  measurement_rule = "measure";
  pass_rule = "pass";
}

abbrev first_criterion : InspectionCriterionSnapshot
first_criterion = criterion "c1" 1 "33.333333"

abbrev checklist : InspectionChecklistVersionSnapshot
checklist = record {
  inspection_checklist_version_id = "checklist";
  inspection_id = "inspection";
  version_no = 1;
  previous_checklist_version_id = none;
  policy = policy;
  criteria = first_criterion ∷ criterion "c2" 2 "66.666667" ∷ [];
  checksum = "sum";
  sealed_at = "t0";
  sealed_by_user_id = "user";
}

abbrev result : Uuid → Uuid → String → CriterionVerdict → InspectionCriterionResultSnapshot
result attempt id achieved verdict = record {
  inspection_criterion_result_id = "r";
  inspection_attempt_id = attempt;
  inspection_criterion_id = id;
  requirement_revision_id = none;
  achieved_percent = achieved;
  verdict = verdict;
  observed_value = "seen";
  evidence_ids = "e1" ∷ [];
}

abbrev input : Uuid → ℕ → String → CriterionVerdict → SealInspectionAttemptInput
input id number achieved verdict = record {
  inspection_attempt_id = id;
  inspection_id = "inspection";
  attempt_no = number;
  contract_id = "contract";
  contract_milestone_id = "milestone";
  deliverable_id = "deliverable";
  deliverable_version_id = "version";
  criterion_results =
      result id "c2" "100" CriterionVerdict.pass ∷ result id "c1" achieved verdict ∷ [];
  independently_usable_portions = none;
  residual_conditions = none;
  inspector_user_id = "inspector";
  checksum = "sum";
  sealed_at = "t3";
}

abbrev failed_input : SealInspectionAttemptInput
failed_input = input "a1" 1 "50" CriterionVerdict.fail

abbrev passed_input : SealInspectionAttemptInput
passed_input = input "a1" 1 "100" CriterionVerdict.pass

failed_seals : is_ok (seal_inspection_attempt failed_input checklist) ≡ true
unfolding engine
failed_seals = refl

abbrev failed_attempt : InspectionAttemptSnapshot
failed_attempt = from_ok (seal_inspection_attempt failed_input checklist) failed_seals

-- Two thirds and a half of one third is 83.33 percent, by which the attempt would be rejected.
failed_score : failed_attempt.achievement_percent ≡ codes "83.33"
unfolding engine
failed_score = refl

passed_seals : is_ok (seal_inspection_attempt passed_input checklist) ≡ true
unfolding engine
passed_seals = refl

abbrev passed_attempt : InspectionAttemptSnapshot
passed_attempt = from_ok (seal_inspection_attempt passed_input checklist) passed_seals

seal_inspection_attempt_score_example :
    (score : ℕ) × (score ≤ 100000000)
    × ((code : String)
        → (parse_percent failed_attempt.achievement_percent code ≡ ok score)
          × (percentage_micros failed_attempt.achievement_percent code ≡ ok score))
seal_inspection_attempt_score_example =
    seal_inspection_attempt_score failed_input checklist failed_attempt
      (from_ok_lem (seal_inspection_attempt failed_input checklist) failed_seals)

seal_inspection_attempt_covers_example :
    (any (λ r. str_eq r.inspection_criterion_id "c1") failed_attempt.criterion_results ≡ true)
    × (length failed_attempt.criterion_results ≡ length checklist.criteria)
seal_inspection_attempt_covers_example =
    seal_inspection_attempt_covers failed_input checklist failed_attempt first_criterion
      (from_ok_lem (seal_inspection_attempt failed_input checklist) failed_seals) (Memᴰ.head refl)

seal_inspection_attempt_disposition_example :
    (passed_attempt.critical_failure_criterion_ids
      ≡ map
          (λ r. r.inspection_criterion_id)
          (filter (is_critical_failure "a1" checklist.criteria) passed_attempt.criterion_results))
    × ((is_accepted passed_attempt.disposition || is_conditional passed_attempt.disposition) ≡ true
        → passed_attempt.critical_failure_criterion_ids ≡ [])
    × (is_acceptance passed_attempt.disposition ≡ true
        → any (λ r. is_unable r.verdict) passed_attempt.criterion_results ≡ false)
    × (is_partial passed_attempt.disposition ≡ true
        → 0 < length passed_attempt.independently_usable_portions)
    × (is_conditional passed_attempt.disposition ≡ true
        → 0 < length passed_attempt.residual_conditions)
seal_inspection_attempt_disposition_example =
    seal_inspection_attempt_disposition passed_input checklist passed_attempt
      (from_ok_lem (seal_inspection_attempt passed_input checklist) passed_seals)

abbrev employee : InspectionActorSnapshot
employee = record {
  actor_kind = InspectionActorKind.internal;
  user_id = some "user";
  vendor_id = none;
  active = true;
  authorities = "INSPECTOR" ∷ "INSPECTION_DECIDER" ∷ [];
  contract_scope_id = none;
  contract_scope_contract_id = none;
}

abbrev vendor_actor : InspectionActorSnapshot
vendor_actor = record {
  actor_kind = InspectionActorKind.vendor;
  user_id = some "vendor-user";
  vendor_id = some "vendor";
  active = true;
  authorities = [];
  contract_scope_id = some "scope";
  contract_scope_contract_id = some "contract";
}

abbrev command : InspectionActorSnapshot → ℕ → InspectionCommand
command actor expected = record {
  actor = actor;
  at = "t";
  expected_version = expected;
  event_id = "event";
  correlation_id = "correlation";
  idempotency_key = "key";
  reason = some "reason";
}

abbrev requested : InspectionInput
requested = record {
  inspection_id = "inspection";
  inspection_no = "I-1";
  inspection_type_code = "TYPE";
  contract_id = "contract";
  contract_milestone_id = "milestone";
  deliverable_id = "deliverable";
  deliverable_version_id = "version";
  assigned_vendor_id = "vendor";
  inspection_checklist_version_id = "checklist";
}

request_ok : is_ok (request requested (command vendor_actor 0)) ≡ true
unfolding engine
request_ok = refl

abbrev m1 : InspectionMutation
m1 = from_ok (request requested (command vendor_actor 0)) request_ok

abbrev scheduling : InspectionCall
scheduling = InspectionCall.scheduling "t1"

abbrev starting : InspectionCall
starting = InspectionCall.starting "a1"

abbrev after : InspectionSnapshot → ℕ → InspectionCall → InspectionSnapshot
after v n call = (inspection_run v (command employee n) call).0

abbrev v2 : InspectionSnapshot
v2 = after m1.snapshot 1 scheduling

abbrev v3 : InspectionSnapshot
v3 = after v2 2 starting

scheduling_ok : is_ok (inspection_run m1.snapshot (command employee 1) scheduling).1 ≡ true
unfolding engine
scheduling_ok = refl

starting_ok : is_ok (inspection_run v2 (command employee 2) starting).1 ≡ true
unfolding engine
starting_ok = refl

abbrev submitting : InspectionCall
submitting = InspectionCall.submitting_decision passed_attempt

submitting_ok : is_ok (inspection_run v3 (command employee 3) submitting).1 ≡ true
unfolding engine
submitting_ok = refl

abbrev v4 : InspectionSnapshot
v4 = after v3 3 submitting

abbrev accepting : InspectionCall
accepting = InspectionCall.accepting passed_attempt

accepting_ok : is_ok (inspection_run v4 (command employee 4) accepting).1 ≡ true
unfolding engine
accepting_ok = refl

abbrev v5 : InspectionSnapshot
v5 = after v4 4 accepting

v5_accepted :
    (v5.state ≡ InspectionState.completed)
    × (v5.final_disposition ≡ some InspectionDisposition.accepted)
    × (v5.version ≡ 5)
unfolding engine
v5_accepted = (refl, refl, refl)

abbrev m2 : InspectionMutation
m2 = from_ok (inspection_run m1.snapshot (command employee 1) scheduling).1 scheduling_ok

abbrev m3 : InspectionMutation
m3 = from_ok (inspection_run v2 (command employee 2) starting).1 starting_ok

abbrev m4 : InspectionMutation
m4 = from_ok (inspection_run v3 (command employee 3) submitting).1 submitting_ok

abbrev m5 : InspectionMutation
m5 = from_ok (inspection_run v4 (command employee 4) accepting).1 accepting_ok

abbrev accepting_returns : (inspection_run v4 (command employee 4) accepting).1 ≡ ok m5
accepting_returns = from_ok_lem (inspection_run v4 (command employee 4) accepting).1 accepting_ok

abbrev submitting_returns : (inspection_run v3 (command employee 3) submitting).1 ≡ ok m4
submitting_returns = from_ok_lem (inspection_run v3 (command employee 3) submitting).1 submitting_ok

inspection_run-Stamped_example : Stamped v3 (command employee 3) submitting m4
inspection_run-Stamped_example =
    inspection_run-Stamped v3 (command employee 3) submitting m4 submitting_returns

m5_completed : m5.snapshot.state ≡ InspectionState.completed
unfolding engine
m5_completed = refl

inspection_run_completes_example :
    (attempt : InspectionAttemptSnapshot) × ((accepting ≡ InspectionCall.accepting attempt)
      ⊎ (accepting ≡ InspectionCall.rejecting attempt))
    × (true ≡ true)
    × (is_internal_kind employee.actor_kind ≡ true)
    × (is_given employee.user_id ≡ true)
    × ((includes employee.authorities "INSPECTION_DECIDER"
          || includes employee.authorities "DIRECTOR")
        ≡ true)
    × (v4.latest_sealed_attempt_id ≡ some attempt.inspection_attempt_id)
    × (attempt.attempt_no ≡ v4.latest_attempt_no)
inspection_run_completes_example =
    inspection_run_completes v4 (command employee 4) accepting m5 accepting_returns m5_completed

-- A vendor may not accept, and the inspection stays as it is.
vendor_refused :
    (inspection_run v4 (command vendor_actor 4) accepting).1
    ≡ err "INSPECTION_INTERNAL_DECIDER_REQUIRED"
unfolding engine
vendor_refused = refl

v4_version : v4.version < max_safe_integer
unfolding engine
v4_version = omega arith

inspection_run_unchanged_example : (inspection_run v4 (command vendor_actor 4) accepting).0 ≡ v4
inspection_run_unchanged_example =
    inspection_run_unchanged v4 (command vendor_actor 4) accepting
      "INSPECTION_INTERNAL_DECIDER_REQUIRED" v4_version vendor_refused

-- The same attempt, failed, is sent back for a correction.
abbrev failing_call : InspectionCall
failing_call = InspectionCall.submitting_decision failed_attempt

abbrev w4 : InspectionSnapshot
w4 = after v3 3 failing_call

abbrev correcting : InspectionCall
correcting = InspectionCall.requesting_correction failed_attempt

abbrev w5 : InspectionSnapshot
w5 = after w4 4 correcting

abbrev corrected : InspectionCall
corrected = InspectionCall.submitting_correction "version-2"

corrected_ok : is_ok (inspection_run w5 (command vendor_actor 5) corrected).1 ≡ true
unfolding engine
corrected_ok = refl

abbrev corrected_mutation : InspectionMutation
corrected_mutation = from_ok (inspection_run w5 (command vendor_actor 5) corrected).1 corrected_ok

abbrev corrected_returns :
    (inspection_run w5 (command vendor_actor 5) corrected).1 ≡ ok corrected_mutation
corrected_returns =
    from_ok_lem (inspection_run w5 (command vendor_actor 5) corrected).1 corrected_ok

inspection_run_vendor_example :
    (id : Uuid) × (corrected ≡ InspectionCall.submitting_correction id)
    × (vendor_actor.vendor_id ≡ some w5.assigned_vendor_id)
    × (vendor_actor.contract_scope_contract_id ≡ some w5.contract_id)
inspection_run_vendor_example =
    inspection_run_vendor w5 (command vendor_actor 5) corrected corrected_mutation corrected_returns
      refl

abbrev history : List InspectionMutation
history = m5 ∷ m4 ∷ m3 ∷ m2 ∷ m1 ∷ []

abbrev reached : InspectionReach v5 history
reached =
    InspectionReach.called v4 (m4 ∷ m3 ∷ m2 ∷ m1 ∷ []) (command employee 4) accepting m5
      (InspectionReach.called v3 (m3 ∷ m2 ∷ m1 ∷ []) (command employee 3) submitting m4
        (InspectionReach.called v2 (m2 ∷ m1 ∷ []) (command employee 2) starting m3
          (InspectionReach.called m1.snapshot (m1 ∷ []) (command employee 1) scheduling m2
            (InspectionReach.requested_by requested (command vendor_actor 0) m1
              (from_ok_lem (request requested (command vendor_actor 0)) request_ok))
            (from_ok_lem (inspection_run m1.snapshot (command employee 1) scheduling).1
              scheduling_ok))
          (from_ok_lem (inspection_run v2 (command employee 2) starting).1 starting_ok))
        submitting_returns)
      accepting_returns

InspectionReach-Logged_example : Logged (subject_of v5) v5.version history
InspectionReach-Logged_example = InspectionReach-Logged v5 history reached

InspectionReach-Inv_example : InspectionInv v5 history
InspectionReach-Inv_example = InspectionReach-Inv v5 history reached

derive_repeated_critical_failure_count-InspectionReach_example :
    derive_repeated_critical_failure_count (attempts history) "c1"
    ≡ ok (length (failing "c1" (attempts history)))
derive_repeated_critical_failure_count-InspectionReach_example =
    derive_repeated_critical_failure_count-InspectionReach v5 history "c1" reached

initial_acceptance_policy_v1_total_example :
    (check_policy initial_acceptance_policy_v1 ≡ ok tt)
    × (disposition_for 83330000 initial_acceptance_policy_v1.bands ≡ ok (by_threshold 83330000))
initial_acceptance_policy_v1_total_example = initial_acceptance_policy_v1_total 83330000
