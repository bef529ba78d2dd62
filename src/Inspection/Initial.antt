-- ===== src/Inspection/Initial.antt =====
-- packages/features/quality/src/domain/inspection.ts: `INITIAL_ACCEPTANCE_POLICY_V1`.
use youone_rnd.Shared.{ℕ, ◌≡◌, refl, none, some, [], ◌∷◌, ok, leb, if◌then◌else◌, arith}
use youone_rnd.Decimal.{span_digits, value_from, fraction_micros}
use youone_rnd.Inspection.Types.{
  InspectionDisposition, BandDisposition, RoundingMode, AcceptanceScorePolicy,
}
use youone_rnd.Inspection.Percent.{parse_percent, rounded_score}
use youone_rnd.Inspection.Checklist.{check_bands, check_policy}
use youone_rnd.Inspection.Sealing.{disposition_for}

abbrev pub initial_acceptance_policy_v1 : AcceptanceScorePolicy
initial_acceptance_policy_v1 = record {
  policy_id = "POL-ACCEPTANCE-PAYMENT-V1";
  policy_version = 1;
  rounding = record { decimal_places = 2; mode = RoundingMode.half_up };
  bands =
      record { min_inclusive = "100"; max_exclusive = none; disposition = BandDisposition.accepted }
      ∷ record {
        min_inclusive = "90";
        max_exclusive = some "100";
        disposition = BandDisposition.conditional_acceptance;
      }
      ∷ record {
        min_inclusive = "60";
        max_exclusive = some "90";
        disposition = BandDisposition.partial_acceptance;
      }
      ∷ record {
        min_inclusive = "0";
        max_exclusive = some "60";
        disposition = BandDisposition.rejected;
      }
      ∷ [];
}

-- The disposition by thresholds alone.
abbrev pub by_threshold : ℕ → InspectionDisposition
by_threshold score =
    if leb 100000000 score
    then InspectionDisposition.accepted
    else (if leb 90000000 score
        then InspectionDisposition.conditional_acceptance
        else (if leb 60000000 score
            then InspectionDisposition.partial_acceptance
            else InspectionDisposition.rejected))

-- The initial policy is valid, and gives every score a disposition: the one of the highest threshold
-- that the score reaches.
pub initial_acceptance_policy_v1_total :
    (score : ℕ)
    → (check_policy initial_acceptance_policy_v1 ≡ ok tt)
      × (disposition_for score initial_acceptance_policy_v1.bands ≡ ok (by_threshold score))
unfolding check_policy check_bands disposition_for parse_percent rounded_score span_digits
    value_from fraction_micros
initial_acceptance_policy_v1_total score = (refl, ground arith)
