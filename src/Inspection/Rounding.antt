-- ===== src/Inspection/Rounding.antt =====
-- packages/features/quality/src/domain/inspection.ts: `rounded`, `formatPercent` and `parsePercent`
-- against each other, and against the percentages of the acceptance payment.
use youone_rnd.Shared.{
  ℕ, ◌+◌, ◌-◌, ◌*◌, ◌≤◌, ◌<◌, ◌≡◌, refl, sym, true, false, ◌&&◌, [], ◌∷◌, String, ok, err, ◌>>=◌,
  ◌>>◌, fail_if, leb, ltb, ◌==◌, length, all, arith, Bool-cases, inl, inr,
}
use youone_rnd.Decimal.{
  Digits, is_digit, value_from, span_digits, is_whole, fraction_micros, decimal_micros,
  percentage_micros,
}
use youone_rnd.Decimal.Digits.{AreDigits}
use youone_rnd.Inspection.Percent.{is_percent_whole, parse_percent}

span_digits-AreDigits : (text : Digits) → AreDigits (span_digits text).0
unfolding span_digits
span_digits-AreDigits [] = tt
span_digits-AreDigits (c ∷ cs) = elim (Bool-cases (is_digit c)) [
  | inl digit ↦ rw digit (digit, span_digits-AreDigits cs)
  | inr other ↦ rw other tt
]

value_from_le : (acc : ℕ) (cs : Digits) → acc ≤ value_from acc cs
unfolding value_from
value_from_le acc [] = omega arith
value_from_le acc (c ∷ cs) = omega (arith, value_from_le (acc * 10 + (c - b'0')) cs)

-- A whole part that no percentage has is the text of more than a hundred.
large_whole :
    (whole : Digits)
    → AreDigits whole
    → is_whole whole ≡ true
    → is_percent_whole whole ≡ false
    → 100 < value_from 0 whole
unfolding value_from
large_whole [] h w p = absurd (ground arith)
large_whole (a ∷ []) h w p = absurd (ground arith)
large_whole (a ∷ b ∷ []) h w p = absurd (ground arith)
large_whole (a ∷ b ∷ c ∷ []) h w p = ground (arith, h.0, h.1.0, h.1.1.0)
large_whole (a ∷ b ∷ c ∷ d ∷ cs) h w p = ground (
  arith,
  h.0,
  value_from_le ((((0 + (a - b'0')) * 10 + (b - b'0')) * 10 + (c - b'0')) * 10 + (d - b'0')) cs,
)

percent_whole : (whole : Digits) → is_percent_whole whole ≡ true → is_whole whole ≡ true
percent_whole [] h = ground arith
percent_whole (a ∷ []) h = refl
percent_whole (a ∷ b ∷ cs) h = ground arith

-- Behind a point, the value only grows.
fraction_micros_large :
    (code : String) (whole : ℕ) (rest : Digits)
    → 100 < whole
    → (fraction_micros code whole rest >>= λ scaled.
        (fail_if (ltb 100000000 scaled) code >> ok scaled))
      ≡ err code
unfolding fraction_micros
fraction_micros_large code whole [] h = ground arith
fraction_micros_large code whole (c ∷ cs) h =
    elim (Bool-cases (c == b'.' && (all is_digit cs && (leb 1 (length cs) && leb (length cs) 6)))) [
      | inl well ↦ rw well (ground arith)
      | inr ill ↦ rw ill refl
    ]

-- The percentages of inspections and those of acceptance payments are the same texts, with the same
-- values.
pub parse_percent-percentage_micros :
    (text : Digits) (code : String) → parse_percent text code ≡ percentage_micros text code
unfolding parse_percent percentage_micros decimal_micros
parse_percent-percentage_micros text code =
    elim (Bool-cases (is_percent_whole (span_digits text).0)) [
      | inl small ↦ rw (small, percent_whole (span_digits text).0 small) refl
      | inr large ↦ elim (Bool-cases (is_whole (span_digits text).0)) [
        | inl whole ↦
            rw (large, whole)
              (sym (
                fraction_micros_large code (value_from 0 (span_digits text).0) (span_digits text).1
                  (large_whole (span_digits text).0 (span_digits-AreDigits text) whole large)))
        | inr other ↦ rw (large, other) refl
      ]
    ]
