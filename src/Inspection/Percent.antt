-- ===== src/Inspection/Percent.antt =====
-- packages/features/quality/src/domain/inspection.ts: the exact percentages, in millionths of a
-- percent; their texts are lists of code points.
use youone_rnd.Shared.{
  ℕ, zero, suc, ◌+◌, ◌-◌, ◌*◌, ◌/◌, ◌%◌, ◌^◌, Bool, true, false, ◌&&◌, ◌||◌, [], ◌∷◌, String,
  Result, ok, err, ◌>>=◌, ◌>>◌, fail_if, leb, ltb, ◌==◌, if◌then◌else◌, length, codes_eq,
}
use youone_rnd.Decimal.{
  Digits, value_from, span_digits, is_whole, pad_start, to_text, strip_zeros, join_point,
  fraction_micros,
}
use youone_rnd.Inspection.Types.{Rounding, RoundingMode}

-- `0|[1-9][0-9]?|100`, of a text of digits.
abbrev pub is_percent_whole : Digits → Bool
is_percent_whole cs = is_whole cs && leb (length cs) 2 || codes_eq cs (b'1' ∷ b'0' ∷ b'0' ∷ [])

unfoldable pub parse_percent : Digits → String → Result ℕ
parse_percent text code =
    let (whole, rest) = span_digits text in
    (if is_percent_whole whole then fraction_micros code (value_from 0 whole) rest else err code)
    >>= λ scaled. (fail_if (ltb 100000000 scaled) code >> ok scaled)

-- `slice(0, count)`
abbrev pub take : ℕ → Digits → Digits
take zero cs = []
take (suc n) [] = []
take (suc n) (c ∷ cs) = c ∷ take n cs

unfoldable pub format_percent : ℕ → ℕ → Digits
format_percent scaled decimal_places =
    if decimal_places == 0
    then to_text (scaled / 1000000)
    else join_point (to_text (scaled / 1000000))
        (strip_zeros (take decimal_places (pad_start 6 (to_text (scaled % 1000000)))))

abbrev pub is_half_up : RoundingMode → Bool
is_half_up RoundingMode.half_up = true
is_half_up RoundingMode.down = false

-- The quotient by the factor, rounded.
abbrev pub to_quantum : ℕ → ℕ → RoundingMode → ℕ
to_quantum value factor mode =
    (if is_half_up mode && leb factor (value % factor * 2)
      then value / factor + 1
      else value / factor)
    * factor

-- `rounded`
unfoldable pub rounded_score : ℕ → Rounding → Result ℕ
rounded_score value policy = do
  fail_if (ltb 6 policy.decimal_places) "INSPECTION_ROUNDING_INVALID"
  ok (to_quantum value (10 ^ (6 - policy.decimal_places)) policy.mode)
