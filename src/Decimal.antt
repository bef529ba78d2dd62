-- ===== src/Decimal.antt =====
-- Exact decimals: `decimalMicros`, `percentageMicros` and `formatMicros` of
-- packages/processes/vendor-acceptance-payment/src/domain/acceptance-payment.ts, whose `bigint`
-- values are natural numbers of millionths and whose texts are lists of code points.
pub mod Digits
pub mod RoundTrip
use youone_rnd.Shared.{
  ℕ, zero, suc, ◌+◌, ◌-◌, ◌*◌, ◌/◌, ◌%◌, ◌^◌, Bool, true, false, not, ◌&&◌, ◌||◌, List, [], ◌∷◌,
  ◌++◌, String, Result, ok, err, ◌>>=◌, ◌>>◌, fail_if, leb, ltb, ◌==◌, if◌then◌else◌, length, all,
  replicate,
}

-- A decimal text, by its code points.
abbrev pub Digits : Type 0
Digits = List ℕ

abbrev pub is_digit : ℕ → Bool
is_digit c = leb b'0' c && leb c b'9'

-- `BigInt(text)` of a text of digits, from an accumulator.
unfoldable pub value_from : ℕ → Digits → ℕ
value_from acc [] = acc
value_from acc (c ∷ cs) = value_from (acc * 10 + (c - b'0')) cs

-- The longest prefix of digits, and the rest.
unfoldable pub span_digits : Digits → Digits × Digits
span_digits [] = ([], [])
span_digits (c ∷ cs) =
    let (ds, rest) = span_digits cs in if is_digit c then (c ∷ ds, rest) else ([], c ∷ cs)

-- `0|[1-9][0-9]*`, of a text of digits.
abbrev pub is_whole : Digits → Bool
is_whole [] = false
is_whole (c ∷ []) = true
is_whole (c ∷ d ∷ cs) = not (c == b'0')

-- `padEnd(width, "0")`
abbrev pub pad_end : ℕ → Digits → Digits
pad_end width cs = cs ++ replicate (width - length cs) b'0'

-- `padStart(width, "0")`
abbrev pub pad_start : ℕ → Digits → Digits
pad_start width cs = replicate (width - length cs) b'0' ++ cs

-- What stands behind the whole part: nothing, or a point and one to six digits.
unfoldable pub fraction_micros : String → ℕ → Digits → Result ℕ
unfolding value_from
fraction_micros code whole [] = ok (whole * 1000000 + value_from 0 (pad_end 6 []))
fraction_micros code whole (c ∷ cs) =
    if c == b'.' && (all is_digit cs && (leb 1 (length cs) && leb (length cs) 6))
    then ok (whole * 1000000 + value_from 0 (pad_end 6 cs))
    else err code

unfoldable pub decimal_micros : Digits → String → Result ℕ
unfolding span_digits value_from fraction_micros
decimal_micros text code =
    let (whole, rest) = span_digits text in
    if is_whole whole then fraction_micros code (value_from 0 whole) rest else err code

unfoldable pub percentage_micros : Digits → String → Result ℕ
unfolding decimal_micros
percentage_micros text code = do
  parsed ← decimal_micros text code
  fail_if (ltb 100000000 parsed) code
  ok parsed

-- `value.toString()` of a `bigint`, in front of a rest; each round takes one digit, so as many
-- rounds as the value suffice.
unfoldable pub print_from : ℕ → ℕ → Digits → Digits
print_from zero n rest = (b'0' + n % 10) ∷ rest
print_from (suc fuel) n rest =
    let more = print_from fuel (n / 10) ((b'0' + n % 10) ∷ rest) in
    if ltb n 10 then (b'0' + n) ∷ rest else more

unfoldable pub to_text : ℕ → Digits
unfolding print_from
to_text n = print_from n n []

-- `replace(/0+$/, "")`
abbrev pub strip_onto : ℕ → Digits → Digits
strip_onto d [] = if d == b'0' then [] else d ∷ []
strip_onto d (e ∷ es) = d ∷ e ∷ es

unfoldable pub strip_zeros : Digits → Digits
strip_zeros [] = []
strip_zeros (c ∷ cs) = strip_onto c (strip_zeros cs)

abbrev pub join_point : Digits → Digits → Digits
join_point whole [] = whole
join_point whole (c ∷ cs) = whole ++ b'.' ∷ c ∷ cs

unfoldable pub format_micros : ℕ → Digits
unfolding to_text strip_zeros
format_micros value =
    join_point (to_text (value / 1000000)) (strip_zeros (pad_start 6 (to_text (value % 1000000))))
