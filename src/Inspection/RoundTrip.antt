-- ===== src/Inspection/RoundTrip.antt =====
-- packages/features/quality/src/domain/inspection.ts: a sealed achievement, printed and read again.
use mathlib.Core.List.{append_assoc}
use youone_rnd.Shared.{
  ℕ, zero, suc, ◌+◌, ◌-◌, ◌/◌, ◌%◌, ◌^◌, ◌≤◌, ◌≡◌, refl, sym, ap, ◌∙◌, [], ◌∷◌, ◌++◌, String, ok,
  >>-eq-ok, fail_if, ltb, length, replicate, arith, length-append, length-replicate,
}
use youone_rnd.Decimal.{
  Digits, value_from, pad_end, to_text, strip_zeros, join_point, decimal_micros, percentage_micros,
}
use youone_rnd.Decimal.Digits.{
  AreDigits, strip_zeros_split, to_text-AreDigits, is_whole-to_text, value_from-to_text,
}
use youone_rnd.Decimal.RoundTrip.{
  six, length-six, six-AreDigits, value_from-six, decimal_micros-join, strip-AreDigits,
}
use youone_rnd.Inspection.Types.{Rounding}
use youone_rnd.Inspection.Percent.{parse_percent, take, format_percent, to_quantum, rounded_score}
use youone_rnd.Inspection.Places.{take_zeros, to_quantum_facts}
use youone_rnd.Inspection.Rounding.{parse_percent-percentage_micros}

replicate-append : (k m c : ℕ) → replicate k c ++ replicate m c ≡ replicate (k + m) c
replicate-append zero m c = let same : m ≡ 0 + m = omega arith in ap (λ (t : ℕ). replicate t c) same
replicate-append (suc k) m c =
    let longer : suc (k + m) ≡ suc k + m = omega arith in
    ap (λ t. c ∷ t) (replicate-append k m c) ∙ ap (λ (t : ℕ). replicate t c) longer

-- The places that are kept are digits.
take-AreDigits : (n : ℕ) (xs : Digits) → AreDigits xs → AreDigits (take n xs)
take-AreDigits zero xs h = tt
take-AreDigits (suc n) [] h = tt
take-AreDigits (suc n) (x ∷ xs) h = (h.0, take-AreDigits n xs h.1)

format_percent-join :
    (scaled places : ℕ)
    → format_percent scaled places
      ≡ join_point (to_text (scaled / 1000000)) (strip_zeros (take places (six (scaled % 1000000))))
unfolding format_percent strip_zeros
format_percent-join scaled zero = refl
format_percent-join scaled (suc n) = ground arith

-- Padding a stripped beginning whose rest is zeros gives the whole back.
pad_end-strip-take :
    (places : ℕ) (xs : Digits)
    → length xs ≡ 6
    → take places xs ++ replicate (6 - places) b'0' ≡ xs
    → (pad_end 6 (strip_zeros (take places xs)) ≡ xs) × (length (strip_zeros (take places xs)) ≤ 6)
pad_end-strip-take places xs l e =
    let (k, split) = strip_zeros_split (take places xs) in
    let kept = strip_zeros (take places xs) in
    let m = 6 - places in
    let whole : kept ++ replicate (k + m) b'0' ≡ xs =
      ap (λ t. kept ++ t) (sym (replicate-append k m b'0'))
      ∙ sym (append_assoc kept (replicate k b'0') (replicate m b'0'))
      ∙ ap (λ t. t ++ replicate m b'0') split
      ∙ e in
    let lengths : length kept + (k + m) ≡ 6 = omega (
      arith,
      l,
      ap (length {A = ℕ}) whole,
      length-append kept (replicate (k + m) b'0'),
      length-replicate {A = ℕ} (k + m) b'0',
    ) in
    let gap : 6 - length kept ≡ k + m = omega (arith, lengths) in
    (ap (λ (t : ℕ). kept ++ replicate t b'0') gap ∙ whole, omega (arith, lengths))

-- A printed multiple of the quantum is read as itself.
decimal_micros-format_percent :
    (score places : ℕ) (code : String)
    → places ≤ 6
    → score % 1000000 % 10 ^ (6 - places) ≡ 0
    → decimal_micros (format_percent score places) code ≡ ok score
decimal_micros-format_percent score places code few whole =
    let fraction = six (score % 1000000) in
    let six_long : length fraction ≡ 6 = length-six (score % 1000000) (omega arith) in
    let digits = six-AreDigits (score % 1000000) in
    let zeros =
      take_zeros places fraction few six_long digits
        (rw (value_from-six (score % 1000000)) whole) in
    let (padded, short) = pad_end-strip-take places fraction six_long zeros in
    let read_back : value_from 0 (pad_end 6 (strip_zeros (take places fraction)))
        ≡ score % 1000000 =
      ap (value_from 0) padded ∙ value_from-six (score % 1000000) in
    rw (format_percent-join score places) (
      decimal_micros-join (to_text (score / 1000000)) (strip_zeros (take places fraction)) code
        (to_text-AreDigits (score / 1000000)) (is_whole-to_text (score / 1000000))
        (strip-AreDigits (take places fraction) (take-AreDigits places fraction digits)) short
      ∙ ap ok (omega (arith, read_back, value_from-to_text (score / 1000000))))

percentage_micros_le :
    (text : Digits) (code : String) (score : ℕ)
    → decimal_micros text code ≡ ok score
    → score ≤ 100000000
    → percentage_micros text code ≡ ok score
unfolding percentage_micros
percentage_micros_le text code score e h = ground arith

-- The rounding of a score of at most a hundred percent is at most a hundred percent, and is printed as
-- a text that `parsePercent`, and the acceptance payment as well, read as that rounding.
pub parse_percent-format_percent :
    (value : ℕ) (policy : Rounding) (score : ℕ) (code : String)
    → value ≤ 100000000
    → rounded_score value policy ≡ ok score
    → (score ≤ 100000000)
      × (parse_percent (format_percent score policy.decimal_places) code ≡ ok score)
      × (percentage_micros (format_percent score policy.decimal_places) code ≡ ok score)
unfolding rounded_score
parse_percent-format_percent value policy score code h r =
    let (small, made) =
      >>-eq-ok (fail_if (ltb 6 policy.decimal_places) "INSPECTION_ROUNDING_INVALID") _ r in
    let few : policy.decimal_places ≤ 6 = ground arith in
    let same : to_quantum value (10 ^ (6 - policy.decimal_places)) policy.mode ≡ score = cc made in
    let (bounded, whole, _, _) = to_quantum_facts policy.decimal_places value policy.mode few h in
    let text = format_percent score policy.decimal_places in
    let read =
      percentage_micros_le text code score
        (decimal_micros-format_percent score policy.decimal_places code few (rw same at whole))
        (rw same at bounded) in
    (rw same at bounded, parse_percent-percentage_micros text code ∙ read, read)
