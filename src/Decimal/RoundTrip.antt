-- ===== src/Decimal/RoundTrip.antt =====
-- Printing an exact decimal and reading it back.
use mathlib.Core.Path.{subst}
use youone_rnd.Shared.{
  ℕ, ◌+◌, ◌-◌, ◌*◌, ◌/◌, ◌%◌, ◌≤◌, ◌<◌, ◌≡◌, refl, sym, ap, ◌∙◌, true, [], ◌∷◌, ◌++◌, String, ok,
  codes, arith, length, replicate, length-append, length-replicate,
}
use youone_rnd.Decimal.{
  Digits, value_from, is_whole, pad_end, pad_start, to_text, strip_zeros, join_point,
  decimal_micros, format_micros,
}
use youone_rnd.Decimal.Digits.{
  value_from-zeros, value_from-to_text, AreDigits, AreDigits-append, to_text-AreDigits,
  is_whole-to_text, length-to_text, span_digits_all, span_digits_point, all_of_AreDigits,
  strip_zeros_split,
}

-- The six fraction digits of a value, before the trailing zeros go.
abbrev pub six : ℕ → Digits
six n = pad_start 6 (to_text n)

pub length-six : (n : ℕ) → n < 1000000 → length (six n) ≡ 6
length-six n h = omega (
  arith,
  length-append (replicate (6 - length (to_text n)) b'0') (to_text n),
  length-replicate {A = ℕ} (6 - length (to_text n)) b'0',
  length-to_text n 5 h,
)

AreDigits-zeros : (k : ℕ) → AreDigits (replicate k b'0')
AreDigits-zeros ℕ.zero = tt
AreDigits-zeros (ℕ.suc k) = (refl, AreDigits-zeros k)

pub six-AreDigits : (n : ℕ) → AreDigits (six n)
six-AreDigits n = AreDigits-append _ _ (AreDigits-zeros _) (to_text-AreDigits n)

pub value_from-six : (n : ℕ) → value_from 0 (six n) ≡ n
value_from-six n = value_from-zeros (6 - length (to_text n)) (to_text n) ∙ value_from-to_text n

pub AreDigits-left : (xs ys : Digits) → AreDigits (xs ++ ys) → AreDigits xs
AreDigits-left [] ys h = tt
AreDigits-left (x ∷ xs) ys h = (h.0, AreDigits-left xs ys h.1)

-- Padding undoes stripping.
pad_end-strip : (xs : Digits) → length xs ≡ 6 → pad_end 6 (strip_zeros xs) ≡ xs
pad_end-strip xs h =
    let (k, e) = strip_zeros_split xs in
    let gap : 6 - length (strip_zeros xs) ≡ k = omega (
      arith,
      length-append (strip_zeros xs) (replicate k b'0'),
      length-replicate {A = ℕ} k b'0',
      ap (length {A = ℕ}) e,
    ) in
    ap (λ (t : ℕ). strip_zeros xs ++ replicate t b'0') gap ∙ e

pub length-strip : (xs : Digits) → length xs ≡ 6 → length (strip_zeros xs) ≤ 6
length-strip xs h =
    let (k, e) = strip_zeros_split xs in
    omega (arith, length-append (strip_zeros xs) (replicate k b'0'), ap (length {A = ℕ}) e)

pub strip-AreDigits : (xs : Digits) → AreDigits xs → AreDigits (strip_zeros xs)
strip-AreDigits xs h =
    let (k, e) = strip_zeros_split xs in
    AreDigits-left _ (replicate k b'0') (subst AreDigits (sym e) h)

-- Reading a whole part and a stripped fraction.
pub decimal_micros-join :
    (whole fraction : Digits) (code : String)
    → AreDigits whole
    → is_whole whole ≡ true
    → AreDigits fraction
    → length fraction ≤ 6
    → decimal_micros (join_point whole fraction) code
      ≡ ok (value_from 0 whole * 1000000 + value_from 0 (pad_end 6 fraction))
unfolding decimal_micros
decimal_micros-join whole [] code hw w hf l = rw (span_digits_all whole hw, w) refl
decimal_micros-join whole (c ∷ cs) code hw w hf l =
    rw (span_digits_point whole (c ∷ cs) hw, w) (ground (arith, all_of_AreDigits (c ∷ cs) hf))

-- Every exact decimal amount survives being printed and read again.
pub decimal_micros-format_micros :
    (n : ℕ) (code : String) → decimal_micros (format_micros n) code ≡ ok n
unfolding format_micros
decimal_micros-format_micros n code =
    let fraction = six (n % 1000000) in
    let six_long : length fraction ≡ 6 = length-six (n % 1000000) (omega arith) in
    let read_back : value_from 0 (pad_end 6 (strip_zeros fraction)) ≡ n % 1000000 =
      ap (value_from 0) (pad_end-strip fraction six_long) ∙ value_from-six (n % 1000000) in
    decimal_micros-join (to_text (n / 1000000)) (strip_zeros fraction) code
      (to_text-AreDigits (n / 1000000)) (is_whole-to_text (n / 1000000))
      (strip-AreDigits fraction (six-AreDigits (n % 1000000))) (length-strip fraction six_long)
    ∙ ap ok (omega (arith, read_back, value_from-to_text (n / 1000000)))

decimal_tests :
    (format_micros 1230000 ≡ codes "1.23")
    × (format_micros 5000000 ≡ codes "5")
    × (decimal_micros (codes "1.23") "X" ≡ ok 1230000)
    × (format_micros 123456789000001 ≡ codes "123456789.000001")
unfolding decimal_micros format_micros
decimal_tests = (refl, refl, refl, refl)
