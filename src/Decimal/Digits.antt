-- ===== src/Decimal/Digits.antt =====
-- Digit lists: what printing a number and reading it back do.
use native.Mathlib.Nat.{pow-suc}
use mathlib.Core.Path.{subst}
use youone_rnd.Shared.{
  ℕ, zero, suc, ◌+◌, ◌-◌, ◌*◌, ◌/◌, ◌%◌, ◌^◌, ◌≤◌, ◌<◌, ◌≡◌, refl, sym, ap, ◌∙◌, true, false, [],
  ◌∷◌, ◌++◌, arith, length, all, replicate, ltb, ◌==◌, Bool-cases, inl, inr, All,
}
use youone_rnd.Decimal.{
  Digits, is_digit, value_from, span_digits, is_whole, print_from, to_text, strip_onto, strip_zeros,
}

value_from-append :
    (acc : ℕ) (xs ys : Digits) → value_from acc (xs ++ ys) ≡ value_from (value_from acc xs) ys
unfolding value_from
value_from-append acc [] ys = refl
value_from-append acc (x ∷ xs) ys = value_from-append (acc * 10 + (x - b'0')) xs ys

-- Leading zeros do not count.
pub value_from-zeros :
    (k : ℕ) (ys : Digits) → value_from 0 (replicate k b'0' ++ ys) ≡ value_from 0 ys
unfolding value_from
value_from-zeros zero ys = refl
value_from-zeros (suc k) ys = value_from-zeros k ys

pub value_from-print_from :
    (fuel n : ℕ) (rest : Digits)
    → n ≤ fuel
    → value_from 0 (print_from fuel n rest) ≡ value_from n rest
unfolding print_from value_from
value_from-print_from zero n rest h = ground arith
value_from-print_from (suc fuel) n rest h = elim (Bool-cases (ltb n 10)) [
  | inl small ↦ rw small (ap (λ (t : ℕ). value_from t rest) (omega arith))
  | inr large ↦ rw large (
      value_from-print_from fuel (n / 10) ((b'0' + n % 10) ∷ rest) (ground arith)
      ∙ ap (λ (t : ℕ). value_from t rest) (omega arith))
]

-- Printing and then reading gives the number back.
pub value_from-to_text : (n : ℕ) → value_from 0 (to_text n) ≡ n
unfolding to_text value_from
value_from-to_text n = value_from-print_from n n [] (omega arith)

abbrev pub AreDigits : Digits → Type 0
AreDigits = All (λ c. is_digit c ≡ true)

pub AreDigits-append : (xs ys : Digits) → AreDigits xs → AreDigits ys → AreDigits (xs ++ ys)
AreDigits-append [] ys hx hy = hy
AreDigits-append (x ∷ xs) ys hx hy = (hx.0, AreDigits-append xs ys hx.1 hy)

print_from-AreDigits :
    (fuel n : ℕ) (rest : Digits) → AreDigits rest → AreDigits (print_from fuel n rest)
unfolding print_from
print_from-AreDigits zero n rest h = (ground arith, h)
print_from-AreDigits (suc fuel) n rest h = elim (Bool-cases (ltb n 10)) [
  | inl small ↦ rw small (ground arith, h)
  | inr large ↦
      rw large (print_from-AreDigits fuel (n / 10) ((b'0' + n % 10) ∷ rest) (ground arith, h))
]

pub to_text-AreDigits : (n : ℕ) → AreDigits (to_text n)
unfolding to_text
to_text-AreDigits n = print_from-AreDigits n n [] tt

-- A positive number is printed without a leading zero.
print_from_head :
    (fuel n : ℕ) (rest : Digits)
    → n ≤ fuel
    → 0 < n
    → (c : ℕ) × (cs : Digits) × (print_from fuel n rest ≡ c ∷ cs) × ((c == b'0') ≡ false)
unfolding print_from
print_from_head zero n rest h pos = absurd (omega arith)
print_from_head (suc fuel) n rest h pos = elim (Bool-cases (ltb n 10)) [
  | inl small ↦ (b'0' + n, rest, rw small refl, ground arith)
  | inr large ↦
      rw large
        (print_from_head fuel (n / 10) ((b'0' + n % 10) ∷ rest) (ground arith) (ground arith))
]

is_whole_of_head : (c : ℕ) (cs : Digits) → (c == b'0') ≡ false → is_whole (c ∷ cs) ≡ true
is_whole_of_head c [] h = refl
is_whole_of_head c (d ∷ cs) h = rw h refl

pub is_whole-to_text : (n : ℕ) → is_whole (to_text n) ≡ true
unfolding to_text print_from
is_whole-to_text zero = refl
is_whole-to_text (suc n) =
    let (c, cs, e, nonzero) = print_from_head (suc n) (suc n) [] (omega arith) (omega arith) in
    subst (λ ds. is_whole ds ≡ true) (sym e) (is_whole_of_head c cs nonzero)

length-print_from :
    (fuel n : ℕ) (rest : Digits) (k : ℕ)
    → n < 10 ^ suc k
    → length (print_from fuel n rest) ≤ suc k + length rest
unfolding print_from
length-print_from zero n rest k h = omega arith
length-print_from (suc fuel) n rest zero h =
    let small : ltb n 10 ≡ true = ground arith in rw small (omega arith)
length-print_from (suc fuel) n rest (suc k) h = elim (Bool-cases (ltb n 10)) [
  | inl small ↦ rw small (omega arith)
  | inr large ↦ rw large (
      omega (
        arith,
        length-print_from fuel (n / 10) ((b'0' + n % 10) ∷ rest) k
            (omega (arith, pow-suc 10 (suc k))),
      ))
]

pub length-to_text : (n k : ℕ) → n < 10 ^ suc k → length (to_text n) ≤ suc k
unfolding to_text
length-to_text n k h = omega (arith, length-print_from n n [] k h)

pub span_digits_all : (xs : Digits) → AreDigits xs → span_digits xs ≡ (xs, [])
unfolding span_digits
span_digits_all [] h = refl
span_digits_all (x ∷ xs) h = rw (span_digits_all xs h.1, h.0) refl

pub span_digits_point :
    (xs ys : Digits) → AreDigits xs → span_digits (xs ++ b'.' ∷ ys) ≡ (xs, b'.' ∷ ys)
unfolding span_digits
span_digits_point [] ys h = refl
span_digits_point (x ∷ xs) ys h = rw (span_digits_point xs ys h.1, h.0) refl

pub all_of_AreDigits : (xs : Digits) → AreDigits xs → all is_digit xs ≡ true
all_of_AreDigits [] h = refl
all_of_AreDigits (x ∷ xs) h = rw (h.0, all_of_AreDigits xs h.1) refl

-- Stripping takes zeros off the end and nothing else.
pub strip_zeros_split : (xs : Digits) → (k : ℕ) × (strip_zeros xs ++ replicate k b'0' ≡ xs)
unfolding strip_zeros
strip_zeros_split [] = (0, refl)
strip_zeros_split (x ∷ xs) = go (strip_zeros xs) (strip_zeros_split xs)
  where
    go :
        (ys : Digits)
        → (k : ℕ) × (ys ++ replicate k b'0' ≡ xs)
        → (k : ℕ) × (strip_onto x ys ++ replicate k b'0' ≡ x ∷ xs)
    go [] (k, e) = elim (Bool-cases (x == b'0')) [
      | inl zero_digit ↦ (suc k, rw zero_digit (ground arith))
      | inr other ↦ (k, rw (other, e) refl)
    ]
    go (y ∷ ys) (k, e) = (k, ap (λ t. x ∷ t) e)
