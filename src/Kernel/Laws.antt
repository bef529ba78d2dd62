-- ===== src/Kernel/Laws.antt =====
-- What the constructors of the shared kernel guarantee.
use youone_rnd.Shared.{
  ℕ, zero, suc, ◌+◌, ◌≤◌, ◌≡◌, refl, sym, ap, ◌∙◌, true, not, Bool, ◌&&◌, [], ◌∷◌, map, all, String,
  ok, err, codes, arith, if◌then◌else◌, ◌==◌, Bool-cases, inl, inr, ◌↔◌,
}
use youone_rnd.Decimal.{
  value_from, Digits, span_digits, is_whole, decimal_micros, fraction_micros, format_micros,
}
use youone_rnd.Decimal.RoundTrip.{decimal_micros-format_micros}
use youone_rnd.Kernel.{
  Version, Money, max_safe_integer, next_version, is_upper, to_lower, is_hex_any, is_dash,
  is_uuid_version, is_uuid_variant, run_of, at_end, is_uuid, uuid, is_decimal, is_unsigned_decimal,
  is_currency, is_fraction, money,
}

-- The next version is the successor, is again a safe integer, and is refused only at the largest.
pub next_version_iff :
    (current next : Version)
    → (next_version current ≡ ok next) ↔ ((next ≡ current + 1) × (next ≤ max_safe_integer))
unfolding next_version
next_version_iff current next = ground arith

to_lower_idem : (c : ℕ) → to_lower (to_lower c) ≡ to_lower c
to_lower_idem c = ground arith

pub map-to_lower_idem : (cs : Digits) → map to_lower (map to_lower cs) ≡ map to_lower cs
map-to_lower_idem [] = refl
map-to_lower_idem (c ∷ cs) = cc (to_lower_idem c, map-to_lower_idem cs)

to_lower_lower : (c : ℕ) → not (is_upper (to_lower c)) ≡ true
to_lower_lower c = ground arith

map-to_lower_lower : (cs : Digits) → all (λ c. not (is_upper c)) (map to_lower cs) ≡ true
map-to_lower_lower [] = refl
map-to_lower_lower (c ∷ cs) = rw (to_lower_lower c) (map-to_lower_lower cs)

-- A pattern whose classes do not look at the case accepts a text in lower case exactly where it accepts
-- the text.
run_of-lower :
    (n : ℕ) (p : ℕ → Bool) (rest : Digits → Bool)
    → ((c : ℕ) → p (to_lower c) ≡ p c)
    → ((cs : Digits) → rest (map to_lower cs) ≡ rest cs)
    → (cs : Digits) → run_of n p rest (map to_lower cs) ≡ run_of n p rest cs
unfolding run_of
run_of-lower zero p rest hp hr cs = hr cs
run_of-lower (suc n) p rest hp hr [] = refl
run_of-lower (suc n) p rest hp hr (c ∷ cs) = rw (hp c, run_of-lower n p rest hp hr cs) refl

is_hex_any-lower : (c : ℕ) → is_hex_any (to_lower c) ≡ is_hex_any c
is_hex_any-lower c = rw (to_lower_idem c) refl

is_dash-lower : (c : ℕ) → is_dash (to_lower c) ≡ is_dash c
is_dash-lower c = ground arith

is_uuid_version-lower : (c : ℕ) → is_uuid_version (to_lower c) ≡ is_uuid_version c
is_uuid_version-lower c = ground arith

is_uuid_variant-lower : (c : ℕ) → is_uuid_variant (to_lower c) ≡ is_uuid_variant c
is_uuid_variant-lower c = ground arith

at_end-lower : (cs : Digits) → at_end (map to_lower cs) ≡ at_end cs
at_end-lower [] = refl
at_end-lower (c ∷ cs) = refl

is_uuid-lower : (cs : Digits) → is_uuid (map to_lower cs) ≡ is_uuid cs
unfolding is_uuid
is_uuid-lower = run_of-lower 8 _ _ is_hex_any-lower (
    run_of-lower 1 _ _ is_dash-lower (
      run_of-lower 4 _ _ is_hex_any-lower (
        run_of-lower 1 _ _ is_dash-lower (
          run_of-lower 1 _ _ is_uuid_version-lower (
            run_of-lower 3 _ _ is_hex_any-lower (
              run_of-lower 1 _ _ is_dash-lower (
                run_of-lower 1 _ _ is_uuid_variant-lower (
                  run_of-lower 3 _ _ is_hex_any-lower (
                    run_of-lower 1 _ _ is_dash-lower
                      (run_of-lower 12 _ _ is_hex_any-lower at_end-lower))))))))))

uuid-ok :
    (value result : Digits)
    → uuid value ≡ ok result
    → (is_uuid value ≡ true) × (map to_lower value ≡ result)
unfolding uuid
uuid-ok value result h = (ground arith, ground arith)

-- Where a text gives an identifier, the identifier has no upper-case letter, gives itself again, and is
-- given by exactly the texts that differ from the first one in case at most.
pub uuid_canonical :
    (value other result : Digits)
    → uuid value ≡ ok result
    → (all (λ c. not (is_upper c)) result ≡ true)
      × (uuid result ≡ ok result)
      × ((uuid other ≡ ok result) ↔ (map to_lower other ≡ map to_lower value))
unfolding uuid
uuid_canonical value other result h =
    let (good, same) = uuid-ok value result h in
    (
      rw (← same) (map-to_lower_lower value),
      rw (← same) (rw (is_uuid-lower value, good, map-to_lower_idem value) refl),
      (
        (λ k. (uuid-ok other result k).1 ∙ sym same),
        λ e.
            let accepted : is_uuid other ≡ true =
              sym (is_uuid-lower other) ∙ ap is_uuid e ∙ is_uuid-lower value ∙ good in
            rw (accepted, e, same) refl,
      ),
    )

-- What parses as an exact decimal is accepted as an amount of money.
is_unsigned_decimal_of_micros :
    (cs : Digits) (code : String) (n : ℕ)
    → decimal_micros cs code ≡ ok n
    → is_unsigned_decimal cs ≡ true
unfolding decimal_micros is_unsigned_decimal
is_unsigned_decimal_of_micros cs code n h = go (span_digits cs).0 (span_digits cs).1 h
  where
    go :
        (whole rest : Digits)
        → (if is_whole whole then fraction_micros code (value_from 0 whole) rest else err code)
          ≡ ok n
        → (is_whole whole && is_fraction rest) ≡ true
    go whole [] e = ground arith
    go whole (c ∷ rest) e = ground arith

is_decimal_of_unsigned : (cs : Digits) → is_unsigned_decimal cs ≡ true → is_decimal cs ≡ true
unfolding is_decimal span_digits
is_decimal_of_unsigned [] h = h
is_decimal_of_unsigned (c ∷ cs) h = elim (Bool-cases (c == b'-')) [
  | inl minus ↦ absurd (ground arith)
  | inr other ↦ rw other h
]

pub is_decimal_of_micros :
    (cs : Digits) (code : String) (n : ℕ) → decimal_micros cs code ≡ ok n → is_decimal cs ≡ true
is_decimal_of_micros cs code n h =
    is_decimal_of_unsigned cs (is_unsigned_decimal_of_micros cs code n h)

-- An amount that `format_micros` prints is always accepted by `money`, in any valid currency.
pub money-format_micros :
    (n : ℕ) (currency : String)
    → is_currency (codes currency) ≡ true
    → money (format_micros n) currency
      ≡ ok (record { amount = format_micros n; currency = currency })
unfolding money
money-format_micros n currency h =
    rw (is_decimal_of_micros (format_micros n) "" n (decimal_micros-format_micros n ""), h) refl

-- What `money` returned carries the texts that it was given, and they passed its patterns.
pub money_inv :
    (amount : Digits) (currency : String) (m : Money)
    → money amount currency ≡ ok m
    → (m ≡ record { amount = amount; currency = currency })
      × (is_decimal amount ≡ true)
      × (is_currency (codes currency) ≡ true)
unfolding money
money_inv amount currency m h = ground arith
