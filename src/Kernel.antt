-- ===== src/Kernel.antt =====
-- packages/shared-kernel/src/public.ts: the branded values and the functions that make them.
-- A regular expression is a Boolean test on code points. The brands are not types of their own:
-- `Uuid`, `UtcInstant`, `StableCode`, `Sha256` and the keys are texts, `Version` is a number.
pub mod Laws
mod Tests
use youone_rnd.Shared.{
  ℕ, suc, ◌+◌, ◌-◌, Bool, true, false, not, ◌&&◌, ◌||◌, List, [], ◌∷◌, map, String, Result, ok, err,
  ◌>>=◌, ◌>>◌, fail_if, leb, ltb, ◌==◌, if◌then◌else◌, length, all, codes,
}
use youone_rnd.Decimal.{Digits, is_digit, span_digits, is_whole}

abbrev pub Uuid : Type 0
Uuid = String

abbrev pub UtcInstant : Type 0
UtcInstant = String

abbrev pub StableCode : Type 0
StableCode = String

abbrev pub Sha256 : Type 0
Sha256 = String

abbrev pub Version : Type 0
Version = ℕ

pub record Money : Type 0 where
  pub amount : Digits
  pub currency : String

-- Number.MAX_SAFE_INTEGER
abbrev pub max_safe_integer : ℕ
max_safe_integer = 9007199254740991

abbrev pub is_safe_integer : ℕ → Bool
is_safe_integer n = leb n max_safe_integer

unfoldable pub version : ℕ → Result Version
version value = if is_safe_integer value then ok value else err "version"

unfoldable pub next_version : Version → Result Version
unfolding version
next_version current = if leb max_safe_integer current then err "version" else version (current + 1)

abbrev pub is_upper : ℕ → Bool
is_upper c = leb b'A' c && leb c b'Z'

abbrev pub is_lower : ℕ → Bool
is_lower c = leb b'a' c && leb c b'z'

abbrev pub is_letter : ℕ → Bool
is_letter c = is_upper c || is_lower c

-- `toLowerCase()` of an ASCII code point; the patterns below accept no others.
abbrev pub to_lower : ℕ → ℕ
to_lower c = if is_upper c then c + 32 else c

-- `[0-9a-f]`
abbrev pub is_hex : ℕ → Bool
is_hex c = is_digit c || leb b'a' c && leb c b'f'

-- `[A-Za-z0-9._:-]`
abbrev pub is_stable_char : ℕ → Bool
is_stable_char c = is_letter c || is_digit c || c == b'.' || c == b'_' || c == b':' || c == b'-'

-- `[A-Za-z0-9._:/-]`
abbrev pub is_opaque_char : ℕ → Bool
is_opaque_char c = is_stable_char c || c == b'/'

-- STABLE_CODE_PATTERN
unfoldable pub is_stable_code : Digits → Bool
is_stable_code [] = false
is_stable_code (c ∷ cs) = is_letter c && (all is_stable_char cs && leb (length cs) 127)

unfoldable pub stable_code : String → Result StableCode
unfolding is_stable_code
stable_code value = if is_stable_code (codes value) then ok value else err "stableCode"

-- OPAQUE_KEY_PATTERN
unfoldable pub is_opaque_key : Digits → Bool
is_opaque_key [] = false
is_opaque_key (c ∷ cs) =
    (is_letter c || is_digit c) && (all is_opaque_char cs && leb (length cs) 127)

unfoldable pub opaque_key : String → String → Result String
unfolding is_opaque_key
opaque_key value_name value = if is_opaque_key (codes value) then ok value else err value_name

unfoldable pub correlation_id : String → Result String
unfolding opaque_key
correlation_id value = opaque_key "CorrelationId" value

unfoldable pub causation_id : String → Result String
unfolding opaque_key
causation_id value = opaque_key "CausationId" value

unfoldable pub idempotency_key : String → Result String
unfolding opaque_key
idempotency_key value = opaque_key "IdempotencyKey" value

-- SHA256_PATTERN, of the text in lower case.
unfoldable pub sha256 : Digits → Result Digits
sha256 value =
    let normalized = map to_lower value in
    if length normalized == 64 && all is_hex normalized then ok normalized else err "sha256"

-- The classes of UUID_PATTERN, position by position, in either case.
abbrev pub is_hex_any : ℕ → Bool
is_hex_any c = is_hex (to_lower c)

abbrev pub is_dash : ℕ → Bool
is_dash c = c == b'-'

-- `[1-8]`
abbrev pub is_uuid_version : ℕ → Bool
is_uuid_version c = leb b'1' c && leb c b'8'

-- `[89ab]`
abbrev pub is_uuid_variant : ℕ → Bool
is_uuid_variant c = c == b'8' || c == b'9' || to_lower c == b'a' || to_lower c == b'b'

-- Runs a count of one class, and hands the rest over.
unfoldable pub run_of : ℕ → (ℕ → Bool) → (Digits → Bool) → Digits → Bool
run_of ℕ.zero p rest cs = rest cs
run_of (suc n) p rest [] = false
run_of (suc n) p rest (c ∷ cs) = p c && run_of n p rest cs

abbrev pub at_end : Digits → Bool
at_end [] = true
at_end (c ∷ cs) = false

-- UUID_PATTERN
unfoldable pub is_uuid : Digits → Bool
unfolding run_of
is_uuid = run_of 8 is_hex_any (
    run_of 1 is_dash (
      run_of 4 is_hex_any (
        run_of 1 is_dash (
          run_of 1 is_uuid_version (
            run_of 3 is_hex_any (
              run_of 1 is_dash (
                run_of 1 is_uuid_variant
                  (run_of 3 is_hex_any (run_of 1 is_dash (run_of 12 is_hex_any at_end))))))))))

unfoldable pub uuid : Digits → Result Digits
unfolding is_uuid
uuid value = if is_uuid value then ok (map to_lower value) else err "uuid"

-- CURRENCY_PATTERN
unfoldable pub is_currency : Digits → Bool
is_currency cs = length cs == 3 && all is_upper cs

-- What may stand behind the whole part in DECIMAL_PATTERN.
abbrev pub is_fraction : Digits → Bool
is_fraction [] = true
is_fraction (c ∷ cs) = c == b'.' && (all is_digit cs && (leb 1 (length cs) && leb (length cs) 6))

unfoldable pub is_unsigned_decimal : Digits → Bool
unfolding span_digits
is_unsigned_decimal cs = let (whole, rest) = span_digits cs in is_whole whole && is_fraction rest

-- DECIMAL_PATTERN
unfoldable pub is_decimal : Digits → Bool
unfolding is_unsigned_decimal
is_decimal [] = false
is_decimal (c ∷ cs) = if c == b'-' then is_unsigned_decimal cs else is_unsigned_decimal (c ∷ cs)

unfoldable pub money : Digits → String → Result Money
unfolding is_decimal is_currency
money amount currency = do
  fail_if (not (is_decimal amount)) "money.amount"
  fail_if (not (is_currency (codes currency))) "money.currency"
  ok (record { amount = amount; currency = currency })
