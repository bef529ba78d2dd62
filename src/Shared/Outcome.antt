-- ===== src/Shared/Outcome.antt =====
-- Thrown errors as values. An `err` carries the stable code of the error class, and the human-readable
-- message only where the class has no code.
use Prim.Native.String.{String}
use mathlib.Core.Path.{◌≡◌, refl}
use mathlib.Core.Bool.{Bool, true, false}
use mathlib.Core.Option.{Option, none, some}

-- What a function of the program does: it throws the error of a code, or returns a value.
pub data Result {ℓ} (Value : Type ℓ) : Type ℓ where
  err : (code : String) → Result Value
  ok : (value : Value) → Result Value

-- `if (test) fail(code)`
abbrev pub fail_if : Bool → String → Result (Unit {0})
fail_if true code = err code
fail_if false code = ok tt

-- `present(value, code)`
abbrev pub present {ℓ} : {A : Type ℓ} → Option A → String → Result A
present none code = err code
present (some a) code = ok a

abbrev pub is_ok {ℓ} : {A : Type ℓ} → Result A → Bool
is_ok (ok a) = true
is_ok (err e) = false

infixl 5 ◌>>=◌ ◌>>◌
-- The statements after the one that returned the value; a thrown error skips them.
abbrev pub ◌>>=◌ {ℓ₀ ℓ₁} :
    {First : Type ℓ₀} {Second : Type ℓ₁} → Result First → (First → Result Second) → Result Second
err code >>= rest = err code
ok value >>= rest = rest value

abbrev pub ◌>>◌ {ℓ₀} : {Second : Type ℓ₀} → Result (Unit {0}) → Result Second → Result Second
check >> rest = check >>= λ nothing. rest

-- Where a sequence returns, its first statement returned, and so did the rest.
pub >>=-eq-ok {ℓ₀ ℓ₁} :
    {First : Type ℓ₀} {Second : Type ℓ₁} (first : Result First) (rest : First → Result Second)
    {result : Second}
    → (first >>= rest) ≡ ok result
    → (value : First) × (first ≡ ok value) × (rest value ≡ ok result)
>>=-eq-ok (err code) rest thrown = cc
>>=-eq-ok (ok value) rest returned = (value, refl, returned)

pub >>-eq-ok {ℓ₀} :
    {Second : Type ℓ₀} (check : Result (Unit {0})) (rest : Result Second) {result : Second}
    → (check >> rest) ≡ ok result
    → (check ≡ ok tt) × (rest ≡ ok result)
>>-eq-ok (err code) rest thrown = cc
>>-eq-ok (ok tt) rest returned = (refl, returned)

pub fail_if-eq-ok : (test : Bool) (code : String) → fail_if test code ≡ ok tt → test ≡ false
fail_if-eq-ok true code h = cc
fail_if-eq-ok false code h = refl

-- The value of a result that is known to be one.
abbrev pub from_ok {ℓ} : {A : Type ℓ} (r : Result A) → is_ok r ≡ true → A
from_ok (ok a) h = a
from_ok (err e) h = absurd (cc h)

pub from_ok_lem {ℓ} : {A : Type ℓ} (r : Result A) (h : is_ok r ≡ true) → r ≡ ok (from_ok r h)
from_ok_lem (ok a) h = refl
from_ok_lem (err e) h = cc
