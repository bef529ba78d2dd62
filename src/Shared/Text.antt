-- ===== src/Shared/Text.antt =====
-- Text. Identifiers and codes are native strings, compared whole; a text that the program scans or
-- prints digit by digit is the list of its code points.
use Prim.Native.Nat.{ℕ}
use Prim.Native.Char.{code}
use Prim.Native.String.{String}
use mathlib.Core.Path.{ap, refl, ◌≡◌}
use text.Mathlib.TextEquality.{eq_iff}
use mathlib.Core.Logic.{◌↔◌}
use mathlib.Core.Bool.{Bool, true, false, not, ◌&&◌, ◌||◌}
use mathlib.Core.List.{List, [], ◌∷◌}
use mathlib.Core.Option.{Option, none, some}
use native.Mathlib.Omega.{arith}
use text.Mathlib.Text.{◌==◌ as str_eq}
use youone_rnd.Shared.Tests.{◌==◌, ltb, leb}
use youone_rnd.Shared.Lists.{any, all}

abbrev pub codes : String → List ℕ
codes String.[] = []
codes (String.◌∷◌ c s) = code c ∷ codes s

-- White space as `String.prototype.trim` removes it.
abbrev pub is_space : ℕ → Bool
is_space c =
    leb 9 c && leb c 13
    || c == 32
    || c == 0xa0
    || c == 0x1680
    || leb 0x2000 c && leb c 0x200a
    || c == 0x2028
    || c == 0x2029
    || c == 0x202f
    || c == 0x205f
    || c == 0x3000
    || c == 0xfeff

-- `!value.trim()`
unfoldable pub is_blank : String → Bool
is_blank s = all is_space (codes s)

-- `left < right` on strings: lexicographic by code point.
codes_before : List ℕ → List ℕ → Bool
codes_before [] [] = false
codes_before [] (y ∷ ys) = true
codes_before (x ∷ xs) [] = false
codes_before (x ∷ xs) (y ∷ ys) = ltb x y || x == y && codes_before xs ys

unfoldable pub before : String → String → Bool
unfolding codes_before
before left right = codes_before (codes left) (codes right)

-- `values.includes(value)`
unfoldable pub includes : List String → String → Bool
includes values value = any (λ v. str_eq v value) values

-- A value that may be undefined, read as a condition: undefined and "" are false.
abbrev pub truthy : Option String → Bool
truthy none = false
truthy (some s) = not (str_eq s "")

-- `left === right`, either of which may be undefined.
abbrev pub opt_eq : Option String → Option String → Bool
opt_eq none none = true
opt_eq (some a) (some b) = str_eq a b
opt_eq none (some b) = false
opt_eq (some a) none = false

pub opt_eq_iff : (o q : Option String) → (opt_eq o q ≡ true) ↔ (o ≡ q)
opt_eq_iff none none = (λ h. refl, λ h. refl)
opt_eq_iff (some a) (some b) = (λ h. ap some ((eq_iff a b).0 h), λ h. (eq_iff a b).1 (cc h))
opt_eq_iff none (some b) = (λ h. absurd (cc h), λ h. absurd (cc h))
opt_eq_iff (some a) none = (λ h. absurd (cc h), λ h. absurd (cc h))

-- Equality of two texts given by their code points.
abbrev pub codes_eq : List ℕ → List ℕ → Bool
codes_eq [] [] = true
codes_eq [] (y ∷ ys) = false
codes_eq (x ∷ xs) [] = false
codes_eq (x ∷ xs) (y ∷ ys) = x == y && codes_eq xs ys

pub codes_eq_iff : (xs ys : List ℕ) → (codes_eq xs ys ≡ true) ↔ (xs ≡ ys)
codes_eq_iff [] [] = ground arith
codes_eq_iff [] (y ∷ ys) = ground arith
codes_eq_iff (x ∷ xs) [] = ground arith
codes_eq_iff (x ∷ xs) (y ∷ ys) = ground (arith, codes_eq_iff xs ys)
