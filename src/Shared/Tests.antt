-- ===== src/Shared/Tests.antt =====
-- Boolean tests on the native numbers, the conditional, and the case lemmas.
use Prim.Native.Nat.{ℕ, ◌≤◌, ◌<◌, compare, Ordering}
use mathlib.Core.Path.{◌≡◌, refl}
use mathlib.Core.Logic.{◌↔◌, ◌⊎◌, inl, inr}
use mathlib.Core.Bool.{Bool, true, false, ◌&&◌, ◌||◌}
use mathlib.Core.Option.{Option, none, some}
use native.Mathlib.Omega.{arith}

abbrev pub ltb : ℕ → ℕ → Bool
ltb a b = elim (compare a b) [ Ordering.lt ↦ true | _ ↦ false ]

abbrev pub leb : ℕ → ℕ → Bool
leb a b = elim (compare a b) [ Ordering.gt ↦ false | _ ↦ true ]

infix 50 ◌==◌
abbrev pub ◌==◌ : ℕ → ℕ → Bool
a == b = elim (compare a b) [ Ordering.eq ↦ true | _ ↦ false ]

infix 1 if◌then◌else◌
abbrev pub if◌then◌else◌ {ℓ} : {A : Type ℓ} → Bool → A → A → A
if true then x else y = x
if false then x else y = y

abbrev pub is_some {ℓ} : {A : Type ℓ} → Option A → Bool
is_some none = false
is_some (some _) = true

abbrev pub is_none {ℓ} : {A : Type ℓ} → Option A → Bool
is_none none = true
is_none (some _) = false

pub Bool-cases : (b : Bool) → (b ≡ true) ⊎ (b ≡ false)
Bool-cases true = inl refl
Bool-cases false = inr refl

pub Option-cases {ℓ} : {A : Type ℓ} (o : Option A) → (o ≡ none) ⊎ ((a : A) × (o ≡ some a))
Option-cases none = inl refl
Option-cases (some a) = inr (a, refl)

pub ==_iff : (a b : ℕ) → ((a == b) ≡ true) ↔ (a ≡ b)
==_iff a b = ground arith

pub ltb_iff : (a b : ℕ) → (ltb a b ≡ true) ↔ (a < b)
ltb_iff a b = ground arith

pub leb_iff : (a b : ℕ) → (leb a b ≡ true) ↔ (a ≤ b)
leb_iff a b = ground arith

pub and_true_left : (a b : Bool) → (a && b) ≡ true → a ≡ true
and_true_left true b h = refl
and_true_left false b h = h

pub and_true_right : (a b : Bool) → (a && b) ≡ true → b ≡ true
and_true_right true b h = h
and_true_right false b h = ground arith

pub or_false_left : (a b : Bool) → (a || b) ≡ false → a ≡ false
or_false_left false b h = refl
or_false_left true b h = h

pub or_false_right : (a b : Bool) → (a || b) ≡ false → b ≡ false
or_false_right false b h = h
or_false_right true b h = ground arith
