-- ===== src/Shared/Lists.antt =====
-- The array methods of the source (`length`, `some`, `every`, `find`, `filter`) over lists.
use Prim.Native.Nat.{ℕ, zero, suc, ◌+◌, ◌≤◌}
use mathlib.Core.Path.{◌≡◌, refl, ap, subst}
use mathlib.Core.Logic.{inl, inr}
use mathlib.Core.Bool.{Bool, true, false, ◌&&◌, ◌||◌}
use mathlib.Core.List.{List, [], ◌∷◌, ◌++◌, Memᴰ}
use mathlib.Core.Option.{Option, none, some}
use native.Mathlib.Omega.{arith}
use youone_rnd.Shared.Tests.{if◌then◌else◌, Bool-cases}

module _ {ℓ} {A : Type ℓ} where
  abbrev pub length : List A → ℕ
  length [] = 0
  length (x ∷ xs) = suc (length xs)

  abbrev pub replicate : ℕ → A → List A
  replicate zero a = []
  replicate (suc n) a = a ∷ replicate n a

  abbrev pub any : (A → Bool) → List A → Bool
  any p [] = false
  any p (x ∷ xs) = p x || any p xs

  abbrev pub all : (A → Bool) → List A → Bool
  all p [] = true
  all p (x ∷ xs) = p x && all p xs

  abbrev pub find : (A → Bool) → List A → Option A
  find p [] = none
  find p (x ∷ xs) = if p x then some x else find p xs

  abbrev pub filter : (A → Bool) → List A → List A
  filter p [] = []
  filter p (x ∷ xs) = let rest = filter p xs in if p x then x ∷ rest else rest

  pub length-append : (xs ys : List A) → length (xs ++ ys) ≡ length xs + length ys
  length-append [] ys = omega arith
  length-append (x ∷ xs) ys = omega (arith, length-append xs ys)

  pub length-replicate : (n : ℕ) (a : A) → length (replicate n a) ≡ n
  length-replicate zero a = refl
  length-replicate (suc n) a = ap suc (length-replicate n a)

  pub length-filter_le : (p : A → Bool) (xs : List A) → length (filter p xs) ≤ length xs
  length-filter_le p [] = omega arith
  length-filter_le p (x ∷ xs) = ground (arith, length-filter_le p xs)

  pub find_holds : (p : A → Bool) (xs : List A) {x : A} → find p xs ≡ some x → p x ≡ true
  find_holds p [] h = ground arith
  find_holds p (x ∷ xs) {x = y} h = ground (arith, find_holds p xs {x = y})

-- A predicate on every element.
abbrev pub All {ℓ κ} : {A : Type ℓ} → (A → Type κ) → List A → Type κ
All P [] = Unit
All P (x ∷ xs) = P x × All P xs

module _ {ℓ κ} {A : Type ℓ} (P : A → Type κ) where
  pub All-append : (xs ys : List A) → All P xs → All P ys → All P (xs ++ ys)
  All-append [] ys hx hy = hy
  All-append (x ∷ xs) ys hx hy = (hx.0, All-append xs ys hx.1 hy)

  pub All-find : (p : A → Bool) (xs : List A) {x : A} → All P xs → find p xs ≡ some x → P x
  All-find p [] h e = absurd (ground arith)
  All-find p (x ∷ xs) {x = y} h e = elim (Bool-cases (p x)) [
    | inl found ↦ let same : x ≡ y = ground arith in subst P same h.0
    | inr missed ↦ All-find p xs h.1 (rw missed at e)
  ]

-- Membership, and what the array methods say of it.
module _ {ℓ} {A : Type ℓ} (p : A → Bool) where
  pub Mem-filter : (xs : List A) {x : A} → Memᴰ x (filter p xs) → Memᴰ x xs × (p x ≡ true)
  Mem-filter [] m = elim m [ ]
  Mem-filter (y ∷ ys) {x = x} m = elim (Bool-cases (p y)) [
    | inl kept ↦ first kept (λ k. Mem-filter ys k) (rw kept at m)
    | inr dropped ↦ let (there, holds) = Mem-filter ys (rw dropped at m) in (Memᴰ.tail there, holds)
  ]
    where
      first :
          p y ≡ true
          → (Memᴰ x (filter p ys) → Memᴰ x ys × (p x ≡ true))
          → Memᴰ x (y ∷ filter p ys)
          → Memᴰ x (y ∷ ys) × (p x ≡ true)
      first kept rest (Memᴰ.head e) = (Memᴰ.head e, rw e kept)
      first kept rest (Memᴰ.tail k) = (Memᴰ.tail (rest k).0, (rest k).1)

  pub filter-Mem : (xs : List A) {x : A} → Memᴰ x xs → p x ≡ true → Memᴰ x (filter p xs)
  filter-Mem [] m h = elim m [ ]
  filter-Mem (y ∷ ys) {x = x} (Memᴰ.head e) h =
      let kept : p y ≡ true = rw (← e) h in rw kept (Memᴰ.head {xs = filter p ys} e)
  filter-Mem (y ∷ ys) {x = x} (Memᴰ.tail m) h = elim (Bool-cases (p y)) [
    | inl kept ↦ rw kept (Memᴰ.tail {xs = filter p ys} (filter-Mem ys m h))
    | inr dropped ↦ rw dropped (filter-Mem ys m h)
  ]

  pub any-Mem : (xs : List A) {x : A} → Memᴰ x xs → p x ≡ true → any p xs ≡ true
  any-Mem [] m h = elim m [ ]
  any-Mem (y ∷ ys) (Memᴰ.head e) h = let here : p y ≡ true = rw (← e) h in ground arith
  any-Mem (y ∷ ys) (Memᴰ.tail m) h = ground (arith, any-Mem ys m h)

  pub Mem-any : (xs : List A) → any p xs ≡ true → (x : A) × Memᴰ x xs × (p x ≡ true)
  Mem-any [] h = absurd (ground arith)
  Mem-any (y ∷ ys) h = elim (Bool-cases (p y)) [
    | inl here ↦ (y, Memᴰ.head refl, here)
    | inr not_here ↦ let (x, m, holds) = Mem-any ys (ground arith) in (x, Memᴰ.tail m, holds)
  ]

  pub Mem-find : (xs : List A) {x : A} → find p xs ≡ some x → Memᴰ x xs
  Mem-find [] e = absurd (ground arith)
  Mem-find (y ∷ ys) {x = x} e = elim (Bool-cases (p y)) [
    | inl here ↦ let same : x ≡ y = ground arith in Memᴰ.head same
    | inr not_here ↦ Memᴰ.tail (Mem-find ys (rw not_here at e))
  ]

  pub find-Mem : (xs : List A) {x : A} → Memᴰ x xs → p x ≡ true → (y : A) × (find p xs ≡ some y)
  find-Mem [] m h = elim m [ ]
  find-Mem (y ∷ ys) (Memᴰ.head e) h = let here : p y ≡ true = rw (← e) h in (y, rw here refl)
  find-Mem (y ∷ ys) (Memᴰ.tail m) h = elim (Bool-cases (p y)) [
    | inl here ↦ (y, rw here refl)
    | inr not_here ↦ let (z, e) = find-Mem ys m h in (z, rw not_here e)
  ]
