-- ===== src/Inspection/Places.antt =====
-- packages/features/quality/src/domain/inspection.ts: what `formatPercent` cuts off a rounded score.
use youone_rnd.Shared.{
  ℕ, zero, suc, ◌+◌, ◌-◌, ◌%◌, ◌^◌, ◌≤◌, ◌<◌, ◌≡◌, refl, [], ◌∷◌, ◌++◌, length, replicate, arith,
}
use youone_rnd.Decimal.{Digits, value_from}
use youone_rnd.Decimal.Digits.{AreDigits}
use youone_rnd.Inspection.Types.{RoundingMode}
use youone_rnd.Inspection.Percent.{take, to_quantum}

zeros_of_six :
    (places a b c d e f : ℕ)
    → AreDigits (a ∷ b ∷ c ∷ d ∷ e ∷ f ∷ [])
    → places ≤ 6
    → value_from 0 (a ∷ b ∷ c ∷ d ∷ e ∷ f ∷ []) % 10 ^ (6 - places) ≡ 0
    → take places (a ∷ b ∷ c ∷ d ∷ e ∷ f ∷ []) ++ replicate (6 - places) b'0'
      ≡ a ∷ b ∷ c ∷ d ∷ e ∷ f ∷ []
unfolding value_from
zeros_of_six zero a b c d e f (h1, (h2, (h3, (h4, (h5, (h6, _)))))) m z = ground arith
zeros_of_six (suc zero) a b c d e f (h1, (h2, (h3, (h4, (h5, (h6, _)))))) m z = ground arith
zeros_of_six (suc (suc zero)) a b c d e f (h1, (h2, (h3, (h4, (h5, (h6, _)))))) m z = ground arith
zeros_of_six (suc (suc (suc zero))) a b c d e f (h1, (h2, (h3, (h4, (h5, (h6, _)))))) m z =
    ground arith
zeros_of_six (suc (suc (suc (suc zero)))) a b c d e f (h1, (h2, (h3, (h4, (h5, (h6, _)))))) m z =
    ground arith
zeros_of_six (suc (suc (suc (suc (suc zero))))) a b c d e f (h1, (h2, (h3, (h4, (h5, (h6, _)))))) m
      z =
    ground arith
zeros_of_six (suc (suc (suc (suc (suc (suc zero)))))) a b c d e f
      (h1, (h2, (h3, (h4, (h5, (h6, _)))))) m z =
    refl
zeros_of_six (suc (suc (suc (suc (suc (suc (suc n))))))) a b c d e f h m z = absurd (omega arith)

-- The digits of a multiple of a power of ten that stand behind that power are zeros.
pub take_zeros :
    (places : ℕ) (xs : Digits)
    → places ≤ 6
    → length xs ≡ 6
    → AreDigits xs
    → value_from 0 xs % 10 ^ (6 - places) ≡ 0
    → take places xs ++ replicate (6 - places) b'0' ≡ xs
take_zeros n [] m l h z = absurd (omega (arith, l))
take_zeros n (a ∷ []) m l h z = absurd (omega (arith, l))
take_zeros n (a ∷ b ∷ []) m l h z = absurd (omega (arith, l))
take_zeros n (a ∷ b ∷ c ∷ []) m l h z = absurd (omega (arith, l))
take_zeros n (a ∷ b ∷ c ∷ d ∷ []) m l h z = absurd (omega (arith, l))
take_zeros n (a ∷ b ∷ c ∷ d ∷ e ∷ []) m l h z = absurd (omega (arith, l))
take_zeros n (a ∷ b ∷ c ∷ d ∷ e ∷ f ∷ []) m l h z = zeros_of_six n a b c d e f h m z
take_zeros n (a ∷ b ∷ c ∷ d ∷ e ∷ f ∷ g ∷ xs) m l h z = absurd (omega (arith, l))

-- A score of at most a hundred percent, rounded: it is a whole number of quanta, still at most a
-- hundred percent, and less than a quantum away.
pub to_quantum_facts :
    (places value : ℕ) (mode : RoundingMode)
    → places ≤ 6
    → value ≤ 100000000
    → (to_quantum value (10 ^ (6 - places)) mode ≤ 100000000)
      × (to_quantum value (10 ^ (6 - places)) mode % 1000000 % 10 ^ (6 - places) ≡ 0)
      × (to_quantum value (10 ^ (6 - places)) mode < value + 10 ^ (6 - places))
      × (value < to_quantum value (10 ^ (6 - places)) mode + 10 ^ (6 - places))
to_quantum_facts zero value mode m h = (ground arith, ground arith, ground arith, ground arith)
to_quantum_facts (suc zero) value mode m h =
    (ground arith, ground arith, ground arith, ground arith)
to_quantum_facts (suc (suc zero)) value mode m h =
    (ground arith, ground arith, ground arith, ground arith)
to_quantum_facts (suc (suc (suc zero))) value mode m h =
    (ground arith, ground arith, ground arith, ground arith)
to_quantum_facts (suc (suc (suc (suc zero)))) value mode m h =
    (ground arith, ground arith, ground arith, ground arith)
to_quantum_facts (suc (suc (suc (suc (suc zero))))) value mode m h =
    (ground arith, ground arith, ground arith, ground arith)
to_quantum_facts (suc (suc (suc (suc (suc (suc zero)))))) value mode m h =
    (ground arith, ground arith, ground arith, ground arith)
to_quantum_facts (suc (suc (suc (suc (suc (suc (suc n))))))) value mode m h = absurd (omega arith)
