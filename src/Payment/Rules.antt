-- ===== src/Payment/Rules.antt =====
-- The policy's rules: the one that gives the proposed rate.
use mathlib.Core.Path.{subst}
use mathlib.Core.List.{Memᴰ}
use youone_rnd.Shared.{
  ℕ, ◌≤◌, ◌<◌, ◌≡◌, refl, sym, Bool, true, false, ◌&&◌, List, [], ◌∷◌, ok, Bool-cases, inl, inr,
  leb, ltb, if◌then◌else◌, arith, >>=-eq-ok,
}
use youone_rnd.Decimal.{percentage_micros}
use youone_rnd.Payment.Types.{
  AcceptanceRateRule, AcceptanceDisposition, AcceptancePaymentPolicyVersionSnapshot, Percentage,
  same_disposition,
}
use youone_rnd.Payment.Rate.{band_maximum, matching_rules, rate_of, only_rule, calculate_rate}

-- The rule covers the achievement, in a band closed below and open above, and the disposition.
pub record Applies (achievement : ℕ) (disposition : AcceptanceDisposition)
    (rule : AcceptanceRateRule) : Type 0 where
  pub min : ℕ
  pub max : ℕ
  pub min_read :
      percentage_micros rule.minimum_achievement_inclusive "ACCEPTANCE_PAYMENT_POLICY_RATE_INVALID"
      ≡ ok min
  pub max_read : band_maximum rule.maximum_achievement_exclusive ≡ ok max
  pub above : min ≤ achievement
  pub below : achievement < max
  pub same : rule.disposition ≡ disposition

same_disposition-eq : (a b : AcceptanceDisposition) → same_disposition a b ≡ true → a ≡ b
same_disposition-eq a b h = ground arith

same_disposition_refl : (a : AcceptanceDisposition) → same_disposition a a ≡ true
same_disposition_refl a = ground arith

only_if :
    (b : Bool) (xs ys : List AcceptanceRateRule) {zs : List AcceptanceRateRule}
    → b ≡ true
    → (if b then xs else ys) ≡ zs
    → xs ≡ zs
only_if b xs ys h e = ground arith

only_else :
    (b : Bool) (xs ys : List AcceptanceRateRule) {zs : List AcceptanceRateRule}
    → b ≡ false
    → (if b then xs else ys) ≡ zs
    → ys ≡ zs
only_else b xs ys h e = ground arith

module _ (achievement : ℕ) (disposition : AcceptanceDisposition) where
  matching_inv :
      (rule : AcceptanceRateRule) (rules matches : List AcceptanceRateRule)
      → matching_rules achievement disposition (rule ∷ rules) ≡ ok matches
      → (min max : ℕ) × (rest : List AcceptanceRateRule) × (percentage_micros
            rule.minimum_achievement_inclusive "ACCEPTANCE_PAYMENT_POLICY_RATE_INVALID"
          ≡ ok min)
        × (band_maximum rule.maximum_achievement_exclusive ≡ ok max)
        × (matching_rules achievement disposition rules ≡ ok rest)
        × ((if leb min achievement
                && (ltb achievement max && same_disposition rule.disposition disposition)
              then rule ∷ rest
              else rest)
            ≡ matches)
  unfolding matching_rules
  matching_inv rule rules matches h =
      let (min, hmin, h₁) =
        >>=-eq-ok (percentage_micros rule.minimum_achievement_inclusive _) _ h in
      let (max, hmax, h₂) = >>=-eq-ok (band_maximum rule.maximum_achievement_exclusive) _ h₁ in
      let (rest, hrest, h₃) = >>=-eq-ok (matching_rules achievement disposition rules) _ h₂ in
      (min, max, rest, hmin, hmax, hrest, cc h₃)

  widen :
      (rule : AcceptanceRateRule) (rules rest : List AcceptanceRateRule) {r : AcceptanceRateRule}
      → (Memᴰ r rest → Memᴰ r rules × Applies achievement disposition r)
      → Applies achievement disposition rule
      → Memᴰ r (rule ∷ rest)
      → Memᴰ r (rule ∷ rules) × Applies achievement disposition r
  widen rule rules rest later applies (Memᴰ.head same) =
      (Memᴰ.head same, subst (Applies achievement disposition) (sym same) applies)
  widen rule rules rest later applies (Memᴰ.tail k) = (Memᴰ.tail (later k).0, (later k).1)

  -- The rules that match are rules of the policy that apply.
  matching_sound :
      (rules matches : List AcceptanceRateRule) {r : AcceptanceRateRule}
      → matching_rules achievement disposition rules ≡ ok matches
      → Memᴰ r matches
      → Memᴰ r rules × Applies achievement disposition r
  unfolding matching_rules
  matching_sound [] matches h m =
      let none_left : matches ≡ [] = cc h in elim (subst (Memᴰ _) none_left m) [ ]
  matching_sound (rule ∷ rules) matches {r} h m =
      let (min, max, rest, hmin, hmax, hrest, e) = matching_inv rule rules matches h in
      elim (Bool-cases (
        leb min achievement
        && (ltb achievement max && same_disposition rule.disposition disposition))) [
          | inl fits ↦
              widen rule rules rest (λ k. matching_sound rules rest hrest k)
                (record {
                  min = min;
                  max = max;
                  min_read = hmin;
                  max_read = hmax;
                  above = ground arith;
                  below = ground arith;
                  same = same_disposition-eq rule.disposition disposition (ground arith);
                })
                (subst (Memᴰ r) (sym (only_if _ (rule ∷ rest) rest fits e)) m)
          | inr misses ↦
              let (at, applies) =
                matching_sound rules rest hrest
                  (subst (Memᴰ r) (sym (only_else _ (rule ∷ rest) rest misses e)) m) in
              (Memᴰ.tail at, applies)
        ]

  -- Every rule that applies is among those that match.
  matching_complete :
      (rules matches : List AcceptanceRateRule) {r : AcceptanceRateRule}
      → matching_rules achievement disposition rules ≡ ok matches
      → Memᴰ r rules
      → Applies achievement disposition r
      → Memᴰ r matches
  matching_complete [] matches h m a = elim m [ ]
  matching_complete (rule ∷ rules) matches {r} h (Memᴰ.tail m) a =
      let (min, max, rest, hmin, hmax, hrest, e) = matching_inv rule rules matches h in
      let inner = matching_complete rules rest hrest m a in
      elim (Bool-cases (
        leb min achievement
        && (ltb achievement max && same_disposition rule.disposition disposition))) [
          | inl fits ↦ subst (Memᴰ r) (only_if _ (rule ∷ rest) rest fits e) (Memᴰ.tail inner)
          | inr misses ↦ subst (Memᴰ r) (only_else _ (rule ∷ rest) rest misses e) inner
        ]
  matching_complete (rule ∷ rules) matches {r} h (Memᴰ.head same) a =
      let (min, max, rest, hmin, hmax, hrest, e) = matching_inv rule rules matches h in
      let b = subst (Applies achievement disposition) same a in
      let low : b.min ≡ min = cc (b.min_read, hmin) in
      let high : b.max ≡ max = cc (b.max_read, hmax) in
      let kind : same_disposition rule.disposition disposition ≡ true =
        rw b.same (same_disposition_refl disposition) in
      let fits : (leb min achievement
            && (ltb achievement max && same_disposition rule.disposition disposition))
          ≡ true =
        ground (arith, low, high, kind, b.above, b.below) in
      subst (Memᴰ r) (only_if _ (rule ∷ rest) rest fits e) (Memᴰ.head same)

-- A calculated rate is the rate of a rule of the policy that applies to the achievement, which is a
-- percentage, and to the disposition, and every rule of the policy that applies is that rule.
pub calculate_rate_unique :
    (policy : AcceptancePaymentPolicyVersionSnapshot) (text : Percentage)
    (disposition : AcceptanceDisposition) (rate : Percentage)
    → calculate_rate policy text disposition ≡ ok rate
    → (achievement : ℕ) × (rule : AcceptanceRateRule) × (percentage_micros text
          "ACCEPTANCE_PAYMENT_ACHIEVEMENT_INVALID"
        ≡ ok achievement)
      × Memᴰ rule policy.rate_rules
      × Applies achievement disposition rule
      × (rate ≡ rate_of rule.proposed_rate text)
      × ((other : AcceptanceRateRule)
          → Memᴰ other policy.rate_rules
          → Applies achievement disposition other
          → other ≡ rule)
unfolding calculate_rate
calculate_rate_unique policy text disposition rate h =
    let (achievement, read, h₁) = >>=-eq-ok (percentage_micros text _) _ h in
    let (matches, matching, h₂) =
      >>=-eq-ok (matching_rules achievement disposition policy.rate_rules) _ h₁ in
    let (rule, only, h₃) = >>=-eq-ok (only_rule matches) _ h₂ in
    let one : matches ≡ rule ∷ [] = only_rule-eq matches rule only in
    let (at, applies) =
      matching_sound achievement disposition policy.rate_rules matches matching
        (subst (Memᴰ rule) (sym one) (Memᴰ.head refl)) in
    (
      achievement,
      rule,
      read,
      at,
      applies,
      sym (cc h₃),
      λ other m a. mem_one (
          subst (Memᴰ other) one
            (matching_complete achievement disposition policy.rate_rules matches matching m a)),
    )
  where
    mem_one : {x y : AcceptanceRateRule} → Memᴰ x (y ∷ []) → x ≡ y
    mem_one (Memᴰ.head e) = e
    mem_one (Memᴰ.tail m) = elim m [ ]

    only_rule-eq :
        (ms : List AcceptanceRateRule) (r : AcceptanceRateRule) → only_rule ms ≡ ok r → ms ≡ r ∷ []
    only_rule-eq [] r e = absurd (ground arith)
    only_rule-eq (x ∷ []) r e = ground arith
    only_rule-eq (x ∷ y ∷ ms) r e = absurd (ground arith)
