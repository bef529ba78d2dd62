-- ===== src/Approval/Activation.antt =====
-- What `activateNext` does: it ends, it leaves an active step or a completed instance, and it opens
-- the steps in the order of their sequence numbers.
use youone_rnd.Shared.{
  ℕ, zero, suc, ◌≤◌, ◌<◌, ◌≡◌, refl, ◌⊎◌, inl, inr, Bool, true, false, ◌&&◌, Option, none, some,
  List, [], ◌∷◌, map, ◌==◌, length, any, filter, arith, Bool-cases, Option-cases, All,
  length-filter_le,
}
use youone_rnd.Approval.Types.{ApprovalState, ApprovalRuntimeStep, ApprovalInstanceSnapshot}
use youone_rnd.Approval.Steps.{minimum, is_waiting, is_active, activate_step, activate_at}
use youone_rnd.Approval.Instance.{activate_next, activation_fuel}

-- How many steps wait.
abbrev pub waiting_count : List ApprovalRuntimeStep → ℕ
waiting_count steps = length (filter is_waiting steps)

abbrev waits_at : ℕ → ApprovalRuntimeStep → Bool
waits_at seq step = is_waiting step && step.sequence_no == seq

-- The least sequence number of the waiting steps.
abbrev pub next_sequence : List ApprovalRuntimeStep → Option ℕ
next_sequence steps = minimum (map (λ s. s.sequence_no) (filter is_waiting steps))

next_sequence-none :
    (steps : List ApprovalRuntimeStep) → next_sequence steps ≡ none → any is_waiting steps ≡ false
unfolding minimum
next_sequence-none [] h = refl
next_sequence-none (s ∷ steps) h = ground (arith, next_sequence-none steps)

next_sequence-any :
    (steps : List ApprovalRuntimeStep) (seq : ℕ)
    → next_sequence steps ≡ some seq
    → any (waits_at seq) steps ≡ true
unfolding minimum
next_sequence-any [] seq h = ground arith
next_sequence-any (s ∷ steps) seq h = elim (Option-cases (next_sequence steps)) [
  | inl e ↦ ground (arith, next_sequence-any steps seq)
  | inr (m, e) ↦ ground (arith, next_sequence-any steps seq)
]

abbrev AtLeast : ℕ → ApprovalRuntimeStep → Type 0
AtLeast bound s = is_waiting s ≡ true → bound ≤ s.sequence_no

AtLeast-mono :
    (a b : ℕ) (steps : List ApprovalRuntimeStep)
    → a ≤ b
    → All (AtLeast b) steps
    → All (AtLeast a) steps
AtLeast-mono a b [] h k = tt
AtLeast-mono a b (s ∷ steps) h k = ((λ w. omega (arith, k.0 w)), AtLeast-mono a b steps h k.1)

AtLeast-of_none :
    (b : ℕ) (steps : List ApprovalRuntimeStep)
    → any is_waiting steps ≡ false
    → All (AtLeast b) steps
AtLeast-of_none b [] h = tt
AtLeast-of_none b (s ∷ steps) h =
    ((λ w. absurd (ground arith)), AtLeast-of_none b steps (ground arith))

next_sequence-le :
    (steps : List ApprovalRuntimeStep) (seq : ℕ)
    → next_sequence steps ≡ some seq
    → All (AtLeast seq) steps
unfolding minimum
next_sequence-le [] seq h = tt
next_sequence-le (s ∷ steps) seq h = elim (Option-cases (next_sequence steps)) [
  | inl e ↦ ((λ w. ground arith), AtLeast-of_none seq steps (next_sequence-none steps e))
  | inr (m, e) ↦
      ((λ w. ground arith), AtLeast-mono seq m steps (ground arith) (next_sequence-le steps m e))
]

activate_step-not_waiting : (s : ApprovalRuntimeStep) → is_waiting (activate_step s) ≡ false
unfolding activate_step
activate_step-not_waiting s = ground arith

waiting_count-le :
    (seq : ℕ) (steps : List ApprovalRuntimeStep)
    → waiting_count (map (activate_at seq) steps) ≤ waiting_count steps
unfolding activate_at
waiting_count-le seq [] = omega arith
waiting_count-le seq (s ∷ steps) =
    ground (arith, activate_step-not_waiting s, waiting_count-le seq steps)

-- Opening the steps of a sequence number that waits leaves fewer waiting.
waiting_count-lt :
    (seq : ℕ) (steps : List ApprovalRuntimeStep)
    → any (waits_at seq) steps ≡ true
    → waiting_count (map (activate_at seq) steps) < waiting_count steps
unfolding activate_at
waiting_count-lt seq [] h = ground arith
waiting_count-lt seq (s ∷ steps) h =
    ground
      (arith, activate_step-not_waiting s, waiting_count-le seq steps, waiting_count-lt seq steps)

-- What `activateNext` leaves behind: an active step in an unchanged state, or a completed instance
-- where no step waits or is active.
abbrev pub IsSettled : ApprovalState → ApprovalInstanceSnapshot → Type 0
IsSettled state value =
    ((any is_active value.steps ≡ true) × (value.state ≡ state))
    ⊎ ((value.state ≡ ApprovalState.completed)
        × (any is_waiting value.steps ≡ false)
        × (any is_active value.steps ≡ false))

-- The rule for the recursion: `P` holds of the value between two rounds, and `Q` at the end.
module _ (P Q : ApprovalInstanceSnapshot → Type 0)
    (stop : (v : ApprovalInstanceSnapshot) → P v → any is_active v.steps ≡ true → Q v)
    (finish : (v : ApprovalInstanceSnapshot)
      → P v
      → any is_active v.steps ≡ false
      → next_sequence v.steps ≡ none
      → Q (record v { state = ApprovalState.completed }))
    (round : (v : ApprovalInstanceSnapshot) (seq : ℕ)
      → P v
      → any is_active v.steps ≡ false
      → next_sequence v.steps ≡ some seq
      → P (record v { steps = map (activate_at seq) v.steps })) where
  activate_next_fuel_rule :
      (fuel : ℕ) (v : ApprovalInstanceSnapshot)
      → waiting_count v.steps < fuel
      → P v
      → Q (activate_next fuel v)
  unfolding activate_next
  activate_next_fuel_rule zero v h p = absurd (omega arith)
  activate_next_fuel_rule (suc fuel) v h p = elim (Bool-cases (any is_active v.steps)) [
    | inl busy ↦ rw busy (stop v p busy)
    | inr idle ↦ elim (Option-cases (next_sequence v.steps)) [
      | inl e ↦ rw (idle, e) (finish v p idle e)
      | inr (seq, e) ↦
          let next = record v { steps = map (activate_at seq) v.steps } in
          let fewer = waiting_count-lt seq v.steps (next_sequence-any v.steps seq e) in
          let ih = activate_next_fuel_rule fuel next (omega arith) (round v seq p idle e) in
          elim (Bool-cases (any is_active (map (activate_at seq) v.steps))) [
            | inl opened ↦ rw (idle, e, opened) (stop next (round v seq p idle e) opened)
            | inr skipped ↦ rw (idle, e, skipped) ih
          ]
    ]
  ]

  -- The fuel that the methods give is enough.
  pub activate_next_rule :
      (v : ApprovalInstanceSnapshot) → P v → Q (activate_next (activation_fuel v) v)
  activate_next_rule v p =
      activate_next_fuel_rule (activation_fuel v) v
        (omega (arith, length-filter_le is_waiting v.steps)) p

-- With the fuel that the methods give, `activateNext` always ends: either with an active step and
-- the state unchanged, or with a completed instance in which no step waits or is active.
pub activate_next-IsSettled :
    (value : ApprovalInstanceSnapshot)
    → IsSettled value.state (activate_next (activation_fuel value) value)
activate_next-IsSettled value =
    activate_next_rule (λ v. v.state ≡ value.state) (IsSettled value.state)
      (λ v same busy. inl (busy, same))
      (λ v same idle e. inr (refl, next_sequence-none v.steps e, idle)) (λ v seq same idle e. same)
      value refl

-- The gate between the sequence numbers: active steps stand below the bound, waiting ones do not.
abbrev pub Gate : ℕ → List ApprovalRuntimeStep → Type 0
Gate bound = All (λ s.
    (is_active s ≡ true → s.sequence_no < bound) × (is_waiting s ≡ true → bound ≤ s.sequence_no))

Gate-idle :
    (bound : ℕ) (steps : List ApprovalRuntimeStep)
    → any is_active steps ≡ false
    → All (AtLeast bound) steps
    → Gate bound steps
Gate-idle bound [] h k = tt
Gate-idle bound (s ∷ steps) h k =
    (((λ a. absurd (ground arith)), k.0), Gate-idle bound steps (ground arith) k.1)

activate_step-sequence : (s : ApprovalRuntimeStep) → (activate_step s).sequence_no ≡ s.sequence_no
unfolding activate_step
activate_step-sequence s = ground arith

activate_at-Gate :
    (seq : ℕ) (steps : List ApprovalRuntimeStep)
    → any is_active steps ≡ false
    → All (AtLeast seq) steps
    → Gate (suc seq) (map (activate_at seq) steps)
unfolding activate_at
activate_at-Gate seq [] h k = tt
activate_at-Gate seq (s ∷ steps) h k = (
  elim (Bool-cases (waits_at seq s)) [
    | inl chosen ↦ rw chosen (
      (λ _. ground (arith, activate_step-sequence s)),
      (λ w. absurd (ground (arith, activate_step-not_waiting s))),
    )
    | inr other ↦ rw other ((λ a. absurd (ground arith)), (λ w. ground (arith, k.0 w)))
  ],
  activate_at-Gate seq steps (ground arith) k.1,
)

abbrev pub IsGated : ApprovalInstanceSnapshot → Type 0
IsGated v = (bound : ℕ) × Gate bound v.steps

-- `activateNext` opens the steps of the least waiting sequence number only: a gate between active
-- and waiting steps is kept.
pub activate_next-IsGated :
    (v : ApprovalInstanceSnapshot) → IsGated v → IsGated (activate_next (activation_fuel v) v)
activate_next-IsGated =
    activate_next_rule IsGated IsGated (λ v g busy. g) (λ v g idle e. g)
      (λ v seq g idle e.
        (suc seq, activate_at-Gate seq v.steps idle (next_sequence-le v.steps seq e)))

-- What `activateNext` leaves alone.
abbrev pub SameFrame : ApprovalInstanceSnapshot → ApprovalInstanceSnapshot → Type 0
SameFrame a b =
    (b.version ≡ a.version)
    × (b.actions ≡ a.actions)
    × (b.submission ≡ a.submission)
    × (b.submitter_user_id ≡ a.submitter_user_id)

pub activate_next-SameFrame :
    (v : ApprovalInstanceSnapshot) → SameFrame v (activate_next (activation_fuel v) v)
activate_next-SameFrame v =
    activate_next_rule (SameFrame v) (SameFrame v) (λ w f busy. f) (λ w f idle e. f)
      (λ w seq f idle e. f) v (refl, refl, refl, refl)
