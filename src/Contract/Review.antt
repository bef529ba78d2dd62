-- ===== src/Contract/Review.antt =====
-- packages/features/contract/src/domain/contract.ts: a contract that goes through the review of a
-- termination and on.
use youone_rnd.Shared.{
  ℕ, ◌+◌, ◌≡◌, refl, ap, ◌∙◌, Bool, not, Option, none, some, [], ◌∷◌, String, Result, ok, err, ◌>>◌,
  fail_if, arith,
}
use youone_rnd.Kernel.{Version, next_version, version}
use youone_rnd.Contract.Types.{VendorContractState, ContractAuthority, ContractScopeObligation}
use youone_rnd.Contract.Machine.{
  PriorState, VendorContractSnapshot, ContractCommand, ContractMutation, require_authority,
  contract_guard, contract_text, ContractOutcome, contract_moved, contract_transition, past,
}
use youone_rnd.Contract.Termination.{
  prior_of, state_of_prior, review_termination, return_to, continue_after_review,
}

past-ok :
    (checks : Result (Unit {0})) (v : VendorContractSnapshot) (rest : ContractOutcome)
    {m : ContractMutation}
    → (past checks v rest).1 ≡ ok m
    → (rest.1 ≡ ok m) × ((past checks v rest).0 ≡ rest.0)
past-ok (err e) v rest h = absurd (cc h)
past-ok (ok tt) v rest h = (h, refl)

next_number : (n next : ℕ) → next_version n ≡ ok next → next ≡ n + 1
unfolding next_version version
next_number n next h = ground arith

contract_transition-ok :
    (v : VendorContractSnapshot) (c : ContractCommand) (state : VendorContractState)
    (event : String) (due : ContractScopeObligation) (m : ContractMutation)
    → (contract_transition v c state event due).1 ≡ ok m
    → (contract_transition v c state event due).0
      ≡ record v { state = state; version = v.version + 1; updated_at = c.at }
unfolding contract_transition
contract_transition-ok v c state event due m h = go (next_version v.version) refl h
  where
    go :
        (r : Result Version)
        → next_version v.version ≡ r
        → (contract_moved v c state event due r).1 ≡ ok m
        → (contract_moved v c state event due r).0
          ≡ record v { state = state; version = v.version + 1; updated_at = c.at }
    go (err code) e k = absurd (cc k)
    go (ok next) e k =
        ap (λ n. record v { state = state; version = n; updated_at = c.at })
          (next_number v.version next e)

state_of_prior-prior_of :
    (s : VendorContractState) (p : PriorState) → prior_of s ≡ some p → state_of_prior p ≡ s
state_of_prior-prior_of s p h = ground arith

-- The value that a review of a termination leaves.
abbrev reviewed : VendorContractSnapshot → ContractCommand → VendorContractSnapshot
reviewed v c = record v {
  prior_state_before_termination_review = prior_of v.state;
  state = VendorContractState.termination_review;
  version = v.version + 1;
  updated_at = c.at;
}

review_termination-ok :
    (v : VendorContractSnapshot) (c : ContractCommand) (m : ContractMutation)
    → (review_termination v c).1 ≡ ok m
    → (review_termination v c).0 ≡ reviewed v c
unfolding review_termination
review_termination-ok v c m h =
    let (moved, left) =
      past-ok
        (contract_guard v c (
            VendorContractState.active ∷ VendorContractState.change_pending
            ∷ VendorContractState.performance_complete ∷ [])
          >> (require_authority c.actor (ContractAuthority.director ∷ [])
              >> contract_text c.reason "CONTRACT_TERMINATION_REASON_REQUIRED"))
        v _ h in
    left
    ∙ contract_transition-ok (record v { prior_state_before_termination_review = prior_of v.state })
        c VendorContractState.termination_review "EVT-CONTRACT-REVIEW-TERMINATION"
        ContractScopeObligation.nothing_due m moved

-- The value that continuing leaves.
abbrev continued : VendorContractSnapshot → ContractCommand → VendorContractSnapshot
continued v c = record v {
  prior_state_before_termination_review = none;
  version = v.version + 2;
  updated_at = c.at;
}

return_to-reviewed :
    (v : VendorContractSnapshot) (c₁ c₂ : ContractCommand) (o : Option PriorState)
    (m : ContractMutation)
    → prior_of v.state ≡ o
    → (return_to (reviewed v c₁) c₂ o).1 ≡ ok m
    → (return_to (reviewed v c₁) c₂ o).0 ≡ continued v c₂
return_to-reviewed v c₁ c₂ none m e h = absurd (cc h)
return_to-reviewed v c₁ c₂ (some prior) m e h =
    let back = state_of_prior-prior_of v.state prior e in
    let cleared = record (reviewed v c₁) { prior_state_before_termination_review = none } in
    let numbers : v.version + 1 + 1 ≡ v.version + 2 = omega arith in
    contract_transition-ok cleared c₂ (state_of_prior prior) "EVT-CONTRACT-CONTINUE"
      ContractScopeObligation.nothing_due m h
    ∙ ap (λ s. record (continued v c₂) { state = s; version = v.version + 1 + 1 }) back
    ∙ ap (λ n. record (continued v c₂) { version = n }) numbers

-- A contract that is continued after a review of its termination is as it was before the review, but
-- for its version, which two mutations raised, its time and its prior state, which is cleared.
pub continue_after_review-review_termination :
    (v : VendorContractSnapshot) (c₁ c₂ : ContractCommand) (remedy : Bool)
    (m₁ m₂ : ContractMutation)
    → (review_termination v c₁).1 ≡ ok m₁
    → (continue_after_review (review_termination v c₁).0 c₂ remedy).1 ≡ ok m₂
    → (continue_after_review (review_termination v c₁).0 c₂ remedy).0 ≡ record v {
      prior_state_before_termination_review = none;
      version = v.version + 2;
      updated_at = c₂.at;
    }
unfolding continue_after_review
continue_after_review-review_termination v c₁ c₂ remedy m₁ m₂ h₁ h₂ =
    let first = review_termination-ok v c₁ m₁ h₁ in
    let (moved, left) =
      past-ok
        (contract_guard (reviewed v c₁) c₂ (VendorContractState.termination_review ∷ [])
          >> (require_authority c₂.actor (ContractAuthority.policy_approver ∷ [])
              >> (contract_text c₂.reason "CONTRACT_CONTINUE_REASON_REQUIRED"
                  >> fail_if (not remedy) "CONTRACT_REMEDY_DECISION_REQUIRED")))
        (reviewed v c₁) (return_to (reviewed v c₁) c₂ (prior_of v.state)) (rw first at h₂) in
    rw first (left ∙ return_to-reviewed v c₁ c₂ (prior_of v.state) m₂ refl moved)
