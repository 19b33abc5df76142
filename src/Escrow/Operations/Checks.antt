-- ===== src/Escrow/Operations/Checks.antt =====
-- What the guards of an operation establish when they all pass.
use sdk_reference.Prelude.{String, ◌≡◌, true, false, ◌||◌, Option, none, some, ◌==◌, ◌⊎◌, arith}
use sdk_reference.Prelude.Int.{ℤ, pos, ◌≤ℤ◌, ◌<ℤ◌}
use sdk_reference.Json.{Object}
use sdk_reference.Exec.{ok}
use sdk_reference.Escrow.{opened, claimed, is_open, is_claimed, Claim, Dispute, Escrow, remaining}
use sdk_reference.Escrow.Cell.{
  Moment, is_payee, require_buyer, require_payee, require_positive_amount,
}
use sdk_reference.Escrow.Operations.{
  bind_checks, release_checks, undercut, other_payee, reclaim_checks, reclaim_amount, claim_checks,
  dispute_checks,
}

-- A pending claim is paid in full or not at all.
abbrev pub Meets : Option Claim → ℤ → Type 0
Meets none amount = Unit
Meets (some k) amount = k.amount_cu ≤ℤ amount

pub record Bindable (party : String) (e : Escrow) : Type 0 where
  pub by_buyer : (party == e.buyer_id) ≡ true
  pub unbound : e.payee_id ≡ none

pub record Releasable (party : String) (e : Escrow) (amount : ℤ) (payee : String) : Type 0 where
  pub by_buyer : (party == e.buyer_id) ≡ true
  pub active : (is_open e.state || is_claimed e.state) ≡ true
  pub positive : pos 0 <ℤ amount
  pub covered : amount ≤ℤ remaining e
  pub to_payee : other_payee payee e.payee_id ≡ false
  pub no_undercut : e.state ≡ claimed → Meets e.claim amount

pub record Reclaimable (party : String) (e : Escrow) (amount : ℤ) : Type 0 where
  pub by_buyer : (party == e.buyer_id) ≡ true
  pub open_state : e.state ≡ opened
  pub earned : (e.payee_id ≡ none) ⊎ (e.had_settlement ≡ true)
  pub within : (amount ≡ remaining e) ⊎ ((pos 0 <ℤ amount) × (amount ≤ℤ remaining e))

pub record Claimable (party : String) (e : Escrow) (k : Claim) : Type 0 where
  pub by_payee : is_payee party e.payee_id ≡ true
  pub open_state : e.state ≡ opened
  pub positive : pos 0 <ℤ k.amount_cu
  pub covered : k.amount_cu ≤ℤ remaining e

pub record Disputable (party : String) (e : Escrow) : Type 0 where
  pub by_buyer : (party == e.buyer_id) ≡ true
  pub claimed_state : e.state ≡ claimed

module _ (party : String) (params : Object) (e : Escrow) where
  pub bind_checks_ok :
      {b : String × Option ℤ} → bind_checks party params e ≡ ok b → Bindable party e
  unfolding bind_checks require_buyer
  bind_checks_ok h = ground arith

  pub release_checks_ok :
      {amount : ℤ} {payee : String}
      → release_checks party params e ≡ ok (amount, payee)
      → Releasable party e amount payee
  unfolding release_checks require_buyer require_positive_amount undercut
  release_checks_ok h = ground arith

  pub reclaim_checks_ok :
      {amount : ℤ} → reclaim_checks party params e ≡ ok amount → Reclaimable party e amount
  unfolding reclaim_checks require_buyer require_positive_amount reclaim_amount
  reclaim_checks_ok h = ground arith

  pub claim_checks_ok :
      (at : Moment) {k : Claim} → claim_checks at party params e ≡ ok k → Claimable party e k
  unfolding claim_checks require_payee require_positive_amount
  claim_checks_ok at h = ground arith

  pub dispute_checks_ok : {d : Dispute} → dispute_checks party params e ≡ ok d → Disputable party e
  unfolding dispute_checks require_buyer
  dispute_checks_ok h = ground arith
