-- ===== src/Escrow/Operations/Solvent.antt =====
-- The accounts while an operation runs.
use Prim.Native.String.{◌++◌}
use sdk_reference.Prelude.{String, arith}
use sdk_reference.Prelude.Int.{ℤ}
use sdk_reference.Json.{Object}
use sdk_reference.Escrow.{remaining}
use sdk_reference.Escrow.Ledger.Laws.{IsSolvent, payout-IsSolvent}
use sdk_reference.Escrow.Cell.{Cell, Moment, auto_release, auto_reclaim_expiry, effective_state}
use sdk_reference.Escrow.Cell.Sound.{IsSound, effective_state-IsSound}
use sdk_reference.Escrow.Cell.Steps.{effective_state-keeps, resolve_and_require_active-state}
use sdk_reference.Escrow.Operations.{
  bind_payee, bind_op, release_commit, release_op, reclaim_commit, reclaim_op, claim_commit,
  claim_op, dispute_commit, dispute_op,
}
use sdk_reference.Escrow.Operations.Frame.{
  after, bind_op-keeps, release_op-keeps, reclaim_op-keeps, claim_op-keeps, dispute_op-keeps,
}
use sdk_reference.Escrow.Operations.Worth.{reclaim_nonneg}

abbrev SolventCell : Cell → Type 0
SolventCell c = IsSolvent c.ledger

pub effective_state-IsSolvent :
    (now : ℤ) (c : Cell)
    → IsSound c.esc
    → IsSolvent c.ledger
    → IsSolvent (effective_state now c).1.ledger
unfolding auto_release auto_reclaim_expiry
effective_state-IsSolvent now c s h =
    effective_state-keeps now c s SolventCell h
      (λ k payee due.
        payout-IsSolvent c.esc.escrow_id ("auto_release:" ++ k.task_id) payee k.amount_cu c.ledger
          (omega (arith, due.positive)) h)
      (λ d e held sd over. ground (
        arith,
        held,
        over.positive,
        payout-IsSolvent d.esc.escrow_id "expiry_reclaim" d.esc.buyer_id (remaining d.esc) d.ledger,
      ))

module _ (at : Moment) (party : String) (params : Object) (c : Cell) (s : IsSound c.esc)
    (h : IsSolvent c.ledger) where
  after-IsSolvent : IsSolvent (after at c).ledger
  after-IsSolvent =
      rw (resolve_and_require_active-state at.now c s) (effective_state-IsSolvent at.now c s h)

  after-IsSound : IsSound (after at c).esc
  after-IsSound =
      rw (resolve_and_require_active-state at.now c s) (effective_state-IsSound at.now c s)

  pub bind_op-IsSolvent : IsSolvent (bind_op at party params c).1.ledger
  unfolding bind_payee
  bind_op-IsSolvent =
      bind_op-keeps at party params c SolventCell after-IsSolvent (λ b _. after-IsSolvent)

  pub release_op-IsSolvent :
      (op_ref : String) → IsSolvent (release_op at party op_ref params c).1.ledger
  unfolding release_commit
  release_op-IsSolvent op_ref =
      release_op-keeps at party params c SolventCell after-IsSolvent op_ref (λ n payee k.
        payout-IsSolvent (after at c).esc.escrow_id ("release:" ++ op_ref) payee n
          (after at c).ledger (omega (arith, k.positive)) after-IsSolvent)

  pub reclaim_op-IsSolvent :
      (op_ref : String) → IsSolvent (reclaim_op at party op_ref params c).1.ledger
  unfolding reclaim_commit
  reclaim_op-IsSolvent op_ref =
      reclaim_op-keeps at party params c SolventCell after-IsSolvent op_ref (λ n k. ground (
        arith,
        after-IsSolvent,
        payout-IsSolvent (after at c).esc.escrow_id ("reclaim:" ++ op_ref) (after at c).esc.buyer_id
            n (after at c).ledger (reclaim_nonneg party (after at c).esc n after-IsSound k)
            after-IsSolvent,
      ))

  pub claim_op-IsSolvent : IsSolvent (claim_op at party params c).1.ledger
  unfolding claim_commit
  claim_op-IsSolvent =
      claim_op-keeps at party params c SolventCell after-IsSolvent (λ k _. after-IsSolvent)

  pub dispute_op-IsSolvent : IsSolvent (dispute_op at party params c).1.ledger
  unfolding dispute_commit
  dispute_op-IsSolvent =
      dispute_op-keeps at party params c SolventCell after-IsSolvent (λ d _. after-IsSolvent)
