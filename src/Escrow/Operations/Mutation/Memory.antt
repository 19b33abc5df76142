-- ===== src/Escrow/Operations/Mutation/Memory.antt =====
-- What the five operations leave alone in an escrow, sound or not: the cache of outcomes, which only
-- the frame around them writes.
use sdk_reference.Prelude.{String, ◌≡◌}
use sdk_reference.Json.{Object}
use sdk_reference.Exec.{then-keeps}
use sdk_reference.Escrow.Cell.{
  Cell, Moment, release_funds, effective_state, resolve_and_require_active,
}
use sdk_reference.Escrow.Cell.Frame.{effective_state-op_results}
use sdk_reference.Escrow.Operations.{
  bind_payee, release_commit, reclaim_commit, claim_commit, dispute_commit,
}
use sdk_reference.Escrow.Operations.Frame.{
  after, bind_op-keeps, release_op-keeps, reclaim_op-keeps, claim_op-keeps, dispute_op-keeps,
}
use sdk_reference.Escrow.Operations.Mutation.{
  Mutation, binding, releasing, reclaiming, claiming, disputing, operation,
}

after-op_results : (at : Moment) (c : Cell) → (after at c).esc.op_results ≡ c.esc.op_results
unfolding resolve_and_require_active
after-op_results at c =
    let same = effective_state-op_results at.now c in
    then-keeps (λ d. d.esc.op_results ≡ c.esc.op_results) (effective_state at.now) _ c same
      (λ u e. same)

module _ (at : Moment) (party : String) (params : Object) (op_ref : String) (c : Cell) where
  abbrev SameResults : Cell → Type 0
  SameResults d = d.esc.op_results ≡ c.esc.op_results

  pub operation-op_results :
      (m : Mutation) → (operation m at party params op_ref c).1.esc.op_results ≡ c.esc.op_results
  unfolding bind_payee release_commit release_funds reclaim_commit claim_commit dispute_commit
  operation-op_results binding =
      let same = after-op_results at c in
      bind_op-keeps at party params c SameResults same (λ b e. same)
  operation-op_results releasing =
      let same = after-op_results at c in
      release_op-keeps at party params c SameResults same op_ref (λ n payee e. same)
  operation-op_results reclaiming =
      let same = after-op_results at c in
      reclaim_op-keeps at party params c SameResults same op_ref (λ n e. same)
  operation-op_results claiming =
      let same = after-op_results at c in
      claim_op-keeps at party params c SameResults same (λ k e. same)
  operation-op_results disputing =
      let same = after-op_results at c in
      dispute_op-keeps at party params c SameResults same (λ d e. same)
