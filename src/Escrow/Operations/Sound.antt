-- ===== src/Escrow/Operations/Sound.antt =====
-- The well-formedness of an escrow across an operation, whether that returns, raises or faults.
use sdk_reference.Prelude.{String, Option, arith}
use sdk_reference.Prelude.Int.{ℤ, int_laws}
use sdk_reference.Json.{Object}
use sdk_reference.Escrow.{Claim, Dispute, remaining}
use sdk_reference.Escrow.Cell.{Cell, Moment}
use sdk_reference.Escrow.Cell.Sound.{
  IsSound, release_funds-IsSound, resolve_and_require_active-IsSound,
}
use sdk_reference.Escrow.Operations.{
  bind_payee, bind_op, release_commit, release_op, reclaim_commit, reclaim_op, claim_commit,
  claim_op, dispute_commit, dispute_op,
}
use sdk_reference.Escrow.Operations.Checks.{
  Bindable, Releasable, Reclaimable, Claimable, Disputable,
}
use sdk_reference.Escrow.Operations.Frame.{
  after, bind_op-keeps, release_op-keeps, reclaim_op-keeps, claim_op-keeps, dispute_op-keeps,
}

module _ (party : String) (c : Cell) (s : IsSound c.esc) where
  bind_payee-IsSound : (b : String × Option ℤ) → Bindable party c.esc → IsSound (bind_payee b c).esc
  unfolding bind_payee remaining
  bind_payee-IsSound (payee, window) h = ground (arith, s.shape)

  release_commit-IsSound :
      (op_ref : String) (amount : ℤ) (payee : String)
      → Releasable party c.esc amount payee
      → IsSound (release_commit op_ref (amount, payee) c).esc
  unfolding release_commit
  release_commit-IsSound op_ref amount payee h =
      release_funds-IsSound amount _ h.positive (unfold remaining in h.covered)
        (ground (arith, s.shape)) (ground (arith, s.shape)) (ground (arith, s.shape)) s.released
        s.reclaimed

  reclaim_commit-IsSound :
      (op_ref : String) (amount : ℤ)
      → Reclaimable party c.esc amount
      → IsSound (reclaim_commit op_ref amount c).esc
  unfolding reclaim_commit remaining
  reclaim_commit-IsSound op_ref amount h = grind (int_laws, s.shape, s.reclaimed)

  claim_commit-IsSound : (k : Claim) → Claimable party c.esc k → IsSound (claim_commit k c).esc
  unfolding claim_commit remaining
  claim_commit-IsSound k h = ground (arith, s.shape)

  dispute_commit-IsSound : (d : Dispute) → Disputable party c.esc → IsSound (dispute_commit d c).esc
  unfolding dispute_commit remaining
  dispute_commit-IsSound d h = ground (arith, s.shape)

abbrev SoundCell : Cell → Type 0
SoundCell c = IsSound c.esc

module _ (at : Moment) (party : String) (params : Object) (c : Cell) (s : IsSound c.esc) where
  after-IsSound : IsSound (after at c).esc
  after-IsSound = resolve_and_require_active-IsSound at.now c s

  pub bind_op-IsSound : IsSound (bind_op at party params c).1.esc
  bind_op-IsSound =
      bind_op-keeps at party params c SoundCell after-IsSound
        (bind_payee-IsSound party (after at c) after-IsSound)

  pub release_op-IsSound : (op_ref : String) → IsSound (release_op at party op_ref params c).1.esc
  release_op-IsSound op_ref =
      release_op-keeps at party params c SoundCell after-IsSound op_ref
        (release_commit-IsSound party (after at c) after-IsSound op_ref)

  pub reclaim_op-IsSound : (op_ref : String) → IsSound (reclaim_op at party op_ref params c).1.esc
  reclaim_op-IsSound op_ref =
      reclaim_op-keeps at party params c SoundCell after-IsSound op_ref
        (reclaim_commit-IsSound party (after at c) after-IsSound op_ref)

  pub claim_op-IsSound : IsSound (claim_op at party params c).1.esc
  claim_op-IsSound =
      claim_op-keeps at party params c SoundCell after-IsSound
        (claim_commit-IsSound party (after at c) after-IsSound)

  pub dispute_op-IsSound : IsSound (dispute_op at party params c).1.esc
  dispute_op-IsSound =
      dispute_op-keeps at party params c SoundCell after-IsSound
        (dispute_commit-IsSound party (after at c) after-IsSound)
