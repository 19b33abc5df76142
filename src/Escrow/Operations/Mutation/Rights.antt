-- ===== src/Escrow/Operations/Mutation/Rights.antt =====
-- Who may change an escrow, and when.
use sdk_reference.Prelude.{String, ◌≡◌, refl, ◌⊎◌, inl, inr, Option}
use sdk_reference.Prelude.Int.{ℤ}
use sdk_reference.Json.{Object}
use sdk_reference.Escrow.{Claim, Dispute}
use sdk_reference.Escrow.Cell.{Cell, Moment}
use sdk_reference.Escrow.Operations.{
  bind_payee, release_commit, reclaim_commit, claim_commit, dispute_commit,
}
use sdk_reference.Escrow.Operations.Checks.{
  Bindable, Releasable, Reclaimable, Claimable, Disputable,
}
use sdk_reference.Escrow.Operations.Frame.{
  after, bind_op-keeps, release_op-keeps, reclaim_op-keeps, claim_op-keeps, dispute_op-keeps,
}
use sdk_reference.Escrow.Operations.Mutation.{
  Mutation, binding, releasing, reclaiming, claiming, disputing, operation,
}

-- The conditions under which an operation may write `d` over `c`, and what it writes.
pub data Permitted (party op_ref : String) (c : Cell) : Mutation → Cell → Type 0 where
  bound :
      (b : String × Option ℤ)
      → Bindable party c.esc
      → Permitted party op_ref c binding (bind_payee b c)
  released :
      (n : ℤ) (payee : String)
      → Releasable party c.esc n payee
      → Permitted party op_ref c releasing (release_commit op_ref (n, payee) c)
  reclaimed :
      (n : ℤ)
      → Reclaimable party c.esc n
      → Permitted party op_ref c reclaiming (reclaim_commit op_ref n c)
  claimed_by :
      (k : Claim) → Claimable party c.esc k → Permitted party op_ref c claiming (claim_commit k c)
  disputed_by :
      (d : Dispute)
      → Disputable party c.esc
      → Permitted party op_ref c disputing (dispute_commit d c)

module _ (at : Moment) (party : String) (params : Object) (op_ref : String) (c : Cell) where
  abbrev pub Explained : Mutation → Cell → Type 0
  Explained m d = (d ≡ after at c) ⊎ Permitted party op_ref (after at c) m d

  -- Whatever the request: an operation leaves the cell either as the resolution of time leaves it, or
  -- it writes once, its whole effect, and then its conditions hold of the escrow as time left it: a
  -- bind is the buyer's, on an unbound escrow; a release the buyer's, to the bound payee if any, of
  -- a positive amount that the remainder covers and that is not below a pending claim; a reclaim the
  -- buyer's, on an open escrow that is unbound or has seen a settlement; a claim the payee's, on an
  -- open escrow; a dispute the buyer's, on a claimed one.
  pub operation-Permitted : (m : Mutation) → Explained m (operation m at party params op_ref c).1
  operation-Permitted binding =
      bind_op-keeps at party params c (Explained binding) (inl refl) (λ b h. inr (bound b h))
  operation-Permitted releasing =
      release_op-keeps at party params c (Explained releasing) (inl refl) op_ref
        (λ n payee h. inr (released n payee h))
  operation-Permitted reclaiming =
      reclaim_op-keeps at party params c (Explained reclaiming) (inl refl) op_ref
        (λ n h. inr (reclaimed n h))
  operation-Permitted claiming =
      claim_op-keeps at party params c (Explained claiming) (inl refl) (λ k h. inr (claimed_by k h))
  operation-Permitted disputing =
      dispute_op-keeps at party params c (Explained disputing) (inl refl)
        (λ d h. inr (disputed_by d h))
