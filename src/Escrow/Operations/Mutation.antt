-- ===== src/Escrow/Operations/Mutation.antt =====
-- The five operations on one escrow as one: what holds of all of them.
pub mod Rights
pub mod Freeze
pub mod Memory
use Prim.Native.String.{◌++◌}
use sdk_reference.Prelude.{String, ◌≡◌, true, false, ◌==◌, ◌||◌, Option, none}
use sdk_reference.Prelude.Int.{ℤ, pos, ◌≤ℤ◌}
use sdk_reference.Json.{Object}
use sdk_reference.Exec.{Exec}
use sdk_reference.Exec.Worded.{Worded}
use sdk_reference.Escrow.Ledger.{was_paid}
use sdk_reference.Escrow.Cell.{Cell, Moment}
use sdk_reference.Escrow.Cell.Sound.{IsSound}
use sdk_reference.Escrow.Cell.Worth.{worth, FreshTask, FreshExpiry}
use sdk_reference.Escrow.Operations.{bind_op, release_op, reclaim_op, claim_op, dispute_op}
use sdk_reference.Escrow.Operations.Worded.{
  bind_op-Worded, release_op-Worded, reclaim_op-Worded, claim_op-Worded, dispute_op-Worded,
}
use sdk_reference.Escrow.Operations.Worth.{
  bind_op-worth, release_op-worth, reclaim_op-worth, claim_op-worth, dispute_op-worth,
}

-- The operations that are cached under their `op_ref`.
pub data Mutation : Type 0 where
  binding releasing reclaiming claiming disputing : Mutation

abbrev pub operation : Mutation → Moment → String → Object → String → Exec Cell Object
operation binding at party params op_ref = bind_op at party params
operation releasing at party params op_ref = release_op at party op_ref params
operation reclaiming at party params op_ref = reclaim_op at party op_ref params
operation claiming at party params op_ref = claim_op at party params
operation disputing at party params op_ref = dispute_op at party params

module _ (at : Moment) (party : String) (params : Object) (op_ref : String) (c : Cell) where
  pub operation-Worded : (m : Mutation) → Worded (operation m at party params op_ref c).0
  operation-Worded binding = bind_op-Worded at party params c
  operation-Worded releasing = release_op-Worded at party params c op_ref
  operation-Worded reclaiming = reclaim_op-Worded at party params c op_ref
  operation-Worded claiming = claim_op-Worded at party params c
  operation-Worded disputing = dispute_op-Worded at party params c

-- The ledger key that an operation pays under has not been used.
abbrev pub FreshKey : Mutation → String → Cell → Type 0
FreshKey releasing op_ref c = was_paid c.esc.escrow_id ("release:" ++ op_ref) c.ledger.paid ≡ false
FreshKey reclaiming op_ref c = was_paid c.esc.escrow_id ("reclaim:" ++ op_ref) c.ledger.paid ≡ false
FreshKey _ op_ref c = Unit

-- Whatever the operation, its parameters and its outcome, and whatever time resolves first: the
-- accounts and the escrow's remainder hold together exactly the money that they held before, if the
-- escrow is sound and the keys of the payouts that may happen are new in the ledger.
pub operation-worth :
    (m : Mutation) (at : Moment) (party : String) (params : Object) (op_ref : String) (c : Cell)
    → IsSound c.esc
    → FreshTask c.esc.claim c.esc.escrow_id c.ledger.paid
    → FreshExpiry c
    → FreshKey m op_ref c
    → worth (operation m at party params op_ref c).1 ≡ worth c
operation-worth binding at party params op_ref c s task expiry key =
    bind_op-worth at party params c s task expiry
operation-worth releasing at party params op_ref c s task expiry key =
    release_op-worth at party params c s task expiry op_ref key
operation-worth reclaiming at party params op_ref c s task expiry key =
    reclaim_op-worth at party params c s task expiry op_ref key
operation-worth claiming at party params op_ref c s task expiry key =
    claim_op-worth at party params c s task expiry
operation-worth disputing at party params op_ref c s task expiry key =
    dispute_op-worth at party params c s task expiry
