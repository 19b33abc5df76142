-- ===== src/Escrow/Examples/Cells.antt =====
-- Runs on one escrow and the ledger.
use sdk_reference.Prelude.{◌≡◌, refl, arith}
use sdk_reference.Prelude.Int.{pos, ◌+ℤ◌}
use sdk_reference.Exec.{ok}
use sdk_reference.Escrow.{remaining, new_escrow}
use sdk_reference.Escrow.Ledger.{was_paid}
use sdk_reference.Escrow.Cell.{effective_state}
use sdk_reference.Escrow.Cell.Worth.{worth}
use sdk_reference.Escrow.Cell.Timeline.{
  effective_state-again, Settles, effective_state-Settles, Refunds, effective_state-Refunds,
  effective_state_lost,
}
use sdk_reference.Escrow.Operations.Mutation.{releasing, disputing, operation, operation-worth}
use sdk_reference.Escrow.Operations.Mutation.Rights.{Explained, operation-Permitted}
use sdk_reference.Escrow.Operations.Mutation.Freeze.{
  disputed_frozen, SameFunds, closed_final, dispute_too_late,
}
use sdk_reference.Escrow.Examples.{
  moment, escrow, pending, claimed_escrow, disputed_escrow, closed_escrow, with_ledger, paid_once,
  release_params, dispute_params, escrow-IsSound, claimed-IsSound, disputed-IsSound, closed-IsSound,
  pending-IsDue, paid_once-IsDue,
}

operation-worth_example :
    worth
      (operation releasing
        (moment (pos 200))
        "buyer"
        release_params
        "op2"
        (with_ledger claimed_escrow)).1
    ≡ worth (with_ledger claimed_escrow)
unfolding was_paid
operation-worth_example =
    operation-worth releasing (moment (pos 200)) "buyer" release_params "op2"
      (with_ledger claimed_escrow) claimed-IsSound refl refl refl

operation-Permitted_example :
    Explained
      (moment (pos 20))
      "buyer"
      release_params
      "op2"
      (with_ledger escrow)
      releasing
      (operation releasing (moment (pos 20)) "buyer" release_params "op2" (with_ledger escrow)).1
operation-Permitted_example =
    operation-Permitted (moment (pos 20)) "buyer" release_params "op2" (with_ledger escrow)
      releasing

effective_state-Settles_example :
    Settles pending "payee"
      (with_ledger claimed_escrow)
      (effective_state (pos 200) (with_ledger claimed_escrow)).1
unfolding new_escrow was_paid
effective_state-Settles_example =
    effective_state-Settles (pos 200) (with_ledger claimed_escrow) pending "payee" pending-IsDue
      (omega arith) refl

effective_state-Refunds_example :
    Refunds (with_ledger escrow) (effective_state (pos 1000) (with_ledger escrow)).1
unfolding new_escrow was_paid
effective_state-Refunds_example =
    effective_state-Refunds (pos 1000) (with_ledger escrow) escrow-IsSound refl (omega arith) refl

effective_state_lost_example :
    let d = (effective_state (pos 200) paid_once).1 in
    (d.ledger ≡ paid_once.ledger) × (remaining d.esc +ℤ pos 25 ≡ remaining paid_once.esc)
unfolding new_escrow was_paid
effective_state_lost_example =
    effective_state_lost (pos 200) paid_once pending "payee" paid_once-IsDue (omega arith) refl

-- Past its expiry, but inside the claim's window.
effective_state-again_example :
    let c' = (effective_state (pos 2000) (with_ledger claimed_escrow)).1 in
    effective_state (pos 2000) c' ≡ (ok tt, c')
effective_state-again_example =
    effective_state-again (pos 2000) (with_ledger claimed_escrow) claimed-IsSound

disputed_frozen_example :
    (operation releasing
      (moment (pos 2000))
      "buyer"
      release_params
      "op2"
      (with_ledger disputed_escrow)).1
    ≡ with_ledger disputed_escrow
disputed_frozen_example =
    disputed_frozen releasing (moment (pos 2000)) "buyer" release_params "op2"
      (with_ledger disputed_escrow) disputed-IsSound refl

closed_final_example :
    SameFunds
      (operation releasing
        (moment (pos 2000))
        "buyer"
        release_params
        "op2"
        (with_ledger closed_escrow)).1
      (with_ledger closed_escrow)
closed_final_example =
    closed_final releasing (moment (pos 2000)) "buyer" release_params "op2"
      (with_ledger closed_escrow) closed-IsSound refl

dispute_too_late_example :
    (operation disputing
      (moment (pos 150))
      "buyer"
      dispute_params
      "op4"
      (with_ledger claimed_escrow)).1
    ≡ (effective_state (pos 150) (with_ledger claimed_escrow)).1
dispute_too_late_example =
    dispute_too_late (moment (pos 150)) "buyer" dispute_params "op4" (with_ledger claimed_escrow)
      pending claimed-IsSound refl (omega arith)
