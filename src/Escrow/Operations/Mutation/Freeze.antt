-- ===== src/Escrow/Operations/Mutation/Freeze.antt =====
-- The states in which the money of an escrow no longer moves.
use sdk_reference.Prelude.{String, ◌≡◌, refl, ◌∙◌, inl, inr, some, arith}
use sdk_reference.Prelude.Int.{ℤ, ◌≤ℤ◌}
use sdk_reference.Json.{Object}
use sdk_reference.Escrow.{closed, disputed, claimed, Claim}
use sdk_reference.Escrow.Cell.{Cell, Moment, effective_state, resolve_claim, resolve_expiry}
use sdk_reference.Escrow.Cell.Sound.{IsSound}
use sdk_reference.Escrow.Cell.Steps.{resolve_and_require_active-state}
use sdk_reference.Escrow.Cell.Timeline.{effective_state_past_window}
use sdk_reference.Escrow.Operations.{bind_payee}
use sdk_reference.Escrow.Operations.Frame.{after}
use sdk_reference.Escrow.Operations.Mutation.{Mutation, disputing, operation}
use sdk_reference.Escrow.Operations.Mutation.Rights.{
  Permitted, bound, released, reclaimed, claimed_by, disputed_by, operation-Permitted,
}

-- Neither a closed nor a disputed escrow is touched by time.
effective_state-closed : (now : ℤ) (c : Cell) → c.esc.state ≡ closed → (effective_state now c).1 ≡ c
unfolding effective_state
effective_state-closed now c h = rw h refl

effective_state-disputed :
    (now : ℤ) (c : Cell) → c.esc.state ≡ disputed → (effective_state now c).1 ≡ c
unfolding effective_state resolve_claim resolve_expiry
effective_state-disputed now c h = rw h refl

refused :
    (party op_ref : String) (c : Cell) (m : Mutation) (d : Cell)
    → IsSound c.esc
    → c.esc.state ≡ disputed
    → ¬ Permitted party op_ref c m d
refused party op_ref c _ _ s h (bound b k) = ground (arith, s.shape, k.unbound)
refused party op_ref c _ _ s h (released n payee k) = ground (arith, k.active)
refused party op_ref c _ _ s h (reclaimed n k) = ground (arith, k.open_state)
refused party op_ref c _ _ s h (claimed_by n k) = ground (arith, k.open_state)
refused party op_ref c _ _ s h (disputed_by n k) = ground (arith, k.claimed_state)

-- The money of a cell: what the escrow has paid out and taken back, its state and the ledger.
pub record SameFunds (d c : Cell) : Type 0 where
  pub ledger : d.ledger ≡ c.ledger
  pub state : d.esc.state ≡ c.esc.state
  pub released : d.esc.released_cu ≡ c.esc.released_cu
  pub reclaimed : d.esc.reclaimed_cu ≡ c.esc.reclaimed_cu

-- On a closed escrow nothing is permitted but a late bind.
settled :
    (party op_ref : String) (c : Cell) (m : Mutation) (d : Cell)
    → c.esc.state ≡ closed
    → Permitted party op_ref c m d
    → SameFunds d c
unfolding bind_payee
settled party op_ref c _ _ h (bound b k) = record {
  ledger = refl;
  state = refl;
  released = refl;
  reclaimed = refl;
}
settled party op_ref c _ _ h (released n payee k) = absurd (ground (arith, k.active))
settled party op_ref c _ _ h (reclaimed n k) = absurd (ground (arith, k.open_state))
settled party op_ref c _ _ h (claimed_by n k) = absurd (ground (arith, k.open_state))
settled party op_ref c _ _ h (disputed_by n k) = absurd (ground (arith, k.claimed_state))

module _ (m : Mutation) (at : Moment) (party : String) (params : Object) (op_ref : String)
    (c : Cell) (s : IsSound c.esc) where
  -- A sound escrow under dispute is frozen: no operation of either party changes anything of it or of the
  -- ledger, at whatever time.
  pub disputed_frozen : c.esc.state ≡ disputed → (operation m at party params op_ref c).1 ≡ c
  disputed_frozen h = elim (operation-Permitted at party params op_ref c m) [
    | inl e ↦ e ∙ kept
    | inr p ↦ absurd (refused party op_ref (after at c) m _ (rw kept s) (rw kept h) p)
  ]
    where
      kept : after at c ≡ c
      kept = resolve_and_require_active-state at.now c s ∙ effective_state-disputed at.now c h

  -- A sound escrow that is closed stays closed, and no operation moves money from it or changes what it counts as
  -- released and reclaimed.
  pub closed_final : c.esc.state ≡ closed → SameFunds (operation m at party params op_ref c).1 c
  closed_final h = elim (operation-Permitted at party params op_ref c m) [
    | inl e ↦
        rw (e, kept) (record { ledger = refl; state = refl; released = refl; reclaimed = refl })
    | inr p ↦
        rw kept at (
          settled party op_ref (after at c) m (operation m at party params op_ref c).1 (rw kept h)
            p)
  ]
    where
      kept : after at c ≡ c
      kept = resolve_and_require_active-state at.now c s ∙ effective_state-closed at.now c h

-- What a permitted dispute demands.
on_claimed :
    (party op_ref : String) (c d : Cell)
    → Permitted party op_ref c disputing d
    → c.esc.state ≡ claimed
on_claimed party op_ref c _ (disputed_by d k) = k.claimed_state

-- A dispute that arrives when the claim's window is over does nothing: of a sound escrow and the
-- ledger it leaves what the resolution of time makes of them.
pub dispute_too_late :
    (at : Moment) (party : String) (params : Object) (op_ref : String) (c : Cell) (k : Claim)
    → IsSound c.esc
    → c.esc.claim ≡ some k
    → k.window_ends_ms ≤ℤ at.now
    → (operation disputing at party params op_ref c).1 ≡ (effective_state at.now c).1
dispute_too_late at party params op_ref c k s pending over =
    let kept = resolve_and_require_active-state at.now c s in
    elim (operation-Permitted at party params op_ref c disputing) [
      | inl e ↦ e ∙ kept
      | inr p ↦ absurd (
          effective_state_past_window at.now c k s pending over
            (rw kept at (on_claimed party op_ref (after at c) _ p)))
    ]
