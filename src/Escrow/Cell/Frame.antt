-- ===== src/Escrow/Cell/Frame.antt =====
-- What the resolution of time leaves alone: the identity of the escrow, its cache of outcomes, and
-- the payouts under any other key.
use Prim.Native.String.{◌++◌}
use sdk_reference.Prelude.{
  String, Option, none, some, inl, inr, Bool-cases, ◌≡◌, refl, false, ◌&&◌, ◌==◌, ◌∙◌, arith,
}
use sdk_reference.Prelude.Int.{ℤ}
use sdk_reference.Exec.{then-keeps}
use sdk_reference.Escrow.{Escrow, Claim, is_closed, remaining}
use sdk_reference.Escrow.Ledger.{was_paid}
use sdk_reference.Escrow.Ledger.Laws.{was_paid-payout}
use sdk_reference.Escrow.Cell.{
  Cell, release_funds, auto_release, auto_reclaim_expiry, resolve_claim, resolve_expiry,
  effective_state,
}
use sdk_reference.Escrow.Cell.Sound.{IsSound}
use sdk_reference.Escrow.Cell.Steps.{effective_state-keeps}

pub record SameIdentity (d e : Escrow) : Type 0 where
  pub escrow : d.escrow_id ≡ e.escrow_id
  pub buyer : d.buyer_id ≡ e.buyer_id
  pub payee : d.payee_id ≡ e.payee_id
  pub locked : d.locked_cu ≡ e.locked_cu
  pub cache : d.op_results ≡ e.op_results
  pub dispute : d.dispute ≡ e.dispute

auto_release-was_paid :
    (k : Claim) (payee : String) (c : Cell) (i t : String)
    → (c.esc.escrow_id == i && ("auto_release:" ++ k.task_id) == t) ≡ false
    → was_paid i t (auto_release (some k) (some payee) c).1.ledger.paid ≡ was_paid i t c.ledger.paid
unfolding auto_release
auto_release-was_paid k payee c i t h = rw was_paid-payout (ground arith)

auto_reclaim_expiry-was_paid :
    (c : Cell) (i t : String)
    → (c.esc.escrow_id == i && "expiry_reclaim" == t) ≡ false
    → was_paid i t (auto_reclaim_expiry c).1.ledger.paid ≡ was_paid i t c.ledger.paid
unfolding auto_reclaim_expiry
auto_reclaim_expiry-was_paid c i t h = ground (
  arith,
  was_paid-payout c.esc.escrow_id "expiry_reclaim" c.esc.buyer_id (remaining c.esc) c.ledger i t,
)

module _ (c : Cell) (i t : String) where
  abbrev SamePaid : Cell → Type 0
  SamePaid d =
      (d.esc.escrow_id ≡ c.esc.escrow_id)
      × (was_paid i t d.ledger.paid ≡ was_paid i t c.ledger.paid)

module _ (now : ℤ) (c : Cell) (s : IsSound c.esc) where
  pub effective_state-SameIdentity : SameIdentity (effective_state now c).1.esc c.esc
  unfolding auto_release release_funds auto_reclaim_expiry
  effective_state-SameIdentity =
      effective_state-keeps now c s (λ d. SameIdentity d.esc c.esc) (ground arith)
        (λ k payee due. ground arith) (λ d e p sd over. ground arith)

  -- A key that is neither an automatic release nor the expiry of this escrow.
  pub effective_state-was_paid :
      (i t : String)
      → ((task : String) → (c.esc.escrow_id == i && ("auto_release:" ++ task) == t) ≡ false)
      → (c.esc.escrow_id == i && "expiry_reclaim" == t) ≡ false
      → was_paid i t (effective_state now c).1.ledger.paid ≡ was_paid i t c.ledger.paid
  effective_state-was_paid i t auto expiry =
      (effective_state-keeps now c s (SamePaid c i t) (refl, refl)
        (λ k payee due. (
          unfold auto_release release_funds in refl,
          auto_release-was_paid k payee c i t (auto k.task_id),
        ))
        (λ d e same sd over. (
          unfold auto_reclaim_expiry in same.0,
          auto_reclaim_expiry-was_paid d i t (rw same.0 expiry) ∙ same.1,
        ))).1

-- The cache of outcomes, whether the escrow is sound or not.
auto_release-op_results :
    (k : Option Claim) (payee : Option String) (c : Cell)
    → (auto_release k payee c).1.esc.op_results ≡ c.esc.op_results
unfolding auto_release release_funds
auto_release-op_results none payee c = refl
auto_release-op_results (some k) none c = refl
auto_release-op_results (some k) (some payee) c = refl

resolve_claim-op_results :
    (now : ℤ) (c : Cell) → (resolve_claim now c).1.esc.op_results ≡ c.esc.op_results
unfolding resolve_claim
resolve_claim-op_results now c =
    ground (arith, auto_release-op_results c.esc.claim c.esc.payee_id c)

resolve_expiry-op_results :
    (now : ℤ) (c : Cell) → (resolve_expiry now c).1.esc.op_results ≡ c.esc.op_results
unfolding resolve_expiry auto_reclaim_expiry
resolve_expiry-op_results now c = ground arith

pub effective_state-op_results :
    (now : ℤ) (c : Cell) → (effective_state now c).1.esc.op_results ≡ c.esc.op_results
unfolding effective_state
effective_state-op_results now c = elim (Bool-cases (is_closed c.esc.state)) [
  | inl w ↦ rw w refl
  | inr w ↦ rw w (
      then-keeps (λ d. d.esc.op_results ≡ c.esc.op_results) (resolve_claim now)
        (λ _. resolve_expiry now) c (resolve_claim-op_results now c)
        (λ u e.
          resolve_expiry-op_results now (resolve_claim now c).1 ∙ resolve_claim-op_results now c))
]
