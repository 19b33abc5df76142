-- ===== src/Escrow/Cell/Sound.antt =====
-- The well-formedness of an escrow, and the resolution of time.
use sdk_reference.Prelude.{String, ◌≡◌, refl, Bool, true, false, Option, none, some, arith}
use sdk_reference.Prelude.Int.{ℤ, pos, ◌≤ℤ◌, ◌<ℤ◌, int_laws}
use sdk_reference.Escrow.{
  is_claimed, EscrowState, opened, claimed, disputed, closed, Claim, Dispute, Escrow, remaining,
}
use sdk_reference.Exec.{ok}
use sdk_reference.Escrow.Cell.{
  Cell, release_funds, auto_release, auto_reclaim_expiry, resolve_claim, resolve_expiry,
  effective_state, resolve_and_require_active,
}

-- A pending claim is positive and covered by the remainder.
abbrev pub IsCovered : Claim → ℤ → Type 0
IsCovered k rest = (pos 0 <ℤ k.amount_cu) × (k.amount_cu ≤ℤ rest)

-- What each state says of the claim, the dispute, the payee, the expiry flag and the remainder.
abbrev pub Shape : EscrowState → Option Claim → Option Dispute → Option String → Bool → ℤ → Type 0
Shape opened none none payee false rest = pos 0 <ℤ rest
Shape claimed (some k) none (some payee) false rest = IsCovered k rest
Shape disputed (some k) (some d) (some payee) false rest = IsCovered k rest
Shape closed none none payee expired rest = rest ≡ pos 0
Shape _ _ _ _ _ _ = ⊥

pub record IsSound (e : Escrow) : Type 0 where
  pub released : pos 0 ≤ℤ e.released_cu
  pub reclaimed : pos 0 ≤ℤ e.reclaimed_cu
  pub unsettled : e.had_settlement ≡ false → e.released_cu ≡ pos 0
  pub shape : Shape e.state e.claim e.dispute e.payee_id e.expired (remaining e)

pub release_funds-IsSound :
    (amount : ℤ) (e : Escrow)
    → pos 0 <ℤ amount
    → amount ≤ℤ remaining e
    → e.claim ≡ none
    → e.dispute ≡ none
    → e.expired ≡ false
    → pos 0 ≤ℤ e.released_cu
    → pos 0 ≤ℤ e.reclaimed_cu
    → IsSound (release_funds amount e)
unfolding release_funds remaining
release_funds-IsSound amount e p h k d x r c = record {
  released = grind int_laws;
  reclaimed = c;
  unsettled = λ s. cc;
  shape = grind int_laws;
}

-- A sound escrow passes the two asserts of `_auto_release`.
pub resolve_claim_ok : (now : ℤ) (c : Cell) → IsSound c.esc → (resolve_claim now c).0 ≡ ok tt
unfolding resolve_claim auto_release
resolve_claim_ok now c s = ground (arith, s.shape)

auto_release-IsSound :
    (k : Option Claim) (payee : Option String) (c : Cell)
    → c.esc.claim ≡ k
    → is_claimed c.esc.state ≡ true
    → IsSound c.esc
    → IsSound (auto_release k payee c).1.esc
unfolding auto_release
auto_release-IsSound none payee c e h s = s
auto_release-IsSound (some k) none c e h s = s
auto_release-IsSound (some k) (some payee) c e h s =
    release_funds-IsSound k.amount_cu (record c.esc { claim = none }) (ground (arith, s.shape))
      (unfold remaining in ground (arith, s.shape)) refl (ground (arith, s.shape))
      (ground (arith, s.shape)) s.released s.reclaimed

pub resolve_claim-IsSound :
    (now : ℤ) (c : Cell) → IsSound c.esc → IsSound (resolve_claim now c).1.esc
unfolding resolve_claim
resolve_claim-IsSound now c s =
    ground (arith, auto_release-IsSound c.esc.claim c.esc.payee_id c refl)

pub resolve_expiry-IsSound :
    (now : ℤ) (c : Cell) → IsSound c.esc → IsSound (resolve_expiry now c).1.esc
unfolding resolve_expiry auto_reclaim_expiry remaining
resolve_expiry-IsSound now c s = grind (int_laws, s.shape)

-- Resolving time neither raises an error nor fails an assert on a sound escrow.
pub effective_state_ok : (now : ℤ) (c : Cell) → IsSound c.esc → (effective_state now c).0 ≡ ok tt
unfolding effective_state resolve_expiry auto_reclaim_expiry
effective_state_ok now c s = ground (arith, resolve_claim_ok now c s)

-- It keeps a sound escrow sound.
pub effective_state-IsSound :
    (now : ℤ) (c : Cell) → IsSound c.esc → IsSound (effective_state now c).1.esc
unfolding effective_state
effective_state-IsSound now c s = ground (
  arith,
  resolve_claim-IsSound now c s,
  resolve_claim_ok now c s,
  resolve_expiry-IsSound now (resolve_claim now c).1,
)

pub resolve_and_require_active-IsSound :
    (now : ℤ) (c : Cell) → IsSound c.esc → IsSound (resolve_and_require_active now c).1.esc
unfolding resolve_and_require_active
resolve_and_require_active-IsSound now c s =
    ground (arith, effective_state-IsSound now c s, effective_state_ok now c s)

pub remaining_nonneg : (e : Escrow) → IsSound e → pos 0 ≤ℤ remaining e
unfolding remaining
remaining_nonneg e s = ground (arith, s.shape)
