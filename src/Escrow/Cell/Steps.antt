-- ===== src/Escrow/Cell/Steps.antt =====
-- The two ways that time changes an escrow, as rules: a property of the cell survives the
-- resolution of time if it survives a due automatic release and a due expiry.
use sdk_reference.Prelude.{
  String, ◌≡◌, refl, true, ◌&&◌, Option, none, some, inl, inr, Bool-cases, arith,
}
use sdk_reference.Prelude.Int.{ℤ, pos, ◌≤ℤ◌, ◌<ℤ◌, leb_ℤ}
use sdk_reference.Escrow.{opened, claimed, is_open, is_claimed, is_closed, Claim, Escrow, remaining}
use sdk_reference.Escrow.Cell.{
  Cell, is_none, window_over, auto_release, auto_reclaim_expiry, resolve_claim, resolve_expiry,
  effective_state, resolve_and_require_active,
}
use sdk_reference.Escrow.Cell.Sound.{
  IsSound, resolve_claim_ok, resolve_claim-IsSound, effective_state_ok,
}

-- An unchallenged claim whose window is over.
pub record IsDue (now : ℤ) (e : Escrow) (k : Claim) (payee : String) : Type 0 where
  pub in_state : e.state ≡ claimed
  pub pending : e.claim ≡ some k
  pub bound : e.payee_id ≡ some payee
  pub over : k.window_ends_ms ≤ℤ now
  pub positive : pos 0 <ℤ k.amount_cu
  pub covered : k.amount_cu ≤ℤ remaining e

-- An open escrow past its lock.
pub record IsOverdue (now : ℤ) (e : Escrow) : Type 0 where
  pub in_state : e.state ≡ opened
  pub over : e.valid_until_ms ≤ℤ now
  pub positive : pos 0 <ℤ remaining e

module _ (now : ℤ) (c : Cell) (s : IsSound c.esc) (P : Cell → Type 0) (h : P c) where
  due :
      (k : Option Claim) (payee : Option String)
      → c.esc.claim ≡ k
      → c.esc.payee_id ≡ payee
      → (is_claimed c.esc.state && window_over now c.esc.claim) ≡ true
      → ((k : Claim) (payee : String)
          → IsDue now c.esc k payee
          → P (auto_release (some k) (some payee) c).1)
      → P (auto_release k payee c).1
  unfolding remaining
  due none payee e p w f = absurd (ground (arith, s.shape))
  due (some k) none e p w f = absurd (ground (arith, s.shape))
  due (some k) (some payee) e p w f = f k payee (ground (arith, s.shape))

  pub resolve_claim-keeps :
      ((k : Claim) (payee : String)
        → IsDue now c.esc k payee
        → P (auto_release (some k) (some payee) c).1)
      → P (resolve_claim now c).1
  unfolding resolve_claim
  resolve_claim-keeps f =
      elim (Bool-cases (is_claimed c.esc.state && window_over now c.esc.claim)) [
        | inl w ↦ rw w (due c.esc.claim c.esc.payee_id refl refl w f)
        | inr w ↦ rw w h
      ]

  pub resolve_expiry-keeps :
      (IsOverdue now c.esc → P (auto_reclaim_expiry c).1) → P (resolve_expiry now c).1
  unfolding resolve_expiry
  resolve_expiry-keeps f =
      elim (Bool-cases (
        is_open c.esc.state
        && is_none c.esc.claim
        && is_none c.esc.dispute
        && leb_ℤ c.esc.valid_until_ms now)) [
          | inl w ↦ rw w (f (unfold remaining in ground (arith, s.shape)))
          | inr w ↦ rw w h
        ]

module _ (now : ℤ) (c : Cell) (s : IsSound c.esc) (P : Cell → Type 0) (h : P c)
    (release : (k : Claim) (payee : String)
      → IsDue now c.esc k payee
      → P (auto_release (some k) (some payee) c).1)
    (expire : (d : Cell)
      → d ≡ (resolve_claim now c).1
      → P d
      → IsSound d.esc
      → IsOverdue now d.esc
      → P (auto_reclaim_expiry d).1) where
  pub effective_state-keeps : P (effective_state now c).1
  unfolding effective_state
  effective_state-keeps = elim (Bool-cases (is_closed c.esc.state)) [
    | inl w ↦ rw w h
    | inr w ↦
        let d = (resolve_claim now c).1 in
        let sound = resolve_claim-IsSound now c s in
        let held = resolve_claim-keeps now c s P h release in
        rw (w, resolve_claim_ok now c s)
          (resolve_expiry-keeps now d sound P held (expire d refl held sound))
  ]

-- The guard after the resolution of time changes nothing more.
pub resolve_and_require_active-state :
    (now : ℤ) (c : Cell)
    → IsSound c.esc
    → (resolve_and_require_active now c).1 ≡ (effective_state now c).1
unfolding resolve_and_require_active
resolve_and_require_active-state now c s = rw (effective_state_ok now c s) (ground arith)
