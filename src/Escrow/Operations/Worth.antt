-- ===== src/Escrow/Operations/Worth.antt =====
-- The money that one escrow and the ledger hold together, across an operation.
use Prim.Native.String.{◌++◌}
use sdk_reference.Prelude.{
  String, ◌≡◌, refl, ◌∙◌, false, if◌then◌else◌, Option, none, eq_iff, arith,
}
use sdk_reference.Prelude.Text.{
  release-ne-auto_release, reclaim-ne-auto_release, release-ne-expiry, reclaim-ne-expiry,
}
use sdk_reference.Prelude.Int.{ℤ, pos, ◌≤ℤ◌, int_laws}
use sdk_reference.Json.{Object}
use sdk_reference.Escrow.{Claim, Dispute, Escrow, remaining, is_claimed}
use sdk_reference.Escrow.Ledger.{was_paid}
use sdk_reference.Escrow.Ledger.Laws.{payout_bound, payout_fresh}
use sdk_reference.Escrow.Cell.{Cell, Moment, effective_state}
use sdk_reference.Escrow.Cell.Sound.{IsSound, effective_state-IsSound}
use sdk_reference.Escrow.Cell.Steps.{resolve_and_require_active-state}
use sdk_reference.Escrow.Cell.Frame.{effective_state-SameIdentity, effective_state-was_paid}
use sdk_reference.Escrow.Cell.Worth.{
  worth, remaining-release_funds, FreshTask, FreshExpiry, effective_state-worth_le,
  effective_state-worth,
}
use sdk_reference.Escrow.Operations.{
  bind_payee, bind_op, release_commit, release_op, reclaim_commit, reclaim_op, claim_commit,
  claim_op, dispute_commit, dispute_op, or_payee,
}
use sdk_reference.Escrow.Operations.Checks.{Releasable, Reclaimable}
use sdk_reference.Escrow.Operations.Frame.{
  after, bind_op-keeps, release_op-keeps, reclaim_op-keeps, claim_op-keeps, dispute_op-keeps,
}

module _ (party op_ref : String) (c : Cell) where
  worth-bind_payee : (b : String × Option ℤ) → worth (bind_payee b c) ≡ worth c
  unfolding bind_payee worth remaining
  worth-bind_payee (payee, window) = refl

  worth-claim_commit : (k : Claim) → worth (claim_commit k c) ≡ worth c
  unfolding claim_commit worth remaining
  worth-claim_commit k = refl

  worth-dispute_commit : (d : Dispute) → worth (dispute_commit d c) ≡ worth c
  unfolding dispute_commit worth remaining
  worth-dispute_commit d = refl

  module _ (n : ℤ) (payee : String) (h : Releasable party c.esc n payee) where
    release_commit-worth_le : worth (release_commit op_ref (n, payee) c) ≤ℤ worth c
    unfolding release_commit worth
    release_commit-worth_le = grind (
      int_laws,
      h.positive,
      remaining-release_funds n c.esc (if is_claimed c.esc.state then none else c.esc.claim)
          (or_payee c.esc.payee_id payee),
      payout_bound c.esc.escrow_id ("release:" ++ op_ref) payee n c.ledger,
    )

    release_commit-worth :
        was_paid c.esc.escrow_id ("release:" ++ op_ref) c.ledger.paid ≡ false
        → worth (release_commit op_ref (n, payee) c) ≡ worth c
    unfolding release_commit worth
    release_commit-worth fresh = grind (
      int_laws,
      remaining-release_funds n c.esc (if is_claimed c.esc.state then none else c.esc.claim)
          (or_payee c.esc.payee_id payee),
      payout_fresh c.esc.escrow_id ("release:" ++ op_ref) payee n c.ledger fresh,
    )

  module _ (n : ℤ) (h : pos 0 ≤ℤ n) where
    reclaim_commit-worth_le : worth (reclaim_commit op_ref n c) ≤ℤ worth c
    unfolding reclaim_commit worth remaining
    reclaim_commit-worth_le =
        grind
          (int_laws, payout_bound c.esc.escrow_id ("reclaim:" ++ op_ref) c.esc.buyer_id n c.ledger)

    reclaim_commit-worth :
        was_paid c.esc.escrow_id ("reclaim:" ++ op_ref) c.ledger.paid ≡ false
        → worth (reclaim_commit op_ref n c) ≡ worth c
    unfolding reclaim_commit worth remaining
    reclaim_commit-worth fresh = grind (
      int_laws,
      payout_fresh c.esc.escrow_id ("reclaim:" ++ op_ref) c.esc.buyer_id n c.ledger fresh,
    )

-- What a reclaim takes is not negative.
pub reclaim_nonneg :
    (party : String) (e : Escrow) (n : ℤ) → IsSound e → Reclaimable party e n → pos 0 ≤ℤ n
unfolding remaining
reclaim_nonneg party e n s h = ground (arith, s.shape)

module _ (at : Moment) (party : String) (params : Object) (c : Cell) (s : IsSound c.esc) where
  after-eq : after at c ≡ (effective_state at.now c).1
  after-eq = resolve_and_require_active-state at.now c s

  after-IsSound : IsSound (after at c).esc
  after-IsSound = rw after-eq (effective_state-IsSound at.now c s)

  after-worth_le : worth (after at c) ≤ℤ worth c
  after-worth_le = rw after-eq (effective_state-worth_le at.now c s)

  abbrev NoGain : Cell → Type 0
  NoGain d = worth d ≤ℤ worth c

  pub bind_op-worth_le : worth (bind_op at party params c).1 ≤ℤ worth c
  bind_op-worth_le =
      bind_op-keeps at party params c NoGain after-worth_le
        (λ b _. rw (worth-bind_payee party "" (after at c) b) after-worth_le)

  pub release_op-worth_le :
      (op_ref : String) → worth (release_op at party op_ref params c).1 ≤ℤ worth c
  release_op-worth_le op_ref =
      release_op-keeps at party params c NoGain after-worth_le op_ref (λ n payee h.
        omega (arith, after-worth_le, release_commit-worth_le party op_ref (after at c) n payee h))

  pub reclaim_op-worth_le :
      (op_ref : String) → worth (reclaim_op at party op_ref params c).1 ≤ℤ worth c
  reclaim_op-worth_le op_ref =
      reclaim_op-keeps at party params c NoGain after-worth_le op_ref (λ n h. omega (
        arith,
        after-worth_le,
        reclaim_commit-worth_le party op_ref (after at c) n
            (reclaim_nonneg party (after at c).esc n after-IsSound h),
      ))

  pub claim_op-worth_le : worth (claim_op at party params c).1 ≤ℤ worth c
  claim_op-worth_le =
      claim_op-keeps at party params c NoGain after-worth_le
        (λ k _. rw (worth-claim_commit party "" (after at c) k) after-worth_le)

  pub dispute_op-worth_le : worth (dispute_op at party params c).1 ≤ℤ worth c
  dispute_op-worth_le =
      dispute_op-keeps at party params c NoGain after-worth_le
        (λ d _. rw (worth-dispute_commit party "" (after at c) d) after-worth_le)

  -- A key that resolving time cannot use is as new afterwards as before.
  still_fresh :
      (key : String)
      → ((task : String) → ¬ (key ≡ "auto_release:" ++ task))
      → ¬ (key ≡ "expiry_reclaim")
      → was_paid c.esc.escrow_id key c.ledger.paid ≡ false
      → was_paid (after at c).esc.escrow_id key (after at c).ledger.paid ≡ false
  still_fresh key auto expiry h =
      rw (after-eq, (effective_state-SameIdentity at.now c s).escrow)
        (effective_state-was_paid at.now c s c.esc.escrow_id key
            (λ task. ground (arith, eq_iff ("auto_release:" ++ task) key, auto task))
            (ground (arith, eq_iff "expiry_reclaim" key, expiry))
          ∙ h)

  module _ (task : FreshTask c.esc.claim c.esc.escrow_id c.ledger.paid)
      (expiry : FreshExpiry c) where
    abbrev Conserves : Cell → Type 0
    Conserves d = worth d ≡ worth c

    after-worth : worth (after at c) ≡ worth c
    after-worth = rw after-eq (effective_state-worth at.now c s task expiry)

    pub bind_op-worth : worth (bind_op at party params c).1 ≡ worth c
    bind_op-worth =
        bind_op-keeps at party params c Conserves after-worth
          (λ b _. worth-bind_payee party "" (after at c) b ∙ after-worth)

    pub release_op-worth :
        (op_ref : String)
        → was_paid c.esc.escrow_id ("release:" ++ op_ref) c.ledger.paid ≡ false
        → worth (release_op at party op_ref params c).1 ≡ worth c
    release_op-worth op_ref fresh =
        release_op-keeps at party params c Conserves after-worth op_ref (λ n payee h.
          release_commit-worth party op_ref (after at c) n payee h (
            still_fresh ("release:" ++ op_ref) (release-ne-auto_release op_ref)
              (release-ne-expiry op_ref) fresh)
          ∙ after-worth)

    pub reclaim_op-worth :
        (op_ref : String)
        → was_paid c.esc.escrow_id ("reclaim:" ++ op_ref) c.ledger.paid ≡ false
        → worth (reclaim_op at party op_ref params c).1 ≡ worth c
    reclaim_op-worth op_ref fresh =
        reclaim_op-keeps at party params c Conserves after-worth op_ref (λ n h.
          reclaim_commit-worth party op_ref (after at c) n
            (reclaim_nonneg party (after at c).esc n after-IsSound h)
            (still_fresh ("reclaim:" ++ op_ref) (reclaim-ne-auto_release op_ref)
              (reclaim-ne-expiry op_ref) fresh)
          ∙ after-worth)

    pub claim_op-worth : worth (claim_op at party params c).1 ≡ worth c
    claim_op-worth =
        claim_op-keeps at party params c Conserves after-worth
          (λ k _. worth-claim_commit party "" (after at c) k ∙ after-worth)

    pub dispute_op-worth : worth (dispute_op at party params c).1 ≡ worth c
    dispute_op-worth =
        dispute_op-keeps at party params c Conserves after-worth
          (λ d _. worth-dispute_commit party "" (after at c) d ∙ after-worth)
