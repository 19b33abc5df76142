-- ===== src/Escrow/Operations/Frame.antt =====
-- The shape that the five operations share: resolve time, check, commit, answer. A property of the
-- cell holds after the operation if it holds after resolving time and after a checked commit.
use sdk_reference.Prelude.{String, Option, ◌≡◌, refl}
use sdk_reference.Prelude.Int.{ℤ}
use sdk_reference.Json.{Object}
use sdk_reference.Exec.{Outcome, ok, raised, fault, continue}
use sdk_reference.Escrow.{Escrow, Claim, Dispute}
use sdk_reference.Escrow.Cell.{Cell, Moment, resolve_and_require_active}
use sdk_reference.Escrow.Operations.{
  bind_checks, bind_payee, bind_reply, bind_op, release_checks, release_commit, release_reply,
  release_op, reclaim_checks, reclaim_commit, reclaim_reply, reclaim_op, claim_checks, claim_commit,
  claim_reply, claim_op, dispute_checks, dispute_commit, state_data, dispute_op,
}
use sdk_reference.Escrow.Operations.Checks.{
  Bindable, bind_checks_ok, Releasable, release_checks_ok, Reclaimable, reclaim_checks_ok,
  Claimable, claim_checks_ok, Disputable, dispute_checks_ok,
}

module _ {A : Type 0} (check : Escrow → Outcome A) (commit : A → Cell → Cell) where
  abbrev staged : (Cell → A → Object) → Outcome (Unit {0}) × Cell → Outcome Object × Cell
  staged reply (r, c) =
      continue r (λ _ c. continue (check c.esc) (λ a c. (ok (reply c a), commit a c)) c) c

  staged_keeps :
      (P : Cell → Type 0) (reply : Cell → A → Object) (m : Outcome (Unit {0}) × Cell)
      → P m.1
      → ((a : A) → check m.1.esc ≡ ok a → P (commit a m.1))
      → P (staged reply m).1
  staged_keeps P reply (raised e, c) h k = h
  staged_keeps P reply (fault x, c) h k = h
  staged_keeps P reply (ok u, c) h k = go (check c.esc) refl
    where
      go :
          (o : Outcome A)
          → check c.esc ≡ o
          → P (continue o (λ a c. (ok (reply c a), commit a c)) c).1
      go (ok a) e = k a e
      go (raised e) _ = h
      go (fault x) _ = h

-- The cell once time is resolved.
abbrev pub after : Moment → Cell → Cell
after at c = (resolve_and_require_active at.now c).1

module _ (at : Moment) (party : String) (params : Object) (c : Cell) (P : Cell → Type 0)
    (h : P (after at c)) where
  pub bind_op-keeps :
      ((b : String × Option ℤ) → Bindable party (after at c).esc → P (bind_payee b (after at c)))
      → P (bind_op at party params c).1
  unfolding bind_op
  bind_op-keeps k =
      staged_keeps (bind_checks party params) bind_payee P
        (λ c b. bind_reply b (bind_payee b c).esc) (resolve_and_require_active at.now c) h
        (λ b e. k b (bind_checks_ok party params _ e))

  pub release_op-keeps :
      (op_ref : String)
      → ((n : ℤ) (payee : String)
          → Releasable party (after at c).esc n payee
          → P (release_commit op_ref (n, payee) (after at c)))
      → P (release_op at party op_ref params c).1
  unfolding release_op
  release_op-keeps op_ref k =
      staged_keeps (release_checks party params) (release_commit op_ref) P
        (λ c a. release_reply a (release_commit op_ref a c).esc)
        (resolve_and_require_active at.now c) h
        (λ a e. k a.0 a.1 (release_checks_ok party params _ e))

  pub reclaim_op-keeps :
      (op_ref : String)
      → ((n : ℤ) → Reclaimable party (after at c).esc n → P (reclaim_commit op_ref n (after at c)))
      → P (reclaim_op at party op_ref params c).1
  unfolding reclaim_op
  reclaim_op-keeps op_ref k =
      staged_keeps (reclaim_checks party params) (reclaim_commit op_ref) P
        (λ c n. reclaim_reply n (reclaim_commit op_ref n c).esc)
        (resolve_and_require_active at.now c) h (λ n e. k n (reclaim_checks_ok party params _ e))

  pub claim_op-keeps :
      ((k : Claim) → Claimable party (after at c).esc k → P (claim_commit k (after at c)))
      → P (claim_op at party params c).1
  unfolding claim_op
  claim_op-keeps k =
      staged_keeps (claim_checks at party params) claim_commit P
        (λ c a. claim_reply a (claim_commit a c).esc) (resolve_and_require_active at.now c) h
        (λ a e. k a (claim_checks_ok party params _ at e))

  pub dispute_op-keeps :
      ((d : Dispute) → Disputable party (after at c).esc → P (dispute_commit d (after at c)))
      → P (dispute_op at party params c).1
  unfolding dispute_op
  dispute_op-keeps k =
      staged_keeps (dispute_checks party params) dispute_commit P
        (λ c a. state_data (dispute_commit a c).esc) (resolve_and_require_active at.now c) h
        (λ a e. k a (dispute_checks_ok party params _ e))
