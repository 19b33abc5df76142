-- ===== src/Escrow/Operations.antt =====
-- The `op` of each mutating handler of `EscrowAgent` (src/acmp/escrow.py), on one escrow and the
-- ledger. Each resolves time first, then reads its guards in the source's order, and then writes.
pub mod Checks
pub mod Frame
pub mod Sound
pub mod Worth
pub mod Solvent
pub mod Contract
pub mod Worded
pub mod Mutation
use Prim.Native.String.{◌++◌}
use sdk_reference.Prelude.{
  String, Bool, false, not, Option, none, some, [], ◌∷◌, ◌==◌, ◌&&◌, ◌||◌, if◌then◌else◌,
}
use sdk_reference.Prelude.Int.{ℤ, pos, ◌+ℤ◌, ltb_ℤ}
use sdk_reference.Json.{num, str, obj, Object, fields}
use sdk_reference.Errors.{EscrowErrorCode}
use sdk_reference.Exec.{
  Outcome, ok, fault, assertion_error, bind, Exec, ◌>>=◌, ◌>>◌, pure, lift, gets, modify, raise_if,
}
use sdk_reference.Access.{as_num, as_str, item, item_as, get_as}
use sdk_reference.Escrow.{
  claimed, disputed, state_value, is_open, is_claimed, Claim, claim_dict, Dispute, Escrow,
  remaining,
}
use sdk_reference.Escrow.Ledger.{escrow_error, payout}
use sdk_reference.Escrow.Cell.{
  Cell, Moment, escrow_data, is_none, require_positive_amount, require_buyer, require_payee,
  release_funds, settled_state, resolve_and_require_active,
}

abbrev pub state_data : Escrow → Object
state_data e = ("escrow_id", str e.escrow_id) ∷ ("state", str (state_value e.state)) ∷ []

abbrev pub detail_data : Escrow → String → Object
detail_data e text = ("escrow_id", str e.escrow_id) ∷ ("detail", str text) ∷ []

abbrev pub amount_exceeds : Escrow → ℤ → Outcome (Unit {0})
amount_exceeds e amount =
    raise_if (ltb_ℤ (remaining e) amount)
      (escrow_error EscrowErrorCode.amount_exceeds_remaining (escrow_data e))

-- acmp/escrowBind

-- The guards, with the payee and the window that the request names.
unfoldable pub bind_checks : String → Object → Escrow → Outcome (String × Option ℤ)
bind_checks party params e = bind (require_buyer e party) λ _.
    bind
      (raise_if (not (is_none e.payee_id))
        (escrow_error EscrowErrorCode.invalid_state (detail_data e "escrow is already bound")))
      λ _.
        bind (item_as as_str params "payee_id")
          λ payee. bind (get_as as_num params "challenge_window_ms") λ window. ok (payee, window)

abbrev pub or_window : Option ℤ → ℤ → ℤ
or_window none old = old
or_window (some w) _ = w

unfoldable pub bind_payee : String × Option ℤ → Cell → Cell
bind_payee (payee, window) c = record c {
  esc = record c.esc {
    payee_id = some payee;
    challenge_window_ms = or_window window c.esc.challenge_window_ms;
  };
}

unfoldable pub bind_reply : String × Option ℤ → Escrow → Object
bind_reply (payee, window) e = ("escrow_id", str e.escrow_id) ∷ ("payee_id", str payee) ∷ []

unfoldable pub bind_op : Moment → String → Object → Exec Cell Object
bind_op at party params = do
  resolve_and_require_active at.now
  e ← gets (λ c. c.esc)
  bound ← lift (bind_checks party params e)
  modify (bind_payee bound)
  e' ← gets (λ c. c.esc)
  pure (bind_reply bound e')

-- acmp/escrowRelease

-- The pending claim, asserted to be there, and a release below it.
abbrev pub below_claim : ℤ → Escrow → Option Claim → Outcome (Unit {0})
below_claim amount e none = fault assertion_error
below_claim amount e (some k) = raise_if (ltb_ℤ amount k.amount_cu) (
    escrow_error EscrowErrorCode.invalid_state
      (detail_data e "release below pending claim amount; dispute instead"))

-- `if resolves_claim:`
unfoldable pub undercut : ℤ → Escrow → Outcome (Unit {0})
undercut amount e = if is_claimed e.state then below_claim amount e e.claim else ok tt

abbrev pub other_payee : String → Option String → Bool
other_payee payee none = false
other_payee payee (some bound) = not (payee == bound)

unfoldable pub release_checks : String → Object → Escrow → Outcome (ℤ × String)
release_checks party params e = bind (require_buyer e party) λ _.
    bind
      (raise_if (not (is_open e.state || is_claimed e.state))
        (escrow_error EscrowErrorCode.invalid_state (state_data e)))
      λ _. bind (item_as as_num params "amount_cu") λ amount.
        bind (require_positive_amount amount) λ _. bind (item_as as_str params "payee_id") λ payee.
          bind (undercut amount e) λ _.
            bind
              (raise_if (other_payee payee e.payee_id)
                (escrow_error EscrowErrorCode.not_authorized (escrow_data e)))
              λ _. bind (amount_exceeds e amount) λ _. ok (amount, payee)

abbrev pub or_payee : Option String → String → Option String
or_payee none payee = some payee
or_payee (some bound) _ = some bound

-- "All checks passed — mutate."
unfoldable pub release_commit : String → ℤ × String → Cell → Cell
release_commit op_ref (amount, payee) c = record {
  esc = release_funds amount (record c.esc {
    payee_id = or_payee c.esc.payee_id payee;
    claim = if is_claimed c.esc.state then none else c.esc.claim;
  });
  ledger = (payout c.esc.escrow_id ("release:" ++ op_ref) payee amount c.ledger).0;
}

-- The reply, on the escrow as the operation leaves it.
unfoldable pub release_reply : ℤ × String → Escrow → Object
release_reply (amount, payee) e =
    ("escrow_id", str e.escrow_id)
    ∷ ("released_cu", num amount)
    ∷ ("remaining_cu", num (remaining e))
    ∷ ("state", str (state_value e.state))
    ∷ []

unfoldable pub release_op : Moment → String → String → Object → Exec Cell Object
release_op at party op_ref params = do
  resolve_and_require_active at.now
  e ← gets (λ c. c.esc)
  checked ← lift (release_checks party params e)
  modify (release_commit op_ref checked)
  e' ← gets (λ c. c.esc)
  pure (release_reply checked e')

-- acmp/escrowReclaim

-- The requested amount, or the whole remainder.
unfoldable pub reclaim_amount : Escrow → Option ℤ → Outcome ℤ
reclaim_amount e none = ok (remaining e)
reclaim_amount e (some amount) =
    bind (require_positive_amount amount) λ _. bind (amount_exceeds e amount) λ _. ok amount

unfoldable pub reclaim_checks : String → Object → Escrow → Outcome ℤ
reclaim_checks party params e = bind (require_buyer e party) λ _.
    bind
      (raise_if (not (is_open e.state)) (escrow_error EscrowErrorCode.invalid_state (state_data e)))
      λ _.
        bind
          (raise_if (not (is_none e.payee_id) && not e.had_settlement) (
            escrow_error EscrowErrorCode.invalid_state
              (detail_data e "bound escrow requires a settlement before reclaim")))
          λ _. bind (get_as as_num params "amount_cu") λ requested. reclaim_amount e requested

unfoldable pub reclaim_commit : String → ℤ → Cell → Cell
unfolding settled_state
reclaim_commit op_ref amount c =
    let e = record c.esc { reclaimed_cu = c.esc.reclaimed_cu +ℤ amount } in
    record {
      esc = record e { state = settled_state e };
      ledger =
          if ltb_ℤ (pos 0) amount
          then (payout e.escrow_id ("reclaim:" ++ op_ref) e.buyer_id amount c.ledger).0
          else c.ledger;
    }

unfoldable pub reclaim_reply : ℤ → Escrow → Object
reclaim_reply amount e =
    ("escrow_id", str e.escrow_id)
    ∷ ("reclaimed_cu", num amount)
    ∷ ("remaining_cu", num (remaining e))
    ∷ ("state", str (state_value e.state))
    ∷ []

unfoldable pub reclaim_op : Moment → String → String → Object → Exec Cell Object
reclaim_op at party op_ref params = do
  resolve_and_require_active at.now
  e ← gets (λ c. c.esc)
  amount ← lift (reclaim_checks party params e)
  modify (reclaim_commit op_ref amount)
  e' ← gets (λ c. c.esc)
  pure (reclaim_reply amount e')

-- acmp/escrowClaim

unfoldable pub claim_checks : Moment → String → Object → Escrow → Outcome Claim
claim_checks at party params e = bind (require_payee e party) λ _.
    bind
      (raise_if (not (is_open e.state)) (escrow_error EscrowErrorCode.invalid_state (state_data e)))
      λ _. bind (item_as as_num params "amount_cu") λ amount.
        bind (require_positive_amount amount) λ _. bind (amount_exceeds e amount) λ _.
          bind (item_as as_str params "task_id") λ task. bind (item params "proof") λ proof.
            ok (record {
              amount_cu = amount;
              task_id = task;
              proof = proof;
              window_ends_ms = at.later +ℤ e.challenge_window_ms;
            })

unfoldable pub claim_commit : Claim → Cell → Cell
claim_commit k c = record c { esc = record c.esc { claim = some k; state = claimed } }

unfoldable pub claim_reply : Claim → Escrow → Object
claim_reply k e =
    ("escrow_id", str e.escrow_id)
    ∷ ("state", str (state_value e.state))
    ∷ ("claim", obj (fields (claim_dict k)))
    ∷ []

unfoldable pub claim_op : Moment → String → Object → Exec Cell Object
claim_op at party params = do
  resolve_and_require_active at.now
  e ← gets (λ c. c.esc)
  k ← lift (claim_checks at party params e)
  modify (claim_commit k)
  e' ← gets (λ c. c.esc)
  pure (claim_reply k e')

-- acmp/escrowDispute

unfoldable pub dispute_checks : String → Object → Escrow → Outcome Dispute
dispute_checks party params e = bind (require_buyer e party) λ _.
    bind
      (raise_if (not (is_claimed e.state))
        (escrow_error EscrowErrorCode.invalid_state (state_data e)))
      λ _. bind (item_as as_str params "reason") λ reason.
        bind (get_as ok params "evidence")
          λ evidence. ok (record { reason = reason; evidence = evidence })

unfoldable pub dispute_commit : Dispute → Cell → Cell
dispute_commit d c = record c { esc = record c.esc { dispute = some d; state = disputed } }

unfoldable pub dispute_op : Moment → String → Object → Exec Cell Object
dispute_op at party params = do
  resolve_and_require_active at.now
  e ← gets (λ c. c.esc)
  d ← lift (dispute_checks party params e)
  modify (dispute_commit d)
  e' ← gets (λ c. c.esc)
  pure (state_data e')
