-- ===== src/Escrow/Cell.antt =====
-- The guards of `EscrowAgent` and its lazy evaluation of time (src/acmp/escrow.py), on what one
-- operation reaches: one escrow object and the ledger.
pub mod Sound
pub mod Steps
pub mod Frame
pub mod Worth
pub mod Timeline
use Prim.Native.String.{◌++◌}
use sdk_reference.Prelude.{
  String, Bool, true, false, not, Option, none, some, [], ◌∷◌, ◌==◌, ◌&&◌, if◌then◌else◌,
}
use sdk_reference.Prelude.Int.{ℤ, pos, ◌+ℤ◌, leb_ℤ, ltb_ℤ}
use sdk_reference.Json.{num, str, Object}
use sdk_reference.Errors.{EscrowErrorCode}
use sdk_reference.Exec.{
  Outcome, ok, fault, assertion_error, Exec, ◌>>=◌, ◌>>◌, lift, gets, raise_if,
}
use sdk_reference.Escrow.{
  EscrowState, opened, closed, is_open, is_claimed, is_closed, Claim, Escrow, remaining,
}
use sdk_reference.Escrow.Ledger.{Ledger, escrow_error, payout}

pub record Cell : Type 0 where
  pub esc : Escrow
  pub ledger : Ledger

-- What the surroundings give to one call: the clock as `_effective_state` reads it, the clock as a
-- claim reads it once more, and what `new_escrow_id()` returns.
pub record Moment : Type 0 where
  pub now : ℤ
  pub later : ℤ
  pub fresh_id : String

abbrev pub escrow_data : Escrow → Object
escrow_data e = ("escrow_id", str e.escrow_id) ∷ []

unfoldable pub require_positive_amount : ℤ → Outcome (Unit {0})
require_positive_amount amount = raise_if (leb_ℤ amount (pos 0)) (
    escrow_error EscrowErrorCode.invalid_state
      (("amount_cu", num amount) ∷ ("detail", str "amount_cu must be positive") ∷ []))

unfoldable pub require_buyer : Escrow → String → Outcome (Unit {0})
require_buyer e party =
    raise_if (not (party == e.buyer_id))
      (escrow_error EscrowErrorCode.not_authorized (escrow_data e))

-- `x == payee_id`, where the payee may be `None`.
abbrev pub is_payee : String → Option String → Bool
is_payee party none = false
is_payee party (some payee) = party == payee

unfoldable pub require_payee : Escrow → String → Outcome (Unit {0})
require_payee e party =
    raise_if (not (is_payee party e.payee_id))
      (escrow_error EscrowErrorCode.not_authorized (escrow_data e))

unfoldable pub require_party : Escrow → String → Outcome (Unit {0})
require_party e party =
    raise_if (not (party == e.buyer_id) && not (is_payee party e.payee_id))
      (escrow_error EscrowErrorCode.not_authorized (escrow_data e))

-- `CLOSED if esc.remaining_cu <= 0 else OPEN`
unfoldable pub settled_state : Escrow → EscrowState
settled_state e = if leb_ℤ (remaining e) (pos 0) then closed else opened

-- `released_cu += amount`, `had_settlement = True`, and the state that the remainder gives.
unfoldable pub release_funds : ℤ → Escrow → Escrow
unfolding settled_state
release_funds amount e =
    let e' = record e { released_cu = e.released_cu +ℤ amount; had_settlement = true } in
    record e' { state = settled_state e' }

-- `_auto_release`, on the claim and the payee that its two asserts demand.
unfoldable pub auto_release : Option Claim → Option String → Exec Cell (Unit {0})
auto_release none _ c = (fault assertion_error, c)
auto_release (some k) none c = (fault assertion_error, c)
auto_release (some k) (some payee) c = (
  ok tt,
  record {
    esc = release_funds k.amount_cu (record c.esc { claim = none });
    ledger = (payout c.esc.escrow_id ("auto_release:" ++ k.task_id) payee k.amount_cu c.ledger).0;
  },
)

unfoldable pub auto_reclaim_expiry : Exec Cell (Unit {0})
auto_reclaim_expiry c =
    let amount = remaining c.esc in
    (
      ok tt,
      record {
        esc = record c.esc {
          reclaimed_cu = c.esc.reclaimed_cu +ℤ amount;
          state = closed;
          expired = true;
        };
        ledger =
            if ltb_ℤ (pos 0) amount
            then (payout c.esc.escrow_id "expiry_reclaim" c.esc.buyer_id amount c.ledger).0
            else c.ledger;
      },
    )

abbrev pub window_over : ℤ → Option Claim → Bool
window_over now none = false
window_over now (some k) = leb_ℤ k.window_ends_ms now

abbrev pub is_none : {A : Type 0} → Option A → Bool
is_none none = true
is_none (some _) = false

-- The first `if` of `_effective_state`: an unchallenged claim's window is over.
unfoldable pub resolve_claim : ℤ → Exec Cell (Unit {0})
resolve_claim now c =
    if is_claimed c.esc.state && window_over now c.esc.claim
    then auto_release c.esc.claim c.esc.payee_id c
    else (ok tt, c)

-- The second `if`: the lock itself has expired.
unfoldable pub resolve_expiry : ℤ → Exec Cell (Unit {0})
resolve_expiry now c =
    if is_open c.esc.state
      && is_none c.esc.claim
      && is_none c.esc.dispute
      && leb_ℤ c.esc.valid_until_ms now
    then auto_reclaim_expiry c
    else (ok tt, c)

unfoldable pub effective_state : ℤ → Exec Cell (Unit {0})
effective_state now c =
    if is_closed c.esc.state then (ok tt, c) else (resolve_claim now >> resolve_expiry now) c

unfoldable pub resolve_and_require_active : ℤ → Exec Cell (Unit {0})
resolve_and_require_active now = do
  effective_state now
  e ← gets (λ c. c.esc)
  lift (raise_if e.expired (escrow_error EscrowErrorCode.escrow_expired (escrow_data e)))
