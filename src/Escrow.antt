-- ===== src/Escrow.antt =====
-- src/acmp/escrow.py, the escrow data model: `EscrowState`, `Claim`, `Dispute` and `Escrow`.
-- The children hold the ledger, the operations, the agent, the client and the proofs.
pub mod Ledger
pub mod Cell
pub mod Operations
pub mod Agent
pub mod Client
mod Examples
use sdk_reference.Prelude.{String, Bool, true, false, Option, none, some, List, [], ◌∷◌}
use sdk_reference.Prelude.Int.{ℤ, pos, ◌-ℤ◌}
use sdk_reference.Prelude.Dict.{Dict}
use sdk_reference.Json.{Json, num, str, obj, Object}

pub data EscrowState : Type 0 where
  opened claimed disputed closed : EscrowState

-- `state.value`
abbrev pub state_value : EscrowState → String
state_value opened = "open"
state_value claimed = "claimed"
state_value disputed = "disputed"
state_value closed = "closed"

abbrev pub is_open : EscrowState → Bool
is_open opened = true
is_open _ = false

abbrev pub is_claimed : EscrowState → Bool
is_claimed claimed = true
is_claimed _ = false

abbrev pub is_closed : EscrowState → Bool
is_closed closed = true
is_closed _ = false

pub record Claim : Type 0 where
  pub amount_cu : ℤ
  pub task_id : String
  pub proof : Json
  pub window_ends_ms : ℤ

-- `Claim.to_dict`
unfoldable pub claim_dict : Claim → Object
claim_dict k = ("amount_cu", num k.amount_cu) ∷ ("window_ends_ms", num k.window_ends_ms) ∷ []

pub record Dispute : Type 0 where
  pub reason : String
  pub evidence : Option Json

-- `Dispute.to_dict`
unfoldable pub dispute_dict : Dispute → Object
dispute_dict d = elim d.evidence [
  | none ↦ ("reason", str d.reason) ∷ []
  | some v ↦ ("reason", str d.reason) ∷ ("evidence", v) ∷ []
]

-- One entry of the idempotency cache: `{"error": …}` or `{"result": …}`.
pub data Cached : Type 0 where
  error : Object → Cached
  result : Object → Cached

pub record Escrow : Type 0 where
  pub escrow_id : String
  pub buyer_id : String
  pub locked_cu : ℤ
  pub valid_until_ms : ℤ
  pub challenge_window_ms : ℤ
  pub state : EscrowState
  pub released_cu : ℤ
  pub reclaimed_cu : ℤ
  pub payee_id : Option String
  pub claim : Option Claim
  pub dispute : Option Dispute
  pub had_settlement : Bool
  pub expired : Bool
  pub op_results : Dict Cached

-- The property `remaining_cu`.
unfoldable pub remaining : Escrow → ℤ
remaining e = e.locked_cu -ℤ e.released_cu -ℤ e.reclaimed_cu

-- `Escrow(…)` with the defaults of the fields that a lock does not give.
unfoldable pub new_escrow : String → String → ℤ → ℤ → ℤ → Option String → Escrow
new_escrow escrow_id buyer_id locked_cu valid_until_ms challenge_window_ms payee_id = record {
  escrow_id = escrow_id;
  buyer_id = buyer_id;
  locked_cu = locked_cu;
  valid_until_ms = valid_until_ms;
  challenge_window_ms = challenge_window_ms;
  state = opened;
  released_cu = pos 0;
  reclaimed_cu = pos 0;
  payee_id = payee_id;
  claim = none;
  dispute = none;
  had_settlement = false;
  expired = false;
  op_results = [];
}
