-- ===== src/Escrow/Examples.antt =====
-- Test data of the escrow agent: a buyer's escrow of 60, in each state, with its messages. The
-- children hold the runs.
mod Cells
mod Service
use sdk_reference.Prelude.{◌≡◌, ◌≢◌, refl, true, false, none, some, List, [], ◌∷◌, ◌⊎◌, arith}
use sdk_reference.Prelude.Int.{ℤ, pos, negsuc, ◌+ℤ◌, ◌-ℤ◌, ◌≤ℤ◌, leb_ℤ}
use sdk_reference.Prelude.Dict.{lookup, insert, total}
use sdk_reference.Json.{Json, null, num, str, Object}
use sdk_reference.Exec.{ok}
use sdk_reference.Messages.{make_request}
use sdk_reference.Escrow.{
  claimed, disputed, closed, Claim, claim_dict, Escrow, remaining, new_escrow,
}
use sdk_reference.Escrow.Ledger.{Ledger, balance, credit, debit, payout, was_paid}
use sdk_reference.Escrow.Ledger.Laws.{total_balance}
use sdk_reference.Escrow.Cell.{
  Cell, Moment, require_buyer, require_positive_amount, settled_state, release_funds, resolve_claim,
  resolve_expiry, effective_state, resolve_and_require_active,
}
use sdk_reference.Access.{as_num, as_str, as_obj, item, item_as, get_as, get_or_as}
use sdk_reference.Escrow.Operations.{
  release_checks, undercut, release_commit, release_reply, release_op, reclaim_checks,
  reclaim_reply, reclaim_op, claim_reply,
}
use sdk_reference.Escrow.Cell.Sound.{IsSound, effective_state_ok}
use sdk_reference.Escrow.Cell.Steps.{IsDue}
use sdk_reference.Escrow.Cell.Worth.{worth}
use sdk_reference.Escrow.Cell.Timeline.{
  effective_state_quiet, effective_state-again, Settles, effective_state-Settles, Refunds,
  effective_state-Refunds, effective_state_lost,
}
use sdk_reference.Escrow.Operations.Mutation.{releasing, disputing, operation, operation-worth}
use sdk_reference.Escrow.Operations.Mutation.Rights.{Explained, operation-Permitted}
use sdk_reference.Escrow.Operations.Mutation.Freeze.{
  disputed_frozen, SameFunds, closed_final, dispute_too_late,
}
use sdk_reference.Escrow.Agent.{
  Agent, run_cached, remember, on_escrow, cached_op, handle_op, do_lock, handle_lock,
  handle_release, handle_reclaim, status_reply,
}
use sdk_reference.Escrow.Agent.Caching.{Repeats}
use sdk_reference.Escrow.Agent.Dispatch.{
  Printing, Arrival, handler_of, call_handler, respond, dispatch, serve,
}
use sdk_reference.Escrow.Agent.Handling.{store}
use sdk_reference.Escrow.Agent.Locking.{Opened, do_lock-Opened, handle_lock-again}
use sdk_reference.Escrow.Agent.Replies.{Answered, dispatch_replies}
use sdk_reference.Escrow.Agent.Service.{serve-value_le}
use sdk_reference.Escrow.Agent.Value.{IsSoundAgent, value}
use sdk_reference.Escrow.Client.{
  covers, status_from_dict, release_from_dict, reclaim_from_dict, claim_from_dict,
}
use sdk_reference.Escrow.Client.Remote.{
  remote, at_client, remote-handler, covers_known, covers_unknown,
}
use sdk_reference.Escrow.Client.Replies.{view, status_from_dict-status_reply, replies_lem}

-- Test data.

abbrev pub printing : Printing
printing = record { fault_text = λ x. "fault"; not_found_text = λ m. "Method not found" }

abbrev pub moment : ℤ → Moment
moment now = record { now = now; later = now; fresh_id = "e1" }

abbrev pub ledger : Ledger
ledger = record { balances = ("buyer", pos 40) ∷ ("payee", pos 0) ∷ []; paid = [] }

abbrev pub escrow : Escrow
escrow = new_escrow "e1" "buyer" (pos 60) (pos 1000) (pos 100) (some "payee")

abbrev pub pending : Claim
pending = record { amount_cu = pos 25; task_id = "t1"; proof = null; window_ends_ms = pos 150 }

abbrev pub claimed_escrow : Escrow
claimed_escrow = record escrow { state = claimed; claim = some pending }

abbrev pub disputed_escrow : Escrow
disputed_escrow = record claimed_escrow {
  state = disputed;
  dispute = some (record { reason = "late"; evidence = none });
}

abbrev pub closed_escrow : Escrow
closed_escrow = record escrow { state = closed; released_cu = pos 60; had_settlement = true }

abbrev pub with_ledger : Escrow → Cell
with_ledger e = record { esc = e; ledger = ledger }

-- The ledger once the task `t1` was paid out.
abbrev pub paid_once : Cell
paid_once = record {
  esc = record claimed_escrow { released_cu = pos 25; had_settlement = true };
  ledger = record ledger { paid = ("e1", "auto_release:t1") ∷ [] };
}

abbrev pub no_escrow : Agent
no_escrow = record {
  ledger = record { balances = ("buyer", pos 100) ∷ []; paid = [] };
  default_window_ms = pos 100;
  escrows = [];
  lock_ops = [];
}

abbrev pub agent : Agent
agent = record no_escrow { ledger = ledger; escrows = ("e1", escrow) ∷ [] }

abbrev pub lock_params : Object
lock_params =
    ("op_ref", str "op1") ∷ ("amount_cu", num (pos 60)) ∷ ("valid_until_ms", num (pos 1000)) ∷ []

abbrev pub release_params : Object
release_params =
    ("op_ref", str "op2")
    ∷ ("escrow_id", str "e1")
    ∷ ("amount_cu", num (pos 25))
    ∷ ("payee_id", str "payee")
    ∷ []

-- A reclaim of a negative amount, which is refused.
abbrev pub reclaim_params : Object
reclaim_params =
    ("op_ref", str "op3") ∷ ("escrow_id", str "e1") ∷ ("amount_cu", num (negsuc 4)) ∷ []

abbrev pub dispute_params : Object
dispute_params = ("op_ref", str "op4") ∷ ("escrow_id", str "e1") ∷ ("reason", str "late") ∷ []

abbrev pub arrivals : List Arrival
arrivals =
    record {
      at = moment (pos 10);
      connection = "buyer";
      party = "buyer";
      message = make_request "acmp/escrowLock" lock_params "r1";
    }
    ∷ record {
      at = moment (pos 20);
      connection = "buyer";
      party = "buyer";
      message = make_request "acmp/escrowRelease" release_params "r2";
    }
    ∷ record {
      at = moment (pos 30);
      connection = "stranger";
      party = "stranger";
      message = make_request "acmp/escrowReclaim" reclaim_params "r3";
    }
    ∷ []

-- What the test data satisfy.

pub escrow-IsSound : IsSound escrow
unfolding new_escrow remaining ◌-ℤ◌
escrow-IsSound = ground arith

pub claimed-IsSound : IsSound claimed_escrow
unfolding new_escrow remaining ◌-ℤ◌
claimed-IsSound = ground arith

pub disputed-IsSound : IsSound disputed_escrow
unfolding new_escrow remaining ◌-ℤ◌
disputed-IsSound = ground arith

pub closed-IsSound : IsSound closed_escrow
unfolding new_escrow remaining ◌-ℤ◌
closed-IsSound = ground arith

pub pending-IsDue : IsDue (pos 200) claimed_escrow pending "payee"
unfolding new_escrow remaining ◌-ℤ◌
pending-IsDue = ground arith

pub paid_once-IsDue : IsDue (pos 200) paid_once.esc pending "payee"
unfolding new_escrow remaining ◌-ℤ◌
paid_once-IsDue = ground arith

pub no_escrow-IsSoundAgent : IsSoundAgent no_escrow
unfolding lookup balance
no_escrow-IsSoundAgent = record {
  solvent = record { at_account = λ a. ground arith };
  sound = λ id e h. cc;
}
