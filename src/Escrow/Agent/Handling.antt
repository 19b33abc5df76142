-- ===== src/Escrow/Agent/Handling.antt =====
-- The handlers as rules: a property of the agent holds after any request if it survives what an
-- operation does to one escrow and the ledger, and a lock.
use sdk_reference.Prelude.{String, ◌≡◌, Option, none, some, Option-cases, inl, inr, arith}
use sdk_reference.Prelude.Int.{ℤ, pos, ◌<ℤ◌}
use sdk_reference.Prelude.Dict.{Dict, lookup, insert}
use sdk_reference.Json.{Object}
use sdk_reference.Exec.{ok, Exec, lift-keeps}
use sdk_reference.Access.{as_str, as_num, item_as, get_as}
use sdk_reference.Escrow.{Escrow, Cached, new_escrow}
use sdk_reference.Escrow.Ledger.{Ledger, debit}
use sdk_reference.Escrow.Cell.{Cell, Moment, require_positive_amount, effective_state}
use sdk_reference.Escrow.Agent.{
  Agent, or_default_window, lock_cache, op_cache, run_cached, on_escrow, do_lock, handle_lock,
  cached_op, handle_op, status_op, handle_status,
}
use sdk_reference.Escrow.Agent.Caching.{run_cached-keeps}

-- The agent once `c` is written back for the escrow `id`.
abbrev pub store : String → Cell → Agent → Agent
store id c a = record a { ledger = c.ledger; escrows = insert id c.esc a.escrows }

module _ (P : Agent → Type 0) (a : Agent) (h : P a) where
  pub on_escrow-keeps :
      {A : Type 0} (id : String) (m : Exec Cell A)
      → ((e : Escrow)
          → lookup id a.escrows ≡ some e
          → P (store id (m (record { esc = e; ledger = a.ledger })).1 a))
      → P (on_escrow id m a).1
  unfolding on_escrow
  on_escrow-keeps id m k = elim (Option-cases (lookup id a.escrows)) [
    | inl absent ↦ rw absent h
    | inr (e, found) ↦ rw found (k e found)
  ]

  pub handle_op-keeps :
      (op : String → Exec Cell Object) (params : Object)
      → ((id : String) (e : Escrow)
          → lookup id a.escrows ≡ some e
          → P (store id (cached_op op params (record { esc = e; ledger = a.ledger })).1 a))
      → P (handle_op op params a).1
  unfolding handle_op
  handle_op-keeps op params k =
      lift-keeps P (item_as as_str params "escrow_id") (λ id. on_escrow id (cached_op op params)) a
        h (λ id _. on_escrow-keeps id (cached_op op params) (k id))

-- The same for one cell and a cached operation: only `op_results` is written besides.
abbrev pub with_cache : Dict Cached → Cell → Cell
with_cache d c = record c { esc = record c.esc { op_results = d } }

pub cached_op-keeps :
    (P : Cell → Type 0)
    → ((d : Dict Cached) (c : Cell) → P c → P (with_cache d c))
    → (op : String → Exec Cell Object) (params : Object) (c : Cell) → P c
    → ((op_ref : String) → lookup op_ref c.esc.op_results ≡ none → P (op op_ref c).1)
    → P (cached_op op params c).1
unfolding cached_op
cached_op-keeps P stable op params c h k =
    lift-keeps P (item_as as_str params "op_ref") (λ op_ref. run_cached op_cache op_ref (op op_ref))
      c h (λ op_ref _. run_cached-keeps op_cache op_ref (op op_ref) P stable c h (k op_ref))

-- What a lock that goes through leaves behind.
pub record IsFunded (party : String) (amount : ℤ) (l l' : Ledger) : Type 0 where
  pub positive : pos 0 <ℤ amount
  pub debited : debit party amount l ≡ ok l'

require_positive_amount_ok :
    (amount : ℤ) {u : Unit {0}} → require_positive_amount amount ≡ ok u → pos 0 <ℤ amount
unfolding require_positive_amount
require_positive_amount_ok amount h = ground arith

abbrev pub lock_in : String → Escrow → Ledger → Agent → Agent
lock_in id e l a = record a { ledger = l; escrows = insert id e a.escrows }

module _ (P : Agent → Type 0) (at : Moment) (party : String) (params : Object) (a : Agent) (h : P a)
    (k : (amount until window : ℤ) (payee : Option String) (l : Ledger)
      → IsFunded party amount a.ledger l
      → P (lock_in at.fresh_id (new_escrow at.fresh_id party amount until window payee) l a)) where
  pub do_lock-keeps : P (do_lock at party params a).1
  unfolding do_lock
  do_lock-keeps = lift-keeps P (item_as as_num params "amount_cu") _ a h λ amount _.
      lift-keeps P (require_positive_amount amount) _ a h λ u positive.
        lift-keeps P (item_as as_num params "valid_until_ms") _ a h λ until _.
          lift-keeps P (get_as as_num params "challenge_window_ms") _ a h λ requested _.
            lift-keeps P (get_as as_str params "payee_id") _ a h λ payee _.
              lift-keeps P (debit party amount a.ledger) _ a h λ l debited.
                k amount until (or_default_window requested a.default_window_ms) payee l (record {
                  positive = require_positive_amount_ok amount positive;
                  debited = debited;
                })

  pub handle_lock-keeps :
      ((d : Dict Cached) (b : Agent) → P b → P (record b { lock_ops = d }))
      → P (handle_lock at party params a).1
  unfolding handle_lock
  handle_lock-keeps stable = lift-keeps P (item_as as_str params "op_ref") _ a h λ op_ref _.
      run_cached-keeps lock_cache op_ref (do_lock at party params) P stable a h (λ _. do_lock-keeps)

-- A status query does no more than to resolve time.
pub status_op-state :
    (at : Moment) (party : String) (c : Cell)
    → (status_op at party c).1 ≡ (effective_state at.now c).1
unfolding status_op
status_op-state at party c = ground arith

pub handle_status-keeps :
    (P : Agent → Type 0) (at : Moment) (party : String) (params : Object) (a : Agent)
    → P a
    → ((id : String) (e : Escrow)
        → lookup id a.escrows ≡ some e
        → P (store id (effective_state at.now (record { esc = e; ledger = a.ledger })).1 a))
    → P (handle_status at party params a).1
unfolding handle_status
handle_status-keeps P at party params a h k =
    lift-keeps P (item_as as_str params "escrow_id") _ a h λ id _.
      on_escrow-keeps P a h id (status_op at party) (λ e found. rw status_op-state (k id e found))
