-- ===== src/Escrow/Agent.antt =====
-- `EscrowAgent` of src/acmp/escrow.py: its state, the idempotency cache, and the handlers of the
-- seven `acmp/escrow*` methods.
pub mod Dispatch
pub mod Caching
pub mod Idempotency
pub mod Locking
pub mod Replies
pub mod Handling
pub mod Serving
pub mod Value
pub mod Service
use sdk_reference.Prelude.{String, Option, none, some, List, [], ◌∷◌}
use sdk_reference.Prelude.Int.{ℤ, pos}
use sdk_reference.Prelude.Dict.{Dict, lookup, insert}
use sdk_reference.Json.{Json, null, num, str, obj, Object, fields}
use sdk_reference.Errors.{EscrowErrorCode, plain, acmp_error, to_jsonrpc}
use sdk_reference.Exec.{
  Outcome, ok, raised, fault, bind, Exec, ◌>>=◌, ◌>>◌, pure, raise, lift, gets, modify,
}
use sdk_reference.Access.{as_num, as_str, as_obj, item_as, get_as}
use sdk_reference.Escrow.{
  opened, state_value, Claim, claim_dict, Dispute, dispute_dict, Cached, error, result, Escrow,
  remaining, new_escrow,
}
use sdk_reference.Escrow.Ledger.{Ledger, escrow_error, debit}
use sdk_reference.Escrow.Cell.{
  Cell, Moment, require_positive_amount, require_party, effective_state,
}
use sdk_reference.Escrow.Operations.{bind_op, release_op, reclaim_op, claim_op, dispute_op}

pub record Agent : Type 0 where
  pub ledger : Ledger
  pub default_window_ms : ℤ
  pub escrows : Dict Escrow
  pub lock_ops : Dict Cached

-- Where a cache of outcomes is kept: in the agent (`_lock_ops`) or in an escrow (`op_results`).
pub record Cache (S : Type 0) : Type 0 where
  pub read : S → Dict Cached
  pub write : Dict Cached → S → S

abbrev pub lock_cache : Cache Agent
lock_cache = record { read = λ a. a.lock_ops; write = λ d a. record a { lock_ops = d } }

abbrev pub op_cache : Cache Cell
op_cache = record {
  read = λ c. c.esc.op_results;
  write = λ d c. record c { esc = record c.esc { op_results = d } };
}

-- A cached error is rebuilt from its JSON-RPC object, with the code as a plain number.
unfoldable pub replay_error : Object → Outcome Object
replay_error err = bind (item_as as_num err "code") λ code.
    bind (item_as as_str err "message") λ message.
      bind (get_as as_obj err "data")
        λ details. raised (acmp_error (plain code) (some message) details)

unfoldable pub replay : Cached → Outcome Object
unfolding replay_error
replay (error err) = replay_error err
replay (result r) = ok r

module _ {S : Type 0} (cache : Cache S) (op_ref : String) where
  -- What the first run leaves in the cache: an `AcmpError` is an outcome, any other exception not.
  unfoldable pub remember : Outcome Object × S → Outcome Object × S
  remember (ok r, s) = (ok r, cache.write (insert op_ref (result r) (cache.read s)) s)
  remember (raised e, s) =
      (raised e, cache.write (insert op_ref (error (to_jsonrpc e)) (cache.read s)) s)
  remember (fault x, s) = (fault x, s)

  abbrev pub first_or_replay : Option Cached → Exec S Object → Exec S Object
  first_or_replay (some cached) op s = (replay cached, s)
  first_or_replay none op s = remember (op s)

  -- `_run_cached`
  unfoldable pub run_cached : Exec S Object → Exec S Object
  run_cached op s = first_or_replay (lookup op_ref (cache.read s)) op s

-- `_get_escrow`, then a call that mutates the object found and the ledger. The object stays in
-- `_escrows` under its id, so what the call wrote is written back there.
abbrev pub with_found : {A : Type 0} → String → Exec Cell A → Option Escrow → Exec Agent A
with_found id m none a =
    (raised (escrow_error EscrowErrorCode.escrow_not_found (("escrow_id", str id) ∷ [])), a)
with_found id m (some e) a =
    let (r, c) = m (record { esc = e; ledger = a.ledger }) in
    (r, record a { ledger = c.ledger; escrows = insert id c.esc a.escrows })

unfoldable pub on_escrow : {A : Type 0} → String → Exec Cell A → Exec Agent A
on_escrow id m a = with_found id m (lookup id a.escrows) a

-- `EscrowAgent.escrow`, which resolves time before it hands the escrow out.
unfoldable pub resolved_escrow : Moment → String → Exec Agent Escrow
unfolding on_escrow
resolved_escrow at id = on_escrow id (effective_state at.now >> gets (λ c. c.esc))

-- acmp/escrowLock

abbrev pub or_default_window : Option ℤ → ℤ → ℤ
or_default_window none standard = standard
or_default_window (some w) _ = w

-- `_do_lock`. `payee_id` is read with the other parameters and as a text; the source takes it as it
-- is, when it builds the escrow.
unfoldable pub do_lock : Moment → String → Object → Exec Agent Object
do_lock at party params = do
  amount ← lift (item_as as_num params "amount_cu")
  lift (require_positive_amount amount)
  valid_until ← lift (item_as as_num params "valid_until_ms")
  requested ← lift (get_as as_num params "challenge_window_ms")
  standard ← gets (λ a. a.default_window_ms)
  payee ← lift (get_as as_str params "payee_id")
  ledger ← gets (λ a. a.ledger)
  funded ← lift (debit party amount ledger)
  let window = or_default_window requested standard
  let esc = new_escrow at.fresh_id party amount valid_until window payee
  modify (λ a. record a { ledger = funded; escrows = insert at.fresh_id esc a.escrows })
  pure (
      ("escrow_id", str at.fresh_id)
      ∷ ("state", str (state_value opened))
      ∷ ("amount_cu", num amount)
      ∷ ("valid_until_ms", num valid_until)
      ∷ [])

unfoldable pub handle_lock : Moment → String → Object → Exec Agent Object
handle_lock at party params = do
  op_ref ← lift (item_as as_str params "op_ref")
  run_cached lock_cache op_ref (do_lock at party params)

-- The frame that the five handlers on one escrow share.
unfoldable pub cached_op : (String → Exec Cell Object) → Object → Exec Cell Object
cached_op op params = do
  op_ref ← lift (item_as as_str params "op_ref")
  run_cached op_cache op_ref (op op_ref)

unfoldable pub handle_op : (String → Exec Cell Object) → Object → Exec Agent Object
handle_op op params = do
  id ← lift (item_as as_str params "escrow_id")
  on_escrow id (cached_op op params)

unfoldable pub handle_bind : Moment → String → Object → Exec Agent Object
handle_bind at party params = handle_op (λ op_ref. bind_op at party params) params

unfoldable pub handle_release : Moment → String → Object → Exec Agent Object
handle_release at party params = handle_op (λ op_ref. release_op at party op_ref params) params

unfoldable pub handle_reclaim : Moment → String → Object → Exec Agent Object
handle_reclaim at party params = handle_op (λ op_ref. reclaim_op at party op_ref params) params

unfoldable pub handle_claim : Moment → String → Object → Exec Agent Object
handle_claim at party params = handle_op (λ op_ref. claim_op at party params) params

unfoldable pub handle_dispute : Moment → String → Object → Exec Agent Object
handle_dispute at party params = handle_op (λ op_ref. dispute_op at party params) params

-- acmp/escrowStatus

abbrev pub claim_json : Option Claim → Json
claim_json none = null
claim_json (some k) = obj (fields (claim_dict k))

abbrev pub dispute_json : Option Dispute → Json
dispute_json none = null
dispute_json (some d) = obj (fields (dispute_dict d))

abbrev pub text_json : Option String → Json
text_json none = null
text_json (some s) = str s

unfoldable pub status_reply : Escrow → Object
status_reply e =
    ("escrow_id", str e.escrow_id)
    ∷ ("state", str (state_value e.state))
    ∷ ("locked_cu", num e.locked_cu)
    ∷ ("released_cu", num e.released_cu)
    ∷ ("reclaimed_cu", num e.reclaimed_cu)
    ∷ ("remaining_cu", num (remaining e))
    ∷ ("payee_id", text_json e.payee_id)
    ∷ ("valid_until_ms", num e.valid_until_ms)
    ∷ ("claim", claim_json e.claim)
    ∷ ("dispute", dispute_json e.dispute)
    ∷ []

unfoldable pub status_op : Moment → String → Exec Cell Object
status_op at party = do
  effective_state at.now
  e ← gets (λ c. c.esc)
  lift (require_party e party)
  pure (status_reply e)

unfoldable pub handle_status : Moment → String → Object → Exec Agent Object
handle_status at party params = do
  id ← lift (item_as as_str params "escrow_id")
  on_escrow id (status_op at party)
