-- ===== src/Escrow/Examples/Service.antt =====
-- Runs of the agent and of its clients.
use sdk_reference.Prelude.{
  ◌≡◌, ◌≢◌, refl, false, none, some, String, List, [], ◌∷◌, ◌⊎◌, ◌==◌, arith, eq_iff,
}
use sdk_reference.Prelude.Int.{pos, ◌+ℤ◌, ◌-ℤ◌, ◌≤ℤ◌, leb_ℤ}
use sdk_reference.Prelude.Dict.{lookup, insert, total}
use sdk_reference.Json.{Json, null, str, arr, nil, Object}
use sdk_reference.Exec.{ok, fault, type_error}
use sdk_reference.Messages.{make_request}
use sdk_reference.Escrow.{claim_dict, remaining, new_escrow}
use sdk_reference.Escrow.Ledger.{balance, credit, debit, payout, was_paid}
use sdk_reference.Escrow.Ledger.Laws.{total_balance}
use sdk_reference.Escrow.Cell.{
  require_buyer, require_positive_amount, settled_state, release_funds, resolve_claim,
  resolve_expiry, effective_state, resolve_and_require_active,
}
use sdk_reference.Access.{as_num, as_str, as_obj, item, item_as, get_as, get_or_as}
use sdk_reference.Escrow.Operations.{
  release_checks, undercut, release_commit, release_reply, release_op, reclaim_checks,
  reclaim_reply, reclaim_op, claim_reply,
}
use sdk_reference.Escrow.Operations.Mutation.{releasing, disputing}
use sdk_reference.Escrow.Agent.{
  run_cached, remember, on_escrow, cached_op, handle_op, do_lock, handle_lock, handle_release,
  handle_reclaim, status_reply,
}
use sdk_reference.Escrow.Agent.Caching.{Repeats}
use sdk_reference.Escrow.Agent.Dispatch.{
  Arrival, handler_of, call_handler, respond, sent_by, dispatch, read, serve_from, serve,
}
use sdk_reference.Escrow.Agent.Handling.{store}
use sdk_reference.Escrow.Agent.Idempotency.{Spares, handler-again}
use sdk_reference.Escrow.Agent.Serving.{handler}
use sdk_reference.Prelude.Sets.{Each, has}
use sdk_reference.Escrow.Agent.Locking.{Opened, do_lock-Opened, handle_lock-again}
use sdk_reference.Escrow.Agent.Replies.{Hashable, Answered, dispatch_replies}
use sdk_reference.Escrow.Agent.Service.{serve-value_le}
use sdk_reference.Escrow.Agent.Value.{IsSoundAgent, value}
use sdk_reference.Escrow.Client.{
  covers, status_from_dict, release_from_dict, reclaim_from_dict, claim_from_dict,
}
use sdk_reference.Escrow.Client.Remote.{remote, at_client, remote-handler, covers_known}
use sdk_reference.Escrow.Client.Replies.{view, status_from_dict-status_reply, replies_lem}
use sdk_reference.Escrow.Examples.{
  printing, moment, escrow, pending, disputed_escrow, with_ledger, no_escrow, agent, lock_params,
  release_params, reclaim_params, arrivals, escrow-IsSound, no_escrow-IsSoundAgent,
}

-- The three messages: 60 locked, 25 of it released, and the stranger refused.
serve_run :
    let (sent, a) = serve printing arrivals no_escrow in
    (balance a.ledger "buyer" ≡ pos 40) × (balance a.ledger "payee" ≡ pos 25) × (value a ≡ pos 100)
unfolding serve_from read has dispatch lookup handler_of call_handler handle_lock item_as item
    as_str run_cached remember do_lock as_num get_as get_or_as as_obj debit balance insert
    new_escrow make_request handle_release handle_op on_escrow cached_op release_op
    resolve_and_require_active effective_state resolve_claim resolve_expiry release_checks
    require_buyer require_positive_amount undercut release_commit release_funds settled_state payout
    was_paid credit handle_reclaim reclaim_op reclaim_checks value total_balance total remaining
    ◌-ℤ◌ ◌+ℤ◌ respond release_reply
serve_run = (refl, refl, refl)

serve-value_le_example :
    let a' = (serve printing arrivals no_escrow).1 in
    IsSoundAgent a' × (value a' ≤ℤ value no_escrow)
serve-value_le_example = serve-value_le printing arrivals no_escrow no_escrow-IsSoundAgent

-- Some time later, after a lock under another id, the refused reclaim and a status query.
abbrev in_between : List Arrival
in_between =
    record {
      at = record (moment (pos 21)) { fresh_id = "e2" };
      connection = "buyer";
      party = "buyer";
      message = make_request "acmp/escrowLock" lock_params "r4";
    }
    ∷ record {
      at = record (moment (pos 22)) { fresh_id = "e3" };
      connection = "stranger";
      party = "stranger";
      message = make_request "acmp/escrowReclaim" reclaim_params "r5";
    }
    ∷ []

apart : (x y : String) → (x == y) ≡ false → x ≢ y
apart x y h e = ground (arith, eq_iff x y)

spared : Each (Spares "e1") in_between
spared = (apart "e2" "e1" refl, (apart "e3" "e1" refl, tt))

abbrev retry_params : Object
retry_params = ("op_ref", str "op2") ∷ ("escrow_id", str "e1") ∷ []

-- The stranger's dispute under the release's `op_ref` gets the release's reply.
handler-again_example :
    let r = handle_release (moment (pos 20)) "buyer" release_params agent in
    let a' = (serve printing in_between r.1).1 in
    Repeats (r.0, a') (handler disputing (moment (pos 30)) "stranger" retry_params a')
unfolding lookup handle_release handle_op on_escrow cached_op run_cached remember item_as item
    as_str as_num release_op resolve_and_require_active effective_state resolve_claim resolve_expiry
    release_checks require_buyer require_positive_amount undercut release_commit release_funds
    settled_state payout new_escrow remaining ◌-ℤ◌ ◌+ℤ◌
handler-again_example =
    handler-again printing releasing disputing (moment (pos 20)) (moment (pos 30)) "buyer"
      "stranger" "e1" "op2" release_params retry_params
      (record { names_escrow = refl; names_op = refl })
      (record { names_escrow = refl; names_op = refl }) agent escrow refl tt in_between spared

handle_lock-again_example :
    let r = handle_lock (moment (pos 10)) "buyer" lock_params no_escrow in
    let a' = (serve printing in_between r.1).1 in
    Repeats (r.0, a') (handle_lock (moment (pos 30)) "stranger" (("op_ref", str "op1") ∷ []) a')
unfolding lookup handle_lock run_cached remember item_as item as_str as_num do_lock
    require_positive_amount get_as debit balance
handle_lock-again_example =
    handle_lock-again printing (moment (pos 10)) (moment (pos 30)) "buyer" "stranger" "op1"
      lock_params (("op_ref", str "op1") ∷ []) refl refl no_escrow tt in_between

do_lock-Opened_example :
    let b = (do_lock (moment (pos 10)) "buyer" lock_params no_escrow).1 in
    (b ≡ no_escrow) ⊎ Opened "e1" "buyer" no_escrow b
do_lock-Opened_example = do_lock-Opened (moment (pos 10)) "buyer" lock_params no_escrow

-- A list as method ends the loop of its connection, which reads no more.
abbrev strange : Object → Arrival
strange message = record {
  at = moment (pos 5);
  connection = "stranger";
  party = "stranger";
  message = message;
}

unhashable_run :
    serve printing
      (strange (("id", str "r0") ∷ ("method", arr nil) ∷ []) ∷ strange (("id", str "r1") ∷ []) ∷ [])
      no_escrow
    ≡ ([], no_escrow)
unfolding serve_from read has dispatch lookup
unhashable_run = refl

dispatch_replies_example :
    let message = make_request "acmp/escrowLock" lock_params "r1" in
    let method = lookup "method" message in
    ((id : Json)
      → Hashable method
      → id ≢ null
      → lookup "id" message ≡ some id
      → Answered id (sent_by (dispatch printing (moment (pos 10)) "buyer" message no_escrow).0))
    × (Hashable method
        → lookup "id" message ≡ none
        → dispatch printing (moment (pos 10)) "buyer" message no_escrow ≡ (ok [], no_escrow))
    × (¬ Hashable method
        → dispatch printing (moment (pos 10)) "buyer" message no_escrow
          ≡ (fault type_error, no_escrow))
dispatch_replies_example =
    dispatch_replies printing (moment (pos 10)) "buyer"
      (make_request "acmp/escrowLock" lock_params "r1") no_escrow

remote-handler_example :
    remote printing (moment (pos 10)) "buyer" "r1" "acmp/escrowLock" lock_params no_escrow ≡ (
      at_client printing (handle_lock (moment (pos 10)) "buyer" lock_params no_escrow).0,
      (handle_lock (moment (pos 10)) "buyer" lock_params no_escrow).1,
    )
unfolding handler_of
remote-handler_example =
    remote-handler printing (moment (pos 10)) "buyer" "r1" "acmp/escrowLock" handle_lock refl
      lock_params no_escrow

covers_known_example :
    let c = (effective_state (pos 10) (with_ledger escrow)).1 in
    covers (remote printing (moment (pos 10)) "payee" "r1") "op9" "e1" (pos 60) agent
    ≡ (ok (leb_ℤ (pos 60) (remaining c.esc)), store "e1" c agent)
unfolding lookup new_escrow
covers_known_example =
    covers_known printing (moment (pos 10)) "payee" "r1" "op9" "e1" (pos 60) agent escrow refl
      escrow-IsSound refl

status_from_dict-status_reply_example :
    status_from_dict (status_reply disputed_escrow) ≡ ok (view disputed_escrow)
status_from_dict-status_reply_example = status_from_dict-status_reply disputed_escrow

replies_lem_example :
    (release_from_dict (release_reply (pos 25, "payee") escrow)
      ≡ ok (record {
        escrow_id = "e1";
        released_cu = pos 25;
        remaining_cu = remaining escrow;
        state = "open";
      }))
    × (reclaim_from_dict (reclaim_reply (pos 25) escrow)
        ≡ ok (record {
          escrow_id = "e1";
          reclaimed_cu = pos 25;
          remaining_cu = remaining escrow;
          state = "open";
        }))
    × (claim_from_dict (claim_reply pending escrow)
        ≡ ok (record { escrow_id = "e1"; state = "open"; claim = claim_dict pending }))
unfolding new_escrow
replies_lem_example = replies_lem escrow (pos 25) "payee" pending
