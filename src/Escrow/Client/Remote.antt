-- ===== src/Escrow/Client/Remote.antt =====
-- A client's request all the way to the agent and back.
use sdk_reference.Prelude.{String, ◌≡◌, refl, true, false, none, some, [], ◌∷◌, ◌==◌, ◌||◌, arith}
use sdk_reference.Prelude.Int.{ℤ, leb_ℤ}
use sdk_reference.Prelude.Dict.{lookup}
use sdk_reference.Json.{Json, str, Object, entries-fields}
use sdk_reference.Errors.{
  escrow, EscrowErrorCode, AcmpError, acmp_error, int_value, resolve_code, to_jsonrpc,
}
use sdk_reference.Errors.Wire.{from_jsonrpc}
use sdk_reference.Errors.RoundTrip.{from_jsonrpc-to_jsonrpc}
use sdk_reference.Exec.{Outcome, ok, raised, fault, bind, Exec}
use sdk_reference.Access.{as_str, as_obj, item, item_as, get_or_as}
use sdk_reference.Messages.{make_request, make_result_response, make_error_response}
use sdk_reference.Buyer.{read_response, await_response}
use sdk_reference.Escrow.{Escrow, remaining}
use sdk_reference.Escrow.Ledger.{escrow_error}
use sdk_reference.Escrow.Cell.{Cell, Moment, is_payee, require_party, effective_state}
use sdk_reference.Escrow.Cell.Sound.{IsSound, effective_state_ok}
use sdk_reference.Escrow.Agent.{Agent, on_escrow, status_op, status_reply, handle_status}
use sdk_reference.Escrow.Agent.Handling.{store}
use sdk_reference.Escrow.Cell.Frame.{effective_state-SameIdentity}
use sdk_reference.Escrow.Operations.Worded.{message-escrow_error}
use sdk_reference.Escrow.Agent.Dispatch.{
  Printing, Handler, handler_of, respond, call_handler, sent_by, dispatch,
}
use sdk_reference.Escrow.Client.{status, covers}
use sdk_reference.Escrow.Client.Replies.{status_from_dict-status_reply}

module _ (print : Printing) where
  -- `Buyer.request` over a connection to the agent: the agent handles the request before anything
  -- else reaches it.
  unfoldable pub remote : Moment → String → String → String → Object → Exec Agent Object
  remote at party req_id method params a =
      let (r, a') = dispatch print at party (make_request method params req_id) a in
      (await_response (sent_by r), a')

  -- What a handler's outcome becomes at the client.
  abbrev pub at_client : Outcome Object → Outcome Object
  at_client (ok r) = ok r
  at_client (raised e) = bind (from_jsonrpc (to_jsonrpc e)) raised
  at_client (fault x) =
      bind
        (from_jsonrpc (
          to_jsonrpc
            (acmp_error (escrow EscrowErrorCode.internal) (some (print.fault_text x)) none)))
        raised

  await-respond :
      (req_id : Json) (o : Outcome Object)
      → await_response (respond print req_id o ∷ []) ≡ at_client o
  unfolding await_response read_response respond make_result_response make_error_response item_as
      item lookup as_obj
  await-respond req_id (ok r) = simp entries-fields refl
  await-respond req_id (raised e) = simp entries-fields refl
  await-respond req_id (fault x) = simp entries-fields refl

  -- A request under a method of the table is the call of that method's handler: the agent changes as
  -- the handler changes it, and the client gets the handler's outcome, an error rebuilt from its
  -- error object and any other exception as an internal error.
  pub remote-handler :
      (at : Moment) (party req_id method : String) (h : Handler)
      → handler_of method ≡ some h
      → (params : Object) (a : Agent)
      → remote at party req_id method params a
        ≡ (at_client (h at party params a).0, (h at party params a).1)
  unfolding remote dispatch make_request call_handler get_or_as lookup as_obj
  remote-handler at party req_id method h known params a =
      simp (known, entries-fields, await-respond) refl

abbrev unknown_escrow : String → AcmpError
unknown_escrow id = escrow_error EscrowErrorCode.escrow_not_found (("escrow_id", str id) ∷ [])

-- A status query by the buyer or the payee succeeds.
status_op_ok :
    (at : Moment) (party : String) (c : Cell)
    → IsSound c.esc
    → (party == c.esc.buyer_id || is_payee party c.esc.payee_id) ≡ true
    → let c' = (effective_state at.now c).1 in status_op at party c ≡ (ok (status_reply c'.esc), c')
unfolding status_op require_party
status_op_ok at party c s h =
    let same = effective_state-SameIdentity at.now c s in
    rw (effective_state_ok at.now c s, same.buyer, same.payee) (ground arith)

module _ (print : Printing) (at : Moment) (party req_id fresh id : String) (n : ℤ) (a : Agent) where
  -- For a sound escrow that the agent holds and whose buyer or payee asks, `covers` answers whether what
  -- remains once time is resolved is at least the amount.
  pub covers_known :
      (e : Escrow)
      → lookup id a.escrows ≡ some e
      → IsSound e
      → (party == e.buyer_id || is_payee party e.payee_id) ≡ true
      → let c = (effective_state at.now (record { esc = e; ledger = a.ledger })).1 in
        covers (remote print at party req_id) fresh id n a
        ≡ (ok (leb_ℤ n (remaining c.esc)), store id c a)
  unfolding covers status handle_status on_escrow item_as item lookup as_str handler_of
  covers_known e found s allowed =
      rw
        (
          remote-handler print at party req_id "acmp/escrowStatus" handle_status refl,
          found,
          status_op_ok at party (record { esc = e; ledger = a.ledger }) s allowed,
          status_from_dict-status_reply,
        )
        refl

  -- For an id that the agent does not know, `covers` answers no and raises nothing.
  pub covers_unknown :
      lookup id a.escrows ≡ none
      → covers (remote print at party req_id) fresh id n a ≡ (ok false, a)
  unfolding covers status handle_status on_escrow item_as item lookup as_str handler_of int_value
      resolve_code acmp_error
  covers_unknown absent =
      rw
        (
          remote-handler print at party req_id "acmp/escrowStatus" handle_status refl,
          absent,
          from_jsonrpc-to_jsonrpc (unknown_escrow id)
              (message-escrow_error EscrowErrorCode.escrow_not_found (("escrow_id", str id) ∷ [])),
        )
        refl
