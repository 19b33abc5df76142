-- ===== src/Escrow/Agent/Dispatch.antt =====
-- `EscrowAgent._dispatch` and `serve` of src/acmp/escrow.py: one message, and the messages
-- of all connections in turn. What is sent over the transport is the list that a call returns.
use sdk_reference.Prelude.{String, Option, none, some, List, [], ◌∷◌, ◌++◌, ◌==◌, if◌then◌else◌}
use sdk_reference.Prelude.Int.{ℤ, negsuc}
use sdk_reference.Prelude.Dict.{lookup}
use sdk_reference.Json.{Json, null, num, str, arr, obj, Object}
use sdk_reference.Errors.{escrow, EscrowErrorCode, acmp_error, to_jsonrpc}
use sdk_reference.Prelude.Sets.{has}
use sdk_reference.Exec.{Outcome, ok, raised, fault, Fault, type_error, Exec, ◌>>=◌, lift}
use sdk_reference.Access.{as_obj, get_or_as}
use sdk_reference.Messages.{make_result_response, make_error_response}
use sdk_reference.Escrow.Cell.{Moment}
use sdk_reference.Escrow.Agent.{
  Agent, handle_lock, handle_bind, handle_release, handle_reclaim, handle_claim, handle_dispute,
  handle_status,
}

-- How Python prints what the model does not: `str(exc)`, and `method` in an f-string.
pub record Printing : Type 0 where
  pub fault_text : Fault → String
  pub not_found_text : Option Json → String

-- A message as it reaches the agent: when, on whose connection, and what.
pub record Arrival : Type 0 where
  pub at : Moment
  pub connection : String
  pub party : String
  pub message : Object

-- `_METHOD_NOT_FOUND`
abbrev pub method_not_found : ℤ
method_not_found = negsuc 32600

abbrev pub Handler : Type 0
Handler = Moment → String → Object → Exec Agent Object

-- The table of handlers.
unfoldable pub handler_of : String → Option Handler
handler_of method =
    if method == "acmp/escrowLock"
    then some handle_lock
    else if method == "acmp/escrowBind"
    then some handle_bind
    else if method == "acmp/escrowRelease"
    then some handle_release
    else if method == "acmp/escrowReclaim"
    then some handle_reclaim
    else if method == "acmp/escrowClaim"
    then some handle_claim
    else if method == "acmp/escrowDispute"
    then some handle_dispute
    else if method == "acmp/escrowStatus"
    then some handle_status
    else none

-- `{…}.get(method)`: only a text can be a key of the table, and a list or a dict cannot even be
-- looked up, since it has no hash.
abbrev pub find_handler : Option Json → Outcome (Option Handler)
find_handler (some (str method)) = ok (handler_of method)
find_handler (some (arr vs)) = fault type_error
find_handler (some (obj d)) = fault type_error
find_handler _ = ok none

-- What a dispatch has sent.
abbrev pub sent_by : Outcome (List Object) → List Object
sent_by (ok sent) = sent
sent_by _ = []

module _ (print : Printing) where
  -- The response to a handled request.
  unfoldable pub respond : Json → Outcome Object → Object
  respond req_id (ok r) = make_result_response req_id r
  respond req_id (raised e) = make_error_response req_id (to_jsonrpc e)
  respond req_id (fault x) =
      make_error_response req_id
        (to_jsonrpc (acmp_error (escrow EscrowErrorCode.internal) (some (print.fault_text x)) none))

  -- The reply to an unknown method, if the message has an id at all.
  unfoldable pub unknown_method : Option Json → Option Json → List Object
  unknown_method none method = []
  unknown_method (some req_id) method =
      make_error_response req_id
        (("code", num method_not_found) ∷ ("message", str (print.not_found_text method)) ∷ [])
      ∷ []

  -- `handler(party_id, message.get("params", {}))`
  unfoldable pub call_handler : Handler → Moment → String → Object → Exec Agent Object
  call_handler handler at party message = do
    params ← lift (get_or_as as_obj [] message "params")
    handler at party params

  -- A request with no id is dropped before its handler runs.
  abbrev pub answer : Handler → Moment → String → Object → Option Json → Agent → List Object × Agent
  answer handler at party message none a = ([], a)
  answer handler at party message (some null) a = ([], a)
  answer handler at party message (some req_id) a =
      let (r, a') = call_handler handler at party message a in (respond req_id r ∷ [], a')

  abbrev pub handled : Option Handler → Moment → String → Object → Agent → List Object × Agent
  handled none at party message a =
      (unknown_method (lookup "id" message) (lookup "method" message), a)
  handled (some handler) at party message a =
      answer handler at party message (lookup "id" message) a

  -- The lookup stands outside the `try`, so its exception leaves `_dispatch` before anything is sent.
  abbrev pub dispatched :
      Outcome (Option Handler) → Moment → String → Object → Exec Agent (List Object)
  dispatched (ok h) at party message a =
      let (sent, a') = handled h at party message a in (ok sent, a')
  dispatched (raised e) at party message a = (raised e, a)
  dispatched (fault x) at party message a = (fault x, a)

  -- The value is the messages sent.
  unfoldable pub dispatch : Moment → String → Object → Exec Agent (List Object)
  dispatch at party message a =
      dispatched (find_handler (lookup "method" message)) at party message a

  -- A connection whose loop has ended reads no more.
  unfoldable pub read : List String → Arrival → Exec Agent (List Object)
  read ended m a = if has m.connection ended then (ok [], a) else dispatch m.at m.party m.message a

  -- `serve` catches `TransportClosed` alone: any exception that leaves `_dispatch` ends the loop.
  abbrev pub ended_after : String → Outcome (List Object) → List String → List String
  ended_after connection (ok sent) ended = ended
  ended_after connection _ ended = connection ∷ ended

  -- The `serve` loops of all connections, of which those in `ended` have ended: each message is
  -- handled before the next one, since no handler awaits, so the connections interleave message by
  -- message.
  unfoldable pub serve_from : List String → List Arrival → Agent → List Object × Agent
  serve_from ended [] a = ([], a)
  serve_from ended (m ∷ rest) a =
      let (r, a') = read ended m a in
      let (more, a'') = serve_from (ended_after m.connection r ended) rest a' in
      (sent_by r ++ more, a'')

  abbrev pub serve : List Arrival → Agent → List Object × Agent
  serve ms a = serve_from [] ms a
