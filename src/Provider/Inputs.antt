-- ===== src/Provider/Inputs.antt =====
-- The other messages of src/acmp/provider.py: `acmp/cancel`, `acmp/inputChunk`, and the dispatch on
-- the method.
pub mod Ahead
use sdk_reference.Prelude.{
  ℕ, leb, String, Bool, true, false, Option, none, some, List, [], ◌∷◌, ◌++◌, ◌==◌, if◌then◌else◌,
}
use sdk_reference.Prelude.Int.{ℤ, negsuc}
use sdk_reference.Prelude.Dict.{Dict, lookup, insert}
use sdk_reference.Json.{Json, num, str, Object}
use sdk_reference.Exec.{Outcome, ok, bind}
use sdk_reference.Access.{as_num, as_str, as_bool, as_obj, item_as, get_or_as}
use sdk_reference.Messages.{make_error_response, make_notification}
use sdk_reference.Messages.Task.{Payload, as_payload}
use sdk_reference.TaskContext.{TaskContext, Chunk, feed_input}
use sdk_reference.Provider.{Capability, Provider}
use sdk_reference.Provider.Invoke.{waiting}

-- `ctx.cancel_event.set()`; the handler that is cancelled ends with `was_cancelled`, unless it
-- catches that.
abbrev pub set_cancelled : String → Option TaskContext → Provider → Provider
set_cancelled task_id none p = p
set_cancelled task_id (some ctx) p = record p {
  running = insert task_id (record ctx { cancel_event = true }) p.running;
}

unfoldable pub handle_cancel : Object → Provider → Outcome Provider
handle_cancel message p = bind (item_as as_obj message "params") λ params.
    bind (item_as as_str params "task_id")
      λ task_id. ok (set_cancelled task_id (lookup task_id p.running) p)

-- A chunk for a running task goes to its context, and any other is held.
abbrev pub deliver : String → ℤ → Chunk → Option TaskContext → Provider → Provider
deliver task_id seq chunk (some ctx) p = record p {
  running = insert task_id (feed_input seq chunk ctx) p.running;
}
deliver task_id seq chunk none p = record p {
  pending_input =
      insert task_id (waiting (lookup task_id p.pending_input) ++ (seq, chunk) ∷ [])
        p.pending_input;
}

unfoldable pub take_chunk : String → ℤ → Chunk → Provider → Provider
take_chunk task_id seq chunk p = deliver task_id seq chunk (lookup task_id p.running) p

unfoldable pub handle_input_chunk : Object → Provider → Outcome Provider
handle_input_chunk message p = bind (item_as as_obj message "params") λ params.
    bind (item_as as_str params "task_id") λ task_id.
      bind (item_as as_payload params "chunk") λ chunk. bind (item_as as_num params "seq") λ seq.
        bind (get_or_as as_bool false params "final")
          λ final. ok (take_chunk task_id seq (chunk, final) p)

-- The methods that have a handler.
pub data Route : Type 0 where
  invoke cancel input_chunk offer_request accept unknown : Route

unfoldable pub route : String → Route
route method =
    if method == "acmp/invoke"
    then invoke
    else if method == "acmp/cancel"
    then cancel
    else if method == "acmp/inputChunk"
    then input_chunk
    else if method == "acmp/offerRequest"
    then offer_request
    else if method == "acmp/accept"
    then accept
    else unknown

-- `_METHOD_NOT_FOUND`
abbrev pub method_not_found : ℤ
method_not_found = negsuc 32600

-- The answer to an unknown method: none to a notification.
abbrev pub reply_unknown : String → Option Json → List Object
reply_unknown shown none = []
reply_unknown shown (some req_id) =
    make_error_response req_id (("code", num method_not_found) ∷ ("message", str shown) ∷ []) ∷ []

-- `shown` is the f-string of the method.
unfoldable pub unknown_method : String → Object → List Object
unknown_method shown message = reply_unknown shown (lookup "id" message)

-- `register`; the arity of the handler decides its flavour.
unfoldable pub register : String → ℤ → ℤ → Option ℤ → ℕ → Provider → Provider
register name price_cu tokens_per_call latency_sla_ms arity p =
    let cap : Capability = record {
      price_cu = price_cu;
      tokens_per_call = tokens_per_call;
      latency_sla_ms = latency_sla_ms;
      context_aware = leb 2 arity;
    } in
    record p { capabilities = insert name cap p.capabilities }

-- One turn of `_keepalive_loop`: a bare heartbeat.
unfoldable pub keepalive : String → List Object
keepalive task_id = make_notification "acmp/heartbeat" (("task_id", str task_id) ∷ []) ∷ []
