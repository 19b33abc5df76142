-- ===== src/Examples/Sessions.antt =====
-- Streams, retries and responses at concrete values.
use sdk_reference.Prelude.{String, ◌≡◌, refl, true, false, none, some, List, [], ◌∷◌, arith}
use sdk_reference.Prelude.Int.{ℤ, pos}
use sdk_reference.Prelude.Dict.{lookup, insert}
use sdk_reference.Prelude.Sets.{has, discard}
use sdk_reference.Json.{num, str, Object}
use sdk_reference.Exec.{ok, Fault}
use sdk_reference.Messages.{make_request, make_result_response}
use sdk_reference.Messages.Task.{Payload, Task, to_params, Result, result_dict, result_from_dict}
use sdk_reference.TaskContext.{TaskContext, Chunk, new_context, feed_all}
use sdk_reference.TaskContext.Delivery.{upto, arrived, feed_all_in_order}
use sdk_reference.TaskContext.Emission.{emit_calls, numbered, emit_calls-numbered}
use sdk_reference.Transport.Calls.{buyer_sends, provider_receives, buyer_closes, calls, fresh}
use sdk_reference.Transport.Fifo.{IsDelivered, calls-IsDelivered}
use sdk_reference.Buyer.{Buyer, waiting, resolved, resolve, read_message, read_all}
use sdk_reference.Buyer.Reader.{first_answer, awaited, read_all-first_answer}
use sdk_reference.Prelude.{ap, eq_iff}
use sdk_reference.Exec.{ok-inj}
use sdk_reference.Access.{as_obj, item_as}
use sdk_reference.Prelude.Sets.{Each}
use sdk_reference.Provider.{Capability, cached_result, Provider}
use sdk_reference.Provider.Session.{
  Session, checking, Event, invoked, checked, cancelled, step, steps,
}
use sdk_reference.Provider.Session.Keeping.{Apart}
use sdk_reference.Provider.Inputs.{handle_cancel}
use sdk_reference.Provider.Invoke.{
  replay, replayed, receive_invoke, admit, check_features, gave, conclude, cached_outcome,
  finish_invoke, start_task,
}
use sdk_reference.Provider.Invoke.Replay.{retry-replayed}
use sdk_reference.Provider.Invoke.Priced.{IsWithin, conclude-IsWithin}
use sdk_reference.Provider.Inputs.{take_chunk}
use sdk_reference.Provider.Inputs.Ahead.{take_chunk-start_task}

-- Test data.

abbrev number : ℤ → Chunk
number s = (record { type_name = "json"; content = num s }, false)

abbrev output : Payload
output = record { type_name = "text"; content = str "done" }

abbrev streaming : Task
streaming = record {
  capability = "count";
  input = some output;
  task_id = "t1";
  output_type = "json";
  input_tokens_est = none;
  max_price_cu = some (pos 5);
  preferred_tier = none;
  timeout_ms = pos 30000;
  stream = true;
  input_stream = true;
  escrow_id = none;
  proof_method = none;
  metadata = none;
}

abbrev counting : Capability
counting = record {
  price_cu = pos 4;
  tokens_per_call = pos 10;
  latency_sla_ms = none;
  context_aware = true;
}

abbrev provider : Provider
provider = record {
  provider_id = "p1";
  has_escrow = false;
  output_streaming = true;
  input_streaming = true;
  capabilities = ("count", counting) ∷ [];
  result_cache = [];
  offers = [];
  running = [];
  pending_input = [];
}

abbrev fault_text : Fault → String
fault_text x = "fault"

abbrev budget_text : String → ℤ → String
budget_text capability price = "Minimum price"

abbrev hash : Payload → String
hash p = "sha256:0"

abbrev buyer : Buyer
buyer = record {
  futures = ("r1", waiting) ∷ ("r2", waiting) ∷ [];
  pending = "r1" ∷ "r2" ∷ [];
  listeners = [];
  input_seq = [];
}

-- Statements.

-- The second chunk comes first.
abbrev reordered : List (ℤ × Chunk)
reordered = (pos 1, number (pos 1)) ∷ (pos 0, number (pos 0)) ∷ []

feed_all_in_order_example : (feed_all reordered (new_context streaming)).in_queue ≡ upto number 2
unfolding arrived
feed_all_in_order_example =
    feed_all_in_order number streaming reordered 2 (refl, (refl, tt)) (λ m lt. ground arith) refl

emit_calls-numbered_example :
    (emit_calls ((output, false) ∷ (output, true) ∷ (output, false) ∷ []) (new_context streaming)).0
    ≡ numbered "t1" 0 ((output, false) ∷ (output, true) ∷ (output, false) ∷ [])
emit_calls-numbered_example =
    emit_calls-numbered ((output, false) ∷ (output, true) ∷ (output, false) ∷ [])
      (new_context streaming) refl refl

calls-IsDelivered_example : IsDelivered (
    calls
      (buyer_sends [] ∷ buyer_closes ∷ provider_receives ∷ buyer_sends [] ∷ provider_receives ∷ [])
      fresh)
calls-IsDelivered_example =
    calls-IsDelivered
      (buyer_sends [] ∷ buyer_closes ∷ provider_receives ∷ buyer_sends [] ∷ provider_receives ∷ [])

-- The responses come in the other order.
abbrev responses : List Object
responses = make_result_response (str "r2") [] ∷ make_result_response (str "r1") [] ∷ []

abbrev answered : Buyer
answered = record buyer {
  futures =
      ("r1", resolved (make_result_response (str "r1") []))
      ∷ ("r2", resolved (make_result_response (str "r2") []))
      ∷ [];
  pending = [];
}

responses-read : read_all responses buyer ≡ ok ([], answered)
unfolding read_all read_message resolve has discard lookup insert make_result_response
responses-read = refl

read_all-first_answer_example :
    lookup "r1" answered.futures ≡ some (awaited (first_answer "r1" responses))
unfolding lookup has
read_all-first_answer_example =
    read_all-first_answer "r1" responses buyer answered [] refl refl refl responses-read

-- While the outcome of `t1` is cached, the run of another task ends and caches its own.
abbrev other_task : Task
other_task = record streaming { task_id = "t9"; capability = "unknown" }

abbrev session : Session
session = record { provider = provider; runs = checking (str "r9") "t9" (ok other_task) ∷ [] }

abbrev events : List Event
events = checked 0 (ok true) ∷ cancelled (make_request "acmp/cancel" [] "r3") ∷ []

other-Apart : Each (Apart "t1") session.runs
other-Apart = (
  (
    λ same. ground (arith, eq_iff "t9" "t1"),
    λ u is same. ground (arith, eq_iff "t9" "t1", ap (λ (t : Task). t.task_id) (ok-inj is)),
  ),
  tt,
)

retry-replayed_example :
    let p = (finish_invoke fault_text (str "r1") "t1" (ok []) provider).1 in
    let s' = steps budget_text fault_text hash events (record session { provider = p }) in
    let request = make_request "acmp/invoke" (to_params streaming) "r2" in
    (receive_invoke request s'.provider
      ≡ ok (replayed (replay (str "r2") (cached_outcome fault_text (ok [])))))
    × (step budget_text fault_text hash (invoked request) s' ≡ s')
retry-replayed_example =
    retry-replayed budget_text fault_text hash (str "r1") "r2" streaming (ok []) session other-Apart
      events

-- After them both outcomes are cached.
session-cached :
    let p = (finish_invoke fault_text (str "r1") "t1" (ok []) provider).1 in
    let s' = steps budget_text fault_text hash events (record session { provider = p }) in
    (s'.runs ≡ []) × (lookup "t1" s'.provider.result_cache ≡ some (cached_result []))
unfolding finish_invoke steps step admit lookup insert handle_cancel item_as make_request as_obj
session-cached = (refl, refl)

take_chunk-start_task_example :
    start_task streaming (take_chunk "t1" (pos 0) (number (pos 0)) provider)
    ≡ take_chunk "t1" (pos 0) (number (pos 0)) (start_task streaming provider)
unfolding lookup
take_chunk-start_task_example =
    take_chunk-start_task streaming (pos 0) (number (pos 0)) provider refl

-- A context whose handler has sent its final chunk.
abbrev ended : TaskContext
ended = record (new_context streaming) { out_seq = 1; emitted_chunks = 1; output_final_sent = true }

abbrev content : Object
content = result_dict (record {
  task_id = "t1";
  output = none;
  tokens_used = pos 10;
  cost_cu = pos 4;
  output_streamed = true;
  proof = none;
  provider_id = some "p1";
})

streaming-admitted : admit budget_text (ok true) streaming provider ≡ ok counting
unfolding admit check_features lookup
streaming-admitted = refl

ended-content : conclude hash "p1" counting ended (gave none) ≡ ok content
unfolding conclude
ended-content = refl

conclude-IsWithin_example :
    (r : Result) × (result_from_dict content ≡ ok r)
    × (r.task_id ≡ "t1")
    × IsWithin r.cost_cu (some (pos 5))
    × (r.output_streamed ≡ true)
conclude-IsWithin_example =
    conclude-IsWithin budget_text hash (ok true) ended provider counting (gave none) content
      streaming-admitted ended-content
