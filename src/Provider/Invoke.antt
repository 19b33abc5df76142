-- ===== src/Provider/Invoke.antt =====
-- `acmp/invoke` in src/acmp/provider.py, cut where the code awaits: the request arrives, the checks
-- end with the answer of the escrow, and the handler of the capability ends.
pub mod Replay
pub mod Priced
use sdk_reference.Prelude.{
  String, Bool, true, false, not, ◌&&◌, Option, none, some, List, [], ◌∷◌, ◌==◌, ◌<◌, if◌then◌else◌,
  ltb,
}
use sdk_reference.Prelude.Int.{ℤ, ltb_ℤ}
use sdk_reference.Prelude.Dict.{Dict, lookup, insert, delete}
use sdk_reference.Json.{Json, num, str, Object}
use sdk_reference.Errors.{ErrorCode, layer1, AcmpError, acmp_error, to_jsonrpc}
use sdk_reference.Exec.{Outcome, ok, raised, fault, Fault, runtime_error, bind, raise_if}
use sdk_reference.Access.{as_str, as_obj, item, item_as}
use sdk_reference.Messages.{make_result_response, make_error_response}
use sdk_reference.Messages.Task.{Payload, Task, from_params, Result, result_dict}
use sdk_reference.TaskContext.{TaskContext, Chunk, new_context, feed_all}
use sdk_reference.Provider.{
  Capability, Cached, cached_result, cached_error, Provider, over_budget, reply_error,
}

-- The cached outcome, in an envelope for this request.
unfoldable pub replay : Json → Cached → List Object
replay req_id (cached_result content) = make_result_response req_id content ∷ []
replay req_id (cached_error error) = make_error_response req_id error ∷ []

-- A request is answered from the cache, or its task is read.
pub data Arrival : Type 0 where
  replayed : List Object → Arrival
  parsed : (req_id : Json) → (task_id : String) → Outcome Task → Arrival

abbrev pub arrival : Json → String → Object → Option Cached → Arrival
arrival req_id task_id params (some c) = replayed (replay req_id c)
arrival req_id task_id params none = parsed req_id task_id (from_params params)

unfoldable pub receive_invoke : Object → Provider → Outcome Arrival
receive_invoke message p = bind (item message "id") λ req_id.
    bind (item_as as_obj message "params") λ params.
      bind (item_as as_str params "task_id")
        λ task_id. ok (arrival req_id task_id params (lookup task_id p.result_cache))

abbrev pub task_error : ErrorCode → Option String → String → List (String × Json) → AcmpError
task_error code text task_id more =
    acmp_error (layer1 code) text (some (("task_id", str task_id) ∷ more))

abbrev is_none : Option Payload → Bool
is_none none = true
is_none (some p) = false

unfoldable pub check_features : Task → Provider → Outcome (Unit {0})
check_features t p =
    bind
      (raise_if (t.stream && not p.output_streaming) (
        task_error ErrorCode.feature_unsupported none t.task_id
          (("feature", str "output_streaming") ∷ [])))
      λ _.
        bind
          (raise_if (t.input_stream && not p.input_streaming) (
            task_error ErrorCode.feature_unsupported none t.task_id
              (("feature", str "input_streaming") ∷ [])))
          λ _. raise_if (is_none t.input && not t.input_stream) (
            task_error ErrorCode.internal
              (some "invoke params carry no input and input_stream is false") t.task_id [])

-- `covers` is awaited only for a task with an escrow, by a provider that checks escrows.
abbrev pub check_escrow : Bool → Option String → Outcome Bool → String → Outcome (Unit {0})
check_escrow true (some escrow_id) answer task_id = bind answer λ covered.
    raise_if (not covered)
      (task_error ErrorCode.escrow_invalid none task_id (("escrow_id", str escrow_id) ∷ []))
check_escrow true none answer task_id = ok tt
check_escrow false escrow_id answer task_id = ok tt

abbrev pub found_capability : Task → Option Capability → Outcome Capability
found_capability t none = raised (
    task_error ErrorCode.capability_not_found none t.task_id
      (("capability", str t.capability) ∷ []))
found_capability t (some cap) = ok cap

-- The f-string of the budget error.
module _ (budget_text : String → ℤ → String) where
  -- `_execute` up to the start of the handler, given the answer of the escrow.
  unfoldable pub admit : Outcome Bool → Task → Provider → Outcome Capability
  admit answer t p = bind (found_capability t (lookup t.capability p.capabilities)) λ cap.
      bind
        (raise_if (over_budget cap.price_cu t.max_price_cu) (
          task_error ErrorCode.budget_exceeded none t.task_id (
            ("min_price_cu", num cap.price_cu)
            ∷ ("detail", str (budget_text t.capability cap.price_cu))
            ∷ [])))
        λ _.
          bind (check_escrow p.has_escrow t.escrow_id answer t.task_id)
            λ _. bind (check_features t p) λ _. ok cap

-- `self._pending_input.pop(task_id, [])`
abbrev pub waiting : Option (List (ℤ × Chunk)) → List (ℤ × Chunk)
waiting none = []
waiting (some chunks) = chunks

-- The context takes over the chunks that came before it, and is registered.
unfoldable pub start_task : Task → Provider → Provider
start_task t p =
    let ctx = feed_all (waiting (lookup t.task_id p.pending_input)) (new_context t) in
    record p {
      pending_input = delete t.task_id p.pending_input;
      running = insert t.task_id ctx p.running;
    }

-- How a handler ends.
pub data HandlerEnd : Type 0 where
  gave : Option Payload → HandlerEnd
  raised_error : AcmpError → HandlerEnd
  failed : Fault → HandlerEnd
  was_cancelled : HandlerEnd

abbrev pub handler_output : String → HandlerEnd → Outcome (Option Payload)
handler_output task_id (gave output) = ok output
handler_output task_id (raised_error e) = raised e
handler_output task_id (failed x) = fault x
handler_output task_id was_cancelled = raised (task_error ErrorCode.cancelled none task_id [])

abbrev pub no_proof : String → Option String → Outcome (Unit {0})
no_proof task_id none = ok tt
no_proof task_id (some method) = raised (
    task_error ErrorCode.proof_unsupported none task_id
      (("detail", str "proof over streamed output is not implemented in this SDK") ∷ []))

-- A final chunk was sent: no output may be returned beside it.
abbrev pub streamed_result : String → Capability → Task → Option Payload → Outcome Object
streamed_result provider_id cap t (some output) =
    fault (runtime_error "handler returned an output after emitting final=True")
streamed_result provider_id cap t none = bind (no_proof t.task_id t.proof_method) λ _. ok (
    result_dict (record {
      task_id = t.task_id;
      output = none;
      tokens_used = cap.tokens_per_call;
      cost_cu = cap.price_cu;
      output_streamed = true;
      proof = none;
      provider_id = some provider_id;
    }))

-- `result_hash` stands for the `sha256` over the canonical JSON of an output.
module _ (result_hash : Payload → String) where
  abbrev pub proof_of : Task → Option String → Payload → Outcome (Option Object)
  proof_of t none output = ok none
  proof_of t (some method) output =
      if method == "result-hash"
      then ok (some (("method", str "result-hash") ∷ ("hash", str (result_hash output)) ∷ []))
      else raised (
          task_error ErrorCode.proof_unsupported none t.task_id (("proof_method", str method) ∷ []))

  abbrev pub direct_result : String → Capability → Task → Option Payload → Outcome Object
  direct_result provider_id cap t none =
      fault (runtime_error "handler returned no output and streamed none")
  direct_result provider_id cap t (some output) = bind (proof_of t t.proof_method output) λ proof.
      ok (
        result_dict (record {
          task_id = t.task_id;
          output = some output;
          tokens_used = cap.tokens_per_call;
          cost_cu = cap.price_cu;
          output_streamed = false;
          proof = proof;
          provider_id = some provider_id;
        }))

  abbrev pub result_for : String → Capability → TaskContext → Option Payload → Outcome Object
  result_for provider_id cap ctx output =
      if ctx.output_final_sent
      then streamed_result provider_id cap ctx.task output
      else if ltb 0 ctx.emitted_chunks
      then fault (runtime_error "handler emitted chunks but never sent final=True")
      else direct_result provider_id cap ctx.task output

  -- `_execute` from the end of the handler on.
  unfoldable pub conclude : String → Capability → TaskContext → HandlerEnd → Outcome Object
  conclude provider_id cap ctx end =
      bind (handler_output ctx.task.task_id end) λ output. result_for provider_id cap ctx output

module _ (fault_text : Fault → String) where
  -- The outcome as it is cached: any other exception is an internal error.
  abbrev pub cached_outcome : Outcome Object → Cached
  cached_outcome (ok content) = cached_result content
  cached_outcome (raised e) = cached_error (to_jsonrpc e)
  cached_outcome (fault x) =
      cached_error (to_jsonrpc (acmp_error (layer1 ErrorCode.internal) (some (fault_text x)) none))

  unfoldable pub finish_invoke : Json → String → Outcome Object → Provider → List Object × Provider
  finish_invoke req_id task_id outcome p = (
    replay req_id (cached_outcome outcome),
    record p { result_cache = insert task_id (cached_outcome outcome) p.result_cache },
  )

  abbrev pub started : Json → Task → Outcome Capability → Provider → List Object × Provider
  started req_id t (ok cap) p = ([], start_task t p)
  started req_id t (raised e) p = finish_invoke req_id t.task_id (raised e) p
  started req_id t (fault x) p = finish_invoke req_id t.task_id (fault x) p

  -- The checks have ended: the handler starts, or the error is sent.
  abbrev pub begin_invoke :
      (String → ℤ → String) → Json → Task → Outcome Bool → Provider → List Object × Provider
  begin_invoke budget_text req_id t answer p = started req_id t (admit budget_text answer t p) p

  -- The task of a request that has arrived, if its parameters can be read.
  abbrev pub begin_parsed :
      (String → ℤ → String)
      → Json
      → String
      → Outcome Task
      → Outcome Bool
      → Provider
      → List Object × Provider
  begin_parsed budget_text req_id task_id (ok t) answer p =
      begin_invoke budget_text req_id t answer p
  begin_parsed budget_text req_id task_id (raised e) answer p =
      finish_invoke req_id task_id (raised e) p
  begin_parsed budget_text req_id task_id (fault x) answer p =
      finish_invoke req_id task_id (fault x) p

  -- The handler has ended, with the context that it was given.
  abbrev pub end_invoke :
      (Payload → String)
      → Json
      → Capability
      → TaskContext
      → HandlerEnd
      → Provider
      → List Object × Provider
  end_invoke result_hash req_id cap ctx end p =
      let t = ctx.task in
      finish_invoke req_id t.task_id (conclude result_hash p.provider_id cap ctx end)
        (record p { running = delete t.task_id p.running })
