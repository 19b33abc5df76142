-- ===== src/Examples.antt =====
-- Concrete messages of src/acmp/errors.py, messages.py and negotiation.py, written and read back.
mod Sessions
use sdk_reference.Prelude.{String, ◌≡◌, refl, none, some, [], ◌∷◌, true, false}
use sdk_reference.Prelude.Int.{pos}
use sdk_reference.Prelude.Text.{text_ne}
use sdk_reference.Json.{num, str, Object}
use sdk_reference.Exec.{Outcome, ok, bind}
use sdk_reference.Errors.{escrow, EscrowErrorCode, AcmpError, to_jsonrpc, resolve_code, int_value}
use sdk_reference.Errors.Wire.{from_jsonrpc}
use sdk_reference.Errors.RoundTrip.{from_jsonrpc-to_jsonrpc}
use sdk_reference.Messages.Task.{
  Task, to_params, from_params, Result, result_dict, result_from_dict,
}
use sdk_reference.Messages.Task.RoundTrip.{from_params-to_params, result_from_dict-result_dict}
use sdk_reference.Negotiation.{
  OfferRequest, request_params, request_from_params, Offer, offer_dict, offer_from_dict,
  request_offer,
}
use sdk_reference.Negotiation.RoundTrip.{
  request_from_params-request_params, offer_from_dict-offer_dict, request_offer_lem,
}

-- Test data.

abbrev not_found : AcmpError
not_found = record {
  code = escrow EscrowErrorCode.escrow_not_found;
  message = "Escrow not found";
  details = ("escrow_id", str "e1") ∷ [];
}

abbrev task : Task
task = record {
  capability = "summarize";
  input = some (record { type_name = "text"; content = str "hello" });
  task_id = "t1";
  output_type = "json";
  input_tokens_est = none;
  max_price_cu = some (pos 5);
  preferred_tier = none;
  timeout_ms = pos 30000;
  stream = true;
  input_stream = false;
  escrow_id = some "e1";
  proof_method = none;
  metadata = some (("k", num (pos 1)) ∷ []);
}

abbrev task_result : Result
task_result = record {
  task_id = "t1";
  output = none;
  tokens_used = pos 12;
  cost_cu = pos 3;
  output_streamed = true;
  proof = some (("hash", str "h") ∷ []);
  provider_id = none;
}

abbrev offer_request : OfferRequest
offer_request = record {
  capability = "summarize";
  max_price_cu = some (pos 5);
  max_latency_ms = none;
  preferred_tier = some "fast";
  proof_method = none;
  input_tokens_est = none;
  challenge_window_ms = some (pos 100);
  offer_valid_ms = none;
}

-- A provider that asks what the buyer offers at most.
abbrev quote_for : OfferRequest → Offer
quote_for q = record {
  offer_id = "o1";
  capability = q.capability;
  price_cu = pos 4;
  valid_until_ms = pos 5000;
  latency_sla_ms = none;
  proof_method = q.proof_method;
  challenge_window_ms = q.challenge_window_ms;
  sig = none;
}

abbrev request : String → Object → Outcome Object
request method params = bind (request_from_params params) λ q. ok (offer_dict (quote_for q))

-- Runs.

from_jsonrpc-to_jsonrpc_example :
    from_jsonrpc (to_jsonrpc not_found)
    ≡ ok (record not_found { code = resolve_code (int_value not_found.code) })
from_jsonrpc-to_jsonrpc_example = from_jsonrpc-to_jsonrpc not_found (text_ne _ _ refl)

from_params-to_params_example : from_params (to_params task) ≡ ok task
from_params-to_params_example = from_params-to_params task

result_from_dict-result_dict_example : result_from_dict (result_dict task_result) ≡ ok task_result
result_from_dict-result_dict_example = result_from_dict-result_dict task_result

request_offer_lem_example : request_offer request offer_request ≡ ok (quote_for offer_request)
request_offer_lem_example = request_offer_lem quote_for request (λ params. refl) offer_request
