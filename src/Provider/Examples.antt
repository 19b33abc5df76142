-- ===== src/Provider/Examples.antt =====
-- Concrete offers, and their acceptance.
use sdk_reference.Prelude.{String, ◌≡◌, refl, true, false, none, some, List, [], ◌∷◌, arith}
use sdk_reference.Prelude.Int.{ℤ, pos, ◌+ℤ◌}
use sdk_reference.Prelude.Dict.{Dict, lookup}
use sdk_reference.Prelude.Text.{text_ne}
use sdk_reference.Json.{str}
use sdk_reference.Errors.{already_accepted}
use sdk_reference.Exec.{Fault, ok}
use sdk_reference.Messages.{make_request, make_result_response}
use sdk_reference.Negotiation.{OfferRequest, request_params, Offer}
use sdk_reference.Provider.{
  Capability, Provider, recorded, record_offer, reply_error, offer_error, build_offer, ack,
  handle_accept,
}
use sdk_reference.Provider.Quotes.{Quoted, build_offer-Quoted}
use sdk_reference.Provider.Acceptance.{
  Taken, Event, offering, accepting, run, accept_message, accept-record_offer, accepted_once,
}

-- Test data.

abbrev capabilities : Dict Capability
capabilities =
    (
      "summarize",
      record {
        price_cu = pos 4;
        tokens_per_call = pos 10;
        latency_sla_ms = none;
        context_aware = false;
      },
    )
    ∷ []

abbrev provider : Provider
provider = record {
  provider_id = "p1";
  has_escrow = false;
  output_streaming = true;
  input_streaming = true;
  capabilities = capabilities;
  result_cache = [];
  offers = [];
  running = [];
  pending_input = [];
}

abbrev wanted : OfferRequest
wanted = record {
  capability = "summarize";
  max_price_cu = some (pos 5);
  max_latency_ms = none;
  preferred_tier = none;
  proof_method = some "result-hash";
  input_tokens_est = none;
  challenge_window_ms = some (pos 100);
  offer_valid_ms = none;
}

abbrev offer : Offer
offer = record {
  offer_id = "o1";
  capability = "summarize";
  price_cu = pos 4;
  valid_until_ms = pos 5010;
  latency_sla_ms = none;
  proof_method = some "result-hash";
  challenge_window_ms = some (pos 100);
  sig = none;
}

abbrev budget_text : String → ℤ → String
budget_text capability price = "Minimum price"

abbrev fault_text : Fault → String
fault_text x = "fault"

-- The offer, accepted.
abbrev taken_provider : Provider
taken_provider = record provider {
  offers = ("o1", record (recorded offer) { accepted = true }) ∷ [];
}

abbrev events : List Event
events =
    offering (pos 20) "o2" (make_request "acmp/offerRequest" (request_params wanted) "r2")
    ∷ accepting (pos 30) (accept_message (str "r3") offer none)
    ∷ []

-- Runs.

build_offer-Quoted_example : Quoted (pos 10) "o1" wanted capabilities offer
unfolding build_offer lookup ◌+ℤ◌
build_offer-Quoted_example =
    build_offer-Quoted budget_text (pos 10) "o1" wanted capabilities offer refl

accept-record_offer_example :
    let (sent, p') =
      handle_accept fault_text
        (pos 5010)
        (accept_message (str "r1") offer (some "e1"))
        (record_offer offer provider) in
    (sent ≡ ok (make_result_response (str "r1") (ack "o1" (recorded offer) (some "e1")) ∷ []))
    × Taken (lookup "o1" p'.offers)
accept-record_offer_example =
    accept-record_offer fault_text (pos 5010) (str "r1") offer (some "e1") provider (omega arith)

accepted_once_example :
    let p' = run budget_text fault_text events taken_provider in
    handle_accept fault_text (pos 40) (accept_message (str "r4") offer (some "e2")) p'
    ≡ (ok (reply_error (str "r4") (offer_error already_accepted "o1")), p')
unfolding lookup
accepted_once_example =
    accepted_once budget_text fault_text events (pos 40) (str "r4") offer (some "e2") taken_provider
      refl (text_ne _ _ refl, tt)
