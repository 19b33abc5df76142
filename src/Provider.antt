-- ===== src/Provider.antt =====
-- The state of `Provider` in src/acmp/provider.py, and its side of the offer exchange:
-- `_build_offer`, `_handle_offer_request` and `_handle_accept`.
pub mod Quotes
pub mod Acceptance
pub mod Invoke
pub mod Inputs
pub mod Session
mod Examples
use sdk_reference.Prelude.{
  String, Bool, true, false, not, Option, none, some, List, [], ◌∷◌, ◌==◌, if◌then◌else◌,
}
use sdk_reference.Prelude.Int.{ℤ, pos, ◌+ℤ◌, ltb_ℤ, eqb_ℤ}
use sdk_reference.Prelude.Dict.{Dict, lookup, insert}
use sdk_reference.Json.{Json, num, str, Object}
use sdk_reference.Errors.{
  ErrorCode, NegotiationErrorCode, layer1, negotiation, offer_not_found, offer_expired,
  already_accepted, AcmpError, acmp_error, to_jsonrpc,
}
use sdk_reference.Exec.{
  Outcome, ok, raised, fault, Fault, bind, Exec, ◌>>=◌, ◌>>◌, pure, lift, gets, modify, raise_if,
}
use sdk_reference.Access.{as_str, as_obj, item, item_as, get_as}
use sdk_reference.Access.Optional.{put, attribute}
use sdk_reference.Messages.{make_result_response, make_error_response}
use sdk_reference.TaskContext.{TaskContext, Chunk}
use sdk_reference.Negotiation.{OfferRequest, request_from_params, Offer, offer_dict}

-- A registered capability, but for its handler, which the offer exchange does not call.
pub record Capability : Type 0 where
  pub price_cu : ℤ
  pub tokens_per_call : ℤ
  pub latency_sla_ms : Option ℤ
  pub context_aware : Bool

pub record OfferRecord : Type 0 where
  pub capability : String
  pub price_cu : ℤ
  pub latency_sla_ms : Option ℤ
  pub proof_method : Option String
  pub valid_until_ms : ℤ
  pub accepted : Bool

-- An entry of the result cache: `{"result": …}` or `{"error": …}`.
pub data Cached : Type 0 where
  cached_result cached_error : Object → Cached

-- `_running` holds the contexts; that a handler runs beside its context is the order of the calls.
pub record Provider : Type 0 where
  pub provider_id : String
  pub has_escrow : Bool
  pub output_streaming : Bool
  pub input_streaming : Bool
  pub capabilities : Dict Capability
  pub result_cache : Dict Cached
  pub offers : Dict OfferRecord
  pub running : Dict TaskContext
  pub pending_input : Dict (List (ℤ × Chunk))

-- `DEFAULT_OFFER_VALID_MS`
abbrev pub default_offer_valid_ms : ℤ
default_offer_valid_ms = pos 5000

-- `offer_valid_ms or DEFAULT_OFFER_VALID_MS`: a window of 0 counts as none.
abbrev pub or_default_valid : Option ℤ → ℤ
or_default_valid none = default_offer_valid_ms
or_default_valid (some n) = if eqb_ℤ n (pos 0) then default_offer_valid_ms else n

abbrev pub known_capability : String → Option Capability → Outcome Capability
known_capability name none =
    raised (
      acmp_error (layer1 ErrorCode.capability_not_found) none
        (some (("capability", str name) ∷ [])))
known_capability name (some cap) = ok cap

abbrev pub over_budget : ℤ → Option ℤ → Bool
over_budget price none = false
over_budget price (some budget) = ltb_ℤ budget price

abbrev pub undeliverable : Option String → Bool
undeliverable none = false
undeliverable (some proof) = not (proof == "result-hash")

-- The f-string of the budget error, given the capability and the price.
module _ (budget_text : String → ℤ → String) where
  unfoldable pub build_offer : ℤ → String → OfferRequest → Dict Capability → Outcome Offer
  build_offer now fresh_id q capabilities =
      bind (known_capability q.capability (lookup q.capability capabilities)) λ cap.
        bind
          (raise_if (over_budget cap.price_cu q.max_price_cu) (
            acmp_error (layer1 ErrorCode.budget_exceeded) none (
              some (
                ("min_price_cu", num cap.price_cu)
                ∷ ("detail", str (budget_text q.capability cap.price_cu))
                ∷ []))))
          λ _.
            bind
              (raise_if (undeliverable q.proof_method) (
                acmp_error (layer1 ErrorCode.proof_unsupported) none
                  (some (put "proof_method" (attribute str q.proof_method) []))))
              λ _. ok (record {
                offer_id = fresh_id;
                capability = q.capability;
                price_cu = cap.price_cu;
                valid_until_ms = now +ℤ or_default_valid q.offer_valid_ms;
                latency_sla_ms = cap.latency_sla_ms;
                proof_method = q.proof_method;
                challenge_window_ms = q.challenge_window_ms;
                sig = none;
              })

-- What the provider keeps of an offer that it made.
abbrev pub recorded : Offer → OfferRecord
recorded o = record {
  capability = o.capability;
  price_cu = o.price_cu;
  latency_sla_ms = o.latency_sla_ms;
  proof_method = o.proof_method;
  valid_until_ms = o.valid_until_ms;
  accepted = false;
}

unfoldable pub record_offer : Offer → Provider → Provider
record_offer o p = record p { offers = insert o.offer_id (recorded o) p.offers }

-- `_reply_error`
unfoldable pub reply_error : Json → AcmpError → List Object
reply_error req_id e = make_error_response req_id (to_jsonrpc e) ∷ []

module _ (fault_text : Fault → String) where
  -- After the `try`: the offer is recorded and sent, or an error is.
  unfoldable pub finish_offer : Json → Outcome Offer → Exec Provider (List Object)
  unfolding reply_error record_offer
  finish_offer req_id (ok o) p =
      (ok (make_result_response req_id (offer_dict o) ∷ []), record_offer o p)
  finish_offer req_id (raised e) p = (ok (reply_error req_id e), p)
  finish_offer req_id (fault x) p = (
    ok (reply_error req_id (acmp_error (layer1 ErrorCode.internal) (some (fault_text x)) none)),
    p,
  )

module _ (budget_text : String → ℤ → String) (fault_text : Fault → String) where
  unfoldable pub handle_offer_request : ℤ → String → Object → Exec Provider (List Object)
  handle_offer_request now fresh_id message = do
    req_id ← lift (item message "id")
    capabilities ← gets (λ p. p.capabilities)
    finish_offer fault_text req_id (
        bind (item_as as_obj message "params") λ params.
          bind (request_from_params params)
            λ q. build_offer budget_text now fresh_id q capabilities)

abbrev pub offer_error : NegotiationErrorCode → String → AcmpError
offer_error code offer_id =
    acmp_error (negotiation code) none (some (("offer_id", str offer_id) ∷ []))

unfoldable pub accept_checks : ℤ → String → Option OfferRecord → Outcome OfferRecord
accept_checks now offer_id none = raised (offer_error offer_not_found offer_id)
accept_checks now offer_id (some r) =
    bind (raise_if r.accepted (offer_error already_accepted offer_id)) λ _.
      bind (raise_if (ltb_ℤ r.valid_until_ms now) (offer_error offer_expired offer_id)) λ _. ok r

-- `record.accepted = True`
unfoldable pub mark_accepted : String → OfferRecord → Provider → Provider
mark_accepted offer_id r p = record p {
  offers = insert offer_id (record r { accepted = true }) p.offers;
}

unfoldable pub ack : String → OfferRecord → Option String → Object
ack offer_id r escrow_id =
    put "escrow_id" (attribute str escrow_id)
      (("offer_id", str offer_id) ∷ ("price_cu", num r.price_cu) ∷ [])

module _ (fault_text : Fault → String) where
  unfoldable pub finish_accept :
      Json → String → Object → Outcome OfferRecord → Exec Provider (List Object)
  unfolding reply_error mark_accepted
  finish_accept req_id offer_id params (ok r) = do
    modify (mark_accepted offer_id r)
    escrow_id ← lift (get_as as_str params "escrow_id")
    pure (make_result_response req_id (ack offer_id r escrow_id) ∷ [])
  finish_accept req_id offer_id params (raised e) = pure (reply_error req_id e)
  finish_accept req_id offer_id params (fault x) =
      pure (reply_error req_id (acmp_error (layer1 ErrorCode.internal) (some (fault_text x)) none))

  unfoldable pub handle_accept : ℤ → Object → Exec Provider (List Object)
  handle_accept now message = do
    req_id ← lift (item message "id")
    params ← lift (item_as as_obj message "params")
    offer_id ← lift (item_as as_str params "offer_id")
    found ← gets (λ p. lookup offer_id p.offers)
    finish_accept req_id offer_id params (accept_checks now offer_id found)
