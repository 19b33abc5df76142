-- ===== src/Negotiation.antt =====
-- src/acmp/negotiation.py: the messages of the offer exchange, their serialisation, and what the
-- `Negotiator` sends and reads.
pub mod RoundTrip
use sdk_reference.Prelude.{String, Bool, Option, none, some, [], ◌∷◌}
use sdk_reference.Prelude.Int.{ℤ, ltb_ℤ}
use sdk_reference.Json.{num, str, Object}
use sdk_reference.Exec.{Outcome, ok, bind}
use sdk_reference.Access.{as_num, as_str, as_obj, item_as, get_as}
use sdk_reference.Access.Optional.{put, put_if_set, attribute, object}

pub record OfferRequest : Type 0 where
  pub capability : String
  pub max_price_cu : Option ℤ
  pub max_latency_ms : Option ℤ
  pub preferred_tier : Option String
  pub proof_method : Option String
  pub input_tokens_est : Option ℤ
  pub challenge_window_ms : Option ℤ
  pub offer_valid_ms : Option ℤ

unfoldable pub request_params : OfferRequest → Object
request_params q =
    put_if_set
      (("max_price_cu", attribute num q.max_price_cu)
        ∷ ("max_latency_ms", attribute num q.max_latency_ms)
        ∷ ("preferred_tier", attribute str q.preferred_tier)
        ∷ ("proof_method", attribute str q.proof_method)
        ∷ ("input_tokens_est", attribute num q.input_tokens_est)
        ∷ ("challenge_window_ms", attribute num q.challenge_window_ms)
        ∷ ("offer_valid_ms", attribute num q.offer_valid_ms)
        ∷ [])
      (("capability", str q.capability) ∷ [])

unfoldable pub request_from_params : Object → Outcome OfferRequest
request_from_params params = bind (item_as as_str params "capability") λ capability.
    bind (get_as as_num params "max_price_cu") λ max_price_cu.
      bind (get_as as_num params "max_latency_ms") λ max_latency_ms.
        bind (get_as as_str params "preferred_tier") λ preferred_tier.
          bind (get_as as_str params "proof_method") λ proof_method.
            bind (get_as as_num params "input_tokens_est") λ input_tokens_est.
              bind (get_as as_num params "challenge_window_ms") λ challenge_window_ms.
                bind (get_as as_num params "offer_valid_ms") λ offer_valid_ms. ok (record {
                  capability = capability;
                  max_price_cu = max_price_cu;
                  max_latency_ms = max_latency_ms;
                  preferred_tier = preferred_tier;
                  proof_method = proof_method;
                  input_tokens_est = input_tokens_est;
                  challenge_window_ms = challenge_window_ms;
                  offer_valid_ms = offer_valid_ms;
                })

pub record Offer : Type 0 where
  pub offer_id : String
  pub capability : String
  pub price_cu : ℤ
  pub valid_until_ms : ℤ
  pub latency_sla_ms : Option ℤ
  pub proof_method : Option String
  pub challenge_window_ms : Option ℤ
  pub sig : Option Object

-- `Offer.is_expired`, at a time that the caller or the clock gives.
unfoldable pub is_expired : Offer → ℤ → Bool
is_expired o at_ms = ltb_ℤ o.valid_until_ms at_ms

unfoldable pub offer_dict : Offer → Object
offer_dict o =
    put_if_set
      (("latency_sla_ms", attribute num o.latency_sla_ms)
        ∷ ("proof_method", attribute str o.proof_method)
        ∷ ("challenge_window_ms", attribute num o.challenge_window_ms)
        ∷ ("sig", attribute object o.sig)
        ∷ [])
      (("offer_id", str o.offer_id)
        ∷ ("capability", str o.capability)
        ∷ ("price_cu", num o.price_cu)
        ∷ ("valid_until_ms", num o.valid_until_ms)
        ∷ [])

unfoldable pub offer_from_dict : Object → Outcome Offer
offer_from_dict d = bind (item_as as_str d "offer_id") λ offer_id.
    bind (item_as as_str d "capability") λ capability.
      bind (item_as as_num d "price_cu") λ price_cu.
        bind (item_as as_num d "valid_until_ms") λ valid_until_ms.
          bind (get_as as_num d "latency_sla_ms") λ latency_sla_ms.
            bind (get_as as_str d "proof_method") λ proof_method.
              bind (get_as as_num d "challenge_window_ms") λ challenge_window_ms.
                bind (get_as as_obj d "sig") λ sig. ok (record {
                  offer_id = offer_id;
                  capability = capability;
                  price_cu = price_cu;
                  valid_until_ms = valid_until_ms;
                  latency_sla_ms = latency_sla_ms;
                  proof_method = proof_method;
                  challenge_window_ms = challenge_window_ms;
                  sig = sig;
                })

pub record AcceptedOffer : Type 0 where
  pub offer_id : String
  pub price_cu : ℤ
  pub escrow_id : Option String

unfoldable pub accepted_from_dict : Object → Outcome AcceptedOffer
accepted_from_dict d = bind (item_as as_str d "offer_id") λ offer_id.
    bind (item_as as_num d "price_cu") λ price_cu.
      bind (get_as as_str d "escrow_id")
        λ escrow_id. ok (record { offer_id = offer_id; price_cu = price_cu; escrow_id = escrow_id })

-- The parameters of `acmp/accept`.
unfoldable pub accept_params : Offer → Option String → Object
accept_params offer escrow_id =
    put "escrow_id" (attribute str escrow_id) (("offer_id", str offer.offer_id) ∷ [])

-- `Negotiator`, over the `request` method of the buyer that it is built on.
module _ (request : String → Object → Outcome Object) where
  unfoldable pub request_offer : OfferRequest → Outcome Offer
  request_offer q = bind (request "acmp/offerRequest" (request_params q)) offer_from_dict

  unfoldable pub accept : Offer → Option String → Outcome AcceptedOffer
  accept offer escrow_id =
      bind (request "acmp/accept" (accept_params offer escrow_id)) accepted_from_dict
