-- ===== src/Negotiation/RoundTrip.antt =====
-- What the readers of src/acmp/negotiation.py make of what its writers wrote.
use sdk_reference.Prelude.{String, ◌≡◌, refl}
use sdk_reference.Prelude.Dict.{lookup}
use sdk_reference.Exec.{Outcome, ok, bind}
use sdk_reference.Json.{Object}
use sdk_reference.Access.{as_num, as_str, item, item_as, get_as}
use sdk_reference.Access.Optional.{put_if_set, lookup-put, optional_rules}
use sdk_reference.Negotiation.{
  OfferRequest, request_params, request_from_params, Offer, offer_dict, offer_from_dict,
  request_offer,
}

-- The provider reads the requirements that the buyer stated.
pub request_from_params-request_params :
    (q : OfferRequest) → request_from_params (request_params q) ≡ ok q
unfolding request_from_params request_params put_if_set item_as item get_as lookup as_str
request_from_params-request_params q = simp (lookup-put, optional_rules) refl

-- The buyer reads the offer that the provider wrote.
pub offer_from_dict-offer_dict : (o : Offer) → offer_from_dict (offer_dict o) ≡ ok o
unfolding offer_from_dict offer_dict put_if_set item_as item get_as lookup as_str as_num
offer_from_dict-offer_dict o = simp (lookup-put, optional_rules) refl

-- A provider that answers what it read from the request with an offer it made: the negotiator
-- returns that very offer.
pub request_offer_lem :
    (quote_for : OfferRequest → Offer) (request : String → Object → Outcome Object)
    → ((params : Object)
        → request "acmp/offerRequest" params
          ≡ bind (request_from_params params) (λ q. ok (offer_dict (quote_for q))))
    → (q : OfferRequest) → request_offer request q ≡ ok (quote_for q)
unfolding request_offer
request_offer_lem quote_for request served q =
    rw (served, request_from_params-request_params) (offer_from_dict-offer_dict (quote_for q))
