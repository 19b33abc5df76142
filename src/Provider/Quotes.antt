-- ===== src/Provider/Quotes.antt =====
-- What an offer promises: the terms of src/acmp/provider.py's `_build_offer`.
use sdk_reference.Prelude.{
  String, ◌≡◌, ◌⊎◌, inl, inr, Option, none, some, Option-cases, eq_iff, arith,
}
use sdk_reference.Prelude.Int.{ℤ, ◌+ℤ◌, ◌≤ℤ◌}
use sdk_reference.Prelude.Dict.{Dict, lookup}
use sdk_reference.Exec.{ok}
use sdk_reference.Negotiation.{OfferRequest, Offer}
use sdk_reference.Provider.{Capability, or_default_valid, build_offer}

abbrev pub Affordable : ℤ → Option ℤ → Type 0
Affordable price none = Unit
Affordable price (some budget) = price ≤ℤ budget

-- An offer that answers a request, from a registered capability.
pub record Quoted (now : ℤ) (fresh_id : String) (q : OfferRequest) (cs : Dict Capability)
    (o : Offer) : Type 0 where
  pub cap : Capability
  pub registered : lookup q.capability cs ≡ some cap
  pub id : o.offer_id ≡ fresh_id
  pub same_capability : o.capability ≡ q.capability
  pub price : o.price_cu ≡ cap.price_cu
  pub affordable : Affordable o.price_cu q.max_price_cu
  pub latency : o.latency_sla_ms ≡ cap.latency_sla_ms
  pub proof : o.proof_method ≡ q.proof_method
  pub deliverable : (q.proof_method ≡ none) ⊎ (q.proof_method ≡ some "result-hash")
  pub window : o.challenge_window_ms ≡ q.challenge_window_ms
  pub validity : o.valid_until_ms ≡ now +ℤ or_default_valid q.offer_valid_ms

module _ (budget_text : String → ℤ → String) (now : ℤ) (fresh_id : String) (q : OfferRequest)
    (cs : Dict Capability) (o : Offer) where
  -- Every offer that is made is for a registered capability at its price, which the buyer's budget
  -- covers, with a proof method that the provider can deliver, and it confirms the capability, the
  -- proof method and the challenge window that the buyer asked for.
  pub build_offer-Quoted :
      build_offer budget_text now fresh_id q cs ≡ ok o → Quoted now fresh_id q cs o
  unfolding build_offer
  build_offer-Quoted h = elim (Option-cases (lookup q.capability cs)) [
    | inl absent ↦ absurd (ground (arith, absent))
    | inr (cap, found) ↦ record {
      cap = cap;
      registered = found;
      id = ground (arith, found);
      same_capability = ground (arith, found);
      price = ground (arith, found);
      affordable = ground (arith, found);
      latency = ground (arith, found);
      proof = ground (arith, found);
      deliverable = grind (arith, found, eq_iff);
      window = ground (arith, found);
      validity = ground (arith, found);
    }
  ]
