-- ===== src/Provider/Acceptance.antt =====
-- When and how often an offer is accepted (src/acmp/provider.py, `_handle_accept`).
use sdk_reference.Prelude.{
  String, ◌≡◌, ◌≢◌, refl, sym, ◌∙◌, true, false, Option, none, some, List, [], ◌∷◌, eq_refl, eq_iff,
  arith,
}
use sdk_reference.Prelude.Int.{ℤ, ◌≤ℤ◌, ltb_ℤ}
use sdk_reference.Prelude.Dict.{lookup, lookup-insert}
use sdk_reference.Json.{Json, obj, Object, fields, entries-fields}
use sdk_reference.Errors.{already_accepted}
use sdk_reference.Exec.{Outcome, ok, raised, fault, Fault, bind, lift-keeps}
use sdk_reference.Access.{as_num, as_str, as_obj, item, item_as, get_as}
use sdk_reference.Access.Optional.{lookup-put, optional_rules}
use sdk_reference.Messages.{make_result_response}
use sdk_reference.Negotiation.{request_from_params, Offer, accepted_from_dict, accept_params}
use sdk_reference.Provider.Quotes.{build_offer-Quoted}
use sdk_reference.Provider.{
  OfferRecord, Provider, recorded, record_offer, reply_error, finish_offer, handle_offer_request,
  offer_error, accept_checks, mark_accepted, ack, finish_accept, handle_accept,
}

-- The buyer reads from the ack the offer's id, the recorded price and the escrow that it named.
pub accepted_from_dict-ack :
    (offer_id : String) (r : OfferRecord) (escrow_id : Option String)
    → accepted_from_dict (ack offer_id r escrow_id)
      ≡ ok (record { offer_id = offer_id; price_cu = r.price_cu; escrow_id = escrow_id })
unfolding accepted_from_dict ack item_as item get_as lookup as_str as_num
accepted_from_dict-ack offer_id r escrow_id = simp (lookup-put, optional_rules) refl

in_time : (now : ℤ) (o : Offer) → now ≤ℤ o.valid_until_ms → ltb_ℤ o.valid_until_ms now ≡ false
in_time now o h = ground arith

-- The request of `Negotiator.accept` as it reaches the provider.
abbrev pub accept_message : Json → Offer → Option String → Object
accept_message req_id o escrow_id =
    ("id", req_id) ∷ ("params", obj (fields (accept_params o escrow_id))) ∷ []

-- A record that is there and marked.
abbrev pub Taken : Option OfferRecord → Type 0
Taken none = ⊥
Taken (some r) = r.accepted ≡ true

module _ (fault_text : Fault → String) where
  -- The answer to an `acmp/accept` for an offer that the provider holds.
  accept_lem :
      (now : ℤ) (req_id : Json) (o : Offer) (escrow_id : Option String) (p : Provider)
      → handle_accept fault_text now (accept_message req_id o escrow_id) p
        ≡ finish_accept fault_text req_id o.offer_id
            (accept_params o escrow_id)
            (accept_checks now o.offer_id (lookup o.offer_id p.offers))
            p
  unfolding handle_accept item_as item lookup as_str as_obj accept_params
  accept_lem now req_id o escrow_id p = simp (entries-fields, lookup-put) refl

  read_escrow :
      (o : Offer) (escrow_id : Option String)
      → get_as as_str (accept_params o escrow_id) "escrow_id" ≡ ok escrow_id
  unfolding get_as accept_params lookup
  read_escrow o escrow_id = simp (lookup-put, optional_rules) refl

  marked :
      (id : String) (r : OfferRecord) (p : Provider)
      → Taken (lookup id (mark_accepted id r p).offers)
  unfolding mark_accepted
  marked id r p = rw (lookup-insert, eq_refl) refl

  -- An offer that was just made is accepted at any time up to its end: the ack carries its price and
  -- the escrow that the buyer named, and the offer is marked as accepted from then on.
  pub accept-record_offer :
      (now : ℤ) (req_id : Json) (o : Offer) (escrow_id : Option String) (p : Provider)
      → now ≤ℤ o.valid_until_ms
      → let (sent, p') =
          handle_accept fault_text now (accept_message req_id o escrow_id) (record_offer o p) in
        (sent ≡ ok (make_result_response req_id (ack o.offer_id (recorded o) escrow_id) ∷ []))
        × Taken (lookup o.offer_id p'.offers)
  unfolding record_offer accept_checks finish_accept
  accept-record_offer now req_id o escrow_id p h =
      rw (accept_lem, lookup-insert, eq_refl, in_time now o h, read_escrow)
        (refl, marked o.offer_id (recorded o) (record_offer o p))

-- A result of a chain comes from its second call.
bind-ok :
    {A B P : Type 0} (o : Outcome A) (f : A → Outcome B) (b : B)
    → ((a : A) → f a ≡ ok b → P)
    → bind o f ≡ ok b
    → P
bind-ok (ok a) f b k h = k a h
bind-ok (raised e) f b k h = absurd (cc)
bind-ok (fault x) f b k h = absurd (cc)

-- What reaches the provider of the offer exchange, with the clock and the new offer id.
pub data Event : Type 0 where
  offering : ℤ → String → Object → Event
  accepting : ℤ → Object → Event

-- The events give no new offer the id `id`.
abbrev pub SparesId : String → List Event → Type 0
SparesId id [] = Unit
SparesId id (offering now fresh_id message ∷ es) = (fresh_id ≢ id) × SparesId id es
SparesId id (accepting now message ∷ es) = SparesId id es

module _ (budget_text : String → ℤ → String) (fault_text : Fault → String) where
  unfoldable pub run : List Event → Provider → Provider
  run [] p = p
  run (offering now fresh_id message ∷ es) p =
      run es (handle_offer_request budget_text fault_text now fresh_id message p).1
  run (accepting now message ∷ es) p = run es (handle_accept fault_text now message p).1

  module _ (id : String) where
    abbrev Kept : Provider → Type 0
    Kept p = Taken (lookup id p.offers)

    finish_offer-Kept :
        (req_id : Json) (made : Outcome Offer) (p : Provider)
        → ((o : Offer) → made ≡ ok o → o.offer_id ≢ id)
        → Kept p
        → Kept (finish_offer fault_text req_id made p).1
    unfolding finish_offer record_offer
    finish_offer-Kept req_id (ok o) p n h =
        rw lookup-insert (ground (arith, eq_iff o.offer_id id, n o refl, h))
    finish_offer-Kept req_id (raised e) p n h = h
    finish_offer-Kept req_id (fault x) p n h = h

    finish_accept-Kept :
        (req_id : Json) (offer_id : String) (params : Object) (checked : Outcome OfferRecord)
        (p : Provider)
        → Kept p
        → Kept (finish_accept fault_text req_id offer_id params checked p).1
    unfolding finish_accept mark_accepted
    finish_accept-Kept req_id offer_id params (ok r) p h =
        lift-keeps Kept (get_as as_str params "escrow_id") _ (mark_accepted offer_id r p) marked
          (λ escrow_id _. marked)
      where
        marked : Kept (mark_accepted offer_id r p)
        marked = unfold mark_accepted in rw lookup-insert (ground (arith, h))
    finish_accept-Kept req_id offer_id params (raised e) p h = h
    finish_accept-Kept req_id offer_id params (fault x) p h = h

    offering-Kept :
        (now : ℤ) (fresh_id : String) (message : Object) (p : Provider)
        → fresh_id ≢ id
        → Kept p
        → Kept (handle_offer_request budget_text fault_text now fresh_id message p).1
    unfolding handle_offer_request
    offering-Kept now fresh_id message p n h = lift-keeps Kept (item message "id") _ p h λ req_id _.
        finish_offer-Kept req_id _ p
          (λ o made same. n (
            bind-ok (item_as as_obj message "params") _ o
              (λ params read.
                bind-ok (request_from_params params) _ o
                  (λ q quoted.
                    sym (build_offer-Quoted budget_text now fresh_id q p.capabilities o quoted).id)
                  read)
              made
            ∙ same))
          h

    accepting-Kept :
        (now : ℤ) (message : Object) (p : Provider)
        → Kept p
        → Kept (handle_accept fault_text now message p).1
    unfolding handle_accept
    accepting-Kept now message p h = lift-keeps Kept (item message "id") _ p h λ req_id _.
        lift-keeps Kept (item_as as_obj message "params") _ p h λ params _.
          lift-keeps Kept (item_as as_str params "offer_id") _ p h λ offer_id _.
            finish_accept-Kept req_id offer_id params
              (accept_checks now offer_id (lookup offer_id p.offers)) p h

    run-Kept : (es : List Event) (p : Provider) → SparesId id es → Kept p → Kept (run es p)
    unfolding run
    run-Kept [] p s h = h
    run-Kept (offering now fresh_id message ∷ es) p (n, s) h =
        run-Kept es (handle_offer_request budget_text fault_text now fresh_id message p).1 s
          (offering-Kept now fresh_id message p n h)
    run-Kept (accepting now message ∷ es) p s h =
        run-Kept es (handle_accept fault_text now message p).1 s (accepting-Kept now message p h)

-- What an accept answers for a record that is marked.
accept_checks-Taken :
    (now : ℤ) (id : String) (r : Option OfferRecord)
    → Taken r
    → accept_checks now id r ≡ raised (offer_error already_accepted id)
unfolding accept_checks
accept_checks-Taken now id none h = elim h [ ]
accept_checks-Taken now id (some r) h = rw h refl

-- An offer is accepted at most once. Once it is marked as accepted, then after any further offer
-- requests and accepts, at whatever times and in whatever order, as long as no new offer is given
-- its id, every accept of it is answered with the error that it was already accepted, and changes
-- nothing.
pub accepted_once :
    (budget_text : String → ℤ → String) (fault_text : Fault → String) (es : List Event) (now : ℤ)
    (req_id : Json) (o : Offer) (escrow_id : Option String) (p : Provider)
    → Taken (lookup o.offer_id p.offers)
    → SparesId o.offer_id es
    → let p' = run budget_text fault_text es p in
      handle_accept fault_text now (accept_message req_id o escrow_id) p'
      ≡ (ok (reply_error req_id (offer_error already_accepted o.offer_id)), p')
unfolding finish_accept
accepted_once budget_text fault_text es now req_id o escrow_id p taken spared =
    let p' = run budget_text fault_text es p in
    rw
      (
        accept_lem,
        accept_checks-Taken now o.offer_id (lookup o.offer_id p'.offers)
            (run-Kept budget_text fault_text o.offer_id es p spared taken),
      )
      refl
