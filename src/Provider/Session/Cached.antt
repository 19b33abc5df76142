-- ===== src/Provider/Session/Cached.antt =====
-- Each call of src/acmp/provider.py beside the result cache: a run of another task and any other
-- message leave the outcome of a task in it.
use sdk_reference.Prelude.{Bool, String, false, ◌≡◌, ◌≢◌, refl, Option, none, some, arith, eq_iff}
use sdk_reference.Prelude.Int.{ℤ}
use sdk_reference.Prelude.Dict.{lookup, lookup-insert}
use sdk_reference.Json.{Json, Object}
use sdk_reference.Exec.{Outcome, ok, raised, fault, Fault, lift-keeps}
use sdk_reference.Access.{as_num, as_str, as_bool, as_obj, item, item_as, get_as, get_or_as}
use sdk_reference.Messages.Task.{as_payload, Task}
use sdk_reference.TaskContext.{TaskContext, Chunk}
use sdk_reference.Negotiation.{Offer}
use sdk_reference.Provider.{
  Capability, Cached, OfferRecord, Provider, record_offer, finish_offer, handle_offer_request,
  accept_checks, mark_accepted, finish_accept, handle_accept,
}
use sdk_reference.Provider.Invoke.{admit, finish_invoke, start_task, started, begin_parsed}
use sdk_reference.Provider.Inputs.{
  set_cancelled, handle_cancel, deliver, take_chunk, handle_input_chunk,
}
use sdk_reference.Provider.Session.Returns.{Gives, Gives-bind, Gives-ok}

module _ (id : String) (c : Cached) where
  abbrev pub InCache : Provider → Type 0
  InCache p = lookup id p.result_cache ≡ some c

  pub finish_invoke-InCache :
      (fault_text : Fault → String) (req_id : Json) (other : String) (o : Outcome Object)
      (p : Provider)
      → other ≢ id
      → InCache p
      → InCache (finish_invoke fault_text req_id other o p).1
  unfolding finish_invoke
  finish_invoke-InCache fault_text req_id other o p n h =
      rw lookup-insert (ground (arith, eq_iff other id, h))

  -- What leaves the cache alone.
  set_cancelled-InCache :
      (task_id : String) (ctx : Option TaskContext) (p : Provider)
      → InCache p
      → InCache (set_cancelled task_id ctx p)
  set_cancelled-InCache task_id none p h = h
  set_cancelled-InCache task_id (some ctx) p h = h

  pub handle_cancel-InCache :
      (message : Object) (p : Provider) → InCache p → Gives InCache (handle_cancel message p)
  unfolding handle_cancel
  handle_cancel-InCache message p h = Gives-bind _ (item_as as_obj message "params") _ λ params _.
      Gives-bind _ (item_as as_str params "task_id") _
        λ task_id _. Gives-ok _ _ (set_cancelled-InCache task_id (lookup task_id p.running) p h)

  deliver-InCache :
      (task_id : String) (seq : ℤ) (chunk : Chunk) (ctx : Option TaskContext) (p : Provider)
      → InCache p
      → InCache (deliver task_id seq chunk ctx p)
  deliver-InCache task_id seq chunk none p h = h
  deliver-InCache task_id seq chunk (some ctx) p h = h

  pub handle_input_chunk-InCache :
      (message : Object) (p : Provider) → InCache p → Gives InCache (handle_input_chunk message p)
  unfolding handle_input_chunk take_chunk
  handle_input_chunk-InCache message p h =
      Gives-bind _ (item_as as_obj message "params") _ λ params _.
        Gives-bind _ (item_as as_str params "task_id") _ λ task_id _.
          Gives-bind _ (item_as as_payload params "chunk") _ λ chunk _.
            Gives-bind _ (item_as as_num params "seq") _ λ seq _.
              Gives-bind _ (get_or_as as_bool false params "final") _ λ final _.
                Gives-ok _ _
                  (deliver-InCache task_id seq (chunk, final) (lookup task_id p.running) p h)

  finish_accept-InCache :
      (fault_text : Fault → String) (req_id : Json) (offer_id : String) (params : Object)
      (o : Outcome OfferRecord) (p : Provider)
      → InCache p
      → InCache (finish_accept fault_text req_id offer_id params o p).1
  unfolding finish_accept mark_accepted
  finish_accept-InCache fault_text req_id offer_id params (ok r) p h =
      lift-keeps InCache (get_as as_str params "escrow_id") _ (mark_accepted offer_id r p) h
        (λ escrow_id _. h)
  finish_accept-InCache fault_text req_id offer_id params (raised e) p h = h
  finish_accept-InCache fault_text req_id offer_id params (fault x) p h = h

  pub handle_accept-InCache :
      (fault_text : Fault → String) (now : ℤ) (message : Object) (p : Provider)
      → InCache p
      → InCache (handle_accept fault_text now message p).1
  unfolding handle_accept
  handle_accept-InCache fault_text now message p h =
      lift-keeps InCache (item message "id") _ p h λ req_id _.
        lift-keeps InCache (item_as as_obj message "params") _ p h λ params _.
          lift-keeps InCache (item_as as_str params "offer_id") _ p h λ offer_id _.
            finish_accept-InCache fault_text req_id offer_id params
              (accept_checks now offer_id (lookup offer_id p.offers)) p h

  finish_offer-InCache :
      (fault_text : Fault → String) (req_id : Json) (o : Outcome Offer) (p : Provider)
      → InCache p
      → InCache (finish_offer fault_text req_id o p).1
  unfolding finish_offer record_offer
  finish_offer-InCache fault_text req_id (ok o) p h = h
  finish_offer-InCache fault_text req_id (raised e) p h = h
  finish_offer-InCache fault_text req_id (fault x) p h = h

  -- The checks of a run of another task.
  module _ (budget_text : String → ℤ → String) (fault_text : Fault → String) where
    pub handle_offer_request-InCache :
        (now : ℤ) (fresh_id : String) (message : Object) (p : Provider)
        → InCache p
        → InCache (handle_offer_request budget_text fault_text now fresh_id message p).1
    unfolding handle_offer_request
    handle_offer_request-InCache now fresh_id message p h =
        lift-keeps InCache (item message "id") _ p h
          λ req_id _. finish_offer-InCache fault_text req_id _ p h

    started-InCache :
        (req_id : Json) (t : Task) (o : Outcome Capability) (p : Provider)
        → t.task_id ≢ id
        → InCache p
        → InCache (started fault_text req_id t o p).1
    unfolding start_task
    started-InCache req_id t (ok cap) p n h = h
    started-InCache req_id t (raised e) p n h =
        finish_invoke-InCache fault_text req_id t.task_id (raised e) p n h
    started-InCache req_id t (fault x) p n h =
        finish_invoke-InCache fault_text req_id t.task_id (fault x) p n h

    pub begin_parsed-InCache :
        (req_id : Json) (task_id : String) (t : Outcome Task) (answer : Outcome Bool) (p : Provider)
        → task_id ≢ id
        → ((u : Task) → t ≡ ok u → u.task_id ≢ id)
        → InCache p
        → InCache (begin_parsed fault_text budget_text req_id task_id t answer p).1
    begin_parsed-InCache req_id task_id (ok t) answer p n m h =
        started-InCache req_id t (admit budget_text answer t p) p (m t refl) h
    begin_parsed-InCache req_id task_id (raised e) answer p n m h =
        finish_invoke-InCache fault_text req_id task_id (raised e) p n h
    begin_parsed-InCache req_id task_id (fault x) answer p n m h =
        finish_invoke-InCache fault_text req_id task_id (fault x) p n h
