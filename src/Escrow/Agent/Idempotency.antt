-- ===== src/Escrow/Agent/Idempotency.antt =====
-- Retries under one `op_ref`, of the handlers on an escrow in src/acmp/escrow.py: the outcome stays
-- in the escrow's `op_results`.
use sdk_reference.Prelude.{
  String, ◌≡◌, ◌≢◌, refl, some, ◌==◌, List, arith, eq_iff, eq_refl, Bool-cases, inl, inr,
}
use sdk_reference.Prelude.Dict.{lookup, lookup-insert, insert-same}
use sdk_reference.Prelude.Sets.{Each}
use sdk_reference.Json.{Object}
use sdk_reference.Exec.{Outcome, ok, lift-keeps}
use sdk_reference.Access.{as_str, item_as}
use sdk_reference.Escrow.{Escrow, Cached}
use sdk_reference.Escrow.Cell.{Cell, Moment, effective_state}
use sdk_reference.Escrow.Cell.Frame.{effective_state-op_results}
use sdk_reference.Escrow.Operations.Mutation.{Mutation, operation, operation-Worded}
use sdk_reference.Escrow.Operations.Mutation.Memory.{operation-op_results}
use sdk_reference.Escrow.Agent.{
  Agent, op_cache, replay, run_cached, on_escrow, cached_op, handle_op,
}
use sdk_reference.Escrow.Agent.Dispatch.{Printing, Arrival, serve}
use sdk_reference.Escrow.Agent.Handling.{
  store, handle_op-keeps, handle_lock-keeps, handle_status-keeps,
}
use sdk_reference.Escrow.Agent.Serving.{AllKeep, serve-keeps, handler, handler-handle_op}
use sdk_reference.Escrow.Agent.Caching.{
  Settled, Repeats, Recalled, run_cached-Recalled, run_cached-lookup, run_cached-found,
}

abbrev with_ledger_of : Agent → Escrow → Cell
with_ledger_of a e = record { esc = e; ledger = a.ledger }

-- The parameters name this escrow and this `op_ref`.
pub record Names (id op_ref : String) (params : Object) : Type 0 where
  pub names_escrow : item_as as_str params "escrow_id" ≡ ok id
  pub names_op : item_as as_str params "op_ref" ≡ ok op_ref

-- No lock in this arrival can open an escrow under this id.
abbrev pub Spares : String → Arrival → Type 0
Spares id m = m.at.fresh_id ≢ id

-- The escrow `id` holds the outcome of `op_ref`.
module _ (id op_ref : String) (c : Cached) where
  abbrev InCell : Cell → Type 0
  InCell d = lookup op_ref d.esc.op_results ≡ some c

  record Holds (a : Agent) : Type 0 where
    escrow : Escrow
    known : lookup id a.escrows ≡ some escrow
    there : lookup op_ref escrow.op_results ≡ some c

  -- A change of one escrow that keeps outcomes.
  store-Holds :
      (a : Agent) (h : Holds a) (other : String) (e : Escrow) (d : Cell)
      → lookup other a.escrows ≡ some e
      → (InCell (with_ledger_of a e) → InCell d)
      → Holds (store other d a)
  store-Holds a h other e d found keeps = elim (Bool-cases (other == id)) [
    | inl same ↦ record {
      escrow = d.esc;
      known = rw (lookup-insert other id d.esc a.escrows, same) refl;
      there = keeps (grind (arith, h.known, h.there, found, same, eq_iff other id));
    }
    | inr apart ↦ record {
      escrow = h.escrow;
      known = rw (lookup-insert other id d.esc a.escrows, apart) h.known;
      there = h.there;
    }
  ]

  cached_op-InCell :
      (m : Mutation) (at : Moment) (party : String) (params : Object) (d : Cell)
      → InCell d
      → InCell (cached_op (operation m at party params) params d).1
  unfolding cached_op
  cached_op-InCell m at party params d h =
      lift-keeps InCell (item_as as_str params "op_ref") _ d h λ key _.
        run_cached-lookup op_cache (λ x s. refl) key (operation m at party params key) d
          (operation-op_results at party params key d m) op_ref c h

  handlers-Holds : (at : Moment) (party : String) → at.fresh_id ≢ id → AllKeep Holds at party
  handlers-Holds at party fresh = record {
    lock = λ params a h.
        handle_lock-keeps Holds at party params a h
          (λ amount until window payee l f. record {
            escrow = h.escrow;
            known = rw lookup-insert (ground (arith, h.known, eq_iff at.fresh_id id));
            there = h.there;
          })
          (λ d b k. record { escrow = k.escrow; known = k.known; there = k.there });
    mutate = λ m params a h.
        handle_op-keeps Holds a h (operation m at party params) params (λ other e found.
          let d = with_ledger_of a e in
          store-Holds a h other e (cached_op (operation m at party params) params d).1 found
            (cached_op-InCell m at party params d));
    status = λ params a h. handle_status-keeps Holds at party params a h (λ other e found.
        let d = with_ledger_of a e in
        store-Holds a h other e (effective_state at.now d).1 found
          (λ there. rw (effective_state-op_results at.now d) there));
  }

  -- The reply to a request whose outcome is there.
  handle_op-found :
      (m : Mutation) (at : Moment) (party : String) (params : Object) (a : Agent)
      → Names id op_ref params
      → Holds a
      → handle_op (operation m at party params) params a ≡ (replay c, a)
  unfolding handle_op on_escrow cached_op
  handle_op-found m at party params a n h =
      rw
        (
          n.names_escrow,
          h.known,
          n.names_op,
          run_cached-found op_cache op_ref (operation m at party params op_ref)
              (with_ledger_of a h.escrow) c h.there,
          insert-same id h.escrow a.escrows h.known,
        )
        refl

module _ (m : Mutation) (at : Moment) (party id op_ref : String) (params : Object)
    (n : Names id op_ref params) (a : Agent) (e : Escrow)
    (known : lookup id a.escrows ≡ some e) where
  -- The cell as the first request leaves it.
  abbrev ran : Outcome Object × Cell
  ran = run_cached op_cache op_ref (operation m at party params op_ref) (with_ledger_of a e)

  handle_op-ran : handle_op (operation m at party params) params a ≡ (ran.0, store id ran.1 a)
  unfolding handle_op on_escrow cached_op
  handle_op-ran = rw (n.names_escrow, known, n.names_op) refl

  ran-Recalled : Settled ran.0 → Recalled ran.0 (lookup op_ref ran.1.esc.op_results)
  ran-Recalled =
      run_cached-Recalled op_cache (λ d s. refl) op_ref (operation m at party params op_ref)
        (with_ledger_of a e) (operation-Worded at party params op_ref (with_ledger_of a e) m)

  stored-Holds :
      (s : Recalled ran.0 (lookup op_ref ran.1.esc.op_results))
      → Holds id op_ref s.cached (store id ran.1 a)
  stored-Holds s = record {
    escrow = ran.1.esc;
    known = rw (lookup-insert, eq_refl) refl;
    there = s.there;
  }

  -- After any arrivals, the second request finds what the first one left.
  ran-again :
      (print : Printing) (m' : Mutation) (at' : Moment) (party' : String) (params' : Object)
      → Names id op_ref params'
      → Settled ran.0
      → (ms : List Arrival) → Each (Spares id) ms
      → let a' = (serve print ms (store id ran.1 a)).1 in
        Repeats (ran.0, a') (handle_op (operation m' at' party' params') params' a')
  ran-again print m' at' party' params' n' settled ms fresh =
      let s = ran-Recalled settled in
      let kept =
        serve-keeps (Holds id op_ref s.cached) print (Spares id)
          (λ x k. handlers-Holds id op_ref s.cached x.at x.party k) ms fresh (store id ran.1 a)
          (stored-Holds s) in
      rw
        (handle_op-found id op_ref s.cached m' at' party' params'
          (serve print ms (store id ran.1 a)).1 n' kept)
        (record { answer = s.answer; state = refl })

-- For an escrow that the agent holds: a request that ended with a result or an `AcmpError` is settled
-- for good. After whatever further arrivals, if none of them is given this escrow's id as a new one,
-- a request with the same `escrow_id` and `op_ref`, of any of the five methods, with whatever other
-- parameters, from whatever party and at whatever time, gets the same result or error object and
-- leaves the agent, its ledger included, exactly as it finds it.
pub handler-again :
    (print : Printing) (m m' : Mutation) (at at' : Moment) (party party' id op_ref : String)
    (params params' : Object)
    → Names id op_ref params
    → Names id op_ref params'
    → (a : Agent) (e : Escrow) → lookup id a.escrows ≡ some e
    → let r = handler m at party params a in
      Settled r.0
      → (ms : List Arrival) → Each (Spares id) ms
      → let a' = (serve print ms r.1).1 in Repeats (r.0, a') (handler m' at' party' params' a')
handler-again print m m' at at' party party' id op_ref params params' n n' a e known =
    rw
      (
        handler-handle_op m at party params,
        handler-handle_op m' at' party' params',
        handle_op-ran m at party id op_ref params n a e known,
      )
      (ran-again m at party id op_ref params n a e known print m' at' party' params' n')
