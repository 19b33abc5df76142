-- ===== src/Escrow/Agent/Service.antt =====
-- The agent's whole service: any messages, from any parties, in any order.
use sdk_reference.Prelude.{String, List, arith}
use sdk_reference.Prelude.Int.{ℤ, ◌≤ℤ◌}
use sdk_reference.Json.{Object}
use sdk_reference.Escrow.Cell.{Moment}
use sdk_reference.Escrow.Operations.Contract.{
  bind_op-Contract, release_op-Contract, reclaim_op-Contract, claim_op-Contract,
  dispute_op-Contract,
}
use sdk_reference.Escrow.Operations.Mutation.{
  Mutation, binding, releasing, reclaiming, claiming, disputing, operation,
}
use sdk_reference.Escrow.Agent.{Agent, handle_op}
use sdk_reference.Escrow.Agent.Dispatch.{Printing, Arrival, serve}
use sdk_reference.Escrow.Agent.Serving.{AllKeep, serve-keeps}
use sdk_reference.Prelude.Sets.{Each-any}
use sdk_reference.Escrow.Agent.Value.{
  IsSoundAgent, IsBacked, value, handle_op-IsBacked, handle_lock-IsBacked, handle_status-IsBacked,
}

handle_mutation-IsBacked :
    (v : ℤ) (m : Mutation) (at : Moment) (party : String) (params : Object) (a : Agent)
    → IsBacked v a
    → IsBacked v (handle_op (operation m at party params) params a).1
handle_mutation-IsBacked v binding at party params a b =
    handle_op-IsBacked v a b _ params (bind_op-Contract at party params)
handle_mutation-IsBacked v releasing at party params a b =
    handle_op-IsBacked v a b _ params (release_op-Contract at party params)
handle_mutation-IsBacked v reclaiming at party params a b =
    handle_op-IsBacked v a b _ params (reclaim_op-Contract at party params)
handle_mutation-IsBacked v claiming at party params a b =
    handle_op-IsBacked v a b _ params (claim_op-Contract at party params)
handle_mutation-IsBacked v disputing at party params a b =
    handle_op-IsBacked v a b _ params (dispute_op-Contract at party params)

handlers-IsBacked : (v : ℤ) (at : Moment) (party : String) → AllKeep (IsBacked v) at party
handlers-IsBacked v at party = record {
  lock = handle_lock-IsBacked v at party;
  mutate = λ m params a b. handle_mutation-IsBacked v m at party params a b;
  status = handle_status-IsBacked v at party;
}

-- From a sound agent, whatever messages arrive on whatever connections, with any clock readings and
-- any escrow ids: every escrow stays well formed, no account is overdrawn, and the money in the
-- accounts and the escrows together never exceeds what there was.
pub serve-value_le :
    (print : Printing) (ms : List Arrival) (a : Agent)
    → IsSoundAgent a
    → let a' = (serve print ms a).1 in IsSoundAgent a' × (value a' ≤ℤ value a)
serve-value_le print ms a s =
    let b =
      serve-keeps (IsBacked (value a)) print (λ m. Unit)
        (λ m _. handlers-IsBacked (value a) m.at m.party) ms (Each-any ms) a
        (record { agent = s; within = omega arith }) in
    (b.agent, b.within)
