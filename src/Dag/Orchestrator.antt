-- ===== src/Dag/Orchestrator.antt =====
-- `DagOrchestrator.run` of src/acmp/dag.py as rounds: launch what is ready, wait, process what has
-- ended. What `asyncio.wait` hands back is a parameter of each round.
pub mod Invariant
pub mod Launch
pub mod Release
pub mod Finish
pub mod Batches
pub mod Start
pub mod Run
pub mod Reached
use sdk_reference.Prelude.{
  ℕ, zero, suc, String, Bool, true, false, not, ◌&&◌, ◌||◌, Option, none, some, List, [], ◌∷◌, ◌++◌,
  ◌==◌, if◌then◌else◌,
}
use sdk_reference.Prelude.Int.{pos}
use sdk_reference.Prelude.Dict.{Dict, lookup, insert}
use sdk_reference.Prelude.Sets.{has, add, discard, length}
use sdk_reference.Errors.{AcmpError}
use sdk_reference.Exec.{Outcome, ok, fault, Fault, key_error, bind}
use sdk_reference.Messages.Task.{Task, Result}
use sdk_reference.Dag.{DagTaskSpec, Edge, Dag}
use sdk_reference.Dag.Resolve.{resolve_input}
use sdk_reference.Dag.Validate.{Tables, at, empty_tables, add_edge, validate_dag, task_ids}
use sdk_reference.Dag.Search.{Verdict, valid, and_then}

-- The locals of `run`. `invoked` holds what each launched handle computes before its `invoke`, the
-- latest first.
pub record Walk : Type 0 where
  pub completed : Dict Result
  pub pending_deps : Dict (List String)
  pub ready : List String
  pub scheduled : List String
  pub in_flight : List String
  pub invoked : List (String × Outcome Task)

-- `k in completed`
abbrev pub is_some : Option Result → Bool
is_some none = false
is_some (some r) = true

unfoldable pub done : String → Dict Result → Bool
done k completed = is_some (lookup k completed)

abbrev pub is_empty : List String → Bool
is_empty [] = true
is_empty (x ∷ xs) = false

-- `specs[task_id]`
unfoldable pub find_spec : List DagTaskSpec → String → Outcome DagTaskSpec
find_spec [] k = fault (key_error k)
find_spec (t ∷ ts) k = let rest = find_spec ts k in if t.task_id == k then ok t else rest

unfoldable pub run_one : Dag → Dict Result → String → Outcome Task
run_one g completed task_id = bind (find_spec g.tasks task_id) λ spec.
    bind (resolve_input spec.input completed) λ resolved. ok (record {
      capability = spec.capability;
      input = some resolved;
      task_id = spec.task_id;
      output_type = spec.output_type;
      input_tokens_est = spec.input_tokens_est;
      max_price_cu = spec.max_price_cu;
      preferred_tier = spec.preferred_tier;
      timeout_ms = pos 30000;
      stream = false;
      input_stream = false;
      escrow_id = none;
      proof_method = spec.proof_method;
      metadata = spec.metadata;
    })

-- The tasks that wait for none.
unfoldable pub roots : Dict (List String) → List String → List String
roots pending [] = []
roots pending (t ∷ ts) =
    let rest = roots pending ts in if is_empty (at t pending) then t ∷ rest else rest

unfoldable pub begin_walk : Dag → Tables → Walk
begin_walk g t =
    let ready = roots t.incoming (task_ids g) in
    record {
      completed = [];
      pending_deps = t.incoming;
      ready = ready;
      scheduled = ready;
      in_flight = [];
      invoked = [];
    }

unfoldable pub launch_one : Dag → String → Walk → Walk
launch_one g t w = record w {
  in_flight = w.in_flight ++ t ∷ [];
  invoked = (t, run_one g w.completed t) ∷ w.invoked;
}

-- `for tid in ready: …`, and then `ready = []`.
unfoldable pub launch : Dag → List String → Walk → Walk
launch g [] w = record w { ready = [] }
launch g (t ∷ ts) w = launch g ts (launch_one g t w)

-- One dependent of a task that has ended.
unfoldable pub release_one : String → String → Walk → Walk
release_one k d w =
    let deps = discard k (at d w.pending_deps) in
    let w' : Walk = record w { pending_deps = insert d deps w.pending_deps } in
    if is_empty deps && not (has d w.scheduled)
    then record w' { scheduled = add d w.scheduled; ready = w.ready ++ d ∷ [] }
    else w'

unfoldable pub release : String → List String → Walk → Walk
release k [] w = w
release k (d ∷ ds) w = release k ds (release_one k d w)

-- The exception of a handle, or its result.
pub data Ending : Type 0 where
  returned : Result → Ending
  acmp_error : AcmpError → Ending
  other_error : Fault → Ending

abbrev pub Failure : Type 0
Failure = Option Ending

-- `failure = failure or exc`
abbrev pub first_of : Failure → Ending → Failure
first_of (some e) _ = some e
first_of none e = some e

unfoldable pub collect : Dict (List String) → String → Result → Walk → Walk
collect outgoing t r w =
    release t (at t outgoing)
      (record w { in_flight = discard t w.in_flight; completed = insert t r w.completed })

abbrev pub drop_handle : String → Walk → Walk
drop_handle t w = record w { in_flight = discard t w.in_flight }

-- `for handle in done: …`
unfoldable pub finish :
    Dict (List String) → List (String × Ending) → Failure → Walk → Failure × Walk
finish outgoing [] failure w = (failure, w)
finish outgoing ((t, returned r) ∷ b) failure w = finish outgoing b failure (collect outgoing t r w)
finish outgoing ((t, acmp_error e) ∷ b) failure w =
    finish outgoing b (first_of failure (acmp_error e)) (drop_handle t w)
finish outgoing ((t, other_error x) ∷ b) failure w =
    finish outgoing b (first_of failure (other_error x)) (drop_handle t w)

-- How `run` ends: with the results, or with an exception, after `cancel` for each task that is
-- still in flight.
pub data Ended : Type 0 where
  all_done : Walk → Ended
  failed : Ending → (cancelled : List String) → Walk → Ended
  out_of_rounds : Ended

abbrev pub end_round : Failure × Walk → (Walk → Ended) → Ended
end_round (none, w) again = again w
end_round (some e, w) again = failed e w.in_flight w

-- The loop, on fuel. `wait` stands for `asyncio.wait` and the providers.
module _ (g : Dag) (outgoing : Dict (List String)) (wait : Walk → List (String × Ending)) where
  unfoldable pub rounds : ℕ → Walk → Ended
  rounds zero w = out_of_rounds
  rounds (suc n) w =
      let launched = launch g w.ready w in
      let next = end_round (finish outgoing (wait launched) none launched) (rounds n) in
      if is_empty w.ready && is_empty w.in_flight then all_done w else next

-- The tables of `run`, which are built like those of `validate_dag`.
unfoldable pub build : List Edge → Tables → Tables
build [] t = t
build (e ∷ es) t = build es (add_edge e t)

-- Each round ends a task, and the last one finds that nothing is left.
unfoldable pub run : Dag → (Walk → List (String × Ending)) → Verdict Ended
run g wait =
    let t = build g.edges (empty_tables (task_ids g)) in
    and_then (validate_dag g)
      (λ _. valid (rounds g t.outgoing wait (suc (length (task_ids g))) (begin_walk g t)))
