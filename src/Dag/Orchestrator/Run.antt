-- ===== src/Dag/Orchestrator/Run.antt =====
-- `DagOrchestrator.run` to its end.
use mathlib.Core.Path.{subst}
use sdk_reference.Prelude.{
  ℕ, zero, suc, ◌+◌, ◌≤◌, ◌<◌, String, ◌≡◌, refl, ap, inl, inr, true, false, ◌&&◌, ◌||◌, List, [],
  ◌∷◌, none, some, arith, eq_iff, Bool-cases,
}
use sdk_reference.Prelude.Sets.{has, length, has-append, missing-le_length}
use sdk_reference.Dag.{Dag}
use sdk_reference.Dag.Search.{Verdict, valid}
use sdk_reference.Dag.Validate.{task_ids}
use sdk_reference.Dag.Validate.Plan.{IsPlan}
use sdk_reference.Dag.Validate.Judged.{successors-known, validate_dag-IsPlan}
use sdk_reference.Dag.Orchestrator.{
  Walk, done, is_empty, launch, launch_one, begin_walk, Ending, Failure, finish, end_round, Ended,
  all_done, failed, out_of_rounds, rounds, run,
}
use sdk_reference.Dag.Orchestrator.Invariant.{IsOnPlan}
use sdk_reference.Dag.Orchestrator.Launch.{IsOnPlan-launch, same_deps}
use sdk_reference.Dag.Orchestrator.Finish.{
  IsBatch, undone, finish-IsOnPlan, AllReturned, finish-AllReturned, keys,
}
use sdk_reference.Dag.Orchestrator.Batches.{in_flight-finish, done-finish}
use sdk_reference.Dag.Orchestrator.Start.{
  tables_of, tables_of-FillsAll, begin_walk-IsOnPlan, idle-AllDone,
}

-- What `asyncio.wait` promises: some of the handles that are in flight.
abbrev pub Waits : (Walk → List (String × Ending)) → Type 0
Waits wait = (w : Walk) → is_empty w.in_flight ≡ false → IsBatch (wait w) w × (1 ≤ length (wait w))

-- No task fails.
abbrev pub Returns : (Walk → List (String × Ending)) → Type 0
Returns wait = (w : Walk) → is_empty w.in_flight ≡ false → AllReturned (wait w)

-- How a run ends: with a result for every task, or with a failure and no result for what is
-- cancelled.
abbrev pub Concludes : Dag → (Walk → List (String × Ending)) → Ended → Type 0
Concludes g wait (all_done w) = (t : String) → has t (task_ids g) ≡ true → done t w.completed ≡ true
Concludes g wait (failed e cancelled w) =
    ((t : String) → has t cancelled ≡ true → done t w.completed ≡ false) × ¬ Returns wait
Concludes g wait out_of_rounds = ⊥

in_flight-launch :
    (g : Dag) (ts : List String) (w : Walk) (t : String)
    → has t (launch g ts w).in_flight ≡ (has t w.in_flight || has t ts)
unfolding has launch launch_one
in_flight-launch g [] w t = ground arith
in_flight-launch g (u ∷ us) w t =
    ground (arith, in_flight-launch g us (launch_one g u w) t, has-append t w.in_flight (u ∷ []))

member-is_empty : (xs : List String) (x : String) → has x xs ≡ true → is_empty xs ≡ false
unfolding has
member-is_empty [] x h = cc
member-is_empty (y ∷ ys) x h = refl

first-has : (xs : List String) → is_empty xs ≡ false → (x : String) × (has x xs ≡ true)
unfolding has
first-has [] h = cc
first-has (x ∷ xs) h = (x, ground (arith, eq_iff x x))

launch-runs :
    (g : Dag) (w : Walk)
    → (is_empty w.ready && is_empty w.in_flight) ≡ false
    → is_empty (launch g w.ready w).in_flight ≡ false
launch-runs g w h = elim (Bool-cases (is_empty w.in_flight)) [
  | inr some_running ↦
      let (x, m) = first-has w.in_flight some_running in
      member-is_empty (launch g w.ready w).in_flight x
        (ground (arith, in_flight-launch g w.ready w x))
  | inl none_running ↦
      let (x, m) = first-has w.ready (ground arith) in
      member-is_empty (launch g w.ready w).in_flight x
        (ground (arith, in_flight-launch g w.ready w x))
]

is_empty-has : (xs : List String) (x : String) → is_empty xs ≡ true → has x xs ≡ false
unfolding has
is_empty-has [] x h = refl
is_empty-has (y ∷ ys) x h = cc

module _ (g : Dag) (plan : IsPlan g) (wait : Walk → List (String × Ending))
    (waits : Waits wait) where
  again-enough :
      (n k : ℕ) (w w2 : Walk)
      → undone (task_ids g) w2.completed + k ≤ undone (task_ids g) (launch g w.ready w).completed
      → 1 ≤ k
      → undone (task_ids g) w.completed < suc n
      → undone (task_ids g) w2.completed < n
  again-enough n k w w2 fewer some_ended enough =
      omega (arith, ap (undone (task_ids g)) (same_deps (task_ids g) g.edges g w.ready w).1)

  -- After a batch.
  batch-Concludes :
      (n : ℕ) (w : Walk) (again : Walk → Ended)
      → ((w2 : Walk)
          → IsOnPlan (task_ids g) g.edges w2
          → undone (task_ids g) w2.completed < n
          → Concludes g wait (again w2))
      → IsOnPlan (task_ids g) g.edges w
      → undone (task_ids g) w.completed < suc n
      → is_empty (launch g w.ready w).in_flight ≡ false
      → (r : Failure × Walk)
      → finish (tables_of g).outgoing (wait (launch g w.ready w)) none (launch g w.ready w) ≡ r
      → Concludes g wait (end_round r again)
  batch-Concludes n w again h p enough runs (none, w2) ended =
      let w1 = launch g w.ready w in
      let (batch, some_ended) = waits w1 runs in
      let (p2, fewer) =
        finish-IsOnPlan (task_ids g) g.edges (tables_of g).outgoing (tables_of-FillsAll g plan).1
          (λ u v e. (successors-known (task_ids g) g.edges plan.known u v e).1) (wait w1) w1 w2
          (IsOnPlan-launch (task_ids g) g.edges g w p) batch ended in
      h w2 p2 (again-enough n (length (wait w1)) w w2 fewer some_ended enough)
  batch-Concludes n w again h p enough runs (some e, w2) ended =
      let w1 = launch g w.ready w in
      let out = (tables_of g).outgoing in
      let p1 = IsOnPlan-launch (task_ids g) g.edges g w p in
      let same : (finish out (wait w1) none w1).1 ≡ w2 = ap (λ r. r.1) ended in
      (
        (λ t.
            subst (λ v. has t v.in_flight ≡ true → done t v.completed ≡ false) same
              (λ m. ground (
                arith,
                in_flight-finish out (wait w1) none w1 t,
                done-finish out (wait w1) none w1 t,
                p1.stands.running t,
              ))),
        (λ returns. cc (ended, (finish-AllReturned out (wait w1) w1 (returns w1 runs)).1)),
      )

  rounds-Concludes :
      (n : ℕ) (w : Walk)
      → IsOnPlan (task_ids g) g.edges w
      → undone (task_ids g) w.completed < n
      → Concludes g wait (rounds g (tables_of g).outgoing wait n w)
  unfolding rounds
  rounds-Concludes zero w p enough = omega arith
  rounds-Concludes (suc n) w p enough =
      elim (Bool-cases (is_empty w.ready && is_empty w.in_flight)) [
        | inl idle ↦ rw idle (
            idle-AllDone g plan w p (λ v.
              (is_empty-has w.ready v (ground arith), is_empty-has w.in_flight v (ground arith))))
        | inr busy ↦ rw busy (
            batch-Concludes n w (rounds g (tables_of g).outgoing wait n) (rounds-Concludes n) p
              enough (launch-runs g w busy)
              (finish (tables_of g).outgoing (wait (launch g w.ready w)) none (launch g w.ready w))
              refl)
      ]

  -- On a DAG that can run, `run` ends after at most one round for each task and one more, whatever
  -- the tasks end with, as long as each wait hands back handles in flight, at least one and none
  -- twice: either every task has a result, or a task failed and no task that is cancelled has a
  -- result.
  pub run-Concludes : (e : Ended) × (run g wait ≡ valid e) × Concludes g wait e
  unfolding run undone
  run-Concludes =
      let w = begin_walk g (tables_of g) in
      let n = suc (length (task_ids g)) in
      (
        rounds g (tables_of g).outgoing wait n w,
        rw ((validate_dag-IsPlan g).1 plan) refl,
        rounds-Concludes n w (begin_walk-IsOnPlan g plan)
            (omega (arith, missing-le_length (task_ids g) (keys w.completed))),
      )

complete-from :
    (g : Dag) (wait : Walk → List (String × Ending))
    → Returns wait
    → (v : Verdict Ended) (e : Ended) → v ≡ valid e
    → Concludes g wait e
    → (w : Walk) × (v ≡ valid (all_done w))
      × ((t : String) → has t (task_ids g) ≡ true → done t w.completed ≡ true)
complete-from g wait returns v (all_done w) same c = (w, same, c)
complete-from g wait returns v (failed x cancelled w) same c = elim (c.1 returns) [ ]
complete-from g wait returns v out_of_rounds same c = elim c [ ]

-- If no task fails, `run` returns a result for every task of a DAG that can run.
pub run-completes :
    (g : Dag)
    → IsPlan g
    → (wait : Walk → List (String × Ending)) → Waits wait
    → Returns wait
    → (w : Walk) × (run g wait ≡ valid (all_done w))
      × ((t : String) → has t (task_ids g) ≡ true → done t w.completed ≡ true)
run-completes g plan wait waits returns =
    let (e, same, c) = run-Concludes g plan wait waits in
    complete-from g wait returns (run g wait) e same c
