-- ===== src/Dag/Orchestrator/Reached.antt =====
-- The walks that `run` can be in, and what holds of each.
use mathlib.Core.Path.{subst}
use sdk_reference.Prelude.{
  String, ◌≡◌, sym, ap, inl, inr, true, Option, none, some, List, [], ◌∷◌, map, arith, ◌==◌, eq_iff,
  eq_refl, Bool-cases,
}
use sdk_reference.Prelude.Dict.{Dict, lookup}
use sdk_reference.Prelude.Sets.{has, IsDistinct, Each}
use sdk_reference.Exec.{Outcome, bind}
use sdk_reference.Messages.Task.{Task, Result}
use sdk_reference.Dag.{DagTaskSpec, Edge, Dag}
use sdk_reference.Dag.Resolve.{resolve_input}
use sdk_reference.Dag.Resolve.Finds.{HasKeys, bind-HasKeys, IsThere, resolve_input-HasKeys}
use sdk_reference.Dag.Validate.{task_ids, input_refs}
use sdk_reference.Dag.Validate.Edges.{has_edge}
use sdk_reference.Dag.Validate.Plan.{IsPlan, AllConnected}
use sdk_reference.Dag.Validate.Judged.{successors-known}
use sdk_reference.Dag.Orchestrator.{
  Walk, done, is_some, find_spec, run_one, begin_walk, launch_one, launch, Ending, finish,
}
use sdk_reference.Dag.Orchestrator.Invariant.{launched_ids, IsOnPlan, scheduled-done}
use sdk_reference.Dag.Orchestrator.Launch.{IsOnPlan-launch}
use sdk_reference.Dag.Orchestrator.Finish.{IsBatch, finish-IsOnPlan}
use sdk_reference.Dag.Orchestrator.Batches.{invoked-finish}
use sdk_reference.Dag.Orchestrator.Start.{tables_of, tables_of-FillsAll, begin_walk-IsOnPlan}

-- Launches and batches without a failure, in any order: a failure ends the loop.
pub data Reached (g : Dag) : Walk → Type 0 where
  begins : Reached g (begin_walk g (tables_of g))
  launches : {w : Walk} → Reached g w → Reached g (launch g w.ready w)
  finishes :
      {w w' : Walk} (b : List (String × Ending))
      → Reached g w
      → IsBatch b w
      → finish (tables_of g).outgoing b none w ≡ (none, w')
      → Reached g w'

-- Every walk that is reached is on the plan.
Reached-IsOnPlan : (g : Dag) → IsPlan g → (w : Walk) → Reached g w → IsOnPlan (task_ids g) g.edges w
Reached-IsOnPlan g plan w begins = begin_walk-IsOnPlan g plan
Reached-IsOnPlan g plan w (launches {w = v} r) =
    IsOnPlan-launch (task_ids g) g.edges g v (Reached-IsOnPlan g plan v r)
Reached-IsOnPlan g plan w (finishes {w = v} b r batch ended) =
    (finish-IsOnPlan (task_ids g) g.edges (tables_of g).outgoing (tables_of-FillsAll g plan).1
      (λ u x e. (successors-known (task_ids g) g.edges plan.known u x e).1) b v w
      (Reached-IsOnPlan g plan v r) batch ended).0

-- On a DAG that can run, whatever has been launched was launched once, and every task with an edge
-- to a task that is in flight has its result.
pub Reached-launches :
    (g : Dag)
    → IsPlan g
    → (w : Walk) → Reached g w
    → IsDistinct (launched_ids w.invoked)
      × ((d t : String)
          → has t w.in_flight ≡ true
          → has_edge g.edges d t ≡ true
          → done d w.completed ≡ true)
Reached-launches g plan w r =
    let p = Reached-IsOnPlan g plan w r in
    (
      p.stands.once,
      λ d t on e. scheduled-done (task_ids g) g.edges w p d t (ground (arith, p.stands.parts t)) e,
    )

done-IsThere : (o : Option Result) → is_some o ≡ true → IsThere o
done-IsThere none h = cc
done-IsThere (some r) h = tt

-- The spec of a task, whose references all have an edge to it.
find_spec-HasKeys :
    (es : List Edge) (k : String) (f : DagTaskSpec → Outcome Task)
    → ((t : DagTaskSpec)
        → ((d : String) → has d (input_refs t.input) ≡ true → has_edge es d k ≡ true)
        → HasKeys (f t))
    → (ts : List DagTaskSpec) → AllConnected es ts
    → has k (map (λ t. t.task_id) ts) ≡ true
    → HasKeys (bind (find_spec ts k) f)
unfolding has find_spec
find_spec-HasKeys es k f h [] c m = cc
find_spec-HasKeys es k f h (t ∷ ts) (c, cs) m = elim (Bool-cases (t.task_id == k)) [
  | inl same ↦ rw same (
      h t (
        subst (λ x. (d : String) → has d (input_refs t.input) ≡ true → has_edge es d x ≡ true)
          ((eq_iff t.task_id k).0 same) c))
  | inr other ↦ rw other (find_spec-HasKeys es k f h ts cs (ground arith))
]

run_one-HasKeys :
    (g : Dag) (completed : Dict Result) (k : String)
    → IsPlan g
    → has k (task_ids g) ≡ true
    → ((d : String) → has_edge g.edges d k ≡ true → done d completed ≡ true)
    → HasKeys (run_one g completed k)
unfolding run_one done
run_one-HasKeys g completed k plan m h =
    find_spec-HasKeys g.edges k _
      (λ t c.
        bind-HasKeys (resolve_input t.input completed) _
          (resolve_input-HasKeys t.input completed
            (λ d e. done-IsThere (lookup d completed) (h d (c d e))))
          (λ p. tt))
      g.tasks plan.connected m

launch-HasKeys :
    (g : Dag) (ts : List String) (w : Walk)
    → ((t : String) → has t ts ≡ true → HasKeys (run_one g w.completed t))
    → Each (λ l. HasKeys l.1) w.invoked
    → Each (λ l. HasKeys l.1) (launch g ts w).invoked
unfolding has launch launch_one
launch-HasKeys g [] w h logged = logged
launch-HasKeys g (t ∷ ts) w h logged =
    launch-HasKeys g ts (launch_one g t w) (λ x m. h x (ground arith))
      (h t (ground (arith, eq_refl t)), logged)

-- No task of a DAG that can run is launched before the results that its input refers to are there:
-- what it computes before its `invoke` never stops with a `KeyError`.
pub Reached-HasKeys :
    (g : Dag) → IsPlan g → (w : Walk) → Reached g w → Each (λ l. HasKeys l.1) w.invoked
unfolding begin_walk
Reached-HasKeys g plan w begins = tt
Reached-HasKeys g plan w (launches {w = v} r) =
    let p = Reached-IsOnPlan g plan v r in
    launch-HasKeys g v.ready v
      (λ t m.
        let s : has t v.scheduled ≡ true = ground (arith, p.stands.parts t) in
        run_one-HasKeys g v.completed t plan (p.stands.known t s)
          (λ d e. scheduled-done (task_ids g) g.edges v p d t s e))
      (Reached-HasKeys g plan v r)
Reached-HasKeys g plan w (finishes {w = v} b r batch ended) =
    let same : (finish (tables_of g).outgoing b none v).1 ≡ w = ap (λ x. x.1) ended in
    rw (sym same) (rw (invoked-finish (tables_of g).outgoing b none v) (Reached-HasKeys g plan v r))
