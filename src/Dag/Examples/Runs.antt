-- ===== src/Dag/Examples/Runs.antt =====
-- Runs of the orchestrator on the plan of four tasks.
use sdk_reference.Prelude.{
  ◌≤◌, String, ◌≡◌, refl, true, false, none, some, List, [], ◌∷◌, arith, eq_iff,
}
use sdk_reference.Prelude.Int.{pos}
use sdk_reference.Prelude.Sets.{has, IsDistinct, Each, length}
use sdk_reference.Messages.Task.{Result}
use sdk_reference.Dag.Search.{valid}
use sdk_reference.Dag.Validate.{task_ids}
use sdk_reference.Dag.Validate.Edges.{has_edge}
use sdk_reference.Dag.Validate.Plan.{IsPlan}
use sdk_reference.Dag.Validate.Judged.{validate_dag-IsPlan}
use sdk_reference.Dag.Resolve.Finds.{HasKeys}
use sdk_reference.Dag.Orchestrator.{
  Walk, done, is_empty, begin_walk, launch, Ending, returned, other_error, Ended, all_done, run,
}
use sdk_reference.Exec.{value_error}
use sdk_reference.Dag.Orchestrator.Invariant.{launched_ids}
use sdk_reference.Dag.Orchestrator.Finish.{IsBatch, AllReturned}
use sdk_reference.Dag.Orchestrator.Start.{tables_of}
use sdk_reference.Dag.Orchestrator.Run.{Waits, Concludes, run-Concludes, run-completes}
use sdk_reference.Dag.Orchestrator.Reached.{begins, launches, Reached-launches, Reached-HasKeys}
use sdk_reference.Dag.Examples.{text, diamond, diamond-valid}

abbrev result_of : String → Result
result_of t = record {
  task_id = t;
  output = some (text t);
  tokens_used = pos 1;
  cost_cu = pos 2;
  output_streamed = false;
  proof = none;
  provider_id = none;
}

-- The first handle ends.
abbrev first_ends : (String → Ending) → List String → List (String × Ending)
first_ends f [] = []
first_ends f (t ∷ ts) = (t, f t) ∷ []

abbrev succeed : String → Ending
succeed t = returned (result_of t)

abbrev fail : String → Ending
fail t = other_error value_error

IsBatch-first :
    (t : String) (ts : List String) (e : Ending) (w : Walk)
    → w.in_flight ≡ t ∷ ts
    → IsBatch ((t, e) ∷ []) w
unfolding has
IsBatch-first t ts e w same = record {
  distinct = (refl, tt);
  running = λ x m. rw same (ground (arith, eq_iff t x));
}

diamond-IsPlan : IsPlan diamond
diamond-IsPlan = (validate_dag-IsPlan diamond).0 diamond-valid

first_ends-waits :
    (f : String → Ending) (w : Walk) (ts : List String)
    → w.in_flight ≡ ts
    → is_empty ts ≡ false
    → IsBatch (first_ends f ts) w × (1 ≤ length (first_ends f ts))
first_ends-waits f w [] same h = cc
first_ends-waits f w (t ∷ ts) same h = (IsBatch-first t ts (f t) w same, omega arith)

Waits-first : (f : String → Ending) → Waits (λ w. first_ends f w.in_flight)
Waits-first f w = first_ends-waits f w w.in_flight refl

succeed-returns : (ts : List String) → AllReturned (first_ends succeed ts)
succeed-returns [] = tt
succeed-returns (t ∷ ts) = tt

run-Concludes_example :
    (e : Ended) × (run diamond (λ w. first_ends fail w.in_flight) ≡ valid e)
    × Concludes diamond (λ w. first_ends fail w.in_flight) e
run-Concludes_example =
    run-Concludes diamond diamond-IsPlan (λ w. first_ends fail w.in_flight) (Waits-first fail)

run-completes_example :
    (w : Walk) × (run diamond (λ w. first_ends succeed w.in_flight) ≡ valid (all_done w))
    × ((t : String) → has t (task_ids diamond) ≡ true → done t w.completed ≡ true)
run-completes_example =
    run-completes diamond diamond-IsPlan (λ w. first_ends succeed w.in_flight) (Waits-first succeed)
      (λ w h. succeed-returns w.in_flight)

-- The first task is launched.
abbrev started : Walk
started =
    launch diamond (begin_walk diamond (tables_of diamond)).ready
      (begin_walk diamond (tables_of diamond))

Reached-launches_example :
    IsDistinct (launched_ids started.invoked)
    × ((d t : String)
        → has t started.in_flight ≡ true
        → has_edge diamond.edges d t ≡ true
        → done d started.completed ≡ true)
Reached-launches_example = Reached-launches diamond diamond-IsPlan started (launches begins)

Reached-HasKeys_example : Each (λ l. HasKeys l.1) started.invoked
Reached-HasKeys_example = Reached-HasKeys diamond diamond-IsPlan started (launches begins)
