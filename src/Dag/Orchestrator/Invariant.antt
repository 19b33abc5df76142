-- ===== src/Dag/Orchestrator/Invariant.antt =====
-- The invariant of the loop of `DagOrchestrator.run`: where each task stands, and what it waits for.
use sdk_reference.Prelude.{
  String, ◌≡◌, refl, true, false, not, ◌&&◌, ◌||◌, List, [], ◌∷◌, map, arith,
}
use sdk_reference.Prelude.Sets.{has, IsDistinct}
use sdk_reference.Messages.Task.{Task}
use sdk_reference.Exec.{Outcome}
use sdk_reference.Dag.{Edge}
use sdk_reference.Dag.Validate.{at}
use sdk_reference.Dag.Validate.Edges.{has_edge}
use sdk_reference.Dag.Orchestrator.{Walk, done, is_empty}

-- The tasks that were launched, the latest first.
abbrev pub launched_ids : List (String × Outcome Task) → List String
launched_ids log = map (λ l. l.0) log

module _ (ids : List String) (es : List Edge) where
  -- Where each task stands: scheduled once nothing is left to wait for, and then ready, in flight or
  -- done, and launched at most once.
  pub record Stands (w : Walk) : Type 0 where
    pub free :
        (t : String)
        → has t ids ≡ true
        → is_empty (at t w.pending_deps) ≡ true
        → has t w.scheduled ≡ true
    pub waited : (t : String) → has t w.scheduled ≡ true → is_empty (at t w.pending_deps) ≡ true
    pub known : (t : String) → has t w.scheduled ≡ true → has t ids ≡ true
    pub parts :
        (t : String)
        → has t w.scheduled ≡ (has t w.ready || (has t w.in_flight || done t w.completed))
    pub log :
        (t : String) → has t (launched_ids w.invoked) ≡ (has t w.in_flight || done t w.completed)
    pub once : IsDistinct (launched_ids w.invoked)
    pub ready_once : IsDistinct w.ready
    pub ready_new : (t : String) → has t w.ready ≡ true → has t (launched_ids w.invoked) ≡ false
    pub running : (t : String) → has t w.in_flight ≡ true → done t w.completed ≡ false

  -- A task waits for the tasks with an edge to it that are not done.
  abbrev pub Waits : Walk → Type 0
  Waits w =
      (d t : String) → has d (at t w.pending_deps) ≡ (has_edge es d t && not (done d w.completed))

  pub record IsOnPlan (w : Walk) : Type 0 where
    pub stands : Stands w
    pub waits : Waits w

  empty-has : (xs : List String) (x : String) → is_empty xs ≡ true → has x xs ≡ false
  unfolding has
  empty-has [] x h = refl
  empty-has (y ∷ ys) x h = cc

  -- What is scheduled has each task with an edge to it done.
  pub scheduled-done :
      (w : Walk)
      → IsOnPlan w
      → (d t : String) → has t w.scheduled ≡ true
      → has_edge es d t ≡ true
      → done d w.completed ≡ true
  scheduled-done w p d t s e =
      ground (arith, p.waits d t, empty-has (at t w.pending_deps) d (p.stands.waited t s))
