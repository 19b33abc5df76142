-- ===== src/Dag/Validate/Plan.antt =====
-- The reference notion of a plan that can run, and of each problem that a plan may have. Nothing
-- here uses the tables or the search.
use sdk_reference.Prelude.{String, ◌≡◌, ◌⊎◌, true, false, List, [], ◌∷◌}
use sdk_reference.Prelude.Sets.{has, IsDistinct}
use sdk_reference.Dag.{DagTaskSpec, Edge, Dag}
use sdk_reference.Dag.Search.{Problem, duplicate_task, unknown_task, cycle_at, missing_edge}
use sdk_reference.Dag.Search.Order.{IsCyclic}
use sdk_reference.Dag.Validate.{task_ids, input_refs}
use sdk_reference.Dag.Validate.Edges.{successors, has_edge, AllKnown, ends}

-- Each task that an input refers to has an edge to the task.
abbrev pub AllConnected : List Edge → List DagTaskSpec → Type 0
AllConnected es [] = Unit
AllConnected es (t ∷ ts) =
    ((r : String) → has r (input_refs t.input) ≡ true → has_edge es r t.task_id ≡ true)
    × AllConnected es ts

pub record IsPlan (g : Dag) : Type 0 where
  pub distinct : IsDistinct (task_ids g)
  pub known : AllKnown (task_ids g) g.edges
  pub acyclic : (x : String) → ¬ IsCyclic (successors g.edges) x
  pub connected : AllConnected g.edges g.tasks

-- A task of the list refers to `r` and has no edge from it.
abbrev pub IsUnconnected : List Edge → List DagTaskSpec → String → String → Type 0
IsUnconnected es [] t r = ⊥
IsUnconnected es (s ∷ ss) t r =
    ((s.task_id ≡ t) × (has r (input_refs s.input) ≡ true) × (has_edge es r t ≡ false))
    ⊎ IsUnconnected es ss t r

abbrev pub IsReal : Dag → Problem → Type 0
IsReal g duplicate_task = ¬ IsDistinct (task_ids g)
IsReal g (unknown_task k) = (has k (ends g.edges) ≡ true) × (has k (task_ids g) ≡ false)
IsReal g (cycle_at x) = IsCyclic (successors g.edges) x
IsReal g (missing_edge t r) = IsUnconnected g.edges g.tasks t r
