-- ===== src/Dag/Validate.antt =====
-- `validate_dag` of src/acmp/dag.py: the four checks, in the code's order.
pub mod Edges
pub mod Plan
pub mod References
pub mod Judged
use sdk_reference.Prelude.{
  String, Bool, true, false, not, Option, none, some, List, [], ◌∷◌, ◌++◌, map, if◌then◌else◌,
}
use sdk_reference.Prelude.Dict.{Dict, lookup, insert}
use sdk_reference.Prelude.Sets.{has, add, to_set, length, eqb}
use sdk_reference.Dag.{InputRef, referenced_tasks, TaskInput, literal, ref, DagTaskSpec, Edge, Dag}
use sdk_reference.Dag.Search.{
  Problem, duplicate_task, unknown_task, missing_edge, Verdict, valid, invalid, and_then, Marks,
  no_marks, visit_all,
}

abbrev pub task_ids : Dag → List String
task_ids g = map (λ t. t.task_id) g.tasks

-- `incoming` and `outgoing`.
pub record Tables : Type 0 where
  pub incoming : Dict (List String)
  pub outgoing : Dict (List String)

-- `{tid: [] for tid in task_ids}`, on top of the entries that are there.
unfoldable pub empty_entries : Dict (List String) → List String → Dict (List String)
empty_entries d [] = d
empty_entries d (t ∷ ts) = empty_entries (insert t [] d) ts

-- `table[k]`, of a table with an entry for each task, at a task.
unfoldable pub at : String → Dict (List String) → List String
at k d = elim (lookup k d) [ some xs ↦ xs | none ↦ [] ]

abbrev pub empty_tables : List String → Tables
empty_tables ids = record { incoming = empty_entries [] ids; outgoing = empty_entries [] ids }

unfoldable pub add_edge : Edge → Tables → Tables
add_edge e t = record {
  incoming = insert e.to_task (add e.from_task (at e.to_task t.incoming)) t.incoming;
  outgoing = insert e.from_task (at e.from_task t.outgoing ++ e.to_task ∷ []) t.outgoing;
}

-- The loop over the edges: `for tid in (edge.from_task, edge.to_task)`, and then the tables.
unfoldable pub add_edges : List String → List Edge → Tables → Verdict Tables
add_edges id_set [] t = valid t
add_edges id_set (e ∷ es) t =
    let rest = add_edges id_set es (add_edge e t) in
    if not (has e.from_task id_set)
    then invalid (unknown_task e.from_task)
    else if not (has e.to_task id_set)
    then invalid (unknown_task e.to_task)
    else rest

abbrev pub input_refs : TaskInput → List String
input_refs (literal p) = []
input_refs (ref r) = referenced_tasks r

unfoldable pub check_task_refs : String → List String → List String → Verdict (Unit {0})
check_task_refs task_id sources [] = valid tt
check_task_refs task_id sources (r ∷ rs) =
    let rest = check_task_refs task_id sources rs in
    if has r sources then rest else invalid (missing_edge task_id r)

unfoldable pub check_refs : Dict (List String) → List DagTaskSpec → Verdict (Unit {0})
check_refs incoming [] = valid tt
check_refs incoming (t ∷ ts) =
    and_then (check_task_refs t.task_id (at t.task_id incoming) (input_refs t.input))
      (λ _. check_refs incoming ts)

-- The search, on fuel for each task, and the last check.
unfoldable pub check_tables : Dag → Tables → Verdict (Unit {0})
check_tables g t =
    let ids = task_ids g in
    and_then (visit_all (λ k. at k t.outgoing) (length ids) ids no_marks)
      (λ _. check_refs t.incoming g.tasks)

unfoldable pub validate_dag : Dag → Verdict (Unit {0})
validate_dag g =
    let ids = task_ids g in
    if not (eqb (length (to_set ids)) (length ids))
    then invalid duplicate_task
    else and_then (add_edges (to_set ids) g.edges (empty_tables ids)) (check_tables g)
