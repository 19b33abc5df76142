-- ===== src/Dag/Validate/Judged.antt =====
-- `validate_dag` of src/acmp/dag.py against the reference notion of a plan that can run.
use sdk_reference.Prelude.{
  String, ◌≡◌, ◌≢◌, ◌↔◌, refl, inl, inr, true, List, [], ◌∷◌, eq_iff, arith, Bool-cases,
}
use mathlib.Core.Path.{subst, fun_ext}
use sdk_reference.Prelude.Sets.{
  has, to_set, length, eqb, IsDistinct, to_set-IsDistinct, IsDistinct-to_set,
}
use sdk_reference.Dag.{Edge, Dag}
use sdk_reference.Dag.Search.{
  Problem, duplicate_task, unknown_task, cycle_at, missing_edge, Verdict, valid, invalid,
  out_of_fuel, and_then, Marks, no_marks, visit_all,
}
use sdk_reference.Dag.Search.Order.{IsCyclic, IsOrder, IsOrder-acyclic}
use sdk_reference.Dag.Search.Correct.{Answers, visit_all-Answers}
use sdk_reference.Dag.Validate.{
  task_ids, Tables, at, empty_tables, add_edges, check_refs, check_tables, validate_dag,
}
use sdk_reference.Dag.Validate.Edges.{
  successors, has_edge, AllKnown, ends, FillsAll, add_edges-FillsAll,
}
use sdk_reference.Dag.Validate.Plan.{IsPlan, IsReal}
use sdk_reference.Dag.Validate.References.{JudgesAll, check_refs-Judges, IsUnconnected-AllConnected}

-- No task of a list is outside of it, so an unknown end refutes what the loop checks.
AllKnown-ends :
    (ids : List String) (es : List Edge)
    → AllKnown ids es
    → (k : String) → has k (ends es) ≡ true
    → has k ids ≡ true
unfolding has
AllKnown-ends ids [] known k h = cc
AllKnown-ends ids (e ∷ es) (a, b, known) k h =
    ground (arith, eq_iff e.from_task k, eq_iff e.to_task k, AllKnown-ends ids es known k)

pub successors-known :
    (ids : List String) (es : List Edge)
    → AllKnown ids es
    → (u v : String) → has_edge es u v ≡ true
    → (has u ids ≡ true) × (has v ids ≡ true)
unfolding has
successors-known ids [] known u v h = cc
successors-known ids (e ∷ es) (a, b, known) u v h =
    ground (arith, eq_iff e.from_task u, eq_iff e.to_task v, successors-known ids es known u v)

-- A cycle passes through tasks only, so an order of all tasks excludes it.
ordered-acyclic :
    (ids : List String) (es : List Edge)
    → AllKnown ids es
    → (order : List String) → IsOrder (successors es) order
    → ((x : String) → has x ids ≡ true → has x order ≡ true)
    → (x : String) → ¬ IsCyclic (successors es) x
ordered-acyclic ids es known order o all x c =
    IsOrder-acyclic (successors es) order o x
      (all x (successors-known ids es known c.last x c.back).1) c

-- What `validate_dag` answers.
abbrev Judges : Dag → Verdict (Unit {0}) → Type 0
Judges g (valid _) = IsPlan g
Judges g (invalid p) = IsReal g p
Judges g out_of_fuel = ⊥

judge_refs :
    (g : Dag)
    → IsDistinct (task_ids g)
    → AllKnown (task_ids g) g.edges
    → ((x : String) → ¬ IsCyclic (successors g.edges) x)
    → (v : Verdict (Unit {0})) → JudgesAll g.edges g.tasks v
    → Judges g v
judge_refs g d known acyclic (valid _) j = record {
  distinct = d;
  known = known;
  acyclic = acyclic;
  connected = j;
}
judge_refs g d known acyclic (invalid p) (t, r, same, u) = rw same u
judge_refs g d known acyclic out_of_fuel j = j

judge_search :
    (g : Dag)
    → IsDistinct (task_ids g)
    → AllKnown (task_ids g) g.edges
    → (v : Verdict Marks) → Answers (successors g.edges) (task_ids g) v
    → (rest : Verdict (Unit {0})) → JudgesAll g.edges g.tasks rest
    → Judges g (and_then v (λ _. rest))
judge_search g d known (valid m) (order, o, all) rest j =
    judge_refs g d known (ordered-acyclic (task_ids g) g.edges known order o all) rest j
judge_search g d known (invalid p) (x, same, c) rest j = rw same c
judge_search g d known out_of_fuel a rest j = a

judge_tables :
    (g : Dag)
    → IsDistinct (task_ids g)
    → (v : Verdict Tables) → FillsAll (task_ids g) g.edges v
    → Judges g (and_then v (check_tables g))
unfolding check_tables
judge_tables g d (valid t) (known, out, inc) =
    let ids = task_ids g in
    let same : (λ k. at k t.outgoing) ≡ successors g.edges = fun_ext out in
    rw same (
      judge_search g d known (visit_all (successors g.edges) (length ids) ids no_marks)
        (visit_all-Answers (successors g.edges) ids
          (λ u v h. (successors-known ids g.edges known u v h).1))
        (check_refs t.incoming g.tasks) (check_refs-Judges g.edges t.incoming inc g.tasks))
judge_tables g d (invalid p) (k, same, end, unknown) = rw same (end, unknown)
judge_tables g d out_of_fuel f = f

validate_dag-Judges : (g : Dag) → Judges g (validate_dag g)
unfolding validate_dag
validate_dag-Judges g =
    let ids = task_ids g in
    elim (Bool-cases (eqb (length (to_set ids)) (length ids))) [
      | inl equal ↦ rw equal (
          judge_tables g (to_set-IsDistinct ids (ground arith))
            (add_edges (to_set ids) g.edges (empty_tables ids)) (add_edges-FillsAll ids g.edges))
      | inr unequal ↦ rw unequal (λ d. ground (arith, IsDistinct-to_set ids d))
    ]

-- A plan that can run has none of the problems.
IsPlan-IsReal : (g : Dag) → IsPlan g → (p : Problem) → ¬ IsReal g p
IsPlan-IsReal g plan duplicate_task r = r plan.distinct
IsPlan-IsReal g plan (unknown_task k) (end, unknown) =
    cc (AllKnown-ends (task_ids g) g.edges plan.known k end)
IsPlan-IsReal g plan (cycle_at x) r = plan.acyclic x r
IsPlan-IsReal g plan (missing_edge t r) u =
    IsUnconnected-AllConnected g.edges g.tasks t r plan.connected u

accepted-from : (g : Dag) (v : Verdict (Unit {0})) → Judges g v → IsPlan g → v ≡ valid tt
accepted-from g (valid tt) j plan = refl
accepted-from g (invalid p) j plan = elim (IsPlan-IsReal g plan p j) [ ]
accepted-from g out_of_fuel j plan = elim j [ ]

-- `validate_dag` accepts a DAG exactly if no two tasks share an id, both ends of each edge are
-- tasks, no walk of edges leads from a task back to itself, and each task that an input refers to has
-- an edge to the task.
pub validate_dag-IsPlan : (g : Dag) → (validate_dag g ≡ valid tt) ↔ IsPlan g
validate_dag-IsPlan g = (
  (λ h. subst (Judges g) h (validate_dag-Judges g)),
  accepted-from g (validate_dag g) (validate_dag-Judges g),
)

-- The problem that `validate_dag` reports is a problem of the DAG: two tasks share an id, the named
-- task is an end of an edge and unknown, the named task lies on a cycle, or the first named task
-- refers to the second without an edge from it.
pub validate_dag-IsReal : (g : Dag) (p : Problem) → validate_dag g ≡ invalid p → IsReal g p
validate_dag-IsReal g p h = subst (Judges g) h (validate_dag-Judges g)

-- The search of `validate_dag` ends on every DAG, with cycles or not: as much fuel as there are
-- tasks is enough.
pub validate_dag-ends : (g : Dag) → validate_dag g ≢ out_of_fuel
validate_dag-ends g h = subst (Judges g) h (validate_dag-Judges g)
