-- ===== src/Dag/Orchestrator/Start.antt =====
-- Where the loop of `DagOrchestrator.run` starts, and what an idle walk has done.
use sdk_reference.Prelude.{String, ◌≡◌, refl, ◌∙◌, true, false, ◌&&◌, List, [], ◌∷◌, eq_iff, arith}
use mathlib.Core.Path.{subst}
use sdk_reference.Prelude.Dict.{Dict, lookup}
use sdk_reference.Prelude.Sets.{has, to_set, has-to_set, IsDistinct, length}
use sdk_reference.Dag.{Edge, Dag}
use sdk_reference.Dag.Search.{Verdict, valid, invalid, out_of_fuel, Marks, no_marks, visit_all}
use sdk_reference.Dag.Search.Order.{IsOrder, edge_in_order}
use sdk_reference.Dag.Search.Correct.{Answers, visit_all-Answers}
use sdk_reference.Dag.Validate.{task_ids, Tables, at, empty_tables, add_edge, add_edges}
use sdk_reference.Dag.Validate.Edges.{successors, AllKnown, FillsAll, add_edges-FillsAll}
use sdk_reference.Dag.Validate.Plan.{IsPlan}
use sdk_reference.Dag.Validate.Judged.{successors-known}
use sdk_reference.Dag.Orchestrator.{Walk, done, is_empty, roots, begin_walk, build}
use sdk_reference.Dag.Orchestrator.Invariant.{IsOnPlan}

-- The tables of `run` are those of `validate_dag`.
build-add_edges :
    (ids : List String) (es : List Edge) (t : Tables)
    → AllKnown ids es
    → add_edges (to_set ids) es t ≡ valid (build es t)
unfolding add_edges build
build-add_edges ids [] t known = refl
build-add_edges ids (e ∷ es) t (a, b, known) =
    rw (has-to_set e.from_task ids ∙ a)
      (rw (has-to_set e.to_task ids ∙ b) (build-add_edges ids es (add_edge e t) known))

abbrev pub tables_of : Dag → Tables
tables_of g = build g.edges (empty_tables (task_ids g))

pub tables_of-FillsAll : (g : Dag) → IsPlan g → FillsAll (task_ids g) g.edges (valid (tables_of g))
tables_of-FillsAll g plan =
    subst (FillsAll (task_ids g) g.edges)
      (build-add_edges (task_ids g) g.edges (empty_tables (task_ids g)) plan.known)
      (add_edges-FillsAll (task_ids g) g.edges)

-- A plan that can run has an order of its tasks.
ordered :
    (g : Dag)
    → IsPlan g
    → (v : Verdict Marks) → Answers (successors g.edges) (task_ids g) v
    → (order : List String) × IsOrder (successors g.edges) order
      × ((x : String) → has x (task_ids g) ≡ true → has x order ≡ true)
ordered g plan (valid m) a = a
ordered g plan (invalid p) (x, same, c) = elim (plan.acyclic x c) [ ]
ordered g plan out_of_fuel a = elim a [ ]

IsPlan-ordered :
    (g : Dag)
    → IsPlan g
    → (order : List String) × IsOrder (successors g.edges) order
      × ((x : String) → has x (task_ids g) ≡ true → has x order ≡ true)
IsPlan-ordered g plan =
    let ids = task_ids g in
    ordered g plan (visit_all (successors g.edges) (length ids) ids no_marks) (
      visit_all-Answers (successors g.edges) ids
        (λ u v h. (successors-known ids g.edges plan.known u v h).1))

has-roots :
    (p : Dict (List String)) (ids : List String) (t : String)
    → has t (roots p ids) ≡ (has t ids && is_empty (at t p))
unfolding has roots
has-roots p [] t = refl
has-roots p (u ∷ us) t = ground (arith, eq_iff u t, has-roots p us t)

IsDistinct-roots :
    (p : Dict (List String)) (ids : List String) → IsDistinct ids → IsDistinct (roots p ids)
unfolding roots
IsDistinct-roots p [] d = tt
IsDistinct-roots p (u ∷ us) (new, d) = ground (arith, has-roots p us u, IsDistinct-roots p us d)

done-none : (t : String) → done t [] ≡ false
unfolding done lookup
done-none t = refl

pub begin_walk-IsOnPlan :
    (g : Dag) → IsPlan g → IsOnPlan (task_ids g) g.edges (begin_walk g (tables_of g))
unfolding begin_walk has
begin_walk-IsOnPlan g plan =
    let (known, out, inc) = tables_of-FillsAll g plan in
    let p = (tables_of g).incoming in
    let ids = task_ids g in
    record {
      stands = record {
        free = λ t m h. ground (arith, has-roots p ids t);
        waited = λ t h. ground (arith, has-roots p ids t);
        known = λ t h. ground (arith, has-roots p ids t);
        parts = λ t. ground (arith, done-none t);
        log = λ t. ground (arith, done-none t);
        once = tt;
        ready_once = IsDistinct-roots p ids plan.distinct;
        ready_new = λ t h. refl;
        running = λ t h. cc;
      };
      waits = λ d t. ground (arith, inc t d, done-none d);
    }

empty-from : (xs : List String) → ((x : String) → has x xs ≡ false) → is_empty xs ≡ true
unfolding has
empty-from [] h = refl
empty-from (x ∷ xs) h = ground (arith, h x, eq_iff x x)

module _ (ids : List String) (es : List Edge) (known : AllKnown ids es) where
  abbrev pub AllDone : Walk → Type 0
  AllDone w = (v : String) → has v ids ≡ true → done v w.completed ≡ true

  abbrev pub IsIdle : Walk → Type 0
  IsIdle w = (v : String) → (has v w.ready ≡ false) × (has v w.in_flight ≡ false)

  -- The first task of the rest of an order is done, if those outside of the rest are.
  first-done :
      (u : String) (us : List String) (w : Walk)
      → IsOrder (successors es) (u ∷ us)
      → IsOnPlan ids es w
      → IsIdle w
      → ((v : String) → has v ids ≡ true → has v (u ∷ us) ≡ false → done v w.completed ≡ true)
      → has u ids ≡ true
      → done u w.completed ≡ true
  unfolding has
  first-done u us w (later, new, o) p idle outside m =
      let free : is_empty (at u w.pending_deps) ≡ true = empty-from (at u w.pending_deps) (λ d.
        ground (
          arith,
          p.waits d u,
          successors-known ids es known d u,
          eq_iff u d,
          later u,
          edge_in_order (successors es) us o d u,
          outside d,
        )) in
      ground (arith, p.stands.free u m free, p.stands.parts u, idle u)

  idle-from :
      (order : List String) (w : Walk)
      → IsOrder (successors es) order
      → IsOnPlan ids es w
      → IsIdle w
      → ((v : String) → has v ids ≡ true → has v order ≡ false → done v w.completed ≡ true)
      → AllDone w
  unfolding has
  idle-from [] w o p idle outside v m = outside v m refl
  idle-from (u ∷ us) w (later, new, o) p idle outside v m =
      idle-from us w o p idle
        (λ x k off.
          ground (arith, eq_iff u x, outside x k, first-done u us w (later, new, o) p idle outside))
        v m

-- A walk on a plan that can run has nothing left to do only once every task is done.
pub idle-AllDone :
    (g : Dag) (plan : IsPlan g) (w : Walk)
    → IsOnPlan (task_ids g) g.edges w
    → IsIdle (task_ids g) g.edges plan.known w
    → AllDone (task_ids g) g.edges plan.known w
idle-AllDone g plan w p idle =
    let (order, o, all) = IsPlan-ordered g plan in
    idle-from (task_ids g) g.edges plan.known order w o p idle (λ v m off. cc (all v m))
