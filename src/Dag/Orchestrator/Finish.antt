-- ===== src/Dag/Orchestrator/Finish.antt =====
-- The loop of `DagOrchestrator.run` over what has ended, and the invariant.
use sdk_reference.Prelude.{
  ℕ, ◌+◌, ◌≤◌, ◌<◌, ap, String, ◌≡◌, refl, sym, ◌∙◌, true, false, none, some, List, [], ◌∷◌, map,
  eq_iff, eq_refl, arith,
}
use sdk_reference.Prelude.Dict.{Dict, lookup, insert}
use sdk_reference.Prelude.Sets.{has, discard, IsDistinct, has-discard, missing, missing-lt, length}
use sdk_reference.Messages.Task.{Result}
use sdk_reference.Dag.{Edge}
use sdk_reference.Dag.Validate.{at}
use sdk_reference.Dag.Validate.Edges.{has_edge, successors}
use sdk_reference.Dag.Orchestrator.{
  Walk, done, release_one, release, Ending, returned, acmp_error, other_error, collect, drop_handle,
  finish,
}
use sdk_reference.Dag.Orchestrator.Invariant.{IsOnPlan}
use sdk_reference.Dag.Orchestrator.Release.{
  done-insert, IsHalf, IsHalf-release, completed-release_one, in_flight-release_one,
}

-- The ids of the handles that have ended.
abbrev pub ended_ids : List (String × Ending) → List String
ended_ids b = map (λ e. e.0) b

-- What `asyncio.wait` hands back: handles that are in flight, none of them twice.
pub record IsBatch (b : List (String × Ending)) (w : Walk) : Type 0 where
  pub distinct : IsDistinct (ended_ids b)
  pub running : (t : String) → has t (ended_ids b) ≡ true → has t w.in_flight ≡ true

unfoldable pub keys : Dict Result → List String
keys [] = []
keys ((k, r) ∷ c) = k ∷ keys c

has-keys : (k : String) (c : Dict Result) → has k (keys c) ≡ done k c
unfolding has keys done lookup
has-keys k [] = refl
has-keys k ((j, r) ∷ c) = ground (arith, has-keys k c)

-- How many tasks have no result yet.
unfoldable pub undone : List String → Dict Result → ℕ
undone ids c = missing ids (keys c)

-- A result more.
pub undone-insert :
    (ids : List String) (t : String) (r : Result) (c : Dict Result)
    → has t ids ≡ true
    → done t c ≡ false
    → undone ids (insert t r c) < undone ids c
unfolding undone
undone-insert ids t r c known new =
    missing-lt ids (keys c) (keys (insert t r c)) t
      (λ j h. ground (arith, has-keys j (insert t r c), done-insert t j r c, has-keys j c)) known
      (has-keys t c ∙ new)
      (has-keys t (insert t r c) ∙ ground (arith, done-insert t t r c, eq_refl t))

pub completed-release :
    (k : String) (ds : List String) (w : Walk) → (release k ds w).completed ≡ w.completed
unfolding release
completed-release k [] w = refl
completed-release k (d ∷ ds) w =
    completed-release k ds (release_one k d w) ∙ completed-release_one [] [] k d w

pub in_flight-release :
    (k : String) (ds : List String) (w : Walk) → (release k ds w).in_flight ≡ w.in_flight
unfolding release
in_flight-release k [] w = refl
in_flight-release k (d ∷ ds) w =
    in_flight-release k ds (release_one k d w) ∙ in_flight-release_one [] [] k d w

-- A failure stays.
finish-some :
    (outgoing : Dict (List String)) (b : List (String × Ending)) (e : Ending) (w : Walk)
    → (w' : Walk) × (finish outgoing b (some e) w ≡ (some e, w'))
unfolding finish
finish-some outgoing [] e w = (w, refl)
finish-some outgoing ((t, returned r) ∷ b) e w = finish-some outgoing b e (collect outgoing t r w)
finish-some outgoing ((t, acmp_error x) ∷ b) e w = finish-some outgoing b e (drop_handle t w)
finish-some outgoing ((t, other_error x) ∷ b) e w = finish-some outgoing b e (drop_handle t w)

module _ (ids : List String) (es : List Edge) (outgoing : Dict (List String))
    (fits : (u : String) → at u outgoing ≡ successors es u)
    (closed : (u v : String) → has_edge es u v ≡ true → has v ids ≡ true) where
  -- A handle that has ended with a result.
  IsHalf-collected :
      (t : String) (r : Result) (w : Walk)
      → IsOnPlan ids es w
      → has t w.in_flight ≡ true
      → IsHalf ids es t
          (successors es t)
          (record w { in_flight = discard t w.in_flight; completed = insert t r w.completed })
  IsHalf-collected t r w p on =
      let s = p.stands in
      record {
        stands = record {
          free = s.free;
          waited = s.waited;
          known = s.known;
          parts = λ x. ground (
            arith,
            s.parts x,
            done-insert t x r w.completed,
            has-discard t x w.in_flight,
            eq_iff t x,
          );
          log = λ x. ground (
            arith,
            s.log x,
            done-insert t x r w.completed,
            has-discard t x w.in_flight,
            eq_iff t x,
          );
          once = s.once;
          ready_once = s.ready_once;
          ready_new = s.ready_new;
          running = λ x h.
              ground
                (arith, s.running x, done-insert t x r w.completed, has-discard t x w.in_flight);
        };
        other = λ d x h. ground (arith, p.waits d x, done-insert t d r w.completed);
        only = λ x h. ground (arith, p.waits t x);
      }

  IsOnPlan-half :
      (t : String) (r : Result) (w : Walk)
      → IsHalf ids es t [] w
      → done t w.completed ≡ true
      → IsOnPlan ids es w
  unfolding has
  IsOnPlan-half t r w p d = record {
    stands = p.stands;
    waits = λ x y. ground (arith, p.other x y, eq_iff t x, p.only y);
  }

  IsOnPlan-collect :
      (t : String) (r : Result) (w : Walk)
      → IsOnPlan ids es w
      → has t w.in_flight ≡ true
      → IsOnPlan ids es (collect outgoing t r w)
  unfolding collect
  IsOnPlan-collect t r w p on =
      let w' : Walk = record w {
        in_flight = discard t w.in_flight;
        completed = insert t r w.completed;
      } in
      rw (fits t) (
        IsOnPlan-half t r (release t (successors es t) w')
          (IsHalf-release ids es t (successors es t) w' (IsHalf-collected t r w p on) (closed t))
          (rw (completed-release t (successors es t) w')
            (ground (arith, done-insert t t r w.completed, eq_refl t))))

  IsBatch-collect :
      (t : String) (r : Result) (b : List (String × Ending)) (w : Walk)
      → IsBatch ((t, returned r) ∷ b) w
      → IsBatch b (collect outgoing t r w)
  unfolding has collect
  IsBatch-collect t r b w p = record {
    distinct = p.distinct.1;
    running = λ x h.
        let w' : Walk = record w {
          in_flight = discard t w.in_flight;
          completed = insert t r w.completed;
        } in
        rw (in_flight-release t (at t outgoing) w')
          (ground (arith, has-discard t x w.in_flight, p.running x, eq_iff t x, p.distinct.0));
  }

  pub completed-collect :
      (t : String) (r : Result) (w : Walk)
      → (collect outgoing t r w).completed ≡ insert t r w.completed
  unfolding collect
  completed-collect t r w =
      completed-release t (at t outgoing)
        (record w { in_flight = discard t w.in_flight; completed = insert t r w.completed })

  undone-collect :
      (t : String) (r : Result) (w : Walk)
      → IsOnPlan ids es w
      → has t w.in_flight ≡ true
      → undone ids (collect outgoing t r w).completed < undone ids w.completed
  undone-collect t r w p on = rw (completed-collect t r w) (
      undone-insert ids t r w.completed (p.stands.known t (ground (arith, p.stands.parts t)))
        (p.stands.running t on))

  -- A batch without a failure keeps the plan and gives each of its tasks a result.
  pub finish-IsOnPlan :
      (b : List (String × Ending)) (w w' : Walk)
      → IsOnPlan ids es w
      → IsBatch b w
      → finish outgoing b none w ≡ (none, w')
      → IsOnPlan ids es w' × (undone ids w'.completed + length b ≤ undone ids w.completed)
  unfolding has finish
  finish-IsOnPlan [] w w' p q h =
      let same : w ≡ w' = ap (λ x. x.1) h in rw (sym same) (p, omega arith)
  finish-IsOnPlan ((t, returned r) ∷ b) w w' p q h =
      let on : has t w.in_flight ≡ true = q.running t (ground (arith, eq_refl t)) in
      let (p', fewer) =
        finish-IsOnPlan b (collect outgoing t r w) w' (IsOnPlan-collect t r w p on)
          (IsBatch-collect t r b w q) h in
      (p', omega (arith, fewer, undone-collect t r w p on))
  finish-IsOnPlan ((t, acmp_error x) ∷ b) w w' p q h =
      cc (h, (finish-some outgoing b (acmp_error x) (drop_handle t w)).1)
  finish-IsOnPlan ((t, other_error x) ∷ b) w w' p q h =
      cc (h, (finish-some outgoing b (other_error x) (drop_handle t w)).1)

-- No handle of the batch has failed.
abbrev pub AllReturned : List (String × Ending) → Type 0
AllReturned [] = Unit
AllReturned ((t, returned r) ∷ b) = AllReturned b
AllReturned ((t, acmp_error x) ∷ b) = ⊥
AllReturned ((t, other_error x) ∷ b) = ⊥

pub finish-AllReturned :
    (outgoing : Dict (List String)) (b : List (String × Ending)) (w : Walk)
    → AllReturned b
    → (w' : Walk) × (finish outgoing b none w ≡ (none, w'))
unfolding finish
finish-AllReturned outgoing [] w h = (w, refl)
finish-AllReturned outgoing ((t, returned r) ∷ b) w h =
    finish-AllReturned outgoing b (collect outgoing t r w) h
finish-AllReturned outgoing ((t, acmp_error x) ∷ b) w h = elim h [ ]
finish-AllReturned outgoing ((t, other_error x) ∷ b) w h = elim h [ ]
