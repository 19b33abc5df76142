-- ===== src/Dag/Orchestrator/Batches.antt =====
-- What a batch leaves as it was: handles that have not ended, their results, and the launches.
use sdk_reference.Prelude.{
  String, ◌≡◌, refl, ap, ◌∙◌, false, not, ◌&&◌, ◌||◌, ◌==◌, List, [], ◌∷◌, arith,
}
use sdk_reference.Prelude.Dict.{Dict, insert}
use sdk_reference.Prelude.Sets.{has, discard, has-discard}
use sdk_reference.Messages.Task.{Result}
use sdk_reference.Dag.Validate.{at}
use sdk_reference.Dag.Orchestrator.{
  Walk, done, release_one, release, Ending, returned, acmp_error, other_error, Failure, first_of,
  collect, drop_handle, finish,
}
use sdk_reference.Dag.Orchestrator.Release.{done-insert}
use sdk_reference.Dag.Orchestrator.Finish.{ended_ids, completed-release, in_flight-release}

in_flight-collect :
    (outgoing : Dict (List String)) (t : String) (r : Result) (w : Walk)
    → (collect outgoing t r w).in_flight ≡ discard t w.in_flight
unfolding collect
in_flight-collect outgoing t r w =
    in_flight-release t (at t outgoing)
      (record w { in_flight = discard t w.in_flight; completed = insert t r w.completed })

completed-collect_other :
    (outgoing : Dict (List String)) (t x : String) (r : Result) (w : Walk)
    → done x (collect outgoing t r w).completed ≡ (t == x || done x w.completed)
unfolding collect
completed-collect_other outgoing t x r w =
    rw
      (completed-release t (at t outgoing)
        (record w { in_flight = discard t w.in_flight; completed = insert t r w.completed }))
      (done-insert t x r w.completed)

-- What is in flight after a batch was before, and has not ended.
pub in_flight-finish :
    (outgoing : Dict (List String)) (b : List (String × Ending)) (f : Failure) (w : Walk)
    (x : String)
    → has x (finish outgoing b f w).1.in_flight ≡ (has x w.in_flight && not (has x (ended_ids b)))
unfolding has finish
in_flight-finish outgoing [] f w x = ground arith
in_flight-finish outgoing ((t, returned r) ∷ b) f w x = ground (
  arith,
  in_flight-finish outgoing b f (collect outgoing t r w) x,
  ap (has x) (in_flight-collect outgoing t r w),
  has-discard t x w.in_flight,
)
in_flight-finish outgoing ((t, acmp_error e) ∷ b) f w x = ground (
  arith,
  in_flight-finish outgoing b (first_of f (acmp_error e)) (drop_handle t w) x,
  has-discard t x w.in_flight,
)
in_flight-finish outgoing ((t, other_error e) ∷ b) f w x = ground (
  arith,
  in_flight-finish outgoing b (first_of f (other_error e)) (drop_handle t w) x,
  has-discard t x w.in_flight,
)

-- A task that has not ended has a result only if it had one.
pub done-finish :
    (outgoing : Dict (List String)) (b : List (String × Ending)) (f : Failure) (w : Walk)
    (x : String)
    → has x (ended_ids b) ≡ false
    → done x (finish outgoing b f w).1.completed ≡ done x w.completed
unfolding has finish
done-finish outgoing [] f w x off = refl
done-finish outgoing ((t, returned r) ∷ b) f w x off = ground (
  arith,
  done-finish outgoing b f (collect outgoing t r w) x,
  completed-collect_other outgoing t x r w,
)
done-finish outgoing ((t, acmp_error e) ∷ b) f w x off =
    done-finish outgoing b (first_of f (acmp_error e)) (drop_handle t w) x (ground arith)
done-finish outgoing ((t, other_error e) ∷ b) f w x off =
    done-finish outgoing b (first_of f (other_error e)) (drop_handle t w) x (ground arith)

invoked-release_one : (k d : String) (w : Walk) → (release_one k d w).invoked ≡ w.invoked
unfolding release_one
invoked-release_one k d w = ground arith

invoked-release : (k : String) (ds : List String) (w : Walk) → (release k ds w).invoked ≡ w.invoked
unfolding release
invoked-release k [] w = refl
invoked-release k (d ∷ ds) w = invoked-release k ds (release_one k d w) ∙ invoked-release_one k d w

-- A batch launches nothing.
pub invoked-finish :
    (outgoing : Dict (List String)) (b : List (String × Ending)) (f : Failure) (w : Walk)
    → (finish outgoing b f w).1.invoked ≡ w.invoked
unfolding finish collect
invoked-finish outgoing [] f w = refl
invoked-finish outgoing ((t, returned r) ∷ b) f w =
    invoked-finish outgoing b f (collect outgoing t r w)
    ∙ invoked-release t (at t outgoing)
        (record w { in_flight = discard t w.in_flight; completed = insert t r w.completed })
invoked-finish outgoing ((t, acmp_error e) ∷ b) f w =
    invoked-finish outgoing b (first_of f (acmp_error e)) (drop_handle t w)
invoked-finish outgoing ((t, other_error e) ∷ b) f w =
    invoked-finish outgoing b (first_of f (other_error e)) (drop_handle t w)
