-- ===== src/Dag/Orchestrator/Launch.antt =====
-- The launches of `DagOrchestrator.run`, and the invariant.
use sdk_reference.Prelude.{String, ◌≡◌, refl, List, [], ◌∷◌, eq_iff, eq_refl, arith}
use sdk_reference.Prelude.Sets.{has, has-append}
use sdk_reference.Dag.{Edge, Dag}
use sdk_reference.Dag.Orchestrator.{Walk, launch_one, launch}
use sdk_reference.Dag.Orchestrator.Invariant.{Stands, IsOnPlan}

module _ (ids : List String) (es : List Edge) (g : Dag) where
  Stands-launch_one :
      (t : String) (ts : List String) (w : Walk)
      → Stands ids es (record w { ready = t ∷ ts })
      → Stands ids es (record (launch_one g t w) { ready = ts })
  unfolding has launch_one
  Stands-launch_one t ts w s = record {
    free = s.free;
    waited = s.waited;
    known = s.known;
    parts = λ x. ground (arith, s.parts x, eq_iff t x, has-append x w.in_flight (t ∷ []));
    log = λ x. ground (arith, s.log x, eq_iff t x, has-append x w.in_flight (t ∷ []));
    once = (s.ready_new t (ground (arith, eq_refl t)), s.once);
    ready_once = s.ready_once.1;
    ready_new = λ x h. ground (arith, s.ready_new x, eq_iff t x, s.ready_once.0);
    running = λ x h. ground (
      arith,
      s.running x,
      eq_iff t x,
      eq_refl t,
      has-append x w.in_flight (t ∷ []),
      s.log t,
      s.ready_new t,
    );
  }

  Stands-launch :
      (ts : List String) (w : Walk)
      → Stands ids es (record w { ready = ts })
      → Stands ids es (launch g ts w)
  unfolding launch
  Stands-launch [] w s = s
  Stands-launch (t ∷ ts) w s = Stands-launch ts (launch_one g t w) (Stands-launch_one t ts w s)

  pub same_deps :
      (ts : List String) (w : Walk)
      → ((launch g ts w).pending_deps ≡ w.pending_deps) × ((launch g ts w).completed ≡ w.completed)
  unfolding launch launch_one
  same_deps [] w = (refl, refl)
  same_deps (t ∷ ts) w = same_deps ts (launch_one g t w)

  pub IsOnPlan-launch : (w : Walk) → IsOnPlan ids es w → IsOnPlan ids es (launch g w.ready w)
  IsOnPlan-launch w p = record {
    stands = Stands-launch w.ready w p.stands;
    waits = λ d t. rw (same_deps w.ready w).0 (rw (same_deps w.ready w).1 (p.waits d t));
  }
