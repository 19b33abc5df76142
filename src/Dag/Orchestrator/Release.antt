-- ===== src/Dag/Orchestrator/Release.antt =====
-- Going through the dependents of a task that has ended.
use sdk_reference.Prelude.{
  String, ◌≡◌, refl, sym, inl, inr, true, false, not, ◌&&◌, ◌||◌, ◌==◌, List, [], ◌∷◌, ◌++◌, eq_iff,
  eq_refl, arith, Bool-cases, if◌then◌else◌,
}
use sdk_reference.Prelude.Dict.{Dict, insert, lookup-insert}
use sdk_reference.Prelude.Sets.{
  has, add, discard, has-append, has-add, has-discard, IsDistinct-snoc,
}
use sdk_reference.Messages.Task.{Result}
use sdk_reference.Dag.{Edge}
use sdk_reference.Dag.Validate.{at}
use sdk_reference.Dag.Validate.Edges.{has_edge, at-insert}
use sdk_reference.Dag.Orchestrator.{Walk, done, is_empty, release_one, release}
use sdk_reference.Dag.Orchestrator.Invariant.{launched_ids, Stands}

pub done-insert :
    (t x : String) (r : Result) (c : Dict Result) → done x (insert t r c) ≡ (t == x || done x c)
unfolding done
done-insert t x r c = ground (arith, lookup-insert t x r c)

is_empty-discard :
    (k : String) (xs : List String) → is_empty xs ≡ true → is_empty (discard k xs) ≡ true
unfolding discard
is_empty-discard k [] h = refl
is_empty-discard k (x ∷ xs) h = cc

module _ (ids : List String) (es : List Edge) where
  -- A dependent that waits for no other task now.
  Stands-freed :
      (k d : String) (w : Walk)
      → Stands ids es w
      → has d ids ≡ true
      → is_empty (discard k (at d w.pending_deps)) ≡ true
      → has d w.scheduled ≡ false
      → Stands ids es (record w {
        pending_deps = insert d (discard k (at d w.pending_deps)) w.pending_deps;
        scheduled = add d w.scheduled;
        ready = w.ready ++ d ∷ [];
      })
  unfolding has
  Stands-freed k d w s known empty new =
      let off : (x : String) → d ≡ x → has x (launched_ids w.invoked) ≡ false =
        λ x e. rw (sym e) (ground (arith, s.log d, s.parts d)) in
      let deps = discard k (at d w.pending_deps) in
      record {
        free = λ t m h. ground (
          arith,
          eq_iff d t,
          has-add d t w.scheduled,
          s.free t m,
          at-insert d t deps w.pending_deps,
        );
        waited = λ t h. ground (
          arith,
          eq_iff d t,
          has-add d t w.scheduled,
          s.waited t,
          at-insert d t deps w.pending_deps,
        );
        known = λ t h. ground (arith, eq_iff d t, has-add d t w.scheduled, s.known t);
        parts =
            λ t. ground (arith, has-add d t w.scheduled, s.parts t, has-append t w.ready (d ∷ []));
        log = s.log;
        once = s.once;
        ready_once = IsDistinct-snoc w.ready d s.ready_once (ground (arith, s.parts d));
        ready_new =
            λ t h. ground (arith, eq_iff d t, has-append t w.ready (d ∷ []), s.ready_new t, off t);
        running = s.running;
      }

  -- Any other dependent.
  Stands-kept :
      (k d : String) (w : Walk)
      → Stands ids es w
      → (is_empty (discard k (at d w.pending_deps)) && not (has d w.scheduled)) ≡ false
      → Stands ids es
          (record w { pending_deps = insert d (discard k (at d w.pending_deps)) w.pending_deps })
  Stands-kept k d w s h0 =
      let deps = discard k (at d w.pending_deps) in
      record {
        free = λ t m h. ground (arith, eq_iff d t, s.free t m, at-insert d t deps w.pending_deps);
        waited = λ t h. ground (
          arith,
          eq_iff d t,
          s.waited t,
          at-insert d t deps w.pending_deps,
          is_empty-discard k (at d w.pending_deps),
        );
        known = s.known;
        parts = s.parts;
        log = s.log;
        once = s.once;
        ready_once = s.ready_once;
        ready_new = s.ready_new;
        running = s.running;
      }

  Stands-release_one :
      (k d : String) (w : Walk)
      → Stands ids es w
      → has d ids ≡ true
      → Stands ids es (release_one k d w)
  unfolding release_one
  Stands-release_one k d w s known =
      elim (Bool-cases (is_empty (discard k (at d w.pending_deps)) && not (has d w.scheduled))) [
        | inl free ↦ rw free (Stands-freed k d w s known (ground arith) (ground arith))
        | inr kept ↦ rw kept (Stands-kept k d w s kept)
      ]

  -- While the dependents of `k` are gone through: `k` is waited for by none but the ones left.
  pub record IsHalf (k : String) (left : List String) (w : Walk) : Type 0 where
    pub stands : Stands ids es w
    pub other :
        (d t : String)
        → (k == d) ≡ false
        → has d (at t w.pending_deps) ≡ (has_edge es d t && not (done d w.completed))
    pub only : (t : String) → has k (at t w.pending_deps) ≡ true → has t left ≡ true

  pending-release_one :
      (k d : String) (w : Walk) (x t : String)
      → has x (at t (release_one k d w).pending_deps) ≡ (
          if d == t
          then not (k == x) && has x (at d w.pending_deps)
          else has x (at t w.pending_deps))
  unfolding release_one
  pending-release_one k d w x t = ground (
    arith,
    at-insert d t (discard k (at d w.pending_deps)) w.pending_deps,
    has-discard k x (at d w.pending_deps),
  )

  pub completed-release_one :
      (k d : String) (w : Walk) → (release_one k d w).completed ≡ w.completed
  unfolding release_one
  completed-release_one k d w = ground arith

  pub in_flight-release_one :
      (k d : String) (w : Walk) → (release_one k d w).in_flight ≡ w.in_flight
  unfolding release_one
  in_flight-release_one k d w = ground arith

  IsHalf-release_one :
      (k d : String) (ds : List String) (w : Walk)
      → IsHalf k (d ∷ ds) w
      → has d ids ≡ true
      → IsHalf k ds (release_one k d w)
  unfolding has
  IsHalf-release_one k d ds w p known = record {
    stands = Stands-release_one k d w p.stands known;
    other = λ x t h. ground (
      arith,
      p.other x t h,
      p.other x d h,
      eq_iff d t,
      pending-release_one k d w x t,
      completed-release_one k d w,
    );
    only = λ t h.
        ground (arith, eq_iff d t, eq_refl k, eq_refl d, pending-release_one k d w k t, p.only t);
  }

  pub IsHalf-release :
      (k : String) (ds : List String) (w : Walk)
      → IsHalf k ds w
      → ((d : String) → has d ds ≡ true → has d ids ≡ true)
      → IsHalf k [] (release k ds w)
  unfolding has release
  IsHalf-release k [] w p known = p
  IsHalf-release k (d ∷ ds) w p known =
      IsHalf-release k ds (release_one k d w)
        (IsHalf-release_one k d ds w p (known d (ground (arith, eq_refl d))))
        (λ x h. known x (ground arith))
