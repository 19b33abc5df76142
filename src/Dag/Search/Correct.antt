-- ===== src/Dag/Search/Correct.antt =====
-- The search of `validate_dag` to its end.
use sdk_reference.Prelude.{
  String, ◌≡◌, refl, sym, true, false, ◌==◌, inl, inr, ◌∙◌, Bool-cases, List, [], ◌∷◌, ℕ, zero, suc,
  ◌≤◌, eq_iff, eq_refl, arith,
}
use sdk_reference.Prelude.Sets.{
  has, add, has-add, missing, missing_mono, missing-lt, missing-le_length, length,
}
use sdk_reference.Dag.Search.{
  duplicate_task, unknown_task, cycle_at, missing_edge, Verdict, valid, invalid, out_of_fuel,
  and_then, Marks, no_marks, enter, leave, visit_new, visit_nexts, visit, visit_all,
}
use sdk_reference.Dag.Search.Order.{Leads, here, step, IsCyclic, IsOrder}
use sdk_reference.Dag.Search.Passed.{
  IsGood, Passed, Ends, Passed-nil, Passed-cons, Passed-done, IsGood-enter, Passed-leave,
}

module _ (next : String → List String) where
  -- All on the stack have a walk to the node.
  abbrev AllLead : Marks → String → Type 0
  AllLead m node = (x : String) → has x m.stack ≡ true → Leads next x node

  AllLead-enter :
      (n u : String) (m : Marks) → AllLead m u → has n (next u) ≡ true → AllLead (enter n m) n
  AllLead-enter n u m l e x h = elim (Bool-cases (n == x)) [
    | inl same ↦ rw ((eq_iff n x).0 same) here
    | inr other ↦ step (l x (ground (arith, has-add n x m.stack))) e
  ]

  Ends-join :
      (n : String) (ns : List String) (m m1 : Marks) (order : List String)
      (p : Passed next (n ∷ []) m order m1) (v : Verdict Marks)
      → Ends next ns m1 p.order' v
      → Ends next (n ∷ ns) m order v
  Ends-join n ns m m1 order p (valid m2) q = Passed-cons next n ns m m1 m2 order p q
  Ends-join n ns m m1 order p (invalid x) q = q
  Ends-join n ns m m1 order p out_of_fuel q = q

  -- The rest of a loop over targets, after the first of them.
  Ends-cons :
      (n : String) (ns : List String) (m : Marks) (order : List String) (v : Verdict Marks)
      (f : Marks → Verdict Marks)
      → Ends next (n ∷ []) m order v
      → ((m' : Marks) (p : Passed next (n ∷ []) m order m') → Ends next ns m' p.order' (f m'))
      → Ends next (n ∷ ns) m order (and_then v f)
  Ends-cons n ns m order (valid m') f p k = Ends-join n ns m m' order p (f m') (k m' p)
  Ends-cons n ns m order (invalid x) f p k = p
  Ends-cons n ns m order out_of_fuel f p k = p

  -- Leaving a node whose neighbours ended well.
  Ends-leave :
      (n : String) (m : Marks) (order : List String)
      → has n m.stack ≡ false
      → (v : Verdict Marks) → Ends next (next n) (enter n m) order v
      → Ends next (n ∷ []) m order (and_then v (λ m'. valid (leave n m')))
  Ends-leave n m order off (valid m') p = Passed-leave next n m m' order off p
  Ends-leave n m order off (invalid x) p = p
  Ends-leave n m order off out_of_fuel p = p

  visited-add :
      (n : String) (m : Marks) (x : String)
      → has x m.visited ≡ true
      → has x (add n m.visited) ≡ true
  visited-add n m x h = ground (arith, has-add n x m.visited)

  -- On fuel for the nodes that are not visited yet.
  module _ (ids : List String) where
    abbrev VisitsWell : ℕ → (String → Marks → Verdict Marks) → Type 0
    VisitsWell fuel search =
        (n : String) (m : Marks) (order : List String)
        → IsGood next m order
        → has n ids ≡ true
        → has n m.visited ≡ false
        → missing ids m.visited ≤ fuel
        → AllLead (enter n m) n
        → Ends next (n ∷ []) m order (search n m)

    visit_new-Ends :
        (fuel : ℕ) (search : String → Marks → Verdict Marks)
        → VisitsWell fuel search
        → (n : String) (m : Marks) (order : List String) → IsGood next m order
        → has n ids ≡ true
        → has n m.stack ≡ false
        → missing ids m.visited ≤ fuel
        → AllLead (enter n m) n
        → Ends next (n ∷ []) m order (visit_new search n m)
    visit_new-Ends fuel search ok n m order g known off enough l =
        elim (Bool-cases (has n m.visited)) [
          | inl seen ↦ rw seen (Passed-done next n m order g off seen)
          | inr new ↦ rw new (ok n m order g known new enough l)
        ]

    visit_nexts-Ends :
        (fuel : ℕ) (search : String → Marks → Verdict Marks)
        → VisitsWell fuel search
        → (u : String) (ns : List String) (m : Marks) (order : List String) → IsGood next m order
        → ((x : String) → has x ns ≡ true → has x ids ≡ true)
        → ((x : String) → has x ns ≡ true → has x (next u) ≡ true)
        → missing ids m.visited ≤ fuel
        → AllLead m u
        → Ends next ns m order (visit_nexts search ns m)
    unfolding has visit_nexts
    visit_nexts-Ends fuel search ok u [] m order g known edge enough l = Passed-nil next m order g
    visit_nexts-Ends fuel search ok u (n ∷ ns) m order g known edge enough l =
        let n_known : has n ids ≡ true = known n (ground (arith, eq_refl n)) in
        let n_edge : has n (next u) ≡ true = edge n (ground (arith, eq_refl n)) in
        elim (Bool-cases (has n m.stack)) [
          | inl on ↦ rw on (record { last = u; walk = l n on; back = n_edge })
          | inr off ↦ rw off (
              Ends-cons n ns m order (visit_new search n m) (visit_nexts search ns)
                (visit_new-Ends fuel search ok n m order g n_known off enough
                  (AllLead-enter n u m l n_edge))
                (λ m' p.
                  visit_nexts-Ends fuel search ok u ns m' p.order' p.good
                    (λ x h. known x (ground arith)) (λ x h. edge x (ground arith))
                    (ground (arith, missing_mono ids m.visited m'.visited p.visited))
                    (λ x h. l x (sym (p.stack x) ∙ h))))
        ]

    -- The edges of a known node lead to known nodes.
    abbrev pub IsClosed : Type 0
    IsClosed = (u v : String) → has v (next u) ≡ true → has v ids ≡ true

    visit-Ends : IsClosed → (fuel : ℕ) → VisitsWell fuel (visit next fuel)
    unfolding visit
    visit-Ends closed zero n m order g known new enough l = ground (
      arith,
      missing-lt ids m.visited (add n m.visited) n,
      has-add n n m.visited,
      eq_refl n,
      visited-add n m,
    )
    visit-Ends closed (suc fuel) n m order g known new enough l =
        Ends-leave n m order (ground (arith, g.on n))
          (visit_nexts (visit next fuel) (next n) (enter n m))
          (visit_nexts-Ends fuel (visit next fuel) (visit-Ends closed fuel) n (next n) (enter n m)
            order (IsGood-enter next n m order new g) (closed n) (λ x h. h)
            (ground (
              arith,
              missing-lt ids m.visited (add n m.visited) n,
              has-add n n m.visited,
              eq_refl n,
              visited-add n m,
            ))
            l)

    AllLead-alone :
        (n : String) (m : Marks) → ((x : String) → has x m.stack ≡ false) → AllLead (enter n m) n
    AllLead-alone n m off x h = elim (Bool-cases (n == x)) [
      | inl same ↦ rw ((eq_iff n x).0 same) here
      | inr other ↦ ground (arith, has-add n x m.stack, off x)
    ]

    -- From an empty stack the search of all ends well.
    visit_all-Ends :
        IsClosed
        → (fuel : ℕ) (ts : List String) (m : Marks) (order : List String) → IsGood next m order
        → ((x : String) → has x m.stack ≡ false)
        → ((x : String) → has x ts ≡ true → has x ids ≡ true)
        → missing ids m.visited ≤ fuel
        → Ends next ts m order (visit_all next fuel ts m)
    unfolding has visit_all
    visit_all-Ends closed fuel [] m order g off known enough = Passed-nil next m order g
    visit_all-Ends closed fuel (t ∷ ts) m order g off known enough =
        Ends-cons t ts m order (visit_new (visit next fuel) t m) (visit_all next fuel ts)
          (visit_new-Ends fuel (visit next fuel) (visit-Ends closed fuel) t m order g
            (known t (ground (arith, eq_refl t))) (off t) enough (AllLead-alone t m off))
          (λ m' p.
            visit_all-Ends closed fuel ts m' p.order' p.good (λ x. p.stack x ∙ off x)
              (λ x h. known x (ground arith))
              (ground (arith, missing_mono ids m.visited m'.visited p.visited)))

    -- What the search of all nodes answers.
    abbrev pub Answers : Verdict Marks → Type 0
    Answers (valid m) =
        (order : List String) × IsOrder next order
        × ((x : String) → has x ids ≡ true → has x order ≡ true)
    Answers (invalid p) = (x : String) × (p ≡ cycle_at x) × IsCyclic next x
    Answers out_of_fuel = ⊥

    IsGood-start : IsGood next no_marks []
    unfolding has
    IsGood-start = record {
      ordered = tt;
      seen = λ x h. cc;
      off = λ x h. refl;
      on = λ x h. cc;
      rest = λ x h. cc;
    }

    Answers-from : (v : Verdict Marks) → Ends next ids no_marks [] v → Answers v
    Answers-from (valid m) p = (p.order', p.good.ordered, p.all)
    Answers-from (invalid (cycle_at x)) p = (x, refl, p)
    Answers-from (invalid duplicate_task) p = elim p [ ]
    Answers-from (invalid (unknown_task t)) p = elim p [ ]
    Answers-from (invalid (missing_edge t r)) p = elim p [ ]
    Answers-from out_of_fuel p = p

    -- As much fuel as there are nodes is enough.
    pub visit_all-Answers : IsClosed → Answers (visit_all next (length ids) ids no_marks)
    unfolding has
    visit_all-Answers closed = Answers-from (visit_all next (length ids) ids no_marks) (
        visit_all-Ends closed (length ids) ids no_marks [] IsGood-start (λ x. refl) (λ x h. h)
          (missing-le_length ids []))
