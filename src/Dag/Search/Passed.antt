-- ===== src/Dag/Search/Passed.antt =====
-- The invariant of the search of `validate_dag`.
use sdk_reference.Prelude.{String, ◌≡◌, refl, true, false, ◌⊎◌, ◌∙◌, List, [], ◌∷◌, eq_iff, arith}
use sdk_reference.Prelude.Sets.{has, has-add, has-discard}
use sdk_reference.Dag.Search.{
  Problem, cycle_at, Verdict, valid, invalid, out_of_fuel, Marks, enter, leave,
}
use sdk_reference.Dag.Search.Order.{IsCyclic, IsOrder}

module _ (next : String → List String) where
  -- The nodes that are done with, in an order, beside the sets of the search.
  pub record IsGood (m : Marks) (order : List String) : Type 0 where
    pub ordered : IsOrder next order
    pub seen : (x : String) → has x order ≡ true → has x m.visited ≡ true
    pub off : (x : String) → has x order ≡ true → has x m.stack ≡ false
    pub on : (x : String) → has x m.stack ≡ true → has x m.visited ≡ true
    pub rest : (x : String) → has x m.visited ≡ true → (has x m.stack ≡ true) ⊎ (has x order ≡ true)

  -- A part of the search that ended well: `targets` are done with, and what was on the stack is
  -- again.
  pub record Passed (targets : List String) (m : Marks) (order : List String) (m' : Marks)
      : Type 0 where
    pub order' : List String
    pub good : IsGood m' order'
    pub stack : (x : String) → has x m'.stack ≡ has x m.stack
    pub kept : (x : String) → has x order ≡ true → has x order' ≡ true
    pub visited : (x : String) → has x m.visited ≡ true → has x m'.visited ≡ true
    pub all : (x : String) → has x targets ≡ true → has x order' ≡ true

  abbrev pub Found : Problem → Type 0
  Found (cycle_at x) = IsCyclic next x
  Found _ = ⊥

  abbrev pub Ends : List String → Marks → List String → Verdict Marks → Type 0
  Ends targets m order (valid m') = Passed targets m order m'
  Ends targets m order (invalid p) = Found p
  Ends targets m order out_of_fuel = ⊥

  pub Passed-nil : (m : Marks) (order : List String) → IsGood m order → Passed [] m order m
  unfolding has
  Passed-nil m order g = record {
    order' = order;
    good = g;
    stack = λ x. refl;
    kept = λ x h. h;
    visited = λ x h. h;
    all = λ x h. cc;
  }

  -- One target, and then the others.
  pub Passed-cons :
      (n : String) (ns : List String) (m m1 m2 : Marks) (order : List String)
      (p : Passed (n ∷ []) m order m1)
      → Passed ns m1 p.order' m2
      → Passed (n ∷ ns) m order m2
  unfolding has
  Passed-cons n ns m m1 m2 order p q = record {
    order' = q.order';
    good = q.good;
    stack = λ x. q.stack x ∙ p.stack x;
    kept = λ x h. q.kept x (p.kept x h);
    visited = λ x h. q.visited x (p.visited x h);
    all = λ x h. ground (arith, p.all x, q.kept x, q.all x);
  }

  -- A node that is done with already.
  pub Passed-done :
      (n : String) (m : Marks) (order : List String)
      → IsGood m order
      → has n m.stack ≡ false
      → has n m.visited ≡ true
      → Passed (n ∷ []) m order m
  unfolding has
  Passed-done n m order g off seen = record {
    order' = order;
    good = g;
    stack = λ x. refl;
    kept = λ x h. h;
    visited = λ x h. h;
    all = λ x h. ground (arith, eq_iff n x, g.rest n);
  }

  -- Entering a new node.
  pub IsGood-enter :
      (n : String) (m : Marks) (order : List String)
      → has n m.visited ≡ false
      → IsGood m order
      → IsGood (enter n m) order
  IsGood-enter n m order new g = record {
    ordered = g.ordered;
    seen = λ x h. ground (arith, has-add n x m.visited, g.seen x);
    off = λ x h. ground (arith, eq_iff n x, has-add n x m.stack, g.off x, g.seen x);
    on = λ x h. ground (arith, has-add n x m.visited, has-add n x m.stack, g.on x);
    rest = λ x h. ground (arith, has-add n x m.visited, has-add n x m.stack, g.rest x);
  }

  -- Leaving it, when its neighbours are done with.
  pub Passed-leave :
      (n : String) (m m2 : Marks) (order : List String)
      → has n m.stack ≡ false
      → Passed (next n) (enter n m) order m2
      → Passed (n ∷ []) m order (leave n m2)
  unfolding has
  Passed-leave n m m2 order off p =
      let g = p.good in
      record {
        order' = n ∷ p.order';
        good = record {
          ordered = (
            p.all,
            ground (arith, g.off n, p.stack n, has-add n n m.stack, eq_iff n n),
            g.ordered,
          );
          seen = λ x h.
              ground (arith, eq_iff n x, g.seen x, p.visited n, has-add n n m.visited, eq_iff n n);
          off = λ x h. ground (arith, has-discard n x m2.stack, g.off x);
          on = λ x h. ground (arith, has-discard n x m2.stack, g.on x);
          rest = λ x h. ground (arith, has-discard n x m2.stack, g.rest x);
        };
        stack = λ x.
            ground (arith, eq_iff n x, has-discard n x m2.stack, p.stack x, has-add n x m.stack);
        kept = λ x h. ground (arith, p.kept x);
        visited = λ x h. ground (arith, p.visited x, has-add n x m.visited);
        all = λ x h. ground arith;
      }
