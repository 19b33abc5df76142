-- ===== src/Dag/Search.antt =====
-- The depth-first search of `validate_dag` (src/acmp/dag.py), on fuel: `visit` with the sets
-- `visited` and `stack` that it shares with its caller.
pub mod Order
pub mod Passed
pub mod Correct
use sdk_reference.Prelude.{String, Bool, List, [], ◌∷◌, ℕ, zero, suc, if◌then◌else◌}
use sdk_reference.Prelude.Sets.{has, add, discard}

-- `DagValidationError`: what is wrong, and where.
pub data Problem : Type 0 where
  duplicate_task : Problem
  unknown_task cycle_at : String → Problem
  missing_edge : String → String → Problem

pub data Verdict (A : Type 0) : Type 0 where
  valid : A → Verdict A
  invalid : Problem → Verdict A
  out_of_fuel : Verdict A

abbrev pub and_then : {A B : Type 0} → Verdict A → (A → Verdict B) → Verdict B
and_then (valid a) f = f a
and_then (invalid p) f = invalid p
and_then out_of_fuel f = out_of_fuel

pub record Marks : Type 0 where
  pub visited : List String
  pub stack : List String

abbrev pub no_marks : Marks
no_marks = record { visited = []; stack = [] }

abbrev pub enter : String → Marks → Marks
enter node m = record { visited = add node m.visited; stack = add node m.stack }

abbrev pub leave : String → Marks → Marks
leave node m = record m { stack = discard node m.stack }

-- `if n not in visited: visit(n)`
abbrev pub visit_new : (String → Marks → Verdict Marks) → String → Marks → Verdict Marks
visit_new visit n m = if has n m.visited then valid m else visit n m

-- The loop over the neighbours, given `visit`.
unfoldable pub visit_nexts : (String → Marks → Verdict Marks) → List String → Marks → Verdict Marks
visit_nexts visit [] m = valid m
visit_nexts visit (n ∷ ns) m =
    if has n m.stack
    then invalid (cycle_at n)
    else and_then (visit_new visit n m) (λ m'. visit_nexts visit ns m')

module _ (next : String → List String) where
  unfoldable pub visit : ℕ → String → Marks → Verdict Marks
  visit zero node m = out_of_fuel
  visit (suc fuel) node m =
      and_then (visit_nexts (visit fuel) (next node) (enter node m)) (λ m'. valid (leave node m'))

  -- The loop over all tasks.
  unfoldable pub visit_all : ℕ → List String → Marks → Verdict Marks
  visit_all fuel [] m = valid m
  visit_all fuel (t ∷ ts) m = and_then (visit_new (visit fuel) t m) (λ m'. visit_all fuel ts m')
