-- ===== src/Dag/Search/Order.antt =====
-- The reference notions of the search: walks, cycles, and an order of the nodes in which every edge
-- leads backwards.
use sdk_reference.Prelude.{
  String, ◌≡◌, true, false, ◌==◌, inl, inr, Bool-cases, List, [], ◌∷◌, eq_iff, arith,
}
use sdk_reference.Prelude.Sets.{has}

module _ (next : String → List String) where
  -- A walk of any length along the edges.
  pub data Leads (u : String) : String → Type 0 where
    here : Leads u u
    step : {v w : String} → Leads u v → has w (next v) ≡ true → Leads u w

  -- A walk of at least one edge from a node to itself.
  pub record IsCyclic (x : String) : Type 0 where
    pub last : String
    pub walk : Leads x last
    pub back : has x (next last) ≡ true

  -- Each node stands before all that it has an edge to, and none stands twice.
  abbrev pub IsOrder : List String → Type 0
  IsOrder [] = Unit
  IsOrder (u ∷ us) =
      ((v : String) → has v (next u) ≡ true → has v us ≡ true) × (has u us ≡ false) × IsOrder us

  -- From a node of an order every walk stays in the order.
  pub edge_in_order :
      (order : List String)
      → IsOrder order
      → (u v : String) → has u order ≡ true
      → has v (next u) ≡ true
      → has v order ≡ true
  unfolding has
  edge_in_order [] o u v h e = cc
  edge_in_order (x ∷ xs) (later, new, o) u v h e = elim (Bool-cases (x == u)) [
    | inl same ↦ ground (arith, eq_iff x u, later v)
    | inr other ↦ ground (arith, edge_in_order xs o u v)
  ]

  walk_in_order :
      (order : List String)
      → IsOrder order
      → (u : String) {v : String} → Leads u v
      → has u order ≡ true
      → has v order ≡ true
  walk_in_order order o u here h = h
  walk_in_order order o u (step {v} {w} l e) h =
      edge_in_order order o v w (walk_in_order order o u l h) e

  -- A walk of at least one edge from the first node leads into the rest.
  walk_from_first :
      (u : String) (us : List String)
      → IsOrder (u ∷ us)
      → (w : String) {v : String} → Leads u v
      → has w (next v) ≡ true
      → has w us ≡ true
  walk_from_first u us (later, new, o) w here e = later w e
  walk_from_first u us (later, new, o) w (step {v} {w = v'} l e') e =
      edge_in_order us o v' w (walk_from_first u us (later, new, o) v' l e') e

  -- No node of an order lies on a cycle.
  pub IsOrder-acyclic :
      (order : List String) → IsOrder order → (x : String) → has x order ≡ true → ¬ IsCyclic x
  unfolding has
  IsOrder-acyclic [] o x h c = cc
  IsOrder-acyclic (u ∷ us) (later, new, o) x h c = elim (Bool-cases (u == x)) [
    | inl same ↦
        let e : u ≡ x = (eq_iff u x).0 same in
        let l : Leads u c.last = rw e c.walk in
        let b : has u (next c.last) ≡ true = rw e c.back in
        cc (walk_from_first u us (later, new, o) u l b)
    | inr other ↦ IsOrder-acyclic us o x (ground arith) c
  ]
