-- ===== src/Dag/Validate/Edges.antt =====
-- What the tables `incoming` and `outgoing` hold after the loop over the edges.
use sdk_reference.Prelude.{
  String, ◌≡◌, refl, sym, ◌∙◌, Bool, true, false, ◌==◌, ◌||◌, ◌&&◌, List, [], ◌∷◌, ◌++◌,
  if◌then◌else◌, eq_iff, eq_refl, inl, inr, arith, Bool-cases,
}
use sdk_reference.Prelude.Dict.{Dict, lookup, insert, lookup-insert}
use sdk_reference.Prelude.Sets.{append_assoc, append_nil, has, add, to_set, has-add, has-to_set}
use sdk_reference.Dag.{Edge}
use sdk_reference.Dag.Search.{Verdict, valid, invalid, out_of_fuel, unknown_task}
use sdk_reference.Dag.Validate.{Tables, empty_entries, at, empty_tables, add_edge, add_edges}

-- The targets of the edges from a task, in the order of the edges.
abbrev pub successors : List Edge → String → List String
successors [] u = []
successors (e ∷ es) u =
    let rest = successors es u in if e.from_task == u then e.to_task ∷ rest else rest

-- Whether there is an edge.
abbrev pub has_edge : List Edge → String → String → Bool
has_edge es u v = has v (successors es u)

pub at-insert :
    (k j : String) (xs : List String) (d : Dict (List String))
    → at j (insert k xs d) ≡ (if k == j then xs else at j d)
unfolding at
at-insert k j xs d = ground (arith, lookup-insert k j xs d)

at-empty_entries :
    (ids : List String) (d : Dict (List String)) (k : String)
    → at k d ≡ []
    → at k (empty_entries d ids) ≡ []
unfolding empty_entries
at-empty_entries [] d k h = h
at-empty_entries (t ∷ ts) d k h =
    at-empty_entries ts (insert t [] d) k (ground (arith, at-insert t k [] d))

outgoing-add_edge :
    (e : Edge) (t : Tables) (u : String)
    → at u (add_edge e t).outgoing
      ≡ (if e.from_task == u then at u t.outgoing ++ e.to_task ∷ [] else at u t.outgoing)
unfolding add_edge
outgoing-add_edge e t u = ground (
  arith,
  eq_iff e.from_task u,
  at-insert e.from_task u (at e.from_task t.outgoing ++ e.to_task ∷ []) t.outgoing,
)

incoming-add_edge :
    (e : Edge) (t : Tables) (u v : String)
    → has v (at u (add_edge e t).incoming)
      ≡ (has v (at u t.incoming) || (e.to_task == u && e.from_task == v))
unfolding add_edge
incoming-add_edge e t u v = ground (
  arith,
  eq_iff e.to_task u,
  at-insert e.to_task u (add e.from_task (at e.to_task t.incoming)) t.incoming,
  has-add e.from_task v (at e.to_task t.incoming),
)

-- Both ends of each edge are tasks.
abbrev pub AllKnown : List String → List Edge → Type 0
AllKnown ids [] = Unit
AllKnown ids (e ∷ es) = (has e.from_task ids ≡ true) × (has e.to_task ids ≡ true) × AllKnown ids es

abbrev pub ends : List Edge → List String
ends [] = []
ends (e ∷ es) = e.from_task ∷ e.to_task ∷ ends es

-- What the loop over the edges answers.
abbrev pub Fills : List String → List Edge → Tables → Verdict Tables → Type 0
Fills ids es t (valid t') =
    AllKnown ids es
    × ((u : String) → at u t'.outgoing ≡ at u t.outgoing ++ successors es u)
    × ((u v : String) → has v (at u t'.incoming) ≡ (has v (at u t.incoming) || has_edge es v u))
Fills ids es t (invalid p) =
    (k : String) × (p ≡ unknown_task k) × (has k (ends es) ≡ true) × (has k ids ≡ false)
Fills ids es t out_of_fuel = ⊥

-- One edge more in front.
outgoing-step :
    (e : Edge) (es : List Edge) (t t' : Tables)
    → ((u : String) → at u t'.outgoing ≡ at u (add_edge e t).outgoing ++ successors es u)
    → (u : String) → at u t'.outgoing ≡ at u t.outgoing ++ successors (e ∷ es) u
outgoing-step e es t t' h u = elim (Bool-cases (e.from_task == u)) [
  | inl same ↦ rw same (
      h u
      ∙ rw (outgoing-add_edge e t u)
          (rw same (append_assoc (at u t.outgoing) (e.to_task ∷ []) (successors es u))))
  | inr other ↦ rw other (h u ∙ rw (outgoing-add_edge e t u) (rw other refl))
]

Fills-step :
    (ids : List String) (e : Edge) (es : List Edge) (t : Tables)
    → has e.from_task ids ≡ true
    → has e.to_task ids ≡ true
    → (v : Verdict Tables) → Fills ids es (add_edge e t) v
    → Fills ids (e ∷ es) t v
unfolding has
Fills-step ids e es t a b (valid t') (known, out, inc) = (
  (a, b, known),
  outgoing-step e es t t' out,
  λ u v. ground (
    arith,
    inc u v,
    incoming-add_edge e t u v,
    eq_iff e.to_task u,
    eq_iff e.from_task v,
    eq_iff e.to_task v,
  ),
)
Fills-step ids e es t a b (invalid p) (k, same, end, unknown) = (k, same, ground arith, unknown)
Fills-step ids e es t a b out_of_fuel f = f

add_edges-Fills :
    (ids : List String) (es : List Edge) (t : Tables) → Fills ids es t (add_edges (to_set ids) es t)
unfolding has add_edges
add_edges-Fills ids [] t = (tt, λ u. sym (append_nil (at u t.outgoing)), λ u v. ground arith)
add_edges-Fills ids (e ∷ es) t = elim (Bool-cases (has e.from_task (to_set ids))) [
  | inr unknown ↦ rw unknown (
    e.from_task,
    refl,
    ground (arith, eq_refl e.from_task),
    sym (has-to_set e.from_task ids) ∙ unknown,
  )
  | inl known ↦ rw known (elim (Bool-cases (has e.to_task (to_set ids))) [
    | inr unknown ↦ rw unknown (
      e.to_task,
      refl,
      ground (arith, eq_refl e.to_task),
      sym (has-to_set e.to_task ids) ∙ unknown,
    )
    | inl known' ↦ rw known' (
        Fills-step ids e es t (sym (has-to_set e.from_task ids) ∙ known)
          (sym (has-to_set e.to_task ids) ∙ known') (add_edges (to_set ids) es (add_edge e t))
          (add_edges-Fills ids es (add_edge e t)))
  ])
]

-- From the empty tables.
abbrev pub FillsAll : List String → List Edge → Verdict Tables → Type 0
FillsAll ids es (valid t) =
    AllKnown ids es
    × ((u : String) → at u t.outgoing ≡ successors es u)
    × ((u v : String) → has v (at u t.incoming) ≡ has_edge es v u)
FillsAll ids es (invalid p) =
    (k : String) × (p ≡ unknown_task k) × (has k (ends es) ≡ true) × (has k ids ≡ false)
FillsAll ids es out_of_fuel = ⊥

FillsAll-from :
    (ids : List String) (es : List Edge) (v : Verdict Tables)
    → Fills ids es (empty_tables ids) v
    → FillsAll ids es v
unfolding has at lookup
FillsAll-from ids es (valid t) (known, out, inc) = (
  known,
  λ u. out u ∙ rw (at-empty_entries ids [] u refl) refl,
  λ u v. inc u v ∙ rw (at-empty_entries ids [] u refl) refl,
)
FillsAll-from ids es (invalid p) f = f
FillsAll-from ids es out_of_fuel f = f

pub add_edges-FillsAll :
    (ids : List String) (es : List Edge)
    → FillsAll ids es (add_edges (to_set ids) es (empty_tables ids))
add_edges-FillsAll ids es =
    FillsAll-from ids es (add_edges (to_set ids) es (empty_tables ids))
      (add_edges-Fills ids es (empty_tables ids))
