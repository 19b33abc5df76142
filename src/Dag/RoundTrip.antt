-- ===== src/Dag/RoundTrip.antt =====
-- What the `from_dict` methods of src/acmp/dag.py make of what `to_dict` wrote.
use sdk_reference.Prelude.{
  ◌≡◌, refl, String, Bool, true, false, Option, none, some, List, [], ◌∷◌, map, if◌then◌else◌,
}
use sdk_reference.Prelude.Dict.{lookup}
use sdk_reference.Prelude.Sets.{Each}
use sdk_reference.Json.{Json, bool, str, items, entries-fields}
use sdk_reference.Exec.{Outcome, ok}
use sdk_reference.Access.{
  as_str, as_bool, as_obj, item, item_as, get_as, get_or_as, optional, default_to,
}
use sdk_reference.Access.Optional.{
  put_if_set, attribute, or_else, object, lookup-put, optional_rules,
}
use sdk_reference.Messages.Task.{payload_dict, payload_from_dict}
use sdk_reference.Dag.{
  InputRef, input_ref, texts, each, as_list, ref_dict, ref_from_dict, TaskInput, literal, ref,
  input_json, DagTaskSpec, spec_dict, as_input, spec_from_dict, Edge, edge_dict, edge_from_dict,
  Dag, dag_dict, as_record, dag_from_dict,
}

-- A list is read back if each of its values is.
each-map :
    {A : Type 0} (read : Json → Outcome A) (write : A → Json) (P : A → Type 0)
    → ((a : A) → P a → read (write a) ≡ ok a)
    → (xs : List A) → Each P xs
    → each read (items (map write xs)) ≡ ok xs
each-map read write P h [] p = refl
each-map read write P h (a ∷ xs) (pa, ps) = rw (h a pa) (rw (each-map read write P h xs ps) refl)

each-texts : (ts : List String) → each as_str (items (map str ts)) ≡ ok ts
unfolding as_str
each-texts [] = refl
each-texts (t ∷ ts) = rw (each-texts ts) refl

optional-texts : (o : Option (List String)) → optional (as_list as_str) (attribute texts o) ≡ ok o
unfolding as_list
optional-texts none = refl
optional-texts (some ts) = rw (each-texts ts) refl

-- Exactly one source, which `__post_init__` checks.
abbrev pub IsOne : Option String → Option (List String) → Type 0
IsOne (some t) none = Unit
IsOne none (some ts) = Unit
IsOne none none = ⊥
IsOne (some t) (some ts) = ⊥

input_ref-IsOne :
    (t : Option String) (ts : Option (List String)) (path : Option String)
    → IsOne t ts
    → input_ref t ts path ≡ ok (record { from_task = t; from_tasks = ts; path = path })
unfolding input_ref
input_ref-IsOne (some t) none path one = refl
input_ref-IsOne none (some ts) path one = refl
input_ref-IsOne none none path one = elim one [ ]
input_ref-IsOne (some t) (some ts) path one = elim one [ ]

ref_from_dict-ref_dict :
    (r : InputRef) → IsOne r.from_task r.from_tasks → ref_from_dict (ref_dict r) ≡ ok r
unfolding ref_from_dict ref_dict item_as item get_as lookup as_obj
ref_from_dict-ref_dict r one =
    simp
      (
        lookup-put,
        optional_rules,
        optional-texts,
        input_ref-IsOne r.from_task r.from_tasks r.path one,
      )
      refl

abbrev pub IsBuilt : TaskInput → Type 0
IsBuilt (literal p) = Unit
IsBuilt (ref r) = IsOne r.from_task r.from_tasks

lookup-source : (r : InputRef) → (v : Json) × (lookup "source" (ref_dict r) ≡ some v)
unfolding lookup ref_dict
lookup-source r = (_, refl)

as_input-input_json : (i : TaskInput) → IsBuilt i → as_input (input_json i) ≡ ok i
unfolding as_input as_obj payload_dict payload_from_dict item_as item lookup as_str
as_input-input_json (literal p) one = refl
as_input-input_json (ref r) one =
    rw (entries-fields (ref_dict r))
      (rw (lookup-source r).1 (rw (ref_from_dict-ref_dict r one) refl))

spec_from_dict-spec_dict : (t : DagTaskSpec) → IsBuilt t.input → spec_from_dict (spec_dict t) ≡ ok t
unfolding spec_from_dict spec_dict put_if_set item_as item get_as get_or_as lookup as_str
spec_from_dict-spec_dict t built =
    simp (lookup-put, optional_rules, as_input-input_json t.input built) refl

stream_flag :
    (e : Edge) → (b : Bool) → default_to as_bool false (if b then some (bool true) else none) ≡ ok b
unfolding as_bool
stream_flag e true = refl
stream_flag e false = refl

or_none :
    (b : Bool)
    → or_else (if b then some (bool true) else none) none ≡ (if b then some (bool true) else none)
or_none true = refl
or_none false = refl

edge_from_dict-edge_dict : (e : Edge) → edge_from_dict (edge_dict e) ≡ ok e
unfolding edge_from_dict edge_dict item_as item get_or_as lookup as_str
edge_from_dict-edge_dict e = simp (lookup-put, or_none, stream_flag e e.stream_eligible) refl

spec_json-read :
    (t : DagTaskSpec) → IsBuilt t.input → as_record spec_from_dict (object (spec_dict t)) ≡ ok t
unfolding as_obj
spec_json-read t built = rw (entries-fields (spec_dict t)) (spec_from_dict-spec_dict t built)

edge_json-read : (e : Edge) → Unit {0} → as_record edge_from_dict (object (edge_dict e)) ≡ ok e
unfolding as_obj
edge_json-read e u = rw (entries-fields (edge_dict e)) (edge_from_dict-edge_dict e)

Each-any : {A : Type 0} (xs : List A) → Each (λ _. Unit {0}) xs
Each-any [] = tt
Each-any (x ∷ xs) = (tt, Each-any xs)

-- A DAG whose references were built with exactly one source each is read back as it was: each
-- optional field, each reference and each edge.
pub dag_from_dict-dag_dict :
    (g : Dag) → Each (λ t. IsBuilt t.input) g.tasks → dag_from_dict (dag_dict g) ≡ ok g
unfolding dag_from_dict dag_dict item_as item get_or_as lookup as_str as_list
dag_from_dict-dag_dict g built =
    rw
      (each-map (as_record spec_from_dict) (λ t. object (spec_dict t)) (λ t. IsBuilt t.input)
        spec_json-read g.tasks built)
      (rw
        (each-map (as_record edge_from_dict) (λ e. object (edge_dict e)) (λ _. Unit {0})
          edge_json-read g.edges (Each-any g.edges))
        refl)
