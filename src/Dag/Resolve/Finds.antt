-- ===== src/Dag/Resolve/Finds.antt =====
-- What `resolve_input` of src/acmp/dag.py reads of the results.
use sdk_reference.Prelude.{String, ◌≡◌, true, Option, none, some, List, [], ◌∷◌, eq_refl, arith}
use sdk_reference.Prelude.Dict.{Dict, lookup}
use sdk_reference.Prelude.Sets.{has}
use sdk_reference.Json.{Json, Object}
use sdk_reference.Exec.{
  Outcome, ok, raised, fault, key_error, type_error, assertion_error, value_error, attribute_error,
  dag_resolution_error, runtime_error, bind,
}
use sdk_reference.Access.Optional.{object}
use sdk_reference.Messages.Task.{Payload, payload_dict, Result}
use sdk_reference.Dag.{TaskInput, literal, ref, sources, referenced_tasks}
use sdk_reference.Dag.Fields.{Token, tokens, outside, follow, follow_path, found, extract_field}
use sdk_reference.Dag.Resolve.{
  output_payload, at_path, resolve_source, output_of, output_dict, output_dicts, forward,
  resolve_input,
}
use sdk_reference.Dag.Validate.{input_refs}

-- The call does not stop with a `KeyError`.
abbrev pub HasKeys : {A : Type 0} → Outcome A → Type 0
HasKeys (fault (key_error k)) = ⊥
HasKeys _ = Unit

abbrev pub IsThere : Option Result → Type 0
IsThere none = ⊥
IsThere (some r) = Unit

pub bind-HasKeys :
    {A B : Type 0} (o : Outcome A) (f : A → Outcome B)
    → HasKeys o
    → ((a : A) → HasKeys (f a))
    → HasKeys (bind o f)
bind-HasKeys (ok a) f h k = k a
bind-HasKeys (raised e) f h k = tt
bind-HasKeys (fault (key_error x)) f h k = h
bind-HasKeys (fault type_error) f h k = tt
bind-HasKeys (fault assertion_error) f h k = tt
bind-HasKeys (fault value_error) f h k = tt
bind-HasKeys (fault attribute_error) f h k = tt
bind-HasKeys (fault dag_resolution_error) f h k = tt
bind-HasKeys (fault (runtime_error x)) f h k = tt

found-HasKeys : (o : Option Json) → HasKeys (found o)
found-HasKeys none = tt
found-HasKeys (some v) = tt

follow_path-HasKeys : (ts : List Token) (v : Json) → HasKeys (follow_path ts v)
follow_path-HasKeys [] v = tt
follow_path-HasKeys (t ∷ ts) v = found-HasKeys (follow (t ∷ ts) v)

extract_field-HasKeys : (root : Object) (path : String) → HasKeys (extract_field root path)
unfolding extract_field
extract_field-HasKeys root path = follow_path-HasKeys (tokens outside path) (object root)

output_payload-HasKeys : (o : Option Payload) → HasKeys (output_payload o)
output_payload-HasKeys none = tt
output_payload-HasKeys (some p) = tt

output_of-HasKeys : (t : String) (o : Option Result) → IsThere o → HasKeys (output_of t o)
output_of-HasKeys t none h = h
output_of-HasKeys t (some r) h =
    bind-HasKeys (output_payload r.output) _ (output_payload-HasKeys r.output) (λ p. tt)

output_dicts-HasKeys :
    (completed : Dict Result) (ts : List String)
    → ((t : String) → has t ts ≡ true → IsThere (lookup t completed))
    → HasKeys (output_dicts completed ts)
unfolding has output_dicts output_dict
output_dicts-HasKeys completed [] h = tt
output_dicts-HasKeys completed (t ∷ ts) h =
    bind-HasKeys (output_dict completed t) _
      (output_of-HasKeys t (lookup t completed) (h t (ground (arith, eq_refl t))))
      (λ o.
        bind-HasKeys (output_dicts completed ts) _
          (output_dicts-HasKeys completed ts (λ x m. h x (ground arith))) (λ os. tt))

at_path-HasKeys : (path : Option String) (p : Payload) → HasKeys (at_path path p)
at_path-HasKeys none p = tt
at_path-HasKeys (some path) p =
    bind-HasKeys (extract_field (payload_dict p) path) _
      (extract_field-HasKeys (payload_dict p) path) (λ v. tt)

forward-HasKeys :
    (o : Option Result) (t : String) (path : Option String) → IsThere o → HasKeys (forward o t path)
forward-HasKeys none t path h = h
forward-HasKeys (some r) t path h =
    bind-HasKeys (output_payload r.output) _ (output_payload-HasKeys r.output)
      (at_path-HasKeys path)

source-HasKeys :
    (completed : Dict Result) (ts : Option (List String)) (t path : Option String)
    → ((k : String) → has k (sources ts t) ≡ true → IsThere (lookup k completed))
    → HasKeys (resolve_source completed ts t path)
unfolding has
source-HasKeys completed (some ts) t path h =
    bind-HasKeys (output_dicts completed ts) _ (output_dicts-HasKeys completed ts h) (λ os. tt)
source-HasKeys completed none none path h = tt
source-HasKeys completed none (some t) path h =
    forward-HasKeys (lookup t completed) t path (h t (ground (arith, eq_refl t)))

-- An input all of whose references have a result is resolved without a `KeyError`.
pub resolve_input-HasKeys :
    (i : TaskInput) (completed : Dict Result)
    → ((k : String) → has k (input_refs i) ≡ true → IsThere (lookup k completed))
    → HasKeys (resolve_input i completed)
unfolding resolve_input referenced_tasks
resolve_input-HasKeys (literal p) completed h = tt
resolve_input-HasKeys (ref r) completed h =
    source-HasKeys completed r.from_tasks r.from_task r.path h
