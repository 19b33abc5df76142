-- ===== src/Dag/Resolve.antt =====
-- `resolve_input` of src/acmp/dag.py: the payload of a task, from its own input or from the results
-- of the tasks before it.
pub mod Finds
use sdk_reference.Prelude.{
  String, ◌≡◌, refl, Bool, true, false, ◌⊎◌, inl, inr, Option, none, some, List, [], ◌∷◌, map,
}
use sdk_reference.Prelude.Dict.{Dict, lookup}
use sdk_reference.Json.{Json, str, arr, items, Object}
use sdk_reference.Exec.{
  Outcome, ok, raised, fault, Fault, key_error, assertion_error, attribute_error,
  dag_resolution_error, bind,
}
use sdk_reference.Access.Optional.{object}
use sdk_reference.Messages.Task.{Payload, payload_dict, Result}
use sdk_reference.Dag.{InputRef, TaskInput, literal, ref}
use sdk_reference.Dag.Fields.{extract_field}

abbrev pub output_payload : Option Payload → Outcome Payload
output_payload none = fault attribute_error
output_payload (some p) = ok p

-- `completed[t].output.to_dict()`
abbrev pub output_of : String → Option Result → Outcome Object
output_of t none = fault (key_error t)
output_of t (some r) = bind (output_payload r.output) λ p. ok (payload_dict p)

unfoldable pub output_dict : Dict Result → String → Outcome Object
output_dict completed t = output_of t (lookup t completed)

unfoldable pub output_dicts : Dict Result → List String → Outcome (List Json)
output_dicts completed [] = ok []
output_dicts completed (t ∷ ts) =
    bind (output_dict completed t) λ o. bind (output_dicts completed ts) λ os. ok (object o ∷ os)

unfoldable pub infer_literal_type : Json → String
infer_literal_type (str s) = "text"
infer_literal_type _ = "json"

-- The whole output, or the value at a path of it.
abbrev pub at_path : Option String → Payload → Outcome Payload
at_path none p = ok p
at_path (some path) p =
    bind (extract_field (payload_dict p) path)
      λ v. ok (record { type_name = infer_literal_type v; content = v })

abbrev pub forward : Option Result → String → Option String → Outcome Payload
forward none t path = fault (key_error t)
forward (some r) t path = bind (output_payload r.output) (at_path path)

abbrev pub gather : Dict Result → List String → Outcome Payload
gather completed ts =
    bind (output_dicts completed ts)
      λ os. ok (record { type_name = "json"; content = arr (items os) })

-- `from_tasks` goes before `from_task`.
abbrev pub resolve_source :
    Dict Result → Option (List String) → Option String → Option String → Outcome Payload
resolve_source completed (some ts) t path = gather completed ts
resolve_source completed none none path = fault assertion_error
resolve_source completed none (some t) path = forward (lookup t completed) t path

unfoldable pub resolve_input : TaskInput → Dict Result → Outcome Payload
resolve_input (literal p) completed = ok p
resolve_input (ref r) completed = resolve_source completed r.from_tasks r.from_task r.path
