-- ===== src/Dag/Examples.antt =====
-- Small plans, and what their validation and serialisation make of them.
mod Runs
use sdk_reference.Prelude.{
  ℕ, ◌≤◌, String, ◌≡◌, ◌≢◌, ◌↔◌, refl, Bool, true, false, Option, none, some, List, [], ◌∷◌, arith,
}
use sdk_reference.Prelude.Int.{pos}
use sdk_reference.Prelude.Dict.{lookup, insert}
use sdk_reference.Prelude.Sets.{has, add, discard, to_set, Each, IsDistinct, length}
use sdk_reference.Json.{Json, num, str, arr, obj}
use sdk_reference.Exec.{ok}
use sdk_reference.Messages.Task.{Payload, Result}
use sdk_reference.Dag.{
  InputRef, referenced_tasks, TaskInput, literal, ref, DagTaskSpec, Edge, Dag, dag_dict,
  dag_from_dict,
}
use sdk_reference.Dag.RoundTrip.{dag_from_dict-dag_dict}
use sdk_reference.Dag.Search.{
  Verdict, valid, invalid, cycle_at, out_of_fuel, visit_nexts, visit, visit_all,
}
use sdk_reference.Dag.Validate.{
  validate_dag, task_ids, empty_entries, at, add_edge, add_edges, check_task_refs, check_refs,
  check_tables,
}
use sdk_reference.Dag.Validate.Plan.{IsPlan, IsReal}
use sdk_reference.Dag.Validate.Judged.{validate_dag-IsPlan, validate_dag-IsReal, validate_dag-ends}

abbrev pub text : String → Payload
text s = record { type_name = "text"; content = str s }

abbrev pub spec : String → TaskInput → DagTaskSpec
spec t i = record {
  task_id = t;
  capability = "echo";
  input = i;
  output_type = "json";
  input_tokens_est = none;
  max_price_cu = some (pos 5);
  preferred_tier = none;
  proof_method = none;
  metadata = none;
}

abbrev pub edge : String → String → Edge
edge u v = record { from_task = u; to_task = v; stream_eligible = false }

abbrev pub one : String → TaskInput
one t = ref (record { from_task = some t; from_tasks = none; path = some "data" })

abbrev pub both : TaskInput
both = ref (record { from_task = none; from_tasks = some ("b" ∷ "c" ∷ []); path = none })

-- From `a` to `b` and `c`, and from both to `d`.
abbrev pub diamond : Dag
diamond = record {
  dag_id = "diamond";
  tasks =
      spec "a" (literal (text "hi")) ∷ spec "b" (one "a") ∷ spec "c" (one "a") ∷ spec "d" both ∷ [];
  edges = edge "a" "b" ∷ edge "a" "c" ∷ edge "b" "d" ∷ edge "c" "d" ∷ [];
}

-- A cycle of two tasks.
abbrev pub looped : Dag
looped = record {
  dag_id = "looped";
  tasks = spec "a" (one "b") ∷ spec "b" (one "a") ∷ [];
  edges = edge "a" "b" ∷ edge "b" "a" ∷ [];
}

pub diamond-valid : validate_dag diamond ≡ valid tt
unfolding validate_dag add_edges add_edge empty_entries at check_tables check_refs check_task_refs
    visit_all visit visit_nexts has add discard to_set lookup insert referenced_tasks
diamond-valid = refl

looped-invalid : validate_dag looped ≡ invalid (cycle_at "a")
unfolding validate_dag add_edges add_edge empty_entries at check_tables check_refs check_task_refs
    visit_all visit visit_nexts has add discard to_set lookup insert referenced_tasks
looped-invalid = refl

validate_dag-IsPlan_example : (validate_dag diamond ≡ valid tt) ↔ IsPlan diamond
validate_dag-IsPlan_example = validate_dag-IsPlan diamond

validate_dag-IsReal_example : IsReal looped (cycle_at "a")
validate_dag-IsReal_example = validate_dag-IsReal looped (cycle_at "a") looped-invalid

validate_dag-ends_example : validate_dag looped ≢ out_of_fuel
validate_dag-ends_example = validate_dag-ends looped

dag_from_dict-dag_dict_example : dag_from_dict (dag_dict diamond) ≡ ok diamond
dag_from_dict-dag_dict_example = dag_from_dict-dag_dict diamond (tt, (tt, (tt, (tt, tt))))
