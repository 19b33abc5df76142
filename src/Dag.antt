-- ===== src/Dag.antt =====
-- The plan of src/acmp/dag.py: `InputRef`, `DagTaskSpec`, `Edge` and `Dag`, with their
-- serialisation.
pub mod Search
pub mod Validate
pub mod RoundTrip
pub mod Fields
pub mod Resolve
pub mod Orchestrator
mod Examples
use sdk_reference.Prelude.{
  String, Bool, true, false, not, Option, none, some, List, [], ◌∷◌, map, if◌then◌else◌,
}
use sdk_reference.Prelude.Int.{ℤ}
use sdk_reference.Prelude.Dict.{lookup}
use sdk_reference.Json.{Json, bool, num, str, arr, obj, Items, nil, cons, Object, items}
use sdk_reference.Exec.{Outcome, ok, fault, type_error, value_error, bind}
use sdk_reference.Access.{as_num, as_str, as_bool, as_obj, item_as, get_as, get_or_as}
use sdk_reference.Access.Optional.{put, put_if_set, attribute, object}
use sdk_reference.Messages.Task.{Payload, payload_json, payload_from_dict}

pub record InputRef : Type 0 where
  pub from_task : Option String
  pub from_tasks : Option (List String)
  pub path : Option String

-- `InputRef(…)`: `__post_init__` wants exactly one of the two sources.
unfoldable pub input_ref : Option String → Option (List String) → Option String → Outcome InputRef
input_ref (some t) none path = ok (record { from_task = some t; from_tasks = none; path = path })
input_ref none (some ts) path = ok (record { from_task = none; from_tasks = some ts; path = path })
input_ref none none path = fault value_error
input_ref (some t) (some ts) path = fault value_error

-- A JSON list of texts.
abbrev pub texts : List String → Json
texts ts = arr (items (map str ts))

-- `[read(v) for v in vs]`
abbrev pub each : {A : Type 0} → (Json → Outcome A) → Items → Outcome (List A)
each read nil = ok []
each read (cons v vs) = bind (read v) λ a. bind (each read vs) λ rest. ok (a ∷ rest)

unfoldable pub as_list : {A : Type 0} → (Json → Outcome A) → Json → Outcome (List A)
as_list read (arr vs) = each read vs
as_list read _ = fault type_error

unfoldable pub ref_dict : InputRef → Object
ref_dict r =
    let source = put "field" (attribute str r.path) (
      put "from_tasks" (attribute texts r.from_tasks)
        (put "from_task" (attribute str r.from_task) [])) in
    ("source", object source) ∷ []

unfoldable pub ref_from_dict : Object → Outcome InputRef
ref_from_dict d = bind (item_as as_obj d "source") λ source.
    bind (get_as as_str source "from_task") λ from_task.
      bind (get_as (as_list as_str) source "from_tasks") λ from_tasks.
        bind (get_as as_str source "field") λ path. input_ref from_task from_tasks path

-- `referenced_tasks`, of a reference that was built by `input_ref`.
abbrev pub sources : Option (List String) → Option String → List String
sources (some ts) _ = ts
sources none (some t) = t ∷ []
sources none none = []

unfoldable pub referenced_tasks : InputRef → List String
referenced_tasks r = sources r.from_tasks r.from_task

-- `Payload | InputRef`
pub data TaskInput : Type 0 where
  literal : Payload → TaskInput
  ref : InputRef → TaskInput

abbrev pub input_json : TaskInput → Json
input_json (literal p) = payload_json p
input_json (ref r) = object (ref_dict r)

pub record DagTaskSpec : Type 0 where
  pub task_id : String
  pub capability : String
  pub input : TaskInput
  pub output_type : String
  pub input_tokens_est : Option ℤ
  pub max_price_cu : Option ℤ
  pub preferred_tier : Option String
  pub proof_method : Option String
  pub metadata : Option Object

unfoldable pub spec_dict : DagTaskSpec → Object
spec_dict t =
    put_if_set
      (("input_tokens_est", attribute num t.input_tokens_est)
        ∷ ("max_price_cu", attribute num t.max_price_cu)
        ∷ ("preferred_tier", attribute str t.preferred_tier)
        ∷ ("proof_method", attribute str t.proof_method)
        ∷ ("metadata", attribute object t.metadata)
        ∷ [])
      (("task_id", str t.task_id)
        ∷ ("capability", str t.capability)
        ∷ ("input", input_json t.input)
        ∷ ("output_type", str t.output_type)
        ∷ [])

-- `"source" in raw_input` tells a reference from a payload.
abbrev pub input_by_source : Option Json → Object → Outcome TaskInput
input_by_source (some _) d = bind (ref_from_dict d) λ r. ok (ref r)
input_by_source none d = bind (payload_from_dict d) λ p. ok (literal p)

unfoldable pub as_input : Json → Outcome TaskInput
as_input v = bind (as_obj v) λ d. input_by_source (lookup "source" d) d

unfoldable pub spec_from_dict : Object → Outcome DagTaskSpec
spec_from_dict d = bind (item_as as_input d "input") λ input.
    bind (item_as as_str d "task_id") λ task_id. bind (item_as as_str d "capability") λ capability.
      bind (get_or_as as_str "json" d "output_type") λ output_type.
        bind (get_as as_num d "input_tokens_est") λ input_tokens_est.
          bind (get_as as_num d "max_price_cu") λ max_price_cu.
            bind (get_as as_str d "preferred_tier") λ preferred_tier.
              bind (get_as as_str d "proof_method") λ proof_method.
                bind (get_as as_obj d "metadata") λ metadata. ok (record {
                  task_id = task_id;
                  capability = capability;
                  input = input;
                  output_type = output_type;
                  input_tokens_est = input_tokens_est;
                  max_price_cu = max_price_cu;
                  preferred_tier = preferred_tier;
                  proof_method = proof_method;
                  metadata = metadata;
                })

pub record Edge : Type 0 where
  pub from_task : String
  pub to_task : String
  pub stream_eligible : Bool

unfoldable pub edge_dict : Edge → Object
edge_dict e =
    put "stream_eligible" (if e.stream_eligible then some (bool true) else none)
      (("from", str e.from_task) ∷ ("to", str e.to_task) ∷ [])

unfoldable pub edge_from_dict : Object → Outcome Edge
edge_from_dict d = bind (item_as as_str d "from") λ from_task.
    bind (item_as as_str d "to") λ to_task.
      bind (get_or_as as_bool false d "stream_eligible") λ stream_eligible.
        ok (record { from_task = from_task; to_task = to_task; stream_eligible = stream_eligible })

pub record Dag : Type 0 where
  pub dag_id : String
  pub tasks : List DagTaskSpec
  pub edges : List Edge

unfoldable pub dag_dict : Dag → Object
dag_dict g =
    ("dag_id", str g.dag_id)
    ∷ ("tasks", arr (items (map (λ t. object (spec_dict t)) g.tasks)))
    ∷ ("edges", arr (items (map (λ e. object (edge_dict e)) g.edges)))
    ∷ []

abbrev pub as_record : {A : Type 0} → (Object → Outcome A) → Json → Outcome A
as_record read v = bind (as_obj v) read

unfoldable pub dag_from_dict : Object → Outcome Dag
dag_from_dict d = bind (item_as as_str d "dag_id") λ dag_id.
    bind (item_as (as_list (as_record spec_from_dict)) d "tasks") λ tasks.
      bind (get_or_as (as_list (as_record edge_from_dict)) [] d "edges")
        λ edges. ok (record { dag_id = dag_id; tasks = tasks; edges = edges })
