-- ===== src/Messages/Task.antt =====
-- The data structures of src/acmp/messages.py: `Payload`, `Task` and `Result`, with their
-- serialisation.
pub mod RoundTrip
use sdk_reference.Prelude.{String, Bool, false, Option, none, some, [], ◌∷◌}
use sdk_reference.Prelude.Int.{ℤ, pos}
use sdk_reference.Json.{Json, bool, num, str, obj, Object}
use sdk_reference.Exec.{Outcome, ok, bind}
use sdk_reference.Access.{as_num, as_str, as_bool, as_obj, item, item_as, get_as, get_or_as}
use sdk_reference.Access.Optional.{put, put_if_set, attribute, object}

pub record Payload : Type 0 where
  pub type_name : String
  pub content : Json

unfoldable pub payload_dict : Payload → Object
payload_dict p = ("type", str p.type_name) ∷ ("data", p.content) ∷ []

unfoldable pub payload_from_dict : Object → Outcome Payload
payload_from_dict d = bind (item_as as_str d "type") λ type_name.
    bind (item d "data") λ content. ok (record { type_name = type_name; content = content })

-- A payload inside a message.
abbrev pub payload_json : Payload → Json
payload_json p = object (payload_dict p)

abbrev pub as_payload : Json → Outcome Payload
as_payload v = bind (as_obj v) payload_from_dict

pub record Task : Type 0 where
  pub capability : String
  pub input : Option Payload
  pub task_id : String
  pub output_type : String
  pub input_tokens_est : Option ℤ
  pub max_price_cu : Option ℤ
  pub preferred_tier : Option String
  pub timeout_ms : ℤ
  pub stream : Bool
  pub input_stream : Bool
  pub escrow_id : Option String
  pub proof_method : Option String
  pub metadata : Option Object

unfoldable pub to_params : Task → Object
to_params t =
    put_if_set
      (("input_tokens_est", attribute num t.input_tokens_est)
        ∷ ("max_price_cu", attribute num t.max_price_cu)
        ∷ ("preferred_tier", attribute str t.preferred_tier)
        ∷ ("escrow_id", attribute str t.escrow_id)
        ∷ ("proof_method", attribute str t.proof_method)
        ∷ ("metadata", attribute object t.metadata)
        ∷ [])
      (put "input" (attribute payload_json t.input) (
        ("task_id", str t.task_id)
        ∷ ("capability", str t.capability)
        ∷ ("output_type", str t.output_type)
        ∷ ("timeout_ms", num t.timeout_ms)
        ∷ ("stream", bool t.stream)
        ∷ ("input_stream", bool t.input_stream)
        ∷ []))

-- The arguments in the order of the call, which is the order in which they are read.
unfoldable pub from_params : Object → Outcome Task
from_params params = bind (item_as as_str params "task_id") λ task_id.
    bind (item_as as_str params "capability") λ capability.
      bind (get_as as_payload params "input") λ input.
        bind (get_or_as as_str "json" params "output_type") λ output_type.
          bind (get_as as_num params "input_tokens_est") λ input_tokens_est.
            bind (get_as as_num params "max_price_cu") λ max_price_cu.
              bind (get_as as_str params "preferred_tier") λ preferred_tier.
                bind (get_or_as as_num (pos 30000) params "timeout_ms") λ timeout_ms.
                  bind (get_or_as as_bool false params "stream") λ stream.
                    bind (get_or_as as_bool false params "input_stream") λ input_stream.
                      bind (get_as as_str params "escrow_id") λ escrow_id.
                        bind (get_as as_str params "proof_method") λ proof_method.
                          bind (get_as as_obj params "metadata") λ metadata. ok (record {
                            capability = capability;
                            input = input;
                            task_id = task_id;
                            output_type = output_type;
                            input_tokens_est = input_tokens_est;
                            max_price_cu = max_price_cu;
                            preferred_tier = preferred_tier;
                            timeout_ms = timeout_ms;
                            stream = stream;
                            input_stream = input_stream;
                            escrow_id = escrow_id;
                            proof_method = proof_method;
                            metadata = metadata;
                          })

pub record Result : Type 0 where
  pub task_id : String
  pub output : Option Payload
  pub tokens_used : ℤ
  pub cost_cu : ℤ
  pub output_streamed : Bool
  pub proof : Option Object
  pub provider_id : Option String

unfoldable pub result_dict : Result → Object
result_dict r = put "provider_id" (attribute str r.provider_id) (
    put "proof" (attribute object r.proof) (
      put "output" (attribute payload_json r.output) (
        ("task_id", str r.task_id)
        ∷ ("tokens_used", num r.tokens_used)
        ∷ ("cost_cu", num r.cost_cu)
        ∷ ("output_streamed", bool r.output_streamed)
        ∷ [])))

unfoldable pub result_from_dict : Object → Outcome Result
result_from_dict d = bind (item_as as_str d "task_id") λ task_id.
    bind (get_as as_payload d "output") λ output.
      bind (item_as as_num d "tokens_used") λ tokens_used.
        bind (item_as as_num d "cost_cu") λ cost_cu.
          bind (get_or_as as_bool false d "output_streamed") λ output_streamed.
            bind (get_as as_obj d "proof") λ proof.
              bind (get_as as_str d "provider_id") λ provider_id. ok (record {
                task_id = task_id;
                output = output;
                tokens_used = tokens_used;
                cost_cu = cost_cu;
                output_streamed = output_streamed;
                proof = proof;
                provider_id = provider_id;
              })
