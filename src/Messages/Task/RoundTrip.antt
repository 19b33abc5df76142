-- ===== src/Messages/Task/RoundTrip.antt =====
-- What `from_params` and `from_dict` of src/acmp/messages.py make of what `to_params` and `to_dict`
-- wrote.
use sdk_reference.Prelude.{◌≡◌, refl, Option, none, some}
use sdk_reference.Prelude.Dict.{lookup}
use sdk_reference.Exec.{ok}
use sdk_reference.Access.{
  as_num, as_str, as_bool, as_obj, item, item_as, get_as, get_or_as, optional,
}
use sdk_reference.Access.Optional.{put_if_set, attribute, lookup-put, optional_rules}
use sdk_reference.Messages.Task.{
  Payload, payload_dict, payload_from_dict, payload_json, as_payload, Task, to_params, from_params,
  Result, result_dict, result_from_dict,
}

optional-payload : (o : Option Payload) → optional as_payload (attribute payload_json o) ≡ ok o
unfolding payload_dict payload_from_dict item_as item lookup as_str as_obj
optional-payload none = refl
optional-payload (some p) = refl

-- A result is read back as it was.
pub result_from_dict-result_dict : (r : Result) → result_from_dict (result_dict r) ≡ ok r
unfolding result_from_dict result_dict item_as item get_as get_or_as lookup as_str as_num as_bool
result_from_dict-result_dict r = simp (lookup-put, optional_rules, optional-payload) refl

-- A task is read back as it was.
pub from_params-to_params : (t : Task) → from_params (to_params t) ≡ ok t
unfolding from_params to_params put_if_set item_as item get_as get_or_as lookup as_str as_num
    as_bool
from_params-to_params t = simp (lookup-put, optional_rules, optional-payload) refl
