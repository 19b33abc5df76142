-- ===== src/Messages.antt =====
-- src/acmp/messages.py: the JSON-RPC envelopes.
pub mod Task
use sdk_reference.Prelude.{String, [], ◌∷◌}
use sdk_reference.Json.{Json, str, obj, Object, fields}

-- `JSONRPC_VERSION`
abbrev pub jsonrpc_version : String
jsonrpc_version = "2.0"

unfoldable pub make_request : String → Object → String → Object
make_request method params req_id =
    ("jsonrpc", str jsonrpc_version)
    ∷ ("method", str method)
    ∷ ("id", str req_id)
    ∷ ("params", obj (fields params))
    ∷ []

unfoldable pub make_notification : String → Object → Object
make_notification method params =
    ("jsonrpc", str jsonrpc_version) ∷ ("method", str method) ∷ ("params", obj (fields params)) ∷ []

-- The id of the request is sent back as it came.
unfoldable pub make_result_response : Json → Object → Object
make_result_response req_id result =
    ("jsonrpc", str jsonrpc_version) ∷ ("id", req_id) ∷ ("result", obj (fields result)) ∷ []

unfoldable pub make_error_response : Json → Object → Object
make_error_response req_id error =
    ("jsonrpc", str jsonrpc_version) ∷ ("id", req_id) ∷ ("error", obj (fields error)) ∷ []
