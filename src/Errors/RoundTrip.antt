-- ===== src/Errors/RoundTrip.antt =====
-- An error object written by one peer and read by the other.
use sdk_reference.Prelude.{◌≡◌, refl, ◌≢◌, eq_iff, arith}
use sdk_reference.Prelude.Dict.{lookup}
use sdk_reference.Json.{entries-fields}
use sdk_reference.Errors.{
  ErrorCode, EscrowErrorCode, NegotiationErrorCode, layer1, escrow, negotiation, plain, int_value,
  resolve_code, AcmpError, acmp_error, to_jsonrpc, offer_not_found,
}
use sdk_reference.Errors.Wire.{from_jsonrpc}
use sdk_reference.Exec.{ok}
use sdk_reference.Access.{as_num, as_str, as_obj, item, item_as, get_as}

-- Reading an error with a message back gives the same message and data, and the code that its
-- number resolves to.
pub from_jsonrpc-to_jsonrpc :
    (e : AcmpError)
    → e.message ≢ ""
    → from_jsonrpc (to_jsonrpc e) ≡ ok (record e { code = resolve_code (int_value e.code) })
unfolding from_jsonrpc to_jsonrpc acmp_error item_as item get_as lookup as_num as_str as_obj
from_jsonrpc-to_jsonrpc e h = rw (entries-fields e.details) (ground (arith, eq_iff e.message ""))

-- The two enums that the reader knows are resolved to their members.
pub resolve_code-layer1 : (c : ErrorCode) → resolve_code (int_value (layer1 c)) ≡ layer1 c
unfolding resolve_code int_value
resolve_code-layer1 ErrorCode.budget_exceeded = refl
resolve_code-layer1 _ = refl

pub resolve_code-escrow : (c : EscrowErrorCode) → resolve_code (int_value (escrow c)) ≡ escrow c
unfolding resolve_code int_value
resolve_code-escrow EscrowErrorCode.escrow_not_found = refl
resolve_code-escrow _ = refl

pub resolve_code-negotiation :
    (c : NegotiationErrorCode)
    → resolve_code (int_value (negotiation c)) ≡ plain (int_value (negotiation c))
unfolding resolve_code int_value
resolve_code-negotiation offer_not_found = refl
resolve_code-negotiation _ = refl
