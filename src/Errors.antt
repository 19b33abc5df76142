-- ===== src/Errors.antt =====
-- src/acmp/errors.py: the error codes, the default messages, and `AcmpError`.
-- `NegotiationErrorCode` of src/acmp/negotiation.py stands here with the other codes.
pub mod Wire
pub mod RoundTrip
use sdk_reference.Prelude.{String, Option, none, some, List, [], ◌∷◌, map, ◌==◌, if◌then◌else◌}
use sdk_reference.Prelude.Int.{ℤ, negsuc, eqb_ℤ}
use sdk_reference.Json.{Json, num, str, obj, Object, fields}

pub data ErrorCode : Type 0 where
  budget_exceeded capability_not_found timeout cancelled : ErrorCode
  escrow_invalid proof_unsupported feature_unsupported internal : ErrorCode

pub data EscrowErrorCode : Type 0 where
  escrow_not_found insufficient_funds invalid_state escrow_expired : EscrowErrorCode
  not_authorized amount_exceeds_remaining internal : EscrowErrorCode

pub data NegotiationErrorCode : Type 0 where
  offer_not_found offer_expired already_accepted : NegotiationErrorCode

-- `IntEnum | int`
pub data Code : Type 0 where
  layer1 : ErrorCode → Code
  escrow : EscrowErrorCode → Code
  negotiation : NegotiationErrorCode → Code
  plain : ℤ → Code

abbrev pub error_value : ErrorCode → ℤ
error_value ErrorCode.budget_exceeded = negsuc 33000
error_value ErrorCode.capability_not_found = negsuc 33001
error_value ErrorCode.timeout = negsuc 33002
error_value ErrorCode.cancelled = negsuc 33003
error_value ErrorCode.escrow_invalid = negsuc 33004
error_value ErrorCode.proof_unsupported = negsuc 33005
error_value ErrorCode.feature_unsupported = negsuc 33006
error_value ErrorCode.internal = negsuc 33098

abbrev pub escrow_error_value : EscrowErrorCode → ℤ
escrow_error_value EscrowErrorCode.escrow_not_found = negsuc 35000
escrow_error_value EscrowErrorCode.insufficient_funds = negsuc 35001
escrow_error_value EscrowErrorCode.invalid_state = negsuc 35002
escrow_error_value EscrowErrorCode.escrow_expired = negsuc 35003
escrow_error_value EscrowErrorCode.not_authorized = negsuc 35004
escrow_error_value EscrowErrorCode.amount_exceeds_remaining = negsuc 35005
escrow_error_value EscrowErrorCode.internal = negsuc 35098

abbrev pub negotiation_error_value : NegotiationErrorCode → ℤ
negotiation_error_value offer_not_found = negsuc 34000
negotiation_error_value offer_expired = negsuc 34001
negotiation_error_value already_accepted = negsuc 34002

-- `int(code)`
unfoldable pub int_value : Code → ℤ
int_value (layer1 c) = error_value c
int_value (escrow c) = escrow_error_value c
int_value (negotiation c) = negotiation_error_value c
int_value (plain n) = n

abbrev pub error_codes : List ErrorCode
error_codes =
    ErrorCode.budget_exceeded ∷ ErrorCode.capability_not_found ∷ ErrorCode.timeout
    ∷ ErrorCode.cancelled ∷ ErrorCode.escrow_invalid ∷ ErrorCode.proof_unsupported
    ∷ ErrorCode.feature_unsupported ∷ ErrorCode.internal ∷ []

abbrev pub escrow_error_codes : List EscrowErrorCode
escrow_error_codes =
    EscrowErrorCode.escrow_not_found ∷ EscrowErrorCode.insufficient_funds
    ∷ EscrowErrorCode.invalid_state ∷ EscrowErrorCode.escrow_expired
    ∷ EscrowErrorCode.not_authorized ∷ EscrowErrorCode.amount_exceeds_remaining
    ∷ EscrowErrorCode.internal ∷ []

-- `enum_cls(raw_code)`: the member with that value; `none` is Python's ValueError.
unfoldable pub member_of : {A : Type 0} → (A → ℤ) → ℤ → List A → Option A
member_of value n [] = none
member_of value n (c ∷ cs) = if eqb_ℤ (value c) n then some c else member_of value n cs

-- `_DEFAULT_MESSAGES`, keyed by value, since an `IntEnum` member hashes as its integer.
default_messages : List (ℤ × String)
default_messages =
    (error_value ErrorCode.budget_exceeded, "Budget exceeded")
    ∷ (error_value ErrorCode.capability_not_found, "Capability not found")
    ∷ (error_value ErrorCode.timeout, "Task timed out")
    ∷ (error_value ErrorCode.cancelled, "Task cancelled")
    ∷ (error_value ErrorCode.escrow_invalid, "Escrow invalid")
    ∷ (error_value ErrorCode.proof_unsupported, "Proof method unsupported")
    ∷ (error_value ErrorCode.feature_unsupported, "Feature unsupported")
    ∷ (error_value ErrorCode.internal, "Internal provider error")
    ∷ (escrow_error_value EscrowErrorCode.escrow_not_found, "Unknown escrow_id")
    ∷ (escrow_error_value EscrowErrorCode.insufficient_funds, "Lock could not be funded")
    ∷ (
      escrow_error_value EscrowErrorCode.invalid_state,
      "Operation not permitted in the current state",
    )
    ∷ (
      escrow_error_value EscrowErrorCode.escrow_expired,
      "The lock passed valid_until_ms and was auto-reclaimed",
    )
    ∷ (
      escrow_error_value EscrowErrorCode.not_authorized,
      "Caller is not the party allowed to perform this operation",
    )
    ∷ (
      escrow_error_value EscrowErrorCode.amount_exceeds_remaining,
      "Amount exceeds the remaining balance",
    )
    ∷ (escrow_error_value EscrowErrorCode.internal, "Internal escrow-agent error")
    ∷ []

message_for : ℤ → List (ℤ × String) → String
message_for n [] = "ACMP error"
message_for n ((m, text) ∷ rest) = if eqb_ℤ m n then text else message_for n rest

unfoldable pub default_message : Code → String
unfolding int_value message_for default_messages
default_message code = message_for (int_value code) default_messages

pub record AcmpError : Type 0 where
  pub code : Code
  pub message : String
  pub details : Object

-- `message or default`: an empty message counts as none.
abbrev pub or_default : Option String → String → String
or_default none text = text
or_default (some m) text = if m == "" then text else m

abbrev pub or_empty : Option Object → Object
or_empty none = []
or_empty (some d) = d

-- `AcmpError(code, message, data)`; the field `data` is named `details`.
unfoldable pub acmp_error : Code → Option String → Option Object → AcmpError
acmp_error code message details = record {
  code = code;
  message = or_default message (default_message code);
  details = or_empty details;
}

unfoldable pub to_jsonrpc : AcmpError → Object
to_jsonrpc e =
    ("code", num (int_value e.code))
    ∷ ("message", str e.message)
    ∷ ("data", obj (fields e.details))
    ∷ []

-- The loop over the two enums of `from_jsonrpc`.
unfoldable pub resolve_code : ℤ → Code
unfolding member_of
resolve_code raw = elim (member_of error_value raw error_codes) [
  | some c ↦ layer1 c
  | none ↦ elim (member_of escrow_error_value raw escrow_error_codes) [
    | some c ↦ escrow c
    | none ↦ plain raw
  ]
]
