-- ===== src/Buyer.antt =====
-- src/acmp/buyer.py: what a response means to the caller of `request`, the tables that the reader
-- loop works on, `invoke`, `cancel` and `send_input_chunk`.
pub mod Reader
pub mod Chunks
pub mod Deadline
use sdk_reference.Prelude.{
  ℕ, suc, String, Bool, true, false, not, ◌&&◌, ◌||◌, Option, none, some, List, [], ◌∷◌, ◌++◌, ◌==◌,
  if◌then◌else◌,
}
use sdk_reference.Prelude.Int.{ℤ, pos, eqb_ℤ}
use sdk_reference.Prelude.Dict.{Dict, lookup, insert, delete}
use sdk_reference.Prelude.Sets.{has, add, discard}
use sdk_reference.Json.{Json, null, bool, num, str, arr, obj, nil, cons, end, field, Object}
use sdk_reference.Errors.{ErrorCode, layer1, error_value, int_value, AcmpError, acmp_error}
use sdk_reference.Errors.Wire.{from_jsonrpc}
use sdk_reference.Exec.{Outcome, ok, raised, fault, type_error, runtime_error, bind}
use sdk_reference.Access.{as_num, as_str, as_bool, as_obj, item_as, get_as, get_or_as}
use sdk_reference.Access.Optional.{put, attribute}
use sdk_reference.Messages.{make_request, make_notification}
use sdk_reference.Messages.Task.{Payload, as_payload, Task, to_params, Result, result_from_dict}
use sdk_reference.TaskContext.{chunk_params}

-- `raise AcmpError.from_jsonrpc(error)`
abbrev pub raise_error : Json → Outcome Object
raise_error error = bind (as_obj error) λ d. bind (from_jsonrpc d) raised

abbrev pub result_unless : Object → Option Json → Outcome Object
result_unless response (some error) = raise_error error
result_unless response none = item_as as_obj response "result"

-- An error response raises; any other must carry a result.
unfoldable pub read_response : Object → Outcome Object
read_response response = result_unless response (lookup "error" response)

-- The future of a request is resolved by the message that answers it. Where none arrives before the
-- channel closes, it ends with `TransportClosed`.
unfoldable pub await_response : List Object → Outcome Object
unfolding read_response
await_response [] = fault (runtime_error "channel closed")
await_response (response ∷ _) = read_response response

-- A future of `_pending`; the caller that awaits it keeps it when the table no longer does.
pub data Future : Type 0 where
  waiting : Future
  resolved : Object → Future
  channel_closed : Future

-- Which callbacks are registered for a task.
pub record Listener : Type 0 where
  pub on_chunk : Bool
  pub on_heartbeat : Bool

-- `pending` are the keys of `_pending`.
pub record Buyer : Type 0 where
  pub futures : Dict Future
  pub pending : List String
  pub listeners : Dict Listener
  pub input_seq : Dict ℕ

-- A call of a callback.
pub data Called : Type 0 where
  chunk_call : String → Payload → ℤ → Bool → Called
  heartbeat_call : String → Option ℤ → Option String → Called

-- `future.set_result(message)`, unless the future is done.
abbrev pub settle : Future → Future → Future
settle waiting f = f
settle (resolved m) f = resolved m
settle channel_closed f = channel_closed

abbrev pub settle_at : String → Future → Option Future → Buyer → Buyer
settle_at id f none b = b
settle_at id f (some g) b = record b { futures = insert id (settle g f) b.futures }

-- `future = self._pending.pop(req_id, None)`, and its result.
unfoldable pub resolve : String → Object → Buyer → Buyer
resolve id message b =
    let b' : Buyer = record b { pending = discard id b.pending } in
    if has id b.pending then settle_at id (resolved message) (lookup id b.futures) b' else b

-- The id of a response as a key of `_pending`: a falsy one is none, a number or a flag is no key of
-- it, and a list or an object cannot be hashed.
abbrev pub response_id : Option Json → Outcome (Option String)
response_id none = ok none
response_id (some (str s)) = if s == "" then ok none else ok (some s)
response_id (some null) = ok none
response_id (some (bool b)) = ok none
response_id (some (num n)) = ok none
response_id (some (arr nil)) = ok none
response_id (some (arr (cons v vs))) = fault type_error
response_id (some (obj end)) = ok none
response_id (some (obj (field k v d))) = fault type_error

abbrev pub resolve_id : Option String → Object → Buyer → Buyer
resolve_id none message b = b
resolve_id (some id) message b = resolve id message b

-- `_dispatch_notification` for a task that is listened to.
abbrev pub call_listener : String → String → Object → Listener → Outcome (List Called)
call_listener method task_id params l =
    if method == "acmp/streamChunk" && l.on_chunk
    then bind (item_as as_payload params "chunk") (λ chunk.
      bind (item_as as_num params "seq") (λ seq.
        bind (get_or_as as_bool false params "final")
          (λ final. ok (chunk_call task_id chunk seq final ∷ []))))
    else if method == "acmp/heartbeat" && l.on_heartbeat
    then bind (get_as as_num params "progress") (λ progress.
      bind (get_as as_str params "detail")
        (λ detail. ok (heartbeat_call task_id progress detail ∷ [])))
    else ok []

abbrev pub notify : Object → String → Object → Option Listener → Outcome (List Called)
notify message task_id params none = ok []
notify message task_id params (some l) =
    bind (item_as as_str message "method") λ method. call_listener method task_id params l

unfoldable pub dispatch_notification : Object → Buyer → Outcome (List Called)
dispatch_notification message b = bind (get_or_as as_obj [] message "params") λ params.
    bind (get_or_as as_str "" params "task_id")
      λ task_id. notify message task_id params (lookup task_id b.listeners)

abbrev pub is_some : Option Json → Bool
is_some none = false
is_some (some v) = true

-- One turn of the reader loop.
unfoldable pub read_message : Object → Buyer → Outcome (List Called × Buyer)
read_message message b =
    if not (is_some (lookup "id" message)) && is_some (lookup "method" message)
    then bind (dispatch_notification message b) (λ called. ok (called, b))
    else bind (response_id (lookup "id" message)) (λ id. ok ([], resolve_id id message b))

-- The reader loop on the messages that arrive, unless one of them stops it.
unfoldable pub read_all : List Object → Buyer → Outcome (List Called × Buyer)
read_all [] b = ok ([], b)
read_all (m ∷ ms) b =
    bind (read_message m b)
      λ first. bind (read_all ms first.1) λ later. ok (first.0 ++ later.0, later.1)

-- The futures of `request` end with `TransportClosed`, where they are not done.
unfoldable pub close_pending : List String → Buyer → Buyer
close_pending [] b = b
close_pending (id ∷ ids) b = close_pending ids (settle_at id channel_closed (lookup id b.futures) b)

-- `request` up to where it awaits.
unfoldable pub open_request : String → Object → String → Buyer → List Object × Buyer
open_request method params id b = (
  make_request method params id ∷ [],
  record b { futures = insert id waiting b.futures; pending = add id b.pending },
)

-- The rest of `request`: the future is done, or the time is up.
abbrev pub timed_out : String → ℤ → AcmpError
timed_out method timeout_ms =
    acmp_error (layer1 ErrorCode.timeout) none
      (some (("method", str method) ∷ ("timeout_ms", num timeout_ms) ∷ []))

abbrev pub future_outcome : String → ℤ → Future → Outcome Object
future_outcome method timeout_ms (resolved response) = read_response response
future_outcome method timeout_ms channel_closed = fault (runtime_error "channel closed")
future_outcome method timeout_ms waiting = raised (timed_out method timeout_ms)

abbrev pub finish_request : String → Buyer → Buyer
finish_request id b = record b { pending = discard id b.pending }

unfoldable pub cancel : String → Option String → List Object
cancel task_id reason =
    make_notification "acmp/cancel"
      (put "reason" (attribute str reason) (("task_id", str task_id) ∷ []))
    ∷ []

abbrev pub listen : String → Bool → Bool → Buyer → Buyer
listen task_id on_chunk on_heartbeat b =
    if on_chunk || on_heartbeat
    then record b {
      listeners =
          insert task_id (record { on_chunk = on_chunk; on_heartbeat = on_heartbeat }) b.listeners;
    }
    else b

-- `invoke` up to where it awaits.
unfoldable pub open_invoke : Task → Bool → Bool → String → Buyer → List Object × Buyer
open_invoke t on_chunk on_heartbeat id b =
    open_request "acmp/invoke" (to_params t) id (listen t.task_id on_chunk on_heartbeat b)

abbrev pub after_error : String → AcmpError → List Object
after_error task_id e =
    if eqb_ℤ (int_value e.code) (error_value ErrorCode.timeout)
    then cancel task_id (some "timeout_ms exceeded")
    else []

abbrev pub invoke_result : String → Outcome Object → List Object × Outcome Result
invoke_result task_id (ok result) = ([], result_from_dict result)
invoke_result task_id (raised e) = (after_error task_id e, raised e)
invoke_result task_id (fault x) = ([], fault x)

-- The rest of `invoke`: what it sends, what it answers, and the buyer after it.
unfoldable pub close_invoke :
    Task → String → Future → Buyer → (List Object × Outcome Result) × Buyer
close_invoke t id future b =
    let b' = finish_request id b in
    (
      invoke_result t.task_id (future_outcome "acmp/invoke" t.timeout_ms future),
      record b' { listeners = delete t.task_id b'.listeners },
    )

abbrev pub next_seq : Option ℕ → ℕ
next_seq none = 0
next_seq (some n) = n

unfoldable pub send_input_chunk : String → Payload → Bool → Buyer → List Object × Buyer
send_input_chunk task_id chunk final b =
    let seq = next_seq (lookup task_id b.input_seq) in
    let counted = insert task_id (suc seq) b.input_seq in
    (
      make_notification "acmp/inputChunk" (chunk_params task_id (pos seq) chunk final) ∷ [],
      record b { input_seq = if final then delete task_id counted else counted },
    )
