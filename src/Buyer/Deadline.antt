-- ===== src/Buyer/Deadline.antt =====
-- How `invoke` ends.
use sdk_reference.Prelude.{String, ◌≡◌, refl, ap, ◌∙◌, false, none, some, [], eq_refl, arith}
use sdk_reference.Prelude.Dict.{lookup, lookup-delete}
use sdk_reference.Prelude.Sets.{has, has-discard}
use sdk_reference.Json.{Json, str, Object, entries-fields}
use sdk_reference.Errors.{acmp_error, int_value}
use sdk_reference.Exec.{ok, raised, fault, runtime_error}
use sdk_reference.Access.{as_obj, item, item_as}
use sdk_reference.Messages.{make_result_response}
use sdk_reference.Messages.Task.{Task, Result, result_dict}
use sdk_reference.Messages.Task.RoundTrip.{result_from_dict-result_dict}
use sdk_reference.Buyer.{
  Future, waiting, resolved, channel_closed, Buyer, read_response, timed_out, cancel, close_invoke,
}

-- After `invoke` nothing of the task is left in the tables.
abbrev pub IsClear : Task → String → Buyer → Type 0
IsClear t id b = (has id b.pending ≡ false) × (lookup t.task_id b.listeners ≡ none)

close_invoke-IsClear :
    (t : Task) (id : String) (f : Future) (b : Buyer) → IsClear t id (close_invoke t id f b).1
unfolding close_invoke
close_invoke-IsClear t id f b = (
  ground (arith, has-discard id id b.pending, eq_refl id),
  lookup-delete t.task_id t.task_id b.listeners ∙ rw (eq_refl t.task_id) refl,
)

read_response-result :
    (req_id : Json) (content : Object)
    → read_response (make_result_response req_id content) ≡ ok content
unfolding read_response make_result_response item_as item lookup as_obj
read_response-result req_id content = rw (entries-fields content) refl

close_invoke-deadline :
    (t : Task) (id : String) (b : Buyer)
    → (close_invoke t id waiting b).0 ≡ (
      cancel t.task_id (some "timeout_ms exceeded"),
      raised (timed_out "acmp/invoke" t.timeout_ms),
    )
unfolding close_invoke acmp_error int_value
close_invoke-deadline t id b = refl

close_invoke-result :
    (t : Task) (id : String) (r : Result) (b : Buyer)
    → (close_invoke t id (resolved (make_result_response (str id) (result_dict r))) b).0
      ≡ ([], ok r)
unfolding close_invoke
close_invoke-result t id r b =
    rw (read_response-result (str id) (result_dict r))
      (ap (λ o. ([], o)) (result_from_dict-result_dict r))

close_invoke-closed :
    (t : Task) (id : String) (b : Buyer)
    → (close_invoke t id channel_closed b).0 ≡ ([], fault (runtime_error "channel closed"))
unfolding close_invoke
close_invoke-closed t id b = refl

-- An `invoke` that is answered with a result returns it and sends nothing more; one whose time is up
-- sends the cancellation of its task and raises TIMEOUT; one whose channel closes raises. Whatever
-- the future ends with, the request and the callbacks of the task are taken out of the tables.
pub close_invoke_ends :
    (t : Task) (id : String) (b : Buyer)
    → ((r : Result)
        → (close_invoke t id (resolved (make_result_response (str id) (result_dict r))) b).0
          ≡ ([], ok r))
      × ((close_invoke t id waiting b).0 ≡ (
        cancel t.task_id (some "timeout_ms exceeded"),
        raised (timed_out "acmp/invoke" t.timeout_ms),
      ))
      × ((close_invoke t id channel_closed b).0 ≡ ([], fault (runtime_error "channel closed")))
      × ((f : Future) → IsClear t id (close_invoke t id f b).1)
close_invoke_ends t id b = (
  (λ r. close_invoke-result t id r b),
  close_invoke-deadline t id b,
  close_invoke-closed t id b,
  (λ f. close_invoke-IsClear t id f b),
)
