-- ===== src/Provider/Invoke/Replay.antt =====
-- The result cache of `_handle_invoke` in src/acmp/provider.py.
use sdk_reference.Prelude.{String, ◌≡◌, refl, some, eq_refl}
use sdk_reference.Prelude.Dict.{lookup, insert, lookup-insert}
use sdk_reference.Json.{Json, str, Object, entries-fields}
use sdk_reference.Exec.{Outcome, ok, Fault}
use sdk_reference.Access.{as_str, as_obj, item, item_as}
use sdk_reference.Access.Optional.{put_if_set, lookup-put}
use sdk_reference.Messages.{make_request}
use sdk_reference.Prelude.{List}
use sdk_reference.Prelude.Int.{ℤ}
use sdk_reference.Prelude.Sets.{Each}
use sdk_reference.Messages.Task.{Payload, Task, to_params}
use sdk_reference.Provider.Session.{Session, Event, invoked, step, steps}
use sdk_reference.Provider.Session.Keeping.{Apart, steps-Settled}
use sdk_reference.Provider.{Cached, Provider}
use sdk_reference.Provider.Invoke.{replay, replayed, receive_invoke, cached_outcome, finish_invoke}

-- The id of a task, as a request carries it.
task_id-to_params : (t : Task) → item_as as_str (to_params t) "task_id" ≡ ok t.task_id
unfolding to_params put_if_set item_as item lookup as_str
task_id-to_params t = simp (lookup-put) refl

receive-cached :
    (t : Task) (req_id : String) (c : Cached) (p : Provider)
    → lookup t.task_id p.result_cache ≡ some c
    → receive_invoke (make_request "acmp/invoke" (to_params t) req_id) p
      ≡ ok (replayed (replay (str req_id) c))
unfolding receive_invoke make_request item item_as lookup as_obj
receive-cached t req_id c p h =
    rw (entries-fields (to_params t)) (rw (task_id-to_params t) (rw h refl))

-- Once a run of a task has ended, with a result or with an error, and no other run of that task is
-- open, its outcome is kept: after whatever further messages, checks and ends of handlers, in any
-- order, a request with the same `task_id` is answered from the cache, under its own id and with the
-- content of that outcome, and it changes nothing, so that the task is not run again.
pub retry-replayed :
    (budget_text : String → ℤ → String) (fault_text : Fault → String)
    (result_hash : Payload → String) (first : Json) (retry : String) (t : Task)
    (outcome : Outcome Object) (s : Session)
    → Each (Apart t.task_id) s.runs
    → (events : List Event)
    → let p = (finish_invoke fault_text first t.task_id outcome s.provider).1 in
      let s' = steps budget_text fault_text result_hash events (record s { provider = p }) in
      let request = make_request "acmp/invoke" (to_params t) retry in
      (receive_invoke request s'.provider
        ≡ ok (replayed (replay (str retry) (cached_outcome fault_text outcome))))
      × (step budget_text fault_text result_hash (invoked request) s' ≡ s')
unfolding finish_invoke step
retry-replayed budget_text fault_text result_hash first retry t outcome s apart events =
    let c = cached_outcome fault_text outcome in
    let p : Provider = record s.provider {
      result_cache = insert t.task_id c s.provider.result_cache;
    } in
    let start : Session = record s { provider = p } in
    let kept =
      steps-Settled t.task_id c budget_text fault_text result_hash events start
        (record { there = rw (lookup-insert, eq_refl) refl; apart = apart }) in
    let found =
      receive-cached t retry c (steps budget_text fault_text result_hash events start).provider
        kept.there in
    (found, rw found refl)
