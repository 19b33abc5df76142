-- ===== src/Escrow/Agent/Serving.antt =====
-- The agent's whole service as a rule: a property of the agent holds after any arrivals if every
-- handler keeps it.
use sdk_reference.Prelude.{
  String, ◌≡◌, refl, Bool-cases, inl, inr, Option, none, some, List, [], ◌∷◌, arith,
}
use sdk_reference.Prelude.Dict.{lookup}
use sdk_reference.Prelude.Sets.{Each, has}
use sdk_reference.Json.{Json, null, bool, num, str, arr, obj, Object}
use sdk_reference.Exec.{lift-keeps}
use sdk_reference.Access.{as_obj, get_or_as}
use sdk_reference.Escrow.Cell.{Moment}
use sdk_reference.Escrow.Operations.Mutation.{
  Mutation, binding, releasing, reclaiming, claiming, disputing, operation,
}
use sdk_reference.Escrow.Agent.{
  Agent, handle_op, handle_lock, handle_bind, handle_release, handle_reclaim, handle_claim,
  handle_dispute, handle_status,
}
use sdk_reference.Escrow.Agent.Dispatch.{
  Printing, Arrival, Handler, handler_of, find_handler, answer, handled, call_handler, dispatched,
  dispatch, read, ended_after, serve_from, serve,
}

abbrev pub handler : Mutation → Handler
handler binding = handle_bind
handler releasing = handle_release
handler reclaiming = handle_reclaim
handler claiming = handle_claim
handler disputing = handle_dispute

pub handler-handle_op :
    (m : Mutation) (at : Moment) (party : String) (params : Object)
    → handler m at party params ≡ handle_op (operation m at party params) params
unfolding handle_bind handle_release handle_reclaim handle_claim handle_dispute
handler-handle_op binding at party params = refl
handler-handle_op releasing at party params = refl
handler-handle_op reclaiming at party params = refl
handler-handle_op claiming at party params = refl
handler-handle_op disputing at party params = refl

module _ (P : Agent → Type 0) where
  -- A handler that keeps the property, called at this moment by this party.
  record Keeps (at : Moment) (party : String) (h : Handler) : Type 0 where
    keeps : (params : Object) (a : Agent) → P a → P (h at party params a).1

  -- So do the handlers of all seven methods.
  pub record AllKeep (at : Moment) (party : String) : Type 0 where
    pub lock : (params : Object) (a : Agent) → P a → P (handle_lock at party params a).1
    pub mutate :
        (m : Mutation) (params : Object) (a : Agent)
        → P a
        → P (handle_op (operation m at party params) params a).1
    pub status : (params : Object) (a : Agent) → P a → P (handle_status at party params a).1

  module _ (at : Moment) (party : String) (all : AllKeep at party) where
    mutation-Keeps : (m : Mutation) → Keeps at party (handler m)
    mutation-Keeps m = record {
      keeps = λ params a h. rw (handler-handle_op m at party params) (all.mutate m params a h);
    }

    lock-Keeps : Keeps at party handle_lock
    lock-Keeps = record { keeps = all.lock }

    status-Keeps : Keeps at party handle_status
    status-Keeps = record { keeps = all.status }

    abbrev IfAny : Option Handler → Type 0
    IfAny none = Unit
    IfAny (some h) = Keeps at party h

    handler_of-IfAny : (method : String) → IfAny (handler_of method)
    unfolding handler_of
    handler_of-IfAny method = ground (
      arith,
      lock-Keeps,
      mutation-Keeps binding,
      mutation-Keeps releasing,
      mutation-Keeps reclaiming,
      mutation-Keeps claiming,
      mutation-Keeps disputing,
      status-Keeps,
    )

    module _ (print : Printing) (message : Object) (a : Agent) (p : P a) where
      call_handler-keeps :
          (h : Handler) → Keeps at party h → P (call_handler print h at party message a).1
      unfolding call_handler
      call_handler-keeps h k =
          lift-keeps P (get_or_as as_obj [] message "params") _ a p (λ params _. k.keeps params a p)

      answer-keeps :
          (h : Handler) (id : Option Json)
          → Keeps at party h
          → P (answer print h at party message id a).1
      answer-keeps h none k = p
      answer-keeps h (some null) k = p
      answer-keeps h (some (bool x)) k = call_handler-keeps h k
      answer-keeps h (some (num n)) k = call_handler-keeps h k
      answer-keeps h (some (str t)) k = call_handler-keeps h k
      answer-keeps h (some (arr vs)) k = call_handler-keeps h k
      answer-keeps h (some (obj d)) k = call_handler-keeps h k

      handled-keeps : (h : Option Handler) → IfAny h → P (handled print h at party message a).1
      handled-keeps none k = p
      handled-keeps (some h) k = answer-keeps h (lookup "id" message) k

      dispatched-keeps :
          (method : Option Json) → P (dispatched print (find_handler method) at party message a).1
      dispatched-keeps none = p
      dispatched-keeps (some (str method)) =
          handled-keeps (handler_of method) (handler_of-IfAny method)
      dispatched-keeps (some null) = p
      dispatched-keeps (some (bool b)) = p
      dispatched-keeps (some (num n)) = p
      dispatched-keeps (some (arr vs)) = p
      dispatched-keeps (some (obj d)) = p

      dispatch-keeps : P (dispatch print at party message a).1
      unfolding dispatch
      dispatch-keeps = dispatched-keeps (lookup "method" message)

  module _ (print : Printing) (Allowed : Arrival → Type 0)
      (all : (m : Arrival) → Allowed m → AllKeep m.at m.party) where
    read-keeps :
        (ended : List String) (m : Arrival)
        → Allowed m
        → (a : Agent) → P a
        → P (read print ended m a).1
    unfolding read
    read-keeps ended m k a p = elim (Bool-cases (has m.connection ended)) [
      | inl w ↦ rw w p
      | inr w ↦ rw w (dispatch-keeps m.at m.party (all m k) print m.message a p)
    ]

    serve_from-keeps :
        (ended : List String) (ms : List Arrival)
        → Each Allowed ms
        → (a : Agent) → P a
        → P (serve_from print ended ms a).1
    unfolding serve_from
    serve_from-keeps ended [] k a p = p
    serve_from-keeps ended (m ∷ ms) k a p =
        serve_from-keeps (ended_after print m.connection (read print ended m a).0 ended) ms k.1
          (read print ended m a).1 (read-keeps ended m k.0 a p)

    pub serve-keeps :
        (ms : List Arrival) → Each Allowed ms → (a : Agent) → P a → P (serve print ms a).1
    serve-keeps = serve_from-keeps []
