-- ===== src/Escrow/Agent/Replies.antt =====
-- How `_dispatch` of src/acmp/escrow.py answers.
use sdk_reference.Prelude.{String, ◌≡◌, ◌≢◌, refl, Option, none, some, List, [], ◌∷◌}
use sdk_reference.Prelude.Dict.{lookup}
use sdk_reference.Json.{Json, null, bool, num, str, arr, obj, Object}
use sdk_reference.Exec.{Outcome, ok, raised, fault, type_error}
use sdk_reference.Messages.{make_result_response, make_error_response}
use sdk_reference.Escrow.Cell.{Moment}
use sdk_reference.Escrow.Agent.{Agent}
use sdk_reference.Escrow.Agent.Dispatch.{
  Printing, Handler, handler_of, find_handler, sent_by, respond, unknown_method, call_handler,
  answer, handled, dispatched, dispatch,
}

-- One reply, under the request's id.
pub record Answered (id : Json) (sent : List Object) : Type 0 where
  pub reply : Object
  pub alone : sent ≡ reply ∷ []
  pub with_id : lookup "id" reply ≡ some id

-- A method that Python can look up in a dict.
abbrev pub Hashable : Option Json → Type 0
Hashable (some (arr vs)) = ⊥
Hashable (some (obj d)) = ⊥
Hashable _ = Unit

module _ (print : Printing) where
  respond-Answered : (id : Json) (o : Outcome Object) → Answered id (respond print id o ∷ [])
  unfolding respond make_result_response make_error_response lookup
  respond-Answered id (ok r) = record { reply = _; alone = refl; with_id = refl }
  respond-Answered id (raised e) = record { reply = _; alone = refl; with_id = refl }
  respond-Answered id (fault x) = record { reply = _; alone = refl; with_id = refl }

  unknown_method-Answered :
      (id : Json) (method : Option Json) → Answered id (unknown_method print (some id) method)
  unfolding unknown_method make_error_response lookup
  unknown_method-Answered id method = record { reply = _; alone = refl; with_id = refl }

  module _ (at : Moment) (party : String) (message : Object) (a : Agent) where
    answer-Answered :
        (h : Handler) (id : Json)
        → id ≢ null
        → Answered id (answer print h at party message (some id) a).0
    answer-Answered h null n = absurd (n refl)
    answer-Answered h (bool b) n =
        respond-Answered (bool b) (call_handler print h at party message a).0
    answer-Answered h (num k) n =
        respond-Answered (num k) (call_handler print h at party message a).0
    answer-Answered h (str s) n =
        respond-Answered (str s) (call_handler print h at party message a).0
    answer-Answered h (arr vs) n =
        respond-Answered (arr vs) (call_handler print h at party message a).0
    answer-Answered h (obj d) n =
        respond-Answered (obj d) (call_handler print h at party message a).0

    handled-Answered :
        (h : Option Handler) (id : Json)
        → id ≢ null
        → lookup "id" message ≡ some id
        → Answered id (handled print h at party message a).0
    handled-Answered none id n e = rw e (unknown_method-Answered id (lookup "method" message))
    handled-Answered (some h) id n e = rw e (answer-Answered h id n)

    handled-silent :
        (h : Option Handler)
        → lookup "id" message ≡ none
        → handled print h at party message a ≡ ([], a)
    unfolding unknown_method
    handled-silent none e = rw e refl
    handled-silent (some h) e = rw e refl

    Answered-dispatched :
        (method : Option Json) (id : Json)
        → Hashable method
        → id ≢ null
        → lookup "id" message ≡ some id
        → Answered id (sent_by (dispatched print (find_handler method) at party message a).0)
    Answered-dispatched none id k n e = handled-Answered none id n e
    Answered-dispatched (some (str m)) id k n e = handled-Answered (handler_of m) id n e
    Answered-dispatched (some null) id k n e = handled-Answered none id n e
    Answered-dispatched (some (bool b)) id k n e = handled-Answered none id n e
    Answered-dispatched (some (num j)) id k n e = handled-Answered none id n e
    Answered-dispatched (some (arr vs)) id k n e = absurd k
    Answered-dispatched (some (obj d)) id k n e = absurd k

    silent :
        (h : Option Handler)
        → lookup "id" message ≡ none
        → dispatched print (ok h) at party message a ≡ (ok [], a)
    silent h e = rw (handled-silent h e) refl

    dispatched-silent :
        (method : Option Json)
        → Hashable method
        → lookup "id" message ≡ none
        → dispatched print (find_handler method) at party message a ≡ (ok [], a)
    dispatched-silent none k e = silent none e
    dispatched-silent (some (str m)) k e = silent (handler_of m) e
    dispatched-silent (some null) k e = silent none e
    dispatched-silent (some (bool b)) k e = silent none e
    dispatched-silent (some (num j)) k e = silent none e
    dispatched-silent (some (arr vs)) k e = absurd k
    dispatched-silent (some (obj d)) k e = absurd k

    dispatched-fault :
        (method : Option Json)
        → ¬ Hashable method
        → dispatched print (find_handler method) at party message a ≡ (fault type_error, a)
    dispatched-fault none k = absurd (k tt)
    dispatched-fault (some (str m)) k = absurd (k tt)
    dispatched-fault (some null) k = absurd (k tt)
    dispatched-fault (some (bool b)) k = absurd (k tt)
    dispatched-fault (some (num j)) k = absurd (k tt)
    dispatched-fault (some (arr vs)) k = refl
    dispatched-fault (some (obj d)) k = refl

    -- A message whose method is neither a list nor an object, or is absent, and whose id is there and
    -- not null is answered by exactly one message, which carries that id, whatever its parameters, and
    -- whatever the handler does: a result, an error, or another exception. Without an id it is not
    -- answered and changes nothing. A message whose method is a list or an object is never answered,
    -- with an id or without: the dispatch ends in a `TypeError` and changes nothing.
    pub dispatch_replies :
        let method = lookup "method" message in
        ((id : Json)
          → Hashable method
          → id ≢ null
          → lookup "id" message ≡ some id
          → Answered id (sent_by (dispatch print at party message a).0))
        × (Hashable method
            → lookup "id" message ≡ none
            → dispatch print at party message a ≡ (ok [], a))
        × (¬ Hashable method → dispatch print at party message a ≡ (fault type_error, a))
    unfolding dispatch
    dispatch_replies = (
      Answered-dispatched (lookup "method" message),
      dispatched-silent (lookup "method" message),
      dispatched-fault (lookup "method" message),
    )
