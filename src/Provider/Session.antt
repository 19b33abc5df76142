-- ===== src/Provider/Session.antt =====
-- `serve_forever` of src/acmp/provider.py: each message is dispatched as a task of its own, so while
-- one `acmp/invoke` waits, other messages and other runs go on between its parts. The state is the
-- provider and the runs that are still open.
mod Returns
mod Cached
pub mod Keeping
use sdk_reference.Prelude.{ℕ, zero, suc, String, Bool, Option, none, some, List, [], ◌∷◌, ◌++◌}
use sdk_reference.Prelude.Int.{ℤ}
use sdk_reference.Json.{Json, Object}
use sdk_reference.Exec.{Outcome, ok, raised, fault, Fault}
use sdk_reference.Messages.Task.{Payload, Task}
use sdk_reference.TaskContext.{TaskContext}
use sdk_reference.Provider.{Capability, Provider, handle_offer_request, handle_accept}
use sdk_reference.Provider.Invoke.{
  Arrival, replayed, parsed, receive_invoke, admit, HandlerEnd, begin_parsed, end_invoke,
}
use sdk_reference.Provider.Inputs.{register, handle_cancel, handle_input_chunk}

-- A call of `_handle_invoke` that has not ended: it waits for the escrow, or for the handler.
pub data Run : Type 0 where
  checking : (req_id : Json) → (task_id : String) → Outcome Task → Run
  handling : (req_id : Json) → Capability → Task → Run

pub record Session : Type 0 where
  pub provider : Provider
  pub runs : List Run

-- What happens next. `checked i answer` and `ended i ctx end` are about the open run at position `i`:
-- the escrow has answered, and the handler has ended and left its context in the state `ctx`. A message
-- of another method changes nothing and is no event.
pub data Event : Type 0 where
  invoked : Object → Event
  checked : ℕ → Outcome Bool → Event
  ended : ℕ → TaskContext → HandlerEnd → Event
  cancelled : Object → Event
  input_came : Object → Event
  offering : ℤ → String → Object → Event
  accepting : ℤ → Object → Event
  registered : String → ℤ → ℤ → Option ℤ → ℕ → Event

abbrev pub nth : ℕ → List Run → Option Run
nth i [] = none
nth zero (r ∷ rs) = some r
nth (suc i) (r ∷ rs) = nth i rs

abbrev pub without : ℕ → List Run → List Run
without i [] = []
without zero (r ∷ rs) = rs
without (suc i) (r ∷ rs) = r ∷ without i rs

-- A request that is not answered at once opens a run.
abbrev pub open_run : Outcome Arrival → Session → Session
open_run (ok (parsed req_id task_id t)) s = record s { runs = checking req_id task_id t ∷ s.runs }
open_run _ s = s

-- The provider after a notification, which an exception leaves as it was.
abbrev pub noticed : Outcome Provider → Session → Session
noticed (ok p) s = record s { provider = p }
noticed _ s = s

-- An admitted run waits for its handler.
abbrev pub admitted : Json → Task → Outcome Capability → List Run
admitted req_id t (ok cap) = handling req_id cap t ∷ []
admitted req_id t _ = []

module _ (budget_text : String → ℤ → String) (fault_text : Fault → String)
    (result_hash : Payload → String) where
  abbrev pub still_open : Json → Outcome Task → Outcome Bool → Provider → List Run
  still_open req_id (ok t) answer p = admitted req_id t (admit budget_text answer t p)
  still_open req_id _ answer p = []

  -- The checks of a run have ended.
  abbrev pub check_run : ℕ → Outcome Bool → Option Run → Session → Session
  check_run i answer (some (checking req_id task_id t)) s = record {
    provider = (begin_parsed fault_text budget_text req_id task_id t answer s.provider).1;
    runs = still_open req_id t answer s.provider ++ without i s.runs;
  }
  check_run i answer _ s = s

  -- The handler of a run has ended.
  abbrev pub end_run : ℕ → TaskContext → HandlerEnd → Option Run → Session → Session
  end_run i ctx end (some (handling req_id cap t)) s = record {
    provider =
        (end_invoke fault_text result_hash req_id cap (record ctx { task = t }) end s.provider).1;
    runs = without i s.runs;
  }
  end_run i ctx end _ s = s

  unfoldable pub step : Event → Session → Session
  step (invoked message) s = open_run (receive_invoke message s.provider) s
  step (checked i answer) s = check_run i answer (nth i s.runs) s
  step (ended i ctx end) s = end_run i ctx end (nth i s.runs) s
  step (cancelled message) s = noticed (handle_cancel message s.provider) s
  step (input_came message) s = noticed (handle_input_chunk message s.provider) s
  step (offering now fresh_id message) s = record s {
    provider = (handle_offer_request budget_text fault_text now fresh_id message s.provider).1;
  }
  step (accepting now message) s = record s {
    provider = (handle_accept fault_text now message s.provider).1;
  }
  step (registered name price_cu tokens_per_call latency_sla_ms arity) s = record s {
    provider = register name price_cu tokens_per_call latency_sla_ms arity s.provider;
  }

  unfoldable pub steps : List Event → Session → Session
  steps [] s = s
  steps (e ∷ es) s = steps es (step e s)
