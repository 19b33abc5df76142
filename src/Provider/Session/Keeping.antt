-- ===== src/Provider/Session/Keeping.antt =====
-- The result cache of src/acmp/provider.py over a session: what is cached for a task stays, while no
-- other run of that task is open.
use sdk_reference.Prelude.{
  Bool, Option-cases, inl, inr, ℕ, zero, suc, String, ◌≡◌, ◌≢◌, refl, sym, ◌∙◌, Option, none, some,
  List, [], ◌∷◌, ◌++◌, arith,
}
use sdk_reference.Prelude.Int.{ℤ}
use sdk_reference.Prelude.Dict.{lookup, delete}
use sdk_reference.Prelude.Sets.{Each}
use sdk_reference.Json.{Json, Object}
use sdk_reference.Exec.{Outcome, ok, raised, fault, Fault}
use sdk_reference.Access.{as_str, as_obj, item, item_as}
use sdk_reference.Messages.Task.{Payload, Task}
use sdk_reference.TaskContext.{TaskContext}
use sdk_reference.Provider.{Capability, Cached, Provider}
use sdk_reference.Provider.Invoke.{
  Arrival, replayed, parsed, arrival, receive_invoke, admit, HandlerEnd, conclude,
}
use sdk_reference.Provider.Inputs.{handle_cancel, handle_input_chunk}
use sdk_reference.Provider.Session.{
  Run, checking, handling, Session, Event, invoked, checked, ended, cancelled, input_came, offering,
  accepting, registered, nth, without, open_run, noticed, admitted, still_open, check_run, end_run,
  step, steps,
}
use sdk_reference.Provider.Session.Returns.{Gives, Gives-bind, Gives-ok, from_params-task_id}
use sdk_reference.Provider.Session.Cached.{
  InCache, finish_invoke-InCache, handle_cancel-InCache, handle_input_chunk-InCache,
  handle_accept-InCache, handle_offer_request-InCache, begin_parsed-InCache,
}
use sdk_reference.Provider.Inputs.{register}

-- A run of another task.
abbrev pub Apart : String → Run → Type 0
Apart id (checking req_id task_id t) = (task_id ≢ id) × ((u : Task) → t ≡ ok u → u.task_id ≢ id)
Apart id (handling req_id cap t) = t.task_id ≢ id

abbrev IfSome : (Run → Type 0) → Option Run → Type 0
IfSome P none = Unit
IfSome P (some r) = P r

module _ (P : Run → Type 0) where
  nth-Each : (i : ℕ) (rs : List Run) → Each P rs → IfSome P (nth i rs)
  nth-Each i [] h = tt
  nth-Each zero (r ∷ rs) h = h.0
  nth-Each (suc i) (r ∷ rs) h = nth-Each i rs h.1

  without-Each : (i : ℕ) (rs : List Run) → Each P rs → Each P (without i rs)
  without-Each i [] h = tt
  without-Each zero (r ∷ rs) h = h.1
  without-Each (suc i) (r ∷ rs) h = (h.0, without-Each i rs h.1)

  append-Each : (rs ss : List Run) → Each P rs → Each P ss → Each P (rs ++ ss)
  append-Each [] ss h k = k
  append-Each (r ∷ rs) ss h k = (h.0, append-Each rs ss h.1 k)

module _ (id : String) (c : Cached) where
  -- The outcome is there, and no other run of the task is open.
  pub record Settled (s : Session) : Type 0 where
    pub there : InCache id c s.provider
    pub apart : Each (Apart id) s.runs

  -- A request for the task itself is replayed, so what opens is a run of another task.
  abbrev Opens : Arrival → Type 0
  Opens (replayed sent) = Unit
  Opens (parsed req_id task_id t) = Apart id (checking req_id task_id t)

  arrival-Opens :
      (req_id : Json) (task_id : String) (params : Object) (p : Provider)
      → item_as as_str params "task_id" ≡ ok task_id
      → InCache id c p
      → Opens (arrival req_id task_id params (lookup task_id p.result_cache))
  arrival-Opens req_id task_id params p named h =
      elim (Option-cases (lookup task_id p.result_cache)) [
        | inl absent ↦
            let other : task_id ≢ id = λ same. grind (arith, absent, h, same) in
            rw absent (
              other,
              λ u e same. other (sym ((from_params-task_id params task_id named).gives u e) ∙ same),
            )
        | inr (old, found) ↦ rw found tt
      ]

  receive_invoke-Opens :
      (message : Object) (p : Provider) → InCache id c p → Gives Opens (receive_invoke message p)
  unfolding receive_invoke
  receive_invoke-Opens message p h = Gives-bind _ (item message "id") _ λ req_id _.
      Gives-bind _ (item_as as_obj message "params") _ λ params _.
        Gives-bind _ (item_as as_str params "task_id") _
          λ task_id named. Gives-ok _ _ (arrival-Opens req_id task_id params p named h)

  open_run-Settled :
      (o : Outcome Arrival) (s : Session) → Gives Opens o → Settled s → Settled (open_run o s)
  open_run-Settled (ok (replayed sent)) s g h = h
  open_run-Settled (ok (parsed req_id task_id t)) s g h = record {
    there = h.there;
    apart = (g.gives (parsed req_id task_id t) refl, h.apart);
  }
  open_run-Settled (raised e) s g h = h
  open_run-Settled (fault x) s g h = h

  noticed-Settled :
      (o : Outcome Provider) (s : Session)
      → Gives (InCache id c) o
      → Settled s
      → Settled (noticed o s)
  noticed-Settled (ok p) s g h = record { there = g.gives p refl; apart = h.apart }
  noticed-Settled (raised e) s g h = h
  noticed-Settled (fault x) s g h = h

  module _ (budget_text : String → ℤ → String) (fault_text : Fault → String) where
    admitted-Apart :
        (req_id : Json) (t : Task) (o : Outcome Capability)
        → t.task_id ≢ id
        → Each (Apart id) (admitted req_id t o)
    admitted-Apart req_id t (ok cap) n = (n, tt)
    admitted-Apart req_id t (raised e) n = tt
    admitted-Apart req_id t (fault x) n = tt

    module _ (result_hash : Payload → String) where
      still_open-Apart :
          (req_id : Json) (task_id : String) (t : Outcome Task) (answer : Outcome Bool)
          (p : Provider)
          → Apart id (checking req_id task_id t)
          → Each (Apart id) (still_open budget_text fault_text result_hash req_id t answer p)
      still_open-Apart req_id task_id (ok t) answer p n =
          admitted-Apart req_id t (admit budget_text answer t p) (n.1 t refl)
      still_open-Apart req_id task_id (raised e) answer p n = tt
      still_open-Apart req_id task_id (fault x) answer p n = tt

      check_run-Settled :
          (i : ℕ) (answer : Outcome Bool) (r : Option Run) (s : Session)
          → IfSome (Apart id) r
          → Settled s
          → Settled (check_run budget_text fault_text result_hash i answer r s)
      check_run-Settled i answer none s n h = h
      check_run-Settled i answer (some (handling req_id cap t)) s n h = h
      check_run-Settled i answer (some (checking req_id task_id t)) s n h = record {
        there =
            begin_parsed-InCache id c budget_text fault_text req_id task_id t answer s.provider n.0
              n.1 h.there;
        apart =
            append-Each (Apart id)
              (still_open budget_text fault_text result_hash req_id t answer s.provider)
              (without i s.runs) (still_open-Apart req_id task_id t answer s.provider n)
              (without-Each (Apart id) i s.runs h.apart);
      }

      end_run-Settled :
          (i : ℕ) (ctx : TaskContext) (end : HandlerEnd) (r : Option Run) (s : Session)
          → IfSome (Apart id) r
          → Settled s
          → Settled (end_run budget_text fault_text result_hash i ctx end r s)
      end_run-Settled i ctx end none s n h = h
      end_run-Settled i ctx end (some (checking req_id task_id t)) s n h = h
      end_run-Settled i ctx end (some (handling req_id cap t)) s n h = record {
        there =
            finish_invoke-InCache id c fault_text req_id t.task_id
              (conclude result_hash s.provider.provider_id cap (record ctx { task = t }) end)
              (record s.provider { running = delete t.task_id s.provider.running }) n h.there;
        apart = without-Each (Apart id) i s.runs h.apart;
      }

      step-Settled :
          (e : Event) (s : Session)
          → Settled s
          → Settled (step budget_text fault_text result_hash e s)
      unfolding step register
      step-Settled (invoked message) s h =
          open_run-Settled (receive_invoke message s.provider) s
            (receive_invoke-Opens message s.provider h.there) h
      step-Settled (checked i answer) s h =
          check_run-Settled i answer (nth i s.runs) s (nth-Each (Apart id) i s.runs h.apart) h
      step-Settled (ended i ctx end) s h =
          end_run-Settled i ctx end (nth i s.runs) s (nth-Each (Apart id) i s.runs h.apart) h
      step-Settled (cancelled message) s h =
          noticed-Settled (handle_cancel message s.provider) s
            (handle_cancel-InCache id c message s.provider h.there) h
      step-Settled (input_came message) s h =
          noticed-Settled (handle_input_chunk message s.provider) s
            (handle_input_chunk-InCache id c message s.provider h.there) h
      step-Settled (offering now fresh_id message) s h = record {
        there =
            handle_offer_request-InCache id c budget_text fault_text now fresh_id message s.provider
              h.there;
        apart = h.apart;
      }
      step-Settled (accepting now message) s h = record {
        there = handle_accept-InCache id c fault_text now message s.provider h.there;
        apart = h.apart;
      }
      step-Settled (registered name price_cu tokens_per_call latency_sla_ms arity) s h = record {
        there = h.there;
        apart = h.apart;
      }

      pub steps-Settled :
          (es : List Event) (s : Session)
          → Settled s
          → Settled (steps budget_text fault_text result_hash es s)
      unfolding steps
      steps-Settled [] s h = h
      steps-Settled (e ∷ es) s h =
          steps-Settled es (step budget_text fault_text result_hash e s) (step-Settled e s h)
