-- ===== src/Provider/Invoke/Priced.antt =====
-- What a result charges, and how it carries its output.
use sdk_reference.Prelude.{
  String, ◌≡◌, refl, sym, ap, ◌∙◌, Bool, true, false, Option, none, some, ltb, if◌then◌else◌, arith,
}
use sdk_reference.Prelude.Int.{ℤ, ◌≤ℤ◌}
use sdk_reference.Prelude.Dict.{lookup}
use sdk_reference.Json.{Object}
use sdk_reference.Errors.{AcmpError}
use sdk_reference.Exec.{ok-inj, bind-ok, Outcome, ok, fault, runtime_error, bind, raise_if}
use sdk_reference.Messages.Task.{Payload, Task, Result, result_dict, result_from_dict}
use sdk_reference.Messages.Task.RoundTrip.{result_from_dict-result_dict}
use sdk_reference.TaskContext.{TaskContext}
use sdk_reference.Provider.{Capability, Provider, over_budget}
use sdk_reference.Provider.Invoke.{
  admit, found_capability, check_escrow, check_features, HandlerEnd, handler_output, no_proof,
  streamed_result, proof_of, direct_result, conclude,
}

abbrev pub IsWithin : ℤ → Option ℤ → Type 0
IsWithin cost none = Unit
IsWithin cost (some budget) = cost ≤ℤ budget

over_budget-IsWithin :
    (cost : ℤ) (budget : Option ℤ) → over_budget cost budget ≡ false → IsWithin cost budget
over_budget-IsWithin cost none h = tt
over_budget-IsWithin cost (some b) h = ground arith

-- What follows a check that passes.
raise_if-passed :
    {A : Type 0} (b : Bool) (e : AcmpError) (k : Unit {0} → Outcome A) (a : A)
    → bind (raise_if b e) k ≡ ok a
    → (b ≡ false) × (k tt ≡ ok a)
raise_if-passed true e k a h = cc
raise_if-passed false e k a h = (refl, h)

-- An admitted task is within its budget.
admit-IsWithin :
    (budget_text : String → ℤ → String) (answer : Outcome Bool) (t : Task) (p : Provider)
    (cap : Capability)
    → admit budget_text answer t p ≡ ok cap
    → IsWithin cap.price_cu t.max_price_cu
unfolding admit
admit-IsWithin budget_text answer t p cap h =
    let (c, found, rest) =
      bind-ok (found_capability t (lookup t.capability p.capabilities)) _ cap h in
    let (under, rest2) = raise_if-passed (over_budget c.price_cu t.max_price_cu) _ _ cap rest in
    let (u, checked, rest3) =
      bind-ok (check_escrow p.has_escrow t.escrow_id answer t.task_id) _ cap rest2 in
    let (u2, checked2, rest4) = bind-ok (check_features t p) _ cap rest3 in
    rw (sym (ok-inj rest4)) (over_budget-IsWithin c.price_cu t.max_price_cu under)

-- The result that a content was made of.
abbrev IsCharged : Capability → TaskContext → Object → Type 0
IsCharged cap ctx content =
    (r : Result) × (content ≡ result_dict r)
    × (r.task_id ≡ ctx.task.task_id)
    × (r.cost_cu ≡ cap.price_cu)
    × (r.output_streamed ≡ ctx.output_final_sent)

module _ (result_hash : Payload → String) (provider_id : String) (cap : Capability)
    (ctx : TaskContext) where
  streamed_result-IsCharged :
      (output : Option Payload) (content : Object)
      → ctx.output_final_sent ≡ true
      → streamed_result provider_id cap ctx.task output ≡ ok content
      → IsCharged cap ctx content
  streamed_result-IsCharged (some o) content sent h = cc
  streamed_result-IsCharged none content sent h =
      let (u, free, same) = bind-ok (no_proof ctx.task.task_id ctx.task.proof_method) _ content h in
      (_, sym (ok-inj same), refl, refl, sym sent)

  direct_result-IsCharged :
      (output : Option Payload) (content : Object)
      → ctx.output_final_sent ≡ false
      → direct_result result_hash provider_id cap ctx.task output ≡ ok content
      → IsCharged cap ctx content
  direct_result-IsCharged none content sent h = cc
  direct_result-IsCharged (some o) content sent h =
      let (proof, made, same) =
        bind-ok (proof_of result_hash ctx.task ctx.task.proof_method o) _ content h in
      (_, sym (ok-inj same), refl, refl, sym sent)

  result_for-IsCharged :
      (sent chunks : Bool) (output : Option Payload) (content : Object)
      → ctx.output_final_sent ≡ sent
      → (if sent
          then streamed_result provider_id cap ctx.task output
          else if chunks
          then fault (runtime_error "handler emitted chunks but never sent final=True")
          else direct_result result_hash provider_id cap ctx.task output)
        ≡ ok content
      → IsCharged cap ctx content
  result_for-IsCharged true chunks output content same h =
      streamed_result-IsCharged output content same h
  result_for-IsCharged false true output content same h = cc
  result_for-IsCharged false false output content same h =
      direct_result-IsCharged output content same h

  conclude-IsCharged :
      (end : HandlerEnd) (content : Object)
      → conclude result_hash provider_id cap ctx end ≡ ok content
      → IsCharged cap ctx content
  unfolding conclude
  conclude-IsCharged end content h =
      let (output, ended, made) = bind-ok (handler_output ctx.task.task_id end) _ content h in
      result_for-IsCharged ctx.output_final_sent (ltb 0 ctx.emitted_chunks) output content refl made

-- What an admitted task is answered when it ends with a result: the buyer reads a result for that
-- task, whose cost is within the budget of the task, if it has one, and which says that the output
-- was streamed exactly if the handler sent a final chunk.
pub conclude-IsWithin :
    (budget_text : String → ℤ → String) (result_hash : Payload → String) (answer : Outcome Bool)
    (ctx : TaskContext) (p : Provider) (cap : Capability) (end : HandlerEnd) (content : Object)
    → admit budget_text answer ctx.task p ≡ ok cap
    → conclude result_hash p.provider_id cap ctx end ≡ ok content
    → (r : Result) × (result_from_dict content ≡ ok r)
      × (r.task_id ≡ ctx.task.task_id)
      × IsWithin r.cost_cu ctx.task.max_price_cu
      × (r.output_streamed ≡ ctx.output_final_sent)
conclude-IsWithin budget_text result_hash answer ctx p cap end content admitted ended =
    let (r, same, id, price, streamed) =
      conclude-IsCharged result_hash p.provider_id cap ctx end content ended in
    (
      r,
      ap result_from_dict same ∙ result_from_dict-result_dict r,
      id,
      rw price (admit-IsWithin budget_text answer ctx.task p cap admitted),
      streamed,
    )
