-- ===== src/Provider/Session/Returns.antt =====
-- What a call returns, as rules, and the id that `from_params` of src/acmp/messages.py reads.
use sdk_reference.Prelude.{String, false, ◌≡◌, refl}
use mathlib.Core.Path.{subst}
use sdk_reference.Prelude.Int.{pos}
use sdk_reference.Json.{Object}
use sdk_reference.Exec.{Outcome, ok, bind, bind-ok, ok-inj}
use sdk_reference.Access.{as_num, as_str, as_bool, as_obj, item_as, get_as, get_or_as}
use sdk_reference.Messages.Task.{as_payload, Task, from_params}

-- A property of what an outcome returns, if it returns.
pub record Gives {A : Type 0} (P : A → Type 0) (o : Outcome A) : Type 0 where
  pub gives : (a : A) → o ≡ ok a → P a

pub Gives-bind :
    {A B : Type 0} (P : B → Type 0) (o : Outcome A) (k : A → Outcome B)
    → ((a : A) → o ≡ ok a → Gives P (k a))
    → Gives P (bind o k)
Gives-bind P o k h = record {
  gives = λ b e. let (a, returned, from) = bind-ok o k b e in (h a returned).gives b from;
}

Gives-from :
    {A B : Type 0} (P : B → Type 0) (o : Outcome A) (k : A → Outcome B) (a : A)
    → o ≡ ok a
    → Gives P (k a)
    → Gives P (bind o k)
Gives-from P o k a e h = rw e h

pub Gives-ok : {A : Type 0} (P : A → Type 0) (a : A) → P a → Gives P (ok a)
Gives-ok P a h = record { gives = λ b e. subst P (ok-inj e) h }

-- The id that `from_params` reads is the one that the cache is asked for.
pub from_params-task_id :
    (params : Object) (id : String)
    → item_as as_str params "task_id" ≡ ok id
    → Gives (λ (t : Task). t.task_id ≡ id) (from_params params)
unfolding from_params
from_params-task_id params id h = Gives-from _ (item_as as_str params "task_id") _ id h (
    Gives-bind _ (item_as as_str params "capability") _ λ capability _.
      Gives-bind _ (get_as as_payload params "input") _ λ input _.
        Gives-bind _ (get_or_as as_str "json" params "output_type") _ λ output_type _.
          Gives-bind _ (get_as as_num params "input_tokens_est") _ λ tokens _.
            Gives-bind _ (get_as as_num params "max_price_cu") _ λ price _.
              Gives-bind _ (get_as as_str params "preferred_tier") _ λ tier _.
                Gives-bind _ (get_or_as as_num (pos 30000) params "timeout_ms") _ λ timeout _.
                  Gives-bind _ (get_or_as as_bool false params "stream") _ λ stream _.
                    Gives-bind _ (get_or_as as_bool false params "input_stream") _ λ input_stream _.
                      Gives-bind _ (get_as as_str params "escrow_id") _ λ escrow _.
                        Gives-bind _ (get_as as_str params "proof_method") _ λ proof _.
                          Gives-bind _ (get_as as_obj params "metadata") _
                            λ metadata _. Gives-ok _ _ refl)
