-- ===== src/Exec/Worded.antt =====
-- Calls whose errors carry a message.
use sdk_reference.Prelude.{◌≡◌, ◌≢◌, refl, Bool, true, false, arith}
use sdk_reference.Errors.{AcmpError}
use sdk_reference.Exec.{Outcome, ok, raised, fault, Fault, bind, Exec, continue, raise_if}

pub record Worded {A : Type 0} (o : Outcome A) : Type 0 where
  pub at_error : (e : AcmpError) → o ≡ raised e → e.message ≢ ""

module _ {A : Type 0} where
  pub Worded-ok : (a : A) → Worded (ok a)
  Worded-ok a = record { at_error = λ e h. cc }

  pub Worded-fault : (x : Fault) → Worded {A = A} (fault x)
  Worded-fault x = record { at_error = λ e h. cc }

  pub Worded-raised : (e : AcmpError) → e.message ≢ "" → Worded {A = A} (raised e)
  Worded-raised e h = record { at_error = λ d p. ground arith }

pub Worded-raise_if : (b : Bool) (e : AcmpError) → e.message ≢ "" → Worded (raise_if b e)
Worded-raise_if true e h = Worded-raised e h
Worded-raise_if false e h = Worded-ok tt

pub Worded-bind :
    {A B : Type 0} (o : Outcome A) (f : A → Outcome B)
    → Worded o
    → ((a : A) → Worded (f a))
    → Worded (bind o f)
Worded-bind (ok a) f h k = k a
Worded-bind (raised e) f h k = Worded-raised e (h.at_error e refl)
Worded-bind (fault x) f h k = Worded-fault x

pub Worded-continue :
    {S A B : Type 0} (o : Outcome A) (k : A → Exec S B) (s : S)
    → Worded o
    → ((a : A) → Worded (k a s).0)
    → Worded (continue o k s).0
Worded-continue (ok a) k s h f = f a
Worded-continue (raised e) k s h f = Worded-raised e (h.at_error e refl)
Worded-continue (fault x) k s h f = Worded-fault x
