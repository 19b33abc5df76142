-- ===== src/Exec.antt =====
-- Python calls as values. A pure call returns, raises an `AcmpError`, or stops with any other
-- exception (`fault`). A method that changes objects also hands back the state, which keeps what was
-- written before an exception.
pub mod Worded
use sdk_reference.Prelude.{◌≡◌, refl, ap, String, Bool, true, false}
use sdk_reference.Errors.{AcmpError}

-- The exceptions of the code that are no `AcmpError`: a missing key, a value of another type than
-- the field's, a failed `assert`, `ValueError`, an attribute of `None`, `DagResolutionError`, and
-- `RuntimeError`.
pub data Fault : Type 0 where
  key_error : String → Fault
  type_error assertion_error value_error attribute_error dag_resolution_error : Fault
  runtime_error : String → Fault

pub data Outcome (A : Type 0) : Type 0 where
  ok : A → Outcome A
  raised : AcmpError → Outcome A
  fault : Fault → Outcome A

abbrev pub bind : {A B : Type 0} → Outcome A → (A → Outcome B) → Outcome B
bind (ok a) f = f a
bind (raised e) f = raised e
bind (fault x) f = fault x

abbrev pub Exec : Type 0 → Type 0 → Type 0
Exec S A = S → Outcome A × S

abbrev pub continue : {S A B : Type 0} → Outcome A → (A → Exec S B) → Exec S B
continue (ok a) f s = f a s
continue (raised e) f s = (raised e, s)
continue (fault x) f s = (fault x, s)

infixl 10 ◌>>=◌ ◌>>◌
abbrev pub ◌>>=◌ : {S A B : Type 0} → Exec S A → (A → Exec S B) → Exec S B
◌>>=◌ m f s = let (r, s') = m s in continue r f s'

abbrev pub ◌>>◌ : {S A B : Type 0} → Exec S A → Exec S B → Exec S B
m >> k = m >>= λ _. k

module _ {S A : Type 0} where
  abbrev pub pure : A → Exec S A
  pure a s = (ok a, s)

  abbrev pub raise : AcmpError → Exec S A
  raise e s = (raised e, s)

  -- A call that changes nothing.
  abbrev pub lift : Outcome A → Exec S A
  lift r s = (r, s)

  abbrev pub gets : (S → A) → Exec S A
  gets f s = (ok (f s), s)

abbrev pub modify : {S : Type 0} → (S → S) → Exec S (Unit {0})
modify f s = (ok tt, f s)

-- `if b: raise e`
abbrev pub raise_if : Bool → AcmpError → Outcome (Unit {0})
raise_if true e = raised e
raise_if false e = ok tt

-- A property of the state survives a pure call and what follows, if it survives what follows each
-- value that the call may return.
pub lift-keeps :
    {S A B : Type 0} (P : S → Type 0) (o : Outcome A) (k : A → Exec S B) (s : S)
    → P s
    → ((a : A) → o ≡ ok a → P (k a s).1)
    → P (continue o k s).1
lift-keeps P (ok a) k s h f = f a refl
lift-keeps P (raised e) k s h f = h
lift-keeps P (fault x) k s h f = h

-- The same for a call that changes the state itself.
pub then-keeps :
    {S A B : Type 0} (P : S → Type 0) (m : Exec S A) (k : A → Exec S B) (s : S)
    → P (m s).1
    → ((a : A) → (m s).0 ≡ ok a → P (k a (m s).1).1)
    → P ((m >>= k) s).1
then-keeps P m k s h f = lift-keeps P (m s).0 k (m s).1 h f

pub ok-inj : {A : Type 0} {a b : A} → ok a ≡ ok b → a ≡ b
ok-inj {a} {b} h = ap (λ o. elim o [ ok x ↦ x | raised e ↦ a | fault x ↦ a ]) h

-- A chain that returns has had each of its calls return.
pub bind-ok :
    {A B : Type 0} (o : Outcome A) (k : A → Outcome B) (b : B)
    → bind o k ≡ ok b
    → (a : A) × (o ≡ ok a) × (k a ≡ ok b)
bind-ok (ok a) k b h = (a, refl, h)
bind-ok (raised e) k b h = cc
bind-ok (fault x) k b h = cc
