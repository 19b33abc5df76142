-- ===== src/Access/Optional.antt =====
-- Optional fields of a message: `put_if_set` of src/acmp/messages.py, and what a reader finds after
-- it.
use sdk_reference.Prelude.{
  String, ◌≡◌, refl, Bool, true, false, Option, none, some, List, [], ◌∷◌, ◌==◌, if◌then◌else◌,
}
use sdk_reference.Prelude.Int.{ℤ}
use sdk_reference.Prelude.Dict.{lookup, insert, lookup-insert}
use sdk_reference.Json.{Json, null, bool, num, str, arr, obj, Object, fields, entries-fields}
use sdk_reference.Exec.{ok}
use sdk_reference.Access.{as_num, as_str, as_obj, optional}

-- `if value is not None: d[name] = value`
unfoldable pub put : String → Option Json → Object → Object
put name none d = d
put name (some v) d = insert name v d

-- The attributes in the order of their names.
unfoldable pub put_if_set : List (String × Option Json) → Object → Object
unfolding put
put_if_set [] d = d
put_if_set ((name, value) ∷ rest) d = put_if_set rest (put name value d)

module _ {A : Type 0} where
  -- An attribute as the value that is stored for it.
  abbrev pub attribute : (A → Json) → Option A → Option Json
  attribute write none = none
  attribute write (some a) = some (write a)

  abbrev pub or_else : Option A → Option A → Option A
  or_else none o = o
  or_else (some a) _ = some a

  pub or_else-none : (o : Option A) → or_else o none ≡ o
  or_else-none none = refl
  or_else-none (some a) = refl

abbrev pub object : Object → Json
object d = obj (fields d)

pub lookup-put :
    (name key : String) (value : Option Json) (d : Object)
    → lookup key (put name value d)
      ≡ (if name == key then or_else value (lookup key d) else lookup key d)
unfolding put
lookup-put name key none d = go (name == key)
  where
    go : (b : Bool) → lookup key d ≡ (if b then lookup key d else lookup key d)
    go true = refl
    go false = refl
lookup-put name key (some v) d = lookup-insert name key v d

-- Reading back what was stored.
pub optional-num : (o : Option ℤ) → optional as_num (attribute num o) ≡ ok o
unfolding as_num
optional-num none = refl
optional-num (some n) = refl

pub optional-str : (o : Option String) → optional as_str (attribute str o) ≡ ok o
unfolding as_str
optional-str none = refl
optional-str (some s) = refl

pub optional-obj : (o : Option Object) → optional as_obj (attribute object o) ≡ ok o
unfolding as_obj
optional-obj none = refl
optional-obj (some d) = λ i. ok (some (entries-fields d i))

pub ruleset optional_rules =
    (or_else-none, optional-num, optional-str, optional-obj, entries-fields)
