-- ===== src/Json.antt =====
-- JSON values, as the messages of src/acmp carry them: a Python `dict[str, Any]` is an `Object`.
-- Numbers are integers; an amount of CU is counted in a fixed smallest unit.
use sdk_reference.Prelude.{◌≡◌, refl, Bool, String, List, [], ◌∷◌}
use sdk_reference.Prelude.Int.{ℤ}
use sdk_reference.Prelude.Dict.{Dict}

mutual
  pub data Json : Type 0 where
    null : Json
    bool : Bool → Json
    num : ℤ → Json
    str : String → Json
    arr : Items → Json
    obj : Fields → Json

  pub data Items : Type 0 where
    nil : Items
    cons : Json → Items → Items

  pub data Fields : Type 0 where
    end : Fields
    field : String → Json → Fields → Fields

abbrev pub Object : Type 0
Object = Dict Json

-- An object and a list inside a value, and back.
abbrev pub fields : Object → Fields
fields [] = end
fields ((k, v) ∷ d) = field k v (fields d)

abbrev pub entries : Fields → Object
entries end = []
entries (field k v d) = (k, v) ∷ entries d

abbrev pub items : List Json → Items
items [] = nil
items (v ∷ vs) = cons v (items vs)

abbrev pub elements : Items → List Json
elements nil = []
elements (cons v vs) = v ∷ elements vs

pub entries-fields : (d : Object) → entries (fields d) ≡ d
entries-fields [] = refl
entries-fields ((k, v) ∷ d) = λ i. (k, v) ∷ entries-fields d i
