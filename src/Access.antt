-- ===== src/Access.antt =====
-- Reading a `dict[str, Any]`: `d[k]`, `d.get(k)`, and the type that the reader expects of the value.
-- A value of another type than the documented one stops the reader at once with a `TypeError`.
pub mod Optional
use sdk_reference.Prelude.{String, Bool, Option, none, some}
use sdk_reference.Prelude.Int.{ℤ}
use sdk_reference.Prelude.Dict.{lookup}
use sdk_reference.Json.{Json, null, bool, num, str, obj, Object, entries}
use sdk_reference.Exec.{Outcome, ok, fault, key_error, type_error, bind}

unfoldable pub as_num : Json → Outcome ℤ
as_num (num n) = ok n
as_num _ = fault type_error

unfoldable pub as_str : Json → Outcome String
as_str (str s) = ok s
as_str _ = fault type_error

unfoldable pub as_bool : Json → Outcome Bool
as_bool (bool b) = ok b
as_bool _ = fault type_error

unfoldable pub as_obj : Json → Outcome Object
as_obj (obj d) = ok (entries d)
as_obj _ = fault type_error

abbrev pub present : Option Json → String → Outcome Json
present none k = fault (key_error k)
present (some v) k = ok v

-- `d[k]`
unfoldable pub item : Object → String → Outcome Json
item d k = present (lookup k d) k

module _ {A : Type 0} (read : Json → Outcome A) where
  -- `d[k]`, used as an `A`.
  unfoldable pub item_as : Object → String → Outcome A
  unfolding item
  item_as d k = bind (item d k) read

  abbrev pub optional : Option Json → Outcome (Option A)
  optional none = ok none
  optional (some null) = ok none
  optional (some v) = bind (read v) (λ a. ok (some a))

  -- `d.get(k)`, where `None` stands for an absent value.
  unfoldable pub get_as : Object → String → Outcome (Option A)
  get_as d k = optional (lookup k d)

  abbrev pub default_to : A → Option Json → Outcome A
  default_to a none = ok a
  default_to a (some v) = read v

  -- `d.get(k, a)`
  unfoldable pub get_or_as : A → Object → String → Outcome A
  get_or_as a d k = default_to a (lookup k d)
