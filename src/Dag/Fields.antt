-- ===== src/Dag/Fields.antt =====
-- Field paths of src/acmp/dag.py: `_PATH_TOKEN_RE.findall` and `_extract_field`. The digits of an
-- index are the ASCII ones.
use Prim.Native.Char.{Char, code}
use Prim.Native.String
use sdk_reference.Prelude.{
  ℕ, zero, suc, ◌+◌, ◌-◌, ◌*◌, String, Bool, ◌&&◌, ◌||◌, Option, none, some, List, [], ◌∷◌, ◌++◌,
  leb, if◌then◌else◌,
}
use sdk_reference.Prelude.Sets.{eqb}
use sdk_reference.Prelude.Dict.{lookup}
use sdk_reference.Json.{Json, str, arr, obj, Items, nil, cons, Object, entries}
use sdk_reference.Access.Optional.{object}
use sdk_reference.Exec.{Outcome, ok, fault, dag_resolution_error}

pub data Token : Type 0 where
  name : String → Token
  index : ℕ → Token

-- What the expression has read of a token.
pub data Partial : Type 0 where
  outside : Partial
  in_name : String → Partial
  in_index : Option ℕ → Partial

abbrev is : Char → Char → Bool
is a b = eqb (code a) (code b)

abbrev within : Char → Char → Char → Bool
within a b c = leb (code a) (code c) && leb (code c) (code b)

abbrev is_digit : Char → Bool
is_digit c = within "0" "9" c

abbrev starts_name : Char → Bool
starts_name c = within "A" "Z" c || within "a" "z" c || is "_" c

-- A token that begins at a character.
abbrev pub begin : Char → Partial
begin c =
    if starts_name c
    then in_name (Prim.Native.String.◌∷◌ c "")
    else if is "[" c
    then in_index none
    else outside

abbrev pub digit : Char → ℕ
digit c = code c - code "0"

-- One character: the tokens that end before it or with it, and what begins. An index that does not
-- go on is no token, and its digits begin none.
unfoldable pub advance : Partial → Char → List Token × Partial
advance outside c = ([], begin c)
advance (in_name s) c =
    if starts_name c || is_digit c
    then ([], in_name (Prim.Native.String.◌++◌ s (Prim.Native.String.◌∷◌ c "")))
    else (name s ∷ [], begin c)
advance (in_index none) c = if is_digit c then ([], in_index (some (digit c))) else ([], begin c)
advance (in_index (some n)) c =
    if is_digit c
    then ([], in_index (some (10 * n + digit c)))
    else if is "]" c
    then (index n ∷ [], outside)
    else ([], begin c)

abbrev pub last_token : Partial → List Token
last_token (in_name s) = name s ∷ []
last_token _ = []

unfoldable pub tokens : Partial → String → List Token
tokens p String.[] = last_token p
tokens p (Prim.Native.String.◌∷◌ c s) = let (done, p') = advance p c in done ++ tokens p' s

-- `current[n]`
unfoldable pub nth : ℕ → Items → Option Json
nth n nil = none
nth zero (cons v vs) = some v
nth (suc n) (cons v vs) = nth n vs

unfoldable pub nth_char : ℕ → String → Option Json
nth_char n String.[] = none
nth_char zero (Prim.Native.String.◌∷◌ c s) = some (str (Prim.Native.String.◌∷◌ c ""))
nth_char (suc n) (Prim.Native.String.◌∷◌ c s) = nth_char n s

-- `current[token]`, `none` for a `KeyError`, an `IndexError` or a `TypeError`.
unfoldable pub enter : Token → Json → Option Json
enter (name k) (obj d) = lookup k (entries d)
enter (index n) (arr vs) = nth n vs
enter (index n) (str s) = nth_char n s
enter _ _ = none

abbrev pub found : Option Json → Outcome Json
found none = fault dag_resolution_error
found (some v) = ok v

unfoldable pub follow : List Token → Json → Option Json
follow [] v = some v
follow (t ∷ ts) v = elim (enter t v) [ none ↦ none | some w ↦ follow ts w ]

abbrev pub follow_path : List Token → Json → Outcome Json
follow_path [] v = fault dag_resolution_error
follow_path (t ∷ ts) v = found (follow (t ∷ ts) v)

unfoldable pub extract_field : Object → String → Outcome Json
extract_field root path = follow_path (tokens outside path) (object root)
