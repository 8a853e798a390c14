-- ===== src/Common/Json.antt =====
-- Values of `Any`: what a JSON document holds, and the payloads that the program builds.
use mathlib.Core.Bool.{Bool, true, false}
use mathlib.Core.Option.{Option, none, some}
use mathlib.Core.List.{List, [], ◌∷◌}
use Prim.Native.String.{String}
use mpesa_mcp_server.Common.Int.{ℤ, pos}
use mpesa_mcp_server.Common.Dict.{Dict}

-- A Python float: a finite one by its value truncated towards zero and by its text.
pub data Float : Type 0 where
  finite : ℤ → String → Float
  nan : Float
  infinite : Bool → Float

mutual
  pub data Json : Type 0 where
    null : Json
    bool : Bool → Json
    int : ℤ → Json
    float : Float → Json
    str : String → Json
    list : Items → Json
    dict : Fields → Json

  pub data Items : Type 0 where
    nil : Items
    cons : Json → Items → Items

  pub data Fields : Type 0 where
    end : Fields
    field : String → Json → Fields → Fields

abbrev pub to_list : Items → List Json
to_list nil = []
to_list (cons v items) = v ∷ to_list items

abbrev pub to_dict : Fields → Dict Json
to_dict end = []
to_dict (field k v fields) = (k, v) ∷ to_dict fields

abbrev pub of_list : List Json → Items
of_list [] = nil
of_list (v ∷ vs) = cons v (of_list vs)

-- `isinstance(value, int)`: a Boolean is an integer in Python.
abbrev pub as_int : Json → Option ℤ
as_int (int n) = some n
as_int (bool true) = some (pos 1)
as_int (bool false) = some (pos 0)
as_int _ = none

-- `isinstance(value, str)`
abbrev pub as_str : Json → Option String
as_str (str s) = some s
as_str _ = none

-- `isinstance(value, dict)`
abbrev pub as_dict : Json → Option (Dict Json)
as_dict (dict fields) = some (to_dict fields)
as_dict _ = none

-- `isinstance(value, list)`
abbrev pub as_list : Json → Option (List Json)
as_list (list items) = some (to_list items)
as_list _ = none

-- A text or `None`.
abbrev pub str_or_null : Option String → Json
str_or_null none = null
str_or_null (some s) = str s

-- `model_dump(exclude_none=True)` leaves out a field that is `None`.
abbrev pub str_field : String → Option String → Dict Json
str_field name none = []
str_field name (some s) = (name, str s) ∷ []

abbrev pub int_field : String → Option ℤ → Dict Json
int_field name none = []
int_field name (some n) = (name, int n) ∷ []
