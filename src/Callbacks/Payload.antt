-- ===== src/Callbacks/Payload.antt =====
-- How app/callbacks/handlers.py reads a callback's payload, which is any JSON document.
use mpesa_mcp_server.Common.{
  String, Bool, true, false, not, ◌&&◌, Option, none, some, List, [], ◌∷◌, is_none, if◌then◌else◌,
}
use mpesa_mcp_server.Common.Int.{ℤ}
use mpesa_mcp_server.Common.Dict.{Dict, lookup, insert}
use mpesa_mcp_server.Common.Exec.{Result, ok, err, exception}
use mpesa_mcp_server.Common.Json.{
  Json, Float, finite, nan, infinite, null, bool, int, float, str, list, dict, as_dict, as_list,
  as_str,
}
use mpesa_mcp_server.Common.Text.{show_ℤ}
use Prim.Native.String as S
use Prim.Native.Char.{Char}

-- What Python's built-ins make of the values whose treatment hangs on Unicode tables: `repr` of a
-- list or a dict, `int` of a text (`none` where it raises ValueError), and `str.isdigit`.
pub record Builtins : Type 0 where
  pub repr : Json → String
  pub int_of_text : String → Option ℤ
  pub is_digit : Char → Bool

abbrev pub show_float : Float → String
show_float (finite n text) = text
show_float nan = "nan"
show_float (infinite true) = "inf"
show_float (infinite false) = "-inf"

-- `int(value)` of a float
abbrev pub int_of_float : Float → Result (Option ℤ)
int_of_float (finite n text) = ok (some n)
int_of_float nan = ok none
int_of_float (infinite b) = err (exception "cannot convert float infinity to integer")

-- `payload["Body"]["stkCallback"]` where both are dicts
abbrev pub as_dict_option : Option Json → Option (Dict Json)
as_dict_option none = none
as_dict_option (some v) = as_dict v

abbrev pub callback_of_body : Option (Dict Json) → Option (Dict Json)
callback_of_body none = none
callback_of_body (some body) = as_dict_option (lookup "stkCallback" body)

-- `_extract_callback`
unfoldable pub extract_callback : Dict Json → Option (Dict Json)
extract_callback payload = callback_of_body (as_dict_option (lookup "Body" payload))

abbrev pub as_list_option : Option Json → Option (List Json)
as_list_option none = none
as_list_option (some v) = as_list v

abbrev pub as_str_option : Option Json → Option String
as_str_option none = none
as_str_option (some v) = as_str v

abbrev pub add_named : Option String → Option Json → Dict Json → Dict Json
add_named (some name) (some value) parsed = insert name value parsed
add_named (some name) none parsed = parsed
add_named none value parsed = parsed

abbrev pub add_item : Option (Dict Json) → Dict Json → Dict Json
add_item none parsed = parsed
add_item (some item) parsed =
    add_named (as_str_option (lookup "Name" item)) (lookup "Value" item) parsed

abbrev pub parse_items : List Json → Dict Json → Dict Json
parse_items [] parsed = parsed
parse_items (item ∷ items) parsed = parse_items items (add_item (as_dict item) parsed)

abbrev pub metadata_of_items : Option (List Json) → Dict Json
metadata_of_items none = []
metadata_of_items (some items) = parse_items items []

abbrev pub items_of_metadata : Option (Dict Json) → Option (List Json)
items_of_metadata none = none
items_of_metadata (some metadata) = as_list_option (lookup "Item" metadata)

-- `_extract_metadata`
unfoldable pub extract_metadata : Dict Json → Dict Json
extract_metadata callback =
    metadata_of_items (items_of_metadata (as_dict_option (lookup "CallbackMetadata" callback)))

module _ (builtins : Builtins) where
  -- `str(value)`
  abbrev pub to_str : Json → String
  to_str null = "None"
  to_str (bool true) = "True"
  to_str (bool false) = "False"
  to_str (int n) = show_ℤ n
  to_str (float x) = show_float x
  to_str (str s) = s
  to_str (list items) = builtins.repr (list items)
  to_str (dict fields) = builtins.repr (dict fields)

  abbrev pub to_str_option : Option Json → Option String
  to_str_option none = none
  to_str_option (some null) = none
  to_str_option (some v) = some (to_str v)

  -- `_get_string`
  unfoldable pub get_string : Dict Json → String → Option String
  get_string source key = to_str_option (lookup key source)

  -- `int(value)`, `none` where it raises TypeError or ValueError
  abbrev pub to_int : Json → Result (Option ℤ)
  to_int null = ok none
  to_int (bool true) = ok (some (ℤ.pos 1))
  to_int (bool false) = ok (some (ℤ.pos 0))
  to_int (int n) = ok (some n)
  to_int (float x) = int_of_float x
  to_int (str s) = ok (builtins.int_of_text s)
  to_int (list items) = ok none
  to_int (dict fields) = ok none

  abbrev pub to_int_option : Option Json → Result (Option ℤ)
  to_int_option none = ok none
  to_int_option (some v) = to_int v

  -- `_get_int`
  unfoldable pub get_int : Dict Json → String → Result (Option ℤ)
  get_int source key = to_int_option (lookup key source)

  abbrev pub has_metadata_with : Dict Json → Result (Option ℤ) → Result Bool
  has_metadata_with metadata (err e) = err e
  has_metadata_with metadata (ok amount) = ok (
      not (is_none amount)
      && not (is_none (get_string metadata "MpesaReceiptNumber"))
      && not (is_none (get_string metadata "PhoneNumber")))

  -- `_has_success_metadata`
  unfoldable pub has_success_metadata : Dict Json → Result Bool
  has_success_metadata metadata = has_metadata_with metadata (get_int metadata "Amount")

  abbrev pub digits : String → String
  digits S.[] = S.[]
  digits (S.◌∷◌ c s) = let rest = digits s in if builtins.is_digit c then S.◌∷◌ c rest else rest

  -- `_normalize_phone_number`
  unfoldable pub normalize_phone_number : String → String
  normalize_phone_number phone_number = digits phone_number
