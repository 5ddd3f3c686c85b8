-- ===== src/Base/Json.antt =====
-- A JSON or YAML document as Python reads it, with the built-in functions that the program applies
-- to its values. A float is counted in millionths; an object is a dict, whose keys differ.
use vshift.Base.Equality.{◌==◌, string_eq, nat_eq}
use vshift.Base.Numbers.{ℤ, pos, negsuc}
use vshift.Base.Dict.{Dict, lookup}
use vshift.Base.Exec.{Result, ok, err, other}
use Prim.Native.Nat.{zero, suc, ◌*◌, ◌/◌, ◌-◌}
use Prim.Native.String.{String}
use mathlib.Core.Bool.{Bool, true, false, not}
use mathlib.Core.Option.{Option, none, some}
use mathlib.Core.List.{List, [], ◌∷◌}

mutual
  pub data Json : Type 0 where
    null : Json
    boolean : Bool → Json
    int : ℤ → Json
    float : ℤ → Json
    text : String → Json
    array : Items → Json
    object : Fields → Json

  pub data Items : Type 0 where
    nil : Items
    item : Json → Items → Items

  pub data Fields : Type 0 where
    end : Fields
    field : String → Json → Fields → Fields

-- the values of a list
abbrev pub elements : Items → List Json
elements Items.nil = []
elements (Items.item j js) = j ∷ elements js

-- an object as a dict
abbrev pub entries : Fields → Dict Json
entries Fields.end = []
entries (Fields.field k j fs) = (k, j) ∷ entries fs

-- `d.get(key, default)`
abbrev pub get_or : String → Json → Dict Json → Json
get_or key default d = elim (lookup key d) [ none ↦ default | some j ↦ j ]

-- `isinstance(j, dict)`, with the dict
abbrev pub as_dict : Json → Option (Dict Json)
as_dict (Json.object fs) = some (entries fs)
as_dict _ = none

-- `isinstance(j, str)`, with the text
abbrev pub as_text : Json → Option String
as_text (Json.text s) = some s
as_text _ = none

-- `isinstance(j, int)`, with the number: a `bool` is an `int`.
abbrev pub as_int : Json → Option ℤ
as_int (Json.int z) = some z
as_int (Json.boolean true) = some (pos 1)
as_int (Json.boolean false) = some (pos 0)
as_int _ = none

abbrev is_zero : ℤ → Bool
is_zero (pos n) = n == 0
is_zero (negsuc n) = false

-- `j == 0`
abbrev pub equals_zero : Json → Bool
equals_zero (Json.int z) = is_zero z
equals_zero (Json.float z) = is_zero z
equals_zero (Json.boolean b) = not b
equals_zero _ = false

-- `bool(j)`
abbrev pub truthy : Json → Bool
truthy Json.null = false
truthy (Json.boolean b) = b
truthy (Json.int z) = not (is_zero z)
truthy (Json.float z) = not (is_zero z)
truthy (Json.text s) = not (s == "")
truthy (Json.array Items.nil) = false
truthy (Json.array (Items.item j js)) = true
truthy (Json.object Fields.end) = false
truthy (Json.object (Fields.field k j fs)) = true

-- How Python reads a number from a text and prints a value that is no text.
pub record Reading : Type 0 where
  pub int_text : String → Option ℤ
  pub float_text : String → Option ℤ
  pub repr : Json → String

abbrev or_value_error : Option ℤ → Result ℤ
or_value_error none = err (other "ValueError")
or_value_error (some z) = ok z

-- a float without its fraction
abbrev truncated : ℤ → ℤ
truncated (pos n) = pos (n / 1000000)
truncated (negsuc n) = elim (suc n / 1000000) [ zero ↦ pos 0 | suc k ↦ negsuc k ]

-- an integer in millionths
abbrev in_millionths : ℤ → ℤ
in_millionths (pos n) = pos (n * 1000000)
in_millionths (negsuc n) = negsuc (suc n * 1000000 - 1)

module _ (reading : Reading) where
  -- `str(j)`
  abbrev pub str : Json → String
  str (Json.text s) = s
  str Json.null = "None"
  str (Json.boolean true) = "True"
  str (Json.boolean false) = "False"
  str j = reading.repr j

  -- `int(j)`
  abbrev pub to_int : Json → Result ℤ
  to_int (Json.int z) = ok z
  to_int (Json.boolean true) = ok (pos 1)
  to_int (Json.boolean false) = ok (pos 0)
  to_int (Json.float z) = ok (truncated z)
  to_int (Json.text s) = or_value_error (reading.int_text s)
  to_int _ = err (other "TypeError")

  -- `float(j)`
  abbrev pub to_float : Json → Result ℤ
  to_float (Json.int z) = ok (in_millionths z)
  to_float (Json.boolean true) = ok (pos 1000000)
  to_float (Json.boolean false) = ok (pos 0)
  to_float (Json.float z) = ok z
  to_float (Json.text s) = or_value_error (reading.float_text s)
  to_float _ = err (other "TypeError")
