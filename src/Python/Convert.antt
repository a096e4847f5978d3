-- ===== src/Python/Convert.antt =====
-- `int`, `float`, `str`, `bool`, iteration, `in`, `[]` and `.get` on a loaded value, with the
-- exception that each raises on a value of another type.
use qscat.Prelude.{String, Bool, true, false, not, Option, none, some, List, map, any}
use qscat.Prelude.{str_eq, if◌then◌else◌, ◌==◌}
use qscat.Prelude.Text.{characters, has_part}
use qscat.Prelude.Dict.{lookup, has_key, keys}
use qscat.Python.Integers.{ℤ, pos, negsuc, show_ℤ}
use qscat.Python.Exceptions.{Error, type_error, attribute_error, key_error, Result, ok, err}
use qscat.Python.Values.{
  Value, null, bool, int, float, text, seq, mapping, nil, cons, end, field, items, entries,
}
use qscat.Python.Builtins.{Runtime}

abbrev pub or_raise {ℓ} : {A : Type ℓ} → Error → Option A → Result A
or_raise e none = err e
or_raise e (some a) = ok a

module _ {F : Type 0} where
  abbrev is_text : String → Value F → Bool
  is_text k (text s) = str_eq k s
  is_text k _ = false

  -- `k in raw`
  abbrev pub member : String → Value F → Result Bool
  member k (mapping fs) = ok (has_key k (entries fs))
  member k (seq vs) = ok (any (is_text k) (items vs))
  member k (text s) = ok (has_part k s)
  member k _ = err type_error

  -- `raw[k]`
  abbrev pub index : Value F → String → Result (Value F)
  index (mapping fs) k = or_raise key_error (lookup k (entries fs))
  index _ k = err type_error

  abbrev pub or_null : Option (Value F) → Value F
  or_null none = null
  or_null (some v) = v

  -- `raw.get(k)`
  abbrev pub get : Value F → String → Result (Value F)
  get (mapping fs) k = ok (or_null (lookup k (entries fs)))
  get _ k = err attribute_error

  abbrev pub or_default : Value F → Option (Value F) → Value F
  or_default d none = d
  or_default d (some v) = v

  -- `raw.get(k, default)`: a key that is present and null is not replaced.
  abbrev pub get_default : Value F → String → Value F → Result (Value F)
  get_default (mapping fs) k d = ok (or_default d (lookup k (entries fs)))
  get_default _ k d = err attribute_error

  -- `for x in raw`
  abbrev pub iterate : Value F → Result (List (Value F))
  iterate (seq vs) = ok (items vs)
  iterate (mapping fs) = ok (map text (keys (entries fs)))
  iterate (text s) = ok (map text (characters s))
  iterate _ = err type_error

  abbrev pub is_mapping : Value F → Bool
  is_mapping (mapping fs) = true
  is_mapping _ = false

module _ (R : Runtime) where
  -- `bool(raw)`
  abbrev pub truthy : Value R.Float → Bool
  truthy null = false
  truthy (bool b) = b
  truthy (int (pos n)) = not (n == 0)
  truthy (int (negsuc n)) = true
  truthy (float x) = R.nonzero x
  truthy (text s) = not (str_eq s "")
  truthy (seq nil) = false
  truthy (seq (cons v vs)) = true
  truthy (mapping end) = false
  truthy (mapping (field k v fs)) = true

  abbrev pub to_int : Value R.Float → Result ℤ
  to_int (bool b) = ok (if b then pos 1 else pos 0)
  to_int (int i) = ok i
  to_int (float x) = R.int_of_float x
  to_int (text s) = R.int_of_text s
  to_int _ = err type_error

  abbrev pub to_float : Value R.Float → Result R.Float
  to_float (bool b) = (R.float_of_int (if b then pos 1 else pos 0))
  to_float (int i) = R.float_of_int i
  to_float (float x) = ok x
  to_float (text s) = R.float_of_text s
  to_float _ = err type_error

  abbrev pub to_text : Value R.Float → String
  to_text null = "None"
  to_text (bool b) = if b then "True" else "False"
  to_text (int i) = show_ℤ i
  to_text (text s) = s
  to_text v = R.show v
