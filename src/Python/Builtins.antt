-- ===== src/Python/Builtins.antt =====
-- CPython's floats and numeric conversions, which no file of the repository defines.
use qscat.Prelude.{String, ℕ, Bool}
use qscat.Python.Integers.{ℤ}
use qscat.Python.Exceptions.{Result}
use qscat.Python.Values.{Value}

pub record Runtime : Type 1 where
  pub Float : Type 0
  -- The literal m * 10 ^ -k.
  pub decimal : ℤ → ℕ → Float
  pub add : Float → Float → Float
  pub mul : Float → Float → Float
  -- IEEE `<=`, false at a NaN.
  pub le : Float → Float → Bool
  -- `bool(x)`
  pub nonzero : Float → Bool
  -- `float(i)`, `float(text)`, `int(x)` and `int(text)`, with the exceptions of a value that has no
  -- such conversion.
  pub float_of_int : ℤ → Result Float
  pub float_of_text : String → Result Float
  pub int_of_float : Float → Result ℤ
  pub int_of_text : String → Result ℤ
  -- `repr` of a float, a list or a dict.
  pub show : Value Float → String
  -- `str.lower`
  pub lower : String → String
