-- ===== src/Tests/Toy.antt =====
-- A runtime whose floats are the natural numbers, to evaluate the model with.
use qscat.Prelude.{ℕ, zero, suc, ◌+◌, ◌*◌, refl, Bool, true, false, leb}
use qscat.Python.{ℤ, pos, negsuc, type_error, Result, ok, err, Runtime}
use qscat.Config.RoundTrip.Reload.{IsLowering}

abbrev natural : ℤ → ℕ → ℕ
natural (pos n) k = n
natural (negsuc n) k = 0

abbrev as_float : ℤ → Result ℕ
as_float (pos n) = ok n
as_float (negsuc n) = err type_error

abbrev is_not_zero : ℕ → Bool
is_not_zero zero = false
is_not_zero (suc n) = true

abbrev pub toy : Runtime
toy = record {
  Float = ℕ;
  decimal = natural;
  add = λ a b. a + b;
  mul = λ a b. a * b;
  le = leb;
  nonzero = is_not_zero;
  float_of_int = as_float;
  float_of_text = λ s. err type_error;
  int_of_float = λ n. ok (pos n);
  int_of_text = λ s. err type_error;
  show = λ v. "";
  lower = λ s. s;
}

pub toy-IsLowering : IsLowering toy
toy-IsLowering = record { idem = λ s. refl; keeps_b = refl }
