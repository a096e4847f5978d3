-- ===== src/Config/Load/Common.antt =====
-- `_require` and `_block` of config.py, the scalar conversions of its loaders, and optional blocks.
use qscat.Prelude.{String, Option, none, some, List, if◌then◌else◌}
use qscat.Python.{
  ℤ, Place, missing_key, Result, ok, raise, ◌>>=◌, traverse, Value, is_null, Runtime,
}
use qscat.Python.Convert.{member, index, get, iterate, to_int, to_float, to_text}

module _ {F : Type 0} where
  -- `_require`
  unfoldable pub require : Value F → String → Place → Result (Value F)
  require raw k place = do
    there ← member k raw
    if there then index raw k else raise (missing_key place k)

  -- `_block`: absent and null are both `null`.
  unfoldable pub block_of : Value F → String → Result (Value F)
  block_of raw k = get raw k

  -- `f(raw) if raw is not None else None`
  abbrev pub optional {ℓ} : {A : Type ℓ} → (Value F → Result A) → Value F → Result (Option A)
  optional f raw =
      let loaded = f raw >>= λ a. ok (some a) in if is_null raw then ok none else loaded

module _ (R : Runtime) where
  -- `str(raw) if raw is not None else None`
  abbrev pub optional_text : Value R.Float → Option String
  optional_text raw = if is_null raw then none else some (to_text R raw)

  -- `float(_require(raw, k, where))`
  unfoldable pub require_float : Value R.Float → String → Place → Result R.Float
  unfolding require
  require_float raw k place = do v ← require raw k place; to_float R v

  -- `int(_require(raw, k, where))`
  unfoldable pub require_int : Value R.Float → String → Place → Result ℤ
  unfolding require
  require_int raw k place = do v ← require raw k place; to_int R v

  -- `tuple(float(x) for x in raw)`
  abbrev pub floats : Value R.Float → Result (List R.Float)
  floats raw = do vs ← iterate raw; traverse (to_float R) vs

  -- `tuple(int(x) for x in raw)`
  abbrev pub ints : Value R.Float → Result (List ℤ)
  ints raw = do vs ← iterate raw; traverse (to_int R) vs
