-- ===== src/Config/Load/Energies.antt =====
-- `EnergySpec.sweep`, `_load_energy_range` and `_load_energies` of config.py.
use qscat.Prelude.{ℕ, ◌+◌, Bool, not, ◌||◌, Option, none, some, List, [], ◌∷◌, ltb, if◌then◌else◌}
use qscat.Python.{
  pos, block, entry, step_not_positive, stop_not_above_start, several_energy_forms, no_ranges,
  Result, ok, ◌>>=◌, raise_if, ◌>>◌, Value, is_null, Runtime,
}
use qscat.Python.Convert.{get, iterate, truthy}
use qscat.Config.Types.{EnergyRange, EnergySpec}
use qscat.Config.Load.Common.{optional, require_float, floats}

module _ (R : Runtime) where
  -- One inclusive sweep: the stop is padded by half a step.
  unfoldable pub sweep : R.Float → R.Float → R.Float → EnergySpec R.Float
  sweep minimum maximum step = record {
    values = none;
    ranges = some (
        record {
          start = minimum;
          stop = R.add maximum (R.mul (R.decimal (pos 5) 1) step);
          step = step;
        }
        ∷ []);
  }

  unfoldable pub load_energy_range : Value R.Float → ℕ → Result (EnergyRange R.Float)
  unfolding require_float
  load_energy_range raw i = do
    let place = entry "energies.ranges" i
    start ← require_float R raw "start" place
    stop ← require_float R raw "stop" place
    step ← require_float R raw "step" place
    raise_if (R.le step (R.decimal (pos 0) 1)) (step_not_positive place)
    raise_if (R.le stop start) (stop_not_above_start place)
    ok (record { start = start; stop = stop; step = step })

  -- `tuple(_load_energy_range(e, i) for i, e in enumerate(entries))`
  unfoldable pub load_ranges : ℕ → List (Value R.Float) → Result (List (EnergyRange R.Float))
  load_ranges i [] = ok []
  load_ranges i (e ∷ es) = do r ← load_energy_range e i; rs ← load_ranges (i + 1) es; ok (r ∷ rs)

  abbrev pub one_if : Bool → ℕ
  one_if b = if b then 1 else 0

  -- The branch of `ranges`, which must not be empty.
  unfoldable pub from_ranges : Value R.Float → Result (EnergySpec R.Float)
  from_ranges raw = do
    raise_if (not (truthy R raw)) no_ranges
    es ← iterate raw
    rs ← load_ranges 0 es
    ok (record { values = none; ranges = some rs })

  -- The branch of `values`.
  unfoldable pub from_values : Value R.Float → Result (EnergySpec R.Float)
  from_values raw = do vs ← floats R raw; ok (record { values = some vs; ranges = none })

  -- The branch of `min`, `max` and `step`.
  unfoldable pub from_sweep : Value R.Float → Result (EnergySpec R.Float)
  from_sweep raw = do
    low ← require_float R raw "min" (block "energies")
    high ← require_float R raw "max" (block "energies")
    step ← require_float R raw "step" (block "energies")
    ok (sweep low high step)

  -- How many of the three forms are given; `min`, `max` and `step` are one.
  unfoldable pub count_forms : (values ranges low high step : Value R.Float) → ℕ
  count_forms values ranges low high step =
      one_if (not (is_null values))
      + one_if (not (is_null ranges))
      + one_if (not (is_null low) || not (is_null high) || not (is_null step))

  unfoldable pub load_form : (values ranges raw : Value R.Float) → Result (EnergySpec R.Float)
  load_form values ranges raw =
      if not (is_null ranges)
      then from_ranges ranges
      else if not (is_null values)
      then from_values values
      else from_sweep raw

  unfoldable pub parse_energies : Value R.Float → Result (EnergySpec R.Float)
  unfolding count_forms load_form
  parse_energies raw = do
    values ← get raw "values"
    ranges ← get raw "ranges"
    low ← get raw "min"
    high ← get raw "max"
    step ← get raw "step"
    raise_if (ltb 1 (count_forms values ranges low high step)) several_energy_forms
    load_form values ranges raw

  -- `None` for an absent block.
  unfoldable pub load_energies : Value R.Float → Result (Option (EnergySpec R.Float))
  unfolding parse_energies
  load_energies = optional parse_energies
