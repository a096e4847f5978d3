-- ===== src/Config/Load/Grid.antt =====
-- `_load_segment` and `_load_grid` of config.py.
use qscat.Prelude.{String, List, [], ◌∷◌, if◌then◌else◌}
use qscat.Prelude.Text.{◌<>◌}
use qscat.Python.{
  ℤ, block, value_error, Result, ok, err, ◌>>=◌, traverse, Value, mapping, end, Runtime,
}
use qscat.Python.Convert.{iterate, get, truthy, to_int, to_float}
use qscat.Config.Types.{SegmentSpec, GridSpec}
use qscat.Config.Load.Common.{
  require, block_of, optional, optional_text, require_float, require_int,
}

module _ (R : Runtime) where
  -- `for n, end in ...`: two values, or a ValueError.
  abbrev pub load_pair : List (Value R.Float) → Result (ℤ × R.Float)
  load_pair (n ∷ stop ∷ []) = do
    elements ← to_int R n
    endpoint ← to_float R stop
    ok (elements, endpoint)
  load_pair _ = err value_error

  unfoldable pub load_segment : String → Value R.Float → Result (SegmentSpec R.Float)
  unfolding require require_float require_int
  load_segment place raw = do
    pairs ← require raw "real" (block place)
    pair_list ← iterate pairs
    real ← traverse (λ p. iterate p >>= load_pair) pair_list
    ecs_raw ← require raw "ecs" (block place)
    let ecs_place = block (place <> ".ecs")
    angle ← require_float R ecs_raw "angle" ecs_place
    elements ← require_int R ecs_raw "elements" ecs_place
    quadrature ← require_int R ecs_raw "quadrature" ecs_place
    ok (record {
      real = real;
      ecs = record { angle = angle; elements = elements; quadrature = quadrature };
    })

  unfoldable pub load_grid : Value R.Float → Result (GridSpec R.Float)
  unfolding block_of
  load_grid given = do
    -- `raw or {}`
    let raw = if truthy R given then given else mapping end
    e_raw ← block_of raw "electronic"
    n_raw ← block_of raw "nuclear"
    electronic ← optional (load_segment "grid.electronic") e_raw
    nuclear ← optional (load_segment "grid.nuclear") n_raw
    preset ← get raw "preset"
    angle_raw ← get raw "nuclear_angle_b"
    angle ← optional (to_float R) angle_raw
    ok (record {
      preset = optional_text R preset;
      electronic = electronic;
      nuclear = nuclear;
      nuclear_angle_b = angle;
    })
