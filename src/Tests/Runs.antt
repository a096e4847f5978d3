-- ===== src/Tests/Runs.antt =====
-- Channels of observables, and the basis of the N2 run.
use package.text.Mathlib.TextEquality.{eq_iff}
use qscat.Prelude.{String, ℕ, ◌≡◌, ◌≢◌, refl, none, some, [], ◌∷◌, arith}
use qscat.Python.{pos, ok}
use qscat.Config.Types.{Observable, first_n, ExperimentConfig}
use qscat.Presets.Segments.{nuclear_grid_at_angle, nuc_grid_builders, no_nuc_grid}
use qscat.Presets.Table.{find_preset, presets}
use qscat.Runner.{vprimes, n_channels, n_vib}
use qscat.Tests.Toy.{toy}
use qscat.Tests.Configs.{cfg}

abbrev three_levels : Observable
three_levels = record { kind = "ve"; channels = some (first_n (pos 3)) }

three_lists : vprimes three_levels ≡ ok (pos 0 ∷ pos 1 ∷ pos 2 ∷ [])
unfolding vprimes
three_lists = refl

three_counted : n_channels three_levels ≡ ok (pos 3)
unfolding n_channels
three_counted = refl

abbrev no_channels_given : Observable
no_channels_given = record { kind = "ve"; channels = none }

abbrev excitation : String
excitation = "ve"

not_levels : excitation ≢ "resonance_levels"
not_levels h = ground (arith, eq_iff "ve" "resonance_levels")

-- The preset widens the basis.
n2_basis : n_vib toy cfg (pos 3) ≡ pos 6
unfolding n_vib find_preset presets
n2_basis = refl

abbrev no_run : ExperimentConfig ℕ
no_run = record cfg { molecule = "NO" }

no_deck : (angle : ℕ) → nuclear_grid_at_angle toy no_run angle ≡ ok (no_nuc_grid toy angle)
unfolding nuclear_grid_at_angle nuc_grid_builders
no_deck angle = refl
