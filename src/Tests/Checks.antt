-- ===== src/Tests/Checks.antt =====
-- Configs that pass `validate_config`, and one that passes although its molecule has no grid.
use qscat.Prelude.{ℕ, ◌≡◌, refl, true, none, some, [], ◌∷◌, All}
use qscat.Prelude.Text.{contains}
use qscat.Python.{ok, raise, no_preset}
use qscat.Config.Types.{ExperimentConfig, TdSpec}
use qscat.Presets.Decks.{built, LcpBuilder, TensorBuilder, ElectronicBuilder}
use qscat.Presets.Table.{validity, get_set, find_preset, presets}
use qscat.Presets.Resolve.{resolve_grid, resolve_lcp_grids, resolve_nrm_grids}
use qscat.Validate.{
  Files, check_methods, check_kinds, check_lcp, check_nrm, check_choices, check_extractors,
  check_grid, check_references, validate_config,
}
use qscat.Validate.Passed.{
  resolve_lcp_grids-validate_config, resolve_nrm_grids-validate_config, td-validate_config,
  resolve_grid-validate_config,
}
use qscat.Tests.Toy.{toy}
use qscat.Tests.Configs.{cfg}

abbrev no_files : Files
no_files = record { is_file = λ path dir. true; columns = λ path dir. none }

-- The N2 config with other methods and with its preset named.
abbrev by_models : ExperimentConfig ℕ
by_models = record cfg {
  methods = "lcp" ∷ "nrm" ∷ "td" ∷ [];
  grid = record {
    preset = some "emoscat";
    electronic = none;
    nuclear = none;
    nuclear_angle_b = none;
  };
}

passes : validate_config toy no_files by_models ≡ ok tt
unfolding validate_config check_methods check_kinds check_lcp check_nrm check_choices
    check_extractors check_grid check_references find_preset presets
passes = refl

resolve_lcp_grids-validate_config_example :
    (g : LcpBuilder) × (resolve_lcp_grids toy by_models ≡ ok g)
resolve_lcp_grids-validate_config_example =
    resolve_lcp_grids-validate_config toy no_files by_models passes refl

resolve_nrm_grids-validate_config_example :
    (g : TensorBuilder × ElectronicBuilder) × (resolve_nrm_grids toy by_models ≡ ok g)
resolve_nrm_grids-validate_config_example =
    resolve_nrm_grids-validate_config toy no_files by_models passes refl

td-validate_config_example :
    ((t : TdSpec ℕ) × (by_models.td ≡ some t))
    × All (λ o. contains o.kind (get_set by_models.molecule validity) ≡ true) by_models.observables
td-validate_config_example = td-validate_config toy no_files by_models passes refl

resolve_grid-validate_config_example :
    (g : TensorBuilder) × (resolve_grid toy by_models "ti" ≡ ok (built g))
resolve_grid-validate_config_example =
    resolve_grid-validate_config toy no_files by_models "emoscat" "ti" passes refl refl refl refl

-- Without a preset's name the check passes for O2, which has no deck of the default name.
o2_passes : validate_config toy no_files (record cfg { molecule = "O2" }) ≡ ok tt
unfolding validate_config check_methods check_kinds check_lcp check_nrm check_choices
    check_extractors check_grid check_references find_preset presets
o2_passes = refl

o2_fails : resolve_grid toy (record cfg { molecule = "O2" }) "ti" ≡ raise (no_preset "emoscat")
unfolding resolve_grid find_preset presets
o2_fails = refl
