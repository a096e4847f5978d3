-- ===== src/Tests/Experiment.antt =====
-- Runs of the experiment runner with solvers that return what their arguments say.
use qscat.Prelude.{ℕ, ◌+◌, String, ◌≡◌, refl, true, none, some, [], ◌∷◌, ◌++◌}
use qscat.Prelude.Dict.{Dict, lookup, has_key, NodupKeys}
use qscat.Prelude.Text.{contains, show_ℕ}
use qscat.Python.{show_ℤ, Error, pos, ok, err}
use qscat.Config.Types.{ExperimentConfig, first_n}
use qscat.Presets.Resolve.{
  resolve_defaults, fill_config, fill_td, resolve_grid, resolve_test_function,
  test_function_for_kind, fill_packets, kinds_in, preset_test_function, default_channels,
  resolve_lcp_grids, resolve_nrm_grids, resolve_surface_r,
}
use qscat.Presets.Segments.{nuc_grid_builders}
use qscat.Config.Load.Energies.{sweep}
use qscat.Presets.Table.{find_preset, presets}
use qscat.Validate.{
  validate_config, check_methods, check_kinds, check_lcp, check_extractors, check_grid,
  check_references,
}
use qscat.Runner.Requested.{requested}
use qscat.Runner.TimeDependent.{run_td, finish_td}
use qscat.Runner.Keys.{final_state, write_columns}
use qscat.Runner.Lcp.{run_lcp}
use qscat.Runner.Nrm.{run_nrm}
use qscat.Runner.Experiment.Names.{run_experiment-requested}
use qscat.Runner.Experiment.Kept.{td, series_of, run_experiment_keeps}
use qscat.Runner.Experiment.Refused.{run_experiment_refuses_levels}
use qscat.Runner.Solvers.{Solvers, ExperimentResult}
use qscat.Runner.TimeIndependent.{run_ti, known_model, vibrational_eigenstates}
use qscat.Runner.Experiment.{as_backend, run_experiment}
use qscat.Tests.Toy.{toy}
use qscat.Tests.Configs.{cfg}
use qscat.Tests.Configs.{td as td_block}

-- A series is a number.
abbrev solvers : Solvers toy
solvers = record {
  Array = ℕ;
  Tensor = ℕ;
  Fem = ℕ;
  Extractor = ℕ;
  show_g = λ x. "";
  rounds = λ t dt. pos t;
  column = λ sigma k. sigma + k;
  empty = 0;
  array = λ xs. 0;
  arrays = λ xs. 0;
  as_array = λ e. 1;
  tensor = λ g. 2;
  lcp_decks = λ b. (3, 3, 3);
  nrm_decks = λ b. (4, 4, 4);
  deck = λ d. 5;
  electronic_of = λ t. 6;
  nuclear_of = λ t. 7;
  real_points = λ g. 8;
  rotation_origin = λ g. 9;
  real_index_near = λ g r. 1;
  lower_angle = λ g. 35;
  real_nodes_descending = λ g. 10;
  masked_field = λ g psi. psi;
  project_density = λ g psi. (psi, psi);
  vibrational_states = λ m g n. record { eps = 11; chi = 12 };
  ve_cross_section = λ m g b v vs e. 100;
  da_cross_section = λ m g b v n e. 200;
  dr_cross_section = λ m g b v n e. 300;
  ve_wavefunction = λ m g b v e. none;
  initial_state = λ g chi v i. 13;
  extractor = λ k m g b v vs p i dt index axis n. 400;
  propagate = λ m g psi dt n order x. x + 1;
  propagate_free = λ m g psi dt n order x. x + 2;
  snapshots = λ m g psi dt n order times full. [];
  sigma = λ x e free n. x;
  flux_series = λ x. (x, x, x);
  correlation = λ x. (x, x);
  resonance_levels = λ m a b c d w n. (0, 0, 0);
  local_complex_potential = λ m a b c w. (0, 0);
  lcp_ve_cross_section = λ m g v c b i vs e. 500;
  lcp_da_cross_section = λ m g v c b i e. 600;
  lcp_wavefunction = λ m g v c b i e. none;
  peak_eigenstate = λ m a b c. none;
  physical_state = λ m a b r. 14;
  asymptotic_state = λ m a r. 15;
  nrm_ingredients = λ m a p r. 16;
  nrm_ve_cross_section = λ m a b p i c v vs e n w. 700;
  nrm_da_cross_section = λ m a b p i c v e n. 800;
}

abbrev all_methods : ExperimentConfig ℕ
all_methods = record cfg {
  methods = "ti" ∷ "td" ∷ "lcp" ∷ "nrm" ∷ [];
  td = some (record td_block { extractors = "tw" ∷ "flow" ∷ [] });
}

abbrev ti_series : Dict ℕ
ti_series = ("ti:ve:v0->0", 100) ∷ ("ti:ve:v0->1", 101) ∷ []

abbrev td_series_run : Dict ℕ
td_series_run =
    ("td:ve:tw:v0->0", 401)
    ∷ ("td:ve:tw:v0->1", 402)
    ∷ ("td:ve:flow:v0->0", 401)
    ∷ ("td:ve:flow:v0->1", 402)
    ∷ []

abbrev finished : ExperimentResult solvers
finished = record {
  energies = 1;
  cross_sections =
      ti_series
      ++ (td_series_run
          ++ (("lcp:ve:v0->0", 500)
              ∷ ("lcp:ve:v0->1", 501)
              ∷ ("nrm-b:ve:v0->0", 700)
              ∷ ("nrm-b:ve:v0->1", 701)
              ∷ []));
  wavefunctions = [];
  resolved_cfg = resolve_defaults toy all_methods;
  grids = ("ti", 2) ∷ ("td", 2) ∷ [];
  cross_section_vs_time = [];
  correlations = [];
  eigenstates = [];
  resonance_states = [];
  resonance_levels = [];
}

all_methods_run : run_experiment solvers all_methods ≡ ok finished
unfolding run_experiment as_backend run_ti run_td run_lcp run_nrm finish_td write_columns
    vibrational_eigenstates known_model resolve_lcp_grids resolve_nrm_grids sweep resolve_surface_r
    nuc_grid_builders resolve_defaults fill_config fill_td find_preset presets resolve_grid
    resolve_test_function test_function_for_kind fill_packets kinds_in preset_test_function
    default_channels final_state show_ℤ show_ℕ
all_methods_run = refl

run_experiment-requested_example :
    NodupKeys finished.cross_sections
    × ((k : String)
        → has_key k finished.cross_sections
          ≡ contains k (requested (resolve_defaults toy all_methods)))
run_experiment-requested_example =
    run_experiment-requested solvers all_methods finished all_methods_run

td_run : series_of solvers td (resolve_defaults toy all_methods) ≡ ok td_series_run
unfolding run_td finish_td known_model resolve_defaults fill_config fill_td find_preset presets
    resolve_grid resolve_test_function test_function_for_kind fill_packets kinds_in
    preset_test_function default_channels final_state show_ℤ show_ℕ
td_run = refl

run_experiment_keeps_example : lookup "td:ve:flow:v0->1" finished.cross_sections ≡ some 402
unfolding resolve_defaults fill_config find_preset presets
run_experiment_keeps_example =
    run_experiment_keeps solvers td all_methods finished td_series_run all_methods_run refl td_run
      "td:ve:flow:v0->1" refl

-- A run of F2 that the checks accept.
abbrev levels : ExperimentConfig ℕ
levels = record cfg {
  molecule = "F2";
  methods = "ti" ∷ "lcp" ∷ [];
  observables = (record { kind = "resonance_levels"; channels = some (first_n (pos 2)) }) ∷ [];
}

levels_pass :
    validate_config toy (record { is_file = λ path dir. true; columns = λ path dir. none }) levels
    ≡ ok tt
unfolding validate_config check_methods check_kinds check_lcp check_extractors check_grid
    check_references find_preset presets
levels_pass = refl

run_experiment_refuses_levels_example : (e : Error) × (run_experiment solvers levels ≡ err e)
run_experiment_refuses_levels_example = run_experiment_refuses_levels solvers levels refl refl
