-- ===== src/Presets/Table.antt =====
-- The tables of presets.py: `MODELS`, `VALIDITY`, `WARN_OBSERVABLES` and `PRESETS`.
use qscat.Prelude.{String, ℕ, Option, none, some, List, [], ◌∷◌}
use qscat.Prelude.Text.{◌<>◌}
use qscat.Prelude.Dict.{Dict, lookup}
use qscat.Python.{pos, negsuc, Runtime}
use qscat.Config.Types.{IncidentSpec, TestFunctionSpec}
use qscat.Config.Load.Energies.{sweep}
use qscat.Presets.Decks.{
  TensorBuilder, n2_ti_grid, n2_td_grid, no_ti_grid, no_td_grid, f2_ti_grid, f2_td_grid, o2_ti_grid,
  h2p_full_grid, h2p_proxy_grid, n2_lcp_grids, no_lcp_grids, f2_lcp_grids, n2_nrm_elec_b,
  diatomic_nrm_elec_b, MoleculePreset,
}

-- The keys of `MODELS`; the models themselves are the qscat library's.
abbrev pub models : List String
models = "N2" ∷ "NO" ∷ "F2" ∷ "H2P" ∷ "O2" ∷ "O2_SO12" ∷ "O2_SO32" ∷ []

abbrev pub validity : Dict (List String)
validity =
    ("N2", "ve" ∷ "da" ∷ [])
    ∷ ("NO", "ve" ∷ "da" ∷ "resonance_levels" ∷ [])
    ∷ ("F2", "ve" ∷ "da" ∷ "resonance_levels" ∷ [])
    ∷ ("H2P", "dr" ∷ [])
    ∷ ("O2", "ve" ∷ [])
    ∷ ("O2_SO12", "ve" ∷ [])
    ∷ ("O2_SO32", "ve" ∷ [])
    ∷ []

abbrev pub warn_observables : Dict (List String)
warn_observables = ("N2", "da" ∷ []) ∷ []

abbrev pub default_preset : String
default_preset = "emoscat"

-- `table.get(key, frozenset())`
abbrev pub get_set : String → Dict (List String) → List String
get_set k d = elim (lookup k d) [ none ↦ [] | some s ↦ s ]

module _ (R : Runtime) where
  -- m * 10 ^ -k and its negation
  abbrev dec : ℕ → ℕ → R.Float
  dec m k = R.decimal (pos m) k

  abbrev packet : R.Float → R.Float → R.Float → TestFunctionSpec R.Float
  packet r p s = record { r0_out = r; p0_out = p; sigma_out = s }

  abbrev incident : R.Float → R.Float → R.Float → IncidentSpec R.Float
  incident r p s = record { r0 = r; p0 = p; sigma = s }

  abbrev f2_da_test_function : TestFunctionSpec R.Float
  f2_da_test_function = packet (dec 80 1) (dec 720 1) (dec 7 2)

  abbrev f2_da_surface : R.Float
  f2_da_surface = dec 60 1

  abbrev h2p_dr_test_function : TestFunctionSpec R.Float
  h2p_dr_test_function = packet (dec 120 1) (dec 150 1) (dec 4 1)

  abbrev h2p_dr_surface : R.Float
  h2p_dr_surface = dec 120 1

  abbrev pub n2_emoscat : MoleculePreset R.Float
  n2_emoscat = record {
    molecule = "N2";
    variant = "emoscat";
    ti_grid = n2_ti_grid;
    td_grid = n2_td_grid;
    default_energies = sweep R (dec 5 3) (dec 20 2) (dec 5 3);
    default_incident = incident (dec 250 1) (R.decimal (negsuc 4) 1) (dec 50 1);
    valid_observables = get_set "N2" validity;
    n_vib = pos 6;
    ve_test_function = some (packet (dec 350 1) (dec 5 1) (dec 40 1));
    da_test_function = some f2_da_test_function;
    da_surface = some f2_da_surface;
    dr_test_function = none;
    dr_surface = none;
    lcp_grids = some n2_lcp_grids;
    nrm_elec_b = some n2_nrm_elec_b;
  }

  abbrev no_emoscat : MoleculePreset R.Float
  no_emoscat = record {
    molecule = "NO";
    variant = "emoscat";
    ti_grid = no_ti_grid;
    td_grid = no_td_grid;
    default_energies = sweep R (dec 4 3) (dec 120 3) (dec 4 3);
    default_incident = incident (dec 200 1) (R.decimal (negsuc 3) 1) (dec 40 1);
    valid_observables = get_set "NO" validity;
    n_vib = pos 4;
    ve_test_function = some (packet (dec 240 1) (dec 4 1) (dec 30 1));
    da_test_function = some f2_da_test_function;
    da_surface = some f2_da_surface;
    dr_test_function = none;
    dr_surface = none;
    lcp_grids = some no_lcp_grids;
    nrm_elec_b = some diatomic_nrm_elec_b;
  }

  abbrev f2_emoscat : MoleculePreset R.Float
  f2_emoscat = record {
    molecule = "F2";
    variant = "emoscat";
    ti_grid = f2_ti_grid;
    td_grid = f2_td_grid;
    default_energies = sweep R (dec 4 3) (dec 100 3) (dec 4 3);
    default_incident = incident (dec 200 1) (R.decimal (negsuc 3) 1) (dec 40 1);
    valid_observables = get_set "F2" validity;
    n_vib = pos 4;
    ve_test_function = some (packet (dec 240 1) (dec 4 1) (dec 30 1));
    da_test_function = some f2_da_test_function;
    da_surface = some f2_da_surface;
    dr_test_function = none;
    dr_surface = none;
    lcp_grids = some f2_lcp_grids;
    nrm_elec_b = some diatomic_nrm_elec_b;
  }

  -- O2 and its two spin-orbit components share one deck.
  abbrev o2_tuner : String → MoleculePreset R.Float
  o2_tuner molecule = record {
    molecule = molecule;
    variant = "tuner";
    ti_grid = o2_ti_grid;
    td_grid = o2_ti_grid;
    default_energies = sweep R (dec 2 3) (dec 100 3) (dec 1 3);
    default_incident = incident (dec 120 1) (R.decimal (negsuc 4) 1) (dec 30 1);
    valid_observables = get_set molecule validity;
    n_vib = pos 12;
    ve_test_function = some (packet (dec 140 1) (dec 5 1) (dec 30 1));
    da_test_function = none;
    da_surface = none;
    dr_test_function = none;
    dr_surface = none;
    lcp_grids = none;
    nrm_elec_b = none;
  }

  -- The two H2P decks differ in their grids and in where the incident packet starts.
  abbrev h2p : String → TensorBuilder → R.Float → MoleculePreset R.Float
  h2p variant builder r0 = record {
    molecule = "H2P";
    variant = variant;
    ti_grid = builder;
    td_grid = builder;
    default_energies = sweep R (dec 1 3) (dec 50 3) (dec 1 3);
    default_incident = incident r0 (R.decimal (negsuc 24) 2) (dec 80 1);
    valid_observables = get_set "H2P" validity;
    n_vib = pos 4;
    ve_test_function = none;
    da_test_function = none;
    da_surface = none;
    dr_test_function = some h2p_dr_test_function;
    dr_surface = some h2p_dr_surface;
    lcp_grids = none;
    nrm_elec_b = none;
  }

  unfoldable pub presets : Dict (MoleculePreset R.Float)
  presets =
      ("N2:emoscat", n2_emoscat)
      ∷ ("NO:emoscat", no_emoscat)
      ∷ ("F2:emoscat", f2_emoscat)
      ∷ ("O2:tuner", o2_tuner "O2")
      ∷ ("O2_SO12:tuner", o2_tuner "O2_SO12")
      ∷ ("O2_SO32:tuner", o2_tuner "O2_SO32")
      ∷ ("H2P:emoscat", h2p "emoscat" h2p_full_grid (dec 8000 1))
      ∷ ("H2P:proxy", h2p "proxy" h2p_proxy_grid (dec 400 1))
      ∷ []

  -- `PRESETS.get(f"{molecule}:{variant}")`
  unfoldable pub find_preset : String → String → Option (MoleculePreset R.Float)
  unfolding presets
  find_preset molecule variant = lookup (molecule <> ":" <> variant) presets
