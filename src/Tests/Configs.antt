-- ===== src/Tests/Configs.antt =====
-- The config of an N2 run with two methods, and one of an O2 run that names no grid.
use package.text.Mathlib.TextEquality.{eq_iff}
use qscat.Prelude.{
  ℕ, String, ◌≡◌, ◌≢◌, refl, true, false, none, some, [], ◌∷◌, arith, if◌then◌else◌,
}
use qscat.Prelude.Text.{contains}
use qscat.Prelude.Dict.{lookup}
use qscat.Python.{
  pos, ok, raise, no_preset, Value, text, float, int, a_dict, a_list, entry, step_not_positive,
}
use qscat.Config.Types.{EnergySpec, first_n, TestFunctionSpec, TdSpec, ExperimentConfig}
use qscat.Config.Load.{load_config, molecule_name}
use qscat.Config.Load.Common.{require, block_of, require_float, require_int}
use qscat.Config.Load.Energies.{
  sweep, parse_energies, from_sweep, load_form, count_forms, load_energies,
}
use qscat.Config.Load.Grid.{load_grid}
use qscat.Config.Load.Td.{
  load_packet, load_packets, load_test_functions, load_either, parse_td, load_td, load_nrm,
}
use qscat.Config.Load.Artifacts.{
  parse_channels, load_observable, load_observables, load_artifacts, load_reference,
}
use qscat.Config.Dump.{config_to_dict, dump_energies}
use qscat.Config.RoundTrip.Td.{OneForm}
use qscat.Config.RoundTrip.Readable.{IsReadable, load_config-dump}
use qscat.Config.RoundTrip.Reload.{SweepsForward, load_config-reload, backward_sweep}
use qscat.Presets.Decks.{MoleculePreset}
use qscat.Presets.Table.{n2_emoscat, find_preset, presets}
use qscat.Presets.Resolve.{
  or_else, fill_packets, resolve_grid, resolve_test_function, resolve_defaults,
}
use qscat.Presets.Resolve.Packets.{chosen, lookup-fill_packets}
use qscat.Presets.Resolve.Defaults.{resolve_defaults_twice, resolve_test_function-resolve_defaults}
use qscat.Tests.Toy.{toy, toy-IsLowering}

abbrev packet_value : Value ℕ
packet_value = a_dict (("r0_out", float 3) ∷ ("p0_out", float 2) ∷ ("sigma_out", float 1) ∷ [])

abbrev document : Value ℕ
document = a_dict (
    ("molecule", text "N2")
    ∷ ("methods", a_list (text "ti" ∷ text "td" ∷ []))
    ∷ ("observables", a_list (a_dict (("kind", text "ve") ∷ ("channels", int (pos 2)) ∷ []) ∷ []))
    ∷ ("output_dir", text "out")
    ∷ ("energies", a_dict (("min", float 1) ∷ ("max", float 5) ∷ ("step", float 1) ∷ []))
    ∷ (
      "td",
      a_dict (
          ("dt", float 1)
          ∷ ("n_steps", int (pos 10))
          ∷ ("test_function", a_dict (("ve", packet_value) ∷ []))
          ∷ []),
    )
    ∷ [])

abbrev outgoing : TestFunctionSpec ℕ
outgoing = record { r0_out = 3; p0_out = 2; sigma_out = 1 }

abbrev pub td : TdSpec ℕ
td = record {
  dt = 1;
  n_steps = pos 10;
  order = pos 3;
  extractors = [];
  incident = none;
  test_function = none;
  test_functions = some (("ve", outgoing) ∷ []);
}

abbrev pub cfg : ExperimentConfig ℕ
cfg = record {
  molecule = "N2";
  methods = "ti" ∷ "td" ∷ [];
  observables = (record { kind = "ve"; channels = some (first_n (pos 2)) }) ∷ [];
  output_dir = "out";
  energies = some (sweep toy 1 5 1);
  grid = record { preset = none; electronic = none; nuclear = none; nuclear_angle_b = none };
  v_init = pos 0;
  td = some td;
  nrm = none;
  artifacts = record {
    cross_section = true;
    cross_section_vs_time = none;
    correlations = false;
    wavefunction_snapshots = none;
    eigenstates = false;
    resonance_levels = false;
  };
  reference = [];
  backend = "auto";
  config_dir = some "runs";
}

document_loads : load_config toy "runs" document ≡ ok cfg
unfolding load_config molecule_name require block_of require_float require_int sweep parse_energies
    from_sweep load_form count_forms load_energies load_grid load_packet load_packets
    load_test_functions load_either parse_td load_td load_nrm parse_channels load_observable
    load_observables load_artifacts load_reference
document_loads = refl

one_form :
    (a b : EnergySpec ℕ)
    → some a ≡ some b
    → OneForm toy a.values a.ranges
    → OneForm toy b.values b.ranges
one_form a b h given = let same : a ≡ b = cc in rw (← same) given

goes_forward : SweepsForward toy cfg.energies
unfolding sweep
goes_forward e h _ = one_form (sweep toy 1 5 1) e h ((refl, refl), tt)

load_config-reload_example :
    load_config toy "other" (config_to_dict cfg) ≡ ok (record cfg { config_dir = some "other" })
load_config-reload_example =
    load_config-reload toy toy-IsLowering "runs" "other" document cfg document_loads goes_forward

cfg-IsReadable : IsReadable toy cfg
unfolding sweep
cfg-IsReadable = record {
  energies = ((refl, refl), tt);
  packets = (refl, (refl, tt));
  choices = tt;
}

load_config-dump_example :
    load_config toy "other" (config_to_dict cfg) ≡ ok (record cfg { config_dir = some "other" })
load_config-dump_example = load_config-dump toy "other" cfg cfg-IsReadable

backward_sweep_example :
    (load_energies toy (a_dict (("min", float 5) ∷ ("max", float 1) ∷ ("step", float 0) ∷ []))
      ≡ ok (some (sweep toy 5 1 0)))
    × (load_energies toy (dump_energies (sweep toy 5 1 0))
        ≡ raise (step_not_positive (entry "energies.ranges" 0)))
backward_sweep_example = backward_sweep toy 5 1 0 refl

resolve_defaults_twice_example :
    resolve_defaults toy (resolve_defaults toy cfg) ≡ resolve_defaults toy cfg
resolve_defaults_twice_example = resolve_defaults_twice toy cfg

resolve_test_function-resolve_defaults_example :
    resolve_test_function toy (resolve_defaults toy cfg) "ve" ≡ resolve_test_function toy cfg "ve"
resolve_test_function-resolve_defaults_example = resolve_test_function-resolve_defaults toy cfg "ve"

abbrev attachment : String
attachment = "da"

nuclear_kind : attachment ≢ "ve"
nuclear_kind h = ground (arith, eq_iff "da" "ve")

-- The N2 deck.
abbrev n2 : MoleculePreset ℕ
n2 = n2_emoscat toy

n2_found : find_preset toy "N2" "emoscat" ≡ some n2
unfolding find_preset presets
n2_found = refl

lookup-fill_packets_example :
    lookup "da" (fill_packets toy td n2 ("ve" ∷ "da" ∷ []) ("ve" ∷ "da" ∷ []) [])
    ≡ or_else none (
        if contains "da" ("ve" ∷ "da" ∷ []) then chosen toy td n2 ("ve" ∷ "da" ∷ []) "da" else none)
lookup-fill_packets_example =
    lookup-fill_packets toy td n2 ("ve" ∷ "da" ∷ []) "da" ("ve" ∷ "da" ∷ []) []

-- O2 has no deck of the default name, so a config that names none has no grid.
o2_has_no_default :
    resolve_grid toy (record cfg { molecule = "O2" }) "ti" ≡ raise (no_preset "emoscat")
unfolding resolve_grid find_preset presets
o2_has_no_default = refl
