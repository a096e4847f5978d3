-- ===== src/Config/Load.antt =====
-- `load_config` of apps/qscat-run/qscat_run/config.py, from what `yaml.safe_load` returned.
pub mod Common
pub mod Energies
pub mod Grid
pub mod Td
pub mod Artifacts
use qscat.Prelude.{String, Bool, not, some, List, [], ◌∷◌, map, is_nil, if◌then◌else◌}
use qscat.Python.{
  ℤ, pos, missing_keys, molecule_is_bool, Result, ok, raise, ◌>>=◌, ◌>>◌, raise_if, Value, null,
  bool, int, float, text, seq, mapping, end, is_null, Runtime,
}
use qscat.Python.Convert.{member, index, iterate, get, get_default, truthy, to_int, to_text}
use qscat.Config.Types.{ExperimentConfig}
use Energies.{load_energies}
use Grid.{load_grid}
use Td.{load_td, load_nrm}
use Artifacts.{load_artifacts, load_observables, load_reference}

abbrev pub required_keys : List String
required_keys = "molecule" ∷ "methods" ∷ "observables" ∷ "output_dir" ∷ []

module _ (R : Runtime) where
  -- `_molecule_name`: YAML 1.1 reads a bare NO as a Boolean.
  unfoldable pub molecule_name : Value R.Float → Result String
  molecule_name (bool b) = raise (molecule_is_bool b)
  molecule_name raw = ok (to_text R raw)

  -- `[k for k in keys if k not in raw]`
  abbrev pub missing_from : Value R.Float → List String → Result (List String)
  missing_from raw [] = ok []
  missing_from raw (k ∷ ks) = do
    there ← member k raw
    rest ← missing_from raw ks
    ok (if there then rest else k ∷ rest)

  -- `config_dir` is the directory of the file that `loaded` was read from.
  unfoldable pub load_config : String → Value R.Float → Result (ExperimentConfig R.Float)
  unfolding molecule_name
  load_config config_dir loaded = do
    let raw = if truthy R loaded then loaded else mapping end
    missing ← missing_from raw required_keys
    raise_if (not (is_nil missing)) (missing_keys missing)
    molecule_raw ← index raw "molecule"
    molecule ← molecule_name molecule_raw
    methods_raw ← index raw "methods"
    methods ← iterate methods_raw
    observables_raw ← index raw "observables"
    observables_list ← iterate observables_raw
    observables ← load_observables R 0 observables_list
    output_dir ← index raw "output_dir"
    energies_raw ← get raw "energies"
    energies ← load_energies R energies_raw
    grid_raw ← get raw "grid"
    grid ← load_grid R grid_raw
    v_init_raw ← get_default raw "v_init" (int (pos 0))
    v_init ← to_int R v_init_raw
    td_raw ← get raw "td"
    td ← load_td R td_raw
    nrm_raw ← get raw "nrm"
    nrm ← load_nrm R nrm_raw
    artifacts_raw ← get raw "artifacts"
    artifacts ← load_artifacts R artifacts_raw
    reference_raw ← get raw "reference"
    reference ← load_reference R reference_raw
    backend ← get_default raw "backend" (text "auto")
    ok (record {
      molecule = molecule;
      methods = map (to_text R) methods;
      observables = observables;
      output_dir = to_text R output_dir;
      energies = energies;
      grid = grid;
      v_init = v_init;
      td = td;
      nrm = nrm;
      artifacts = artifacts;
      reference = reference;
      backend = to_text R backend;
      config_dir = some config_dir;
    })
