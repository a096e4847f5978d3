-- ===== src/Runner/Experiment.antt =====
-- `run_experiment` of apps/qscat-run/qscat_run/runner.py.
pub mod Names
pub mod Refused
pub mod Kept
pub mod Apart
use qscat.Prelude.{
  String, Bool, true, false, Option, none, some, List, [], ◌∷◌, ◌++◌, str_eq, if◌then◌else◌,
}
use qscat.Prelude.Text.{contains}
use qscat.Prelude.Dict.{Dict, insert}
use qscat.Python.{unknown_backend, Result, ok, raise_if, ◌>>=◌, ◌>>◌, Runtime}
use qscat.Config.Types.{EnergySpec, ExperimentConfig}
use qscat.Presets.Resolve.{resolve_defaults}
use qscat.Runner.Solvers.{Solvers, ExperimentResult}
use qscat.Runner.TimeIndependent.{TiRun, run_ti}
use qscat.Runner.TimeDependent.{TdRun, run_td}
use qscat.Runner.Lcp.{LcpRun, run_lcp}
use qscat.Runner.Nrm.{run_nrm}

-- `_VALID_BACKENDS`
abbrev pub valid_backends : List String
valid_backends = "auto" ∷ "scipy" ∷ "mumps" ∷ []

-- `_as_backend`, which only checks the name.
unfoldable pub as_backend : String → Result (Unit {0})
as_backend name =
    raise_if (if contains name valid_backends then false else true) (unknown_backend name)

-- `d.update(e)`
abbrev pub merge {ℓ} : {V : Type ℓ} → Dict V → Dict V → Dict V
merge d [] = d
merge d ((k, v) ∷ e) = merge (insert k v d) e

module _ {R : Runtime} (S : Solvers R) where
  abbrev pub energies_of : Option (EnergySpec R.Float) → S.Array → S.Array
  energies_of none old = old
  energies_of (some e) old = S.as_array e

  -- A result before the first method.
  abbrev pub no_result : ExperimentConfig R.Float → ExperimentResult S
  no_result cfg = record {
    energies = S.empty;
    cross_sections = [];
    wavefunctions = [];
    resolved_cfg = cfg;
    grids = [];
    cross_section_vs_time = [];
    correlations = [];
    eigenstates = [];
    resonance_states = [];
    resonance_levels = [];
  }

  abbrev pub with_ti : ExperimentConfig R.Float → ExperimentResult S → TiRun S → ExperimentResult S
  with_ti cfg r run = record r {
    energies = energies_of cfg.energies r.energies;
    cross_sections = merge r.cross_sections run.cross_sections;
    wavefunctions = r.wavefunctions ++ run.wavefunctions;
    eigenstates = r.eigenstates ++ run.eigenstates;
    grids = insert "ti" run.grid r.grids;
  }

  abbrev pub with_td : ExperimentConfig R.Float → ExperimentResult S → TdRun S → ExperimentResult S
  with_td cfg r run = record r {
    energies = energies_of cfg.energies r.energies;
    cross_sections = merge r.cross_sections run.cross_sections;
    cross_section_vs_time = merge r.cross_section_vs_time run.cross_section_vs_time;
    correlations = merge r.correlations run.correlations;
    wavefunctions = r.wavefunctions ++ run.wavefunctions;
    eigenstates = r.eigenstates ++ run.eigenstates;
    grids = insert "td" run.grid r.grids;
  }

  abbrev pub with_lcp :
      ExperimentConfig R.Float → ExperimentResult S → LcpRun S → ExperimentResult S
  with_lcp cfg r run = record r {
    energies = energies_of cfg.energies r.energies;
    cross_sections = merge r.cross_sections run.cross_sections;
    eigenstates = r.eigenstates ++ run.eigenstates;
    resonance_states = r.resonance_states ++ run.resonance_states;
    resonance_levels = r.resonance_levels ++ run.resonance_levels;
  }

  abbrev pub with_nrm :
      ExperimentConfig R.Float → ExperimentResult S → Dict S.Array → ExperimentResult S
  with_nrm cfg r series = record r {
    energies = energies_of cfg.energies r.energies;
    cross_sections = merge r.cross_sections series;
  }

  -- `if method in resolved.methods: ...`
  abbrev pub if_requested :
      {A : Type 0}
      → String
      → ExperimentConfig R.Float
      → Result A
      → (ExperimentResult S → A → ExperimentResult S)
      → ExperimentResult S
      → Result (ExperimentResult S)
  if_requested method cfg run add r =
      if contains method cfg.methods then (run >>= λ found. ok (add r found)) else ok r

  -- The four methods, on a resolved config.
  unfoldable pub run_methods : ExperimentConfig R.Float → Result (ExperimentResult S)
  run_methods cfg =
      if_requested "ti" cfg (run_ti S cfg) (with_ti cfg) (no_result cfg)
      >>= if_requested "td" cfg (run_td S cfg) (with_td cfg)
      >>= if_requested "lcp" cfg (run_lcp S cfg) (with_lcp cfg)
      >>= if_requested "nrm" cfg (run_nrm S cfg) (with_nrm cfg)

  -- `run_experiment`
  unfoldable pub run_experiment : ExperimentConfig R.Float → Result (ExperimentResult S)
  unfolding run_methods
  run_experiment cfg =
      let resolved = resolve_defaults R cfg in as_backend resolved.backend >> run_methods resolved
