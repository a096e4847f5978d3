-- ===== src/Runner/Solvers.antt =====
-- What apps/qscat-run/qscat_run/runner.py calls of the qscat library and of numpy, and the records of
-- its results. Arrays of every shape and type are one abstract type. A solver is taken to return.
use qscat.Prelude.{ℕ, String, Bool, Option, List}
use qscat.Prelude.Dict.{Dict}
use qscat.Python.{ℤ, Runtime}
use qscat.Config.Types.{EnergySpec, IncidentSpec, TestFunctionSpec, ExperimentConfig}
use qscat.Presets.Decks.{Grid, TensorBuilder, LcpBuilder, ElectronicBuilder}
use qscat.Presets.Segments.{Deck}

-- `WavefunctionSnapshot`
pub record WavefunctionSnapshot (A : Type 0) : Type 0 where
  pub kind : String
  pub label : String
  pub rho_r : A
  pub rho_R : A
  pub axis_r : A
  pub axis_R : A
  pub psi : Option A

-- `EigenStates`
pub record EigenStates (A : Type 0) : Type 0 where
  pub kind : String
  pub label : String
  pub energies : A
  pub states : A
  pub axis : A

-- `ResonanceState`; a complex number is an array here.
pub record ResonanceState (A : Type 0) : Type 0 where
  pub label : String
  pub position : A
  pub energy : A
  pub width : A
  pub state : A
  pub axis : A

-- `ResonanceLevelsRun`
pub record ResonanceLevelsRun (A : Type 0) : Type 0 where
  pub label : String
  pub levels : A
  pub axis : A
  pub v_d : A
  pub gamma : A
  pub r0 : A

-- The eigenvalues and eigenstates of `vibrational_states`.
pub record Basis (A : Type 0) : Type 0 where
  pub eps : A
  pub chi : A

-- A snapshot that `propagate` takes.
pub record TimeSnapshot (F A : Type 0) : Type 0 where
  pub time : F
  pub rho_r : A
  pub rho_R : A
  pub psi : Option A

-- The class of an extractor.
pub data ExtractorKind : Type 0 where
  tannor_weeks dirac flux : ExtractorKind

pub data ExtractorAxis : Type 0 where
  electronic nuclear : ExtractorAxis

pub record Solvers (R : Runtime) : Type 1 where
  pub Array : Type 0
  pub Tensor : Type 0
  pub Fem : Type 0
  pub Extractor : Type 0
  -- `f"{x:g}"`
  pub show_g : R.Float → String
  -- `round(t / dt)`
  pub rounds : R.Float → R.Float → ℤ
  -- `sigma[:, k]`
  pub column : Array → ℕ → Array
  pub empty : Array
  pub array : List R.Float → Array
  pub arrays : List Array → Array
  pub as_array : EnergySpec R.Float → Array
  -- The grids.
  pub tensor : Grid R.Float → Tensor
  pub lcp_decks : LcpBuilder → Fem × Fem × Fem
  pub nrm_decks : TensorBuilder × ElectronicBuilder → Fem × Fem × Fem
  pub deck : Deck R.Float → Fem
  pub electronic_of : Tensor → Fem
  pub nuclear_of : Tensor → Fem
  pub real_points : Fem → Array
  pub rotation_origin : Fem → Array
  pub real_index_near : Fem → R.Float → ℕ
  -- `max(el.angle_deg for el in g.spec.elements) - 10.0`
  pub lower_angle : Fem → R.Float
  pub real_nodes_descending : Fem → Array
  -- `_masked_field` and `_project_density`
  pub masked_field : Tensor → Array → Array
  pub project_density : Tensor → Array → Array × Array
  -- The exact solvers of one molecule.
  pub vibrational_states : String → Fem → ℤ → Basis Array
  pub ve_cross_section : String → Tensor → Basis Array → ℤ → List ℤ → Array → Array
  pub da_cross_section : String → Tensor → Basis Array → ℤ → ℤ → Array → Array
  pub dr_cross_section : String → Tensor → Basis Array → ℤ → ℤ → Array → Array
  pub ve_wavefunction : String → Tensor → Basis Array → ℤ → R.Float → Option Array
  -- The propagation: what it does to an extractor, with the interaction or without it.
  pub initial_state : Tensor → Array → ℤ → IncidentSpec R.Float → Array
  pub extractor :
      ExtractorKind
      → String
      → Tensor
      → Basis Array
      → ℤ
      → List ℤ
      → TestFunctionSpec R.Float
      → IncidentSpec R.Float
      → R.Float
      → ℕ
      → ExtractorAxis
      → ℤ
      → Extractor
  pub propagate : String → Tensor → Array → R.Float → ℤ → ℤ → Extractor → Extractor
  pub propagate_free : String → Tensor → Array → R.Float → ℤ → ℤ → Extractor → Extractor
  pub snapshots :
      String
      → Tensor
      → Array
      → R.Float
      → ℤ
      → ℤ
      → List R.Float
      → Bool
      → List (TimeSnapshot R.Float Array)
  pub sigma : Extractor → Array → Option Extractor → Option ℤ → Array
  -- The series that a `Flux` and another extractor have recorded.
  pub flux_series : Extractor → Array × Array × Array
  pub correlation : Extractor → Array × Array
  -- The local complex potential.
  pub resonance_levels : String → Fem → Fem → Fem → Fem → R.Float → Option ℤ → Array × Array × Array
  pub local_complex_potential : String → Fem → Fem → Fem → R.Float → Array × Array
  pub lcp_ve_cross_section : String → Fem → Array → Array → Basis Array → ℤ → List ℤ → Array → Array
  pub lcp_da_cross_section : String → Fem → Array → Array → Basis Array → ℤ → Array → Array
  pub lcp_wavefunction : String → Fem → Array → Array → Basis Array → ℤ → R.Float → Option Array
  -- `none`: there is no resolvable resonance width. Else its position, pole, width and state.
  pub peak_eigenstate : String → Fem → Fem → Fem → Option (Array × Array × Array × Array)
  -- The nonlocal resonance model: a discrete state with its ingredients.
  pub physical_state : String → Fem → Fem → Array → Array
  pub asymptotic_state : String → Fem → Array → Array
  pub nrm_ingredients : String → Fem → Array → Array → Array
  pub nrm_ve_cross_section :
      String → Fem → Fem → Array → Array → Basis Array → ℤ → List ℤ → Array → ℤ → Bool → Array
  pub nrm_da_cross_section :
      String → Fem → Fem → Array → Array → Basis Array → ℤ → Array → ℤ → Array

-- `ExperimentResult`, without its timings.
pub record ExperimentResult {R : Runtime} (S : Solvers R) : Type 0 where
  pub energies : S.Array
  pub cross_sections : Dict S.Array
  pub wavefunctions : List (WavefunctionSnapshot S.Array)
  pub resolved_cfg : ExperimentConfig R.Float
  pub grids : Dict S.Tensor
  pub cross_section_vs_time : Dict S.Array
  pub correlations : Dict S.Array
  pub eigenstates : List (EigenStates S.Array)
  pub resonance_states : List (ResonanceState S.Array)
  pub resonance_levels : List (ResonanceLevelsRun S.Array)
