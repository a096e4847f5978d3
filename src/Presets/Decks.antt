-- ===== src/Presets/Decks.antt =====
-- `MoleculePreset` of presets.py. A grid builder is a function without arguments, so it stands here
-- as its name; what it builds is the business of the qscat library.
use qscat.Prelude.{String, Option, List}
use qscat.Python.{ℤ}
use qscat.Config.Types.{EnergySpec, IncidentSpec, TestFunctionSpec, SegmentSpec}

pub data TensorBuilder : Type 0 where
  n2_ti_grid n2_td_grid no_ti_grid no_td_grid f2_ti_grid f2_td_grid : TensorBuilder
  o2_ti_grid h2p_full_grid h2p_proxy_grid : TensorBuilder

pub data LcpBuilder : Type 0 where
  n2_lcp_grids no_lcp_grids f2_lcp_grids : LcpBuilder

pub data ElectronicBuilder : Type 0 where
  n2_nrm_elec_b diatomic_nrm_elec_b : ElectronicBuilder

pub record MoleculePreset (F : Type 0) : Type 0 where
  pub molecule : String
  pub variant : String
  pub ti_grid : TensorBuilder
  pub td_grid : TensorBuilder
  pub default_energies : EnergySpec F
  pub default_incident : IncidentSpec F
  pub valid_observables : List String
  pub n_vib : ℤ
  pub ve_test_function : Option (TestFunctionSpec F)
  pub da_test_function : Option (TestFunctionSpec F)
  pub da_surface : Option F
  pub dr_test_function : Option (TestFunctionSpec F)
  pub dr_surface : Option F
  pub lcp_grids : Option LcpBuilder
  pub nrm_elec_b : Option ElectronicBuilder

-- The grid that a run computes on: what an explicit pair of segments builds, or what a preset's
-- builder does.
pub data Grid (F : Type 0) : Type 0 where
  explicit : SegmentSpec F → SegmentSpec F → Grid F
  built : TensorBuilder → Grid F
