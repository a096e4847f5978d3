-- ===== src/Config/Types.antt =====
-- The frozen dataclasses of apps/qscat-run/qscat_run/config.py and `ReferenceSpec` of
-- apps/qscat-run/qscat_run/reference.py, field by field. `F` is the type of floats.
use qscat.Prelude.{String, Bool, true, Option, List, [], ◌∷◌}
use qscat.Prelude.Dict.{Dict}
use qscat.Python.{ℤ, pos}

-- `int | tuple[int, ...]`
pub data Channels : Type 0 where
  first_n : ℤ → Channels
  listed : List ℤ → Channels

pub record Observable : Type 0 where
  pub kind : String
  pub channels : Option Channels

pub record EnergyRange (F : Type 0) : Type 0 where
  pub start : F
  pub stop : F
  pub step : F

pub record EnergySpec (F : Type 0) : Type 0 where
  pub values : Option (List F)
  pub ranges : Option (List (EnergyRange F))

pub record EcsSpec (F : Type 0) : Type 0 where
  pub angle : F
  pub elements : ℤ
  pub quadrature : ℤ

pub record SegmentSpec (F : Type 0) : Type 0 where
  pub real : List (ℤ × F)
  pub ecs : EcsSpec F

pub record GridSpec (F : Type 0) : Type 0 where
  pub preset : Option String
  pub electronic : Option (SegmentSpec F)
  pub nuclear : Option (SegmentSpec F)
  pub nuclear_angle_b : Option F

pub record IncidentSpec (F : Type 0) : Type 0 where
  pub r0 : F
  pub p0 : F
  pub sigma : F

pub record TestFunctionSpec (F : Type 0) : Type 0 where
  pub r0_out : F
  pub p0_out : F
  pub sigma_out : F

pub record TdSpec (F : Type 0) : Type 0 where
  pub dt : F
  pub n_steps : ℤ
  pub order : ℤ
  pub extractors : List String
  pub incident : Option (IncidentSpec F)
  pub test_function : Option (TestFunctionSpec F)
  pub test_functions : Option (Dict (TestFunctionSpec F))

pub record NrmSpec : Type 0 where
  pub choices : List String
  pub n_states : ℤ
  pub include_background : Bool

-- `NrmSpec()`
abbrev pub default_nrm : NrmSpec
default_nrm = record { choices = "b" ∷ []; n_states = pos 100; include_background = true }

pub record CrossSectionVsTimeSpec (F : Type 0) : Type 0 where
  pub moments : List F

pub record WavefunctionSnapshotsSpec (F : Type 0) : Type 0 where
  pub td_times : List F
  pub ti_energies : List F
  pub full_field : Bool

pub record ArtifactSpec (F : Type 0) : Type 0 where
  pub cross_section : Bool
  pub cross_section_vs_time : Option (CrossSectionVsTimeSpec F)
  pub correlations : Bool
  pub wavefunction_snapshots : Option (WavefunctionSnapshotsSpec F)
  pub eigenstates : Bool
  pub resonance_levels : Bool

pub record ReferenceSpec : Type 0 where
  pub path : String
  pub format : String
  pub label : Option String
  pub channels : Option (List ℤ)

pub record ExperimentConfig (F : Type 0) : Type 0 where
  pub molecule : String
  pub methods : List String
  pub observables : List Observable
  pub output_dir : String
  pub energies : Option (EnergySpec F)
  pub grid : GridSpec F
  pub v_init : ℤ
  pub td : Option (TdSpec F)
  pub nrm : Option NrmSpec
  pub artifacts : ArtifactSpec F
  pub reference : List ReferenceSpec
  pub backend : String
  pub config_dir : Option String
