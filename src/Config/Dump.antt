-- ===== src/Config/Dump.antt =====
-- `_config_to_dict` of apps/qscat-run/qscat_run/artifacts.py: `dataclasses.asdict` on the resolved
-- config, the value that `config.resolved.yaml` holds (`yaml.safe_dump` writes a tuple as a list).
-- A field that is `None` is present and null.
use qscat.Prelude.{Option, none, some, List, [], ◌∷◌, map}
use qscat.Prelude.Dict.{Dict}
use qscat.Python.{ℤ, Value, null, bool, int, float, text, a_list, a_dict}
use qscat.Config.Types.{
  Channels, first_n, listed, Observable, EnergyRange, EnergySpec, SegmentSpec, GridSpec,
  IncidentSpec, TestFunctionSpec, TdSpec, NrmSpec, CrossSectionVsTimeSpec,
  WavefunctionSnapshotsSpec, ArtifactSpec, ReferenceSpec, ExperimentConfig,
}

module _ {F : Type 0} where
  abbrev pub dump_option {ℓ} : {A : Type ℓ} → (A → Value F) → Option A → Value F
  dump_option f none = null
  dump_option f (some a) = f a

  abbrev pub dump_list {ℓ} : {A : Type ℓ} → (A → Value F) → List A → Value F
  dump_list f xs = a_list (map f xs)

  unfoldable pub dump_channels : Channels → Value F
  dump_channels (first_n n) = int n
  dump_channels (listed cs) = dump_list int cs

  abbrev pub dump_observable : Observable → Value F
  dump_observable o =
      a_dict (("kind", text o.kind) ∷ ("channels", dump_option dump_channels o.channels) ∷ [])

  abbrev pub dump_range : EnergyRange F → Value F
  dump_range r =
      a_dict (("start", float r.start) ∷ ("stop", float r.stop) ∷ ("step", float r.step) ∷ [])

  unfoldable pub dump_energies : EnergySpec F → Value F
  dump_energies e = a_dict (
      ("values", dump_option (dump_list float) e.values)
      ∷ ("ranges", dump_option (dump_list dump_range) e.ranges)
      ∷ [])

  abbrev pub dump_pair : ℤ × F → Value F
  dump_pair (n, stop) = a_list (int n ∷ float stop ∷ [])

  unfoldable pub dump_segment : SegmentSpec F → Value F
  dump_segment s = a_dict (
      ("real", dump_list dump_pair s.real)
      ∷ (
        "ecs",
        a_dict (
            ("angle", float s.ecs.angle)
            ∷ ("elements", int s.ecs.elements)
            ∷ ("quadrature", int s.ecs.quadrature)
            ∷ []),
      )
      ∷ [])

  unfoldable pub dump_grid : GridSpec F → Value F
  dump_grid g = a_dict (
      ("preset", dump_option text g.preset)
      ∷ ("electronic", dump_option dump_segment g.electronic)
      ∷ ("nuclear", dump_option dump_segment g.nuclear)
      ∷ ("nuclear_angle_b", dump_option float g.nuclear_angle_b)
      ∷ [])

  abbrev pub dump_incident : IncidentSpec F → Value F
  dump_incident i = a_dict (("r0", float i.r0) ∷ ("p0", float i.p0) ∷ ("sigma", float i.sigma) ∷ [])

  abbrev pub dump_packet : TestFunctionSpec F → Value F
  dump_packet t = a_dict (
      ("r0_out", float t.r0_out)
      ∷ ("p0_out", float t.p0_out)
      ∷ ("sigma_out", float t.sigma_out)
      ∷ [])

  abbrev pub dump_packets : Dict (TestFunctionSpec F) → Dict (Value F)
  dump_packets [] = []
  dump_packets ((kind, t) ∷ d) = (kind, dump_packet t) ∷ dump_packets d

  unfoldable pub dump_td : TdSpec F → Value F
  dump_td t = a_dict (
      ("dt", float t.dt)
      ∷ ("n_steps", int t.n_steps)
      ∷ ("order", int t.order)
      ∷ ("extractors", dump_list text t.extractors)
      ∷ ("incident", dump_option dump_incident t.incident)
      ∷ ("test_function", dump_option dump_packet t.test_function)
      ∷ ("test_functions", dump_option (λ d. a_dict (dump_packets d)) t.test_functions)
      ∷ [])

  unfoldable pub dump_nrm : NrmSpec → Value F
  dump_nrm n = a_dict (
      ("choices", dump_list text n.choices)
      ∷ ("n_states", int n.n_states)
      ∷ ("include_background", bool n.include_background)
      ∷ [])

  abbrev pub dump_moments : CrossSectionVsTimeSpec F → Value F
  dump_moments c = a_dict (("moments", dump_list float c.moments) ∷ [])

  abbrev pub dump_snapshots : WavefunctionSnapshotsSpec F → Value F
  dump_snapshots w = a_dict (
      ("td_times", dump_list float w.td_times)
      ∷ ("ti_energies", dump_list float w.ti_energies)
      ∷ ("full_field", bool w.full_field)
      ∷ [])

  unfoldable pub dump_artifacts : ArtifactSpec F → Value F
  dump_artifacts a = a_dict (
      ("cross_section", bool a.cross_section)
      ∷ ("cross_section_vs_time", dump_option dump_moments a.cross_section_vs_time)
      ∷ ("correlations", bool a.correlations)
      ∷ ("wavefunction_snapshots", dump_option dump_snapshots a.wavefunction_snapshots)
      ∷ ("eigenstates", bool a.eigenstates)
      ∷ ("resonance_levels", bool a.resonance_levels)
      ∷ [])

  abbrev pub dump_reference : ReferenceSpec → Value F
  dump_reference r = a_dict (
      ("path", text r.path)
      ∷ ("format", text r.format)
      ∷ ("label", dump_option text r.label)
      ∷ ("channels", dump_option (dump_list int) r.channels)
      ∷ [])

  unfoldable pub config_to_dict : ExperimentConfig F → Value F
  config_to_dict cfg = a_dict (
      ("molecule", text cfg.molecule)
      ∷ ("methods", dump_list text cfg.methods)
      ∷ ("observables", dump_list dump_observable cfg.observables)
      ∷ ("output_dir", text cfg.output_dir)
      ∷ ("energies", dump_option dump_energies cfg.energies)
      ∷ ("grid", dump_grid cfg.grid)
      ∷ ("v_init", int cfg.v_init)
      ∷ ("td", dump_option dump_td cfg.td)
      ∷ ("nrm", dump_option dump_nrm cfg.nrm)
      ∷ ("artifacts", dump_artifacts cfg.artifacts)
      ∷ ("reference", dump_list dump_reference cfg.reference)
      ∷ ("backend", text cfg.backend)
      ∷ ("config_dir", dump_option text cfg.config_dir)
      ∷ [])
