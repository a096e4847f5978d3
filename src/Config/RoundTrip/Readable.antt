-- ===== src/Config/RoundTrip/Readable.antt =====
-- config.resolved.yaml: what a run writes (`dataclasses.asdict`) loads back to the same config.
use qscat.Prelude.{String, ◌≡◌, refl, Option, none, some}
use qscat.Python.{ok, Runtime}
use qscat.Config.Types.{EnergySpec, TdSpec, NrmSpec, ExperimentConfig}
use qscat.Config.Load.{load_config}
use qscat.Config.Load.Energies.{load_energies}
use qscat.Config.Load.Td.{load_td, load_nrm}
use qscat.Config.Dump.{dump_option, dump_energies, dump_td, dump_nrm, config_to_dict}
use qscat.Config.RoundTrip.Blocks.{
  load_observables-dump, load_grid-dump, load_artifacts-dump, load_reference-dump, texts_back,
}
use qscat.Config.RoundTrip.Td.{
  OneForm, OnePacketForm, IsLower, load_energies-dump, load_td-dump, load_nrm-dump,
}

-- What is there satisfies `P`.
abbrev pub OnSome : {A : Type 0} → (A → Type 0) → Option A → Type 0
OnSome P none = Unit
OnSome P (some a) = P a

module _ (R : Runtime) where
  -- The form of a config whose dump can be read: its energies are forward ranges or values, its
  -- packets stand in one of the two fields, and the names of its NRM choices are lower case.
  pub record IsReadable (cfg : ExperimentConfig R.Float) : Type 0 where
    pub energies : OnSome (λ e. OneForm R e.values e.ranges) cfg.energies
    pub packets : OnSome (λ t. OnePacketForm R t.test_function t.test_functions) cfg.td
    pub choices : OnSome (IsLower R) cfg.nrm

  energies_back :
      (o : Option (EnergySpec R.Float))
      → OnSome (λ e. OneForm R e.values e.ranges) o
      → load_energies R (dump_option dump_energies o) ≡ ok o
  energies_back none h = unfold load_energies in refl
  energies_back (some e) h = load_energies-dump R e h

  td_back :
      (o : Option (TdSpec R.Float))
      → OnSome (λ t. OnePacketForm R t.test_function t.test_functions) o
      → load_td R (dump_option dump_td o) ≡ ok o
  td_back none h = unfold load_td in refl
  td_back (some t) h = load_td-dump R t h

  nrm_back :
      (o : Option NrmSpec) → OnSome (IsLower R) o → load_nrm R (dump_option dump_nrm o) ≡ ok o
  nrm_back none h = unfold load_nrm in refl
  nrm_back (some n) h = load_nrm-dump R n h

  -- Loading the dump of a config returns that config, with the directory of the file just read, if
  -- its energies are forward ranges or values, its packets stand in one of the two fields, and the
  -- names of its NRM choices are lower case.
  pub load_config-dump :
      (dir : String) (cfg : ExperimentConfig R.Float)
      → IsReadable cfg
      → load_config R dir (config_to_dict cfg) ≡ ok (record cfg { config_dir = some dir })
  unfolding load_config config_to_dict
  load_config-dump dir cfg h = rw (
    load_observables-dump R 0 cfg.observables,
    energies_back cfg.energies h.energies,
    load_grid-dump R cfg.grid,
    td_back cfg.td h.packets,
    nrm_back cfg.nrm h.choices,
    load_artifacts-dump R cfg.artifacts,
    load_reference-dump R cfg.reference,
    texts_back R cfg.methods,
  )
