-- ===== src/Config/RoundTrip/Reload.antt =====
-- A loaded config, dumped and loaded again.
use mathlib.Core.Path.{subst}
use qscat.Prelude.{
  String, ◌≡◌, refl, sym, true, not, inl, inr, Option, none, some, [], ◌∷◌, is_nil, if◌then◌else◌,
}
use qscat.Python.{
  pos, entry, missing_keys, step_not_positive, ok, raise, raise_if, bind_inv, ok-injective, Value,
  int, float, text, mapping, end, a_dict, Runtime,
}
use qscat.Python.Convert.{index, iterate, get, get_default, truthy, to_int}
use qscat.Config.Types.{EnergySpec, TdSpec, NrmSpec, ExperimentConfig}
use qscat.Config.Load.{load_config, molecule_name, missing_from, required_keys}
use qscat.Config.Load.Energies.{
  load_energies, parse_energies, load_energy_range, load_ranges, from_ranges, from_sweep, sweep,
}
use qscat.Config.Load.Grid.{load_grid}
use qscat.Config.Load.Td.{load_td, load_nrm, parse_td, parse_nrm}
use qscat.Config.Load.Artifacts.{load_artifacts, load_observables, load_reference}
use qscat.Config.Dump.{dump_energies, config_to_dict}
use qscat.Config.RoundTrip.Td.{OneForm, OnePacketForm, IsLower}
use qscat.Config.RoundTrip.Loaded.{
  IsSweep, parse_td-OnePacketForm, parse_nrm-IsLower, parse_energies-OneForm, optional-some,
}
use qscat.Config.RoundTrip.Readable.{OnSome, IsReadable, load_config-dump}

-- What the sources rely on `str.lower` for.
pub record IsLowering (R : Runtime) : Type 0 where
  pub idem : (s : String) → R.lower (R.lower s) ≡ R.lower s
  pub keeps_b : R.lower "b" ≡ "b"

module _ (R : Runtime) where
  -- A sweep that was written as `min`, `max` and `step` has a positive step and goes up.
  abbrev pub SweepsForward : Option (EnergySpec R.Float) → Type 0
  SweepsForward o =
      (e : EnergySpec R.Float) → o ≡ some e → IsSweep R e → OneForm R e.values e.ranges

  energies_readable :
      (v : Value R.Float) (o : Option (EnergySpec R.Float))
      → load_energies R v ≡ ok o
      → SweepsForward o
      → OnSome (λ e. OneForm R e.values e.ranges) o
  energies_readable v none h forward = tt
  energies_readable v (some e) h forward =
      elim (parse_energies-OneForm R v e
        (optional-some R (parse_energies R) v e (unfold load_energies in h))) [
          | inl one ↦ one
          | inr swept ↦ forward e refl swept
        ]

  -- The sweep hypothesis, for the energies that the loader read.
  forward_of :
      {c cfg : ExperimentConfig R.Float}
      → ok c ≡ ok cfg
      → SweepsForward cfg.energies
      → SweepsForward c.energies
  forward_of e forward = subst (λ x. SweepsForward x.energies) (sym (ok-injective e)) forward

  td_readable :
      (v : Value R.Float) (o : Option (TdSpec R.Float))
      → load_td R v ≡ ok o
      → OnSome (λ t. OnePacketForm R t.test_function t.test_functions) o
  unfolding load_td
  td_readable v none h = tt
  td_readable v (some t) h = parse_td-OnePacketForm R v t (optional-some R (parse_td R) v t h)

  nrm_readable :
      IsLowering R
      → (v : Value R.Float) (o : Option NrmSpec) → load_nrm R v ≡ ok o
      → OnSome (IsLower R) o
  unfolding load_nrm
  nrm_readable low v none h = tt
  nrm_readable low v (some n) h =
      parse_nrm-IsLower R low.idem low.keeps_b v n (optional-some R (parse_nrm R) v n h)

  pub load_config-IsReadable :
      IsLowering R
      → (dir : String) (v : Value R.Float) (cfg : ExperimentConfig R.Float)
      → load_config R dir v ≡ ok cfg
      → SweepsForward cfg.energies
      → IsReadable R cfg
  unfolding load_config
  load_config-IsReadable low dir v cfg h forward =
      let raw = if truthy R v then v else mapping end in
      bind_inv (missing_from R raw required_keys) _ h λ missing _ h.
        bind_inv (raise_if (not (is_nil missing)) (missing_keys missing)) _ h λ _ _ h.
          bind_inv (index raw "molecule") _ h λ molecule_raw _ h.
            bind_inv (molecule_name R molecule_raw) _ h λ molecule _ h.
              bind_inv (index raw "methods") _ h λ methods_raw _ h.
                bind_inv (iterate methods_raw) _ h λ methods _ h.
                  bind_inv (index raw "observables") _ h λ observables_raw _ h.
                    bind_inv (iterate observables_raw) _ h λ observables_list _ h.
                      bind_inv (load_observables R 0 observables_list) _ h λ observables _ h.
                        bind_inv (index raw "output_dir") _ h λ output_dir _ h.
                          bind_inv (get raw "energies") _ h λ energies_raw _ h.
                            bind_inv (load_energies R energies_raw) _ h λ energies ee h.
                              bind_inv (get raw "grid") _ h λ grid_raw _ h.
                                bind_inv (load_grid R grid_raw) _ h λ grid _ h.
                                  bind_inv (get_default raw "v_init" (int (pos 0))) _ h
                                    λ v_init_raw _ h.
                                      bind_inv (to_int R v_init_raw) _ h λ v_init _ h.
                                        bind_inv (get raw "td") _ h λ td_raw _ h.
                                          bind_inv (load_td R td_raw) _ h λ td et h.
                                            bind_inv (get raw "nrm") _ h λ nrm_raw _ h.
                                              bind_inv (load_nrm R nrm_raw) _ h λ nrm en h.
                                                bind_inv (get raw "artifacts") _ h
                                                  λ artifacts_raw _ h.
                                                    bind_inv (load_artifacts R artifacts_raw) _ h
                                                      λ artifacts _ h.
                                                        bind_inv (get raw "reference") _ h
                                                          λ reference_raw _ h.
                                                            bind_inv
                                                            (load_reference R reference_raw) _ h
                                                            λ reference _ h.
                                                            bind_inv
                                                            (get_default raw "backend"
                                                            (text "auto"))
                                                            _ h
                                                            λ backend _ h.
                                                            rw (← ok-injective h) (record {
                                                            energies =
                                                            energies_readable energies_raw energies
                                                            ee (forward_of h forward);
                                                            packets = td_readable td_raw td et;
                                                            choices =
                                                            nrm_readable low nrm_raw nrm en;
                                                            })

  -- A config that was loaded, dumped and loaded again is unchanged, but for `config_dir`, which is
  -- the directory of the file that was read last. The hypotheses: `str.lower` is idempotent and leaves
  -- a `b` as it is, and a sweep written as `min`, `max` and `step` goes forward.
  pub load_config-reload :
      IsLowering R
      → (dir dir' : String) (v : Value R.Float) (cfg : ExperimentConfig R.Float)
      → load_config R dir v ≡ ok cfg
      → SweepsForward cfg.energies
      → load_config R dir' (config_to_dict cfg) ≡ ok (record cfg { config_dir = some dir' })
  load_config-reload low dir dir' v cfg h forward =
      load_config-dump R dir' cfg (load_config-IsReadable low dir v cfg h forward)

  -- `min`, `max` and `step` are accepted whatever they are; what they resolve to, once dumped, is
  -- refused if the step is not positive.
  pub backward_sweep :
      (low high step : R.Float)
      → R.le step (R.decimal (pos 0) 1) ≡ true
      → (load_energies R
            (a_dict (("min", float low) ∷ ("max", float high) ∷ ("step", float step) ∷ []))
          ≡ ok (some (sweep R low high step)))
        × (load_energies R (dump_energies (sweep R low high step))
            ≡ raise (step_not_positive (entry "energies.ranges" 0)))
  unfolding load_energies parse_energies from_ranges from_sweep sweep load_ranges load_energy_range
      dump_energies
  backward_sweep low high step h = (refl, rw h)
