-- ===== src/Presets/Resolve/Defaults.antt =====
-- `resolve_defaults`: it changes no resolution that is made from the config afterwards, and a second
-- call changes nothing.
use qscat.Prelude.{
  String, ◌≡◌, ◌≢◌, refl, ◌∙◌, ap, sym, true, false, Option, none, some, List, [], ◌∷◌, map, arith,
  Option-cases, inl, inr, if◌then◌else◌,
}
use text.Mathlib.TextEquality.{eq_iff}
use qscat.Prelude.Text.{contains}
use qscat.Prelude.Dict.{Dict, lookup, insert-lookup}
use qscat.Python.{Runtime}
use qscat.Config.Types.{
  Observable, EnergySpec, TestFunctionSpec, TdSpec, default_nrm, ExperimentConfig,
}
use qscat.Presets.Decks.{MoleculePreset}
use qscat.Presets.Resolve.{
  kinds_in, or_else, or_empty, none_if_empty, put_some, default_channels, test_function_for_kind,
  fill_packet, fill_packets, fill_td, one_of, fill_channels, wants_energies, default_energies,
  map_option, packet_or_raise, preset_for, fill_config, fill_from, resolve_defaults,
  resolve_test_function, resolve_surface_r,
}
use qscat.Presets.Resolve.Packets.{lookup-fill_packets, test_function_for_kind-fill_td}

or_else_twice : {A : Type 0} (a b : Option A) → or_else (or_else a b) b ≡ or_else a b
or_else_twice none none = refl
or_else_twice none (some b) = refl
or_else_twice (some a) b = refl

or_empty-none_if_empty : {V : Type 0} (d : Dict V) → or_empty (none_if_empty d) ≡ d
or_empty-none_if_empty [] = refl
or_empty-none_if_empty (e ∷ d) = refl

put_some_same :
    {V : Type 0} (k : String) (o : Option V) (d : Dict V) → lookup k d ≡ o → put_some k o d ≡ d
put_some_same k none d h = refl
put_some_same k (some v) d h = insert-lookup k v d h

module _ (R : Runtime) (p : MoleculePreset R.Float) where
  pub kinds_in-fill : (os : List Observable) → kinds_in (map (fill_channels R p) os) ≡ kinds_in os
  unfolding kinds_in
  kinds_in-fill [] = refl
  kinds_in-fill (o ∷ os) = rw (kinds_in-fill os)

  wants_energies-fill :
      (os : List Observable) → wants_energies (map (fill_channels R p) os) ≡ wants_energies os
  wants_energies-fill [] = refl
  wants_energies-fill (o ∷ os) = rw (wants_energies-fill os)

  fill_channels_twice :
      (os : List Observable)
      → map (fill_channels R p) (map (fill_channels R p) os) ≡ map (fill_channels R p) os
  fill_channels_twice [] = refl
  fill_channels_twice (o ∷ os) = λ i.
      record o { channels = or_else_twice o.channels (default_channels o.kind p) i }
      ∷ fill_channels_twice os i

  packet_or_raise-fill :
      (kinds : List String) (td : Option (TdSpec R.Float)) (kind : String)
      → packet_or_raise R (map_option (fill_td R p kinds) td) (some p) kind kinds
        ≡ packet_or_raise R td (some p) kind kinds
  packet_or_raise-fill kinds none kind = refl
  packet_or_raise-fill kinds (some td) kind = rw (test_function_for_kind-fill_td R td p kinds kind)

module _ (R : Runtime) (td : TdSpec R.Float) (p : MoleculePreset R.Float)
    (kinds : List String) where
  abbrev filled : Dict (TestFunctionSpec R.Float)
  filled = fill_packets R td p kinds kinds (or_empty td.test_functions)

  fill_packet_again :
      (k : String)
      → contains k kinds ≡ true
      → fill_packet R (fill_td R p kinds td) p kinds k filled ≡ filled
  fill_packet_again k h =
      let old = lookup k (or_empty td.test_functions) in
      let chosen = test_function_for_kind td (some p) k kinds in
      let known : lookup k filled ≡ or_else old chosen =
        lookup-fill_packets R td p kinds k kinds (or_empty td.test_functions) ∙ rw h in
      let absorbed : or_else (lookup k filled) chosen ≡ lookup k filled =
        ap (λ o. or_else o chosen) known ∙ or_else_twice old chosen ∙ sym known in
      ap (λ o. put_some k (or_else (lookup k filled) o) filled)
        (test_function_for_kind-fill_td R td p kinds k)
      ∙ ap (λ o. put_some k o filled) absorbed
      ∙ put_some_same k (lookup k filled) filled refl

  fill_packets_again :
      (ks : List String)
      → ((k : String) → contains k ks ≡ true → contains k kinds ≡ true)
      → fill_packets R (fill_td R p kinds td) p kinds ks filled ≡ filled
  unfolding fill_packets
  fill_packets_again [] h = refl
  fill_packets_again (k ∷ ks) h =
      rw (fill_packet_again k (h k (ground (arith, eq_iff k k))))
        (fill_packets_again ks (λ j m. h j (ground arith)))

  or_empty-fill_td : or_empty (fill_td R p kinds td).test_functions ≡ filled
  unfolding fill_td
  or_empty-fill_td = or_empty-none_if_empty filled

  packets_again :
      none_if_empty (
        fill_packets R
          (fill_td R p kinds td)
          p
          kinds
          kinds
          (or_empty (fill_td R p kinds td).test_functions))
      ≡ none_if_empty filled
  packets_again = rw or_empty-fill_td (ap none_if_empty (fill_packets_again kinds (λ k e. e)))

  fill_td_twice : fill_td R p kinds (fill_td R p kinds td) ≡ fill_td R p kinds td
  unfolding fill_td
  fill_td_twice = λ i. record td {
    incident = or_else_twice td.incident (some p.default_incident) i;
    test_functions = packets_again i;
  }

module _ (R : Runtime) where
  map_fill_td_twice :
      (p : MoleculePreset R.Float) (kinds : List String) (td : Option (TdSpec R.Float))
      → map_option (fill_td R p kinds) (map_option (fill_td R p kinds) td)
        ≡ map_option (fill_td R p kinds) td
  map_fill_td_twice p kinds none = refl
  map_fill_td_twice p kinds (some td) = ap some (fill_td_twice R td p kinds)

  energies_twice :
      (p : MoleculePreset R.Float) (e : Option (EnergySpec R.Float)) (os : List Observable)
      → let d = default_energies R (wants_energies os) p in
        or_else (or_else e d) (default_energies R (wants_energies (map (fill_channels R p) os)) p)
        ≡ or_else e d
  energies_twice p e os =
      rw (wants_energies-fill R p os) (or_else_twice e (default_energies R (wants_energies os) p))

  td_twice :
      (p : MoleculePreset R.Float) (td : Option (TdSpec R.Float)) (os : List Observable)
      → map_option
          (fill_td R p (kinds_in (map (fill_channels R p) (map (fill_channels R p) os))))
          (map_option (fill_td R p (kinds_in (map (fill_channels R p) os))) td)
        ≡ map_option (fill_td R p (kinds_in (map (fill_channels R p) os))) td
  td_twice p td os =
      rw (fill_channels_twice R p os)
        (map_fill_td_twice p (kinds_in (map (fill_channels R p) os)) td)

  fill_config_twice :
      (p : MoleculePreset R.Float) (cfg : ExperimentConfig R.Float)
      → fill_config R p (fill_config R p cfg) ≡ fill_config R p cfg
  unfolding fill_config
  fill_config_twice p cfg = λ i. record cfg {
    energies = energies_twice p cfg.energies cfg.observables i;
    observables = fill_channels_twice R p cfg.observables i;
    td = td_twice p cfg.td cfg.observables i;
    nrm = or_else_twice cfg.nrm (if contains "nrm" cfg.methods then some default_nrm else none) i;
  }

  preset_for-fill_config :
      (p : MoleculePreset R.Float) (cfg : ExperimentConfig R.Float)
      → preset_for R (fill_config R p cfg) ≡ preset_for R cfg
  unfolding fill_config
  preset_for-fill_config p cfg = refl

  fill_from_twice :
      (cfg : ExperimentConfig R.Float) (o : Option (MoleculePreset R.Float))
      → preset_for R cfg ≡ o
      → fill_from R (preset_for R (fill_from R o cfg)) (fill_from R o cfg) ≡ fill_from R o cfg
  fill_from_twice cfg none h = rw h
  fill_from_twice cfg (some p) h = rw (preset_for-fill_config p cfg, h) (fill_config_twice p cfg)

  -- `resolve_defaults` applied to its own result changes nothing, with or without a preset.
  pub resolve_defaults_twice :
      (cfg : ExperimentConfig R.Float)
      → resolve_defaults R (resolve_defaults R cfg) ≡ resolve_defaults R cfg
  unfolding resolve_defaults
  resolve_defaults_twice cfg = fill_from_twice cfg (preset_for R cfg) refl

  td_after :
      (p : MoleculePreset R.Float) (cfg : ExperimentConfig R.Float) (kind : String)
      → packet_or_raise R
          (fill_config R p cfg).td
          (some p)
          kind
          (kinds_in (fill_config R p cfg).observables)
        ≡ packet_or_raise R cfg.td (some p) kind (kinds_in cfg.observables)
  unfolding fill_config
  td_after p cfg kind =
      rw (kinds_in-fill R p cfg.observables)
        (packet_or_raise-fill R p (kinds_in cfg.observables) cfg.td kind)

  packet-fill_from :
      (cfg : ExperimentConfig R.Float) (kind : String) (o : Option (MoleculePreset R.Float))
      → preset_for R cfg ≡ o
      → packet_or_raise R
          (fill_from R o cfg).td
          (preset_for R (fill_from R o cfg))
          kind
          (kinds_in (fill_from R o cfg).observables)
        ≡ packet_or_raise R cfg.td (preset_for R cfg) kind (kinds_in cfg.observables)
  packet-fill_from cfg kind none h = refl
  packet-fill_from cfg kind (some p) h = rw (preset_for-fill_config p cfg, h) (td_after p cfg kind)

  -- The test packet of a kind is the same, found or missing, whether or not the defaults have been
  -- filled in.
  pub resolve_test_function-resolve_defaults :
      (cfg : ExperimentConfig R.Float) (kind : String)
      → resolve_test_function R (resolve_defaults R cfg) kind ≡ resolve_test_function R cfg kind
  unfolding resolve_test_function resolve_defaults
  resolve_test_function-resolve_defaults cfg kind =
      packet-fill_from cfg kind (preset_for R cfg) refl

  preset_for-resolve_defaults :
      (cfg : ExperimentConfig R.Float) → preset_for R (resolve_defaults R cfg) ≡ preset_for R cfg
  unfolding resolve_defaults
  preset_for-resolve_defaults cfg = elim (Option-cases (preset_for R cfg)) [
    | inl gone ↦ rw gone gone
    | inr (p, found) ↦ rw found (preset_for-fill_config p cfg ∙ found)
  ]

  -- The analysis surface of a kind is the same, found or missing, whether or not the defaults have
  -- been filled in.
  resolve_surface_r-resolve_defaults :
      (cfg : ExperimentConfig R.Float) (kind : String)
      → resolve_surface_r R (resolve_defaults R cfg) kind ≡ resolve_surface_r R cfg kind
  unfolding resolve_surface_r
  resolve_surface_r-resolve_defaults cfg kind =
      rw (preset_for-resolve_defaults cfg, resolve_test_function-resolve_defaults cfg kind)

  -- A run of several kinds never takes a nuclear packet from the flat block: whatever stands there,
  -- a kind other than `ve` resolves to the same.
  flat_packet_ignored :
      (td : TdSpec R.Float) (flat : Option (TestFunctionSpec R.Float))
      (preset : Option (MoleculePreset R.Float)) (kind : String) (kinds : List String)
      → one_of kinds ≡ false
      → kind ≢ "ve"
      → test_function_for_kind (record td { test_function = flat }) preset kind kinds
        ≡ test_function_for_kind td preset kind kinds
  unfolding test_function_for_kind
  flat_packet_ignored td flat preset kind kinds mixed nuclear = ground (arith, eq_iff kind "ve")
