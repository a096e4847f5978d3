-- ===== src/Config/RoundTrip/Td.antt =====
-- The `td`, `nrm` and `energies` blocks load back from what they dump to, where the config has the
-- form that the loaders produce.
use qscat.Prelude.{
  ℕ, ◌+◌, String, ◌≡◌, refl, false, Option, none, some, List, [], ◌∷◌, ◌++◌, map, All,
}
use mathlib.Core.List.{append-nil, append_assoc}
use qscat.Prelude.Text.{◌<>◌}
use qscat.Prelude.Dict.{Dict, has_key, NodupKeys, insert_fresh, fresh_of_NodupKeys}
use qscat.Python.{
  pos, Place, block, ok, Value, text, a_dict, items, of_items, entries, of_entries, Runtime,
}
use qscat.Python.Convert.{to_text}
use qscat.Config.Types.{EnergyRange, EnergySpec, IncidentSpec, TestFunctionSpec, TdSpec, NrmSpec}
use qscat.Config.Load.Energies.{
  load_energy_range, load_ranges, from_ranges, from_values, load_energies,
}
use qscat.Config.Load.Td.{
  load_incident, load_packet, load_packets, load_either, load_test_functions, load_td, load_nrm,
}
use qscat.Config.Dump.{
  dump_option, dump_range, dump_energies, dump_incident, dump_packet, dump_packets, dump_td,
  dump_nrm,
}
use qscat.Config.RoundTrip.Blocks.{optional-dump, texts_back, floats_back}

module _ (R : Runtime) where
  -- A segment that `_load_energy_range` accepts.
  abbrev pub IsForward : EnergyRange R.Float → Type 0
  IsForward r = (R.le r.step (R.decimal (pos 0) 1) ≡ false) × (R.le r.stop r.start ≡ false)

  -- Exactly one form is given, and `ranges` is not empty.
  abbrev pub OneForm : Option (List R.Float) → Option (List (EnergyRange R.Float)) → Type 0
  OneForm (some vs) none = Unit
  OneForm none (some (r ∷ rs)) = All IsForward (r ∷ rs)
  OneForm _ _ = ⊥

  -- At most one of the two packet fields is given, and a mapping has no key `r0_out`.
  abbrev pub OnePacketForm :
      Option (TestFunctionSpec R.Float) → Option (Dict (TestFunctionSpec R.Float)) → Type 0
  OnePacketForm none (some d) = (has_key "r0_out" d ≡ false) × NodupKeys d
  OnePacketForm _ none = Unit
  OnePacketForm (some t) (some d) = ⊥

  abbrev pub IsLower : NrmSpec → Type 0
  IsLower n = All (λ c. R.lower c ≡ c) n.choices

  load_energy_range-dump :
      (i : ℕ) (r : EnergyRange R.Float) → IsForward r → load_energy_range R (dump_range r) i ≡ ok r
  unfolding load_energy_range
  load_energy_range-dump i r (up, forward) = rw (up, forward)

  load_ranges-dump :
      (i : ℕ) (rs : List (EnergyRange R.Float))
      → All IsForward rs
      → load_ranges R i (items (of_items (map dump_range rs))) ≡ ok rs
  unfolding load_ranges
  load_ranges-dump i [] h = refl
  load_ranges-dump i (r ∷ rs) (h, hs) =
      rw (load_energy_range-dump i r h) (rw (load_ranges-dump (i + 1) rs hs))

  energies_of_fields :
      (v : Option (List R.Float)) (r : Option (List (EnergyRange R.Float)))
      → OneForm v r
      → let e : EnergySpec R.Float = record { values = v; ranges = r } in
        load_energies R (dump_energies e) ≡ ok (some e)
  unfolding load_energies dump_energies from_ranges from_values
  energies_of_fields (some vs) none h = rw (floats_back R vs)
  energies_of_fields none (some (r ∷ rs)) h = rw (load_ranges-dump 0 (r ∷ rs) h)
  energies_of_fields (some vs) (some rs) h = absurd h
  energies_of_fields none none h = absurd h
  energies_of_fields none (some []) h = absurd h

  pub load_energies-dump :
      (e : EnergySpec R.Float)
      → OneForm e.values e.ranges
      → load_energies R (dump_energies e) ≡ ok (some e)
  load_energies-dump e h = energies_of_fields e.values e.ranges h

  load_incident-dump : (i : IncidentSpec R.Float) → load_incident R (dump_incident i) ≡ ok i
  unfolding load_incident
  load_incident-dump i = refl

  load_packet-dump :
      (place : Place) (t : TestFunctionSpec R.Float) → load_packet R place (dump_packet t) ≡ ok t
  unfolding load_packet
  load_packet-dump place t = refl

  load_packets-dump :
      (done d : Dict (TestFunctionSpec R.Float))
      → NodupKeys (done ++ d)
      → load_packets R done (dump_packets d) ≡ ok (done ++ d)
  unfolding load_packets
  load_packets-dump done [] u = rw append-nil
  load_packets-dump done ((k, t) ∷ d) u = rw (
    load_packet-dump (block ("td.test_function." <> k)) t,
    insert_fresh k t done (fresh_of_NodupKeys k t done d u),
    load_packets-dump (done ++ ((k, t) ∷ [])) d (rw append_assoc u),
    append_assoc,
  )

  has_key-dump_packets :
      (k : String) (d : Dict (TestFunctionSpec R.Float))
      → has_key k (entries (of_entries (dump_packets d))) ≡ has_key k d
  has_key-dump_packets k [] = refl
  has_key-dump_packets k ((j, t) ∷ d) = rw (has_key-dump_packets k d)

  entries-of_entries : (d : Dict (Value R.Float)) → entries (of_entries d) ≡ d
  entries-of_entries [] = refl
  entries-of_entries ((k, v) ∷ d) = rw (entries-of_entries d)

  load_either-dump :
      (t : Option (TestFunctionSpec R.Float)) (d : Option (Dict (TestFunctionSpec R.Float)))
      → OnePacketForm t d
      → load_either R (dump_option dump_packet t) (dump_option (λ e. a_dict (dump_packets e)) d)
        ≡ ok (t, d)
  unfolding load_either load_test_functions
  load_either-dump none none h = refl
  load_either-dump (some t) none h = rw (load_packet-dump (block "td.test_function") t)
  load_either-dump (some t) (some d) h = absurd h
  load_either-dump none (some d) (flat, u) =
      rw (has_key-dump_packets "r0_out" d, flat, entries-of_entries, load_packets-dump [] d u)

  pub load_td-dump :
      (t : TdSpec R.Float)
      → OnePacketForm t.test_function t.test_functions
      → load_td R (dump_td t) ≡ ok (some t)
  unfolding load_td dump_td
  load_td-dump t h = rw (
    optional-dump (load_incident R) dump_incident (λ i. refl) load_incident-dump t.incident,
    load_either-dump t.test_function t.test_functions h,
    texts_back R t.extractors,
  )

  lowered :
      (cs : List String)
      → All (λ c. R.lower c ≡ c) cs
      → map (λ c. R.lower (to_text R c)) (items (of_items (map text cs))) ≡ cs
  lowered [] h = refl
  lowered (c ∷ cs) (h, hs) = rw (h, lowered cs hs)

  pub load_nrm-dump : (n : NrmSpec) → IsLower n → load_nrm R (dump_nrm n) ≡ ok (some n)
  unfolding load_nrm dump_nrm
  load_nrm-dump n h = rw (lowered n.choices h)
