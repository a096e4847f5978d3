-- ===== src/Config/RoundTrip/Loaded.antt =====
-- What the loaders return has the form that its dump can be read back in.
use qscat.Prelude.{
  ℕ, ◌+◌, String, ◌≡◌, ◌≢◌, sym, ltb, ◌⊎◌, inl, inr, true, false, not, none, some, List, [], ◌∷◌,
  map, All, if◌then◌else◌, arith, Bool-cases,
}
use qscat.Prelude.Text.{characters, ◌<>◌}
use qscat.Prelude.Dict.{Dict, has_key, insert, NodupKeys, has_key-insert, insert-NodupKeys}
use qscat.Python.{
  text, float, cons, end, field, pos, int, seq, nil, bool, raise_if, no_ranges,
  several_energy_forms, Result, ok, block, bind_inv, ok-injective, Value, Runtime, entries, mapping,
  is_null, null,
}
use qscat.Config.Load.Common.{floats, block_of, optional, require_float, require_int}
use qscat.Python.Convert.{get, get_default, to_int, truthy, iterate, to_text}
use qscat.Config.Types.{EnergyRange, EnergySpec, TestFunctionSpec, TdSpec, NrmSpec}
use qscat.Config.Load.Energies.{
  load_energy_range, load_ranges, from_ranges, from_values, from_sweep, load_form, count_forms,
  parse_energies, sweep,
}
use qscat.Config.Load.Td.{
  load_packet, load_packets, load_either, load_test_functions, load_choices, parse_td, parse_nrm,
  Packets, load_incident,
}
use qscat.Config.RoundTrip.Td.{IsForward, OneForm, OnePacketForm, IsLower}

module _ (R : Runtime) where
  load_energy_range-IsForward :
      (v : Value R.Float) (i : ℕ) (r : EnergyRange R.Float)
      → load_energy_range R v i ≡ ok r
      → IsForward R r
  unfolding load_energy_range
  load_energy_range-IsForward v i r h = ground arith

  load_ranges-IsForward :
      (i : ℕ) (vs : List (Value R.Float)) (rs : List (EnergyRange R.Float))
      → load_ranges R i vs ≡ ok rs
      → All (IsForward R) rs
  unfolding load_ranges
  load_ranges-IsForward i [] [] h = tt
  load_ranges-IsForward i [] (r ∷ rs) h = cc
  load_ranges-IsForward i (v ∷ vs) [] h = ground arith
  load_ranges-IsForward i (v ∷ vs) (r ∷ rs) h =
      ground (arith, load_energy_range-IsForward v i r, load_ranges-IsForward (i + 1) vs rs)

  load_packets-keys :
      (k : String) (done : Dict (TestFunctionSpec R.Float)) (fs : Dict (Value R.Float))
      (d : Dict (TestFunctionSpec R.Float))
      → load_packets R done fs ≡ ok d
      → has_key k done ≡ false
      → has_key k fs ≡ false
      → has_key k d ≡ false
  unfolding load_packets
  load_packets-keys k done [] d h p q = ground arith
  load_packets-keys k done ((j, v) ∷ fs) d h p q =
      bind_inv (load_packet R (block ("td.test_function." <> j)) v) _ h λ t _ rest.
        load_packets-keys k (insert j t done) fs d rest (ground (arith, has_key-insert k j t done))
          (ground arith)

  load_packets-NodupKeys :
      (done : Dict (TestFunctionSpec R.Float)) (fs : Dict (Value R.Float))
      (d : Dict (TestFunctionSpec R.Float))
      → load_packets R done fs ≡ ok d
      → NodupKeys done
      → NodupKeys d
  unfolding load_packets
  load_packets-NodupKeys done [] d h u = rw (← ok-injective h) u
  load_packets-NodupKeys done ((j, v) ∷ fs) d h u =
      bind_inv (load_packet R (block ("td.test_function." <> j)) v) _ h
        λ t _ rest. load_packets-NodupKeys (insert j t done) fs d rest (insert-NodupKeys j t done u)

  load_test_functions-OnePacketForm :
      (v : Value R.Float) (p : Packets R) → load_test_functions R v ≡ ok p → OnePacketForm R p.0 p.1
  unfolding load_test_functions
  load_test_functions-OnePacketForm (mapping fs) (t, none) h = ground arith
  load_test_functions-OnePacketForm (mapping fs) (some t, some d) h = ground arith
  load_test_functions-OnePacketForm (mapping fs) (none, some d) h = ground (
    arith,
    load_packets-keys "r0_out" [] (entries fs) d,
    load_packets-NodupKeys [] (entries fs) d,
  )
  load_test_functions-OnePacketForm _ (t, none) h = ground arith
  load_test_functions-OnePacketForm _ (some t, some d) h = ground arith
  load_test_functions-OnePacketForm _ (none, some d) h = ground arith

  load_either-OnePacketForm :
      (v w : Value R.Float) (p : Packets R) → load_either R v w ≡ ok p → OnePacketForm R p.0 p.1
  unfolding load_either
  load_either-OnePacketForm v w (none, none) h = tt
  load_either-OnePacketForm v w (some t, none) h = tt
  load_either-OnePacketForm v w (t, some d) h =
      load_test_functions-OnePacketForm (if is_null v then w else v) (t, some d) (ground arith)

  pub optional-some :
      {A : Type 0} (f : Value R.Float → Result A) (v : Value R.Float) (a : A)
      → optional f v ≡ ok (some a)
      → f v ≡ ok a
  optional-some f v a h = ground arith

  pub parse_td-OnePacketForm :
      (v : Value R.Float) (t : TdSpec R.Float)
      → parse_td R v ≡ ok t
      → OnePacketForm R t.test_function t.test_functions
  unfolding parse_td
  parse_td-OnePacketForm v t h = bind_inv (block_of v "incident") _ h λ ir _ h.
      bind_inv (optional (load_incident R) ir) _ h λ i _ h.
        bind_inv (block_of v "test_function") _ h λ w _ h.
          bind_inv (block_of v "test_functions") _ h λ r _ h.
            bind_inv (load_either R w r) _ h λ p e h.
              bind_inv (require_float R v "dt" (block "td")) _ h λ dt _ h.
                bind_inv (require_int R v "n_steps" (block "td")) _ h λ n_steps _ h.
                  bind_inv (get_default v "order" (int (pos 3))) _ h λ order_raw _ h.
                    bind_inv (to_int R order_raw) _ h λ order _ h.
                      bind_inv (get_default v "extractors" (seq nil)) _ h λ names_raw _ h.
                        bind_inv (iterate names_raw) _ h
                          λ names _ h. rw (← ok-injective h) (load_either-OnePacketForm w r p e)

  IsLower-map :
      ((s : String) → R.lower (R.lower s) ≡ R.lower s)
      → (vs : List (Value R.Float)) → All (λ c. R.lower c ≡ c) (map (λ c. R.lower (to_text R c)) vs)
  IsLower-map idem [] = tt
  IsLower-map idem (v ∷ vs) = (idem (to_text R v), IsLower-map idem vs)

  load_choices-lower :
      ((s : String) → R.lower (R.lower s) ≡ R.lower s)
      → R.lower "b" ≡ "b"
      → (raw : Value R.Float) (cs : List String) → load_choices R raw ≡ ok cs
      → All (λ c. R.lower c ≡ c) cs
  unfolding load_choices
  load_choices-lower idem b null cs h = rw (← ok-injective h) (b, tt)
  load_choices-lower idem b (bool x) cs h = cc
  load_choices-lower idem b (int x) cs h = cc
  load_choices-lower idem b (float x) cs h = cc
  load_choices-lower idem b (text s) cs h = rw (← ok-injective h) (IsLower-map idem _)
  load_choices-lower idem b (seq vs) cs h = rw (← ok-injective h) (IsLower-map idem _)
  load_choices-lower idem b (mapping fs) cs h = rw (← ok-injective h) (IsLower-map idem _)

  pub parse_nrm-IsLower :
      ((s : String) → R.lower (R.lower s) ≡ R.lower s)
      → R.lower "b" ≡ "b"
      → (v : Value R.Float) (n : NrmSpec) → parse_nrm R v ≡ ok n
      → IsLower R n
  unfolding parse_nrm
  parse_nrm-IsLower idem b v n h = bind_inv (get v "choices") _ h λ raw _ h.
      bind_inv (load_choices R raw) _ h λ choices e h.
        bind_inv (get_default v "n_states" (int (pos 100))) _ h λ states_raw _ h.
          bind_inv (to_int R states_raw) _ h λ n_states _ h.
            bind_inv (get_default v "include_background" (bool true)) _ h
              λ background _ h. rw (← ok-injective h) (load_choices-lower idem b raw choices e)

  iterate-ne-nil : (v : Value R.Float) → truthy R v ≡ true → iterate v ≢ ok []
  iterate-ne-nil (seq nil) h e = cc
  iterate-ne-nil (seq (cons v vs)) h e = cc
  iterate-ne-nil (mapping end) h e = cc
  iterate-ne-nil (mapping (field k v fs)) h e = cc
  iterate-ne-nil (text String.[]) h e = cc
  iterate-ne-nil (text (String.◌∷◌ c s)) h e = unfold characters in cc
  iterate-ne-nil null h e = cc
  iterate-ne-nil _ h e = cc

  load_ranges-cons :
      (v : Value R.Float) (vs : List (Value R.Float)) → load_ranges R 0 (v ∷ vs) ≢ ok []
  unfolding load_ranges
  load_ranges-cons v vs h = ground arith

  OneForm-ranges :
      (v : Value R.Float) (es : List (Value R.Float)) (rs : List (EnergyRange R.Float))
      → truthy R v ≡ true
      → iterate v ≡ ok es
      → load_ranges R 0 es ≡ ok rs
      → OneForm R none (some rs)
  OneForm-ranges v [] rs full e h = absurd (iterate-ne-nil v full e)
  OneForm-ranges v (w ∷ es) [] full e h = absurd (load_ranges-cons w es h)
  OneForm-ranges v es (r ∷ rs) full e h = load_ranges-IsForward 0 es (r ∷ rs) h

  from_ranges-OneForm :
      (v : Value R.Float) (e : EnergySpec R.Float)
      → from_ranges R v ≡ ok e
      → OneForm R e.values e.ranges
  unfolding from_ranges
  from_ranges-OneForm v e h = bind_inv (raise_if (not (truthy R v)) no_ranges) _ h λ given full h.
      bind_inv (iterate v) _ h λ es e1 h.
        bind_inv (load_ranges R 0 es) _ h
          λ rs e2 h. rw (← ok-injective h) (OneForm-ranges v es rs (ground arith) e1 e2)

  abbrev pub IsSweep : EnergySpec R.Float → Type 0
  IsSweep e = (low : R.Float) × (high : R.Float) × (step : R.Float) × (e ≡ sweep R low high step)

  from_sweep-IsSweep :
      (v : Value R.Float) (e : EnergySpec R.Float) → from_sweep R v ≡ ok e → IsSweep e
  unfolding from_sweep
  from_sweep-IsSweep v e h = bind_inv (require_float R v "min" (block "energies")) _ h λ low _ h.
      bind_inv (require_float R v "max" (block "energies")) _ h λ high _ h.
        bind_inv (require_float R v "step" (block "energies")) _ h
          λ step _ h. (low, high, step, sym (ok-injective h))

  from_values-OneForm :
      (v : Value R.Float) (e : EnergySpec R.Float)
      → from_values R v ≡ ok e
      → OneForm R e.values e.ranges
  unfolding from_values
  from_values-OneForm v e h = bind_inv (floats R v) _ h λ vs _ h. rw (← ok-injective h) tt

  load_form-OneForm :
      (values ranges v : Value R.Float) (e : EnergySpec R.Float)
      → load_form R values ranges v ≡ ok e
      → OneForm R e.values e.ranges ⊎ IsSweep e
  unfolding load_form
  load_form-OneForm values ranges v e h = elim (Bool-cases (is_null ranges)) [
    | inr given ↦ inl (from_ranges-OneForm ranges e (rw given at h))
    | inl gone ↦ elim (Bool-cases (is_null values)) [
      | inr given ↦ inl (from_values-OneForm values e (rw (gone, given) at h))
      | inl none_given ↦ inr (from_sweep-IsSweep v e (rw (gone, none_given) at h))
    ]
  ]

  pub parse_energies-OneForm :
      (v : Value R.Float) (e : EnergySpec R.Float)
      → parse_energies R v ≡ ok e
      → OneForm R e.values e.ranges ⊎ IsSweep e
  unfolding parse_energies
  parse_energies-OneForm v e h = bind_inv (get v "values") _ h λ values _ h.
      bind_inv (get v "ranges") _ h λ ranges _ h. bind_inv (get v "min") _ h λ low _ h.
        bind_inv (get v "max") _ h λ high _ h. bind_inv (get v "step") _ h λ step _ h.
          bind_inv
            (raise_if (ltb 1 (count_forms R values ranges low high step)) several_energy_forms) _ h
            λ one _ h. load_form-OneForm values ranges v e h
