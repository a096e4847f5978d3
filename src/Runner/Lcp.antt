-- ===== src/Runner/Lcp.antt =====
-- `_run_lcp` of apps/qscat-run/qscat_run/runner.py, and `nuclear_angle_b` of presets.py.
pub mod Names
use qscat.Prelude.{
  ℕ, zero, String, Bool, true, false, not, ◌&&◌, ◌||◌, Option, none, some, List, [], ◌∷◌, ◌++◌, map,
  is_nil, str_eq, if◌then◌else◌,
}
use qscat.Prelude.Text.{◌<>◌}
use qscat.Prelude.Dict.{Dict, insert}
use qscat.Python.{ℤ, pos, add_one, no_energies, Result, ok, raise, raise_if, ◌>>=◌, ◌>>◌, Runtime}
use qscat.Config.Types.{
  Observable, Channels, EnergySpec, WavefunctionSnapshotsSpec, ExperimentConfig,
}
use qscat.Presets.Resolve.{resolve_lcp_grids}
use qscat.Presets.Segments.{nuclear_grid_at_angle}
use qscat.Validate.{given, has_kind}
use qscat.Runner.{vprimes, n_channels, n_vib}
use qscat.Runner.Solvers.{Solvers, Basis, EigenStates, ResonanceState, ResonanceLevelsRun}
use qscat.Runner.Keys.{final_state, keys_behind, write_columns}
use qscat.Runner.TimeIndependent.{required_levels, known_model, vibrational_eigenstates}

-- `n_req`: the channels of the first `resonance_levels` observable that has any.
unfoldable pub requested_levels : List Observable → Result (Option ℤ)
unfolding n_channels
requested_levels [] = ok none
requested_levels (o ∷ os) =
    if str_eq o.kind "resonance_levels" && given o.channels
    then (n_channels o >>= λ n. ok (some n))
    else requested_levels os

-- `kinds & {"da", "ve"}`
abbrev pub wants_sigma : List Observable → Bool
wants_sigma os = has_kind "da" os || has_kind "ve" os

module _ {R : Runtime} (S : Solvers R) where
  -- The electronic window's half-width: `_LCP_WALK_HALF_WIDTH.get(...)`
  abbrev pub half_width : String → R.Float
  half_width molecule = if str_eq molecule "N2" then R.decimal (pos 5) 2 else R.decimal (pos 1) 2

  -- `nuclear_angle_b`, where the first nuclear deck is at hand.
  abbrev pub angle_b : Option R.Float → S.Fem → R.Float
  angle_b none g = S.lower_angle g
  angle_b (some angle) g = angle

  abbrev pub lcp_energies : Option (EnergySpec R.Float) → S.Array
  lcp_energies none = S.empty
  lcp_energies (some e) = S.as_array e

  -- `(V_d, Gamma)` and, if they are wanted, the levels that were found on the way.
  pub record Curve : Type 0 where
    pub v_d : S.Array
    pub gamma : S.Array
    pub levels : List (ResonanceLevelsRun S.Array)

  unfoldable pub lcp_curve : ExperimentConfig R.Float → S.Fem × S.Fem × S.Fem → Result Curve
  unfolding requested_levels
  lcp_curve cfg (g, elec_a, elec_b) =
      if has_kind "resonance_levels" cfg.observables || cfg.artifacts.resonance_levels
      then (requested_levels cfg.observables >>= λ n.
          nuclear_grid_at_angle R cfg (angle_b cfg.grid.nuclear_angle_b g) >>= λ deck.
          let found =
            S.resonance_levels cfg.molecule g (S.deck deck) elec_a elec_b (half_width cfg.molecule)
              n in
          ok (record {
            v_d = found.1;
            gamma = found.2;
            levels =
                record {
                  label = "lcp:resonance_levels";
                  levels = found.0;
                  axis = S.real_points g;
                  v_d = found.1;
                  gamma = found.2;
                  r0 = S.rotation_origin g;
                }
                ∷ [];
          }))
      else (let curve =
            S.local_complex_potential cfg.molecule g elec_a elec_b (half_width cfg.molecule) in
          ok (record { v_d = curve.0; gamma = curve.1; levels = [] }))

  -- The cross sections of one observable; a kind that is neither `da` nor `ve` is passed over.
  unfoldable pub lcp_observable :
      String
      → ℤ
      → S.Fem
      → Curve
      → Basis S.Array
      → S.Array
      → Observable
      → Dict S.Array
      → Result (Dict S.Array)
  unfolding vprimes
  lcp_observable molecule v_init g curve basis energies o d =
      if str_eq o.kind "ve"
      then (vprimes o >>= λ vs. ok (
          write_columns S
            (S.lcp_ve_cross_section molecule g curve.v_d curve.gamma basis v_init vs energies) 0
            (keys_behind "lcp:ve:" (map (final_state v_init) vs)) d))
      else if str_eq o.kind "da"
      then ok (
          insert "lcp:da:ch0"
            (S.lcp_da_cross_section molecule g curve.v_d curve.gamma basis v_init energies) d)
      else ok d

  unfoldable pub lcp_observables :
      String
      → ℤ
      → S.Fem
      → Curve
      → Basis S.Array
      → S.Array
      → List Observable
      → Dict S.Array
      → Result (Dict S.Array)
  unfolding lcp_observable
  lcp_observables molecule v_init g curve basis energies [] d = ok d
  lcp_observables molecule v_init g curve basis energies (o ∷ os) d =
      lcp_observable molecule v_init g curve basis energies o d
      >>= lcp_observables molecule v_init g curve basis energies os

  abbrev pub peak_state :
      Bool → S.Fem → Option (S.Array × S.Array × S.Array × S.Array) → List (ResonanceState S.Array)
  peak_state false elec none = []
  peak_state false elec (some found) = []
  peak_state true elec none = []
  peak_state true elec (some (position, pole, width, phi)) =
      record {
        label = "lcp:resonance";
        position = position;
        energy = pole;
        width = width;
        state = phi;
        axis = S.real_points elec;
      }
      ∷ []

  -- The energies that have a scattering state, with it.
  abbrev pub open_states : List R.Float → (R.Float → Option S.Array) → List (R.Float × S.Array)
  open_states [] psi = []
  open_states (e ∷ es) psi = elim (psi e) [
    | none ↦ open_states es psi
    | some p ↦ (e, p) ∷ open_states es psi
  ]

  abbrev pub scattering_states : S.Fem → List (R.Float × S.Array) → List (EigenStates S.Array)
  scattering_states g [] = []
  scattering_states g (s ∷ ss) =
      record {
        kind = "lcp_scattering";
        label = "lcp:scattering";
        energies = S.array (map (λ (p : R.Float × S.Array). p.0) (s ∷ ss));
        states = S.arrays (map (λ (p : R.Float × S.Array). p.1) (s ∷ ss));
        axis = S.real_points g;
      }
      ∷ []

  abbrev pub lcp_scattering :
      String
      → ℤ
      → S.Fem
      → Curve
      → Basis S.Array
      → Option (WavefunctionSnapshotsSpec R.Float)
      → List (EigenStates S.Array)
  lcp_scattering molecule v_init g curve basis none = []
  lcp_scattering molecule v_init g curve basis (some w) =
      if w.full_field
      then scattering_states g (
          open_states w.ti_energies
            (S.lcp_wavefunction molecule g curve.v_d curve.gamma basis v_init))
      else []

  pub record LcpRun : Type 0 where
    pub cross_sections : Dict S.Array
    pub eigenstates : List (EigenStates S.Array)
    pub resonance_states : List (ResonanceState S.Array)
    pub resonance_levels : List (ResonanceLevelsRun S.Array)

  -- `_run_lcp`
  unfoldable pub run_lcp : ExperimentConfig R.Float → Result LcpRun
  unfolding required_levels lcp_curve lcp_observables
  run_lcp cfg =
      raise_if (wants_sigma cfg.observables && not (given cfg.energies)) no_energies
      >> (resolve_lcp_grids R cfg >>= λ builder.
          known_model cfg.molecule
          >> required_levels (add_one cfg.v_init) cfg.observables
          >>= λ required.
              let decks = S.lcp_decks builder in
              let basis = S.vibrational_states cfg.molecule decks.0 (n_vib R cfg required) in
              lcp_curve cfg decks >>= λ curve.
              lcp_observables cfg.molecule cfg.v_init decks.0 curve basis
                (lcp_energies cfg.energies) cfg.observables []
              >>= λ series. ok (record {
                cross_sections = series;
                eigenstates =
                    vibrational_eigenstates S cfg.artifacts.eigenstates "lcp:vibrational"
                      (S.real_points decks.0) basis
                    ++ lcp_scattering cfg.molecule cfg.v_init decks.0 curve basis
                        cfg.artifacts.wavefunction_snapshots;
                resonance_states =
                    peak_state cfg.artifacts.eigenstates decks.1
                      (S.peak_eigenstate cfg.molecule decks.0 decks.1 decks.2);
                resonance_levels = curve.levels;
              }))
