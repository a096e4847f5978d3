-- ===== src/Runner/TimeIndependent.antt =====
-- `_run_ti` of apps/qscat-run/qscat_run/runner.py.
pub mod Names
use qscat.Prelude.{
  ℕ, zero, String, Bool, true, false, not, ◌||◌, Option, none, some, List, [], ◌∷◌, ◌++◌, map,
  is_nil, str_eq, if◌then◌else◌,
}
use qscat.Prelude.Text.{◌<>◌, contains}
use qscat.Prelude.Dict.{Dict}
use qscat.Python.{
  ℤ, negsuc, add_one, max_ℤ, range, unknown_observable, no_energies, key_error, Result, ok, err,
  ◌>>◌, raise, ◌>>=◌, Runtime,
}
use qscat.Config.Types.{Observable, EnergySpec, WavefunctionSnapshotsSpec, ExperimentConfig}
use qscat.Presets.Table.{models}
use qscat.Presets.Resolve.{resolve_grid}
use qscat.Runner.{vprimes, n_channels, n_vib}
use qscat.Runner.Solvers.{Solvers, Basis, WavefunctionSnapshot, EigenStates}
use qscat.Runner.Keys.{final_state, channel_label, keys_behind, write_columns}

-- `max(vprimes, default=-1)`
abbrev pub largest : List ℤ → ℤ
largest [] = negsuc zero
largest (v ∷ []) = v
largest (v ∷ w ∷ vs) = max_ℤ v (largest (w ∷ vs))

-- `required`: the levels that the run needs.
unfoldable pub required_levels : ℤ → List Observable → Result ℤ
unfolding vprimes
required_levels required [] = ok required
required_levels required (o ∷ os) =
    if str_eq o.kind "ve"
    then (vprimes o >>= λ vs. required_levels (max_ℤ required (add_one (largest vs))) os)
    else required_levels required os

abbrev pub energies_or_raise : {F : Type 0} → Option (EnergySpec F) → Result (EnergySpec F)
energies_or_raise none = raise no_energies
energies_or_raise (some e) = ok e

-- `presets.MODELS[molecule]`, which only checks the name here.
unfoldable pub known_model : String → Result (Unit {0})
known_model molecule = if contains molecule models then ok tt else err key_error

module _ {R : Runtime} (S : Solvers R) where
  -- `_vibrational_eigenstates`, if they are asked for.
  unfoldable pub vibrational_eigenstates :
      Bool → String → S.Array → Basis S.Array → List (EigenStates S.Array)
  vibrational_eigenstates wanted label axis basis =
      if wanted
      then record {
        kind = "vibrational";
        label = label;
        energies = basis.eps;
        states = basis.chi;
        axis = axis;
      }
        ∷ []
      else []

  -- The cross sections of one observable.
  unfoldable pub ti_observable :
      String
      → ℤ
      → S.Tensor
      → Basis S.Array
      → S.Array
      → Observable
      → Dict S.Array
      → Result (Dict S.Array)
  unfolding vprimes n_channels
  ti_observable molecule v_init grid basis energies o d =
      if str_eq o.kind "ve"
      then (vprimes o >>= λ vs. ok (
          write_columns S (S.ve_cross_section molecule grid basis v_init vs energies) 0
            (keys_behind "ti:ve:" (map (final_state v_init) vs)) d))
      else if str_eq o.kind "da"
      then (n_channels o >>= λ n. ok (
          write_columns S (S.da_cross_section molecule grid basis v_init n energies) 0
            (keys_behind "ti:da:" (map channel_label (range n))) d))
      else if str_eq o.kind "dr"
      then (n_channels o >>= λ n. ok (
          write_columns S (S.dr_cross_section molecule grid basis v_init n energies) 0
            (keys_behind "ti:dr:" (map channel_label (range n))) d))
      else raise (unknown_observable o.kind)

  -- The loop over the observables.
  unfoldable pub ti_observables :
      String
      → ℤ
      → S.Tensor
      → Basis S.Array
      → S.Array
      → List Observable
      → Dict S.Array
      → Result (Dict S.Array)
  unfolding ti_observable
  ti_observables molecule v_init grid basis energies [] d = ok d
  ti_observables molecule v_init grid basis energies (o ∷ os) d =
      ti_observable molecule v_init grid basis energies o d
      >>= ti_observables molecule v_init grid basis energies os

  unfoldable pub ti_snapshot : S.Tensor → Bool → R.Float → S.Array → WavefunctionSnapshot S.Array
  ti_snapshot grid full_field e psi =
      let rho = S.project_density grid psi in
      record {
        kind = "ti";
        label = "E" <> S.show_g e;
        rho_r = rho.0;
        rho_R = rho.1;
        axis_r = S.real_points (S.electronic_of grid);
        axis_R = S.real_points (S.nuclear_of grid);
        psi = if full_field then some (S.masked_field grid psi) else none;
      }

  -- The snapshots at the energies where there is a wavefunction.
  unfoldable pub ti_snapshots :
      String
      → ℤ
      → S.Tensor
      → Basis S.Array
      → Bool
      → List R.Float
      → List (WavefunctionSnapshot S.Array)
  unfolding ti_snapshot
  ti_snapshots molecule v_init grid basis full_field [] = []
  ti_snapshots molecule v_init grid basis full_field (e ∷ es) =
      let rest = ti_snapshots molecule v_init grid basis full_field es in
      elim (S.ve_wavefunction molecule grid basis v_init e) [
        | none ↦ rest
        | some psi ↦ ti_snapshot grid full_field e psi ∷ rest
      ]

  abbrev pub ti_wavefunctions :
      String
      → ℤ
      → S.Tensor
      → Basis S.Array
      → Option (WavefunctionSnapshotsSpec R.Float)
      → List (WavefunctionSnapshot S.Array)
  ti_wavefunctions molecule v_init grid basis none = []
  ti_wavefunctions molecule v_init grid basis (some w) =
      ti_snapshots molecule v_init grid basis w.full_field w.ti_energies

  pub record TiRun : Type 0 where
    pub cross_sections : Dict S.Array
    pub wavefunctions : List (WavefunctionSnapshot S.Array)
    pub eigenstates : List (EigenStates S.Array)
    pub grid : S.Tensor

  -- `_run_ti`
  unfoldable pub run_ti : ExperimentConfig R.Float → Result TiRun
  unfolding required_levels ti_observables
  run_ti cfg = energies_or_raise cfg.energies >>= λ spec. resolve_grid R cfg "ti" >>= λ named.
      required_levels (add_one cfg.v_init) cfg.observables >>= λ required.
      known_model cfg.molecule
      >> let energies = S.as_array spec in
        let grid = S.tensor named in
        let basis = S.vibrational_states cfg.molecule (S.nuclear_of grid) (n_vib R cfg required) in
        ti_observables cfg.molecule cfg.v_init grid basis energies cfg.observables [] >>= λ series.
        ok (record {
          cross_sections = series;
          wavefunctions =
              ti_wavefunctions cfg.molecule cfg.v_init grid basis
                cfg.artifacts.wavefunction_snapshots;
          eigenstates =
              vibrational_eigenstates cfg.artifacts.eigenstates "ti:vibrational"
                (S.real_points (S.nuclear_of grid)) basis;
          grid = grid;
        })
