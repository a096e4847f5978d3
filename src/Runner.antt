-- ===== src/Runner.antt =====
-- apps/qscat-run/qscat_run/runner.py: here the channels of an observable and the size of the
-- vibrational basis; each method, and the run of all of them, is a child.
pub mod Basis
pub mod Solvers
pub mod Keys
pub mod TimeIndependent
pub mod TimeDependent
pub mod Lcp
pub mod Nrm
pub mod Experiment
pub mod Requested
use qscat.Prelude.{ℕ, zero, suc, Option, none, some, List, []}
use qscat.Python.{ℤ, pos, max_ℤ, range, no_channels, Result, ok, raise, Runtime}
use qscat.Config.Types.{Channels, first_n, listed, Observable, SegmentSpec, ExperimentConfig}
use qscat.Presets.Decks.{MoleculePreset}
use qscat.Presets.Resolve.{preset_for}

-- `len`
abbrev pub count : List ℤ → ℕ
count [] = zero
count (List.◌∷◌ c cs) = suc (count cs)

abbrev pub vprimes_of : Observable → Option Channels → Result (List ℤ)
vprimes_of o none = raise (no_channels o.kind)
vprimes_of o (some (listed cs)) = ok cs
vprimes_of o (some (first_n n)) = ok (range n)

-- `_vprimes`
unfoldable pub vprimes : Observable → Result (List ℤ)
vprimes o = vprimes_of o o.channels

abbrev pub n_channels_of : Observable → Option Channels → Result ℤ
n_channels_of o none = raise (no_channels o.kind)
n_channels_of o (some (listed cs)) = ok (pos (count cs))
n_channels_of o (some (first_n n)) = ok n

-- `_n_channels`
unfoldable pub n_channels : Observable → Result ℤ
n_channels o = n_channels_of o o.channels

module _ (R : Runtime) where
  abbrev pub widened : Option (MoleculePreset R.Float) → ℤ → ℤ
  widened none required = max_ℤ required required
  widened (some p) required = max_ℤ p.n_vib required

  abbrev pub unless_explicit :
      Option (SegmentSpec R.Float) → Option (SegmentSpec R.Float) → ℤ → ℤ → ℤ
  unless_explicit (some e) (some n) required named = required
  unless_explicit none n required named = named
  unless_explicit (some e) none required named = named

  -- `_n_vib`
  unfoldable pub n_vib : ExperimentConfig R.Float → ℤ → ℤ
  n_vib cfg required =
      unless_explicit cfg.grid.electronic cfg.grid.nuclear required
        (widened (preset_for R cfg) required)
