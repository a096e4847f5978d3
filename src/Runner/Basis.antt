-- ===== src/Runner/Basis.antt =====
-- How many channels a run has, and that its vibrational basis holds them.
use qscat.Prelude.{ℕ, zero, suc, ◌≡◌, ◌≢◌, refl, ap, true, false, Option, none, some, List, arith}
use package.text.Mathlib.TextEquality.{eq_iff}
use qscat.Python.{ℤ, pos, negsuc, max_ℤ, ltb_ℤ, range, count_up, ok, Runtime}
use qscat.Config.Types.{Channels, first_n, listed, Observable, SegmentSpec, ExperimentConfig}
use qscat.Presets.Decks.{MoleculePreset}
use qscat.Presets.Resolve.{preset_for, fill_channels, or_else, default_channels}
use qscat.Validate.{given}
use qscat.Runner.{
  count, vprimes_of, vprimes, n_channels_of, n_channels, widened, unless_explicit, n_vib,
}

count-count_up : (i n : ℕ) → count (count_up i n) ≡ n
count-count_up i zero = refl
count-count_up i (suc n) = ap suc (count-count_up (suc i) n)

count-range : (n : ℤ) → ltb_ℤ n (pos 0) ≡ false → pos (count (range n)) ≡ n
count-range (pos n) h = ap pos (count-count_up 0 n)
count-range (negsuc n) h = ground arith

count_agrees :
    (o : Observable) (c : Option Channels) (vs : List ℤ) (n : ℤ)
    → vprimes_of o c ≡ ok vs
    → n_channels_of o c ≡ ok n
    → ltb_ℤ n (pos 0) ≡ false
    → n ≡ pos (count vs)
count_agrees o none vs n h g p = cc
count_agrees o (some (listed cs)) vs n h g p = ground arith
count_agrees o (some (first_n k)) vs n h g p = ground (arith, count-range k)

-- `_n_channels` is the length of the list that `_vprimes` gives, unless the config asks for a
-- negative number of channels.
n_channels-vprimes :
    (o : Observable) (vs : List ℤ) (n : ℤ)
    → vprimes o ≡ ok vs
    → n_channels o ≡ ok n
    → ltb_ℤ n (pos 0) ≡ false
    → n ≡ pos (count vs)
unfolding vprimes n_channels
n_channels-vprimes o vs n h g p = count_agrees o o.channels vs n h g p

both_return :
    (o : Observable) (c : Option Channels)
    → given c ≡ true
    → ((vs : List ℤ) × (vprimes_of o c ≡ ok vs)) × ((n : ℤ) × (n_channels_of o c ≡ ok n))
both_return o none h = cc
both_return o (some (listed cs)) h = ((cs, refl), (pos (count cs), refl))
both_return o (some (first_n n)) h = ((range n, refl), (n, refl))

-- With its defaults filled in, an observable of any kind but `resonance_levels` has its channels:
-- both functions return.
vprimes-fill_channels :
    (R : Runtime) (p : MoleculePreset R.Float) (o : Observable)
    → o.kind ≢ "resonance_levels"
    → ((vs : List ℤ) × (vprimes (fill_channels R p o) ≡ ok vs))
      × ((n : ℤ) × (n_channels (fill_channels R p o) ≡ ok n))
unfolding vprimes n_channels default_channels
vprimes-fill_channels R p o h =
    both_return (fill_channels R p o) (or_else o.channels (default_channels o.kind p))
      (filled o.channels)
  where
    filled : (c : Option Channels) → given (or_else c (default_channels o.kind p)) ≡ true
    filled (some c) = refl
    filled none = ground (arith, eq_iff o.kind "resonance_levels")

max_covers : (a b : ℤ) → ltb_ℤ (max_ℤ a b) b ≡ false
max_covers a b = ground arith

module _ (R : Runtime) where
  widened_covers :
      (o : Option (MoleculePreset R.Float)) (required : ℤ)
      → ltb_ℤ (widened R o required) required ≡ false
  widened_covers none required = max_covers required required
  widened_covers (some p) required = max_covers p.n_vib required

  unless_explicit_covers :
      (e n : Option (SegmentSpec R.Float)) (required named : ℤ)
      → ltb_ℤ named required ≡ false
      → ltb_ℤ (unless_explicit R e n required named) required ≡ false
  unless_explicit_covers (some e) (some n) required named h = ground arith
  unless_explicit_covers none n required named h = h
  unless_explicit_covers (some e) none required named h = h

  -- The vibrational basis is never smaller than what the run needs.
  n_vib_covers :
      (cfg : ExperimentConfig R.Float) (required : ℤ)
      → ltb_ℤ (n_vib R cfg required) required ≡ false
  unfolding n_vib
  n_vib_covers cfg required =
      unless_explicit_covers cfg.grid.electronic cfg.grid.nuclear required _
        (widened_covers (preset_for R cfg) required)
