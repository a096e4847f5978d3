-- ===== src/Config/RoundTrip/Blocks.antt =====
-- Each block of a config loads back from what it dumps to.
use qscat.Prelude.{ℕ, ◌+◌, String, ◌≡◌, refl, true, false, Option, none, some, List, [], ◌∷◌, map}
use qscat.Python.{
  ℤ, is_null, Result, ok, ◌>>=◌, traverse, Value, int, float, text, items, of_items, Runtime,
}
use qscat.Python.Convert.{truthy, iterate, to_int, to_float, to_text}
use qscat.Config.Types.{
  Channels, first_n, listed, Observable, SegmentSpec, GridSpec, ArtifactSpec, ReferenceSpec,
}
use qscat.Config.Load.Grid.{load_segment, load_grid, load_pair}
use qscat.Config.Load.Artifacts.{
  if_given, load_moments, load_snapshots, parse_channels, load_observable, load_observables,
  load_reference_entry, load_artifacts, load_references, load_reference,
}
use qscat.Config.Load.Common.{optional, optional_text, ints}
use qscat.Config.Dump.{
  dump_option, dump_moments, dump_snapshots, dump_list, dump_channels, dump_observable, dump_pair,
  dump_segment, dump_grid, dump_artifacts, dump_reference,
}

module _ {F : Type 0} where
  items-of_items : (vs : List (Value F)) → items (of_items vs) ≡ vs
  items-of_items [] = refl
  items-of_items (v ∷ vs) = rw (items-of_items vs)

module _ {F A : Type 0} (dump : A → Value F) (load : Value F → Result A) where
  -- Lists load back where their elements do.
  pub traverse-map :
      ((a : A) → load (dump a) ≡ ok a)
      → (xs : List A) → traverse load (items (of_items (map dump xs))) ≡ ok xs
  traverse-map h [] = refl
  traverse-map h (x ∷ xs) = rw (h x, traverse-map h xs)

module _ {F : Type 0} {A : Type 0} where
  pub optional-dump :
      (load : Value F → Result A) (dump : A → Value F)
      → ((a : A) → is_null (dump a) ≡ false)
      → ((a : A) → load (dump a) ≡ ok a)
      → (o : Option A) → optional load (dump_option dump o) ≡ ok o
  optional-dump load dump given back none = refl
  optional-dump load dump given back (some a) = rw (given a, back a)

segment_given : {F : Type 0} (s : SegmentSpec F) → is_null (dump_segment s) ≡ false
unfolding dump_segment
segment_given s = refl

module _ (R : Runtime) where
  if_given-dump :
      {A : Type 0} (load : Value R.Float → Result A) (dump : A → Value R.Float)
      → ((a : A) → truthy R (dump a) ≡ true)
      → ((a : A) → load (dump a) ≡ ok a)
      → (o : Option A) → if_given R load (dump_option dump o) ≡ ok o
  if_given-dump load dump given back none = refl
  if_given-dump load dump given back (some a) = rw (given a, back a)

  pub floats_back :
      (xs : List R.Float) → traverse (to_float R) (items (of_items (map float xs))) ≡ ok xs
  floats_back = traverse-map float (to_float R) (λ x. refl)

  pub ints_back : (xs : List ℤ) → traverse (to_int R) (items (of_items (map int xs))) ≡ ok xs
  ints_back = traverse-map int (to_int R) (λ x. refl)

  pub texts_back : (xs : List String) → map (to_text R) (items (of_items (map text xs))) ≡ xs
  texts_back [] = refl
  texts_back (x ∷ xs) = rw (texts_back xs)

  pub text_back : (o : Option String) → optional_text R (dump_option text o) ≡ o
  text_back none = refl
  text_back (some s) = refl

  parse_channels-dump_channels : (c : Channels) → parse_channels R (dump_channels c) ≡ ok (some c)
  unfolding parse_channels dump_channels
  parse_channels-dump_channels (first_n n) = refl
  parse_channels-dump_channels (listed cs) = rw (ints_back cs)

  observable_of_fields :
      (i : ℕ) (k : String) (c : Option Channels)
      → let o : Observable = record { kind = k; channels = c } in
        load_observable R i (dump_observable o) ≡ ok o
  unfolding load_observable
  observable_of_fields i k none = refl
  observable_of_fields i k (some c) = rw (parse_channels-dump_channels c)

  pub load_observable-dump :
      (i : ℕ) (o : Observable) → load_observable R i (dump_observable o) ≡ ok o
  load_observable-dump i o = observable_of_fields i o.kind o.channels

  pub load_observables-dump :
      (i : ℕ) (os : List Observable)
      → load_observables R i (items (of_items (map dump_observable os))) ≡ ok os
  unfolding load_observables
  load_observables-dump i [] = refl
  load_observables-dump i (o ∷ os) =
      rw (load_observable-dump i o) (rw (load_observables-dump (i + 1) os))

  load_pair-dump : (p : ℤ × R.Float) → (iterate (dump_pair p) >>= load_pair R) ≡ ok p
  load_pair-dump (n, x) = refl

  pub load_segment-dump :
      (place : String) (s : SegmentSpec R.Float) → load_segment R place (dump_segment s) ≡ ok s
  unfolding load_segment dump_segment
  load_segment-dump place s =
      rw (traverse-map dump_pair (λ p. iterate p >>= load_pair R) load_pair-dump s.real)

  pub load_grid-dump : (g : GridSpec R.Float) → load_grid R (dump_grid g) ≡ ok g
  unfolding load_grid dump_grid
  load_grid-dump g = rw (
    optional-dump (load_segment R "grid.electronic") dump_segment segment_given
        (load_segment-dump "grid.electronic") g.electronic,
    optional-dump (load_segment R "grid.nuclear") dump_segment segment_given
        (load_segment-dump "grid.nuclear") g.nuclear,
    optional-dump (to_float R) float (λ x. refl) (λ x. refl) g.nuclear_angle_b,
    text_back g.preset,
  )

  pub load_artifacts-dump : (a : ArtifactSpec R.Float) → load_artifacts R (dump_artifacts a) ≡ ok a
  unfolding load_artifacts dump_artifacts
  load_artifacts-dump a = rw (
    if_given-dump (load_moments R) dump_moments (λ x. refl) (λ x. rw (floats_back x.moments))
        a.cross_section_vs_time,
    if_given-dump (load_snapshots R) dump_snapshots (λ x. refl)
        (λ x. rw (floats_back x.td_times, floats_back x.ti_energies)) a.wavefunction_snapshots,
  )

  pub load_reference_entry-dump :
      (i : ℕ) (r : ReferenceSpec) → load_reference_entry R i (dump_reference r) ≡ ok r
  unfolding load_reference_entry
  load_reference_entry-dump i r = rw (
    optional-dump (ints R) (dump_list int) (λ x. refl) (λ x. ints_back x) r.channels,
    text_back r.label,
  )

  pub load_references-dump :
      (i : ℕ) (rs : List ReferenceSpec)
      → load_references R i (items (of_items (map dump_reference rs))) ≡ ok rs
  unfolding load_references
  load_references-dump i [] = refl
  load_references-dump i (r ∷ rs) =
      rw (load_reference_entry-dump i r) (rw (load_references-dump (i + 1) rs))

  pub load_reference-dump :
      (rs : List ReferenceSpec) → load_reference R (dump_list dump_reference rs) ≡ ok rs
  unfolding load_reference
  load_reference-dump [] = refl
  load_reference-dump (r ∷ rs) = load_references-dump 0 (r ∷ rs)
