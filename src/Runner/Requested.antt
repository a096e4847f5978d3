-- ===== src/Runner/Requested.antt =====
-- Which series a config asks for, by name: the scheme of names that the module docstring of
-- apps/qscat-run/qscat_run/runner.py lists, apart from how the methods write them.
use qscat.Prelude.{String, Option, none, some, List, [], ◌∷◌, ◌++◌, map, str_eq, if◌then◌else◌}
use qscat.Prelude.Text.{◌<>◌, contains}
use qscat.Python.{ℤ, pos, range}
use qscat.Config.Types.{Channels, first_n, listed, Observable, TdSpec, ExperimentConfig}
use qscat.Runner.{count}
use qscat.Runner.Keys.{final_state, channel_label, keys_behind}
use qscat.Runner.Nrm.{or_default_nrm}

-- The final states that an observable names.
abbrev pub members : Option Channels → List ℤ
members none = []
members (some (listed cs)) = cs
members (some (first_n n)) = range n

-- How many channels an observable has.
abbrev pub size : Option Channels → ℤ
size none = pos 0
size (some (listed cs)) = pos (count cs)
size (some (first_n n)) = n

abbrev pub state_labels : ℤ → Observable → List String
state_labels v_init o = map (final_state v_init) (members o.channels)

abbrev pub numbered_labels : Observable → List String
numbered_labels o = map channel_label (range (size o.channels))

abbrev pub for_each {ℓ} : {A : Type ℓ} → (A → List String) → List A → List String
for_each f [] = []
for_each f (x ∷ xs) = f x ++ for_each f xs

-- `ti:<kind>:<channel>`
abbrev pub ti_names : ℤ → Observable → List String
ti_names v_init o =
    if str_eq o.kind "ve"
    then keys_behind "ti:ve:" (state_labels v_init o)
    else if str_eq o.kind "da"
    then keys_behind "ti:da:" (numbered_labels o)
    else if str_eq o.kind "dr"
    then keys_behind "ti:dr:" (numbered_labels o)
    else []

-- `td:<kind>:<extractor>:<channel>`, with a suffix
abbrev pub extractor_names : String → String → List String → String → List String
extractor_names suffix kind labels name =
    map (λ (l : String). ("td:" <> (kind <> (":" <> name))) <> (":" <> (l <> suffix))) labels

abbrev pub td_names : String → ℤ → List String → Observable → List String
td_names suffix v_init names o =
    if str_eq o.kind "ve"
    then for_each (extractor_names suffix "ve" (state_labels v_init o)) names
    else for_each (extractor_names suffix o.kind (numbered_labels o)) names

-- `lcp:<kind>:<channel>`; dissociation has one channel, and other kinds none.
abbrev pub lcp_names : ℤ → Observable → List String
lcp_names v_init o =
    if str_eq o.kind "ve"
    then keys_behind "lcp:ve:" (state_labels v_init o)
    else if str_eq o.kind "da"
    then "lcp:da:ch0" ∷ []
    else []

-- `nrm-<choice>:<kind>:<channel>`
abbrev pub nrm_names : ℤ → String → Observable → List String
nrm_names v_init choice o =
    if str_eq o.kind "ve"
    then keys_behind ("nrm-" <> (choice <> ":ve:")) (state_labels v_init o)
    else if str_eq o.kind "da"
    then ("nrm-" <> (choice <> ":da:ch0")) ∷ []
    else []

abbrev pub extractors_of : {F : Type 0} → Option (TdSpec F) → List String
extractors_of none = []
extractors_of (some td) = td.extractors

module _ {F : Type 0} where
  -- The names of the series of each method.
  abbrev pub ti_requested : ExperimentConfig F → List String
  ti_requested cfg = for_each (ti_names cfg.v_init) cfg.observables

  abbrev pub td_requested : String → ExperimentConfig F → List String
  td_requested suffix cfg =
      for_each (td_names suffix cfg.v_init (extractors_of cfg.td)) cfg.observables

  abbrev pub lcp_requested : ExperimentConfig F → List String
  lcp_requested cfg = for_each (lcp_names cfg.v_init) cfg.observables

  abbrev pub nrm_requested : ExperimentConfig F → List String
  nrm_requested cfg =
      for_each (λ (choice : String). for_each (nrm_names cfg.v_init choice) cfg.observables)
        (or_default_nrm cfg.nrm).choices

  abbrev pub if_method : String → ExperimentConfig F → List String → List String
  if_method method cfg names = if contains method cfg.methods then names else []

  -- The names of all series of a run.
  unfoldable pub requested : ExperimentConfig F → List String
  requested cfg =
      ((if_method "ti" cfg (ti_requested cfg) ++ if_method "td" cfg (td_requested "" cfg))
        ++ if_method "lcp" cfg (lcp_requested cfg))
      ++ if_method "nrm" cfg (nrm_requested cfg)
