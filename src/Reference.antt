-- ===== src/Reference.antt =====
-- apps/qscat-run/qscat_run/reference.py, and the loop over the references with
-- `_disambiguated_labels` in artifacts.py. What `np.loadtxt` gives for a path is a parameter.
pub mod Laws
use Prim.Native.String.{String}
use qscat.Prelude.{
  ℕ, zero, suc, ◌+◌, ◌-◌, ltb, Bool, true, false, not, ◌||◌, Option, none, some, List, [], ◌∷◌, map,
  is_nil, str_eq, if◌then◌else◌,
}
use qscat.Prelude.Text.{◌<>◌, contains}
use qscat.Prelude.Dict.{Dict, insert, keys}
use qscat.Python.{ℤ, pos, negsuc, add_one, range, value_error, index_error, Result, ok, err, ◌>>=◌}
use qscat.Config.Types.{ReferenceSpec}
use qscat.Validate.{bad_channels, reference_formats}
use qscat.Runner.Keys.{channel_label}
use qscat.Runner.Experiment.{merge}

-- What `np.loadtxt` gives: whether it has two dimensions, `shape[1]`, and the columns by their place.
pub record Table (A : Type 0) : Type 0 where
  pub is_matrix : Bool
  pub width : ℕ
  pub column : ℕ → A

-- `f"ref:ve:ch{c}"`
abbrev pub reference_key : ℤ → String
reference_key c = "ref:ve:" <> channel_label c

-- `label (suffix)`: `k.rsplit(":", 1)[-1]`
abbrev last_part : String → String → String
last_part acc String.[] = acc
last_part acc (String.◌∷◌ c s) =
    last_part (if str_eq (String.◌∷◌ c String.[]) ":" then "" else acc <> String.◌∷◌ c String.[]) s

-- `dict.fromkeys(keys, label)`, or the labels with their suffixes.
abbrev label_all : (String → String) → List String → Dict String → Dict String
label_all f [] d = d
label_all f (k ∷ ks) d = label_all f ks (insert k (f k) d)

abbrev at_most_one : List String → Bool
at_most_one [] = true
at_most_one (k ∷ []) = true
at_most_one (k ∷ j ∷ ks) = false

-- `_disambiguated_labels`
unfoldable pub disambiguated_labels : Option String → List String → Dict String
disambiguated_labels none ks = []
disambiguated_labels (some label) ks =
    if at_most_one ks
    then label_all (λ k. label) ks []
    else label_all (λ k. label <> (" (" <> (last_part "" k <> ")"))) ks []

-- The columns that are asked for.
abbrev pub wanted_columns : ℕ → Option (List ℤ) → List ℤ
wanted_columns n none = range (pos n)
wanted_columns n (some cs) = cs

module _ {A : Type 0} where
  -- `raw[:, i]`: a negative index counts from the end, and one out of range raises an `IndexError`.
  abbrev pub column_at : Table A → ℤ → Result A
  column_at raw (pos i) = if ltb i raw.width then ok (raw.column i) else err index_error
  column_at raw (negsuc i) =
      if ltb i raw.width then ok (raw.column (raw.width - suc i)) else err index_error

  -- The `dict` comprehension.
  abbrev pub write_references : Table A → List ℤ → Dict (A × A) → Result (Dict (A × A))
  write_references raw [] d = ok d
  write_references raw (c ∷ cs) d = column_at raw (pos 0) >>= λ energy.
      column_at raw (add_one c) >>= λ sigma.
      write_references raw cs (insert (reference_key c) (energy, sigma) d)

  -- `_load_columns`, after the file was read.
  unfoldable pub table_columns : Option (List ℤ) → Table A → Result (Dict (A × A))
  table_columns channels raw =
      if not raw.is_matrix || ltb raw.width 2
      then err value_error
      else if not (is_nil (bad_channels channels (raw.width - 1)))
      then err value_error
      else write_references raw (wanted_columns (raw.width - 1) channels) []

module _ {A : Type 0} (loadtxt : String → Option String → Result (Table A)) where
  -- `load_reference`, with `resolve_path` part of the parameter.
  unfoldable pub load_dataset : Option String → ReferenceSpec → Result (Dict (A × A))
  unfolding table_columns
  load_dataset dir r =
      if not (contains r.format reference_formats)
      then err value_error
      else (loadtxt r.path dir >>= table_columns r.channels)

  -- `reference_series.update(series_i)`, and the labels' update
  abbrev pub with_dataset :
      ReferenceSpec → Dict (A × A) × Dict String → Dict (A × A) → Dict (A × A) × Dict String
  with_dataset r found series =
      (merge found.0 series, merge found.1 (disambiguated_labels r.label (keys series)))

  -- The loop over the references in `write_artifacts`: the series and their labels.
  unfoldable pub load_datasets :
      Option String
      → List ReferenceSpec
      → Dict (A × A) × Dict String
      → Result (Dict (A × A) × Dict String)
  unfolding load_dataset disambiguated_labels
  load_datasets dir [] found = ok found
  load_datasets dir (r ∷ rs) found =
      load_dataset dir r >>= λ series. load_datasets dir rs (with_dataset r found series)
