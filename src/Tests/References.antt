-- ===== src/Tests/References.antt =====
-- Two reference files with two channels each.
use qscat.Prelude.{
  ℕ, ◌+◌, String, ◌≡◌, refl, true, Option, none, some, [], ◌∷◌, if◌then◌else◌, str_eq,
}
use qscat.Prelude.Dict.{Dict, lookup}
use qscat.Python.{pos, show_ℤ, Result, ok}
use qscat.Prelude.Text.{show_ℕ}
use qscat.Config.Types.{ReferenceSpec}
use qscat.Validate.{Files, bad_channels}
use qscat.Runner.Keys.{channel_label}
use qscat.Reference.{Table, load_dataset, load_datasets}
use qscat.Reference.Laws.{last_reference_wins}

abbrev column_of : ℕ → ℕ → ℕ
column_of base n = base + n

abbrev table_of : ℕ → Table ℕ
table_of base = record { is_matrix = true; width = 3; column = column_of base }

abbrev read_file : String → Option String → Result (Table ℕ)
read_file path dir = ok (table_of (if str_eq path "a.dat" then 10 else 20))

abbrev files : Files
files = record { is_file = λ path dir. true; columns = λ path dir. some 2 }

abbrev first : ReferenceSpec
first = record { path = "a.dat"; format = "houfek"; label = some "A"; channels = none }

abbrev second : ReferenceSpec
second = record {
  path = "b.dat";
  format = "houfek";
  label = some "B";
  channels = some (pos 1 ∷ []);
}

abbrev both : Dict (ℕ × ℕ) × Dict String
both = (
  ("ref:ve:ch0", (10, 11)) ∷ ("ref:ve:ch1", (20, 22)) ∷ [],
  ("ref:ve:ch0", "A (ch0)") ∷ ("ref:ve:ch1", "B") ∷ [],
)

both_loaded : load_datasets read_file none (first ∷ second ∷ []) ([], []) ≡ ok both
unfolding load_datasets channel_label show_ℤ show_ℕ bad_channels
both_loaded = refl

second_loaded : load_dataset read_file none second ≡ ok (("ref:ve:ch1", (20, 22)) ∷ [])
unfolding load_dataset channel_label show_ℤ show_ℕ bad_channels
second_loaded = refl

-- Channel 1 of the first file is gone.
last_reference_wins_example : lookup "ref:ve:ch1" both.0 ≡ some (20, 22)
last_reference_wins_example =
    last_reference_wins read_file none (first ∷ []) second ([], []) both
      (("ref:ve:ch1", (20, 22)) ∷ []) "ref:ve:ch1" both_loaded second_loaded refl
