-- ===== src/Runner/Keys.antt =====
-- The names of series in apps/qscat-run/qscat_run/runner.py, and how columns are stored under them.
pub mod Laws
use qscat.Prelude.{ℕ, zero, suc, String, List, [], ◌∷◌, map}
use qscat.Prelude.Text.{◌<>◌}
use qscat.Prelude.Dict.{Dict, insert}
use qscat.Python.{ℤ, show_ℤ, Runtime}
use qscat.Runner.Solvers.{Solvers}

-- `f"v{v_init}->{vp}"`
unfoldable pub final_state : ℤ → ℤ → String
final_state v_init vp = "v" <> (show_ℤ v_init <> ("->" <> show_ℤ vp))

-- `f"ch{c}"`
unfoldable pub channel_label : ℤ → String
channel_label c = "ch" <> show_ℤ c

-- The keys of one observable's channels behind a prefix.
abbrev pub keys_behind : String → List String → List String
keys_behind prefix = map (λ label. prefix <> label)

module _ {R : Runtime} (S : Solvers R) where
  -- `for k, key in enumerate(keys): d[key] = sigma[:, k]`
  unfoldable pub write_columns : S.Array → ℕ → List String → Dict S.Array → Dict S.Array
  write_columns sigma k [] d = d
  write_columns sigma k (key ∷ keys) d =
      write_columns sigma (suc k) keys (insert key (S.column sigma k) d)
