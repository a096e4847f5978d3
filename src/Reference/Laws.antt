-- ===== src/Reference/Laws.antt =====
-- What the references of a config load, in apps/qscat-run/qscat_run/reference.py and artifacts.py.
use qscat.Prelude.{
  ℕ, suc, ◌-◌, ◌≤◌, ltb, ◌≡◌, refl, true, false, not, ◌||◌, Option, some, List, [], ◌∷◌, ◌++◌, inl,
  inr, is_nil, Bool-cases, String,
}
use qscat.Prelude.Text.{contains}
use qscat.Prelude.Dict.{Dict, lookup, has_key, insert, NodupKeys, insert-NodupKeys}
use qscat.Python.{
  ℤ, pos, ltb_ℤ, add_one, value_error, Result, ok, err, ◌>>=◌, bind_inv, ok-injective,
}
use qscat.Config.Types.{ReferenceSpec}
use qscat.Validate.{Files, bad_channels, reference_formats}
use qscat.Runner.Keys.Laws.{Ensures, Ensures-bind, Ensures-ok, lookup-merge}
use qscat.Reference.{
  Table, reference_key, column_at, wanted_columns, write_references, table_columns, load_dataset,
  with_dataset, load_datasets,
}

abbrev Succeeds {ℓ} : {A : Type ℓ} → Result A → Type ℓ
Succeeds {A = A} m = (a : A) × (m ≡ ok a)

write_references-NodupKeys :
    {A : Type 0} (raw : Table A) (cs : List ℤ) (d : Dict (A × A))
    → NodupKeys d
    → Ensures (λ (e : Dict (A × A)). NodupKeys e) (write_references raw cs d)
write_references-NodupKeys raw [] d u = u
write_references-NodupKeys {A} raw (c ∷ cs) d u =
    Ensures-bind (λ (e : Dict (A × A)). NodupKeys e) (column_at raw (pos 0)) _
      (λ energy.
        Ensures-bind (λ (e : Dict (A × A)). NodupKeys e) (column_at raw (add_one c)) _
          (λ sigma.
            write_references-NodupKeys raw cs (insert (reference_key c) (energy, sigma) d)
              (insert-NodupKeys (reference_key c) (energy, sigma) d u)))

-- Every channel has its column.
abbrev InRange : ℕ → List ℤ → Type 0
InRange n [] = Unit
InRange n (c ∷ cs) = (ltb_ℤ c (pos 0) ≡ false) × (ltb_ℤ c (pos n) ≡ true) × InRange n cs

-- What the first line and the whole of a file tell agree: a file that is there has a first line with
-- an energy and `n` cross sections, at least one, and is a table of that width.
pub record AgreesWith {A : Type 0} (files : Files)
    (loadtxt : String → Option String → Result (Table A)) : Type 0 where
  pub table :
      (path : String) (dir : Option String) (n : ℕ)
      → files.is_file path dir ≡ true
      → files.columns path dir ≡ some n
      → (raw : Table A) × (loadtxt path dir ≡ ok raw)
        × (raw.is_matrix ≡ true)
        × (raw.width ≡ suc n)
        × (1 ≤ n)

module _ {A : Type 0} (loadtxt : String → Option String → Result (Table A)) where
  table_columns-NodupKeys :
      (channels : Option (List ℤ)) (raw : Table A)
      → Ensures (λ (d : Dict (A × A)). NodupKeys d) (table_columns channels raw)
  unfolding table_columns
  table_columns-NodupKeys channels raw = elim (Bool-cases (not raw.is_matrix || ltb raw.width 2)) [
    | inl narrow ↦ rw narrow tt
    | inr wide ↦ rw wide (elim (Bool-cases (is_nil (bad_channels channels (raw.width - 1)))) [
      | inl good ↦
          rw good (write_references-NodupKeys raw (wanted_columns (raw.width - 1) channels) [] tt)
      | inr bad ↦ rw bad tt
    ])
  ]

  dataset-NodupKeys :
      (dir : Option String) (r : ReferenceSpec) (s : Dict (A × A))
      → load_dataset loadtxt dir r ≡ ok s
      → NodupKeys s
  unfolding load_dataset
  dataset-NodupKeys dir r s h = elim (Bool-cases (contains r.format reference_formats)) [
    | inl known ↦
        Ensures-ok (λ (d : Dict (A × A)). NodupKeys d)
          (loadtxt r.path dir >>= table_columns r.channels)
          (Ensures-bind (λ (d : Dict (A × A)). NodupKeys d) (loadtxt r.path dir) _
            (table_columns-NodupKeys r.channels))
          (rw known at h)
    | inr unknown ↦ let impossible : err value_error ≡ ok s = rw unknown at h in cc
  ]

  -- The series of the last reference replace those of every earlier reference with the same channel:
  -- what an earlier file holds under such a name is lost.
  pub last_reference_wins :
      (dir : Option String) (rs : List ReferenceSpec) (r : ReferenceSpec)
      (found loaded : Dict (A × A) × Dict String) (s : Dict (A × A)) (k : String)
      → load_datasets loadtxt dir (rs ++ (r ∷ [])) found ≡ ok loaded
      → load_dataset loadtxt dir r ≡ ok s
      → has_key k s ≡ true
      → lookup k loaded.0 ≡ lookup k s
  unfolding load_datasets
  last_reference_wins dir [] r found loaded s k h own there =
      let ended = ok-injective (rw own at h) in
      rw (← ended, lookup-merge k found.0 s (dataset-NodupKeys dir r s own), there) refl
  last_reference_wins dir (q ∷ rs) r found loaded s k h own there =
      bind_inv (load_dataset loadtxt dir q)
        (λ t. load_datasets loadtxt dir (rs ++ (r ∷ [])) (with_dataset loadtxt q found t)) h
        (λ t first rest.
          last_reference_wins dir rs r (with_dataset loadtxt q found t) loaded s k rest own there)
