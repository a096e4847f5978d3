-- ===== src/Prelude/Dict.antt =====
-- Python's `dict` with text keys, as the list of its entries in insertion order.
use Prim.Native.String.{String}
use mathlib.Core.Path.{◌≡◌, refl}
use mathlib.Core.Bool.{Bool, true, false, ◌||◌}
use mathlib.Core.Option.{Option, none, some}
use mathlib.Core.List.{List, [], ◌∷◌, ◌++◌}
use native.Mathlib.Omega.{arith}
use text.Mathlib.Text.{◌==◌ as str_eq}
use text.Mathlib.TextEquality.{eq_iff}
use mathlib.Core.Logic.{inl, inr}
use qscat.Prelude.Tests.{if◌then◌else◌, Bool-cases, some-injective}

abbrev pub Dict {ℓ} : Type ℓ → Type ℓ
Dict V = List (String × V)

pub str_eq_comm : (s t : String) → str_eq s t ≡ str_eq t s
str_eq_comm s t = ground (arith, eq_iff s t, eq_iff t s)

module _ {ℓ} {V : Type ℓ} where
  abbrev pub lookup : String → Dict V → Option V
  lookup k [] = none
  lookup k ((j, v) ∷ d) = if str_eq j k then some v else lookup k d

  abbrev pub has_key : String → Dict V → Bool
  has_key k [] = false
  has_key k ((j, v) ∷ d) = str_eq j k || has_key k d

  -- `d[k] = v`: an old key keeps its place.
  abbrev pub insert : String → V → Dict V → Dict V
  insert k v [] = (k, v) ∷ []
  insert k v ((j, w) ∷ d) = if str_eq j k then (k, v) ∷ d else (j, w) ∷ insert k v d

  abbrev pub keys : Dict V → List String
  keys [] = []
  keys ((j, v) ∷ d) = j ∷ keys d

  abbrev pub NodupKeys : Dict V → Type 0
  NodupKeys [] = Unit
  NodupKeys ((k, v) ∷ d) = (has_key k d ≡ false) × NodupKeys d

  -- A key that is not there is written behind the others.
  pub insert_fresh :
      (k : String) (v : V) (d : Dict V) → has_key k d ≡ false → insert k v d ≡ d ++ ((k, v) ∷ [])
  insert_fresh k v [] h = refl
  insert_fresh k v ((j, w) ∷ d) h = ground (arith, insert_fresh k v d)

  pub has_key-append :
      (k : String) (d e : Dict V) → has_key k (d ++ e) ≡ (has_key k d || has_key k e)
  has_key-append k [] e = refl
  has_key-append k ((j, v) ∷ d) e = ground (arith, has_key-append k d e)

  pub fresh_of_NodupKeys :
      (k : String) (v : V) (d e : Dict V) → NodupKeys (d ++ ((k, v) ∷ e)) → has_key k d ≡ false
  fresh_of_NodupKeys k v [] e u = refl
  fresh_of_NodupKeys k v ((j, w) ∷ d) e (fresh, u) =
      ground (arith, fresh_of_NodupKeys k v d e u, has_key-append j d ((k, v) ∷ e), str_eq_comm j k)

  pub has_key-insert :
      (j k : String) (v : V) (d : Dict V) → has_key j (insert k v d) ≡ (str_eq k j || has_key j d)
  has_key-insert j k v [] = refl
  has_key-insert j k v ((i, w) ∷ d) =
      ground (arith, eq_iff k j, eq_iff i k, eq_iff i j, has_key-insert j k v d)

  pub insert-NodupKeys : (k : String) (v : V) (d : Dict V) → NodupKeys d → NodupKeys (insert k v d)
  insert-NodupKeys k v [] u = (refl, tt)
  insert-NodupKeys k v ((j, w) ∷ d) (fresh, u) =
      ground (arith, eq_iff j k, str_eq_comm j k, insert-NodupKeys k v d u, has_key-insert j k v d)

  -- Writing what is there changes nothing.
  pub insert-lookup : (k : String) (v : V) (d : Dict V) → lookup k d ≡ some v → insert k v d ≡ d
  insert-lookup k v [] h = cc
  insert-lookup k v ((j, w) ∷ d) h = ground (arith, eq_iff j k, insert-lookup k v d)

  pub lookup-insert :
      (k j : String) (v : V) (d : Dict V)
      → lookup j (insert k v d) ≡ (if str_eq k j then some v else lookup j d)
  lookup-insert k j v [] = refl
  lookup-insert k j v ((i, w) ∷ d) =
      ground (arith, eq_iff k j, eq_iff i k, eq_iff i j, lookup-insert k j v d)

  -- A predicate of every value.
  abbrev pub Values {κ} : (V → Type κ) → Dict V → Type κ
  Values P [] = Unit
  Values P ((k, v) ∷ d) = P v × Values P d

  pub Values-insert {κ} :
      (P : V → Type κ) (k : String) (v : V) (d : Dict V)
      → P v
      → Values P d
      → Values P (insert k v d)
  Values-insert P k v [] p ps = (p, tt)
  Values-insert P k v ((j, w) ∷ d) p (q, ps) = elim (Bool-cases (str_eq j k)) [
    | inl same ↦ rw same (p, ps)
    | inr other ↦ rw other (q, Values-insert P k v d p ps)
  ]

  pub Values-lookup {κ} :
      (P : V → Type κ) (k : String) (v : V) (d : Dict V) → lookup k d ≡ some v → Values P d → P v
  Values-lookup P k v [] h ps = cc
  Values-lookup P k v ((j, w) ∷ d) h (q, ps) = elim (Bool-cases (str_eq j k)) [
    | inl same ↦ rw (← some-injective (rw same at h)) q
    | inr other ↦ Values-lookup P k v d (rw other at h) ps
  ]

  pub lookup_of_has_key :
      (k : String) (d : Dict V) → has_key k d ≡ true → (v : V) × (lookup k d ≡ some v)
  lookup_of_has_key k [] h = cc
  lookup_of_has_key k ((j, v) ∷ d) h = elim (Bool-cases (str_eq j k)) [
    | inl same ↦ (v, rw same refl)
    | inr other ↦ let (w, found) = lookup_of_has_key k d (rw other at h) in (w, rw other found)
  ]
