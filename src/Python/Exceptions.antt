-- ===== src/Python/Exceptions.antt =====
-- Exceptions as values. `ConfigError` carries which of its `raise` statements was reached and what
-- identifies the culprit; the wording of the messages is not modelled.
use qscat.Prelude.{ℕ, String, ◌≡◌, refl, Bool, true, false, List, [], ◌∷◌}

-- The place that a loader names in its message: `"grid.nuclear.ecs"`, `"observables[2]"`.
pub data Place : Type 0 where
  block : String → Place
  entry : String → ℕ → Place

pub data Problem : Type 0 where
  missing_key : Place → String → Problem
  missing_keys : List String → Problem
  not_a_mapping : Place → Problem
  step_not_positive stop_not_above_start : Place → Problem
  several_energy_forms no_ranges no_energy_form : Problem
  molecule_is_bool : Bool → Problem
  unknown_molecule : String → Problem
  no_methods no_observables : Problem
  unknown_methods : List String → Problem
  invalid_observable : String → Problem
  no_td_block lcp_explicit_grid lcp_unavailable nrm_unavailable nrm_no_observable : Problem
  nrm_explicit_grid nrm_no_choice nrm_bad_n_states : Problem
  nrm_bad_choices bad_extractors : List String → Problem
  missing_half unknown_preset no_preset unknown_method : String → Problem
  reference_format reference_missing reference_unreadable reference_channels : ℕ → Problem
  no_test_function no_channels unknown_observable : String → Problem
  unknown_extractor unknown_backend : String → Problem
  no_energies no_nuclear_deck no_incident : Problem

pub data Error : Type 0 where
  config_error : Problem → Error
  type_error value_error overflow_error attribute_error key_error index_error : Error

pub data Result {ℓ} (A : Type ℓ) : Type ℓ where
  ok : A → Result A
  err : Error → Result A

abbrev pub raise {ℓ} : {A : Type ℓ} → Problem → Result A
raise p = err (config_error p)

infixl 5 ◌>>=◌
infixl 5 ◌>>◌
abbrev pub ◌>>=◌ {ℓ μ} : {A : Type ℓ} {B : Type μ} → Result A → (A → Result B) → Result B
ok value >>= next = next value
err problem >>= next = err problem

abbrev pub ◌>>◌ {ℓ} : {B : Type ℓ} → Result (Unit {0}) → Result B → Result B
first >> second = first >>= λ _. second

-- `if test: raise ConfigError(...)`
abbrev pub raise_if : Bool → Problem → Result (Unit {0})
raise_if true p = raise p
raise_if false p = ok tt

-- `[f(x) for x in xs]`, which stops at the first exception.
abbrev pub traverse {ℓ κ} : {A : Type ℓ} {B : Type κ} → (A → Result B) → List A → Result (List B)
traverse f [] = ok []
traverse f (x ∷ xs) = f x >>= λ y. traverse f xs >>= λ ys. ok (y ∷ ys)

-- Inversion of a successful bind: both parts returned.
pub bind_inv {ℓ κ μ} :
    {A : Type ℓ} {B : Type κ} {C : Type μ} (m : Result A) (f : A → Result B) {b : B}
    → (m >>= f) ≡ ok b
    → ((a : A) → m ≡ ok a → f a ≡ ok b → C)
    → C
bind_inv (ok a) f h k = k a refl h
bind_inv (err e) f h k = cc

pub ok-injective {ℓ} : {A : Type ℓ} {a b : A} → ok a ≡ ok b → a ≡ b
ok-injective h = cc
