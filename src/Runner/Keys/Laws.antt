-- ===== src/Runner/Keys/Laws.antt =====
-- Which keys a `dict` of series has, after the writes of apps/qscat-run/qscat_run/runner.py.
use qscat.Prelude.{
  ℕ, suc, String, ◌≡◌, refl, Bool, ◌||◌, Option, none, some, List, [], ◌∷◌, ◌++◌, if◌then◌else◌,
  arith,
}
use package.text.Mathlib.TextEquality.{eq_iff}
use qscat.Prelude.Text.{contains}
use qscat.Prelude.Dict.{
  Dict, insert, has_key, has_key-insert, NodupKeys, insert-NodupKeys, lookup, lookup-insert,
  str_eq_comm,
}
use qscat.Python.{ℤ, Result, ok, err, ◌>>=◌, ok-injective, Runtime}
use qscat.Config.Types.{Channels, first_n, listed, Observable}
use qscat.Runner.{vprimes_of, n_channels_of}
use qscat.Runner.Requested.{members, size}
use qscat.Runner.Solvers.{Solvers}
use qscat.Runner.Keys.{write_columns}
use qscat.Runner.Experiment.{merge}

pub contains-append :
    (k : String) (xs ys : List String) → contains k (xs ++ ys) ≡ (contains k xs || contains k ys)
contains-append k [] ys = refl
contains-append k (x ∷ xs) ys = ground (arith, contains-append k xs ys)

pub or_assoc : (a b c : Bool) → (a || (b || c)) ≡ ((a || b) || c)
or_assoc a b c = ground arith

pub or_swap : (a b c : Bool) → (a || (b || c)) ≡ ((b || a) || c)
or_swap a b c = ground arith

pub has_key-merge {ℓ} :
    {V : Type ℓ} (k : String) (d e : Dict V) → has_key k (merge d e) ≡ (has_key k d || has_key k e)
has_key-merge k d [] = ground arith
has_key-merge k d ((j, v) ∷ e) =
    ground (arith, has_key-merge k (insert j v d) e, has_key-insert k j v d)

-- `P` holds of what is returned.
abbrev pub Ensures {ℓ} : {A : Type ℓ} → (A → Type 0) → Result A → Type 0
Ensures P (ok a) = P a
Ensures P (err _) = Unit

pub Ensures-bind {ℓ μ} :
    {A : Type ℓ} {B : Type μ} (P : B → Type 0) (m : Result A) (f : A → Result B)
    → ((a : A) → Ensures P (f a))
    → Ensures P (m >>= f)
Ensures-bind P (ok a) f h = h a
Ensures-bind P (err e) f h = tt

pub Ensures-then {ℓ μ} :
    {A : Type ℓ} {B : Type μ} (Q : A → Type 0) (P : B → Type 0) (m : Result A) (f : A → Result B)
    → Ensures Q m
    → ((a : A) → Q a → Ensures P (f a))
    → Ensures P (m >>= f)
Ensures-then Q P (ok a) f q h = h a q
Ensures-then Q P (err e) f q h = tt

pub Ensures-map {ℓ} :
    {A : Type ℓ} (Q P : A → Type 0) (m : Result A)
    → ((a : A) → Q a → P a)
    → Ensures Q m
    → Ensures P m
Ensures-map Q P (ok a) h q = h a q
Ensures-map Q P (err e) h q = tt

pub Ensures-ok {ℓ} :
    {A : Type ℓ} (P : A → Type 0) (m : Result A) {a : A} → Ensures P m → m ≡ ok a → P a
Ensures-ok P (ok b) h e = rw (← ok-injective e) h
Ensures-ok P (err p) h e = cc

pub merge-NodupKeys {ℓ} : {V : Type ℓ} (d e : Dict V) → NodupKeys d → NodupKeys (merge d e)
merge-NodupKeys d [] u = u
merge-NodupKeys d ((k, v) ∷ e) u = merge-NodupKeys (insert k v d) e (insert-NodupKeys k v d u)

pub lookup-merge {ℓ} :
    {V : Type ℓ} (k : String) (d e : Dict V)
    → NodupKeys e
    → lookup k (merge d e) ≡ (if has_key k e then lookup k e else lookup k d)
lookup-merge k d [] u = refl
lookup-merge k d ((j, v) ∷ e) (fresh, u) =
    ground (arith, lookup-merge k (insert j v d) e u, lookup-insert j k v d, eq_iff j k)

-- The keys of `e` are those of `d` and `ks`, and no key is there twice.
abbrev pub Extends {ℓ} : {V : Type ℓ} → List String → Dict V → Dict V → Type 0
Extends ks d e =
    ((k : String) → has_key k e ≡ (contains k ks || has_key k d)) × (NodupKeys d → NodupKeys e)

pub Extends-none {ℓ} : {V : Type ℓ} (d : Dict V) → Extends [] d d
Extends-none d = ((λ k. refl), (λ u. u))

-- What is returned extends `d` by `ks`.
abbrev pub Adds {ℓ} : {V : Type ℓ} → List String → Dict V → Result (Dict V) → Type 0
Adds ks d = Ensures (Extends ks d)

-- The last step of a run.
pub Adds-Ensures {ℓ μ} :
    {V : Type ℓ} {B : Type μ} (ks : List String) (m : Result (Dict V)) (f : Dict V → B)
    (series : B → Dict V)
    → ((d : Dict V) → series (f d) ≡ d)
    → Adds ks [] m
    → Ensures (λ b. Extends ks [] (series b)) (m >>= λ d. ok (f d))
Adds-Ensures ks (ok d) f series same h = rw (same d) h
Adds-Ensures ks (err e) f series same h = tt

pub Extends-trans {ℓ} :
    {V : Type ℓ} (ks js : List String) (d e f : Dict V)
    → Extends ks d e
    → Extends js e f
    → Extends (ks ++ js) d f
Extends-trans ks js d e f (p, u) (q, w) =
    ((λ k. ground (arith, p k, q k, contains-append k ks js)), (λ once. w (u once)))

pub Adds-bind {ℓ} :
    {V : Type ℓ} (ks js : List String) (d : Dict V) (m : Result (Dict V))
    (f : Dict V → Result (Dict V))
    → Adds ks d m
    → ((e : Dict V) → Adds js e (f e))
    → Adds (ks ++ js) d (m >>= f)
Adds-bind ks js d (err p) f first next = tt
Adds-bind {V = V} ks js d (ok e) f first next = finish (f e) (next e)
  where
    finish : (r : Result (Dict V)) → Adds js e r → Adds (ks ++ js) d r
    finish (err p) added = tt
    finish (ok g) added = Extends-trans ks js d e g first added

pub Extends-insert {ℓ} :
    {V : Type ℓ} (k : String) (v : V) (d : Dict V) → Extends (k ∷ []) d (insert k v d)
Extends-insert k v d =
    ((λ j. ground (arith, has_key-insert j k v d, str_eq_comm j k)), insert-NodupKeys k v d)

module _ {R : Runtime} (S : Solvers R) where
  pub write_columns-Extends :
      (sigma : S.Array) (i : ℕ) (ks : List String) (d : Dict S.Array)
      → Extends ks d (write_columns S sigma i ks d)
  unfolding write_columns
  write_columns-Extends sigma i [] d = Extends-none d
  write_columns-Extends sigma i (key ∷ ks) d =
      Extends-trans (key ∷ []) ks d (insert key (S.column sigma i) d) _
        (Extends-insert key (S.column sigma i) d)
        (write_columns-Extends sigma (suc i) ks (insert key (S.column sigma i) d))

-- Where the channels of an observable are not listed, the run stops.
pub Ensures-vprimes {ℓ} :
    {A : Type ℓ} (P : A → Type 0) (o : Observable) (c : Option Channels) (f : List ℤ → Result A)
    → Ensures P (f (members c))
    → Ensures P (vprimes_of o c >>= f)
Ensures-vprimes P o none f h = tt
Ensures-vprimes P o (some (listed cs)) f h = h
Ensures-vprimes P o (some (first_n n)) f h = h

pub Ensures-n_channels {ℓ} :
    {A : Type ℓ} (P : A → Type 0) (o : Observable) (c : Option Channels) (f : ℤ → Result A)
    → Ensures P (f (size c))
    → Ensures P (n_channels_of o c >>= f)
Ensures-n_channels P o none f h = tt
Ensures-n_channels P o (some (listed cs)) f h = h
Ensures-n_channels P o (some (first_n n)) f h = h
