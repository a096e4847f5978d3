-- ===== src/Runner/Experiment/Apart.antt =====
-- The names that two methods give their series in apps/qscat-run/qscat_run/runner.py are apart: they
-- differ in their first two characters.
use Prim.Native.Char.{Char}
use Prim.Native.String.append
use package.text.Mathlib.TextEquality.{eq_iff}
use qscat.Prelude.{
  ℕ, String, true, ◌≡◌, refl, ap, ◌∙◌, List, [], ◌∷◌, ◌++◌, map, inl, inr, str_eq, Bool-cases,
  if◌then◌else◌, arith,
}
use qscat.Prelude.Text.{◌<>◌, contains}
use qscat.Python.{ℤ}
use qscat.Config.Types.{Observable, ExperimentConfig}
use qscat.Runner.Keys.Laws.{contains-append}
use qscat.Runner.Nrm.{or_default_nrm}
use qscat.Runner.Requested.{
  for_each, state_labels, numbered_labels, extractor_names, ti_names, td_names, lcp_names,
  nrm_names, ti_requested, td_requested, lcp_requested, nrm_requested, extractors_of,
}

-- The first two characters.
abbrev initials : String → String
initials (String.◌∷◌ c (String.◌∷◌ d s)) = String.◌∷◌ c (String.◌∷◌ d String.[])
initials (String.◌∷◌ c String.[]) = ""
initials String.[] = ""

initials-append :
    (c d : Char) (p s : String)
    → initials (String.◌∷◌ c (String.◌∷◌ d p) <> s) ≡ String.◌∷◌ c (String.◌∷◌ d String.[])
initials-append c d p s =
    ap initials
      (append.cons c (String.◌∷◌ d p) s ∙ ap (λ (t : String). String.◌∷◌ c t) (append.cons d p s))

initials-append-append :
    (c d : Char) (p s t : String)
    → initials ((String.◌∷◌ c (String.◌∷◌ d p) <> s) <> t) ≡ String.◌∷◌ c (String.◌∷◌ d String.[])
initials-append-append c d p s t =
    ap (λ (u : String). initials (u <> t))
      (append.cons c (String.◌∷◌ d p) s ∙ ap (λ (u : String). String.◌∷◌ c u) (append.cons d p s))
    ∙ initials-append c d (p <> s) t

-- The method that two characters stand for, as a number.
abbrev tag : String → ℕ
tag i =
    if str_eq i "ti"
    then 1
    else if str_eq i "td"
    then 2
    else if str_eq i "lc"
    then 3
    else if str_eq i "nr"
    then 4
    else 0

-- Which method a name is of.
abbrev pub method_of : String → ℕ
method_of k = tag (initials k)

-- Every name of `ks` is of one method.
abbrev pub OfMethod : ℕ → List String → Type 0
OfMethod m ks = (k : String) → contains k ks ≡ true → method_of k ≡ m

OfMethod-none : (m : ℕ) → OfMethod m []
OfMethod-none m k h = cc

OfMethod-append :
    (m : ℕ) (ks js : List String) → OfMethod m ks → OfMethod m js → OfMethod m (ks ++ js)
OfMethod-append m ks js p q k h = elim (Bool-cases (contains k ks)) [
  | inl first ↦ p k first
  | inr not_first ↦ q k (ground (arith, contains-append k ks js, h, not_first))
]

OfMethod-cons :
    (m : ℕ) (j : String) (ks : List String) → method_of j ≡ m → OfMethod m ks → OfMethod m (j ∷ ks)
OfMethod-cons m j ks e p k h = elim (Bool-cases (str_eq k j)) [
  | inl same ↦ rw ((eq_iff k j).0 same) e
  | inr other ↦ p k (rw other at h)
]

OfMethod-for_each {ℓ} :
    {A : Type ℓ} (m : ℕ) (f : A → List String) (xs : List A)
    → ((x : A) → OfMethod m (f x))
    → OfMethod m (for_each f xs)
OfMethod-for_each m f [] p = OfMethod-none m
OfMethod-for_each m f (x ∷ xs) p =
    OfMethod-append m (f x) (for_each f xs) (p x) (OfMethod-for_each m f xs p)

OfMethod-map :
    (m : ℕ) (f : String → String) (ls : List String)
    → ((l : String) → method_of (f l) ≡ m)
    → OfMethod m (map f ls)
OfMethod-map m f [] p = OfMethod-none m
OfMethod-map m f (l ∷ ls) p = OfMethod-cons m (f l) (map f ls) (p l) (OfMethod-map m f ls p)

-- A fixed text in front of every label, or two texts.
OfMethod-behind :
    (c d : Char) (p : String) (ls : List String)
    → OfMethod
        (tag (String.◌∷◌ c (String.◌∷◌ d String.[])))
        (map (λ (l : String). String.◌∷◌ c (String.◌∷◌ d p) <> l) ls)
OfMethod-behind c d p ls = OfMethod-map _ _ ls (λ l. ap tag (initials-append c d p l))

OfMethod-behind_two :
    (c d : Char) (p q : String) (f : String → String) (ls : List String)
    → OfMethod
        (tag (String.◌∷◌ c (String.◌∷◌ d String.[])))
        (map (λ (l : String). (String.◌∷◌ c (String.◌∷◌ d p) <> q) <> f l) ls)
OfMethod-behind_two c d p q f ls =
    OfMethod-map _ _ ls (λ l. ap tag (initials-append-append c d p q (f l)))

ti_names-OfMethod : (v_init : ℤ) (o : Observable) → OfMethod 1 (ti_names v_init o)
ti_names-OfMethod v_init o = elim (Bool-cases (str_eq o.kind "ve")) [
  | inl ve ↦ rw ve (OfMethod-behind _ _ _ (state_labels v_init o))
  | inr not_ve ↦ rw not_ve (elim (Bool-cases (str_eq o.kind "da")) [
    | inl da ↦ rw da (OfMethod-behind _ _ _ (numbered_labels o))
    | inr not_da ↦ rw not_da (elim (Bool-cases (str_eq o.kind "dr")) [
      | inl dr ↦ rw dr (OfMethod-behind _ _ _ (numbered_labels o))
      | inr not_dr ↦ rw not_dr (OfMethod-none 1)
    ])
  ])
]

extractor_names-OfMethod :
    (suffix kind : String) (labels : List String) (name : String)
    → OfMethod 2 (extractor_names suffix kind labels name)
extractor_names-OfMethod suffix kind labels name =
    OfMethod-behind_two _ _ _ (kind <> (":" <> name)) (λ (l : String). ":" <> (l <> suffix)) labels

td_names-OfMethod :
    (suffix : String) (v_init : ℤ) (names : List String) (o : Observable)
    → OfMethod 2 (td_names suffix v_init names o)
td_names-OfMethod suffix v_init names o = elim (Bool-cases (str_eq o.kind "ve")) [
  | inl ve ↦ rw ve (OfMethod-for_each 2 _ names (extractor_names-OfMethod suffix "ve" _))
  | inr not_ve ↦ rw not_ve (OfMethod-for_each 2 _ names (extractor_names-OfMethod suffix o.kind _))
]

lcp_names-OfMethod : (v_init : ℤ) (o : Observable) → OfMethod 3 (lcp_names v_init o)
lcp_names-OfMethod v_init o = elim (Bool-cases (str_eq o.kind "ve")) [
  | inl ve ↦ rw ve (OfMethod-behind _ _ _ (state_labels v_init o))
  | inr not_ve ↦ rw not_ve (elim (Bool-cases (str_eq o.kind "da")) [
    | inl da ↦ rw da (OfMethod-cons 3 "lcp:da:ch0" [] refl (OfMethod-none 3))
    | inr not_da ↦ rw not_da (OfMethod-none 3)
  ])
]

nrm_names-OfMethod :
    (v_init : ℤ) (choice : String) (o : Observable) → OfMethod 4 (nrm_names v_init choice o)
nrm_names-OfMethod v_init choice o = elim (Bool-cases (str_eq o.kind "ve")) [
  | inl ve ↦
      rw ve
        (OfMethod-behind_two _ _ _ (choice <> ":ve:") (λ (l : String). l) (state_labels v_init o))
  | inr not_ve ↦ rw not_ve (elim (Bool-cases (str_eq o.kind "da")) [
    | inl da ↦ rw da (
        OfMethod-cons 4 ("nrm-" <> (choice <> ":da:ch0")) []
          (ap tag (initials-append _ _ _ (choice <> ":da:ch0"))) (OfMethod-none 4))
    | inr not_da ↦ rw not_da (OfMethod-none 4)
  ])
]

module _ {F : Type 0} (cfg : ExperimentConfig F) where
  pub ti_requested-OfMethod : OfMethod 1 (ti_requested cfg)
  ti_requested-OfMethod = OfMethod-for_each 1 _ cfg.observables (ti_names-OfMethod cfg.v_init)

  pub td_requested-OfMethod : OfMethod 2 (td_requested "" cfg)
  td_requested-OfMethod =
      OfMethod-for_each 2 _ cfg.observables (td_names-OfMethod "" cfg.v_init (extractors_of cfg.td))

  pub lcp_requested-OfMethod : OfMethod 3 (lcp_requested cfg)
  lcp_requested-OfMethod = OfMethod-for_each 3 _ cfg.observables (lcp_names-OfMethod cfg.v_init)

  pub nrm_requested-OfMethod : OfMethod 4 (nrm_requested cfg)
  nrm_requested-OfMethod =
      OfMethod-for_each 4 _ (or_default_nrm cfg.nrm).choices
        (λ choice. OfMethod-for_each 4 _ cfg.observables (nrm_names-OfMethod cfg.v_init choice))
