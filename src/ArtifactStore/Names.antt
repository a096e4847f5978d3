-- ===== src/ArtifactStore/Names.antt =====
-- The errors of artifact_store.py, its regular expressions and `_check_name`. A text that the store
-- takes apart is the list of its code points.
pub mod Safe
use Prim.Native.Char.{code}
use qscat.Prelude.{
  ℕ, zero, suc, ◌≡◌, refl, String, Bool, true, false, not, ◌&&◌, ◌||◌, List, [], ◌∷◌, map, all, any,
  length, leb, is_nil, ◌==◌, if◌then◌else◌,
}
use qscat.Python.{ℤ}

pub data StoreError : Type 0 where
  not_a_string non_https credentials wrong_host names_a_port query_or_fragment : StoreError
  no_trailing_slash dot_segment : StoreError
  empty_name backslash bad_component : StoreError
  bad_sha256 bad_bytes bad_git_sha : StoreError
  not_an_object missing_fields artifacts_not_an_object bad_entry : StoreError
  missing_pointer unreadable_pointer not_listed outside checksum_mismatch : StoreError
  -- What the opener or the file system raised.
  download_failed write_failed : StoreError

pub data Outcome {ℓ} (A : Type ℓ) : Type ℓ where
  ok : A → Outcome A
  err : StoreError → Outcome A

infixl 5 ◌>>=◌
infixl 5 ◌>>◌
abbrev pub ◌>>=◌ {ℓ μ} : {A : Type ℓ} {B : Type μ} → Outcome A → (A → Outcome B) → Outcome B
ok value >>= next = next value
err problem >>= next = err problem

abbrev pub ◌>>◌ {ℓ} : {B : Type ℓ} → Outcome (Unit {0}) → Outcome B → Outcome B
first >> second = first >>= λ _. second

-- Inversion of a successful bind: both parts returned.
pub bind_inv {ℓ κ μ} :
    {A : Type ℓ} {B : Type κ} {C : Type μ} (m : Outcome A) (f : A → Outcome B) {b : B}
    → (m >>= f) ≡ ok b
    → ((a : A) → m ≡ ok a → f a ≡ ok b → C)
    → C
bind_inv (ok a) f h k = k a refl h
bind_inv (err e) f h k = cc

pub ok-injective {ℓ} : {A : Type ℓ} {a b : A} → ok a ≡ ok b → a ≡ b
ok-injective h = cc

abbrev pub refuse_if : Bool → StoreError → Outcome (Unit {0})
refuse_if true e = err e
refuse_if false e = ok tt

abbrev pub codes : String → List ℕ
codes String.[] = []
codes (String.◌∷◌ c s) = code c ∷ codes s

abbrev pub Text : Type 0
Text = List ℕ

abbrev pub text_eq : Text → Text → Bool
text_eq [] [] = true
text_eq [] (b ∷ t) = false
text_eq (a ∷ s) [] = false
text_eq (a ∷ s) (b ∷ t) = a == b && text_eq s t

-- `text.split(sep)`: always one piece more than there are separators.
abbrev pub push_code : ℕ → List Text → List Text
push_code c [] = (c ∷ []) ∷ []
push_code c (piece ∷ pieces) = (c ∷ piece) ∷ pieces

unfoldable pub split : ℕ → Text → List Text
split sep [] = [] ∷ []
split sep (c ∷ s) = let rest = split sep s in if c == sep then [] ∷ rest else push_code c rest

abbrev pub between : ℕ → ℕ → ℕ → Bool
between low high c = leb low c && leb c high

abbrev pub is_alnum : ℕ → Bool
is_alnum c = between b'A' b'Z' c || between b'a' b'z' c || between b'0' b'9' c

abbrev pub is_name_code : ℕ → Bool
is_name_code c = is_alnum c || c == b'.' || c == b'_' || c == b'+' || c == b'~' || c == b'-'

-- `_NAME_COMPONENT.fullmatch(component)`
unfoldable pub is_component : Text → Bool
is_component [] = false
is_component (c ∷ s) = is_alnum c && all is_name_code s

abbrev pub is_hex : ℕ → Bool
is_hex c = between b'0' b'9' c || between b'a' b'f' c

-- `_SHA256` at 64 digits, `_GIT_SHA` at 40.
unfoldable pub is_hex_of : ℕ → Text → Bool
is_hex_of n s = length s == n && all is_hex s

-- The loop of `_check_name` over the components.
unfoldable pub check_components : List Text → Outcome (Unit {0})
check_components [] = ok tt
check_components (c ∷ cs) =
    let rest = check_components cs in if is_component c then rest else err bad_component

-- `_check_name` on a text.
unfoldable pub check_name : Text → Outcome (Unit {0})
check_name name = do
  refuse_if (is_nil name) empty_name
  refuse_if (any (λ c. c == b'\\') name) backslash
  check_components (split b'/' name)
