-- ===== src/ArtifactStore/Urls.antt =====
-- `_check_store_url`, `_check_url_prefix`, `_download` and `ArtifactPointer.url_for`.
use qscat.Prelude.{
  arith, ℕ, zero, suc, ◌-◌, ◌≡◌, Bool, true, false, not, ◌||◌, Option, none, some, List, [], ◌∷◌,
  ◌++◌, any, is_nil, if◌then◌else◌, ◌==◌, length,
}
use qscat.ArtifactStore.Names.{
  non_https, credentials, wrong_host, names_a_port, query_or_fragment, no_trailing_slash,
  dot_segment, Outcome, ok, ◌>>=◌, ◌>>◌, refuse_if, Text, codes, text_eq, split,
}

-- The fields of `urllib.parse.SplitResult` that are read.
pub record SplitResult : Type 0 where
  pub scheme : Text
  pub username : Option Text
  pub password : Option Text
  pub hostname : Option Text
  pub port : Option ℕ
  pub path : Text
  pub query : Text
  pub fragment : Text

abbrev pub is_some {ℓ} : {A : Type ℓ} → Option A → Bool
is_some none = false
is_some (some a) = true

-- `ARTIFACT_HOSTS`
abbrev pub artifact_host : Text
artifact_host = codes "data.qscat.org"

module _ (urlsplit : Text → SplitResult) (lower : Text → Text) where
  abbrev is_store_host : Option Text → Bool
  is_store_host none = false
  is_store_host (some h) = text_eq (lower h) artifact_host

  unfoldable pub check_store_url : Text → Outcome SplitResult
  check_store_url url = do
    let parts = urlsplit url
    refuse_if (not (text_eq parts.scheme (codes "https"))) non_https
    refuse_if (is_some parts.username || is_some parts.password) credentials
    refuse_if (not (is_store_host parts.hostname)) wrong_host
    refuse_if (is_some parts.port) names_a_port
    refuse_if (not (is_nil parts.query) || not (is_nil parts.fragment)) query_or_fragment
    ok parts

  abbrev ends_in_slash : Text → Bool
  ends_in_slash [] = false
  ends_in_slash (c ∷ []) = c == b'/'
  ends_in_slash (c ∷ d ∷ s) = ends_in_slash (d ∷ s)

  abbrev starts_with_slash : Text → Bool
  starts_with_slash [] = false
  starts_with_slash (c ∷ s) = c == b'/'

  abbrev but_last : Text → Text
  but_last [] = []
  but_last (c ∷ []) = []
  but_last (c ∷ d ∷ s) = c ∷ but_last (d ∷ s)

  -- `path[1:-1].split("/") if len(path) > 1 else []`
  abbrev segments : Text → List Text
  segments [] = []
  segments (c ∷ []) = []
  segments (c ∷ d ∷ s) = split b'/' (but_last (d ∷ s))

  abbrev is_dot_segment : Text → Bool
  is_dot_segment s = text_eq s [] || text_eq s (codes ".") || text_eq s (codes "..")

  unfoldable pub check_url_prefix : Text → Outcome (Unit {0})
  check_url_prefix prefix = do
    parts ← check_store_url prefix
    refuse_if (not (starts_with_slash parts.path) || not (ends_in_slash parts.path))
        no_trailing_slash
    refuse_if (any is_dot_segment (segments parts.path)) dot_segment

  -- `_download`, over a function that fetches a URL or raises; where it follows a redirect is its own.
  unfoldable pub download : {B : Type 0} → (Text → Outcome B) → Text → Outcome B
  download http_get url = check_store_url url >>= λ _. http_get url

  -- A URL that passes is one of the store: https, the one host, and nothing beside a path.
  pub record IsStoreUrl (url : Text) : Type 0 where
    pub https : text_eq (urlsplit url).scheme (codes "https") ≡ true
    pub host : is_store_host (urlsplit url).hostname ≡ true
    pub bare :
        (is_some (urlsplit url).username ≡ false)
        × (is_some (urlsplit url).password ≡ false)
        × (is_some (urlsplit url).port ≡ false)
    pub path_only : (is_nil (urlsplit url).query ≡ true) × (is_nil (urlsplit url).fragment ≡ true)

  pub check_store_url-IsStoreUrl :
      (url : Text) (parts : SplitResult) → check_store_url url ≡ ok parts → IsStoreUrl url
  unfolding check_store_url
  check_store_url-IsStoreUrl url parts h = ground arith

abbrev pub last_of : List Text → Text
last_of [] = []
last_of (c ∷ []) = c
last_of (c ∷ d ∷ cs) = last_of (d ∷ cs)

-- The text from its last dot on.
abbrev pub last_dot : Text → Option Text
last_dot [] = none
last_dot (c ∷ s) = elim (last_dot s) [
  | some t ↦ some t
  | none ↦ if c == b'.' then some (c ∷ s) else none
]

abbrev pub unless_bare : Option Text → Text
unless_bare none = []
unless_bare (some t) = if text_eq t (b'.' ∷ []) then [] else t

-- The suffix of a file name: from its last dot on, unless the dot is the first or the last
-- character.
abbrev pub suffix_of : Text → Text
suffix_of [] = []
suffix_of (c ∷ s) = unless_bare (last_dot s)

-- `PurePosixPath(name).suffix` for an accepted name
unfoldable pub suffix : Text → Text
suffix name = suffix_of (last_of (split b'/' name))

abbrev pub take : ℕ → Text → Text
take zero s = []
take (suc n) [] = []
take (suc n) (c ∷ s) = c ∷ take n s

-- `name[: len(name) - len(suffix)]`
unfoldable pub stem : Text → Text
stem name = take (length name - length (suffix name)) name

-- `_URL_DIGEST_CHARS`
abbrev pub url_digest_chars : ℕ
url_digest_chars = 12

-- `url_for`, of a name and the digest of its entry.
unfoldable pub url_for : Text → Text → Text → Text
url_for prefix name sha256 =
    prefix ++ (stem name ++ ((b'.' ∷ []) ++ (take url_digest_chars sha256 ++ suffix name)))
