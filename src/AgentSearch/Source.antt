-- ===== src/AgentSearch/Source.antt =====
-- `MainSource` of tools/agent_search/git_source.py, as far as the service and the index read it.
use package.text.Mathlib.TextEquality.{eq_iff}
use qscat.Prelude.{
  ◌≡◌, refl, String, Bool, true, false, ◌&&◌, Option, none, some, str_eq, if◌then◌else◌,
}

pub record MainSource : Type 0 where
  pub root : String
  pub remote : String
  pub profile_path : String
  pub repo_id : String
  pub corpus : String

-- `MainSource.owner`, a dict whose `branch` is always `main`.
pub record Owner : Type 0 where
  pub repo_id : String
  pub profile_path : String
  pub corpus : Option String

unfoldable pub owner : MainSource → Owner
owner s = record {
  repo_id = s.repo_id;
  profile_path = s.profile_path;
  corpus = if str_eq s.corpus "repository" then none else some s.corpus;
}

abbrev pub option_eq : Option String → Option String → Bool
option_eq none none = true
option_eq none (some b) = false
option_eq (some a) none = false
option_eq (some a) (some b) = str_eq a b

abbrev pub owner_eq : Owner → Owner → Bool
owner_eq a b =
    str_eq a.repo_id b.repo_id
    && str_eq a.profile_path b.profile_path
    && option_eq a.corpus b.corpus

pub option_eq_refl : (a : Option String) → option_eq a a ≡ true
option_eq_refl none = refl
option_eq_refl (some a) = (eq_iff a a).1 refl

pub owner_eq_refl : (o : Owner) → owner_eq o o ≡ true
owner_eq_refl o =
    rw
      (
        (eq_iff o.repo_id o.repo_id).1 refl,
        (eq_iff o.profile_path o.profile_path).1 refl,
        option_eq_refl o.corpus,
      )
      refl
