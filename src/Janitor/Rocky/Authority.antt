-- ===== src/Janitor/Rocky/Authority.antt =====
-- `exact_authority`: the labels of the run that the workflow is bound to.
pub mod Names
use deployment.Base.{
  ℕ, String, ◌<>◌, Bool, true, false, not, ◌&&◌, ◌||◌, List, [], ◌∷◌, Option, none, some, Arg,
  exact, other, ltb, if◌then◌else◌, ◌==◌, string_eq, option_eq, nat_eq,
}
use mathlib.Core.Option
use deployment.Janitor.Call.{Reply, gave, refused, escaped}
use deployment.Janitor.Patterns.{is_sha, int, ◌>>=◌}
use deployment.Janitor.Dict.{Dict, text_at}
use deployment.Janitor.Rocky.Contract.{
  Component, instance', Resource, Labels, keys_of, name_of, Candidate, owned_candidate,
}

-- The variables of the process.
abbrev pub Env : Type 0
Env = List (String × String)

-- `env.get(key)`
unfoldable pub env_at : String → Env → Option String
env_at key [] = none
env_at key ((k, v) ∷ rest) = let later = env_at key rest in if k == key then some v else later

-- `env.get(key) or env.get(otherwise)`
abbrev pub either_of : Option String → Option String → Option String
either_of none otherwise = otherwise
either_of (some value) otherwise = if value == "" then otherwise else some value

-- `dict.get` of a member of any kind
unfoldable pub value_at : String → Dict → Option (Arg String)
value_at key [] = none
value_at key ((k, v) ∷ rest) = let later = value_at key rest in if k == key then some v else later

-- `expected`: the five values of the environment; the project and the zone are texts of the source.
pub record Expected : Type 0 where
  pub run_id : Option String
  pub run_attempt : Option String
  pub trusted_control_sha : Option String
  pub target_sha : Option String
  pub profile : Option String

unfoldable pub expected_of : Env → Expected
unfolding env_at
expected_of env = record {
  run_id = either_of (env_at "SOURCE_RUN_ID" env) (env_at "GITHUB_RUN_ID" env);
  run_attempt = either_of (env_at "SOURCE_RUN_ATTEMPT" env) (env_at "GITHUB_RUN_ATTEMPT" env);
  trusted_control_sha = either_of (env_at "SOURCE_CONTROL_SHA" env) (env_at "GITHUB_SHA" env);
  target_sha = env_at "TARGET_SHA" env;
  profile = env_at "PROVIDER_PROFILE" env;
}

-- The variable is the expected text; this gives it.
abbrev pub agreed : Dict → String → Option String → Option String
agreed variables key none = none
agreed variables key (some value) = if text_at key variables == some value then some value else none

-- A member of the labels that is built from a dictionary.
abbrev pub labelled : String → Option (Arg String) → String × Arg String
labelled key none = (key, other)
labelled key (some v) = (key, v)

-- The resource that stands for the run.
unfoldable pub run_resource : String → String → String → String → String → Dict → Resource
unfolding value_at
run_resource run attempt control target profile variables = record {
  name = some ("sprk-" <> run <> "-" <> attempt <> "-instance");
  labels = exact (
      ("secpal_ci_owner", exact "rocky-host-qualification")
      ∷ ("repository", exact "secpal-deployment")
      ∷ ("github_run_id", exact run)
      ∷ ("github_run_attempt", exact attempt)
      ∷ ("target_sha", exact target)
      ∷ ("control_sha", exact control)
      ∷ ("provider_profile", exact profile)
      ∷ labelled "created_at" (value_at "created_at" variables)
      ∷ labelled "expires_at" (value_at "expires_at" variables)
      ∷ []);
  description = other;
  self_link = none;
  kind = none;
  id = none;
  shown_id = "";
  zone = none;
  created = none;
}

-- `next(...)` of the comparison of `variables` with `expected`
unfoldable pub agree : Dict → Expected → Option Resource
unfolding text_at run_resource
agree variables e = do
  _ ← agreed variables "project_id" (some "secpal-dev")
  _ ← agreed variables "zone" (some "europe-west3-a")
  run ← agreed variables "run_id" e.run_id
  attempt ← agreed variables "run_attempt" e.run_attempt
  control ← agreed variables "trusted_control_sha" e.trusted_control_sha
  target ← agreed variables "target_sha" e.target_sha
  profile ← agreed variables "profile" e.profile
  some (run_resource run attempt control target profile variables)

abbrev pub text_or_empty : Option String → String
text_or_empty none = ""
text_or_empty (some s) = s

abbrev pub at_time : ℕ → Option Candidate → Reply Labels
at_time now none = refused "trusted ownership interval or identity is malformed"
at_time now (some candidate) =
    if ltb now (int candidate.labels.created_at)
    then refused "trusted ownership interval or identity is malformed"
    else gave candidate.labels

abbrev pub of_resource : String → ℕ → Option Resource → Reply Labels
of_resource sha now none = refused "retained ownership contradicts trusted run context"
of_resource sha now (some resource) =
    if is_sha sha
    then at_time now (owned_candidate instance' resource)
    else refused "trusted control SHA is malformed"

-- `exact_authority`
unfoldable pub exact_authority : Arg Dict → Env → ℕ → Reply Labels
unfolding expected_of agree owned_candidate env_at
exact_authority other env now = refused "retained variables must be an object"
exact_authority (exact variables) env now =
    if env_at "GITHUB_REPOSITORY" env == some "SecPal/deployment"
      && env_at "GITHUB_REF" env == some "refs/heads/main"
    then of_resource (text_or_empty (env_at "GITHUB_SHA" env)) now
        (agree variables (expected_of env))
    else refused "exact cleanup requires accepted-main control"
