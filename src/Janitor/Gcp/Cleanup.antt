-- ===== src/Janitor/Gcp/Cleanup.antt =====
-- `cleanup_expired` over any client.
use deployment.Base.{
  ℕ, String, Bool, List, [], ◌∷◌, ◌++◌, Option, none, some, ltb, if◌then◌else◌, option_eq, list_eq,
  string_eq,
}
use deployment.Janitor.Call.{Act, pure, ◌>>=◌, ◌>>◌, refuse_if}
use deployment.Janitor.Gcp.Contract.{
  resource_kinds, Resource, Candidate, parse_candidate, is_changed,
}

-- `client`
pub record Client (World : Type 0) : Type 0 where
  pub list_resources : String → Act World (List Resource)
  pub get_resource : String → String → Act World Resource
  pub delete_resource : String → String → Act World (Unit {0})

abbrev pub append_parsed : Option Candidate → List Candidate → List Candidate
append_parsed none later = later
append_parsed (some candidate) later = candidate ∷ later

-- The candidates among the resources of a kind.
unfoldable pub parse_all : String → ℕ → List Resource → List Candidate
unfolding parse_candidate
parse_all kind now [] = []
parse_all kind now (resource ∷ rest) =
    append_parsed (parse_candidate kind resource now) (parse_all kind now rest)

module _ {World : Type 0} (client : Client World) (now : ℕ) where
  -- The first loop of `cleanup_expired`.
  unfoldable pub find : List String → List Candidate → Act World (List Candidate)
  unfolding parse_all
  find [] expired = pure expired
  find (kind ∷ rest) expired = do
    resources ← client.list_resources kind
    find rest (expired ++ parse_all kind now resources)

module _ {World : Type 0} (client : Client World) (now : ℕ) (apply : Bool) where
  -- One turn of the second loop, without its output.
  unfoldable pub expire : Candidate → Act World (String × String)
  unfolding parse_candidate
  expire candidate = do
    live ← client.get_resource candidate.kind candidate.name
    refuse_if (is_changed (parse_candidate candidate.kind live now) candidate)
        "resource ownership changed during cleanup"
    if apply then client.delete_resource candidate.kind candidate.name else pure tt
    pure (candidate.kind, candidate.name)

  unfoldable pub expire_all : List Candidate → Act World (List (String × String))
  unfolding expire
  expire_all [] = pure []
  expire_all (candidate ∷ rest) = do
    deleted ← expire candidate
    more ← expire_all rest
    pure (deleted ∷ more)

  -- `cleanup_expired`
  unfoldable pub cleanup_expired : Act World (List (String × String))
  unfolding find expire_all
  cleanup_expired = do
    refuse_if (ltb now 1600000000) "janitor clock is outside the supported epoch"
    expired ← find client now resource_kinds []
    expire_all expired
