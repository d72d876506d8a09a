-- ===== src/Janitor/Rocky/Tests.antt =====
-- Runs of the Rocky janitor, and the theorems at them.
use deployment.Base.{
  ◌≡◌, ◌≢◌, refl, inl, inr, arith, ◌<>◌, Bool, true, List, [], ◌∷◌, Option, none, some, exact,
  if◌then◌else◌, eqb, option_eq, string_eq, list_eq, nat_eq,
}
use deployment.Base.Text.{is_hex_of_length, is_decimal}
use native.Mathlib.Decide.{ℕ_discrete}
use deployment.Janitor.Rocky.Samples.{sha, authority, run_disk}
use deployment.Janitor.Call.{gave, Ends}
use deployment.Janitor.Dict.{Dict, text_at, member, has_shape}
use deployment.Janitor.Patterns.{value_of, after_prefix, digits, after_digits}
use deployment.Janitor.Rocky.Contract.{
  Component, disk, delete_order, Resource, scope, name_of, labels_in, ownership, is_owned,
  owned_candidate, parse_candidate,
}
use deployment.Janitor.Rocky.Observe.{
  Client, admit_exact, component_path, is_resource_name, observe_exact, observe_all, remove,
  remove_all, first_refused, all_absent, cleanup_run, Observation,
}
use deployment.Janitor.Rocky.Request.{poll, delete_component, list_from, validate_delete_operation}
use deployment.Janitor.Rocky.Authority.{
  Env, env_at, value_at, expected_of, run_resource, agree, exact_authority,
}
use deployment.Janitor.Rocky.Authority.Names.{exact_authority-component_path}
use deployment.Janitor.Rocky.Expired.{
  cleanup_expired, collect, expire, expire_members, expire_runs, add, add_all, member_of,
  sorted_runs, insert_run, text_before,
}
use deployment.Janitor.Rocky.Expired.Laws.{Kept, cleanup_expired-Due}
use deployment.Janitor.Rocky.Trace.{traced, Lawful, rank, Each}
use deployment.Janitor.Rocky.Cleanup.{Verified, cleanup_run-Lawful}
use deployment.Janitor.Rocky.Provider.{IsProvider, Clear, cleanup_run-empties}

-- What has to compute for a run.
running : Bool
unfolding env_at value_at expected_of run_resource agree exact_authority cleanup_expired collect
    expire expire_members expire_runs add add_all member_of sorted_runs insert_run text_before poll
    delete_component validate_delete_operation list_from observe_exact observe_all remove remove_all
    first_refused all_absent cleanup_run admit_exact component_path is_resource_name owned_candidate
    parse_candidate ownership has_shape labels_in text_at member is_owned value_of after_prefix
    digits after_digits is_decimal is_hex_of_length string_eq list_eq option_eq nat_eq ℕ_discrete
running = true

disk_admitted : admit_exact run_disk disk authority ≡ gave (some "4711")
unfolding running
disk_admitted = refl

-- A provider: what it has of each component.
abbrev Store : Type 0
Store = Component → Option Resource

abbrev without : Component → Store → Store
without component w another = if eqb (rank another) (rank component) then none else w another

abbrev holds : Store → Component → Option Resource
holds w component = w component

abbrev provider : Client Store
provider = record {
  get_component = λ component name w. (gave (w component), w);
  delete_component = λ component name id w. (gave tt, without component w);
  list_component = λ component w. (gave [], w);
}

abbrev only_disk : Store
only_disk disk = some run_disk
only_disk _ = none

provider-IsProvider : IsProvider provider authority holds
provider-IsProvider = record {
  reads = λ component w. refl;
  deletes = λ component resource id w here same.
      (without component w, refl, gone component w, kept component w);
}
  where
    gone : (component : Component) (w : Store) → without component w component ≡ none
    gone component w = ground arith

    kept :
        (component : Component) (w : Store) (another : Component)
        → rank another ≢ rank component
        → without component w another ≡ w another
    kept component w another differ = ground (arith, differ)

only_disk-Clear : Each (Clear provider authority holds only_disk) delete_order
only_disk-Clear = (
  inl refl,
  (
    inr (run_disk, "4711", refl, disk_admitted),
    (inl refl, (inl refl, (inl refl, (inl refl, (inl refl, tt))))),
  ),
)

cleanup_run-Lawful_example :
    Ends
      (Verified provider authority)
      (λ s. Lawful authority s.1)
      (cleanup_run (traced provider) authority (only_disk, []))
cleanup_run-Lawful_example = cleanup_run-Lawful provider authority only_disk

cleanup_run-empties_example :
    (w' : Store) × ((results : List (Component × Observation)) × (cleanup_run provider authority
          only_disk
        ≡ (gave results, w')))
    × Each (λ component. holds w' component ≡ none) delete_order
cleanup_run-empties_example =
    cleanup_run-empties provider authority holds only_disk provider-IsProvider only_disk-Clear

-- A provider whose list has the disk.
abbrev listing : Client Store
listing = record {
  get_component = λ component name w. (gave (w component), w);
  delete_component = λ component name id w. (gave tt, without component w);
  list_component = λ component w. (gave (if eqb (rank component) 1 then run_disk ∷ [] else []), w);
}

expired_disk :
    (cleanup_expired listing 1700010000 true only_disk).0
    ≡ gave ((disk, name_of authority disk) ∷ [])
unfolding running
expired_disk = refl

not_yet : (cleanup_expired listing 1700009999 true only_disk).0 ≡ gave []
unfolding running
not_yet = refl

cleanup_expired-Due_example :
    Kept listing 1700010000 true (cleanup_expired (traced listing) 1700010000 true (only_disk, []))
cleanup_expired-Due_example = cleanup_expired-Due listing 1700010000 true only_disk

-- The variables and the workflow of that run.
abbrev variables : Dict
variables =
    ("project_id", exact "secpal-dev")
    ∷ ("zone", exact "europe-west3-a")
    ∷ ("run_id", exact "77")
    ∷ ("run_attempt", exact "1")
    ∷ ("trusted_control_sha", exact sha)
    ∷ ("target_sha", exact sha)
    ∷ ("profile", exact "gcp-rocky-10-2-arm64")
    ∷ ("created_at", exact "1700000000")
    ∷ ("expires_at", exact "1700010000")
    ∷ []

abbrev workflow : Env
workflow =
    ("GITHUB_REPOSITORY", "SecPal/deployment")
    ∷ ("GITHUB_REF", "refs/heads/main")
    ∷ ("GITHUB_RUN_ID", "77")
    ∷ ("GITHUB_RUN_ATTEMPT", "1")
    ∷ ("GITHUB_SHA", sha)
    ∷ ("TARGET_SHA", sha)
    ∷ ("PROVIDER_PROFILE", "gcp-rocky-10-2-arm64")
    ∷ []

workflow_admitted : exact_authority (exact variables) workflow 1700000500 ≡ gave authority
unfolding running
workflow_admitted = refl

exact_authority-component_path_example :
    component_path disk (name_of authority disk)
    ≡ gave (scope disk <> "/" <> name_of authority disk)
exact_authority-component_path_example =
    exact_authority-component_path (exact variables) workflow 1700000500 authority disk
      workflow_admitted
