-- ===== src/Janitor/Rocky/Observe.antt =====
-- `component_path`, `admit_exact`, `observe_exact`, `verify_run_absence` and `cleanup_run`.
use deployment.Base.{
  ℕ, ◌*◌, String, ◌<>◌, Bool, true, false, not, ◌&&◌, ◌||◌, List, [], ◌∷◌, Option, none, some, leb,
  if◌then◌else◌, ◌==◌, string_eq, list_eq, option_eq, nat_eq,
}
use deployment.Base.Text.{codes}
use deployment.Janitor.Call.{
  Reply, gave, refused, escaped, Act, pure, refuse, ◌>>=◌, ◌>>◌, refuse_if,
}
use deployment.Janitor.Patterns.{is_number, int, after_prefix, digits, after_digits}
use deployment.Janitor.Rocky.Contract.{
  Component, instance', disk, network, subnet, component_name, scope, is_zonal, is_instance,
  delete_order, Resource, Labels, items, ownership, name_of, Candidate, owned_candidate,
}

-- The part of a name after the two numbers: `-` and the component.
abbrev pub ends_as : Component → List ℕ → Bool
ends_as component s = s == codes ("-" <> component_name component)

abbrev pub attempt_then : Component → List ℕ × Bool → Bool
attempt_then component (s, found) =
    found && is_number 3 (digits s) && ends_as component (after_digits s)

abbrev pub run_then : Component → List ℕ × Bool → Bool
run_then component (s, found) =
    found
    && is_number 20 (digits s)
    && attempt_then component (after_prefix (codes "-") (after_digits s))

-- `sprk-[1-9][0-9]{0,19}-[1-9][0-9]{0,2}-` and the component
unfoldable pub is_resource_name : Component → String → Bool
unfolding after_prefix digits after_digits
is_resource_name component name = run_then component (after_prefix (codes "sprk-") (codes name))

-- `component_path`
unfoldable pub component_path : Component → String → Reply String
unfolding is_resource_name
component_path component name =
    if is_resource_name component name
    then gave (scope component <> "/" <> name)
    else refused "resource path is outside exact Rocky ownership"

-- `roots` of `admit_exact`, for the two hosts
abbrev pub root : Bool → String
root true = "https://www.googleapis.com/compute/v1/projects/secpal-dev/"
root false = "https://compute.googleapis.com/compute/v1/projects/secpal-dev/"

-- The text is one of the two addresses of a path.
abbrev pub is_link : Option String → String → Bool
is_link given path = given == some (root true <> path) || given == some (root false <> path)

-- `kinds.get(component, "compute#firewall")`
abbrev pub kind_of : Component → String
kind_of instance' = "compute#instance"
kind_of disk = "compute#disk"
kind_of network = "compute#network"
kind_of subnet = "compute#subnetwork"
kind_of _ = "compute#firewall"

-- `[1-9][0-9]{0,19}`
abbrev pub is_resource_id : String → Bool
is_resource_id id = is_number 20 (codes id)

abbrev pub same_labels : Labels → Labels → Bool
same_labels l l' = items l == items l'

abbrev is_described : Option Labels → Labels → Bool
is_described none authority = false
is_described (some l) authority = same_labels l authority

-- The creation lies between the dates of the labels, which are in seconds.
abbrev pub is_timely : Option ℕ → Labels → Bool
is_timely none authority = false
is_timely (some time) authority =
    leb (1000000 * int authority.created_at) time && leb time (1000000 * int authority.expires_at)

abbrev pub admitted_id : Option String → Option String
admitted_id none = none
admitted_id (some id) = if is_resource_id id then some id else none

abbrev pub is_placed : Resource → Component → Labels → String → Bool
is_placed resource component authority path =
    is_link resource.self_link path
    && resource.kind == some (kind_of component)
    && (not (is_zonal component) || is_link resource.zone "zones/europe-west3-a")
    && (not (is_instance component) || is_described (ownership resource network) authority)
    && is_timely resource.created authority

abbrev pub at_path : Resource → Component → Labels → Reply String → Reply (Option String)
at_path resource component authority (gave path) =
    gave (if is_placed resource component authority path then admitted_id resource.id else none)
at_path resource component authority (refused message) = refused message
at_path resource component authority escaped = escaped

abbrev pub of_run : Resource → Component → Labels → Option Candidate → Reply (Option String)
of_run resource component authority none = gave none
of_run resource component authority (some candidate) =
    if same_labels candidate.labels authority
    then at_path resource component authority
        (component_path component (name_of authority component))
    else gave none

-- `admit_exact`
unfoldable pub admit_exact : Resource → Component → Labels → Reply (Option String)
unfolding component_path owned_candidate ownership
admit_exact resource component authority =
    of_run resource component authority (owned_candidate component resource)

-- The calls of a `GCPClient`; a resource that is not there is `none`.
pub record Client (World : Type 0) : Type 0 where
  pub get_component : Component → String → Act World (Option Resource)
  pub delete_component : Component → String → String → Act World (Unit {0})
  pub list_component : Component → Act World (List Resource)

-- What `observe_exact` answers, with the identity of a resource that is the run's.
pub data Observation : Type 0 where
  unknown absent incompatible : Observation
  present : String → Observation

abbrev pub outcome_name : Component → Observation → String
outcome_name component unknown = "UNKNOWN_PROVIDER_STATE"
outcome_name component absent = "ABSENT"
outcome_name component incompatible = "INCOMPATIBLE_OR_AMBIGUOUS_RESOURCE"
outcome_name component (present _) =
    if is_instance component
    then "EXACT_RUN_OWNED_INSTANCE_PRESENT"
    else "EXACT_RUN_OWNED_RESOURCE_PRESENT"

abbrev pub is_absent : Observation → Bool
is_absent absent = true
is_absent _ = false

abbrev pub same_observation : Observation → Observation → Bool
same_observation unknown unknown = true
same_observation absent absent = true
same_observation incompatible incompatible = true
same_observation (present id) (present id') = id == id'
same_observation _ _ = false

abbrev pub identified : Reply (Option String) → Reply Observation
identified (gave none) = gave incompatible
identified (gave (some id)) = gave (present id)
identified (refused message) = refused message
identified escaped = escaped

unfoldable pub all_absent : List (Component × Observation) → Bool
all_absent [] = true
all_absent ((_, result) ∷ rest) = is_absent result && all_absent rest

-- The first that is unknown or incompatible.
unfoldable pub first_refused : List (Component × Observation) → Option (Component × Observation)
first_refused [] = none
first_refused ((component, unknown) ∷ rest) = some (component, unknown)
first_refused ((component, incompatible) ∷ rest) = some (component, incompatible)
first_refused ((_, absent) ∷ rest) = first_refused rest
first_refused ((_, present _) ∷ rest) = first_refused rest

-- `client.delete_component` in its handler
abbrev pub deletion :
    {World : Type 0} → Component → Reply (Unit {0}) × World → Reply (Unit {0}) × World
deletion component (gave _, w) = (gave tt, w)
deletion component (refused _, w) =
    (refused ("exact " <> component_name component <> " deletion unresolved"), w)
deletion component (escaped, w) = (escaped, w)

abbrev pub admit_inventory :
    {World : Type 0} → Option (Component × Observation) → Act World (Unit {0})
admit_inventory none = pure tt
admit_inventory (some (component, result)) = refuse (
    "exact "
    <> component_name component
    <> " inventory admission failed closed: "
    <> outcome_name component result)

module _ {World : Type 0} (client : Client World) (authority : Labels) where
  abbrev pub observed_as : Component → Reply (Option Resource) × World → Reply Observation × World
  observed_as component (gave none, w) = (gave absent, w)
  observed_as component (gave (some resource), w) =
      (identified (admit_exact resource component authority), w)
  observed_as component (refused _, w) = (gave unknown, w)
  observed_as component (escaped, w) = (escaped, w)

  -- `observe_exact`
  unfoldable pub observe_exact : Component → Act World Observation
  unfolding admit_exact
  observe_exact component w =
      observed_as component (client.get_component component (name_of authority component) w)

  unfoldable pub observe_all : List Component → Act World (List (Component × Observation))
  unfolding observe_exact
  observe_all [] = pure []
  observe_all (component ∷ rest) = do
    result ← observe_exact component
    results ← observe_all rest
    pure ((component, result) ∷ results)

  -- `verify_run_absence`
  unfoldable pub verify_run_absence : Act World Bool
  unfolding observe_all all_absent
  verify_run_absence = observe_all delete_order >>= λ results. pure (all_absent results)

  -- A resource without an identity fails in the pattern of `delete_component`.
  abbrev pub delete_observed : Component → Observation → Act World (Unit {0})
  delete_observed component (present id) w =
      deletion component (client.delete_component component (name_of authority component) id w)
  delete_observed component _ w = (escaped, w)

  abbrev pub delete_if_same : Component → Observation → Observation → Act World (Unit {0})
  delete_if_same component result absent = pure tt
  delete_if_same component result current =
      refuse_if (not (same_observation current result))
        ("exact " <> component_name component <> " identity changed before cleanup")
      >> delete_observed component result

  -- One turn of the loop.
  unfoldable pub remove : Component → Observation → Act World (Unit {0})
  unfolding observe_exact
  remove component absent = pure tt
  remove component result = observe_exact component >>= delete_if_same component result

  unfoldable pub remove_all : List (Component × Observation) → Act World (Unit {0})
  unfolding remove
  remove_all [] = pure tt
  remove_all ((component, result) ∷ rest) = do remove component result; remove_all rest

  -- `cleanup_run`
  unfoldable pub cleanup_run : Act World (List (Component × Observation))
  unfolding observe_all first_refused remove_all all_absent
  cleanup_run = do
    observed ← observe_all delete_order
    admit_inventory (first_refused observed)
    remove_all observed
    results ← observe_all delete_order
    refuse_if (not (all_absent results)) "provider run resource absence not verified"
    pure results
