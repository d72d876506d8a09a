-- ===== src/Janitor/Rocky/Contract.antt =====
-- The ownership contract of a resource: `ownership`, `owned_candidate`, `parse_candidate`,
-- `component_path` and `exact_authority`.
use deployment.Base.{
  ℕ, ◌-◌, String, ◌<>◌, Bool, true, false, ◌&&◌, ◌||◌, List, [], ◌∷◌, Option, none, some, Arg,
  exact, other, leb, ltb, if◌then◌else◌, ◌==◌, string_eq, list_eq, option_eq, nat_eq,
}
use deployment.Janitor.Dict.{Dict, text_at, has_shape}
use deployment.Janitor.Patterns.{is_run_id, is_run_attempt, is_sha, is_epoch, int, ◌>>=◌}

-- The keys of `SCOPES`
pub data Component : Type 0 where
  instance' disk network subnet ssh egress_allow egress_deny : Component

abbrev pub component_name : Component → String
component_name instance' = "instance"
component_name disk = "disk"
component_name network = "network"
component_name subnet = "subnet"
component_name ssh = "ssh"
component_name egress_allow = "egress-allow"
component_name egress_deny = "egress-deny"

-- `SCOPES`
abbrev pub scope : Component → String
scope instance' = "zones/europe-west3-a/instances"
scope disk = "zones/europe-west3-a/disks"
scope network = "global/networks"
scope subnet = "regions/europe-west3/subnetworks"
scope ssh = "global/firewalls"
scope egress_allow = "global/firewalls"
scope egress_deny = "global/firewalls"

-- `component in {"instance", "disk"}`
abbrev pub is_zonal : Component → Bool
is_zonal instance' = true
is_zonal disk = true
is_zonal _ = false

abbrev pub is_instance : Component → Bool
is_instance instance' = true
is_instance _ = false

-- `DELETE_ORDER`
abbrev pub delete_order : List Component
delete_order = instance' ∷ disk ∷ ssh ∷ egress_allow ∷ egress_deny ∷ subnet ∷ network ∷ []

-- What the code reads of a resource: the members where they are texts, the objects in `labels` and
-- in the text of `description`, `str(resource.get("id", ""))`, and the creation in microseconds
-- since 1970, if it is a timestamp with a zone.
pub record Resource : Type 0 where
  pub name : Option String
  pub labels : Arg Dict
  pub description : Arg Dict
  pub self_link : Option String
  pub kind : Option String
  pub id : Option String
  pub shown_id : String
  pub zone : Option String
  pub created : Option ℕ

-- The labels of an owned resource; their sorted items are a tuple in the code.
pub record Labels : Type 0 where
  pub secpal_ci_owner : String
  pub repository : String
  pub github_run_id : String
  pub github_run_attempt : String
  pub target_sha : String
  pub control_sha : String
  pub provider_profile : String
  pub created_at : String
  pub expires_at : String

abbrev pub items : Labels → List String
items l =
    l.secpal_ci_owner ∷ l.repository ∷ l.github_run_id ∷ l.github_run_attempt ∷ l.target_sha
    ∷ l.control_sha ∷ l.provider_profile ∷ l.created_at ∷ l.expires_at ∷ []

-- `LABEL_KEYS` and `DESCRIPTION_KEYS`, both in the order of the fields
abbrev pub keys_of : Bool → List String
keys_of true =
    "secpal_ci_owner" ∷ "repository" ∷ "github_run_id" ∷ "github_run_attempt" ∷ "target_sha"
    ∷ "control_sha" ∷ "provider_profile" ∷ "created_at" ∷ "expires_at" ∷ []
keys_of false = "o" ∷ "r" ∷ "i" ∷ "a" ∷ "t" ∷ "c" ∷ "p" ∷ "n" ∷ "x" ∷ []

unfoldable pub labels_in : List String → Dict → Option Labels
unfolding text_at
labels_in (o ∷ r ∷ i ∷ a ∷ t ∷ c ∷ p ∷ n ∷ x ∷ []) raw = do
  owner ← text_at o raw
  repository ← text_at r raw
  run ← text_at i raw
  attempt ← text_at a raw
  target ← text_at t raw
  control ← text_at c raw
  profile ← text_at p raw
  created ← text_at n raw
  expires ← text_at x raw
  some (record {
    secpal_ci_owner = owner;
    repository = repository;
    github_run_id = run;
    github_run_attempt = attempt;
    target_sha = target;
    control_sha = control;
    provider_profile = profile;
    created_at = created;
    expires_at = expires;
  })
labels_in _ raw = none

abbrev read_labels : List String → Arg Dict → Option Labels
read_labels keys other = none
read_labels keys (exact raw) = if has_shape keys raw then labels_in keys raw else none

-- `ownership`
unfoldable pub ownership : Resource → Component → Option Labels
unfolding has_shape labels_in
ownership resource component =
    if is_zonal component
    then read_labels (keys_of true) resource.labels
    else read_labels (keys_of false) resource.description

-- `ExactAuthority.name`
abbrev pub name_of : Labels → Component → String
name_of l component =
    "sprk-" <> l.github_run_id <> "-" <> l.github_run_attempt <> "-" <> component_name component

-- `PROFILES`
abbrev pub is_profile : String → Bool
is_profile s = s == "gcp-rocky-10-2-arm64" || s == "gcp-rocky-10-2-x86-64"

-- The labels are those of a run.
abbrev pub is_valid : Labels → Bool
is_valid l =
    l.secpal_ci_owner == "rocky-host-qualification"
    && l.repository == "secpal-deployment"
    && is_profile l.provider_profile
    && is_run_id l.github_run_id
    && is_run_attempt l.github_run_attempt
    && is_sha l.target_sha
    && is_sha l.control_sha
    && is_epoch l.created_at
    && is_epoch l.expires_at

-- The name is that of the component, and the dates are in order and close enough.
abbrev pub is_bounded : Labels → Option String → Component → Bool
is_bounded l name component =
    name == some (name_of l component)
    && ltb (int l.created_at) (int l.expires_at)
    && leb (int l.expires_at - int l.created_at) 10800

-- The condition under which `owned_candidate` gives a candidate.
unfoldable pub is_owned : Labels → Option String → Component → Bool
is_owned l name component = is_valid l && is_bounded l name component

-- `Candidate`, whose name, run and attempt are those of its labels.
pub record Candidate : Type 0 where
  pub component : Component
  pub labels : Labels

-- `owned_candidate`
unfoldable pub owned_candidate : Component → Resource → Option Candidate
unfolding ownership is_owned
owned_candidate component resource = do
  l ← ownership resource component
  if is_owned l resource.name component
      then some (record { component = component; labels = l })
      else none

-- `parse_candidate`
unfoldable pub parse_candidate : Component → Resource → ℕ → Option Candidate
unfolding owned_candidate
parse_candidate component resource now = do
  candidate ← owned_candidate component resource
  if ltb now (int candidate.labels.expires_at) then none else some candidate
