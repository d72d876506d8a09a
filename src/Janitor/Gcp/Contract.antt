-- ===== src/Janitor/Gcp/Contract.antt =====
-- The ownership contract of a fixture: `Candidate` and `parse_candidate`.
use deployment.Base.{
  ℕ, ◌-◌, String, ◌<>◌, Bool, true, not, ◌&&◌, List, [], ◌∷◌, Option, none, some, Arg, exact, other,
  leb, ltb, eqb, if◌then◌else◌, ◌==◌, string_eq, list_eq, option_eq, nat_eq,
}
use deployment.Base.Text.{codes}
use deployment.Janitor.Dict.{Dict, text_at, member, has_shape}
use deployment.Janitor.Patterns.{is_number, is_run_id, is_run_attempt, is_sha, is_epoch, int, ◌>>=◌}

-- `RESOURCE_KINDS`
abbrev pub resource_kinds : List String
resource_kinds = "instances" ∷ "disks" ∷ []

-- `ZONE`
abbrev pub zone : String
zone = "europe-west3-a"

-- What the code reads of a resource: `name`, if it is a text, `str(resource.get("zone", ""))`,
-- `str(resource.get("id", ""))`, and the labels, if they are an object.
pub record Resource : Type 0 where
  pub name : Option String
  pub shown_zone : String
  pub shown_id : String
  pub labels : Arg Dict

-- The labels of an owned resource; their sorted items are a tuple in the code.
pub record Labels : Type 0 where
  pub secpal_ci_owner : String
  pub repository : String
  pub github_run_id : String
  pub github_run_attempt : String
  pub target_sha : String
  pub created_at : String
  pub expires_at : String

abbrev pub items : Labels → List String
items l =
    l.secpal_ci_owner ∷ l.repository ∷ l.github_run_id ∷ l.github_run_attempt ∷ l.target_sha
    ∷ l.created_at ∷ l.expires_at ∷ []

-- `LABEL_KEYS`, in the order of the fields
abbrev pub label_keys : List String
label_keys =
    "secpal_ci_owner" ∷ "repository" ∷ "github_run_id" ∷ "github_run_attempt" ∷ "target_sha"
    ∷ "created_at" ∷ "expires_at" ∷ []

unfoldable pub labels_in : Dict → Option Labels
unfolding text_at
labels_in raw = do
  owner ← text_at "secpal_ci_owner" raw
  repository ← text_at "repository" raw
  run ← text_at "github_run_id" raw
  attempt ← text_at "github_run_attempt" raw
  target ← text_at "target_sha" raw
  created ← text_at "created_at" raw
  expires ← text_at "expires_at" raw
  some (record {
    secpal_ci_owner = owner;
    repository = repository;
    github_run_id = run;
    github_run_attempt = attempt;
    target_sha = target;
    created_at = created;
    expires_at = expires;
  })

unfoldable pub read_labels : Arg Dict → Option Labels
unfolding has_shape labels_in
read_labels other = none
read_labels (exact raw) = if has_shape label_keys raw then labels_in raw else none

-- `singular`
abbrev pub singular : String → String
singular kind = if kind == "instances" then "instance" else "disk"

-- `expected_name`
abbrev pub expected_name : String → Labels → String
expected_name kind l =
    "spci-" <> l.github_run_id <> "-" <> l.github_run_attempt <> "-" <> singular kind

-- `text.rsplit("/", 1)[-1]`, where `part` is what follows the last slash so far.
unfoldable pub last_part : List ℕ → List ℕ → List ℕ
last_part part [] = part
last_part part (c ∷ s) =
    let later = last_part part s in let fresh = last_part s s in if eqb c b'/' then fresh else later

-- The labels are those of a run.
abbrev pub is_valid : Labels → Bool
is_valid l =
    l.secpal_ci_owner == "deployment-conformance"
    && l.repository == "secpal-deployment"
    && is_run_id l.github_run_id
    && is_run_attempt l.github_run_attempt
    && is_sha l.target_sha
    && is_epoch l.created_at
    && is_epoch l.expires_at

-- The name, the zone and the identity are those of a fixture of the run.
abbrev pub is_placed : String → Labels → Resource → Bool
is_placed kind l resource =
    resource.name == some (expected_name kind l)
    && last_part (codes resource.shown_zone) (codes resource.shown_zone) == codes zone
    && is_number 30 (codes resource.shown_id)

unfoldable pub is_owned : String → Labels → Resource → Bool
unfolding last_part
is_owned kind l resource = is_valid l && is_placed kind l resource

-- The dates are in order and close enough, and the last of them is over.
abbrev pub is_over : ℕ → ℕ → ℕ → Bool
is_over created expires now =
    ltb created expires && leb (expires - created) 10800 && leb expires now

pub record Candidate : Type 0 where
  pub kind : String
  pub resource_id : String
  pub name : String
  pub labels : Labels

abbrev pub candidate_of : String → Resource → Labels → Candidate
candidate_of kind resource l = record {
  kind = kind;
  resource_id = resource.shown_id;
  name = expected_name kind l;
  labels = l;
}

-- `parse_candidate`
unfoldable pub parse_candidate : String → Resource → ℕ → Option Candidate
unfolding member read_labels is_owned
parse_candidate kind resource now =
    if member kind resource_kinds
    then (do
      l ← read_labels resource.labels
      if is_owned kind l resource && is_over (int l.created_at) (int l.expires_at) now
          then some (candidate_of kind resource l)
          else none)
    else none

-- `current == candidate`
abbrev pub same_candidate : Candidate → Candidate → Bool
same_candidate c d =
    c.kind == d.kind
    && c.resource_id == d.resource_id
    && c.name == d.name
    && items c.labels == items d.labels

-- `current != candidate`
abbrev pub is_changed : Option Candidate → Candidate → Bool
is_changed none candidate = true
is_changed (some current) candidate = not (same_candidate current candidate)
