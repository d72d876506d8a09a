-- ===== src/Janitor/Rocky/Expired.antt =====
-- `cleanup_expired`: the deletion of all resources whose time is over.
pub mod Parsed
pub mod Laws
use deployment.Base.{
  ℕ, String, Bool, true, false, not, ◌&&◌, ◌||◌, List, [], ◌∷◌, ◌++◌, Option, none, some, leb, ltb,
  eqb, all, if◌then◌else◌, ◌==◌, string_eq, list_eq, nat_eq,
}
use deployment.Base.Text.{codes}
use deployment.Janitor.Call.{
  Reply, gave, refused, escaped, Act, pure, refuse, lift, ◌>>=◌, ◌>>◌, refuse_if,
}
use deployment.Janitor.Rocky.Contract.{
  Component, delete_order, Resource, Labels, name_of, Candidate, parse_candidate, component_name,
}
use deployment.Janitor.Rocky.Observe.{Client, same_labels}

-- The candidates of one run; `candidates` is a list of these in the order of their insertion.
pub record Group : Type 0 where
  pub run_id : String
  pub run_attempt : String
  pub members : List Candidate

abbrev pub same_component : Component → Component → Bool
same_component c c' = component_name c == component_name c'

-- `group.get(component)`
unfoldable pub member_of : Component → List Candidate → Option Candidate
member_of component [] = none
member_of component (candidate ∷ rest) =
    let later = member_of component rest in
    if same_component candidate.component component then some candidate else later

abbrev pub is_run : Group → Candidate → Bool
is_run group candidate =
    group.run_id == candidate.labels.github_run_id
    && group.run_attempt == candidate.labels.github_run_attempt

abbrev add_member : Group → Candidate → Option Candidate → Reply Group
add_member group candidate none =
    gave (record group { members = group.members ++ (candidate ∷ []) })
add_member group candidate (some _) = refused "ambiguous duplicate Rocky ownership candidate"

abbrev in_front : Group → Reply (List Group) → Reply (List Group)
in_front group (gave groups) = gave (group ∷ groups)
in_front group (refused message) = refused message
in_front group escaped = escaped

abbrev in_place : List Group → Reply Group → Reply (List Group)
in_place groups (gave group) = gave (group ∷ groups)
in_place groups (refused message) = refused message
in_place groups escaped = escaped

-- One candidate more.
unfoldable pub add : Candidate → List Group → Reply (List Group)
unfolding member_of
add candidate [] = gave (
    record {
      run_id = candidate.labels.github_run_id;
      run_attempt = candidate.labels.github_run_attempt;
      members = candidate ∷ [];
    }
    ∷ [])
add candidate (group ∷ rest) =
    let later = add candidate rest in
    if is_run group candidate
    then in_place rest (add_member group candidate (member_of candidate.component group.members))
    else in_front group later

-- `sorted` of the runs: texts are compared by their code points.
unfoldable pub text_before : List ℕ → List ℕ → Bool
text_before _ [] = false
text_before [] (_ ∷ _) = true
text_before (c ∷ s) (d ∷ t) = let later = text_before s t in if eqb c d then later else ltb c d

abbrev run_before : Group → Group → Bool
run_before g h =
    if g.run_id == h.run_id
    then text_before (codes g.run_attempt) (codes h.run_attempt)
    else text_before (codes g.run_id) (codes h.run_id)

unfoldable pub insert_run : Group → List Group → List Group
unfolding text_before
insert_run g [] = g ∷ []
insert_run g (h ∷ rest) =
    let later = insert_run g rest in if run_before g h then g ∷ h ∷ rest else h ∷ later

unfoldable pub sorted_runs : List Group → List Group
unfolding insert_run
sorted_runs [] = []
sorted_runs (g ∷ rest) = insert_run g (sorted_runs rest)

-- `len(label_sets) == 1`; a group is not empty.
abbrev pub is_uniform : List Candidate → Bool
is_uniform [] = false
is_uniform (first ∷ rest) = all (λ candidate. same_labels candidate.labels first.labels) rest

abbrev chained : Reply (List Group) → (List Group → Reply (List Group)) → Reply (List Group)
chained (gave groups) continue = continue groups
chained (refused message) continue = refused message
chained escaped continue = escaped

abbrev pub add_parsed : Option Candidate → List Group → Reply (List Group)
add_parsed none groups = gave groups
add_parsed (some candidate) groups = add candidate groups

unfoldable pub add_all : Component → ℕ → List Resource → List Group → Reply (List Group)
unfolding add parse_candidate
add_all component now [] groups = gave groups
add_all component now (resource ∷ rest) groups =
    chained (add_parsed (parse_candidate component resource now) groups)
      (add_all component now rest)

abbrev pub same_candidate : Candidate → Candidate → Bool
same_candidate c d = same_component c.component d.component && same_labels c.labels d.labels

-- `current != candidate`
abbrev pub is_changed : Option Candidate → Candidate → Bool
is_changed none candidate = true
is_changed (some current) candidate = not (same_candidate current candidate)

-- A resource that is not there is no candidate.
abbrev pub parse_live : Component → Option Resource → ℕ → Option Candidate
parse_live component none now = none
parse_live component (some resource) now = parse_candidate component resource now

-- `str(live.get("id", ""))`
abbrev pub id_of : Option Resource → String
id_of none = ""
id_of (some resource) = resource.shown_id

module _ {World : Type 0} (client : Client World) (now : ℕ) (apply : Bool) where
  -- The first loop of `cleanup_expired`.
  unfoldable pub collect : List Component → List Group → Act World (List Group)
  unfolding add_all
  collect [] groups = pure groups
  collect (component ∷ rest) groups = do
    resources ← client.list_component component
    more ← lift (add_all component now resources groups)
    collect rest more

  abbrev pub delete_live : Component → Candidate → Option Resource → Act World (Unit {0})
  delete_live component candidate live =
      if apply
      then client.delete_component component (name_of candidate.labels component) (id_of live)
      else pure tt

  -- One turn of the innermost loop.
  unfoldable pub expire : Component → Option Candidate → Act World (List (Component × String))
  unfolding parse_candidate
  expire component none = pure []
  expire component (some candidate) = do
    live ← client.get_component component (name_of candidate.labels component)
    refuse_if (is_changed (parse_live component live now) candidate)
        "Rocky resource ownership changed during cleanup"
    delete_live component candidate live
    pure ((component, name_of candidate.labels component) ∷ [])

  unfoldable pub expire_members :
      List Component → List Candidate → Act World (List (Component × String))
  unfolding expire member_of
  expire_members [] members = pure []
  expire_members (component ∷ rest) members = do
    deleted ← expire component (member_of component members)
    more ← expire_members rest members
    pure (deleted ++ more)

  unfoldable pub expire_runs : List Group → Act World (List (Component × String))
  unfolding expire_members
  expire_runs [] = pure []
  expire_runs (group ∷ rest) = do
    deleted ←
        if is_uniform group.members then expire_members delete_order group.members else pure []
    more ← expire_runs rest
    pure (deleted ++ more)

  -- `cleanup_expired`
  unfoldable pub cleanup_expired : Act World (List (Component × String))
  unfolding collect expire_runs sorted_runs
  cleanup_expired = do
    refuse_if (ltb now 1600000000) "janitor clock is outside the supported epoch"
    groups ← collect delete_order []
    expire_runs (sorted_runs groups)
