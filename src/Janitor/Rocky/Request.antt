-- ===== src/Janitor/Rocky/Request.antt =====
-- `GCPClient`: `list_component`, `delete_component` and `validate_delete_operation`. A request is a
-- call of a port, with its path and the time at which it must end.
pub mod Paging
pub mod Log
pub mod Polling
pub mod Deletion
mod Tests
use deployment.Base.{
  ℕ, zero, suc, ◌+◌, String, ◌<>◌, Bool, true, false, not, ◌&&◌, ◌||◌, List, [], ◌∷◌, ◌++◌, Option,
  none, some, Arg, exact, other, all, leb, ltb, eqb, length, if◌then◌else◌, ◌==◌, ◌/=◌, string_eq,
  option_eq,
}
use deployment.Base.Text.{codes, is_word}
use deployment.Janitor.Call.{
  Reply, gave, refused, escaped, Act, pure, refuse, escape, lift, ◌>>=◌, ◌>>◌, refuse_if,
}
use deployment.Janitor.Rocky.Contract.{Component, instance', disk, subnet, Resource}
use deployment.Janitor.Rocky.Observe.{component_path, is_link, is_resource_id}

-- `nextPageToken`: a text, which is empty where there is none, or another value and its truth.
pub data Token : Type 0 where
  text : String → Token
  value : Bool → Token

-- A page of a list; its items are `other` if they are not a list of objects.
pub record Page : Type 0 where
  pub items : Arg (List Resource)
  pub next_token : Token

-- The status of an operation: a text, another value that can be looked up in a set or none, or a
-- list or an object, which cannot.
pub data Status : Type 0 where
  named : String → Status
  unnamed unhashable : Status

-- `operation.get("status") == text`
abbrev pub is_status : Status → String → Bool
is_status (named s) t = s == t
is_status unnamed t = false
is_status unhashable t = false

-- The test of a status that is not DONE.
abbrev pub admit_running : Status → Reply (Unit {0})
admit_running (named s) =
    if s == "PENDING" || s == "RUNNING"
    then gave tt
    else refused "GCP deletion status is outside the closed set"
admit_running unnamed = refused "GCP deletion status is outside the closed set"
admit_running unhashable = escaped

-- What the code reads of an operation, where it is a text; `error` is there or not.
pub record Operation : Type 0 where
  pub kind : Option String
  pub operation_type : Option String
  pub target_id : Option String
  pub target_link : Option String
  pub name : Option String
  pub status : Status
  pub error : Bool

-- The requests of a client and the clock, in milliseconds. A page is asked for by its token.
pub record Ports (World : Type 0) : Type 0 where
  pub get_page : Component → String → Act World Page
  pub delete : String → ℕ → Act World Operation
  pub get_operation : String → ℕ → Act World Operation
  pub monotonic : Act World ℕ
  pub sleep : ℕ → Act World (Unit {0})

module _ {World : Type 0} (ports : Ports World) where
  -- The `while` loop of `list_component`, on fuel; `none` if it goes on.
  unfoldable pub list_from :
      ℕ → Component → String → List Resource → Act World (Option (List Resource))
  list_from zero component token result = pure none
  list_from (suc fuel) component token result = do
    page ← ports.get_page component token
    elim page.items [
      | other ↦ refuse "GCP resource list is malformed"
      | exact items ↦ elim page.next_token [
        | value truth ↦
            refuse_if truth "GCP pagination did not advance" >> pure (some (result ++ items))
        | text next ↦
            if next == token
            then refuse_if (not (next == "")) "GCP pagination did not advance"
              >> pure (some (result ++ items))
            else list_from fuel component next (result ++ items)
      ]
    ]

  -- `list_component`
  abbrev pub list_component : ℕ → Component → Act World (Option (List Resource))
  list_component fuel component = list_from fuel component "" []

-- `validate_delete_operation`, for the path of the resource
abbrev pub is_deletion : Operation → String → String → Bool
is_deletion operation path id =
    operation.kind == some "compute#operation"
    && operation.operation_type == some "delete"
    && operation.target_id == some id
    && is_link operation.target_link path

abbrev pub validated : Bool → Reply (Unit {0})
validated true = gave tt
validated false = refused "GCP deletion target incarnation was not admitted"

abbrev pub validated_at : Operation → String → Reply String → Reply (Unit {0})
validated_at operation id (gave path) = validated (is_deletion operation path id)
validated_at operation id (refused message) = refused message
validated_at operation id escaped = escaped

unfoldable pub validate_delete_operation :
    Operation → Component → String → String → Reply (Unit {0})
unfolding component_path
validate_delete_operation operation component name id =
    validated_at operation id (component_path component name)

-- `[a-z0-9][a-z0-9-]{0,127}`
abbrev is_operation_codes : List ℕ → Bool
is_operation_codes [] = false
is_operation_codes (c ∷ s) = is_word c && all (λ d. is_word d || eqb d b'-') s && leb (length s) 127

abbrev pub is_operation_name : String → Bool
is_operation_name s = is_operation_codes (codes s)

-- The path of an operation.
abbrev pub operation_path : Component → String → String
operation_path instance' name = "zones/europe-west3-a/operations/" <> name
operation_path disk name = "zones/europe-west3-a/operations/" <> name
operation_path subnet name = "regions/europe-west3/operations/" <> name
operation_path _ name = "global/operations/" <> name

abbrev pub operation_name : Option String → Reply String
operation_name none = refused "GCP deletion returned no operation identity"
operation_name (some name) =
    if is_operation_name name
    then gave name
    else refused "GCP deletion returned no operation identity"

-- `min(2, max(0, deadline - time.monotonic()))`, in milliseconds
abbrev pub pause : ℕ → ℕ → ℕ
pause deadline now =
    if leb deadline now then 0 else if leb deadline (now + 2000) then left else 2000
  where
    left : ℕ
    left = Prim.Native.Nat.◌-◌ deadline now

module _ {World : Type 0} (ports : Ports World) where
  -- The `for` loop of `delete_component`, with so many turns left.
  unfoldable pub poll :
      ℕ → Component → String → String → ℕ → String → Operation → Act World (Unit {0})
  unfolding validate_delete_operation
  poll zero component name id deadline known operation = refuse "GCP deletion operation timed out"
  poll (suc turns) component name id deadline known operation = do
    now ← ports.monotonic
    refuse_if (leb deadline now) "GCP deletion operation timed out"
    lift (validate_delete_operation operation component name id)
    refuse_if (operation.name /= some known) "GCP deletion operation identity changed"
    if is_status operation.status "DONE"
        then refuse_if operation.error "GCP deletion operation failed"
        else (do
          lift (admit_running operation.status)
          later ← ports.monotonic
          ports.sleep (pause deadline later)
          answer ← ports.get_operation (operation_path component known) deadline
          poll turns component name id deadline known answer)

  -- `delete_component`
  unfoldable pub delete_component : Component → String → String → Act World (Unit {0})
  unfolding poll validate_delete_operation component_path
  delete_component component name id = do
    refuse_if (not (is_resource_id id)) "deletion requires admitted immutable resource ID"
    now ← ports.monotonic
    path ← lift (component_path component name)
    operation ← ports.delete path (now + 120000)
    lift (validate_delete_operation operation component name id)
    known ← lift (operation_name operation.name)
    poll 60 component name id (now + 120000) known operation
