-- ===== src/Janitor/Gcp/Client.antt =====
-- `GCPClient`: its requests, the paths, the listing and the deletion.
pub mod Quote
pub mod Paging
pub mod Log
pub mod Deletion
use deployment.Base.{
  ℕ, zero, suc, String, ◌<>◌, Bool, true, false, not, ◌&&◌, ◌||◌, List, [], ◌∷◌, ◌++◌, Option, none,
  some, Arg, exact, other, all, ltb, leb, eqb, length, if◌then◌else◌, ◌==◌, ◌/=◌, string_eq,
  option_eq,
}
use deployment.Base.Text.{codes, is_space, is_word}
use deployment.Janitor.Call.{
  Reply, gave, refused, escaped, Act, pure, refuse, escape, lift, ◌>>=◌, ◌>>◌, refuse_if,
}
use deployment.Janitor.Dict.{member}
use deployment.Janitor.Gcp.Contract.{resource_kinds, zone, Resource}
use deployment.Janitor.Gcp.Cleanup.{Client, cleanup_expired}
use deployment.Janitor.Gcp.Client.Quote.{quote}

-- What the code reads of the object of a response: the members of a resource, those of a list,
-- where `items` is `other` if it is not a list of objects, and those of an operation.
pub record Document : Type 0 where
  pub resource : Resource
  pub items : Option (Arg (List Resource))
  pub next_page_token : Option (Arg String)
  pub status : Option String
  pub error : Bool

-- `{}`
abbrev pub empty_document : Document
empty_document = record {
  resource = record { name = none; shown_zone = ""; shown_id = ""; labels = other };
  items = none;
  next_page_token = none;
  status = none;
  error = false;
}

-- The methods of the requests.
pub data Method : Type 0 where
  get delete : Method

abbrev pub method_name : Method → String
method_name get = "GET"
method_name delete = "DELETE"

-- What `json.loads` makes of a payload: an object, another value, an error of decoding, the
-- `ValueError` for a number with too many digits, which `main` handles, or another exception, as for a
-- text that nests too deeply.
pub data Loaded : Type 0 where
  object : Document → Loaded
  another invalid given_up : Loaded
  number_error : String → Loaded

-- The world of a client: a request with its method and its path gives the first bytes of the
-- response, or `none` for the errors of HTTP, of the address and of time.
pub record Ports (World : Type 0) : Type 0 where
  pub fetch : Method → String → Act World (Option (List ℕ))
  pub loads : List ℕ → Loaded
  pub sleep : Act World (Unit {0})

-- `[a-z][a-z0-9-]{4,28}[a-z0-9]`
abbrev pub is_path_code : ℕ → Bool
is_path_code c = is_word c || eqb c b'-'

unfoldable pub ends_word : List ℕ → Bool
ends_word [] = false
ends_word (c ∷ []) = is_word c
ends_word (_ ∷ c ∷ s) = ends_word (c ∷ s)

unfoldable pub is_project : List ℕ → Bool
unfolding ends_word
is_project [] = false
is_project (c ∷ s) =
    (leb b'a' c && leb c b'z')
    && all is_path_code s
    && ends_word s
    && leb 5 (length s)
    && leb (length s) 29

-- `[a-z0-9-]{1,63}`
unfoldable pub is_path_name : String → Bool
is_path_name name =
    all is_path_code (codes name) && leb 1 (length (codes name)) && leb (length (codes name)) 63

-- `GCPClient.__init__`
unfoldable pub admit_client : String → String → String → Reply (Unit {0})
unfolding is_project is_space
admit_client token project given_zone =
    if token == "" || not (all (λ c. not (is_space c)) (codes token))
    then refused "a non-whitespace OAuth access token is required"
    else if not (is_project (codes project)) || given_zone /= zone
    then refused "project or zone is outside the closed janitor scope"
    else gave tt

-- The path of the zone.
abbrev pub zone_path : String → String
zone_path project = "/projects/" <> quote project <> "/zones/" <> quote zone

-- `resource_path`
unfoldable pub resource_path : String → String → String → Reply String
unfolding member is_path_name quote
resource_path project kind name =
    if not (member kind resource_kinds) || not (is_path_name (if name == "" then "x" else name))
    then refused "invalid resource kind or name"
    else gave (zone_path project <> "/" <> kind <> (if name == "" then "" else "/" <> quote name))

abbrev pub decoded : Loaded → Reply Document
decoded invalid = refused "Google Compute API returned invalid JSON"
decoded another = refused "Google Compute API response must be an object"
decoded (number_error message) = refused message
decoded given_up = escaped
decoded (object document) = gave document

module _ {World : Type 0} (ports : Ports World) where
  abbrev pub read_payload : Method → Option (List ℕ) → Reply Document
  read_payload method none = refused ("Google Compute API " <> method_name method <> " failed")
  read_payload method (some payload) =
      if ltb 2000000 (length payload)
      then refused "Google Compute API response exceeded the size limit"
      else if eqb (length payload) 0
      then gave empty_document
      else decoded (ports.loads payload)

  -- `request`
  unfoldable pub request : Method → String → Act World Document
  request method path = do answer ← ports.fetch method path; lift (read_payload method answer)

-- `document.get("items", [])`
abbrev pub items_of : Document → Reply (List Resource)
items_of document = elim document.items [
  | none ↦ gave []
  | some other ↦ refused "Google Compute resource list is malformed"
  | some (exact items) ↦ gave items
]

-- `document.get("nextPageToken", "")`
abbrev pub next_of : Document → Reply String
next_of document = elim document.next_page_token [
  | none ↦ gave ""
  | some other ↦ refused "Google Compute pagination token is malformed"
  | some (exact next) ↦ gave next
]

-- The path of a page.
abbrev pub page_path : String → String → String
page_path path token = if token == "" then path else path <> "?pageToken=" <> quote token

abbrev pub operation_name : Option String → Reply String
operation_name none = refused "Google Compute deletion returned no bounded operation"
operation_name (some name) =
    if is_path_name name
    then gave name
    else refused "Google Compute deletion returned no bounded operation"

abbrev pub operation_path : String → String → String
operation_path project name = zone_path project <> "/operations/" <> quote name

-- A list that is not given within the fuel counts as an exception that escapes.
abbrev pub listed_or_escaped : Option (List Resource) → Reply (List Resource)
listed_or_escaped none = escaped
listed_or_escaped (some resources) = gave resources

module _ {World : Type 0} (ports : Ports World) (project : String) where
  -- The `while` loop of `list_resources`, on fuel; `none` if it goes on.
  unfoldable pub list_from :
      ℕ → String → String → List Resource → Act World (Option (List Resource))
  unfolding request resource_path quote
  list_from zero kind token resources = pure none
  list_from (suc fuel) kind token resources = do
    path ← lift (resource_path project kind "")
    document ← request ports get (page_path path token)
    items ← lift (items_of document)
    next ← lift (next_of document)
    if next == ""
        then pure (some (resources ++ items))
        else refuse_if (next == token) "Google Compute pagination did not advance"
          >> list_from fuel kind next (resources ++ items)

  -- `list_resources`
  abbrev pub list_resources : ℕ → String → Act World (Option (List Resource))
  list_resources fuel kind = list_from fuel kind "" []

  -- `get_resource`
  unfoldable pub get_resource : String → String → Act World Resource
  unfolding request resource_path
  get_resource kind name = do
    path ← lift (resource_path project kind name)
    document ← request ports get path
    pure document.resource

  -- The `for` loop of `delete_resource`, with so many turns left.
  unfoldable pub poll : ℕ → String → Act World (Unit {0})
  unfolding request
  poll zero path = refuse "Google Compute deletion operation timed out"
  poll (suc turns) path = do
    document ← request ports get path
    if document.status == some "DONE"
        then refuse_if document.error "Google Compute deletion operation failed"
        else ports.sleep >> poll turns path

  -- `delete_resource`
  unfoldable pub delete_resource : String → String → Act World (Unit {0})
  unfolding request resource_path poll is_path_name quote
  delete_resource kind name = do
    path ← lift (resource_path project kind name)
    operation ← request ports delete path
    known ← lift (operation_name operation.resource.name)
    poll 60 (operation_path project known)

  -- The client that `main` makes.
  abbrev pub client_of : ℕ → Client World
  client_of fuel = record {
    list_resources = λ kind. list_resources fuel kind >>= λ given. lift (listed_or_escaped given);
    get_resource = get_resource;
    delete_resource = delete_resource;
  }

  -- The `try` block of `main`, after the command line is parsed.
  unfoldable pub run : ℕ → String → String → ℕ → Bool → Act World (List (String × String))
  unfolding admit_client list_from get_resource delete_resource cleanup_expired
  run fuel token given_zone now apply = do
    lift (admit_client token project given_zone)
    cleanup_expired (client_of fuel) now apply
