-- ===== src/Janitor/Gcp/Tests.antt =====
-- Runs of the janitor over requests that are answered from a table, and the theorems at them.
use deployment.Base.{
  ℕ, suc, ◌≤◌, ◌≡◌, ◌↔◌, refl, String, Bool, true, false, List, [], ◌∷◌, some, exact, other, length,
  if◌then◌else◌, eqb, ◌==◌, string_eq, list_eq, option_eq, nat_eq,
}
use deployment.Base.Text.{is_hex_of_length, is_decimal, is_space}
use native.Mathlib.Decide.{ℕ_discrete}
use deployment.Janitor.Call.{gave, refused, Ends}
use deployment.Janitor.Dict.{text_at, member, has_shape}
use deployment.Janitor.Patterns.{value_of}
use deployment.Janitor.Gcp.Contract.{
  Resource, labels_in, read_labels, last_part, is_owned, parse_candidate,
}
use deployment.Janitor.Gcp.Cleanup.{parse_all, find, expire, expire_all, cleanup_expired}
use deployment.Janitor.Gcp.Reports.{Complete, cleanup_expired-Complete}
use deployment.Janitor.Gcp.Due.{Due, run-Due}
use deployment.Janitor.Gcp.Client.{
  Method, get, delete, Document, object, Ports, empty_document, ends_word, is_project, is_path_name,
  admit_client, resource_path, request, list_from, list_resources, get_resource, poll,
  delete_resource, client_of, run,
}
use deployment.Janitor.Gcp.Client.Quote.{quote}
use deployment.Janitor.Gcp.Client.Log.{traced}
use deployment.Janitor.Gcp.Client.Paging.{Chain, items_in, list_resources_iff}

-- What has to compute for a run.
running : Bool
unfolding is_hex_of_length is_decimal is_space ℕ_discrete text_at member has_shape value_of
    labels_in read_labels last_part is_owned parse_candidate parse_all find expire expire_all
    cleanup_expired ends_word is_project is_path_name admit_client resource_path request list_from
    get_resource poll delete_resource run quote string_eq list_eq option_eq nat_eq
running = true

abbrev sha : String
sha = "0123456789abcdef0123456789abcdef01234567"

-- A disk whose time is over at 1700010000.
abbrev disk : Resource
disk = record {
  name = some "spci-77-1-disk";
  shown_zone = "https://www.googleapis.com/compute/v1/projects/secpal-dev/zones/europe-west3-a";
  shown_id = "4711";
  labels = exact (
      ("secpal_ci_owner", exact "deployment-conformance")
      ∷ ("repository", exact "secpal-deployment")
      ∷ ("github_run_id", exact "77")
      ∷ ("github_run_attempt", exact "1")
      ∷ ("target_sha", exact sha)
      ∷ ("created_at", exact "1700000000")
      ∷ ("expires_at", exact "1700010000")
      ∷ []);
}

-- The documents by the one byte of their payload: the disk, its list in two pages, and an operation.
abbrev document_by : List ℕ → Document
document_by [] = empty_document
document_by (byte ∷ _) =
    if eqb byte 1
    then record empty_document { resource = disk }
    else if eqb byte 2
    then record empty_document {
      items = some (exact (disk ∷ []));
      next_page_token = some (exact "a b");
    }
    else if eqb byte 4
    then record empty_document {
      resource = record {
        name = some "operation-1";
        shown_zone = "";
        shown_id = "";
        labels = other;
      };
      status = some "RUNNING";
    }
    else if eqb byte 5
    then record empty_document { status = some "DONE" }
    else record empty_document { items = some (exact []) }

abbrev disks_path : String
disks_path = "/projects/secpal-dev/zones/europe-west3-a/disks"

abbrev disk_path : String
disk_path = "/projects/secpal-dev/zones/europe-west3-a/disks/spci-77-1-disk"

abbrev read_by : String → ℕ → List ℕ
read_by path calls =
    if path == disks_path
    then 2 ∷ []
    else if path == disk_path
    then 1 ∷ []
    else if path == "/projects/secpal-dev/zones/europe-west3-a/operations/operation-1"
    then (if eqb calls 5 then 4 ∷ [] else 5 ∷ [])
    else 3 ∷ []

abbrev fetched_by : Method → String → ℕ → List ℕ
fetched_by get path calls = read_by path calls
fetched_by delete path calls = 4 ∷ []

-- The world counts the requests.
abbrev ports : Ports ℕ
ports = record {
  fetch = λ method path calls. (gave (some (fetched_by method path calls)), suc calls);
  loads = λ payload. object (document_by payload);
  sleep = λ calls. (gave tt, calls);
}

quoted : quote "a b/ü" ≡ "a%20b%2F%C3%BC"
unfolding running
quoted = refl

-- Three lists of pages, one read, one DELETE, two polls.
expired_deleted :
    run ports "secpal-dev" 9 "token" "europe-west3-a" 1700010000 true 0
    ≡ (gave (("disks", "spci-77-1-disk") ∷ []), 7)
unfolding running
expired_deleted = refl

found_only :
    run ports "secpal-dev" 9 "token" "europe-west3-a" 1700010000 false 0
    ≡ (gave (("disks", "spci-77-1-disk") ∷ []), 4)
unfolding running
found_only = refl

not_yet : run ports "secpal-dev" 9 "token" "europe-west3-a" 1700009999 true 0 ≡ (gave [], 3)
unfolding running
not_yet = refl

closed_scope :
    run ports "secpal-dev" 9 "to ken" "europe-west3-a" 1700010000 true 0
    ≡ (refused "a non-whitespace OAuth access token is required", 0)
unfolding running
closed_scope = refl

run-Due_example :
    Ends
      (λ _ s. Due ports "secpal-dev" 1700010000 true s.1)
      (λ s. Due ports "secpal-dev" 1700010000 true s.1)
      (run (traced ports) "secpal-dev" 9 "token" "europe-west3-a" 1700010000 true (0, []))
run-Due_example = run-Due ports "secpal-dev" 1700010000 true 9 "token" "europe-west3-a" 0

list_resources_iff_example :
    (list_resources ports "secpal-dev" 9 "disks" 0 ≡ (gave (some (disk ∷ [])), 2)) ↔ (
      (pages : List (List Resource × String)) × Chain ports "secpal-dev" "disks" "" 0 pages 2
      × (length pages ≤ 9)
      × (disk ∷ [] ≡ items_in pages))
list_resources_iff_example = list_resources_iff ports "secpal-dev" "disks" 9 0 (disk ∷ []) 2

disks_listed : list_resources ports "secpal-dev" 9 "disks" 0 ≡ (gave (some (disk ∷ [])), 2)
unfolding running
disks_listed = refl

cleaned :
    cleanup_expired (client_of ports "secpal-dev" 9) 1700010000 true 0
    ≡ (gave (("disks", "spci-77-1-disk") ∷ []), 7)
unfolding running
cleaned = refl

cleanup_expired-Complete_example :
    Complete (client_of ports "secpal-dev" 9) 1700010000 true 0 (("disks", "spci-77-1-disk") ∷ []) 7
cleanup_expired-Complete_example =
    cleanup_expired-Complete (client_of ports "secpal-dev" 9) 1700010000 true 0
      (("disks", "spci-77-1-disk") ∷ []) 7 cleaned
