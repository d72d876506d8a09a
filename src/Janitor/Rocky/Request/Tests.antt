-- ===== src/Janitor/Rocky/Request/Tests.antt =====
-- Runs of the listing and of the deletion, and the theorems at them.
use deployment.Base.{
  ℕ, suc, ◌≤◌, ◌≡◌, ◌≢◌, ◌⊎◌, refl, String, Bool, true, false, [], ◌∷◌, none, some, exact,
  if◌then◌else◌, eqb, ◌==◌, option_eq, string_eq, list_eq, nat_eq, length,
}
use deployment.Base.Text.{is_decimal}
use native.Mathlib.Decide.{ℕ_discrete}
use deployment.Janitor.Rocky.Samples.{run_disk}
use deployment.Janitor.Call.{gave, Ends}
use deployment.Janitor.Patterns.{after_prefix, digits, after_digits}
use deployment.Janitor.Rocky.Contract.{disk}
use deployment.Janitor.Rocky.Observe.{component_path, is_resource_name}
use deployment.Janitor.Rocky.Request.{
  text, named, Page, Operation, Ports, poll, delete_component, list_component, list_from,
  validate_delete_operation,
}
use deployment.Janitor.Rocky.Request.Log
use deployment.Janitor.Rocky.Request.Log.{Polls, Confirmed}
use deployment.Janitor.Rocky.Request.Paging.{IsPage, list_component-loops}
use deployment.Janitor.Rocky.Request.Deletion.{delete_component-Confirmed}

-- What has to compute for a run.
running : Bool
unfolding poll delete_component validate_delete_operation list_from component_path is_resource_name
    after_prefix digits after_digits is_decimal string_eq list_eq option_eq nat_eq ℕ_discrete
running = true

-- A client whose clock stands, whose deletions are done at the third answer, and whose list has two
-- pages.
abbrev page_of : String → Page
page_of token =
    if token == ""
    then record { items = exact (run_disk ∷ []); next_token = text "more" }
    else record { items = exact []; next_token = text "" }

abbrev operation_in : String → Operation
operation_in status = record {
  kind = some "compute#operation";
  operation_type = some "delete";
  target_id = some "4711";
  target_link =
      some
        "https://www.googleapis.com/compute/v1/projects/secpal-dev/zones/europe-west3-a/disks/sprk-77-1-disk";
  name = some "operation-1";
  status = named status;
  error = false;
}

abbrev ports : Ports ℕ
ports = record {
  get_page = λ component token w. (gave (page_of token), w);
  delete = λ path deadline w. (gave (operation_in "PENDING"), w);
  get_operation =
      λ path deadline w. (gave (operation_in (if eqb w 0 then "RUNNING" else "DONE")), suc w);
  monotonic = λ w. (gave 1000, w);
  sleep = λ time w. (gave tt, w);
}

disk_path : component_path disk "sprk-77-1-disk" ≡ gave "zones/europe-west3-a/disks/sprk-77-1-disk"
unfolding running
disk_path = refl

done_at_last : (delete_component ports disk "sprk-77-1-disk" "4711" 0).0 ≡ gave tt
unfolding running
done_at_last = refl

delete_component-Confirmed_example :
    Ends
      (λ _ s.
        (Polls "zones/europe-west3-a/disks/sprk-77-1-disk" s.1 × (length s.1 ≤ 61))
        × Confirmed "zones/europe-west3-a/disks/sprk-77-1-disk" "4711" s.1)
      (λ s.
        ((s.1 ≡ []) ⊎ Polls "zones/europe-west3-a/disks/sprk-77-1-disk" s.1) × (length s.1 ≤ 61))
      (delete_component (Log.traced ports) disk "sprk-77-1-disk" "4711" (0, []))
delete_component-Confirmed_example =
    delete_component-Confirmed ports disk "sprk-77-1-disk" "4711"
      "zones/europe-west3-a/disks/sprk-77-1-disk" 0 disk_path

first-IsPage : IsPage ports disk "" (run_disk ∷ []) "more"
unfolding IsPage running
first-IsPage w = (w, refl)

second-IsPage : IsPage ports disk "more" [] ""
unfolding IsPage running
second-IsPage w = (w, refl)

abbrev more : String
more = "more"

abbrev nothing : String
nothing = ""

more-≢ : more ≢ nothing
more-≢ e = cc e

list_component-loops_example : (list_component ports 9 disk 0).0 ≡ gave none
list_component-loops_example =
    list_component-loops ports disk "more" (run_disk ∷ []) [] 9 0 more-≢ first-IsPage second-IsPage
