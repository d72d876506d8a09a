-- ===== src/Janitor/Gcp/Due.antt =====
-- The requests of a run of the janitor: what stands before each DELETE.
use deployment.Base.{
  ℕ, zero, suc, ◌≡◌, refl, String, Bool, true, false, List, [], ◌∷◌, ◌++◌, Option, none, some, ◌==◌,
  string_eq,
}
use deployment.Janitor.Call.{Reply, gave, refused, escaped, Ends, next, Ends-weaken, lift}
use deployment.Janitor.Gcp.Contract.{
  Resource, Labels, expected_name, Candidate, parse_candidate, is_changed,
}
use deployment.Janitor.Gcp.Parsed.{IsExpired, unchanged-IsExpired}
use deployment.Janitor.Gcp.Keeps.{IsKeeping, cleanup_expired-Kept}
use deployment.Janitor.Gcp.Client.{
  get, delete, Document, Ports, resource_path, items_of, next_of, page_path, list_from,
  list_resources, get_resource, delete_resource, operation_path, client_of, listed_or_escaped,
  admit_client, run,
}
use deployment.Janitor.Gcp.Client.Log.{
  Event, requested, traced, document_in, lift-next, refuse_if-next, if-Ends, request-next,
}
use deployment.Janitor.Gcp.Client.Deletion.{
  Reads, Polls, Confirmed, Requested, delete_resource-Confirmed,
}

module _ {World : Type 0} (ports : Ports World) (project : String) (now : ℕ) (apply : Bool) where
  -- The request just before was a read of the same path, which is that of a resource of a kind, and
  -- its answer shows that resource with its time over.
  pub record IsDue (path : String) (log : List Event) : Type 0 where
    pub kind : String
    pub answer : Reply (Option (List ℕ))
    pub document : Document
    pub labels : Labels
    pub earlier : List Event
    pub after_read : log ≡ requested get path answer ∷ earlier
    pub answered : document_in ports (requested get path answer) ≡ gave document
    pub expired : IsExpired kind document.resource labels now
    pub located : resource_path project kind (expected_name kind labels) ≡ gave path

  -- There are deletions only with `apply`, and each is due.
  abbrev pub Due : List Event → Type 0
  Due [] = Unit
  Due (event ∷ log) =
      elim event.method [ get ↦ Unit {0} | delete ↦ (apply ≡ true) × IsDue event.path log ]
      × Due log

  Safe : {A : Type 0} → A → World × List Event → Type 0
  Safe _ s = Due s.1

  Bad : World × List Event → Type 0
  Bad s = Due s.1

  -- What a read of a resource shows of the newest request.
  Shown : String → String → Resource → World × List Event → Type 0
  Shown kind name resource s =
      (path : String) × (answer : Reply (Option (List ℕ))) × (document : Document) × (earlier : List
        Event)
      × (resource_path project kind name ≡ gave path)
      × (s.1 ≡ requested get path answer ∷ earlier)
      × (document_in ports (requested get path answer) ≡ gave document)
      × (document.resource ≡ resource)

  list_from-Safe :
      (fuel : ℕ) (kind token : String) (resources : List Resource) (w : World) (log : List Event)
      → Due log
      → Ends Safe Bad (list_from (traced ports) project fuel kind token resources (w, log))
  unfolding list_from Safe Bad
  list_from-Safe zero kind token resources w log h = h
  list_from-Safe (suc fuel) kind token resources w log h =
      lift-next Safe Bad (resource_path project kind "") (w, log) _ h
        λ path _.
          request-next ports Safe Bad get (page_path path token) w log _ (λ answer w1. (tt, h))
            λ answer w1 document _.
              let log1 : List Event = requested get (page_path path token) answer ∷ log in
              lift-next Safe Bad (items_of document) (w1, log1) _ (tt, h)
                λ items _.
                  lift-next Safe Bad (next_of document) (w1, log1) _ (tt, h)
                    λ to _.
                      if-Ends Safe Bad (to == "") _ _ (w1, log1) (λ _. (tt, h))
                        λ _.
                          refuse_if-next Safe Bad (to == token)
                            "Google Compute pagination did not advance" (w1, log1) _ (tt, h)
                            λ _. list_from-Safe fuel kind to (resources ++ items) w1 log1 (tt, h)

  listed-Safe :
      (reply : Reply (Option (List Resource)) × (World × List Event))
      → Ends Safe Bad reply
      → Ends Safe Bad (next reply λ given. lift (listed_or_escaped given))
  unfolding Safe Bad
  listed-Safe (gave none, s) h = h
  listed-Safe (gave (some resources), s) h = h
  listed-Safe (refused message, s) h = h
  listed-Safe (escaped, s) h = h

  get_resource-Shown :
      (kind name : String) (w : World) (log : List Event)
      → Due log
      → Ends
          (λ resource s. Due s.1 × Shown kind name resource s)
          Bad
          (get_resource (traced ports) project kind name (w, log))
  unfolding get_resource Shown Bad
  get_resource-Shown kind name w log h =
      lift-next Q Bad (resource_path project kind name) (w, log) _ h
        λ path at.
          request-next ports Q Bad get path w log _ (λ answer w1. (tt, h))
            λ answer w1 document e. ((tt, h), (path, answer, document, log, at, refl, e, refl))
    where
      Q : Resource → World × List Event → Type 0
      Q resource s = Due s.1 × Shown kind name resource s

  Reads-Due :
      (path : String) (polls log : List Event) → Reads path polls → Due log → Due (polls ++ log)
  Reads-Due path [] log h due = due
  Reads-Due path (event ∷ polls) log (read, _, h) due = rw read (tt, Reads-Due path polls log h due)

  delete_resource-Safe :
      (kind name path : String) (w : World) (log : List Event)
      → resource_path project kind name ≡ gave path
      → apply ≡ true
      → IsDue path log
      → Due log
      → Ends Safe Bad (delete_resource (traced ports) project kind name (w, log))
  unfolding Safe Bad
  delete_resource-Safe kind name path w log at applied due h =
      Ends-weaken (λ _ s. Confirmed ports project path log s.1) (λ _ s. Due s.1)
        (λ s. Requested ports project path log s.1) (λ s. Due s.1) _
        (λ _ s c. polled c.answer (operation_path project c.known) s.1 c.polls)
        (λ s (answer, op, polls). polled answer op s.1 polls)
        (delete_resource-Confirmed ports project path log kind name w at)
    where
      polled :
          (answer : Reply (Option (List ℕ))) (op : String) (now : List Event)
          → Polls op 60 (requested delete path answer ∷ log) now
          → Due now
      polled answer op now polls = rw polls.made (
          Reads-Due op polls.polls (requested delete path answer ∷ log) polls.reads
            ((applied, due), h))

  unchanged-IsDue :
      (candidate : Candidate) (live : Resource) (path : String) (document : Document)
      (answer : Reply (Option (List ℕ))) (earlier log : List Event)
      → resource_path project candidate.kind candidate.name ≡ gave path
      → log ≡ requested get path answer ∷ earlier
      → document_in ports (requested get path answer) ≡ gave document
      → document.resource ≡ live
      → is_changed (parse_candidate candidate.kind live now) candidate ≡ false
      → IsDue path log
  unchanged-IsDue candidate live path document answer earlier log at newest answered same
        unchanged =
      let (labels, expired, named) = unchanged-IsExpired candidate live now unchanged in
      record {
        kind = candidate.kind;
        answer = answer;
        document = document;
        labels = labels;
        earlier = earlier;
        after_read = newest;
        answered = answered;
        expired = rw same expired;
        located = rw named at;
      }

  client-IsKeeping :
      (fuel : ℕ) → IsKeeping (client_of (traced ports) project fuel) now apply Bad Shown
  unfolding Safe Bad Shown
  client-IsKeeping fuel = record {
    lists = λ kind (w, log) h.
        listed-Safe (list_resources (traced ports) project fuel kind (w, log))
          (list_from-Safe fuel kind "" [] w log h);
    reads = λ kind name (w, log) h. get_resource-Shown kind name w log h;
    deletes =
        λ candidate live (w, log) applied h
            (path, answer, document, earlier, at, newest, answered, same) unchanged.
          delete_resource-Safe candidate.kind candidate.name path w log at applied
            (unchanged-IsDue candidate live path document answer earlier log at newest answered same
              unchanged)
            h;
  }

  -- Whatever Google answers and however the run ends, it sends no DELETE without `apply`. With it, the
  -- request just before each DELETE was a read of the same path, and its answer showed there a
  -- resource with the labels of a run of three hours at most whose time is over, under their name.
  pub run-Due :
      (fuel : ℕ) (token given_zone : String) (w : World)
      → Ends
          (λ _ s. Due s.1)
          (λ s. Due s.1)
          (run (traced ports) project fuel token given_zone now apply (w, []))
  unfolding run Bad
  run-Due fuel token given_zone w =
      lift-next (λ (_ : List (String × String)) s. Due s.1) (λ s. Due s.1)
        (admit_client token project given_zone) (w, []) _ tt
        λ _ _.
          cleanup_expired-Kept (client_of (traced ports) project fuel) now apply Bad Shown
            (client-IsKeeping fuel) (w, []) tt
