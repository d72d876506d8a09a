-- ===== src/Janitor/Gcp/Client/Deletion.antt =====
-- How `delete_resource` ends.
use deployment.Base.{
  ℕ, zero, suc, ◌+◌, ◌≤◌, ◌≡◌, refl, ap, arith, String, Bool, true, false, List, [], ◌∷◌, ◌++◌,
  Option, none, some, ◌==◌, string_eq, option_eq, length, if◌then◌else◌,
}
use deployment.Janitor.Call.{Reply, gave, refused, Ends, Ends-weaken, refuse_if}
use deployment.Janitor.Gcp.Client.{
  get, delete, Document, Ports, resource_path, poll, operation_name, operation_path, is_path_name,
  delete_resource,
}
use deployment.Janitor.Gcp.Client.Log.{
  Event, requested, traced, document_in, lift-next, if-Ends, request-next, sleep-next,
}

-- The requests are reads of this path.
abbrev pub Reads : String → List Event → Type 0
Reads path [] = Unit
Reads path (event ∷ log) = (event.method ≡ get) × (event.path ≡ path) × Reads path log

-- At most so many reads of this path, after earlier requests.
pub record Polls (path : String) (most : ℕ) (earlier log : List Event) : Type 0 where
  pub polls : List Event
  pub made : log ≡ polls ++ earlier
  pub reads : Reads path polls
  pub few : length polls ≤ most

module _ {World : Type 0} (ports : Ports World) where
  -- The newest request read this path and was answered with a finished operation without error.
  pub record IsDone (path : String) (log : List Event) : Type 0 where
    pub answer : Reply (Option (List ℕ))
    pub earlier : List Event
    pub operation : Document
    pub newest : log ≡ requested get path answer ∷ earlier
    pub answered : document_in ports (requested get path answer) ≡ gave operation
    pub finished : operation.status ≡ some "DONE"
    pub clean : operation.error ≡ false

  module _ (project path : String) (earlier : List Event) (most : ℕ) where
    abbrev pub Within : World × List Event → Type 0
    Within s = Polls path most earlier s.1

    abbrev pub Finished : Unit {0} → World × List Event → Type 0
    Finished _ s = Within s × IsDone path s.1

    more-Polls :
        (made : ℕ) (log : List Event) (answer : Reply (Option (List ℕ)))
        → Polls path made earlier log
        → Polls path (suc made) earlier (requested get path answer ∷ log)
    more-Polls made log answer h = record {
      polls = requested get path answer ∷ h.polls;
      made = ap (λ l. requested get path answer ∷ l) h.made;
      reads = (refl, refl, h.reads);
      few = omega (arith, h.few);
    }

    fewer-Polls :
        (made : ℕ) (log : List Event)
        → made ≤ most
        → Polls path made earlier log
        → Polls path most earlier log
    fewer-Polls made log le h = record {
      polls = h.polls;
      made = h.made;
      reads = h.reads;
      few = omega (arith, h.few, le);
    }

    status_done : (status : Option String) → (status == some "DONE") ≡ true → status ≡ some "DONE"
    status_done status h = ground (arith, h)

    pub poll-Ends :
        (turns made : ℕ) (w : World) (log : List Event)
        → turns + made ≤ most
        → Polls path made earlier log
        → Ends Finished Within (poll (traced ports) project turns path (w, log))
    unfolding poll
    poll-Ends zero made w log le h = fewer-Polls made log (omega (arith, le)) h
    poll-Ends (suc turns) made w log le h =
        request-next ports Finished Within get path w log _ (λ answer w'. polled answer)
          λ answer w' document e.
            if-Ends Finished Within (document.status == some "DONE") _ _
              (w', requested get path answer ∷ log)
              (λ done. finish answer w' document e (status_done document.status done) refl)
              λ _.
                sleep-next ports Finished Within w' (requested get path answer ∷ log) _
                  (λ _. polled answer)
                  λ w2.
                    poll-Ends turns (suc made) w2 (requested get path answer ∷ log)
                      (omega (arith, le)) (more-Polls made log answer h)
      where
        polled :
            (answer : Reply (Option (List ℕ)))
            → Polls path most earlier (requested get path answer ∷ log)
        polled answer =
            fewer-Polls (suc made) (requested get path answer ∷ log) (omega (arith, le))
              (more-Polls made log answer h)

        finish :
            {error : Bool} (answer : Reply (Option (List ℕ))) (w' : World) (document : Document)
            → document_in ports (requested get path answer) ≡ gave document
            → document.status ≡ some "DONE"
            → document.error ≡ error
            → Ends Finished Within (
                refuse_if error "Google Compute deletion operation failed"
                  (w', requested get path answer ∷ log))
        finish {error = true} answer w' document e finished failed = polled answer
        finish {error = false} answer w' document e finished failed = (
          polled answer,
          record {
            answer = answer;
            earlier = log;
            operation = document;
            newest = refl;
            answered = e;
            finished = finished;
            clean = failed;
          },
        )

  module _ (project path : String) (earlier : List Event) where
    -- After earlier requests: one DELETE of the path, and at most 60 reads of one other path.
    abbrev pub Requested : List Event → Type 0
    Requested log =
        (answer : Reply (Option (List ℕ))) × (polled : String) × Polls polled 60
          (requested delete path answer ∷ earlier) log

    -- The DELETE was answered with the name of an operation, which the polls read until it was done.
    pub record Confirmed (log : List Event) : Type 0 where
      pub answer : Reply (Option (List ℕ))
      pub operation : Document
      pub known : String
      pub answered : document_in ports (requested delete path answer) ≡ gave operation
      pub named : operation.resource.name ≡ some known
      pub polls :
          Polls (operation_path project known) 60 (requested delete path answer ∷ earlier) log
      pub done : IsDone (operation_path project known) log

    operation_name-named :
        (name : Option String) (known : String)
        → operation_name name ≡ gave known
        → name ≡ some known
    operation_name-named none known e = cc e
    operation_name-named (some name) known e = by_test (is_path_name name) e
      where
        by_test :
            (test : Bool)
            → (if test
                then gave name
                else refused "Google Compute deletion returned no bounded operation")
              ≡ gave known
            → some name ≡ some known
        by_test true e = cc e
        by_test false e = cc e

    pub delete_resource-Confirmed :
        (kind name : String) (w : World)
        → resource_path project kind name ≡ gave path
        → Ends
            (λ _ s. Confirmed s.1)
            (λ s. Requested s.1)
            (delete_resource (traced ports) project kind name (w, earlier))
    unfolding delete_resource
    delete_resource-Confirmed kind name w at = rw at (
        request-next ports Q E delete path w earlier _ (λ answer w'. one "" answer)
          λ answer w' document e.
            lift-next Q E (operation_name document.resource.name)
              (w', requested delete path answer ∷ earlier) _ (one "" answer)
              λ known e2.
                Ends-weaken (Finished project (operation_path project known) _ 60) Q
                  (Within project (operation_path project known) _ 60) E _
                  (λ _ s h. record {
                    answer = answer;
                    operation = document;
                    known = known;
                    answered = e;
                    named = operation_name-named document.resource.name known e2;
                    polls = h.0;
                    done = h.1;
                  })
                  (λ s h. (answer, operation_path project known, h))
                  (poll-Ends project (operation_path project known) _ 60 60 0 w'
                    (requested delete path answer ∷ earlier) (omega arith)
                    (none_yet (operation_path project known) answer)))
      where
        Q : Unit {0} → World × List Event → Type 0
        Q _ s = Confirmed s.1

        E : World × List Event → Type 0
        E s = Requested s.1

        none_yet :
            (polled : String) (answer : Reply (Option (List ℕ)))
            → Polls polled 0
                (requested delete path answer ∷ earlier)
                (requested delete path answer ∷ earlier)
        none_yet polled answer = record { polls = []; made = refl; reads = tt; few = omega arith }

        one :
            (polled : String) (answer : Reply (Option (List ℕ)))
            → Requested (requested delete path answer ∷ earlier)
        one polled answer =
            (answer, polled, record { polls = []; made = refl; reads = tt; few = omega arith })
