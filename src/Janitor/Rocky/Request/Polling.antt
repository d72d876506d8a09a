-- ===== src/Janitor/Rocky/Request/Polling.antt =====
-- How the loop of `delete_component` ends.
use deployment.Base.{
  ℕ, zero, suc, ◌+◌, ◌≤◌, ◌≡◌, refl, ap, ◌∙◌, arith, String, Bool, true, false, List, ◌∷◌, some,
  ◌==◌, ◌/=◌, string_eq, option_eq, leb, length,
}
use deployment.Janitor.Call.{
  lift, Reply, gave, refused, escaped, Ends, next, Ends-weaken, refuse_if, ◌>>=◌, ◌>>◌,
}
use deployment.Janitor.Rocky.Contract.{Component}
use deployment.Janitor.Rocky.Observe.{component_path}
use deployment.Janitor.Rocky.Request.{
  Status, named, unnamed, unhashable, is_status, admit_running, Operation, Ports, is_deletion,
  validated, validated_at, validate_delete_operation, poll, operation_path, pause,
}
use deployment.Janitor.Rocky.Request.Log.{
  Event, polled, logged, traced, answer_of, Polls, Confirmed, if-Ends, silent-Quiet,
  refuse_if-Quiet, lift-Quiet, after,
}

validated-is_deletion :
    (operation : Operation) (component : Component) (name id path : String)
    → component_path component name ≡ gave path
    → validate_delete_operation operation component name id ≡ gave tt
    → is_deletion operation path id ≡ true
unfolding validate_delete_operation
validated-is_deletion operation component name id path e h =
    by_path (component_path component name) e h
  where
    by_test : (test : Bool) → validated test ≡ gave tt → test ≡ true
    by_test true h = refl
    by_test false h = cc h

    by_path :
        (reply : Reply String)
        → reply ≡ gave path
        → validated_at operation id reply ≡ gave tt
        → is_deletion operation path id ≡ true
    by_path (gave given) e h =
        let same : given ≡ path = cc e in rw (← same) (by_test (is_deletion operation given id) h)
    by_path (refused message) e h = cc e
    by_path escaped e h = cc e

is_status-named : (status : Status) → is_status status "DONE" ≡ true → status ≡ named "DONE"
is_status-named (named s) h = ap (λ t. named t) (same s h)
  where
    same : (s : String) → (s == "DONE") ≡ true → s ≡ "DONE"
    same s h = ground (arith, h)
is_status-named unnamed h = cc h
is_status-named unhashable h = cc h

module _ {World : Type 0} (ports : Ports World) (component : Component)
    (name id path known : String) (deadline : ℕ) where
  -- The requests so far, at most so many.
  abbrev pub Within : ℕ → World × List Event → Type 0
  Within most s = Polls path s.1 × (length s.1 ≤ most)

  abbrev pub Deleted : ℕ → Unit {0} → World × List Event → Type 0
  Deleted most _ s = Within most s × Confirmed path id s.1

  -- What the loop does with so many turns left, from the answer of the newest request.
  unfoldable pub Polled : ℕ → Type 0
  Polled turns =
      (event : Event) (operation : Operation) (w : World) (log earlier : List Event)
      → log ≡ event ∷ earlier
      → answer_of event ≡ gave operation
      → Polls path log
      → Ends (Deleted (turns + length log)) (Within (turns + length log))
          (poll (traced ports) turns component name id deadline known operation (w, log))

  turn-Polled :
      (turns : ℕ) → component_path component name ≡ gave path → Polled turns → Polled (suc turns)
  unfolding poll Polled
  turn-Polled turns at again event operation w log earlier newest answered polls =
      after log Q E bad (λ _. Unit) _ _ (silent-Quiet log (ports.monotonic w) log refl)
        λ now s1 e1 _.
          after log Q E bad _ _ _
            (refuse_if-Quiet log (leb deadline now) "GCP deletion operation timed out" s1 e1)
            λ _ s2 e2 _.
              after log Q E bad _ _ _
                (lift-Quiet log (validate_delete_operation operation component name id) s2 e2)
                λ _ s3 e3 valid.
                  after log Q E bad _ _ _
                    (refuse_if-Quiet log (operation.name /= some known)
                      "GCP deletion operation identity changed" s3 e3)
                    λ _ s4 e4 _.
                      if-Ends Q E (is_status operation.status "DONE") _ _ s4
                        (λ done.
                          finish operation.error refl s4 e4
                            (validated-is_deletion operation component name id path at valid)
                            (is_status-named operation.status done))
                        (λ _. go_on s4 e4)
    where
      most : ℕ
      most = suc turns + length log

      Q : Unit {0} → World × List Event → Type 0
      Q = Deleted most

      E : World × List Event → Type 0
      E = Within most

      bad : (s : World × List Event) → s.1 ≡ log → E s
      bad s e = rw e (polls, omega arith)

      finish :
          (error : Bool)
          → operation.error ≡ error
          → (s : World × List Event) → s.1 ≡ log
          → is_deletion operation path id ≡ true
          → operation.status ≡ named "DONE"
          → Ends Q E (refuse_if error "GCP deletion operation failed" s)
      finish true failed s e valid done = bad s e
      finish false failed s e valid done = (
        bad s e,
        record {
          event = event;
          earlier = earlier;
          operation = operation;
          newest = e ∙ newest;
          answered = answered;
          of_resource = valid;
          finished = done;
          clean = failed;
        },
      )

      answered_next :
          (given : String) (now : List Event) (reply : Reply Operation × World)
          → now ≡ log
          → Ends Q E (
              next
                (logged (polled given) now reply)
                (poll (traced ports) turns component name id deadline known))
      answered_next given now (gave answer, w) e =
          Ends-weaken (Deleted (turns + suc (length now))) Q (Within (turns + suc (length now))) E _
            (λ _ s h. ((h.0.0, omega (arith, h.0.1, ap length e)), h.1))
            (λ s h. (h.0, omega (arith, h.1, ap length e)))
            (again (polled given (gave answer)) answer w (polled given (gave answer) ∷ now) now refl
              refl (rw e polls))
      answered_next given now (refused message, w) e = (rw e polls, omega (arith, ap length e))
      answered_next given now (escaped, w) e = (rw e polls, omega (arith, ap length e))

      go_on :
          (s : World × List Event)
          → s.1 ≡ log
          → Ends Q E (
              (do
                lift (admit_running operation.status)
                later ← (traced ports).monotonic
                (traced ports).sleep (pause deadline later)
                answer ← (traced ports).get_operation (operation_path component known) deadline
                poll (traced ports) turns component name id deadline known answer)
                s)
      go_on s e =
          after log Q E bad _ _ _ (lift-Quiet log (admit_running operation.status) s e) λ _ s1 e1 _.
            after log Q E bad (λ _. Unit) _ _ (silent-Quiet log (ports.monotonic s1.0) s1.1 e1)
              λ later s2 e2 _.
                after log Q E bad (λ _. Unit) _ _
                  (silent-Quiet log (ports.sleep (pause deadline later) s2.0) s2.1 e2)
                  λ _ s3 e3 _.
                    answered_next (operation_path component known) s3.1
                      (ports.get_operation (operation_path component known) deadline s3.0) e3

  pub poll-Polled : (turns : ℕ) → component_path component name ≡ gave path → Polled turns
  unfolding poll Polled
  poll-Polled zero at = λ event operation w log earlier newest answered polls. (polls, omega arith)
  poll-Polled (suc turns) at = turn-Polled turns at (poll-Polled turns at)
