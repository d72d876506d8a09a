-- ===== src/Janitor/Rocky/Request/Deletion.antt =====
-- How `delete_component` ends.
use deployment.Base.{
  ℕ, ◌+◌, ◌≤◌, ◌≡◌, ◌⊎◌, refl, ap, inl, inr, arith, String, not, List, [], ◌∷◌, string_eq,
  option_eq, length,
}
use deployment.Janitor.Call.{
  Reply, gave, refused, escaped, Ends, next, Ends-weaken, lift, ◌>>=◌, ◌>>◌,
}
use deployment.Janitor.Rocky.Contract.{Component}
use deployment.Janitor.Rocky.Observe.{component_path, is_resource_id}
use deployment.Janitor.Rocky.Request.{
  Operation, Ports, validate_delete_operation, poll, delete_component, operation_name,
}
use deployment.Janitor.Rocky.Request.Log.{
  Event, deleted, logged, traced, Polls, Confirmed, silent-Quiet, refuse_if-Quiet, lift-Quiet,
  after,
}
use deployment.Janitor.Rocky.Request.Polling.{Within, Deleted, Polled, poll-Polled}

module _ {World : Type 0} (ports : Ports World) (component : Component)
    (name id path : String) where
  -- A deletion of a resource at its path sends one DELETE and at most 60 polls; and if it returns,
  -- the newest answer is a deletion of exactly the resource with this identity, done without error.
  pub delete_component-Confirmed :
      (w : World)
      → component_path component name ≡ gave path
      → Ends
          (λ _ s. (Polls path s.1 × (length s.1 ≤ 61)) × Confirmed path id s.1)
          (λ s. ((s.1 ≡ []) ⊎ Polls path s.1) × (length s.1 ≤ 61))
          (delete_component (traced ports) component name id (w, []))
  unfolding delete_component Polled
  delete_component-Confirmed w at =
      after [] Q E bad _ _ _
        (refuse_if-Quiet [] (not (is_resource_id id))
          "deletion requires admitted immutable resource ID" (w, []) refl)
        λ _ s1 e1 _.
          after [] Q E bad (λ _. Unit) _ _ (silent-Quiet [] (ports.monotonic s1.0) s1.1 e1)
            λ now s2 e2 _.
              after [] Q E bad _ _ _ (lift-Quiet [] (component_path component name) s2 e2)
                λ given s3 e3 found.
                  answered_first now given (cc (at, found)) s3.1
                    (ports.delete given (now + 120000) s3.0) e3
    where
      Q : Unit {0} → World × List Event → Type 0
      Q _ s = (Polls path s.1 × (length s.1 ≤ 61)) × Confirmed path id s.1

      E : World × List Event → Type 0
      E s = ((s.1 ≡ []) ⊎ Polls path s.1) × (length s.1 ≤ 61)

      bad : (s : World × List Event) → s.1 ≡ [] → E s
      bad s e = (inl e, rw e (omega arith))

      one :
          (given : String) (answer : Reply Operation) (s : World × List Event)
          → given ≡ path
          → s.1 ≡ deleted given answer ∷ []
          → E s
      one given answer s same e = rw e (inr (same, refl), omega arith)

      polls_of :
          (known : String) (now : ℕ)
          → Polled ports component name id path known (now + 120000) 60
          → (given : String) (operation : Operation) → given ≡ path
          → (w : World) (log : List Event) → log ≡ deleted given (gave operation) ∷ []
          → Ends
              (Deleted ports component name id path known (now + 120000) (60 + length log))
              (Within ports component name id path known (now + 120000) (60 + length log))
              (poll (traced ports) 60 component name id (now + 120000) known operation (w, log))
      polls_of known now all given operation same w log e =
          all (deleted given (gave operation)) operation w log [] e refl (rw e (same, refl))

      polling :
          (now : ℕ) (given : String) (operation : Operation)
          → given ≡ path
          → (s : World × List Event) → s.1 ≡ deleted given (gave operation) ∷ []
          → Ends Q E (
              (do
                lift (validate_delete_operation operation component name id)
                known ← lift (operation_name operation.name)
                poll (traced ports) 60 component name id (now + 120000) known operation)
                s)
      polling now given operation same s e =
          after (deleted given (gave operation) ∷ []) Q E (λ s. one given (gave operation) s same) _
            _ _
            (lift-Quiet (deleted given (gave operation) ∷ [])
              (validate_delete_operation operation component name id) s e)
            λ _ s1 e1 _.
              after (deleted given (gave operation) ∷ []) Q E
                (λ s. one given (gave operation) s same) _ _ _
                (lift-Quiet (deleted given (gave operation) ∷ []) (operation_name operation.name) s1
                  e1)
                λ known (w2, log2) e2 _.
                  Ends-weaken
                    (Deleted ports component name id path known (now + 120000) (60 + length log2)) Q
                    (Within ports component name id path known (now + 120000) (60 + length log2)) E
                    _ (λ _ s h. ((h.0.0, omega (arith, h.0.1, ap length e2)), h.1))
                    (λ s h. (inr h.0, omega (arith, h.1, ap length e2)))
                    (polls_of known now
                      (poll-Polled ports component name id path known (now + 120000) 60 at) given
                      operation same w2 log2 e2)

      answered_first :
          (now : ℕ) (given : String)
          → given ≡ path
          → (log : List Event) (reply : Reply Operation × World) → log ≡ []
          → Ends Q E (
              next (logged (deleted given) log reply) λ operation. do
                lift (validate_delete_operation operation component name id)
                known ← lift (operation_name operation.name)
                poll (traced ports) 60 component name id (now + 120000) known operation)
      answered_first now given same log (gave operation, w) e =
          polling now given operation same (w, deleted given (gave operation) ∷ log)
            (ap (λ l. deleted given (gave operation) ∷ l) e)
      answered_first now given same log (refused message, w) e =
          one given (refused message) (w, deleted given (refused message) ∷ log) same
            (ap (λ l. deleted given (refused message) ∷ l) e)
      answered_first now given same log (escaped, w) e =
          one given escaped (w, deleted given escaped ∷ log) same
            (ap (λ l. deleted given escaped ∷ l) e)
