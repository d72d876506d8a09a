-- ===== src/Janitor/Rocky/Cleanup.antt =====
-- `cleanup_run` over any client: what stands before its deletions, and how it ends.
use deployment.Base.{
  ℕ, ◌≡◌, refl, sym, inl, inr, suc, Bool, true, false, not, List, [], ◌∷◌, Option, none, some,
  string_eq,
}
use mathlib.Core.Path.{subst}
use deployment.Janitor.Call.{Ends, next-Ends, Ends-weaken, refuse_if, pure, ◌>>=◌, ◌>>◌}
use deployment.Janitor.Rocky.Contract.{Component, delete_order, Labels}
use deployment.Janitor.Rocky.Observe.{
  Client, Observation, unknown, absent, incompatible, present, observe_all, all_absent,
  first_refused, remove, remove_all, cleanup_run, admit_inventory,
}
use deployment.Janitor.Rocky.Trace.{
  Ordered, delete_order-Ordered, Event, traced, rank, Each, Seen, Cleared, Lawful, absences,
}
use deployment.Janitor.Rocky.Survey.{Extends, components_of, Surveyed, observe_all-Ends}
use deployment.Janitor.Rocky.Justify.{Keeps, Seen-Keeps, Stands}
use deployment.Janitor.Rocky.Turn.{Turned, Broken, remove-Ends}

module _ {World : Type 0} (client : Client World) (authority : Labels) where
  Each-Seen :
      (found : List (Component × Observation)) (log later : List Event)
      → Keeps log later
      → Each (λ (item : Component × Observation). Seen authority item.0 item.1 log) found
      → Each (λ (item : Component × Observation). Seen authority item.0 item.1 later) found
  Each-Seen [] log later keeps h = tt
  Each-Seen ((component, result) ∷ rest) log later keeps (h, hs) =
      (Seen-Keeps authority component result log later keeps h, Each-Seen rest log later keeps hs)

  remove_all-Ends :
      (n : ℕ) (found : List (Component × Observation)) (s : World × List Event)
      → Ordered n (components_of client authority found)
      → Stands authority n s.1
      → Each (λ (item : Component × Observation). Seen authority item.0 item.1 s.1) found
      → Ends
          (λ _. Broken client authority)
          (Broken client authority)
          (remove_all (traced client) authority found s)
  unfolding remove_all Ordered components_of Turned Broken
  remove_all-Ends n [] s order h seen = h.lawful
  remove_all-Ends n ((component, result) ∷ rest) s order h seen =
      next-Ends (λ _. Turned client authority (suc (rank component)) s.1)
        (λ _. Broken client authority) (Broken client authority)
        (remove (traced client) authority component result s)
        (λ _. remove_all (traced client) authority rest)
        (remove-Ends client authority n component result s order.0 h seen.0)
        λ _ s2 (h2, keeps).
          remove_all-Ends (suc (rank component)) rest s2 order.1 h2
            (Each-Seen rest s.1 s2.1 keeps seen.1)

  -- An inventory with no refusal saw nothing or a resource of the run at each component.
  clear_of :
      (found : List (Component × Observation)) (log : List Event)
      → first_refused found ≡ none
      → Each (λ (item : Component × Observation). Seen authority item.0 item.1 log) found
      → Each (Cleared authority log) (components_of client authority found)
  unfolding first_refused components_of
  clear_of [] log clear seen = tt
  clear_of ((component, absent) ∷ rest) log clear (h, hs) = (inl h, clear_of rest log clear hs)
  clear_of ((component, present id) ∷ rest) log clear (h, hs) =
      (inr (id, h), clear_of rest log clear hs)
  clear_of ((component, unknown) ∷ rest) log clear (h, hs) = absurd (cc clear)
  clear_of ((component, incompatible) ∷ rest) log clear (h, hs) = absurd (cc clear)

  -- The results are of the seven components, in `DELETE_ORDER`, and all absent; and the last seven
  -- calls found nothing at any component.
  abbrev pub Verified : List (Component × Observation) → World × List Event → Type 0
  Verified results s =
      Lawful authority s.1
      × (components_of client authority results ≡ delete_order)
      × (all_absent results ≡ true)
      × ((older : List Event) × (s.1 ≡ absences authority delete_order older))

  concluded-Ends :
      (s : World × List Event)
      → Lawful authority s.1
      → Ends Verified
          (λ s. Lawful authority s.1)
          ((observe_all (traced client) authority delete_order >>= λ results.
              refuse_if (not (all_absent results)) "provider run resource absence not verified"
              >> pure results)
            s)
  concluded-Ends s h =
      next-Ends (λ results after. Surveyed client authority delete_order s.1 results after.1)
        Verified (λ s. Lawful authority s.1) (observe_all (traced client) authority delete_order s)
        (λ results.
          refuse_if (not (all_absent results)) "provider run resource absence not verified"
          >> pure results)
        (Ends-weaken (λ results after. Surveyed client authority delete_order s.1 results after.1)
          (λ results after. Surveyed client authority delete_order s.1 results after.1)
          (λ after. Extends client authority s.1 after.1) (λ s. Lawful authority s.1)
          (observe_all (traced client) authority delete_order s) (λ _ _ h. h)
          (λ after more. more.stays h) (observe_all-Ends client authority delete_order s))
        λ results after survey. tested (all_absent results) results after survey refl
    where
      tested :
          (test : Bool) (results : List (Component × Observation)) (after : World × List Event)
          → Surveyed client authority delete_order s.1 results after.1
          → all_absent results ≡ test
          → Ends Verified
              (λ s. Lawful authority s.1)
              ((refuse_if (not test) "provider run resource absence not verified" >> pure results)
                after)
      tested true results after survey e =
          (survey.more.stays h, survey.complete, e, (s.1, survey.nothing e))
      tested false results after survey e = survey.more.stays h

  -- Over any client, `cleanup_run` deletes a component of the run only by its name and the identity
  -- that the read just before it and the inventory both admitted as the run's, after each of the seven
  -- components was read as absent or the run's, and in `DELETE_ORDER`, each at most once; if it
  -- returns, it reports each of the seven components as absent and its last seven calls found none of
  -- them.
  pub cleanup_run-Lawful :
      (w : World)
      → Ends Verified (λ s. Lawful authority s.1) (cleanup_run (traced client) authority (w, []))
  unfolding cleanup_run Broken
  cleanup_run-Lawful w =
      next-Ends (λ results after. Surveyed client authority delete_order [] results after.1)
        Verified (λ s. Lawful authority s.1)
        (observe_all (traced client) authority delete_order (w, [])) _
        (Ends-weaken (λ results after. Surveyed client authority delete_order [] results after.1)
          (λ results after. Surveyed client authority delete_order [] results after.1)
          (λ after. Extends client authority [] after.1) (λ s. Lawful authority s.1)
          (observe_all (traced client) authority delete_order (w, [])) (λ _ _ h. h)
          (λ after more. more.stays tt) (observe_all-Ends client authority delete_order (w, [])))
        λ found s survey. admitted found s survey (first_refused found) refl
    where
      go_on :
          (found : List (Component × Observation)) (s : World × List Event)
          → Surveyed client authority delete_order [] found s.1
          → first_refused found ≡ none
          → Ends Verified
              (λ s. Lawful authority s.1)
              ((remove_all (traced client) authority found
                  >> (observe_all (traced client) authority delete_order >>= λ results.
                      refuse_if
                        (not (all_absent results))
                        "provider run resource absence not verified"
                      >> pure results))
                s)
      go_on found s survey clear =
          next-Ends (λ _ s. Lawful authority s.1) Verified (λ s. Lawful authority s.1)
            (remove_all (traced client) authority found s) _
            (remove_all-Ends 0 found s
              (subst (Ordered 0) (sym survey.complete) delete_order-Ordered)
              (record {
                lawful = survey.more.stays tt;
                cleared =
                    subst (Each (Cleared authority s.1)) survey.complete
                      (clear_of found s.1 clear survey.seen);
                below = survey.more.under 0 tt;
              })
              survey.seen)
            λ _ s2 h2. concluded-Ends s2 h2

      admitted :
          (found : List (Component × Observation)) (s : World × List Event)
          → Surveyed client authority delete_order [] found s.1
          → (first : Option (Component × Observation)) → first_refused found ≡ first
          → Ends Verified
              (λ s. Lawful authority s.1)
              ((admit_inventory first
                  >> (remove_all (traced client) authority found
                      >> (observe_all (traced client) authority delete_order >>= λ results.
                          refuse_if
                            (not (all_absent results))
                            "provider run resource absence not verified"
                          >> pure results)))
                s)
      admitted found s survey none e = go_on found s survey e
      admitted found s survey (some (component, result)) e = survey.more.stays tt
