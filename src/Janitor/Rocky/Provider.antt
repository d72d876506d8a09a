-- ===== src/Janitor/Rocky/Provider.antt =====
-- `cleanup_run` over a provider that answers and deletes as it should.
use deployment.Base.{
  ==_refl, ℕ, ◌<◌, ◌≤◌, ◌≡◌, ◌≢◌, ◌⊎◌, refl, sym, ap, ◌∙◌, inl, inr, arith, suc, String, true, List,
  [], ◌∷◌, Option, none, some, string_eq,
}
use mathlib.Core.Path.{subst}
use deployment.Janitor.Call.{gave}
use deployment.Janitor.Rocky.Contract.{Component, delete_order, Resource, Labels, name_of}
use deployment.Janitor.Rocky.Observe.{
  admit_exact, Client, Observation, unknown, absent, incompatible, present, observe_exact,
  observe_all, all_absent, first_refused, remove, remove_all, cleanup_run,
}
use deployment.Janitor.Rocky.Admitted.{admit_exact-id}
use deployment.Janitor.Rocky.Trace.{Ordered, delete_order-Ordered, rank, Each}

module _ {World : Type 0} (client : Client World) (authority : Labels)
    (holds : World → Component → Option Resource) where
  -- A read gives what is there, and a deletion of what is there, under its identity, takes it away
  -- and nothing else of the run.
  pub record IsProvider : Type 0 where
    pub reads :
        (component : Component) (w : World)
        → client.get_component component (name_of authority component) w
          ≡ (gave (holds w component), w)
    pub deletes :
        (component : Component) (resource : Resource) (id : String) (w : World)
        → holds w component ≡ some resource
        → resource.id ≡ some id
        → (w' : World) × (client.delete_component component (name_of authority component) id w
            ≡ (gave tt, w'))
          × (holds w' component ≡ none)
          × ((another : Component)
              → rank another ≢ rank component
              → holds w' another ≡ holds w another)

  -- There is nothing, or a resource that is admitted as the run's.
  abbrev pub Clear : World → Component → Type 0
  Clear w component =
      (holds w component ≡ none)
      ⊎ ((resource : Resource) × (id : String) × (holds w component ≡ some resource)
          × (admit_exact resource component authority ≡ gave (some id)))

  -- The observation is true.
  Tells : World → Component × Observation → Type 0
  Tells w (component, absent) = holds w component ≡ none
  Tells w (component, present id) =
      (resource : Resource) × (holds w component ≡ some resource)
      × (admit_exact resource component authority ≡ gave (some id))
  Tells w (component, unknown) = ⊥
  Tells w (component, incompatible) = ⊥

  observe_exact-present :
      (component : Component) (resource : Resource) (id : String) (w : World)
      → IsProvider
      → holds w component ≡ some resource
      → admit_exact resource component authority ≡ gave (some id)
      → observe_exact client authority component w ≡ (gave (present id), w)
  unfolding observe_exact
  observe_exact-present component resource id w law here admitted =
      rw (law.reads component w, here, admitted) refl

  observe_exact-absent :
      (component : Component) (w : World)
      → IsProvider
      → holds w component ≡ none
      → observe_exact client authority component w ≡ (gave absent, w)
  unfolding observe_exact
  observe_exact-absent component w law here = rw (law.reads component w, here) refl

  abbrev names_of : List (Component × Observation) → List Component
  names_of [] = []
  names_of ((component, _) ∷ rest) = component ∷ names_of rest

  -- A true inventory that nothing refuses.
  record Inventory (w : World) (components : List Component)
      (found : List (Component × Observation)) : Type 0 where
    complete : names_of found ≡ components
    clear : first_refused found ≡ none
    tells : Each (Tells w) found

  Observed : World → Component → Type 0
  Observed w component =
      (result : Observation) × (observe_exact client authority component w ≡ (gave result, w))
      × (first_refused ((component, result) ∷ []) ≡ none)
      × Tells w (component, result)

  observe_exact-Clear :
      (component : Component) (w : World) → IsProvider → Clear w component → Observed w component
  unfolding Observed Tells first_refused
  observe_exact-Clear component w law (inl here) =
      (absent, observe_exact-absent component w law here, refl, here)
  observe_exact-Clear component w law (inr (resource, id, here, admitted)) = (
    present id,
    observe_exact-present component resource id w law here admitted,
    refl,
    (resource, here, admitted),
  )

  more_found :
      (w : World) (component : Component) (result : Observation) (rest : List Component)
      (found : List (Component × Observation))
      → first_refused ((component, result) ∷ []) ≡ none
      → Tells w (component, result)
      → Inventory w rest found
      → Inventory w (component ∷ rest) ((component, result) ∷ found)
  unfolding first_refused
  more_found w component unknown rest found clear told h = cc clear
  more_found w component incompatible rest found clear told h = cc clear
  more_found w component absent rest found clear told h = record {
    complete = ap (λ l. component ∷ l) h.complete;
    clear = h.clear;
    tells = (told, h.tells);
  }
  more_found w component (present id) rest found clear told h = record {
    complete = ap (λ l. component ∷ l) h.complete;
    clear = h.clear;
    tells = (told, h.tells);
  }

  observe_all-Clear :
      (components : List Component) (w : World)
      → IsProvider
      → Each (Clear w) components
      → (found : List (Component × Observation)) × (observe_all client authority components w
          ≡ (gave found, w))
        × Inventory w components found
  unfolding observe_all first_refused Observed
  observe_all-Clear [] w law h = ([], refl, record { complete = refl; clear = refl; tells = tt })
  observe_all-Clear (component ∷ rest) w law (h, hs) =
      let (result, e, clear, told) = observe_exact-Clear component w law h in
      let (found, e', h') = observe_all-Clear rest w law hs in
      (
        (component, result) ∷ found,
        rw (e, e') refl,
        more_found w component result rest found clear told h',
      )

  -- A turn empties the place of a component and leaves the others.
  Emptied : World → Component → World → Type 0
  Emptied w component w' =
      (holds w' component ≡ none)
      × ((another : Component) → rank another ≢ rank component → holds w' another ≡ holds w another)

  remove-Emptied :
      (component : Component) (result : Observation) (w : World)
      → IsProvider
      → Tells w (component, result)
      → (w' : World) × (remove client authority component result w ≡ (gave tt, w'))
        × Emptied w component w'
  unfolding remove Tells Emptied
  remove-Emptied component unknown w law told = absurd told
  remove-Emptied component incompatible w law told = absurd told
  remove-Emptied component absent w law told = (w, refl, (told, λ _ _. refl))
  remove-Emptied component (present id) w law (resource, here, admitted) =
      let (w', e, gone, kept) =
        law.deletes component resource id w here
          (admit_exact-id resource component authority id admitted) in
      (
        w',
        rw (observe_exact-present component resource id w law here admitted, ==_refl id, e) refl,
        (gone, kept),
      )

  -- The components from one place on are emptied, if they were found, and those before are left.
  Swept : ℕ → List Component → World → World → Type 0
  Swept n components w w' =
      Each (λ component. holds w' component ≡ none) components
      × ((another : Component) → rank another < n → holds w' another ≡ holds w another)

  Each-Tells :
      (n : ℕ) (found : List (Component × Observation)) (w w' : World)
      → Ordered n (names_of found)
      → ((another : Component) → n ≤ rank another → holds w' another ≡ holds w another)
      → Each (Tells w) found
      → Each (Tells w') found
  unfolding Tells Ordered
  Each-Tells n [] w w' order same h = tt
  Each-Tells n ((component, unknown) ∷ rest) w w' order same h = absurd h.0
  Each-Tells n ((component, incompatible) ∷ rest) w w' order same h = absurd h.0
  Each-Tells n ((component, absent) ∷ rest) w w' order same h = (
    same component order.0 ∙ h.0,
    Each-Tells (suc (rank component)) rest w w' order.1
        (λ another le. same another (omega (arith, le, order.0))) h.1,
  )
  Each-Tells n ((component, present id) ∷ rest) w w' order same ((resource, here, admitted), hs) = (
    (resource, (same component order.0 ∙ here), admitted),
    Each-Tells (suc (rank component)) rest w w' order.1
        (λ another le. same another (omega (arith, le, order.0))) hs,
  )

  remove_all-Swept :
      (n : ℕ) (found : List (Component × Observation)) (w : World)
      → IsProvider
      → Ordered n (names_of found)
      → Each (Tells w) found
      → (w' : World) × (remove_all client authority found w ≡ (gave tt, w'))
        × Swept n (names_of found) w w'
  unfolding remove_all Ordered Swept Emptied
  remove_all-Swept n [] w law order h = (w, refl, (tt, λ _ _. refl))
  remove_all-Swept n ((component, result) ∷ rest) w law order (h, hs) =
      let (w1, e1, (gone, kept)) = remove-Emptied component result w law h in
      let (w2, e2, (empty, left)) = remove_all-Swept (suc (rank component)) rest w1 law order.1 (
        Each-Tells (suc (rank component)) rest w w1 order.1
          (λ another le. kept another (λ same. omega (arith, le, same))) hs) in
      (
        w2,
        rw (e1, e2) refl,
        (
          (left component (omega arith) ∙ gone, empty),
          λ another below.
              left another (omega (arith, below, order.0))
              ∙ kept another (λ same. omega (arith, below, order.0, same)),
        ),
      )

  -- An inventory of nothing reports that all are absent.
  observe_all-empty :
      (components : List Component) (w : World)
      → IsProvider
      → Each (λ component. holds w component ≡ none) components
      → (results : List (Component × Observation)) × (observe_all client authority components w
          ≡ (gave results, w))
        × (all_absent results ≡ true)
  unfolding observe_all all_absent
  observe_all-empty [] w law h = ([], refl, refl)
  observe_all-empty (component ∷ rest) w law (h, hs) =
      let (results, e, all_gone) = observe_all-empty rest w law hs in
      (
        (component, absent) ∷ results,
        rw (observe_exact-absent component w law h, e) refl,
        rw all_gone refl,
      )

  -- With such a provider, `cleanup_run` returns whenever each of the seven components of the run is
  -- absent or the run's, and then the provider has none of them.
  pub cleanup_run-empties :
      (w : World)
      → IsProvider
      → Each (Clear w) delete_order
      → (w' : World) × ((results : List (Component × Observation)) × (cleanup_run client authority w
            ≡ (gave results, w')))
        × Each (λ component. holds w' component ≡ none) delete_order
  unfolding cleanup_run Swept
  cleanup_run-empties w law clear =
      let (found, e, h) = observe_all-Clear delete_order w law clear in
      let (w', e', (empty, left)) =
        remove_all-Swept 0 found w law (subst (Ordered 0) (sym h.complete) delete_order-Ordered)
          h.tells in
      let gone : Each (λ component. holds w' component ≡ none) delete_order =
        subst (Each (λ component. holds w' component ≡ none)) h.complete empty in
      let (results, e'', all_gone) = observe_all-empty delete_order w' law gone in
      (w', (results, rw (e, h.clear, e', e'', all_gone) refl), gone)
