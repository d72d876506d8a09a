-- ===== src/Janitor/Rocky/Survey.antt =====
-- The reads of an inventory over any client.
use deployment.Base.{
  ℕ, ◌≡◌, refl, ap, ◌∙◌, inl, inr, String, true, List, [], ◌∷◌, Option, none, some, string_eq,
}
use deployment.Janitor.Call.{Reply, gave, refused, escaped, Ends, next-Ends, Ends-weaken}
use deployment.Janitor.Rocky.Contract.{Component, Resource, Labels, name_of}
use deployment.Janitor.Rocky.Observe.{
  admit_exact, Client, Observation, unknown, absent, incompatible, present, observe_exact,
  observe_all, all_absent, observed_as, identified,
}
use deployment.Janitor.Rocky.Trace.{
  Event, traced, In, Each, Shows, read, Seen, Under, Lawful, absences,
}

module _ {World : Type 0} (client : Client World) (authority : Labels) where
  -- Of the state of a traced client.
  abbrev pub log_of : World × List Event → List Event
  log_of s = s.1

  -- One more read, which shows the result.
  abbrev pub Read : List Event → Component → Observation → World × List Event → Type 0
  Read log component result s =
      (reply : Reply (Option Resource)) × (log_of s ≡ read authority component reply ∷ log)
      × Shows authority component result reply

  abbrev pub ReadOnly : List Event → Component → World × List Event → Type 0
  ReadOnly log component s =
      (reply : Reply (Option Resource)) × (log_of s ≡ read authority component reply ∷ log)

  pub observe_exact-Ends :
      (component : Component) (s : World × List Event)
      → Ends
          (Read (log_of s) component)
          (ReadOnly (log_of s) component)
          (observe_exact (traced client) authority component s)
  unfolding observe_exact
  observe_exact-Ends component (w, log) =
      of_reply (client.get_component component (name_of authority component) w)
    where
      judged :
          (resource : Resource) (w : World) (m : Reply (Option String))
          → admit_exact resource component authority ≡ m
          → Ends
              (Read log component)
              (ReadOnly log component)
              (identified m, (w, read authority component (gave (some resource)) ∷ log))
      judged resource w (gave none) e = (gave (some resource), refl, tt)
      judged resource w (gave (some id)) e = (gave (some resource), refl, (resource, refl, e))
      judged resource w (refused message) e = (gave (some resource), refl)
      judged resource w escaped e = (gave (some resource), refl)

      of_reply :
          (answer : Reply (Option Resource) × World)
          → Ends (Read log component) (ReadOnly log component) (
              observed_as
                (traced client)
                authority
                component
                (answer.0, (answer.1, read authority component answer.0 ∷ log)))
      of_reply (gave none, w) = (gave none, refl, refl)
      of_reply (gave (some resource), w) =
          judged resource w (admit_exact resource component authority) refl
      of_reply (refused message, w) = (refused message, refl, tt)
      of_reply (escaped, w) = (escaped, refl)

  -- Reads keep what a log tells of the deletions.
  pub record Extends (log later : List Event) : Type 0 where
    pub keeps : (event : Event) → In event log → In event later
    pub stays : Lawful authority log → Lawful authority later
    pub under : (n : ℕ) → Each (Under n) log → Each (Under n) later

  pub Extends-refl : (log : List Event) → Extends log log
  Extends-refl log = record { keeps = λ _ h. h; stays = λ h. h; under = λ _ h. h }

  pub Extends-read :
      (component : Component) (reply : Reply (Option Resource)) (log : List Event)
      → Extends log (read authority component reply ∷ log)
  Extends-read component reply log = record {
    keeps = λ _ h. inr h;
    stays = λ h. (tt, h);
    under = λ _ h. (tt, h);
  }

  pub Extends-trans :
      (log middle later : List Event)
      → Extends log middle
      → Extends middle later
      → Extends log later
  Extends-trans log middle later a b = record {
    keeps = λ event h. b.keeps event (a.keeps event h);
    stays = λ h. b.stays (a.stays h);
    under = λ n h. b.under n (a.under n h);
  }

  pub Extends-Seen :
      (log later : List Event) (component : Component) (result : Observation)
      → Extends log later
      → Seen authority component result log
      → Seen authority component result later
  Extends-Seen log later component result more (reply, here, shows) =
      (reply, more.keeps _ here, shows)

  unfoldable pub components_of : List (Component × Observation) → List Component
  components_of [] = []
  components_of ((component, _) ∷ rest) = component ∷ components_of rest

  -- What an inventory of these components gives.
  pub record Surveyed (components : List Component) (log : List Event)
      (results : List (Component × Observation)) (later : List Event) : Type 0 where
    pub seen : Each (λ (item : Component × Observation). Seen authority item.0 item.1 later) results
    pub complete : components_of results ≡ components
    pub more : Extends log later
    pub nothing : all_absent results ≡ true → later ≡ absences authority components log

  pub Extends-eq :
      (component : Component) (reply : Reply (Option Resource)) (log later : List Event)
      → later ≡ read authority component reply ∷ log
      → Extends log later
  Extends-eq component reply log later e = rw e (Extends-read component reply log)

  -- One more observation in front of an inventory.
  survey_more :
      (component : Component) (rest : List Component) (result : Observation)
      (results : List (Component × Observation)) (reply : Reply (Option Resource))
      (log middle later : List Event)
      → middle ≡ read authority component reply ∷ log
      → Shows authority component result reply
      → Surveyed rest middle results later
      → Surveyed (component ∷ rest) log ((component, result) ∷ results) later
  unfolding components_of all_absent
  survey_more component rest result results reply log middle later e shows h = record {
    seen =
        (Extends-Seen middle later component result h.more (reply, rw e (inl refl), shows), h.seen);
    complete = ap (λ l. component ∷ l) h.complete;
    more = Extends-trans log middle later (Extends-eq component reply log middle e) h.more;
    nothing = empty_handed result shows;
  }
    where
      empty_handed :
          (result : Observation)
          → Shows authority component result reply
          → all_absent ((component, result) ∷ results) ≡ true
          → later ≡ absences authority rest (read authority component (gave none) ∷ log)
      empty_handed absent same none_there =
          h.nothing none_there
          ∙ ap (absences authority rest) (e ∙ ap (λ r. read authority component r ∷ log) same)
      empty_handed unknown shows none_there = cc
      empty_handed incompatible shows none_there = cc
      empty_handed (present _) shows none_there = cc

  pub observe_all-Ends :
      (components : List Component) (s : World × List Event)
      → Ends
          (λ results after. Surveyed components (log_of s) results (log_of after))
          (λ after. Extends (log_of s) (log_of after))
          (observe_all (traced client) authority components s)
  unfolding observe_all components_of all_absent
  observe_all-Ends [] s = record {
    seen = tt;
    complete = refl;
    more = Extends-refl _;
    nothing = λ _. refl;
  }
  observe_all-Ends (component ∷ rest) (w, log) =
      next-Ends (Read log component)
        (λ results after. Surveyed (component ∷ rest) log results (log_of after))
        (λ after. Extends log (log_of after)) _ _
        (Ends-weaken (Read log component) (Read log component) (ReadOnly log component)
          (λ after. Extends log (log_of after))
          (observe_exact (traced client) authority component (w, log)) (λ _ _ h. h)
          (λ after (reply, e). Extends-eq component reply log (log_of after) e)
          (observe_exact-Ends component (w, log)))
        λ result s (reply, e, shows).
          next-Ends (λ results after. Surveyed rest (log_of s) results (log_of after))
            (λ results after. Surveyed (component ∷ rest) log results (log_of after))
            (λ after. Extends log (log_of after)) _ _
            (Ends-weaken (λ results after. Surveyed rest (log_of s) results (log_of after))
              (λ results after. Surveyed rest (log_of s) results (log_of after))
              (λ after. Extends (log_of s) (log_of after)) (λ after. Extends log (log_of after))
              (observe_all (traced client) authority rest s) (λ _ _ h. h)
              (λ after more.
                Extends-trans log (log_of s) (log_of after)
                  (Extends-eq component reply log (log_of s) e) more)
              (observe_all-Ends rest s))
            λ results after h.
              survey_more component rest result results reply log (log_of s) (log_of after) e shows
                h
