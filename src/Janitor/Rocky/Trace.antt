-- ===== src/Janitor/Rocky/Trace.antt =====
-- The calls that `cleanup_run` makes of a client, and what must stand before a deletion.
use deployment.Base.{◌≤◌, suc, ℕ, ◌<◌, ◌≡◌, ◌⊎◌, arith, String, List, [], ◌∷◌, Option, none, some}
use deployment.Janitor.Call.{Reply, gave}
use deployment.Janitor.Rocky.Contract.{
  Component, instance', disk, network, subnet, ssh, egress_allow, egress_deny, delete_order,
  Resource, Labels, name_of,
}
use deployment.Janitor.Rocky.Observe.{
  admit_exact, Client, Observation, unknown, absent, incompatible, present,
}

-- A call and its answer; a list of them has the newest first.
pub data Event : Type 0 where
  got : Component → String → Reply (Option Resource) → Event
  deleted : Component → String → String → Event
  listed : Component → Event

abbrev pub logged :
    {World A : Type 0}
    → (Reply A → Event)
    → List Event
    → Reply A × World
    → Reply A × (World × List Event)
logged event log (reply, w) = (reply, (w, event reply ∷ log))

-- A client that keeps a log of its calls.
abbrev pub traced : {World : Type 0} → Client World → Client (World × List Event)
traced client = record {
  get_component = λ component name (w, log).
      logged (got component name) log (client.get_component component name w);
  delete_component = λ component name id (w, log).
      logged (λ _. deleted component name id) log (client.delete_component component name id w);
  list_component =
      λ component (w, log). logged (λ _. listed component) log (client.list_component component w);
}

-- The place of a component in `DELETE_ORDER`.
abbrev pub rank : Component → ℕ
rank instance' = 0
rank disk = 1
rank ssh = 2
rank egress_allow = 3
rank egress_deny = 4
rank subnet = 5
rank network = 6

-- The components stand in the order of their places, from one on.
unfoldable pub Ordered : ℕ → List Component → Type 0
Ordered n [] = Unit
Ordered n (component ∷ rest) = (n ≤ rank component) × Ordered (suc (rank component)) rest

pub delete_order-Ordered : Ordered 0 delete_order
unfolding Ordered
delete_order-Ordered = (
  omega arith,
  (omega arith, (omega arith, (omega arith, (omega arith, (omega arith, (omega arith, tt)))))),
)

abbrev pub In : {A : Type 0} → A → List A → Type 0
In a [] = ⊥
In a (x ∷ xs) = (a ≡ x) ⊎ In a xs

abbrev pub Each {ℓ κ} : {A : Type ℓ} → (A → Type κ) → List A → Type κ
Each P [] = Unit
Each P (x ∷ xs) = P x × Each P xs

-- A deletion is of a component before this place.
abbrev pub Under : ℕ → Event → Type 0
Under n (deleted component _ _) = rank component < n
Under n _ = Unit

module _ (authority : Labels) where
  -- The answer is a resource that is admitted as the run's, with this identity.
  abbrev pub Admits : Component → String → Reply (Option Resource) → Type 0
  Admits component id reply =
      (resource : Resource) × (reply ≡ gave (some resource))
      × (admit_exact resource component authority ≡ gave (some id))

  -- What an observation rests on.
  abbrev pub Shows : Component → Observation → Reply (Option Resource) → Type 0
  Shows component absent reply = reply ≡ gave none
  Shows component (present id) reply = Admits component id reply
  Shows component unknown reply = Unit
  Shows component incompatible reply = Unit

  abbrev pub read : Component → Reply (Option Resource) → Event
  read component reply = got component (name_of authority component) reply

  -- The log has a read of the component that shows the observation.
  abbrev pub Seen : Component → Observation → List Event → Type 0
  Seen component result log =
      (reply : Reply (Option Resource)) × In (read component reply) log
      × Shows component result reply

  -- A read that found nothing or a resource of the run.
  abbrev pub Cleared : List Event → Component → Type 0
  Cleared log component =
      Seen component absent log ⊎ ((id : String) × Seen component (present id) log)

  -- What stands before the deletion of a component by its name and with an identity: the read just
  -- before admits a resource of the run with that identity, an earlier one did so too, each of the
  -- seven components was read as absent or the run's, and no deletion was of this component or of
  -- one after it in `DELETE_ORDER`.
  pub record Justified (component : Component) (name id : String) (log : List Event) : Type 0 where
    pub named : name ≡ name_of authority component
    pub earlier : List Event
    pub last : Reply (Option Resource)
    pub after_read : log ≡ read component last ∷ earlier
    pub admitted : Admits component id last
    pub inventoried : Seen component (present id) earlier
    pub cleared : Each (Cleared earlier) delete_order
    pub in_order : Each (Under (rank component)) earlier

  abbrev pub Allowed : Event → List Event → Type 0
  Allowed (got _ _ _) log = Unit
  Allowed (deleted component name id) log = Justified component name id log
  Allowed (listed _) log = Unit

  -- Every deletion of the log stands on what came before it.
  abbrev pub Lawful : List Event → Type 0
  Lawful [] = Unit
  Lawful (event ∷ log) = Allowed event log × Lawful log

  -- The reads that found nothing, after a log.
  abbrev pub absences : List Component → List Event → List Event
  absences [] log = log
  absences (component ∷ rest) log = absences rest (read component (gave none) ∷ log)
