-- ===== src/Janitor/Rocky/Justify.antt =====
-- How the reads and deletions of a log stand to each other.
use deployment.Base.{
  ℕ, ◌≤◌, ◌≡◌, refl, inl, inr, arith, suc, String, true, List, [], ◌∷◌, Option, string_eq,
}
use deployment.Janitor.Call.{Reply}
use deployment.Janitor.Rocky.Contract.{Component, delete_order, Resource, Labels, name_of}
use deployment.Janitor.Rocky.Observe.{
  Observation, unknown, absent, incompatible, present, same_observation,
}
use deployment.Janitor.Rocky.Trace.{
  Event, got, deleted, listed, rank, In, Each, Admits, read, Seen, Cleared, Under, Lawful,
}

pub Each-weaken : (n m : ℕ) (log : List Event) → n ≤ m → Each (Under n) log → Each (Under m) log
Each-weaken n m [] le h = tt
Each-weaken n m (deleted component name id ∷ log) le (below, h) =
    (omega (arith, le, below), Each-weaken n m log le h)
Each-weaken n m (got _ _ _ ∷ log) le (_, h) = (tt, Each-weaken n m log le h)
Each-weaken n m (listed _ ∷ log) le (_, h) = (tt, Each-weaken n m log le h)

pub same_present :
    (current : Observation) (id : String)
    → same_observation current (present id) ≡ true
    → current ≡ present id
same_present (present id') id h = ground (arith, h)
same_present unknown id h = cc
same_present absent id h = cc
same_present incompatible id h = cc

-- What a log tells stays told in a later one.
unfoldable pub Keeps : List Event → List Event → Type 0
Keeps log later = (event : Event) → In event log → In event later

module _ (authority : Labels) where
  pub Seen-Keeps :
      (component : Component) (result : Observation) (log later : List Event)
      → Keeps log later
      → Seen authority component result log
      → Seen authority component result later
  unfolding Keeps
  Seen-Keeps component result log later keeps (reply, here, shows) = (reply, keeps _ here, shows)

  pub Each-Cleared :
      (components : List Component) (log later : List Event)
      → Keeps log later
      → Each (Cleared authority log) components
      → Each (Cleared authority later) components
  Each-Cleared [] log later keeps h = tt
  Each-Cleared (component ∷ rest) log later keeps (inl h, hs) =
      (inl (Seen-Keeps component absent log later keeps h), Each-Cleared rest log later keeps hs)
  Each-Cleared (component ∷ rest) log later keeps (inr (id, h), hs) = (
    inr (id, Seen-Keeps component (present id) log later keeps h),
    Each-Cleared rest log later keeps hs,
  )

  -- The deletions so far were lawful and of components before a place, and the inventory was clear.
  pub record Stands (n : ℕ) (log : List Event) : Type 0 where
    pub lawful : Lawful authority log
    pub cleared : Each (Cleared authority log) delete_order
    pub below : Each (Under n) log

  pub Stands-weaken : (n m : ℕ) (log : List Event) → n ≤ m → Stands n log → Stands m log
  Stands-weaken n m log le h = record {
    lawful = h.lawful;
    cleared = h.cleared;
    below = Each-weaken n m log le h.below;
  }

  -- One more read.
  pub Stands-read :
      (n : ℕ) (component : Component) (reply : Reply (Option Resource)) (log : List Event)
      → Stands n log
      → Stands n (read authority component reply ∷ log)
  unfolding Keeps
  Stands-read n component reply log h = record {
    lawful = (tt, h.lawful);
    cleared =
        Each-Cleared delete_order log (read authority component reply ∷ log) (λ _ here. inr here)
          h.cleared;
    below = (tt, h.below);
  }

  -- The deletion of what was just read again with the identity that the inventory gave.
  pub Stands-deleted :
      (n : ℕ) (component : Component) (id : String) (reply : Reply (Option Resource))
      (log : List Event)
      → n ≤ rank component
      → Stands n log
      → Seen authority component (present id) log
      → Admits authority component id reply
      → Stands (suc (rank component)) (
          deleted component (name_of authority component) id ∷ read authority component reply ∷ log)
  unfolding Keeps
  Stands-deleted n component id reply log le h seen admitted = record {
    lawful = (
      record {
        named = refl;
        earlier = log;
        last = reply;
        after_read = refl;
        admitted = admitted;
        inventoried = seen;
        cleared = h.cleared;
        in_order = Each-weaken n (rank component) log le h.below;
      },
      (tt, h.lawful),
    );
    cleared =
        Each-Cleared delete_order log
          (deleted component (name_of authority component) id
            ∷ read authority component reply
            ∷ log)
          (λ _ here. inr (inr here)) h.cleared;
    below =
        (omega arith, (tt, Each-weaken n (suc (rank component)) log (omega (arith, le)) h.below));
  }
