-- ===== src/Janitor/Rocky/Turn.antt =====
-- One turn of the loop of `cleanup_run` over any client.
use deployment.Base.{
  ℕ, ◌≤◌, ◌≡◌, refl, sym, inr, arith, suc, String, Bool, true, false, not, List, ◌∷◌, Option,
  string_eq,
}
use mathlib.Core.Path.{subst}
use deployment.Janitor.Call.{
  Reply, gave, refused, escaped, Act, Ends, next-Ends, Ends-weaken, refuse_if, ◌>>=◌, ◌>>◌,
}
use deployment.Janitor.Rocky.Contract.{Component, Resource, Labels, name_of}
use deployment.Janitor.Rocky.Observe.{
  Client, Observation, unknown, absent, incompatible, present, observe_exact, remove,
  delete_if_same, same_observation, deletion, delete_observed,
}
use deployment.Janitor.Rocky.Trace.{Event, deleted, traced, rank, Admits, Shows, read, Seen, Lawful}
use deployment.Janitor.Rocky.Survey.{Read, ReadOnly, observe_exact-Ends}
use deployment.Janitor.Rocky.Justify.{
  same_present, Keeps, Stands, Stands-weaken, Stands-read, Stands-deleted,
}

module _ {World : Type 0} (client : Client World) (authority : Labels) where
  -- What a turn of the loop leaves.
  unfoldable pub Turned : ℕ → List Event → World × List Event → Type 0
  Turned n log s = Stands authority n s.1 × Keeps log s.1

  unfoldable pub Broken : World × List Event → Type 0
  Broken s = Lawful authority s.1

  delete_observed-Ends :
      (n : ℕ) (component : Component) (id : String) (reply : Reply (Option Resource)) (w : World)
      (log : List Event)
      → n ≤ rank component
      → Stands authority n log
      → Seen authority component (present id) log
      → Admits authority component id reply
      → Ends
          (λ _. Turned (suc (rank component)) log)
          Broken
          (delete_observed
            (traced client)
            authority
            component
            (present id)
            (w, read authority component reply ∷ log))
  unfolding Turned Broken Keeps
  delete_observed-Ends n component id reply w log le h seen admitted =
      of_reply (client.delete_component component (name_of authority component) id w)
    where
      after : Stands authority (suc (rank component)) (
          deleted component (name_of authority component) id ∷ read authority component reply ∷ log)
      after = Stands-deleted authority n component id reply log le h seen admitted

      of_reply :
          (answer : Reply (Unit {0}) × World)
          → Ends
              (λ _. Turned (suc (rank component)) log)
              Broken
              (deletion component (
                answer.0,
                (
                  answer.1,
                  deleted component (name_of authority component) id
                      ∷ read authority component reply
                      ∷ log,
                ),
              ))
      of_reply (gave _, w) = (after, λ _ here. inr (inr here))
      of_reply (refused message, w) = after.lawful
      of_reply (escaped, w) = after.lawful

  refuse_unless-Ends :
      (test : Bool) (message : String) (n : ℕ) (log : List Event)
      (continue : Act (World × List Event) (Unit {0})) (s : World × List Event)
      → Broken s
      → (test ≡ true → Ends (λ _. Turned n log) Broken (continue s))
      → Ends (λ _. Turned n log) Broken ((refuse_if (not test) message >> continue) s)
  refuse_unless-Ends true message n log continue s bad go_on = go_on refl
  refuse_unless-Ends false message n log continue s bad go_on = bad

  -- The rest of a turn after the second read.
  delete_if_same-Ends :
      (n : ℕ) (component : Component) (result current : Observation)
      (reply : Reply (Option Resource)) (w : World) (log : List Event)
      → n ≤ rank component
      → Stands authority n log
      → Seen authority component result log
      → Shows authority component current reply
      → Ends
          (λ _. Turned (suc (rank component)) log)
          Broken
          (delete_if_same
            (traced client)
            authority
            component
            result
            current
            (w, read authority component reply ∷ log))
  unfolding Turned Broken Keeps
  delete_if_same-Ends n component result current reply w log le h seen shows =
      by_current current shows
    where
      stands : Stands authority n (read authority component reply ∷ log)
      stands = Stands-read authority n component reply log h

      by_result :
          (current : Observation)
          → Shows authority component current reply
          → (result : Observation) → Seen authority component result log
          → same_observation current result ≡ true
          → Ends
              (λ _. Turned (suc (rank component)) log)
              Broken
              (delete_observed
                (traced client)
                authority
                component
                result
                (w, read authority component reply ∷ log))
      by_result current shows (present id) seen same =
          delete_observed-Ends n component id reply w log le h seen
            (subst (λ o. Shows authority component o reply) (same_present current id same) shows)
      by_result current shows unknown seen same = stands.lawful
      by_result current shows absent seen same = stands.lawful
      by_result current shows incompatible seen same = stands.lawful

      by_current :
          (current : Observation)
          → Shows authority component current reply
          → Ends
              (λ _. Turned (suc (rank component)) log)
              Broken
              (delete_if_same
                (traced client)
                authority
                component
                result
                current
                (w, read authority component reply ∷ log))
      by_current absent shows = (
        Stands-weaken authority n (suc (rank component)) _ (omega (arith, le)) stands,
        λ _ here. inr here,
      )
      by_current unknown shows =
          refuse_unless-Ends (same_observation unknown result) _ _ log _ _ stands.lawful
            (by_result unknown shows result seen)
      by_current incompatible shows =
          refuse_unless-Ends (same_observation incompatible result) _ _ log _ _ stands.lawful
            (by_result incompatible shows result seen)
      by_current (present id) shows =
          refuse_unless-Ends (same_observation (present id) result) _ _ log _ _ stands.lawful
            (by_result (present id) shows result seen)

  pub remove-Ends :
      (n : ℕ) (component : Component) (result : Observation) (s : World × List Event)
      → n ≤ rank component
      → Stands authority n s.1
      → Seen authority component result s.1
      → Ends
          (λ _. Turned (suc (rank component)) s.1)
          Broken
          (remove (traced client) authority component result s)
  unfolding remove Turned Broken Keeps
  remove-Ends n component result (w, log) le h seen = by_result result seen
    where
      looked :
          (result : Observation)
          → Seen authority component result log
          → Ends
              (λ _. Turned (suc (rank component)) log)
              Broken
              ((observe_exact (traced client) authority component
                  >>= delete_if_same (traced client) authority component result)
                (w, log))
      looked result seen =
          next-Ends (Read client authority log component) (λ _. Turned (suc (rank component)) log)
            Broken (observe_exact (traced client) authority component (w, log))
            (delete_if_same (traced client) authority component result)
            (Ends-weaken (Read client authority log component) (Read client authority log component)
              (ReadOnly client authority log component) Broken
              (observe_exact (traced client) authority component (w, log)) (λ _ _ h. h)
              (λ s (reply, e). rw e (tt, h.lawful))
              (observe_exact-Ends client authority component (w, log)))
            λ current (w2, log2) (reply, e, shows).
              subst
                (λ l.
                  Ends (λ _. Turned (suc (rank component)) log) Broken
                    (delete_if_same (traced client) authority component result current (w2, l)))
                (sym e)
                (delete_if_same-Ends n component result current reply w2 log le h seen shows)

      by_result :
          (result : Observation)
          → Seen authority component result log
          → Ends
              (λ _. Turned (suc (rank component)) log)
              Broken
              (remove (traced client) authority component result (w, log))
      by_result absent seen = (
        Stands-weaken authority n (suc (rank component)) log (omega (arith, le)) h,
        λ _ here. here,
      )
      by_result unknown seen = looked unknown seen
      by_result incompatible seen = looked incompatible seen
      by_result (present id) seen = looked (present id) seen
