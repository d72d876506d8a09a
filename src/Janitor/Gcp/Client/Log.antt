-- ===== src/Janitor/Gcp/Client/Log.antt =====
-- The requests of a client, and rules for what holds after a step.
use deployment.Base.{
  ℕ, ◌≡◌, refl, String, Bool, true, false, List, ◌∷◌, Option, string_eq, option_eq, if◌then◌else◌,
}
use deployment.Janitor.Call.{Reply, gave, refused, escaped, Act, Ends, next, lift, refuse_if}
use deployment.Janitor.Gcp.Client.{Method, Document, Ports, read_payload, request}

-- A request and its answer.
pub record Event : Type 0 where
  pub method : Method
  pub path : String
  pub answer : Reply (Option (List ℕ))

abbrev pub requested : Method → String → Reply (Option (List ℕ)) → Event
requested method path answer = record { method = method; path = path; answer = answer }

abbrev logged :
    {World : Type 0}
    → Method
    → String
    → List Event
    → Reply (Option (List ℕ)) × World
    → Reply (Option (List ℕ)) × (World × List Event)
logged method path log (answer, w) = (answer, (w, requested method path answer ∷ log))

abbrev silent : {World A : Type 0} → List Event → Reply A × World → Reply A × (World × List Event)
silent log (reply, w) = (reply, (w, log))

-- Ports that keep a log of the requests, the newest first.
abbrev pub traced : {World : Type 0} → Ports World → Ports (World × List Event)
traced ports = record {
  fetch = λ method path (w, log). logged method path log (ports.fetch method path w);
  loads = ports.loads;
  sleep = λ (w, log). silent log (ports.sleep w);
}

-- The document that answered a request.
abbrev pub document_in : {World : Type 0} → Ports World → Event → Reply Document
document_in ports event = elim event.answer [
  | gave payload ↦ read_payload ports event.method payload
  | refused message ↦ refused message
  | escaped ↦ escaped
]

module _ {S B : Type 0} (Q : B → S → Type 0) (E : S → Type 0) where
  pub lift-next :
      {A : Type 0} (reply : Reply A) (s : S) (continue : A → Act S B)
      → E s
      → ((a : A) → reply ≡ gave a → Ends Q E (continue a s))
      → Ends Q E (next (lift reply s) continue)
  lift-next (gave a) s continue bad go_on = go_on a refl
  lift-next (refused message) s continue bad go_on = bad
  lift-next escaped s continue bad go_on = bad

  pub refuse_if-next :
      (test : Bool) (message : String) (s : S) (continue : Unit {0} → Act S B)
      → E s
      → (test ≡ false → Ends Q E (continue tt s))
      → Ends Q E (next (refuse_if test message s) continue)
  refuse_if-next true message s continue bad go_on = bad
  refuse_if-next false message s continue bad go_on = go_on refl

  pub if-Ends :
      (test : Bool) (m n : Act S B) (s : S)
      → (test ≡ true → Ends Q E (m s))
      → (test ≡ false → Ends Q E (n s))
      → Ends Q E ((if test then m else n) s)
  if-Ends true m n s right wrong = right refl
  if-Ends false m n s right wrong = wrong refl

module _ {World B : Type 0} (ports : Ports World) (Q : B → World × List Event → Type 0)
    (E : World × List Event → Type 0) where
  pub request-next :
      (method : Method) (path : String) (w : World) (log : List Event)
      (continue : Document → Act (World × List Event) B)
      → ((answer : Reply (Option (List ℕ))) (w' : World)
          → E (w', requested method path answer ∷ log))
      → ((answer : Reply (Option (List ℕ))) (w' : World) (document : Document)
          → document_in ports (requested method path answer) ≡ gave document
          → Ends Q E (continue document (w', requested method path answer ∷ log)))
      → Ends Q E (next (request (traced ports) method path (w, log)) continue)
  unfolding request
  request-next method path w log continue bad go_on = by_answer (ports.fetch method path w)
    where
      by_answer :
          (answer : Reply (Option (List ℕ)) × World)
          → Ends Q E (
              next
                (next
                  (logged method path log answer)
                  λ given. lift (read_payload (traced ports) method given))
                continue)
      by_answer (refused message, w') = bad (refused message) w'
      by_answer (escaped, w') = bad escaped w'
      by_answer (gave payload, w') =
          lift-next Q E (read_payload ports method payload)
            (w', requested method path (gave payload) ∷ log) continue (bad (gave payload) w')
            λ document e. go_on (gave payload) w' document e

  pub sleep-next :
      (w : World) (log : List Event) (continue : Unit {0} → Act (World × List Event) B)
      → ((w' : World) → E (w', log))
      → ((w' : World) → Ends Q E (continue tt (w', log)))
      → Ends Q E (next ((traced ports).sleep (w, log)) continue)
  sleep-next w log continue bad go_on = by_answer (ports.sleep w)
    where
      by_answer : (answer : Reply (Unit {0}) × World) → Ends Q E (next (silent log answer) continue)
      by_answer (gave _, w') = go_on w'
      by_answer (refused message, w') = bad w'
      by_answer (escaped, w') = bad w'
