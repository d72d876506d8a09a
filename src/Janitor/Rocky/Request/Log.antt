-- ===== src/Janitor/Rocky/Request/Log.antt =====
-- The requests of a deletion, and steps that make none.
use deployment.Base.{
  ◌≡◌, refl, String, Bool, true, false, List, [], ◌∷◌, string_eq, option_eq, if◌then◌else◌,
}
use deployment.Janitor.Call.{Reply, gave, refused, escaped, Act, Ends, next, lift, refuse_if}
use deployment.Janitor.Rocky.Request.{named, Operation, Ports, is_deletion}

-- A request that changes or reads an operation, and its answer.
pub data Event : Type 0 where
  deleted : String → Reply Operation → Event
  polled : String → Reply Operation → Event

abbrev pub logged :
    {World A : Type 0}
    → (Reply A → Event)
    → List Event
    → Reply A × World
    → Reply A × (World × List Event)
logged event log (reply, w) = (reply, (w, event reply ∷ log))

abbrev pub silent :
    {World A : Type 0} → List Event → Reply A × World → Reply A × (World × List Event)
silent log (reply, w) = (reply, (w, log))

-- Ports that keep a log of the requests of an operation, the newest first.
abbrev pub traced : {World : Type 0} → Ports World → Ports (World × List Event)
traced ports = record {
  get_page = λ component token (w, log). silent log (ports.get_page component token w);
  delete = λ path deadline (w, log). logged (deleted path) log (ports.delete path deadline w);
  get_operation =
      λ path deadline (w, log). logged (polled path) log (ports.get_operation path deadline w);
  monotonic = λ (w, log). silent log (ports.monotonic w);
  sleep = λ time (w, log). silent log (ports.sleep time w);
}

-- The operation that an event answered.
abbrev pub answer_of : Event → Reply Operation
answer_of (deleted _ answer) = answer
answer_of (polled _ answer) = answer

-- The requests are one DELETE of the path of the resource and then polls.
abbrev pub Polls : String → List Event → Type 0
Polls path [] = ⊥
Polls path (deleted given _ ∷ log) = (given ≡ path) × (log ≡ [])
Polls path (polled _ _ ∷ log) = Polls path log

-- The last answer is a finished deletion of exactly the resource with this identity.
pub record Confirmed (path id : String) (log : List Event) : Type 0 where
  pub event : Event
  pub earlier : List Event
  pub operation : Operation
  pub newest : log ≡ event ∷ earlier
  pub answered : answer_of event ≡ gave operation
  pub of_resource : is_deletion operation path id ≡ true
  pub finished : operation.status ≡ named "DONE"
  pub clean : operation.error ≡ false

pub if-Ends :
    {S A : Type 0} (Q : A → S → Type 0) (E : S → Type 0) (test : Bool) (m n : Act S A) (s : S)
    → (test ≡ true → Ends Q E (m s))
    → (test ≡ false → Ends Q E (n s))
    → Ends Q E ((if test then m else n) s)
if-Ends Q E true m n s right wrong = right refl
if-Ends Q E false m n s right wrong = wrong refl

-- Steps that leave the log as it is.
module _ {World : Type 0} (log : List Event) where
  unfoldable pub Quiet : {A : Type 0} → (A → Type 0) → Reply A × (World × List Event) → Type 0
  Quiet Fact reply = Ends (λ a s. (s.1 ≡ log) × Fact a) (λ s. s.1 ≡ log) reply

  pub silent-Quiet :
      {A : Type 0} (reply : Reply A × World) (now : List Event)
      → now ≡ log
      → Quiet (λ _. Unit {0}) (silent now reply)
  unfolding Quiet
  silent-Quiet (gave a, w) now e = (e, tt)
  silent-Quiet (refused message, w) now e = e
  silent-Quiet (escaped, w) now e = e

  pub refuse_if-Quiet :
      (test : Bool) (message : String) (s : World × List Event)
      → s.1 ≡ log
      → Quiet (λ _. test ≡ false) (refuse_if test message s)
  unfolding Quiet
  refuse_if-Quiet true message s e = e
  refuse_if-Quiet false message s e = (e, refl)

  pub lift-Quiet :
      {A : Type 0} (reply : Reply A) (s : World × List Event)
      → s.1 ≡ log
      → Quiet (λ a. reply ≡ gave a) (lift reply s)
  unfolding Quiet
  lift-Quiet (gave a) s e = (e, refl)
  lift-Quiet (refused message) s e = e
  lift-Quiet escaped s e = e

  module _ {B : Type 0} (Q : B → World × List Event → Type 0) (E : World × List Event → Type 0)
      (bad : (s : World × List Event) → s.1 ≡ log → E s) where
    pub after :
        {A : Type 0} (Fact : A → Type 0) (reply : Reply A × (World × List Event))
        (continue : A → Act (World × List Event) B)
        → Quiet Fact reply
        → ((a : A) (s : World × List Event) → s.1 ≡ log → Fact a → Ends Q E (continue a s))
        → Ends Q E (next reply continue)
    unfolding Quiet
    after Fact (gave a, s) continue (e, fact) go_on = go_on a s e fact
    after Fact (refused message, s) continue h go_on = bad s h
    after Fact (escaped, s) continue h go_on = bad s h
