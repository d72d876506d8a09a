-- ===== src/Endpoint/Trace.antt =====
-- The calls that `execute` makes, in order: ports that write every call and its answer into a log.
pub mod Once
use mathlib.Core.Logic.{if_pos, if_neg}
use deployment.Base.{
  ℕ, ◌+◌, ◌≤◌, ◌≡◌, ◌⊎◌, inl, inr, refl, ap, ◌∙◌, String, Bool, true, false, Option, none, some,
  List, [], ◌∷◌, ◌++◌, arith, Arg, exact, other, if◌then◌else◌, Bool-cases,
}
use deployment.Endpoint.State.{
  Endpoint, RoutingState, SwitchPlan, Endpoint-discrete, RoutingState-discrete,
}
use deployment.Endpoint.Ports.{Ports, Mutation, Attempt, returned, raised}
use deployment.Endpoint.Assess.{Outcome, Result, applied, already_satisfied, rejected}
use deployment.Endpoint.Assess.Laws.{Committed, committed_iff}
use deployment.Endpoint.Assess.{committed}
use deployment.Endpoint.Switch.{
  execute, reconcile, dispatch, resolve, proceed, admit_observation, seen, validated, authorized,
}

pub data Call : Type 0 where
  observe : Endpoint → Attempt (Arg RoutingState) → Call
  validate : Attempt (Unit {0}) → Call
  switch : SwitchPlan → Attempt (Arg Mutation) → Call
  authorize : Attempt (Unit {0}) → Call
  claim : Attempt (Arg Bool) → Call

-- A world with the calls made in it, the latest first.
abbrev pub Logged : Ports → Type 0
Logged P = P.World × List Call

abbrev logging : {W A : Type 0} → (A → Call) → (W → A × W) → W × List Call → A × (W × List Call)
logging call act (w, log) = let (a, w') = act w in (a, (w', call a ∷ log))

abbrev pub traced : Ports → Ports
traced P = record {
  World = Logged P;
  observe = λ e. logging (observe e) (P.observe e);
  validate = λ r. logging validate (P.validate r);
  compare_and_switch = λ r. logging (switch r) (P.compare_and_switch r);
  authorize = λ r. logging authorize (P.authorize r);
  claim_dispatch = λ r. logging claim (P.claim_dispatch r);
}

-- The log of the only way to a switch, the latest call first: a look at what came of it, the switch,
-- a claim that is granted, a look that shows exactly the state before, and both admissions.
abbrev pub Dispatched : SwitchPlan → List Call → Type 0
Dispatched request log =
    (m : Attempt (Arg Mutation)) × (found : Attempt (Arg RoutingState)) × (log
      ≡ observe request.before.endpoint found
        ∷ switch request m
        ∷ claim (returned (exact true))
        ∷ observe request.before.endpoint (returned (exact request.before))
        ∷ validate (returned tt)
        ∷ authorize (returned tt)
        ∷ [])

abbrev pub NoSwitch : List Call → Type 0
NoSwitch [] = Unit
NoSwitch (switch _ _ ∷ _) = ⊥
NoSwitch (observe _ _ ∷ log) = NoSwitch log
NoSwitch (validate _ ∷ log) = NoSwitch log
NoSwitch (authorize _ ∷ log) = NoSwitch log
NoSwitch (claim _ ∷ log) = NoSwitch log

module _ (P : Ports) (request : SwitchPlan) where
  reconcile-NoSwitch_from :
      (w : P.World) (log : List Call)
      → NoSwitch log
      → NoSwitch (reconcile (traced P) (exact request) (w, log)).1.1
  unfolding reconcile
  reconcile-NoSwitch_from w log h = ground arith

  dispatch-log :
      (w : P.World) (log : List Call)
      → (m : Attempt (Arg Mutation)) × (found : Attempt (Arg RoutingState)) × ((dispatch
            (traced P)
            request
            (w, log)).1.1
          ≡ observe request.before.endpoint found ∷ switch request m ∷ log)
  unfolding dispatch
  dispatch-log w log = (_, _, refl)

  -- What `execute` adds to a log that ends in its claim.
  Attempted : List Call → List Call → Type 0
  Attempted log after =
      NoSwitch after
      ⊎ ((m : Attempt (Arg Mutation)) × (found : Attempt (Arg RoutingState)) × (after
            ≡ observe request.before.endpoint found
              ∷ switch request m
              ∷ claim (returned (exact true))
              ∷ log))

  resolve-log :
      (answer : Attempt (Arg Bool)) (w : P.World) (log : List Call)
      → NoSwitch log
      → Attempted log (resolve (traced P) request answer (w, claim answer ∷ log)).1.1
  unfolding resolve Attempted
  resolve-log raised w log h = inl h
  resolve-log (returned other) w log h = inl h
  resolve-log (returned (exact false)) w log h = inl (reconcile-NoSwitch_from w _ h)
  resolve-log (returned (exact true)) w log h = inr (dispatch-log w _)

  proceed-log :
      (current : RoutingState) (w : P.World) (log : List Call)
      → NoSwitch log
      → let look = observe request.before.endpoint (returned (exact current)) in
        let after = (proceed (traced P) request (seen current) (w, look ∷ log)).1.1 in
        NoSwitch after ⊎ ((current ≡ request.before) × Attempted (look ∷ log) after)
  unfolding proceed
  proceed-log current w log h = elim (Bool-cases (committed request current)) [
    | inl done ↦ rw (done) (inl h)
    | inr open_still ↦ elim (RoutingState-discrete current request.before) [
      | no stale ↦ rw (open_still, if_neg _ stale) (inl h)
      | yes fresh ↦
          rw (open_still, if_pos _ fresh)
            (inr (fresh, resolve-log (P.claim_dispatch request w).0 _ _ h))
    ]
  ]

  -- `execute` from its first look on.
  look-log :
      (answer : Attempt (Arg RoutingState)) (w : P.World) (log : List Call)
      → NoSwitch log
      → let look = observe request.before.endpoint answer in
        let after =
          (proceed
            (traced P)
            request
            (admit_observation request.before.endpoint answer)
            (w, look ∷ log)).1.1 in
        NoSwitch after ⊎ ((answer ≡ returned (exact request.before)) × Attempted (look ∷ log) after)
  unfolding proceed
  look-log raised w log h = inl h
  look-log (returned other) w log h = inl h
  look-log (returned (exact current)) w log h =
      elim (Endpoint-discrete current.endpoint request.before.endpoint) [
        | no elsewhere ↦ rw (if_neg _ elsewhere) (inl h)
        | yes here ↦ rw (if_pos _ here) (elim (proceed-log current w log h) [
          | inl quiet ↦ inl quiet
          | inr (fresh, tried) ↦ inr (ap (λ c. returned (exact c)) fresh, tried)
        ])
      ]

  validated-log :
      (candidate : Attempt (Unit {0})) (w : P.World)
      → let log = validate candidate ∷ authorize (returned tt) ∷ [] in
        let after = (validated (traced P) request candidate (w, log)).1.1 in
        NoSwitch after ⊎ Dispatched request after
  unfolding validated Attempted
  validated-log raised w = inl tt
  validated-log (returned u) w =
      elim (look-log (P.observe request.before.endpoint w).0 (P.observe request.before.endpoint w).1
        _ tt) [
          | inl quiet ↦ inl quiet
          | inr (fresh, inl quiet) ↦ inl quiet
          | inr (fresh, inr (m, found, log)) ↦ inr (m, found, log ∙ rw fresh)
        ]

  authorized-log :
      (admission : Attempt (Unit {0})) (w : P.World)
      → let after = (authorized (traced P) request admission (w, authorize admission ∷ [])).1.1 in
        NoSwitch after ⊎ Dispatched request after
  unfolding authorized
  authorized-log raised w = inl tt
  authorized-log (returned u) w = validated-log (P.validate request w).0 (P.validate request w).1

-- Over any ports, `execute` switches the routing at most once, and only after the authority and the
-- adapter have admitted the plan, a look has shown exactly the state before, and the claim of the
-- dispatch was granted; one look at the endpoint follows.
pub execute-log :
    (P : Ports) (request : SwitchPlan) (w : P.World)
    → let log = (execute (traced P) (exact request) (w, [])).1.1 in
      NoSwitch log ⊎ Dispatched request log
unfolding execute
execute-log P request w =
    authorized-log P request (P.authorize request w).0 (P.authorize request w).1
