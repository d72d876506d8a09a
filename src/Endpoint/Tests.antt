-- ===== src/Endpoint/Tests.antt =====
-- A provider in memory whose ports keep their contracts, the theorems at concrete plans, and runs.
use deployment.Base.{
  ◌≤◌, ◌≡◌, ◌≢◌, ◌⊎◌, inl, inr, ◌↔◌, refl, ◌∙◌, sym, String, Bool, true, false, not, ◌&&◌, ◌||◌,
  none, some, List, [], ◌∷◌, if◌then◌else◌, arith, Arg, exact, other, ◌==◌, ◌/=◌, string_eq,
  option_eq,
}
use deployment.Endpoint.State.{Endpoint, RoutingState, SwitchPlan, switch, endpoint_eq, routing_eq}
use deployment.Endpoint.Ports.{Ports, Mutation, Attempt, returned, raised}
use deployment.Endpoint.Assess.{applied, ended_at, uncertain, already_satisfied, committed, assess}
use deployment.Endpoint.Assess.Laws.{Committed, Justified, assess_iff}
use deployment.Endpoint.Switch.{execute}
use deployment.Endpoint.Trace.{traced, NoSwitch, Dispatched, execute-log}
use deployment.Endpoint.Trace.Once.{ClaimsOnce, switches, execute_all, switches-execute_all}
use deployment.Endpoint.Provider.{IsLawful, Honest, execute-Honest}
use deployment.Samples.{digest_a, target_at_version}

record Memory : Type 0 where
  routing : RoutingState
  claims : List String

abbrev member : String → List String → Bool
member k [] = false
member k (j ∷ js) = k == j || member k js

-- The state that a plan leads to.
abbrev after : SwitchPlan → RoutingState
after r = record {
  endpoint = r.before.endpoint;
  generation = "next";
  target = r.target;
  exposure_sha256 = r.before.exposure_sha256;
  operation_id = some r.operation_id;
}

abbrev may_switch : SwitchPlan → Memory → Bool
may_switch r w = w.routing == r.before && r.before.generation /= "next"

abbrev switched : Bool → SwitchPlan → Memory → Attempt (Arg Mutation) × Memory
switched true r w = (returned (exact Mutation.applied), record w { routing = after r })
switched false r w = (returned (exact Mutation.rejected), w)

abbrev memory : Ports
memory = record {
  World = Memory;
  observe = λ e w. (if e == w.routing.endpoint then returned (exact w.routing) else raised, w);
  validate = λ r w. (returned tt, w);
  compare_and_switch = λ r w. switched (may_switch r w) r w;
  authorize = λ r w. (returned tt, w);
  claim_dispatch = λ r w. (
    returned (exact (not (member r.operation_id w.claims))),
    record w { claims = r.operation_id ∷ w.claims },
  );
}

-- The routing of an endpoint that the memory does not hold.
abbrev unrouted : Endpoint → RoutingState
unrouted e = record {
  endpoint = e;
  generation = "none";
  target = "none";
  exposure_sha256 = digest_a;
  operation_id = none;
}

abbrev routed : Memory → Endpoint → RoutingState
routed w e = if e == w.routing.endpoint then w.routing else unrouted e

routed_here : (w : Memory) (e : Endpoint) → e ≡ w.routing.endpoint → routed w e ≡ w.routing
routed_here w e h = ground arith

routed_there : (w : Memory) (e : Endpoint) → e ≢ w.routing.endpoint → routed w e ≡ unrouted e
routed_there w e h = ground arith

switched-rejects :
    (b : Bool) (r : SwitchPlan) (w : Memory)
    → (switched b r w).0 ≡ returned (exact Mutation.rejected)
    → routed (switched b r w).1 ≡ routed w
switched-rejects true r w h = absurd (ground arith)
switched-rejects false r w h = refl

switched-switches :
    (b : Bool) (r : SwitchPlan) (w : Memory)
    → may_switch r w ≡ b
    → (routed (switched b r w).1 ≡ routed w)
      ⊎ ((routed w r.before.endpoint ≡ r.before)
          × Committed r (routed (switched b r w).1 r.before.endpoint)
          × ((e : Endpoint) → e ≢ r.before.endpoint → routed (switched b r w).1 e ≡ routed w e))
switched-switches false r w h = inl refl
switched-switches true r w h =
    let same : w.routing ≡ r.before = ground arith in
    let new : r.before.generation ≢ "next" = λ n. ground arith in
    let landed = routed_here (switched true r w).1 r.before.endpoint refl in
    let at_home : r.before.endpoint ≡ w.routing.endpoint = cc in
    inr (
      routed_here w r.before.endpoint at_home ∙ same,
      rw landed (record {
        within = record { endpoint = refl; exposure = refl };
        target = refl;
        generation = λ n. new (sym n);
        operation = refl;
      }),
      λ e ne.
          routed_there (switched true r w).1 e ne
          ∙ sym (routed_there w e (λ h'. ne (h' ∙ sym at_home))),
    )

memory-IsLawful : IsLawful memory
memory-IsLawful = record {
  route = routed;
  reads = λ e w s h. ground arith;
  observe_keeps = λ e w. refl;
  validate_keeps = λ r w. refl;
  authorize_keeps = λ r w. refl;
  claim_keeps = λ r w. refl;
  rejects = λ r w. switched-rejects (may_switch r w) r w;
  switches = λ r w. switched-switches (may_switch r w) r w refl;
}

memory-ClaimsOnce : ClaimsOnce memory
memory-ClaimsOnce = record {
  claimed = λ w k. member k w.claims;
  grants = λ r w h. ground arith;
  keeps_observe = λ k e w h. ground arith;
  keeps_validate = λ k r w h. h;
  keeps_switch = λ k r w h. ground arith;
  keeps_authorize = λ k r w h. h;
  keeps_claim = λ k r w h. ground arith;
}

abbrev home : Endpoint
home = record { deployment_id = "deployment"; resource = target_at_version none }

abbrev start : RoutingState
start = record {
  endpoint = home;
  generation = "g1";
  target = "blue";
  exposure_sha256 = digest_a;
  operation_id = none;
}

abbrev to_green : SwitchPlan
to_green = record {
  version = 1;
  operation_id = "op-1";
  before = start;
  target = "green";
  intent = switch;
}

abbrev idle : Memory
idle = record { routing = start; claims = [] }

switch_runs :
    (execute memory (exact to_green) idle).0
    ≡ ended_at applied "endpoint-switch-verified" (after to_green)
unfolding execute assess committed endpoint_eq routing_eq string_eq option_eq
switch_runs = refl

-- A second execution finds the switch made.
switch_again :
    (execute memory (exact to_green) (execute memory (exact to_green) idle).1).0
    ≡ ended_at already_satisfied "endpoint-existing-switch-verified" (after to_green)
unfolding execute assess committed endpoint_eq routing_eq string_eq option_eq
switch_again = refl

execute-Honest_example :
    Honest memory memory-IsLawful to_green idle (execute memory (exact to_green) idle)
execute-Honest_example = execute-Honest memory memory-IsLawful to_green idle

execute-log_example :
    let log = (execute (traced memory) (exact to_green) (idle, [])).1.1 in
    NoSwitch log ⊎ Dispatched to_green log
execute-log_example = execute-log memory to_green idle

switches-execute_all_example :
    switches "op-1" (execute_all memory (to_green ∷ to_green ∷ []) (idle, [])).1 ≤ 1
switches-execute_all_example =
    switches-execute_all memory memory-ClaimsOnce "op-1" (to_green ∷ to_green ∷ []) idle

assess_iff_example :
    ((assess (exact to_green) other (exact start)).outcome ≡ uncertain)
    ↔ Justified to_green Mutation.unknown start uncertain
assess_iff_example = assess_iff to_green other start uncertain
