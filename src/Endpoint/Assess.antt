-- ===== src/Endpoint/Assess.antt =====
-- scripts/endpoint_switch.py: `Outcome`, `Result`, `_committed` and `assess`.
pub mod Laws
use deployment.Base.{
  String, Bool, true, false, ◌&&◌, ◌||◌, Option, none, some, if◌then◌else◌, Arg, exact, other, ◌==◌,
  ◌/=◌, string_eq, option_eq, Eq,
}
use deployment.Endpoint.State.{RoutingState, SwitchPlan, endpoint_eq, routing_eq}
use deployment.Endpoint.Ports.{Mutation}

pub data Outcome : Type 0 where
  applied already_satisfied rejected uncertain recovery_required : Outcome

pub record Result : Type 0 where
  pub outcome : Outcome
  pub diagnostic : String
  pub observed : Option RoutingState

-- `Result(outcome, diagnostic)` and `Result(outcome, diagnostic, observed)`
abbrev pub ended : Outcome → String → Result
ended outcome diagnostic = record { outcome = outcome; diagnostic = diagnostic; observed = none }

abbrev pub ended_at : Outcome → String → RoutingState → Result
ended_at outcome diagnostic observed = record {
  outcome = outcome;
  diagnostic = diagnostic;
  observed = some observed;
}

unfoldable pub committed : SwitchPlan → RoutingState → Bool
committed request observed =
    observed.endpoint == request.before.endpoint
    && observed.target == request.target
    && observed.exposure_sha256 == request.before.exposure_sha256
    && observed.generation /= request.before.generation
    && observed.operation_id == some request.operation_id

-- `if type(mutation) is not Mutation: mutation = Mutation.UNKNOWN`
abbrev pub mutation_of : Arg Mutation → Mutation
mutation_of (exact mutation) = mutation
mutation_of other = Mutation.unknown

-- `mutation is Mutation.REJECTED`
abbrev is_rejected : Mutation → Bool
is_rejected Mutation.rejected = true
is_rejected _ = false

-- The tests of `assess` on a state within the boundary of the plan, in their order.
abbrev assess_state : SwitchPlan → Mutation → RoutingState → Result
assess_state request mutation observed =
    if is_rejected mutation && observed.operation_id == some request.operation_id
    then ended_at recovery_required "endpoint-contradictory-rejection" observed
    else if committed request observed
    then ended_at applied "endpoint-switch-verified" observed
    else if observed == request.before
    then (elim mutation [
      | Mutation.rejected ↦ ended_at rejected "endpoint-provider-precondition" observed
      | Mutation.unknown ↦ ended_at uncertain "endpoint-provider-outcome-unknown" observed
      | Mutation.applied ↦ ended_at recovery_required "endpoint-readback-mismatch" observed
    ])
    else if is_rejected mutation
    then ended_at rejected "endpoint-provider-precondition" observed
    else ended_at recovery_required "endpoint-readback-mismatch" observed

unfoldable pub assess : Arg SwitchPlan → Arg Mutation → Arg RoutingState → Result
assess other mutation observed = ended rejected "endpoint-plan-required"
assess (exact request) mutation other = ended recovery_required "endpoint-readback-boundary"
assess (exact request) mutation (exact observed) =
    if observed.endpoint /= request.before.endpoint
      || observed.exposure_sha256 /= request.before.exposure_sha256
    then ended recovery_required "endpoint-readback-boundary"
    else assess_state request (mutation_of mutation) observed
