-- ===== src/Endpoint/Switch.antt =====
-- scripts/endpoint_switch.py: `inspect`, `reconcile` and `execute`, over any ports.
use deployment.Base.{String, Bool, true, false, if◌then◌else◌, Arg, exact, other, ◌/=◌}
use deployment.Endpoint.State.{Endpoint, RoutingState, SwitchPlan, endpoint_eq, routing_eq}
use deployment.Endpoint.Ports.{Ports, Mutation, Attempt, returned, raised, Act, pure, ◌>>=◌}
use deployment.Endpoint.Assess.{
  Result, applied, already_satisfied, rejected, uncertain, recovery_required, ended, ended_at,
  committed, assess,
}

-- How `inspect` ends: a state, `ObservationUnavailable`, or a `ContractError`.
pub data Inspection : Type 0 where
  seen : RoutingState → Inspection
  unavailable : Inspection
  refused : String → Inspection

-- The admission of an observer's answer.
abbrev pub admit_observation : Endpoint → Attempt (Arg RoutingState) → Inspection
admit_observation endpoint raised = unavailable
admit_observation endpoint (returned other) = refused "observe-endpoint-scope-mismatch"
admit_observation endpoint (returned (exact observed)) =
    if observed.endpoint /= endpoint
    then refused "observe-endpoint-scope-mismatch"
    else seen observed

-- A `Result` that says `applied` is reported as satisfied already.
abbrev pub satisfied_already : RoutingState → Result → Result
satisfied_already observed result = elim result.outcome [
  | applied ↦ ended_at already_satisfied "endpoint-existing-switch-verified" observed
  | _ ↦ result
]

-- The end of `reconcile`, on what its inspection gives.
abbrev pub conclude : SwitchPlan → Inspection → Result
conclude request unavailable = ended uncertain "endpoint-reconcile-unavailable"
conclude request (refused _) = ended recovery_required "endpoint-reconcile-scope"
conclude request (seen observed) =
    satisfied_already observed (assess (exact request) (exact Mutation.unknown) (exact observed))

-- The mutation that a call of the adapter reports, `unknown` after an exception.
abbrev pub reported : Attempt (Arg Mutation) → Arg Mutation
reported (returned mutation) = mutation
reported raised = exact Mutation.unknown

-- The end of `execute` after a dispatch, on what its last inspection gives.
abbrev pub verify : SwitchPlan → Arg Mutation → Inspection → Result
verify request mutation unavailable = ended uncertain "endpoint-verify-unavailable"
verify request mutation (refused _) = ended recovery_required "endpoint-verify-scope"
verify request mutation (seen observed) = assess (exact request) mutation (exact observed)

module _ (P : Ports) where
  open P use {World, observe, validate, compare_and_switch, authorize, claim_dispatch}

  unfoldable pub inspect : Arg Endpoint → Act World Inspection
  inspect other = pure (refused "endpoint-scope-required")
  inspect (exact endpoint) = do answer ← observe endpoint; pure (admit_observation endpoint answer)

  -- `reconcile` on the answer of `authority.authorize`.
  unfoldable pub reauthorized : SwitchPlan → Attempt (Unit {0}) → Act World Result
  unfolding inspect
  reauthorized request raised = pure (ended rejected "endpoint-cutover-admission")
  reauthorized request (returned _) = do
    inspection ← inspect (exact request.before.endpoint)
    pure (conclude request inspection)

  unfoldable pub reconcile : Arg SwitchPlan → Act World Result
  unfolding reauthorized
  reconcile other = pure (ended rejected "endpoint-plan-required")
  reconcile (exact request) = do admission ← authorize request; reauthorized request admission

  -- `execute` from the dispatch on.
  unfoldable pub dispatch : SwitchPlan → Act World Result
  unfolding inspect
  dispatch request = do
    answer ← compare_and_switch request
    inspection ← inspect (exact request.before.endpoint)
    pure (verify request (reported answer) inspection)

  -- `execute` on the answer to its claim.
  unfoldable pub resolve : SwitchPlan → Attempt (Arg Bool) → Act World Result
  unfolding dispatch reconcile
  resolve request raised = pure (ended uncertain "endpoint-dispatch-claim-unknown")
  resolve request (returned other) = pure (ended uncertain "endpoint-dispatch-claim-unknown")
  resolve request (returned (exact false)) = reconcile (exact request)
  resolve request (returned (exact true)) = dispatch request

  -- `execute` from the claim on.
  unfoldable pub claim : SwitchPlan → Act World Result
  unfolding resolve
  claim request = do answer ← claim_dispatch request; resolve request answer

  -- `execute` on what its first inspection gives.
  unfoldable pub proceed : SwitchPlan → Inspection → Act World Result
  unfolding claim
  proceed request unavailable = pure (ended uncertain "endpoint-inspect-unavailable")
  proceed request (refused _) = pure (ended rejected "endpoint-inspect-scope")
  proceed request (seen current) =
      if committed request current
      then pure (ended_at already_satisfied "endpoint-existing-switch-verified" current)
      else if current /= request.before
      then pure (ended_at rejected "endpoint-stale-precondition" current)
      else claim request

  -- `execute` on the answer of `adapter.validate`.
  unfoldable pub validated : SwitchPlan → Attempt (Unit {0}) → Act World Result
  unfolding inspect proceed
  validated request raised = pure (ended rejected "endpoint-candidate-admission")
  validated request (returned _) = do
    inspection ← inspect (exact request.before.endpoint)
    proceed request inspection

  -- `execute` on the answer of `authority.authorize`.
  unfoldable pub authorized : SwitchPlan → Attempt (Unit {0}) → Act World Result
  unfolding validated
  authorized request raised = pure (ended rejected "endpoint-cutover-admission")
  authorized request (returned _) = do candidate ← validate request; validated request candidate

  unfoldable pub execute : Arg SwitchPlan → Act World Result
  unfolding authorized
  execute other = pure (ended rejected "endpoint-plan-required")
  execute (exact request) = do admission ← authorize request; authorized request admission
