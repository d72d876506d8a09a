-- ===== src/Firewall/Observe.antt =====
-- scripts/provider-firewall-contract.py: `_same_resource` and `_admit_observation`.
use deployment.Base.{
  Bool, true, false, not, ◌&&◌, Option, none, some, Arg, exact, Result, ok, raise_if, require,
  ◌>>=◌, ◌>>◌, ◌==◌, ◌/=◌, string_eq, option_eq,
}
use deployment.Base.Runtime.{Runtime}
use deployment.Capability.Target.{inspect, ResourceTarget, operation_eq}
use deployment.Capability.Request.{ExecutionAuthority, CapabilityRequest}
use deployment.Capability.Outcome.{observed, outcome_eq}
use deployment.Capability.Admit.{admit_request, admit_result}
use deployment.Firewall.Types.{
  ObservationPhase, current, post_mutation, post_rollback, FirewallObservation,
}
use deployment.Firewall.Documents.{inspection_parameters_sha256}

abbrev pub same_phase : ObservationPhase → ObservationPhase → Bool
same_phase current current = true
same_phase post_mutation post_mutation = true
same_phase post_rollback post_rollback = true
same_phase _ _ = false

-- `_same_resource`: all but the expected version.
abbrev pub same_resource : ResourceTarget → ResourceTarget → Bool
same_resource left right =
    left.provider == right.provider
    && left.scope == right.scope
    && left.requested_key == right.requested_key
    && left.provider_resource_id == right.provider_resource_id

abbrev pub elsewhere : Option ResourceTarget → ResourceTarget → Bool
elsewhere none target = false
elsewhere (some expected) target = not (same_resource target expected)

module _ (R : Runtime) where
  -- `_admit_observation`, which gives the observation with its type.
  unfoldable pub admit_observation :
      Arg FirewallObservation
      → Arg ExecutionAuthority
      → ObservationPhase
      → Option ResourceTarget
      → Option (Arg CapabilityRequest)
      → Result FirewallObservation
  admit_observation given authority_given phase expected_target predecessor = do
    observation ← require given "provider observation and #169 authority are required"
    authority ← require authority_given "provider observation and #169 authority are required"
    raise_if (not (same_phase observation.phase phase))
        "provider observation is from the wrong lifecycle phase"
    parameters ←
        inspection_parameters_sha256 R (exact observation.request.target) (exact phase)
          (exact observation.supported_operations) predecessor
    raise_if (observation.request.parameters_sha256 /= parameters)
        "inspection parameters do not bind the firewall read"
    admit_request (exact observation.request) (exact authority)
        (exact observation.supported_operations)
    admit_result (exact observation.request) (exact observation.result)
    raise_if (observation.request.operation /= inspect)
        "provider observation is not an INSPECT operation"
    raise_if (observation.result.outcome /= observed)
        "provider observation requires an OBSERVED result"
    raise_if (elsewhere expected_target observation.request.target)
        "provider observation target mismatch"
    ok observation
