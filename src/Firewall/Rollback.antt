-- ===== src/Firewall/Rollback.antt =====
-- scripts/provider-firewall-contract.py: the request, the result and the verification of a rollback.
use deployment.Base.{
  String, not, ◌||◌, some, Arg, exact, Result, ok, raise_if, require, ◌>>=◌, ◌>>◌, ◌/=◌, string_eq,
  option_eq, list_eq,
}
use deployment.Base.Runtime.{Runtime}
use deployment.Capability.Target.{rebuild, operations_eq}
use deployment.Capability.Request.{
  ExecutionAuthority, CapabilityRequest, capability_request, request_eq,
}
use deployment.Capability.Outcome.{CapabilityResult}
use deployment.Capability.Admit.{admit_request, admit_result}
use deployment.Firewall.Prefixes.{identity}
use deployment.Firewall.Types.{
  post_rollback, FirewallObservation, RollbackPlan, MutationDisposition, reinspection_required,
  policy_eq,
}
use deployment.Firewall.Documents.{rollback_parameters_sha256}
use deployment.Firewall.Observe.{admit_observation}
use deployment.Firewall.Plan.{binds}
use deployment.Firewall.Verify.{policy_of}

module _ (R : Runtime) where
  unfoldable pub build_rollback_request :
      Arg RollbackPlan → Arg ExecutionAuthority → Arg String → Result CapabilityRequest
  build_rollback_request plan_given authority_given request_id = do
    id ← identity R "rollback request identity" request_id
    p ← require plan_given "one rollback plan is required"
    authority ← require authority_given "rollback authority does not bind fresh provider state"
    raise_if
        (not (
          binds R authority p.adapter_id p.source_revision p.target
            (rollback_parameters_sha256 R p)))
        "rollback authority does not bind fresh provider state"
    request ←
        capability_request R.printable (exact id) (exact p.adapter_id) (exact p.source_revision)
          (exact rebuild) (exact p.target) (exact (rollback_parameters_sha256 R p))
    admit_request (exact request) (exact authority) (exact p.supported_operations)
    ok request

  -- `_admit_rollback_context`, which gives its arguments with their types.
  unfoldable pub admit_rollback_context :
      Arg RollbackPlan
      → Arg ExecutionAuthority
      → Arg CapabilityRequest
      → Arg CapabilityResult
      → Result (RollbackPlan × CapabilityRequest)
  unfolding build_rollback_request
  admit_rollback_context plan_given authority request_given result_given = do
    request ← require request_given "correlated #169 rollback request and result are required"
    result ← require result_given "correlated #169 rollback request and result are required"
    expected ← build_rollback_request plan_given authority (exact request.request_id)
    p ← require plan_given "one rollback plan is required"
    raise_if (request /= expected) "rollback request does not match fresh recovery state"
    admit_result (exact request) (exact result)
    ok (p, request)

  unfoldable pub admit_rollback_result :
      Arg RollbackPlan
      → Arg ExecutionAuthority
      → Arg CapabilityRequest
      → Arg CapabilityResult
      → Result MutationDisposition
  unfolding admit_rollback_context
  admit_rollback_result plan_given authority request result = do
    _ ← admit_rollback_context plan_given authority request result
    ok reinspection_required

  unfoldable pub verify_rollback :
      Arg RollbackPlan
      → Arg ExecutionAuthority
      → Arg CapabilityRequest
      → Arg CapabilityResult
      → Arg FirewallObservation
      → Arg ExecutionAuthority
      → Result (Unit {0})
  verify_rollback plan_given authority request_given result_given fresh_given fresh_authority = do
    (p, request) ← admit_rollback_context plan_given authority request_given result_given
    fresh ←
        admit_observation R fresh_given fresh_authority post_rollback (some p.target)
          (some (exact request))
    raise_if
        (fresh.request.adapter_id /= p.adapter_id
          || fresh.request.source_revision /= p.source_revision
          || fresh.supported_operations /= p.supported_operations
          || fresh.preserved_state_sha256 /= p.preserved_state_sha256
          || fresh.operator_access /= p.operator_access)
        "rollback did not preserve exact non-owned provider state"
    raise_if (policy_of fresh.owned /= p.restore_policy)
        "rollback did not restore prior owned semantics"
