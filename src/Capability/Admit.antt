-- ===== src/Capability/Admit.antt =====
-- scripts/provider-capability-contract.py: `admit_request` and `admit_result`.
use deployment.Base.{
  String, Bool, true, false, not, ◌&&◌, ◌||◌, Option, some, is_some, is_none, if◌then◌else◌, Arg,
  Result, ok, err, unsupported_capability, raise_if, require, ◌>>=◌, ◌>>◌, ◌==◌, ◌/=◌, string_eq,
  option_eq, bool_eq,
}
use deployment.Capability.Target.{
  Operation, inspect, rebuild, delete, Operations, contains, operation_eq, target_eq,
}
use deployment.Capability.Request.{ExecutionAuthority, CapabilityRequest}
use deployment.Capability.Outcome.{
  Outcome, applied, observed, already_satisfied, unsupported, failed, not_applicable, complete,
  incomplete, CapabilityResult, outcome_eq, cleanup_eq,
}

-- `supported_operations` is `other` unless it is a set or frozenset of `Operation` members.
unfoldable pub admit_request :
    Arg CapabilityRequest → Arg ExecutionAuthority → Arg Operations → Result (Unit {0})
admit_request request_given authority_given supported_given = do
  request ← require request_given "request and authority are required"
  authority ← require authority_given "request and authority are required"
  supported ← require supported_given "adapter requires a closed supported operation set"
  raise_if
      (request.adapter_id /= authority.adapter_id
        || request.source_revision /= authority.source_revision
        || request.target /= authority.target
        || request.parameters_sha256 /= authority.parameters_sha256)
      "request does not match the exact authorized target"
  raise_if (not (contains authority.operations request.operation))
      "operation is not authorized for this exact target"
  if not (contains supported request.operation)
      then err (unsupported_capability "selected adapter does not support this operation")
      else ok tt
  raise_if
      ((request.operation == inspect || request.operation == rebuild || request.operation == delete)
        && is_none request.target.provider_resource_id)
      "operation requires an exact provider-native identity"

-- `result.outcome in allowed`
abbrev allowed : Operation → Outcome → Bool
allowed _ unsupported = true
allowed _ failed = true
allowed inspect outcome = outcome == observed
allowed _ outcome = outcome == applied || outcome == already_satisfied

-- Two identities are both known and differ.
abbrev mismatch : Option String → Option String → Bool
mismatch (some a) (some b) = a /= b
mismatch _ _ = false

-- The tests that tie a result to its request.
abbrev is_unbound : CapabilityRequest → CapabilityResult → Bool
is_unbound request result =
    result.request_id /= request.request_id
    || result.adapter_id /= request.adapter_id
    || result.source_revision /= request.source_revision
    || result.operation /= request.operation
    || result.target /= request.target
    || result.parameters_sha256 /= request.parameters_sha256

-- The provider facts that a result shows.
abbrev shows_provider : CapabilityResult → Bool
shows_provider result =
    is_some result.provider_resource_id
    || is_some result.provider_resource_version
    || is_some result.provider_image_id

abbrev admit_failed : CapabilityRequest → CapabilityResult → Result (Unit {0})
admit_failed request result =
    raise_if
      (if request.operation == inspect
        then result.cleanup /= not_applicable
        else not (result.cleanup == complete || result.cleanup == incomplete))
      "failed mutation must report its cleanup outcome"

abbrev admit_success : CapabilityRequest → CapabilityResult → Result (Unit {0})
admit_success request result =
    if request.operation == delete
    then raise_if (result.cleanup /= complete || shows_provider result)
        "successful delete requires exact complete cleanup"
    else (do
      raise_if (result.cleanup /= not_applicable || is_none result.provider_resource_id)
          "successful operation requires bounded provider read-back"
      raise_if
          (request.operation == inspect
            && is_some request.target.expected_version
            && result.provider_resource_version /= request.target.expected_version)
          "observed resource version is stale or mismatched")

unfoldable pub admit_result : Arg CapabilityRequest → Arg CapabilityResult → Result (Unit {0})
admit_result request_given result_given = do
  request ← require request_given "request and result are required"
  result ← require result_given "request and result are required"
  raise_if (is_unbound request result) "result is not bound to the exact request"
  raise_if (not (allowed request.operation result.outcome))
      "outcome contradicts the requested operation"
  raise_if (mismatch result.provider_resource_id request.target.provider_resource_id)
      "observed resource identity mismatches the target"
  raise_if
      ((result.outcome == failed || result.outcome == unsupported)
        /= is_some result.diagnostic_code)
      "diagnostic presence contradicts the result outcome"
  if result.outcome == unsupported
      then raise_if (result.cleanup /= not_applicable || shows_provider result)
          "unsupported result must not imply provider mutation"
      else if result.outcome == failed
      then admit_failed request result
      else admit_success request result
