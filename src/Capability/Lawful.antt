-- ===== src/Capability/Lawful.antt =====
-- What `admit_request` and `admit_result` accept, stated without their tests.
use deployment.Base.{
  ◌≡◌, ◌≢◌, ◌↔◌, ◌⊎◌, inl, inr, refl, true, false, none, arith, exact, ok, err,
  unsupported_capability,
}
use deployment.Capability.Target.{Operation, create, inspect, rebuild, delete, Operations, contains}
use deployment.Capability.Request.{ExecutionAuthority, CapabilityRequest}
use deployment.Capability.Outcome.{
  Outcome, applied, observed, already_satisfied, unsupported, failed, not_applicable, complete,
  incomplete, CapabilityResult,
}
use deployment.Capability.Admit.{admit_request, admit_result}

-- The authority is for this adapter, source, target and parameters.
pub record IsCovered (request : CapabilityRequest) (authority : ExecutionAuthority) : Type 0 where
  pub adapter : request.adapter_id ≡ authority.adapter_id
  pub source : request.source_revision ≡ authority.source_revision
  pub target : request.target ≡ authority.target
  pub parameters : request.parameters_sha256 ≡ authority.parameters_sha256
  pub allowed : contains authority.operations request.operation ≡ true

-- Only `create` may run without a provider-native identity.
abbrev pub IsLocated : CapabilityRequest → Type 0
IsLocated request = (request.operation ≡ create) ⊎ (request.target.provider_resource_id ≢ none)

-- A request is admitted exactly when the authority covers it, the adapter supports the operation,
-- and the target has a native identity unless the operation is `create`.
pub admit_request_iff :
    (request : CapabilityRequest) (authority : ExecutionAuthority) (supported : Operations)
    → (admit_request (exact request) (exact authority) (exact supported) ≡ ok tt) ↔ (
        IsCovered request authority
        × (contains supported request.operation ≡ true)
        × IsLocated request)
unfolding admit_request
admit_request_iff request authority supported = ground arith

-- The failures come in a fixed order: `UnsupportedCapability` is raised exactly for a request that
-- the authority covers and the adapter does not support.
pub admit_request-unsupported_iff :
    (request : CapabilityRequest) (authority : ExecutionAuthority) (supported : Operations)
    → (admit_request (exact request) (exact authority) (exact supported)
        ≡ err (unsupported_capability "selected adapter does not support this operation"))
      ↔ (IsCovered request authority × (contains supported request.operation ≡ false))
unfolding admit_request
admit_request-unsupported_iff request authority supported = ground arith

-- The result repeats what the request says.
pub record IsBound (request : CapabilityRequest) (result : CapabilityResult) : Type 0 where
  pub request_id : result.request_id ≡ request.request_id
  pub adapter : result.adapter_id ≡ request.adapter_id
  pub source : result.source_revision ≡ request.source_revision
  pub operation : result.operation ≡ request.operation
  pub target : result.target ≡ request.target
  pub parameters : result.parameters_sha256 ≡ request.parameters_sha256

-- No provider fact is shown.
pub record IsBlank (result : CapabilityResult) : Type 0 where
  pub resource : result.provider_resource_id ≡ none
  pub version : result.provider_resource_version ≡ none
  pub image : result.provider_image_id ≡ none

-- What a read-back shows: the resource that was asked for, and the version that was expected.
pub record IsReadBack (request : CapabilityRequest) (result : CapabilityResult) : Type 0 where
  pub cleanup : result.cleanup ≡ not_applicable
  pub silent : result.diagnostic_code ≡ none
  pub resource : result.provider_resource_id ≢ none
  pub same :
      (request.target.provider_resource_id ≡ none)
      ⊎ (result.provider_resource_id ≡ request.target.provider_resource_id)

-- The ways in which one attempt may lawfully end.
pub data Ending (request : CapabilityRequest) (result : CapabilityResult) : Type 0 where
  refused :
      result.outcome ≡ unsupported
      → result.cleanup ≡ not_applicable
      → IsBlank result
      → result.diagnostic_code ≢ none
      → Ending request result
  failed_read :
      result.outcome ≡ failed
      → request.operation ≡ inspect
      → result.cleanup ≡ not_applicable
      → result.diagnostic_code ≢ none
      → (result.provider_resource_id ≡ none)
        ⊎ (request.target.provider_resource_id ≡ none)
        ⊎ (result.provider_resource_id ≡ request.target.provider_resource_id)
      → Ending request result
  failed_change :
      result.outcome ≡ failed
      → request.operation ≢ inspect
      → (result.cleanup ≡ complete) ⊎ (result.cleanup ≡ incomplete)
      → result.diagnostic_code ≢ none
      → (result.provider_resource_id ≡ none)
        ⊎ (request.target.provider_resource_id ≡ none)
        ⊎ (result.provider_resource_id ≡ request.target.provider_resource_id)
      → Ending request result
  deleted :
      (result.outcome ≡ applied) ⊎ (result.outcome ≡ already_satisfied)
      → request.operation ≡ delete
      → result.cleanup ≡ complete
      → IsBlank result
      → result.diagnostic_code ≡ none
      → Ending request result
  changed :
      (result.outcome ≡ applied) ⊎ (result.outcome ≡ already_satisfied)
      → (request.operation ≡ create) ⊎ (request.operation ≡ rebuild)
      → IsReadBack request result
      → Ending request result
  inspected :
      result.outcome ≡ observed
      → request.operation ≡ inspect
      → IsReadBack request result
      → (request.target.expected_version ≡ none)
        ⊎ (result.provider_resource_version ≡ request.target.expected_version)
      → Ending request result

admit_result_complete :
    (request : CapabilityRequest) (result : CapabilityResult)
    → IsBound request result
    → Ending request result
    → admit_result (exact request) (exact result) ≡ ok tt
unfolding admit_result
admit_result_complete request result b (refused o c k d) = ground arith
admit_result_complete request result b (failed_read o p c d m) = ground arith
admit_result_complete request result b (failed_change o p c d m) = ground arith
admit_result_complete request result b (deleted o p c k d) = ground arith
admit_result_complete request result b (changed o p r) = ground arith
admit_result_complete request result b (inspected o p r v) = ground arith

module _ (request : CapabilityRequest) (result : CapabilityResult)
    (admitted : admit_result (exact request) (exact result) ≡ ok tt) where
  bound : IsBound request result
  unfolding admit_result
  bound = ground arith

  read_back :
      (result.outcome ≡ applied)
        ⊎ (result.outcome ≡ already_satisfied)
        ⊎ (result.outcome ≡ observed)
      → request.operation ≢ delete
      → IsReadBack request result
  unfolding admit_result
  read_back o p = ground arith

  ending :
      (o : Outcome) (p : Operation)
      → result.outcome ≡ o
      → request.operation ≡ p
      → Ending request result
  unfolding admit_result
  ending unsupported p e q = refused e (ground arith) (ground arith) (ground arith)
  ending failed inspect e q = failed_read e q (ground arith) (ground arith) (ground arith)
  ending failed _ e q = failed_change e (ground arith) (ground arith) (ground arith) (ground arith)
  ending observed inspect e q =
      inspected e q (read_back (inr (inr e)) (ground arith)) (ground arith)
  ending observed _ e q = absurd (ground arith)
  ending applied inspect e q = absurd (ground arith)
  ending applied delete e q = deleted (inl e) q (ground arith) (ground arith) (ground arith)
  ending applied create e q = changed (inl e) (inl q) (read_back (inl e) (ground arith))
  ending applied rebuild e q = changed (inl e) (inr q) (read_back (inl e) (ground arith))
  ending already_satisfied inspect e q = absurd (ground arith)
  ending already_satisfied delete e q =
      deleted (inr e) q (ground arith) (ground arith) (ground arith)
  ending already_satisfied create e q =
      changed (inr e) (inl q) (read_back (inr (inl e)) (ground arith))
  ending already_satisfied rebuild e q =
      changed (inr e) (inr q) (read_back (inr (inl e)) (ground arith))

-- A result is admitted exactly when it repeats what its request says and ends in one of the ways
-- in which an attempt may lawfully end.
pub admit_result_iff :
    (request : CapabilityRequest) (result : CapabilityResult)
    → (admit_result (exact request) (exact result) ≡ ok tt)
      ↔ (IsBound request result × Ending request result)
admit_result_iff request result = (
  λ h. (bound request result h, ending request result h result.outcome request.operation refl refl),
  λ (b, e). admit_result_complete request result b e,
)
