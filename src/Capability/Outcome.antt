-- ===== src/Capability/Outcome.antt =====
-- scripts/provider-capability-contract.py: `Outcome`, `CleanupOutcome` and `CapabilityResult`.
use deployment.Base.{
  ℕ, String, Option, Bool, Arg, Result, ok, optional, raise_if, require, ◌>>=◌, ◌>>◌, Eq, ltb,
  length,
}
use deployment.Base.Text.{codes}
use deployment.Capability.Format.{identity, matching, sha1, sha256, diagnostic}
use deployment.Capability.Target.{Operation, ResourceTarget}

pub data Outcome : Type 0 where
  applied observed already_satisfied unsupported failed : Outcome

pub data CleanupOutcome : Type 0 where
  not_applicable complete incomplete : CleanupOutcome

pub record CapabilityResult : Type 0 where
  pub request_id : String
  pub adapter_id : String
  pub source_revision : String
  pub operation : Operation
  pub target : ResourceTarget
  pub parameters_sha256 : String
  pub outcome : Outcome
  pub cleanup : CleanupOutcome
  pub provider_resource_id : Option String
  pub provider_resource_version : Option String
  pub provider_image_id : Option String
  pub diagnostic_code : Option String

unfoldable pub Outcome-discrete : Discrete Outcome
Outcome-discrete = hlevel

unfoldable pub CleanupOutcome-discrete : Discrete CleanupOutcome
CleanupOutcome-discrete = hlevel

instance unfoldable pub outcome_eq : Eq Outcome
unfolding Outcome-discrete
outcome_eq = record { dec = Outcome-discrete }

instance unfoldable pub cleanup_eq : Eq CleanupOutcome
unfolding CleanupOutcome-discrete
cleanup_eq = record { dec = CleanupOutcome-discrete }

-- `diagnostic_code`: the pattern, then at most 128 characters.
unfoldable pub diagnostic_code : Arg String → Result String
diagnostic_code value = do
  text ← matching diagnostic "diagnostic code is outside the bounded format" value
  raise_if (ltb 128 (length (codes text))) "diagnostic code is outside the bounded format"
  ok text

-- The fields that the caller of `CapabilityResult(...)` gives.
pub record ResultFields : Type 0 where
  pub request_id : Arg String
  pub adapter_id : Arg String
  pub source_revision : Arg String
  pub operation : Arg Operation
  pub target : Arg ResourceTarget
  pub parameters_sha256 : Arg String
  pub outcome : Arg Outcome
  pub cleanup : Arg CleanupOutcome
  pub provider_resource_id : Option (Arg String)
  pub provider_resource_version : Option (Arg String)
  pub provider_image_id : Option (Arg String)
  pub diagnostic_code : Option (Arg String)

module _ (printable : ℕ → Bool) where
  -- `CapabilityResult(...)`: the checks of `__post_init__`.
  unfoldable pub capability_result : ResultFields → Result CapabilityResult
  capability_result given = do
    request' ← identity printable "result request identity" given.request_id
    adapter' ← identity printable "result adapter identity" given.adapter_id
    revision' ← matching sha1 "result requires one lowercase full source SHA" given.source_revision
    parameters' ←
        matching sha256 "result requires one SHA-256 parameter binding" given.parameters_sha256
    operation' ← require given.operation "result is outside the closed contract"
    target' ← require given.target "result is outside the closed contract"
    outcome' ← require given.outcome "result is outside the closed contract"
    cleanup' ← require given.cleanup "result is outside the closed contract"
    resource' ←
        optional (identity printable "observed provider resource identity")
          given.provider_resource_id
    version' ←
        optional (identity printable "observed provider resource version")
          given.provider_resource_version
    image' ←
        optional (identity printable "observed provider image identity") given.provider_image_id
    diagnostic' ← optional diagnostic_code given.diagnostic_code
    ok (record {
      request_id = request';
      adapter_id = adapter';
      source_revision = revision';
      operation = operation';
      target = target';
      parameters_sha256 = parameters';
      outcome = outcome';
      cleanup = cleanup';
      provider_resource_id = resource';
      provider_resource_version = version';
      provider_image_id = image';
      diagnostic_code = diagnostic';
    })
