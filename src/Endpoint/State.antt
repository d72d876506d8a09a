-- ===== src/Endpoint/State.antt =====
-- scripts/endpoint_switch.py: the enumerations and the dataclasses with their checks.
use deployment.Base.{
  ℕ, String, Bool, ◌||◌, Option, is_none, is_some, Arg, exact, other, Result, ok, err,
  contract_error, raise_if, require, optional, ◌>>=◌, ◌>>◌, ◌==◌, ◌/=◌, Eq, string_dec, string_eq,
  nat_eq,
}
use deployment.Capability.Format.{identity, matching, sha256}
use deployment.Capability.Target.{
  TargetFields, ResourceTarget, ResourceTarget-discrete, resource_target,
}

pub data Intent : Type 0 where
  switch pre_write_reversal : Intent

pub record Endpoint : Type 0 where
  pub deployment_id : String
  pub resource : ResourceTarget

pub record RoutingState : Type 0 where
  pub endpoint : Endpoint
  pub generation : String
  pub target : String
  pub exposure_sha256 : String
  pub operation_id : Option String

pub record SwitchPlan : Type 0 where
  pub version : ℕ
  pub operation_id : String
  pub before : RoutingState
  pub target : String
  pub intent : Intent

unfoldable pub Endpoint-discrete : Discrete Endpoint
unfolding ResourceTarget-discrete
Endpoint-discrete = hlevel (string_dec, ResourceTarget-discrete)

unfoldable pub RoutingState-discrete : Discrete RoutingState
unfolding Endpoint-discrete
RoutingState-discrete = hlevel (string_dec, Endpoint-discrete)

instance unfoldable pub endpoint_eq : Eq Endpoint
unfolding Endpoint-discrete string_dec
endpoint_eq = record { dec = Endpoint-discrete }

instance unfoldable pub routing_eq : Eq RoutingState
unfolding RoutingState-discrete string_dec
routing_eq = record { dec = RoutingState-discrete }

abbrev pub contract_version : ℕ
contract_version = 1

-- `except (TypeError, ContractError): raise ContractError(message) from None`
abbrev or_raise : {A : Type 0} → Result A → String → Result A
or_raise (ok a) message = ok a
or_raise (err _) message = err (contract_error message)

module _ (printable : ℕ → Bool) where
  -- `_identity(value)`
  abbrev endpoint_identity : Arg String → Result String
  endpoint_identity = identity printable "endpoint identity"

  -- `ResourceTarget(**asdict(resource))`; `other` is an object that `asdict` refuses.
  unfoldable pub readmit : Arg TargetFields → Result ResourceTarget
  readmit other = err (contract_error "endpoint-resource-format")
  readmit (exact f) =
      or_raise
        (resource_target printable f.provider f.scope f.requested_key f.provider_resource_id
          f.expected_version)
        "endpoint-resource-format"

  -- `Endpoint(...)`
  unfoldable pub endpoint : Arg String → Arg TargetFields → Result Endpoint
  unfolding readmit
  endpoint deployment_id resource = do
    deployment' ← endpoint_identity deployment_id
    resource' ← readmit resource
    raise_if (is_none resource'.provider_resource_id || is_some resource'.expected_version)
        "endpoint-requires-exact-resource-and-observed-generation"
    ok (record { deployment_id = deployment'; resource = resource' })

  -- `RoutingState(...)`
  unfoldable pub routing_state :
      Arg Endpoint
      → Arg String
      → Arg String
      → Arg String
      → Option (Arg String)
      → Result RoutingState
  routing_state endpoint_given generation target exposure_sha256 operation_id = do
    endpoint' ← require endpoint_given "endpoint-scope-required"
    generation' ← endpoint_identity generation
    target' ← endpoint_identity target
    exposure' ← matching sha256 "endpoint-exposure-binding-required" exposure_sha256
    operation' ← optional endpoint_identity operation_id
    ok (record {
      endpoint = endpoint';
      generation = generation';
      target = target';
      exposure_sha256 = exposure';
      operation_id = operation';
    })

  -- `SwitchPlan(...)`. A version that is no natural number is `other`.
  unfoldable pub switch_plan :
      Arg ℕ → Arg String → Arg RoutingState → Arg String → Arg Intent → Result SwitchPlan
  switch_plan version operation_id before target intent = do
    version' ← require version "unsupported-endpoint-contract"
    raise_if (version' /= contract_version) "unsupported-endpoint-contract"
    before' ← require before "endpoint-plan-required"
    intent' ← require intent "endpoint-plan-required"
    operation' ← endpoint_identity operation_id
    target' ← endpoint_identity target
    raise_if (target' == before'.target) "endpoint-candidate-already-current"
    ok (record {
      version = version';
      operation_id = operation';
      before = before';
      target = target';
      intent = intent';
    })

  -- `plan(operation_id, current, target, intent=intent)`
  unfoldable pub plan : Arg String → Arg RoutingState → Arg String → Arg Intent → Result SwitchPlan
  unfolding switch_plan
  plan operation_id current target intent =
      switch_plan (exact contract_version) operation_id current target intent
