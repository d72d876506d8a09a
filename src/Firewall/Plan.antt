-- ===== src/Firewall/Plan.antt =====
-- scripts/provider-firewall-contract.py: planning a mutation, and its request and result.
use deployment.Base.{
  String, Bool, true, false, not, ◌&&◌, Option, none, some, is_none, if◌then◌else◌, Arg, exact,
  given_of, Result, ok, err, contract_error, raise_if, require, ◌>>=◌, ◌>>◌, ◌==◌, ◌/=◌, string_eq,
  option_eq,
}
use mathlib.Core.List.{map}
use deployment.Base.Runtime.{Runtime}
use deployment.Capability.Target.{rebuild, ResourceTarget, resource_target, target_eq}
use deployment.Capability.Request.{
  ExecutionAuthority, CapabilityRequest, capability_request, request_eq,
}
use deployment.Capability.Outcome.{CapabilityResult}
use deployment.Capability.Admit.{admit_request, admit_result}
use deployment.Lkg.Candidate.{Candidate}
use deployment.Firewall.Prefixes.{identity}
use deployment.Firewall.Types.{
  PlanAction, no_mutation, replace_owned, current, FirewallIntent, FirewallPolicy,
  OwnedFirewallPolicy, FirewallObservation, revision, FirewallPlan, MutationDisposition,
  reinspection_required, policy_eq, firewall_policy, firewall_plan,
}
use deployment.Firewall.Documents.{mutation_parameters_sha256}
use deployment.Firewall.Observe.{admit_observation}

-- `prior_owned.policy == desired`
abbrev pub owns : FirewallPolicy → Option OwnedFirewallPolicy → Bool
owns desired none = false
owns desired (some prior) = prior.policy == desired

-- `action is REPLACE_OWNED`
abbrev pub is_replacement : PlanAction → Bool
is_replacement replace_owned = true
is_replacement no_mutation = false

module _ (R : Runtime) where
  -- `_desired_policy`
  unfoldable pub desired_policy : Arg FirewallIntent → Candidate → Result FirewallPolicy
  desired_policy intent_given accepted = do
    intent ← require intent_given "one admitted PROTECTED firewall intent is required"
    firewall_policy R (exact intent.origin_protocol) (exact intent.origin_port)
        (exact (map exact accepted.ipv4_prefixes)) (exact (map exact accepted.ipv6_prefixes))

  -- `ResourceTarget(…, expected_version=revision)` for the target that was observed.
  unfoldable pub target_at : FirewallObservation → Result ResourceTarget
  target_at observation =
      let t = observation.request.target in
      resource_target R.printable (exact t.provider) (exact t.scope) (exact t.requested_key)
        (given_of t.provider_resource_id) (given_of (revision observation))

  -- `plan`, once the accepted document has been read.
  unfoldable pub plan_accepted :
      Arg FirewallIntent
      → Candidate
      → Arg FirewallObservation
      → Arg ExecutionAuthority
      → Result FirewallPlan
  unfolding desired_policy target_at
  plan_accepted intent accepted current_given authority = do
    now ← admit_observation R current_given authority current none none
    desired ← desired_policy intent accepted
    target ← target_at now
    firewall_plan R (record {
      action = if owns desired now.owned then no_mutation else replace_owned;
      target = target;
      adapter_id = now.request.adapter_id;
      source_revision = now.request.source_revision;
      supported_operations = now.supported_operations;
      accepted_lkg_identity = accepted.candidate_sha256;
      desired = desired;
      prior_owned = now.owned;
      preserved_state_sha256 = now.preserved_state_sha256;
      operator_access = now.operator_access;
    })

  -- `plan`. The state directory is `other` unless it is a `Path`; if it is one, the argument is what
  -- `lkg.read_lkg` gives or raises for it.
  unfoldable pub plan :
      Arg FirewallIntent
      → Arg (Result (Option Candidate))
      → Arg FirewallObservation
      → Arg ExecutionAuthority
      → Result FirewallPlan
  unfolding plan_accepted
  plan intent directory current_given authority = do
    reading ← require directory "#214 accepted-LKG state directory is required"
    found ← reading
    elim found [
      | none ↦ err (contract_error "no #214 accepted CloudFront Origin LKG exists")
      | some accepted ↦ plan_accepted intent accepted current_given authority
    ]

  -- The authority is for the adapter, the source, the target and the digest of a plan.
  abbrev pub binds : ExecutionAuthority → String → String → ResourceTarget → String → Bool
  binds authority adapter source target parameters =
      authority.adapter_id == adapter
      && authority.source_revision == source
      && authority.target == target
      && authority.parameters_sha256 == parameters

  unfoldable pub build_mutation_request :
      Arg FirewallPlan → Arg ExecutionAuthority → Arg String → Result CapabilityRequest
  build_mutation_request plan_given authority_given request_id = do
    p ← require plan_given "one firewall plan is required"
    raise_if (not (is_replacement p.action)) "no provider mutation is authorized for this plan"
    raise_if (is_none p.target.expected_version)
        "provider mutation requires fresh concurrency authority"
    id ← identity R "mutation request identity" request_id
    authority ← require authority_given "mutation authority does not bind the exact firewall plan"
    raise_if
        (not (
          binds authority p.adapter_id p.source_revision p.target (mutation_parameters_sha256 R p)))
        "mutation authority does not bind the exact firewall plan"
    request ←
        capability_request R.printable (exact id) (exact p.adapter_id) (exact p.source_revision)
          (exact rebuild) (exact p.target) (exact (mutation_parameters_sha256 R p))
    admit_request (exact request) (exact authority) (exact p.supported_operations)
    ok request

  -- `_admit_mutation_context`, which gives its arguments with their types.
  unfoldable pub admit_mutation_context :
      Arg FirewallPlan
      → Arg ExecutionAuthority
      → Arg CapabilityRequest
      → Arg CapabilityResult
      → Result (FirewallPlan × CapabilityRequest × CapabilityResult)
  unfolding build_mutation_request
  admit_mutation_context plan_given authority request_given result_given = do
    request ← require request_given "correlated #169 mutation request and result are required"
    result ← require result_given "correlated #169 mutation request and result are required"
    expected ← build_mutation_request plan_given authority (exact request.request_id)
    p ← require plan_given "one firewall plan is required"
    raise_if (request /= expected) "mutation request does not match the exact firewall plan"
    admit_result (exact request) (exact result)
    ok (p, request, result)

  unfoldable pub admit_mutation_result :
      Arg FirewallPlan
      → Arg ExecutionAuthority
      → Arg CapabilityRequest
      → Arg CapabilityResult
      → Result MutationDisposition
  unfolding admit_mutation_context
  admit_mutation_result plan_given authority request result = do
    _ ← admit_mutation_context plan_given authority request result
    ok reinspection_required
