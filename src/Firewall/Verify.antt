-- ===== src/Firewall/Verify.antt =====
-- scripts/provider-firewall-contract.py: verification and recovery after a mutation.
use deployment.Base.{
  Bool, not, ◌&&◌, ◌||◌, Option, none, some, is_none, if◌then◌else◌, Arg, exact, Result, ok, err,
  contract_error, raise_if, ◌>>=◌, ◌>>◌, ◌==◌, ◌/=◌, string_eq, option_eq, list_eq,
}
use deployment.Base.Runtime.{Runtime}
use deployment.Capability.Target.{operations_eq}
use deployment.Capability.Request.{ExecutionAuthority, CapabilityRequest}
use deployment.Capability.Outcome.{
  CapabilityResult, unsupported, already_satisfied, failed, complete, outcome_eq, cleanup_eq,
}
use deployment.Firewall.Types.{
  post_mutation, ObservationPhase, FirewallPolicy, OwnedFirewallPolicy, FirewallObservation,
  revision, FirewallPlan, RollbackPlan, policy_eq, rollback_plan,
}
use deployment.Firewall.Observe.{admit_observation}
use deployment.Firewall.Plan.{owns, target_at, admit_mutation_context}

-- `RecoveryDecision`, or a `RollbackPlan`.
pub data Recovery : Type 0 where
  desired_verified prior_verified : Recovery
  rollback : RollbackPlan → Recovery

-- `owned.policy if owned is not None else None`
abbrev pub policy_of : Option OwnedFirewallPolicy → Option FirewallPolicy
policy_of none = none
policy_of (some owned) = some owned.policy

-- The result says that the mutation left nothing behind.
abbrev pub no_retained_effect : CapabilityResult → Bool
no_retained_effect result =
    (result.outcome == unsupported || result.outcome == already_satisfied)
    || (result.outcome == failed && result.cleanup == complete)

module _ (R : Runtime) where
  -- `_admit_fresh_observation`, which gives the observation with its type.
  unfoldable pub admit_fresh_observation :
      FirewallPlan
      → Arg FirewallObservation
      → Arg ExecutionAuthority
      → ObservationPhase
      → CapabilityRequest
      → Result FirewallObservation
  admit_fresh_observation p fresh_given authority phase predecessor = do
    fresh ←
        admit_observation R fresh_given authority phase (some p.target) (some (exact predecessor))
    raise_if
        (fresh.request.adapter_id /= p.adapter_id
          || fresh.request.source_revision /= p.source_revision
          || fresh.supported_operations /= p.supported_operations)
        "fresh observation uses a different adapter authority"
    raise_if
        (fresh.preserved_state_sha256 /= p.preserved_state_sha256
          || fresh.operator_access /= p.operator_access)
        "fresh observation did not preserve unrelated/operator provider state"
    ok fresh

  unfoldable pub verify :
      Arg FirewallPlan
      → Arg ExecutionAuthority
      → Arg CapabilityRequest
      → Arg CapabilityResult
      → Arg FirewallObservation
      → Arg ExecutionAuthority
      → Result (Unit {0})
  verify plan_given authority request_given result_given fresh_given fresh_authority = do
    (p, request, _) ← admit_mutation_context R plan_given authority request_given result_given
    fresh ← admit_fresh_observation p fresh_given fresh_authority post_mutation request
    raise_if (not (owns p.desired fresh.owned))
        "fresh provider read did not verify exact desired policy"

  -- `recovery_plan`, once the result and the fresh observation are admitted.
  unfoldable pub classify : FirewallPlan → CapabilityResult → FirewallObservation → Result Recovery
  classify p result fresh =
      let fresh_policy = policy_of fresh.owned in
      let prior_policy = policy_of p.prior_owned in
      if no_retained_effect result
      then (if fresh_policy == prior_policy
          then ok prior_verified
          else err (
              contract_error
                "no-effect mutation result cannot authorize recovery of provider drift"))
      else if owns p.desired fresh.owned
      then ok desired_verified
      else if fresh_policy == prior_policy
      then ok prior_verified
      else (do
        raise_if (is_none (revision fresh)) "rollback planning requires fresh concurrency authority"
        target ← target_at R fresh
        plan ← rollback_plan R (record {
          target = target;
          adapter_id = p.adapter_id;
          source_revision = p.source_revision;
          supported_operations = p.supported_operations;
          restore_policy = prior_policy;
          preserved_state_sha256 = p.preserved_state_sha256;
          operator_access = p.operator_access;
        })
        ok (rollback plan))

  unfoldable pub recovery_plan :
      Arg FirewallPlan
      → Arg ExecutionAuthority
      → Arg CapabilityRequest
      → Arg CapabilityResult
      → Arg FirewallObservation
      → Arg ExecutionAuthority
      → Result Recovery
  unfolding classify
  recovery_plan plan_given authority request_given result_given fresh_given fresh_authority = do
    (p, request, result) ← admit_mutation_context R plan_given authority request_given result_given
    fresh ← admit_fresh_observation p fresh_given fresh_authority post_mutation request
    classify p result fresh
