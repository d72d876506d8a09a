-- ===== src/Firewall/RoundTrip.antt =====
-- A planned and verified rollback takes the provider back to where the mutation began.
use deployment.Base.{◌≡◌, ◌∙◌, some, arith, exact, ok, Result-cases, inl, inr}
use deployment.Base.Runtime.{Runtime}
use deployment.Capability.Target.{ResourceTarget}
use deployment.Capability.Request.{ExecutionAuthority, CapabilityRequest}
use deployment.Capability.Outcome.{CapabilityResult}
use deployment.Firewall.Types.{post_rollback, FirewallObservation, FirewallPlan, RollbackPlan}
use deployment.Firewall.Observe.{admit_observation}
use deployment.Firewall.Observed.{admit_observation-Observed, SameResource}
use deployment.Firewall.Verify.{rollback, policy_of, recovery_plan}
use deployment.Firewall.Rollback.{admit_rollback_context, verify_rollback}
use deployment.Firewall.Recovery.{IsPreserved, recovery_plan_sound}

SameResource-trans :
    (s t u : ResourceTarget) → SameResource s t → SameResource t u → SameResource s u
SameResource-trans s t u a b = record {
  provider = a.provider ∙ b.provider;
  scope = a.scope ∙ b.scope;
  key = a.key ∙ b.key;
  resource = a.resource ∙ b.resource;
}

-- The state that a rollback plan asks for.
pub record IsRestored (plan : RollbackPlan) (o : FirewallObservation) : Type 0 where
  pub policy : policy_of o.owned ≡ plan.restore_policy
  pub state : o.preserved_state_sha256 ≡ plan.preserved_state_sha256
  pub access : o.operator_access ≡ plan.operator_access
  pub resource : SameResource o.request.target plan.target

module _ (R : Runtime) (plan : RollbackPlan) (a : ExecutionAuthority) (request : CapabilityRequest)
    (result : CapabilityResult) (o : FirewallObservation) (b : ExecutionAuthority) where
  context_same :
      (c : RollbackPlan × CapabilityRequest)
      → admit_rollback_context R (exact plan) (exact a) (exact request) (exact result) ≡ ok c
      → c ≡ (plan, request)
  unfolding admit_rollback_context
  context_same c h = ground arith

  verify_rollback-IsRestored :
      verify_rollback R (exact plan) (exact a) (exact request) (exact result) (exact o) (exact b)
        ≡ ok tt
      → IsRestored plan o
  unfolding verify_rollback
  verify_rollback-IsRestored h =
      elim (Result-cases
        (admit_rollback_context R (exact plan) (exact a) (exact request) (exact result))) [
          | inr (f, e) ↦ absurd (ground arith)
          | inl (c, e) ↦
              let same = context_same c e in
              elim (Result-cases (
                admit_observation R (exact o) (exact b) post_rollback (some plan.target)
                  (some (exact request)))) [
                    | inr (f, e') ↦ absurd (ground (arith, same))
                    | inl (k, e') ↦
                        let (kept, seen) =
                          admit_observation-Observed R o b post_rollback (some plan.target)
                            (some (exact request)) k e' in
                        record {
                          policy = ground (arith, same, kept);
                          state = ground (arith, same, kept);
                          access = ground (arith, same, kept);
                          resource = seen.at_target;
                        }
                  ]
        ]

-- If a recovery plans a rollback, and the rollback is then verified, then the provider owns again
-- exactly the policy that the mutation plan had found, or none if it had found none, and all that
-- the plan does not own is as that plan found it, on the same resource.
pub rollback_restores :
    (R : Runtime) (p : FirewallPlan) (a : ExecutionAuthority) (request : CapabilityRequest)
    (result : CapabilityResult) (o : FirewallObservation) (b : ExecutionAuthority)
    (plan : RollbackPlan) (a' : ExecutionAuthority) (request' : CapabilityRequest)
    (result' : CapabilityResult) (o' : FirewallObservation) (b' : ExecutionAuthority)
    → recovery_plan R (exact p) (exact a) (exact request) (exact result) (exact o) (exact b)
      ≡ ok (rollback plan)
    → verify_rollback R
        (exact plan)
        (exact a')
        (exact request')
        (exact result')
        (exact o')
        (exact b')
      ≡ ok tt
    → (policy_of o'.owned ≡ policy_of p.prior_owned) × IsPreserved p o'
rollback_restores R p a request result o b plan a' request' result' o' b' h h' =
    let (_, found, decision) = recovery_plan_sound R p a request result o b (rollback plan) h in
    let (_, _, _, _, version, target, policy, state, access) = decision in
    let back = verify_rollback-IsRestored R plan a' request' result' o' b' h' in
    (
      back.policy ∙ policy,
      record {
        state = back.state ∙ state;
        access = back.access ∙ access;
        resource =
            SameResource-trans _ _ _ back.resource (SameResource-trans _ _ _ target found.resource);
      },
    )
