-- ===== src/Firewall/Recovery.antt =====
-- What verification and recovery establish about the provider's state.
use mathlib.Core.Path.{subst}
use deployment.Base.{
  ◌≡◌, ◌≢◌, ◌⊎◌, inl, inr, ◌↔◌, sym, ◌∙◌, ap, true, none, some, arith, exact, ok, Result-cases,
  given_of-injective,
}
use deployment.Base.Runtime.{Runtime}
use deployment.Capability.Target.{ResourceTarget}
use deployment.Capability.Request.{ExecutionAuthority, CapabilityRequest}
use deployment.Capability.Outcome.{
  CapabilityResult, unsupported, already_satisfied, failed, complete,
}
use deployment.Capability.Construct.{resource_target_iff}
use deployment.Firewall.Types.{
  post_mutation, FirewallPolicy, FirewallObservation, revision, FirewallPlan, RollbackPlan,
  ObservationPhase, rollback_plan,
}
use deployment.Firewall.Observe.{admit_observation}
use deployment.Firewall.Observed.{Observed, admit_observation-Observed, SameResource}
use deployment.Firewall.Plan.{owns, target_at, admit_mutation_context, build_mutation_request}
use deployment.Firewall.Binding.{IsRequestFor, build_mutation_request-IsRequestFor}
use deployment.Firewall.Verify.{
  Recovery, desired_verified, prior_verified, rollback, policy_of, no_retained_effect,
  admit_fresh_observation, verify, classify, recovery_plan,
}

-- What the provider holds beside the owned policy is as the plan found it.
pub record IsPreserved (p : FirewallPlan) (o : FirewallObservation) : Type 0 where
  pub state : o.preserved_state_sha256 ≡ p.preserved_state_sha256
  pub access : o.operator_access ≡ p.operator_access
  pub resource : SameResource o.request.target p.target

-- A mutation leaves nothing behind: it was unsupported, found nothing to do, or failed and was
-- cleaned up.
abbrev pub IsWithoutEffect : CapabilityResult → Type 0
IsWithoutEffect result =
    (result.outcome ≡ unsupported)
    ⊎ (result.outcome ≡ already_satisfied)
    ⊎ ((result.outcome ≡ failed) × (result.cleanup ≡ complete))

no_retained_effect_iff :
    (result : CapabilityResult) → (no_retained_effect result ≡ true) ↔ IsWithoutEffect result
no_retained_effect_iff result = ground arith

pub owns_iff :
    (p : FirewallPolicy) (o : FirewallObservation)
    → (owns p o.owned ≡ true) ↔ (policy_of o.owned ≡ some p)
owns_iff p o = ground arith

module _ (R : Runtime) (p : FirewallPlan) (o : FirewallObservation) (a : ExecutionAuthority)
    (phase : ObservationPhase) (r : CapabilityRequest) (kept : FirewallObservation)
    (h : admit_fresh_observation R p (exact o) (exact a) phase r ≡ ok kept) where
  admitted_fresh :
      admit_observation R (exact o) (exact a) phase (some p.target) (some (exact r)) ≡ ok o
  unfolding admit_fresh_observation
  admitted_fresh =
      elim (Result-cases
        (admit_observation R (exact o) (exact a) phase (some p.target) (some (exact r)))) [
          | inl (k, e) ↦
              e
              ∙ ap ok
                  (admit_observation-Observed R o a phase (some p.target) (some (exact r)) k e).0
          | inr (f, e) ↦ absurd (ground arith)
        ]

  fresh_same : kept ≡ o
  unfolding admit_fresh_observation
  fresh_same = ground (arith, admitted_fresh)

  fresh-IsPreserved : IsPreserved p o
  unfolding admit_fresh_observation
  fresh-IsPreserved =
      let seen =
        (admit_observation-Observed R o a phase (some p.target) (some (exact r)) o
          admitted_fresh).1 in
      record {
        state = ground (arith, admitted_fresh);
        access = ground (arith, admitted_fresh);
        resource = seen.at_target;
      }

module _ (R : Runtime) (p : FirewallPlan) (a : ExecutionAuthority) (request : CapabilityRequest)
    (result : CapabilityResult) where
  context_of :
      (c : FirewallPlan × CapabilityRequest × CapabilityResult)
      → admit_mutation_context R (exact p) (exact a) (exact request) (exact result) ≡ ok c
      → (build_mutation_request R (exact p) (exact a) (exact request.request_id) ≡ ok request)
        × (c ≡ (p, request, result))
  unfolding admit_mutation_context
  context_of c h = (ground arith, ground arith)

  module _ (o : FirewallObservation) (b : ExecutionAuthority) where
    verified :
        verify R (exact p) (exact a) (exact request) (exact result) (exact o) (exact b) ≡ ok tt
        → (build_mutation_request R (exact p) (exact a) (exact request.request_id) ≡ ok request)
          × (admit_fresh_observation R p (exact o) (exact b) post_mutation request ≡ ok o)
          × (policy_of o.owned ≡ some p.desired)
    unfolding verify
    verified h =
        elim (Result-cases
          (admit_mutation_context R (exact p) (exact a) (exact request) (exact result))) [
            | inr (f, e) ↦ absurd (ground arith)
            | inl (c, e) ↦
                let (built, same) = context_of c e in
                elim (Result-cases
                  (admit_fresh_observation R p (exact o) (exact b) post_mutation request)) [
                    | inr (f, e') ↦ absurd (ground (arith, same))
                    | inl (k, e') ↦
                        let kept = fresh_same R p o b post_mutation request k e' in
                        (
                          built,
                          e' ∙ ap ok kept,
                          (owns_iff p.desired o).0 (ground (arith, same, kept)),
                        )
                  ]
          ]

    recovered :
        (decision : Recovery)
        → recovery_plan R (exact p) (exact a) (exact request) (exact result) (exact o) (exact b)
          ≡ ok decision
        → (build_mutation_request R (exact p) (exact a) (exact request.request_id) ≡ ok request)
          × (admit_fresh_observation R p (exact o) (exact b) post_mutation request ≡ ok o)
          × (classify R p result o ≡ ok decision)
    unfolding recovery_plan
    recovered decision h =
        elim (Result-cases
          (admit_mutation_context R (exact p) (exact a) (exact request) (exact result))) [
            | inr (f, e) ↦ absurd (ground arith)
            | inl (c, e) ↦
                let (built, same) = context_of c e in
                elim (Result-cases
                  (admit_fresh_observation R p (exact o) (exact b) post_mutation request)) [
                    | inr (f, e') ↦ absurd (ground (arith, same))
                    | inl (k, e') ↦
                        let kept = fresh_same R p o b post_mutation request k e' in
                        (built, e' ∙ ap ok kept, ground (arith, same, kept))
                  ]
          ]

-- A verified mutation was requested for exactly its plan, an authorized fresh read after it shows
-- exactly the desired policy, and all that the plan does not own is as the plan found it.
pub verify_sound :
    (R : Runtime) (p : FirewallPlan) (a : ExecutionAuthority) (request : CapabilityRequest)
    (result : CapabilityResult) (o : FirewallObservation) (b : ExecutionAuthority)
    → verify R (exact p) (exact a) (exact request) (exact result) (exact o) (exact b) ≡ ok tt
    → IsRequestFor R p a request
      × Observed R o b post_mutation (some p.target) (some (exact request))
      × IsPreserved p o
      × (policy_of o.owned ≡ some p.desired)
verify_sound R p a request result o b h =
    let (built, fresh, desired) = verified R p a request result o b h in
    (
      build_mutation_request-IsRequestFor R p a (exact request.request_id) request built,
      (admit_observation-Observed R o b post_mutation (some p.target) (some (exact request)) o
          (admitted_fresh R p o b post_mutation request o fresh)).1,
      fresh-IsPreserved R p o b post_mutation request o fresh,
      desired,
    )

-- What each decision of a recovery says of the plan, the result and the fresh observation.
abbrev pub IsDecision : FirewallPlan → CapabilityResult → FirewallObservation → Recovery → Type 0
IsDecision p result o desired_verified =
    ¬ IsWithoutEffect result × (policy_of o.owned ≡ some p.desired)
IsDecision p result o prior_verified =
    (policy_of o.owned ≡ policy_of p.prior_owned)
    × (IsWithoutEffect result ⊎ (policy_of o.owned ≢ some p.desired))
IsDecision p result o (rollback plan) =
    ¬ IsWithoutEffect result
    × (policy_of o.owned ≢ some p.desired)
    × (policy_of o.owned ≢ policy_of p.prior_owned)
    × (revision o ≢ none)
    × (plan.target.expected_version ≡ revision o)
    × SameResource plan.target o.request.target
    × (plan.restore_policy ≡ policy_of p.prior_owned)
    × (plan.preserved_state_sha256 ≡ p.preserved_state_sha256)
    × (plan.operator_access ≡ p.operator_access)

module _ (R : Runtime) (o : FirewallObservation) where
  pub target_at-same :
      (t : ResourceTarget)
      → target_at R o ≡ ok t
      → (t.expected_version ≡ revision o) × SameResource t o.request.target
  unfolding target_at
  target_at-same t h =
      let s = o.request.target in
      let (provider, scope, key, resource, version, _) =
        (resource_target_iff R.printable _ _ _ _ _ t).0 h in
      (
        sym (given_of-injective _ _ version),
        record {
          provider = cc;
          scope = cc;
          key = cc;
          resource = sym (given_of-injective _ _ resource);
        },
      )

module _ (R : Runtime) (p : FirewallPlan) (result : CapabilityResult)
    (o : FirewallObservation) where
  drafted : ResourceTarget → RollbackPlan
  drafted target = record {
    target = target;
    adapter_id = p.adapter_id;
    source_revision = p.source_revision;
    supported_operations = p.supported_operations;
    restore_policy = policy_of p.prior_owned;
    preserved_state_sha256 = p.preserved_state_sha256;
    operator_access = p.operator_access;
  }

  rollback_plan-same : (q plan : RollbackPlan) → rollback_plan R q ≡ ok plan → plan ≡ q
  unfolding rollback_plan
  rollback_plan-same q plan h = ground arith

  decided_desired :
      classify R p result o ≡ ok desired_verified → IsDecision p result o desired_verified
  unfolding classify
  decided_desired h = ground arith

  decided_prior : classify R p result o ≡ ok prior_verified → IsDecision p result o prior_verified
  unfolding classify
  decided_prior h = ground arith

  -- A rollback is drafted for the target as it was read.
  rollback_drafted :
      (plan : RollbackPlan)
      → classify R p result o ≡ ok (rollback plan)
      → (t : ResourceTarget) × (target_at R o ≡ ok t) × (plan ≡ drafted t)
  unfolding classify drafted
  rollback_drafted plan h = elim (Result-cases (target_at R o)) [
    | inr (f, e) ↦ absurd (ground arith)
    | inl (t, e) ↦
        let passed : rollback_plan R (drafted t) ≡ ok plan = ground arith in
        (t, e, rollback_plan-same (drafted t) plan passed)
  ]

  rollback_tests :
      (plan : RollbackPlan)
      → classify R p result o ≡ ok (rollback plan)
      → ¬ IsWithoutEffect result
        × (policy_of o.owned ≢ some p.desired)
        × (policy_of o.owned ≢ policy_of p.prior_owned)
        × (revision o ≢ none)
  unfolding classify
  rollback_tests plan h =
      (λ n. ground arith, λ n. ground arith, λ n. ground arith, λ n. ground arith)

  classify-IsDecision :
      (decision : Recovery) → classify R p result o ≡ ok decision → IsDecision p result o decision
  unfolding drafted
  classify-IsDecision desired_verified h = decided_desired h
  classify-IsDecision prior_verified h = decided_prior h
  classify-IsDecision (rollback plan) h =
      let (t, at, e) = rollback_drafted plan h in
      let (version, same) = target_at-same R o t at in
      let (retained, desired, prior, known) = rollback_tests plan h in
      (
        retained,
        desired,
        prior,
        known,
        ap (λ (q : RollbackPlan). q.target.expected_version) e ∙ version,
        subst (λ (q : RollbackPlan). SameResource q.target o.request.target) (sym e) same,
        ap (λ (q : RollbackPlan). q.restore_policy) e,
        ap (λ (q : RollbackPlan). q.preserved_state_sha256) e,
        ap (λ (q : RollbackPlan). q.operator_access) e,
      )

-- A recovery decides as the fresh observation demands. `desired_verified`: something may have been
-- left behind, and the desired policy stands. `prior_verified`: the prior policy stands. A rollback
-- is planned only if something may have been left behind and neither policy stands; it restores the
-- prior policy at the version that was just read, and keeps all that the plan does not own.
pub recovery_plan_sound :
    (R : Runtime) (p : FirewallPlan) (a : ExecutionAuthority) (request : CapabilityRequest)
    (result : CapabilityResult) (o : FirewallObservation) (b : ExecutionAuthority)
    (decision : Recovery)
    → recovery_plan R (exact p) (exact a) (exact request) (exact result) (exact o) (exact b)
      ≡ ok decision
    → IsRequestFor R p a request × IsPreserved p o × IsDecision p result o decision
recovery_plan_sound R p a request result o b decision h =
    let (built, fresh, classified) = recovered R p a request result o b decision h in
    (
      build_mutation_request-IsRequestFor R p a (exact request.request_id) request built,
      fresh-IsPreserved R p o b post_mutation request o fresh,
      classify-IsDecision R p result o decision classified,
    )
