-- ===== src/Firewall/Observed.antt =====
-- What an admitted observation shows.
use deployment.Base.{◌≡◌, ◌⊎◌, true, false, Option, none, some, arith, Arg, exact, ok}
use deployment.Base.Runtime.{Runtime}
use deployment.Capability.Target.{inspect, ResourceTarget}
use deployment.Capability.Request.{ExecutionAuthority, CapabilityRequest}
use deployment.Capability.Outcome.{CapabilityResult, observed}
use deployment.Capability.Admit.{admit_request, admit_result}
use deployment.Capability.Lawful.{
  IsCovered, admit_request_iff, IsBound, Ending, refused, failed_read, failed_change, deleted,
  changed, inspected, IsReadBack, admit_result_iff,
}
use deployment.Firewall.Types.{ObservationPhase, FirewallObservation, revision}
use deployment.Firewall.Documents.{inspection_parameters_sha256}
use deployment.Firewall.Observe.{admit_observation, same_phase, elsewhere}

-- The two targets name one resource.
pub record SameResource (s t : ResourceTarget) : Type 0 where
  pub provider : s.provider ≡ t.provider
  pub scope : s.scope ≡ t.scope
  pub key : s.requested_key ≡ t.requested_key
  pub resource : s.provider_resource_id ≡ t.provider_resource_id

abbrev pub IsAt : Option ResourceTarget → ResourceTarget → Type 0
IsAt none target = Unit
IsAt (some expected) target = SameResource target expected

-- An authorized inspection of the phase, bound to its predecessor, that has read the resource back.
pub record Observed (R : Runtime) (o : FirewallObservation) (authority : ExecutionAuthority)
    (phase : ObservationPhase) (expected : Option ResourceTarget)
    (predecessor : Option (Arg CapabilityRequest)) : Type 0 where
  pub at_phase : o.phase ≡ phase
  pub parameters :
      inspection_parameters_sha256 R
        (exact o.request.target)
        (exact phase)
        (exact o.supported_operations)
        predecessor
      ≡ ok o.request.parameters_sha256
  pub covered : IsCovered o.request authority
  pub inspects : o.request.operation ≡ inspect
  pub shown : o.result.outcome ≡ observed
  pub bound : IsBound o.request o.result
  pub read : IsReadBack o.request o.result
  pub fresh :
      (o.request.target.expected_version ≡ none) ⊎ (revision o ≡ o.request.target.expected_version)
  pub at_target : IsAt expected o.request.target

same_phase-eq : (p q : ObservationPhase) → same_phase p q ≡ true → p ≡ q
same_phase-eq p q h = ground arith

elsewhere-IsAt :
    (expected : Option ResourceTarget) (t : ResourceTarget)
    → elsewhere expected t ≡ false
    → IsAt expected t
elsewhere-IsAt none t h = tt
elsewhere-IsAt (some e) t h = ground arith

-- The ending of an inspection that was observed.
inspected_lem :
    (request : CapabilityRequest) (result : CapabilityResult)
    → result.outcome ≡ observed
    → Ending request result
    → IsReadBack request result
      × ((request.target.expected_version ≡ none)
          ⊎ (result.provider_resource_version ≡ request.target.expected_version))
inspected_lem request result e (refused o c k d) = absurd (ground arith)
inspected_lem request result e (failed_read o p c d m) = absurd (ground arith)
inspected_lem request result e (failed_change o p c d m) = absurd (ground arith)
inspected_lem request result e (deleted o p c k d) = absurd (ground arith)
inspected_lem request result e (changed o p r) = absurd (ground arith)
inspected_lem request result e (inspected o p r v) = (r, v)

module _ (R : Runtime) (o : FirewallObservation) (authority : ExecutionAuthority)
    (phase : ObservationPhase) (expected : Option ResourceTarget)
    (predecessor : Option (Arg CapabilityRequest)) (kept : FirewallObservation)
    (h : admit_observation R (exact o) (exact authority) phase expected predecessor ≡ ok kept) where
  kept_same : kept ≡ o
  unfolding admit_observation
  kept_same = ground arith

  requested :
      admit_request (exact o.request) (exact authority) (exact o.supported_operations) ≡ ok tt
  unfolding admit_observation
  requested = ground arith

  resulted : admit_result (exact o.request) (exact o.result) ≡ ok tt
  unfolding admit_observation
  resulted = ground arith

  parameters_of :
      inspection_parameters_sha256 R
        (exact o.request.target)
        (exact phase)
        (exact o.supported_operations)
        predecessor
      ≡ ok o.request.parameters_sha256
  unfolding admit_observation
  parameters_of = ground arith

  tests_of :
      (same_phase o.phase phase ≡ true)
      × (o.request.operation ≡ inspect)
      × (o.result.outcome ≡ observed)
      × (elsewhere expected o.request.target ≡ false)
  unfolding admit_observation
  tests_of = ground arith

  observation_holds : Observed R o authority phase expected predecessor
  observation_holds =
      let (p, i, s, e) = tests_of in
      let (b, ends) = (admit_result_iff o.request o.result).0 resulted in
      let (read_back, version) = inspected_lem o.request o.result s ends in
      record {
        at_phase = same_phase-eq o.phase phase p;
        parameters = parameters_of;
        covered = ((admit_request_iff o.request authority o.supported_operations).0 requested).0;
        inspects = i;
        shown = s;
        bound = b;
        read = read_back;
        fresh = version;
        at_target = elsewhere-IsAt expected o.request.target e;
      }

-- An observation is admitted only unchanged, and only if it is an authorized inspection of the right
-- phase and resource, bound by digest to the transaction before it, whose result is bound to it and
-- shows the resource at the expected version.
pub admit_observation-Observed :
    (R : Runtime) (o : FirewallObservation) (authority : ExecutionAuthority)
    (phase : ObservationPhase) (expected : Option ResourceTarget)
    (predecessor : Option (Arg CapabilityRequest)) (kept : FirewallObservation)
    → admit_observation R (exact o) (exact authority) phase expected predecessor ≡ ok kept
    → (kept ≡ o) × Observed R o authority phase expected predecessor
admit_observation-Observed R o authority phase expected predecessor kept h = (
  kept_same R o authority phase expected predecessor kept h,
  observation_holds R o authority phase expected predecessor kept h,
)
