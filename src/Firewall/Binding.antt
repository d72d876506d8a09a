-- ===== src/Firewall/Binding.antt =====
-- What a request for a mutation is bound to.
use deployment.Base.{
  ◌≡◌, ◌≢◌, sym, ◌∙◌, String, true, none, arith, Arg, exact, ok, Result-cases, inl, inr,
}
use deployment.Base.Runtime.{Runtime}
use deployment.Capability.Target.{rebuild, contains}
use deployment.Capability.Request.{ExecutionAuthority, CapabilityRequest, capability_request}
use deployment.Capability.Construct.{capability_request_iff}
use deployment.Capability.Admit.{admit_request}
use deployment.Capability.Lawful.{IsCovered, admit_request_iff}
use deployment.Firewall.Prefixes.{identity}
use deployment.Firewall.Types.{replace_owned, FirewallPlan}
use deployment.Firewall.Documents.{mutation_document, mutation_parameters_sha256}
use deployment.Firewall.Documents.Injective.{mutation_document-injective}
use deployment.Firewall.Plan.{build_mutation_request}

-- The request asks for exactly what the plan says, under an authority for exactly that.
pub record IsRequestFor (R : Runtime) (p : FirewallPlan) (a : ExecutionAuthority)
    (r : CapabilityRequest) : Type 0 where
  pub replaces : p.action ≡ replace_owned
  pub fresh : p.target.expected_version ≢ none
  pub operation : r.operation ≡ rebuild
  pub adapter : r.adapter_id ≡ p.adapter_id
  pub source : r.source_revision ≡ p.source_revision
  pub target : r.target ≡ p.target
  pub parameters : r.parameters_sha256 ≡ R.digest (mutation_document p)
  pub covered : IsCovered r a
  pub supported : contains p.supported_operations rebuild ≡ true

module _ (R : Runtime) (p : FirewallPlan) (a : ExecutionAuthority) (id : Arg String)
    (r : CapabilityRequest) (h : build_mutation_request R (exact p) (exact a) id ≡ ok r) where
  constructed :
      (i : String) × (capability_request R.printable
          (exact i)
          (exact p.adapter_id)
          (exact p.source_revision)
          (exact rebuild)
          (exact p.target)
          (exact (mutation_parameters_sha256 R p))
        ≡ ok r)
  unfolding build_mutation_request
  constructed = elim (Result-cases (identity R "mutation request identity" id)) [
    | inl (i, e) ↦ (i, ground arith)
    | inr (f, e) ↦ absurd (ground arith)
  ]

  admitted : admit_request (exact r) (exact a) (exact p.supported_operations) ≡ ok tt
  unfolding build_mutation_request
  admitted = ground arith

  guarded : (p.action ≡ replace_owned) × (p.target.expected_version ≢ none)
  unfolding build_mutation_request
  guarded = ground arith

  request_for : IsRequestFor R p a r
  unfolding mutation_parameters_sha256
  request_for =
      let (i, made) = constructed in
      let (_, adapter, source, operation, target, parameters, _) =
        (capability_request_iff R.printable (exact i) (exact p.adapter_id) (exact p.source_revision)
            (exact rebuild) (exact p.target) (exact (mutation_parameters_sha256 R p)) r).0
          made in
      let same_operation : r.operation ≡ rebuild = cc in
      let (covered, supported, _) = (admit_request_iff r a p.supported_operations).0 admitted in
      record {
        replaces = guarded.0;
        fresh = guarded.1;
        operation = same_operation;
        adapter = cc;
        source = cc;
        target = cc;
        parameters = cc;
        covered = covered;
        supported = rw (← same_operation) supported;
      }

-- A request is built only for a plan that replaces something at a known version. It asks for the
-- rebuild that the plan says, carries the digest of the whole plan, and its authority covers it.
pub build_mutation_request-IsRequestFor :
    (R : Runtime) (p : FirewallPlan) (a : ExecutionAuthority) (id : Arg String)
    (r : CapabilityRequest)
    → build_mutation_request R (exact p) (exact a) id ≡ ok r
    → IsRequestFor R p a r
build_mutation_request-IsRequestFor R p a id r h = request_for R p a id r h

-- One authority serves one plan: if requests are built for two plans under it, and the documents of
-- the two plans do not collide under the digest, then the plans are equal in every field.
pub build_mutation_request-injective :
    (R : Runtime) (p q : FirewallPlan) (a : ExecutionAuthority) (i j : Arg String)
    (r s : CapabilityRequest)
    → (R.digest (mutation_document p) ≡ R.digest (mutation_document q)
        → mutation_document p ≡ mutation_document q)
    → build_mutation_request R (exact p) (exact a) i ≡ ok r
    → build_mutation_request R (exact q) (exact a) j ≡ ok s
    → p ≡ q
build_mutation_request-injective R p q a i j r s no_collision hp hq =
    let bp = request_for R p a i r hp in
    let bq = request_for R q a j s hq in
    mutation_document-injective p q (
      no_collision
        (sym bp.parameters ∙ bp.covered.parameters ∙ sym bq.covered.parameters ∙ bq.parameters))
