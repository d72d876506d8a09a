-- ===== src/Capability/Construct.antt =====
-- What the dataclasses admit: construction succeeds exactly on well-formed fields, and keeps them.
pub mod Outcome
use deployment.Base.{
  ℕ, ◌≡◌, ◌≢◌, ◌↔◌, refl, String, Bool, true, false, List, [], ◌∷◌, arith, ap, Arg, exact, other,
  ok, Option, none, some, Result, optional, given_of, ◌>>=◌, >>=-eq-ok,
}
use deployment.Base.Text.{codes}
use deployment.Capability.Format.{identity, matching, sha1, sha256}
use deployment.Capability.Format.Laws.{IsIdentity, identity_iff, matching_iff, optional_iff, AllOf}
use deployment.Capability.Target.{Operation, Operations, ResourceTarget, resource_target}
use deployment.Capability.Request.{
  ExecutionAuthority, execution_authority, is_empty, CapabilityRequest, capability_request,
}

module _ (printable : ℕ → Bool) where
  pub record IsTarget (t : ResourceTarget) : Type 0 where
    pub provider : IsIdentity printable t.provider
    pub scope : IsIdentity printable t.scope
    pub requested_key : IsIdentity printable t.requested_key
    pub resource : AllOf (IsIdentity printable) t.provider_resource_id
    pub version : AllOf (IsIdentity printable) t.expected_version

  resource_iff :
      (given : Option (Arg String)) (kept : Option String)
      → (optional (identity printable "provider resource identity") given ≡ ok kept)
        ↔ ((given ≡ given_of kept) × AllOf (IsIdentity printable) kept)
  resource_iff = optional_iff _ _ (identity_iff printable "provider resource identity")

  version_iff :
      (given : Option (Arg String)) (kept : Option String)
      → (optional (identity printable "expected provider resource version") given ≡ ok kept)
        ↔ ((given ≡ given_of kept) × AllOf (IsIdentity printable) kept)
  version_iff = optional_iff _ _ (identity_iff printable "expected provider resource version")

  -- `ResourceTarget(...)` gives a target exactly when every field that is given is an identity, and
  -- the target holds those fields.
  pub resource_target_iff :
      (provider scope key : Arg String) (resource version : Option (Arg String))
      (t : ResourceTarget)
      → (resource_target printable provider scope key resource version ≡ ok t) ↔ (
          (provider ≡ exact t.provider)
          × (scope ≡ exact t.scope)
          × (key ≡ exact t.requested_key)
          × (resource ≡ given_of t.provider_resource_id)
          × (version ≡ given_of t.expected_version)
          × IsTarget t)
  unfolding resource_target
  resource_target_iff provider scope key resource version t = (
    λ h.
        let (p, pi) = (identity_iff printable "provider" provider t.provider).0 (ground arith) in
        let (s, si) = (identity_iff printable "provider scope" scope t.scope).0 (ground arith) in
        let (k, ki) =
          (identity_iff printable "requested target key" key t.requested_key).0 (ground arith) in
        let (r, ri) = (resource_iff resource t.provider_resource_id).0 (ground arith) in
        let (v, vi) = (version_iff version t.expected_version).0 (ground arith) in
        (
          p,
          s,
          k,
          r,
          v,
          record { provider = pi; scope = si; requested_key = ki; resource = ri; version = vi },
        ),
    λ (p, s, k, r, v, i). rw (
      (identity_iff printable "provider" provider t.provider).1 (p, i.provider),
      (identity_iff printable "provider scope" scope t.scope).1 (s, i.scope),
      (identity_iff printable "requested target key" key t.requested_key).1 (k, i.requested_key),
      (resource_iff resource t.provider_resource_id).1 (r, i.resource),
      (version_iff version t.expected_version).1 (v, i.version),
    ),
  )

-- A text that a pattern matches.
abbrev pub Matches : (List ℕ → Bool) → String → Type 0
Matches pattern text = pattern (codes text) ≡ true

module _ (printable : ℕ → Bool) where
  pub record IsRequest (r : CapabilityRequest) : Type 0 where
    pub request_id : IsIdentity printable r.request_id
    pub adapter_id : IsIdentity printable r.adapter_id
    pub source : Matches sha1 r.source_revision
    pub parameters : Matches sha256 r.parameters_sha256

  -- `CapabilityRequest(...)` gives a request exactly when its two names are identities, its source
  -- and parameters are lowercase digests of 40 and 64 digits, and its operation and target have
  -- their types; the request holds the fields as given.
  pub capability_request_iff :
      (request adapter source : Arg String) (operation : Arg Operation)
      (target : Arg ResourceTarget) (parameters : Arg String) (r : CapabilityRequest)
      → (capability_request printable request adapter source operation target parameters ≡ ok r) ↔ (
          (request ≡ exact r.request_id)
          × (adapter ≡ exact r.adapter_id)
          × (source ≡ exact r.source_revision)
          × (operation ≡ exact r.operation)
          × (target ≡ exact r.target)
          × (parameters ≡ exact r.parameters_sha256)
          × IsRequest r)
  unfolding capability_request
  capability_request_iff request adapter source operation target parameters r = (
    λ h.
        let (q, qi) =
          (identity_iff printable "request identity" request r.request_id).0 (ground arith) in
        let (a, ai) =
          (identity_iff printable "adapter identity" adapter r.adapter_id).0 (ground arith) in
        let (s, si) = (source_iff source r.source_revision).0 (ground arith) in
        let (p, pi) = (parameters_iff parameters r.parameters_sha256).0 (ground arith) in
        (
          q,
          a,
          s,
          ground arith,
          ground arith,
          p,
          record { request_id = qi; adapter_id = ai; source = si; parameters = pi },
        ),
    λ (q, a, s, o, t, p, i). rw (
      (identity_iff printable "request identity" request r.request_id).1 (q, i.request_id),
      (identity_iff printable "adapter identity" adapter r.adapter_id).1 (a, i.adapter_id),
      (source_iff source r.source_revision).1 (s, i.source),
      (parameters_iff parameters r.parameters_sha256).1 (p, i.parameters),
      o,
      t,
    ),
  )
    where
      source_iff :
          (value : Arg String) (text : String)
          → (matching sha1 "request requires one lowercase full source SHA" value ≡ ok text)
            ↔ ((value ≡ exact text) × Matches sha1 text)
      source_iff = matching_iff sha1 "request requires one lowercase full source SHA"

      parameters_iff :
          (value : Arg String) (text : String)
          → (matching sha256 "adapter parameters require one SHA-256 binding" value ≡ ok text)
            ↔ ((value ≡ exact text) × Matches sha256 text)
      parameters_iff = matching_iff sha256 "adapter parameters require one SHA-256 binding"

module _ (printable : ℕ → Bool) where
  pub record IsAuthority (a : ExecutionAuthority) : Type 0 where
    pub authorization_id : IsIdentity printable a.authorization_id
    pub adapter_id : IsIdentity printable a.adapter_id
    pub credential : IsIdentity printable a.credential_mechanism
    pub source : Matches sha1 a.source_revision
    pub parameters : Matches sha256 a.parameters_sha256
    pub some_operation : is_empty a.operations ≡ false

  -- `ExecutionAuthority(...)` gives an authority exactly when its three names are identities, its
  -- source and parameters are lowercase digests of 40 and 64 digits, its target has its type, and
  -- its set of operations is not empty; the authority holds the fields as given.
  pub execution_authority_iff :
      (authorization adapter source : Arg String) (target : Arg ResourceTarget)
      (operations : Arg Operations) (parameters credential : Arg String) (a : ExecutionAuthority)
      → (execution_authority printable authorization adapter source target operations parameters
            credential
          ≡ ok a)
        ↔ ((authorization ≡ exact a.authorization_id)
            × (adapter ≡ exact a.adapter_id)
            × (source ≡ exact a.source_revision)
            × (target ≡ exact a.target)
            × (operations ≡ exact a.operations)
            × (parameters ≡ exact a.parameters_sha256)
            × (credential ≡ exact a.credential_mechanism)
            × IsAuthority a)
  unfolding execution_authority
  execution_authority_iff authorization adapter source target operations parameters credential a = (
    λ h.
        let (q, qi) =
          (identity_iff printable "authorization identity" authorization a.authorization_id).0
            (ground arith) in
        let (d, di) =
          (identity_iff printable "adapter identity" adapter a.adapter_id).0 (ground arith) in
        let (c, ci) =
          (identity_iff printable "credential mechanism" credential a.credential_mechanism).0
            (ground arith) in
        let (s, si) = (source_iff source a.source_revision).0 (ground arith) in
        let (p, pi) = (parameters_iff parameters a.parameters_sha256).0 (ground arith) in
        (
          q,
          d,
          s,
          ground arith,
          ground arith,
          p,
          c,
          record {
            authorization_id = qi;
            adapter_id = di;
            credential = ci;
            source = si;
            parameters = pi;
            some_operation = ground arith;
          },
        ),
    λ (q, d, s, t, o, p, c, i).
        rw
          (
            (identity_iff printable "authorization identity" authorization a.authorization_id).1
                (q, i.authorization_id),
            (identity_iff printable "adapter identity" adapter a.adapter_id).1 (d, i.adapter_id),
            (identity_iff printable "credential mechanism" credential a.credential_mechanism).1
                (c, i.credential),
            (source_iff source a.source_revision).1 (s, i.source),
            (parameters_iff parameters a.parameters_sha256).1 (p, i.parameters),
            o,
            t,
          )
          (ground (arith, i.some_operation)),
  )
    where
      source_iff :
          (value : Arg String) (text : String)
          → (matching sha1 "authority requires one lowercase full source SHA" value ≡ ok text)
            ↔ ((value ≡ exact text) × Matches sha1 text)
      source_iff = matching_iff sha1 "authority requires one lowercase full source SHA"

      parameters_iff :
          (value : Arg String) (text : String)
          → (matching sha256 "authority requires one SHA-256 parameter binding" value ≡ ok text)
            ↔ ((value ≡ exact text) × Matches sha256 text)
      parameters_iff = matching_iff sha256 "authority requires one SHA-256 parameter binding"
