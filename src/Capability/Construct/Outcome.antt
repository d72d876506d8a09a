-- ===== src/Capability/Construct/Outcome.antt =====
-- What `CapabilityResult` admits: construction succeeds exactly on well-formed fields.
use deployment.Base.{
  ℕ, ◌≤◌, ◌≡◌, ◌↔◌, String, Bool, arith, length, Arg, exact, ok, Option, optional, given_of,
}
use deployment.Base.Text.{codes}
use deployment.Capability.Format.{identity, matching, sha1, sha256, diagnostic}
use deployment.Capability.Format.Laws.{IsIdentity, identity_iff, matching_iff, optional_iff, AllOf}
use deployment.Capability.Construct.{Matches}
use deployment.Capability.Outcome.{
  CapabilityResult, ResultFields, capability_result, diagnostic_code,
}

-- A text of the diagnostic format with at most 128 characters.
abbrev pub IsDiagnostic : String → Type 0
IsDiagnostic text = Matches diagnostic text × (length (codes text) ≤ 128)

diagnostic_code_iff :
    (value : Arg String) (text : String)
    → (diagnostic_code value ≡ ok text) ↔ ((value ≡ exact text) × IsDiagnostic text)
unfolding diagnostic_code
diagnostic_code_iff value text = (
  λ h. let (v, m) = (matches value text).0 (ground arith) in (v, (m, ground arith)),
  λ (v, (m, b)). rw ((matches value text).1 (v, m)) (ground arith),
)
  where
    matches :
        (value : Arg String) (text : String)
        → (matching diagnostic "diagnostic code is outside the bounded format" value ≡ ok text)
          ↔ ((value ≡ exact text) × Matches diagnostic text)
    matches = matching_iff diagnostic "diagnostic code is outside the bounded format"

module _ (printable : ℕ → Bool) where
  pub record IsResult (r : CapabilityResult) : Type 0 where
    pub request_id : IsIdentity printable r.request_id
    pub adapter_id : IsIdentity printable r.adapter_id
    pub source_revision : Matches sha1 r.source_revision
    pub parameters_sha256 : Matches sha256 r.parameters_sha256
    pub provider_resource_id : AllOf (IsIdentity printable) r.provider_resource_id
    pub provider_resource_version : AllOf (IsIdentity printable) r.provider_resource_version
    pub provider_image_id : AllOf (IsIdentity printable) r.provider_image_id
    pub diagnostic_code : AllOf IsDiagnostic r.diagnostic_code

  -- The result holds the fields as given, each of its own type.
  pub record Holds (g : ResultFields) (r : CapabilityResult) : Type 0 where
    pub request_id : g.request_id ≡ exact r.request_id
    pub adapter_id : g.adapter_id ≡ exact r.adapter_id
    pub source_revision : g.source_revision ≡ exact r.source_revision
    pub parameters_sha256 : g.parameters_sha256 ≡ exact r.parameters_sha256
    pub operation : g.operation ≡ exact r.operation
    pub target : g.target ≡ exact r.target
    pub outcome : g.outcome ≡ exact r.outcome
    pub cleanup : g.cleanup ≡ exact r.cleanup
    pub provider_resource_id : g.provider_resource_id ≡ given_of r.provider_resource_id
    pub provider_resource_version :
        g.provider_resource_version ≡ given_of r.provider_resource_version
    pub provider_image_id : g.provider_image_id ≡ given_of r.provider_image_id
    pub diagnostic_code : g.diagnostic_code ≡ given_of r.diagnostic_code

  optional-identity_iff :
      (label : String) (given : Option (Arg String)) (kept : Option String)
      → (optional (identity printable label) given ≡ ok kept)
        ↔ ((given ≡ given_of kept) × AllOf (IsIdentity printable) kept)
  optional-identity_iff label = optional_iff _ _ (identity_iff printable label)

  typed_fields :
      (g : ResultFields) (r : CapabilityResult)
      → capability_result printable g ≡ ok r
      → (g.operation ≡ exact r.operation)
        × (g.target ≡ exact r.target)
        × (g.outcome ≡ exact r.outcome)
        × (g.cleanup ≡ exact r.cleanup)
  unfolding capability_result
  typed_fields g r h = ground arith

  -- `CapabilityResult(...)` gives a result exactly when every text field has its format and every
  -- other field its type; the result holds the fields as given.
  pub capability_result_iff :
      (g : ResultFields) (r : CapabilityResult)
      → (capability_result printable g ≡ ok r) ↔ (Holds g r × IsResult r)
  unfolding capability_result
  capability_result_iff g r = (
    λ h.
        let kept = typed_fields g r h in
        let request_id_of =
          (identity_iff printable "result request identity" g.request_id r.request_id).0
            (ground arith) in
        let adapter_id_of =
          (identity_iff printable "result adapter identity" g.adapter_id r.adapter_id).0
            (ground arith) in
        let source_revision_of =
          (matching_iff sha1 "result requires one lowercase full source SHA" g.source_revision
              r.source_revision).0
            (ground arith) in
        let parameters_sha256_of =
          (matching_iff sha256 "result requires one SHA-256 parameter binding" g.parameters_sha256
              r.parameters_sha256).0
            (ground arith) in
        let provider_resource_id_of =
          (optional-identity_iff "observed provider resource identity" g.provider_resource_id
              r.provider_resource_id).0
            (ground arith) in
        let provider_resource_version_of =
          (optional-identity_iff "observed provider resource version" g.provider_resource_version
              r.provider_resource_version).0
            (ground arith) in
        let provider_image_id_of =
          (optional-identity_iff "observed provider image identity" g.provider_image_id
              r.provider_image_id).0
            (ground arith) in
        let diagnostic_code_of =
          (optional_iff _ _ diagnostic_code_iff g.diagnostic_code r.diagnostic_code).0
            (ground arith) in
        (
          record {
            request_id = request_id_of.0;
            adapter_id = adapter_id_of.0;
            source_revision = source_revision_of.0;
            parameters_sha256 = parameters_sha256_of.0;
            provider_resource_id = provider_resource_id_of.0;
            provider_resource_version = provider_resource_version_of.0;
            provider_image_id = provider_image_id_of.0;
            diagnostic_code = diagnostic_code_of.0;
            operation = kept.0;
            target = kept.1;
            outcome = kept.2;
            cleanup = kept.3;
          },
          record {
            request_id = request_id_of.1;
            adapter_id = adapter_id_of.1;
            source_revision = source_revision_of.1;
            parameters_sha256 = parameters_sha256_of.1;
            provider_resource_id = provider_resource_id_of.1;
            provider_resource_version = provider_resource_version_of.1;
            provider_image_id = provider_image_id_of.1;
            diagnostic_code = diagnostic_code_of.1;
          },
        ),
    λ (holds, is). rw (
      (identity_iff printable "result request identity" g.request_id r.request_id).1
          (holds.request_id, is.request_id),
      (identity_iff printable "result adapter identity" g.adapter_id r.adapter_id).1
          (holds.adapter_id, is.adapter_id),
      (matching_iff sha1 "result requires one lowercase full source SHA" g.source_revision
            r.source_revision).1
          (holds.source_revision, is.source_revision),
      (matching_iff sha256 "result requires one SHA-256 parameter binding" g.parameters_sha256
            r.parameters_sha256).1
          (holds.parameters_sha256, is.parameters_sha256),
      holds.operation,
      holds.target,
      holds.outcome,
      holds.cleanup,
      (optional-identity_iff "observed provider resource identity" g.provider_resource_id
            r.provider_resource_id).1
          (holds.provider_resource_id, is.provider_resource_id),
      (optional-identity_iff "observed provider resource version" g.provider_resource_version
            r.provider_resource_version).1
          (holds.provider_resource_version, is.provider_resource_version),
      (optional-identity_iff "observed provider image identity" g.provider_image_id
            r.provider_image_id).1
          (holds.provider_image_id, is.provider_image_id),
      (optional_iff _ _ diagnostic_code_iff g.diagnostic_code r.diagnostic_code).1
          (holds.diagnostic_code, is.diagnostic_code),
    ),
  )
