-- ===== src/Capability/Request.antt =====
-- scripts/provider-capability-contract.py: `ExecutionAuthority` and `CapabilityRequest`.
use deployment.Base.{
  ℕ, String, Bool, not, ◌||◌, Arg, Result, ok, raise_if, require, ◌>>=◌, ◌>>◌, Eq, string_dec,
}
use deployment.Capability.Format.{identity, matching, sha1, sha256}
use deployment.Capability.Target.{
  Operation, Operation-discrete, Operations, ResourceTarget, ResourceTarget-discrete,
}

pub record ExecutionAuthority : Type 0 where
  pub authorization_id : String
  pub adapter_id : String
  pub source_revision : String
  pub target : ResourceTarget
  pub operations : Operations
  pub parameters_sha256 : String
  pub credential_mechanism : String

pub record CapabilityRequest : Type 0 where
  pub request_id : String
  pub adapter_id : String
  pub source_revision : String
  pub operation : Operation
  pub target : ResourceTarget
  pub parameters_sha256 : String

pub CapabilityRequest-discrete : Discrete CapabilityRequest
CapabilityRequest-discrete = hlevel (string_dec, Operation-discrete, ResourceTarget-discrete)

instance unfoldable pub request_eq : Eq CapabilityRequest
unfolding CapabilityRequest-discrete string_dec Operation-discrete ResourceTarget-discrete
request_eq = record { dec = CapabilityRequest-discrete }

abbrev pub is_empty : Operations → Bool
is_empty s = not (s.has_create || s.has_inspect || s.has_rebuild || s.has_delete)

module _ (printable : ℕ → Bool) where
  -- `ExecutionAuthority(...)`: the checks of `__post_init__`. `operations` is `other` unless it is
  -- a frozenset of `Operation` members.
  unfoldable pub execution_authority :
      Arg String
      → Arg String
      → Arg String
      → Arg ResourceTarget
      → Arg Operations
      → Arg String
      → Arg String
      → Result ExecutionAuthority
  execution_authority authorization_id adapter_id source_revision target operations
        parameters_sha256 credential_mechanism =
      do
        authorization' ← identity printable "authorization identity" authorization_id
        adapter' ← identity printable "adapter identity" adapter_id
        credential' ← identity printable "credential mechanism" credential_mechanism
        revision' ← matching sha1 "authority requires one lowercase full source SHA" source_revision
        parameters' ←
            matching sha256 "authority requires one SHA-256 parameter binding" parameters_sha256
        target' ← require target "authority requires one exact target"
        operations' ← require operations "authority requires a closed allowed operation set"
        raise_if (is_empty operations') "authority requires a closed allowed operation set"
        ok (record {
          authorization_id = authorization';
          adapter_id = adapter';
          source_revision = revision';
          target = target';
          operations = operations';
          parameters_sha256 = parameters';
          credential_mechanism = credential';
        })

  -- `CapabilityRequest(...)`: the checks of `__post_init__`.
  unfoldable pub capability_request :
      Arg String
      → Arg String
      → Arg String
      → Arg Operation
      → Arg ResourceTarget
      → Arg String
      → Result CapabilityRequest
  capability_request request_id adapter_id source_revision operation target parameters_sha256 = do
    request' ← identity printable "request identity" request_id
    adapter' ← identity printable "adapter identity" adapter_id
    revision' ← matching sha1 "request requires one lowercase full source SHA" source_revision
    operation' ← require operation "request operation or target is invalid"
    target' ← require target "request operation or target is invalid"
    parameters' ← matching sha256 "adapter parameters require one SHA-256 binding" parameters_sha256
    ok (record {
      request_id = request';
      adapter_id = adapter';
      source_revision = revision';
      operation = operation';
      target = target';
      parameters_sha256 = parameters';
    })
