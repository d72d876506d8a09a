-- ===== src/Samples.antt =====
-- Concrete values that the tests share.
use deployment.Base.{ℕ, ◌&&◌, leb, String, Bool, true, Option, none, some, Arg, exact, given_of}
use deployment.Capability.Target.{Operation, Operations, ResourceTarget}
use deployment.Capability.Request.{ExecutionAuthority, CapabilityRequest}
use deployment.Capability.Outcome.{Outcome, not_applicable, CapabilityResult}

abbrev pub revision_a : String
revision_a = "aaaaaaaaaaaaaaaaaaaaaaaaaaaaaaaaaaaaaaaa"

abbrev pub digest_a : String
digest_a = "aaaaaaaaaaaaaaaaaaaaaaaaaaaaaaaaaaaaaaaaaaaaaaaaaaaaaaaaaaaaaaaa"

-- Every ASCII character from the space to the tilde is printable.
abbrev pub ascii : ℕ → Bool
ascii c = leb 32 c && leb c 126

abbrev pub given_text : String → Arg String
given_text t = exact t

abbrev pub given_name : Option String → Option (Arg String)
given_name t = given_of t

abbrev pub every_operation : Operations
every_operation = record {
  has_create = true;
  has_inspect = true;
  has_rebuild = true;
  has_delete = true;
}

abbrev pub target_at_version : Option String → ResourceTarget
target_at_version version = record {
  provider = "provider";
  scope = "scope";
  requested_key = "firewall";
  provider_resource_id = some "fw-1";
  expected_version = version;
}

abbrev pub authority_on : ResourceTarget → ExecutionAuthority
authority_on target = record {
  authorization_id = "authorization";
  adapter_id = "adapter";
  source_revision = revision_a;
  target = target;
  operations = every_operation;
  parameters_sha256 = digest_a;
  credential_mechanism = "credential";
}

abbrev pub request_on : String → Operation → ResourceTarget → CapabilityRequest
request_on id operation target = record {
  request_id = id;
  adapter_id = "adapter";
  source_revision = revision_a;
  operation = operation;
  target = target;
  parameters_sha256 = digest_a;
}

abbrev pub result_on :
    String → Operation → ResourceTarget → Outcome → Option String → CapabilityResult
result_on id operation target outcome version = record {
  request_id = id;
  adapter_id = "adapter";
  source_revision = revision_a;
  operation = operation;
  target = target;
  parameters_sha256 = digest_a;
  outcome = outcome;
  cleanup = not_applicable;
  provider_resource_id = some "fw-1";
  provider_resource_version = version;
  provider_image_id = none;
  diagnostic_code = none;
}
