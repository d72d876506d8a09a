-- ===== src/Capability/Tests.antt =====
-- The theorems about the capability contract at concrete requests and results, and runs.
use deployment.Base.{
  ◌≡◌, ◌↔◌, refl, false, true, none, some, exact, ok, err, contract_error, unsupported_capability,
  string_eq, option_eq, list_eq, nat_eq, bool_eq,
}
use native.Mathlib.Decide.{ℕ_discrete}
use deployment.Base.Text.{strip, is_space}
use deployment.Capability.Format.{identity}
use deployment.Capability.Target.{
  inspect, Operations, contains, ResourceTarget, target_eq, operation_eq,
}
use deployment.Capability.Outcome.{observed, not_applicable, ResultFields, outcome_eq, cleanup_eq}
use deployment.Capability.Admit.{admit_request, admit_result}
use deployment.Capability.Lawful.{
  IsCovered, IsLocated, IsBound, Ending, admit_request_iff, admit_request-unsupported_iff,
  admit_result_iff,
}
use deployment.Samples.{
  revision_a, digest_a, ascii, given_text, given_name, every_operation, target_at_version,
  authority_on, request_on, result_on,
}

abbrev target_x : ResourceTarget
target_x = target_at_version (some "7")

request_admitted :
    admit_request
      (exact (request_on "r" inspect target_x))
      (exact (authority_on target_x))
      (exact every_operation)
    ≡ ok tt
unfolding admit_request string_eq target_eq operation_eq
request_admitted = refl

result_admitted :
    admit_result
      (exact (request_on "r" inspect target_x))
      (exact (result_on "r" inspect target_x observed (some "7")))
    ≡ ok tt
unfolding admit_result string_eq option_eq target_eq operation_eq outcome_eq cleanup_eq bool_eq
result_admitted = refl

-- The version that was read is not the one expected.
result_stale :
    admit_result
      (exact (request_on "r" inspect target_x))
      (exact (result_on "r" inspect target_x observed (some "8")))
    ≡ err (contract_error "observed resource version is stale or mismatched")
unfolding admit_result string_eq option_eq target_eq operation_eq outcome_eq cleanup_eq bool_eq
result_stale = refl

-- A space at the end, and a line break within.
identity_padded :
    identity ascii "provider" (given_text "aws ")
    ≡ err (contract_error "provider must be one explicit non-empty identity")
unfolding identity list_eq nat_eq strip is_space ℕ_discrete
identity_padded = refl

admit_request_iff_example :
    (admit_request
        (exact (request_on "r" inspect target_x))
        (exact (authority_on target_x))
        (exact every_operation)
      ≡ ok tt)
    ↔ (IsCovered (request_on "r" inspect target_x) (authority_on target_x)
        × (contains every_operation inspect ≡ true)
        × IsLocated (request_on "r" inspect target_x))
admit_request_iff_example =
    admit_request_iff (request_on "r" inspect target_x) (authority_on target_x) every_operation

abbrev no_operation : Operations
no_operation = record {
  has_create = true;
  has_inspect = false;
  has_rebuild = true;
  has_delete = true;
}

admit_request-unsupported_iff_example :
    (admit_request
        (exact (request_on "r" inspect target_x))
        (exact (authority_on target_x))
        (exact no_operation)
      ≡ err (unsupported_capability "selected adapter does not support this operation"))
    ↔ (IsCovered (request_on "r" inspect target_x) (authority_on target_x)
        × (contains no_operation inspect ≡ false))
admit_request-unsupported_iff_example =
    admit_request-unsupported_iff (request_on "r" inspect target_x) (authority_on target_x)
      no_operation

admit_result_iff_example :
    (admit_result
        (exact (request_on "r" inspect target_x))
        (exact (result_on "r" inspect target_x observed (some "7")))
      ≡ ok tt)
    ↔ (IsBound
          (request_on "r" inspect target_x)
          (result_on "r" inspect target_x observed (some "7"))
        × Ending
            (request_on "r" inspect target_x)
            (result_on "r" inspect target_x observed (some "7")))
admit_result_iff_example =
    admit_result_iff (request_on "r" inspect target_x)
      (result_on "r" inspect target_x observed (some "7"))

abbrev fields : ResultFields
fields = record {
  request_id = given_text "r";
  adapter_id = given_text "adapter";
  source_revision = exact revision_a;
  operation = exact inspect;
  target = exact target_x;
  parameters_sha256 = exact digest_a;
  outcome = exact observed;
  cleanup = exact not_applicable;
  provider_resource_id = given_name (some "fw-1");
  provider_resource_version = given_name (some "7");
  provider_image_id = none;
  diagnostic_code = none;
}
