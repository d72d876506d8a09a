-- ===== src/Firewall/Tests.antt =====
-- One mutation of a firewall that is verified, one that drifts and is rolled back, and the theorems
-- at these.
use native.Mathlib.Decide.{ℕ_discrete}
use deployment.Base.{
  ◌≡◌, refl, String, Bool, true, Option, none, some, [], ◌∷◌, if◌then◌else◌, exact, ok, ◌==◌,
  string_eq, option_eq, list_eq, nat_eq, bool_eq,
}
use deployment.Base.Text.{strip, is_space, utf8_length, is_hex_of_length}
use deployment.Base.Runtime.{Network, Runtime}
use deployment.Capability.Format.{identity, matching}
use deployment.Capability.Target.{
  inspect, rebuild, resource_target, operation_eq, operations_eq, target_eq,
}
use deployment.Capability.Request.{
  ExecutionAuthority, CapabilityRequest, capability_request, request_eq,
}
use deployment.Capability.Outcome.{CapabilityResult, applied, observed, outcome_eq, cleanup_eq}
use deployment.Capability.Admit.{admit_request, admit_result}
use deployment.Lkg.Candidate.{Candidate}
use deployment.Firewall.Prefixes as Prefixes
use deployment.Firewall.Types.{
  ObservationPhase, current, post_mutation, post_rollback, protected, protected_origin, complete,
  replace_owned, FirewallIntent, FirewallPolicy, OwnedFirewallPolicy, FirewallObservation,
  FirewallPlan, RollbackPlan, firewall_policy, firewall_plan, rollback_plan, policy_eq,
}
use deployment.Firewall.Documents.{
  inspection_parameters_sha256, mutation_parameters_sha256, rollback_parameters_sha256,
}
use deployment.Firewall.Observe.{admit_observation}
use deployment.Firewall.Observed.{Observed, admit_observation-Observed}
use deployment.Firewall.Plan.{plan, build_mutation_request, admit_mutation_context}
use deployment.Firewall.Binding.{IsRequestFor, build_mutation_request-injective}
use deployment.Firewall.Planned.{IsPlanFor, plan_sound}
use deployment.Firewall.Verify.{rollback, policy_of, admit_fresh_observation, recovery_plan, verify}
use deployment.Firewall.Rollback.{build_rollback_request, admit_rollback_context, verify_rollback}
use deployment.Firewall.Recovery.{IsPreserved, IsDecision, verify_sound, recovery_plan_sound}
use deployment.Firewall.RoundTrip.{rollback_restores}
use deployment.Samples.{
  revision_a, digest_a, ascii, every_operation, target_at_version, authority_on, request_on,
  result_on,
}

abbrev network_four : Network
network_four = record { version = 4; text = "192.0.2.0/24"; packed = 3221225984; prefixlen = 24 }

abbrev network_six : Network
network_six = record {
  version = 6;
  text = "2001:db8::/32";
  packed = 0x20010db8000000000000000000000000;
  prefixlen = 32;
}

abbrev R : Runtime
R = record {
  printable = ascii;
  ip_network = λ s.
      if s == "192.0.2.0/24"
      then some network_four
      else if s == "2001:db8::/32"
      then some network_six
      else none;
  digest = λ document. digest_a;
}

abbrev intent : FirewallIntent
intent = record { edge_mode = protected; origin_protocol = "tcp"; origin_port = 443 }

abbrev accepted : Candidate
accepted = record {
  schema_version = 1;
  source_url = "https://ip-ranges.amazonaws.com/ip-ranges.json";
  source_sync_token = "1";
  source_create_date = "1970-01-01-00-00-01";
  retrieved_at = "1970-01-01T00:00:01Z";
  service = "CLOUDFRONT_ORIGIN_FACING";
  ipv4_prefixes = "192.0.2.0/24" ∷ [];
  ipv6_prefixes = "2001:db8::/32" ∷ [];
  candidate_sha256 = digest_a;
}

abbrev wanted : FirewallPolicy
wanted = record {
  protocol = "tcp";
  port = 443;
  ipv4_sources = "192.0.2.0/24" ∷ [];
  ipv6_sources = "2001:db8::/32" ∷ [];
}

-- What the provider has before the mutation, and after one that went astray.
abbrev old : FirewallPolicy
old = record wanted { ipv6_sources = [] }

abbrev drifted : FirewallPolicy
drifted = record wanted { ipv4_sources = [] }

abbrev owned_by : FirewallPolicy → Option OwnedFirewallPolicy
owned_by policy = some (record { provider_rule_id = "rule-1"; policy = policy })

-- A read of the firewall in a phase, at a version, that shows a policy.
abbrev read : ObservationPhase → String → FirewallPolicy → FirewallObservation
read phase version policy = record {
  phase = phase;
  request = request_on "read" inspect (target_at_version none);
  result = result_on "read" inspect (target_at_version none) observed (some version);
  supported_operations = every_operation;
  ownership_scope = protected_origin;
  owned = owned_by policy;
  operator_access = "ssh" ∷ [];
  preserved_state_sha256 = digest_a;
  completeness = complete;
}

abbrev reader : ExecutionAuthority
reader = authority_on (target_at_version none)

abbrev to_wanted : FirewallPlan
to_wanted = record {
  action = replace_owned;
  target = target_at_version (some "7");
  adapter_id = "adapter";
  source_revision = revision_a;
  supported_operations = every_operation;
  accepted_lkg_identity = digest_a;
  desired = wanted;
  prior_owned = owned_by old;
  preserved_state_sha256 = digest_a;
  operator_access = "ssh" ∷ [];
}

abbrev back_to_old : RollbackPlan
back_to_old = record {
  target = target_at_version (some "8");
  adapter_id = "adapter";
  source_revision = revision_a;
  supported_operations = every_operation;
  restore_policy = some old;
  preserved_state_sha256 = digest_a;
  operator_access = "ssh" ∷ [];
}

-- A rebuild at one version, and its result at the next.
abbrev change : String → CapabilityRequest
change version = request_on "change" rebuild (target_at_version (some version))

abbrev changed_to : String → String → CapabilityResult
changed_to version next =
    result_on "change" rebuild (target_at_version (some version)) applied (some next)

abbrev writer : String → ExecutionAuthority
writer version = authority_on (target_at_version (some version))

-- Names what a run computes through.
running : Bool
unfolding plan admit_observation inspection_parameters_sha256 mutation_parameters_sha256
    rollback_parameters_sha256 build_mutation_request admit_mutation_context admit_fresh_observation
    verify recovery_plan build_rollback_request admit_rollback_context verify_rollback admit_request
    admit_result firewall_policy firewall_plan rollback_plan Prefixes.prefixes Prefixes.identity
    identity matching resource_target capability_request is_hex_of_length utf8_length strip is_space
    string_eq option_eq list_eq nat_eq bool_eq ℕ_discrete target_eq operation_eq operations_eq
    request_eq outcome_eq cleanup_eq policy_eq
running = true

plan_runs :
    plan R (exact intent) (exact (ok (some accepted))) (exact (read current "7" old)) (exact reader)
    ≡ ok to_wanted
unfolding running
plan_runs = refl

verify_runs :
    verify R
      (exact to_wanted)
      (exact (writer "7"))
      (exact (change "7"))
      (exact (changed_to "7" "8"))
      (exact (read post_mutation "8" wanted))
      (exact reader)
    ≡ ok tt
unfolding running
verify_runs = refl

recovery_runs :
    recovery_plan R
      (exact to_wanted)
      (exact (writer "7"))
      (exact (change "7"))
      (exact (changed_to "7" "8"))
      (exact (read post_mutation "8" drifted))
      (exact reader)
    ≡ ok (rollback back_to_old)
unfolding running
recovery_runs = refl

rollback_runs :
    verify_rollback R
      (exact back_to_old)
      (exact (writer "8"))
      (exact (change "8"))
      (exact (changed_to "8" "9"))
      (exact (read post_rollback "9" old))
      (exact reader)
    ≡ ok tt
unfolding running
rollback_runs = refl

request_runs :
    build_mutation_request R (exact to_wanted) (exact (writer "7")) (exact "change")
    ≡ ok (change "7")
unfolding running
request_runs = refl

read_runs :
    admit_observation R (exact (read current "7" old)) (exact reader) current none none
    ≡ ok (read current "7" old)
unfolding running
read_runs = refl

admit_observation-Observed_example :
    (read current "7" old ≡ read current "7" old)
    × Observed R (read current "7" old) reader current none none
admit_observation-Observed_example =
    admit_observation-Observed R (read current "7" old) reader current none none
      (read current "7" old) read_runs

plan_sound_example :
    Observed R (read current "7" old) reader current none none
    × IsPlanFor R intent accepted (read current "7" old) to_wanted
plan_sound_example = plan_sound R intent accepted (read current "7" old) reader to_wanted plan_runs

build_mutation_request-injective_example : to_wanted ≡ to_wanted
build_mutation_request-injective_example =
    build_mutation_request-injective R to_wanted to_wanted (writer "7") (exact "change")
      (exact "change") (change "7") (change "7") (λ _. refl) request_runs request_runs

verify_sound_example :
    IsRequestFor R to_wanted (writer "7") (change "7")
    × Observed R
        (read post_mutation "8" wanted)
        reader
        post_mutation
        (some (target_at_version (some "7")))
        (some (exact (change "7")))
    × IsPreserved to_wanted (read post_mutation "8" wanted)
    × (policy_of (owned_by wanted) ≡ some wanted)
verify_sound_example =
    verify_sound R to_wanted (writer "7") (change "7") (changed_to "7" "8")
      (read post_mutation "8" wanted) reader verify_runs

recovery_plan_sound_example :
    IsRequestFor R to_wanted (writer "7") (change "7")
    × IsPreserved to_wanted (read post_mutation "8" drifted)
    × IsDecision to_wanted
        (changed_to "7" "8")
        (read post_mutation "8" drifted)
        (rollback back_to_old)
recovery_plan_sound_example =
    recovery_plan_sound R to_wanted (writer "7") (change "7") (changed_to "7" "8")
      (read post_mutation "8" drifted) reader (rollback back_to_old) recovery_runs

rollback_restores_example :
    (policy_of (owned_by old) ≡ policy_of (owned_by old))
    × IsPreserved to_wanted (read post_rollback "9" old)
rollback_restores_example =
    rollback_restores R to_wanted (writer "7") (change "7") (changed_to "7" "8")
      (read post_mutation "8" drifted) reader back_to_old (writer "8") (change "8")
      (changed_to "8" "9") (read post_rollback "9" old) reader recovery_runs rollback_runs
