-- ===== src/Firewall/Types.antt =====
-- scripts/provider-firewall-contract.py: the enumerations and the dataclasses with their checks.
use deployment.Base.{
  ℕ, String, Bool, true, false, not, ◌&&◌, ◌||◌, List, [], ◌∷◌, Option, none, some, is_none, leb,
  Arg, exact, Result, ok, err, contract_error, raise_if, require, ◌>>=◌, ◌>>◌, ◌==◌, ◌/=◌, Eq,
  string_eq, nat_eq, list_eq, option_eq, string_dec,
}
use native.Mathlib.Decide.{ℕ_discrete}
use deployment.Base.Runtime.{Runtime}
use deployment.Capability.Format.{matching, sha1}
use deployment.Capability.Target.{Operations, ResourceTarget}
use deployment.Capability.Request.{CapabilityRequest}
use deployment.Capability.Outcome.{CapabilityResult}
use deployment.Firewall.Prefixes.{digest_field, supported_operations, identity, prefixes}

pub data EdgeMode : Type 0 where
  direct protected : EdgeMode

pub data PlanAction : Type 0 where
  no_mutation replace_owned : PlanAction

pub data ObservationPhase : Type 0 where
  current post_mutation post_rollback : ObservationPhase

-- `OwnershipScope` and `ProjectionCompleteness` have one member each.
pub data OwnershipScope : Type 0 where
  protected_origin : OwnershipScope

pub data ProjectionCompleteness : Type 0 where
  complete : ProjectionCompleteness

pub data MutationDisposition : Type 0 where
  reinspection_required : MutationDisposition

pub record FirewallIntent : Type 0 where
  pub edge_mode : EdgeMode
  pub origin_protocol : String
  pub origin_port : ℕ

pub record FirewallPolicy : Type 0 where
  pub protocol : String
  pub port : ℕ
  pub ipv4_sources : List String
  pub ipv6_sources : List String

pub record OwnedFirewallPolicy : Type 0 where
  pub provider_rule_id : String
  pub policy : FirewallPolicy

pub record FirewallObservation : Type 0 where
  pub phase : ObservationPhase
  pub request : CapabilityRequest
  pub result : CapabilityResult
  pub supported_operations : Operations
  pub ownership_scope : OwnershipScope
  -- `owned`, a tuple of at most one policy
  pub owned : Option OwnedFirewallPolicy
  pub operator_access : List String
  pub preserved_state_sha256 : String
  pub completeness : ProjectionCompleteness

-- `FirewallObservation.revision`
abbrev pub revision : FirewallObservation → Option String
revision o = o.result.provider_resource_version

pub record FirewallPlan : Type 0 where
  pub action : PlanAction
  pub target : ResourceTarget
  pub adapter_id : String
  pub source_revision : String
  pub supported_operations : Operations
  pub accepted_lkg_identity : String
  pub desired : FirewallPolicy
  pub prior_owned : Option OwnedFirewallPolicy
  pub preserved_state_sha256 : String
  pub operator_access : List String

pub record RollbackPlan : Type 0 where
  pub target : ResourceTarget
  pub adapter_id : String
  pub source_revision : String
  pub supported_operations : Operations
  pub restore_policy : Option FirewallPolicy
  pub preserved_state_sha256 : String
  pub operator_access : List String

unfoldable pub FirewallPolicy-discrete : Discrete FirewallPolicy
FirewallPolicy-discrete = hlevel (string_dec, ℕ_discrete)

instance unfoldable pub policy_eq : Eq FirewallPolicy
unfolding FirewallPolicy-discrete string_dec
policy_eq = record { dec = FirewallPolicy-discrete }

abbrev is_protected : EdgeMode → Bool
is_protected protected = true
is_protected direct = false

-- `value in values`
abbrev pub member : String → List String → Bool
member value [] = false
member value (v ∷ values) = value == v || member value values

-- `len(set(values)) != len(values)`
abbrev pub repeats : List String → Bool
repeats [] = false
repeats (v ∷ values) = member v values || repeats values

-- `FirewallIntent(...)`. A port that is no natural number is `other`.
unfoldable pub firewall_intent : Arg EdgeMode → Arg String → Arg ℕ → Result FirewallIntent
firewall_intent edge_mode origin_protocol origin_port = do
  mode ← require edge_mode "DIRECT is not a CloudFront Origin firewall operation"
  raise_if (not (is_protected mode)) "DIRECT is not a CloudFront Origin firewall operation"
  protocol ← require origin_protocol "PROTECTED Origin policy is TCP 443 only"
  raise_if (protocol /= "tcp") "PROTECTED Origin policy is TCP 443 only"
  port ← require origin_port "PROTECTED Origin policy is TCP 443 only"
  raise_if (port /= 443) "PROTECTED Origin policy is TCP 443 only"
  ok (record { edge_mode = mode; origin_protocol = protocol; origin_port = port })

module _ (R : Runtime) where
  -- `FirewallPolicy(...)`
  unfoldable pub firewall_policy :
      Arg String → Arg ℕ → Arg (List (Arg String)) → Arg (List (Arg String)) → Result FirewallPolicy
  firewall_policy protocol port ipv4_sources ipv6_sources = do
    protocol' ← require protocol "owned firewall policy protocol or port is invalid"
    raise_if (protocol' /= "tcp") "owned firewall policy protocol or port is invalid"
    port' ← require port "owned firewall policy protocol or port is invalid"
    raise_if (not (leb 1 port' && leb port' 65535))
        "owned firewall policy protocol or port is invalid"
    ipv4 ← prefixes R ipv4_sources 4 false
    ipv6 ← prefixes R ipv6_sources 6 false
    raise_if (ipv4 == [] && ipv6 == []) "owned firewall policy has no sources"
    ok (record { protocol = protocol'; port = port'; ipv4_sources = ipv4; ipv6_sources = ipv6 })

  -- `OwnedFirewallPolicy(...)`
  unfoldable pub owned_firewall_policy :
      Arg String → Arg FirewallPolicy → Result OwnedFirewallPolicy
  owned_firewall_policy provider_rule_id policy = do
    rule ← identity R "provider-native rule identity" provider_rule_id
    policy' ← require policy "owned firewall policy is invalid"
    ok (record { provider_rule_id = rule; policy = policy' })

  -- `for rule_id in operator_access: _identity(…)`
  unfoldable pub rule_ids : List (Arg String) → Result (List String)
  rule_ids [] = ok []
  rule_ids (given ∷ rest) = do
    rule ← identity R "operator-access rule identity" given
    rules ← rule_ids rest
    ok (rule ∷ rules)

  abbrev single : List (Arg OwnedFirewallPolicy) → Result (Option OwnedFirewallPolicy)
  single [] = ok none
  single (exact policy ∷ []) = ok (some policy)
  single _ = err (contract_error "adapter ownership classification is ambiguous")

  abbrev is_operator_rule : Option OwnedFirewallPolicy → List String → Bool
  is_operator_rule none rules = false
  is_operator_rule (some owned) rules = member owned.provider_rule_id rules

  -- `FirewallObservation(...)`; `owned` and `operator_access` are `other` unless they are tuples.
  unfoldable pub firewall_observation :
      Arg ObservationPhase
      → Arg CapabilityRequest
      → Arg CapabilityResult
      → Arg Operations
      → Arg OwnershipScope
      → Arg (List (Arg OwnedFirewallPolicy))
      → Arg (List (Arg String))
      → Arg String
      → Arg ProjectionCompleteness
      → Result FirewallObservation
  unfolding rule_ids
  firewall_observation phase request result supported scope owned operator_access preserved
        completeness =
      do
        phase' ← require phase "provider observation identity is invalid"
        request' ← require request "provider observation identity is invalid"
        result' ← require result "provider observation identity is invalid"
        scope' ← require scope "provider observation identity is invalid"
        supported' ← supported_operations supported
        policies ← require owned "adapter ownership classification is ambiguous"
        owned' ← single policies
        given ← require operator_access "operator-access observation is invalid"
        rules ← rule_ids given
        raise_if (repeats rules) "operator-access observation is ambiguous"
        raise_if (is_operator_rule owned' rules)
            "one provider rule cannot be both #215-owned and operator access"
        preserved' ← digest_field "complete preserved provider-state identity" preserved
        completeness' ← require completeness "provider observation is not complete"
        ok (record {
          phase = phase';
          request = request';
          result = result';
          supported_operations = supported';
          ownership_scope = scope';
          owned = owned';
          operator_access = rules;
          preserved_state_sha256 = preserved';
          completeness = completeness';
        })

  -- `FirewallPlan(...)`, as this module calls it: the action, the target, the policies and the
  -- tuple of rules have their types.
  unfoldable pub firewall_plan : FirewallPlan → Result FirewallPlan
  firewall_plan p = do
    raise_if (is_none p.target.provider_resource_id) "firewall plan target is invalid"
    _ ← identity R "plan adapter identity" (exact p.adapter_id)
    _ ← matching sha1 "plan source revision is invalid" (exact p.source_revision)
    _ ← supported_operations (exact p.supported_operations)
    _ ← digest_field "accepted #214 LKG identity" (exact p.accepted_lkg_identity)
    _ ← digest_field "preserved provider-state identity" (exact p.preserved_state_sha256)
    ok p

  -- `RollbackPlan(...)`, as this module calls it.
  unfoldable pub rollback_plan : RollbackPlan → Result RollbackPlan
  rollback_plan p = do
    raise_if (is_none p.target.provider_resource_id || is_none p.target.expected_version)
        "rollback lacks fresh concurrency authority"
    _ ← identity R "rollback adapter identity" (exact p.adapter_id)
    _ ← matching sha1 "rollback source revision is invalid" (exact p.source_revision)
    _ ← supported_operations (exact p.supported_operations)
    _ ← digest_field "rollback preserved-state identity" (exact p.preserved_state_sha256)
    ok p
