-- ===== src/Firewall/Documents/Injective.antt =====
-- Each document determines what it was made from.
use deployment.Base.{◌≡◌, refl, ap, Option, none, some, arith}
use package.text.Mathlib.TextEquality.{eq_iff}
use deployment.Base.Json.{optional_text-injective, texts-injective}
use deployment.Capability.Target.{Operations, ResourceTarget}
use deployment.Firewall.Types.{
  PlanAction, no_mutation, replace_owned, FirewallPolicy, OwnedFirewallPolicy, FirewallPlan,
  RollbackPlan,
}
use deployment.Firewall.Documents.{
  action_value, sorted_values, target_document, policy_document, owned_document,
  optional_policy_document, mutation_document, rollback_document,
}

target_document-injective : (s t : ResourceTarget) → target_document s ≡ target_document t → s ≡ t
unfolding target_document
target_document-injective s t e = ground (
  arith,
  optional_text-injective s.provider_resource_id t.provider_resource_id,
  optional_text-injective s.expected_version t.expected_version,
)

policy_document-injective : (p q : FirewallPolicy) → policy_document p ≡ policy_document q → p ≡ q
unfolding policy_document
policy_document-injective p q e = ground (
  arith,
  texts-injective p.ipv4_sources q.ipv4_sources,
  texts-injective p.ipv6_sources q.ipv6_sources,
)

owned_document-injective :
    (p q : Option OwnedFirewallPolicy) → owned_document p ≡ owned_document q → p ≡ q
unfolding owned_document
owned_document-injective none none e = refl
owned_document-injective none (some q) e = cc
owned_document-injective (some p) none e = cc
owned_document-injective (some p) (some q) e =
    ground (arith, policy_document-injective p.policy q.policy)

optional_policy_document-injective :
    (p q : Option FirewallPolicy) → optional_policy_document p ≡ optional_policy_document q → p ≡ q
unfolding optional_policy_document policy_document
optional_policy_document-injective none none e = refl
optional_policy_document-injective none (some q) e = cc
optional_policy_document-injective (some p) none e = cc
optional_policy_document-injective (some p) (some q) e = ap some (policy_document-injective p q e)

action_value-injective : (a b : PlanAction) → action_value a ≡ action_value b → a ≡ b
action_value-injective no_mutation no_mutation e = refl
action_value-injective no_mutation replace_owned e =
    absurd (ground (arith, eq_iff "no-mutation" "replace-owned"))
action_value-injective replace_owned no_mutation e =
    absurd (ground (arith, eq_iff "replace-owned" "no-mutation"))
action_value-injective replace_owned replace_owned e = refl

sorted_values-injective : (s t : Operations) → sorted_values s ≡ sorted_values t → s ≡ t
unfolding sorted_values
sorted_values-injective s t e = ground (
  arith,
  eq_iff "create" "delete",
  eq_iff "create" "inspect",
  eq_iff "create" "rebuild",
  eq_iff "delete" "inspect",
  eq_iff "delete" "rebuild",
  eq_iff "inspect" "rebuild",
)

-- The documents of two mutation plans differ where the plans differ, in whatever field.
pub mutation_document-injective :
    (p q : FirewallPlan) → mutation_document p ≡ mutation_document q → p ≡ q
unfolding mutation_document
mutation_document-injective p q e = ground (
  arith,
  action_value-injective p.action q.action,
  target_document-injective p.target q.target,
  sorted_values-injective p.supported_operations q.supported_operations,
  policy_document-injective p.desired q.desired,
  owned_document-injective p.prior_owned q.prior_owned,
  texts-injective p.operator_access q.operator_access,
  texts-injective (sorted_values p.supported_operations) (sorted_values q.supported_operations),
)

-- The documents of two rollback plans differ where the plans differ, in whatever field.
pub rollback_document-injective :
    (p q : RollbackPlan) → rollback_document p ≡ rollback_document q → p ≡ q
unfolding rollback_document
rollback_document-injective p q e = ground (
  arith,
  target_document-injective p.target q.target,
  sorted_values-injective p.supported_operations q.supported_operations,
  optional_policy_document-injective p.restore_policy q.restore_policy,
  texts-injective p.operator_access q.operator_access,
  texts-injective (sorted_values p.supported_operations) (sorted_values q.supported_operations),
)
