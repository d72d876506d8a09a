-- ===== src/Firewall/Documents.antt =====
-- scripts/provider-firewall-contract.py: the documents whose digests bind requests to plans.
pub mod Injective
use deployment.Base.{
  String, Bool, true, false, List, [], ◌∷◌, Option, none, some, Arg, exact, other, Result, ok, err,
  contract_error, raise_if, require, ◌>>=◌, ◌>>◌, is_some, if◌then◌else◌,
}
use deployment.Base.Json.{
  Json, Items, Fields, null, text, num, arr, obj, nil, cons, end, field, optional_text, texts,
}
use deployment.Base.Runtime.{Runtime}
use deployment.Capability.Target.{
  Operation, create, inspect, rebuild, delete, Operations, ResourceTarget,
}
use deployment.Capability.Request.{CapabilityRequest}
use deployment.Firewall.Prefixes.{supported_operations}
use deployment.Firewall.Types.{
  PlanAction, no_mutation, replace_owned, ObservationPhase, current, post_mutation, post_rollback,
  FirewallPolicy, OwnedFirewallPolicy, FirewallPlan, RollbackPlan,
}

-- `operation.value`
abbrev pub operation_value : Operation → String
operation_value create = "create"
operation_value inspect = "inspect"
operation_value rebuild = "rebuild"
operation_value delete = "delete"

-- `action.value`
abbrev pub action_value : PlanAction → String
action_value no_mutation = "no-mutation"
action_value replace_owned = "replace-owned"

-- `phase.value`
abbrev pub phase_value : ObservationPhase → String
phase_value current = "current"
phase_value post_mutation = "post-mutation"
phase_value post_rollback = "post-rollback"

abbrev value_if : Bool → String → List String → List String
value_if true value values = value ∷ values
value_if false value values = values

-- `sorted(operation.value for operation in operations)`
unfoldable pub sorted_values : Operations → List String
sorted_values s = value_if s.has_create "create" (
    value_if s.has_delete "delete"
      (value_if s.has_inspect "inspect" (value_if s.has_rebuild "rebuild" [])))

-- `_target_document`
unfoldable pub target_document : ResourceTarget → Json
target_document target = obj (
    field "provider" (text target.provider) (
      field "scope" (text target.scope) (
        field "requested_key" (text target.requested_key) (
          field "provider_resource_id" (optional_text target.provider_resource_id)
            (field "expected_version" (optional_text target.expected_version) end)))))

-- `_request_document` of a request
unfoldable pub request_fields : CapabilityRequest → Json
unfolding target_document
request_fields request = obj (
    field "request_id" (text request.request_id) (
      field "adapter_id" (text request.adapter_id) (
        field "source_revision" (text request.source_revision) (
          field "operation" (text (operation_value request.operation)) (
            field "target" (target_document request.target)
              (field "parameters_sha256" (text request.parameters_sha256) end))))))

-- `_request_document`; `None` is no request.
unfoldable pub request_document : Option (Arg CapabilityRequest) → Result Json
unfolding request_fields
request_document (some (exact request)) = ok (request_fields request)
request_document _ = err (contract_error "one exact #169 predecessor request is required")

-- `_policy_document`
unfoldable pub policy_document : FirewallPolicy → Json
policy_document policy = obj (
    field "protocol" (text policy.protocol) (
      field "port" (num policy.port) (
        field "ipv4_sources" (arr (texts policy.ipv4_sources))
          (field "ipv6_sources" (arr (texts policy.ipv6_sources)) end))))

-- `_owned_document`
unfoldable pub owned_document : Option OwnedFirewallPolicy → Json
unfolding policy_document
owned_document none = null
owned_document (some owned) = obj (
    field "provider_rule_id" (text owned.provider_rule_id)
      (field "policy" (policy_document owned.policy) end))

-- `_policy_document(policy) if policy is not None else None`
unfoldable pub optional_policy_document : Option FirewallPolicy → Json
unfolding policy_document
optional_policy_document none = null
optional_policy_document (some policy) = policy_document policy

-- The document of `inspection_parameters_sha256`
unfoldable pub inspection_document : ResourceTarget → ObservationPhase → Operations → Json → Json
unfolding target_document sorted_values
inspection_document target phase operations predecessor = obj (
    field "contract" (text "secpal-provider-firewall-inspection-v1") (
      field "target" (target_document target) (
        field "phase" (text (phase_value phase)) (
          field "ownership_scope" (text "secpal-protected-origin-v1") (
            field "projection" (text "complete-ownership-scoped-provider-read") (
              field "supported_operations" (arr (texts (sorted_values operations)))
                (field "predecessor_request" predecessor end)))))))

-- The document of `mutation_parameters_sha256`
unfoldable pub mutation_document : FirewallPlan → Json
unfolding target_document sorted_values policy_document owned_document
mutation_document plan = obj (
    field "contract" (text "secpal-provider-firewall-mutation-v1") (
      field "edge_mode" (text "protected") (
        field "action" (text (action_value plan.action)) (
          field "target" (target_document plan.target) (
            field "adapter_id" (text plan.adapter_id) (
              field "source_revision" (text plan.source_revision) (
                field "supported_operations" (arr (texts (sorted_values plan.supported_operations)))
                  (field "accepted_lkg_identity" (text plan.accepted_lkg_identity) (
                    field "ownership_scope" (text "secpal-protected-origin-v1") (
                      field "desired" (policy_document plan.desired) (
                        field "prior_owned" (owned_document plan.prior_owned) (
                          field "preserved_state_sha256" (text plan.preserved_state_sha256) (
                            field "operator_access" (arr (texts plan.operator_access))
                              end)))))))))))))

-- The document of `rollback_parameters_sha256`
unfoldable pub rollback_document : RollbackPlan → Json
unfolding target_document sorted_values optional_policy_document
rollback_document plan = obj (
    field "contract" (text "secpal-provider-firewall-rollback-v1") (
      field "action" (text "restore-prior-owned-semantics") (
        field "target" (target_document plan.target) (
          field "adapter_id" (text plan.adapter_id) (
            field "source_revision" (text plan.source_revision) (
              field "supported_operations" (arr (texts (sorted_values plan.supported_operations))) (
                field "ownership_scope" (text "secpal-protected-origin-v1") (
                  field "restore_policy" (optional_policy_document plan.restore_policy) (
                    field "preserved_state_sha256" (text plan.preserved_state_sha256)
                      (field "operator_access" (arr (texts plan.operator_access)) end))))))))))

module _ (R : Runtime) where
  -- The predecessor that an inspection in a phase names.
  unfoldable pub predecessor_document :
      ObservationPhase → Option (Arg CapabilityRequest) → Result Json
  unfolding request_document
  predecessor_document current predecessor = do
    raise_if (is_some predecessor) "current inspection has no predecessor transaction"
    ok null
  predecessor_document _ predecessor = request_document predecessor

  unfoldable pub inspection_parameters_sha256 :
      Arg ResourceTarget
      → Arg ObservationPhase
      → Arg Operations
      → Option (Arg CapabilityRequest)
      → Result String
  unfolding supported_operations predecessor_document inspection_document
  inspection_parameters_sha256 target_given phase_given operations_given predecessor = do
    phase ← require phase_given "inspection phase is invalid"
    operations ← supported_operations operations_given
    document ← predecessor_document phase predecessor
    target ← require target_given "one exact #169 target is required"
    ok (R.digest (inspection_document target phase operations document))

  unfoldable pub mutation_parameters_sha256 : FirewallPlan → String
  unfolding mutation_document
  mutation_parameters_sha256 plan = R.digest (mutation_document plan)

  unfoldable pub rollback_parameters_sha256 : RollbackPlan → String
  unfolding rollback_document
  rollback_parameters_sha256 plan = R.digest (rollback_document plan)
