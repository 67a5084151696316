-- ===== src/Webhook/Tests.antt =====
-- The admission of a concrete budget.
use gpu_k8s_operator.Prelude.{◌≡◌, none, ◌↔◌, ℤ, pos, negsuc, ◌<ℤ◌, ◌≤ℤ◌}
use gpu_k8s_operator.Api.{GpuWorkloadBudgetSpec}
use gpu_k8s_operator.Numbers.Fixed.{fixed}
use gpu_k8s_operator.Webhook.{validate_create, validate_update, validate_delete, validate_spec}
use gpu_k8s_operator.Webhook.Laws.{
  IsValidSpec, IsKnownAction, SelectsSome, IsOk, validate_create_iff,
}
use gpu_k8s_operator.Webhook.Paths.Named.{Names}
use gpu_k8s_operator.Webhook.Paths.{
  quota_field, window_field, action_field, grace_field, selector_field, validate_spec-Names,
}
use gpu_k8s_operator.Samples.{cluster, budget}

validate_create_iff_example :
    ((validate_create fixed cluster budget ≡ none) ↔ IsValidSpec fixed cluster budget.spec)
    × ((validate_update fixed cluster budget budget ≡ none) ↔ IsValidSpec fixed cluster budget.spec)
    × (validate_delete fixed cluster budget ≡ none)
validate_create_iff_example = validate_create_iff fixed cluster budget budget

-- A budget with a negative grace period and an action that is none of the three.
abbrev bad_spec : GpuWorkloadBudgetSpec ℤ
bad_spec = record (budget.spec) {
  enforcement = record { action = "Reboot"; grace_period_seconds = negsuc 0 };
}

validate_spec-Names_example :
    let errs = validate_spec fixed cluster bad_spec "spec" in
    (Names quota_field errs ↔ (¬ (pos 0 <ℤ fixed.sign bad_spec.quota.gpu_hours)))
    × (Names window_field errs ↔ (¬ (pos 0 <ℤ bad_spec.quota.window_hours)))
    × (Names action_field errs ↔ (¬ IsKnownAction bad_spec.enforcement.action))
    × (Names grace_field errs ↔ (¬ (pos 0 ≤ℤ bad_spec.enforcement.grace_period_seconds)))
    × (Names selector_field errs ↔ (
        ¬ (
          SelectsSome bad_spec.selector
          × IsOk (cluster.label_selector_as_selector bad_spec.selector))))
validate_spec-Names_example = validate_spec-Names fixed cluster bad_spec
