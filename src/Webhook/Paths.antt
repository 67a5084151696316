-- ===== src/Webhook/Paths.antt =====
-- Which fields the webhook's errors name.
pub mod Named
use gpu_k8s_operator.Prelude.{
  ◌≡◌, ◌≢◌, ◌∙◌, refl, sym, String, List, [], ◌∷◌, ◌++◌, ◌⊎◌, inl, inr, ◌↔◌, pos, Bool, ◌<ℤ◌, ◌≤ℤ◌,
  Any, Bool-cases, ◌||◌, some, Result, ok, err, true, false, if◌then◌else◌,
}
use text.Mathlib.Text.{◌==◌ as str_eq}
use gpu_k8s_operator.Numbers.{Numbers}
use gpu_k8s_operator.Kube.{LabelSelector}
use gpu_k8s_operator.Api.{
  EnforcementAction, GpuWorkloadBudgetSpec, action_evict, action_pause, action_alert_only,
}
use gpu_k8s_operator.Cluster.{Cluster, Selector}
use gpu_k8s_operator.Webhook.{
  FieldError, is_empty_label_selector, action_errors, parse_errors, selector_errors, quota_errors,
  window_errors, grace_errors, validate_spec,
}
use gpu_k8s_operator.Webhook.Laws.{
  IsKnownAction, SelectsSome, IsOk, action_errors_iff, quota_errors_iff, window_errors_iff,
  grace_errors_iff, selector_errors_iff,
}
use gpu_k8s_operator.Webhook.Paths.Named.{Names, OnlyAt, five_Names, iff_trans, not_iff}

-- The four fields that have a check of their own, and the selector.
abbrev pub quota_field : String
quota_field = "spec.quota.gpuHours"

abbrev pub window_field : String
window_field = "spec.quota.windowHours"

abbrev pub action_field : String
action_field = "spec.enforcement.action"

abbrev pub grace_field : String
grace_field = "spec.enforcement.gracePeriodSeconds"

abbrev pub selector_field : String
selector_field = "spec.selector"

OnlyAt-if :
    (f : String) (b : Bool) (e : FieldError) → e.field ≡ f → OnlyAt f (if b then e ∷ [] else [])
OnlyAt-if f true e at = inr (e, refl, at)
OnlyAt-if f false e at = inl refl

action_OnlyAt : (a : EnforcementAction) (p : String) → OnlyAt p (action_errors a p)
action_OnlyAt a p =
    elim (Bool-cases
      (str_eq a action_evict || str_eq a action_pause || str_eq a action_alert_only)) [
        | inl known ↦ rw known (inl refl)
        | inr other ↦ elim (Bool-cases (str_eq a "")) [
          | inl e ↦ rw (other, e) (inr (_, refl, refl))
          | inr e ↦ rw (other, e) (inr (_, refl, refl))
        ]
      ]

module _ (num : Numbers) (cl : Cluster num) where
  open num use {Quantity, sign}

  parse_OnlyAt :
      (s : LabelSelector) (p : String) (r : Result Selector) → OnlyAt p (parse_errors num cl s p r)
  parse_OnlyAt s p (ok f) = inl refl
  parse_OnlyAt s p (err e) = inr (_, refl, refl)

  selector_OnlyAt : (s : LabelSelector) (p : String) → OnlyAt p (selector_errors num cl s p)
  unfolding is_empty_label_selector
  selector_OnlyAt s p = elim (Bool-cases (is_empty_label_selector (some s))) [
    | inl e ↦ rw e (inr (_, refl, refl))
    | inr e ↦ rw e (parse_OnlyAt s p (cl.label_selector_as_selector s))
  ]

  -- The webhook's errors point at the fields at fault: the path of each checked field is among the
  -- errors exactly if its value is not admissible, that is, for the quota and the window not above
  -- 0, for the action none of the three, for the grace period below 0, and for the selector empty
  -- or one that does not parse.
  pub validate_spec-Names :
      (spec : GpuWorkloadBudgetSpec Quantity)
      → let errs = validate_spec num cl spec "spec" in
        (Names quota_field errs ↔ (¬ (pos 0 <ℤ sign spec.quota.gpu_hours)))
        × (Names window_field errs ↔ (¬ (pos 0 <ℤ spec.quota.window_hours)))
        × (Names action_field errs ↔ (¬ IsKnownAction spec.enforcement.action))
        × (Names grace_field errs ↔ (¬ (pos 0 ≤ℤ spec.enforcement.grace_period_seconds)))
        × (Names selector_field errs
            ↔ (¬ (SelectsSome spec.selector × IsOk (cl.label_selector_as_selector spec.selector))))
  unfolding validate_spec
  validate_spec-Names spec =
      let q = quota_errors num cl spec.quota.gpu_hours quota_field in
      let w = window_errors num cl spec.quota.window_hours window_field in
      let a = action_errors spec.enforcement.action action_field in
      let g = grace_errors num cl spec.enforcement.grace_period_seconds grace_field in
      let s = selector_errors num cl spec.selector selector_field in
      let five =
        five_Names quota_field window_field action_field grace_field selector_field q w a g s
          (OnlyAt-if _ _ _ refl) (OnlyAt-if _ _ _ refl)
          (action_OnlyAt spec.enforcement.action action_field) (OnlyAt-if _ _ _ refl)
          (selector_OnlyAt spec.selector selector_field) (λ e. cc e) (λ e. cc e) (λ e. cc e)
          (λ e. cc e) (λ e. cc e) (λ e. cc e) (λ e. cc e) (λ e. cc e) (λ e. cc e) (λ e. cc e) in
      (
        iff_trans five.0 (not_iff (quota_errors_iff num cl spec.quota.gpu_hours quota_field)),
        iff_trans five.1 (not_iff (window_errors_iff num cl spec.quota.window_hours window_field)),
        iff_trans five.2 (not_iff (action_errors_iff spec.enforcement.action action_field)),
        iff_trans five.3
            (not_iff (grace_errors_iff num cl spec.enforcement.grace_period_seconds grace_field)),
        iff_trans five.4 (not_iff (selector_errors_iff num cl spec.selector selector_field)),
      )
