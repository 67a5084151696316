-- ===== src/Controller/Enforcing.antt =====
-- `maybeEnforce`: the gate of the enforcement, and what it records.
pub mod Gate
pub mod Window
pub mod Repeat
use Prim.Native.String.{◌++◌}
use mathlib.Core.Bool.{not}
use text.Mathlib.Text.{◌==◌ as str_eq}
use gpu_k8s_operator.Prelude.{Bool, String, Option, none, some, List, ok, if◌then◌else◌}
use gpu_k8s_operator.GoTime.{Time, Duration, before, add, times, opposite, second, hour}
use gpu_k8s_operator.Numbers.{Numbers}
use gpu_k8s_operator.Kube.{Pod, Condition, condition_true}
use gpu_k8s_operator.Api.{condition_quota_exceeded, GpuWorkloadBudget}
use gpu_k8s_operator.Cluster.{
  Cluster, inc_counter, patch_status, M, ret, ◌>>=◌, ◌>>◌, call, emit, wrap,
}
use gpu_k8s_operator.Offender.{pick_worst_offender}
use gpu_k8s_operator.Enforcement.{Outcome, new, enforce}
use gpu_k8s_operator.Controller.Status.{gpu_resource_name}

-- `time.Duration(n) * time.Second` and `time.Duration(n) * time.Hour`, which wrap.
unfoldable pub grace_of : {Q : Type 0} → GpuWorkloadBudget Q → Duration
grace_of budget = times budget.spec.enforcement.grace_period_seconds second

unfoldable pub window_of : {Q : Type 0} → GpuWorkloadBudget Q → Duration
window_of budget = times budget.spec.quota.window_hours hour

-- The gate: the condition is there and True, and the grace period has passed.
abbrev pub is_due : Option Condition → Duration → Time → Bool
is_due none grace now = Bool.false
is_due (some cond) grace now =
    if not (str_eq cond.status condition_true)
    then Bool.false
    else not (before now (add cond.last_transition_time grace))

module _ (num : Numbers) (cl : Cluster num) where
  open num use {Float, Quantity}

  abbrev pub with_enforced : GpuWorkloadBudget Quantity → Time → GpuWorkloadBudget Quantity
  with_enforced budget now = record budget {
    status = record (budget.status) { last_enforcement_at = some now };
  }

  -- The counter, and the stamp of the time, after the enforcer has run without error.
  unfoldable pub record_enforcement :
      GpuWorkloadBudget Quantity → Time → Outcome → M Quantity Float (Unit {0})
  record_enforcement budget now outcome = do
    emit (inc_counter budget.namespace budget.name outcome.action)
    let changed = with_enforced budget now
    patched ←
        wrap "patch last enforcement time"
          (call (patch_status budget changed) (λ h. cl.patch_budget h budget changed))
    ret tt

  unfoldable pub enforce_on :
      GpuWorkloadBudget Quantity → Time → Option (Pod Quantity) → M Quantity Float (Unit {0})
  enforce_on budget now none = ret tt
  enforce_on budget now (some offender) = do
    outcome ←
        wrap ("enforce " ++ budget.spec.enforcement.action)
          (enforce num cl (new budget.spec.enforcement.action) budget offender now)
    record_enforcement budget now outcome

  unfoldable pub maybe_enforce :
      GpuWorkloadBudget Quantity → List (Pod Quantity) → Time → M Quantity Float (Unit {0})
  maybe_enforce budget pods now =
      let cond = cl.find_status_condition budget.status.conditions condition_quota_exceeded in
      let from = add now (opposite (window_of budget)) in
      let offender = pick_worst_offender num pods (gpu_resource_name budget) from now in
      if is_due cond (grace_of budget) now then enforce_on budget now offender else ret tt
