-- ===== src/Controller/Status.antt =====
-- The status of a budget and its metrics: `writeStatus`, `markDegradedAndRequeue`,
-- `publishMetrics`, `clearBudgetMetrics`, `gpuHoursToQuantity`.
pub mod Transition
pub mod Conditions
pub mod Metrics
pub mod Listed
pub mod Quantities
use Prim.Native.String.{◌++◌}
use text.Mathlib.Text.{◌==◌ as str_eq}
use gpu_k8s_operator.Prelude.{
  ℕ, Bool, true, false, String, Option, none, some, List, ℤ, pos, int32_of, if◌then◌else◌,
}
use gpu_k8s_operator.GoTime.{Time, Duration, zero_time, second}
use gpu_k8s_operator.Numbers.{Numbers, fzero, thousand}
use gpu_k8s_operator.Accounting.{Result as AccResult}
use gpu_k8s_operator.Kube.{Condition, condition_true, condition_false}
use gpu_k8s_operator.Api.{
  condition_ready, condition_quota_exceeded, condition_degraded, GpuWorkloadBudget,
  GpuWorkloadBudgetStatus,
}
use gpu_k8s_operator.Cluster.{
  Cluster, Gauge, consumed_gpu_hours, remaining_gpu_hours, tracked_pods, accounting_accuracy_ratio,
  set_gauge, delete_gauge, patch_status, M, ret, ◌>>=◌, ◌>>◌, call, emit, wrap,
}

abbrev pub finalizer_name : String
finalizer_name = "budget.zxuhan.dev/finalizer"

abbrev pub default_requeue_interval : Duration
default_requeue_interval = pos 30_000_000_000

abbrev pub over_budget_requeue_interval : Duration
over_budget_requeue_interval = pos 10_000_000_000

abbrev pub default_gpu_resource : String
default_gpu_resource = "nvidia.com/gpu"

abbrev pub new_condition : String → String → String → String → Time → Condition
new_condition type status reason message ltt = record {
  type = type;
  status = status;
  reason = reason;
  message = message;
  last_transition_time = ltt;
}

unfoldable pub gpu_resource_name : {Q : Type 0} → GpuWorkloadBudget Q → String
gpu_resource_name budget =
    if str_eq budget.spec.gpu_resource_name ""
    then default_gpu_resource
    else budget.spec.gpu_resource_name

module _ (num : Numbers) (cl : Cluster num) where
  open num use {
    Float, Quantity, flt, fadd, fmul, half, of_int, to_int64, format3, new_milli_quantity,
  }

  unfoldable pub gpu_hours_to_quantity : Float → Quantity
  gpu_hours_to_quantity h =
      let floored = if flt h (fzero num) then fzero num else h in
      new_milli_quantity (to_int64 (fadd (fmul floored (thousand num)) half))

  abbrev pub ready_condition : Time → Condition
  ready_condition ltt =
      new_condition condition_ready condition_true "Reconciled" "Accounting computed successfully."
        ltt

  abbrev pub quota_condition : AccResult Float → Time → Condition
  quota_condition result ltt =
      if result.over
      then new_condition condition_quota_exceeded condition_true "QuotaReached"
          ("Consumed " ++ format3 result.consumed ++ " GPU-hours meets or exceeds quota.") ltt
      else new_condition condition_quota_exceeded condition_false "WithinBudget"
          ("Consumed "
            ++ format3 result.consumed
            ++ " of "
            ++ format3 (fadd result.consumed result.remaining)
            ++ " GPU-hours.")
          ltt

  abbrev pub recovered_condition : Time → Condition
  recovered_condition ltt =
      new_condition condition_degraded condition_false "ReconcileSucceeded"
        "Controller reconciled the budget without error." ltt

  -- The budget as `writeStatus` changes it before the patch; `wall` is the libraries' clock.
  unfoldable pub with_status :
      Time → GpuWorkloadBudget Quantity → AccResult Float → Time → GpuWorkloadBudget Quantity
  unfolding gpu_hours_to_quantity int32_of
  with_status wall budget result now = record budget {
    status = record (budget.status) {
      consumed_gpu_hours = gpu_hours_to_quantity result.consumed;
      remaining_gpu_hours = gpu_hours_to_quantity result.remaining;
      tracked_pods = int32_of result.tracked_pods;
      observed_generation = budget.generation;
      conditions =
          cl.set_status_condition wall
            (cl.set_status_condition wall
              (cl.set_status_condition wall budget.status.conditions (ready_condition now))
              (quota_condition result now))
            (recovered_condition now);
    };
  }

  unfoldable pub write_status :
      GpuWorkloadBudget Quantity
      → AccResult Float
      → Time
      → M Quantity Float (GpuWorkloadBudget Quantity)
  unfolding with_status
  write_status budget result now h =
      let changed = with_status (cl.wall h) budget result now in
      wrap "patch status"
        (call (patch_status budget changed) (λ h. cl.patch_budget h budget changed)) h

  -- The budget as `markDegradedAndRequeue` changes it: the conditions carry no transition time.
  unfoldable pub with_degraded :
      Time → GpuWorkloadBudget Quantity → String → String → GpuWorkloadBudget Quantity
  with_degraded wall budget reason message = record budget {
    status = record (budget.status) {
      observed_generation = budget.generation;
      conditions =
          cl.set_status_condition wall
            (cl.set_status_condition wall budget.status.conditions
              (new_condition condition_degraded condition_true reason message zero_time))
            (new_condition condition_ready condition_false reason message zero_time);
    };
  }

  unfoldable pub mark_degraded_and_requeue :
      GpuWorkloadBudget Quantity → String → String → M Quantity Float Duration
  unfolding with_degraded
  mark_degraded_and_requeue budget reason message h =
      let changed = with_degraded (cl.wall h) budget reason message in
      (do
        patched ←
            wrap "patch degraded status"
              (call (patch_status budget changed) (λ h. cl.patch_budget h budget changed))
        ret default_requeue_interval)
        h

  unfoldable pub publish_metrics :
      GpuWorkloadBudget Quantity → AccResult Float → M Quantity Float (Unit {0})
  publish_metrics budget result = do
    emit (set_gauge consumed_gpu_hours budget.namespace budget.name result.consumed)
    emit (set_gauge remaining_gpu_hours budget.namespace budget.name result.remaining)
    emit (set_gauge tracked_pods budget.namespace budget.name (of_int (pos result.tracked_pods)))

  unfoldable pub clear_budget_metrics : String → String → M Quantity Float (Unit {0})
  clear_budget_metrics namespace name = do
    emit (delete_gauge consumed_gpu_hours namespace name)
    emit (delete_gauge remaining_gpu_hours namespace name)
    emit (delete_gauge tracked_pods namespace name)
    emit (delete_gauge accounting_accuracy_ratio namespace name)
