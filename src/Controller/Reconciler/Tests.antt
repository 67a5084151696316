-- ===== src/Controller/Reconciler/Tests.antt =====
-- The theorems on a round, applied to a concrete budget and server.
use gpu_k8s_operator.Prelude.{
  ◌≡◌, ◌≢◌, refl, true, false, String, none, [], ◌∷◌, ◌⊎◌, arith, ok, ℤ, ◌*ℤ◌, ◌+ℤ◌, wrap_int64,
  ◌-ℤ◌,
}
use gpu_k8s_operator.GoTime.{add, opposite, sub, times}
use gpu_k8s_operator.Numbers.Fixed.{fixed, fixed_mul}
use gpu_k8s_operator.Accounting.{window_from, compute, sum_usage, window_usage}
use gpu_k8s_operator.Api.{GpuWorkloadBudget}
use gpu_k8s_operator.Cluster.{Gauge}
use gpu_k8s_operator.Enforcement.Effects.{pod_writes, is_err}
use gpu_k8s_operator.Enforcement.Success.{IsHealthy}
use gpu_k8s_operator.Controller.Reconciler.Success.{reconcile-Succeeds}
use gpu_k8s_operator.Enforcement.Writes.{Writes, Returns, AllOk}
use gpu_k8s_operator.Controller.Status.{
  with_status, publish_metrics, clear_budget_metrics, write_status, gpu_resource_name,
}
use gpu_k8s_operator.Controller.Status.Metrics.{gauge_at, counter_at}
use gpu_k8s_operator.Controller.Enforcing.{
  maybe_enforce, window_of, grace_of, enforce_on, record_enforcement,
}
use gpu_k8s_operator.Controller.Reconciler.{
  no_requeue, account, finalize, reconcile_pods, reconcile_live, reconcile, accounting_pods,
  conclude,
}
use gpu_k8s_operator.Controller.Reconciler.Deletion.{freed, finalize_lem}
use gpu_k8s_operator.Controller.Reconciler.Guard.{MayEnforce, patched, reconcile_pods-MayEnforce}
use gpu_k8s_operator.Controller.Reconciler.Safety.{IsLive, allowance, cadence, reconcile_pods_lem}
use gpu_k8s_operator.Controller.Reconciler.Rounds.{reconcile_live_lem, reconcile-Writes}
use gpu_k8s_operator.PodConversion.{
  pod_to_accounting, gpu_request_total, sum_requests, earliest_container_start, observe_statuses,
  observe, pod_end,
}
use gpu_k8s_operator.Enforcement.{enforce, evict, new}
use gpu_k8s_operator.Offender.{pick_worst_offender, worst_of}
use gpu_k8s_operator.Samples.{cluster, budget, expired, pods, old_pod, ten_hours}

finalize_lem_example :
    (cluster.contains_finalizer budget.finalizers "budget.zxuhan.dev/finalizer" ≡ true
      → let after = finalize fixed cluster budget [] in
        ((g : Gauge) → gauge_at g "ml" "team-budget" after.0 ≡ none)
        × ((g : Gauge) (ns name : String)
            → (ns ≢ "ml") ⊎ (name ≢ "team-budget")
            → gauge_at g ns name after.0 ≡ gauge_at {Q = ℤ} g ns name [])
        × ((ns name action : String) → counter_at ns name action after.0 ≡ 0)
        × AllOk
            (λ d.
              (d ≡ no_requeue)
              × ((b : GpuWorkloadBudget ℤ) × (cluster.update
                      (clear_budget_metrics fixed cluster "ml" "team-budget" []).0
                      (freed fixed cluster budget)
                    ≡ ok b)))
            after.1)
    × (cluster.contains_finalizer budget.finalizers "budget.zxuhan.dev/finalizer" ≡ false
        → finalize fixed cluster budget [] ≡ ([], ok no_requeue))
finalize_lem_example = finalize_lem fixed cluster budget []

reconcile_pods_lem_example :
    let over = (account fixed cluster budget pods ten_hours).over in
    Writes (allowance fixed cluster over) (reconcile_pods fixed cluster budget ten_hours (ok pods))
    × Returns
        (λ d. d ≡ cadence fixed cluster over)
        (reconcile_pods fixed cluster budget ten_hours (ok pods))
reconcile_pods_lem_example = reconcile_pods_lem fixed cluster budget ten_hours pods

reconcile_live_lem_example :
    Writes 1 (reconcile_live fixed cluster budget)
    × Returns IsLive (reconcile_live fixed cluster budget)
reconcile_live_lem_example = reconcile_live_lem fixed cluster budget

reconcile-Writes_example : Writes 1 (reconcile fixed cluster "ml" "team-budget")
reconcile-Writes_example = reconcile-Writes fixed cluster "ml" "team-budget"

-- A round over quota, past the grace period, that evicts one pod.
round_evicts :
    pod_writes (reconcile_pods fixed cluster expired ten_hours (ok (old_pod ∷ [])) []).0 ≡ 1
unfolding reconcile_pods write_status compute ◌*ℤ◌ sum_usage accounting_pods pod_to_accounting
    gpu_request_total sum_requests gpu_resource_name ◌+ℤ◌ earliest_container_start observe_statuses
    observe window_usage enforce_on record_enforcement conclude enforce evict new add opposite sub
    times pick_worst_offender worst_of pod_end wrap_int64 ◌-ℤ◌ fixed_mul publish_metrics window_from
    window_of grace_of maybe_enforce account with_status
round_evicts = refl

reconcile_pods-MayEnforce_example :
    (b : GpuWorkloadBudget ℤ) × (patched fixed cluster expired (old_pod ∷ []) ten_hours [] ≡ ok b)
    × MayEnforce fixed cluster
        (account fixed cluster expired (old_pod ∷ []) ten_hours).over
        b
        (old_pod ∷ [])
        ten_hours
reconcile_pods-MayEnforce_example =
    reconcile_pods-MayEnforce fixed cluster expired ten_hours (old_pod ∷ []) []
      (λ e. omega (arith, round_evicts, e))

cluster-IsHealthy : IsHealthy fixed cluster
cluster-IsHealthy = record {
  gets = λ h ns name. refl;
  updates = λ h b. refl;
  patches_budget = λ h old new. refl;
  patches_pod = λ h old new. refl;
  evicts = λ h ns e. refl;
}

reconcile-Succeeds_example : is_err (reconcile fixed cluster "ml" "team-budget" []).1 ≡ false
reconcile-Succeeds_example =
    reconcile-Succeeds fixed cluster cluster-IsHealthy "ml" "team-budget" []
