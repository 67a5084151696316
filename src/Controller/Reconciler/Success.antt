-- ===== src/Controller/Reconciler/Success.antt =====
-- A round returns an error only if a call that it makes fails.
use Prim.Native.String.{◌++◌}
use gpu_k8s_operator.Prelude.{
  ◌≡◌, refl, true, false, String, List, ◌∷◌, Option, none, some, inl, inr, Bool-cases, Result, ok,
  err,
}
use gpu_k8s_operator.GoTime.{Time}
use gpu_k8s_operator.Numbers.{Numbers}
use gpu_k8s_operator.Accounting.{Result as AccResult}
use gpu_k8s_operator.Kube.{Pod, is_zero_ptr}
use gpu_k8s_operator.Api.{GpuWorkloadBudget, condition_quota_exceeded}
use gpu_k8s_operator.Cluster.{
  Cluster, Call, Selector, get_budget, update_budget, list_pods, patch_status, inc_counter, M, ret,
  ◌>>=◌, ◌>>◌, call, wrap, attempt,
}
use gpu_k8s_operator.Enforcement.{Outcome, new, enforce}
use gpu_k8s_operator.Enforcement.Effects.{is_err}
use gpu_k8s_operator.Enforcement.Success.{
  Succeeds, IsHealthy, is_settled, bind-Succeeds, wrap-Succeeds, enforce-Succeeds,
}
use gpu_k8s_operator.Controller.Status.{
  finalizer_name, default_requeue_interval, over_budget_requeue_interval, with_status, write_status,
  with_degraded, mark_degraded_and_requeue, publish_metrics, clear_budget_metrics,
}
use gpu_k8s_operator.Controller.Enforcing.{
  grace_of, is_due, with_enforced, record_enforcement, enforce_on, maybe_enforce,
}
use gpu_k8s_operator.Controller.Enforcing.Gate.{offender_of}
use gpu_k8s_operator.Controller.Reconciler.{
  no_requeue, account, finalize, conclude, reconcile_pods, reconcile_selector, ensure_finalizer,
  reconcile_live, reconcile_found, reconcile,
}
use gpu_k8s_operator.Controller.Reconciler.Deletion.{freed}

module _ (num : Numbers) (cl : Cluster num) (healthy : IsHealthy num cl) where
  open num use {Float, Quantity}

  patch-Succeeds :
      (msg : String) (old new : GpuWorkloadBudget Quantity)
      → Succeeds (wrap msg (call (patch_status old new) (λ h. cl.patch_budget h old new)))
  patch-Succeeds msg old new =
      wrap-Succeeds msg (call (patch_status old new) (λ h. cl.patch_budget h old new))
        (λ h. healthy.patches_budget h old new)

  record_enforcement-Succeeds :
      (budget : GpuWorkloadBudget Quantity) (now : Time) (out : Outcome)
      → Succeeds (record_enforcement num cl budget now out)
  unfolding record_enforcement
  record_enforcement-Succeeds budget now out h =
      let changed = with_enforced num cl budget now in
      bind-Succeeds
        (wrap "patch last enforcement time"
          (call (patch_status budget changed) (λ h. cl.patch_budget h budget changed)))
        (λ _. ret tt) (patch-Succeeds "patch last enforcement time" budget changed) (λ _ h. refl)
        (inc_counter budget.namespace budget.name out.action ∷ h)

  enforce_on-Succeeds :
      (budget : GpuWorkloadBudget Quantity) (now : Time) (o : Option (Pod Quantity))
      → Succeeds (enforce_on num cl budget now o)
  unfolding enforce_on
  enforce_on-Succeeds budget now none = λ h. refl
  enforce_on-Succeeds budget now (some p) =
      let run = enforce num cl (new budget.spec.enforcement.action) budget p now in
      let msg = "enforce " ++ budget.spec.enforcement.action in
      bind-Succeeds (wrap msg run) (record_enforcement num cl budget now)
        (wrap-Succeeds msg run
          (enforce-Succeeds num cl healthy budget p (new budget.spec.enforcement.action) now))
        (record_enforcement-Succeeds budget now)

  maybe_enforce-Succeeds :
      (budget : GpuWorkloadBudget Quantity) (pods : List (Pod Quantity)) (now : Time)
      → Succeeds (maybe_enforce num cl budget pods now)
  unfolding maybe_enforce
  maybe_enforce-Succeeds budget pods now h =
      elim (Bool-cases (
        is_due (cl.find_status_condition budget.status.conditions condition_quota_exceeded)
          (grace_of budget) now)) [
            | inl e ↦ rw e (enforce_on-Succeeds budget now (offender_of num cl budget pods now) h)
            | inr e ↦ rw e refl
          ]

  conclude-Succeeds :
      (budget : GpuWorkloadBudget Quantity) (pods : List (Pod Quantity)) (now : Time)
      (result : AccResult Float)
      → Succeeds (conclude num cl budget pods now result)
  unfolding conclude
  conclude-Succeeds budget pods now result h = elim (Bool-cases result.over) [
    | inl e ↦ rw e (
        bind-Succeeds (maybe_enforce num cl budget pods now) (λ _. ret over_budget_requeue_interval)
          (maybe_enforce-Succeeds budget pods now) (λ _ h. refl) h)
    | inr e ↦ rw e refl
  ]

  mark-Succeeds :
      (budget : GpuWorkloadBudget Quantity) (reason message : String)
      → Succeeds (mark_degraded_and_requeue num cl budget reason message)
  unfolding mark_degraded_and_requeue
  mark-Succeeds budget reason message h =
      let changed = with_degraded num cl (cl.wall h) budget reason message in
      bind-Succeeds
        (wrap "patch degraded status"
          (call (patch_status budget changed) (λ h. cl.patch_budget h budget changed)))
        (λ _. ret default_requeue_interval) (patch-Succeeds "patch degraded status" budget changed)
        (λ _ h. refl) h

  write_status-Succeeds :
      (budget : GpuWorkloadBudget Quantity) (result : AccResult Float) (now : Time)
      → Succeeds (write_status num cl budget result now)
  unfolding write_status
  write_status-Succeeds budget result now h =
      patch-Succeeds "patch status" budget (with_status num cl (cl.wall h) budget result now) h

  pods-Succeeds :
      (budget : GpuWorkloadBudget Quantity) (now : Time) (r : Result (List (Pod Quantity)))
      → Succeeds (reconcile_pods num cl budget now r)
  unfolding reconcile_pods publish_metrics
  pods-Succeeds budget now (ok pods) =
      let result = account num cl budget pods now in
      bind-Succeeds (write_status num cl budget result now)
        (λ b. publish_metrics num cl b result >> conclude num cl b pods now result)
        (write_status-Succeeds budget result now)
        (λ b.
          bind-Succeeds (publish_metrics num cl b result) (λ _. conclude num cl b pods now result)
            (λ h. refl) (λ _. conclude-Succeeds b pods now result))
  pods-Succeeds budget now (err e) = mark-Succeeds budget "ListPodsFailed" (cl.error_text e)

  selector-Succeeds :
      (budget : GpuWorkloadBudget Quantity) (now : Time) (r : Result Selector)
      → Succeeds (reconcile_selector num cl budget now r)
  unfolding reconcile_selector
  selector-Succeeds budget now (ok selector) =
      bind-Succeeds
        (attempt
          (call (list_pods budget.namespace selector) (λ h. cl.list h budget.namespace selector)))
        (reconcile_pods num cl budget now) (λ h. refl) (pods-Succeeds budget now)
  selector-Succeeds budget now (err e) = mark-Succeeds budget "InvalidSelector" (cl.error_text e)

  update-Succeeds :
      (msg : String) (b : GpuWorkloadBudget Quantity)
      → Succeeds (wrap msg (call (update_budget b) (λ h. cl.update h b)))
  update-Succeeds msg b =
      wrap-Succeeds msg (call (update_budget b) (λ h. cl.update h b)) (λ h. healthy.updates h b)

  ensure-Succeeds :
      (budget : GpuWorkloadBudget Quantity) → Succeeds (ensure_finalizer num cl budget)
  unfolding ensure_finalizer
  ensure-Succeeds budget h =
      elim (Bool-cases (cl.contains_finalizer budget.finalizers finalizer_name)) [
        | inl e ↦ rw e refl
        | inr e ↦ rw e (
            update-Succeeds "add finalizer"
              (record budget { finalizers = cl.add_finalizer budget.finalizers finalizer_name }) h)
      ]

  live-Succeeds : (budget : GpuWorkloadBudget Quantity) → Succeeds (reconcile_live num cl budget)
  unfolding reconcile_live
  live-Succeeds budget =
      let clock : M Quantity Float Time = λ h. (h, ok (cl.now h)) in
      bind-Succeeds (ensure_finalizer num cl budget)
        (λ b. clock >>= λ now.
          reconcile_selector num cl b now (cl.label_selector_as_selector b.spec.selector))
        (ensure-Succeeds budget)
        (λ b.
          bind-Succeeds clock
            (λ now. reconcile_selector num cl b now (cl.label_selector_as_selector b.spec.selector))
            (λ h. refl)
            (λ now. selector-Succeeds b now (cl.label_selector_as_selector b.spec.selector)))

  finalize-Succeeds : (budget : GpuWorkloadBudget Quantity) → Succeeds (finalize num cl budget)
  unfolding finalize clear_budget_metrics
  finalize-Succeeds budget h =
      elim (Bool-cases (cl.contains_finalizer budget.finalizers finalizer_name)) [
        | inl e ↦ rw e (
            bind-Succeeds
              (wrap "remove finalizer" (
                call (update_budget (freed num cl budget))
                  (λ h. cl.update h (freed num cl budget))))
              (λ _. ret no_requeue) (update-Succeeds "remove finalizer" (freed num cl budget))
              (λ _ h. refl) (clear_budget_metrics num cl budget.namespace budget.name h).0)
        | inr e ↦ rw e refl
      ]

  found-Succeeds :
      (r : Result (GpuWorkloadBudget Quantity))
      → is_settled r ≡ true
      → Succeeds (reconcile_found num cl r)
  unfolding reconcile_found
  found-Succeeds (err e) settled = λ h. rw settled refl
  found-Succeeds (ok budget) settled = λ h.
      elim (Bool-cases (is_zero_ptr budget.deletion_timestamp)) [
        | inl p ↦ rw p (live-Succeeds budget h)
        | inr p ↦ rw p (finalize-Succeeds budget h)
      ]

  -- On a server that takes every update and every patch, whose fetch fails only for a missing
  -- budget, and whose eviction fails only for a missing pod or a disruption budget, a round returns
  -- no error, even where the selector does not parse or the list of pods fails.
  pub reconcile-Succeeds :
      (namespace name : String) (h : List (Call Quantity Float))
      → is_err (reconcile num cl namespace name h).1 ≡ false
  unfolding reconcile
  reconcile-Succeeds namespace name h =
      found-Succeeds (cl.get h namespace name) (healthy.gets h namespace name)
        (get_budget namespace name ∷ h)
