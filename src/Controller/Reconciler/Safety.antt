-- ===== src/Controller/Reconciler/Safety.antt =====
-- What a round of `Reconcile` can change, and when the next round comes.
use gpu_k8s_operator.Prelude.{
  ℕ, ◌≡◌, refl, Bool, String, List, arith, if◌then◌else◌, Bool-cases, inl, inr, ◌⊎◌, ok,
}
use gpu_k8s_operator.GoTime.{Time, Duration}
use gpu_k8s_operator.Numbers.{Numbers}
use gpu_k8s_operator.Accounting.{Result as AccResult}
use gpu_k8s_operator.Kube.{Pod}
use gpu_k8s_operator.Api.{GpuWorkloadBudget}
use gpu_k8s_operator.Cluster.{Cluster, patch_status, ret, ◌>>◌, call, wrap}
use gpu_k8s_operator.Enforcement.Writes.{Writes, Returns, bind-Writes, bind-Returns}
use gpu_k8s_operator.Controller.Status.{
  default_requeue_interval, over_budget_requeue_interval, write_status, with_degraded,
  mark_degraded_and_requeue, publish_metrics,
}
use gpu_k8s_operator.Controller.Enforcing.{maybe_enforce}
use gpu_k8s_operator.Controller.Enforcing.Gate.{maybe_enforce-Writes}
use gpu_k8s_operator.Controller.Reconciler.{account, conclude, reconcile_pods}

-- The interval after a round of a budget that is there and stays.
abbrev pub IsLive : Duration → Type 0
IsLive d = (d ≡ over_budget_requeue_interval) ⊎ (d ≡ default_requeue_interval)

module _ (num : Numbers) (cl : Cluster num) where
  open num use {Float, Quantity}

  pub mark-Writes :
      (budget : GpuWorkloadBudget Quantity) (reason message : String)
      → Writes 0 (mark_degraded_and_requeue num cl budget reason message)
  unfolding mark_degraded_and_requeue
  mark-Writes budget reason message h =
      let changed = with_degraded num cl (cl.wall h) budget reason message in
      bind-Writes 0 0
        (wrap "patch degraded status"
          (call (patch_status budget changed) (λ h. cl.patch_budget h budget changed)))
        (λ _. ret default_requeue_interval) (λ h. omega arith) (λ _ h. omega arith) h

  pub mark-Returns :
      (budget : GpuWorkloadBudget Quantity) (reason message : String)
      → Returns IsLive (mark_degraded_and_requeue num cl budget reason message)
  unfolding mark_degraded_and_requeue
  mark-Returns budget reason message h =
      let changed = with_degraded num cl (cl.wall h) budget reason message in
      bind-Returns IsLive
        (wrap "patch degraded status"
          (call (patch_status budget changed) (λ h. cl.patch_budget h budget changed)))
        (λ _. ret default_requeue_interval) (λ _ h. inr refl) h

  write_status-Writes :
      (budget : GpuWorkloadBudget Quantity) (result : AccResult Float) (now : Time)
      → Writes 0 (write_status num cl budget result now)
  unfolding write_status
  write_status-Writes budget result now h = omega arith

  publish-Writes :
      (budget : GpuWorkloadBudget Quantity) (result : AccResult Float)
      → Writes 0 (publish_metrics num cl budget result)
  unfolding publish_metrics
  publish-Writes budget result h = omega arith

  -- The most pods that a round changes after its accounting: one if it is over, or else none.
  abbrev pub allowance : Bool → ℕ
  allowance over = if over then 1 else 0

  conclude-Writes :
      (budget : GpuWorkloadBudget Quantity) (pods : List (Pod Quantity)) (now : Time)
      (result : AccResult Float)
      → Writes (allowance result.over) (conclude num cl budget pods now result)
  unfolding conclude
  conclude-Writes budget pods now result h = elim (Bool-cases result.over) [
    | inl e ↦ rw e (
        bind-Writes 1 0 (maybe_enforce num cl budget pods now)
          (λ _. ret over_budget_requeue_interval) (maybe_enforce-Writes num cl budget pods now)
          (λ _ h. omega arith) h)
    | inr e ↦ rw e (omega arith)
  ]

  -- The interval after an accounting.
  abbrev pub cadence : Bool → Duration
  cadence over = if over then over_budget_requeue_interval else default_requeue_interval

  conclude-Returns :
      (budget : GpuWorkloadBudget Quantity) (pods : List (Pod Quantity)) (now : Time)
      (result : AccResult Float)
      → Returns (λ d. d ≡ cadence result.over) (conclude num cl budget pods now result)
  unfolding conclude
  conclude-Returns budget pods now result h = elim (Bool-cases result.over) [
    | inl e ↦ rw e (
        bind-Returns (λ d. d ≡ over_budget_requeue_interval) (maybe_enforce num cl budget pods now)
          (λ _. ret over_budget_requeue_interval) (λ _ h. refl) h)
    | inr e ↦ rw e refl
  ]

  -- From the listed pods on, a round changes at most one pod, and none unless the accounting is
  -- over; if it succeeds the next round comes after 10 seconds if the accounting is over, or else
  -- after 30.
  pub reconcile_pods_lem :
      (budget : GpuWorkloadBudget Quantity) (now : Time) (pods : List (Pod Quantity))
      → let over = (account num cl budget pods now).over in
        Writes (allowance over) (reconcile_pods num cl budget now (ok pods))
        × Returns (λ d. d ≡ cadence over) (reconcile_pods num cl budget now (ok pods))
  unfolding reconcile_pods
  reconcile_pods_lem budget now pods =
      let result = account num cl budget pods now in
      let rest = λ (b : GpuWorkloadBudget Quantity). conclude num cl b pods now result in
      (
        (λ h. omega (
          arith,
          bind-Writes 0 (allowance result.over) (write_status num cl budget result now)
              (λ b. publish_metrics num cl b result >> rest b)
              (write_status-Writes budget result now)
              (λ b h. omega (
                arith,
                bind-Writes 0 (allowance result.over) (publish_metrics num cl b result)
                    (λ _. rest b) (publish-Writes b result) (λ _. conclude-Writes b pods now result)
                    h,
              ))
              h,
        )),
        bind-Returns (λ d. d ≡ cadence result.over) (write_status num cl budget result now)
            (λ b. publish_metrics num cl b result >> rest b)
            (λ b.
              bind-Returns (λ d. d ≡ cadence result.over) (publish_metrics num cl b result)
                (λ _. rest b) (λ _. conclude-Returns b pods now result)),
      )
