-- ===== src/Controller/Reconciler/Guard.antt =====
-- When a round of `Reconcile` may touch a pod.
use gpu_k8s_operator.Prelude.{
  ◌≡◌, ◌≢◌, refl, ◌∙◌, Bool, true, List, ◌∷◌, some, arith, inl, inr, Bool-cases, Result, ok, err,
}
use gpu_k8s_operator.GoTime.{Time, Duration}
use gpu_k8s_operator.Numbers.{Numbers}
use gpu_k8s_operator.Accounting.{Result as AccResult}
use gpu_k8s_operator.Kube.{Pod}
use gpu_k8s_operator.Api.{GpuWorkloadBudget, condition_quota_exceeded}
use gpu_k8s_operator.Cluster.{Cluster, Call, patch_status, ret, ◌>>◌, after_call, wrap_result}
use gpu_k8s_operator.Enforcement.Effects.{pod_writes}
use gpu_k8s_operator.Controller.Status.{
  over_budget_requeue_interval, with_status, write_status, publish_metrics,
}
use gpu_k8s_operator.Controller.Enforcing.{maybe_enforce, grace_of}
use gpu_k8s_operator.Controller.Enforcing.Gate.{HasExpired, offender_of, maybe_enforce_gate}
use gpu_k8s_operator.Controller.Reconciler.{account, conclude, reconcile_pods}

module _ (num : Numbers) (cl : Cluster num) where
  open num use {Float, Quantity}

  -- What a change of a pod needs: the accounting is over, the grace period of a True condition of
  -- the budget has passed, and there is an offender.
  pub record MayEnforce (over : Bool) (budget : GpuWorkloadBudget Quantity)
      (pods : List (Pod Quantity)) (now : Time) : Type 0 where
    pub is_over : over ≡ true
    pub expired :
        HasExpired
          (cl.find_status_condition budget.status.conditions condition_quota_exceeded)
          (grace_of budget)
          now
    pub offender : (p : Pod Quantity) × (offender_of num cl budget pods now ≡ some p)

  after_ret :
      {A : Type 0} (d : Duration) (h : List (Call Quantity Float)) (r : Result A)
      → (after_call (λ _. ret d) h r).0 ≡ h
  after_ret d h (ok a) = refl
  after_ret d h (err e) = refl

  conclude-MayEnforce :
      (budget : GpuWorkloadBudget Quantity) (pods : List (Pod Quantity)) (now : Time)
      (result : AccResult Float) (h : List (Call Quantity Float))
      → pod_writes (conclude num cl budget pods now result h).0 ≢ pod_writes h
      → MayEnforce result.over budget pods now
  unfolding conclude
  conclude-MayEnforce budget pods now result h = elim (Bool-cases result.over) [
    | inl e ↦
        rw
          (
            e,
            after_ret over_budget_requeue_interval (maybe_enforce num cl budget pods now h).0
                (maybe_enforce num cl budget pods now h).1,
          )
          (elim (maybe_enforce_gate num cl budget pods now h).0 [
            | inl idle ↦ λ changed. absurd (changed (rw idle refl))
            | inr (due, found) ↦ λ _. record { is_over = refl; expired = due; offender = found }
          ])
    | inr e ↦ rw e (λ changed. absurd (changed refl))
  ]

  -- The budget that the round enforces for: what the server answers to the patch of the status.
  abbrev pub patched :
      GpuWorkloadBudget Quantity
      → List (Pod Quantity)
      → Time
      → List (Call Quantity Float)
      → Result (GpuWorkloadBudget Quantity)
  patched budget pods now h =
      cl.patch_budget h budget
        (with_status num cl (cl.wall h) budget (account num cl budget pods now) now)

  publish_writes :
      (b : GpuWorkloadBudget Quantity) (result : AccResult Float) (h : List (Call Quantity Float))
      → pod_writes (publish_metrics num cl b result h).0 ≡ pod_writes h
  unfolding publish_metrics
  publish_writes b result h = omega arith

  answered-MayEnforce :
      (pods : List (Pod Quantity)) (now : Time) (result : AccResult Float)
      (h : List (Call Quantity Float)) (r : Result (GpuWorkloadBudget Quantity))
      → pod_writes
          (after_call
            (λ b. publish_metrics num cl b result >> conclude num cl b pods now result)
            h
            (wrap_result "patch status" r)).0
        ≢ pod_writes h
      → (b : GpuWorkloadBudget Quantity) × (r ≡ ok b) × MayEnforce result.over b pods now
  unfolding publish_metrics
  answered-MayEnforce pods now result h (ok b) changed = (
    b,
    refl,
    conclude-MayEnforce b pods now result (publish_metrics num cl b result h).0
        (λ same. changed (same ∙ publish_writes b result h)),
  )
  answered-MayEnforce pods now result h (err e) changed = absurd (changed refl)

  -- A round that changes a pod has seen the server take its status, the accounting is over, and for
  -- the budget that the server answered with, the grace period of a True condition has passed and
  -- there is an offender.
  pub reconcile_pods-MayEnforce :
      (budget : GpuWorkloadBudget Quantity) (now : Time) (pods : List (Pod Quantity))
      (h : List (Call Quantity Float))
      → pod_writes (reconcile_pods num cl budget now (ok pods) h).0 ≢ pod_writes h
      → (b : GpuWorkloadBudget Quantity) × (patched budget pods now h ≡ ok b)
        × MayEnforce (account num cl budget pods now).over b pods now
  unfolding reconcile_pods write_status
  reconcile_pods-MayEnforce budget now pods h changed =
      answered-MayEnforce pods now (account num cl budget pods now)
        (patch_status budget
            (with_status num cl (cl.wall h) budget (account num cl budget pods now) now)
          ∷ h)
        (patched budget pods now h) (λ same. changed (same ∙ omega arith))
