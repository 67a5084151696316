-- ===== src/Controller/Reconciler/Rounds.antt =====
-- What holds of a whole round of `Reconcile`, whatever the server answers.
use gpu_k8s_operator.Prelude.{
  ◌≤◌, ◌≡◌, Bool, true, false, String, List, arith, Bool-cases, inl, inr, Result, ok, err,
}
use gpu_k8s_operator.GoTime.{Time, Duration}
use gpu_k8s_operator.Numbers.{Numbers}
use gpu_k8s_operator.Kube.{Pod, is_zero_ptr}
use gpu_k8s_operator.Api.{GpuWorkloadBudget}
use gpu_k8s_operator.Cluster.{
  Cluster, Selector, get_budget, list_pods, is_not_found, M, ◌>>=◌, call, attempt,
}
use gpu_k8s_operator.Enforcement.Writes.{Writes, AllOk, Returns, bind-Writes, bind-Returns}
use gpu_k8s_operator.Controller.Status.{finalizer_name}
use gpu_k8s_operator.Controller.Reconciler.Deletion.{finalize-Writes}
use gpu_k8s_operator.Controller.Reconciler.{
  account, reconcile_pods, reconcile_selector, ensure_finalizer, reconcile_live, reconcile_found,
  reconcile,
}
use gpu_k8s_operator.Controller.Reconciler.Safety.{
  IsLive, allowance, cadence, mark-Writes, mark-Returns, reconcile_pods_lem,
}

module _ (num : Numbers) (cl : Cluster num) where
  open num use {Float, Quantity}

  cadence-IsLive : (over : Bool) (d : Duration) → d ≡ cadence num cl over → IsLive d
  cadence-IsLive true d e = inl e
  cadence-IsLive false d e = inr e

  AllOk-map :
      {A : Type 0} (P S : A → Type 0) (r : Result A) → ((a : A) → P a → S a) → AllOk P r → AllOk S r
  AllOk-map P S (ok a) f p = f a p
  AllOk-map P S (err e) f p = tt

  allowance_le : (over : Bool) → allowance num cl over ≤ 1
  allowance_le over = ground arith

  any_pods :
      (budget : GpuWorkloadBudget Quantity) (now : Time) (r : Result (List (Pod Quantity)))
      → Writes 1 (reconcile_pods num cl budget now r)
        × Returns IsLive (reconcile_pods num cl budget now r)
  unfolding reconcile_pods
  any_pods budget now (ok pods) =
      let lem = reconcile_pods_lem num cl budget now pods in
      let over = (account num cl budget pods now).over in
      (
        (λ h. omega (arith, lem.0 h, allowance_le over)),
        (λ h.
            AllOk-map (λ d. d ≡ cadence num cl over) IsLive
              (reconcile_pods num cl budget now (ok pods) h).1 (cadence-IsLive over) (lem.1 h)),
      )
  any_pods budget now (err e) = (
    (λ h. omega (arith, mark-Writes num cl budget "ListPodsFailed" (cl.error_text e) h)),
    mark-Returns num cl budget "ListPodsFailed" (cl.error_text e),
  )

  -- What holds of a round of a budget that is there and stays.
  abbrev IsSafe : M Quantity Float Duration → Type 0
  IsSafe m = Writes 1 m × Returns IsLive m

  bind-IsSafe :
      {A : Type 0} (m : M Quantity Float A) (f : A → M Quantity Float Duration)
      → Writes 0 m
      → ((a : A) → IsSafe (f a))
      → IsSafe (m >>= f)
  bind-IsSafe m f w s = (
    (λ h. omega (arith, bind-Writes 0 1 m f w (λ a. (s a).0) h)),
    bind-Returns IsLive m f (λ a. (s a).1),
  )

  any_selector :
      (budget : GpuWorkloadBudget Quantity) (now : Time) (r : Result Selector)
      → IsSafe (reconcile_selector num cl budget now r)
  unfolding reconcile_selector
  any_selector budget now (ok selector) =
      bind-IsSafe
        (attempt
          (call (list_pods budget.namespace selector) (λ h. cl.list h budget.namespace selector)))
        (reconcile_pods num cl budget now) (λ h. omega arith) (any_pods budget now)
  any_selector budget now (err e) = (
    (λ h. omega (arith, mark-Writes num cl budget "InvalidSelector" (cl.error_text e) h)),
    mark-Returns num cl budget "InvalidSelector" (cl.error_text e),
  )

  ensure-Writes : (budget : GpuWorkloadBudget Quantity) → Writes 0 (ensure_finalizer num cl budget)
  unfolding ensure_finalizer
  ensure-Writes budget h =
      elim (Bool-cases (cl.contains_finalizer budget.finalizers finalizer_name)) [
        | inl e ↦ rw e (omega arith)
        | inr e ↦ rw e (omega arith)
      ]

  -- A round of a budget that is not being deleted changes at most one pod, and if it succeeds the
  -- next round comes after 10 or after 30 seconds, whatever fails on the way.
  pub reconcile_live_lem :
      (budget : GpuWorkloadBudget Quantity)
      → Writes 1 (reconcile_live num cl budget) × Returns IsLive (reconcile_live num cl budget)
  unfolding reconcile_live
  reconcile_live_lem budget =
      let clock : M Quantity Float Time = λ h. (h, ok (cl.now h)) in
      bind-IsSafe (ensure_finalizer num cl budget)
        (λ b. clock >>= λ now.
          reconcile_selector num cl b now (cl.label_selector_as_selector b.spec.selector))
        (ensure-Writes budget)
        (λ b.
          bind-IsSafe clock
            (λ now. reconcile_selector num cl b now (cl.label_selector_as_selector b.spec.selector))
            (λ h. omega arith)
            (λ now. any_selector b now (cl.label_selector_as_selector b.spec.selector)))

  found-Writes : (r : Result (GpuWorkloadBudget Quantity)) → Writes 1 (reconcile_found num cl r)
  unfolding reconcile_found
  found-Writes (err e) = λ h. elim (Bool-cases (is_not_found e)) [
    | inl p ↦ rw p (omega arith)
    | inr p ↦ rw p (omega arith)
  ]
  found-Writes (ok budget) = λ h. elim (Bool-cases (is_zero_ptr budget.deletion_timestamp)) [
    | inl p ↦ rw p ((reconcile_live_lem budget).0 h)
    | inr p ↦ rw p (omega (arith, finalize-Writes num cl budget h))
  ]

  -- A round changes at most one pod, whatever the server answers.
  pub reconcile-Writes : (namespace name : String) → Writes 1 (reconcile num cl namespace name)
  unfolding reconcile
  reconcile-Writes namespace name h =
      bind-Writes 0 1 (attempt (call (get_budget namespace name) (λ h. cl.get h namespace name)))
        (reconcile_found num cl) (λ h. omega arith) found-Writes h
