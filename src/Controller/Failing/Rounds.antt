-- ===== src/Controller/Failing/Rounds.antt =====
-- A whole round of `Reconcile`, and the calls that the server refuses.
use gpu_k8s_operator.Prelude.{
  ◌≡◌, refl, ap, true, String, Option, none, some, Error, List, ◌∷◌, inl, inr, Bool-cases, Result,
  ok, err,
}
use gpu_k8s_operator.GoTime.{Time}
use gpu_k8s_operator.Numbers.{Numbers}
use gpu_k8s_operator.Accounting.{Result as AccResult}
use gpu_k8s_operator.Kube.{Pod, is_zero_ptr}
use gpu_k8s_operator.Api.{GpuWorkloadBudget}
use gpu_k8s_operator.Cluster.{
  Cluster, Call, Selector, get_budget, update_budget, list_pods, is_not_found, M, ret, ◌>>=◌, ◌>>◌,
  call, wrap, attempt,
}
use gpu_k8s_operator.Controller.Status.{
  finalizer_name, default_requeue_interval, over_budget_requeue_interval, with_status, write_status,
  with_degraded, mark_degraded_and_requeue, publish_metrics, clear_budget_metrics,
}
use gpu_k8s_operator.Controller.Enforcing.{maybe_enforce}
use gpu_k8s_operator.Controller.Reconciler.{
  no_requeue, account, finalize, conclude, reconcile_pods, reconcile_selector, ensure_finalizer,
  reconcile_live, reconcile_found, reconcile,
}
use gpu_k8s_operator.Controller.Reconciler.Deletion.{freed}
use gpu_k8s_operator.Controller.Failing.{
  Wraps-self, error_of, EndsRefused, FailsLast, FineCalls, here, next, allowed, refusal, extend,
  bind-FailsLast, wrap-FailsLast, call-FailsLast,
}
use gpu_k8s_operator.Controller.Failing.Enforcing.{patch-FailsLast, maybe_enforce-FailsLast}

module _ (num : Numbers) (cl : Cluster num) where
  open num use {Float, Quantity}

  conclude-FailsLast :
      (budget : GpuWorkloadBudget Quantity) (pods : List (Pod Quantity)) (now : Time)
      (result : AccResult Float)
      → FailsLast num cl (conclude num cl budget pods now result)
  unfolding conclude
  conclude-FailsLast budget pods now result h = elim (Bool-cases result.over) [
    | inl e ↦ rw e (
        bind-FailsLast num cl (maybe_enforce num cl budget pods now)
          (λ _. ret over_budget_requeue_interval) (maybe_enforce-FailsLast num cl budget pods now)
          (λ _ h. here) h)
    | inr e ↦ rw e here
  ]

  mark-FailsLast :
      (budget : GpuWorkloadBudget Quantity) (reason message : String)
      → FailsLast num cl (mark_degraded_and_requeue num cl budget reason message)
  unfolding mark_degraded_and_requeue
  mark-FailsLast budget reason message h =
      let changed = with_degraded num cl (cl.wall h) budget reason message in
      bind-FailsLast num cl
        (wrap "patch degraded status" (
          call (gpu_k8s_operator.Cluster.patch_status budget changed)
            (λ h. cl.patch_budget h budget changed)))
        (λ _. ret default_requeue_interval)
        (patch-FailsLast num cl budget "patch degraded status" budget changed) (λ _ h. here) h

  pods-FailsLast :
      (budget : GpuWorkloadBudget Quantity) (now : Time) (r : Result (List (Pod Quantity)))
      → FailsLast num cl (reconcile_pods num cl budget now r)
  unfolding reconcile_pods write_status publish_metrics
  pods-FailsLast budget now (ok pods) =
      let result = account num cl budget pods now in
      bind-FailsLast num cl (write_status num cl budget result now)
        (λ b. publish_metrics num cl b result >> conclude num cl b pods now result)
        (λ h.
          patch-FailsLast num cl budget "patch status" budget
            (with_status num cl (cl.wall h) budget result now) h)
        (λ b.
          bind-FailsLast num cl (publish_metrics num cl b result)
            (λ _. conclude num cl b pods now result)
            (λ h. next _ (next _ (next _ here refl) refl) refl)
            (λ _. conclude-FailsLast b pods now result))
  pods-FailsLast budget now (err e) = mark-FailsLast budget "ListPodsFailed" (cl.error_text e)

  list_allowed :
      (namespace : String) (s : Selector) (o : Option Error)
      → allowed num cl (list_pods namespace s) o ≡ true
  list_allowed namespace s none = refl
  list_allowed namespace s (some e) = refl

  selector-FailsLast :
      (budget : GpuWorkloadBudget Quantity) (now : Time) (r : Result Selector)
      → FailsLast num cl (reconcile_selector num cl budget now r)
  unfolding reconcile_selector
  selector-FailsLast budget now (ok selector) =
      bind-FailsLast num cl
        (attempt
          (call (list_pods budget.namespace selector) (λ h. cl.list h budget.namespace selector)))
        (reconcile_pods num cl budget now)
        (λ h. next _ here (
          list_allowed budget.namespace selector
            (refusal num cl (list_pods budget.namespace selector) h)))
        (pods-FailsLast budget now)
  selector-FailsLast budget now (err e) = mark-FailsLast budget "InvalidSelector" (cl.error_text e)

  update-FailsLast :
      (msg : String) (b : GpuWorkloadBudget Quantity)
      → FailsLast num cl (wrap msg (call (update_budget b) (λ h. cl.update h b)))
  update-FailsLast msg b =
      wrap-FailsLast num cl msg (call (update_budget b) (λ h. cl.update h b))
        (call-FailsLast num cl (update_budget b) (λ h. cl.update h b) (λ x. refl) (λ h. refl))

  ensure-FailsLast :
      (budget : GpuWorkloadBudget Quantity) → FailsLast num cl (ensure_finalizer num cl budget)
  unfolding ensure_finalizer
  ensure-FailsLast budget h =
      elim (Bool-cases (cl.contains_finalizer budget.finalizers finalizer_name)) [
        | inl e ↦ rw e here
        | inr e ↦ rw e (
            update-FailsLast "add finalizer"
              (record budget { finalizers = cl.add_finalizer budget.finalizers finalizer_name }) h)
      ]

  live-FailsLast :
      (budget : GpuWorkloadBudget Quantity) → FailsLast num cl (reconcile_live num cl budget)
  unfolding reconcile_live
  live-FailsLast budget =
      let clock : M Quantity Float Time = λ h. (h, ok (cl.now h)) in
      bind-FailsLast num cl (ensure_finalizer num cl budget)
        (λ b. clock >>= λ now.
          reconcile_selector num cl b now (cl.label_selector_as_selector b.spec.selector))
        (ensure-FailsLast budget)
        (λ b.
          bind-FailsLast num cl clock
            (λ now. reconcile_selector num cl b now (cl.label_selector_as_selector b.spec.selector))
            (λ h. here)
            (λ now. selector-FailsLast b now (cl.label_selector_as_selector b.spec.selector)))

  finalize-FailsLast :
      (budget : GpuWorkloadBudget Quantity) → FailsLast num cl (finalize num cl budget)
  unfolding finalize clear_budget_metrics
  finalize-FailsLast budget h =
      let update : M Quantity Float (GpuWorkloadBudget Quantity) =
        wrap "remove finalizer"
          (call (update_budget (freed num cl budget)) (λ h. cl.update h (freed num cl budget))) in
      let cleared = (clear_budget_metrics num cl budget.namespace budget.name h).0 in
      elim (Bool-cases (cl.contains_finalizer budget.finalizers finalizer_name)) [
        | inl e ↦ rw e (
            extend num cl ((update >>= λ _. ret no_requeue) cleared)
              (next _ (next _ (next _ (next _ here refl) refl) refl) refl)
              (bind-FailsLast num cl update (λ _. ret no_requeue)
                (update-FailsLast "remove finalizer" (freed num cl budget)) (λ _ h. here) cleared))
        | inr e ↦ rw e here
      ]

  -- What follows the fetch, which has just been answered.
  found-EndsRefused :
      (namespace name : String) (h : List (Call Quantity Float))
      (r : Result (GpuWorkloadBudget Quantity))
      → cl.get h namespace name ≡ r
      → let m = reconcile_found num cl r (get_budget namespace name ∷ h) in
        EndsRefused num cl h m.0 m.1
  unfolding reconcile_found
  found-EndsRefused namespace name h (err x) e = elim (Bool-cases (is_not_found x)) [
    | inl p ↦ rw p (next (get_budget namespace name) here (rw (e, p) refl))
    | inr p ↦
        rw p (get_budget namespace name, h, x, refl, here, ap error_of e, p, inr (Wraps-self x))
  ]
  found-EndsRefused namespace name h (ok budget) e =
      let fetched : FineCalls num cl h (get_budget namespace name ∷ h) =
        next (get_budget namespace name) here (rw e refl) in
      extend num cl (reconcile_found num cl (ok budget) (get_budget namespace name ∷ h)) fetched
        (elim (Bool-cases (is_zero_ptr budget.deletion_timestamp)) [
          | inl p ↦ rw p (live-FailsLast budget (get_budget namespace name ∷ h))
          | inr p ↦ rw p (finalize-FailsLast budget (get_budget namespace name ∷ h))
        ])

  -- If a round returns an error, then the last call that it made was refused, the error is that
  -- refusal with messages around it at most, and of its earlier calls none was refused in a way
  -- that is not tolerated; if it returns without error, then no call at all was refused in such a
  -- way. Tolerated are a budget that is not found, any refusal of a list of pods, and an eviction
  -- that is not found or held back by a disruption budget.
  pub reconcile-FailsLast :
      (namespace name : String) (h : List (Call Quantity Float))
      → let (h', r) = reconcile num cl namespace name h in EndsRefused num cl h h' r
  unfolding reconcile
  reconcile-FailsLast namespace name h =
      found-EndsRefused namespace name h (cl.get h namespace name) refl
