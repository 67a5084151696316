-- ===== src/Controller/Reconciler/Deletion.antt =====
-- What `finalize` does to a budget that is being deleted.
use gpu_k8s_operator.Prelude.{
  ◌≡◌, ◌≢◌, ◌∙◌, refl, ap, true, false, String, none, List, ◌∷◌, arith, ◌⊎◌, inl, inr, Bool-cases,
  Result, ok, err,
}
use gpu_k8s_operator.Numbers.{Numbers}
use gpu_k8s_operator.Api.{GpuWorkloadBudget}
use gpu_k8s_operator.Cluster.{Cluster, Call, Gauge, update_budget, ret, after_call, wrap_result}
use gpu_k8s_operator.Enforcement.Effects.{pod_writes}
use gpu_k8s_operator.Enforcement.Writes.{Writes, AllOk}
use gpu_k8s_operator.Controller.Status.{finalizer_name, clear_budget_metrics}
use gpu_k8s_operator.Controller.Status.Metrics.{gauge_at, counter_at, clear_budget_metrics_lem}
use gpu_k8s_operator.Controller.Reconciler.{no_requeue, finalize}

module _ (num : Numbers) (cl : Cluster num) (budget : GpuWorkloadBudget num.Quantity) where
  open num use {Float, Quantity}

  -- The budget without the operator's finalizer.
  abbrev pub freed : GpuWorkloadBudget Quantity
  freed = record budget { finalizers = cl.remove_finalizer budget.finalizers finalizer_name }

  -- The answer to the update decides the result, and makes no call.
  answered :
      (h : List (Call Quantity Float)) (r : Result (GpuWorkloadBudget Quantity))
      → let m = after_call (λ _. ret no_requeue) h (wrap_result "remove finalizer" r) in
        (m.0 ≡ h)
        × AllOk (λ d. (d ≡ no_requeue) × ((b : GpuWorkloadBudget Quantity) × (r ≡ ok b))) m.1
  answered h (ok b) = (refl, (refl, (b, refl)))
  answered h (err e) = (refl, tt)

  finalize_calls :
      (h : List (Call Quantity Float))
      → cl.contains_finalizer budget.finalizers finalizer_name ≡ true
      → let before = (clear_budget_metrics num cl budget.namespace budget.name h).0 in
        ((finalize num cl budget h).0 ≡ update_budget freed ∷ before)
        × AllOk
            (λ d.
              (d ≡ no_requeue)
              × ((b : GpuWorkloadBudget Quantity) × (cl.update before freed ≡ ok b)))
            (finalize num cl budget h).1
  unfolding finalize
  finalize_calls h e =
      let before = (clear_budget_metrics num cl budget.namespace budget.name h).0 in
      rw e (answered (update_budget freed ∷ before) (cl.update before freed))

  -- A budget that holds the finalizer loses its gauges, no gauge of another budget changes, and no
  -- counter changes; the round succeeds only if the server took the update, and then asks for no
  -- other round. A budget that does not hold it is left alone.
  pub finalize_lem :
      (h : List (Call Quantity Float))
      → (cl.contains_finalizer budget.finalizers finalizer_name ≡ true
          → let after = finalize num cl budget h in
            ((g : Gauge) → gauge_at g budget.namespace budget.name after.0 ≡ none)
            × ((g : Gauge) (ns name : String)
                → (ns ≢ budget.namespace) ⊎ (name ≢ budget.name)
                → gauge_at g ns name after.0 ≡ gauge_at g ns name h)
            × ((ns name action : String)
                → counter_at ns name action after.0 ≡ counter_at ns name action h)
            × AllOk
                (λ d.
                  (d ≡ no_requeue)
                  × ((b : GpuWorkloadBudget Quantity) × (cl.update
                          (clear_budget_metrics num cl budget.namespace budget.name h).0
                          freed
                        ≡ ok b)))
                after.1)
        × (cl.contains_finalizer budget.finalizers finalizer_name ≡ false
            → finalize num cl budget h ≡ (h, ok no_requeue))
  unfolding finalize
  finalize_lem h = (
    (λ e.
        let calls = finalize_calls h e in
        let cleared = clear_budget_metrics_lem num cl budget h in
        (
          (λ g. ap (gauge_at g budget.namespace budget.name) calls.0 ∙ cleared.0 g),
          (λ g ns name d. ap (gauge_at g ns name) calls.0 ∙ cleared.1 g ns name d),
          (λ ns name action. ap (counter_at ns name action) calls.0 ∙ cleared.2 ns name action),
          calls.1,
        )),
    λ e. rw e refl,
  )

  clear-Writes :
      (h : List (Call Quantity Float))
      → pod_writes (clear_budget_metrics num cl budget.namespace budget.name h).0 ≡ pod_writes h
  unfolding clear_budget_metrics
  clear-Writes h = omega arith

  -- Neither way does a deletion change a pod.
  pub finalize-Writes : Writes 0 (finalize num cl budget)
  finalize-Writes h = elim (Bool-cases (cl.contains_finalizer budget.finalizers finalizer_name)) [
    | inl e ↦ let calls = finalize_calls h e in rw calls.0 (omega (arith, clear-Writes h))
    | inr e ↦ let idle = (finalize_lem h).1 e in rw idle (omega arith)
  ]
