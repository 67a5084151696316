-- ===== src/Controller/Reconciler.antt =====
-- `Reconcile`, `finalize` and `mapPodToBudgets`. `ctrl.Result` is its `RequeueAfter`, 0 for none;
-- logging is left out. `now()` is the cluster's clock, whichever clock is configured.
pub mod Deletion
pub mod Safety
pub mod Rounds
pub mod Guard
pub mod Success
pub mod Tests
pub mod Listing
pub mod Requests
use text.Mathlib.Text.{◌==◌ as str_eq}
use gpu_k8s_operator.Prelude.{
  Bool, String, Option, none, some, List, [], ◌∷◌, pos, Result, ok, err, Error, wrapped, not,
  if◌then◌else◌,
}
use gpu_k8s_operator.GoTime.{Time, Duration}
use gpu_k8s_operator.Numbers.{Numbers}
use gpu_k8s_operator.Accounting.{Pod as AccPod, Result as AccResult, compute}
use gpu_k8s_operator.Kube.{Pod, is_zero_ptr}
use gpu_k8s_operator.Api.{GpuWorkloadBudget}
use gpu_k8s_operator.Cluster.{
  Cluster, Selector, get_budget, update_budget, list_pods, list_budgets, is_not_found, M, ret, fail,
  ◌>>=◌, ◌>>◌, call, wrap, attempt,
}
use gpu_k8s_operator.PodConversion.{pod_to_accounting}
use gpu_k8s_operator.Controller.Status.{
  finalizer_name, default_requeue_interval, over_budget_requeue_interval, gpu_resource_name,
  write_status, mark_degraded_and_requeue, publish_metrics, clear_budget_metrics,
}
use gpu_k8s_operator.Controller.Enforcing.{maybe_enforce, window_of}

-- `ctrl.Result{}`
abbrev pub no_requeue : Duration
no_requeue = pos 0

module _ (num : Numbers) (cl : Cluster num) where
  open num use {Float, Quantity, as_approximate_float64}

  -- The pods that the accounting covers: the loop over `pods.Items`.
  abbrev pub cons_some : Option (AccPod Float) → List (AccPod Float) → List (AccPod Float)
  cons_some none ps = ps
  cons_some (some p) ps = p ∷ ps

  unfoldable pub accounting_pods : String → List (Pod Quantity) → List (AccPod Float)
  accounting_pods gpu_res [] = []
  accounting_pods gpu_res (p ∷ ps) =
      cons_some (pod_to_accounting num p gpu_res) (accounting_pods gpu_res ps)

  unfoldable pub account : GpuWorkloadBudget Quantity → List (Pod Quantity) → Time → AccResult Float
  account budget pods now =
      compute num
        (record {
          window = window_of budget;
          quota = as_approximate_float64 budget.spec.quota.gpu_hours;
        })
        now (accounting_pods (gpu_resource_name budget) pods)

  unfoldable pub finalize : GpuWorkloadBudget Quantity → M Quantity Float Duration
  unfolding clear_budget_metrics
  finalize budget =
      let freed = record budget {
        finalizers = cl.remove_finalizer budget.finalizers finalizer_name;
      } in
      if not (cl.contains_finalizer budget.finalizers finalizer_name) then ret no_requeue else (do
        clear_budget_metrics num cl budget.namespace budget.name
        updated ← wrap "remove finalizer" (call (update_budget freed) (λ h. cl.update h freed))
        ret no_requeue)

  -- What follows the metrics: enforcement, and the interval to the next round.
  unfoldable pub conclude :
      GpuWorkloadBudget Quantity
      → List (Pod Quantity)
      → Time
      → AccResult Float
      → M Quantity Float Duration
  unfolding maybe_enforce
  conclude budget pods now result =
      if result.over
      then (maybe_enforce num cl budget pods now >> ret over_budget_requeue_interval)
      else ret default_requeue_interval

  -- The round from the listed pods on.
  unfoldable pub reconcile_pods :
      GpuWorkloadBudget Quantity → Time → Result (List (Pod Quantity)) → M Quantity Float Duration
  unfolding account conclude
  reconcile_pods budget now (err e) =
      mark_degraded_and_requeue num cl budget "ListPodsFailed" (cl.error_text e)
  reconcile_pods budget now (ok pods) = do
    let result = account budget pods now
    budget' ← write_status num cl budget result now
    publish_metrics num cl budget' result
    conclude budget' pods now result

  unfoldable pub reconcile_selector :
      GpuWorkloadBudget Quantity → Time → Result Selector → M Quantity Float Duration
  reconcile_selector budget now (err e) =
      mark_degraded_and_requeue num cl budget "InvalidSelector" (cl.error_text e)
  reconcile_selector budget now (ok selector) = do
    pods ←
        attempt
          (call (list_pods budget.namespace selector) (λ h. cl.list h budget.namespace selector))
    reconcile_pods budget now pods

  unfoldable pub ensure_finalizer :
      GpuWorkloadBudget Quantity → M Quantity Float (GpuWorkloadBudget Quantity)
  ensure_finalizer budget =
      let held = record budget { finalizers = cl.add_finalizer budget.finalizers finalizer_name } in
      if cl.contains_finalizer budget.finalizers finalizer_name
      then ret budget
      else wrap "add finalizer" (call (update_budget held) (λ h. cl.update h held))

  -- The round of a budget that is not being deleted.
  unfoldable pub reconcile_live : GpuWorkloadBudget Quantity → M Quantity Float Duration
  unfolding ensure_finalizer reconcile_selector
  reconcile_live budget = do
    budget' ← ensure_finalizer budget
    now ← λ h. (h, ok (cl.now h))
    reconcile_selector budget' now (cl.label_selector_as_selector budget'.spec.selector)

  unfoldable pub reconcile_found : Result (GpuWorkloadBudget Quantity) → M Quantity Float Duration
  unfolding finalize reconcile_live
  reconcile_found (err e) =
      if is_not_found e then ret no_requeue else fail (wrapped "fetch budget" e)
  reconcile_found (ok budget) =
      if not (is_zero_ptr budget.deletion_timestamp) then finalize budget else reconcile_live budget

  -- `Reconcile`, for a request by namespace and name.
  unfoldable pub reconcile : String → String → M Quantity Float Duration
  unfolding reconcile_found
  reconcile namespace name = do
    found ← attempt (call (get_budget namespace name) (λ h. cl.get h namespace name))
    reconcile_found found

  -- `mapPodToBudgets`; none is an object that is no pod. A request is a namespace and a name.
  abbrev pub request_if :
      Result Selector
      → Pod Quantity
      → GpuWorkloadBudget Quantity
      → List (String × String)
      → List (String × String)
  request_if (err e) pod b out = out
  request_if (ok selector) pod b out =
      if not (selector pod.labels) then out else (b.namespace, b.name) ∷ out

  unfoldable pub requests_for :
      Pod Quantity → List (GpuWorkloadBudget Quantity) → List (String × String)
  requests_for pod [] = []
  requests_for pod (b ∷ bs) =
      request_if (cl.label_selector_as_selector b.spec.selector) pod b (requests_for pod bs)

  abbrev pub requests_or_none :
      Pod Quantity → Result (List (GpuWorkloadBudget Quantity)) → List (String × String)
  requests_or_none pod (err e) = []
  requests_or_none pod (ok budgets) = requests_for pod budgets

  unfoldable pub map_pod_to_budgets :
      Option (Pod Quantity) → M Quantity Float (List (String × String))
  map_pod_to_budgets none = ret []
  map_pod_to_budgets (some pod) = do
    budgets ← attempt (call (list_budgets pod.namespace) (λ h. cl.list_all h pod.namespace))
    ret (requests_or_none pod budgets)
