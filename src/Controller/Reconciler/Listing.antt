-- ===== src/Controller/Reconciler/Listing.antt =====
-- A round of `Reconcile` up to the list of pods, where nothing stops it before.
use gpu_k8s_operator.Prelude.{◌≡◌, refl, true, String, List, ◌∷◌, ok}
use gpu_k8s_operator.Numbers.{Numbers}
use gpu_k8s_operator.Kube.{Pod, is_zero_ptr}
use gpu_k8s_operator.Api.{GpuWorkloadBudget}
use gpu_k8s_operator.Cluster.{Cluster, Call, Selector, get_budget, list_pods}
use gpu_k8s_operator.Controller.Status.{finalizer_name}
use gpu_k8s_operator.Controller.Reconciler.{
  reconcile_pods, reconcile_selector, ensure_finalizer, reconcile_live, reconcile_found, reconcile,
}

module _ (num : Numbers) (cl : Cluster num) where
  open num use {Float, Quantity}

  live_listed :
      (budget : GpuWorkloadBudget Quantity) (selector : Selector) (pods : List (Pod Quantity))
      (h : List (Call Quantity Float))
      → cl.contains_finalizer budget.finalizers finalizer_name ≡ true
      → cl.label_selector_as_selector budget.spec.selector ≡ ok selector
      → cl.list h budget.namespace selector ≡ ok pods
      → reconcile_live num cl budget h
        ≡ reconcile_pods num cl budget
            (cl.now h)
            (ok pods)
            (list_pods budget.namespace selector ∷ h)
  unfolding reconcile_live ensure_finalizer reconcile_selector
  live_listed budget selector pods h holds parses lists = rw (holds, parses, lists) refl

  -- The round of a budget that the server finds, that is not being deleted, that holds the finalizer
  -- and whose selector parses goes on with the pods that the server lists.
  pub reconcile_listed :
      (namespace name : String) (h : List (Call Quantity Float))
      (budget : GpuWorkloadBudget Quantity) (selector : Selector) (pods : List (Pod Quantity))
      → cl.get h namespace name ≡ ok budget
      → is_zero_ptr budget.deletion_timestamp ≡ true
      → cl.contains_finalizer budget.finalizers finalizer_name ≡ true
      → cl.label_selector_as_selector budget.spec.selector ≡ ok selector
      → cl.list (get_budget namespace name ∷ h) budget.namespace selector ≡ ok pods
      → reconcile num cl namespace name h
        ≡ reconcile_pods num cl budget
            (cl.now (get_budget namespace name ∷ h))
            (ok pods)
            (list_pods budget.namespace selector ∷ get_budget namespace name ∷ h)
  unfolding reconcile reconcile_found
  reconcile_listed namespace name h budget selector pods found stays holds parses lists =
      rw (found, stays)
        (live_listed budget selector pods (get_budget namespace name ∷ h) holds parses lists)
