-- ===== src/Controller/Draining/Pressing.antt =====
-- A whole round of `Reconcile` that has an offender to evict.
use gpu_k8s_operator.Prelude.{suc, ◌≡◌, ◌∙◌, ap, true, String, List, ◌∷◌, arith, ok}
use gpu_k8s_operator.Numbers.{Numbers}
use gpu_k8s_operator.Kube.{Pod, is_zero_ptr}
use gpu_k8s_operator.Api.{GpuWorkloadBudget}
use gpu_k8s_operator.Cluster.{Cluster, Call, Selector, get_budget, list_pods}
use gpu_k8s_operator.Controller.Status.{finalizer_name}
use gpu_k8s_operator.Controller.Reconciler.{reconcile}
use gpu_k8s_operator.Controller.Reconciler.Listing.{reconcile_listed}
use gpu_k8s_operator.Controller.Draining.{accepted}
use gpu_k8s_operator.Controller.Draining.Progress.{IsPressing, evicting_round}

module _ (num : Numbers) (cl : Cluster num) (namespace name : String)
    (h : List (Call num.Quantity num.Float)) where
  open num use {Float, Quantity}

  -- The server finds a budget that is not being deleted, that holds the finalizer and whose selector
  -- parses, and lists pods; and from there on the round has an offender to evict.
  pub record IsPressingRound : Type 0 where
    pub budget : GpuWorkloadBudget Quantity
    pub selector : Selector
    pub pods : List (Pod Quantity)
    pub answered : GpuWorkloadBudget Quantity
    pub offender : Pod Quantity
    pub found : cl.get h namespace name ≡ ok budget
    pub stays : is_zero_ptr budget.deletion_timestamp ≡ true
    pub holds : cl.contains_finalizer budget.finalizers finalizer_name ≡ true
    pub parses : cl.label_selector_as_selector budget.spec.selector ≡ ok selector
    pub lists : cl.list (get_budget namespace name ∷ h) budget.namespace selector ≡ ok pods
    pub presses :
        IsPressing num cl budget pods
          (cl.now (get_budget namespace name ∷ h))
          (list_pods budget.namespace selector ∷ get_budget namespace name ∷ h)
          answered
          offender

  -- The server accepts one change in such a round.
  pub pressing_round :
      IsPressingRound
      → accepted num cl (reconcile num cl namespace name h).0 ≡ suc (accepted num cl h)
  pressing_round r =
      ap (λ m. accepted num cl m.0)
        (reconcile_listed num cl namespace name h r.budget r.selector r.pods r.found r.stays r.holds
          r.parses r.lists)
      ∙ ap (λ m. accepted num cl m.0)
          (evicting_round num cl r.budget r.pods (cl.now (get_budget namespace name ∷ h))
            (list_pods r.budget.namespace r.selector ∷ get_budget namespace name ∷ h) r.answered
            r.offender r.presses)
      ∙ rw r.presses.accepts (omega arith)
