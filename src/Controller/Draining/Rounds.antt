-- ===== src/Controller/Draining/Rounds.antt =====
-- A round of `Reconcile` does not raise the sum of the changes made and left.
use mathlib.Core.Path.{subst}
use gpu_k8s_operator.Prelude.{
  ◌≤◌, ◌≡◌, refl, sym, false, String, List, [], ◌∷◌, ◌++◌, All, arith, Bool-cases, inl, inr, Result,
  ok, err,
}
use gpu_k8s_operator.GoTime.{Time}
use gpu_k8s_operator.Numbers.{Numbers}
use gpu_k8s_operator.Kube.{Pod, is_zero_ptr}
use gpu_k8s_operator.Api.{GpuWorkloadBudget}
use gpu_k8s_operator.Cluster.{
  Cluster, Call, Selector, get_budget, update_budget, list_pods, patch_status, tracked_pods,
  remaining_gpu_hours, consumed_gpu_hours, delete_gauge, accounting_accuracy_ratio, is_not_found, M,
  ret, ◌>>=◌, ◌>>◌, call, wrap, attempt,
}
use gpu_k8s_operator.Enforcement.Effects.{is_pod_write}
use gpu_k8s_operator.Controller.Status.{
  finalizer_name, default_requeue_interval, with_status, write_status, with_degraded,
  mark_degraded_and_requeue, publish_metrics, clear_budget_metrics,
}
use gpu_k8s_operator.Controller.Reconciler.{
  no_requeue, account, finalize, conclude, reconcile_pods, reconcile_selector, ensure_finalizer,
  reconcile_live, reconcile_found, reconcile,
}
use gpu_k8s_operator.Controller.Reconciler.Deletion.{freed}
use gpu_k8s_operator.Controller.Draining.Gate.{conclude-Lowers}
use gpu_k8s_operator.Controller.Draining.{gauges, IsAlone, AreAmong}
use gpu_k8s_operator.Controller.Draining.Rules.{
  potential, LowersAt, bind-Lowers, calls-IsQuiet, calls_Lower,
}

module _ (num : Numbers) (cl : Cluster num)
    (live : List (Call num.Quantity num.Float) → List (Pod num.Quantity))
    (alone : IsAlone num cl live) where
  open num use {Float, Quantity}

  abbrev Lowers : {A : Type 0} → M Quantity Float A → List (Call Quantity Float) → Type 0
  Lowers m h = LowersAt num cl live m h

  quiet :
      (h cs : List (Call Quantity Float))
      → All (λ c. is_pod_write c ≡ false) cs
      → potential num cl live (cs ++ h) ≤ potential num cl live h
  quiet h cs all = calls_Lower num cl live alone h cs all

  mark-Lowers :
      (budget : GpuWorkloadBudget Quantity) (reason message : String)
      (h : List (Call Quantity Float))
      → Lowers (mark_degraded_and_requeue num cl budget reason message) h
  unfolding mark_degraded_and_requeue
  mark-Lowers budget reason message h =
      let changed = with_degraded num cl (cl.wall h) budget reason message in
      bind-Lowers num cl live
        (wrap "patch degraded status"
          (call (patch_status budget changed) (λ h. cl.patch_budget h budget changed)))
        (λ _. ret default_requeue_interval) h
        (quiet h (patch_status budget changed ∷ []) (refl, tt)) (λ a e. omega arith)

  pods-Lowers :
      (budget : GpuWorkloadBudget Quantity) (now : Time) (r : Result (List (Pod Quantity)))
      (h : List (Call Quantity Float))
      → ((pods : List (Pod Quantity)) → r ≡ ok pods → AreAmong pods (live h))
      → Lowers (reconcile_pods num cl budget now r) h
  unfolding reconcile_pods write_status publish_metrics
  pods-Lowers budget now (err e) h among = mark-Lowers budget "ListPodsFailed" (cl.error_text e) h
  pods-Lowers budget now (ok pods) h among =
      let result = account num cl budget pods now in
      let sent = patch_status budget (with_status num cl (cl.wall h) budget result now) in
      bind-Lowers num cl live (write_status num cl budget result now)
        (λ b. publish_metrics num cl b result >> conclude num cl b pods now result) h
        (quiet h (sent ∷ []) (refl, tt))
        (λ b e.
          bind-Lowers num cl live (publish_metrics num cl b result)
            (λ _. conclude num cl b pods now result) (sent ∷ h)
            (quiet (sent ∷ h) (gauges num b result) (refl, (refl, (refl, tt))))
            (λ a e.
              conclude-Lowers num cl live alone b pods now result
                (publish_metrics num cl b result (sent ∷ h)).0
                (subst (AreAmong pods)
                  (sym
                    (calls-IsQuiet num cl live alone h (gauges num b result ++ sent ∷ [])
                      (refl, (refl, (refl, (refl, tt))))).0)
                  (among pods refl))))

  selector-Lowers :
      (budget : GpuWorkloadBudget Quantity) (now : Time) (r : Result Selector)
      (h : List (Call Quantity Float))
      → Lowers (reconcile_selector num cl budget now r) h
  unfolding reconcile_selector
  selector-Lowers budget now (err e) h = mark-Lowers budget "InvalidSelector" (cl.error_text e) h
  selector-Lowers budget now (ok selector) h =
      let asked = list_pods budget.namespace selector in
      let same = (calls-IsQuiet num cl live alone h (asked ∷ []) (refl, tt)).0 in
      bind-Lowers num cl live (attempt (call asked (λ h. cl.list h budget.namespace selector)))
        (reconcile_pods num cl budget now) h (quiet h (asked ∷ []) (refl, tt))
        (λ r e. pods-Lowers budget now r (asked ∷ h) (λ pods l.
          subst (AreAmong pods) (sym same)
            (alone.lists h budget.namespace selector pods (cc (e, l)))))

  finalize-Lowers :
      (budget : GpuWorkloadBudget Quantity) (h : List (Call Quantity Float))
      → Lowers (finalize num cl budget) h
  unfolding finalize clear_budget_metrics
  finalize-Lowers budget h =
      let ns = budget.namespace in
      let name = budget.name in
      let cleared : List (Call Quantity Float) =
        delete_gauge accounting_accuracy_ratio ns name
        ∷ delete_gauge tracked_pods ns name
        ∷ delete_gauge remaining_gpu_hours ns name
        ∷ delete_gauge consumed_gpu_hours ns name
        ∷ [] in
      elim (Bool-cases (cl.contains_finalizer budget.finalizers finalizer_name)) [
        | inl e ↦ rw e (
            omega (
              arith,
              bind-Lowers num cl live
                  (wrap "remove finalizer" (
                    call (update_budget (freed num cl budget))
                      (λ h. cl.update h (freed num cl budget))))
                  (λ _. ret no_requeue) (cleared ++ h)
                  (quiet (cleared ++ h) (update_budget (freed num cl budget) ∷ []) (refl, tt))
                  (λ a e. omega arith),
              quiet h cleared (refl, (refl, (refl, (refl, tt)))),
            ))
        | inr e ↦ rw e (omega arith)
      ]

  ensure-Lowers :
      (budget : GpuWorkloadBudget Quantity) (h : List (Call Quantity Float))
      → Lowers (ensure_finalizer num cl budget) h
  unfolding ensure_finalizer
  ensure-Lowers budget h =
      let held = record budget { finalizers = cl.add_finalizer budget.finalizers finalizer_name } in
      elim (Bool-cases (cl.contains_finalizer budget.finalizers finalizer_name)) [
        | inl e ↦ rw e (omega arith)
        | inr e ↦ rw e (quiet h (update_budget held ∷ []) (refl, tt))
      ]

  live-Lowers :
      (budget : GpuWorkloadBudget Quantity) (h : List (Call Quantity Float))
      → Lowers (reconcile_live num cl budget) h
  unfolding reconcile_live
  live-Lowers budget h =
      let clock : M Quantity Float Time = λ h. (h, ok (cl.now h)) in
      bind-Lowers num cl live (ensure_finalizer num cl budget)
        (λ b. clock >>= λ now.
          reconcile_selector num cl b now (cl.label_selector_as_selector b.spec.selector))
        h (ensure-Lowers budget h)
        (λ b e.
          selector-Lowers b (cl.now (ensure_finalizer num cl budget h).0)
            (cl.label_selector_as_selector b.spec.selector) (ensure_finalizer num cl budget h).0)

  found-Lowers :
      (r : Result (GpuWorkloadBudget Quantity)) (h : List (Call Quantity Float))
      → Lowers (reconcile_found num cl r) h
  unfolding reconcile_found
  found-Lowers (err e) h = elim (Bool-cases (is_not_found e)) [
    | inl p ↦ rw p (omega arith)
    | inr p ↦ rw p (omega arith)
  ]
  found-Lowers (ok budget) h = elim (Bool-cases (is_zero_ptr budget.deletion_timestamp)) [
    | inl p ↦ rw p (live-Lowers budget h)
    | inr p ↦ rw p (finalize-Lowers budget h)
  ]

  pub reconcile-Lowers :
      (namespace name : String) (h : List (Call Quantity Float))
      → Lowers (reconcile num cl namespace name) h
  unfolding reconcile
  reconcile-Lowers namespace name h =
      bind-Lowers num cl live
        (attempt (call (get_budget namespace name) (λ h. cl.get h namespace name)))
        (reconcile_found num cl) h (quiet h (get_budget namespace name ∷ []) (refl, tt))
        (λ r e. found-Lowers r (get_budget namespace name ∷ h))
