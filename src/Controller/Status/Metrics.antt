-- ===== src/Controller/Status/Metrics.antt =====
-- The gauges that the controller publishes and clears, read back from the calls it has made.
use text.Mathlib.Text.{◌==◌ as str_eq}
use text.Mathlib.TextEquality.{eq_iff}
use gpu_k8s_operator.Prelude.{
  ℕ, ◌+◌, ◌≡◌, ◌≢◌, refl, Bool, true, false, ◌&&◌, String, Option, none, some, List, [], ◌∷◌,
  if◌then◌else◌, ◌⊎◌, inl, inr, arith, str_ne,
}
use gpu_k8s_operator.Numbers.{Numbers}
use gpu_k8s_operator.Accounting.{Result as AccResult}
use gpu_k8s_operator.Api.{GpuWorkloadBudget}
use gpu_k8s_operator.Cluster.{
  Cluster, Call, Gauge, consumed_gpu_hours, remaining_gpu_hours, tracked_pods,
  accounting_accuracy_ratio, set_gauge, delete_gauge, inc_counter,
}
use gpu_k8s_operator.Controller.Status.{clear_budget_metrics}

abbrev pub same_gauge : Gauge → Gauge → Bool
same_gauge consumed_gpu_hours consumed_gpu_hours = true
same_gauge remaining_gpu_hours remaining_gpu_hours = true
same_gauge tracked_pods tracked_pods = true
same_gauge accounting_accuracy_ratio accounting_accuracy_ratio = true
same_gauge _ _ = false

abbrev pub same_series : Gauge → String → String → Gauge → String → String → Bool
same_series g ns name g' ns' name' = same_gauge g g' && str_eq ns ns' && str_eq name name'

-- What the metrics registry shows for a series after the calls: the value last set, if it was not
-- deleted since.
abbrev pub gauge_at : {Q F : Type 0} → Gauge → String → String → List (Call Q F) → Option F
gauge_at g ns name [] = none
gauge_at g ns name (set_gauge g' ns' name' v ∷ h) =
    if same_series g ns name g' ns' name' then some v else gauge_at g ns name h
gauge_at g ns name (delete_gauge g' ns' name' ∷ h) =
    if same_series g ns name g' ns' name' then none else gauge_at g ns name h
gauge_at g ns name (_ ∷ h) = gauge_at g ns name h

-- How often the counter of enforcement actions was incremented for a budget and an action.
abbrev pub counter_at : {Q F : Type 0} → String → String → String → List (Call Q F) → ℕ
counter_at ns name action [] = 0
counter_at ns name action (inc_counter ns' name' action' ∷ h) =
    let rest = counter_at ns name action h in
    if str_eq ns ns' && str_eq name name' && str_eq action action' then 1 + rest else rest
counter_at ns name action (_ ∷ h) = counter_at ns name action h

same_str : (s : String) → str_eq s s ≡ true
same_str s = (eq_iff s s).1 refl

-- Two budgets that differ by namespace or name have no series in common.
other_series :
    (g g' : Gauge) (ns name ns' name' : String)
    → (ns' ≢ ns) ⊎ (name' ≢ name)
    → same_series g ns' name' g' ns name ≡ false
other_series g g' ns name ns' name' (inl d) = rw (str_ne ns' ns d) (ground arith)
other_series g g' ns name ns' name' (inr d) = rw (str_ne name' name d) (ground arith)

module _ (num : Numbers) (cl : Cluster num) (budget : GpuWorkloadBudget num.Quantity) where
  open num use {Float, Quantity, of_int}

  cleared :
      (g : Gauge) (h : List (Call Quantity Float))
      → gauge_at g budget.namespace budget.name
          (clear_budget_metrics num cl budget.namespace budget.name h).0
        ≡ none
  unfolding clear_budget_metrics
  cleared consumed_gpu_hours h = rw (same_str budget.namespace, same_str budget.name) refl
  cleared remaining_gpu_hours h = rw (same_str budget.namespace, same_str budget.name) refl
  cleared tracked_pods h = rw (same_str budget.namespace, same_str budget.name) refl
  cleared accounting_accuracy_ratio h = rw (same_str budget.namespace, same_str budget.name) refl

  -- After a clearing, no gauge shows a value for the budget, the gauges of every other budget show
  -- what they showed before, and no counter has changed.
  pub clear_budget_metrics_lem :
      (h : List (Call Quantity Float))
      → let after = (clear_budget_metrics num cl budget.namespace budget.name h).0 in
        ((g : Gauge) → gauge_at g budget.namespace budget.name after ≡ none)
        × ((g : Gauge) (ns name : String)
            → (ns ≢ budget.namespace) ⊎ (name ≢ budget.name)
            → gauge_at g ns name after ≡ gauge_at g ns name h)
        × ((ns name action : String)
            → counter_at ns name action after ≡ counter_at ns name action h)
  unfolding clear_budget_metrics
  clear_budget_metrics_lem h = (
    (λ g. cleared g h),
    (λ g ns name d.
        rw
          (
            other_series g accounting_accuracy_ratio budget.namespace budget.name ns name d,
            other_series g tracked_pods budget.namespace budget.name ns name d,
            other_series g remaining_gpu_hours budget.namespace budget.name ns name d,
            other_series g consumed_gpu_hours budget.namespace budget.name ns name d,
          )
          refl),
    λ ns name action. refl,
  )
