-- ===== src/Controller/InPlace.antt =====
-- `writeStatus`, `markDegradedAndRequeue` and the stamp of `maybeEnforce` as they work on the store,
-- up to their patch: they keep a deep copy of the budget, change the budget itself, and patch with
-- the difference. `meta.SetStatusCondition` writes into the slice that it is given.
pub mod Calls
pub mod Refinement
pub mod Tests
use gpu_k8s_operator.Prelude.{
  ℕ, int32_of, ◌<◌, ◌≤◌, ◌≡◌, ◌≢◌, String, Option, none, some, List, [], ◌∷◌, All, ℤ,
}
use gpu_k8s_operator.GoTime.{Time, zero_time}
use gpu_k8s_operator.Numbers.{Numbers}
use gpu_k8s_operator.Accounting.{Result as AccResult}
use gpu_k8s_operator.Kube.{Condition, condition_true, condition_false}
use gpu_k8s_operator.Api.{condition_ready, condition_degraded}
use gpu_k8s_operator.Api.Store.{Store, Agree, new_time}
use gpu_k8s_operator.Api.Copies.{Libraries, BudgetObject, StatusObject, budget_deep_copy_into}
use gpu_k8s_operator.Api.Copies.Fields.{addr_of, conditions_at}
use gpu_k8s_operator.Cluster.{Cluster}
use gpu_k8s_operator.Controller.Status.{
  new_condition, ready_condition, quota_condition, recovered_condition, gpu_hours_to_quantity,
}

-- The address is not that of the slice.
abbrev pub NotAt : Option ℕ → ℕ → Type 0
NotAt o a = All (λ b. b ≢ a) (addr_of o)

-- A patch: the store, the copy to compare with, and the budget.
abbrev pub Patch : Type 0 → Type 0 → Type 0 → Type 0 → Type 0
Patch B Meta Selector Amount =
    Store B × (BudgetObject Meta Selector Amount × BudgetObject Meta Selector Amount)

module _ (num : Numbers) (cl : Cluster num) {B Meta Selector Amount : Type 0}
    (lib : Libraries num.Quantity B Meta Selector Amount)
    (set_at : Time → Option ℕ → Condition → Store B → Store B × Option ℕ)
    (amount : num.Quantity → Amount) where
  open num use {Float, Quantity}

  abbrev pub with_status_at :
      Time
      → BudgetObject Meta Selector Amount
      → AccResult Float
      → Time
      → Store B
      → Patch B Meta Selector Amount
  with_status_at wall budget result now s =
      let base = budget_deep_copy_into lib budget s in
      let ready = set_at wall budget.status.conditions (ready_condition num cl now) base.0 in
      let quota = set_at wall ready.1 (quota_condition num cl result now) ready.0 in
      let recovered = set_at wall quota.1 (recovered_condition num cl now) quota.0 in
      (
        recovered.0,
        (
          base.1,
          record budget {
            status = record (budget.status) {
              consumed_gpu_hours = amount (gpu_hours_to_quantity num cl result.consumed);
              remaining_gpu_hours = amount (gpu_hours_to_quantity num cl result.remaining);
              tracked_pods = int32_of result.tracked_pods;
              observed_generation = (lib.object_meta.value s budget.object_meta).generation;
              conditions = recovered.1;
            };
          },
        ),
      )

  abbrev pub with_degraded_at :
      Time
      → BudgetObject Meta Selector Amount
      → String
      → String
      → Store B
      → Patch B Meta Selector Amount
  with_degraded_at wall budget reason message s =
      let base = budget_deep_copy_into lib budget s in
      let degraded =
        set_at wall budget.status.conditions
          (new_condition condition_degraded condition_true reason message zero_time) base.0 in
      let ready =
        set_at wall degraded.1
          (new_condition condition_ready condition_false reason message zero_time) degraded.0 in
      (
        ready.0,
        (
          base.1,
          record budget {
            status = record (budget.status) {
              observed_generation = (lib.object_meta.value s budget.object_meta).generation;
              conditions = ready.1;
            };
          },
        ),
      )

  abbrev pub with_enforced_at :
      BudgetObject Meta Selector Amount → Time → Store B → Patch B Meta Selector Amount
  with_enforced_at budget now s =
      let base = budget_deep_copy_into lib budget s in
      let t = new_time base.0 now in
      (
        t.0,
        (
          base.1,
          record budget { status = record (budget.status) { last_enforcement_at = some t.1 } },
        ),
      )
