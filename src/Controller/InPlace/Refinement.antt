-- ===== src/Controller/InPlace/Refinement.antt =====
-- The patches of the store, beside those of the model without one.
use gpu_k8s_operator.Prelude.{ℤ, ℕ, int32_of, ◌≡◌, ap, String, Option, some, List}
use gpu_k8s_operator.GoTime.{Time, zero_time}
use gpu_k8s_operator.Numbers.{Numbers}
use gpu_k8s_operator.Accounting.{Result as AccResult}
use gpu_k8s_operator.Kube.{Condition, condition_true, condition_false}
use gpu_k8s_operator.Api.{condition_ready, condition_degraded, GpuWorkloadBudget}
use gpu_k8s_operator.Api.Store.{Store, new_time}
use gpu_k8s_operator.Api.Copiers.{put-put}
use gpu_k8s_operator.Api.Copies.{Libraries, BudgetObject, budget_deep_copy_into}
use gpu_k8s_operator.Api.Copies.Fields.{AreDeep, conditions_at}
use gpu_k8s_operator.Api.Copies.Laws.{budgets}
use gpu_k8s_operator.Cluster.{Cluster}
use gpu_k8s_operator.Controller.Status.{
  new_condition, ready_condition, quota_condition, recovered_condition, gpu_hours_to_quantity,
  with_status, with_degraded,
}
use gpu_k8s_operator.Controller.Enforcing.{with_enforced}
use gpu_k8s_operator.Controller.InPlace.{Patch, with_status_at, with_degraded_at, with_enforced_at}
use gpu_k8s_operator.Controller.InPlace.Calls.{
  IsInPlace, IsOwner, Leaves-set, Leaves-none, Leaves-time, conditions-new_time, after_calls,
  set_again, conditions_copied,
}

module _ {Q B Meta Selector Amount : Type 0} (lib : Libraries Q B Meta Selector Amount) where
  -- The copy reads as the first budget and the changed one as the second.
  abbrev pub IsPatch :
      Patch B Meta Selector Amount → GpuWorkloadBudget Q → GpuWorkloadBudget Q → Type 0
  IsPatch p old new = ((budgets lib).value p.0 p.1.0 ≡ old) × ((budgets lib).value p.0 p.1.1 ≡ new)

module _ (num : Numbers) (cl : Cluster num) {B Meta Selector Amount : Type 0}
    (lib : Libraries num.Quantity B Meta Selector Amount) (deep : AreDeep lib)
    (set_at : Time → Option ℕ → Condition → Store B → Store B × Option ℕ)
    (amount : num.Quantity → Amount) (in_place : IsInPlace num cl lib set_at amount) where
  open num use {Float, Quantity}

  -- What the patches write in the values.
  abbrev counted :
      AccResult Float → ℤ → List Condition → GpuWorkloadBudget Quantity → GpuWorkloadBudget Quantity
  counted result generation cs v = record v {
    status = record (v.status) {
      consumed_gpu_hours = gpu_hours_to_quantity num cl result.consumed;
      remaining_gpu_hours = gpu_hours_to_quantity num cl result.remaining;
      tracked_pods = int32_of result.tracked_pods;
      observed_generation = generation;
      conditions = cs;
    };
  }

  abbrev rated : ℤ → List Condition → GpuWorkloadBudget Quantity → GpuWorkloadBudget Quantity
  rated generation cs v = record v {
    status = record (v.status) { observed_generation = generation; conditions = cs };
  }

  abbrev stamped : Time → List Condition → GpuWorkloadBudget Quantity → GpuWorkloadBudget Quantity
  stamped now cs v = record v {
    status = record (v.status) { last_enforcement_at = some now; conditions = cs };
  }

  module _ (b : BudgetObject Meta Selector Amount) (s : Store B)
      (owner : IsOwner num cl lib deep set_at amount in_place b s) where
    with_status_at-with_status :
        (wall : Time) (result : AccResult Float) (now : Time)
        → IsPatch lib
            (with_status_at num cl lib set_at amount wall b result now s)
            ((budgets lib).value s b)
            (with_status num cl wall ((budgets lib).value s b) result now)
    unfolding with_status
    with_status_at-with_status wall result now =
        let o = b.status.conditions in
        let t = (budget_deep_copy_into lib b s).0 in
        let ready = set_at wall o (ready_condition num cl now) t in
        let quota = set_at wall ready.1 (quota_condition num cl result now) ready.0 in
        let u = set_at wall quota.1 (recovered_condition num cl now) quota.0 in
        let after = after_calls num cl lib deep set_at amount in_place b s owner u.1 u.0 (
          Leaves-set num cl lib deep set_at amount in_place o t quota.1 quota.0 wall
            (recovered_condition num cl now)
            (Leaves-set num cl lib deep set_at amount in_place o t ready.1 ready.0 wall
              (quota_condition num cl result now)
              (Leaves-set num cl lib deep set_at amount in_place o t o t wall
                (ready_condition num cl now)
                (Leaves-none num cl lib deep set_at amount in_place o t)))) in
        let wrote =
          set_again num cl lib deep set_at amount in_place b s owner wall quota.1
            (recovered_condition num cl now) quota.0 _
            (set_again num cl lib deep set_at amount in_place b s owner wall ready.1
              (quota_condition num cl result now) ready.0 _
              (set_again num cl lib deep set_at amount in_place b s owner wall o
                (ready_condition num cl now) t _
                (conditions_copied num cl lib deep set_at amount in_place b s owner))) in
        (
          after.0,
          rw
              (
                in_place.amount_value (gpu_hours_to_quantity num cl result.consumed) u.0,
                in_place.amount_value (gpu_hours_to_quantity num cl result.remaining) u.0,
                wrote,
              )
              (ap
                (counted result (lib.object_meta.value s b.object_meta).generation
                  (with_status num cl wall ((budgets lib).value s b) result now).status.conditions)
                after.1),
        )

    with_degraded_at-with_degraded :
        (wall : Time) (reason message : String)
        → IsPatch lib
            (with_degraded_at num cl lib set_at amount wall b reason message s)
            ((budgets lib).value s b)
            (with_degraded num cl wall ((budgets lib).value s b) reason message)
    unfolding with_degraded
    with_degraded_at-with_degraded wall reason message =
        let o = b.status.conditions in
        let t = (budget_deep_copy_into lib b s).0 in
        let bad = new_condition condition_degraded condition_true reason message zero_time in
        let unready = new_condition condition_ready condition_false reason message zero_time in
        let degraded = set_at wall o bad t in
        let u = set_at wall degraded.1 unready degraded.0 in
        let after = after_calls num cl lib deep set_at amount in_place b s owner u.1 u.0 (
          Leaves-set num cl lib deep set_at amount in_place o t degraded.1 degraded.0 wall unready (
            Leaves-set num cl lib deep set_at amount in_place o t o t wall bad
              (Leaves-none num cl lib deep set_at amount in_place o t))) in
        let wrote =
          set_again num cl lib deep set_at amount in_place b s owner wall degraded.1 unready
            degraded.0 _
            (set_again num cl lib deep set_at amount in_place b s owner wall o bad t _
              (conditions_copied num cl lib deep set_at amount in_place b s owner)) in
        (
          after.0,
          rw wrote (
              ap
                (rated (lib.object_meta.value s b.object_meta).generation
                  (with_degraded num cl wall ((budgets lib).value s b) reason
                    message).status.conditions)
                after.1),
        )

    with_enforced_at-with_enforced :
        (now : Time)
        → IsPatch lib
            (with_enforced_at num cl lib set_at amount b now s)
            ((budgets lib).value s b)
            (with_enforced num cl ((budgets lib).value s b) now)
    with_enforced_at-with_enforced now =
        let o = b.status.conditions in
        let t = (budget_deep_copy_into lib b s).0 in
        let u = (new_time t now).0 in
        let after =
          after_calls num cl lib deep set_at amount in_place b s owner o u
            (Leaves-time num cl lib deep set_at amount in_place o t now) in
        (
          after.0,
          rw
              (
                put-put t.times t.next now,
                conditions-new_time num cl lib deep set_at amount in_place o t now,
                conditions_copied num cl lib deep set_at amount in_place b s owner,
              )
              (ap (stamped now (conditions_at s o)) after.1),
        )

    -- The patches that `writeStatus`, `markDegradedAndRequeue` and `maybeEnforce` make in place, of
    -- a budget whose slice of conditions nothing else leads to, compare the budget as it was with
    -- the budget as the pure model changes it, whether `SetStatusCondition` writes into the slice
    -- or into a new one, if the libraries copy deeply.
    pub patches_lem :
        (wall : Time) (result : AccResult Float) (now : Time) (reason message : String)
        → let old = (budgets lib).value s b in
          IsPatch lib
            (with_status_at num cl lib set_at amount wall b result now s)
            old
            (with_status num cl wall old result now)
          × IsPatch lib
              (with_degraded_at num cl lib set_at amount wall b reason message s)
              old
              (with_degraded num cl wall old reason message)
          × IsPatch lib
              (with_enforced_at num cl lib set_at amount b now s)
              old
              (with_enforced num cl old now)
    patches_lem wall result now reason message = (
      with_status_at-with_status wall result now,
      with_degraded_at-with_degraded wall reason message,
      with_enforced_at-with_enforced now,
    )
