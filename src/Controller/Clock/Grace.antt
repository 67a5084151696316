-- ===== src/Controller/Clock/Grace.antt =====
-- The round in which QuotaExceeded becomes True, from the listed pods on.
use gpu_k8s_operator.Prelude.{
  ℕ, ◌*◌, ◌^◌, ◌<◌, ◌≡◌, ◌≢◌, ◌∙◌, ap, refl, true, false, List, ◌∷◌, ◌++◌, ok, arith, some, pos,
  inl, inr, Bool-cases, Option-cases,
}
use gpu_k8s_operator.GoTime.{Time, Duration, add, is_zero, second, add_parts, times_fits, before}
use gpu_k8s_operator.Numbers.{Numbers}
use gpu_k8s_operator.Accounting.{Result as AccResult}
use gpu_k8s_operator.Kube.{Pod, Condition, condition_true}
use gpu_k8s_operator.Api.{condition_quota_exceeded, GpuWorkloadBudget}
use gpu_k8s_operator.Cluster.{Cluster, Call, patch_status}
use gpu_k8s_operator.Controller.Status.{with_status, write_status, publish_metrics}
use gpu_k8s_operator.Controller.Status.Transition.{KeepsConditions}
use gpu_k8s_operator.Controller.Status.Conditions.{condition_of, verdict, with_status_clock}
use gpu_k8s_operator.Controller.Enforcing.{is_due, grace_of}
use gpu_k8s_operator.Controller.Enforcing.Gate.{maybe_enforce_idle}
use gpu_k8s_operator.Controller.Reconciler.{account, conclude, reconcile_pods}
use gpu_k8s_operator.Controller.Reconciler.Guard.{patched}
use gpu_k8s_operator.Controller.Reconciler.Safety.{cadence}
use gpu_k8s_operator.Controller.Draining.{gauges}
use gpu_k8s_operator.Controller.Clock.{kept, StoresConditions}

module _ (num : Numbers) (cl : Cluster num) where
  open num use {Float, Quantity}

  is_due_young :
      (c : Condition) (grace : Duration) (now : Time)
      → before now (add c.last_transition_time grace) ≡ true
      → is_due (some c) grace now ≡ false
  is_due_young c grace now e = rw e (ground arith)

  -- With a closed gate, nothing follows the metrics.
  conclude_closed :
      (b : GpuWorkloadBudget Quantity) (pods : List (Pod Quantity)) (now : Time)
      (result : AccResult Float) (h : List (Call Quantity Float))
      → (result.over ≡ true
          → is_due
              (cl.find_status_condition b.status.conditions condition_quota_exceeded)
              (grace_of b)
              now
            ≡ false)
      → conclude num cl b pods now result h ≡ (h, ok (cadence num cl result.over))
  unfolding conclude
  conclude_closed b pods now result h closed = elim (Bool-cases result.over) [
    | inl e ↦
        let idle = maybe_enforce_idle num cl b pods now h (inl (closed e)) in rw (e, idle) refl
    | inr e ↦ rw e refl
  ]

  module _ (keeps : KeepsConditions num cl) (stored : Time → Time)
      (stores : StoresConditions num cl stored) where
    -- A time that the server stored, and at least a second, are in the future.
    stored_young :
        (now : Time) (n : ℕ)
        → 0 < n
        → before now (add (stored now) (pos (n * 1_000_000_000))) ≡ true
    stored_young now n p = ground (
      arith,
      add_parts (stored now) (pos (n * 1_000_000_000)),
      add_parts (stored now) second,
      stores.stored_within now,
    )

    -- The transition time of a condition that has just become True.
    fresh_clock :
        (wall : Time) (budget : GpuWorkloadBudget Quantity) (result : AccResult Float) (now : Time)
        → is_zero now ≡ false
        → ((old : Condition)
            → condition_of num cl keeps budget condition_quota_exceeded ≡ some old
            → old.status ≢ condition_true)
        → result.over ≡ true
        → (c : Condition) × (condition_of num cl keeps
              (with_status num cl wall budget result now)
              condition_quota_exceeded
            ≡ some c)
          × (c.last_transition_time ≡ now)
    fresh_clock wall budget result now set was over =
        let (c, found, status, same, changed, first) =
          with_status_clock num cl keeps wall budget result now set in
        (
          c,
          found,
          elim (Option-cases (condition_of num cl keeps budget condition_quota_exceeded)) [
            | inl e ↦ first e
            | inr (old, e) ↦ changed old e (λ s. was old e (s ∙ ap (verdict num cl keeps) over))
          ],
        )

    closed :
        (budget : GpuWorkloadBudget Quantity) (now : Time) (pods : List (Pod Quantity))
        (h : List (Call Quantity Float)) (b' : GpuWorkloadBudget Quantity) (n : ℕ)
        → is_zero now ≡ false
        → ((old : Condition)
            → condition_of num cl keeps budget condition_quota_exceeded ≡ some old
            → old.status ≢ condition_true)
        → patched num cl budget pods now h ≡ ok b'
        → b'.spec.enforcement.grace_period_seconds ≡ pos n
        → 0 < n
        → n * 1_000_000_000 < 2 ^ 63
        → (account num cl budget pods now).over ≡ true
        → is_due
            (cl.find_status_condition b'.status.conditions condition_quota_exceeded)
            (grace_of b')
            now
          ≡ false
    unfolding grace_of
    closed budget now pods h b' n set was answer e p fits over =
        let result = account num cl budget pods now in
        let new = with_status num cl (cl.wall h) budget result now in
        let (c, found, fresh) = fresh_clock (cl.wall h) budget result now set was over in
        let kept_c : Condition = record c {
          last_transition_time = stored c.last_transition_time;
        } in
        let held : cl.find_status_condition b'.status.conditions condition_quota_exceeded
            ≡ some kept_c =
          stores.answered h budget new b' condition_quota_exceeded answer
          ∙ ap (kept stored) found in
        rw (held, e, times_fits n 1_000_000_000 fits)
          (is_due_young kept_c (pos (n * 1_000_000_000)) now (rw fresh (stored_young now n p)))

    -- A round before which QuotaExceeded was not True enforces against no pod, whatever the action
    -- is: on a server that stores conditions, to the second at worst, if the round's time is set,
    -- and the server takes the status and answers with a budget whose grace period is positive and
    -- fits a duration, then the round, from the listed pods on, makes the patch of the status and
    -- sets the three gauges, makes no other call, and returns without error.
    pub grace_respected :
        (budget : GpuWorkloadBudget Quantity) (now : Time) (pods : List (Pod Quantity))
        (h : List (Call Quantity Float)) (b' : GpuWorkloadBudget Quantity) (n : ℕ)
        → is_zero now ≡ false
        → ((old : Condition)
            → condition_of num cl keeps budget condition_quota_exceeded ≡ some old
            → old.status ≢ condition_true)
        → patched num cl budget pods now h ≡ ok b'
        → b'.spec.enforcement.grace_period_seconds ≡ pos n
        → 0 < n
        → n * 1_000_000_000 < 2 ^ 63
        → let result = account num cl budget pods now in
          reconcile_pods num cl budget now (ok pods) h ≡ (
            gauges num b' result
                ++ patch_status budget (with_status num cl (cl.wall h) budget result now) ∷ h,
            ok (cadence num cl result.over),
          )
    unfolding reconcile_pods write_status publish_metrics
    grace_respected budget now pods h b' n set was answer e p fits =
        let result = account num cl budget pods now in
        rw answer (
          conclude_closed b' pods now result
            (gauges num b' result
              ++ patch_status budget (with_status num cl (cl.wall h) budget result now) ∷ h)
            (closed budget now pods h b' n set was answer e p fits))
