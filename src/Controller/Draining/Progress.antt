-- ===== src/Controller/Draining/Progress.antt =====
-- A round that has an offender to evict evicts it, on a server that accepts its calls.
use Prim.Native.String.{◌++◌ as append_text}
use mathlib.Core.Path.{subst}
use gpu_k8s_operator.Prelude.{
  ◌≡◌, ◌∙◌, ap, refl, true, Option, none, some, List, [], ◌∷◌, ◌++◌, All-of, ok,
}
use gpu_k8s_operator.GoTime.{Time, add, opposite}
use gpu_k8s_operator.Numbers.{Numbers}
use gpu_k8s_operator.Accounting.{Result as AccResult}
use gpu_k8s_operator.Kube.{Pod}
use gpu_k8s_operator.Api.{GpuWorkloadBudget, action_evict, condition_quota_exceeded}
use gpu_k8s_operator.Cluster.{Cluster, Call, patch_status, inc_counter, evict_pod, event}
use gpu_k8s_operator.Offender.Chosen.{AllSome, pick_worst_offender-AllSome}
use gpu_k8s_operator.Enforcement.{
  evict_unless, outcome, eviction_of, event_type_warning, pod_key, enforce, evict, new, Outcome,
}
use gpu_k8s_operator.Controller.Status.{
  over_budget_requeue_interval, gpu_resource_name, with_status, write_status, publish_metrics,
}
use gpu_k8s_operator.Controller.Enforcing.{
  grace_of, window_of, is_due, with_enforced, maybe_enforce, enforce_on, record_enforcement,
}
use gpu_k8s_operator.Controller.Enforcing.Gate.{offender_of}
use gpu_k8s_operator.Controller.Reconciler.{account, conclude, reconcile_pods}
use gpu_k8s_operator.Controller.Draining.{gauges}

module _ (num : Numbers) (cl : Cluster num) where
  open num use {Float, Quantity}

  offender-IsLive :
      (budget : GpuWorkloadBudget Quantity) (pods : List (Pod Quantity)) (now : Time)
      → AllSome (λ p. p.deletion_timestamp ≡ none) (offender_of num cl budget pods now)
  offender-IsLive budget pods now =
      pick_worst_offender-AllSome num (gpu_resource_name budget)
        (add now (opposite (window_of budget))) now (λ p. p.deletion_timestamp ≡ none) pods
        (All-of (λ p. p.deletion_timestamp ≡ none → p.deletion_timestamp ≡ none) pods (λ p _ e. e))

  -- The calls of the eviction of `p` and of its record, newest first.
  abbrev pub eviction_calls : GpuWorkloadBudget Quantity → Pod Quantity → List (Call Quantity Float)
  eviction_calls b p =
      inc_counter b.namespace b.name action_evict
      ∷ event b.namespace b.name event_type_warning "Evicted"
          (append_text "Evicted pod " (append_text (pod_key p) " after quota exceeded."))
      ∷ evict_pod p.namespace (eviction_of num cl b p)
      ∷ []

  evict_unless_ok :
      (b : GpuWorkloadBudget Quantity) (p : Pod Quantity) (o : Option Time)
      (h : List (Call Quantity Float))
      → o ≡ none
      → cl.evict h p.namespace (eviction_of num cl b p) ≡ ok tt
      → evict_unless num cl b p o h ≡ (
        event b.namespace b.name event_type_warning "Evicted"
              (append_text "Evicted pod " (append_text (pod_key p) " after quota exceeded."))
            ∷ evict_pod p.namespace (eviction_of num cl b p)
            ∷ h,
        ok (
            outcome num cl action_evict true p "Evicted"
              (append_text "Evicted pod " (append_text (pod_key p) " after quota exceeded."))),
      )
  evict_unless_ok b p (some t) h e a = cc e
  evict_unless_ok b p none h e a = rw a refl

  -- An enforcer that returns an outcome is counted and recorded.
  recorded :
      (b b' : GpuWorkloadBudget Quantity) (p : Pod Quantity) (now : Time)
      (h h' : List (Call Quantity Float)) (out : Outcome)
      → enforce num cl (new b.spec.enforcement.action) b p now h ≡ (h', ok out)
      → cl.patch_budget
          (inc_counter b.namespace b.name out.action ∷ h')
          b
          (with_enforced num cl b now)
        ≡ ok b'
      → enforce_on num cl b now (some p) h ≡ (
        patch_status b (with_enforced num cl b now)
            ∷ inc_counter b.namespace b.name out.action
            ∷ h',
        ok tt,
      )
  unfolding enforce_on record_enforcement
  recorded b b' p now h h' out run stamped = rw run (rw stamped refl)

  enforce_evicts :
      (b : GpuWorkloadBudget Quantity) (p : Pod Quantity) (now : Time)
      (h : List (Call Quantity Float)) (b' : GpuWorkloadBudget Quantity)
      → b.spec.enforcement.action ≡ action_evict
      → p.deletion_timestamp ≡ none
      → cl.evict h p.namespace (eviction_of num cl b p) ≡ ok tt
      → cl.patch_budget (eviction_calls b p ++ h) b (with_enforced num cl b now) ≡ ok b'
      → enforce_on num cl b now (some p) h
        ≡ (patch_status b (with_enforced num cl b now) ∷ eviction_calls b p ++ h, ok tt)
  unfolding enforce evict new
  enforce_evicts b p now h b' action alive accepted stamped =
      recorded b b' p now h _ _
        (ap (λ a. enforce num cl (new a) b p now h) action
          ∙ evict_unless_ok b p p.deletion_timestamp h alive accepted)
        stamped

  concluded :
      (b : GpuWorkloadBudget Quantity) (pods : List (Pod Quantity)) (now : Time)
      (result : AccResult Float) (p : Pod Quantity) (h h' : List (Call Quantity Float))
      → result.over ≡ true
      → is_due
          (cl.find_status_condition b.status.conditions condition_quota_exceeded)
          (grace_of b)
          now
        ≡ true
      → offender_of num cl b pods now ≡ some p
      → enforce_on num cl b now (some p) h ≡ (h', ok tt)
      → conclude num cl b pods now result h ≡ (h', ok over_budget_requeue_interval)
  unfolding conclude maybe_enforce
  concluded b pods now result p h h' over due offends run = rw (over, due, offends) (rw run refl)

  module _ (budget : GpuWorkloadBudget Quantity) (pods : List (Pod Quantity)) (now : Time)
      (h : List (Call Quantity Float)) (b : GpuWorkloadBudget Quantity) (p : Pod Quantity) where
    -- The calls up to the enforcement, newest first.
    abbrev pub reported : List (Call Quantity Float)
    reported =
        let result = account num cl budget pods now in
        gauges num b result
        ++ patch_status budget (with_status num cl (cl.wall h) budget result now) ∷ h

    -- The accounting is over, the server took the status and answered with `b`, whose grace period has
    -- passed and whose action is Evict, `p` is its worst offender, and the server accepts the
    -- eviction and the time of it.
    pub record IsPressing : Type 0 where
      pub is_over : (account num cl budget pods now).over ≡ true
      pub taken :
          cl.patch_budget h budget
            (with_status num cl (cl.wall h) budget (account num cl budget pods now) now)
          ≡ ok b
      pub due :
          is_due
            (cl.find_status_condition b.status.conditions condition_quota_exceeded)
            (grace_of b)
            now
          ≡ true
      pub action : b.spec.enforcement.action ≡ action_evict
      pub offends : offender_of num cl b pods now ≡ some p
      pub accepts : cl.evict reported p.namespace (eviction_of num cl b p) ≡ ok tt
      pub stamped :
          (b' : GpuWorkloadBudget Quantity) × (cl.patch_budget
              (eviction_calls b p ++ reported)
              b
              (with_enforced num cl b now)
            ≡ ok b')

    pressed :
        IsPressing
        → conclude num cl b pods now (account num cl budget pods now) reported ≡ (
          patch_status b (with_enforced num cl b now) ∷ eviction_calls b p ++ reported,
          ok over_budget_requeue_interval,
        )
    pressed press =
        let alive : p.deletion_timestamp ≡ none =
          subst (AllSome (λ p. p.deletion_timestamp ≡ none)) press.offends
            (offender-IsLive b pods now) in
        concluded b pods now (account num cl budget pods now) p reported
          (patch_status b (with_enforced num cl b now) ∷ eviction_calls b p ++ reported)
          press.is_over press.due press.offends
          (enforce_evicts b p now reported press.stamped.0 press.action alive press.accepts
            press.stamped.1)

    -- From the listed pods on, if the accounting is over, the server takes the status, the budget
    -- that it answers with has an open gate, the action Evict and an offender, and the server
    -- accepts the eviction and the stamp of the time, the round makes these calls in this order and
    -- no other: the status, the three gauges, the eviction of the offender with the grace period,
    -- the event, the counter, and the stamp; and it asks for the next round after 10 seconds.
    pub evicting_round :
        IsPressing
        → reconcile_pods num cl budget now (ok pods) h ≡ (
          patch_status b (with_enforced num cl b now) ∷ eviction_calls b p ++ reported,
          ok over_budget_requeue_interval,
        )
    unfolding reconcile_pods write_status publish_metrics
    evicting_round press = rw press.taken (pressed press)
