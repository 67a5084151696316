-- ===== src/Controller/Failing/Enforcing.antt =====
-- The enforcement of a round that fails.
use Prim.Native.String.{◌++◌}
use gpu_k8s_operator.Prelude.{
  ◌≡◌, refl, ap, true, String, Option, none, some, List, ◌∷◌, inl, inr, Bool-cases, Result, ok, err,
}
use gpu_k8s_operator.GoTime.{Time}
use gpu_k8s_operator.Numbers.{Numbers}
use gpu_k8s_operator.Kube.{Pod, lookup}
use gpu_k8s_operator.Api.{GpuWorkloadBudget, condition_quota_exceeded}
use gpu_k8s_operator.Cluster.{
  Cluster, Call, evict_pod, patch_pod, patch_status, inc_counter, is_not_found,
  is_too_many_requests, M, ret, ◌>>◌, call, wrap,
}
use gpu_k8s_operator.Enforcement.{
  Enforcer, Outcome, new, evictor, pauser, alerter, enforce, alert, evict_answer, evict_unless,
  pause_unless, eviction_of, stamp, pod_key, outcome, warn, annotation_paused_at,
}
use gpu_k8s_operator.Controller.Enforcing.{
  grace_of, is_due, with_enforced, record_enforcement, enforce_on, maybe_enforce,
}
use gpu_k8s_operator.Controller.Enforcing.Gate.{offender_of}
use gpu_k8s_operator.Controller.Failing.{
  Wraps-self, error_of, EndsRefused, FailsLast, here, next, extend, bind-FailsLast, wrap-FailsLast,
  call-FailsLast,
}

module _ (num : Numbers) (cl : Cluster num) (budget : GpuWorkloadBudget num.Quantity) where
  open num use {Float, Quantity}

  module _ (pod : Pod Quantity) where
    -- The eviction of the pod.
    abbrev eviction : Call Quantity Float
    eviction = evict_pod pod.namespace (eviction_of num cl budget pod)

    evict_answer-EndsRefused :
        (h : List (Call Quantity Float)) (a : Result (Unit {0}))
        → cl.evict h pod.namespace (eviction_of num cl budget pod) ≡ a
        → let m = evict_answer num cl budget pod a (eviction ∷ h) in EndsRefused num cl h m.0 m.1
    evict_answer-EndsRefused h (ok done) e = next _ (next eviction here (rw e refl)) refl
    evict_answer-EndsRefused h (err x) e = elim (Bool-cases (is_not_found x)) [
      | inl p ↦ rw p (next eviction here (rw (e, p) refl))
      | inr p ↦ elim (Bool-cases (is_too_many_requests x)) [
        | inl q ↦ rw (p, q) (next _ (next eviction here (rw (e, p, q) refl)) refl)
        | inr q ↦
            rw (p, q)
              (eviction, h, x, refl, here, ap error_of e, rw (p, q) refl, inr (Wraps-self x))
      ]
    ]

    evict_unless-FailsLast : (o : Option Time) → FailsLast num cl (evict_unless num cl budget pod o)
    evict_unless-FailsLast (some t) h = here
    evict_unless-FailsLast none h =
        evict_answer-EndsRefused h (cl.evict h pod.namespace (eviction_of num cl budget pod)) refl

    pause_unless-FailsLast :
        (now : Time) (o : Option String) → FailsLast num cl (pause_unless num cl budget pod now o)
    pause_unless-FailsLast now (some t) = λ h. here
    pause_unless-FailsLast now none =
        let stamped = stamp num cl budget pod now in
        let patch : M Quantity Float (Pod Quantity) =
          call (patch_pod pod stamped) (λ h. cl.patch h pod stamped) in
        bind-FailsLast num cl (wrap ("stamp pause annotation on " ++ pod_key pod) patch)
          (λ patched.
            let msg = "Paused pod " ++ pod_key patched ++ " after quota exceeded." in
            warn num cl budget "Paused" msg
            >> ret (outcome num cl "Pause" true patched "Paused" msg))
          (wrap-FailsLast num cl ("stamp pause annotation on " ++ pod_key pod) patch (
            call-FailsLast num cl (patch_pod pod stamped) (λ h. cl.patch h pod stamped) (λ x. refl)
              (λ h. refl)))
          (λ patched h. next _ here refl)

    enforce-FailsLast :
        (e : Enforcer) (now : Time) → FailsLast num cl (enforce num cl e budget pod now)
    unfolding enforce alert
    enforce-FailsLast evictor now h = evict_unless-FailsLast pod.deletion_timestamp h
    enforce-FailsLast pauser now h =
        pause_unless-FailsLast now (lookup annotation_paused_at pod.annotations) h
    enforce-FailsLast alerter now h = next _ here refl

  pub patch-FailsLast :
      (msg : String) (old changed : GpuWorkloadBudget Quantity)
      → FailsLast num cl
          (wrap msg (call (patch_status old changed) (λ h. cl.patch_budget h old changed)))
  patch-FailsLast msg old changed =
      wrap-FailsLast num cl msg
        (call (patch_status old changed) (λ h. cl.patch_budget h old changed))
        (call-FailsLast num cl (patch_status old changed) (λ h. cl.patch_budget h old changed)
          (λ x. refl) (λ h. refl))

  record_enforcement-FailsLast :
      (now : Time) (out : Outcome) → FailsLast num cl (record_enforcement num cl budget now out)
  unfolding record_enforcement
  record_enforcement-FailsLast now out h =
      let changed = with_enforced num cl budget now in
      let counted = inc_counter budget.namespace budget.name out.action ∷ h in
      let patch : M Quantity Float (GpuWorkloadBudget Quantity) =
        wrap "patch last enforcement time"
          (call (patch_status budget changed) (λ h. cl.patch_budget h budget changed)) in
      extend num cl (record_enforcement num cl budget now out h) (next _ here refl) (
        bind-FailsLast num cl patch (λ _. ret tt)
          (patch-FailsLast "patch last enforcement time" budget changed) (λ _ h. here) counted)

  enforce_on-FailsLast :
      (now : Time) (o : Option (Pod Quantity)) → FailsLast num cl (enforce_on num cl budget now o)
  unfolding enforce_on
  enforce_on-FailsLast now none = λ h. here
  enforce_on-FailsLast now (some p) =
      let run = enforce num cl (new budget.spec.enforcement.action) budget p now in
      let msg = "enforce " ++ budget.spec.enforcement.action in
      bind-FailsLast num cl (wrap msg run) (record_enforcement num cl budget now)
        (wrap-FailsLast num cl msg run
          (enforce-FailsLast p (new budget.spec.enforcement.action) now))
        (record_enforcement-FailsLast now)

  pub maybe_enforce-FailsLast :
      (pods : List (Pod Quantity)) (now : Time)
      → FailsLast num cl (maybe_enforce num cl budget pods now)
  unfolding maybe_enforce
  maybe_enforce-FailsLast pods now h =
      elim (Bool-cases (
        is_due (cl.find_status_condition budget.status.conditions condition_quota_exceeded)
          (grace_of budget) now)) [
            | inl e ↦ rw e (enforce_on-FailsLast now (offender_of num cl budget pods now) h)
            | inr e ↦ rw e here
          ]
