-- ===== src/Controller/Enforcing/Gate.antt =====
-- When `maybeEnforce` runs an enforcer, and what it can change.
use Prim.Native.String.{◌++◌}
use text.Mathlib.TextEquality.{eq_iff}
use gpu_k8s_operator.Prelude.{
  ◌+◌, ◌≤◌, ◌≡◌, refl, true, false, Option, none, some, List, ◌∷◌, ok, ◌⊎◌, inl, inr, arith,
  Bool-cases, Option-cases, ◌≤ℤ◌,
}
use gpu_k8s_operator.GoTime.{Time, Duration, add, opposite}
use gpu_k8s_operator.Numbers.{Numbers}
use gpu_k8s_operator.Kube.{Pod, Condition, condition_true}
use gpu_k8s_operator.Api.{condition_quota_exceeded, GpuWorkloadBudget}
use gpu_k8s_operator.Cluster.{Cluster, Call, patch_status, inc_counter, call, wrap, ret}
use gpu_k8s_operator.Offender.{pick_worst_offender}
use gpu_k8s_operator.Enforcement.{Outcome, new, enforce}
use gpu_k8s_operator.Enforcement.Effects.{pod_writes}
use gpu_k8s_operator.Enforcement.Writes.{Writes, bind-Writes, call-Writes, enforce-Writes}
use gpu_k8s_operator.Controller.Status.{gpu_resource_name}
use gpu_k8s_operator.Controller.Enforcing.{
  grace_of, window_of, is_due, with_enforced, record_enforcement, enforce_on, maybe_enforce,
}

-- The grace period of a condition that is True has passed.
abbrev pub HasExpired : Option Condition → Duration → Time → Type 0
HasExpired o grace now =
    (c : Condition) × (o ≡ some c)
    × (c.status ≡ condition_true)
    × (add c.last_transition_time grace ≤ℤ now)

pub is_due-HasExpired :
    (o : Option Condition) (grace : Duration) (now : Time)
    → is_due o grace now ≡ true
    → HasExpired o grace now
is_due-HasExpired none grace now e = cc e
is_due-HasExpired (some c) grace now e = (
  c,
  refl,
  ground (arith, eq_iff c.status condition_true),
  ground (arith, eq_iff c.status condition_true),
)

module _ (num : Numbers) (cl : Cluster num) where
  open num use {Float, Quantity}

  -- What `maybeEnforce` looks at: the condition, and the pod it would enforce against.
  abbrev pub offender_of :
      GpuWorkloadBudget Quantity → List (Pod Quantity) → Time → Option (Pod Quantity)
  offender_of budget pods now =
      pick_worst_offender num pods (gpu_resource_name budget)
        (add now (opposite (window_of budget))) now

  record_enforcement-Writes :
      (budget : GpuWorkloadBudget Quantity) (now : Time) (out : Outcome)
      → Writes 0 (record_enforcement num cl budget now out)
  unfolding record_enforcement
  record_enforcement-Writes budget now out h =
      let c : Call Quantity Float = patch_status budget (with_enforced num cl budget now) in
      let answer = λ (h : List (Call Quantity Float)).
        cl.patch_budget h budget (with_enforced num cl budget now) in
      omega (
        arith,
        bind-Writes 0 0 (wrap "patch last enforcement time" (call c answer)) (λ _. ret tt)
            (call-Writes c answer refl) (λ _ h. omega arith)
            (inc_counter budget.namespace budget.name out.action ∷ h),
      )

  enforce_on-Writes :
      (budget : GpuWorkloadBudget Quantity) (now : Time) (o : Option (Pod Quantity))
      → Writes 1 (enforce_on num cl budget now o)
  unfolding enforce_on
  enforce_on-Writes budget now none = λ h. omega arith
  enforce_on-Writes budget now (some p) =
      bind-Writes 1 0
        (wrap ("enforce " ++ budget.spec.enforcement.action)
          (enforce num cl (new budget.spec.enforcement.action) budget p now))
        (record_enforcement num cl budget now)
        (enforce-Writes num cl (new budget.spec.enforcement.action) budget p now)
        (record_enforcement-Writes budget now)

  pub maybe_enforce-Writes :
      (budget : GpuWorkloadBudget Quantity) (pods : List (Pod Quantity)) (now : Time)
      → Writes 1 (maybe_enforce num cl budget pods now)
  unfolding maybe_enforce
  maybe_enforce-Writes budget pods now h =
      elim (Bool-cases (
        is_due (cl.find_status_condition budget.status.conditions condition_quota_exceeded)
          (grace_of budget) now)) [
            | inl e ↦ rw e (enforce_on-Writes budget now (offender_of budget pods now) h)
            | inr e ↦ rw e (omega arith)
          ]

  -- A run that finds nothing to enforce, or not yet, makes no call and returns without error.
  pub maybe_enforce_idle :
      (budget : GpuWorkloadBudget Quantity) (pods : List (Pod Quantity)) (now : Time)
      (h : List (Call Quantity Float))
      → (is_due
            (cl.find_status_condition budget.status.conditions condition_quota_exceeded)
            (grace_of budget)
            now
          ≡ false)
        ⊎ (offender_of budget pods now ≡ none)
      → maybe_enforce num cl budget pods now h ≡ (h, ok tt)
  unfolding maybe_enforce enforce_on
  maybe_enforce_idle budget pods now h (inl e) = rw e refl
  maybe_enforce_idle budget pods now h (inr e) =
      elim (Bool-cases (
        is_due (cl.find_status_condition budget.status.conditions condition_quota_exceeded)
          (grace_of budget) now)) [ inl d ↦ rw (d, e) refl | inr d ↦ rw d refl ]

  -- `maybeEnforce` either makes no call and returns without error, or the grace period of a True
  -- condition has passed and there is an offender; in every case it changes at most one pod.
  pub maybe_enforce_gate :
      (budget : GpuWorkloadBudget Quantity) (pods : List (Pod Quantity)) (now : Time)
      (h : List (Call Quantity Float))
      → ((maybe_enforce num cl budget pods now h ≡ (h, ok tt))
          ⊎ (HasExpired
                (cl.find_status_condition budget.status.conditions condition_quota_exceeded)
                (grace_of budget)
                now
              × ((p : Pod Quantity) × (offender_of budget pods now ≡ some p))))
        × (pod_writes (maybe_enforce num cl budget pods now h).0 ≤ 1 + pod_writes h)
  maybe_enforce_gate budget pods now h =
      let o = cl.find_status_condition budget.status.conditions condition_quota_exceeded in
      (
        elim (Bool-cases (is_due o (grace_of budget) now)) [
          | inl d ↦ elim (Option-cases (offender_of budget pods now)) [
            | inl e ↦ inl (maybe_enforce_idle budget pods now h (inr e))
            | inr e ↦ inr (is_due-HasExpired o (grace_of budget) now d, e)
          ]
          | inr d ↦ inl (maybe_enforce_idle budget pods now h (inl d))
        ],
        maybe_enforce-Writes budget pods now h,
      )
