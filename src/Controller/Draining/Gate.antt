-- ===== src/Controller/Draining/Gate.antt =====
-- What follows the accounting does not raise the sum of the changes made and left.
use Prim.Native.String.{◌++◌ as append_text}
use gpu_k8s_operator.Prelude.{
  ◌≤◌, ◌≡◌, refl, false, Option, none, some, List, [], ◌∷◌, ◌++◌, All, IsIn, arith, Bool-cases, inl,
  inr,
}
use gpu_k8s_operator.GoTime.{Time, add, opposite}
use gpu_k8s_operator.Numbers.{Numbers}
use gpu_k8s_operator.Accounting.{Result as AccResult}
use gpu_k8s_operator.Kube.{Pod}
use gpu_k8s_operator.Api.{GpuWorkloadBudget, condition_quota_exceeded}
use gpu_k8s_operator.Cluster.{Cluster, Call, patch_status, inc_counter, M, ret, call, wrap}
use gpu_k8s_operator.Offender.Chosen.{AllSome, pick_worst_offender-AllSome}
use gpu_k8s_operator.Enforcement.{Outcome, new, enforce}
use gpu_k8s_operator.Enforcement.Effects.{is_pod_write}
use gpu_k8s_operator.Controller.Status.{over_budget_requeue_interval, gpu_resource_name}
use gpu_k8s_operator.Controller.Enforcing.{
  grace_of, window_of, is_due, with_enforced, record_enforcement, enforce_on, maybe_enforce,
}
use gpu_k8s_operator.Controller.Enforcing.Gate.{offender_of}
use gpu_k8s_operator.Controller.Reconciler.{conclude}
use gpu_k8s_operator.Controller.Draining.{IsAlone, AreAmong}
use gpu_k8s_operator.Controller.Draining.Rules.{potential, LowersAt, bind-Lowers, calls_Lower}
use gpu_k8s_operator.Controller.Draining.Enforcing.{enforce-Lowers}

module _ (num : Numbers) (cl : Cluster num)
    (live : List (Call num.Quantity num.Float) → List (Pod num.Quantity))
    (alone : IsAlone num cl live) where
  open num use {Float, Quantity}

  abbrev Lowers : {A : Type 0} → M Quantity Float A → List (Call Quantity Float) → Type 0
  Lowers m h = LowersAt num cl live m h

  quiet :
      (h cs : List (Call Quantity Float))
      → All (λ c. is_pod_write c ≡ false) cs
      → potential num cl live (cs ++ h) ≤ potential num cl live h
  quiet h cs all = calls_Lower num cl live alone h cs all

  record_enforcement-Lowers :
      (budget : GpuWorkloadBudget Quantity) (now : Time) (out : Outcome)
      (h : List (Call Quantity Float))
      → Lowers (record_enforcement num cl budget now out) h
  unfolding record_enforcement
  record_enforcement-Lowers budget now out h =
      let changed = with_enforced num cl budget now in
      let counted : Call Quantity Float = inc_counter budget.namespace budget.name out.action in
      omega (
        arith,
        bind-Lowers num cl live
            (wrap "patch last enforcement time"
              (call (patch_status budget changed) (λ h. cl.patch_budget h budget changed)))
            (λ _. ret tt) (counted ∷ h)
            (quiet (counted ∷ h) (patch_status budget changed ∷ []) (refl, tt))
            (λ a e. omega arith),
        quiet h (counted ∷ []) (refl, tt),
      )

  enforce_on-Lowers :
      (budget : GpuWorkloadBudget Quantity) (now : Time) (o : Option (Pod Quantity))
      (h : List (Call Quantity Float))
      → AllSome (λ p. IsIn p (live h)) o
      → Lowers (enforce_on num cl budget now o) h
  unfolding enforce_on
  enforce_on-Lowers budget now none h m = omega arith
  enforce_on-Lowers budget now (some p) h m =
      bind-Lowers num cl live
        (wrap (append_text "enforce " budget.spec.enforcement.action)
          (enforce num cl (new budget.spec.enforcement.action) budget p now))
        (record_enforcement num cl budget now) h
        (enforce-Lowers num cl live alone budget p (new budget.spec.enforcement.action) now h m)
        (λ out e. record_enforcement-Lowers budget now out _)

  maybe_enforce-Lowers :
      (budget : GpuWorkloadBudget Quantity) (pods : List (Pod Quantity)) (now : Time)
      (h : List (Call Quantity Float))
      → AreAmong pods (live h)
      → Lowers (maybe_enforce num cl budget pods now) h
  unfolding maybe_enforce
  maybe_enforce-Lowers budget pods now h among =
      elim (Bool-cases (
        is_due (cl.find_status_condition budget.status.conditions condition_quota_exceeded)
          (grace_of budget) now)) [
            | inl e ↦ rw e (
                enforce_on-Lowers budget now (offender_of num cl budget pods now) h (
                  pick_worst_offender-AllSome num (gpu_resource_name budget)
                    (add now (opposite (window_of budget))) now (λ p. IsIn p (live h)) pods among))
            | inr e ↦ rw e (omega arith)
          ]

  pub conclude-Lowers :
      (budget : GpuWorkloadBudget Quantity) (pods : List (Pod Quantity)) (now : Time)
      (result : AccResult Float) (h : List (Call Quantity Float))
      → AreAmong pods (live h)
      → Lowers (conclude num cl budget pods now result) h
  unfolding conclude
  conclude-Lowers budget pods now result h among = elim (Bool-cases result.over) [
    | inl e ↦ rw e (
        bind-Lowers num cl live (maybe_enforce num cl budget pods now)
          (λ _. ret over_budget_requeue_interval) h (maybe_enforce-Lowers budget pods now h among)
          (λ a e. omega arith))
    | inr e ↦ rw e (omega arith)
  ]
