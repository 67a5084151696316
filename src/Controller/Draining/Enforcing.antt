-- ===== src/Controller/Draining/Enforcing.antt =====
-- An enforcer does not raise the sum of the changes made and left: it changes a live pod, and one
-- without a stamp if it stamps.
use gpu_k8s_operator.Prelude.{
  ◌+◌, ◌≤◌, ◌≡◌, ◌≢◌, refl, ◌∙◌, true, false, String, Option, none, some, List, ◌∷◌, IsIn, arith,
  Bool-cases, inl, inr, Result, ok, err,
}
use gpu_k8s_operator.GoTime.{Time}
use gpu_k8s_operator.Numbers.{Numbers}
use gpu_k8s_operator.Kube.{Pod, lookup, insert}
use gpu_k8s_operator.Kube.Maps.{lookup-insert}
use gpu_k8s_operator.Api.{GpuWorkloadBudget}
use gpu_k8s_operator.Cluster.{
  Cluster, Call, evict_pod, patch_pod, event, is_not_found, is_too_many_requests,
}
use gpu_k8s_operator.Enforcement.{
  Enforcer, evictor, pauser, alerter, enforce, evict_answer, evict_unless, pause_unless,
  eviction_of, stamp, alert, annotation_paused_at, event_type_warning,
}
use gpu_k8s_operator.Controller.Draining.{weight_of, is_ok, IsAlone}
use gpu_k8s_operator.Controller.Draining.Pods.{remove_lt, replace_lt}
use gpu_k8s_operator.Controller.Draining.Rules.{potential, LowersAt, quiet-Lowers, call-IsQuiet}

module _ (num : Numbers) (cl : Cluster num)
    (live : List (Call num.Quantity num.Float) → List (Pod num.Quantity))
    (alone : IsAlone num cl live) (budget : GpuWorkloadBudget num.Quantity)
    (pod : Pod num.Quantity) where
  open num use {Float, Quantity}

  abbrev sum : List (Call Quantity Float) → gpu_k8s_operator.Prelude.ℕ
  sum h = potential num cl live h

  evict_call :
      (h : List (Call Quantity Float))
      → IsIn pod (live h)
      → sum (evict_pod pod.namespace (eviction_of num cl budget pod) ∷ h) ≤ sum h
  evict_call h m =
      let e = eviction_of num cl budget pod in
      elim (Bool-cases (is_ok (cl.evict h pod.namespace e))) [
        | inl y ↦
            let gone = alone.evicts h pod.namespace e y in
            rw (y, gone) (omega (arith, remove_lt pod (live h) m))
        | inr n ↦
            quiet-Lowers num cl live h (evict_pod pod.namespace e ∷ h)
              (call-IsQuiet num cl live alone h (evict_pod pod.namespace e) n)
      ]

  warn_Lowers :
      (h : List (Call Quantity Float)) (reason msg : String)
      → sum (event budget.namespace budget.name event_type_warning reason msg ∷ h) ≤ sum h
  warn_Lowers h reason msg =
      let c : Call Quantity Float =
        event budget.namespace budget.name event_type_warning reason msg in
      quiet-Lowers num cl live h (c ∷ h) (call-IsQuiet num cl live alone h c refl)

  evict_answer-Lowers :
      (a : Result (Unit {0})) (h : List (Call Quantity Float))
      → LowersAt num cl live (evict_answer num cl budget pod a) h
  evict_answer-Lowers (ok done) h = warn_Lowers h _ _
  evict_answer-Lowers (err e) h = elim (Bool-cases (is_not_found e)) [
    | inl p ↦ rw p (omega arith)
    | inr p ↦ elim (Bool-cases (is_too_many_requests e)) [
      | inl q ↦ rw (p, q) (warn_Lowers h _ _)
      | inr q ↦ rw (p, q) (omega arith)
    ]
  ]

  evict_unless-Lowers :
      (o : Option Time) (h : List (Call Quantity Float))
      → IsIn pod (live h)
      → LowersAt num cl live (evict_unless num cl budget pod o) h
  evict_unless-Lowers (some t) h m = omega arith
  evict_unless-Lowers none h m =
      let e = eviction_of num cl budget pod in
      omega (
        arith,
        evict_call h m,
        evict_answer-Lowers (cl.evict h pod.namespace e) (evict_pod pod.namespace e ∷ h),
      )

  stamp_weight :
      (now : Time)
      → weight_of (lookup annotation_paused_at (stamp num cl budget pod now).annotations) ≡ 1
  unfolding stamp
  stamp_weight now =
      rw
        (
          lookup-insert gpu_k8s_operator.Enforcement.annotation_paused_by annotation_paused_at _
              (insert annotation_paused_at (cl.format_rfc3339 now) pod.annotations),
          lookup-insert annotation_paused_at annotation_paused_at (cl.format_rfc3339 now)
              pod.annotations,
        )
        refl

  patch_call :
      (now : Time) (h : List (Call Quantity Float))
      → lookup annotation_paused_at pod.annotations ≡ none
      → IsIn pod (live h)
      → sum (patch_pod pod (stamp num cl budget pod now) ∷ h) ≤ sum h
  patch_call now h free m =
      let stamped = stamp num cl budget pod now in
      elim (Bool-cases (is_ok (cl.patch h pod stamped))) [
        | inl y ↦
            let put = alone.patches h pod stamped y in
            rw (y, put) (omega (arith, replace_lt pod stamped (stamp_weight now) (live h) free m))
        | inr n ↦
            quiet-Lowers num cl live h (patch_pod pod stamped ∷ h)
              (call-IsQuiet num cl live alone h (patch_pod pod stamped) n)
      ]

  pause_answer-Lowers :
      (now : Time) (h : List (Call Quantity Float)) (a : Result (Pod Quantity))
      → lookup annotation_paused_at pod.annotations ≡ none
      → IsIn pod (live h)
      → cl.patch h pod (stamp num cl budget pod now) ≡ a
      → LowersAt num cl live (pause_unless num cl budget pod now none) h
  pause_answer-Lowers now h (ok patched) free m e = rw e (
      omega (
        arith,
        patch_call now h free m,
        warn_Lowers (patch_pod pod (stamp num cl budget pod now) ∷ h) _ _,
      ))
  pause_answer-Lowers now h (err x) free m e = rw e (patch_call now h free m)

  pause_unless-Lowers :
      (now : Time) (o : Option String) (h : List (Call Quantity Float))
      → lookup annotation_paused_at pod.annotations ≡ o
      → IsIn pod (live h)
      → LowersAt num cl live (pause_unless num cl budget pod now o) h
  pause_unless-Lowers now (some t) h e m = omega arith
  pause_unless-Lowers now none h e m =
      pause_answer-Lowers now h (cl.patch h pod (stamp num cl budget pod now)) e m refl

  pub enforce-Lowers :
      (e : Enforcer) (now : Time) (h : List (Call Quantity Float))
      → IsIn pod (live h)
      → LowersAt num cl live (enforce num cl e budget pod now) h
  unfolding enforce alert
  enforce-Lowers evictor now h m = evict_unless-Lowers pod.deletion_timestamp h m
  enforce-Lowers pauser now h m =
      pause_unless-Lowers now (lookup annotation_paused_at pod.annotations) h refl m
  enforce-Lowers alerter now h m = warn_Lowers h _ _
