-- ===== src/Enforcement.antt =====
-- internal/enforcement: one enforcer for each action, and its dispatch.
-- Messages are the source's, built from the pod's key. `clientset` and `recorder` are the cluster:
-- cmd/main.go always sets them.
pub mod Effects
pub mod Outcomes
pub mod Writes
pub mod Success
pub mod Tests
use Prim.Native.String.{◌++◌}
use text.Mathlib.Text.{◌==◌ as str_eq}
use gpu_k8s_operator.Prelude.{
  Bool, true, false, String, Option, none, some, ℤ, Result, ok, err, Error, wrapped, if◌then◌else◌,
}
use gpu_k8s_operator.GoTime.{Time}
use gpu_k8s_operator.Numbers.{Numbers}
use gpu_k8s_operator.Kube.{Pod, lookup, insert}
use gpu_k8s_operator.Api.{
  EnforcementAction, action_evict, action_pause, action_alert_only, GpuWorkloadBudget,
}
use gpu_k8s_operator.Cluster.{
  Cluster, Call, event, evict_pod, patch_pod, Eviction, is_not_found, is_too_many_requests, M, ret,
  fail, ◌>>=◌, ◌>>◌, call, emit, wrap, attempt,
}

pub record Outcome : Type 0 where
  pub action : EnforcementAction
  pub acted : Bool
  pub pod_key : String
  pub reason : String
  pub message : String

-- The implementations of the interface `Enforcer`.
pub data Enforcer : Type 0 where
  evictor pauser alerter : Enforcer

-- `New`
unfoldable pub new : EnforcementAction → Enforcer
new action =
    if str_eq action action_evict
    then evictor
    else if str_eq action action_pause
    then pauser
    else alerter

abbrev pub annotation_paused_at : String
annotation_paused_at = "budget.zxuhan.dev/paused-at"

abbrev pub annotation_paused_by : String
annotation_paused_by = "budget.zxuhan.dev/paused-by"

abbrev pub event_type_warning : String
event_type_warning = "Warning"

abbrev pub pod_key : {Q : Type 0} → Pod Q → String
pod_key pod = pod.namespace ++ "/" ++ pod.name

module _ (num : Numbers) (cl : Cluster num) where
  open num use {Float, Quantity}

  -- `recorder.Event(budget, corev1.EventTypeWarning, reason, msg)`
  abbrev pub warn : GpuWorkloadBudget Quantity → String → String → M Quantity Float (Unit {0})
  warn budget reason msg = emit (event budget.namespace budget.name event_type_warning reason msg)

  abbrev pub outcome : EnforcementAction → Bool → Pod Quantity → String → String → Outcome
  outcome action acted pod reason message = record {
    action = action;
    acted = acted;
    pod_key = pod_key pod;
    reason = reason;
    message = message;
  }

  -- `(*alerter).Enforce`
  unfoldable pub alert : GpuWorkloadBudget Quantity → Pod Quantity → M Quantity Float Outcome
  alert budget pod = do
    let msg =
        "Quota exceeded; AlertOnly mode — no pods modified. Top offender: " ++ pod_key pod ++ "."
    warn budget "QuotaExceeded" msg
    ret (outcome action_alert_only false pod "QuotaExceeded" msg)

  -- The answer to the eviction, in `(*evictor).Enforce`.
  abbrev pub evict_answer :
      GpuWorkloadBudget Quantity → Pod Quantity → Result (Unit {0}) → M Quantity Float Outcome
  evict_answer budget pod (ok done) = do
    let msg = "Evicted pod " ++ pod_key pod ++ " after quota exceeded."
    warn budget "Evicted" msg
    ret (outcome action_evict true pod "Evicted" msg)
  evict_answer budget pod (err e) =
      let blocked =
        "Eviction of " ++ pod_key pod ++ " blocked by PodDisruptionBudget; will retry." in
      if is_not_found e
      then ret (
          outcome action_evict false pod "PodAlreadyGone"
            ("Pod " ++ pod_key pod ++ " disappeared before eviction completed."))
      else if is_too_many_requests e
      then (warn budget "EvictionBlocked" blocked
          >> ret (outcome action_evict false pod "EvictionBlocked" blocked))
      else fail (wrapped ("evict " ++ pod_key pod) e)

  abbrev pub eviction_of : GpuWorkloadBudget Quantity → Pod Quantity → Eviction
  eviction_of budget pod = record {
    name = pod.name;
    namespace = pod.namespace;
    grace_period_seconds = budget.spec.enforcement.grace_period_seconds;
  }

  abbrev pub evict_unless :
      GpuWorkloadBudget Quantity → Pod Quantity → Option Time → M Quantity Float Outcome
  evict_unless budget pod (some deleted) = ret (
      outcome action_evict false pod "AlreadyTerminating"
        ("Pod " ++ pod_key pod ++ " is already terminating."))
  evict_unless budget pod none = do
    answer ← attempt (
        call (evict_pod pod.namespace (eviction_of budget pod))
          (λ h. cl.evict h pod.namespace (eviction_of budget pod)))
    evict_answer budget pod answer

  -- `(*evictor).Enforce`
  unfoldable pub evict : GpuWorkloadBudget Quantity → Pod Quantity → M Quantity Float Outcome
  evict budget pod = evict_unless budget pod pod.deletion_timestamp

  -- The pod with the two annotations of `(*pauser).Enforce`.
  unfoldable pub stamp : GpuWorkloadBudget Quantity → Pod Quantity → Time → Pod Quantity
  stamp budget pod now = record pod {
    annotations =
        insert annotation_paused_by (budget.namespace ++ "/" ++ budget.name)
          (insert annotation_paused_at (cl.format_rfc3339 now) pod.annotations);
  }

  abbrev pub pause_unless :
      GpuWorkloadBudget Quantity → Pod Quantity → Time → Option String → M Quantity Float Outcome
  pause_unless budget pod now (some already) = ret (
      outcome action_pause false pod "AlreadyPaused"
        ("Pod " ++ pod_key pod ++ " already carries the pause annotation."))
  pause_unless budget pod now none = do
    let stamped = stamp budget pod now
    patched ←
        wrap ("stamp pause annotation on " ++ pod_key pod)
          (call (patch_pod pod stamped) (λ h. cl.patch h pod stamped))
    let msg = "Paused pod " ++ pod_key patched ++ " after quota exceeded."
    warn budget "Paused" msg
    ret (outcome action_pause true patched "Paused" msg)

  -- `(*pauser).Enforce`
  unfoldable pub pause : GpuWorkloadBudget Quantity → Pod Quantity → Time → M Quantity Float Outcome
  unfolding stamp
  pause budget pod now = pause_unless budget pod now (lookup annotation_paused_at pod.annotations)

  unfoldable pub enforce :
      Enforcer → GpuWorkloadBudget Quantity → Pod Quantity → Time → M Quantity Float Outcome
  unfolding alert evict pause
  enforce evictor budget pod now = evict budget pod
  enforce pauser budget pod now = pause budget pod now
  enforce alerter budget pod now = alert budget pod
